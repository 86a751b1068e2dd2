-- ===== src/Linear/Args.antt =====
-- The command line of linear-allocator/main.c. A string is the list of its characters.
use system_sw.Prelude.{
  ℕ, ◌+◌, ◌-◌, ◌*◌, Bool, true, false, ◌&&◌, ◌||◌, Option, none, some, List, [], ◌∷◌, leb, ◌==◌,
  if◌then◌else◌, ◌>>=◌, length,
}
use system_sw.Prelude.Word.{wrap, sub32}

-- `strcmp(a, b) == 0`
unfoldable pub same_text : List ℕ → List ℕ → Bool
same_text [] [] = true
same_text [] (d ∷ ds) = false
same_text (c ∷ cs) [] = false
same_text (c ∷ cs) (d ∷ ds) = c == d && same_text cs ds

-- `atoi`, as the `size_t` that its result is kept in: spaces, a sign and digits
abbrev pub is_digit : ℕ → Bool
is_digit c = leb 48 c && leb c 57

unfoldable pub digits : ℕ → List ℕ → ℕ
digits n [] = n
digits n (c ∷ cs) = let rest = digits (10 * n + (c - 48)) cs in if is_digit c then rest else n

unfoldable pub signed : List ℕ → ℕ
signed [] = 0
signed (c ∷ cs) =
    if c == 45
    then sub32 0 (wrap (digits 0 cs))
    else if c == 43
    then wrap (digits 0 cs)
    else wrap (digits 0 (c ∷ cs))

unfoldable pub atoi : List ℕ → ℕ
atoi [] = 0
atoi (c ∷ cs) =
    let rest = atoi cs in if c == 32 || (leb 9 c && leb c 13) then rest else signed (c ∷ cs)

-- the options, all of them off at first
pub record Options : Type 0 where
  pub amount : ℕ
  pub verbose : Bool
  pub dumps : Bool
  pub stats : Bool
  pub test : Bool

abbrev pub no_options : Options
no_options = record { amount = 0; verbose = false; dumps = false; stats = false; test = false }

-- `-m`, `-v`, `-d`, `-s` and `-t`
abbrev pub option : ℕ → List ℕ
option c = 45 ∷ c ∷ []

-- the last test of the loop's body, which is made for `-m` too, on the amount behind it
unfoldable pub read_t : List ℕ → Options → Options
read_t arg o = if same_text arg (option 116) then record o { test = true } else o

-- the options without a value
unfoldable pub read_flag : List ℕ → Options → Options
read_flag arg o =
    if same_text arg (option 118)
    then record o { verbose = true }
    else if same_text arg (option 100)
    then record o { dumps = true }
    else if same_text arg (option 115)
    then record o { stats = true }
    else o

-- The loop over `argv` from 1 on. `none` is `atoi(NULL)`, behind a last `-m`.
unfoldable pub read_loop : List (List ℕ) → Options → Option Options
read_loop [] o = some o
read_loop (arg ∷ []) o =
    if same_text arg (option 109) then none else some (read_t arg (read_flag arg o))
read_loop (arg ∷ value ∷ args) o =
    let with_value = read_loop args (read_t value (record o { amount = atoi value })) in
    let rest = read_loop (value ∷ args) (read_t arg (read_flag arg o)) in
    if same_text arg (option 109) then with_value else rest

-- the options, or the usage and `exit(0)`; the arguments are those behind the program's name
pub data Args : Type 0 where
  usage : Args
  with_options : Options → Args

unfoldable pub read_args : List (List ℕ) → Option Args
read_args args =
    read_loop args no_options
    >>= (λ o. some (if o.amount == 0 || length args == 0 then usage else with_options o))
