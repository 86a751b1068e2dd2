-- ===== src/Zone/Driver.antt =====
-- zone-allocator/main.c: random calls of the zone allocator. `rand` is the numbers that `rand()`
-- gives, in order, and `r` how many were taken. What it prints is left out, but for the steps at which
-- a control sum was wrong. A control sum is the exclusive or of characters, kept here as a byte: the
-- source compares the sums with their signs extended, which are equal if the bytes are.
use system_sw.Prelude.{
  ℕ, zero, suc, ◌+◌, ◌%◌, Bool, true, false, ◌||◌, Option, none, some, List, [], ◌∷◌, ◌==◌,
  if◌then◌else◌, ◌>>=◌, length,
}
use Prim.Native.Nat.{bit_xor}
use system_sw.Memory.{Bytes}
use system_sw.Linear.Args.{same_text, atoi, option}
use system_sw.Linear.Driver.{checksum}
use system_sw.Zone.{ZoneInfo, put, alc_init}
use system_sw.Zone.Ops.{mem_alloc, mem_free}
use system_sw.Zone.Ops.Realloc.{mem_realloc}

-- `N` and `max_size`
abbrev pub list_len : ℕ
list_len = 100

abbrev pub max_size : ℕ
max_size = 5000

pub record Options : Type 0 where
  pub amount : ℕ
  pub page : ℕ
  pub verbose : Bool

-- The loop over `argv` from 1 on, for `-m`, `-p` and `-v`. `none` is `atoi(NULL)`, behind a last `-m`
-- or `-p`.
pub read_loop : List (List ℕ) → Options → Option Options
read_loop [] o = some o
read_loop (arg ∷ []) o =
    if same_text arg (option 109) || same_text arg (option 112)
    then none
    else some (if same_text arg (option 118) then record o { verbose = true } else o)
read_loop (arg ∷ value ∷ args) o =
    let with_amount = read_loop args (record o { amount = atoi value }) in
    let with_page = read_loop args (record o { page = atoi value }) in
    let verbose = read_loop (value ∷ args) (record o { verbose = true }) in
    let rest = read_loop (value ∷ args) o in
    if same_text arg (option 109)
    then with_amount
    else if same_text arg (option 112)
    then with_page
    else if same_text arg (option 118)
    then verbose
    else rest

-- the options, or the usage and `exit(0)`; the arguments are those behind the program's name
pub data Args : Type 0 where
  usage : Args
  with_options : Options → Args

pub read_args : List (List ℕ) → Option Args
read_args args =
    read_loop args (record { amount = 0; page = 0; verbose = false })
    >>= (λ o. some (if o.amount == 0 || length args == 0 then usage else with_options o))

-- the allocator, the numbers taken, `list`, `sizes` and `checksums`, and the steps with an error
pub record Run : Type 0 where
  pub z : ZoneInfo
  pub r : ℕ
  pub list : ℕ → Option ℕ
  pub sizes : ℕ → ℕ
  pub checksums : ℕ → ℕ
  pub errors : List ℕ

-- `if (cs != checksums[id])`
pub check : ℕ → ℕ → ℕ → Run → Run
check i id t s =
    if checksum (s.sizes id) t s.z.memory 0 == s.checksums id
    then s
    else record s { errors = i ∷ s.errors }

module _ (rand : ℕ → ℕ) where
  -- the loop that fills the `n` bytes at `t` with random bytes: the memory and the control sum
  pub fill_bytes : ℕ → ℕ → Bytes → ℕ → ℕ → Bytes × ℕ
  fill_bytes zero t m r cs = (m, cs)
  fill_bytes (suc n) t m r cs =
      let value = rand r % 256 in fill_bytes n (t + 1) (put m t value) (r + 1) (bit_xor cs value)

  -- the block at `t` of `new_size` bytes becomes entry `id`, filled
  pub filled : ℕ → ℕ → ℕ → Run → Run
  filled id t new_size s =
      let (m, cs) = fill_bytes new_size t s.z.memory s.r 0 in
      record s {
        z = record s.z { memory = m };
        r = s.r + new_size;
        list = put s.list id (some t);
        sizes = put s.sizes id new_size;
        checksums = put s.checksums id cs;
      }

  pub free_entry : ℕ → ℕ → ℕ → Run → Option Run
  free_entry i id t s =
      let s' = check i id t s in
      mem_free t s'.z >>= (λ z. some (record s' { z = z; list = put s'.list id none }))

  -- an entry whose block could not be moved stays as it was
  pub moved_entry : ℕ → ℕ → Run → Option ℕ × ZoneInfo → Run
  moved_entry id new_size s (none, z) = record s { z = z }
  moved_entry id new_size s (some t, z) = filled id t new_size (record s { z = z })

  pub realloc_entry : ℕ → ℕ → ℕ → ℕ → Run → Option Run
  realloc_entry i id t new_size s =
      let s' = check i id t s in
      mem_realloc t new_size s'.z >>= (λ out. some (moved_entry id new_size s' out))

  pub new_entry : ℕ → ℕ → Run → Option ℕ × ZoneInfo → Run
  new_entry id new_size s (none, z) = record s { z = z; list = put s.list id none }
  new_entry id new_size s (some t, z) = filled id t new_size (record s { z = z })

  -- what a step does with the entry drawn
  pub act : ℕ → ℕ → ℕ → Option ℕ → Run → Option Run
  act i id new_size none s = mem_alloc new_size s.z >>= (λ out. some (new_entry id new_size s out))
  act i id new_size (some t) s =
      let s' = record s { r = s.r + 1 } in
      let freed = free_entry i id t s' in
      let moved = realloc_entry i id t new_size s' in if rand s.r % 2 == 0 then moved else freed

  -- step `i`: the entry, a number that is not used, and the new size are drawn
  pub step : ℕ → Run → Option Run
  step i s =
      let id = rand s.r % list_len in
      let new_size = rand (s.r + 2) % max_size in
      act i id new_size (s.list id) (record s { r = s.r + 3 })

  -- `n` steps from step `i` on
  pub steps : ℕ → ℕ → Run → Option Run
  steps zero i s = some s
  steps (suc n) i s = step i s >>= steps n (i + 1)

-- the loop that frees the entries, `n` of them from `i` on
pub free_list : ℕ → ℕ → (ℕ → Option ℕ) → ZoneInfo → Option ZoneInfo
free_list zero i list z = some z
free_list (suc n) i list z = elim (list i) [
  | none ↦ free_list n (i + 1) list z
  | some t ↦ mem_free t z >>= free_list n (i + 1) list
]

-- the end of the program: by `exit`, by a signal, or with the allocator and the errors
pub data MainResult : Type 0 where
  stopped : MainResult
  killed : MainResult
  exited : ZoneInfo → List ℕ → MainResult

-- `main` from `alc_init` on; `raw` is what the allocated memory holds, and the arrays are zeroed
pub run_steps : (ℕ → ℕ) → Option ZoneInfo → Options → Option MainResult
run_steps rand raw o = elim (alc_init o.amount o.page raw) [
  | none ↦ some stopped
  | some z ↦
      steps rand 2000 0
        (record { z = z; r = 0; list = λ k. none; sizes = λ k. 0; checksums = λ k. 0; errors = [] })
      >>= (λ s. free_list list_len 0 s.list s.z >>= (λ z'. some (exited z' s.errors)))
]

-- `alc_init` divides by the size of a page, which `read_args` does not ask for.
pub run_main : (ℕ → ℕ) → Option ZoneInfo → Options → Option MainResult
run_main rand raw o = let run = run_steps rand raw o in if o.page == 0 then some killed else run

pub main : (ℕ → ℕ) → Option ZoneInfo → List (List ℕ) → Option MainResult
main rand raw args = elim (read_args args) [
  | none ↦ some killed
  | some usage ↦ some stopped
  | some (with_options o) ↦ run_main rand raw o
]
