-- ===== src/Zone.antt =====
-- zone-allocator/allocator.c. An address is an offset from `mi.memory`. The tables at its start, the
-- descriptors, the links in free blocks and the data are kept apart, as the source reads each by its
-- own type. `none` of an operation is a dereference of no descriptor or an end of the fuel.
pub mod Pages
pub mod Ops
pub mod Rounding
pub mod Driver
pub mod Dump
mod Tests
use system_sw.Prelude.{
  ℕ, zero, suc, ◌+◌, ◌-◌, ◌*◌, ◌/◌, ◌%◌, ◌^◌, ◌≤◌, ◌<◌, min, ◌≡◌, ◌∙◌, refl, sym, ap, subst, ◌≢◌,
  ◌↔◌, ◌⊎◌, inl, inr, Bool, true, false, not, ◌&&◌, ◌||◌, Option, none, some, List, [], ◌∷◌, ◌++◌,
  map, arith, ltb, leb, ◌==◌, if◌then◌else◌, ltb→lt, lt→ltb, le→not_ltb, le→leb, lt→not_leb,
  Bool-cases, ◌>>=◌, length, length-append,
}
use system_sw.Prelude.Word.{
  wrap, sub32, positive, wrap_small, sub32_small, sub32_neg, positive_small, not_positive_of_neg,
  positive-sub32,
}
use system_sw.Memory.{Bytes, at, copy}

-- `sizeof(descriptor)`
abbrev pub size_d : ℕ
size_d = 24

-- an entry of `mi.descriptors`: `STATE_FREE`, `STATE_BUSY`, `STATE_MULTIPAGE` or an address
pub data PageState : Type 0 where
  state_free : PageState
  state_busy : PageState
  state_multipage : PageState
  desc : ℕ → PageState

pub record Descriptor : Type 0 where
  pub free_count : ℕ
  pub index : ℕ
  pub class : ℕ
  pub block : Option ℕ
  pub next : Option ℕ
  pub prev : Option ℕ

-- `alc_info`, with the descriptors by address, the word at the start of each free block, and the data.
-- These are maps of their own, which stand for the one memory as long as the blocks that are freed were
-- handed out, and are not written to afterwards. `page_classes` holds the bit patterns of its characters.
pub record ZoneInfo : Type 0 where
  pub amount : ℕ
  pub page_count : ℕ
  pub page_size : ℕ
  pub class_count : ℕ
  pub descriptors : ℕ → PageState
  pub classes : ℕ → Option ℕ
  pub page_classes : ℕ → ℕ
  pub store : ℕ → Descriptor
  pub links : ℕ → Option ℕ
  pub memory : Bytes

abbrev pub put {ℓ} : {A : Type ℓ} → (ℕ → A) → ℕ → A → ℕ → A
put f i v k = if k == i then v else f k

-- a loop that stores `v` at `n` places from `i` on
pub fill {ℓ} : {A : Type ℓ} → (ℕ → A) → ℕ → ℕ → A → ℕ → A
fill f i zero v = f
fill f i (suc n) v = fill (put f i v) (i + 1) n v

-- `(int)log2(n)`, each round halves, and 32 are enough for a word
pub log2_loop : ℕ → ℕ → ℕ
log2_loop zero n = 0
log2_loop (suc f) n = let rest = 1 + log2_loop f (n / 2) in if ltb n 2 then 0 else rest

abbrev pub log2 : ℕ → ℕ
log2 n = log2_loop 32 n

-- the value of a signed character, where it is not negative
abbrev pub char_value : ℕ → ℕ
char_value c = if ltb c 128 then c else 0

-- `round_pow_2`: the exponent of `(float)(v - 1)`, whose 24 bits are rounded to the nearest, and one
pub float_exponent : ℕ → ℕ
float_exponent n =
    let e = log2 n in if ltb 23 e && leb (2 ^ (e + 1)) (n + 2 ^ (e - 24)) then e + 1 else e

pub round_pow_2 : ℕ → ℕ
round_pow_2 v = wrap (2 ^ (float_exponent (v - 1) + 1))

pub is_free : PageState → Bool
is_free state_free = true
is_free state_busy = false
is_free state_multipage = false
is_free (desc d) = false

abbrev pub page_addr : ZoneInfo → ℕ → ℕ
page_addr z i = z.page_size * i

abbrev pub page_of_addr : ZoneInfo → ℕ → ℕ
page_of_addr z a = a / z.page_size

-- `raw` is what the allocated memory holds; `none` is `exit(1)`.
pub alc_init : ℕ → ℕ → Option ZoneInfo → Option ZoneInfo
alc_init amount page none = none
alc_init amount page (some raw) =
    let page_count = amount / page in
    let class_count = log2 (page / 2) in
    some (record raw {
      amount = amount;
      page_count = page_count;
      page_size = page;
      class_count = class_count;
      descriptors = fill (put raw.descriptors 0 state_busy) 1 (page_count - 1) state_free;
      classes = fill raw.classes 1 (class_count - 1) none;
      page_classes = fill raw.page_classes 1 (page_count - 1) 0;
    })

-- the last descriptor of a list, on fuel
pub last_of : ℕ → (ℕ → Descriptor) → ℕ → Option ℕ
last_of zero store d = none
last_of (suc f) store d = elim ((store d).next) [ none ↦ some d | some n ↦ last_of f store n ]

pub link_last : ℕ → Option ℕ → ZoneInfo → ℕ → Option ZoneInfo
link_last class none z d = some (record z { classes = put z.classes class (some d) })
link_last class (some first) z d = last_of (z.page_count + 1) z.store first >>= (λ last.
    let s = put z.store last (record (z.store last) { next = some d }) in
    some (record z { store = put s d (record (s d) { prev = some last }) }))

pub append_page_to_class : ℕ → ℕ → ZoneInfo → Option ZoneInfo
append_page_to_class class d z = link_last class (z.classes class) z d >>= (λ z'.
    some (record z' { page_classes = put z'.page_classes (z'.store d).index (class % 256) }))

-- the neighbours of a descriptor in its list linked to each other
pub unlink_next : Option ℕ → Option ℕ → (ℕ → Descriptor) → ℕ → Descriptor
unlink_next none prev store = store
unlink_next (some n) prev store = put store n (record (store n) { prev = prev })

pub unlink_prev : Option ℕ → Option ℕ → (ℕ → Descriptor) → ℕ → Descriptor
unlink_prev none next store = store
unlink_prev (some p) next store = put store p (record (store p) { next = next })

-- `if (d->next) ...; if (d->prev) ...`
pub unlink_neighbours : ℕ → (ℕ → Descriptor) → ℕ → Descriptor
unlink_neighbours d store =
    let s = unlink_next (store d).next (store d).prev store in unlink_prev (s d).prev (s d).next s

abbrev pub is_first : Option ℕ → ℕ → Bool
is_first none d = false
is_first (some c) d = c == d

-- `remove_from_class`, for the descriptor `d` of the page
pub remove_from_class : ℕ → ZoneInfo → ZoneInfo
remove_from_class d z =
    let c = (z.store d).class in
    let classes =
      if is_first (z.classes c) d then put z.classes c (z.store d).next else z.classes in
    record z { classes = classes; store = unlink_neighbours d z.store }
