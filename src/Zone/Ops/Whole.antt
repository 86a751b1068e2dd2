-- ===== src/Zone/Ops/Whole.antt =====
-- A whole page of blocks of 32 bytes, handed out.
use system_sw.Prelude.{
  ℕ, zero, suc, ◌+◌, ◌-◌, ◌/◌, ◌^◌, ◌≤◌, ◌<◌, ◌≡◌, ◌∙◌, refl, sym, ap, subst, inl, inr, true, false,
  none, some, arith, leb, ◌==◌, if◌then◌else◌, Bool-cases, length,
}
use system_sw.Prelude.Word.{wrap}
use native.Mathlib.Nat.{mul-div_cancel_left}
use system_sw.Zone.{
  state_busy, ZoneInfo, log2, log2_loop, float_exponent, round_pow_2, is_free, page_addr,
  page_of_addr,
}
use system_sw.Zone.Pages.{find_loop}
use system_sw.Zone.Ops.{rounded}
use system_sw.Zone.Ops.Chain.{blocks_from, length-blocks_from, OpenPage}
use system_sw.Zone.Ops.Drain.{alloc_many, alloc_many-congr, Closed, drain}
use system_sw.Zone.Ops.Fresh.{block_count, opened, mem_alloc-opened, opened-OpenPage}

-- a size of up to 32 bytes gets a block of 32
from_24 : (k : ℕ) → k ≤ 8 → round_pow_2 (24 + k) ≡ 32
unfolding round_pow_2 float_exponent log2_loop wrap
from_24 zero h = refl
from_24 (suc zero) h = refl
from_24 (suc (suc zero)) h = refl
from_24 (suc (suc (suc zero))) h = refl
from_24 (suc (suc (suc (suc zero)))) h = refl
from_24 (suc (suc (suc (suc (suc zero))))) h = refl
from_24 (suc (suc (suc (suc (suc (suc zero)))))) h = refl
from_24 (suc (suc (suc (suc (suc (suc (suc zero))))))) h = refl
from_24 (suc (suc (suc (suc (suc (suc (suc (suc zero)))))))) h = refl
from_24 (suc (suc (suc (suc (suc (suc (suc (suc (suc k))))))))) h = absurd (omega arith)

rounded_32 : (size : ℕ) → size ≤ 32 → rounded size ≡ 32
rounded_32 size h = elim (Bool-cases (leb 24 size)) [
  | inl e ↦
      let k : 24 + (size - 24) ≡ size = ground arith in
      rw e (ap round_pow_2 (sym k) ∙ from_24 (size - 24) (omega arith))
  | inr e ↦ rw e (from_24 0 (omega arith))
]

-- page `i` is the first free one, of those behind page 0
pub record FirstFree (z : ZoneInfo) (i : ℕ) : Type 0 where
  pub behind : 1 ≤ i
  pub below : i < z.page_count
  pub free : is_free (z.descriptors i) ≡ true
  pub taken : (k : ℕ) → 1 ≤ k → k < i → is_free (z.descriptors k) ≡ false

find_first :
    (z : ZoneInfo) (i n j : ℕ)
    → FirstFree z i
    → 1 ≤ j
    → j ≤ i
    → i < j + n
    → find_loop z.descriptors 1 j n 0 ≡ some i
unfolding find_loop
find_first z i zero j f lo hi h = absurd (omega arith)
find_first z i (suc n) j f lo hi h = elim (Bool-cases (j == i)) [
  | inl e ↦
      let q : j ≡ i = ground arith in
      let here : is_free (z.descriptors j) ≡ true =
        subst (λ x. is_free (z.descriptors x) ≡ true) (sym q) f.free in
      let r : j + 1 - 1 ≡ i = omega arith in rw (here, r) refl
  | inr e ↦
      let not_here : is_free (z.descriptors j) ≡ false = f.taken j lo (ground arith) in
      rw not_here (find_first z i n (j + 1) f (omega arith) (ground arith) (omega arith))
]

-- the page is busy, in no class, and all else is as it was
pub record UsedUp (z z' : ZoneInfo) (i : ℕ) : Type 0 where
  pub descriptors : (k : ℕ) → z'.descriptors k ≡ (if k == i then state_busy else z.descriptors k)
  pub classes : (c : ℕ) → z'.classes c ≡ z.classes c
  pub page_classes : (k : ℕ) → z'.page_classes k ≡ (if k == i then 5 else z.page_classes k)
  pub memory : z'.memory ≡ z.memory
  pub page_size : z'.page_size ≡ z.page_size

Closed-UsedUp :
    (z z' : ZoneInfo) (i : ℕ)
    → z.classes 5 ≡ none
    → Closed (opened z i) z' (page_addr z i) 5
    → UsedUp z z' i
Closed-UsedUp z z' i no_page c =
    let self : (page_addr z i == page_addr z i) ≡ true = ground arith in
    record {
      descriptors = λ k.
          c.busy k ∙ rw self (elim (Bool-cases (k == i)) [ inl e ↦ rw e refl | inr e ↦ rw e refl ]);
      classes = λ x.
          c.classes x
          ∙ rw self (elim (Bool-cases (x == 5)) [
            | inl e ↦ let q : x ≡ 5 = ground arith in rw e (sym no_page ∙ ap z.classes (sym q))
            | inr e ↦ rw e refl
          ]);
      page_classes = λ k. ap (λ f. f k) c.page_classes;
      memory = c.memory;
      page_size = c.page_size;
    }

-- Where no page of the class for 32 bytes is open, `mem_alloc` of up to 32 bytes, called as often as
-- the first free page has blocks besides its descriptor, answers these blocks one after the other,
-- each once, and then the page is busy and out of its class. The other pages, the classes and the data
-- stay. The conditions are that there is such a class, and that a page has room for two blocks or more.
pub alloc_many-whole_page :
    (size : ℕ) (z : ZoneInfo) (i : ℕ)
    → size ≤ 32
    → 5 < z.class_count
    → z.classes 5 ≡ none
    → FirstFree z i
    → 2 ≤ z.page_size / 32
    → z.page_size < 2 ^ 32
    → (z' : ZoneInfo) × (alloc_many (block_count z) size z
        ≡ some (blocks_from (page_addr z i + 32) 32 (block_count z), z'))
      × UsedUp z z' i
unfolding log2_loop blocks_from
alloc_many-whole_page size z i le in_page no_page free two small =
    let found =
      find_first z i (z.page_count - 1) 1 free (omega arith) free.behind
        (let b = free.below in omega arith) in
    let e = rounded_32 size le in
    let n : block_count z ≡ suc (block_count z - 1) = omega arith in
    let local : page_of_addr z (page_addr z i) ≡ i = mul-div_cancel_left i (omega arith) in
    let self : (page_addr z i == page_addr z i) ≡ true = ground arith in
    let a = page_addr z i + 32 in
    let m = block_count z - 1 in
    let p =
      subst (λ k. OpenPage (opened z i) (page_addr z i) (blocks_from a 32 k)) n
        (opened-OpenPage z i no_page found two small) in
    let (z', run, closed) =
      drain size a (blocks_from (a + 32) 32 m) (opened z i) (page_addr z i) (rw e in_page)
        (rw e refl) p (rw self local) in
    let len : suc (length (blocks_from (a + 32) 32 m)) ≡ suc m =
      ap suc (length-blocks_from (a + 32) 32 m) in
    let start =
      alloc_many-congr m size z (opened z i) (mem_alloc-opened z i no_page found size e in_page) in
    let whole : alloc_many (suc m) size z ≡ some (blocks_from a 32 (suc m), z') =
      start ∙ ap (λ k. alloc_many k size (opened z i)) (sym len) ∙ run in
    (
      z',
      subst (λ k. alloc_many k size z ≡ some (blocks_from a 32 k, z')) (sym n) whole,
      Closed-UsedUp z z' i no_page
          (subst (λ c. Closed (opened z i) z' (page_addr z i) c) (ap log2 e) closed),
    )
