-- ===== src/Zone/Ops/Return.antt =====
-- Blocks of several pages given back.
use system_sw.Prelude.{
  ℕ, ◌*◌, ◌≤◌, ◌<◌, ◌≡◌, ◌∙◌, refl, sym, ap, subst, inl, inr, true, some, arith, Bool-cases,
}
use native.Mathlib.Nat.{mul-div_cancel_left}
use system_sw.Zone.{
  state_free, state_multipage, ZoneInfo, fill, log2, char_value, is_free, page_addr,
}
use system_sw.Zone.Pages.{pages_for, free_multipage}
use system_sw.Zone.Pages.Runs.{FreeRun}
use system_sw.Zone.Ops.{Allocated, rounded, mem_alloc, mem_free, free_with, free_state}
use system_sw.Zone.Ops.Multipage.{within, fill_lem, free_is, Allocates, Outcome, mem_alloc-Outcome}

-- `mem_free` of a block of several pages
pub mem_free_run :
    (p : ℕ) (z : ZoneInfo)
    → 0 < z.page_size
    → z.descriptors p ≡ state_multipage
    → mem_free (page_addr z p) z ≡ some (free_multipage p z)
unfolding mem_free free_with free_state
mem_free_run p z pos e = rw (mul-div_cancel_left p pos, e) refl

-- the two states have the same pages, classes, descriptors and links
pub record Restored (z z' : ZoneInfo) : Type 0 where
  pub pages : (k : ℕ) → z'.descriptors k ≡ z.descriptors k
  pub page_classes : (k : ℕ) → z'.page_classes k ≡ z.page_classes k
  pub classes : z'.classes ≡ z.classes
  pub store : z'.store ≡ z.store
  pub links : z'.links ≡ z.links

free_multipage-Restored :
    (num p : ℕ) (z z' : ZoneInfo)
    → 0 < num
    → num < 128
    → FreeRun z.descriptors num p
    → ((k : ℕ) → is_free (z.descriptors k) ≡ true → z.page_classes k ≡ 0)
    → Allocates z num p z'
    → Restored z (free_multipage p z')
unfolding free_multipage
free_multipage-Restored num p z z' pos small run zero_class a =
    let n : char_value (z'.page_classes p) ≡ num = let f = a.first_class in ground arith in
    record {
      pages = λ k. fill_lem z'.descriptors p _ state_free k ∙ elim (Bool-cases (within p num k)) [
        | inl e ↦ rw (n, e) (sym (free_is (z.descriptors k) (run k (ground arith) (ground arith))))
        | inr e ↦ rw (n, e, a.pages k, e) refl
      ];
      page_classes = λ k. fill_lem z'.page_classes p _ 0 k ∙ elim (Bool-cases (within p num k)) [
        | inl e ↦ rw (n, e) (sym (zero_class k (run k (ground arith) (ground arith))))
        | inr e ↦ rw (n, e) (a.other_classes k e)
      ];
      classes = a.classes;
      store = a.store;
      links = a.links;
    }

-- an answer of `mem_alloc` that is an address
answered :
    (z : ZoneInfo) (num a : ℕ) (z' : ZoneInfo) (out : Allocated)
    → Outcome z num out
    → out ≡ some (some a, z')
    → (p : ℕ) × (a ≡ page_addr z p) × FreeRun z.descriptors num p × Allocates z num p z'
answered z num a z' out (inl (e, run)) h = cc
answered z num a z' out (inr (p, z1, e, run, al)) h =
    let ea : page_addr z p ≡ a = cc in
    let ez : z1 ≡ z' = cc in (p, sym ea, run.1, subst (λ x. Allocates z num p x) ez al)

freed :
    (z : ZoneInfo) (num p a : ℕ) (z' : ZoneInfo)
    → 0 < num
    → 0 < z.page_size
    → a ≡ page_addr z p
    → Allocates z num p z'
    → mem_free a z' ≡ some (free_multipage p z')
freed z num p a z' pos ps ea al =
    let first : within p num p ≡ true = ground arith in
    let same : a ≡ page_addr z' p = ea ∙ ap (λ n. n * p) (sym al.page_size) in
    rw same (mem_free_run p z' (rw (al.page_size) ps) (al.pages p ∙ rw first refl))

free_nothing :
    (num p : ℕ) (z z' : ZoneInfo)
    → 128 ≤ num
    → num < 256
    → Allocates z num p z'
    → some (free_multipage p z') ≡ some z'
unfolding free_multipage fill
free_nothing num p z z' large small al =
    let n : char_value (z'.page_classes p) ≡ 0 = let f = al.first_class in ground arith in rw n refl

-- A block of several pages that `mem_alloc` answers and `mem_free` takes back leaves every page, the
-- classes, the descriptors and the links as they were. The conditions are that the block has 1 to 127
-- pages, and that the class of a free page is 0.
pub mem_free-mem_alloc :
    (size_in : ℕ) (z : ZoneInfo)
    → z.class_count ≤ log2 (rounded size_in)
    → 0 < pages_for z (rounded size_in)
    → pages_for z (rounded size_in) < 128
    → 0 < z.page_size
    → ((k : ℕ) → is_free (z.descriptors k) ≡ true → z.page_classes k ≡ 0)
    → (a : ℕ) (z' : ZoneInfo) → mem_alloc size_in z ≡ some (some a, z')
    → (z'' : ZoneInfo) × (mem_free a z' ≡ some z'') × Restored z z''
mem_free-mem_alloc size_in z h pos small ps zero_class a z' eq =
    let num = pages_for z (rounded size_in) in
    let (p, ea, run, al) = answered z num a z' _ (mem_alloc-Outcome size_in z h pos) eq in
    (
      free_multipage p z',
      freed z num p a z' pos ps ea al,
      free_multipage-Restored num p z z' pos small run zero_class al,
    )

-- `mem_free` does nothing to a block of 128 to 255 pages: its pages are lost.
pub mem_free_loses_block :
    (size_in : ℕ) (z : ZoneInfo)
    → z.class_count ≤ log2 (rounded size_in)
    → 128 ≤ pages_for z (rounded size_in)
    → pages_for z (rounded size_in) < 256
    → 0 < z.page_size
    → (a : ℕ) (z' : ZoneInfo) → mem_alloc size_in z ≡ some (some a, z')
    → mem_free a z' ≡ some z'
mem_free_loses_block size_in z h large small ps a z' eq =
    let num = pages_for z (rounded size_in) in
    let (p, ea, run, al) = answered z num a z' _ (mem_alloc-Outcome size_in z h (omega arith)) eq in
    freed z num p a z' (omega arith) ps ea al ∙ free_nothing num p z z' large small al
