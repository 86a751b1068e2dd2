-- ===== src/Zone/Ops/Multipage.antt =====
-- Blocks of several pages.
use system_sw.Prelude.{
  ℕ, zero, suc, ◌+◌, ◌%◌, ◌≤◌, ◌<◌, ◌≡◌, ◌∙◌, refl, ◌⊎◌, inl, inr, Bool, true, false, ◌&&◌, Option,
  none, some, arith, ltb, leb, ◌==◌, if◌then◌else◌, le→not_ltb, Bool-cases,
}
use system_sw.Zone.{
  PageState, state_free, state_busy, state_multipage, desc, ZoneInfo, put, fill, log2, is_free,
  page_addr,
}
use system_sw.Zone.Pages.{find_free_pages, mark_pages, pages_for, multipage_alloc}
use system_sw.Zone.Pages.Runs.{FirstRun, find_free_pages-FirstRun}
use system_sw.Zone.Ops.{Allocated, rounded, mem_alloc, alloc_with}

abbrev pub within : ℕ → ℕ → ℕ → Bool
within i n k = leb i k && ltb k (i + n)

pub fill_lem {ℓ} :
    {A : Type ℓ} (f : ℕ → A) (i n : ℕ) (v : A) (k : ℕ)
    → fill f i n v k ≡ (if within i n k then v else f k)
unfolding fill
fill_lem f i zero v k = let e : within i 0 k ≡ false = ground arith in rw e refl
fill_lem f i (suc n) v k = fill_lem (put f i v) (i + 1) n v k ∙ elim (Bool-cases (k == i)) [
  | inl e ↦
      let out : within (i + 1) n k ≡ false = ground arith in
      let here : within i (suc n) k ≡ true = ground arith in rw (out, here, e) refl
  | inr e ↦ let same : within (i + 1) n k ≡ within i (suc n) k = ground arith in rw (same, e) refl
]

pub free_is : (s : PageState) → is_free s ≡ true → s ≡ state_free
unfolding is_free
free_is state_free e = refl
free_is state_busy e = cc
free_is state_multipage e = cc
free_is (desc d) e = cc

-- `z'` is `z` with a block of `num` pages from page `p` on
pub record Allocates (z : ZoneInfo) (num p : ℕ) (z' : ZoneInfo) : Type 0 where
  pub pages :
      (k : ℕ) → z'.descriptors k ≡ (if within p num k then state_multipage else z.descriptors k)
  pub first_class : z'.page_classes p ≡ num % 256
  pub other_classes : (k : ℕ) → within p num k ≡ false → z'.page_classes k ≡ z.page_classes k
  pub classes : z'.classes ≡ z.classes
  pub store : z'.store ≡ z.store
  pub links : z'.links ≡ z.links
  pub page_size : z'.page_size ≡ z.page_size
  pub memory : z'.memory ≡ z.memory

-- the state with the block
abbrev pub marked : ℕ → ℕ → ZoneInfo → ZoneInfo
marked num p z = (mark_pages num (some p) z).1

marked-Allocates : (num p : ℕ) (z : ZoneInfo) → 0 < num → Allocates z num p (marked num p z)
unfolding mark_pages
marked-Allocates num p z pos = record {
  pages = λ k. fill_lem z.descriptors p num state_multipage k;
  first_class = let e : (p == p) ≡ true = ground arith in rw e refl;
  other_classes = λ k out.
      let e : (k == p) ≡ false = ground arith in
      let law = fill_lem z.page_classes p num 255 k in rw (e, law, out) refl;
  classes = refl;
  store = refl;
  links = refl;
  page_size = refl;
  memory = refl;
}

-- `mem_alloc` of a size that is no class: the pages for it, or `NULL`
mem_alloc_run :
    (size_in : ℕ) (z : ZoneInfo)
    → z.class_count ≤ log2 (rounded size_in)
    → let num = pages_for z (rounded size_in) in
      mem_alloc size_in z ≡ some (mark_pages num (find_free_pages z.descriptors z.page_count num) z)
unfolding mem_alloc alloc_with multipage_alloc
mem_alloc_run size_in z h = rw (le→not_ltb _ _ h) refl

-- `NULL` and the same state where no run of `num` free pages is found, or the address of the first
-- run, with its pages allocated
abbrev pub Outcome : ZoneInfo → ℕ → Allocated → Type 0
Outcome z num out =
    ((out ≡ some (none, z)) × FirstRun z.descriptors num z.page_count none)
    ⊎ ((p : ℕ) × (z' : ZoneInfo) × (out ≡ some (some (page_addr z p), z'))
        × FirstRun z.descriptors num z.page_count (some p)
        × Allocates z num p z')

mark_pages-Outcome :
    (num : ℕ) (z : ZoneInfo) (o : Option ℕ)
    → 0 < num
    → FirstRun z.descriptors num z.page_count o
    → Outcome z num (some (mark_pages num o z))
unfolding mark_pages
mark_pages-Outcome num z none pos run = inl (refl, run)
mark_pages-Outcome num z (some p) pos run =
    inr (p, marked num p z, refl, run, marked-Allocates num p z pos)

-- `mem_alloc` of a size that is no class answers `NULL` and changes nothing where no run of free
-- pages is long enough. Otherwise it answers the address of the first such run, marks its pages as a
-- block of several pages and the first of them with their number modulo 256, and leaves all other
-- pages, the classes and the descriptors. The conditions are that the rounded size's class is not
-- below the number of classes, and that it takes a page or more.
pub mem_alloc-Outcome :
    (size_in : ℕ) (z : ZoneInfo)
    → z.class_count ≤ log2 (rounded size_in)
    → 0 < pages_for z (rounded size_in)
    → Outcome z (pages_for z (rounded size_in)) (mem_alloc size_in z)
mem_alloc-Outcome size_in z h pos =
    let num = pages_for z (rounded size_in) in
    rw (mem_alloc_run size_in z h) (
      mark_pages-Outcome num z (find_free_pages z.descriptors z.page_count num) pos
        (find_free_pages-FirstRun z.descriptors num z.page_count pos))
