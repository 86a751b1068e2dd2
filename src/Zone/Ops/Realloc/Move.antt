-- ===== src/Zone/Ops/Realloc/Move.antt =====
-- `mem_realloc` of a block of several pages to another one.
use system_sw.Prelude.{
  ℕ, ◌+◌, ◌*◌, ◌/◌, ◌^◌, ◌≤◌, ◌<◌, min, ◌≡◌, ◌∙◌, refl, sym, ap, ◌⊎◌, inl, inr, true, false, some,
  arith, ltb, if◌then◌else◌, lt→ltb, Bool-cases, ◌>>=◌,
}
use system_sw.Prelude.Word.{wrap, wrap_small}
use native.Mathlib.Nat.{mul-div_cancel_left}
use system_sw.Memory.{at, copy, copy_inside, copy_outside}
use system_sw.Zone.{
  state_free, state_multipage, ZoneInfo, char_value, is_free, page_addr, page_of_addr,
}
use system_sw.Zone.Pages.{free_multipage}
use system_sw.Zone.Pages.Runs.{FreeRun}
use system_sw.Zone.Ops.{Allocated, mem_free}
use system_sw.Zone.Ops.Realloc.{copy_size, move_to}
use system_sw.Zone.Ops.Multipage.{within, fill_lem, Allocates}
use system_sw.Zone.Ops.Return.{mem_free_run}

-- a block of `num` pages at page `q`
pub record BlockAt (z : ZoneInfo) (q num : ℕ) : Type 0 where
  pub first : z.descriptors q ≡ state_multipage
  pub class : z.page_classes q ≡ num
  pub small : num < 128
  pub fits : num * z.page_size < 2 ^ 32

-- a block of `old` pages at page `q` moved to `num` pages at `p`, with `n` bytes of data
pub record Moved (z z' : ZoneInfo) (q old p num n : ℕ) : Type 0 where
  pub pages :
      (k : ℕ)
      → z'.descriptors k ≡ (
          if within q old k
          then state_free
          else if within p num k
          then state_multipage
          else z.descriptors k)
  pub bytes : (k : ℕ) → k < n → z'.memory (page_addr z p + k) ≡ z.memory (page_addr z q + k)
  pub other_bytes :
      (i : ℕ) → (i < page_addr z p) ⊎ (page_addr z p + n ≤ i) → z'.memory i ≡ z.memory i
  pub classes : z'.classes ≡ z.classes
  pub store : z'.store ≡ z.store
  pub links : z'.links ≡ z.links

module _ (z z1 : ZoneInfo) (q old p num size : ℕ) (pos : 0 < z.page_size) (b : BlockAt z q old)
    (run : FreeRun z.descriptors num p) (al : Allocates z num p z1) where
  -- the old block is no part of the new one
  apart : within p num q ≡ false
  unfolding is_free
  apart = elim (Bool-cases (within p num q)) [
    | inl e ↦
        let free : is_free (z.descriptors q) ≡ true = run q (ground arith) (ground arith) in
        let no : is_free state_multipage ≡ true = ap is_free (sym b.first) ∙ free in
        absurd (ground arith)
    | inr e ↦ e
  ]

  abbrev n : ℕ
  n = min (old * z.page_size) size

  abbrev copied : ZoneInfo
  copied = record z1 { memory = copy z1.memory (page_addr z p) (at z1.memory (page_addr z q)) n }

  free_copied : mem_free (page_addr z q) copied ≡ some (free_multipage q copied)
  free_copied =
      let same : page_addr z q ≡ page_addr copied q = ap (λ s. s * q) (sym al.page_size) in
      ap (λ a. mem_free a copied) same
      ∙ mem_free_run q copied (rw (al.page_size) pos) (al.pages q ∙ rw apart (b.first))

  copied_bytes :
      let page = page_of_addr z1 (page_addr z q) in
      copy_size (z1.descriptors page) (z1.page_classes page) z1.page_size size ≡ n
  unfolding copy_size
  copied_bytes =
      let page : page_of_addr z1 (page_addr z q) ≡ q =
        ap (λ s. page_addr z q / s) (al.page_size) ∙ mul-div_cancel_left q pos in
      let state : z1.descriptors q ≡ state_multipage = al.pages q ∙ rw apart (b.first) in
      let class : z1.page_classes q ≡ old = al.other_classes q apart ∙ b.class in
      let narrow : ltb old 128 ≡ true = lt→ltb _ _ b.small in
      let word : wrap (old * z.page_size) ≡ old * z.page_size = wrap_small _ b.fits in
      rw (page, state, class, narrow, al.page_size, word) refl

  abbrev answer : ZoneInfo → Allocated
  answer z' = some (some (page_addr z p), z')

  pub move_to_run :
      move_to (page_addr z q) size (some (page_addr z p), z1)
      ≡ some (some (page_addr z p), free_multipage q copied)
  unfolding move_to
  move_to_run =
      ap
        (λ m.
          mem_free (page_addr z q)
            (record z1 { memory = copy z1.memory (page_addr z p) (at z1.memory (page_addr z q)) m })
          >>= answer)
        copied_bytes
      ∙ ap (λ o. o >>= answer) free_copied

  pub copied-Moved : Moved z (free_multipage q copied) q old p num n
  unfolding free_multipage
  copied-Moved =
      let class : z1.page_classes q ≡ old = al.other_classes q apart ∙ b.class in
      let value : char_value (z1.page_classes q) ≡ old =
        let s = b.small in let t : ltb old 128 ≡ true = lt→ltb _ _ s in rw (class, t) refl in
      let m = al.memory in
      record {
        pages = λ k. fill_lem z1.descriptors q _ state_free k ∙ rw (value, al.pages k) refl;
        bytes = λ k h.
            copy_inside z1.memory (page_addr z p) (at z1.memory (page_addr z q)) n k h
            ∙ ap (λ f. f (page_addr z q + k)) m;
        other_bytes = λ i h.
            copy_outside z1.memory (page_addr z p) (at z1.memory (page_addr z q)) n i h
            ∙ ap (λ f. f i) m;
        classes = al.classes;
        store = al.store;
        links = al.links;
      }
