-- ===== src/Zone/Ops/InPage.antt =====
-- Blocks of a page that has other free blocks too.
use system_sw.Prelude.{
  ℕ, ◌+◌, ◌-◌, ◌/◌, ◌^◌, ◌<◌, ◌≡◌, ◌∙◌, refl, sym, ap, inl, inr, true, false, ◌&&◌, some, arith,
  leb, ◌==◌, lt→ltb, lt→not_leb, Bool-cases,
}
use system_sw.Prelude.Word.{wrap, sub32, wrap_small, sub32_small}
use system_sw.Zone.{desc, ZoneInfo, put, log2, page_of_addr}
use system_sw.Zone.Ops.{
  rounded, mem_alloc, mem_free, alloc_with, free_with, class_page, take_block_of, take_front,
  after_front, free_state, free_in_page,
}

-- `d` describes a page of the class for `size` bytes whose first free block is `b` and the next `b2`.
pub record Partial (size : ℕ) (z : ZoneInfo) (d b b2 : ℕ) : Type 0 where
  pub in_page : log2 (rounded size) < z.class_count
  pub first : z.classes (log2 (rounded size)) ≡ some d
  pub block : (z.store d).block ≡ some b
  pub next : z.links b ≡ some b2
  pub page : z.descriptors (page_of_addr z b) ≡ desc d
  pub some_free : 0 < (z.store d).free_count
  pub few_free : (z.store d).free_count < 2 ^ 32

-- The page is not given back when `b` returns to it: not all of its blocks are free then, nor all but
-- the one with the descriptor.
pub record Stays (z : ZoneInfo) (d b : ℕ) : Type 0 where
  pub not_all : (z.store d).free_count < z.page_size / 2 ^ (z.store d).class
  pub not_local :
      (leb (sub32 (z.page_size / 2 ^ (z.store d).class) 1) (z.store d).free_count
        && page_of_addr z d == page_of_addr z b)
      ≡ false

-- the state once the block is taken
abbrev pub taken : ZoneInfo → ℕ → ℕ → ZoneInfo
taken z d b2 = record z {
  store =
      put z.store d
        (record (z.store d) { block = some b2; free_count = sub32 (z.store d).free_count 1 });
}

mem_alloc-Partial :
    (size : ℕ) (z : ZoneInfo) (d b b2 : ℕ)
    → Partial size z d b b2
    → mem_alloc size z ≡ some (some b, taken z d b2)
unfolding mem_alloc alloc_with class_page take_block_of take_front after_front
mem_alloc-Partial size z d b b2 p = rw (lt→ltb _ _ p.in_page, p.first, p.block, p.next) refl

-- the state once it is given back
abbrev given : ZoneInfo → ℕ → ℕ → ZoneInfo
given z d b =
    let p = z.store d in
    record z {
      store = put z.store d (record p { free_count = wrap (p.free_count + 1); block = some b });
      links = put z.links b p.block;
    }

mem_free-Stays :
    (z : ZoneInfo) (d b : ℕ)
    → z.descriptors (page_of_addr z b) ≡ desc d
    → leb (z.page_size / 2 ^ (z.store d).class) (wrap ((z.store d).free_count + 1)) ≡ false
    → (leb (sub32 (z.page_size / 2 ^ (z.store d).class) 1) (wrap ((z.store d).free_count + 1))
        && page_of_addr z d == page_of_addr z b)
      ≡ false
    → mem_free b z ≡ some (given z d b)
unfolding mem_free free_with free_state free_in_page
mem_free-Stays z d b page all local = rw (page, all, local) refl

-- the two states have the same pages, classes, descriptors and links
pub record SameZone (z z' : ZoneInfo) : Type 0 where
  pub descriptors : z'.descriptors ≡ z.descriptors
  pub classes : z'.classes ≡ z.classes
  pub page_classes : z'.page_classes ≡ z.page_classes
  pub memory : z'.memory ≡ z.memory
  pub store : (a : ℕ) → z'.store a ≡ z.store a
  pub links : (a : ℕ) → z'.links a ≡ z.links a

-- `mem_alloc` of a block in a page with more free blocks answers the page's first free block, leaves
-- the next one at the front and one less in the count, and changes nothing else. `mem_free` of the
-- block then restores every page, descriptor, link and class, where the page is not given back.
pub mem_free-mem_alloc_in_page :
    (size : ℕ) (z : ZoneInfo) (d b b2 : ℕ)
    → Partial size z d b b2
    → Stays z d b
    → (mem_alloc size z ≡ some (some b, taken z d b2))
      × ((z' : ZoneInfo) × (mem_free b (taken z d b2) ≡ some z') × SameZone z z')
mem_free-mem_alloc_in_page size z d b b2 p st =
    let self : (d == d) ≡ true = ground arith in
    let pos = p.some_free in
    let few = p.few_free in
    let count = (z.store d).free_count in
    let back : wrap (sub32 count 1 + 1) ≡ count =
      ap (λ x. wrap (x + 1)) (sub32_small count 1 (omega arith) few)
      ∙ wrap_small (count - 1 + 1) (omega arith)
      ∙ omega arith in
    let all : leb (z.page_size / 2 ^ (z.store d).class) count ≡ false = lt→not_leb _ _ st.not_all in
    (
      mem_alloc-Partial size z d b b2 p,
      (
        given (taken z d b2) d b,
        mem_free-Stays (taken z d b2) d b p.page (rw (self, back) all)
            (rw (self, back) st.not_local),
        record {
          descriptors = refl;
          classes = refl;
          page_classes = refl;
          memory = refl;
          store = λ a. elim (Bool-cases (a == d)) [
            | inl e ↦
                let q : a ≡ d = ground arith in
                let own = ap z.store (sym q) in
                let same : record (z.store d) { block = some b } ≡ z.store d =
                  λ t. record (z.store d) { block = sym p.block t } in
                rw (e, self, back) (same ∙ own)
            | inr e ↦ rw e refl
          ];
          links = λ a. elim (Bool-cases (a == b)) [
            | inl e ↦
                let q : a ≡ b = ground arith in
                let own = ap z.links (sym q) in rw (e, self) (sym p.next ∙ own)
            | inr e ↦ rw e refl
          ];
        },
      ),
    )
