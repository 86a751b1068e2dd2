-- ===== src/Zone/Ops/GiveBack.antt =====
-- The blocks of a page of blocks of 32 bytes, given back one after the other.
use system_sw.Prelude.{
  ℕ, ◌+◌, ◌-◌, ◌/◌, ◌^◌, ◌≤◌, ◌<◌, ◌≡◌, ◌∙◌, refl, sym, ap, ◌≢◌, true, false, Option, none, some,
  List, [], ◌∷◌, arith, leb, ◌==◌, le→leb, lt→not_leb, length,
}
use system_sw.Prelude.Word.{wrap, sub32, wrap_small, sub32_small}
use native.Mathlib.Nat.{mul-div_cancel_left}
use system_sw.Zone.{
  state_free, state_busy, desc, ZoneInfo, put, page_addr, page_of_addr, link_last,
  append_page_to_class, unlink_next, unlink_prev, unlink_neighbours, remove_from_class,
}
use system_sw.Zone.Ops.{
  mem_free, free_with, free_state, free_in_full, reopen_page, free_in_page, free_page,
  free_delegated,
}
use system_sw.Zone.Ops.Chain.{Chain, OpenPage}

-- the block is not in the list
abbrev pub NotIn : ℕ → List ℕ → Type 0
NotIn b [] = Unit {0}
NotIn b (x ∷ xs) = (b ≢ x) × NotIn b xs

-- a block that is no part of a list may link to it
Chain-put :
    (links : ℕ → Option ℕ) (h v : Option ℕ) (b : ℕ) (bs : List ℕ)
    → NotIn b bs
    → Chain links h bs
    → Chain (put links b v) h bs
Chain-put links h v b [] out c = c
Chain-put links h v b (x ∷ xs) (ne, out) (e, rest) =
    let other : (x == b) ≡ false = ground arith in
    (e, rw other (Chain-put links (links x) v b xs out rest))

-- the page `i`, whose descriptor is at its beginning, open with the free blocks `bs`
pub record LocalPage (z : ZoneInfo) (i : ℕ) (bs : List ℕ) : Type 0 where
  pub open_page : OpenPage z (page_addr z i) bs
  pub index : (z.store (page_addr z i)).index ≡ i
  pub class : (z.store (page_addr z i)).class ≡ 5
  pub first : z.classes 5 ≡ some (page_addr z i)
  pub next : (z.store (page_addr z i)).next ≡ none
  pub prev : (z.store (page_addr z i)).prev ≡ none

-- all but page `i` and its class is as it was
pub record SameRest (z z' : ZoneInfo) (i : ℕ) : Type 0 where
  pub descriptors : (k : ℕ) → k ≢ i → z'.descriptors k ≡ z.descriptors k
  pub classes : (c : ℕ) → c ≢ 5 → z'.classes c ≡ z.classes c
  pub page_classes : (k : ℕ) → k ≢ i → z'.page_classes k ≡ z.page_classes k
  pub memory : z'.memory ≡ z.memory
  pub page_size : z'.page_size ≡ z.page_size

pub SameRest_trans : {x y z : ZoneInfo} {i : ℕ} → SameRest x y i → SameRest y z i → SameRest x z i
SameRest_trans p q = record {
  descriptors = λ k ne. q.descriptors k ne ∙ p.descriptors k ne;
  classes = λ c ne. q.classes c ne ∙ p.classes c ne;
  page_classes = λ k ne. q.page_classes k ne ∙ p.page_classes k ne;
  memory = q.memory ∙ p.memory;
  page_size = q.page_size ∙ p.page_size;
}

-- the first block that comes back to a busy page
pub reopen :
    (z : ZoneInfo) (i b : ℕ)
    → page_of_addr z b ≡ i
    → z.descriptors i ≡ state_busy
    → z.page_classes i ≡ 5
    → z.classes 5 ≡ none
    → (z' : ZoneInfo) × (mem_free b z ≡ some z') × LocalPage z' i (b ∷ []) × SameRest z z' i
unfolding mem_free free_with free_state free_in_full reopen_page append_page_to_class link_last
reopen z i b here busy class no_page =
    let self : (page_addr z i == page_addr z i) ≡ true = ground arith in
    let ii : (i == i) ≡ true = ground arith in
    let bb : (b == b) ≡ true = ground arith in
    rw (here, busy, class, no_page, self)
      (
        _,
        refl,
        record {
          open_page = record {
            chain = rw (self, bb) (refl, refl);
            free_count = rw self refl;
            page = rw (self, ii) refl;
            small = omega arith;
          };
          index = rw self refl;
          class = rw self refl;
          first = refl;
          next = rw self refl;
          prev = rw self refl;
        },
        record {
          descriptors = λ k ne. let e : (k == i) ≡ false = ground arith in rw e refl;
          classes = λ c ne. let e : (c == 5) ≡ false = ground arith in rw e refl;
          page_classes = λ k ne. let e : (k == i) ≡ false = ground arith in rw e refl;
          memory = refl;
          page_size = refl;
        },
      )

-- how many blocks a page has that has its descriptor in the first
abbrev pub blocks_in : ZoneInfo → ℕ
blocks_in z = z.page_size / 32 - 1

-- a block that comes back to an open page, and is not the last
module _ (z : ZoneInfo) (i b : ℕ) (bs : List ℕ) (p : LocalPage z i bs) (here : page_of_addr z b ≡ i)
    (size : z.page_size < 2 ^ 32) (two : 2 ≤ z.page_size / 32) (pos : 0 < z.page_size) where
  local : page_of_addr z (page_addr z i) ≡ i
  local = mul-div_cancel_left i pos

  max_less : sub32 (z.page_size / 32) 1 ≡ blocks_in z
  max_less = sub32_small (z.page_size / 32) 1 (omega arith) (omega arith)

  there : z.descriptors i ≡ desc (page_addr z i)
  there = ap z.descriptors (sym p.index) ∙ p.open_page.page

  pub put_in_page :
      NotIn b bs
      → length bs + 1 < blocks_in z
      → (z' : ZoneInfo) × (mem_free b z ≡ some z') × LocalPage z' i (b ∷ bs) × SameRest z z' i
  unfolding mem_free free_with free_state free_in_page
  put_in_page out less =
      let self : (page_addr z i == page_addr z i) ≡ true = ground arith in
      let bb : (b == b) ≡ true = ground arith in
      let n = p.open_page.free_count in
      let w : wrap ((z.store (page_addr z i)).free_count + 1) ≡ length bs + 1 =
        wrap_small _ (omega (arith, n)) ∙ omega (arith, n) in
      let no_max : leb (z.page_size / 32) (length bs + 1) ≡ false = lt→not_leb _ _ (omega arith) in
      let no_less : leb (blocks_in z) (length bs + 1) ≡ false = lt→not_leb _ _ less in
      rw (here, there, p.class, w, no_max, max_less, no_less)
        (
          _,
          refl,
          record {
            open_page = record {
              chain =
                  rw (self, bb)
                    (
                      refl,
                      Chain-put z.links (z.store (page_addr z i)).block
                          (z.store (page_addr z i)).block b bs out p.open_page.chain,
                    );
              free_count = rw self (omega arith);
              page = rw self p.open_page.page;
              small = omega arith;
            };
            index = rw self p.index;
            class = rw self refl;
            first = p.first;
            next = rw self p.next;
            prev = rw self p.prev;
          },
          record {
            descriptors = λ k ne. refl;
            classes = λ c ne. refl;
            page_classes = λ k ne. refl;
            memory = refl;
            page_size = refl;
          },
        )

  -- the last block: the page is free again, and no page of the class is open
  pub put_last :
      length bs + 1 ≡ blocks_in z
      → (z' : ZoneInfo) × (mem_free b z ≡ some z')
        × (z'.descriptors i ≡ state_free)
        × (z'.classes 5 ≡ none)
        × (z'.page_classes i ≡ 0)
        × SameRest z z' i
  unfolding mem_free free_with free_state free_in_page free_page free_delegated remove_from_class
      unlink_neighbours unlink_next unlink_prev
  put_last full =
      let self : (page_addr z i == page_addr z i) ≡ true = ground arith in
      let ii : (i == i) ≡ true = ground arith in
      let n = p.open_page.free_count in
      let w : wrap ((z.store (page_addr z i)).free_count + 1) ≡ length bs + 1 =
        wrap_small _ (omega (arith, n)) ∙ omega (arith, n) in
      let no_max : leb (z.page_size / 32) (length bs + 1) ≡ false = lt→not_leb _ _ (omega arith) in
      let yes_less : leb (blocks_in z) (length bs + 1) ≡ true = le→leb _ _ (omega arith) in
      let own : (page_of_addr z (page_addr z i) == i) ≡ true = let l = local in ground arith in
      rw
        (
          here, there, p.class, w, no_max, max_less, yes_less, own, self, p.first, self, p.next,
          p.prev, there, own,
        )
        (
          _,
          refl,
          rw ii refl,
          refl,
          rw ii refl,
          record {
            descriptors = λ k ne. let e : (k == i) ≡ false = ground arith in rw e refl;
            classes = λ c ne. let e : (c == 5) ≡ false = ground arith in rw e refl;
            page_classes = λ k ne. let e : (k == i) ≡ false = ground arith in rw e refl;
            memory = refl;
            page_size = refl;
          },
        )
