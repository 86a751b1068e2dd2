-- ===== src/Zone/Ops/Drain.antt =====
-- A page whose blocks are all taken, one after the other.
use system_sw.Prelude.{
  ℕ, zero, suc, ◌<◌, ◌≡◌, ◌∙◌, refl, ap, ◌≢◌, true, false, Option, none, some, List, [], ◌∷◌, arith,
  ◌==◌, if◌then◌else◌, lt→ltb, length,
}
use system_sw.Prelude.Word.{sub32, sub32_small}
use system_sw.Zone.{state_busy, ZoneInfo, log2, page_of_addr}
use system_sw.Zone.Ops.{
  rounded, mem_alloc, alloc_with, class_page, take_block_of, take_front, after_front, page_full,
  free_delegated,
}
use system_sw.Zone.Ops.Chain.{OpenPage}

-- `n` calls of `mem_alloc`, and what they answered; `none` where one answers `NULL`
abbrev pub Answers : Type 0
Answers = Option (List ℕ × ZoneInfo)

abbrev pub with_answer : ℕ → Answers → Answers
with_answer b none = none
with_answer b (some (bs, z)) = some (b ∷ bs, z)

pub alloc_many : ℕ → ℕ → ZoneInfo → Answers
alloc_many zero size z = some ([], z)
alloc_many (suc n) size z = elim (mem_alloc size z) [
  | none ↦ none
  | some (none, z') ↦ none
  | some (some b, z') ↦ with_answer b (alloc_many n size z')
]

pub alloc_many-suc :
    (n size b : ℕ) (z z' : ZoneInfo)
    → mem_alloc size z ≡ some (some b, z')
    → alloc_many (suc n) size z ≡ with_answer b (alloc_many n size z')
unfolding alloc_many
alloc_many-suc n size b z z' e = rw (e, alloc_many) refl

-- two states of which the next call makes the same
pub alloc_many-congr :
    (n size : ℕ) (z z' : ZoneInfo)
    → mem_alloc size z ≡ mem_alloc size z'
    → alloc_many (suc n) size z ≡ alloc_many (suc n) size z'
unfolding alloc_many
alloc_many-congr n size z z' e = rw (e, alloc_many) refl

-- all but the descriptor at `d` is as it was, and that keeps its page, its class and its neighbours
pub record SamePage (z z' : ZoneInfo) (d : ℕ) : Type 0 where
  pub links : z'.links ≡ z.links
  pub descriptors : z'.descriptors ≡ z.descriptors
  pub classes : z'.classes ≡ z.classes
  pub page_classes : z'.page_classes ≡ z.page_classes
  pub class_count : z'.class_count ≡ z.class_count
  pub page_size : z'.page_size ≡ z.page_size
  pub page_count : z'.page_count ≡ z.page_count
  pub memory : z'.memory ≡ z.memory
  pub store : (a : ℕ) → a ≢ d → z'.store a ≡ z.store a
  pub index : (z'.store d).index ≡ (z.store d).index
  pub next : (z'.store d).next ≡ (z.store d).next
  pub prev : (z'.store d).prev ≡ (z.store d).prev

-- the page whose last block is taken: it is busy, and out of its class
pub record Closed (z z' : ZoneInfo) (d class : ℕ) : Type 0 where
  pub busy :
      (k : ℕ) → z'.descriptors k ≡ (if k == (z.store d).index then state_busy else z.descriptors k)
  pub classes : (c : ℕ) → z'.classes c ≡ (if c == class then (z.store d).next else z.classes c)
  pub page_classes : z'.page_classes ≡ z.page_classes
  pub links : z'.links ≡ z.links
  pub memory : z'.memory ≡ z.memory
  pub page_size : z'.page_size ≡ z.page_size

module _ (size : ℕ) where
  abbrev class : ℕ
  class = log2 (rounded size)

  -- a block with another one behind it
  take_one :
      (z : ZoneInfo) (d b b2 : ℕ) (bs : List ℕ)
      → class < z.class_count
      → z.classes class ≡ some d
      → OpenPage z d (b ∷ b2 ∷ bs)
      → (z' : ZoneInfo) × (mem_alloc size z ≡ some (some b, z'))
        × OpenPage z' d (b2 ∷ bs)
        × SamePage z z' d
  unfolding mem_alloc alloc_with class_page take_block_of take_front after_front
  take_one z d b b2 bs in_page first p =
      let self : (d == d) ≡ true = ground arith in
      let less = p.small in
      let n = p.free_count in
      let count : sub32 (z.store d).free_count 1 ≡ length (b2 ∷ bs) =
        sub32_small (z.store d).free_count 1 (omega arith) (omega arith) ∙ omega arith in
      rw (lt→ltb _ _ in_page, first, p.chain.0, p.chain.1.0)
        (
          _,
          refl,
          record {
            chain = rw self (refl, p.chain.1.1);
            free_count = rw self count;
            page = rw self p.page;
            small = omega arith;
          },
          record {
            links = refl;
            descriptors = refl;
            classes = refl;
            page_classes = refl;
            class_count = refl;
            page_size = refl;
            page_count = refl;
            memory = refl;
            store = λ a ne. let e : (a == d) ≡ false = ground arith in rw e refl;
            index = rw self refl;
            next = rw self refl;
            prev = rw self refl;
          },
        )

  -- the last block of a page that has its own descriptor in it
  take_last :
      (z : ZoneInfo) (d b : ℕ)
      → class < z.class_count
      → z.classes class ≡ some d
      → OpenPage z d (b ∷ [])
      → page_of_addr z d ≡ (z.store d).index
      → (z' : ZoneInfo) × (mem_alloc size z ≡ some (some b, z')) × Closed z z' d class
  unfolding mem_alloc alloc_with class_page take_block_of take_front after_front page_full
      free_delegated
  take_last z d b in_page first p local =
      let self : (d == d) ≡ true = ground arith in
      let here : (page_of_addr z d == (z.store d).index) ≡ true = ground arith in
      rw (lt→ltb _ _ in_page, first, p.chain.0, p.chain.1, self, p.page, here)
        (
          _,
          refl,
          record {
            busy = λ k. refl;
            classes = λ c. refl;
            page_classes = refl;
            links = refl;
            memory = refl;
            page_size = refl;
          },
        )

  -- All blocks of the page, in the order of its list, and none twice: one call takes one block.
  pub drain :
      (b : ℕ) (bs : List ℕ) (z : ZoneInfo) (d : ℕ)
      → class < z.class_count
      → z.classes class ≡ some d
      → OpenPage z d (b ∷ bs)
      → page_of_addr z d ≡ (z.store d).index
      → (z' : ZoneInfo) × (alloc_many (length (b ∷ bs)) size z ≡ some (b ∷ bs, z'))
        × Closed z z' d class
  unfolding alloc_many
  drain b [] z d in_page first p local =
      let (z', run, closed) = take_last z d b in_page first p local in
      (z', alloc_many-suc 0 size b z z' run, closed)
  drain b (b2 ∷ bs) z d in_page first p local =
      let (z1, run, p1, same) = take_one z d b b2 bs in_page first p in
      let local1 : page_of_addr z1 d ≡ (z1.store d).index = rw (same.page_size, same.index) local in
      let (z2, rest, closed) =
        drain b2 bs z1 d (rw (same.class_count) in_page) (ap (λ c. c class) same.classes ∙ first) p1
          local1 in
      (
        z2,
        alloc_many-suc (length (b2 ∷ bs)) size b z z1 run ∙ ap (with_answer b) rest,
        record {
          busy = λ k. closed.busy k ∙ rw (same.index, same.descriptors) refl;
          classes = λ c. closed.classes c ∙ rw (same.next, same.classes) refl;
          page_classes = closed.page_classes ∙ same.page_classes;
          links = closed.links ∙ same.links;
          memory = closed.memory ∙ same.memory;
          page_size = closed.page_size ∙ same.page_size;
        },
      )
