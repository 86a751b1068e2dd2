-- ===== src/Zone/Ops/Cycle.antt =====
-- A page of blocks of 32 bytes, handed out and given back.
use system_sw.Prelude.{
  ℕ, ◌+◌, ◌*◌, ◌/◌, ◌^◌, ◌≤◌, ◌<◌, ◌≡◌, ◌∙◌, refl, sym, ap, subst, inl, inr, true, Option, none,
  some, List, [], ◌∷◌, arith, ◌==◌, if◌then◌else◌, Bool-cases, ◌>>=◌, length,
}
use native.Mathlib.Nat.{add-mul-div_left, div-eq_of_lt}
use system_sw.Zone.{state_free, state_busy, ZoneInfo, page_addr}
use system_sw.Zone.Ops.{mem_free}
use system_sw.Zone.Ops.Multipage.{free_is}
use system_sw.Zone.Ops.Chain.{blocks_from}
use system_sw.Zone.Ops.Drain.{alloc_many}
use system_sw.Zone.Ops.Fresh.{block_count}
use system_sw.Zone.Ops.Whole.{FirstFree, UsedUp, alloc_many-whole_page}
use system_sw.Zone.Ops.GiveBack.{
  NotIn, LocalPage, SameRest, SameRest_trans, reopen, blocks_in, put_in_page, put_last,
}

-- the blocks of a list, given back in its order
pub free_many : List ℕ → ZoneInfo → Option ZoneInfo
free_many [] z = some z
free_many (b ∷ bs) z = mem_free b z >>= free_many bs

-- one of the blocks of 32 bytes behind the descriptor of page `i`
abbrev pub BlockOf : ℕ → ℕ → ℕ → Type 0
BlockOf page_size i b = (j : ℕ) × (0 < j) × (j < page_size / 32) × (b ≡ page_size * i + 32 * j)

BlockOf-page : (page_size i b : ℕ) → BlockOf page_size i b → b / page_size ≡ i
BlockOf-page ps i b (j, first, below, e) =
    let small : 32 * j < ps = omega arith in
    let swap : b ≡ 32 * j + ps * i = omega (arith, e) in
    let zero : 32 * j / ps ≡ 0 = div-eq_of_lt small in
    rw swap (add-mul-div_left (32 * j) i (omega arith) ∙ omega (arith, zero))

-- blocks of page `i`, different from each other and from those of `done`
abbrev pub InPage : ℕ → ℕ → List ℕ → List ℕ → Type 0
InPage page_size i [] done = Unit {0}
InPage page_size i (b ∷ bs) done =
    BlockOf page_size i b × NotIn b done × InPage page_size i bs (b ∷ done)

-- page `i` is free, and no page of the class for 32 bytes is open
pub record GivenBack (z z' : ZoneInfo) (i : ℕ) : Type 0 where
  pub page : z'.descriptors i ≡ state_free
  pub no_page : z'.classes 5 ≡ none
  pub class : z'.page_classes i ≡ 0
  pub rest : SameRest z z' i

module _ (i : ℕ) where
  -- the rest of the blocks of an open page
  put_rest :
      (b : ℕ) (bs done : List ℕ) (z : ZoneInfo)
      → LocalPage z i done
      → InPage z.page_size i (b ∷ bs) done
      → length (b ∷ bs) + length done ≡ blocks_in z
      → 2 ≤ z.page_size / 32
      → z.page_size < 2 ^ 32
      → (z' : ZoneInfo) × (free_many (b ∷ bs) z ≡ some z') × GivenBack z z' i
  unfolding free_many
  put_rest b [] done z p (here, out, others) all two small =
      let (z', run, page, no_page, class, rest) =
        put_last z i b done p (BlockOf-page z.page_size i b here) small two (omega arith)
          (omega arith) in
      (z', rw run refl, record { page = page; no_page = no_page; class = class; rest = rest })
  put_rest b (b2 ∷ bs) done z p (here, out, others) all two small =
      let (z1, run, p1, rest) =
        put_in_page z i b done p (BlockOf-page z.page_size i b here) small two (omega arith) out
          (omega arith) in
      let s = rest.page_size in
      let (z', run', g) =
        put_rest b2 bs (b ∷ done) z1 p1
          (subst (λ x. InPage x i (b2 ∷ bs) (b ∷ done)) (sym s) others) (rw s (omega arith))
          (rw s two) (rw s small) in
      (
        z',
        rw run run',
        record {
          page = g.page;
          no_page = g.no_page;
          class = g.class;
          rest = SameRest_trans rest g.rest;
        },
      )

  -- all blocks of a busy page
  give_back :
      (b b2 : ℕ) (bs : List ℕ) (z : ZoneInfo)
      → z.descriptors i ≡ state_busy
      → z.page_classes i ≡ 5
      → z.classes 5 ≡ none
      → InPage z.page_size i (b ∷ b2 ∷ bs) []
      → length (b ∷ b2 ∷ bs) ≡ blocks_in z
      → 2 ≤ z.page_size / 32
      → z.page_size < 2 ^ 32
      → (z' : ZoneInfo) × (free_many (b ∷ b2 ∷ bs) z ≡ some z') × GivenBack z z' i
  unfolding free_many
  give_back b b2 bs z busy class no_page (here, out, others) all two small =
      let (z1, run, p1, rest) =
        reopen z i b (BlockOf-page z.page_size i b here) busy class no_page in
      let s = rest.page_size in
      let (z', run', g) =
        put_rest b2 bs (b ∷ []) z1 p1 (subst (λ x. InPage x i (b2 ∷ bs) (b ∷ [])) (sym s) others)
          (rw s (omega arith)) (rw s two) (rw s small) in
      (
        z',
        rw run run',
        record {
          page = g.page;
          no_page = g.no_page;
          class = g.class;
          rest = SameRest_trans rest g.rest;
        },
      )

-- the pages and the classes are the same, and so are the classes of all pages but `i`
pub record SameZonePages (z z' : ZoneInfo) (i : ℕ) : Type 0 where
  pub descriptors : (k : ℕ) → z'.descriptors k ≡ z.descriptors k
  pub classes : (c : ℕ) → z'.classes c ≡ z.classes c
  pub page_classes : (k : ℕ) → z'.page_classes k ≡ (if k == i then 0 else z.page_classes k)

restored :
    (z z1 z2 : ZoneInfo) (i : ℕ)
    → FirstFree z i
    → z.classes 5 ≡ none
    → UsedUp z z1 i
    → GivenBack z1 z2 i
    → SameZonePages z z2 i
restored z z1 z2 i first none_open u g = record {
  descriptors = λ k. elim (Bool-cases (k == i)) [
    | inl e ↦
        let q : k ≡ i = ground arith in
        ap z2.descriptors q ∙ g.page ∙ sym (free_is _ first.free) ∙ ap z.descriptors (sym q)
    | inr e ↦ g.rest.descriptors k (ground arith) ∙ u.descriptors k ∙ rw e refl
  ];
  classes = λ c. elim (Bool-cases (c == 5)) [
    | inl e ↦
        let q : c ≡ 5 = ground arith in
        ap z2.classes q ∙ g.no_page ∙ sym none_open ∙ ap z.classes (sym q)
    | inr e ↦ g.rest.classes c (ground arith) ∙ u.classes c
  ];
  page_classes = λ k. elim (Bool-cases (k == i)) [
    | inl e ↦ let q : k ≡ i = ground arith in rw e (ap z2.page_classes q ∙ g.class)
    | inr e ↦ rw e (g.rest.page_classes k (ground arith) ∙ u.page_classes k ∙ rw e refl)
  ];
}

-- Where no page of the class for 32 bytes is open, `mem_alloc` of up to 32 bytes, called as often as the
-- first free page has blocks besides its descriptor, answers these blocks in order; then `mem_free` of
-- the same blocks, each once and in any order, makes the page free again, and every page and every class
-- is as it was. The conditions are that there is such a class, and that a page has room for three blocks
-- or more.
pub free_many-alloc_many :
    (size : ℕ) (z : ZoneInfo) (i b b2 : ℕ) (bs : List ℕ)
    → size ≤ 32
    → 5 < z.class_count
    → z.classes 5 ≡ none
    → FirstFree z i
    → z.page_size < 2 ^ 32
    → InPage z.page_size i (b ∷ b2 ∷ bs) []
    → length (b ∷ b2 ∷ bs) ≡ block_count z
    → (z' z'' : ZoneInfo) × (alloc_many (block_count z) size z
        ≡ some (blocks_from (page_addr z i + 32) 32 (block_count z), z'))
      × (free_many (b ∷ b2 ∷ bs) z' ≡ some z'')
      × SameZonePages z z'' i
free_many-alloc_many size z i b b2 bs le in_page no_page first small apart all =
    let (z1, run1, used) =
      alloc_many-whole_page size z i le in_page no_page first (omega arith) small in
    let ii : (i == i) ≡ true = ground arith in
    let s = used.page_size in
    let (z2, run2, g) =
      give_back i b b2 bs z1 (used.descriptors i ∙ rw ii refl) (used.page_classes i ∙ rw ii refl)
        (used.classes 5 ∙ no_page) (subst (λ x. InPage x i (b ∷ b2 ∷ bs) []) (sym s) apart)
        (rw s all) (rw s (omega arith)) (rw s small) in
    (z1, z2, run1, run2, restored z z1 z2 i first no_page used g)
