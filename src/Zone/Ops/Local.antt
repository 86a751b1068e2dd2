-- ===== src/Zone/Ops/Local.antt =====
-- Blocks of descriptors, and the nested calls that they would take.
use system_sw.Prelude.{
  ℕ, ◌+◌, ◌-◌, ◌/◌, ◌<◌, ◌≡◌, ◌∙◌, refl, sym, ap, subst, ◌≢◌, inl, inr, true, Option, none, some,
  arith, ◌==◌, Bool-cases,
}
use system_sw.Prelude.Word.{sub32}
use system_sw.Zone.{
  PageState, state_free, state_busy, state_multipage, desc, Descriptor, ZoneInfo, put, log2,
  page_addr, page_of_addr, append_page_to_class, unlink_neighbours,
}
use system_sw.Zone.Pages.{find_loop}
use system_sw.Zone.Ops.{
  Calls, is_local, link_blocks, new_page, alloc_page_at, alloc_page, free_delegated, page_full,
  after_front, take_front,
}
use native.Mathlib.Nat.{mul-div_cancel_left}
use system_sw.Prelude.Post.{Post, Post-bind, Post-map}
use system_sw.Zone.Ops.Post.{SameBlocks, append_page_to_class-Post}

-- a descriptor of page `k` is in the page itself
abbrev pub Local : ZoneInfo → ℕ → Type 0
Local z k = (d : ℕ) → z.descriptors k ≡ desc d → page_of_addr z d ≡ k

-- the freeing of page `k`'s descriptor is the same for both, where it is not in the page
abbrev pub SameFree : Calls → Calls → ZoneInfo → ℕ → Type 0
SameFree x y z k =
    (d : ℕ) → z.descriptors k ≡ desc d → page_of_addr z d ≢ k → x.free d z ≡ y.free d z

module _ (x y : Calls) where
  pub free_delegated_congr :
      (st : PageState) (k : ℕ) (z : ZoneInfo)
      → ((d : ℕ) → st ≡ desc d → page_of_addr z d ≢ k → x.free d z ≡ y.free d z)
      → free_delegated x st k z ≡ free_delegated y st k z
  unfolding free_delegated
  free_delegated_congr state_free k z h = refl
  free_delegated_congr state_busy k z h = refl
  free_delegated_congr state_multipage k z h = refl
  free_delegated_congr (desc d) k z h = elim (Bool-cases (page_of_addr z d == k)) [
    | inl e ↦ rw e refl
    | inr e ↦ rw e (h d refl (ground arith))
  ]

  pub page_full_congr :
      (class page : ℕ) (z : ZoneInfo)
      → SameFree x y (record z { store = unlink_neighbours page z.store }) (z.store page).index
      → page_full x class page z ≡ page_full y class page z
  unfolding page_full
  page_full_congr class page z h =
      let z' = record z { store = unlink_neighbours page z.store } in
      let e = free_delegated_congr (z.descriptors (z.store page).index) (z.store page).index z' h in
      rw e refl

  after_front_congr :
      (class page block : ℕ) (next : Option ℕ) (z : ZoneInfo)
      → SameFree x y (record z { store = unlink_neighbours page z.store }) (z.store page).index
      → after_front x class page block next z ≡ after_front y class page block next z
  unfolding after_front
  after_front_congr class page block none z h = rw (page_full_congr class page z h) refl
  after_front_congr class page block (some b) z h = refl

  pub take_front_congr :
      (class page : ℕ) (first : Option ℕ) (z : ZoneInfo)
      → ((s : ℕ → Descriptor) → SameFree x y (record z { store = s }) (z.store page).index)
      → take_front x class page first z ≡ take_front y class page first z
  unfolding take_front
  take_front_congr class page none z h = refl
  take_front_congr class page (some b) z h =
      let self : (page == page) ≡ true = ground arith in
      let p : Descriptor = record (z.store page) {
        block = z.links b;
        free_count = sub32 (z.store page).free_count 1;
      } in
      let s = put z.store page p in
      let i : (s page).index ≡ (z.store page).index = rw self refl in
      after_front_congr class page b (z.links b) (record z { store = s })
        (subst (SameFree x y (record z { store = unlink_neighbours page s })) (sym i)
          (h (unlink_neighbours page s)))

  -- a page for blocks of descriptors
  local_page_congr :
      (size : ℕ) (o : Option ℕ) (z : ZoneInfo)
      → is_local size ≡ true
      → alloc_page_at x size o z ≡ alloc_page_at y size o z
  unfolding alloc_page_at
  local_page_congr size none z local = refl
  local_page_congr size (some i) z local = rw local refl

  pub alloc_page_congr :
      (size : ℕ) (z : ZoneInfo) → is_local size ≡ true → alloc_page x size z ≡ alloc_page y size z
  unfolding alloc_page
  alloc_page_congr size z local =
      local_page_congr size (find_loop z.descriptors 1 1 (z.page_count - 1) 0) z local

-- the state in which `new_page` appends the page to its class
abbrev begun : ℕ → ℕ → ℕ → ℕ → ℕ → ZoneInfo → ZoneInfo
begun i size free_count block descp z =
    let d : Descriptor = record {
      free_count = free_count;
      index = i;
      class = log2 size;
      block = some block;
      next = none;
      prev = none;
    } in
    record z {
      store = put z.store descp d;
      links = link_blocks z.links block size (free_count - 1);
      descriptors = put z.descriptors i (desc descp);
    }

-- the page that is opened, with its descriptor at `descp`
pub record Page (z z' : ZoneInfo) (i size count b descp : ℕ) : Type 0 where
  pub page_size : z'.page_size ≡ z.page_size
  pub index : (z'.store descp).index ≡ i
  pub block : (z'.store descp).block ≡ some b
  pub links : z'.links ≡ link_blocks z.links b size (count - 1)
  pub descriptor : z'.descriptors i ≡ desc descp

-- the page of the result
abbrev pub PageOf : ZoneInfo → ℕ → ℕ → ℕ → ℕ → ℕ → Option ℕ × ZoneInfo → Type 0
PageOf z i size free_count block descp (r, z') =
    (r ≡ some descp) × Page z z' i size free_count block descp

pub new_page-Post :
    (i size free_count block descp : ℕ) (z : ZoneInfo)
    → Post (PageOf z i size free_count block descp) (new_page i size free_count block descp z)
unfolding new_page
new_page-Post i size free_count block descp z =
    let self : (descp == descp) ≡ true = ground arith in
    let ii : (i == i) ≡ true = ground arith in
    let w = begun i size free_count block descp z in
    Post-bind (SameBlocks w) (PageOf z i size free_count block descp)
      (append_page_to_class (log2 size) descp w) (λ z'. some (some descp, z'))
      (append_page_to_class-Post (log2 size) descp w)
      (λ z' s. (
        refl,
        record {
          page_size = s.page_size;
          index = s.index descp ∙ rw self refl;
          block = s.block descp ∙ rw self refl;
          links = s.links;
          descriptor = ap (λ f. f i) s.descriptors ∙ rw ii refl;
        },
      ))

-- the page that an allocation opens, or none
abbrev pub Opened : ZoneInfo → Option ℕ × ZoneInfo → Type 0
Opened z (none, z') = z'.page_size ≡ z.page_size
Opened z (some d, z') = (z'.page_size ≡ z.page_size) × Local z' (z'.store d).index

desc_inj : (a b : ℕ) → desc a ≡ desc b → a ≡ b
desc_inj a b e = ground arith

Page-Opened :
    (i size free_count block : ℕ) (z : ZoneInfo) (r : Option ℕ) (z' : ZoneInfo)
    → 0 < z.page_size
    → PageOf z i size free_count block (page_addr z i) (r, z')
    → Opened z (r, z')
Page-Opened i size free_count block z r z' pos (e, p) =
    let pa = page_addr z i in
    subst (λ r. Opened z (r, z')) (sym e)
      (
        p.page_size,
        λ d at.
            let q : desc pa ≡ desc d = sym p.descriptor ∙ ap z'.descriptors (sym p.index) ∙ at in
            ap (λ s. d / s) p.page_size
            ∙ ap (λ a. a / z.page_size) (sym (desc_inj pa d q))
            ∙ mul-div_cancel_left i pos
            ∙ sym p.index,
      )

pub alloc_page_at-Opened :
    (calls : Calls) (size : ℕ) (o : Option ℕ) (z : ZoneInfo)
    → is_local size ≡ true
    → 0 < z.page_size
    → Post (Opened z) (alloc_page_at calls size o z)
unfolding alloc_page_at
alloc_page_at-Opened calls size none z local pos = refl
alloc_page_at-Opened calls size (some i) z local pos =
    let w = record z { descriptors = put z.descriptors i state_busy } in
    let n = z.page_size / size - 1 in
    let b = page_addr z i + size in
    rw local (
      Post-map (PageOf w i size n b (page_addr z i)) (Opened z)
        (new_page i size n b (page_addr z i) w) (λ (r, z') p. Page-Opened i size n b w r z' pos p)
        (new_page-Post i size n b (page_addr z i) w))
