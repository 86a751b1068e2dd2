-- ===== src/Zone/Ops/OfDescriptor.antt =====
-- The nested calls where the block of a descriptor is taken or given back.
use system_sw.Prelude.{
  ℕ, ◌+◌, ◌-◌, ◌/◌, ◌^◌, ◌<◌, ◌≡◌, ◌∙◌, refl, ap, inl, inr, ◌&&◌, ◌||◌, Option, none, some, ltb,
  leb, ◌==◌, Bool-cases, ◌>>=◌,
}
use system_sw.Prelude.Word.{wrap, sub32}
use system_sw.Zone.{
  size_d, PageState, state_free, state_busy, state_multipage, desc, Descriptor, ZoneInfo, put, log2,
  log2_loop, char_value, float_exponent, round_pow_2, page_of_addr, remove_from_class,
}
use system_sw.Zone.Pages.{find_loop}
use system_sw.Zone.Ops.{
  Calls, alloc_page_at, alloc_page, take_block_of, class_page, rounded, alloc_with, free_page,
  free_in_page, free_in_full, free_state, free_with,
}
use system_sw.Prelude.Post.{bind_congr}
use system_sw.Zone.Ops.Local.{
  Local, SameFree, Opened, free_delegated_congr, take_front_congr, alloc_page_congr,
  alloc_page_at-Opened,
}

pub rounded-size_d : rounded size_d ≡ 32
unfolding round_pow_2 float_exponent log2_loop wrap
rounded-size_d = refl

pub log2_32 : log2 32 ≡ 5
unfolding log2_loop
log2_32 = refl

-- the first page of descriptors is in order
abbrev pub FirstLocal : ZoneInfo → Type 0
FirstLocal z = (p : ℕ) → z.classes 5 ≡ some p → Local z (z.store p).index

-- page `k` is free
abbrev freed : ℕ → ZoneInfo → Option ZoneInfo
freed k z = some (record z { descriptors = put z.descriptors k state_free })

module _ (x y : Calls) where
  take_block_congr :
      (class : ℕ) (z : ZoneInfo) (r : Option ℕ × ZoneInfo)
      → Opened z r
      → take_block_of x class r ≡ take_block_of y class r
  unfolding take_block_of
  take_block_congr class z (none, z') h = refl
  take_block_congr class z (some d, z') (s, local) =
      take_front_congr x y class d (z'.store d).block z' (λ s d' at out. absurd (out (local d' at)))

  class_page_congr :
      (o : Option ℕ) (z : ZoneInfo)
      → 0 < z.page_size
      → ((p : ℕ) → o ≡ some p → Local z (z.store p).index)
      → (class_page x 32 o z >>= take_block_of x 5) ≡ (class_page y 32 o z >>= take_block_of y 5)
  unfolding class_page alloc_page
  class_page_congr none z pos first =
      let at = find_loop z.descriptors 1 1 (z.page_count - 1) 0 in
      let e : alloc_page x 32 z ≡ alloc_page y 32 z = alloc_page_congr x y 32 z refl in
      bind_congr (Opened z) (alloc_page_at x 32 at z) (take_block_of x 5) (take_block_of y 5)
        (alloc_page_at-Opened x 32 at z refl pos) (take_block_congr 5 z)
      ∙ ap (λ o. o >>= take_block_of y 5) e
  class_page_congr (some p) z pos first = take_block_congr 5 z (some p, z) (refl, first p refl)

  -- A block of 32 bytes is taken without a nested call.
  pub alloc_descriptor_congr :
      (size : ℕ) (z : ZoneInfo)
      → rounded size ≡ 32
      → 0 < z.page_size
      → FirstLocal z
      → alloc_with x size z ≡ alloc_with y size z
  unfolding alloc_with
  alloc_descriptor_congr size z r pos first = elim (Bool-cases (ltb 5 z.class_count)) [
    | inl e ↦ rw (r, log2_32, e) (class_page_congr (z.classes 5) z pos first)
    | inr e ↦ rw (r, log2_32, e) refl
  ]

  -- a page that is left is freed the same, where its descriptor is
  pub free_in_page_congr :
      (addr k d : ℕ) (z : ZoneInfo)
      → ((c : ℕ → Option ℕ) (s : ℕ → Descriptor) (l : ℕ → Option ℕ)
          → SameFree x y
              (record z {
                classes = c;
                page_classes = put z.page_classes k 0;
                store = s;
                links = l;
              })
              k)
      → free_in_page x addr k d z ≡ free_in_page y addr k d z
  unfolding free_in_page free_page remove_from_class
  free_in_page_congr addr k d z h =
      let p = z.store d in
      let count = wrap (p.free_count + 1) in
      let max = z.page_size / 2 ^ p.class in
      let w = record z {
        store = put z.store d (record p { free_count = count; block = some addr });
        links = put z.links addr p.block;
      } in
      let r = remove_from_class d (record w { page_classes = put w.page_classes k 0 }) in
      let e = free_delegated_congr x y (z.descriptors k) k r (h r.classes r.store r.links) in
      elim (Bool-cases (leb max count || (leb (sub32 max 1) count && page_of_addr z d == k))) [
        | inl t ↦ rw t (ap (λ o. o >>= freed k) e)
        | inr t ↦ rw t refl
      ]

  descriptor_state_congr :
      (st : PageState) (addr k : ℕ) (z : ZoneInfo)
      → z.descriptors k ≡ st
      → char_value (z.page_classes k) ≡ 5
      → Local z k
      → free_state x st addr k z ≡ free_state y st addr k z
  unfolding free_state free_in_full
  descriptor_state_congr state_free addr k z at five local = rw five refl
  descriptor_state_congr state_busy addr k z at five local = rw five refl
  descriptor_state_congr state_multipage addr k z at five local = refl
  descriptor_state_congr (desc d) addr k z at five local =
      free_in_page_congr addr k d z (λ c s l d' e out. absurd (out (local d' e)))

  -- The block of a descriptor is given back without a nested call.
  pub free_descriptor_congr :
      (addr : ℕ) (z : ZoneInfo)
      → char_value (z.page_classes (page_of_addr z addr)) ≡ 5
      → Local z (page_of_addr z addr)
      → free_with x addr z ≡ free_with y addr z
  unfolding free_with
  free_descriptor_congr addr z five local =
      let k = page_of_addr z addr in
      descriptor_state_congr (z.descriptors k) addr k z refl five local
