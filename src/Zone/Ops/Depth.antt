-- ===== src/Zone/Ops/Depth.antt =====
-- The bound on the nested calls of `mem_alloc` and `mem_free`.
use system_sw.Prelude.{
  ℕ, ◌+◌, ◌-◌, ◌/◌, ◌^◌, ◌≤◌, ◌<◌, ◌≡◌, ◌∙◌, refl, sym, ap, subst, ◌≢◌, inl, inr, false, Option,
  none, some, arith, ltb, leb, ◌==◌, if◌then◌else◌, ltb→lt, Bool-cases, ◌>>=◌,
}
use native.Mathlib.Nat.{pow-le-pow_right, one-le-pow, le-div_iff_mul-le}
use system_sw.Zone.{
  size_d, PageState, state_free, state_busy, state_multipage, desc, ZoneInfo, put, log2, char_value,
  page_addr, page_of_addr,
}
use system_sw.Zone.Pages.{find_loop}
use system_sw.Zone.Rounding.{double, round_pow_2_lem, log2_power}
use system_sw.Zone.Ops.{
  Calls, is_local, delegated_page, alloc_page_at, alloc_page, take_block_of, class_page, rounded,
  alloc_with, reopen_page, free_in_full, free_state, free_with, above, calls_at, mem_alloc,
  mem_free,
}
use system_sw.Prelude.Post.{Post-bind, bind_congr}
use system_sw.Zone.Ops.Local.{Local, take_front_congr}
use system_sw.Zone.Ops.PageSize.{SameSizeOf, alloc_descriptor-Post}
use system_sw.Zone.Ops.Linked.{
  class_of, Linked, Ready, Ready-delegated_page, Ready-take_block_of, kept_desc, power_above,
  power_below,
}
use system_sw.Zone.Ops.OfDescriptor.{
  FirstLocal, rounded-size_d, alloc_descriptor_congr, free_in_page_congr, free_descriptor_congr,
}

module _ (end end' : Calls) where
  abbrev x : Calls
  x = above end

  abbrev y : Calls
  y = above end'

  -- the nested call that frees a descriptor
  nested_free :
      (z : ZoneInfo)
      → Linked z
      → (k d : ℕ) → z.descriptors k ≡ desc d
      → page_of_addr z d ≢ k
      → (w : ZoneInfo) → w.descriptors ≡ z.descriptors
      → w.page_size ≡ z.page_size
      → w.page_classes (page_of_addr z d) ≡ z.page_classes (page_of_addr z d)
      → x.free d w ≡ y.free d w
  nested_free z ok k d at out w e s c =
      let q = page_of_addr z d in
      let five : class_of z q ≡ 5 = ok.delegated k d at out in
      let same : page_of_addr w d ≡ q = ap (λ s. d / s) s in
      free_descriptor_congr end end' d w (ap (class_of w) same ∙ ap char_value c ∙ five) (
        subst (Local w) (sym same)
          (λ d' at'. ap (λ s. d' / s) s ∙ ok.local q d' (ap (λ f. f q) (sym e) ∙ at') five))

  -- the nested call that allocates one, for a page that was free or busy
  nested_alloc :
      (z : ZoneInfo) (i : ℕ)
      → Linked z
      → let w = record z { descriptors = put z.descriptors i state_busy } in
        (x.alloc size_d w ≡ y.alloc size_d w) × FirstLocal w × (0 < z.page_size)
  nested_alloc z i ok =
      let w = record z { descriptors = put z.descriptors i state_busy } in
      let one : 1 ≤ 2 ^ z.class_count = one-le-pow z.class_count 2 (omega arith) in
      let s = ok.sizes in
      let pos : 0 < z.page_size = omega (arith, one, s) in
      let first : FirstLocal w = λ p e d at.
        ok.local (z.store p).index d (kept_desc z i (z.store p).index d at) (ok.first p e) in
      (alloc_descriptor_congr end end' size_d w rounded-size_d pos first, first, pos)

  delegated_page_congr :
      (size class : ℕ) (at : Option ℕ) (z : ZoneInfo)
      → Linked z
      → is_local size ≡ false
      → 0 < size
      → 2 ≤ z.page_size / size
      → 5 < z.class_count
      → (alloc_page_at x size at z >>= take_block_of x class)
        ≡ (alloc_page_at y size at z >>= take_block_of y class)
  unfolding alloc_page_at
  delegated_page_congr size class none z ok other pos two many =
      Ready-take_block_of x y class (none, z) tt
  delegated_page_congr size class (some i) z ok other pos two many =
      let w = record z { descriptors = put z.descriptors i state_busy } in
      let (e, first, some_page) = nested_alloc z i ok in
      let size_kept = alloc_descriptor-Post end' w some_page first many in
      let o = y.alloc size_d w >>= delegated_page i size in
      let r =
        Post-bind (SameSizeOf w) Ready (alloc_with end' size_d w) (delegated_page i size) size_kept
          (λ r s. Ready-delegated_page i size z.page_size r pos two s) in
      rw other (
        ap (λ o. o >>= delegated_page i size >>= take_block_of x class) e
        ∙ bind_congr Ready o (take_block_of x class) (take_block_of y class) r
            (Ready-take_block_of x y class))

  -- a block of another class than the one of descriptors
  open_class_congr :
      (size class : ℕ) (o : Option ℕ) (z : ZoneInfo)
      → Linked z
      → is_local size ≡ false
      → 0 < size
      → 2 ≤ z.page_size / size
      → 5 < z.class_count
      → (class_page x size o z >>= take_block_of x class)
        ≡ (class_page y size o z >>= take_block_of y class)
  unfolding class_page alloc_page take_block_of
  open_class_congr size class none z ok other pos two many =
      delegated_page_congr size class (find_loop z.descriptors 1 1 (z.page_count - 1) 0) z ok other
        pos two many
  open_class_congr size class (some p) z ok other pos two many =
      take_front_congr x y class p (z.store p).block z (λ s d at out.
        nested_free z ok (z.store p).index d at out (record z { store = s }) refl refl refl)

  -- the classes above the one of descriptors
  alloc_class_congr :
      (size_in c : ℕ) (z : ZoneInfo)
      → Linked z
      → rounded size_in ≡ 2 ^ c
      → 6 ≤ c
      → c < 32
      → alloc_with x size_in z ≡ alloc_with y size_in z
  unfolding alloc_with
  alloc_class_congr size_in c z ok r lo hi =
      let l : log2 (2 ^ c) ≡ c = log2_power c hi in
      elim (Bool-cases (ltb c z.class_count)) [
        | inl t ↦
            let lt : c < z.class_count = ltb→lt _ _ t in
            let big : 2 ^ 6 ≤ 2 ^ c = pow-le-pow_right (omega arith) lo in
            let fits : 2 ^ (c + 1) ≤ 2 ^ z.class_count =
              pow-le-pow_right (omega arith) (omega arith) in
            let s = ok.sizes in
            let two : 2 ≤ z.page_size / 2 ^ c =
              (le-div_iff_mul-le (omega (arith, big))).1 (omega (arith, fits, s, double c)) in
            rw (r, l, t)
              (open_class_congr (2 ^ c) c (z.classes c) z ok (ground arith) (omega (arith, big)) two
                (omega arith))
        | inr t ↦ rw (r, l, t) refl
      ]

  pub alloc_with_congr :
      (size : ℕ) (z : ZoneInfo)
      → Linked z
      → size ≤ 2 ^ 24
      → alloc_with x size z ≡ alloc_with y size z
  alloc_with_congr size z ok le =
      let v : ℕ = if leb size_d size then size else size_d in
      let ge : 24 ≤ v = ground arith in
      let top : v ≤ 2 ^ 24 = ground arith in
      let (c, r, lo, hi) = round_pow_2_lem v (omega (arith, ge)) top in
      let at_least : 5 ≤ c = power_above c 5 v (omega (arith, ge)) lo in
      let at_most : c < 32 = power_below c 32 v (omega (arith, top)) hi in
      elim (Bool-cases (c == 5)) [
        | inl t ↦
            let five : c ≡ 5 = ground arith in
            let one : 1 ≤ 2 ^ z.class_count = one-le-pow z.class_count 2 (omega arith) in
            let s = ok.sizes in
            alloc_descriptor_congr x y size z (r ∙ ap (λ c. 2 ^ c) five) (omega (arith, one, s))
              (λ p e d at. ok.local (z.store p).index d at (ok.first p e))
        | inr t ↦ alloc_class_congr size c z ok r (ground arith) at_most
      ]

  full_page_congr :
      (addr k : ℕ) (z : ZoneInfo) → Linked z → free_in_full x addr k z ≡ free_in_full y addr k z
  unfolding free_in_full
  full_page_congr addr k z ok =
      let w = record z { descriptors = put z.descriptors k state_busy } in
      let (e, first, pos) = nested_alloc z k ok in
      ap
        (λ o.
          if is_local (2 ^ class_of z k)
          then reopen_page addr k (some (page_addr z k), w)
          else (o >>= reopen_page addr k))
        e

  free_state_congr :
      (st : PageState) (addr k : ℕ) (z : ZoneInfo)
      → Linked z
      → z.descriptors k ≡ st
      → free_state x st addr k z ≡ free_state y st addr k z
  unfolding free_state
  free_state_congr state_free addr k z ok at = full_page_congr addr k z ok
  free_state_congr state_busy addr k z ok at = full_page_congr addr k z ok
  free_state_congr state_multipage addr k z ok at = refl
  free_state_congr (desc d) addr k z ok at = free_in_page_congr x y addr k d z (λ c s l d' e out.
      nested_free z ok k d' e out
        (record z { classes = c; page_classes = put z.page_classes k 0; store = s; links = l }) refl
        refl (let other : (page_of_addr z d' == k) ≡ false = ground arith in rw other refl))

  pub free_with_congr :
      (addr : ℕ) (z : ZoneInfo) → Linked z → free_with x addr z ≡ free_with y addr z
  unfolding free_with
  free_with_congr addr z ok =
      free_state_congr (z.descriptors (page_of_addr z addr)) addr (page_of_addr z addr) z ok refl

-- Where every descriptor is in its own page or in one of blocks of 32 bytes, and a page has room for two
-- blocks of each class, `mem_alloc` of up to 2 ^ 24 bytes and `mem_free` of any block do not come to the
-- end of the bound on their nested calls: one nested call is the most. For whatever operations `end`
-- stand in the place of the calls below that one, the results and the states are the same.
pub mem_alloc-above :
    (end : Calls) (size addr : ℕ) (z : ZoneInfo)
    → Linked z
    → size ≤ 2 ^ 24
    → (alloc_with (above end) size z ≡ mem_alloc size z)
      × (free_with (above end) addr z ≡ mem_free addr z)
unfolding mem_alloc mem_free calls_at
mem_alloc-above end size addr z ok le =
    (alloc_with_congr end (calls_at 3) size z ok le, free_with_congr end (calls_at 3) addr z ok)
