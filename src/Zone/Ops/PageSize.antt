-- ===== src/Zone/Ops/PageSize.antt =====
-- The page size where the block for a descriptor is taken.
use system_sw.Prelude.{
  ℕ, ◌-◌, ◌<◌, ◌≡◌, ◌∙◌, refl, subst, inl, inr, true, Option, none, some, ltb, ◌==◌, lt→ltb,
  Bool-cases, ◌>>=◌,
}
use system_sw.Zone.{
  size_d, PageState, state_free, state_busy, state_multipage, desc, ZoneInfo, page_of_addr,
}
use system_sw.Zone.Pages.{find_loop}
use system_sw.Zone.Ops.{
  Calls, alloc_page_at, alloc_page, free_delegated, page_full, after_front, take_front,
  take_block_of, class_page, alloc_with, calls_at,
}
use system_sw.Prelude.Post.{Post-map, Post, Post-bind}
use system_sw.Zone.Ops.Local.{Local, Opened, alloc_page_at-Opened}
use system_sw.Zone.Ops.OfDescriptor.{FirstLocal, rounded-size_d, log2_32, alloc_descriptor_congr}

abbrev SameSize : ZoneInfo → ZoneInfo → Type 0
SameSize z z' = z'.page_size ≡ z.page_size

abbrev pub SameSizeOf : ZoneInfo → Option ℕ × ZoneInfo → Type 0
SameSizeOf z (r, z') = z'.page_size ≡ z.page_size

-- without a nested call
abbrev alone : Calls
alone = calls_at 0

free_delegated-Post :
    (st : PageState) (k : ℕ) (z : ZoneInfo) → Post (SameSize z) (free_delegated alone st k z)
unfolding free_delegated calls_at
free_delegated-Post state_free k z = tt
free_delegated-Post state_busy k z = tt
free_delegated-Post state_multipage k z = tt
free_delegated-Post (desc d) k z = elim (Bool-cases (page_of_addr z d == k)) [
  | inl e ↦ rw e refl
  | inr e ↦ rw e tt
]

page_full-Post : (class page : ℕ) (z : ZoneInfo) → Post (SameSize z) (page_full alone class page z)
unfolding page_full
page_full-Post class page z =
    Post-bind (SameSize z) (SameSize z) _ _
      (free_delegated-Post (z.descriptors (z.store page).index) (z.store page).index _) (λ z' s. s)

after_front-Post :
    (class page block : ℕ) (next : Option ℕ) (z : ZoneInfo)
    → Post (SameSizeOf z) (after_front alone class page block next z)
unfolding after_front
after_front-Post class page block none z =
    Post-bind (SameSize z) (SameSizeOf z) _ _ (page_full-Post class page z) (λ z' s. s)
after_front-Post class page block (some b) z = refl

take_front-Post :
    (class page : ℕ) (first : Option ℕ) (z : ZoneInfo)
    → Post (SameSizeOf z) (take_front alone class page first z)
unfolding take_front
take_front-Post class page none z = tt
take_front-Post class page (some b) z = after_front-Post class page b (z.links b) _

taken_block-Post :
    (z : ZoneInfo) (r : Option ℕ × ZoneInfo)
    → Opened z r
    → Post (SameSizeOf z) (take_block_of alone 5 r)
unfolding take_block_of
taken_block-Post z (none, z') s = s
taken_block-Post z (some d, z') (s, local) =
    Post-map (SameSizeOf z') (SameSizeOf z) _ (λ (r, w) q. q ∙ s)
      (take_front-Post 5 d (z'.store d).block z')

class_page-Post :
    (o : Option ℕ) (z : ZoneInfo)
    → 0 < z.page_size
    → ((p : ℕ) → o ≡ some p → Local z (z.store p).index)
    → Post (SameSizeOf z) (class_page alone 32 o z >>= take_block_of alone 5)
unfolding class_page alloc_page
class_page-Post none z pos first =
    let at = find_loop z.descriptors 1 1 (z.page_count - 1) 0 in
    Post-bind (Opened z) (SameSizeOf z) (alloc_page_at alone 32 at z) _
      (alloc_page_at-Opened alone 32 at z refl pos) (taken_block-Post z)
class_page-Post (some p) z pos first = taken_block-Post z (some p, z) (refl, first p refl)

pub alloc_descriptor-Post :
    (calls : Calls) (z : ZoneInfo)
    → 0 < z.page_size
    → FirstLocal z
    → 5 < z.class_count
    → Post (SameSizeOf z) (alloc_with calls size_d z)
unfolding alloc_with
alloc_descriptor-Post calls z pos first many =
    let l : ltb 5 z.class_count ≡ true = lt→ltb _ _ many in
    subst (Post (SameSizeOf z))
      (alloc_descriptor_congr alone calls size_d z rounded-size_d pos first)
      (rw (rounded-size_d, log2_32, l) (class_page-Post (z.classes 5) z pos first))
