-- ===== src/Zone/Ops/Linked.antt =====
-- Where the descriptors of pages are, and a page opened for a class.
use system_sw.Prelude.{
  ℕ, suc, ◌+◌, ◌-◌, ◌*◌, ◌/◌, ◌^◌, ◌≤◌, ◌<◌, ◌≡◌, ◌∙◌, refl, sym, ap, subst, ◌≢◌, inl, inr, true,
  Option, none, some, arith, ltb, leb, ◌==◌, Bool-cases,
}
use native.Mathlib.Nat.{pow-le-pow_right}
use system_sw.Zone.{state_busy, desc, ZoneInfo, put, char_value, page_addr, page_of_addr}
use system_sw.Zone.Rounding.{double}
use system_sw.Zone.Ops.{
  Calls, link_blocks, new_page, delegated_page, after_front, take_front, take_block_of,
}
use system_sw.Zone.Ops.Chain.{link_blocks_before}
use system_sw.Prelude.Post.{Post-map, Post}
use system_sw.Zone.Ops.Local.{PageOf, new_page-Post}

-- the class of page `k`
abbrev pub class_of : ZoneInfo → ℕ → ℕ
class_of z k = char_value (z.page_classes k)

-- Descriptors are in their own page or in one of blocks of 32 bytes, whose descriptor is in it, and a page
-- has room for two blocks of each class.
pub record Linked (z : ZoneInfo) : Type 0 where
  pub local : (k d : ℕ) → z.descriptors k ≡ desc d → class_of z k ≡ 5 → page_of_addr z d ≡ k
  pub delegated :
      (k d : ℕ)
      → z.descriptors k ≡ desc d
      → page_of_addr z d ≢ k
      → class_of z (page_of_addr z d) ≡ 5
  pub first : (p : ℕ) → z.classes 5 ≡ some p → class_of z (z.store p).index ≡ 5
  pub sizes : 2 ^ z.class_count ≤ z.page_size

-- a page opened for more than one block, or none
abbrev pub Ready : Option ℕ × ZoneInfo → Type 0
Ready (none, z) = Unit {0}
Ready (some d, z) = (b b2 : ℕ) × ((z.store d).block ≡ some b) × (z.links b ≡ some b2)

Ready-new_page :
    (i size d : ℕ) (z : ZoneInfo)
    → 0 < size
    → 2 ≤ z.page_size / size
    → Post Ready (delegated_page i size (some d, z))
unfolding delegated_page link_blocks
Ready-new_page i size d z pos two =
    let n = z.page_size / size in
    let b = page_addr z i in
    let e : n - 1 ≡ suc (n - 2) = omega arith in
    let self : (b == b) ≡ true = ground arith in
    let first : link_blocks z.links b size (n - 1) b ≡ some (b + size) =
      ap (λ m. link_blocks z.links b size m b) e
      ∙ link_blocks_before (put z.links b (some (b + size))) (b + size) size (n - 2) b (omega arith)
      ∙ rw self refl in
    Post-map (PageOf z i size n b d) Ready (new_page i size n b d z)
      (λ (r, z') (q, p).
        subst (λ r. Ready (r, z')) (sym q) (b, b + size, p.block, ap (λ f. f b) p.links ∙ first))
      (new_page-Post i size n b d z)

pub Ready-delegated_page :
    (i size page_size : ℕ) (r : Option ℕ × ZoneInfo)
    → 0 < size
    → 2 ≤ page_size / size
    → r.1.page_size ≡ page_size
    → Post Ready (delegated_page i size r)
unfolding delegated_page
Ready-delegated_page i size ps (none, z) pos two same = tt
Ready-delegated_page i size ps (some d, z) pos two same =
    Ready-new_page i size d z pos (rw same two)

pub Ready-take_block_of :
    (x y : Calls) (class : ℕ) (r : Option ℕ × ZoneInfo)
    → Ready r
    → take_block_of x class r ≡ take_block_of y class r
unfolding take_block_of take_front after_front
Ready-take_block_of x y class (none, z) h = refl
Ready-take_block_of x y class (some d, z) (b, b2, at, next) = rw (at, next) refl

-- a page that still has a descriptor is not the one that was made busy
pub kept_desc :
    (z : ZoneInfo) (i k d : ℕ)
    → put z.descriptors i state_busy k ≡ desc d
    → z.descriptors k ≡ desc d
kept_desc z i k d at = elim (Bool-cases (k == i)) [
  | inl t ↦
      let busy : put z.descriptors i state_busy k ≡ state_busy = rw t refl in
      let no : state_busy ≡ desc d = sym busy ∙ at in absurd (ground arith)
  | inr t ↦
      let same : put z.descriptors i state_busy k ≡ z.descriptors k = rw t refl in sym same ∙ at
]

-- a power of two between others
pub power_above : (c k v : ℕ) → 2 ^ k < 2 * v → v ≤ 2 ^ c → k ≤ c
power_above c k v below le = elim (Bool-cases (leb k c)) [
  | inl t ↦ ground arith
  | inr t ↦
      let lt : c + 1 ≤ k = ground arith in
      let p : 2 ^ (c + 1) ≤ 2 ^ k = pow-le-pow_right (omega arith) lt in
      absurd (omega (arith, p, double c))
]

pub power_below : (c k v : ℕ) → 2 * v ≤ 2 ^ k → 2 ^ c < 2 * v → c < k
power_below c k v top lt = elim (Bool-cases (ltb c k)) [
  | inl t ↦ ground arith
  | inr t ↦
      let le : k ≤ c = ground arith in
      let p : 2 ^ k ≤ 2 ^ c = pow-le-pow_right (omega arith) le in absurd (omega (arith, p))
]
