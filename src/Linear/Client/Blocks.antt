-- ===== src/Linear/Client/Blocks.antt =====
-- Owned blocks in a region of which a part is replaced, and bytes written into one of them.
use system_sw.Prelude.{
  ℕ, ◌+◌, ◌-◌, ◌≤◌, ◌<◌, ◌≡◌, refl, sym, subst, ◌≢◌, ◌⊎◌, inl, inr, true, false, List, [], ◌∷◌,
  ◌++◌, arith, ltb, ltb→lt, Bool-cases,
}
use system_sw.Memory.{Bytes}
use system_sw.Linear.Header.{read_header-congr}
use system_sw.Linear.Chain.{Block, block, span, Chain, OffHeaders}
use system_sw.Linear.Write.{absorb}
use system_sw.Linear.Located.{Located, part, Replaced}
use system_sw.Linear.Owned.{Owned, Owned-ge, Owned-absorb}
use system_sw.Linear.Free.{merge, merge-busy, merge-free}
use system_sw.Linear.Realloc.Shrink.{trim}

-- two owned blocks are one, or a header and more apart
pub Owned-apart :
    (o : ℕ) (bs : List Block) (a s a' s' : ℕ)
    → Owned o bs a s
    → Owned o bs a' s'
    → ((a ≡ a') × (s ≡ s')) ⊎ ((a + s + 12 ≤ a') ⊎ (a' + s' + 12 ≤ a))
Owned-apart o [] a s a' s' h k = absurd h
Owned-apart o (b ∷ bs) a s a' s' (inl h) (inl k) = inl (omega arith, omega arith)
Owned-apart o (b ∷ bs) a s a' s' (inl h) (inr k) =
    inr (inl (omega (arith, h, Owned-ge (o + 12 + b.size) bs a' s' k)))
Owned-apart o (b ∷ bs) a s a' s' (inr h) (inl k) =
    inr (inr (omega (arith, k, Owned-ge (o + 12 + b.size) bs a s h)))
Owned-apart o (b ∷ bs) a s a' s' (inr h) (inr k) = Owned-apart (o + 12 + b.size) bs a s a' s' h k

pub Owned-append :
    (o : ℕ) (xs ys : List Block) (a s : ℕ)
    → Owned o (xs ++ ys) a s
    → Owned o xs a s ⊎ Owned (o + span xs) ys a s
Owned-append o [] ys a s h = let e : o + 0 ≡ o = omega arith in inr (rw e h)
Owned-append o (b ∷ xs) ys a s (inl h) = inl (inl h)
Owned-append o (b ∷ xs) ys a s (inr h) =
    let e : o + (12 + b.size + span xs) ≡ o + 12 + b.size + span xs = omega arith in
    elim (Owned-append (o + 12 + b.size) xs ys a s h) [ inl x ↦ inl (inr x) | inr y ↦ inr (rw e y) ]

pub Owned-left : (o : ℕ) (xs ys : List Block) (a s : ℕ) → Owned o xs a s → Owned o (xs ++ ys) a s
Owned-left o [] ys a s h = absurd h
Owned-left o (b ∷ xs) ys a s (inl h) = inl h
Owned-left o (b ∷ xs) ys a s (inr h) = inr (Owned-left (o + 12 + b.size) xs ys a s h)

pub Owned-right :
    (o : ℕ) (xs ys : List Block) (a s : ℕ) → Owned (o + span xs) ys a s → Owned o (xs ++ ys) a s
Owned-right o [] ys a s h = let e : o + 0 ≡ o = omega arith in rw e at h
Owned-right o (b ∷ xs) ys a s h =
    let e : o + (12 + b.size + span xs) ≡ o + 12 + b.size + span xs = omega arith in
    inr (Owned-right (o + 12 + b.size) xs ys a s (rw e at h))

-- what is owned in the region is owned in it with its first block, and back
with_first : (bs : List Block) (a s : ℕ) → Owned 12 bs a s → Owned 0 (block true 0 ∷ bs) a s
with_first bs a s h = inr h

without_first :
    (bs : List Block) (a s : ℕ) → 24 ≤ a → Owned 0 (block true 0 ∷ bs) a s → Owned 12 bs a s
without_first bs a s l (inl h) = absurd (omega (arith, h, l))
without_first bs a s l (inr h) = h

module _ {bs : List Block} {addr s : ℕ} (l : Located bs addr s) where
  -- a block that stays owned where the part is replaced
  pub Owned-Replaced :
      (zs bs' : List Block) (a t : ℕ)
      → Replaced l zs bs'
      → (Owned (span l.before) (part l) a t → Owned (span l.before) zs a t)
      → Owned 12 bs a t
      → Owned 12 bs' a t
  Owned-Replaced zs bs' a t e keep h =
      let z : 0 + span l.before ≡ span l.before = omega arith in
      without_first bs' a t (Owned-ge 12 bs a t h) (
        subst (λ x. Owned 0 x a t) (sym e)
          (elim (Owned-append 0 l.before (part l) a t
            (subst (λ x. Owned 0 x a t) l.split (with_first bs a t h))) [
              | inl x ↦ Owned-left 0 l.before zs a t x
              | inr y ↦ Owned-right 0 l.before zs a t (
                  subst (λ o. Owned o zs a t) (sym z)
                    (keep (subst (λ o. Owned o (part l) a t) z y)))
            ]))

  -- the located block itself
  pub Owned-place :
      (zs bs' : List Block) (t : ℕ)
      → Replaced l zs bs'
      → Owned (span l.before) zs addr t
      → Owned 12 bs' addr t
  Owned-place zs bs' t e h =
      let z : 0 + span l.before ≡ span l.before = omega arith in
      without_first bs' addr t (let p = l.place in omega arith) (
        subst (λ x. Owned 0 x addr t) (sym e)
          (Owned-right 0 l.before zs addr t (subst (λ o. Owned o zs addr t) (sym z) h)))

  -- the other blocks of the part stay owned where the located one is freed
  pub Owned-merge :
      (a t : ℕ)
      → a ≢ addr
      → Owned (span l.before) (part l) a t
      → Owned (span l.before) (merge l.left s l.after) a t
  Owned-merge a t ne h = elim (Bool-cases l.left.busy) [
    | inl k ↦
        subst (λ x. Owned (span l.before) x a t) (sym (merge-busy l.left s l.after k))
          (behind_busy h)
    | inr k ↦
        subst (λ x. Owned (span l.before) x a t) (sym (merge-free l.left s l.after k))
          (behind_free k h)
  ]
    where
      behind_busy :
          Owned (span l.before) (part l) a t
          → Owned (span l.before) (l.left ∷ absorb false s l.after) a t
      behind_busy (inl x) = inl x
      behind_busy (inr (inl x)) = absurd (let p = l.place in ne (omega arith))
      behind_busy (inr (inr x)) = inr (Owned-absorb _ s l.after a t x)

      behind_free :
          l.left.busy ≡ false
          → Owned (span l.before) (part l) a t
          → Owned (span l.before) (absorb false (l.left.size + 12 + s) l.after) a t
      behind_free k (inl x) = absurd (ground arith)
      behind_free k (inr (inl x)) = absurd (let p = l.place in ne (omega arith))
      behind_free k (inr (inr x)) =
          let e : span l.before + 12 + l.left.size + 12 + s
              ≡ span l.before + 12 + (l.left.size + 12 + s) =
            omega arith in
          Owned-absorb _ (l.left.size + 12 + s) l.after a t (subst (λ o. Owned o l.after a t) e x)

  -- the other blocks of the part stay owned where the located one is cut down
  pub Owned-trim :
      (r a t : ℕ)
      → a ≢ addr
      → Owned (span l.before) (part l) a t
      → Owned (span l.before) (l.left ∷ trim r s l.after) a t
  unfolding trim
  Owned-trim r a t ne (inl x) = inl x
  Owned-trim r a t ne (inr (inl x)) = absurd (let p = l.place in ne (omega arith))
  Owned-trim r a t ne (inr (inr x)) = elim (Bool-cases (ltb (12 + r) s)) [
    | inl k ↦
        let o = span l.before + 12 + l.left.size in
        let room : 12 + r < s = ltb→lt _ _ k in
        let e : o + 12 + s ≡ o + 12 + r + 12 + (s - r - 12) = omega arith in
        rw k (
          inr (
            inr (
              Owned-absorb (o + 12 + r) (s - r - 12) l.after a t
                (subst (λ o. Owned o l.after a t) e x))))
    | inr k ↦ rw k (inr (inr x))
  ]

  -- the located block keeps its address, with `r` bytes or all
  pub Owned-trimmed :
      (r : ℕ)
      → (Owned (span l.before) (l.left ∷ trim r s l.after) addr r)
        ⊎ (Owned (span l.before) (l.left ∷ trim r s l.after) addr s)
  unfolding trim
  Owned-trimmed r =
      let p = l.place in
      elim (Bool-cases (ltb (12 + r) s)) [
        | inl k ↦ inl (rw k (inr (inl (refl, omega arith, refl))))
        | inr k ↦ inr (rw k (inr (inl (refl, omega arith, refl))))
      ]

-- a byte written off the headers leaves the chain
pub Chain-write :
    (amount : ℕ) (m m' : Bytes) (o p i : ℕ) (bs : List Block)
    → ((k : ℕ) → k ≢ i → m' k ≡ m k)
    → OffHeaders o bs i
    → Chain amount m o p bs
    → Chain amount m' o p bs
Chain-write amount m m' o p i [] same off c =
    rw (read_header-congr m m' o (λ k lo hi. same k (apart k lo hi off))) c
  where
    apart : (k : ℕ) → o ≤ k → k < o + 12 → (i < o) ⊎ (o + 12 ≤ i) → k ≢ i
    apart k lo hi (inl x) = omega arith
    apart k lo hi (inr x) = omega arith
Chain-write amount m m' o p i (b ∷ bs) same off c =
    rw (read_header-congr m m' o (λ k lo hi. same k (apart k lo hi off.0)))
      (c.0, c.1, c.2, Chain-write amount m m' (o + 12 + b.size) b.size i bs same off.1 c.3)
  where
    apart : (k : ℕ) → o ≤ k → k < o + 12 → (i < o) ⊎ (o + 12 ≤ i) → k ≢ i
    apart k lo hi (inl x) = omega arith
    apart k lo hi (inr x) = omega arith
