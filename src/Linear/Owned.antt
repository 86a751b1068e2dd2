-- ===== src/Linear/Owned.antt =====
-- The busy blocks of a region, as their owners know them: an address and a size.
use system_sw.Prelude.{
  ℕ, ◌+◌, ◌≤◌, ◌<◌, ◌≡◌, sym, ap, subst, true, false, ◌⊎◌, inl, inr, List, [], ◌∷◌, ◌++◌, arith,
  Bool-cases,
}
use system_sw.Linear.Chain.{Block, block, span, OffHeaders, OffHeaders-below}
use system_sw.Linear.Write.{absorb}
use system_sw.Linear.Heap.{absorb-busy, absorb-free}
use system_sw.Linear.Located.{Located}

-- among the blocks from `o` on, a busy one of size `s` has its payload at `a`
abbrev pub Owned : ℕ → List Block → ℕ → ℕ → Type 0
Owned o [] a s = ⊥
Owned o (b ∷ bs) a s =
    ((b.busy ≡ true) × (a ≡ o + 12) × (s ≡ b.size)) ⊎ Owned (o + 12 + b.size) bs a s

pub Owned-ge : (o : ℕ) (bs : List Block) (a s : ℕ) → Owned o bs a s → o + 12 ≤ a
Owned-ge o [] a s h = absurd h
Owned-ge o (b ∷ bs) a s (inl h) = omega arith
Owned-ge o (b ∷ bs) a s (inr h) = omega (arith, Owned-ge (o + 12 + b.size) bs a s h)

-- the payload of a busy block lies off the headers
pub Owned-OffHeaders :
    (o : ℕ) (bs : List Block) (a s i : ℕ) → Owned o bs a s → a ≤ i → i < a + s → OffHeaders o bs i
Owned-OffHeaders o [] a s i h l u = absurd h
Owned-OffHeaders o (b ∷ bs) a s i (inl h) l u =
    (inr (omega arith), OffHeaders-below (o + 12 + b.size) bs i (omega arith))
Owned-OffHeaders o (b ∷ bs) a s i (inr h) l u = (
  inr (omega (arith, Owned-ge (o + 12 + b.size) bs a s h)),
  Owned-OffHeaders (o + 12 + b.size) bs a s i h l u,
)

pub Owned-absorb :
    (o t : ℕ) (bs : List Block) (a s : ℕ)
    → Owned (o + 12 + t) bs a s
    → Owned o (absorb false t bs) a s
unfolding absorb
Owned-absorb o t [] a s h = absurd h
Owned-absorb o t (d ∷ bs) a s h = elim (Bool-cases d.busy) [
  | inl k ↦ subst (λ x. Owned o x a s) (sym (absorb-busy t d bs k)) (inr h)
  | inr k ↦
      subst (λ x. Owned o x a s) (sym (absorb-free t d bs k))
        (Owned-absorb o (t + d.size + 12) bs a s (skip h k))
]
  where
    skip :
        Owned (o + 12 + t) (d ∷ bs) a s → d.busy ≡ false → Owned (o + 12 + (t + d.size + 12)) bs a s
    skip (inl x) k = absurd (ground arith)
    skip (inr x) k =
        let e : o + 12 + t + 12 + d.size ≡ o + 12 + (t + d.size + 12) = omega arith in rw e at x

-- what is owned can be passed to `mem_free` and `mem_realloc`: it has a block on its left
Owned-split :
    (o : ℕ) (c : Block) (bs : List Block) (a s : ℕ)
    → Owned (o + 12 + c.size) bs a s
    → (xs : List Block) × (l : Block) × (ys : List Block) × (c ∷ bs ≡ xs ++ l ∷ block true s ∷ ys)
      × (a ≡ o + span xs + 12 + l.size + 12)
Owned-split o c [] a s h = absurd h
Owned-split o c (b ∷ bs) a s (inl h) = ([], c, bs, ground arith, omega arith)
Owned-split o c (b ∷ bs) a s (inr h) =
    let (xs, l, ys, e, p) = Owned-split (o + 12 + c.size) b bs a s h in
    (c ∷ xs, l, ys, ap (λ x. c ∷ x) e, omega arith)

pub Owned-Located : (bs : List Block) (a s : ℕ) → Owned 12 bs a s → Located bs a s
Owned-Located bs a s h =
    let (xs, l, ys, e, p) = Owned-split 0 (block true 0) bs a s h in
    record { before = xs; left = l; after = ys; split = e; place = omega arith }
