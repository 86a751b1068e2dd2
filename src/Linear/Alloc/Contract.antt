-- ===== src/Linear/Alloc/Contract.antt =====
-- What a caller of `mem_alloc` may rely on.
use system_sw.Prelude.{
  ℕ, ◌+◌, ◌-◌, ◌%◌, ◌≤◌, ◌<◌, ◌≡◌, ◌≢◌, refl, sym, ap, subst, Bool, true, false, not, ◌&&◌, ◌⊎◌,
  inl, inr, Option, none, some, List, [], ◌∷◌, arith, leb, Bool-cases,
}
use system_sw.Memory.{Bytes}
use system_sw.Linear.{AlcInfo, mem_alloc}
use system_sw.Linear.Chain.{Block, block}
use system_sw.Linear.Heap.{Tidy, IsHeap, round_up, round_up-le}
use system_sw.Linear.Owned.{Owned, Owned-ge, Owned-OffHeaders, Owned-absorb}
use system_sw.Linear.Alloc.{place, first_fit, cons_block}
use system_sw.Linear.Alloc.Refine.{Implements, mem_alloc-first_fit}

-- no free block has room for `size` bytes
abbrev pub Unfit : ℕ → List Block → Type 0
Unfit size [] = Unit
Unfit size (b ∷ bs) = ((b.busy ≡ true) ⊎ (b.size < size)) × Unfit size bs

-- the blocks `bs'` have a new busy block of `t` bytes at `a`, apart from all that were busy in `bs`
abbrev pub Grants : ℕ → List Block → ℕ → List Block → ℕ → Type 0
Grants o bs a bs' t =
    Owned o bs' a t
    × ((a' s : ℕ) → Owned o bs a' s → Owned o bs' a' s × ((a' + s ≤ a) ⊎ (a + t ≤ a')) × (a' ≢ a))

abbrev pub Granted : ℕ → ℕ → List Block → Option (ℕ × List Block) → Type 0
Granted size o bs none = Unfit size bs
Granted size o bs (some (a, bs')) = (t : ℕ) × (size ≤ t) × Grants o bs a bs' t

not_free :
    (o s : ℕ) (bs : List Block) (a' s' : ℕ)
    → Owned o (block false s ∷ bs) a' s'
    → Owned (o + 12 + s) bs a' s'
not_free o s bs a' s' (inl x) = absurd (ground arith)
not_free o s bs a' s' (inr x) = x

place-Grants :
    (size o s : ℕ) (bs : List Block)
    → size ≤ s
    → s % 4 ≡ 0
    → (t : ℕ) × (size ≤ t) × Grants o (block false s ∷ bs) (o + 12) (place (round_up size) s bs) t
unfolding place
place-Grants size o s bs h w = elim (Bool-cases (leb 12 (s - round_up size))) [
  | inl k ↦
      let r = round_up size in
      let le = round_up-le size s h w in
      let room : 12 ≤ s - r = ground arith in
      let there : o + 12 + s ≡ o + 12 + r + 12 + (s - r - 12) = omega arith in
      rw k (
        r,
        omega arith,
        (
          inl (refl, refl, refl),
          λ a' s' x.
              let y = not_free o s bs a' s' x in
              (
                inr (
                    Owned-absorb (o + 12 + r) (s - r - 12) bs a' s'
                      (subst (λ x. Owned x bs a' s') there y)),
                inr (omega (arith, Owned-ge (o + 12 + s) bs a' s' y)),
                λ e. omega (arith, e, Owned-ge (o + 12 + s) bs a' s' y),
              ),
        ),
      )
  | inr k ↦ rw k (
    s,
    h,
    (
      inl (refl, refl, refl),
      λ a' s' x.
          let y = not_free o s bs a' s' x in
          (
            inr y,
            inr (omega (arith, Owned-ge (o + 12 + s) bs a' s' y)),
            λ e. omega (arith, e, Owned-ge (o + 12 + s) bs a' s' y),
          ),
    ),
  )
]

cons_block-Granted :
    (size o : ℕ) (b : Block) (bs : List Block) (r : Option (ℕ × List Block))
    → ((b.busy ≡ true) ⊎ (b.size < size))
    → Granted size (o + 12 + b.size) bs r
    → Granted size o (b ∷ bs) (cons_block b r)
cons_block-Granted size o b bs none h g = (h, g)
cons_block-Granted size o b bs (some (a, bs')) h (t, fits, (new, old)) = (t, fits, (inr new, keep))
  where
    keep :
        (a' s : ℕ)
        → Owned o (b ∷ bs) a' s
        → Owned o (b ∷ bs') a' s × ((a' + s ≤ a) ⊎ (a + t ≤ a')) × (a' ≢ a)
    keep a' s (inl x) = (
      inl x,
      inl (omega (arith, x, Owned-ge (o + 12 + b.size) bs' a t new)),
      λ e. omega (arith, x, e, Owned-ge (o + 12 + b.size) bs' a t new),
    )
    keep a' s (inr x) = let (y, z, ne) = old a' s x in (inr y, z, ne)

first_fit-Granted :
    (size o : ℕ) (free : Bool) (bs : List Block)
    → Tidy free bs
    → Granted size o bs (first_fit size o bs)
unfolding first_fit
first_fit-Granted size o free [] t = tt
first_fit-Granted size o free (b ∷ bs) t = elim (Bool-cases (leb size b.size && not b.busy)) [
  | inl k ↦
      let nb : b.busy ≡ false = ground arith in
      let e : block false b.size ≡ b = ap (λ x. block x b.size) (sym nb) in
      let (s, fits, g) = place-Grants size o b.size bs (ground arith) t.0 in
      rw k
        (s, fits, subst (λ x. Grants o (x ∷ bs) (o + 12) (place (round_up size) b.size bs) s) e g)
  | inr k ↦ rw k (
      cons_block-Granted size o b bs _ (unfit b.busy b.size k)
        (first_fit-Granted size (o + 12 + b.size) (not b.busy) bs t.2))
]
  where
    unfit : (busy : Bool) (s : ℕ) → (leb size s && not busy) ≡ false → (busy ≡ true) ⊎ (s < size)
    unfit true s e = inl refl
    unfit false s e = inr (ground arith)

-- the two answers that the run `r` on `mi` may give
abbrev pub Answered : AlcInfo → List Block → ℕ → Option (Option ℕ × AlcInfo) → Type 0
Answered mi bs size r =
    ((r ≡ some (none, mi)) × Unfit size bs)
    ⊎ ((a : ℕ) × (mi' : AlcInfo) × (bs' : List Block) × (t : ℕ) × (r ≡ some (some a, mi'))
        × IsHeap mi' bs'
        × (size ≤ t)
        × Grants 12 bs a bs' t
        × ((a' s i : ℕ) → Owned 12 bs a' s → a' ≤ i → i < a' + s → mi'.memory i ≡ mi.memory i))

Implements-Answered :
    (mi : AlcInfo) (bs : List Block) (size : ℕ) (r : Option (Option ℕ × AlcInfo))
    (answer : Option (ℕ × List Block))
    → Granted size 12 bs answer
    → Implements mi answer r
    → Answered mi bs size r
Implements-Answered mi bs size r none u e = inl (e, u)
Implements-Answered mi bs size r (some (a, bs')) (t, fits, g) (mi', e, is', same, frame) = inr (
  a,
  mi',
  bs',
  t,
  e,
  is',
  fits,
  g,
  λ a' s i o l u. frame i (
    inr (omega (arith, Owned-ge 12 bs a' s o)),
    Owned-OffHeaders 12 bs' a' s i (g.1 a' s o).0 l u,
  ),
)

-- On a valid region `mem_alloc` ends. Where it returns an address, a busy block of at least `size`
-- bytes has its payload there in the valid region that it leaves; it lies apart from every block
-- that was busy before, at another address, and each of those is still there with all its bytes. Where it returns
-- `NULL`, no free block has room for `size` bytes, and nothing has changed.
pub mem_alloc-contract :
    (junk : Bytes → Bytes) (mi : AlcInfo) (bs : List Block) (size : ℕ)
    → IsHeap mi bs
    → Answered mi bs size (mem_alloc junk size mi)
mem_alloc-contract junk mi bs size is =
    Implements-Answered mi bs size _ (first_fit size 12 bs)
      (first_fit-Granted size 12 false bs is.tidy) (mem_alloc-first_fit junk mi bs is size)
