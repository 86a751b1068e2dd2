-- ===== src/Linear/Chain.antt =====
-- The region as a chain of blocks: each header tells the size of its block and of the one before,
-- and the chain ends with the busy block that `alc_init` puts last.
use system_sw.Prelude.{
  ℕ, ◌+◌, ◌≤◌, ◌<◌, ◌≡◌, Bool, true, ◌⊎◌, inl, Option, some, List, [], ◌∷◌, ◌++◌, arith,
}
use system_sw.Memory.{Bytes}
use system_sw.Linear.{read_header, is_busy}
use system_sw.Linear.Header.{read_header-congr}

pub record Block : Type 0 where
  pub busy : Bool
  pub size : ℕ

abbrev pub block : Bool → ℕ → Block
block b s = record { busy = b; size = s }

-- the bytes that the blocks take, headers included
abbrev pub span : List Block → ℕ
span [] = 0
span (b ∷ bs) = 12 + b.size + span bs

-- the size of the last block, or `p` if there is none
abbrev pub last_size : ℕ → List Block → ℕ
last_size p [] = p
last_size p (b ∷ bs) = last_size b.size bs

pub last_size-le : (p : ℕ) (bs : List Block) → last_size p bs ≤ p + span bs
last_size-le p [] = omega arith
last_size-le p (b ∷ bs) = omega (arith, last_size-le b.size bs)

-- At `o` stand the blocks of the list, behind a block of size `p`. The last block of the region is
-- busy and reaches up to `amount`; its `prev_size` is left open, since `alc_init` sets it to 0.
abbrev pub Chain : ℕ → Bytes → ℕ → ℕ → List Block → Type 0
Chain amount m o p [] = let h = read_header m o in (is_busy h ≡ true) × (o + 12 + h.size ≡ amount)
Chain amount m o p (b ∷ bs) =
    let h = read_header m o in
    (is_busy h ≡ b.busy)
    × (h.size ≡ b.size)
    × (h.prev_size ≡ p)
    × Chain amount m (o + 12 + b.size) b.size bs

-- the byte at `i` lies in no header of the chain
abbrev pub OffHeaders : ℕ → List Block → ℕ → Type 0
OffHeaders o [] i = (i < o) ⊎ (o + 12 ≤ i)
OffHeaders o (b ∷ bs) i = ((i < o) ⊎ (o + 12 ≤ i)) × OffHeaders (o + 12 + b.size) bs i

pub OffHeaders-below : (o : ℕ) (bs : List Block) (i : ℕ) → i < o → OffHeaders o bs i
OffHeaders-below o [] i h = inl h
OffHeaders-below o (b ∷ bs) i h = (inl h, OffHeaders-below (o + 12 + b.size) bs i (omega arith))

pub OffHeaders-suffix :
    (o : ℕ) (xs ys : List Block) (i : ℕ) → OffHeaders o (xs ++ ys) i → OffHeaders (o + span xs) ys i
OffHeaders-suffix o [] ys i h = let e : o + 0 ≡ o = omega arith in rw e h
OffHeaders-suffix o (b ∷ xs) ys i h =
    let e : o + (12 + b.size + span xs) ≡ o + 12 + b.size + span xs = omega arith in
    rw e (OffHeaders-suffix (o + 12 + b.size) xs ys i h.1)

pub off_head : (o : ℕ) (bs : List Block) (i : ℕ) → OffHeaders o bs i → (i < o) ⊎ (o + 12 ≤ i)
off_head o [] i h = h
off_head o (b ∷ bs) i h = h.0

-- a run that ends, leaves the blocks `bs` at `o`, and changes nothing outside their headers
abbrev pub Written : ℕ → Bytes → ℕ → ℕ → List Block → Option Bytes → Type 0
Written amount m o p bs r =
    (m' : Bytes) × (r ≡ some m')
    × Chain amount m' o p bs
    × ((i : ℕ) → OffHeaders o bs i → m' i ≡ m i)

-- `m'` is `m` from `o` on, or below `o`
abbrev pub SameFrom : ℕ → Bytes → Bytes → Type 0
SameFrom o m m' = (i : ℕ) → o ≤ i → m' i ≡ m i

abbrev pub SameBelow : ℕ → Bytes → Bytes → Type 0
SameBelow o m m' = (i : ℕ) → i < o → m' i ≡ m i

module _ (amount : ℕ) where
  pub Chain-le :
      (m : Bytes) (o p : ℕ) (bs : List Block) → Chain amount m o p bs → o + 12 + span bs ≤ amount
  Chain-le m o p [] c = omega arith
  Chain-le m o p (b ∷ bs) c = omega (arith, Chain-le m (o + 12 + b.size) b.size bs c.3)

  pub Chain-SameFrom :
      (m m' : Bytes) (o p : ℕ) (bs : List Block)
      → SameFrom o m m'
      → Chain amount m o p bs
      → Chain amount m' o p bs
  Chain-SameFrom m m' o p [] e c = rw (read_header-congr m m' o (λ i l _. e i l)) c
  Chain-SameFrom m m' o p (b ∷ bs) e c = rw (read_header-congr m m' o (λ i l _. e i l)) (
    c.0,
    c.1,
    c.2,
    Chain-SameFrom m m' (o + 12 + b.size) b.size bs (λ i l. e i (omega arith)) c.3,
  )

  -- the part of a chain behind the blocks `xs`
  pub Chain-suffix :
      (m : Bytes) (o p : ℕ) (xs ys : List Block)
      → Chain amount m o p (xs ++ ys)
      → Chain amount m (o + span xs) (last_size p xs) ys
  Chain-suffix m o p [] ys c = let e : o + 0 ≡ o = omega arith in rw e c
  Chain-suffix m o p (b ∷ xs) ys c =
      let e : o + (12 + b.size + span xs) ≡ o + 12 + b.size + span xs = omega arith in
      rw e (Chain-suffix m (o + 12 + b.size) b.size xs ys c.3)

  -- a chain with another one grafted on behind the blocks `xs`
  pub Chain-graft :
      (m m' : Bytes) (o p : ℕ) (xs ys zs : List Block)
      → Chain amount m o p (xs ++ ys)
      → SameBelow (o + span xs) m m'
      → Chain amount m' (o + span xs) (last_size p xs) zs
      → Chain amount m' o p (xs ++ zs)
  Chain-graft m m' o p [] ys zs c e d = let a : o + 0 ≡ o = omega arith in rw a at d
  Chain-graft m m' o p (b ∷ xs) ys zs c e d =
      let a : o + (12 + b.size + span xs) ≡ o + 12 + b.size + span xs = omega arith in
      rw (read_header-congr m m' o (λ i _ l. e i (omega arith))) (
        c.0,
        c.1,
        c.2,
        Chain-graft m m' (o + 12 + b.size) b.size xs ys zs c.3 (λ i l. e i (omega arith))
            (rw a at d),
      )
