-- ===== src/Linear/Heap.antt =====
-- A valid region of the linear allocator, and rounding to whole words.
use system_sw.Prelude.{
  ℕ, ◌+◌, ◌*◌, ◌/◌, ◌%◌, ◌^◌, ◌≤◌, ◌<◌, ◌≡◌, refl, Bool, true, false, not, ◌&&◌, inl, inr, List, [],
  ◌∷◌, ◌++◌, arith, length, Bool-cases,
}
use system_sw.Prelude.Word.{wrap}
use system_sw.Memory.{Bytes}
use system_sw.Linear.{AlcInfo, ceil_4}
use system_sw.Linear.Chain.{Block, block, span, Chain, Chain-le}
use system_sw.Linear.Write.{absorb}

-- Sizes are whole words, and no two free blocks touch; the flag tells whether the block in front of
-- the list is free.
abbrev pub Tidy : Bool → List Block → Type 0
Tidy free [] = Unit
Tidy free (b ∷ bs) = (b.size % 4 ≡ 0) × ((free && not b.busy) ≡ false) × Tidy (not b.busy) bs

-- The first block of the region is busy and empty, and the blocks `bs` follow.
pub record IsHeap (mi : AlcInfo) (bs : List Block) : Type 0 where
  pub chain : Chain mi.amount mi.memory 0 0 (block true 0 ∷ bs)
  pub small : mi.amount < 2 ^ 31
  pub tidy : Tidy false bs

-- the least multiple of 4 that is not below
abbrev pub round_up : ℕ → ℕ
round_up n = (n + 3) / 4 * 4

pub ceil_4-round_up : (n : ℕ) → n < 2 ^ 31 → ceil_4 n ≡ round_up n
unfolding ceil_4 wrap
ceil_4-round_up n h = ground arith

pub round_up-le : (n s : ℕ) → n ≤ s → s % 4 ≡ 0 → round_up n ≤ s
round_up-le n s h e = omega arith

pub Tidy-any : (f : Bool) (bs : List Block) → Tidy f bs → Tidy false bs
Tidy-any f [] t = tt
Tidy-any f (b ∷ bs) t = (t.0, refl, t.2)

pub absorb-true : (s : ℕ) (bs : List Block) → absorb true s bs ≡ block true s ∷ bs
unfolding absorb
absorb-true s [] = refl
absorb-true s (b ∷ bs) = refl

pub absorb-free :
    (s : ℕ) (d : Block) (bs : List Block)
    → d.busy ≡ false
    → absorb false s (d ∷ bs) ≡ absorb false (s + d.size + 12) bs
unfolding absorb
absorb-free s d bs e = simp e

pub absorb-busy :
    (s : ℕ) (d : Block) (bs : List Block)
    → d.busy ≡ true
    → absorb false s (d ∷ bs) ≡ block false s ∷ d ∷ bs
unfolding absorb
absorb-busy s d bs e = simp e

pub absorb-Tidy :
    (f g b : Bool) (s : ℕ) (bs : List Block)
    → Tidy f bs
    → s % 4 ≡ 0
    → (g && not b) ≡ false
    → Tidy g (absorb b s bs)
unfolding absorb
absorb-Tidy f g b s [] t e h = (e, h, tt)
absorb-Tidy f g b s (d ∷ bs) t e h = elim (Bool-cases (not b && not d.busy)) [
  | inr k ↦ rw k (e, h, (t.0, k, t.2))
  | inl k ↦
      let eb : b ≡ false = ground arith in
      rw k (
        absorb-Tidy (not d.busy) g false (s + d.size + 12) bs t.2
          (let a : s % 4 ≡ 0 = e in let c : d.size % 4 ≡ 0 = t.0 in omega arith) (ground arith))
]

pub length-span : (bs : List Block) → 12 * length bs ≤ span bs
length-span [] = omega arith
length-span (b ∷ bs) = omega (arith, length-span bs)

-- fuel that a heap's amount of bytes gives
pub Chain-fuel :
    (amount : ℕ) (m : Bytes) (o p : ℕ) (bs : List Block)
    → Chain amount m o p bs
    → o + 12 + 12 * length bs ≤ amount
Chain-fuel amount m o p bs c = omega (arith, Chain-le amount m o p bs c, length-span bs)

-- whether the block in front of the rest is free, and what stands behind the blocks `xs`
abbrev pub last_free : Bool → List Block → Bool
last_free f [] = f
last_free f (b ∷ bs) = last_free (not b.busy) bs

pub Tidy-suffix : (f : Bool) (xs ys : List Block) → Tidy f (xs ++ ys) → Tidy (last_free f xs) ys
Tidy-suffix f [] ys t = t
Tidy-suffix f (b ∷ xs) ys t = Tidy-suffix (not b.busy) xs ys t.2

pub Tidy-graft :
    (f : Bool) (xs ys zs : List Block)
    → Tidy f (xs ++ ys)
    → Tidy (last_free f xs) zs
    → Tidy f (xs ++ zs)
Tidy-graft f [] ys zs t u = u
Tidy-graft f (b ∷ xs) ys zs t u = (t.0, t.1, Tidy-graft (not b.busy) xs ys zs t.2 u)
