-- ===== src/Linear/Alloc.antt =====
-- The specification of `mem_alloc`: first fit on the list of blocks.
pub mod Loop
pub mod Refine
pub mod Contract
use system_sw.Prelude.{
  ℕ, ◌+◌, ◌-◌, ◌%◌, ◌≤◌, ◌≡◌, refl, Bool, true, false, not, ◌&&◌, ◌⊎◌, inl, inr, Option, none, some,
  List, [], ◌∷◌, arith, leb, Bool-cases, if◌then◌else◌,
}
use system_sw.Linear.Chain.{Block, block}
use system_sw.Linear.Write.{absorb}
use system_sw.Linear.Heap.{Tidy, Tidy-any, round_up, absorb-Tidy}

-- a free block of size `s` cut for a request of `r` bytes: the rest is split off if a header fits
unfoldable pub place : ℕ → ℕ → List Block → List Block
place r s bs =
    if leb 12 (s - r) then block true r ∷ absorb false (s - r - 12) bs else block true s ∷ bs

abbrev pub cons_block : Block → Option (ℕ × List Block) → Option (ℕ × List Block)
cons_block b none = none
cons_block b (some (a, bs)) = some (a, b ∷ bs)

-- First fit, from offset `o`: the address that is returned, and the blocks then.
unfoldable pub first_fit : ℕ → ℕ → List Block → Option (ℕ × List Block)
first_fit size o [] = none
first_fit size o (b ∷ bs) =
    if leb size b.size && not b.busy
    then some (o + 12, place (round_up size) b.size bs)
    else cons_block b (first_fit size (o + 12 + b.size) bs)

abbrev pub TidyAnswer : Bool → Option (ℕ × List Block) → Type 0
TidyAnswer free none = Unit
TidyAnswer free (some (a, bs)) = Tidy free bs

place-Tidy :
    (free : Bool) (r s : ℕ) (bs : List Block)
    → r % 4 ≡ 0
    → s % 4 ≡ 0
    → Tidy true bs
    → Tidy free (place r s bs)
unfolding place
place-Tidy free r s bs hr hs t = elim (Bool-cases (leb 12 (s - r))) [
  | inl k ↦
      rw k (hr, ground arith, absorb-Tidy true false false (s - r - 12) bs t (ground arith) refl)
  | inr k ↦ rw k (hs, ground arith, Tidy-any true bs t)
]

cons_block-Tidy :
    (free : Bool) (b : Block) (r : Option (ℕ × List Block))
    → b.size % 4 ≡ 0
    → (free && not b.busy) ≡ false
    → TidyAnswer (not b.busy) r
    → TidyAnswer free (cons_block b r)
cons_block-Tidy free b none e h t = tt
cons_block-Tidy free b (some (a, bs)) e h t = (e, h, t)

pub first_fit-Tidy :
    (size o : ℕ) (free : Bool) (bs : List Block)
    → Tidy free bs
    → TidyAnswer free (first_fit size o bs)
unfolding first_fit
first_fit-Tidy size o free [] t = tt
first_fit-Tidy size o free (b ∷ bs) t = elim (Bool-cases (leb size b.size && not b.busy)) [
  | inl k ↦
      let nb : b.busy ≡ false = ground arith in
      rw k (place-Tidy free (round_up size) b.size bs (omega arith) t.0 (rw nb at t.2))
  | inr k ↦
      rw k (
        cons_block-Tidy free b _ t.0 t.1
          (first_fit-Tidy size (o + 12 + b.size) (not b.busy) bs t.2))
]
