-- ===== src/Ffs/Bitmask/Search.antt =====
-- The search for a clear bit.
use system_sw.Prelude.{
  ℕ, zero, suc, ◌+◌, ◌≤◌, ◌<◌, ◌≡◌, inl, inr, true, false, Option, none, some, arith, ◌==◌,
  Bool-cases,
}
use system_sw.Memory.{Bytes}
use system_sw.Ffs.Bitmask.{check_bit, first_clear}

-- the first clear bit among the bits from `i` up to `j`, or that there is none
abbrev pub FirstClear : Bytes → ℕ → ℕ → Option ℕ → Type 0
FirstClear bm i j none = (k : ℕ) → i ≤ k → k < j → check_bit bm k ≡ true
FirstClear bm i j (some c) =
    (i ≤ c) × (c < j) × (check_bit bm c ≡ false) × ((k : ℕ) → i ≤ k → k < c → check_bit bm k ≡ true)

later :
    (bm : Bytes) (i j : ℕ) (r : Option ℕ)
    → check_bit bm i ≡ true
    → FirstClear bm (i + 1) j r
    → FirstClear bm i j r
later bm i j none e h = λ k l u. elim (Bool-cases (i == k)) [
  | inl x ↦ let y : i ≡ k = ground arith in rw (← y) e
  | inr x ↦ h k (ground arith) u
]
later bm i j (some c) e (lo, hi, clear, below) = (omega arith, hi, clear, go)
  where
    go : (k : ℕ) → i ≤ k → k < c → check_bit bm k ≡ true
    go k l u = elim (Bool-cases (i == k)) [
      | inl x ↦ let y : i ≡ k = ground arith in rw (← y) e
      | inr x ↦ below k (ground arith) u
    ]

pub first_clear-FirstClear :
    (bm : Bytes) (i n j : ℕ) → i + n ≡ j → FirstClear bm i j (first_clear bm i n)
unfolding first_clear
first_clear-FirstClear bm i zero j e = λ k l u. absurd (omega arith)
first_clear-FirstClear bm i (suc n) j e = elim (Bool-cases (check_bit bm i)) [
  | inl x ↦ rw x (later bm i j _ x (first_clear-FirstClear bm (i + 1) n j (omega arith)))
  | inr x ↦ rw x (omega arith, omega arith, x, λ k l u. absurd (omega arith))
]
