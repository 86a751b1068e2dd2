-- ===== src/Ffs/Bitmask/Count.antt =====
-- How many bits of a mask are clear.
use system_sw.Prelude.{
  ℕ, zero, suc, ◌+◌, ◌<◌, ◌≡◌, ◌∙◌, refl, subst, inl, inr, false, ◌||◌, arith, ◌==◌, if◌then◌else◌,
  Bool-cases,
}
use system_sw.Memory.{Bytes}
use system_sw.Ffs.Bitmask.{check_bit}

-- the clear bits below `n`
unfoldable pub clear_bits : Bytes → ℕ → ℕ
clear_bits bm zero = 0
clear_bits bm (suc n) = clear_bits bm n + (if check_bit bm n then 0 else 1)

-- where one is left, it can be named
pub clear_bit :
    (bm : Bytes) (n : ℕ) → 0 < clear_bits bm n → (m : ℕ) × (m < n) × (check_bit bm m ≡ false)
unfolding clear_bits
clear_bit bm zero h = absurd (omega arith)
clear_bit bm (suc n) h = elim (Bool-cases (check_bit bm n)) [
  | inl e ↦
      let some_left : 0 < clear_bits bm n = ground arith in
      let (m, l, c) = clear_bit bm n some_left in (m, omega (arith, l), c)
  | inr e ↦ (n, omega arith, e)
]

-- masks that agree below `n`
clear_bits-congr :
    (bm bm' : Bytes) (n : ℕ)
    → ((m : ℕ) → m < n → check_bit bm' m ≡ check_bit bm m)
    → clear_bits bm' n ≡ clear_bits bm n
unfolding clear_bits
clear_bits-congr bm bm' zero h = refl
clear_bits-congr bm bm' (suc n) h =
    rw (h n (omega arith), clear_bits-congr bm bm' n (λ m l. h m (omega arith))) refl

-- one clear bit set leaves one less
pub clear_bits-take :
    (bm bm' : Bytes) (n i : ℕ)
    → i < n
    → check_bit bm i ≡ false
    → ((m : ℕ) → check_bit bm' m ≡ (i == m || check_bit bm m))
    → clear_bits bm' n + 1 ≡ clear_bits bm n
unfolding clear_bits
clear_bits-take bm bm' zero i h c sets = absurd (omega arith)
clear_bits-take bm bm' (suc n) i h c sets = elim (Bool-cases (i == n)) [
  | inl e ↦
      let q : i ≡ n = ground arith in
      let below =
        clear_bits-congr bm bm' n
          (λ m l. let ne : (i == m) ≡ false = ground arith in sets m ∙ rw ne refl) in
      let here : check_bit bm n ≡ false = subst (λ x. check_bit bm x ≡ false) q c in
      rw (sets n, e, here, below) (omega arith)
  | inr e ↦
      let below = clear_bits-take bm bm' n i (ground arith) c sets in
      let b : ℕ = if check_bit bm n then 0 else 1 in rw (sets n, e) (omega (arith, below))
]
