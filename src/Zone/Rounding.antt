-- ===== src/Zone/Rounding.antt =====
-- `round_pow_2` and `log2` of zone-allocator/allocator.c.
use system_sw.Prelude.{
  ℕ, zero, suc, ◌+◌, ◌-◌, ◌*◌, ◌/◌, ◌^◌, ◌≤◌, ◌<◌, ◌≡◌, ◌∙◌, ap, inl, inr, false, arith, ltb, leb,
  le→not_ltb, Bool-cases,
}
use system_sw.Prelude.Word.{wrap_small}
use native.Mathlib.Nat.{two-pow-succ, pow-le-pow_right, one-le-pow}
use system_sw.Zone.{log2_loop, log2, float_exponent, round_pow_2}

pub double : (e : ℕ) → 2 ^ (e + 1) ≡ 2 * 2 ^ e
double e =
    let d : 2 ^ suc e ≡ 2 ^ e + 2 ^ e = two-pow-succ e in
    ap (λ x. 2 ^ x) (omega arith) ∙ d ∙ omega arith

-- `log2` is the exponent of the greatest power of two that is not above the number
log2_loop_lem :
    (f n : ℕ) → 0 < n → n < 2 ^ f → (2 ^ log2_loop f n ≤ n) × (n < 2 ^ (log2_loop f n + 1))
unfolding log2_loop
log2_loop_lem zero n pos small = absurd (omega (arith, pos, small))
log2_loop_lem (suc f) n pos small = elim (Bool-cases (ltb n 2)) [
  | inl e ↦ rw e (omega (arith, pos), ground arith)
  | inr e ↦
      let big : 2 ≤ n = ground arith in
      let d : 2 ^ suc f ≡ 2 ^ f + 2 ^ f = two-pow-succ f in
      let (lo, hi) = log2_loop_lem f (n / 2) (omega arith) (omega (arith, d, small)) in
      let k : ℕ = log2_loop f (n / 2) in
      let one : 1 + k ≡ k + 1 = omega arith in
      rw (e, one) (omega (arith, double k, lo), omega (arith, double (k + 1), double k, hi))
]

pub log2_power : (c : ℕ) → c < 32 → log2 (2 ^ c) ≡ c
log2_power c h =
    let two : 0 < 2 = omega arith in
    let pos : 1 ≤ 2 ^ c = one-le-pow c 2 two in
    let in_word : c + 1 ≤ 32 = omega arith in
    let top : 2 ^ (c + 1) ≤ 2 ^ 32 = pow-le-pow_right two in_word in
    let (below, above) = log2_loop_lem 32 (2 ^ c) pos (omega (arith, double c, pos, top)) in
    let l : ℕ = log2 (2 ^ c) in
    elim (Bool-cases (leb l c)) [
      | inl t ↦ elim (Bool-cases (leb c l)) [
        | inl t' ↦ ground arith
        | inr t' ↦
            let le : l + 1 ≤ c = ground arith in
            let p : 2 ^ (l + 1) ≤ 2 ^ c = pow-le-pow_right two le in
            absurd (omega (arith, p, above))
      ]
      | inr t ↦
          let le : c + 1 ≤ l = ground arith in
          let p : 2 ^ (c + 1) ≤ 2 ^ l = pow-le-pow_right two le in
          absurd (omega (arith, p, below, double c, pos))
    ]

-- `round_pow_2` of a number from 2 to 2 ^ 24 is the least power of two that is not below it: a power
-- of two, not below the number and less than twice as much.
pub round_pow_2_lem :
    (v : ℕ) → 2 ≤ v → v ≤ 2 ^ 24 → (c : ℕ) × (round_pow_2 v ≡ 2 ^ c) × (v ≤ 2 ^ c) × (2 ^ c < 2 * v)
unfolding round_pow_2 float_exponent
round_pow_2_lem v lo hi =
    let (below, above) = log2_loop_lem 32 (v - 1) (omega arith) (omega arith) in
    let e : ℕ = log2 (v - 1) in
    let small : e ≤ 23 = elim (Bool-cases (leb e 23)) [
      | inl t ↦ ground arith
      | inr t ↦
          let l : 24 ≤ e = ground arith in
          let p : 2 ^ 24 ≤ 2 ^ e = pow-le-pow_right (omega arith) l in
          absurd (omega (arith, p, below))
    ] in
    let exact : ltb 23 e ≡ false = le→not_ltb 23 e small in
    let d : 2 ^ (e + 1) ≡ 2 * 2 ^ e = double e in
    rw exact (
      e + 1,
      wrap_small (2 ^ (e + 1)) (omega (arith, d, below)),
      omega (arith, above),
      omega (arith, d, below),
    )
