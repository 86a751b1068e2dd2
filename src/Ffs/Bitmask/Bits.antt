-- ===== src/Ffs/Bitmask/Bits.antt =====
-- What the macros do to each bit.
use Prim.Native.Nat.{bit_and, bit_or}
use system_sw.Prelude.{
  ℕ, zero, suc, ◌+◌, ◌-◌, ◌*◌, ◌/◌, ◌%◌, ◌^◌, ◌≤◌, ◌<◌, ◌≡◌, refl, ap, sym, ◌≢◌, inl, inr, Bool,
  true, false, not, ◌&&◌, ◌||◌, arith, ltb, ◌==◌, if◌then◌else◌, Bool-cases,
}
use system_sw.Memory.{Bytes}
use system_sw.Ffs.Bitmask.{check_bit, set_bit, reset_bit}

-- a test passed by each number from `i` on, in `n` of them: small tables are settled by evaluation
holds_from : (ℕ → Bool) → ℕ → ℕ → Bool
holds_from test i zero = true
holds_from test i (suc n) = test i && holds_from test (suc i) n

holds_from-each :
    (test : ℕ → Bool) (i n k : ℕ) → holds_from test i n ≡ true → i ≤ k → k < i + n → test k ≡ true
unfolding holds_from
holds_from-each test i zero k h lo hi = absurd (omega arith)
holds_from-each test i (suc n) k h lo hi = elim (Bool-cases (i == k)) [
  | inl e ↦ let same : i ≡ k = ground arith in ground (arith, ap test same)
  | inr e ↦ holds_from-each test (suc i) n k (ground arith) (ground arith) (omega arith)
]

abbrev all_below : ℕ → (ℕ → Bool) → Bool
all_below n test = holds_from test 0 n

all_below_each : (n : ℕ) (test : ℕ → Bool) (k : ℕ) → all_below n test ≡ true → k < n → test k ≡ true
all_below_each n test k h l = holds_from-each test 0 n k h (omega arith) (omega arith)

same : Bool → Bool → Bool
same true b = b
same false b = not b

same-eq : (a b : Bool) → same a b ≡ true → a ≡ b
unfolding same
same-eq true b e = sym e
same-eq false true e = cc
same-eq false false e = refl

-- bit `j` of a byte
abbrev bit : ℕ → ℕ → Bool
bit b j = not (bit_and b (2 ^ j) == 0)

abbrev set_agrees : ℕ → ℕ → ℕ → Bool
set_agrees b k j = same (bit (bit_or b (2 ^ k)) j) (k == j || bit b j)

abbrev reset_agrees : ℕ → ℕ → ℕ → Bool
reset_agrees b k j = same (bit (bit_and b (255 - 2 ^ k)) j) (not (k == j) && bit b j)

set_table : all_below 256 (λ b. all_below 8 (λ k. all_below 8 (set_agrees b k))) ≡ true
unfolding holds_from same
set_table = refl

reset_table : all_below 256 (λ b. all_below 8 (λ k. all_below 8 (reset_agrees b k))) ≡ true
unfolding holds_from same
reset_table = refl

abbrev table : (ℕ → ℕ → ℕ → Bool) → ℕ → ℕ → Bool
table f b k = all_below 8 (f b k)

look_up :
    (f : ℕ → ℕ → ℕ → Bool)
    → all_below 256 (λ b. all_below 8 (table f b)) ≡ true
    → (b k j : ℕ) → b < 256
    → k < 8
    → j < 8
    → f b k j ≡ true
look_up f t b k j hb hk hj =
    all_below_each 8 (f b k) j
      (all_below_each 8 (table f b) k (all_below_each 256 (λ x. all_below 8 (table f x)) b t hb) hk)
      hj

module _ (bm : Bytes) (n m : ℕ) (byte : bm (n / 8) < 256) where
  same_byte : m / 8 ≡ n / 8 → (n % 8 == m % 8) ≡ (n == m)
  same_byte e = ground arith

  -- `SET_BIT` sets its bit and no other.
  pub check_bit-set_bit : check_bit (set_bit bm n) m ≡ (n == m || check_bit bm m)
  unfolding check_bit set_bit
  check_bit-set_bit = elim (Bool-cases (m / 8 == n / 8)) [
    | inl k ↦
        let e : m / 8 ≡ n / 8 = ground arith in
        let t = same-eq _ _ (
          look_up set_agrees set_table (bm (n / 8)) (n % 8) (m % 8) byte (omega arith)
            (omega arith)) in
        rw (k, e, t, same_byte e)
    | inr k ↦ let ne : (n == m) ≡ false = ground arith in rw (k, ne)
  ]

  -- `RESET_BIT` clears its bit and no other.
  pub check_bit-reset_bit : check_bit (reset_bit bm n) m ≡ (not (n == m) && check_bit bm m)
  unfolding check_bit reset_bit
  check_bit-reset_bit = elim (Bool-cases (m / 8 == n / 8)) [
    | inl k ↦
        let e : m / 8 ≡ n / 8 = ground arith in
        let t = same-eq _ _ (
          look_up reset_agrees reset_table (bm (n / 8)) (n % 8) (m % 8) byte (omega arith)
            (omega arith)) in
        rw (k, e, t, same_byte e)
    | inr k ↦ let ne : (n == m) ≡ false = ground arith in rw (k, ne)
  ]

-- every byte is one
abbrev pub AreBytes : Bytes → Type 0
AreBytes bm = (k : ℕ) → bm k < 256

abbrev set_small : ℕ → ℕ → ℕ → Bool
set_small b k j = ltb (bit_or b (2 ^ k)) 256 && ltb (bit_and b (255 - 2 ^ k)) 256

small_table : all_below 256 (λ b. all_below 8 (table set_small b)) ≡ true
unfolding holds_from
small_table = refl

pub set_bit-AreBytes : (bm : Bytes) (n : ℕ) → AreBytes bm → AreBytes (set_bit bm n)
unfolding set_bit
set_bit-AreBytes bm n h k =
    ground
      (arith, h k, look_up set_small small_table (bm k) (n % 8) 0 (h k) (omega arith) (omega arith))

pub reset_bit-AreBytes : (bm : Bytes) (n : ℕ) → AreBytes bm → AreBytes (reset_bit bm n)
unfolding reset_bit
reset_bit-AreBytes bm n h k =
    ground
      (arith, h k, look_up set_small small_table (bm k) (n % 8) 0 (h k) (omega arith) (omega arith))

pub set_bit-other : (bm : Bytes) (n k : ℕ) → k ≢ n / 8 → set_bit bm n k ≡ bm k
unfolding set_bit
set_bit-other bm n k h = ground arith

pub reset_bit-other : (bm : Bytes) (n k : ℕ) → k ≢ n / 8 → reset_bit bm n k ≡ bm k
unfolding reset_bit
reset_bit-other bm n k h = ground arith

abbrev low_agrees : ℕ → ℕ → Bool
low_agrees c j = same (bit ((2 ^ c - 1) % 256) j) (ltb j c)

low_table : all_below 8 (λ c. all_below 8 (low_agrees c)) ≡ true
unfolding holds_from same
low_table = refl

abbrev ends_agree : ℕ → Bool
ends_agree j = bit 255 j && not (bit 0 j)

ends_table : all_below 8 ends_agree ≡ true
unfolding holds_from
ends_table = refl

-- byte `k` of a mask whose first `c` bits are set
abbrev pub low_byte : ℕ → ℕ → ℕ
low_byte c k = if ltb k (c / 8) then 255 else if k == c / 8 then (2 ^ (c % 8) - 1) % 256 else 0

pub check_bit-low_byte :
    (bm : Bytes) (c i : ℕ) → bm (i / 8) ≡ low_byte c (i / 8) → check_bit bm i ≡ ltb i c
unfolding check_bit
check_bit-low_byte bm c i e =
    let l = same-eq _ _ (
      all_below_each 8 (low_agrees (c % 8)) (i % 8)
        (all_below_each 8 (λ c. all_below 8 (low_agrees c)) (c % 8) low_table (omega arith))
        (omega arith)) in
    let b = all_below_each 8 ends_agree (i % 8) ends_table (omega arith) in
    elim (Bool-cases (ltb (i / 8) (c / 8))) [
      | inl x ↦ rw (e, x) (ground (arith, b))
      | inr x ↦ elim (Bool-cases (i / 8 == c / 8)) [
        | inl y ↦ rw (e, x, y, l) (ground arith)
        | inr y ↦ rw (e, x, y) (ground (arith, b))
      ]
    ]

-- a mask of which only the first `n` bytes are there
pub check_bit-cut :
    (bm bm' : Bytes) (n i : ℕ)
    → bm (i / 8) ≡ (if ltb (i / 8) n then bm' (i / 8) else 0)
    → check_bit bm i ≡ (ltb i (8 * n) && check_bit bm' i)
unfolding check_bit
check_bit-cut bm bm' n i e =
    let b = all_below_each 8 ends_agree (i % 8) ends_table (omega arith) in
    elim (Bool-cases (ltb (i / 8) n)) [
      | inl x ↦ let y : ltb i (8 * n) ≡ true = ground arith in rw (e, x, y) refl
      | inr x ↦ let y : ltb i (8 * n) ≡ false = ground arith in rw (e, x, y) (ground (arith, b))
    ]
