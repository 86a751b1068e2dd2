-- ===== src/Prelude/Word.antt =====
-- 32-bit words: `size_t`, `int` and pointers of the 32-bit target that the sources are written for
-- (they cast pointers to `int`). An `int` is its bit pattern.
use Prim.Native.Nat.{ℕ, ◌+◌, ◌-◌, ◌%◌, ◌^◌, ◌≤◌, ◌<◌}
use mathlib.Core.Path.{◌≡◌}
use mathlib.Core.Bool.{Bool, true, false, ◌&&◌}
use native.Mathlib.Omega.{arith}
use system_sw.Prelude.Tests.{ltb}

-- the low 32 bits
unfoldable pub wrap : ℕ → ℕ
wrap n = n % 2 ^ 32

-- `a - b` on words
unfoldable pub sub32 : ℕ → ℕ → ℕ
sub32 a b = (a + 2 ^ 32 - b) % 2 ^ 32

-- `w > 0` for the `int` with the bit pattern `w`
unfoldable pub positive : ℕ → Bool
positive w = ltb 0 w && ltb w (2 ^ 31)

pub wrap_small : (n : ℕ) → n < 2 ^ 32 → wrap n ≡ n
unfolding wrap
wrap_small n h = omega arith

pub sub32_small : (a b : ℕ) → b ≤ a → a < 2 ^ 32 → sub32 a b ≡ a - b
unfolding sub32
sub32_small a b h l = omega arith

pub sub32_neg : (a b : ℕ) → a < b → b ≤ 2 ^ 32 → sub32 a b ≡ a + 2 ^ 32 - b
unfolding sub32
sub32_neg a b h l = omega arith

pub positive_small : (n : ℕ) → 0 < n → n < 2 ^ 31 → positive n ≡ true
unfolding positive
positive_small n p h = ground arith

pub not_positive_of_neg : (n : ℕ) → 2 ^ 31 ≤ n → positive n ≡ false
unfolding positive
not_positive_of_neg n h = ground arith

-- `x - a - b > 0` as the `int` arithmetic of small sizes computes it
pub positive-sub32 :
    (x a b : ℕ) → x < 2 ^ 31 → a + b < 2 ^ 31 → positive (sub32 (sub32 x a) b) ≡ ltb (a + b) x
unfolding sub32 positive
positive-sub32 x a b hx hab = ground arith
