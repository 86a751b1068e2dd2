-- ===== src/Memory.antt =====
-- Byte-addressed memory, and the copies and little-endian words that the C sources make in it.
use system_sw.Prelude.{
  ℕ, ◌+◌, ◌-◌, ◌*◌, ◌/◌, ◌%◌, ◌^◌, ◌≤◌, ◌<◌, ◌≡◌, ◌∙◌, sym, ap, ◌⊎◌, inl, inr, ◌&&◌, arith, ltb,
  leb, ◌==◌, if◌then◌else◌,
}

abbrev pub Bytes : Type 0
Bytes = ℕ → ℕ

-- `m + o`, as the bytes that can be read from there
abbrev pub at : Bytes → ℕ → Bytes
at m o k = m (o + k)

-- `memcpy(m + dst, src, n)`; a `memmove` is the copy of `at m src`, read before the write
unfoldable pub copy : Bytes → ℕ → Bytes → ℕ → Bytes
copy m dst src n i = if leb dst i && ltb i (dst + n) then src (i - dst) else m i

-- byte `k` of a 32-bit word
unfoldable pub byte : ℕ → ℕ → ℕ
byte n k =
    if k == 0
    then n % 256
    else if k == 1
    then n / 256 % 256
    else if k == 2
    then n / 65536 % 256
    else n / 16777216 % 256

-- the 32-bit word at offset `k`
unfoldable pub get32 : Bytes → ℕ → ℕ
get32 f k = f k + 256 * f (k + 1) + 65536 * f (k + 2) + 16777216 * f (k + 3)

pub bytes_sum :
    (n : ℕ) → n < 2 ^ 32 → byte n 0 + 256 * byte n 1 + 65536 * byte n 2 + 16777216 * byte n 3 ≡ n
unfolding byte
bytes_sum n h = omega arith

-- a word whose four bytes are known
pub get32-bytes :
    (f : Bytes) (q v : ℕ)
    → v < 2 ^ 32
    → f q ≡ byte v 0
    → f (q + 1) ≡ byte v 1
    → f (q + 2) ≡ byte v 2
    → f (q + 3) ≡ byte v 3
    → get32 f q ≡ v
unfolding get32
get32-bytes f q v h e0 e1 e2 e3 = omega (arith, bytes_sum v h)

pub get32-byte :
    (f : Bytes) (q v : ℕ) → v < 2 ^ 32 → ((k : ℕ) → k < 4 → f (q + k) ≡ byte v k) → get32 f q ≡ v
get32-byte f q v h e =
    let z : q + 0 ≡ q = omega arith in
    get32-bytes f q v h (ap f (sym z) ∙ e 0 (omega arith)) (e 1 (omega arith)) (e 2 (omega arith))
      (e 3 (omega arith))

module _ (m : Bytes) (dst : ℕ) (src : Bytes) (n : ℕ) where
  pub copy_inside : (k : ℕ) → k < n → copy m dst src n (dst + k) ≡ src k
  unfolding copy
  copy_inside k h = let e : dst + k - dst ≡ k = omega arith in ground (arith, ap src e)

  pub copy_outside : (i : ℕ) → (i < dst) ⊎ (dst + n ≤ i) → copy m dst src n i ≡ m i
  unfolding copy
  copy_outside i (inl h) = ground arith
  copy_outside i (inr h) = ground arith
