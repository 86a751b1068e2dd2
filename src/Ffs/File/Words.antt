-- ===== src/Ffs/File/Words.antt =====
-- The words of a datablock.
use system_sw.Prelude.{
  ℕ, ◌+◌, ◌*◌, ◌^◌, ◌≤◌, ◌<◌, ◌≡◌, refl, ◌≢◌, inl, inr, arith, ltb, ltb→lt, Bool-cases,
}
use system_sw.Memory.{Bytes, copy, byte, get32, get32-byte, copy_inside, copy_outside}
use system_sw.Ffs.File.{word, put_word}

module _ (b : Bytes) (i v : ℕ) where
  pub word-put_word : v < 2 ^ 32 → word (put_word b i v) i ≡ v
  unfolding put_word
  word-put_word h =
      get32-byte (copy b (4 * i) (byte v) 4) (4 * i) v h
        (λ k l. copy_inside b (4 * i) (byte v) 4 k l)

  pub word-put_word_other : (k : ℕ) → k ≢ i → word (put_word b i v) k ≡ word b k
  unfolding put_word get32
  word-put_word_other k ne =
      let out : (x : ℕ) → x < 4 → copy b (4 * i) (byte v) 4 (4 * k + x) ≡ b (4 * k + x) = λ x l.
        copy_outside b (4 * i) (byte v) 4 (4 * k + x) (elim (Bool-cases (ltb k i)) [
          | inl e ↦ inl (let y = ltb→lt _ _ e in omega arith)
          | inr e ↦ inr (let y : i ≤ k = ground arith in omega arith)
        ]) in
      let z : 4 * k + 0 ≡ 4 * k = omega arith in
      let a : copy b (4 * i) (byte v) 4 (4 * k) ≡ b (4 * k) = rw z at (out 0 (omega arith)) in
      rw (a, out 1 (omega arith), out 2 (omega arith), out 3 (omega arith)) refl
