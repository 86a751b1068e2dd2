-- ===== src/Ffs/Dir/Drop.antt =====
-- The search of `ffs_lookup` through a directory's bytes without one of the entries.
use system_sw.Prelude.{
  ℕ, ◌+◌, ◌-◌, ◌*◌, ◌/◌, ◌≤◌, ◌<◌, ◌≡◌, ◌∙◌, sym, ap, false, List, arith, length,
}
use system_sw.Memory.{Bytes}
use system_sw.Ffs.{Fs}
use system_sw.Ffs.Dir.{str_eq, entry_name, lookup_loop}
use system_sw.Ffs.Dir.Entries.{
  SameNumbers, SameEntry, lookup_loop-congr, lookup_loop_none, lookup_loop-append,
  lookup_loop_other, or_else,
}

-- bytes `c` are the `size` bytes `b` without the 16 bytes at `p`
abbrev pub Without : Bytes → Bytes → ℕ → ℕ → Type 0
Without c b p size =
    ((k : ℕ) → k < p → c k ≡ b k) × ((k : ℕ) → k < size - p - 16 → c (p + k) ≡ b (p + 16 + k))

-- a search through the entries without entry `j`
module _ (fs fs' : Fs) (b c : Bytes) (size j : ℕ) (same : SameNumbers fs fs')
    (inside : j < size / 16) (without : Without c b (16 * j) size) where
  before : (k : ℕ) → k < j → SameEntry c (0 + k) b (0 + k)
  before k h i l =
      let p : 16 * (0 + k) + i ≡ 16 * k + i = omega arith in
      rw p (without.0 (16 * k + i) (omega arith))

  behind : (k : ℕ) → k < size / 16 - j - 1 → SameEntry c (0 + j + k) b (j + 1 + k)
  behind k h i l =
      let p : 16 * (0 + j + k) + i ≡ 16 * j + (16 * k + i) = omega arith in
      let q : 16 * (j + 1 + k) + i ≡ 16 * j + 16 + (16 * k + i) = omega arith in
      rw (p, q) (without.1 (16 * k + i) (omega arith))

  loop_without :
      (a : List ℕ)
      → length a ≤ 9
      → lookup_loop fs' c a 0 (size / 16 - 1)
        ≡ or_else (lookup_loop fs b a 0 j) (lookup_loop fs b a (j + 1) (size / 16 - j - 1))
  loop_without a short =
      let m = size / 16 - j - 1 in
      let n : size / 16 - 1 ≡ j + m = omega arith in
      rw n (
        lookup_loop-append fs' c a 0 j m
        ∙ ap (λ x. or_else x (lookup_loop fs' c a (0 + j) m))
            (lookup_loop-congr fs fs' c b a 0 0 j same short before)
        ∙ ap (or_else (lookup_loop fs b a 0 j))
            (lookup_loop-congr fs fs' c b a (0 + j) (j + 1) m same short behind))

  -- by a name that entry `j` does not have
  pub loop_other :
      (a : List ℕ)
      → length a ≤ 9
      → str_eq (entry_name b j) a ≡ false
      → lookup_loop fs' c a 0 (size / 16 - 1) ≡ lookup_loop fs b a 0 (size / 16)
  loop_other a short other =
      let m = size / 16 - j - 1 in
      let n : size / 16 ≡ j + (1 + m) = omega arith in
      let z : 0 + j ≡ j = omega arith in
      loop_without a short
      ∙ ap (or_else (lookup_loop fs b a 0 j)) (sym (lookup_loop_other fs b a j m other))
      ∙ ap (λ x. or_else (lookup_loop fs b a 0 j) (lookup_loop fs b a x (1 + m))) (sym z)
      ∙ sym (lookup_loop-append fs b a 0 j (1 + m))
      ∙ ap (lookup_loop fs b a 0) (sym n)

  -- by a name that no entry in front of `j` has
  pub loop_later :
      (a : List ℕ)
      → length a ≤ 9
      → ((k : ℕ) → k < j → str_eq (entry_name b (0 + k)) a ≡ false)
      → lookup_loop fs' c a 0 (size / 16 - 1) ≡ lookup_loop fs b a (j + 1) (size / 16 - j - 1)
  loop_later a short none_yet =
      loop_without a short
      ∙ ap (λ x. or_else x (lookup_loop fs b a (j + 1) (size / 16 - j - 1)))
          (lookup_loop_none fs b a 0 j none_yet)
