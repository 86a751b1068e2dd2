-- ===== src/Ffs/Dir/Remove.antt =====
-- The entry that `remove_from_dir` finds, and the directory's inode without it.
use system_sw.Prelude.{
  ℕ, zero, suc, ◌+◌, ◌-◌, ◌≤◌, ◌<◌, ◌≡◌, subst, ◌≢◌, inl, inr, true, false, Option, none, some,
  List, arith, ◌==◌, Bool-cases,
}
use system_sw.Memory.{Bytes}
use system_sw.Ffs.{Fs}
use system_sw.Ffs.Dir.{str_eq, entry_name, find_entry}

-- the first entry with the name, of those from `lo` to `hi`, or none
abbrev pub FirstNamed : Bytes → List ℕ → ℕ → ℕ → Option ℕ → Type 0
FirstNamed buf name lo hi none = (k : ℕ) → lo ≤ k → k < hi → str_eq (entry_name buf k) name ≡ false
FirstNamed buf name lo hi (some j) =
    (lo ≤ j)
    × (j < hi)
    × (str_eq (entry_name buf j) name ≡ true)
    × ((k : ℕ) → lo ≤ k → k < j → str_eq (entry_name buf k) name ≡ false)

module _ (buf : Bytes) (name : List ℕ) where
  and_later :
      (i hi : ℕ)
      → str_eq (entry_name buf i) name ≡ false
      → ((k : ℕ) → i + 1 ≤ k → k < hi → str_eq (entry_name buf k) name ≡ false)
      → (k : ℕ) → i ≤ k
      → k < hi
      → str_eq (entry_name buf k) name ≡ false
  and_later i hi e later k a b = elim (Bool-cases (i == k)) [
    | inl t ↦
        let w : i ≡ k = ground arith in subst (λ x. str_eq (entry_name buf x) name ≡ false) w e
    | inr t ↦ later k (ground arith) b
  ]

  other_first :
      (i hi : ℕ) (o : Option ℕ)
      → str_eq (entry_name buf i) name ≡ false
      → FirstNamed buf name (i + 1) hi o
      → FirstNamed buf name i hi o
  other_first i hi none e rest = and_later i hi e rest
  other_first i hi (some j) e (lo, l, hit, before) =
      (omega (arith, lo), l, hit, and_later i j e before)

  pub find_entry-FirstNamed :
      (i n hi : ℕ) → i + n ≡ hi → FirstNamed buf name i hi (find_entry buf name i n)
  unfolding find_entry
  find_entry-FirstNamed i zero hi h = λ k a b. absurd (omega (arith, a, b))
  find_entry-FirstNamed i (suc n) hi h =
      let rest = find_entry-FirstNamed (i + 1) n hi (omega arith) in
      elim (Bool-cases (str_eq (entry_name buf i) name)) [
        | inl e ↦ rw e (omega arith, omega arith, e, λ k a b. absurd (omega (arith, a, b)))
        | inr e ↦ rw e (other_first i hi _ e rest)
      ]

-- the directory without one entry: its size is 16 bytes less, and the other inodes stay
pub record Shrunk (dir size : ℕ) (fs fs' : Fs) : Type 0 where
  pub i_size : (fs'.inode dir).i_size ≡ size - 16
  pub file_size : (fs'.inode dir).fd.file_size ≡ size - 16
  pub others : (k : ℕ) → k ≢ dir → fs'.inode k ≡ fs.inode k
  pub list : fs'.inodes ≡ fs.inodes
