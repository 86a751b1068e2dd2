-- ===== src/Ffs/Dir/Search.antt =====
-- What `ffs_lookup` and `remove_from_dir` find in a directory.
use system_sw.Prelude.{
  ℕ, zero, suc, ◌+◌, ◌/◌, ◌^◌, ◌≤◌, ◌<◌, ◌≡◌, refl, subst, ◌≢◌, ◌⊎◌, inl, inr, true, false, Option,
  none, some, List, arith, ◌==◌, Bool-cases,
}
use Prim.Native.Nat.{bit_and}
use system_sw.Memory.{Bytes}
use system_sw.Ffs.{Fs}
use system_sw.Ffs.File.Read.{content, read_all-content}
use system_sw.Ffs.Dir.{
  s_ifdir, str_eq, entry_name, read_dir, LookupResult, no_entry, negative, attached, entry_inode,
  or_next, lookup_loop, lookup,
}

-- `buf` holds the bytes of the directory, and zeros behind them
pub record Holds (fs : Fs) (dir : ℕ) (buf : Bytes) : Type 0 where
  pub inside : (k : ℕ) → k < (fs.inode dir).i_size → buf k ≡ content fs (fs.inode dir) k
  pub behind : (k : ℕ) → (fs.inode dir).i_size ≤ k → buf k ≡ 0

-- a directory whose descriptor and inode agree on a size that fits an `int`
pub record SizeOk (fs : Fs) (dir : ℕ) : Type 0 where
  pub agree : (fs.inode dir).fd.file_size ≡ (fs.inode dir).i_size
  pub small : (fs.inode dir).i_size < 2 ^ 31

pub read_dir-Holds :
    (fs : Fs) (dir : ℕ)
    → SizeOk fs dir
    → (buf : Bytes) × (read_dir fs dir ≡ some buf) × Holds fs dir buf
unfolding read_dir
read_dir-Holds fs dir ok =
    let (buf, eq, inside, behind) =
      read_all-content fs dir (λ k. 0) ((fs.inode dir).i_size + 2) ok.small (omega arith) in
    rw (ok.agree) (buf, eq, record { inside = inside; behind = behind })

-- entry `j` has the name, and an inode of the list
abbrev pub Hit : Fs → Bytes → List ℕ → ℕ → ℕ → Type 0
Hit fs buf name j r = (str_eq (entry_name buf j) name ≡ true) × (entry_inode fs buf j ≡ some r)

-- entry `j` has another name, or no inode
abbrev pub Miss : Fs → Bytes → List ℕ → ℕ → Type 0
Miss fs buf name j = (str_eq (entry_name buf j) name ≡ false) ⊎ (entry_inode fs buf j ≡ none)

-- the result of the search through the entries from `lo` to `hi`: the inode of the first hit
abbrev pub Finds : Fs → Bytes → List ℕ → ℕ → ℕ → LookupResult → Type 0
Finds fs buf name lo hi res =
    ((j r : ℕ) × (res ≡ attached r)
      × (lo ≤ j)
      × (j < hi)
      × Hit fs buf name j r
      × ((k : ℕ) → lo ≤ k → k < j → Miss fs buf name k))
    ⊎ ((res ≡ negative) × ((k : ℕ) → lo ≤ k → k < hi → Miss fs buf name k))

module _ (fs : Fs) (buf : Bytes) (name : List ℕ) where
  from_first :
      (i hi : ℕ)
      → Miss fs buf name i
      → ((k : ℕ) → i + 1 ≤ k → k < hi → Miss fs buf name k)
      → (k : ℕ) → i ≤ k
      → k < hi
      → Miss fs buf name k
  from_first i hi m later k a b = elim (Bool-cases (i == k)) [
    | inl e ↦ let w : i ≡ k = ground arith in subst (Miss fs buf name) w m
    | inr e ↦ later k (ground arith) b
  ]

  -- a miss in front of a search
  skip_entry :
      (i hi : ℕ) (res : LookupResult)
      → Miss fs buf name i
      → Finds fs buf name (i + 1) hi res
      → Finds fs buf name i hi res
  skip_entry i hi res m (inl (j, r, e, lo, l, hit, before)) =
      inl (j, r, e, omega (arith, lo), l, hit, from_first i j m before)
  skip_entry i hi res m (inr (e, all)) = inr (e, from_first i hi m all)

  -- an entry with the name in front of a search
  name_first :
      (i hi : ℕ) (res : LookupResult) (o : Option ℕ)
      → i < hi
      → str_eq (entry_name buf i) name ≡ true
      → entry_inode fs buf i ≡ o
      → Finds fs buf name (i + 1) hi res
      → Finds fs buf name i hi (or_next res o)
  unfolding or_next
  name_first i hi res none l e eq rest = skip_entry i hi res (inr eq) rest
  name_first i hi res (some r) l e eq rest =
      inl (i, r, refl, omega arith, l, (e, eq), λ k a b. absurd (omega (arith, a, b)))

  lookup_loop-Finds :
      (i n hi : ℕ) → i + n ≡ hi → Finds fs buf name i hi (lookup_loop fs buf name i n)
  unfolding lookup_loop
  lookup_loop-Finds i zero hi h = inr (refl, λ k a b. absurd (omega (arith, a, b)))
  lookup_loop-Finds i (suc n) hi h =
      let rest = lookup_loop-Finds (i + 1) n hi (omega arith) in
      elim (Bool-cases (str_eq (entry_name buf i) name)) [
        | inl e ↦ rw e (name_first i hi _ (entry_inode fs buf i) (omega arith) e refl rest)
        | inr e ↦ rw e (skip_entry i hi _ (inl e) rest)
      ]

-- `ffs_lookup` ends. In an inode that is not a directory it answers `-ENOENT`. Otherwise it reads
-- the directory's bytes and takes, of the entries in them, the first one that has the name and an
-- inode in the list; the dentry is negative only if no entry has both. The condition is that the
-- descriptor and the inode agree on a size below 2 ^ 31.
pub lookup-Finds :
    (fs : Fs) (dir : ℕ) (name : List ℕ)
    → SizeOk fs dir
    → ((bit_and (fs.inode dir).i_mode s_ifdir ≡ 0) × (lookup fs dir name ≡ some no_entry))
      ⊎ ((bit_and (fs.inode dir).i_mode s_ifdir ≢ 0)
          × ((buf : Bytes) × (res : LookupResult) × (lookup fs dir name ≡ some res)
              × Holds fs dir buf
              × Finds fs buf name 0 ((fs.inode dir).i_size / 16) res))
unfolding lookup
lookup-Finds fs dir name ok =
    let (buf, eq, holds) = read_dir-Holds fs dir ok in
    let size = (fs.inode dir).i_size in
    elim (Bool-cases (bit_and (fs.inode dir).i_mode s_ifdir == 0)) [
      | inl e ↦ inl (ground arith, rw e refl)
      | inr e ↦ inr (
        (λ z. ground arith),
        (
          buf,
          lookup_loop fs buf name 0 (size / 16),
          rw (e, eq, ok.agree) refl,
          holds,
          lookup_loop-Finds fs buf name 0 (size / 16) (size / 16) (omega arith),
        ),
      )
    ]
