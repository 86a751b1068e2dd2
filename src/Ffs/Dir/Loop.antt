-- ===== src/Ffs/Dir/Loop.antt =====
-- `ffs_lookup` in a directory of whole entries, as the loop over the directory's bytes.
use system_sw.Prelude.{
  ℕ, ◌*◌, ◌/◌, ◌%◌, ◌≤◌, ◌≡◌, refl, sym, ap, subst, ◌≢◌, inl, inr, false, some, List, arith, ◌==◌,
  Bool-cases,
}
use Prim.Native.Nat.{bit_and}
use system_sw.Memory.{Bytes}
use system_sw.Ffs.{Fs}
use system_sw.Ffs.File.Overwrite.{file_blocks, FileOk}
use system_sw.Ffs.File.Done.{WriteDone}
use system_sw.Ffs.Dir.{s_ifdir, read_dir, LookupResult, lookup_loop, lookup}
use system_sw.Ffs.Dir.Search.{Holds, SizeOk, read_dir-Holds}
use system_sw.Ffs.Dir.Entries.{SameNumbers}

-- a directory of whole entries, whose blocks are apart
pub record DirOk (fs : Fs) (dir : ℕ) : Type 0 where
  pub is_dir : bit_and (fs.inode dir).i_mode s_ifdir ≢ 0
  pub size : SizeOk fs dir
  pub file : FileOk fs (fs.inode dir)
  pub within : (fs.inode dir).i_size ≤ 512 * file_blocks fs (fs.inode dir)
  pub entries : (fs.inode dir).i_size % 16 ≡ 0

pub some_inj : (a b : LookupResult) → some a ≡ some b → a ≡ b
some_inj a b e = cc

-- a search is the loop over bytes that hold the directory
pub lookup-loop :
    (fs : Fs) (dir : ℕ)
    → SizeOk fs dir
    → bit_and (fs.inode dir).i_mode s_ifdir ≢ 0
    → (buf : Bytes) × (read_dir fs dir ≡ some buf)
      × Holds fs dir buf
      × ((name : List ℕ)
          → lookup fs dir name ≡ some (lookup_loop fs buf name 0 ((fs.inode dir).i_size / 16)))
unfolding lookup
lookup-loop fs dir ok is_dir =
    let (buf, eq, holds) = read_dir-Holds fs dir ok in
    let no : (bit_and (fs.inode dir).i_mode s_ifdir == 0) ≡ false = ground arith in
    (buf, eq, holds, λ name. rw (no, eq, ok.agree) refl)

pub WriteDone-SameNumbers :
    (fs fs' : Fs) (dir start len : ℕ) (src : Bytes)
    → WriteDone fs fs' dir src start len
    → SameNumbers fs fs'
WriteDone-SameNumbers fs fs' dir start len src done = record {
  list = done.list;
  number = λ k. elim (Bool-cases (k == dir)) [
    | inl e ↦
        let q : k ≡ dir = ground arith in
        subst (λ x. (fs'.inode x).i_ino ≡ (fs.inode x).i_ino) (sym q) (done.sized.i_ino)
    | inr e ↦ ap (λ i. i.i_ino) (done.others k (ground arith))
  ];
}
