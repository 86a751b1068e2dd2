-- ===== src/Ffs/Dir/Dropped.antt =====
-- `ffs_lookup` behind `remove_from_dir`.
use system_sw.Prelude.{
  ℕ, ◌+◌, ◌-◌, ◌*◌, ◌/◌, ◌≤◌, ◌<◌, ◌≡◌, ◌≢◌, true, Option, none, some, List, length,
}
use system_sw.Memory.{Bytes, at, copy}
use system_sw.Ffs.{Fs}
use system_sw.Ffs.File.Overwrite.{resized}
use system_sw.Ffs.File.Done.{WriteDone}
use system_sw.Ffs.Dir.{negative, lookup_loop, lookup}
use system_sw.Ffs.Dir.Names.{nul_free}
use system_sw.Ffs.Dir.Search.{Holds}
use system_sw.Ffs.Dir.Remove.{Shrunk}
use system_sw.Ffs.Dir.Loop.{DirOk}

-- the entries behind entry `j`, moved up
abbrev moved_up : Bytes → ℕ → ℕ → Bytes
moved_up buf size j = copy buf (16 * j) (at buf (16 * (j + 1))) (size - 16 * (j + 1))

-- the directory without entry `j`, on the disk
module _ (fs fs1 : Fs) (dir : ℕ) (buf : Bytes) (j : ℕ) (ok : DirOk fs dir)
    (holds : Holds fs dir buf) (inside : j < (fs.inode dir).i_size / 16)
    (done : WriteDone fs fs1 dir
      (at (moved_up buf (fs.inode dir).i_size j) (16 * j))
      (16 * j)
      ((fs.inode dir).i_size - 16 * (j + 1))) where
  abbrev size : ℕ
  size = (fs.inode dir).i_size

  abbrev shorter : Fs
  shorter = resized dir (size - 16) fs1

-- What `remove_from_dir` leaves where entry `j` of the bytes `buf` was the first with the name: the
-- search by the name finds what it finds behind that entry.
pub record Dropped (fs fs' : Fs) (dir : ℕ) (name : List ℕ) (buf : Bytes) (j : ℕ) : Type 0 where
  pub later :
      let size = (fs.inode dir).i_size in
      lookup fs' dir name ≡ some (lookup_loop fs buf name (j + 1) (size / 16 - j - 1))
  pub other_names :
      (a : List ℕ)
      → nul_free a ≡ true
      → length a ≤ 9
      → a ≢ name
      → lookup fs' dir a ≡ lookup fs dir a
  pub shrunk : Shrunk dir (fs.inode dir).i_size fs fs'

-- no entry with the name, and nothing changed; or the first one left out
abbrev pub NamedDropped : Fs → Fs → ℕ → List ℕ → Bytes → Option ℕ → Type 0
NamedDropped fs fs' dir name buf none = (fs' ≡ fs) × (lookup fs dir name ≡ some negative)
NamedDropped fs fs' dir name buf (some j) = Dropped fs fs' dir name buf j
