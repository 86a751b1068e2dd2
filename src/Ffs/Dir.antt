-- ===== src/Ffs/Dir.antt =====
-- Directories of fs/ffs.c: `add_to_dir`, `remove_from_dir`, `ffs_lookup` and `ffs_f_readdir`. A name is
-- the list of its characters, without the terminating 0. `kzalloc` is taken to succeed.
pub mod Search
pub mod Remove
pub mod Names
pub mod Entries
pub mod Loop
pub mod Add
pub mod Drop
pub mod Dropped
pub mod Kept
pub mod Listing
use Prim.Native.Nat.{bit_and}
use system_sw.Prelude.{
  ℕ, zero, suc, ◌+◌, ◌-◌, ◌*◌, ◌/◌, ◌%◌, ◌^◌, ◌≤◌, ◌<◌, min, ◌≡◌, ◌∙◌, refl, sym, ap, subst, ◌≢◌,
  ◌↔◌, ◌⊎◌, inl, inr, Bool, true, false, not, ◌&&◌, ◌||◌, Option, none, some, List, [], ◌∷◌, ◌++◌,
  map, arith, ltb, leb, ◌==◌, if◌then◌else◌, ltb→lt, lt→ltb, le→not_ltb, le→leb, lt→not_leb,
  Bool-cases, ◌>>=◌, length, length-append,
}
use system_sw.Prelude.Word.{
  wrap, sub32, positive, wrap_small, sub32_small, sub32_neg, positive_small, not_positive_of_neg,
  positive-sub32,
}
use system_sw.Memory.{Bytes, at, copy, byte, get32}
use system_sw.Ffs.{userfiles_offset, size_entry, Fd, InodeInfo, Fs, write_object}
use system_sw.Ffs.Inode.{write_inode, iget}
use system_sw.Ffs.File.{read_all, file_write}

abbrev pub s_ifdir : ℕ
s_ifdir = 0o040000

-- the bytes of a string, its 0 included
unfoldable pub str_bytes : List ℕ → Bytes
str_bytes [] k = 0
str_bytes (c ∷ cs) zero = c
str_bytes (c ∷ cs) (suc k) = str_bytes cs k

-- `strcmp(b, name) == 0`
unfoldable pub str_eq : Bytes → List ℕ → Bool
str_eq b [] = b 0 == 0
str_eq b (c ∷ cs) = b 0 == c && str_eq (at b 1) cs

-- the members of entry `i`: `i_fd` and `filename`
abbrev pub entry_fd : Bytes → ℕ → ℕ
entry_fd content i = get32 content (size_entry * i)

abbrev pub entry_name : Bytes → ℕ → Bytes
entry_name content i = at content (size_entry * i + 4)

-- The content of a directory, in a zeroed buffer of its size. Two calls of `file_read` are enough,
-- and each reads a byte or more: `size + 2` calls.
unfoldable pub read_dir : Fs → ℕ → Option Bytes
read_dir fs dir =
    let size = (fs.inode dir).fd.file_size in read_all (size + 2) fs dir (λ k. 0) size 0

-- `add_to_dir`: `junk fs` is what the uninitialised `fde` holds.
pub add_to_dir : (Fs → Bytes) → ℕ → ℕ → List ℕ → Fs → Option Fs
add_to_dir junk dir r name fs =
    let i_fd = wrap (sub32 (fs.inode r).i_ino userfiles_offset + 1) in
    let fde = copy (copy (junk fs) 0 (byte i_fd) 4) 4 (str_bytes name) (length name + 1) in
    file_write fs dir fde size_entry 0 true >>= (λ (len, ppos, fs'). some fs')

-- the first entry with the name, from `i` on, `n` rounds
pub find_entry : Bytes → List ℕ → ℕ → ℕ → Option ℕ
find_entry content name i zero = none
find_entry content name i (suc n) =
    let rest = find_entry content name (i + 1) n in
    if str_eq (entry_name content i) name then some i else rest

-- `memcpy(m + dst, m + src, n)` inside one buffer, whose ranges may overlap. C does not say what it
-- does to them: it is a parameter.
abbrev pub Memcpy : Type 0
Memcpy = Bytes → ℕ → ℕ → ℕ → Bytes

-- It copies the bytes from the first to the last, so that it moves them down as `memmove` does.
abbrev pub MovesDown : Memcpy → Type 0
MovesDown memcpy =
    (m : Bytes) (dst src n : ℕ) → dst ≤ src → memcpy m dst src n ≡ copy m dst (at m src) n

-- The entries behind entry `i` move up in the buffer, are written from there on, and the
-- directory's size is set.
pub remove_entry : Memcpy → ℕ → Bytes → ℕ → Fs → ℕ → Option Fs
remove_entry memcpy dir content size fs i =
    let to_copy = size - size_entry * (i + 1) in
    let content' = memcpy content (size_entry * i) (size_entry * (i + 1)) to_copy in
    file_write fs dir (at content' (size_entry * i)) to_copy (size_entry * i) false
    >>= (λ (len, ppos, fs').
        let d = fs'.inode dir in
        let s = size - size_entry in
        let d' = record d { i_size = s; fd = record d.fd { file_size = s } } in
        some (write_inode dir (record fs' { inode = write_object fs'.inode dir d' })))

pub remove_found : Memcpy → ℕ → Bytes → ℕ → Fs → Option ℕ → Option Fs
remove_found memcpy dir content size fs none = some fs
remove_found memcpy dir content size fs (some i) = remove_entry memcpy dir content size fs i

pub remove_from_dir : Memcpy → ℕ → List ℕ → Fs → Option Fs
remove_from_dir memcpy dir name fs =
    let size = (fs.inode dir).fd.file_size in
    read_dir fs dir >>= (λ content.
      remove_found memcpy dir content size fs (find_entry content name 0 (size / size_entry)))

-- `-ENOENT`, or a dentry without an inode, or one with the inode at a reference
pub data LookupResult : Type 0 where
  no_entry : LookupResult
  negative : LookupResult
  attached : ℕ → LookupResult

-- `ffs_iget(sb, FFS_USERFILES_OFFSET + iter->i_fd - 1)`
unfoldable pub entry_inode : Fs → Bytes → ℕ → Option ℕ
entry_inode fs content i = iget fs (sub32 (wrap (userfiles_offset + entry_fd content i)) 1)

unfoldable pub or_next : LookupResult → Option ℕ → LookupResult
or_next rest none = rest
or_next rest (some r) = attached r

unfoldable pub lookup_loop : Fs → Bytes → List ℕ → ℕ → ℕ → LookupResult
lookup_loop fs content name i zero = negative
lookup_loop fs content name i (suc n) =
    let rest = lookup_loop fs content name (i + 1) n in
    if str_eq (entry_name content i) name then or_next rest (entry_inode fs content i) else rest

unfoldable pub lookup : Fs → ℕ → List ℕ → Option LookupResult
lookup fs dir name =
    let d = fs.inode dir in
    let found =
      read_dir fs dir
      >>= (λ content. some (lookup_loop fs content name 0 (d.fd.file_size / size_entry))) in
    if bit_and d.i_mode s_ifdir == 0 then some no_entry else found

-- the arguments of a call of `filldir`
pub record DirItem : Type 0 where
  pub name : Bytes
  pub len : ℕ
  pub pos : ℕ
  pub ino : ℕ
  pub is_dir : Bool

-- the items for `.` and `..`
pub dir_item : Fs → Bytes → ℕ → ℕ → ℕ → DirItem
dir_item fs name len pos r = record {
  name = name;
  len = len;
  pos = pos;
  ino = (fs.inode r).i_ino;
  is_dir = true;
}

-- `filldir` is the caller's: it takes an item into its buffer `S`, and says whether to stop.
module _ {S : Type 0} (filldir : S → DirItem → Bool × S) where
  -- the result, `file->f_pos` and the buffer
  pub readdir_loop : Fs → Bytes → ℕ → ℕ → ℕ → S → ℕ × ℕ × S
  readdir_loop fs content i zero f_pos s = (1, f_pos, s)
  readdir_loop fs content i (suc n) f_pos s = elim (entry_inode fs content i) [
    | none ↦ readdir_loop fs content (i + 1) n f_pos s
    | some r ↦
        let (stop, s') = filldir s (record {
          name = entry_name content i;
          len = 10;
          pos = f_pos;
          ino = (fs.inode r).i_ino;
          is_dir = false;
        }) in
        let rest = readdir_loop fs content (i + 1) n (f_pos + 1) s' in
        if stop then (0, f_pos + 1, s') else rest
  ]

  pub readdir : Fs → ℕ → ℕ → ℕ → S → Option (ℕ × ℕ × S)
  readdir fs dir parent f_pos s =
      let (stop, s1) = filldir s (dir_item fs (str_bytes (46 ∷ [])) 1 f_pos dir) in
      let (stop', s2) = filldir s1 (dir_item fs (str_bytes (46 ∷ 46 ∷ [])) 2 (f_pos + 1) parent) in
      let rest = read_dir fs dir >>= (λ content.
        some
          (readdir_loop fs content 0 ((fs.inode dir).fd.file_size / size_entry) (f_pos + 2) s2)) in
      if ltb 0 f_pos
      then some (1, f_pos, s)
      else if stop
      then some (0, f_pos + 1, s1)
      else if stop'
      then some (0, f_pos + 2, s2)
      else rest
