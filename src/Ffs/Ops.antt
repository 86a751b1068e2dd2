-- ===== src/Ffs/Ops.antt =====
-- The operations on inodes of fs/ffs.c: create, mkdir, symlink, link, unlink, rmdir, setattr and
-- follow_link. A dentry is the reference of its inode and its name.
pub mod Truncate
pub mod Unlink
pub mod Fill
pub mod Parent
pub mod Create
pub mod Created
pub mod Contents
pub mod Symlink
use Prim.Native.Nat.{bit_and, bit_or}
use system_sw.Prelude.{
  ℕ, zero, suc, ◌+◌, ◌-◌, ◌*◌, ◌/◌, ◌%◌, ◌^◌, ◌≤◌, ◌<◌, min, ◌≡◌, ◌∙◌, refl, sym, ap, subst, ◌≢◌,
  ◌↔◌, ◌⊎◌, inl, inr, Bool, true, false, not, ◌&&◌, ◌||◌, Option, none, some, List, [], ◌∷◌, ◌++◌,
  map, arith, ltb, leb, ◌==◌, if◌then◌else◌, ltb→lt, lt→ltb, le→not_ltb, le→leb, lt→not_leb,
  Bool-cases, ◌>>=◌, length, length-append,
}
use system_sw.Prelude.Word.{
  wrap, sub32, positive, wrap_small, sub32_small, sub32_neg, positive_small, not_positive_of_neg,
  positive-sub32,
}
use system_sw.Memory.{Bytes, at, copy, byte, get32}
use system_sw.Ffs.{
  block_size, userfiles_offset, ffs_reg, ffs_dir, ffs_slink, Fd, SbInfo, InodeInfo, Fs, write_block,
  write_object,
}
use system_sw.Ffs.Bitmask.{get_empty_block, get_empty_fd}
use system_sw.Ffs.Inode.{write_inode, free_block, clear_fd}
use system_sw.Ffs.File.{word, put_word, read_all, file_write}
use system_sw.Ffs.Dir.{s_ifdir, str_bytes, add_to_dir, Memcpy, remove_from_dir}

abbrev pub s_ifreg : ℕ
s_ifreg = 0o100000

abbrev pub s_iflnk : ℕ
s_iflnk = 0o120000

-- the switch on `mode & S_IFMT`: the inode's mode and `fd.type`; `none` is its default
unfoldable pub file_type : ℕ → Option (ℕ × ℕ)
file_type mode =
    let fmt = bit_and mode 0o170000 in
    if fmt == s_ifdir
    then some (bit_or mode s_ifdir, ffs_dir)
    else if fmt == s_ifreg
    then some (bit_or mode s_ifreg, ffs_reg)
    else if fmt == s_iflnk
    then some (bit_or mode s_iflnk, ffs_slink)
    else none

-- `-EINVAL`, or 0 with the reference of the inode that the dentry now has
pub data CreateResult : Type 0 where
  einval : CreateResult
  created : ℕ → CreateResult

-- `create_entry` behind the switch. `blank` is the inode that `new_inode` returned.
pub fill_inode : InodeInfo → ℕ → ℕ → ℕ → Fs → Fs
fill_inode blank fd_i mode type fs =
    let (b, fs1) = get_empty_block fs in
    let datablock_id = sub32 b 1 in
    let i = record blank {
      i_ino = userfiles_offset + fd_i;
      i_mode = mode;
      i_size = 0;
      i_nlink = 1;
      i_blocks = 0;
      fd = record { type = type; datablock_id = datablock_id; link_count = 1; file_size = 0 };
      datablock = datablock_id;
    } in
    record fs1 {
      disk = write_block fs1.disk datablock_id (copy (fs1.disk datablock_id) 0 (λ k. 0) block_size);
      inode = write_object fs1.inode fs1.fresh i;
      fresh = fs1.fresh + 1;
      inodes = fs1.fresh ∷ fs1.inodes;
    }

module _ (junk : Fs → Bytes) where
  pub create_typed : InodeInfo → ℕ → List ℕ → ℕ → Fs → Option (ℕ × ℕ) → Option (CreateResult × Fs)
  create_typed blank dir name fd_i fs none = some (einval, fs)
  create_typed blank dir name fd_i fs (some (mode, type)) =
      let fs' = fill_inode blank fd_i mode type fs in
      add_to_dir junk dir fs.fresh name (write_inode fs.fresh fs')
      >>= (λ fs''. some (created fs.fresh, fs''))

  -- `iput` at `cleanup` gives the new inode back: no reference to it is left.
  pub create_entry : InodeInfo → ℕ → List ℕ → ℕ → Fs → Option (CreateResult × Fs)
  create_entry blank dir name mode fs =
      let (fd_i, fs') = get_empty_fd fs in
      let rest = create_typed blank dir name (fd_i - 1) fs' (file_type mode) in
      if fd_i == 0 then some (einval, fs') else rest

  pub mkdir : InodeInfo → ℕ → List ℕ → ℕ → Fs → Option (CreateResult × Fs)
  mkdir blank dir name mode fs = create_entry blank dir name (bit_or mode s_ifdir) fs

  pub create : InodeInfo → ℕ → List ℕ → ℕ → Fs → Option (CreateResult × Fs)
  create blank dir name mode fs = create_entry blank dir name mode fs

  -- the content of a new symbolic link: the name without its 0
  pub write_symname : List ℕ → CreateResult × Fs → Option (CreateResult × Fs)
  write_symname symname (einval, fs) = some (einval, fs)
  write_symname symname (created r, fs) =
      file_write fs r (str_bytes symname) (length symname) 0 false
      >>= (λ (len, ppos, fs'). some (created r, fs'))

  -- `S_IFLNK | S_IRUGO | S_IWUGO`
  pub symlink : InodeInfo → ℕ → List ℕ → List ℕ → Fs → Option (CreateResult × Fs)
  symlink blank dir name symname fs =
      create_entry blank dir name (bit_or (bit_or s_iflnk 0o444) 0o222) fs >>= write_symname symname

  -- `ffs_link`: `r` is the inode of the old dentry.
  pub link : ℕ → ℕ → List ℕ → Fs → Option Fs
  link r dir name fs = add_to_dir junk dir r name fs >>= (λ fs'.
      let i = fs'.inode r in
      let i' = record i {
        i_nlink = i.i_nlink + 1;
        fd = record i.fd { link_count = wrap (i.fd.link_count + 1) };
      } in
      some (write_inode r (record fs' { inode = write_object fs'.inode r i' })))

-- `hlist_del`
pub hlist_del : ℕ → List ℕ → List ℕ
hlist_del r [] = []
hlist_del r (x ∷ xs) = let rest = hlist_del r xs in if x == r then xs else x ∷ rest

-- `ffs_unlink` behind `remove_from_dir`
pub drop_link : ℕ → Fs → Fs
drop_link r fs =
    let i = fs.inode r in
    let count = sub32 i.fd.link_count 1 in
    let fs1 = record fs {
      inode = write_object fs.inode r (record i { fd = record i.fd { link_count = count } });
    } in
    let fs2 = if count == 0 then clear_fd r fs1 else fs1 in
    let i2 = fs2.inode r in
    let fs3 = record fs2 {
      inode = write_object fs2.inode r (record i2 { i_nlink = i2.i_nlink - 1 });
    } in
    if count == 0 then record fs3 { inodes = hlist_del r fs3.inodes } else write_inode r fs3

pub unlink : Memcpy → ℕ → ℕ → List ℕ → Fs → Option Fs
unlink memcpy dir r name fs = remove_from_dir memcpy dir name fs >>= (λ fs'. some (drop_link r fs'))

-- `none` inside is `-ENOTEMPTY`.
pub rmdir : Memcpy → ℕ → ℕ → List ℕ → Fs → Option (Option Fs)
rmdir memcpy dir r name fs =
    let done = unlink memcpy dir r name fs >>= (λ fs'. some (some fs')) in
    if ltb 0 (fs.inode r).i_size then some none else done

-- the two loops of `ffs_setattr`, `n` rounds
pub expand_loop : ℕ → ℕ → Fs → Fs
expand_loop datablock zero fs = fs
expand_loop datablock (suc n) fs =
    let (b, fs') = get_empty_block fs in
    expand_loop datablock n (record fs' {
      disk = write_block fs'.disk datablock (put_word (fs'.disk datablock) 0 (sub32 b 1));
    })

pub truncate_loop : ℕ → ℕ → Fs → Fs
truncate_loop datablock zero fs = fs
truncate_loop datablock (suc n) fs =
    truncate_loop datablock n (free_block (word (fs.disk datablock) 0) fs)

-- the end of `ffs_setattr`: the number of blocks, the size and the descriptor
pub set_size : ℕ → ℕ → ℕ → Fs → Fs
set_size r size new_count fs =
    let i = fs.inode r in
    let i' = record i { i_size = size; fd = record i.fd { file_size = wrap size } } in
    write_inode r (record fs {
      disk = write_block fs.disk i.datablock (put_word (fs.disk i.datablock) 0 new_count);
      inode = write_object fs.inode r i';
    })

-- `has_size` is `attr->ia_valid & ATTR_SIZE`.
pub setattr : ℕ → Bool → ℕ → Fs → Fs
setattr r has_size size fs =
    let i = fs.inode r in
    let prev_count = word (fs.disk i.datablock) 0 in
    let new_count = wrap ((size + block_size - 1) / block_size) in
    let fs' =
      if ltb i.fd.file_size size
      then expand_loop i.datablock (sub32 new_count prev_count - prev_count) fs
      else if ltb size i.fd.file_size
      then truncate_loop i.datablock (prev_count - new_count) fs
      else fs in
    if has_size && not (i.i_size == size) then set_size r size new_count fs' else fs

-- `ffs_follow_link`: the link's content, in a zeroed buffer
pub follow_link : ℕ → Fs → Option Bytes
follow_link r fs = let size = wrap (fs.inode r).i_size in read_all (size + 2) fs r (λ k. 0) size 0
