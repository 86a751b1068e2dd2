-- ===== src/Ffs/Inode.antt =====
-- File descriptors on the disk: `ffs_write_inode`, `ffs_iget` and `ffs_clear_fd` of fs/ffs.c.
pub mod Stored
pub mod Clear
use system_sw.Prelude.{
  ℕ, zero, suc, ◌+◌, ◌-◌, ◌*◌, ◌/◌, ◌%◌, ◌^◌, ◌≤◌, ◌<◌, min, ◌≡◌, ◌∙◌, refl, sym, ap, subst, ◌≢◌,
  ◌↔◌, ◌⊎◌, inl, inr, Bool, true, false, not, ◌&&◌, ◌||◌, Option, none, some, List, [], ◌∷◌, ◌++◌,
  map, arith, ltb, leb, ◌==◌, if◌then◌else◌, ltb→lt, lt→ltb, le→not_ltb, le→leb, lt→not_leb,
  Bool-cases, ◌>>=◌, length, length-append,
}
use system_sw.Prelude.Word.{
  wrap, sub32, positive, wrap_small, sub32_small, sub32_neg, positive_small, not_positive_of_neg,
  positive-sub32,
}
use system_sw.Memory.{Bytes, at, copy, byte, get32}
use system_sw.Ffs.{
  userfiles_offset, size_fd, fd_per_block, Fd, SbInfo, InodeInfo, Fs, fd_list_block, write_block,
  write_object,
}
use system_sw.Ffs.Bitmask.{reset_bit, write_b_bitmask, write_fd_bitmask}

-- the bytes of a `struct ffs_fd`, four words
pub fd_bytes : Fd → Bytes
fd_bytes fd k =
    if ltb k 4
    then byte fd.type k
    else if ltb k 8
    then byte fd.datablock_id (k - 4)
    else if ltb k 12
    then byte fd.link_count (k - 8)
    else byte fd.file_size (k - 12)

unfoldable pub read_fd : Bytes → Fd
read_fd b = record {
  type = get32 b 0;
  datablock_id = get32 b 4;
  link_count = get32 b 8;
  file_size = get32 b 12;
}

-- `write_inode r`: the descriptor of the inode at `r` goes to its place in the list of descriptors.
unfoldable pub write_inode : ℕ → Fs → Fs
write_inode r fs =
    let i = fs.inode r in
    let fd_index = sub32 i.i_ino userfiles_offset in
    let b = fd_list_block fs.sbi + fd_index / fd_per_block in
    let pos = size_fd * fd_index - fd_index / fd_per_block * size_fd * fd_per_block in
    let disk = write_block fs.disk b (copy (fs.disk b) pos (fd_bytes i.fd) size_fd) in
    record fs {
      disk = disk;
      inode = write_object fs.inode r (record i { i_blocks = get32 (disk i.datablock) 0 });
    }

-- `ffs_iget`: the first inode of the list with the number
unfoldable pub find_inode : (ℕ → InodeInfo) → ℕ → List ℕ → Option ℕ
find_inode store i_pos [] = none
find_inode store i_pos (r ∷ rs) =
    let rest = find_inode store i_pos rs in if (store r).i_ino == i_pos then some r else rest

unfoldable pub iget : Fs → ℕ → Option ℕ
iget fs i_pos = find_inode fs.inode i_pos fs.inodes

-- `RESET_BIT(sbi->b_bitmask, bi); ffs_write_b_bitmask(sb, bi);`
pub free_block : ℕ → Fs → Fs
free_block bi fs =
    write_b_bitmask bi
      (record fs { sbi = record fs.sbi { b_bitmask = reset_bit fs.sbi.b_bitmask bi } })

-- the loop of `ffs_clear_fd` over the words of the datablock from number `b` on, `n` rounds
pub free_blocks : ℕ → ℕ → ℕ → Fs → Fs
free_blocks datablock b zero fs = fs
free_blocks datablock b (suc n) fs =
    free_blocks datablock (b + 1) n (free_block (get32 (fs.disk datablock) (4 * b)) fs)

pub clear_fd : ℕ → Fs → Fs
clear_fd r fs =
    let i = fs.inode r in
    let index = sub32 i.i_ino userfiles_offset in
    let fs1 = free_blocks i.datablock 1 (get32 (fs.disk i.datablock) 0) fs in
    let fs2 = free_block i.fd.datablock_id fs1 in
    write_fd_bitmask index
      (record fs2 { sbi = record fs2.sbi { fd_bitmask = reset_bit fs2.sbi.fd_bitmask index } })
