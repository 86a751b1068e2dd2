-- ===== src/Ffs.antt =====
-- fs/const.h, fs/ffs.h and the state of fs/ffs.c. A disk block is the bytes of its buffer: a buffer
-- that is changed, marked dirty and synced is a changed block, and `sb_bread` finds a buffer for each
-- block number. Inodes are objects in a store, named by references, since directories, dentries and
-- the list of the superblock share them. Spin locks, logging and reference counts are left out.
pub mod Bitmask
pub mod Inode
pub mod File
pub mod Dir
pub mod Ops
pub mod Mount
pub mod Volume
mod Tests
use system_sw.Prelude.{ℕ, ◌+◌, ◌-◌, ◌*◌, ◌/◌, ◌%◌, List, ◌==◌, if◌then◌else◌}
use system_sw.Memory.{Bytes}

abbrev pub block_size : ℕ
block_size = 512

-- `FFS_USERFILES_OFFSET`
abbrev pub userfiles_offset : ℕ
userfiles_offset = 1

-- `sizeof(struct ffs_fd)`, and how many a block holds
abbrev pub size_fd : ℕ
size_fd = 16

abbrev pub fd_per_block : ℕ
fd_per_block = block_size / size_fd

-- `sizeof(struct ffs_directory_entry)`: a word and ten characters, padded
abbrev pub size_entry : ℕ
size_entry = 16

-- `enum ffs_file_type`
abbrev pub ffs_reg : ℕ
ffs_reg = 0

abbrev pub ffs_dir : ℕ
ffs_dir = 1

abbrev pub ffs_slink : ℕ
ffs_slink = 2

-- `struct ffs_fd`
pub record Fd : Type 0 where
  pub type : ℕ
  pub datablock_id : ℕ
  pub link_count : ℕ
  pub file_size : ℕ

-- `struct ffs_sb_info`, less the list of inodes
pub record SbInfo : Type 0 where
  pub block_count : ℕ
  pub fd_blocks : ℕ
  pub max_file_count : ℕ
  pub b_bm_blocks : ℕ
  pub fd_bm_blocks : ℕ
  pub fd_bitmask_len : ℕ
  pub b_bitmask_len : ℕ
  pub b_bitmask : Bytes
  pub fd_bitmask : Bytes

-- `struct ffs_inode_info` with the fields of its `struct inode` that the source uses. `datablock` is
-- the number of the block whose buffer it holds.
pub record InodeInfo : Type 0 where
  pub i_ino : ℕ
  pub i_mode : ℕ
  pub i_size : ℕ
  pub i_nlink : ℕ
  pub i_blocks : ℕ
  pub fd : Fd
  pub datablock : ℕ

-- The whole state: the disk's blocks, the superblock, the store of inodes with the next free
-- reference, and `sbi->inodes`, first to last.
pub record Fs : Type 0 where
  pub disk : ℕ → Bytes
  pub sbi : SbInfo
  pub inode : ℕ → InodeInfo
  pub fresh : ℕ
  pub inodes : List ℕ

-- `FFS_B_BITMASK_BLOCK`, `FFS_FD_BITMASK_BLOCK` and `FFS_FD_LIST_BLOCK`
abbrev pub b_bitmask_block : SbInfo → ℕ
b_bitmask_block sbi = 1

abbrev pub fd_bitmask_block : SbInfo → ℕ
fd_bitmask_block sbi = 1 + sbi.b_bm_blocks

abbrev pub fd_list_block : SbInfo → ℕ
fd_list_block sbi = 1 + sbi.b_bm_blocks + sbi.fd_bm_blocks

-- the disk with block `n` replaced
abbrev pub write_block : (ℕ → Bytes) → ℕ → Bytes → ℕ → Bytes
write_block disk n bytes k = if k == n then bytes else disk k

-- the store with the object at `r` replaced
abbrev pub write_object : (ℕ → InodeInfo) → ℕ → InodeInfo → ℕ → InodeInfo
write_object store r i k = if k == r then i else store k
