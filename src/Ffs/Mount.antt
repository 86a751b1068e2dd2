-- ===== src/Ffs/Mount.antt =====
-- Mounting: `ffs_fill_super` and `ffs_read_root` of fs/ffs.c. The device is its bytes, and a block
-- of it is read in the block size that was set last. `d_make_root` is taken to succeed.
pub mod Mask
pub mod Load
pub mod Lost
use system_sw.Prelude.{
  ℕ, zero, suc, ◌+◌, ◌-◌, ◌*◌, ◌/◌, ◌%◌, ◌^◌, ◌≤◌, ◌<◌, min, ◌≡◌, ◌∙◌, refl, sym, ap, subst, ◌≢◌,
  ◌↔◌, ◌⊎◌, inl, inr, Bool, true, false, not, ◌&&◌, ◌||◌, Option, none, some, List, [], ◌∷◌, ◌++◌,
  map, arith, ltb, leb, ◌==◌, if◌then◌else◌, ltb→lt, lt→ltb, le→not_ltb, le→leb, lt→not_leb,
  Bool-cases, ◌>>=◌, length, length-append,
}
use system_sw.Prelude.Word.{
  wrap, sub32, positive, wrap_small, sub32_small, sub32_neg, positive_small, not_positive_of_neg,
  positive-sub32,
}
use system_sw.Memory.{Bytes, at, get32}
use system_sw.Ffs.{
  block_size, userfiles_offset, size_fd, fd_per_block, ffs_reg, ffs_dir, ffs_slink, Fd, SbInfo,
  InodeInfo, Fs, b_bitmask_block, fd_bitmask_block, fd_list_block, write_object,
}
use system_sw.Ffs.Bitmask.{check_bit}
use system_sw.Ffs.Inode.{read_fd}
use system_sw.Ffs.File.{word}

abbrev pub ffs_magic : ℕ
ffs_magic = 0xBA0BAB00

-- `struct ffs_metainfo_sector`
pub record MetaInfo : Type 0 where
  pub magic : ℕ
  pub block_count : ℕ
  pub block_size : ℕ
  pub fd_blocks : ℕ
  pub max_file_count : ℕ
  pub b_bm_blocks : ℕ
  pub fd_bm_blocks : ℕ

unfoldable pub read_metainfo : Bytes → MetaInfo
read_metainfo b = record {
  magic = get32 b 0;
  block_count = get32 b 4;
  block_size = get32 b 8;
  fd_blocks = get32 b 12;
  max_file_count = get32 b 16;
  b_bm_blocks = get32 b 20;
  fd_bm_blocks = get32 b 24;
}

-- the blocks of a device, `size` bytes each
abbrev pub blocks_of : Bytes → ℕ → ℕ → Bytes
blocks_of device size n = at device (size * n)

-- `to_copy` of the loops that read a mask; `back` is `-copied`
abbrev pub mask_part : ℕ → ℕ → ℕ
mask_part len back =
    let rest = wrap (len + back) in
    if leb block_size rest && ltb rest (2 ^ 31) then block_size else rest

-- The loop that reads a mask of `len` bytes, `n` rounds from block `b` on. `copied` is lowered, not
-- raised, and so a later part is copied in front of the mask: what lands before its first byte is
-- another object's, and is left out.
pub read_mask : (ℕ → Bytes) → ℕ → ℕ → ℕ → ℕ → Bytes → Bytes
read_mask disk len zero b back mask = mask
read_mask disk len (suc n) b back mask =
    let to_copy = mask_part len back in
    read_mask disk len n (b + 1) (wrap (back + to_copy))
      (λ k. if ltb (k + back) to_copy then disk b (k + back) else mask k)

-- `S_IFREG | S_IRUGO | S_IWUGO` and the like; a type of none of the three keeps the mode that
-- `new_inode` gave.
unfoldable pub mount_mode : ℕ → ℕ → ℕ
mount_mode type mode =
    if type == ffs_reg
    then 0o100666
    else if type == ffs_slink
    then 0o120666
    else if type == ffs_dir
    then 0o040777
    else mode

-- the fields of an inode that are set for every descriptor. The count of blocks is the root's, as
-- in the source.
unfoldable pub load_fd : ℕ → ℕ → Fd → Fs → Fs
load_fd root r fd fs =
    let i = record (fs.inode r) {
      i_size = fd.file_size;
      datablock = fd.datablock_id;
      fd = fd;
      i_nlink = fd.link_count;
    } in
    let store = write_object fs.inode r i in
    record fs {
      inode =
          write_object store r (record i { i_blocks = word (fs.disk (store root).datablock) 0 });
      inodes = r ∷ fs.inodes;
    }

-- the descriptor `index`, whose bit is set: the root's, or one of a new inode
unfoldable pub load_inode : InodeInfo → ℕ → ℕ → Fd → Fs → Fs
load_inode blank root index fd fs =
    let i = record blank {
      i_ino = userfiles_offset + index;
      i_mode = mount_mode fd.type blank.i_mode;
    } in
    if fd.type == ffs_dir && index == 0
    then load_fd root root fd fs
    else load_fd root fs.fresh fd
        (record fs { inode = write_object fs.inode fs.fresh i; fresh = fs.fresh + 1 })

-- the inner loop over the descriptors of block `b`, `n` rounds from `j` on
pub load_block : InodeInfo → ℕ → ℕ → ℕ → ℕ → ℕ → Fs → ℕ × Fs
load_block blank root b j zero index fs = (index, fs)
load_block blank root b j (suc n) index fs =
    let fd = read_fd (at (fs.disk b) (size_fd * j)) in
    let fs' = if check_bit fs.sbi.fd_bitmask index then load_inode blank root index fd fs else fs in
    let rest = load_block blank root b (j + 1) n (index + 1) fs' in
    if leb fs.sbi.max_file_count index then (index, fs) else rest

-- the loop over the blocks of descriptors, `n` rounds from block `b` on
pub load_blocks : InodeInfo → ℕ → ℕ → ℕ → ℕ → Fs → Fs
load_blocks blank root b zero index fs = fs
load_blocks blank root b (suc n) index fs =
    let (index', fs') = load_block blank root b 0 fd_per_block index fs in
    load_blocks blank root (b + 1) n index' fs'

unfoldable pub read_root : InodeInfo → ℕ → Fs → Fs
read_root blank root fs =
    let b_len = wrap (fs.sbi.block_count + 7) / 8 in
    let fd_len = wrap (fs.sbi.max_file_count + 7) / 8 in
    let sbi = record fs.sbi {
      b_bitmask_len = b_len;
      b_bitmask = read_mask fs.disk b_len fs.sbi.b_bm_blocks (b_bitmask_block fs.sbi) 0 (λ k. 0);
      fd_bitmask_len = fd_len;
      fd_bitmask =
          read_mask fs.disk fd_len fs.sbi.fd_bm_blocks (fd_bitmask_block fs.sbi) 0 (λ k. 0);
    } in
    load_blocks blank root (fd_list_block sbi) sbi.fd_blocks 0 (record fs { sbi = sbi })

-- `out_fail`, or the root's reference and the state
pub data MountResult : Type 0 where
  out_fail : MountResult
  mounted : ℕ → Fs → MountResult

-- `blank` is what `new_inode` returns; the root is the first object of the store.
unfoldable pub fill_super : InodeInfo → Bytes → MountResult
fill_super blank device =
    let info = read_metainfo (blocks_of device block_size 0) in
    let sbi : SbInfo = record {
      block_count = info.block_count;
      fd_blocks = info.fd_blocks;
      max_file_count = info.max_file_count;
      b_bm_blocks = info.b_bm_blocks;
      fd_bm_blocks = info.fd_bm_blocks;
      fd_bitmask_len = 0;
      b_bitmask_len = 0;
      b_bitmask = λ k. 0;
      fd_bitmask = λ k. 0;
    } in
    let root = record blank { i_ino = userfiles_offset; i_mode = 0o040777 } in
    let fs : Fs = record {
      disk = blocks_of device info.block_size;
      sbi = sbi;
      inode = λ r. if r == 0 then root else blank;
      fresh = 1;
      inodes = [];
    } in
    if info.magic == ffs_magic then mounted 0 (read_root blank 0 fs) else out_fail
