-- ===== src/Mkfs/Fresh.antt =====
-- An image of mkfs.ffs, mounted by `ffs_fill_super`.
use system_sw.Prelude.{
  ℕ, zero, suc, ◌+◌, ◌-◌, ◌*◌, ◌/◌, ◌%◌, ◌≤◌, ◌<◌, min, ◌≡◌, ◌∙◌, refl, sym, ap, true, [], ◌∷◌,
  arith, ltb, ◌==◌, if◌then◌else◌, lt→ltb, le→not_ltb,
}
use system_sw.Prelude.Word.{wrap, wrap_small}
use system_sw.Memory.{Bytes, at, get32}
use system_sw.Ffs.{ffs_dir, ffs_reg, Fd, SbInfo, InodeInfo, Fs}
use system_sw.Ffs.Bitmask.{check_bit}
use system_sw.Ffs.Bitmask.Bits.{AreBytes, low_byte, check_bit-low_byte}
use system_sw.Ffs.Bitmask.Take.{MaskOk, BlockMaskOk, FdMaskOk}
use system_sw.Ffs.Inode.{read_fd}
use system_sw.Ffs.Mount.{
  ffs_magic, MetaInfo, blocks_of, load_fd, load_inode, load_blocks, mount_mode, read_root, mounted,
  fill_super,
}
use system_sw.Ffs.Mount.Mask.{read_mask_one}
use system_sw.Ffs.Mount.Load.{load_each, load_each_set, load_each_clear, load_blocks-load_each}
use system_sw.Mkfs.{layout, service_blocks, new_fd, mkfs}
use system_sw.Mkfs.Image.{layout-RoomFor}
use system_sw.Mkfs.Readback.{
  zeros, Small, layout-Small, mounted_metainfo, b_mask, fd_mask, b_mask-low_byte, fd_mask-low_byte,
  mounted_fds, mounted_datablocks,
}

-- an inode that was loaded from descriptor `ino - 1`; the root's datablock names one block
pub record Loaded (i : InodeInfo) (ino mode : ℕ) (fd : Fd) : Type 0 where
  pub i_ino : i.i_ino ≡ ino
  pub i_mode : i.i_mode ≡ mode
  pub i_size : i.i_size ≡ fd.file_size
  pub i_nlink : i.i_nlink ≡ fd.link_count
  pub i_blocks : i.i_blocks ≡ 1
  pub datablock : i.datablock ≡ fd.datablock_id
  pub descriptor : i.fd ≡ fd

-- a file system with a root directory and two files, and with nothing else taken
pub record Fresh (s : ℕ) (fs : Fs) : Type 0 where
  pub used_blocks : (i : ℕ) → check_bit fs.sbi.b_bitmask i ≡ ltb i (s + 6)
  pub used_fds : (i : ℕ) → check_bit fs.sbi.fd_bitmask i ≡ ltb i 3
  pub block_mask : BlockMaskOk fs
  pub fd_mask : FdMaskOk fs
  pub more : (s + 6 < fs.sbi.block_count) × (3 < fs.sbi.max_file_count)
  pub one_mask_block : (fs.sbi.b_bm_blocks ≡ 1) × (fs.sbi.fd_bm_blocks ≡ 1)
  pub inodes : fs.inodes ≡ 2 ∷ 1 ∷ 0 ∷ []
  pub root : Loaded (fs.inode 0) 1 0o040777 (new_fd ffs_dir s 32)
  pub hello : Loaded (fs.inode 1) 2 0o100666 (new_fd ffs_reg (s + 1) 3)
  pub world : Loaded (fs.inode 2) 3 0o100666 (new_fd ffs_reg (s + 2) 4)

-- the state before the descriptors are read
abbrev start : InodeInfo → (ℕ → Bytes) → SbInfo → Fs
start blank disk sbi = record {
  disk = disk;
  sbi = sbi;
  inode = λ r. if r == 0 then record blank { i_ino = 1; i_mode = 0o040777 } else blank;
  fresh = 1;
  inodes = [];
}

-- the three descriptors of an image whose blocks in use end with number `s + 5`
abbrev fd_of : ℕ → ℕ → Fd
fd_of s i = if i == 0 then new_fd ffs_dir s 32 else new_fd ffs_reg (s + i) (2 + i)

-- the state with the first three descriptors loaded
abbrev three : InodeInfo → (ℕ → Bytes) → SbInfo → ℕ → Fs
three blank disk sbi s =
    load_inode blank 0 2 (fd_of s 2)
      (load_inode blank 0 1 (fd_of s 1) (load_inode blank 0 0 (fd_of s 0) (start blank disk sbi)))

module _ (blank : InodeInfo) (disk : ℕ → Bytes) (sbi : SbInfo) (base s : ℕ)
    (bits : (i : ℕ) → check_bit sbi.fd_bitmask i ≡ ltb i 3)
    (fds : (i : ℕ) → i < 3 → read_fd (at (disk base) (16 * i)) ≡ fd_of s i) where
  load_one :
      (i n : ℕ) (fs : Fs)
      → i < 3
      → fs.disk ≡ disk
      → fs.sbi ≡ sbi
      → load_each blank 0 base i (suc n) fs
        ≡ load_each blank 0 base (i + 1) n (load_inode blank 0 i (fd_of s i) fs)
  load_one i n fs h d b =
      load_each_set blank 0 base i n fs (fd_of s i) (rw b (bits i ∙ lt→ltb _ _ h)) (
        let block : base + i / 32 ≡ base = omega arith in
        let place : i % 32 ≡ i = omega arith in rw (d, block, place) (fds i h))

  load_three :
      (n : ℕ)
      → load_each blank 0 base 0 (suc (suc (suc n))) (start blank disk sbi) ≡ three blank disk sbi s
  unfolding load_inode load_fd
  load_three n =
      load_one 0 _ (start blank disk sbi) (omega arith) refl refl
      ∙ load_one 1 _ _ (omega arith) refl refl
      ∙ load_one 2 _ _ (omega arith) refl refl
      ∙ load_each_clear blank 0 base 3 n _ (λ k l. bits k ∙ le→not_ltb _ _ l)

module _ (blank : InodeInfo) (disk : ℕ → Bytes) (sbi : SbInfo) (s : ℕ)
    (one : get32 (disk s) 0 ≡ 1) where
  three-Loaded :
      let fs = three blank disk sbi s in
      Loaded (fs.inode 0) 1 0o040777 (fd_of s 0)
      × Loaded (fs.inode 1) 2 0o100666 (fd_of s 1)
      × Loaded (fs.inode 2) 3 0o100666 (fd_of s 2)
  unfolding load_inode load_fd mount_mode
  three-Loaded = (
    record {
      i_ino = refl;
      i_mode = refl;
      i_size = refl;
      i_nlink = refl;
      i_blocks = one;
      datablock = refl;
      descriptor = refl;
    },
    record {
      i_ino = refl;
      i_mode = refl;
      i_size = refl;
      i_nlink = refl;
      i_blocks = one;
      datablock = refl;
      descriptor = refl;
    },
    record {
      i_ino = refl;
      i_mode = refl;
      i_size = refl;
      i_nlink = refl;
      i_blocks = one;
      datablock = refl;
      descriptor = refl;
    },
  )

module _ (junk : Bytes) (size : ℕ) (low : 12800 ≤ size) (high : size < 512 * 4097)
    (blank : InodeInfo) where
  abbrev info : MetaInfo
  info = layout size

  abbrev s : ℕ
  s = service_blocks info

  abbrev disk : ℕ → Bytes
  disk = blocks_of (mkfs junk size zeros) 512

  -- the superblock as it is read
  abbrev sbi : SbInfo
  sbi = record {
    block_count = info.block_count;
    fd_blocks = info.fd_blocks;
    max_file_count = info.max_file_count;
    b_bm_blocks = 1;
    fd_bm_blocks = 1;
    fd_bitmask_len = (info.max_file_count + 7) / 8;
    b_bitmask_len = (info.block_count + 7) / 8;
    b_bitmask = b_mask junk size low high;
    fd_bitmask = fd_mask junk size low high;
  }

  small : Small info
  small = layout-Small size low high

  fill_super-start :
      fill_super blank (mkfs junk size zeros)
      ≡ mounted 0 (load_blocks blank 0 3 info.fd_blocks 0 (start blank disk sbi))
  unfolding fill_super read_root
  fill_super-start =
      let magic : (info.magic == ffs_magic) ≡ true = let m = small.magic in ground arith in
      let wb : wrap (info.block_count + 7) ≡ info.block_count + 7 =
        wrap_small _ (let c = small.count in omega arith) in
      let wf : wrap (info.max_file_count + 7) ≡ info.max_file_count + 7 =
        wrap_small _ (let c = small.most in omega arith) in
      rw
        (
          mounted_metainfo junk size low high,
          magic,
          small.block_size,
          small.b_bm,
          small.fd_bm,
          wb,
          wf,
        )
        refl

  fd_bits : (i : ℕ) → check_bit sbi.fd_bitmask i ≡ ltb i 3
  fd_bits i = check_bit-low_byte sbi.fd_bitmask 3 i (fd_mask-low_byte junk size low high (i / 8))

  fds : (i : ℕ) → i < 3 → read_fd (at (disk 3) (16 * i)) ≡ fd_of s i
  fds zero h = (mounted_fds junk size low high).0
  fds (suc zero) h = (mounted_fds junk size low high).1
  fds (suc (suc zero)) h = (mounted_fds junk size low high).2
  fds (suc (suc (suc i))) h = absurd (omega arith)

  fill_super-three : fill_super blank (mkfs junk size zeros) ≡ mounted 0 (three blank disk sbi s)
  fill_super-three =
      let f = (layout-RoomFor size low (omega (arith, high))).files in
      let g = small.files in
      let n : min (32 * info.fd_blocks) info.max_file_count
          ≡ suc (suc (suc (info.max_file_count - 3))) =
        omega arith in
      fill_super-start
      ∙ rw (load_blocks-load_each blank 0 3 info.fd_blocks (start blank disk sbi), n)
          (ap (mounted 0) (load_three blank disk sbi 3 s fd_bits fds (info.max_file_count - 3)))

  low_byte-AreBytes : (bm : Bytes) (c : ℕ) → ((k : ℕ) → bm k ≡ low_byte c k) → AreBytes bm
  low_byte-AreBytes bm c e k = rw (e k) (ground arith)

  -- a mask of one block, as it was read
  one_page :
      (base len count c : ℕ) (bm : Bytes)
      → ((k : ℕ) → bm k ≡ low_byte c k)
      → ((k : ℕ) → bm k ≡ (if ltb k len then disk base k else 0))
      → len ≤ 512
      → count ≤ 8 * len
      → MaskOk disk base bm len count
  one_page base len count c bm low_eq read h room = record {
    bytes = low_byte-AreBytes bm c low_eq;
    on_disk = λ k l.
        let z : k / 512 + base ≡ base = omega arith in
        let w : k % 512 ≡ k = omega arith in
        let in_mask : ltb k len ≡ true = lt→ltb _ _ l in rw (z, w) (sym (rw in_mask at (read k)));
    room = room;
    small = omega arith;
  }

  three-Fresh : Fresh s (three blank disk sbi s)
  unfolding load_inode load_fd
  three-Fresh =
      let loaded = three-Loaded blank disk sbi s (mounted_datablocks junk size low high).0 in
      let blocks = small.count in
      let files = small.most in
      record {
        used_blocks = λ i.
            check_bit-low_byte sbi.b_bitmask (s + 6) i (b_mask-low_byte junk size low high (i / 8));
        used_fds = fd_bits;
        block_mask =
            one_page 1 sbi.b_bitmask_len info.block_count (s + 6) sbi.b_bitmask
              (b_mask-low_byte junk size low high)
              (λ k. read_mask_one disk sbi.b_bitmask_len 1 zeros k (omega arith)) (omega arith)
              (omega arith);
        fd_mask =
            one_page 2 sbi.fd_bitmask_len info.max_file_count 3 sbi.fd_bitmask
              (fd_mask-low_byte junk size low high)
              (λ k. read_mask_one disk sbi.fd_bitmask_len 2 zeros k (omega arith)) (omega arith)
              (omega arith);
        more = (small.more_blocks, small.more_files);
        one_mask_block = (refl, refl);
        inodes = refl;
        root = loaded.0;
        hello = loaded.1;
        world = loaded.2;
      }

-- Mounting the image that mkfs.ffs makes of a file of zeros, of 12800 bytes to 4096 blocks, succeeds.
-- The blocks marked as taken are those below the number of service blocks plus six, the descriptors
-- marked are the first three, there are more of both, and both masks are in step with the disk, in
-- one block each. The list of inodes holds the root directory and two files, each with number, mode,
-- size, links and datablock of its descriptor. The disk is the image, in blocks of 512 bytes.
pub fill_super-Fresh :
    (junk : Bytes) (size : ℕ) (blank : InodeInfo)
    → 12800 ≤ size
    → size < 512 * 4097
    → (fs : Fs) × (fill_super blank (mkfs junk size zeros) ≡ mounted 0 fs)
      × Fresh (service_blocks (layout size)) fs
      × (fs.disk ≡ blocks_of (mkfs junk size zeros) 512)
unfolding load_inode load_fd
fill_super-Fresh junk size blank low high =
    let s = service_blocks (layout size) in
    let fs = three blank (disk junk size low high blank) (sbi junk size low high blank) s in
    (fs, fill_super-three junk size low high blank, three-Fresh junk size low high blank, refl)
