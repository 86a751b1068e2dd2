-- ===== src/Mkfs/Readback.antt =====
-- What `ffs_fill_super` reads in an image that mkfs.ffs made of a file of zeros.
use system_sw.Prelude.{
  ℕ, ◌+◌, ◌*◌, ◌/◌, ◌%◌, ◌^◌, ◌≤◌, ◌<◌, ◌≡◌, ◌∙◌, refl, sym, ap, inl, inr, false, arith, ltb, leb,
  ◌==◌, if◌then◌else◌, Bool-cases,
}
use system_sw.Memory.{Bytes, at, get32, get32-byte, get32-bytes}
use system_sw.Ffs.{ffs_dir, ffs_reg}
use system_sw.Ffs.Bitmask.Bits.{low_byte}
use system_sw.Ffs.Inode.{read_fd}
use system_sw.Ffs.Inode.Stored.{Words, read_fd_lem}
use system_sw.Ffs.Mount.{ffs_magic, MetaInfo, read_metainfo, blocks_of, read_mask}
use system_sw.Ffs.Mount.Mask.{read_mask_one}
use system_sw.Mkfs.{layout, service_blocks, metainfo_bytes, new_fd, mkfs}
use system_sw.Mkfs.Layers.{mask_byte}
use system_sw.Mkfs.Image.{
  RoomFor, layout-RoomFor, mkfs-metainfo, mkfs-b_bitmask, mkfs-fd_bitmask, mkfs-fds,
  mkfs-datablocks,
}

abbrev pub zeros : Bytes
zeros k = 0

-- the layout of an image whose masks take one block each: up to 4096 blocks
pub record Small (info : MetaInfo) : Type 0 where
  pub magic : info.magic ≡ ffs_magic
  pub block_size : info.block_size ≡ 512
  pub b_bm : info.b_bm_blocks ≡ 1
  pub fd_bm : info.fd_bm_blocks ≡ 1
  pub count : info.block_count ≤ 4096
  pub files : info.max_file_count ≤ 32 * info.fd_blocks
  pub most : info.max_file_count ≤ 4096
  pub service : service_blocks info ≤ 24
  pub more_blocks : service_blocks info + 6 < info.block_count
  pub more_files : 3 < info.max_file_count

pub layout-Small : (size : ℕ) → 12800 ≤ size → size < 512 * 4097 → Small (layout size)
unfolding layout service_blocks
layout-Small size h l = record {
  magic = refl;
  block_size = refl;
  b_bm = omega arith;
  fd_bm = omega arith;
  count = omega arith;
  files = omega arith;
  most = omega arith;
  service = omega arith;
  more_blocks = omega arith;
  more_files = omega arith;
}

record InWords (info : MetaInfo) : Type 0 where
  magic : info.magic < 2 ^ 32
  block_count : info.block_count < 2 ^ 32
  block_size : info.block_size < 2 ^ 32
  fd_blocks : info.fd_blocks < 2 ^ 32
  max_file_count : info.max_file_count < 2 ^ 32
  b_bm_blocks : info.b_bm_blocks < 2 ^ 32
  fd_bm_blocks : info.fd_bm_blocks < 2 ^ 32

layout-InWords : (size : ℕ) → size < 2 ^ 32 → InWords (layout size)
unfolding layout
layout-InWords size h = record {
  magic = omega arith;
  block_count = omega arith;
  block_size = omega arith;
  fd_blocks = omega arith;
  max_file_count = omega arith;
  b_bm_blocks = omega arith;
  fd_bm_blocks = omega arith;
}

-- the metainfo of bytes that begin with it
read_metainfo_lem :
    (info : MetaInfo) (b : Bytes)
    → InWords info
    → ((k : ℕ) → k < 28 → b k ≡ metainfo_bytes info k)
    → read_metainfo b ≡ info
unfolding metainfo_bytes read_metainfo
read_metainfo_lem info b w e =
    rw
      (
        get32-bytes b 0 info.magic w.magic (e 0 (omega arith)) (e 1 (omega arith))
            (e 2 (omega arith)) (e 3 (omega arith)),
        get32-bytes b 4 info.block_count w.block_count (e 4 (omega arith)) (e 5 (omega arith))
            (e 6 (omega arith)) (e 7 (omega arith)),
        get32-bytes b 8 info.block_size w.block_size (e 8 (omega arith)) (e 9 (omega arith))
            (e 10 (omega arith)) (e 11 (omega arith)),
        get32-bytes b 12 info.fd_blocks w.fd_blocks (e 12 (omega arith)) (e 13 (omega arith))
            (e 14 (omega arith)) (e 15 (omega arith)),
        get32-bytes b 16 info.max_file_count w.max_file_count (e 16 (omega arith))
            (e 17 (omega arith)) (e 18 (omega arith)) (e 19 (omega arith)),
        get32-bytes b 20 info.b_bm_blocks w.b_bm_blocks (e 20 (omega arith)) (e 21 (omega arith))
            (e 22 (omega arith)) (e 23 (omega arith)),
        get32-bytes b 24 info.fd_bm_blocks w.fd_bm_blocks (e 24 (omega arith)) (e 25 (omega arith))
            (e 26 (omega arith)) (e 27 (omega arith)),
      )
      refl

-- the bits of a mask that was written over zeros, as far as it is read
mask_low :
    (c len k : ℕ)
    → c ≤ 8 * len
    → (if ltb k len then (if ltb k ((c + 7) / 8) then mask_byte c k else 0) else 0) ≡ low_byte c k
mask_low c len k h = elim (Bool-cases (c % 8 == 0)) [
  | inl e ↦ let z : c % 8 ≡ 0 = ground arith in rw z (ground arith)
  | inr e ↦ let big : leb 32 (c % 8) ≡ false = ground arith in rw big (ground arith)
]

module _ (junk : Bytes) (size : ℕ) (low : 12800 ≤ size) (high : size < 512 * 4097) where
  abbrev pub info : MetaInfo
  info = layout size

  abbrev pub s : ℕ
  s = service_blocks info

  abbrev pub device : Bytes
  device = mkfs junk size zeros

  -- the blocks, in the size that the metainfo gives
  abbrev pub disk : ℕ → Bytes
  disk = blocks_of device 512

  small : Small info
  small = layout-Small size low high

  room : RoomFor info
  room = layout-RoomFor size low (omega (arith, high))

  pub mounted_metainfo : read_metainfo (blocks_of device 512 0) ≡ info
  mounted_metainfo =
      read_metainfo_lem info (blocks_of device 512 0) (layout-InWords size (omega (arith, high)))
        (λ k h.
          let z : 0 + k ≡ k = omega arith in ap device z ∙ mkfs-metainfo junk size zeros room k h)

  -- the two masks as they are read, in a zeroed buffer
  abbrev pub b_mask : Bytes
  b_mask = read_mask disk ((info.block_count + 7) / 8) 1 1 0 zeros

  abbrev pub fd_mask : Bytes
  fd_mask = read_mask disk ((info.max_file_count + 7) / 8) 1 2 0 zeros

  pub b_mask-low_byte : (k : ℕ) → b_mask k ≡ low_byte (s + 6) k
  b_mask-low_byte k =
      let len = (info.block_count + 7) / 8 in
      read_mask_one disk len 1 zeros k (let c = small.count in omega arith)
      ∙ on_disk len k (let c = small.count in omega arith)
      ∙ mask_low (s + 6) len k (let b = room.blocks in omega arith)
    where
      on_disk :
          (len k : ℕ)
          → len ≤ 512
          → (if ltb k len then disk 1 k else 0) ≡ (
              if ltb k len then (if ltb k ((s + 6 + 7) / 8) then mask_byte (s + 6) k else 0) else 0)
      on_disk len k h = elim (Bool-cases (ltb k len)) [
        | inl e ↦ let b = small.b_bm in rw e (mkfs-b_bitmask junk size zeros room k (ground arith))
        | inr e ↦ rw e refl
      ]

  pub fd_mask-low_byte : (k : ℕ) → fd_mask k ≡ low_byte 3 k
  fd_mask-low_byte k =
      let len = (info.max_file_count + 7) / 8 in
      let b = small.b_bm in
      let d = small.fd_bm in
      let f = room.files in
      let there : 512 * (1 + info.b_bm_blocks) + k ≡ 512 * 2 + k = omega arith in
      read_mask_one disk len 2 zeros k (let c = small.most in omega arith)
      ∙ elim (Bool-cases (ltb k len)) [
        | inl e ↦
            let byte : disk 2 k ≡ (if k == 0 then 7 else 0) =
              ap device (sym there)
              ∙ mkfs-fd_bitmask junk size zeros room k (let c = small.most in ground arith) in
            rw (e, byte) (ground arith)
        | inr e ↦ rw e (ground arith)
      ]

  new_fd-Words : (type b n : ℕ) → type < 2 → b ≤ 30 → n ≤ 32 → Words (new_fd type b n)
  new_fd-Words type b n t h l = record {
    type = omega arith;
    datablock_id = omega arith;
    link_count = omega arith;
    file_size = omega arith;
  }

  -- the three descriptors, in block 3
  pub mounted_fds :
      (read_fd (at (disk 3) 0) ≡ new_fd ffs_dir s 32)
      × (read_fd (at (disk 3) 16) ≡ new_fd ffs_reg (s + 1) 3)
      × (read_fd (at (disk 3) 32) ≡ new_fd ffs_reg (s + 2) 4)
  mounted_fds =
      let m = small.service in
      (
        read_fd_lem (at (disk 3) 0) (new_fd ffs_dir s 32)
            (new_fd-Words 1 s 32 (omega arith) (omega arith) (omega arith))
            (λ k h. ap device (at_start k) ∙ (mkfs-fds junk size zeros room k h).0),
        read_fd_lem (at (disk 3) 16) (new_fd ffs_reg (s + 1) 3)
            (new_fd-Words 0 (s + 1) 3 (omega arith) (omega arith) (omega arith))
            (λ k h. ap device (place 16 k) ∙ (mkfs-fds junk size zeros room k h).1),
        read_fd_lem (at (disk 3) 32) (new_fd ffs_reg (s + 2) 4)
            (new_fd-Words 0 (s + 2) 4 (omega arith) (omega arith) (omega arith))
            (λ k h. ap device (place 32 k) ∙ (mkfs-fds junk size zeros room k h).2),
      )
    where
      place :
          (o k : ℕ) → 512 * 3 + (o + k) ≡ 512 * (1 + info.b_bm_blocks + info.fd_bm_blocks) + o + k
      place o k = let b = small.b_bm in let d = small.fd_bm in omega arith

      at_start : (k : ℕ) → 512 * 3 + (0 + k) ≡ 512 * (1 + info.b_bm_blocks + info.fd_bm_blocks) + k
      at_start k = let b = small.b_bm in let d = small.fd_bm in omega arith

  -- the datablocks: one block each
  pub mounted_datablocks :
      (get32 (disk s) 0 ≡ 1)
      × (get32 (disk s) 4 ≡ s + 3)
      × (get32 (disk (s + 1)) 4 ≡ s + 4)
      × (get32 (disk (s + 2)) 4 ≡ s + 5)
  mounted_datablocks =
      let m = small.service in
      (
        get32-byte (disk s) 0 1 (omega arith) (λ k h.
            let z : 0 + k ≡ k = omega arith in
            ap (disk s) z ∙ (mkfs-datablocks junk size zeros room k h).0.0),
        get32-byte (disk s) 4 (s + 3) (omega arith)
            (λ k h. ap device (place s k) ∙ (mkfs-datablocks junk size zeros room k h).0.1),
        get32-byte (disk (s + 1)) 4 (s + 4) (omega arith)
            (λ k h. ap device (place (s + 1) k) ∙ (mkfs-datablocks junk size zeros room k h).1.1),
        get32-byte (disk (s + 2)) 4 (s + 5) (omega arith)
            (λ k h. ap device (place (s + 2) k) ∙ (mkfs-datablocks junk size zeros room k h).2.1),
      )
    where
      place : (b k : ℕ) → 512 * b + (4 + k) ≡ 512 * b + 4 + k
      place b k = omega arith

  pub mounted_count : get32 (disk (s + 1)) 0 ≡ 1
  mounted_count = get32-byte (disk (s + 1)) 0 1 (omega arith) (λ k h.
      let z : 0 + k ≡ k = omega arith in
      ap (disk (s + 1)) z ∙ (mkfs-datablocks junk size zeros room k h).1.0)

  pub service_four : 4 ≤ s
  unfolding service_blocks
  service_four = let r = room.fds in let b = room.b_bm in let d = room.fd_bm in omega arith
