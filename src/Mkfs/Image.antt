-- ===== src/Mkfs/Image.antt =====
-- The image that mkfs.ffs leaves, part by part.
use system_sw.Prelude.{
  ℕ, ◌+◌, ◌-◌, ◌*◌, ◌/◌, ◌^◌, ◌≤◌, ◌<◌, ◌≡◌, ◌∙◌, refl, sym, ap, inr, false, ◌&&◌, [], ◌∷◌, arith,
  ltb, leb, ◌==◌, if◌then◌else◌,
}
use system_sw.Memory.{Bytes, copy, byte, copy_inside, copy_outside}
use system_sw.Ffs.{ffs_dir, ffs_reg}
use system_sw.Ffs.Inode.{fd_bytes}
use system_sw.Ffs.Dir.{str_bytes}
use system_sw.Ffs.Mount.{MetaInfo}
use system_sw.Mkfs.{
  File, layout, service_blocks, metainfo_bytes, write_masks, new_fd, write_fds, write_datablocks,
  hello_txt, world_txt, set_entry, mkfs,
}
use system_sw.Mkfs.Layers.{
  mask_byte, write_masks_lem, write_fds_frame, write_fds_lem, write_datablocks_frame,
  write_datablocks_lem, write_contents_frame, write_entries_lem, write_texts_lem,
}

-- the layout of an image of 12800 bytes or more: no part is empty, the mask of blocks has room for
-- the bits that are set, and the blocks that are used lie in the image
pub record RoomFor (info : MetaInfo) : Type 0 where
  pub b_bm : 1 ≤ info.b_bm_blocks
  pub fd_bm : 1 ≤ info.fd_bm_blocks
  pub fds : 1 ≤ info.fd_blocks
  pub files : 3 ≤ info.max_file_count
  pub bits : (service_blocks info + 6 + 7) / 8 ≤ 512 * info.b_bm_blocks
  pub blocks : service_blocks info + 6 ≤ info.block_count

pub layout-RoomFor : (size : ℕ) → 12800 ≤ size → size < 2 ^ 32 → RoomFor (layout size)
unfolding layout service_blocks
layout-RoomFor size h l = record {
  b_bm = omega arith;
  fd_bm = omega arith;
  fds = omega arith;
  files = omega arith;
  bits = omega arith;
  blocks = omega arith;
}

sum_lem :
    (info : MetaInfo)
    → service_blocks info ≡ 1 + info.b_bm_blocks + info.fd_bm_blocks + info.fd_blocks
unfolding service_blocks
sum_lem info = refl

module _ (junk : Bytes) (size : ℕ) (image : Bytes) (room : RoomFor (layout size)) where
  abbrev info : MetaInfo
  info = layout size

  abbrev s : ℕ
  s = service_blocks info

  abbrev f0 : File
  f0 = record { bytes = image; pos = 0 }

  -- below the first datablock the image is what the masks and descriptors are
  before_data :
      (i : ℕ)
      → i < 512 * s
      → mkfs junk size image i ≡ (write_fds info (write_masks info f0)).bytes i
  unfolding mkfs
  before_data i h = write_contents_frame s _ junk i (omega arith) ∙ write_datablocks_frame s _ i h

  before_fds :
      (i : ℕ)
      → i < 512 * (1 + info.b_bm_blocks + info.fd_bm_blocks)
      → mkfs junk size image i ≡ (write_masks info f0).bytes i
  before_fds i h = before_data i (omega (arith, h, sum_lem info)) ∙ write_fds_frame info _ i h

  pub mkfs-metainfo : (k : ℕ) → k < 28 → mkfs junk size image k ≡ metainfo_bytes info k
  mkfs-metainfo k h =
      let b = room.b_bm in
      let z : 0 + k ≡ k = omega arith in
      let other : (k == 512 * (1 + info.b_bm_blocks)) ≡ false = ground arith in
      let low : (leb 512 k && ltb k (512 + (s + 6 + 7) / 8)) ≡ false = ground arith in
      before_fds k (omega arith)
      ∙ write_masks_lem info f0 k
      ∙ rw (other, low)
          (ap (copy image 0 (metainfo_bytes info) 28) (sym z)
            ∙ copy_inside image 0 (metainfo_bytes info) 28 k h)

  pub mkfs-b_bitmask :
      (k : ℕ)
      → k < 512 * info.b_bm_blocks
      → mkfs junk size image (512 + k)
        ≡ (if ltb k ((s + 6 + 7) / 8) then mask_byte (s + 6) k else image (512 + k))
  mkfs-b_bitmask k h =
      let other : (512 + k == 512 * (1 + info.b_bm_blocks)) ≡ false = ground arith in
      let e : (leb 512 (512 + k) && ltb (512 + k) (512 + (s + 6 + 7) / 8))
          ≡ ltb k ((s + 6 + 7) / 8) =
        ground arith in
      let d : 512 + k - 512 ≡ k = omega arith in
      before_fds (512 + k) (omega arith)
      ∙ write_masks_lem info f0 (512 + k)
      ∙ rw
          (other, e, d, copy_outside image 0 (metainfo_bytes info) 28 (512 + k) (inr (omega arith)))
          refl

  pub mkfs-fd_bitmask :
      (k : ℕ)
      → k < 512 * info.fd_bm_blocks
      → let i = 512 * (1 + info.b_bm_blocks) + k in
        mkfs junk size image i ≡ (if k == 0 then 7 else image i)
  mkfs-fd_bitmask k h =
      let i = 512 * (1 + info.b_bm_blocks) + k in
      let b = room.bits in
      let e : (i == 512 * (1 + info.b_bm_blocks)) ≡ (k == 0) = ground arith in
      let out : (leb 512 i && ltb i (512 + (s + 6 + 7) / 8)) ≡ false = ground arith in
      before_fds i (omega arith)
      ∙ write_masks_lem info f0 i
      ∙ rw (e, out, copy_outside image 0 (metainfo_bytes info) 28 i (inr (omega arith))) refl

  pub mkfs-fds :
      (k : ℕ)
      → k < 16
      → let p = 512 * (1 + info.b_bm_blocks + info.fd_bm_blocks) in
        let m = mkfs junk size image in
        (m (p + k) ≡ fd_bytes (new_fd ffs_dir s 32) k)
        × (m (p + 16 + k) ≡ fd_bytes (new_fd ffs_reg (s + 1) 3) k)
        × (m (p + 32 + k) ≡ fd_bytes (new_fd ffs_reg (s + 2) 4) k)
  mkfs-fds k h =
      let f = room.fds in
      let p = 512 * (1 + info.b_bm_blocks + info.fd_bm_blocks) in
      let l = write_fds_lem info (write_masks info f0) k h in
      (
        before_data (p + k) (omega (arith, sum_lem info)) ∙ l.0,
        before_data (p + 16 + k) (omega (arith, sum_lem info)) ∙ l.1,
        before_data (p + 32 + k) (omega (arith, sum_lem info)) ∙ l.2,
      )

  before_contents :
      (i : ℕ)
      → i < 512 * (s + 3)
      → mkfs junk size image i ≡ (write_datablocks s (write_fds info (write_masks info f0))).bytes i
  unfolding mkfs
  before_contents i h = write_contents_frame s _ junk i h

  pub mkfs-datablocks :
      (k : ℕ)
      → k < 4
      → let m = mkfs junk size image in
        ((m (512 * s + k) ≡ byte 1 k) × (m (512 * s + 4 + k) ≡ byte (s + 3) k))
        × ((m (512 * (s + 1) + k) ≡ byte 1 k) × (m (512 * (s + 1) + 4 + k) ≡ byte (s + 4) k))
        × ((m (512 * (s + 2) + k) ≡ byte 1 k) × (m (512 * (s + 2) + 4 + k) ≡ byte (s + 5) k))
  mkfs-datablocks k h =
      let l = write_datablocks_lem s (write_fds info (write_masks info f0)) k h in
      (
        (
          before_contents (512 * s + k) (omega arith) ∙ l.0.0,
          before_contents (512 * s + 4 + k) (omega arith) ∙ l.0.1,
        ),
        (
          before_contents (512 * (s + 1) + k) (omega arith) ∙ l.1.0,
          before_contents (512 * (s + 1) + 4 + k) (omega arith) ∙ l.1.1,
        ),
        (
          before_contents (512 * (s + 2) + k) (omega arith) ∙ l.2.0,
          before_contents (512 * (s + 2) + 4 + k) (omega arith) ∙ l.2.1,
        ),
      )

  pub mkfs-entries :
      (k : ℕ)
      → k < 16
      → let e = set_entry junk 2 hello_txt in
        let m = mkfs junk size image in
        (m (512 * (s + 3) + k) ≡ e k) × (m (512 * (s + 3) + 16 + k) ≡ set_entry e 3 world_txt k)
  unfolding mkfs
  mkfs-entries k h = write_entries_lem s _ junk k h

  pub mkfs-texts :
      let m = mkfs junk size image in
      ((k : ℕ) → k < 3 → m (512 * (s + 4) + k) ≡ str_bytes (52 ∷ 50 ∷ 10 ∷ []) k)
      × ((k : ℕ) → k < 4 → m (512 * (s + 5) + k) ≡ str_bytes (98 ∷ 108 ∷ 97 ∷ 10 ∷ []) k)
  unfolding mkfs
  mkfs-texts = write_texts_lem s _ junk
