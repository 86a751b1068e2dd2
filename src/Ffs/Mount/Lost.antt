-- ===== src/Ffs/Mount/Lost.antt =====
-- Taken blocks that a mount does not see.
use system_sw.Prelude.{
  ℕ, ◌+◌, ◌/◌, ◌^◌, ◌≤◌, ◌<◌, ◌≡◌, ◌∙◌, refl, sym, ap, inl, inr, ◌&&◌, arith, ltb, ◌==◌, Bool-cases,
}
use system_sw.Prelude.Word.{wrap, wrap_small}
use system_sw.Memory.{Bytes}
use system_sw.Ffs.{SbInfo, InodeInfo, Fs}
use system_sw.Ffs.Bitmask.{check_bit}
use system_sw.Ffs.Bitmask.Bits.{check_bit-cut}
use system_sw.Ffs.Mount.{
  ffs_magic, read_metainfo, blocks_of, read_mask, read_root, MountResult, out_fail, mounted,
  fill_super,
}
use system_sw.Ffs.Mount.Mask.{read_mask_first}
use system_sw.Ffs.Mount.Load.{load_blocks-sbi}

-- the mask of blocks after a mount
abbrev mask_of : Bytes → Bytes
mask_of device =
    let info = read_metainfo (blocks_of device 512 0) in
    read_mask (blocks_of device info.block_size) (wrap (info.block_count + 7) / 8) info.b_bm_blocks
      1 0 (λ k. 0)

-- the mask of a mounted file system, and that of one that is not
abbrev mask_in : Bytes → MountResult → Bytes
mask_in other out_fail = other
mask_in other (mounted r fs) = fs.sbi.b_bitmask

fill_super-mask :
    (blank : InodeInfo) (device : Bytes)
    → mask_in (mask_of device) (fill_super blank device) ≡ mask_of device
unfolding fill_super read_root
fill_super-mask blank device =
    elim (Bool-cases ((read_metainfo (blocks_of device 512 0)).magic == ffs_magic)) [
      | inl e ↦ rw e (ap SbInfo.b_bitmask (load_blocks-sbi blank 0 _ _ _))
      | inr e ↦ rw e refl
    ]

-- A file system of 4096 blocks or more (whose number, rounded up, is a word, and whose mask has less
-- than 2 ^ 20 blocks) is mounted with the first 4096 bits of its mask of blocks as they are on the
-- disk, and with every later block marked as free, whatever the disk says.
pub fill_super-lost :
    (blank : InodeInfo) (device : Bytes) (r : ℕ) (fs : Fs) (i : ℕ)
    → let info = read_metainfo (blocks_of device 512 0) in
      fill_super blank device ≡ mounted r fs
      → 4096 ≤ info.block_count
      → info.block_count + 7 < 2 ^ 32
      → 0 < info.b_bm_blocks
      → info.b_bm_blocks < 2 ^ 20
      → check_bit fs.sbi.b_bitmask i
        ≡ (ltb i 4096 && check_bit (blocks_of device info.block_size 1) i)
fill_super-lost blank device r fs i e many word some_blocks few =
    let info = read_metainfo (blocks_of device 512 0) in
    let mask : fs.sbi.b_bitmask ≡ mask_of device =
      ap (mask_in (mask_of device)) (sym e) ∙ fill_super-mask blank device in
    let w : wrap (info.block_count + 7) ≡ info.block_count + 7 = wrap_small _ word in
    rw mask (
      check_bit-cut (mask_of device) (blocks_of device info.block_size 1) 512 i (
        rw w (
          read_mask_first (blocks_of device info.block_size) ((info.block_count + 7) / 8)
            info.b_bm_blocks 1 (λ k. 0) (i / 8) (omega arith) some_blocks (omega arith))))
