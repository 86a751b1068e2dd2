-- ===== src/Ffs/Volume.antt =====
-- A volume whose masks are in step with the disk and whose service blocks are taken.
use system_sw.Prelude.{ℕ, ◌+◌, ◌*◌, ◌/◌, ◌%◌, ◌^◌, ◌≤◌, ◌<◌, ◌≡◌, ◌∙◌, ap, true, arith}
use system_sw.Memory.{Bytes}
use system_sw.Ffs.{Fs, SbInfo, InodeInfo, fd_bitmask_block, fd_list_block}
use system_sw.Ffs.Bitmask.{check_bit}
use system_sw.Ffs.Bitmask.Take.{MaskOk, BlockMaskOk, FdMaskOk}
use system_sw.Ffs.Bitmask.Taken.{BlockTaken, FdTaken}
use system_sw.Ffs.File.Overwrite.{file_block, file_blocks}

-- the first block behind the masks and the descriptors
abbrev pub data_start : SbInfo → ℕ
data_start sbi = fd_list_block sbi + sbi.fd_blocks

-- the parts of the volume have room for what they hold
pub record Layout (sbi : SbInfo) : Type 0 where
  pub b_len : sbi.b_bitmask_len ≤ 512 * sbi.b_bm_blocks
  pub b_bits : sbi.block_count ≤ 4096 * sbi.b_bm_blocks
  pub fd_len : sbi.fd_bitmask_len ≤ 512 * sbi.fd_bm_blocks
  pub fd_bits : sbi.max_file_count ≤ 4096 * sbi.fd_bm_blocks
  pub descriptors : sbi.max_file_count ≤ 32 * sbi.fd_blocks
  pub blocks : sbi.block_count < 2 ^ 31
  pub files : sbi.max_file_count < 2 ^ 31

pub record Volume (fs : Fs) : Type 0 where
  pub layout : Layout fs.sbi
  pub b_mask : BlockMaskOk fs
  pub fd_mask : FdMaskOk fs
  pub service : (k : ℕ) → k < data_start fs.sbi → check_bit fs.sbi.b_bitmask k ≡ true

-- a block behind the service blocks, marked in the mask
abbrev pub Marked : Fs → ℕ → Type 0
Marked fs b = (data_start fs.sbi ≤ b) × (check_bit fs.sbi.b_bitmask b ≡ true)

-- an inode whose datablock and blocks are marked, with a descriptor of the list
pub record Owns (fs : Fs) (i : InodeInfo) : Type 0 where
  pub datablock : Marked fs i.datablock
  pub blocks : (j : ℕ) → j < file_blocks fs i → Marked fs (file_block fs i j)
  pub number : 1 ≤ i.i_ino
  pub listed : i.i_ino ≤ fs.sbi.max_file_count

MaskOk-kept :
    (disk disk' : ℕ → Bytes) (base : ℕ) (bm : Bytes) (len count hi : ℕ)
    → len ≤ 512 * hi
    → ((n : ℕ) → base ≤ n → n < base + hi → disk' n ≡ disk n)
    → MaskOk disk base bm len count
    → MaskOk disk' base bm len count
MaskOk-kept disk disk' base bm len count hi room same ok = record {
  bytes = ok.bytes;
  on_disk = λ k l.
      ap (λ b. b (k % 512)) (same (k / 512 + base) (omega arith) (omega arith)) ∙ ok.on_disk k l;
  room = ok.room;
  small = ok.small;
}

-- What leaves the superblock's state and the blocks of the masks leaves the volume in step.
pub Volume-kept :
    (fs fs' : Fs)
    → fs'.sbi ≡ fs.sbi
    → ((n : ℕ) → n < fd_list_block fs.sbi → fs'.disk n ≡ fs.disk n)
    → Volume fs
    → Volume fs'
Volume-kept fs fs' same disk v = record {
  layout = rw same v.layout;
  b_mask = rw same (
      MaskOk-kept fs.disk fs'.disk 1 _ _ _ fs.sbi.b_bm_blocks v.layout.b_len
        (λ n l h. disk n (omega arith)) v.b_mask);
  fd_mask = rw same (
      MaskOk-kept fs.disk fs'.disk (fd_bitmask_block fs.sbi) _ _ _ fs.sbi.fd_bm_blocks
        v.layout.fd_len (λ n l h. disk n (omega arith)) v.fd_mask);
  service = rw same v.service;
}

-- the layout does not depend on the masks
Layout-masks :
    (sbi : SbInfo) (b f : Bytes)
    → Layout sbi
    → Layout (record sbi { b_bitmask = b; fd_bitmask = f })
Layout-masks sbi b f l = record {
  b_len = l.b_len;
  b_bits = l.b_bits;
  fd_len = l.fd_len;
  fd_bits = l.fd_bits;
  descriptors = l.descriptors;
  blocks = l.blocks;
  files = l.files;
}

-- a descriptor taken
pub FdTaken-Volume : (fs : Fs) (i : ℕ) (fs' : Fs) → FdTaken fs i fs' → Volume fs → Volume fs'
FdTaken-Volume fs i fs' t v =
    let s = t.sbi in
    let below = t.takes.below in
    record {
      layout = rw s (Layout-masks fs.sbi fs.sbi.b_bitmask fs'.sbi.fd_bitmask v.layout);
      b_mask = rw s (
          MaskOk-kept fs.disk fs'.disk 1 _ _ _ fs.sbi.b_bm_blocks v.layout.b_len
            (λ n l h. t.disk n (λ e. absurd (omega arith))) v.b_mask);
      fd_mask = t.mask;
      service = rw s v.service;
    }

-- a block taken
pub BlockTaken-Volume : (fs : Fs) (i : ℕ) (fs' : Fs) → BlockTaken fs i fs' → Volume fs → Volume fs'
BlockTaken-Volume fs i fs' t v =
    let s = t.sbi in
    let below = t.takes.below in
    let room = v.layout.b_bits in
    record {
      layout = rw s (Layout-masks fs.sbi fs'.sbi.b_bitmask fs.sbi.fd_bitmask v.layout);
      b_mask = t.mask;
      fd_mask = rw s (
          MaskOk-kept fs.disk fs'.disk (fd_bitmask_block fs.sbi) _ _ _ fs.sbi.fd_bm_blocks
            v.layout.fd_len (λ n l h. t.disk n (λ e. absurd (omega arith))) v.fd_mask);
      service = rw s (λ k h. t.takes.sets k ∙ (let q = v.service k h in ground (arith, q)));
    }
