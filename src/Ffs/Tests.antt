-- ===== src/Ffs/Tests.antt =====
-- A small image of the file system, and the theorems of Ffs at it.
mod Ops
mod Mount
mod Dir
mod Create
mod Contents
use system_sw.Prelude.{
  ℕ, ◌+◌, ◌/◌, ◌%◌, ◌≤◌, ◌<◌, ◌≡◌, refl, ◌≢◌, inl, some, [], ◌∷◌, arith, ◌==◌, if◌then◌else◌,
}
use system_sw.Memory.{Bytes}
use system_sw.Ffs.{SbInfo, InodeInfo, Fs, fd_list_block}
use system_sw.Ffs.Bitmask.{get_empty_block, get_empty_fd}
use system_sw.Ffs.Bitmask.Take.{
  BlockMaskOk, FdMaskOk, TookBlock, TookFd, get_empty_block-TookBlock, get_empty_fd-TookFd,
}
use system_sw.Ffs.Inode.{write_inode}
use system_sw.Ffs.Inode.Stored.{stored_fd, write_inode-stored_fd}
use system_sw.Ffs.File.{ReadResult, file_read, read_all}
use system_sw.Ffs.File.Read.{content, ReadRest, file_read-ReadRest}
use system_sw.Ffs.File.Overrun.{file_read_overruns, file_read_ignores_offset}

-- blocks 0 to 11 are taken
abbrev pub b_mask : Bytes
b_mask k = if k == 0 then 0xff else if k == 1 then 0x0f else 0

abbrev pub fd_mask : Bytes
fd_mask k = if k == 0 then 3 else 0

-- the datablock of a file of three blocks, 20, 21 and 22
abbrev pub file_blocks : Bytes
file_blocks k =
    if k == 0 then 3 else if k == 4 then 20 else if k == 8 then 21 else if k == 12 then 22 else 0

abbrev pub disk : ℕ → Bytes
disk n k =
    if n == 1
    then b_mask k
    else if n == 2
    then fd_mask k
    else if n == 9
    then file_blocks k
    else (n + k) % 256

abbrev pub sbi : SbInfo
sbi = record {
  block_count = 40;
  fd_blocks = 1;
  max_file_count = 10;
  b_bm_blocks = 1;
  fd_bm_blocks = 1;
  fd_bitmask_len = 2;
  b_bitmask_len = 5;
  b_bitmask = b_mask;
  fd_bitmask = fd_mask;
}

abbrev pub file : InodeInfo
file = record {
  i_ino = 2;
  i_mode = 0o100644;
  i_size = 1100;
  i_nlink = 1;
  i_blocks = 3;
  fd = record { type = 0; datablock_id = 9; link_count = 1; file_size = 1100 };
  datablock = 9;
}

abbrev pub image : Fs
image = record { disk = disk; sbi = sbi; inode = λ r. file; fresh = 1; inodes = 0 ∷ [] }

write_inode-stored_fd_example :
    let fs' = write_inode 0 image in
    (stored_fd fs' 1 ≡ (image.inode 0).fd)
    × ((j : ℕ) → j ≢ 1 → stored_fd fs' j ≡ stored_fd image j)
    × ((n : ℕ) → n ≢ fd_list_block sbi + 1 / 32 → fs'.disk n ≡ image.disk n)
write_inode-stored_fd_example = write_inode-stored_fd image 0 1 refl (omega arith) (omega arith)

file_read-ReadRest_example :
    (out : ReadResult) × (file_read image 0 (λ k. 0) 2000 512 ≡ some out)
    × ReadRest image file 512 (λ k. 0) out
file_read-ReadRest_example =
    file_read-ReadRest image 0 (λ k. 0) 2000 512 (omega arith) (omega arith) (omega arith)
      (omega arith) (inl refl)

file_read_overruns_example :
    (out : ReadResult) × (file_read image 0 (λ k. 0) 600 0 ≡ some out)
    × (out.already_read ≡ 1024)
    × ((k : ℕ) → 600 ≤ k → k < 1024 → out.buf k ≡ content image file k)
file_read_overruns_example =
    file_read_overruns image 0 (λ k. 0) 600 (omega arith) (omega arith) (omega arith) (omega arith)

file_read_ignores_offset_example :
    (out : ReadResult) × (file_read image 0 (λ k. 0) 10 7 ≡ some out)
    × (out.already_read ≡ 10)
    × (out.offset ≡ 17)
    × ((k : ℕ) → k < 10 → out.buf k ≡ content image file k)
file_read_ignores_offset_example =
    file_read_ignores_offset image 0 (λ k. 0) 10 7 (omega arith) (omega arith) (omega arith)
      (omega arith) (omega arith)
