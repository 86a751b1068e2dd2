-- ===== src/Ffs/Tests/Mount.antt =====
-- The theorems of Ffs/Mount at a device of 8192 blocks, all of them taken.
use system_sw.Prelude.{◌*◌, min, ◌≡◌, refl, ◌&&◌, arith, ltb, ◌==◌, if◌then◌else◌}
use system_sw.Memory.{Bytes, get32, byte}
use system_sw.Ffs.{Fs}
use system_sw.Ffs.Bitmask.{check_bit}
use system_sw.Ffs.Mount.{
  read_metainfo, blocks_of, load_blocks, MountResult, out_fail, mounted, fill_super,
}
use system_sw.Ffs.Mount.Load.{load_each, load_blocks-load_each}
use system_sw.Ffs.Mount.Lost.{fill_super-lost}
use system_sw.Ffs.Tests.{file, image}

-- the magic, and 8192 blocks of 512 bytes with two blocks of mask; each byte behind is 255
abbrev device : Bytes
device k =
    if ltb k 4
    then byte 0xBA0BAB00 k
    else if k == 5
    then 32
    else if k == 9
    then 2
    else if k == 20
    then 2
    else if ltb k 512
    then 0
    else 255

abbrev fs_of : MountResult → Fs
fs_of out_fail = image
fs_of (mounted r fs) = fs

abbrev taken : Fs
taken = fs_of (fill_super file device)

taken_run : fill_super file device ≡ mounted 0 taken
unfolding fill_super read_metainfo get32 byte
taken_run = refl

fill_super-lost_example :
    check_bit taken.sbi.b_bitmask 5000 ≡ (ltb 5000 4096 && check_bit (blocks_of device 512 1) 5000)
unfolding read_metainfo get32 byte
fill_super-lost_example =
    fill_super-lost file device 0 taken 5000 taken_run (omega arith) (omega arith) (omega arith)
      (omega arith)

load_blocks-load_each_example :
    load_blocks file 0 3 1 0 image ≡ load_each file 0 3 0 (min (32 * 1) 10) image
load_blocks-load_each_example = load_blocks-load_each file 0 3 1 image
