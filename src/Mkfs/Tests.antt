-- ===== src/Mkfs/Tests.antt =====
-- The theorems of Mkfs at an image of 12800 bytes.
use system_sw.Prelude.{
  ℕ, ◌+◌, ◌*◌, ◌%◌, ◌≤◌, ◌<◌, ◌≡◌, refl, ◌≢◌, ◌⊎◌, ◌||◌, none, some, [], ◌∷◌, arith, leb, ◌==◌,
}
use system_sw.Memory.{Bytes, copy}
use system_sw.Ffs.{InodeInfo, Fs}
use system_sw.Ffs.File.{ReadResult, file_read}
use system_sw.Ffs.Dir.{str_bytes, negative, attached, lookup}
use system_sw.Ffs.Dir.Names.{nul_free}
use system_sw.Ffs.Mount.{blocks_of, mounted, fill_super}
use system_sw.Mkfs.{
  layout, service_blocks, bitmap_loop, write_masks, write_fds, write_datablock, write_datablocks,
  hello_txt, world_txt, write_contents, mkfs, no_file, block_device, file_size, mkfs_main,
}
use system_sw.Mkfs.Readback.{zeros}
use system_sw.Mkfs.Fresh.{Fresh, fill_super-Fresh}
use system_sw.Mkfs.Contents.{lookup-mkfs, file_read-mkfs}
use system_sw.Mkfs.Layout.{layout-fits}

abbrev blank : InodeInfo
blank = record {
  i_ino = 0;
  i_mode = 0;
  i_size = 0;
  i_nlink = 1;
  i_blocks = 0;
  fd = record { type = 0; datablock_id = 0; link_count = 0; file_size = 0 };
  datablock = 0;
}

abbrev image : Bytes
image = mkfs (λ k. 7) 12800 zeros

fill_super-Fresh_example :
    (fs : Fs) × (fill_super blank image ≡ mounted 0 fs)
    × Fresh (service_blocks (layout 12800)) fs
    × (fs.disk ≡ blocks_of image 512)
fill_super-Fresh_example = fill_super-Fresh (λ k. 7) 12800 blank (omega arith) (omega arith)

abbrev mounted_fs : Fs
mounted_fs = (fill_super-Fresh (λ k. 7) 12800 blank (omega arith) (omega arith)).0

mounted_run : fill_super blank image ≡ mounted 0 mounted_fs
mounted_run = (fill_super-Fresh (λ k. 7) 12800 blank (omega arith) (omega arith)).1

lookup-mkfs_example :
    ((hello_txt ≡ hello_txt) × (lookup mounted_fs 0 hello_txt ≡ some (attached 1)))
    ⊎ (((hello_txt ≡ world_txt) × (lookup mounted_fs 0 hello_txt ≡ some (attached 2)))
        ⊎ ((hello_txt ≢ hello_txt)
            × (hello_txt ≢ world_txt)
            × (lookup mounted_fs 0 hello_txt ≡ some negative)))
unfolding nul_free
lookup-mkfs_example =
    lookup-mkfs (λ k. 7) 12800 blank mounted_fs hello_txt (omega arith) (omega arith) mounted_run
      refl

file_read-mkfs_example :
    ((out : ReadResult) × (file_read mounted_fs 1 zeros 3 0 ≡ some out)
      × (out.already_read ≡ 3)
      × ((k : ℕ) → k < 3 → out.buf k ≡ str_bytes (52 ∷ 50 ∷ 10 ∷ []) k))
    × ((out : ReadResult) × (file_read mounted_fs 2 zeros 4 0 ≡ some out)
        × (out.already_read ≡ 4)
        × ((k : ℕ) → k < 4 → out.buf k ≡ str_bytes (98 ∷ 108 ∷ 97 ∷ 10 ∷ []) k))
file_read-mkfs_example =
    file_read-mkfs (λ k. 7) 12800 blank mounted_fs zeros (omega arith) (omega arith) mounted_run

layout-fits_example :
    let info = layout 12800 in
    (info.max_file_count ≤ 4096 * info.fd_bm_blocks)
    × (info.max_file_count ≤ 32 * info.fd_blocks)
    × (32 * info.fd_blocks < info.max_file_count + 32)
    × (leb info.block_count (4096 * info.b_bm_blocks)
        ≡ (info.block_count % 4096 == 0 || leb 8 (info.block_count % 4096)))
layout-fits_example = layout-fits 12800 (omega arith)

-- the masks of an image of 12800 bytes, as they are written: ten blocks and three descriptors
masks : (image 512 ≡ 255) × (image 513 ≡ 3) × (image 514 ≡ 0) × (image 1024 ≡ 7)
unfolding mkfs layout service_blocks write_masks bitmap_loop write_fds write_datablocks
    write_datablock write_contents copy
masks = (refl, refl, refl, refl)

-- a run of the program on a block device, on a file that is not there or without an argument ends
-- with -1
no_image :
    (mkfs_main zeros (some block_device) zeros ≡ none)
    × (mkfs_main zeros (some no_file) zeros ≡ none)
    × (mkfs_main zeros none zeros ≡ none)
unfolding mkfs_main file_size
no_image = (refl, refl, refl)
