-- ===== src/Mkfs/Layout.antt =====
-- Whether the layout of mkfs.ffs has room for what it describes.
use system_sw.Prelude.{ℕ, ◌+◌, ◌*◌, ◌%◌, ◌^◌, ◌≤◌, ◌<◌, ◌≡◌, ◌||◌, arith, leb, ◌==◌}
use system_sw.Mkfs.{layout}

-- For a size of 32 bits: the mask of descriptors has a bit for each file, the list of descriptors a
-- place for each file and less than a block more; and the mask of blocks has a bit for each block
-- unless the number of blocks is 1 to 7 more than a multiple of 4096, when it does not.
pub layout-fits :
    (size : ℕ)
    → size < 2 ^ 32
    → let info = layout size in
      (info.max_file_count ≤ 4096 * info.fd_bm_blocks)
      × (info.max_file_count ≤ 32 * info.fd_blocks)
      × (32 * info.fd_blocks < info.max_file_count + 32)
      × (leb info.block_count (4096 * info.b_bm_blocks)
          ≡ (info.block_count % 4096 == 0 || leb 8 (info.block_count % 4096)))
unfolding layout
layout-fits size h = (omega arith, omega arith, omega arith, ground arith)
