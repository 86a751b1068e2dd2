-- ===== src/Ffs/Bitmask/Taken.antt =====
-- A block or a descriptor that is taken where one is left: the whole state after it.
use system_sw.Prelude.{ℕ, ◌+◌, ◌<◌, ◌≡◌, refl, ◌≢◌, false, Option, none, some, arith}
use system_sw.Memory.{Bytes}
use system_sw.Ffs.{Fs, fd_bitmask_block}
use system_sw.Ffs.Bitmask.{
  bitmask_page, check_bit, take_block, get_empty_block, take_fd, get_empty_fd, write_b_bitmask,
  write_fd_bitmask,
}
use system_sw.Ffs.Bitmask.Search.{FirstClear, first_clear-FirstClear}
use system_sw.Ffs.Bitmask.OnDisk.{put_page-other}
use system_sw.Ffs.Bitmask.Inodes.{SameInodes}
use system_sw.Ffs.Bitmask.Take.{BlockMaskOk, FdMaskOk, TakesFirst, takes_first, set_bit-MaskOk}

-- the state with block `i` taken
pub record BlockTaken (fs : Fs) (i : ℕ) (fs' : Fs) : Type 0 where
  pub takes : TakesFirst fs.sbi.b_bitmask fs'.sbi.b_bitmask fs.sbi.block_count i
  pub mask : BlockMaskOk fs'
  pub disk : (n : ℕ) → n ≢ bitmask_page i + 1 → fs'.disk n ≡ fs.disk n
  pub sbi : fs'.sbi ≡ record fs.sbi { b_bitmask = fs'.sbi.b_bitmask }
  pub inodes : SameInodes fs fs'

-- the state with descriptor `i` taken
pub record FdTaken (fs : Fs) (i : ℕ) (fs' : Fs) : Type 0 where
  pub takes : TakesFirst fs.sbi.fd_bitmask fs'.sbi.fd_bitmask fs.sbi.max_file_count i
  pub mask : FdMaskOk fs'
  pub disk : (n : ℕ) → n ≢ bitmask_page i + fd_bitmask_block fs.sbi → fs'.disk n ≡ fs.disk n
  pub sbi : fs'.sbi ≡ record fs.sbi { fd_bitmask = fs'.sbi.fd_bitmask }
  pub inodes : SameInodes fs fs'

-- the search finds a bit where one is clear
found_one :
    (bm : Bytes) (count m : ℕ) (o : Option ℕ)
    → m < count
    → check_bit bm m ≡ false
    → FirstClear bm 0 count o
    → (i : ℕ) × (o ≡ some i) × FirstClear bm 0 count (some i)
found_one bm count m none h clear none_left =
    absurd (let t = none_left m (omega arith) h in ground (arith, t, clear))
found_one bm count m (some i) h clear first = (i, refl, first)

module _ (fs : Fs) (m : ℕ) where
  pub get_empty_block-BlockTaken :
      BlockMaskOk fs
      → m < fs.sbi.block_count
      → check_bit fs.sbi.b_bitmask m ≡ false
      → (i : ℕ) × (fs' : Fs) × (get_empty_block fs ≡ (i + 1, fs')) × BlockTaken fs i fs'
  unfolding get_empty_block take_block write_b_bitmask
  get_empty_block-BlockTaken ok h clear =
      let sbi = fs.sbi in
      let first =
        first_clear-FirstClear sbi.b_bitmask 0 sbi.block_count sbi.block_count (omega arith) in
      let (i, eq, found) = found_one sbi.b_bitmask sbi.block_count m _ h clear first in
      rw eq (
        i,
        _,
        refl,
        record {
          takes = takes_first sbi.b_bitmask sbi.block_count i ok.bytes found;
          mask =
              set_bit-MaskOk fs.disk 1 sbi.b_bitmask sbi.b_bitmask_len sbi.block_count i ok found.1;
          disk = λ n e. put_page-other fs.disk (bitmask_page i + 1) n _ e;
          sbi = refl;
          inodes = record { store = refl; list = refl; fresh = refl };
        },
      )

  pub get_empty_fd-FdTaken :
      FdMaskOk fs
      → m < fs.sbi.max_file_count
      → check_bit fs.sbi.fd_bitmask m ≡ false
      → (i : ℕ) × (fs' : Fs) × (get_empty_fd fs ≡ (i + 1, fs')) × FdTaken fs i fs'
  unfolding get_empty_fd take_fd write_fd_bitmask
  get_empty_fd-FdTaken ok h clear =
      let sbi = fs.sbi in
      let first =
        first_clear-FirstClear sbi.fd_bitmask 0 sbi.max_file_count sbi.max_file_count
          (omega arith) in
      let (i, eq, found) = found_one sbi.fd_bitmask sbi.max_file_count m _ h clear first in
      rw eq (
        i,
        _,
        refl,
        record {
          takes = takes_first sbi.fd_bitmask sbi.max_file_count i ok.bytes found;
          mask =
              set_bit-MaskOk fs.disk (fd_bitmask_block sbi) sbi.fd_bitmask sbi.fd_bitmask_len
                sbi.max_file_count i ok found.1;
          disk = λ n e. put_page-other fs.disk (bitmask_page i + fd_bitmask_block sbi) n _ e;
          sbi = refl;
          inodes = record { store = refl; list = refl; fresh = refl };
        },
      )
