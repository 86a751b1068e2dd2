-- ===== src/Ffs/Bitmask/Take.antt =====
-- `ffs_get_empty_block` and `ffs_get_empty_fd` take the first clear bit.
use system_sw.Prelude.{
  ℕ, ◌+◌, ◌*◌, ◌/◌, ◌^◌, ◌≤◌, ◌<◌, ◌≡◌, refl, ◌≢◌, ◌⊎◌, inl, inr, true, false, ◌||◌, Option, none,
  some, arith, ◌==◌,
}
use system_sw.Memory.{Bytes}
use system_sw.Ffs.{Fs, b_bitmask_block, fd_bitmask_block}
use system_sw.Ffs.Bitmask.{
  bitmask_page, check_bit, set_bit, write_b_bitmask, write_fd_bitmask, take_block, get_empty_block,
  take_fd, get_empty_fd,
}
use system_sw.Ffs.Bitmask.Bits.{AreBytes, check_bit-set_bit, set_bit-AreBytes, set_bit-other}
use system_sw.Ffs.Bitmask.Search.{FirstClear, first_clear-FirstClear}
use system_sw.Ffs.Bitmask.OnDisk.{OnDisk, written, put_page-OnDisk, put_page-other}

-- a mask of `len` bytes for `count` numbers, whose copy on the disk begins at block `base`
pub record MaskOk (disk : ℕ → Bytes) (base : ℕ) (bm : Bytes) (len count : ℕ) : Type 0 where
  pub bytes : AreBytes bm
  pub on_disk : OnDisk disk base bm len
  pub room : count ≤ 8 * len
  pub small : len < 2 ^ 32

abbrev pub BlockMaskOk : Fs → Type 0
BlockMaskOk fs =
    MaskOk fs.disk (b_bitmask_block fs.sbi) fs.sbi.b_bitmask fs.sbi.b_bitmask_len fs.sbi.block_count

abbrev pub FdMaskOk : Fs → Type 0
FdMaskOk fs =
    MaskOk fs.disk (fd_bitmask_block fs.sbi) fs.sbi.fd_bitmask fs.sbi.fd_bitmask_len
      fs.sbi.max_file_count

-- `i` is the first clear bit below `count` of `bm`, and `bm'` differs from `bm` in that bit alone
pub record TakesFirst (bm bm' : Bytes) (count i : ℕ) : Type 0 where
  pub below : i < count
  pub was_clear : check_bit bm i ≡ false
  pub first : (k : ℕ) → k < i → check_bit bm k ≡ true
  pub sets : (m : ℕ) → check_bit bm' m ≡ (i == m || check_bit bm m)

pub takes_first :
    (bm : Bytes) (count i : ℕ)
    → AreBytes bm
    → FirstClear bm 0 count (some i)
    → TakesFirst bm (set_bit bm i) count i
takes_first bm count i h (lo, hi, clear, below) = record {
  below = hi;
  was_clear = clear;
  first = λ k u. below k (omega arith) u;
  sets = λ m. check_bit-set_bit bm i m (h (i / 8));
}

pub set_bit-MaskOk :
    (disk : ℕ → Bytes) (base : ℕ) (bm : Bytes) (len count i : ℕ)
    → MaskOk disk base bm len count
    → i < count
    → MaskOk (written disk base (set_bit bm i) len i) base (set_bit bm i) len count
set_bit-MaskOk disk base bm len count i ok h = record {
  bytes = set_bit-AreBytes bm i ok.bytes;
  on_disk =
      put_page-OnDisk disk base bm (set_bit bm i) len i ok.on_disk (set_bit-other bm i)
        (let r = ok.room in omega arith) ok.small;
  room = ok.room;
  small = ok.small;
}

-- The run finds no clear bit, answers 0 and changes nothing; or it takes the first one, answers its
-- number plus one, and writes one block.
abbrev pub TookBlock : Fs → ℕ × Fs → Type 0
TookBlock fs (r, fs') =
    ((r ≡ 0)
      × (fs' ≡ fs)
      × ((k : ℕ) → k < fs.sbi.block_count → check_bit fs.sbi.b_bitmask k ≡ true))
    ⊎ ((i : ℕ) × (r ≡ i + 1)
        × TakesFirst fs.sbi.b_bitmask fs'.sbi.b_bitmask fs.sbi.block_count i
        × BlockMaskOk fs'
        × ((n : ℕ) → n ≢ bitmask_page i + 1 → fs'.disk n ≡ fs.disk n))

take_block-TookBlock :
    (fs : Fs) (found : Option ℕ)
    → BlockMaskOk fs
    → FirstClear fs.sbi.b_bitmask 0 fs.sbi.block_count found
    → TookBlock fs (take_block fs found)
unfolding take_block write_b_bitmask
take_block-TookBlock fs none ok h = inl (refl, refl, λ k u. h k (omega arith) u)
take_block-TookBlock fs (some i) ok h = inr (
  i,
  refl,
  takes_first fs.sbi.b_bitmask fs.sbi.block_count i ok.bytes h,
  set_bit-MaskOk fs.disk 1 fs.sbi.b_bitmask fs.sbi.b_bitmask_len fs.sbi.block_count i ok h.1,
  λ n e. put_page-other fs.disk (bitmask_page i + 1) n _ e,
)

-- With the mask of blocks in step with its copy on the disk, `ffs_get_empty_block` takes the first
-- clear bit, returns its number plus one, keeps the mask in step and leaves every block of the disk
-- but the bit's mask block; where no bit below `block_count` is clear it returns 0 and changes
-- nothing.
pub get_empty_block-TookBlock : (fs : Fs) → BlockMaskOk fs → TookBlock fs (get_empty_block fs)
unfolding get_empty_block
get_empty_block-TookBlock fs ok =
    take_block-TookBlock fs _ ok (
      first_clear-FirstClear fs.sbi.b_bitmask 0 fs.sbi.block_count fs.sbi.block_count (omega arith))

abbrev pub TookFd : Fs → ℕ × Fs → Type 0
TookFd fs (r, fs') =
    ((r ≡ 0)
      × (fs' ≡ fs)
      × ((k : ℕ) → k < fs.sbi.max_file_count → check_bit fs.sbi.fd_bitmask k ≡ true))
    ⊎ ((i : ℕ) × (r ≡ i + 1)
        × TakesFirst fs.sbi.fd_bitmask fs'.sbi.fd_bitmask fs.sbi.max_file_count i
        × FdMaskOk fs'
        × ((n : ℕ) → n ≢ bitmask_page i + fd_bitmask_block fs.sbi → fs'.disk n ≡ fs.disk n))

take_fd-TookFd :
    (fs : Fs) (found : Option ℕ)
    → FdMaskOk fs
    → FirstClear fs.sbi.fd_bitmask 0 fs.sbi.max_file_count found
    → TookFd fs (take_fd fs found)
unfolding take_fd write_fd_bitmask
take_fd-TookFd fs none ok h = inl (refl, refl, λ k u. h k (omega arith) u)
take_fd-TookFd fs (some i) ok h = inr (
  i,
  refl,
  takes_first fs.sbi.fd_bitmask fs.sbi.max_file_count i ok.bytes h,
  set_bit-MaskOk fs.disk (fd_bitmask_block fs.sbi) fs.sbi.fd_bitmask fs.sbi.fd_bitmask_len
      fs.sbi.max_file_count i ok h.1,
  λ n e. put_page-other fs.disk (bitmask_page i + fd_bitmask_block fs.sbi) n _ e,
)

-- The same of `ffs_get_empty_fd` and the mask of file descriptors.
pub get_empty_fd-TookFd : (fs : Fs) → FdMaskOk fs → TookFd fs (get_empty_fd fs)
unfolding get_empty_fd
get_empty_fd-TookFd fs ok = take_fd-TookFd fs _ ok (
    first_clear-FirstClear fs.sbi.fd_bitmask 0 fs.sbi.max_file_count fs.sbi.max_file_count
      (omega arith))
