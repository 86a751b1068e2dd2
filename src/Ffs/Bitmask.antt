-- ===== src/Ffs/Bitmask.antt =====
-- The bit masks of blocks and of file descriptors: the macros of ffs.h, and the functions of ffs.c
-- that take and give back a bit and write the mask's block.
pub mod Bits
pub mod Search
pub mod OnDisk
pub mod Take
pub mod Taken
pub mod Count
pub mod Inodes
use Prim.Native.Nat.{bit_and, bit_or}
use system_sw.Prelude.{
  ℕ, zero, suc, ◌+◌, ◌-◌, ◌*◌, ◌/◌, ◌%◌, ◌^◌, ◌≤◌, ◌<◌, min, ◌≡◌, ◌∙◌, refl, sym, ap, subst, ◌≢◌,
  ◌↔◌, ◌⊎◌, inl, inr, Bool, true, false, not, ◌&&◌, ◌||◌, Option, none, some, List, [], ◌∷◌, ◌++◌,
  map, arith, ltb, leb, ◌==◌, if◌then◌else◌, ltb→lt, lt→ltb, le→not_ltb, le→leb, lt→not_leb,
  Bool-cases, ◌>>=◌, length, length-append,
}
use system_sw.Prelude.Word.{
  wrap, sub32, positive, wrap_small, sub32_small, sub32_neg, positive_small, not_positive_of_neg,
  positive-sub32,
}
use system_sw.Memory.{Bytes, at, copy}
use system_sw.Ffs.{
  block_size, userfiles_offset, Fs, SbInfo, b_bitmask_block, fd_bitmask_block, write_block,
}

-- `BITMASK_PAGE`
abbrev pub bitmask_page : ℕ → ℕ
bitmask_page n = n / 8 / block_size

-- `CHECK_BIT`, `SET_BIT` and `RESET_BIT`
unfoldable pub check_bit : Bytes → ℕ → Bool
check_bit bm n = not (bit_and (bm (n / 8)) (2 ^ (n % 8)) == 0)

pub set_bit : Bytes → ℕ → Bytes
set_bit bm n k = if k == n / 8 then bit_or (bm k) (2 ^ (n % 8)) else bm k

pub reset_bit : Bytes → ℕ → Bytes
reset_bit bm n k = if k == n / 8 then bit_and (bm k) (255 - 2 ^ (n % 8)) else bm k

-- The bytes of a mask's page that are copied to its block: at most a block, and no more than the
-- mask has. The length is unsigned.
pub page_len : ℕ → ℕ → ℕ
page_len len i =
    let l = sub32 len (bitmask_page i * block_size) in if ltb block_size l then block_size else l

-- a mask's page copied over the bytes of its block
pub put_page : Bytes → ℕ → ℕ → Bytes → Bytes
put_page bm len i bytes = copy bytes 0 (at bm (bitmask_page i * block_size)) (page_len len i)

unfoldable pub write_b_bitmask : ℕ → Fs → Fs
write_b_bitmask i fs =
    let b = bitmask_page i + b_bitmask_block fs.sbi in
    record fs {
      disk = write_block fs.disk b (put_page fs.sbi.b_bitmask fs.sbi.b_bitmask_len i (fs.disk b));
    }

unfoldable pub write_fd_bitmask : ℕ → Fs → Fs
write_fd_bitmask i fs =
    let b = bitmask_page i + fd_bitmask_block fs.sbi in
    record fs {
      disk = write_block fs.disk b (put_page fs.sbi.fd_bitmask fs.sbi.fd_bitmask_len i (fs.disk b));
    }

-- the loop `for (i = 0; i < count; i++) if (!CHECK_BIT(bm, i))`, `n` rounds from `i` on
pub first_clear : Bytes → ℕ → ℕ → Option ℕ
first_clear bm i zero = none
first_clear bm i (suc n) =
    let rest = first_clear bm (i + 1) n in if check_bit bm i then rest else some i

-- The result is the number plus one, and 0 where none is left.
pub take_block : Fs → Option ℕ → ℕ × Fs
take_block fs none = (0, fs)
take_block fs (some i) = (
  i + 1,
  write_b_bitmask i (record fs { sbi = record fs.sbi { b_bitmask = set_bit fs.sbi.b_bitmask i } }),
)

pub get_empty_block : Fs → ℕ × Fs
get_empty_block fs = take_block fs (first_clear fs.sbi.b_bitmask 0 fs.sbi.block_count)

pub take_fd : Fs → Option ℕ → ℕ × Fs
take_fd fs none = (0, fs)
take_fd fs (some i) = (
  i + 1,
  write_fd_bitmask i
      (record fs { sbi = record fs.sbi { fd_bitmask = set_bit fs.sbi.fd_bitmask i } }),
)

pub get_empty_fd : Fs → ℕ × Fs
get_empty_fd fs = take_fd fs (first_clear fs.sbi.fd_bitmask 0 fs.sbi.max_file_count)
