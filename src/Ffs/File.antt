-- ===== src/Ffs/File.antt =====
-- `file_write` and `file_read` of fs/ffs.c. The datablock of a file holds the number of its blocks
-- and then their numbers, a word each. A loop takes fuel, and `none` means
-- that it ran out, or that a buffer's end was passed or no block was found.
pub mod Read
pub mod Overrun
pub mod Total
pub mod Blocks
pub mod Overwrite
pub mod Done
pub mod ReadBack
pub mod Words
pub mod Append
pub mod Grow
pub mod GrowWrite
pub mod GrowLoop
pub mod Grown
use system_sw.Prelude.{
  ℕ, zero, suc, ◌+◌, ◌-◌, ◌*◌, ◌/◌, ◌%◌, ◌^◌, ◌≤◌, ◌<◌, min, ◌≡◌, ◌∙◌, refl, sym, ap, subst, ◌≢◌,
  ◌↔◌, ◌⊎◌, inl, inr, Bool, true, false, not, ◌&&◌, ◌||◌, Option, none, some, List, [], ◌∷◌, ◌++◌,
  map, arith, ltb, leb, ◌==◌, if◌then◌else◌, ltb→lt, lt→ltb, le→not_ltb, le→leb, lt→not_leb,
  Bool-cases, ◌>>=◌, length, length-append,
}
use system_sw.Prelude.Word.{
  wrap, sub32, positive, wrap_small, sub32_small, sub32_neg, positive_small, not_positive_of_neg,
  positive-sub32,
}
use system_sw.Memory.{Bytes, at, copy, byte, get32}
use system_sw.Ffs.{block_size, Fd, InodeInfo, Fs, write_block, write_object}
use system_sw.Ffs.Bitmask.{get_empty_block}
use system_sw.Ffs.Inode.{write_inode}

-- a word of a block, and the block with it replaced
abbrev pub word : Bytes → ℕ → ℕ
word b i = get32 b (4 * i)

pub put_word : Bytes → ℕ → ℕ → Bytes
put_word b i v = copy b (4 * i) (byte v) 4

-- what `file_read` returns, with `*offset` and the buffer after it
pub record ReadResult : Type 0 where
  pub already_read : ℕ
  pub offset : ℕ
  pub buf : Bytes

-- The loop of `file_read`. The source copies from the block's first byte, not from `block_offset`.
unfoldable pub read_loop : ℕ → Fs → InodeInfo → ℕ → ReadResult → Option ReadResult
read_loop zero fs i max s = none
read_loop (suc f) fs i max s =
    let block_index = s.offset / block_size in
    let block_offset = s.offset - block_index * block_size in
    let block_num = word (fs.disk i.datablock) (block_index + 1) in
    let till_end = sub32 (sub32 (wrap i.i_size) (wrap (block_index * block_size))) block_offset in
    let room = block_size - block_offset in
    let able_to_read = if ltb till_end room then till_end else room in
    let len = if leb able_to_read max then able_to_read else max in
    let rest = read_loop f fs i max (record {
      already_read = wrap (s.already_read + len);
      offset = s.offset + len;
      buf = copy s.buf s.already_read (fs.disk block_num) len;
    }) in
    if ltb s.already_read max && positive till_end then rest else some s

-- Each round reads a byte or more: `max + 1` rounds.
unfoldable pub file_read : Fs → ℕ → Bytes → ℕ → ℕ → Option ReadResult
file_read fs r buf max offset =
    read_loop (max + 1) fs (fs.inode r) max
      (record { already_read = 0; offset = offset; buf = buf })

-- `while (file_read(sb, inode, buf, size, &offset, 0));`, the buffer at the end
unfoldable pub read_all : ℕ → Fs → ℕ → Bytes → ℕ → ℕ → Option Bytes
read_all zero fs r buf size offset = none
read_all (suc f) fs r buf size offset = file_read fs r buf size offset >>= (λ res.
    let rest = read_all f fs r res.buf size res.offset in
    if res.already_read == 0 then some res.buf else rest)

-- the variables of `file_write`'s loop
pub record WriteState : Type 0 where
  pub block_count : ℕ
  pub f_pos : ℕ
  pub copy_left : ℕ

-- A block appended to the file: the count is raised, and the new block's number is put behind it. `none`
-- where the datablock has no room for the number, which is written behind its buffer, and where no block is
-- free: its number is then 0 less one, and `sb_bread` finds no such block.
pub append_block : Fs → ℕ → ℕ → Option Fs
append_block fs datablock block_index =
    let d = fs.disk datablock in
    let fs1 = record fs {
      disk = write_block fs.disk datablock (put_word d 0 (wrap (word d 0 + 1)));
    } in
    let (b, fs2) = get_empty_block fs1 in
    if leb (block_index + 2) 128 && not (b == 0)
    then some (record fs2 {
      disk =
          write_block fs2.disk datablock
            (put_word (fs2.disk datablock) (block_index + 1) (sub32 b 1));
    })
    else none

pub write_loop : ℕ → ℕ → Bytes → ℕ → WriteState → Fs → Option (WriteState × Fs)
write_loop zero datablock buf len s fs = none
write_loop (suc f) datablock buf len s fs =
    let block_index = s.f_pos / block_size in
    let more = ltb s.block_count (block_index + 1) in
    let count = if more then s.block_count + 1 else s.block_count in
    let rem_bytes = (block_index + 1) * block_size - s.f_pos in
    let curr_block_offset = s.f_pos - block_index * block_size in
    let to_copy = if ltb s.copy_left rem_bytes then s.copy_left else rem_bytes in
    let rest = (if more then append_block fs datablock block_index else some fs) >>= (λ fs1.
      let last_block_num = word (fs1.disk datablock) (block_index + 1) in
      let bytes =
        copy (fs1.disk last_block_num) curr_block_offset (at buf (len - s.copy_left)) to_copy in
      write_loop f datablock buf len
        (record {
          block_count = count;
          f_pos = wrap (s.f_pos + to_copy);
          copy_left = s.copy_left - to_copy;
        })
        (record fs1 { disk = write_block fs1.disk last_block_num bytes })) in
    if s.copy_left == 0 then some (s, fs) else rest

-- `*ppos` is set in the loop alone. The file's size is now `f_pos` if that is beyond it, and the descriptor is written.
pub finish_write : ℕ → ℕ → ℕ → WriteState × Fs → ℕ × ℕ × Fs
finish_write r len ppos (s, fs) =
    let i = fs.inode r in
    let size = if ltb s.f_pos i.i_size then i.i_size else s.f_pos in
    let i' = record i { i_size = size; fd = record i.fd { file_size = size } } in
    (
      len,
      (if len == 0 then ppos else s.f_pos),
      write_inode r (record fs { inode = write_object fs.inode r i' }),
    )

-- `append` is `flags & O_APPEND`; the result is the length, `*ppos` and the state.
pub file_write : Fs → ℕ → Bytes → ℕ → ℕ → Bool → Option (ℕ × ℕ × Fs)
file_write fs r buf len ppos append =
    let i = fs.inode r in
    write_loop (len + 1) i.datablock buf len
      (record {
        block_count = word (fs.disk i.datablock) 0;
        f_pos = wrap (if append then i.i_size else ppos);
        copy_left = len;
      })
      fs
    >>= (λ out. some (finish_write r len ppos out))
