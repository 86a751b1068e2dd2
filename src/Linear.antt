-- ===== src/Linear.antt =====
-- linear-allocator/allocator.c and allocator.h: blocks in one region of memory, each behind a
-- header with its busy flag, its size and the size of the block before it. A pointer into the
-- region is its offset from `mi.memory`, and `NULL` is `none`. Logging is left out. A loop takes
-- fuel, and `none` means that the fuel ran out.
pub mod Chain
pub mod Header
pub mod Write
pub mod Heap
pub mod Alloc
pub mod Owned
pub mod Located
pub mod Free
pub mod Client
pub mod Init
pub mod Dump
pub mod Realloc
pub mod Args
pub mod Driver
mod Tests
use system_sw.Prelude.{
  ℕ, zero, suc, ◌+◌, ◌-◌, ◌*◌, ◌%◌, Bool, true, false, not, ◌&&◌, Option, none, some, List, [], ◌∷◌,
  ltb, leb, ◌==◌, if◌then◌else◌, ◌>>=◌,
}
use system_sw.Prelude.Word.{wrap, sub32, positive}
use system_sw.Memory.{Bytes, at, copy, byte, get32}

-- `struct header`: a byte of flags at offset 0, three bytes of padding, and two words
pub record BlockHeader : Type 0 where
  pub flags : ℕ
  pub size : ℕ
  pub prev_size : ℕ

abbrev pub size_h : ℕ
size_h = 12

abbrev pub header : ℕ → ℕ → ℕ → BlockHeader
header f s p = record { flags = f; size = s; prev_size = p }

-- the bytes of a header whose padding is taken from `junk`
pub header_bytes : Bytes → BlockHeader → Bytes
header_bytes junk h k =
    if k == 0
    then h.flags
    else if ltb k 4
    then junk k
    else if ltb k 8
    then byte h.size (k - 4)
    else byte h.prev_size (k - 8)

pub read_bytes : Bytes → BlockHeader
read_bytes f = header (f 0) (get32 f 4) (get32 f 8)

-- `*(header*)(mi.memory + offset)`
pub read_header : Bytes → ℕ → BlockHeader
read_header m offset = read_bytes (at m offset)

-- `h->flags & BUSY_FLAG`
pub is_busy : BlockHeader → Bool
is_busy h = h.flags % 2 == 1

-- `h.flags |= BUSY_FLAG` and `h.flags &= ~BUSY_FLAG`
pub set_busy : Bool → ℕ → ℕ
set_busy true flags = flags - flags % 2 + 1
set_busy false flags = flags - flags % 2

-- `(i & ~3) + ((i & 3)?4:0)`
unfoldable pub ceil_4 : ℕ → ℕ
ceil_4 i = wrap (i - i % 4 + (if i % 4 == 0 then 0 else 4))

unfoldable pub floor_4 : ℕ → ℕ
floor_4 i = i - i % 4

-- `alc_info`
pub record AlcInfo : Type 0 where
  pub amount : ℕ
  pub memory : Bytes

-- `junk m` is what the uninitialised `header h` of `write_raw_header` holds.
module _ (junk : Bytes → Bytes) where
  pub write_raw_header : Bytes → ℕ → Bool → ℕ → ℕ → Bytes
  write_raw_header m offset busy size prev_size =
      copy m offset
        (header_bytes (junk m) (header (set_busy busy (junk m 0)) (wrap size) (wrap prev_size)))
        size_h

  -- the last two statements of `write_header`: its own header, and `prev_size` of the next block
  pub write_pair : Bytes → ℕ → Bool → ℕ → ℕ → Bytes
  write_pair m offset busy size prev_size =
      let next = wrap (offset + size + size_h) in
      let m' = write_raw_header m offset busy size prev_size in
      let next_h = read_header m' next in write_raw_header m' next (is_busy next_h) next_h.size size

  -- The first argument is fuel: a call that expands the block absorbs one free block.
  pub write_header : ℕ → Bytes → ℕ → Bool → ℕ → ℕ → Option Bytes
  write_header zero m offset busy size prev_size = none
  write_header (suc f) m offset busy size prev_size =
      let next_h = read_header m (wrap (offset + size + size_h)) in
      let expanded = write_header f m offset false (wrap (size + next_h.size + size_h)) prev_size in
      if not busy && not (is_busy next_h)
      then expanded
      else some (write_pair m offset busy size prev_size)

  -- `mem` is what `malloc` returns; `none` is `exit(1)`.
  pub alc_init : ℕ → Option Bytes → Option AlcInfo
  alc_init amount none = none
  alc_init amount (some mem) =
      let start_free = ceil_4 size_h in
      let free_size = floor_4 (sub32 (sub32 amount start_free) (2 * size_h)) in
      let last_start = wrap (free_size + start_free + size_h) in
      let first = write_raw_header mem 0 true (sub32 (ceil_4 size_h) size_h) 0 in
      let full = write_raw_header first start_free false free_size 0 in
      some (record {
        amount = amount;
        memory =
            write_raw_header full last_start true (sub32 amount (wrap (last_start + size_h))) 0;
      })

  -- the end of `mem_alloc`: the busy header, in front of a free one if there was space for it
  pub alloc_new_block : AlcInfo → ℕ → ℕ → Bytes → ℕ → Option (Option ℕ × AlcInfo)
  alloc_new_block mi offset prev_h m ret_size = do
    m' ← write_header mi.amount m offset true ret_size (read_header m prev_h).size
    some (some (wrap (offset + size_h)), record mi { memory = m' })

  pub alloc_at : AlcInfo → ℕ → ℕ → ℕ → Option (Option ℕ × AlcInfo)
  alloc_at mi size offset prev_h =
      let h = read_header mi.memory offset in
      let ret_size = ceil_4 size in
      if leb size_h (sub32 h.size ret_size)
      then write_header mi.amount mi.memory (wrap (offset + ret_size + size_h)) false
          (sub32 (sub32 h.size ret_size) size_h) ret_size
        >>= (λ m. alloc_new_block mi offset prev_h m ret_size)
      else alloc_new_block mi offset prev_h mi.memory h.size

  pub alloc_loop : ℕ → AlcInfo → ℕ → ℕ → ℕ → Option (Option ℕ × AlcInfo)
  alloc_loop zero mi size offset prev_h = none
  alloc_loop (suc f) mi size offset prev_h =
      let h = read_header mi.memory offset in
      let rest = alloc_loop f mi size (wrap (offset + (h.size + size_h))) offset in
      if ltb offset mi.amount
      then if leb size h.size && not (is_busy h) then alloc_at mi size offset prev_h else rest
      else some (none, mi)

  -- `amount` rounds are enough: each passes a header.
  pub mem_alloc : ℕ → AlcInfo → Option (Option ℕ × AlcInfo)
  mem_alloc size mi =
      alloc_loop mi.amount mi size (wrap ((read_header mi.memory 0).size + size_h)) 0

  pub mem_free : ℕ → AlcInfo → Option AlcInfo
  mem_free addr mi =
      let h = sub32 addr size_h in
      let hh = read_header mi.memory h in
      let prev_h = sub32 (sub32 addr hh.prev_size) (2 * size_h) in
      let ph = read_header mi.memory prev_h in
      let nh = read_header mi.memory (wrap (addr + hh.size)) in
      let left = not (is_busy ph) in
      let size_l = if left then wrap (hh.size + wrap (ph.size + size_h)) else hh.size in
      let new_size = if is_busy nh then size_l else wrap (size_l + wrap (nh.size + size_h)) in
      write_header mi.amount mi.memory (if left then prev_h else h) false new_size
        (if left then ph.prev_size else hh.prev_size)
      >>= (λ m. some (record mi { memory = m }))

-- a line that `mem_dump` prints: busy or free, size, previous size and offset
pub record DumpRow : Type 0 where
  pub state : Bool
  pub size : ℕ
  pub prev_size : ℕ
  pub offset : ℕ

abbrev pub dump_row : Bytes → ℕ → DumpRow
dump_row m s =
    let h = read_header m s in
    record { state = is_busy h; size = h.size; prev_size = h.prev_size; offset = s }

-- the loop of `mem_dump`: the rows, the effective memory and the block count
pub dump_loop : ℕ → AlcInfo → ℕ → ℕ → ℕ → Option (List DumpRow × ℕ × ℕ)
dump_loop zero mi s effective count = none
dump_loop (suc f) mi s effective count =
    let size = (read_header mi.memory s).size in
    let rest =
      dump_loop f mi (wrap (s + wrap (size + size_h))) (wrap (effective + size)) (count + 1)
      >>= (λ (rows, e, c). some (dump_row mi.memory s ∷ rows, e, c)) in
    if ltb s mi.amount then rest else some ([], effective, count)

-- `dumps` is the flag `-d`: without it nothing is printed, `some none`.
pub mem_dump : Bool → AlcInfo → Option (Option (List DumpRow × ℕ × ℕ))
unfolding dump_loop
mem_dump dumps mi =
    let printed = dump_loop (mi.amount + 1) mi 0 0 0 >>= (λ out. some (some out)) in
    if dumps then printed else some none
