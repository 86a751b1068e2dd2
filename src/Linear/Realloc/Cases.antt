-- ===== src/Linear/Realloc/Cases.antt =====
-- Runs of `mem_realloc` on a region of 200 bytes: its theorems there, and three inputs at which the
-- branches to the left and to both sides, and the rounding of a huge size, go wrong.
use system_sw.Prelude.{ℕ, ◌≡◌, refl, true, false, Option, none, some, List, [], ◌∷◌, arith}
use system_sw.Prelude.Word.{wrap, sub32, positive}
use system_sw.Memory.{Bytes, copy, byte, get32}
use system_sw.Linear.{
  AlcInfo, header_bytes, read_bytes, read_header, is_busy, set_busy, ceil_4, floor_4,
  write_raw_header, write_pair, write_header, alc_init, alloc_new_block, alloc_at, alloc_loop,
  mem_alloc, mem_free,
}
use system_sw.Linear.Chain.{Block, block}
use system_sw.Linear.Heap.{IsHeap, round_up}
use system_sw.Linear.Located.{Located}
use system_sw.Linear.Realloc.{
  Run, around, moved, keep_place, shrink, expand_right, write_left, expand_left, expand_both,
  move_away, grow, mem_realloc,
}
use system_sw.Linear.Realloc.Own.{Resized}
use system_sw.Linear.Realloc.Shrink.{trim, mem_realloc-trim}
use system_sw.Linear.Realloc.Right.{widen, mem_realloc-widen}

abbrev junk : Bytes → Bytes
junk m k = 0x5a

abbrev mem : Bytes
mem i = 1

abbrev init_or : Option AlcInfo → AlcInfo
init_or none = record { amount = 0; memory = mem }
init_or (some mi) = mi

abbrev state : Run → AlcInfo
state none = record { amount = 0; memory = mem }
state (some (a, mi)) = mi

abbrev address : Run → Option ℕ
address none = none
address (some (a, mi)) = a

-- blocks of 12, 8, 16 and 4 bytes, the second one free again, and the rest
abbrev start : AlcInfo
unfolding mem_alloc alloc_loop alloc_at alloc_new_block write_header write_pair write_raw_header
    copy header_bytes set_busy byte is_busy read_header read_bytes get32 alc_init ceil_4 floor_4
    wrap sub32 mem_free
start =
    let s1 = state (mem_alloc junk 12 (init_or (alc_init junk 200 (some mem)))) in
    let s4 = state (mem_alloc junk 4 (state (mem_alloc junk 16 (state (mem_alloc junk 8 s1))))) in
    init_or (mem_free junk 48 s4)

-- `mem_free` for the undeclared `memfree`
realloc : Option ℕ → ℕ → AlcInfo → Run
unfolding start mem_realloc around moved keep_place shrink expand_right write_left expand_left
    expand_both move_away grow positive
realloc = mem_realloc junk (mem_free junk)

abbrev blocks : List Block
blocks = block true 12 ∷ block false 8 ∷ block true 16 ∷ block true 4 ∷ block false 76 ∷ []

start-IsHeap : IsHeap start blocks
unfolding start
start-IsHeap = record {
  chain = (
    refl,
    refl,
    refl,
    (
      refl,
      refl,
      refl,
      (refl, refl, refl, (refl, refl, refl, (refl, refl, refl, (refl, refl, refl, (refl, refl))))),
    ),
  );
  small = omega arith;
  tidy = (refl, refl, (refl, refl, (refl, refl, (refl, refl, (refl, refl, tt)))));
}

-- To 28 bytes the third block takes in the second one whole, and the source then takes the size of
-- the first block for what is left of the second: it marks the block it returns as free.
left_marks_free :
    let r = realloc (some 68) 28 start in
    (address r ≡ some 48) × (is_busy (read_header (state r).memory 36) ≡ false)
unfolding realloc
left_marks_free = (refl, refl)

-- free blocks of 8 bytes on both sides of a busy one of 16
abbrev between : AlcInfo
unfolding realloc
between =
    let s1 = state (mem_alloc junk 8 (init_or (alc_init junk 200 (some mem)))) in
    let s4 = state (mem_alloc junk 4 (state (mem_alloc junk 8 (state (mem_alloc junk 16 s1))))) in
    init_or (mem_free junk 24 (init_or (mem_free junk 72 s4)))

-- To 48 bytes the block takes in both sides, 56 bytes: what is left is less than a header, but the
-- block is not given it. The header of the next block is then read from bytes of no block.
both_leaves_gap :
    let r = realloc (some 44) 48 between in
    (address r ≡ some 24)
    × ((read_header (state r).memory 12).size ≡ 48)
    × ((read_header (state r).memory 72).size ≡ 0x0101_0101)
unfolding realloc between
both_leaves_gap = (refl, refl, refl)

-- The size 2 ^ 32 - 1 is rounded up to 0, and a block of no bytes is returned for it.
huge_wraps :
    let r = realloc (some 68) 0xffff_ffff start in
    (address r ≡ some 84) × ((read_header (state r).memory 72).size ≡ 0)
unfolding realloc
huge_wraps = (refl, refl)

-- the block of 16 bytes
abbrev sixteen : Located blocks 68 16
sixteen = record {
  before = block true 0 ∷ block true 12 ∷ [];
  left = block false 8;
  after = block true 4 ∷ block false 76 ∷ [];
  split = refl;
  place = refl;
}

mem_realloc-trim_example :
    Resized start-IsHeap sixteen
      (trim (round_up 1) 16 (block true 4 ∷ block false 76 ∷ []))
      (mem_realloc junk (mem_free junk) (some 68) 1 start)
mem_realloc-trim_example =
    mem_realloc-trim start-IsHeap sixteen junk (mem_free junk) 1 (omega arith)

-- the block of 4 bytes, in front of the free rest
abbrev four : Located blocks 96 4
four = record {
  before = block true 0 ∷ block true 12 ∷ block false 8 ∷ [];
  left = block true 16;
  after = block false 76 ∷ [];
  split = refl;
  place = refl;
}

mem_realloc-widen_example :
    Resized start-IsHeap four
      (widen (round_up 30) 4 76 [])
      (mem_realloc junk (mem_free junk) (some 96) 30 start)
mem_realloc-widen_example =
    mem_realloc-widen start-IsHeap four junk (mem_free junk) 30 76 [] refl (omega arith)
      (omega arith)
