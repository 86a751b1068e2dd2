-- ===== src/Linear/Tests.antt =====
-- The linear allocator on a region of 100 bytes, and its theorems there.
mod Client
mod Driver
use system_sw.Prelude.{
  ℕ, ◌-◌, ◌*◌, ◌/◌, ◌≡◌, refl, true, false, Option, none, some, List, [], ◌∷◌, arith,
}
use system_sw.Prelude.Word.{wrap, sub32}
use system_sw.Memory.{Bytes, copy, byte, get32}
use system_sw.Linear.{
  AlcInfo, header_bytes, read_bytes, read_header, is_busy, set_busy, ceil_4, floor_4,
  write_raw_header, write_pair, write_header, alc_init, alloc_new_block, alloc_at, alloc_loop,
  mem_alloc, mem_free, DumpRow, mem_dump,
}
use system_sw.Linear.Chain.{Block, block}
use system_sw.Linear.Heap.{IsHeap}
use system_sw.Linear.Located.{Located}
use system_sw.Linear.Init.{alc_init-IsHeap}
use system_sw.Linear.Alloc.{first_fit}
use system_sw.Linear.Alloc.Refine.{Implements, mem_alloc-first_fit}
use system_sw.Linear.Alloc.Contract.{Answered, mem_alloc-contract}
use system_sw.Linear.Free.{Released, mem_free-merge}
use system_sw.Linear.Dump.{Dumped, mem_dump-rows}

-- what the uninitialised header holds, and fresh memory
abbrev pub junk : Bytes → Bytes
junk m k = 0xa5

abbrev pub mem : Bytes
mem i = 0xff

abbrev pub or_empty : Option AlcInfo → AlcInfo
or_empty none = record { amount = 0; memory = mem }
or_empty (some mi) = mi

abbrev pub second : Option (Option ℕ × AlcInfo) → AlcInfo
second none = record { amount = 0; memory = mem }
second (some (a, mi)) = mi

abbrev pub fresh : AlcInfo
unfolding alc_init ceil_4 floor_4 wrap sub32 write_raw_header copy header_bytes set_busy byte
fresh = or_empty (alc_init junk 100 (some mem))

-- after two allocations: blocks of 12 and 8 bytes, and 20 bytes free
abbrev pub busy_two : AlcInfo
unfolding mem_alloc alloc_loop alloc_at alloc_new_block write_header write_pair is_busy read_header
    read_bytes get32 fresh
busy_two = second (mem_alloc junk 8 (second (mem_alloc junk 10 fresh)))

alloc_addresses : mem_alloc junk 8 fresh ≡ some (some 24, second (mem_alloc junk 8 fresh))
unfolding busy_two
alloc_addresses = refl

abbrev pub two : List Block
two = block true 12 ∷ block true 8 ∷ block false 20 ∷ []

busy_two-IsHeap : IsHeap busy_two two
unfolding busy_two
busy_two-IsHeap = record {
  chain =
      (refl, refl, refl, (refl, refl, refl, (refl, refl, refl, (refl, refl, refl, (refl, refl)))));
  small = omega arith;
  tidy = (refl, refl, (refl, refl, (refl, refl, tt)));
}

alc_init-IsHeap_example :
    (mi : AlcInfo) × (alc_init junk 100 (some mem) ≡ some mi)
    × (mi.amount ≡ 100)
    × IsHeap mi (block false ((100 - 36) / 4 * 4) ∷ [])
alc_init-IsHeap_example = alc_init-IsHeap junk 100 mem (omega arith) (omega arith)

mem_alloc-first_fit_example : Implements busy_two (first_fit 5 12 two) (mem_alloc junk 5 busy_two)
mem_alloc-first_fit_example = mem_alloc-first_fit junk busy_two two busy_two-IsHeap 5

mem_alloc-contract_example : Answered busy_two two 5 (mem_alloc junk 5 busy_two)
mem_alloc-contract_example = mem_alloc-contract junk busy_two two 5 busy_two-IsHeap

-- the block of 8 bytes, with a busy block on its left and a free one on its right
abbrev eight : Located two 48 8
eight = record {
  before = block true 0 ∷ [];
  left = block true 12;
  after = block false 20 ∷ [];
  split = refl;
  place = refl;
}

mem_free-merge_example : Released busy_two-IsHeap eight (mem_free junk 48 busy_two)
mem_free-merge_example = mem_free-merge busy_two-IsHeap eight junk

mem_dump-rows_example :
    ((r : List DumpRow × ℕ × ℕ) × (mem_dump true busy_two ≡ some (some r))
      × Dumped 100 0 0 (block true 0 ∷ two) 0 0 r)
    × (mem_dump false busy_two ≡ some none)
unfolding busy_two
mem_dump-rows_example = mem_dump-rows busy_two two busy_two-IsHeap
