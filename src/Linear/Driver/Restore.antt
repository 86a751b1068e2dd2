-- ===== src/Linear/Driver/Restore.antt =====
-- `alloc_test` on a region of one free block.
use system_sw.Prelude.{
  ℕ, ◌+◌, ◌/◌, ◌≡◌, false, Option, none, some, List, [], ◌∷◌, length, ltb, if◌then◌else◌,
}
use system_sw.Memory.{Bytes}
use system_sw.Linear.{AlcInfo, mem_alloc}
use system_sw.Linear.Chain.{block}
use system_sw.Linear.Heap.{IsHeap}
use system_sw.Linear.Driver.{alloc_until}

-- the run of `alloc_test` on a region of one free block of `w` bytes
pub record Restores (junk : Bytes → Bytes) (size w : ℕ) (mi : AlcInfo) (run : Option (ℕ × AlcInfo))
    : Type 0 where
  pub list : List ℕ
  pub full : AlcInfo
  pub out : AlcInfo
  pub allocates :
      alloc_until junk mi.amount (mi.amount / size) size mi
      ≡ (if ltb (length list) (mi.amount / size) then some (list, full) else none)
  pub no_more : mem_alloc junk size full ≡ some (none, full)
  pub returns :
      run ≡ (if ltb (length list) (mi.amount / size) then some (length list + 1, out) else none)
  pub whole : IsHeap out (block false w ∷ [])
  pub amount : out.amount ≡ mi.amount
