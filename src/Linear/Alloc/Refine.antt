-- ===== src/Linear/Alloc/Refine.antt =====
-- `mem_alloc` implements first fit, and keeps the region valid.
use system_sw.Prelude.{ℕ, ◌≡◌, ◌∙◌, ap, refl, true, false, Option, none, some, List, ◌∷◌, arith}
use system_sw.Prelude.Word.{wrap_small}
use system_sw.Memory.{Bytes}
use system_sw.Linear.{AlcInfo, read_header, is_busy, mem_alloc}
use system_sw.Linear.Header.{read_header-congr}
use system_sw.Linear.Chain.{Block, block, OffHeaders, OffHeaders-below}
use system_sw.Linear.Heap.{IsHeap, Chain-fuel}
use system_sw.Linear.Alloc.{first_fit, TidyAnswer, first_fit-Tidy}
use system_sw.Linear.Alloc.Loop.{Outcome, alloc_loop-Outcome}

-- The call `r` on `mi` returns the address and leaves the blocks of the specification's answer, in
-- a valid region of the same size, and writes to headers of the new chain alone; where the answer
-- is `none` it returns `NULL` and changes nothing.
abbrev pub Implements : AlcInfo → Option (ℕ × List Block) → Option (Option ℕ × AlcInfo) → Type 0
Implements mi none r = r ≡ some (none, mi)
Implements mi (some (a, bs)) r =
    (mi' : AlcInfo) × (r ≡ some (some a, mi'))
    × IsHeap mi' bs
    × (mi'.amount ≡ mi.amount)
    × ((i : ℕ) → OffHeaders 0 (block true 0 ∷ bs) i → mi'.memory i ≡ mi.memory i)

module _ (junk : Bytes → Bytes) (mi : AlcInfo) (bs : List Block) (is : IsHeap mi bs) where
  implements :
      (answer : Option (ℕ × List Block)) (r : Option (Option ℕ × AlcInfo))
      → TidyAnswer false answer
      → Outcome junk mi is.small mi.memory 12 0 answer r
      → Implements mi answer r
  implements none r t out = out
  implements (some (a, cs)) r t (m', e, c, same) =
      let kept : read_header m' 0 ≡ read_header mi.memory 0 =
        read_header-congr mi.memory m' 0
          (λ i _ l. same i (OffHeaders-below 12 cs i (omega arith))) in
      let first = is.chain in
      (
        record mi { memory = m' },
        e,
        record {
          chain = (
            ap is_busy kept ∙ first.0,
            ap (λ x. x.size) kept ∙ first.1,
            ap (λ x. x.prev_size) kept ∙ first.2,
            c,
          );
          small = is.small;
          tidy = t;
        },
        refl,
        λ i off. same i off.1,
      )

  -- On a valid region `mem_alloc` ends and implements first fit: where a free block has the size it
  -- returns the address behind the first such block's header, and leaves that block cut, the rest of
  -- it free if a header fits, in a region that is valid again; it writes to headers alone. Where no
  -- free block has the size it returns `NULL` and changes nothing.
  pub mem_alloc-first_fit :
      (size : ℕ) → Implements mi (first_fit size 12 bs) (mem_alloc junk size mi)
  unfolding mem_alloc
  mem_alloc-first_fit size =
      let c = is.chain in
      let fuel = Chain-fuel mi.amount mi.memory 12 0 bs c.3 in
      rw (c.1, wrap_small 12 (omega arith))
        (implements (first_fit size 12 bs) _ (first_fit-Tidy size 12 false bs is.tidy) (
          alloc_loop-Outcome junk mi is.small mi.amount size 12 0 0 false bs c.3 c.1 refl is.tidy
            (omega arith)))
