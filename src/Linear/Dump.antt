-- ===== src/Linear/Dump.antt =====
-- `mem_dump` lists the blocks of a valid region.
use system_sw.Prelude.{
  ℕ, zero, suc, ◌+◌, ◌*◌, ◌^◌, ◌≤◌, ◌<◌, ◌≡◌, refl, sym, subst, true, false, none, some, List, [],
  ◌∷◌, arith, length, lt→ltb, le→not_ltb,
}
use system_sw.Prelude.Word.{wrap_small}
use system_sw.Linear.{AlcInfo, read_header, DumpRow, dump_row, dump_loop, mem_dump}
use system_sw.Linear.Chain.{Block, block, Chain, Chain-le}
use system_sw.Linear.Heap.{IsHeap, Chain-fuel}

abbrev pub row : Block → ℕ → ℕ → DumpRow
row b p o = record { state = b.busy; size = b.size; prev_size = p; offset = o }

-- the rows of the blocks from `o` on, each with the size of the block before it; the last row is `end`
pub rows : ℕ → ℕ → List Block → DumpRow → List DumpRow
rows o p [] end = end ∷ []
rows o p (b ∷ bs) end = row b p o ∷ rows (o + 12 + b.size) b.size bs end

-- what the dump says, from `o` on: the last block is busy and reaches up to `amount`
pub record Dumped (amount o p : ℕ) (bs : List Block) (e c : ℕ) (r : List DumpRow × ℕ × ℕ)
    : Type 0 where
  pub end : DumpRow
  pub end_busy : end.state ≡ true
  pub end_reaches : end.offset + 12 + end.size ≡ amount
  pub listed : r.0 ≡ rows o p bs end
  pub counted : r.2 ≡ c + length bs + 1
  pub summed : o + 12 * (length bs + 1) + r.1 ≡ amount + e

module _ (mi : AlcInfo) (small : mi.amount < 2 ^ 31) where
  dump_loop_end : (f e c : ℕ) → dump_loop (suc f) mi mi.amount e c ≡ some ([], e, c)
  unfolding dump_loop
  dump_loop_end f e c = rw (le→not_ltb mi.amount mi.amount (omega arith))

  dump_loop_step :
      (f s e c size : ℕ) {r : List DumpRow × ℕ × ℕ}
      → s < mi.amount
      → (read_header mi.memory s).size ≡ size
      → s + 12 + size ≤ mi.amount
      → e + size < 2 ^ 32
      → dump_loop f mi (s + 12 + size) (e + size) (c + 1) ≡ some r
      → dump_loop (suc f) mi s e c ≡ some (dump_row mi.memory s ∷ r.0, r.1, r.2)
  unfolding dump_loop
  dump_loop_step f s e c size h es le he k =
      let a : s + (size + 12) ≡ s + 12 + size = omega arith in
      rw (
        lt→ltb _ _ h,
        es,
        wrap_small (size + 12) (omega arith),
        a,
        wrap_small (s + 12 + size) (omega arith),
        wrap_small (e + size) he,
        k,
      )

  dump_loop-Dumped :
      (f o p e c : ℕ) (bs : List Block)
      → Chain mi.amount mi.memory o p bs
      → length bs + 2 ≤ f
      → e ≤ o
      → (r : List DumpRow × ℕ × ℕ) × (dump_loop f mi o e c ≡ some r) × Dumped mi.amount o p bs e c r
  unfolding rows
  dump_loop-Dumped zero o p e c bs ch hf he = absurd (omega arith)
  dump_loop-Dumped (suc zero) o p e c bs ch hf he = absurd (omega arith)
  dump_loop-Dumped (suc (suc f)) o p e c [] ch hf he =
      let size = (read_header mi.memory o).size in
      let to_end : o + 12 + size ≡ mi.amount = ch.1 in
      let last =
        subst (λ x. dump_loop (suc f) mi x (e + size) (c + 1) ≡ some ([], e + size, c + 1))
          (sym to_end) (dump_loop_end f (e + size) (c + 1)) in
      (
        (dump_row mi.memory o ∷ [], e + size, c + 1),
        dump_loop_step (suc f) o e c size (omega arith) refl (omega arith) (omega arith) last,
        record {
          end = dump_row mi.memory o;
          end_busy = ch.0;
          end_reaches = to_end;
          listed = refl;
          counted = omega arith;
          summed = omega arith;
        },
      )
  dump_loop-Dumped (suc (suc f)) o p e c (b ∷ bs) ch hf he =
      let le = Chain-le mi.amount mi.memory o p (b ∷ bs) ch in
      let (r, k, d) =
        dump_loop-Dumped (suc f) (o + 12 + b.size) b.size (e + b.size) (c + 1) bs ch.3 (omega arith)
          (omega arith) in
      let one : dump_row mi.memory o ≡ row b p o = ground (arith, ch.0, ch.1, ch.2) in
      (
        (dump_row mi.memory o ∷ r.0, r.1, r.2),
        dump_loop_step (suc f) o e c b.size (omega arith) ch.1 (omega arith) (omega arith) k,
        record {
          end = d.end;
          end_busy = d.end_busy;
          end_reaches = d.end_reaches;
          listed = rw (one, d.listed);
          counted = let x = d.counted in omega arith;
          summed = let x = d.summed in omega arith;
        },
      )

-- On a valid region `mem_dump` ends. Where dumps are asked for it prints one row for each block, in order,
-- with its state, its size, the size of the block before it and its offset, the first block and the busy
-- last one included; its block count is the number of these rows, and the effective memory and twelve
-- bytes for each counted block make up the whole region. Otherwise it prints nothing.
pub mem_dump-rows :
    (mi : AlcInfo) (bs : List Block)
    → IsHeap mi bs
    → ((r : List DumpRow × ℕ × ℕ) × (mem_dump true mi ≡ some (some r))
        × Dumped mi.amount 0 0 (block true 0 ∷ bs) 0 0 r)
      × (mem_dump false mi ≡ some none)
unfolding mem_dump
mem_dump-rows mi bs is =
    let (r, run, d) =
      dump_loop-Dumped mi is.small (mi.amount + 1) 0 0 0 0 (block true 0 ∷ bs) is.chain
        (omega (arith, Chain-fuel mi.amount mi.memory 0 0 (block true 0 ∷ bs) is.chain))
        (omega arith) in
    ((r, rw run refl, d), refl)
