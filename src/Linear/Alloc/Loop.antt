-- ===== src/Linear/Alloc/Loop.antt =====
-- The run of `mem_alloc` on a chain of blocks, step by step.
use system_sw.Prelude.{
  ℕ, zero, suc, ◌+◌, ◌-◌, ◌%◌, ◌^◌, ◌≤◌, ◌<◌, ◌≡◌, ◌∙◌, refl, ap, subst, sym, Bool, true, false,
  not, ◌&&◌, inl, inr, Option, none, some, List, [], ◌∷◌, arith, leb, length, Bool-cases, lt→ltb,
  le→not_ltb,
}
use system_sw.Prelude.Word.{wrap, wrap_small, sub32_small}
use system_sw.Memory.{Bytes}
use system_sw.Linear.{AlcInfo, size_h, read_header, is_busy, alloc_new_block, alloc_at, alloc_loop}
use system_sw.Linear.Header.{read_header-congr}
use system_sw.Linear.Chain.{Block, block, Chain, OffHeaders, OffHeaders-below, Chain-le}
use system_sw.Linear.Write.{absorb, write_header-Written}
use system_sw.Linear.Heap.{Tidy, round_up, ceil_4-round_up, round_up-le, absorb-true, Chain-fuel}
use system_sw.Linear.Alloc.{place, first_fit, cons_block}

module _ (junk : Bytes → Bytes) (mi : AlcInfo) (small : mi.amount < 2 ^ 31) where
  -- the run `r` returns what the specification says, and changes headers of the new chain alone
  abbrev pub Outcome :
      Bytes → ℕ → ℕ → Option (ℕ × List Block) → Option (Option ℕ × AlcInfo) → Type 0
  Outcome m o p none r = r ≡ some (none, mi)
  Outcome m o p (some (a, bs)) r =
      (m' : Bytes) × (r ≡ some (some a, record mi { memory = m' }))
      × Chain mi.amount m' o p bs
      × ((i : ℕ) → OffHeaders o bs i → m' i ≡ m i)

  alloc_new_block-Outcome :
      (m : Bytes) (o prev ret p q : ℕ) (bs : List Block)
      → Chain mi.amount m (o + 12 + ret) q bs
      → (read_header m prev).size ≡ p
      → p < 2 ^ 32
      → Outcome m o p (some (o + 12, block true ret ∷ bs)) (alloc_new_block junk mi o prev m ret)
  unfolding alloc_new_block
  alloc_new_block-Outcome m o prev ret p q bs c e hp =
      let le = Chain-fuel mi.amount m (o + 12 + ret) q bs c in
      let (m', r, c', same) =
        write_header-Written junk mi.amount (omega arith) mi.amount m o true ret p q bs c hp
          (omega arith) in
      let t = absorb-true ret bs in
      (m', rw (e, r, wrap_small (o + 12) (omega arith)), rw t at c', λ i off. same i (rw t off))

  alloc_at-Outcome :
      (size : ℕ) (o prev p s : ℕ) (bs : List Block)
      → Chain mi.amount mi.memory o p (block false s ∷ bs)
      → (read_header mi.memory prev).size ≡ p
      → prev + 12 + p ≡ o
      → size ≤ s
      → s % 4 ≡ 0
      → Outcome mi.memory o p
          (some (o + 12, place (round_up size) s bs))
          (alloc_at junk mi size o prev)
  unfolding alloc_at place
  alloc_at-Outcome size o prev p s bs c e at_o fits word =
      let r = round_up size in
      let le = Chain-fuel mi.amount mi.memory o p (block false s ∷ bs) c in
      let le' = Chain-le mi.amount mi.memory o p (block false s ∷ bs) c in
      let r_le = round_up-le size s fits word in
      rw (ceil_4-round_up size (omega arith), c.1, sub32_small s r r_le (omega arith))
        (elim (Bool-cases (leb 12 (s - r))) [
          | inr k ↦ rw k (alloc_new_block-Outcome mi.memory o prev s p s bs c.3 e (omega arith))
          | inl k ↦
              let room : 12 ≤ s - r = ground arith in
              let f = s - r - 12 in
              let there : o + 12 + s ≡ o + r + 12 + 12 + f = omega arith in
              let (m1, r1, c1, same1) =
                write_header-Written junk mi.amount (omega arith) mi.amount mi.memory (o + r + 12)
                  false f r s bs (subst (λ k. Chain mi.amount mi.memory k s bs) there c.3)
                  (omega arith) (omega arith) in
              let e1 : (read_header m1 prev).size ≡ p =
                ap (λ h. h.size)
                  (read_header-congr mi.memory m1 prev (λ i _ l.
                    same1 i (OffHeaders-below (o + r + 12) (absorb false f bs) i (omega arith))))
                ∙ e in
              let here : o + r + 12 ≡ o + 12 + r = omega arith in
              let (m2, r2, c2, same2) =
                alloc_new_block-Outcome m1 o prev r p r (absorb false f bs)
                  (subst (λ k. Chain mi.amount m1 k r (absorb false f bs)) here c1) e1
                  (omega arith) in
              rw
                (
                  k,
                  wrap_small (o + r + 12) (omega arith),
                  sub32_small (s - r) 12 room (omega arith),
                  r1,
                )
                (
                  m2,
                  r2,
                  c2,
                  λ i off.
                      same2 i off
                      ∙ same1 i (subst (λ k. OffHeaders k (absorb false f bs) i) (sym here) off.1),
                )
        ])

  Outcome-cons :
      (o p : ℕ) (b : Block) (r : Option (ℕ × List Block)) (run : Option (Option ℕ × AlcInfo))
      → (is_busy (read_header mi.memory o) ≡ b.busy)
        × ((read_header mi.memory o).size ≡ b.size)
        × ((read_header mi.memory o).prev_size ≡ p)
      → Outcome mi.memory (o + 12 + b.size) b.size r run
      → Outcome mi.memory o p (cons_block b r) run
  Outcome-cons o p b none run h out = out
  Outcome-cons o p b (some (a, bs)) run h (m', e, c, same) =
      let kept : read_header m' o ≡ read_header mi.memory o =
        read_header-congr mi.memory m' o
          (λ i _ l. same i (OffHeaders-below (o + 12 + b.size) bs i (omega arith))) in
      (
        m',
        e,
        (ap is_busy kept ∙ h.0, ap (λ x. x.size) kept ∙ h.1, ap (λ x. x.prev_size) kept ∙ h.2, c),
        λ i off. same i off.1,
      )

  alloc_loop_pass :
      (f size o prev : ℕ)
      → o < mi.amount
      → (leb size (read_header mi.memory o).size && not (is_busy (read_header mi.memory o))) ≡ false
      → alloc_loop junk (suc f) mi size o prev
        ≡ alloc_loop junk f mi size (wrap (o + ((read_header mi.memory o).size + size_h))) o
  unfolding alloc_loop
  alloc_loop_pass f size o prev h e = rw (lt→ltb _ _ h, e)

  alloc_loop_end :
      (f size prev : ℕ) → alloc_loop junk (suc f) mi size mi.amount prev ≡ some (none, mi)
  unfolding alloc_loop
  alloc_loop_end f size prev = rw (le→not_ltb mi.amount mi.amount (omega arith))

  alloc_loop_take :
      (f size o prev : ℕ)
      → o < mi.amount
      → (leb size (read_header mi.memory o).size && not (is_busy (read_header mi.memory o))) ≡ true
      → alloc_loop junk (suc f) mi size o prev ≡ alloc_at junk mi size o prev
  unfolding alloc_loop
  alloc_loop_take f size o prev h e = rw (lt→ltb _ _ h, e)

  pub alloc_loop-Outcome :
      (f size o prev p : ℕ) (free : Bool) (bs : List Block)
      → Chain mi.amount mi.memory o p bs
      → (read_header mi.memory prev).size ≡ p
      → prev + 12 + p ≡ o
      → Tidy free bs
      → length bs + 2 ≤ f
      → Outcome mi.memory o p (first_fit size o bs) (alloc_loop junk f mi size o prev)
  unfolding first_fit
  alloc_loop-Outcome zero size o prev p free bs c e at_o t hf = absurd (omega arith)
  alloc_loop-Outcome (suc zero) size o prev p free bs c e at_o t hf = absurd (omega arith)
  alloc_loop-Outcome (suc (suc f)) size o prev p free [] c e at_o t hf =
      let h = read_header mi.memory o in
      let end : wrap (o + (h.size + size_h)) ≡ mi.amount =
        wrap_small (o + (h.size + 12)) (let k = c.1 in omega arith)
        ∙ (let k = c.1 in omega arith) in
      let busy : (leb size h.size && not (is_busy h)) ≡ false = rw c.0 (ground arith) in
      rw (alloc_loop_pass (suc f) size o prev (let k = c.1 in omega arith) busy, end)
        (alloc_loop_end f size o)
  alloc_loop-Outcome (suc (suc f)) size o prev p free (b ∷ bs) c e at_o t hf =
      let h = read_header mi.memory o in
      let le = Chain-fuel mi.amount mi.memory o p (b ∷ bs) c in
      let le' = Chain-le mi.amount mi.memory o p (b ∷ bs) c in
      let next : o + (b.size + 12) ≡ o + 12 + b.size = omega arith in
      let rest =
        alloc_loop-Outcome (suc f) size (o + 12 + b.size) o b.size (not b.busy) bs c.3 c.1 refl t.2
          (omega arith) in
      elim (Bool-cases (leb size b.size && not b.busy)) [
        | inl k ↦
            let nb : b.busy ≡ false = ground arith in
            rw (k, alloc_loop_take (suc f) size o prev (omega arith) (rw (c.0, c.1) k))
              (alloc_at-Outcome size o prev p b.size bs (c.0 ∙ nb, c.1, c.2, c.3) e at_o
                (ground arith) t.0)
        | inr k ↦
            rw (k, alloc_loop_pass (suc f) size o prev (omega arith) (rw (c.0, c.1) k), c.1, next)
              (rw (wrap_small (o + 12 + b.size) (omega arith))
                (Outcome-cons o p b _ _ (c.0, c.1, c.2) rest))
      ]
