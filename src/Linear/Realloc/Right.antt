-- ===== src/Linear/Realloc/Right.antt =====
-- `mem_realloc` into the free block on the right.
use system_sw.Prelude.{
  ℕ, ◌+◌, ◌-◌, ◌≤◌, ◌<◌, ◌≡◌, ◌∙◌, refl, ap, subst, inl, inr, true, false, Option, some, List, ◌∷◌,
  arith, ltb, leb, if◌then◌else◌, ltb→lt, lt→ltb, le→not_ltb, le→leb, Bool-cases,
}
use system_sw.Prelude.Word.{wrap, wrap_small, sub32_small, positive-sub32}
use system_sw.Memory.{Bytes}
use system_sw.Linear.{AlcInfo, size_h, is_busy}
use system_sw.Linear.Chain.{Block, block, Chain, Chain-le}
use system_sw.Linear.Write.{absorb}
use system_sw.Linear.Heap.{Tidy, Tidy-any, IsHeap, absorb-Tidy, round_up, ceil_4-round_up}
use system_sw.Linear.Located.{Located, part-Chain, part-Tidy, own}
use system_sw.Linear.Realloc.{around, expand_right, grow, mem_realloc}
use system_sw.Linear.Realloc.Own.{Resized, around-own, keep_place-Resized, split_off}

-- a busy block of size `s` grown to `r` into the free block of size `t` behind it
unfoldable pub widen : ℕ → ℕ → ℕ → List Block → List Block
widen r s t bs =
    if ltb r (s + t)
    then block true r ∷ absorb false (s + t - r) bs
    else block true (s + t + 12) ∷ bs

module _ {mi : AlcInfo} {bs : List Block} {addr s : ℕ} (is : IsHeap mi bs) (l : Located bs addr s)
    (junk : Bytes → Bytes) (memfree : ℕ → AlcInfo → Option AlcInfo) (size t : ℕ) (cs : List Block)
    (next : l.after ≡ block false t ∷ cs) (more : s ≤ size)
    (fits : round_up size ≤ s + t + 12) where
  after-Chain : Chain mi.amount mi.memory (own is l + 12 + s) s (block false t ∷ cs)
  after-Chain =
      subst (λ x. Chain mi.amount mi.memory (own is l + 12 + s) s x) next (part-Chain is l).3.3

  after-Tidy : Tidy false (block false t ∷ cs)
  after-Tidy = subst (λ x. Tidy false x) next (part-Tidy is l).2.2

  after-le : own is l + 12 + s + 24 + t ≤ mi.amount
  after-le = omega (arith, Chain-le mi.amount mi.memory _ _ (block false t ∷ cs) after-Chain)

  right_run :
      Resized is l
        (widen (round_up size) s t cs)
        (expand_right junk memfree mi addr (around mi addr size))
  unfolding expand_right widen
  right_run =
      let a = around-own is l size in
      let c = after-Chain in
      let u = part-Tidy is l in
      let v = after-Tidy in
      let le = after-le in
      let sm = is.small in
      let r = round_up size in
      let w : (around mi addr size).next.size ≡ t = ap (λ h. h.size) a.4 ∙ c.1 in
      rw
        (
          a.0,
          a.1,
          a.2,
          a.3,
          w,
          ceil_4-round_up size (omega arith),
          wrap_small (s + 12 + t) (omega arith),
          positive-sub32 (s + 12 + t) r 12 (omega arith) (omega arith),
        )
        (elim (Bool-cases (ltb r (s + t))) [
          | inl k ↦
              let room : r < s + t = ltb→lt _ _ k in
              let there : own is l + 12 + s + 12 + t ≡ own is l + 12 + r + 12 + (s + t - r) =
                omega arith in
              let f : s + 12 + t - r - 12 ≡ s + t - r = omega arith in
              let o : own is l + 12 + r ≡ own is l + r + 12 = omega arith in
              rw
                (
                  k,
                  lt→ltb (r + 12) (s + 12 + t) (omega arith),
                  o,
                  wrap_small (own is l + r + 12) (omega arith),
                  sub32_small (s + 12 + t) r (omega arith) (omega arith),
                  sub32_small (s + 12 + t - r) 12 (omega arith) (omega arith),
                  f,
                )
                (split_off is l junk memfree r (s + t - r) t cs
                  (subst (λ x. Chain mi.amount mi.memory x t cs) there c.3)
                  (
                    omega arith,
                    ground arith,
                    absorb-Tidy true false false (s + t - r) cs v.2
                        (let x = u.2.0 in let y = v.0 in omega arith) refl,
                  )
                  (omega arith))
          | inr k ↦
              let full : s + t ≤ r = ground arith in
              let there : own is l + 12 + s + 12 + t ≡ own is l + 12 + (s + t + 12) = omega arith in
              rw
                (
                  k,
                  le→not_ltb (r + 12) (s + 12 + t) (omega arith),
                  wrap_small (s + t + 12) (omega arith),
                )
                (keep_place-Resized is l junk memfree mi.memory (s + t + 12) t cs
                  (subst (λ x. Chain mi.amount mi.memory x t cs) there c.3)
                  (let x = u.2.0 in let y = v.0 in omega arith, ground arith, Tidy-any true cs v.2)
                  (λ i off. refl))
        ])

  -- On a valid region, where the block on the right is free and the two and its header have room for
  -- the rounded size, `mem_realloc` of a busy block to its size or more ends and returns the block's
  -- own address. What is left of the free block stays free, joined with the free blocks on its right,
  -- if it is more than its header, and else goes to the block; the region is valid again, and only
  -- headers are written.
  pub mem_realloc-widen :
      Resized is l (widen (round_up size) s t cs) (mem_realloc junk memfree (some addr) size mi)
  unfolding mem_realloc grow
  mem_realloc-widen =
      let a = around-own is l size in
      let c = after-Chain in
      let le = after-le in
      let sm = is.small in
      let w : (around mi addr size).next.size ≡ t = ap (λ h. h.size) a.4 ∙ c.1 in
      let b : is_busy (around mi addr size).next ≡ false = ap is_busy a.4 ∙ c.0 in
      let e : ltb size (around mi addr size).own.size ≡ false = rw a.2 (le→not_ltb size s more) in
      let g : leb (around mi addr size).ret_size
            (wrap ((around mi addr size).next.size + (around mi addr size).own.size + size_h))
          ≡ true =
        rw (a.3, ceil_4-round_up size (omega arith), a.2, w, wrap_small (t + s + 12) (omega arith))
          (le→leb _ _ (omega arith)) in
      rw (e, b, g) right_run
