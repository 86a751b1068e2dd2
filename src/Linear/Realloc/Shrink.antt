-- ===== src/Linear/Realloc/Shrink.antt =====
-- `mem_realloc` to a smaller size.
use system_sw.Prelude.{
  ℕ, ◌+◌, ◌-◌, ◌<◌, ◌≡◌, refl, subst, inl, inr, true, false, Option, some, List, ◌∷◌, arith, ltb,
  if◌then◌else◌, ltb→lt, lt→ltb, Bool-cases,
}
use system_sw.Prelude.Word.{wrap_small, sub32_small, positive-sub32}
use system_sw.Memory.{Bytes}
use system_sw.Linear.{AlcInfo}
use system_sw.Linear.Chain.{Block, block, Chain}
use system_sw.Linear.Write.{absorb}
use system_sw.Linear.Heap.{IsHeap, absorb-Tidy, round_up, round_up-le, ceil_4-round_up}
use system_sw.Linear.Located.{Located, part-Chain, part-Tidy, own, own-lt}
use system_sw.Linear.Realloc.{around, shrink, mem_realloc}
use system_sw.Linear.Realloc.Own.{Resized, around-own, keep_place-Resized, split_off}

-- a busy block of size `s` cut down to `r`: the rest is split off if it is more than a header
unfoldable pub trim : ℕ → ℕ → List Block → List Block
trim r s bs =
    if ltb (12 + r) s then block true r ∷ absorb false (s - r - 12) bs else block true s ∷ bs

module _ {mi : AlcInfo} {bs : List Block} {addr s : ℕ} (is : IsHeap mi bs) (l : Located bs addr s)
    (junk : Bytes → Bytes) (memfree : ℕ → AlcInfo → Option AlcInfo) (size : ℕ) where
  shrink_run :
      size < s
      → Resized is l
          (trim (round_up size) s l.after)
          (shrink junk memfree mi addr (around mi addr size))
  unfolding shrink trim
  shrink_run h =
      let a = around-own is l size in
      let c = part-Chain is l in
      let t = part-Tidy is l in
      let le = own-lt is l in
      let sm = is.small in
      let r = round_up size in
      let r_le = round_up-le size s (omega arith) t.2.0 in
      rw
        (
          a.0,
          a.1,
          a.2,
          a.3,
          ceil_4-round_up size (omega arith),
          positive-sub32 s 12 r (omega arith) (omega arith),
        )
        (elim (Bool-cases (ltb (12 + r) s)) [
          | inl k ↦
              let room : 12 + r < s = ltb→lt _ _ k in
              let there : own is l + 12 + s ≡ own is l + 12 + r + 12 + (s - r - 12) = omega arith in
              let f : s - 12 - r ≡ s - r - 12 = omega arith in
              rw
                (
                  k,
                  wrap_small (own is l + r + 12) (omega arith),
                  sub32_small s 12 (omega arith) (omega arith),
                  sub32_small (s - 12) r (omega arith) (omega arith),
                  f,
                )
                (split_off is l junk memfree r (s - r - 12) s l.after
                  (subst (λ x. Chain mi.amount mi.memory x s l.after) there c.3.3)
                  (
                    omega arith,
                    ground arith,
                    absorb-Tidy false false false (s - r - 12) l.after t.2.2
                        (let w = t.2.0 in omega arith) refl,
                  )
                  (omega arith))
          | inr k ↦
              rw k (
                keep_place-Resized is l junk memfree mi.memory s s l.after c.3.3 t.2
                  (λ i off. refl))
        ])

  -- On a valid region `mem_realloc` of a busy block to a smaller size ends and returns the block's
  -- own address. If more than a header fits behind the rounded size, the rest of the block is free,
  -- joined with the free blocks on its right, and otherwise the block keeps its size; the region is
  -- valid again, and only headers are written.
  pub mem_realloc-trim :
      size < s
      → Resized is l (trim (round_up size) s l.after) (mem_realloc junk memfree (some addr) size mi)
  unfolding mem_realloc
  mem_realloc-trim h =
      let a = around-own is l size in
      let e : ltb size (around mi addr size).own.size ≡ true = rw a.2 (lt→ltb size s h) in
      rw e (shrink_run h)
