-- ===== src/Linear/Realloc/Own.antt =====
-- What the branches of `mem_realloc` that keep the block's place have in common.
use system_sw.Prelude.{
  ℕ, ◌+◌, ◌^◌, ◌<◌, ◌≡◌, ◌∙◌, refl, sym, ap, subst, true, false, not, Option, some, List, ◌∷◌,
  arith, ◌>>=◌,
}
use system_sw.Memory.{Bytes}
use system_sw.Linear.{AlcInfo, read_header, is_busy, write_header, ceil_4}
use system_sw.Linear.Header.{read_header-congr}
use system_sw.Linear.Chain.{Block, block, span, Chain, OffHeaders, OffHeaders-below, SameBelow}
use system_sw.Linear.Write.{absorb, write_header-Written}
use system_sw.Linear.Heap.{Tidy, IsHeap, absorb-true, Chain-fuel}
use system_sw.Linear.Located.{
  Located, Replaced, part-Chain, part-Tidy, replace, own, own-lt, own_offset, left_offset,
  right_offset, part-OffHeaders,
}
use system_sw.Linear.Realloc.{Run, around, keep_place}

module _ {mi : AlcInfo} {bs : List Block} {addr s : ℕ} (is : IsHeap mi bs)
    (l : Located bs addr s) where
  -- The run returns the block's own address; the blocks from it on are now `zs`, in a valid region,
  -- and only headers of that region are written.
  abbrev pub Resized : List Block → Run → Type 0
  Resized zs r =
      (mi' : AlcInfo) × (bs' : List Block) × (r ≡ some (some addr, mi'))
      × Replaced l (l.left ∷ zs) bs'
      × IsHeap mi' bs'
      × (mi'.amount ≡ mi.amount)
      × ((i : ℕ) → OffHeaders 0 (block true 0 ∷ bs') i → mi'.memory i ≡ mi.memory i)

  pub finish_own :
      (m' : Bytes) (zs : List Block)
      → Chain mi.amount m' (own is l) l.left.size zs
      → Tidy (not l.left.busy) zs
      → ((i : ℕ) → OffHeaders (own is l) zs i → m' i ≡ mi.memory i)
      → Resized zs (some (some addr, record mi { memory = m' }))
  finish_own m' zs c t same =
      let below : SameBelow (own is l) mi.memory m' =
        λ i h. same i (OffHeaders-below (own is l) zs i h) in
      let old = part-Chain is l in
      let kept : read_header m' (span l.before) ≡ read_header mi.memory (span l.before) =
        read_header-congr mi.memory m' (span l.before) (λ i _ h. below i (omega arith)) in
      let t0 = part-Tidy is l in
      let (bs', e, is') =
        replace is l m' (l.left ∷ zs) (λ i h. below i (omega arith))
          (
            ap is_busy kept ∙ old.0,
            ap (λ x. x.size) kept ∙ old.1,
            ap (λ x. x.prev_size) kept ∙ old.2,
            c,
          )
          (t0.0, t0.1, t) (λ k. (zs, refl)) in
      (
        record mi { memory = m' },
        bs',
        refl,
        e,
        is',
        refl,
        λ i off. same i (part-OffHeaders is l (l.left ∷ zs) bs' i e off).1,
      )

  -- the blocks that `mem_realloc` reads around a located block
  pub around-own :
      (size : ℕ)
      → let a = around mi addr size in
        (a.h ≡ own is l)
        × (a.prev_h ≡ span l.before)
        × (a.own.size ≡ s)
        × (a.ret_size ≡ ceil_4 size)
        × (a.next ≡ read_header mi.memory (own is l + 12 + s))
  unfolding around
  around-own size =
      let c = part-Chain is l in
      (
        own_offset is l,
        (rw (own_offset is l, c.3.2) (left_offset is l)),
        (rw (own_offset is l) c.3.1),
        refl,
        (rw (own_offset is l, c.3.1) (ap (λ x. read_header mi.memory x) (right_offset is l))),
      )

  -- `keep_place` on a memory whose blocks behind the resized one are `zs`
  module _ (junk : Bytes → Bytes) (memfree : ℕ → AlcInfo → Option AlcInfo) where
    pub keep_place-Resized :
        (m : Bytes) (r q : ℕ) (zs : List Block)
        → Chain mi.amount m (own is l + 12 + r) q zs
        → Tidy (not l.left.busy) (block true r ∷ zs)
        → ((i : ℕ) → OffHeaders (own is l + 12 + r) zs i → m i ≡ mi.memory i)
        → Resized
            (block true r ∷ zs)
            (keep_place junk memfree mi addr (own is l) (span l.before) m r)
    unfolding keep_place
    keep_place-Resized m r q zs c t same =
        let old = part-Chain is l in
        let le = own-lt is l in
        let sm = is.small in
        let fuel = Chain-fuel mi.amount m (own is l + 12 + r) q zs c in
        let kept : (read_header m (span l.before)).size ≡ l.left.size =
          ap (λ x. x.size)
            (read_header-congr mi.memory m (span l.before)
              (λ i _ h. same i (OffHeaders-below (own is l + 12 + r) zs i (omega arith))))
          ∙ old.1 in
        let (m', e, c', same') =
          write_header-Written junk mi.amount (omega arith) mi.amount m (own is l) true r
            l.left.size q zs c (omega arith) (omega arith) in
        let z = absorb-true r zs in
        rw (kept, e)
          (finish_own m' (block true r ∷ zs)
            (subst (λ x. Chain mi.amount m' (own is l) l.left.size x) z c') t
            (λ i off. same' i (subst (λ x. OffHeaders (own is l) x i) (sym z) off) ∙ same i off.1))

    -- a free block behind the resized one, and then the block's own header
    pub split_off :
        (r f q : ℕ) (cs : List Block)
        → Chain mi.amount mi.memory (own is l + 12 + r + 12 + f) q cs
        → Tidy (not l.left.busy) (block true r ∷ absorb false f cs)
        → r < 2 ^ 32
        → Resized (block true r ∷ absorb false f cs) (
            write_header junk mi.amount mi.memory (own is l + r + 12) false f r
            >>= (λ m. keep_place junk memfree mi addr (own is l) (span l.before) m r))
    split_off r f q cs c t hr =
        let le = own-lt is l in
        let sm = is.small in
        let fuel = Chain-fuel mi.amount mi.memory (own is l + 12 + r + 12 + f) q cs c in
        let here : own is l + r + 12 ≡ own is l + 12 + r = omega arith in
        let there : own is l + 12 + r + 12 + f ≡ own is l + r + 12 + 12 + f = omega arith in
        let cs' = absorb false f cs in
        let (m, e, c', same) =
          write_header-Written junk mi.amount (omega arith) mi.amount mi.memory (own is l + r + 12)
            false f r q cs (subst (λ x. Chain mi.amount mi.memory x q cs) there c) hr
            (omega arith) in
        rw e (
          keep_place-Resized m r r cs' (subst (λ x. Chain mi.amount m x r cs') here c') t
            (λ i off. same i (subst (λ x. OffHeaders x cs' i) (sym here) off)))
