-- ===== src/Linear/Free.antt =====
-- `mem_free` gives a block back and joins it with the free blocks on either side.
use system_sw.Prelude.{
  ℕ, ◌+◌, ◌%◌, ◌^◌, ◌<◌, ◌≡◌, ◌∙◌, refl, sym, ap, subst, Bool, true, false, not, inl, inr, Option,
  some, List, [], ◌∷◌, arith, Bool-cases, if◌then◌else◌,
}
use system_sw.Prelude.Word.{wrap, wrap_small}
use system_sw.Memory.{Bytes}
use system_sw.Linear.{AlcInfo, size_h, read_header, is_busy, write_header, mem_free}
use system_sw.Linear.Header.{read_header-congr}
use system_sw.Linear.Chain.{
  Block, block, span, last_size, last_size-le, Chain, Chain-le, OffHeaders, OffHeaders-below,
  Written,
}
use system_sw.Linear.Write.{absorb, write_header-Written}
use system_sw.Linear.Heap.{Tidy, IsHeap, absorb-free, absorb-Tidy, Chain-fuel}
use system_sw.Linear.Located.{
  Located, Replaced, own, own-lt, own_offset, left_offset, right_offset, part-OffHeaders,
  part-Chain, part-Tidy, replace,
}

-- a block of size `s`, freed behind the block `a` and in front of `bs`
pub merge : Block → ℕ → List Block → List Block
merge a s bs = if a.busy then a ∷ absorb false s bs else absorb false (a.size + 12 + s) bs

pub merge-busy :
    (a : Block) (s : ℕ) (bs : List Block) → a.busy ≡ true → merge a s bs ≡ a ∷ absorb false s bs
unfolding merge
merge-busy a s bs e = simp e

pub merge-free :
    (a : Block) (s : ℕ) (bs : List Block)
    → a.busy ≡ false
    → merge a s bs ≡ absorb false (a.size + 12 + s) bs
unfolding merge
merge-free a s bs e = simp e

merge-Tidy :
    (f : Bool) (a : Block) (s : ℕ) (bs : List Block)
    → Tidy f (a ∷ block true s ∷ bs)
    → Tidy f (merge a s bs)
merge-Tidy f a s bs t = elim (Bool-cases a.busy) [
  | inl k ↦
      subst (λ x. Tidy f x) (sym (merge-busy a s bs k))
        (t.0, t.1, absorb-Tidy false (not a.busy) false s bs t.2.2 t.2.0 (ground arith))
  | inr k ↦
      let e : (a.size + 12 + s) % 4 ≡ 0 = let x = t.0 in let y = t.2.0 in omega arith in
      subst (λ x. Tidy f x) (sym (merge-free a s bs k))
        (absorb-Tidy false f false (a.size + 12 + s) bs t.2.2 e (let x = t.1 in ground arith))
]

module _ (junk : Bytes → Bytes) (mi : AlcInfo) (small : mi.amount < 2 ^ 31) where
  -- the end of `mem_free`: the block on the right is joined if it is free, and the header written
  release-Written :
      (o p s q : ℕ) (bs : List Block)
      → Chain mi.amount mi.memory (o + 12 + s) q bs
      → p < 2 ^ 32
      → let nh = read_header mi.memory (o + 12 + s) in
        Written mi.amount mi.memory o p (absorb false s bs) (
          write_header junk mi.amount mi.memory o false
            (if is_busy nh then s else wrap (s + wrap (nh.size + size_h)))
            p)
  release-Written o p s q [] c hp =
      let fuel = Chain-fuel mi.amount mi.memory (o + 12 + s) q [] c in
      rw c.0 (
        write_header-Written junk mi.amount (omega arith) mi.amount mi.memory o false s p q [] c hp
          (omega arith))
  release-Written o p s q (d ∷ bs) c hp =
      let fuel = Chain-fuel mi.amount mi.memory (o + 12 + s) q (d ∷ bs) c in
      let le = Chain-le mi.amount mi.memory (o + 12 + s) q (d ∷ bs) c in
      elim (Bool-cases d.busy) [
        | inl k ↦ rw (c.0 ∙ k) (
            write_header-Written junk mi.amount (omega arith) mi.amount mi.memory o false s p q
              (d ∷ bs) c hp (omega arith))
        | inr k ↦
            let there : o + 12 + s + 12 + d.size ≡ o + 12 + (s + d.size + 12) = omega arith in
            let total : s + (d.size + 12) ≡ s + d.size + 12 = omega arith in
            rw
              (
                c.0 ∙ k,
                c.1,
                wrap_small (d.size + 12) (omega arith),
                total,
                wrap_small (s + d.size + 12) (omega arith),
                absorb-free s d bs k,
              )
              (write_header-Written junk mi.amount (omega arith) mi.amount mi.memory o false
                (s + d.size + 12) p d.size bs
                (subst (λ x. Chain mi.amount mi.memory x d.size bs) there c.3) hp (omega arith))
      ]

  release-at :
      (o p s n q : ℕ) (bs : List Block)
      → o + 12 + s ≡ n
      → Chain mi.amount mi.memory n q bs
      → p < 2 ^ 32
      → let nh = read_header mi.memory n in
        Written mi.amount mi.memory o p (absorb false s bs) (
          write_header junk mi.amount mi.memory o false
            (if is_busy nh then s else wrap (s + wrap (nh.size + size_h)))
            p)
  release-at o p s n q bs e c hp =
      subst
        (λ x. Written mi.amount mi.memory o p (absorb false s bs) (
          write_header junk mi.amount mi.memory o false
            (if is_busy (read_header mi.memory x)
              then s
              else wrap (s + wrap ((read_header mi.memory x).size + size_h)))
            p))
        e (release-Written o p s q bs (subst (λ x. Chain mi.amount mi.memory x q bs) (sym e) c) hp)

module _ {mi : AlcInfo} {bs : List Block} {addr s : ℕ} (is : IsHeap mi bs)
    (l : Located bs addr s) where
  -- what `mem_free` leaves and returns
  abbrev pub Released : Option AlcInfo → Type 0
  Released r =
      (mi' : AlcInfo) × (bs' : List Block) × (r ≡ some mi')
      × Replaced l (merge l.left s l.after) bs'
      × IsHeap mi' bs'
      × (mi'.amount ≡ mi.amount)
      × ((i : ℕ) → OffHeaders 0 (block true 0 ∷ bs') i → mi'.memory i ≡ mi.memory i)

  finish :
      (m' : Bytes)
      → Chain mi.amount m' (span l.before) (last_size 0 l.before) (merge l.left s l.after)
      → ((i : ℕ) → OffHeaders (span l.before) (merge l.left s l.after) i → m' i ≡ mi.memory i)
      → Released (some (record mi { memory = m' }))
  finish m' c same =
      let zs = merge l.left s l.after in
      let (bs', e, is') =
        replace is l m' zs (λ i h. same i (OffHeaders-below (span l.before) zs i h)) c
          (merge-Tidy _ l.left s l.after (part-Tidy is l))
          (λ k. (absorb false s l.after, merge-busy l.left s l.after k)) in
      (
        record mi { memory = m' },
        bs',
        refl,
        e,
        is',
        refl,
        λ i off. same i (part-OffHeaders is l zs bs' i e off),
      )

  module _ (junk : Bytes → Bytes) where
    busy_left : l.left.busy ≡ true → Released (mem_free junk addr mi)
    unfolding mem_free
    busy_left k =
        let c = part-Chain is l in
        let le = own-lt is l in
        let sm = is.small in
        let (m', r, c', same) =
          release-at junk mi is.small (own is l) l.left.size s ((own is l) + 12 + s) s l.after refl
            c.3.3 (omega arith) in
        let zs = absorb false s l.after in
        let kept : read_header m' (span l.before) ≡ read_header mi.memory (span l.before) =
          read_header-congr mi.memory m' (span l.before)
            (λ i _ h. same i (OffHeaders-below (own is l) zs i (omega arith))) in
        let e = sym (merge-busy l.left s l.after k) in
        rw (own_offset is l, c.3.1, c.3.2, left_offset is l, right_offset is l, c.0 ∙ k, r)
          (finish m'
            (subst (λ x. Chain mi.amount m' (span l.before) (last_size 0 l.before) x) e
              (
                ap is_busy kept ∙ c.0,
                ap (λ x. x.size) kept ∙ c.1,
                ap (λ x. x.prev_size) kept ∙ c.2,
                c',
              ))
            (λ i off.
              same i
                (subst (λ x. OffHeaders (span l.before) x i) (merge-busy l.left s l.after k)
                  off).1))

    free_left : l.left.busy ≡ false → Released (mem_free junk addr mi)
    unfolding mem_free
    free_left k =
        let c = part-Chain is l in
        let le = own-lt is l in
        let sm = is.small in
        let total : s + (l.left.size + 12) ≡ l.left.size + 12 + s = omega arith in
        let p = last_size 0 l.before in
        let small_p : p < 2 ^ 32 = omega (arith, last_size-le 0 l.before) in
        let (m', r, c', same) =
          release-at junk mi is.small (span l.before) p (l.left.size + 12 + s) ((own is l) + 12 + s)
            s l.after (omega arith) c.3.3 small_p in
        rw
          (
            own_offset is l,
            c.3.1,
            c.3.2,
            left_offset is l,
            right_offset is l,
            c.0 ∙ k,
            c.1,
            c.2,
            wrap_small (l.left.size + 12) (omega arith),
            total,
            wrap_small (l.left.size + 12 + s) (omega arith),
            r,
          )
          (finish m'
            (subst (λ x. Chain mi.amount m' (span l.before) p x)
              (sym (merge-free l.left s l.after k)) c')
            (λ i off.
              same i
                (subst (λ x. OffHeaders (span l.before) x i) (merge-free l.left s l.after k) off)))

    -- On a valid region `mem_free` of a busy block's address ends and leaves a valid region, in
    -- which the block is free and joined with the free blocks that stood on its left and right; it
    -- writes to headers of the new region alone.
    pub mem_free-merge : Released (mem_free junk addr mi)
    mem_free-merge = elim (Bool-cases l.left.busy) [ inl k ↦ busy_left k | inr k ↦ free_left k ]
