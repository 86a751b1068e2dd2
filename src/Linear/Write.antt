-- ===== src/Linear/Write.antt =====
-- What `write_header` does to a chain.
use system_sw.Prelude.{
  ℕ, zero, suc, ◌+◌, ◌<◌, ◌^◌, ◌≡◌, ◌∙◌, ap, subst, sym, Bool, true, false, not, ◌&&◌,
  if◌then◌else◌, inl, inr, some, List, [], ◌∷◌, arith, length, Bool-cases,
}
use system_sw.Prelude.Word.{wrap, wrap_small}
use system_sw.Memory.{Bytes}
use system_sw.Linear.{read_header, is_busy, size_h, write_raw_header, write_pair, write_header}
use system_sw.Linear.Header.{read_header-congr, raw_header_lem, raw_header_frame}
use system_sw.Linear.Chain.{
  Block, block, Chain, OffHeaders, Written, off_head, Chain-le, Chain-SameFrom,
}

-- A block of size `s` in front of `bs`; a free one absorbs the free blocks at the head of `bs`.
unfoldable pub absorb : Bool → ℕ → List Block → List Block
absorb b s [] = block b s ∷ []
absorb b s (c ∷ bs) =
    if not b && not c.busy then absorb false (s + c.size + 12) bs else block b s ∷ c ∷ bs

module _ (junk : Bytes → Bytes) (amount : ℕ) (small : amount < 2 ^ 32) where
  -- a new `prev_size` in the header at the head of a chain
  retarget :
      (m : Bytes) (o p q : ℕ) (bs : List Block)
      → Chain amount m o p bs
      → q < 2 ^ 32
      → let h = read_header m o in
        Chain amount (write_raw_header junk m o (is_busy h) h.size q) o q bs
  retarget m o p q [] c hq =
      let h = read_header m o in
      let r = raw_header_lem junk m o (is_busy h) h.size q (omega arith) hq in
      (r.0 ∙ c.0, rw r.1 c.1)
  retarget m o p q (b ∷ bs) c hq =
      let h = read_header m o in
      let le = Chain-le amount m o p (b ∷ bs) c in
      let r = raw_header_lem junk m o (is_busy h) h.size q (omega arith) hq in
      (
        r.0 ∙ c.0,
        r.1 ∙ c.1,
        r.2,
        Chain-SameFrom amount m _ (o + 12 + b.size) b.size bs
            (λ i l. raw_header_frame junk m o (is_busy h) h.size q i (inr (omega arith))) c.3,
      )

  module _ (m : Bytes) (o : ℕ) (b : Bool) (s p q : ℕ) (bs : List Block)
      (c : Chain amount m (o + 12 + s) q bs) (hp : p < 2 ^ 32) where
    next_offset : wrap (o + s + size_h) ≡ o + 12 + s
    next_offset =
        let le = Chain-le amount m (o + 12 + s) q bs c in
        wrap_small (o + s + 12) (omega arith) ∙ omega arith

    -- the two headers that are written, with the offset of the second one computed
    two_headers : Bytes
    two_headers =
        let m' = write_raw_header junk m o b s p in
        let h = read_header m' (o + 12 + s) in
        write_raw_header junk m' (o + 12 + s) (is_busy h) h.size s

    write_pair_lem : write_pair junk m o b s p ≡ two_headers
    unfolding write_pair two_headers
    write_pair_lem = rw next_offset

    two_headers-Chain : Chain amount two_headers o p (block b s ∷ bs)
    unfolding two_headers
    two_headers-Chain =
        let n = o + 12 + s in
        let le = Chain-le amount m n q bs c in
        let m' = write_raw_header junk m o b s p in
        let h = read_header m' n in
        let m2 = write_raw_header junk m' n (is_busy h) h.size s in
        let r = raw_header_lem junk m o b s p (omega arith) hp in
        let e : read_header m2 o ≡ read_header m' o =
          read_header-congr m' m2 o
            (λ i _ l. raw_header_frame junk m' n (is_busy h) h.size s i (inl (omega arith))) in
        let c' : Chain amount m' n q bs =
          Chain-SameFrom amount m m' n q bs
            (λ i l. raw_header_frame junk m o b s p i (inr (omega arith))) c in
        (
          ap is_busy e ∙ r.0,
          ap (λ h. h.size) e ∙ r.1,
          ap (λ h. h.prev_size) e ∙ r.2,
          retarget m' n q s bs c' (omega arith),
        )

    write_pair-Chain : Chain amount (write_pair junk m o b s p) o p (block b s ∷ bs)
    write_pair-Chain =
        subst (λ w. Chain amount w o p (block b s ∷ bs)) (sym write_pair_lem) two_headers-Chain

    write_pair-frame : (i : ℕ) → OffHeaders o (block b s ∷ bs) i → write_pair junk m o b s p i ≡ m i
    unfolding write_pair
    write_pair-frame i off =
        let n = o + 12 + s in
        let m' = write_raw_header junk m o b s p in
        let h = read_header m' n in
        rw next_offset (
          raw_header_frame junk m' n (is_busy h) h.size s i (off_head n bs i off.1)
          ∙ raw_header_frame junk m o b s p i off.0)

    write_header_keep :
        (f : ℕ)
        → (not b && not (is_busy (read_header m (o + 12 + s)))) ≡ false
        → write_header junk (suc f) m o b s p ≡ some (write_pair junk m o b s p)
    unfolding write_header
    write_header_keep f e = rw (next_offset, e)

    write_header_expand :
        (f : ℕ)
        → (not b && not (is_busy (read_header m (o + 12 + s)))) ≡ true
        → write_header junk (suc f) m o b s p
          ≡ write_header junk f m o false (wrap (s + (read_header m (o + 12 + s)).size + size_h)) p
    unfolding write_header
    write_header_expand f e = rw (next_offset, e)

  write_header-keep :
      (f : ℕ) (m : Bytes) (o : ℕ) (b : Bool) (s p q : ℕ) (bs : List Block)
      → Chain amount m (o + 12 + s) q bs
      → p < 2 ^ 32
      → (not b && not (is_busy (read_header m (o + 12 + s)))) ≡ false
      → Written amount m o p (block b s ∷ bs) (write_header junk (suc f) m o b s p)
  write_header-keep f m o b s p q bs c hp e = (
    write_pair junk m o b s p,
    write_header_keep m o b s p q bs c hp f e,
    write_pair-Chain m o b s p q bs c hp,
    write_pair-frame m o b s p q bs c hp,
  )

  pub write_header-Written :
      (f : ℕ) (m : Bytes) (o : ℕ) (b : Bool) (s p q : ℕ) (bs : List Block)
      → Chain amount m (o + 12 + s) q bs
      → p < 2 ^ 32
      → length bs < f
      → Written amount m o p (absorb b s bs) (write_header junk f m o b s p)
  unfolding absorb
  write_header-Written zero m o b s p q bs c hp hf = absurd (omega arith)
  write_header-Written (suc f) m o b s p q [] c hp hf =
      write_header-keep f m o b s p q [] c hp (rw c.0 (ground arith))
  write_header-Written (suc f) m o b s p q (d ∷ bs) c hp hf =
      elim (Bool-cases (not b && not d.busy)) [
        | inr e ↦ rw e (write_header-keep f m o b s p q (d ∷ bs) c hp (rw c.0 e))
        | inl e ↦
            let at_next : o + 12 + s + 12 + d.size ≡ o + 12 + (s + d.size + 12) = omega arith in
            let le = Chain-le amount m (o + 12 + s) q (d ∷ bs) c in
            rw (e, write_header_expand m o b s p q (d ∷ bs) c hp f (rw c.0 e), c.1)
              (rw (wrap_small (s + d.size + 12) (omega arith)) (
                write_header-Written f m o false (s + d.size + 12) p d.size bs
                  (subst (λ k. Chain amount m k d.size bs) at_next c.3) hp (omega arith)))
      ]
