-- ===== src/Linear/Init.antt =====
-- `alc_init` sets up a valid region with one free block.
use system_sw.Prelude.{
  ℕ, ◌+◌, ◌-◌, ◌*◌, ◌/◌, ◌^◌, ◌≤◌, ◌<◌, ◌≡◌, ◌∙◌, refl, ap, Bool, true, false, ◌⊎◌, inl, inr, some,
  [], ◌∷◌, arith,
}
use system_sw.Prelude.Word.{wrap, wrap_small, sub32_small}
use system_sw.Memory.{Bytes}
use system_sw.Linear.{
  AlcInfo, BlockHeader, ceil_4, floor_4, read_header, is_busy, write_raw_header, alc_init,
}
use system_sw.Linear.Header.{read_header-congr, raw_header_lem, raw_header_frame}
use system_sw.Linear.Chain.{block, Chain}
use system_sw.Linear.Heap.{IsHeap}

-- what `h` says of its block
abbrev Says : BlockHeader → Bool → ℕ → ℕ → Type 0
Says h b s p = (is_busy h ≡ b) × (h.size ≡ s) × (h.prev_size ≡ p)

floor_4_lem : (n : ℕ) → floor_4 n ≡ n / 4 * 4
unfolding floor_4
floor_4_lem n = omega arith

ceil_4-size_h : ceil_4 12 ≡ 12
unfolding ceil_4 wrap
ceil_4-size_h = refl

module _ (junk : Bytes → Bytes) where
  -- a header stays when another one is written apart from it
  keep :
      (m : Bytes) (o o' : ℕ) (b b' : Bool) (s s' p p' : ℕ)
      → (o + 12 ≤ o') ⊎ (o' + 12 ≤ o)
      → Says (read_header m o) b s p
      → Says (read_header (write_raw_header junk m o' b' s' p') o) b s p
  keep m o o' b b' s s' p p' apart h =
      let e =
        read_header-congr m (write_raw_header junk m o' b' s' p') o
          (λ i l u. raw_header_frame junk m o' b' s' p' i (beside i l u apart)) in
      (ap is_busy e ∙ h.0, ap (λ x. x.size) e ∙ h.1, ap (λ x. x.prev_size) e ∙ h.2)
    where
      beside :
          (i : ℕ) → o ≤ i → i < o + 12 → (o + 12 ≤ o') ⊎ (o' + 12 ≤ o) → (i < o') ⊎ (o' + 12 ≤ i)
      beside i l u (inl a) = inl (omega arith)
      beside i l u (inr a) = inr (omega arith)

  -- the three headers that `alc_init` writes, its offsets computed
  abbrev three : Bytes → ℕ → ℕ → Bytes
  three mem f n =
      write_raw_header junk
        (write_raw_header junk (write_raw_header junk mem 0 true 0 0) 12 false f 0) (f + 24) true
        (n - (f + 36)) 0

  three-Chain :
      (mem : Bytes) (f n : ℕ)
      → f + 36 ≤ n
      → n < 2 ^ 31
      → Chain n (three mem f n) 0 0 (block true 0 ∷ block false f ∷ [])
  three-Chain mem f n h l =
      let m1 = write_raw_header junk mem 0 true 0 0 in
      let m2 = write_raw_header junk m1 12 false f 0 in
      let r1 = raw_header_lem junk mem 0 true 0 0 (omega arith) (omega arith) in
      let r2 = raw_header_lem junk m1 12 false f 0 (omega arith) (omega arith) in
      let r3 = raw_header_lem junk m2 (f + 24) true (n - (f + 36)) 0 (omega arith) (omega arith) in
      let k1 = keep m1 0 12 true false 0 f 0 0 (inl (omega arith)) r1 in
      let k2 = keep m2 0 (f + 24) true true 0 (n - (f + 36)) 0 0 (inl (omega arith)) k1 in
      let k3 = keep m2 12 (f + 24) false true f (n - (f + 36)) 0 0 (inl (omega arith)) r2 in
      let e : 24 + f ≡ f + 24 = omega arith in
      (
        k2.0,
        k2.1,
        k2.2,
        (
          k3.0,
          k3.1,
          k3.2,
          (
            ap (λ o. is_busy (read_header (three mem f n) o)) e ∙ r3.0,
            let s = ap (λ o. (read_header (three mem f n) o).size) e ∙ r3.1 in omega arith,
          ),
        ),
      )

  -- the run of `alc_init`, with its words computed
  alc_init_run :
      (n f : ℕ) (mem : Bytes)
      → 36 ≤ n
      → n < 2 ^ 31
      → floor_4 (n - 36) ≡ f
      → f + 36 ≤ n
      → alc_init junk n (some mem) ≡ some (record { amount = n; memory = three mem f n })
  unfolding alc_init
  alc_init_run n f mem h l e le =
      let a : n - 12 - 24 ≡ n - 36 = omega arith in
      let b : f + 12 + 12 ≡ f + 24 = omega arith in
      let c : f + 24 + 12 ≡ f + 36 = omega arith in
      rw (
        ceil_4-size_h,
        sub32_small 12 12 (omega arith) (omega arith),
        sub32_small n 12 (omega arith) (omega arith),
        sub32_small (n - 12) 24 (omega arith) (omega arith),
        a,
        e,
        b,
        wrap_small (f + 24) (omega arith),
        c,
        wrap_small (f + 36) (omega arith),
        sub32_small n (f + 36) le (omega arith),
      )

  -- Given `malloc`'s memory of 36 bytes or more, fewer than 2 ^ 31, `alc_init` makes a valid region
  -- of that amount, in which one free block takes all but the three headers, rounded down to words.
  pub alc_init-IsHeap :
      (n : ℕ) (mem : Bytes)
      → 36 ≤ n
      → n < 2 ^ 31
      → (mi : AlcInfo) × (alc_init junk n (some mem) ≡ some mi)
        × (mi.amount ≡ n)
        × IsHeap mi (block false ((n - 36) / 4 * 4) ∷ [])
  alc_init-IsHeap n mem h l =
      let f = (n - 36) / 4 * 4 in
      let le : f + 36 ≤ n = omega arith in
      (
        record { amount = n; memory = three mem f n },
        alc_init_run n f mem h l (floor_4_lem (n - 36)) le,
        refl,
        record { chain = three-Chain mem f n le l; small = l; tidy = (omega arith, refl, tt) },
      )
