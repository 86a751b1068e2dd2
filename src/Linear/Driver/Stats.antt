-- ===== src/Linear/Driver/Stats.antt =====
-- The runs that the statistics time: all the memory is allocated, and freed again.
use system_sw.Prelude.{
  ℕ, zero, suc, ◌+◌, ◌-◌, ◌≤◌, ◌<◌, ◌≡◌, ◌∙◌, refl, sym, ap, inl, inr, true, false, ◌&&◌, Option,
  none, some, List, [], ◌∷◌, ◌++◌, arith, length, ◌>>=◌, ◌⊎◌, ltb, leb, if◌then◌else◌, ltb→lt,
  Bool-cases,
}
use system_sw.Memory.{Bytes}
use system_sw.Linear.{AlcInfo, mem_alloc}
use system_sw.Linear.Chain.{Block, block, span}
use system_sw.Linear.Write.{absorb}
use system_sw.Linear.Heap.{IsHeap, round_up}
use system_sw.Linear.Alloc.{place, first_fit}
use system_sw.Linear.Alloc.Refine.{mem_alloc-first_fit}
use system_sw.Linear.Driver.{alloc_until}

-- busy blocks of the sizes, and a free one behind them if there is one
abbrev pub busies : List ℕ → List Block
busies [] = []
busies (s ∷ ss) = block true s ∷ busies ss

abbrev pub tail_of : Option ℕ → List Block
tail_of none = []
tail_of (some u) = block false u ∷ []

abbrev pub blocks : List ℕ → Option ℕ → List Block
blocks ss tail = busies ss ++ tail_of tail

-- the addresses of blocks that stand from offset `o` on
abbrev pub addresses : ℕ → List ℕ → List ℕ
addresses o [] = []
addresses o (t ∷ ts) = (o + 12) ∷ addresses (o + 12 + t) ts

blocks-snoc :
    (ss : List ℕ) (r : ℕ) (tail : Option ℕ)
    → blocks (ss ++ r ∷ []) tail ≡ busies ss ++ block true r ∷ tail_of tail
blocks-snoc [] r tail = refl
blocks-snoc (s ∷ ss) r tail = ap (λ x. block true s ∷ x) (blocks-snoc ss r tail)

append_nil : (ss : List ℕ) → ss ++ [] ≡ ss
append_nil [] = refl
append_nil (s ∷ ss) = ap (λ x. s ∷ x) (append_nil ss)

append_snoc : (ss : List ℕ) (t : ℕ) (ts : List ℕ) → (ss ++ t ∷ []) ++ ts ≡ ss ++ t ∷ ts
append_snoc [] t ts = refl
append_snoc (s ∷ ss) t ts = ap (λ x. s ∷ x) (append_snoc ss t ts)

span-snoc : (ss : List ℕ) (t : ℕ) → span (busies (ss ++ t ∷ [])) ≡ span (busies ss) + 12 + t
span-snoc [] t = omega arith
span-snoc (s ∷ ss) t = omega (arith, span-snoc ss t)

-- the bytes of the blocks, headers included
abbrev pub total : List ℕ → Option ℕ → ℕ
total ss none = span (busies ss)
total ss (some u) = span (busies ss) + 12 + u

-- what a call of `mem_alloc` finds: no block, or the free one at the end
pub first_fit-busies : (size o : ℕ) (ss : List ℕ) → first_fit size o (busies ss ++ []) ≡ none
unfolding first_fit
first_fit-busies size o [] = refl
first_fit-busies size o (s ∷ ss) =
    let k : (leb size s && false) ≡ false = ground arith in
    rw (k, first_fit-busies size (o + 12 + s) ss) refl

pub first_fit_too_small :
    (size o u : ℕ) (ss : List ℕ) → u < size → first_fit size o (blocks ss (some u)) ≡ none
unfolding first_fit
first_fit_too_small size o u [] h = let k : (leb size u && true) ≡ false = ground arith in rw k refl
first_fit_too_small size o u (s ∷ ss) h =
    let k : (leb size s && false) ≡ false = ground arith in
    rw (k, first_fit_too_small size (o + 12 + s) u ss h) refl

first_fit_last :
    (size o u : ℕ) (ss : List ℕ)
    → size ≤ u
    → first_fit size o (blocks ss (some u))
      ≡ some (o + span (busies ss) + 12, busies ss ++ place (round_up size) u [])
unfolding first_fit
first_fit_last size o u [] h =
    let k : (leb size u && true) ≡ true = ground arith in
    let z : o + 0 ≡ o = omega arith in rw (k, z) refl
first_fit_last size o u (s ∷ ss) h =
    let k : (leb size s && false) ≡ false = ground arith in
    let z : o + (12 + s + span (busies ss)) ≡ o + 12 + s + span (busies ss) = omega arith in
    rw (k, first_fit_last size (o + 12 + s) u ss h, z) refl

-- the blocks after a call that takes a block from the free one of `u` bytes
taken : ℕ → ℕ → ℕ × Option ℕ
taken size u = let r = round_up size in if leb 12 (u - r) then (r, some (u - r - 12)) else (u, none)

taken-place :
    (size u : ℕ) (ss : List ℕ)
    → let (t, tail) = taken size u in
      (busies ss ++ place (round_up size) u [] ≡ blocks (ss ++ t ∷ []) tail)
unfolding taken place absorb
taken-place size u ss = elim (Bool-cases (leb 12 (u - round_up size))) [
  | inl k ↦ rw k (sym (blocks-snoc ss (round_up size) (some (u - round_up size - 12))))
  | inr k ↦ rw k (sym (blocks-snoc ss u none))
]

taken-total :
    (size u : ℕ) (ss : List ℕ)
    → size ≤ u
    → let (t, tail) = taken size u in (total (ss ++ t ∷ []) tail ≡ total ss (some u))
unfolding taken
taken-total size u ss h = elim (Bool-cases (leb 12 (u - round_up size))) [
  | inl k ↦
      let room : 12 ≤ u - round_up size = ground arith in
      rw k (omega (arith, room, span-snoc ss (round_up size)))
  | inr k ↦ rw k (omega (arith, span-snoc ss u))
]

-- no block of `size` bytes is left
abbrev pub Exhausted : ℕ → Option ℕ → Type 0
Exhausted size none = Unit
Exhausted size (some u) = u < size

-- the bytes of the free block
abbrev pub free_bytes : Option ℕ → ℕ
free_bytes none = 0
free_bytes (some u) = u + 1

taken-less : (size u : ℕ) → 0 < size → size ≤ u → free_bytes (taken size u).1 < free_bytes (some u)
unfolding taken
taken-less size u p h = elim (Bool-cases (leb 12 (u - round_up size))) [
  | inl k ↦ rw k (ground arith)
  | inr k ↦ rw k (omega arith)
]

answers :
    (o : Option (Option ℕ × AlcInfo))
    → (o ≡ none)
      ⊎ (((mi : AlcInfo) × (o ≡ some (none, mi)))
          ⊎ ((a : ℕ) × (mi : AlcInfo) × (o ≡ some (some a, mi))))
answers none = inl refl
answers (some (none, mi)) = inr (inl (mi, refl))
answers (some (some a, mi)) = inr (inr (a, mi, refl))

module _ (junk : Bytes → Bytes) where
  -- the loop that allocates, with a list that has no end
  pub alloc_all : ℕ → ℕ → AlcInfo → Option (List ℕ × AlcInfo)
  alloc_all zero size mi = none
  alloc_all (suc f) size mi = mem_alloc junk size mi >>= (λ (p, mi'). elim p [
    | none ↦ some ([], mi')
    | some a ↦ alloc_all f size mi' >>= (λ (list, out). some (a ∷ list, out))
  ])

  -- what the loop is with an array of `places` places
  abbrev pub within_places : ℕ → Option (List ℕ × AlcInfo) → Option (List ℕ × AlcInfo)
  within_places places none = none
  within_places places (some (list, mi)) =
      if ltb (length list) places then some (list, mi) else none

  within_places-cons :
      (places a : ℕ) (r : Option (List ℕ × AlcInfo))
      → (within_places places r >>= (λ (list, out). some (a ∷ list, out)))
        ≡ within_places (suc places) (r >>= (λ (list, out). some (a ∷ list, out)))
  within_places-cons places a none = refl
  within_places-cons places a (some (list, mi)) =
      let e : ltb (suc (length list)) (suc places) ≡ ltb (length list) places = ground arith in
      elim (Bool-cases (ltb (length list) places)) [
        | inl t ↦ rw (e, t) refl
        | inr t ↦ rw (e, t) refl
      ]

  no_places : (r : Option (List ℕ × AlcInfo)) → within_places 0 r ≡ none
  no_places none = refl
  no_places (some (list, mi)) = let e : ltb (length list) 0 ≡ false = ground arith in rw e refl

  pub alloc_until-alloc_all :
      (f places size : ℕ) (mi : AlcInfo)
      → alloc_until junk f places size mi ≡ within_places places (alloc_all f size mi)
  unfolding alloc_until alloc_all
  alloc_until-alloc_all zero places size mi = refl
  alloc_until-alloc_all (suc f) zero size mi = sym (no_places (alloc_all (suc f) size mi))
  alloc_until-alloc_all (suc f) (suc places) size mi = elim (answers (mem_alloc junk size mi)) [
    | inl e ↦ rw e refl
    | inr (inl (mi', e)) ↦ let z : ltb 0 (suc places) ≡ true = ground arith in rw (e, z) refl
    | inr (inr (a, mi', e)) ↦
        let rest = alloc_until-alloc_all f places size mi' in
        rw (e, rest) (within_places-cons places a (alloc_all f size mi'))
  ]

  -- what the loop that allocates gives, begun with blocks `ss` and `tail`
  abbrev pub Takes : ℕ → List ℕ → Option ℕ → AlcInfo → Option (List ℕ × AlcInfo) → Type 0
  Takes size ss tail mi run =
      (ts : List ℕ) × (tail' : Option ℕ) × (mi' : AlcInfo) × (run
        ≡ some (addresses (12 + span (busies ss)) ts, mi'))
      × IsHeap mi' (blocks (ss ++ ts) tail')
      × (mi'.amount ≡ mi.amount)
      × Exhausted size tail'
      × (total (ss ++ ts) tail' ≡ total ss tail)

  nothing_taken :
      (f size : ℕ) (ss : List ℕ) (tail : Option ℕ) (mi : AlcInfo)
      → Exhausted size tail
      → IsHeap mi (blocks ss tail)
      → mem_alloc junk size mi ≡ some (none, mi)
      → Takes size ss tail mi (alloc_all (suc f) size mi)
  unfolding alloc_all
  nothing_taken f size ss tail mi out is run =
      let all = append_nil ss in
      rw run ([], tail, mi, refl, rw all is, refl, out, ap (λ x. total x tail) all)

  pub alloc_all-Takes :
      (f size : ℕ) (ss : List ℕ) (tail : Option ℕ) (mi : AlcInfo)
      → 0 < size
      → free_bytes tail < f
      → IsHeap mi (blocks ss tail)
      → Takes size ss tail mi (alloc_all f size mi)
  unfolding alloc_all
  alloc_all-Takes zero size ss tail mi p h is = absurd (omega arith)
  alloc_all-Takes (suc f) size ss none mi p h is =
      nothing_taken f size ss none mi tt is
        (rw (first_fit-busies size 12 ss) at (mem_alloc-first_fit junk mi (blocks ss none) is size))
  alloc_all-Takes (suc f) size ss (some u) mi p h is = elim (Bool-cases (ltb u size)) [
    | inl k ↦ nothing_taken f size ss (some u) mi (ltb→lt _ _ k) is (
        rw (first_fit_too_small size 12 u ss (ltb→lt _ _ k)) at
          (mem_alloc-first_fit junk mi (blocks ss (some u)) is size))
    | inr k ↦
        let fits : size ≤ u = ground arith in
        let (t, tail) = taken size u in
        let less = taken-less size u p fits in
        let (mi1, run, is1, am, frame) =
          rw (first_fit_last size 12 u ss fits, taken-place size u ss) at
            (mem_alloc-first_fit junk mi (blocks ss (some u)) is size) in
        let (ts, tail', mi', runs, is', am', out, sum) =
          alloc_all-Takes f size (ss ++ t ∷ []) tail mi1 p (omega arith) is1 in
        let here : 12 + span (busies (ss ++ t ∷ [])) ≡ 12 + span (busies ss) + 12 + t =
          omega (arith, span-snoc ss t) in
        rw (run, runs, here)
          (
            t ∷ ts,
            tail',
            mi',
            refl,
            rw (append_snoc ss t ts) at is',
            am' ∙ am,
            out,
            (rw (append_snoc ss t ts) at sum) ∙ taken-total size u ss fits,
          )
  ]
