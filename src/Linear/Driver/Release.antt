-- ===== src/Linear/Driver/Release.antt =====
-- All the blocks of a region, freed from the first to the last.
use system_sw.Prelude.{
  ℕ, ◌+◌, ◌≡◌, ◌∙◌, refl, ap, subst, true, false, Option, none, some, List, [], ◌∷◌, arith,
}
use system_sw.Memory.{Bytes}
use system_sw.Linear.{AlcInfo}
use system_sw.Linear.Chain.{Block, block}
use system_sw.Linear.Write.{absorb}
use system_sw.Linear.Heap.{IsHeap}
use system_sw.Linear.Located.{Located}
use system_sw.Linear.Free.{merge-busy, merge-free, mem_free-merge}
use system_sw.Linear.Driver.{free_all}
use system_sw.Linear.Driver.Stats.{blocks, addresses, total}

-- a free block in front takes in the free block behind it, if no busy one is between
abbrev gap : List ℕ → Option ℕ → ℕ
gap [] none = 0
gap [] (some u) = 12 + u
gap (t ∷ ts) tail = 0

abbrev rest : List ℕ → Option ℕ → Option ℕ
rest [] tail = none
rest (t ∷ ts) tail = tail

absorb-blocks :
    (x : ℕ) (ts : List ℕ) (tail : Option ℕ)
    → absorb false x (blocks ts tail) ≡ block false (x + gap ts tail) ∷ blocks ts (rest ts tail)
unfolding absorb
absorb-blocks x [] none = let z : x ≡ x + 0 = omega arith in ap (λ y. block false y ∷ []) z
absorb-blocks x [] (some u) =
    let z : x + u + 12 ≡ x + (12 + u) = omega arith in ap (λ y. block false y ∷ []) z
absorb-blocks x (t ∷ ts) tail =
    let z : x ≡ x + 0 = omega arith in ap (λ y. block false y ∷ blocks (t ∷ ts) tail) z

addresses-gap :
    (o : ℕ) (ts : List ℕ) (tail : Option ℕ) → addresses (o + gap ts tail) ts ≡ addresses o ts
addresses-gap o [] tail = refl
addresses-gap o (t ∷ ts) tail = let z : o + 0 ≡ o = omega arith in ap (λ x. addresses x (t ∷ ts)) z

total-gap : (ts : List ℕ) (tail : Option ℕ) → gap ts tail + total ts (rest ts tail) ≡ total ts tail
total-gap [] none = refl
total-gap [] (some u) = omega arith
total-gap (t ∷ ts) tail = omega arith

pub total-cons :
    (t : ℕ) (ts : List ℕ) (tail : Option ℕ) → total (t ∷ ts) tail ≡ 12 + t + total ts tail
total-cons t ts none = refl
total-cons t ts (some u) = omega arith

-- no free block stands right behind the one in front
abbrev Calm : List ℕ → Option ℕ → Type 0
Calm [] (some u) = ⊥
Calm [] none = Unit
Calm (t ∷ ts) tail = Unit

rest-Calm : (ts : List ℕ) (tail : Option ℕ) → Calm ts (rest ts tail)
rest-Calm [] tail = tt
rest-Calm (t ∷ ts) tail = tt

tail_eq : (x : Block) (xs ys : List Block) → x ∷ xs ≡ x ∷ ys → xs ≡ ys
tail_eq x xs ys e = cc

module _ (junk : Bytes → Bytes) where
  -- one free block of `w` bytes is left
  abbrev Whole : AlcInfo → ℕ → Option AlcInfo → Type 0
  Whole mi w run =
      (mi' : AlcInfo) × (run ≡ some mi')
      × IsHeap mi' (block false w ∷ [])
      × (mi'.amount ≡ mi.amount)

  free_behind :
      (ts : List ℕ) (v : ℕ) (tail : Option ℕ) (mi : AlcInfo)
      → Calm ts tail
      → IsHeap mi (block false v ∷ blocks ts tail)
      → Whole mi (v + total ts tail) (free_all junk (addresses (24 + v) ts) mi)
  unfolding free_all
  free_behind [] v none mi c is =
      let z : v ≡ v + 0 = omega arith in
      (mi, refl, subst (λ x. IsHeap mi (block false x ∷ [])) z is, refl)
  free_behind [] v (some u) mi c is = absurd c
  free_behind (t ∷ ts) v tail mi c is =
      let l : Located (block false v ∷ blocks (t ∷ ts) tail) (24 + v + 12) t = record {
        before = block true 0 ∷ [];
        left = block false v;
        after = blocks ts tail;
        split = refl;
        place = omega arith;
      } in
      let (mi1, bs', run, split, is1, am, frame) = mem_free-merge is l junk in
      let x = v + 12 + t in
      let left : bs' ≡ block false (x + gap ts tail) ∷ blocks ts (rest ts tail) =
        tail_eq (block true 0) bs' _ split
        ∙ merge-free (block false v) t (blocks ts tail) refl
        ∙ absorb-blocks x ts tail in
      let (mi', runs, is', am') =
        free_behind ts (x + gap ts tail) (rest ts tail) mi1 (rest-Calm ts tail)
          (subst (λ y. IsHeap mi1 y) left is1) in
      let there : addresses (24 + (x + gap ts tail)) ts ≡ addresses (24 + v + 12 + t) ts =
        let z : 24 + (x + gap ts tail) ≡ 24 + v + 12 + t + gap ts tail = omega arith in
        ap (λ y. addresses y ts) z ∙ addresses-gap (24 + v + 12 + t) ts tail in
      let sum : x + gap ts tail + total ts (rest ts tail) ≡ v + total (t ∷ ts) tail =
        omega (arith, total-gap ts tail, total-cons t ts tail) in
      rw run (mi', rw there at runs, subst (λ y. IsHeap mi' (block false y ∷ [])) sum is', am' ∙ am)

  -- freed from the first on, where the first block is busy
  pub free_all-Whole :
      (t : ℕ) (ts : List ℕ) (tail : Option ℕ) (mi : AlcInfo)
      → IsHeap mi (blocks (t ∷ ts) tail)
      → Whole mi (t + total ts tail) (free_all junk (addresses 12 (t ∷ ts)) mi)
  unfolding free_all
  free_all-Whole t ts tail mi is =
      let l : Located (blocks (t ∷ ts) tail) 24 t = record {
        before = [];
        left = block true 0;
        after = blocks ts tail;
        split = refl;
        place = refl;
      } in
      let (mi1, bs', run, split, is1, am, frame) = mem_free-merge is l junk in
      let left : bs' ≡ block false (t + gap ts tail) ∷ blocks ts (rest ts tail) =
        tail_eq (block true 0) bs' _ (split ∙ merge-busy (block true 0) t (blocks ts tail) refl)
        ∙ absorb-blocks t ts tail in
      let (mi', runs, is', am') =
        free_behind ts (t + gap ts tail) (rest ts tail) mi1 (rest-Calm ts tail)
          (subst (λ y. IsHeap mi1 y) left is1) in
      let there : addresses (24 + (t + gap ts tail)) ts ≡ addresses (24 + t) ts =
        let z : 24 + (t + gap ts tail) ≡ 24 + t + gap ts tail = omega arith in
        ap (λ y. addresses y ts) z ∙ addresses-gap (24 + t) ts tail in
      let sum : t + gap ts tail + total ts (rest ts tail) ≡ t + total ts tail =
        omega (arith, total-gap ts tail) in
      rw run (mi', rw there at runs, subst (λ y. IsHeap mi' (block false y ∷ [])) sum is', am' ∙ am)
