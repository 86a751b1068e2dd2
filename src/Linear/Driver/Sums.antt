-- ===== src/Linear/Driver/Sums.antt =====
-- The control sums of the blocks that the test program filled.
use system_sw.Prelude.{
  ℕ, zero, suc, ◌+◌, ◌-◌, ◌*◌, ◌/◌, ◌%◌, ◌^◌, ◌≤◌, ◌<◌, ◌≡◌, ◌≢◌, ◌∙◌, refl, sym, subst, ◌⊎◌, inl,
  inr, true, false, Option, some, List, [], ◌∷◌, arith, ltb, ◌==◌, Bool-cases, length,
}
use Prim.Native.Nat.{bit_xor}
use system_sw.Memory.{Bytes}
use system_sw.Linear.{AlcInfo, alc_init}
use system_sw.Linear.Chain.{Block, block}
use system_sw.Linear.Heap.{IsHeap}
use system_sw.Linear.Owned.{Owned}
use system_sw.Linear.Alloc.Contract.{mem_alloc-contract}
use system_sw.Linear.Init.{alc_init-IsHeap}
use system_sw.Linear.Client.{Has, put_byte}
use system_sw.Linear.Client.Keep.{Valid}
use system_sw.Linear.Client.Steps.{writes-Valid}
use system_sw.Linear.Driver.{
  crashed, finish_test, test_mem, Slot, checksum, check_all, Phase, null_write, done, add_slot,
  cs_base, fill, random_size, filled, alloc_phase,
}

-- the sum looks at the block's bytes alone
checksum-congr :
    (n p : ℕ) (m m' : Bytes) (cs : ℕ)
    → ((k : ℕ) → p ≤ k → k < p + n → m k ≡ m' k)
    → checksum n p m cs ≡ checksum n p m' cs
unfolding checksum
checksum-congr zero p m m' cs e = refl
checksum-congr (suc n) p m m' cs e =
    rw (e p (omega arith) (omega arith))
      (checksum-congr n (p + 1) m m' _ (λ k l u. e k (omega arith) (omega arith)))

module _ (rand : ℕ → ℕ) where
  fill_frame :
      (n p : ℕ) (m : Bytes) (r cs k : ℕ) → (k < p) ⊎ (p + n ≤ k) → (fill rand n p m r cs).0 k ≡ m k
  unfolding fill
  fill_frame zero p m r cs k h = refl
  fill_frame (suc n) p m r cs k h =
      let ne : (k == p) ≡ false = ground arith in
      fill_frame n (p + 1) (put_byte m p (rand r % 255)) (r + 1) _ k (omega arith) ∙ rw ne refl

  -- the sum that is made while the block is filled is the sum of its bytes
  checksum-fill :
      (n p : ℕ) (m : Bytes) (r cs : ℕ)
      → checksum n p (fill rand n p m r cs).0 cs ≡ (fill rand n p m r cs).1
  unfolding checksum fill
  checksum-fill zero p m r cs = refl
  checksum-fill (suc n) p m r cs =
      let value = rand r % 255 in
      let first : (fill rand n (p + 1) (put_byte m p value) (r + 1) (bit_xor cs value)).0 p
          ≡ value =
        fill_frame n (p + 1) (put_byte m p value) (r + 1) (bit_xor cs value) p (inl (omega arith))
        ∙ ground arith in
      rw first (checksum-fill n (p + 1) (put_byte m p value) (r + 1) (bit_xor cs value))

  -- filling bytes of a block that the program has keeps the region valid
  fill-Valid :
      (a s : ℕ) (live : List (ℕ × ℕ)) (n p : ℕ) (mi : AlcInfo) (r cs : ℕ)
      → Has live a s
      → a ≤ p
      → p + n ≤ a + s
      → Valid (record { mi = mi; live = live; shadow = mi.memory })
      → let m' = (fill rand n p mi.memory r cs).0 in
        Valid (record { mi = record mi { memory = m' }; live = live; shadow = m' })
  unfolding fill
  fill-Valid a s live zero p mi r cs h l u v = v
  fill-Valid a s live (suc n) p mi r cs h l u v =
      fill-Valid a s live n (p + 1) (record mi { memory = put_byte mi.memory p (rand r % 255) })
        (r + 1) (bit_xor cs (rand r % 255)) h (omega arith) (omega arith)
        (writes-Valid (record { mi = mi; live = live; shadow = mi.memory }) v a s p (rand r % 255) h
          l (omega arith))

-- the program's blocks with those of the slots
abbrev live_of : List Slot → List (ℕ × ℕ) → List (ℕ × ℕ)
live_of [] live = live
live_of (s ∷ slots) live = live_of slots ((s.p, s.size) ∷ live)

-- the blocks of `live` keep their bytes
abbrev Kept : List (ℕ × ℕ) → Bytes → Bytes → Type 0
Kept live m m' = (a s k : ℕ) → Has live a s → a ≤ k → k < a + s → m' k ≡ m k

abbrev Holding : AlcInfo → List (ℕ × ℕ) → Type 0
Holding mi live = Valid (record { mi = mi; live = live; shadow = mi.memory })

record Filled (live : List (ℕ × ℕ)) (mi mi' : AlcInfo) (slots : List Slot) (most : ℕ) : Type 0 where
  valid : Holding mi' (live_of slots live)
  kept : Kept live mi.memory mi'.memory
  sums : check_all slots mi'.memory ≡ true
  count : length slots ≤ most

abbrev PhaseOk : List (ℕ × ℕ) → AlcInfo → ℕ → Phase → Type 0
PhaseOk live mi most null_write = Unit
PhaseOk live mi most (done slots mi' r) = Filled live mi mi' slots most

-- a block that was granted and then filled
module _ (rand : ℕ → ℕ) (live : List (ℕ × ℕ)) (mi mi' : AlcInfo) (v : Holding mi live)
    (a size t r : ℕ) (bs' : List Block) (is : IsHeap mi' bs') (fits : size ≤ t)
    (new : Owned 12 bs' a t)
    (old : (a' s : ℕ)
      → Owned 12 v.blocks a' s
      → Owned 12 bs' a' s × ((a' + s ≤ a) ⊎ (a + t ≤ a')) × (a' ≢ a))
    (frame : (a' s i : ℕ)
      → Owned 12 v.blocks a' s
      → a' ≤ i
      → i < a' + s
      → mi'.memory i ≡ mi.memory i) where
  abbrev m1 : Bytes
  m1 = (fill rand size a mi'.memory r cs_base).0

  abbrev mi1 : AlcInfo
  mi1 = record mi' { memory = m1 }

  granted-Holding : Holding mi' ((a, size) ∷ live)
  granted-Holding = record {
    blocks = bs';
    heap = is;
    owns = λ a' s h. elim h [
      | inl e ↦ (t, omega (arith, e), subst (λ x. Owned 12 bs' x t) (sym e.0) new)
      | inr y ↦ let (t', f, o) = v.owns a' s y in (t', f, (old a' t' o).0)
    ];
    known = λ a' s i h l u. refl;
  }

  filled-Holding : Holding mi1 ((a, size) ∷ live)
  filled-Holding =
      fill-Valid rand a size ((a, size) ∷ live) size a mi' r cs_base (inl (refl, refl))
        (omega arith) (omega arith) granted-Holding

  filled-Kept : Kept live mi.memory m1
  filled-Kept a' s k h l u =
      let (t', f, o) = v.owns a' s h in
      let side = (old a' t' o).1 in
      fill_frame rand size a mi'.memory r cs_base k (omega (arith, side, f))
      ∙ frame a' t' k o l (omega (arith, f))

  -- with the slots that come after it
  next_slot :
      (mi2 : AlcInfo) (slots : List Slot) (most : ℕ)
      → Filled ((a, size) ∷ live) mi1 mi2 slots most
      → Filled live mi mi2
          (record { p = a; size = size; cs = (fill rand size a mi'.memory r cs_base).1 } ∷ slots)
          (most + 1)
  unfolding check_all
  next_slot mi2 slots most next = record {
    valid = next.valid;
    kept = λ a' s k h l u. next.kept a' s k (inr h) l u ∙ filled-Kept a' s k h l u;
    sums =
        let own =
          checksum-congr size a mi2.memory m1 cs_base
            (λ k l u. next.kept a size k (inl (refl, refl)) l u)
          ∙ checksum-fill rand size a mi'.memory r cs_base in
        let rest = next.sums in ground (arith, own, rest);
    count = let c = next.count in omega arith;
  }

  add_slot-PhaseOk :
      (phase : Phase) (most : ℕ)
      → PhaseOk ((a, size) ∷ live) mi1 most phase
      → PhaseOk live mi (most + 1) (
          add_slot
            (record { p = a; size = size; cs = (fill rand size a mi'.memory r cs_base).1 })
            phase)
  add_slot-PhaseOk null_write most ok = tt
  add_slot-PhaseOk (done slots mi2 r2) most ok = next_slot mi2 slots most ok

module _ (rand : ℕ → ℕ) (junk : Bytes → Bytes) where
  -- the loop ends, and keeps what it should
  abbrev Ends : List (ℕ × ℕ) → AlcInfo → ℕ → Option Phase → Type 0
  Ends live mi most run = (phase : Phase) × (run ≡ some phase) × PhaseOk live mi most phase

  alloc_phase-Ends :
      (f i size : ℕ) (mi : AlcInfo) (r : ℕ) (live : List (ℕ × ℕ))
      → i < 20
      → 20 ≤ f + i
      → Holding mi live
      → Ends live mi (19 - i) (alloc_phase rand junk f i size mi r)
  unfolding alloc_phase filled check_all
  alloc_phase-Ends zero i size mi r live l h v = absurd (omega arith)
  alloc_phase-Ends (suc f) i size mi r live l h v = elim (Bool-cases (ltb i (rand r % 20))) [
    | inr stop ↦ rw stop (
      done [] mi (r + 1),
      refl,
      record { valid = v; kept = λ a s k h l u. refl; sums = refl; count = omega arith },
    )
    | inl go ↦ rw go (elim (mem_alloc-contract junk mi v.blocks size v.heap) [
      | inl (e, u) ↦ rw e (null_write, refl, tt)
      | inr (a, mi', bs', t, e, is, fits, (new, old), frame) ↦
          let r1 = r + 1 + size in
          let again : i + 1 < 20 = ground arith in
          let most : 19 - (i + 1) + 1 ≡ 19 - i = omega arith in
          let (phase, run, ok) =
            alloc_phase-Ends f (i + 1) (random_size rand r1)
              (mi1 rand live mi mi' v a size t (r + 1) bs' is fits new old frame) (r1 + 1)
              ((a, size) ∷ live) again (omega arith)
              (filled-Holding rand live mi mi' v a size t (r + 1) bs' is fits new old frame) in
          let good =
            add_slot-PhaseOk rand live mi mi' v a size t (r + 1) bs' is fits new old frame phase
              (19 - (i + 1)) ok in
          rw (e, run) (_, refl, (rw most at good))
    ])
  ]

-- On a region that `alc_init` made of 36 bytes or more, fewer than 2 ^ 31, and for any random
-- numbers: `test_mem` writes to a block that `mem_alloc` did not give, or its loop ends after at most
-- 19 blocks, and then the first control sum check succeeds for all of them.
pub test_mem-sums :
    (rand : ℕ → ℕ) (junk : Bytes → Bytes) (memfree : ℕ → AlcInfo → Option AlcInfo) (n r : ℕ)
    (mem : Bytes) (mi : AlcInfo)
    → 36 ≤ n
    → n < 2 ^ 31
    → alc_init junk n (some mem) ≡ some mi
    → (test_mem rand junk memfree mi r ≡ some crashed)
      ⊎ ((slots : List Slot) × (mi' : AlcInfo) × (r' : ℕ) × (alloc_phase rand junk 20 0
              (random_size rand r)
              mi
              (r + 1)
            ≡ some (done slots mi' r'))
          × (length slots ≤ 19)
          × (check_all slots mi'.memory ≡ true))
unfolding test_mem finish_test
test_mem-sums rand junk memfree n r mem mi lo hi init =
    let (mi0, e, am, is) = alc_init-IsHeap junk n mem lo hi in
    let same : mi0 ≡ mi = cc in
    let start : Holding mi [] = record {
      blocks = block false ((n - 36) / 4 * 4) ∷ [];
      heap = subst (λ x. IsHeap x (block false ((n - 36) / 4 * 4) ∷ [])) same is;
      owns = λ a s h. absurd h;
      known = λ a s i h l u. refl;
    } in
    let (phase, run, ok) =
      alloc_phase-Ends rand junk 20 0 (random_size rand r) mi (r + 1) [] (omega arith) (omega arith)
        start in
    ends phase run ok
  where
    ends :
        (phase : Phase)
        → alloc_phase rand junk 20 0 (random_size rand r) mi (r + 1) ≡ some phase
        → PhaseOk [] mi 19 phase
        → (test_mem rand junk memfree mi r ≡ some crashed)
          ⊎ ((slots : List Slot) × (mi' : AlcInfo) × (r' : ℕ) × (alloc_phase rand junk 20 0
                  (random_size rand r)
                  mi
                  (r + 1)
                ≡ some (done slots mi' r'))
              × (length slots ≤ 19)
              × (check_all slots mi'.memory ≡ true))
    ends null_write run ok = inl (rw run refl)
    ends (done slots mi' r') run ok = inr (slots, mi', r', run, ok.count, ok.sums)
