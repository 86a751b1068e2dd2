-- ===== src/Linear/Driver.antt =====
-- linear-allocator/main.c: the program that tests the linear allocator. `rand` is the numbers that
-- `rand()` gives, in order, and `r` how many were taken. What it prints and the time it measures are
-- left out. A byte is a number below 256: the source keeps
-- it in a `char`, and compares and exclusive-ors such bytes alone.
pub mod Sums
pub mod Stats
pub mod Release
pub mod Restore
use system_sw.Prelude.{
  ℕ, zero, suc, ◌+◌, ◌-◌, ◌*◌, ◌/◌, ◌%◌, ◌^◌, ◌≤◌, ◌<◌, min, ◌≡◌, ◌∙◌, refl, sym, ap, subst, ◌≢◌,
  ◌↔◌, ◌⊎◌, inl, inr, Bool, true, false, not, ◌&&◌, ◌||◌, Option, none, some, List, [], ◌∷◌, ◌++◌,
  map, arith, ltb, leb, ◌==◌, if◌then◌else◌, ltb→lt, lt→ltb, le→not_ltb, le→leb, lt→not_leb,
  Bool-cases, ◌>>=◌, length, length-append,
}
use system_sw.Prelude.Word.{
  wrap, sub32, positive, wrap_small, sub32_small, sub32_neg, positive_small, not_positive_of_neg,
  positive-sub32,
}
use Prim.Native.Nat.{bit_xor}
use system_sw.Memory.{Bytes}
use system_sw.Linear.{AlcInfo, alc_init, mem_alloc, mem_free}
use system_sw.Linear.Client.{put_byte}
use system_sw.Linear.Realloc.{mem_realloc}
use system_sw.Linear.Args.{Options, Args, usage, with_options, read_args}

abbrev pub cs_base : ℕ
cs_base = 230

-- an index of the three arrays `list`, `list_sizes` and `list_cs`
pub record Slot : Type 0 where
  pub p : ℕ
  pub size : ℕ
  pub cs : ℕ

-- the control sum of the `n` bytes at `p`
pub checksum : ℕ → ℕ → Bytes → ℕ → ℕ
checksum zero p m cs = cs
checksum (suc n) p m cs = checksum n (p + 1) m (bit_xor cs (m p))

pub check_all : List Slot → Bytes → Bool
check_all [] m = true
check_all (s ∷ slots) m = (checksum s.size s.p m cs_base == s.cs) && check_all slots m

-- A write to the block that `mem_alloc` did not give, or what was allocated: the slots, the
-- allocator and the numbers taken.
pub data Phase : Type 0 where
  null_write : Phase
  done : List Slot → AlcInfo → ℕ → Phase

abbrev pub add_slot : Slot → Phase → Phase
add_slot s null_write = null_write
add_slot s (done slots mi r) = done (s ∷ slots) mi r

-- what `test_mem` does: it writes to a block that it did not get, or finds out whether the control
-- sums are right before and after the calls of `mem_realloc`, and leaves the allocator
pub data TestResult : Type 0 where
  crashed : TestResult
  checked : Bool → Bool → AlcInfo → TestResult

-- the end of the program: by `exit`, by a write or a read at `NULL`, or with the allocator so
pub data MainResult : Type 0 where
  stopped : MainResult
  segfault : MainResult
  exited : AlcInfo → MainResult

module _ (junk : Bytes → Bytes) where
  pub free_all : List ℕ → AlcInfo → Option AlcInfo
  free_all [] mi = some mi
  free_all (p ∷ list) mi = mem_free junk p mi >>= free_all list

  -- `while ((list[count++] = mem_alloc(test_size)));`: the addresses in `list`, less the `NULL` at
  -- its end, which takes a place too; `none` where the array has no place left. Each round makes the
  -- free memory less: as many rounds as there are bytes.
  pub alloc_until : ℕ → ℕ → ℕ → AlcInfo → Option (List ℕ × AlcInfo)
  alloc_until zero places test_size mi = none
  alloc_until (suc f) zero test_size mi = none
  alloc_until (suc f) (suc places) test_size mi = mem_alloc junk test_size mi >>= (λ (p, mi').
      elim p [
        | none ↦ some ([], mi')
        | some a ↦ alloc_until f places test_size mi' >>= (λ (list, out). some (a ∷ list, out))
      ])

  -- The array has `amount/test_size` places. The count that is printed, and the allocator;
  -- `count - 1` blocks are freed
  pub alloc_test : ℕ → AlcInfo → Option (ℕ × AlcInfo)
  alloc_test test_size mi =
      alloc_until mi.amount (mi.amount / test_size) test_size mi
      >>= (λ (list, mi'). free_all list mi' >>= (λ out. some (length list + 1, out)))

  pub get_stats : AlcInfo → Option AlcInfo
  get_stats mi = alloc_test 512 mi >>= (λ (count, mi1).
      alloc_test 1024 mi1
      >>= (λ (count', mi2). alloc_test 16384 mi2 >>= (λ (count'', mi3). some mi3)))

  -- `main` behind the test
  pub run_stats : Options → AlcInfo → Option MainResult
  run_stats o mi =
      let ran = get_stats mi >>= (λ out. some (exited out)) in
      if o.stats then ran else some (exited mi)

  pub after_test : Options → TestResult → Option MainResult
  after_test o crashed = some segfault
  after_test o (checked first second mi) = run_stats o mi

module _ (rand : ℕ → ℕ) where
  -- the loop that fills the `n` bytes at `p` with random bytes: the memory and the control sum
  pub fill : ℕ → ℕ → Bytes → ℕ → ℕ → Bytes × ℕ
  fill zero p m r cs = (m, cs)
  fill (suc n) p m r cs =
      let value = rand r % 255 in fill n (p + 1) (put_byte m p value) (r + 1) (bit_xor cs value)

  -- a random size of a block
  abbrev pub random_size : ℕ → ℕ
  random_size r = rand r % 100 + 2

  -- a block filled from number `r` on: its slot and the allocator
  pub filled : ℕ → ℕ → AlcInfo → ℕ → Slot × AlcInfo
  filled p size mi r =
      let (m, cs) = fill size p mi.memory r cs_base in
      (record { p = p; size = size; cs = cs }, record mi { memory = m })

  module _ (junk : Bytes → Bytes) where
    -- `for(int i=0; i<rand()%20; i++)`: the bound is drawn anew in each round, and is 19 at most.
    pub alloc_phase : ℕ → ℕ → ℕ → AlcInfo → ℕ → Option Phase
    alloc_phase zero i size mi r = none
    alloc_phase (suc f) i size mi r =
        let round = mem_alloc junk size mi >>= (λ (p, mi'). elim p [
          | none ↦ some null_write
          | some a ↦
              let (slot, mi1) = filled a size mi' (r + 1) in
              let r1 = r + 1 + size in
              alloc_phase f (i + 1) (random_size r1) mi1 (r1 + 1)
              >>= (λ phase. some (add_slot slot phase))
        ]) in
        if ltb i (rand r % 20) then round else some (done [] mi (r + 1))

    -- `count2` is `i` in each round; where no block is given the slot stays as it was.
    pub realloc_phase :
        (ℕ → AlcInfo → Option AlcInfo) → List Slot → AlcInfo → ℕ → Option (List Slot × AlcInfo)
    realloc_phase memfree [] mi r = some ([], mi)
    realloc_phase memfree (s ∷ slots) mi r =
        let size = random_size r in
        mem_realloc junk memfree (some s.p) size mi >>= (λ (p, mi'). elim p [
          | none ↦
              realloc_phase memfree slots mi' (r + 1) >>= (λ (slots', out). some (s ∷ slots', out))
          | some a ↦
              let (slot, mi1) = filled a size mi' (r + 1) in
              realloc_phase memfree slots mi1 (r + 1 + size)
              >>= (λ (slots', out). some (slot ∷ slots', out))
        ])

    pub finish_test : (ℕ → AlcInfo → Option AlcInfo) → Phase → Option TestResult
    finish_test memfree null_write = some crashed
    finish_test memfree (done slots mi r) = realloc_phase memfree slots mi r >>= (λ (slots', mi').
        free_all junk (map (λ s. s.p) slots') mi'
        >>= (λ out. some (checked (check_all slots mi.memory) (check_all slots' mi'.memory) out)))

    -- Twenty rounds are enough for the loop that allocates.
    pub test_mem : (ℕ → AlcInfo → Option AlcInfo) → AlcInfo → ℕ → Option TestResult
    test_mem memfree mi r = alloc_phase 20 0 (random_size r) mi (r + 1) >>= finish_test memfree

    -- `main` from `alc_init` on, whose memory is `mem`
    pub run_main : (ℕ → AlcInfo → Option AlcInfo) → Option Bytes → Args → Option MainResult
    run_main memfree mem usage = some stopped
    run_main memfree mem (with_options o) = elim (alc_init junk o.amount mem) [
      | none ↦ some stopped
      | some mi ↦
          let tested = test_mem memfree mi 0 >>= after_test junk o in
          if o.test then tested else run_stats junk o mi
    ]

    pub main : (ℕ → AlcInfo → Option AlcInfo) → Option Bytes → List (List ℕ) → Option MainResult
    main memfree mem args = elim (read_args args) [
      | none ↦ some segfault
      | some a ↦ run_main memfree mem a
    ]
