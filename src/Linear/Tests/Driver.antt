-- ===== src/Linear/Tests/Driver.antt =====
-- Runs of the test program.
use system_sw.Prelude.{
  ℕ, ◌+◌, ◌*◌, ◌≤◌, ◌≡◌, refl, ◌⊎◌, true, false, none, some, List, [], ◌∷◌, arith, length,
}
use system_sw.Prelude.Word.{wrap}
use system_sw.Linear.{AlcInfo, alc_init, mem_free}
use system_sw.Linear.Init.{alc_init-IsHeap}
use system_sw.Linear.Args.{
  same_text, digits, signed, atoi, usage, with_options, option, read_t, read_flag, read_loop,
  read_args,
}
use system_sw.Linear.Driver.{Slot, check_all, done, crashed, random_size, alloc_phase, test_mem}
use system_sw.Linear.Driver.Sums.{test_mem-sums}
use system_sw.Linear.Tests.{junk, mem}

abbrev numbers : ℕ → ℕ
numbers k = k * 7 + 3

abbrev region : AlcInfo
region = (alc_init-IsHeap junk 600 mem (omega arith) (omega arith)).0

region_run : alc_init junk 600 (some mem) ≡ some region
region_run = (alc_init-IsHeap junk 600 mem (omega arith) (omega arith)).1

test_mem-sums_example :
    (test_mem numbers junk (mem_free junk) region 0 ≡ some crashed)
    ⊎ ((slots : List Slot) × (mi' : AlcInfo) × (r' : ℕ) × (alloc_phase numbers junk 20 0
            (random_size numbers 0)
            region
            1
          ≡ some (done slots mi' r'))
        × (length slots ≤ 19)
        × (check_all slots mi'.memory ≡ true))
test_mem-sums_example =
    test_mem-sums numbers junk (mem_free junk) 600 0 mem region (omega arith) (omega arith)
      region_run

-- `-m 64 -t -s`
some_options :
    read_args (option 109 ∷ (54 ∷ 52 ∷ []) ∷ option 116 ∷ option 115 ∷ [])
    ≡ some (
        with_options
          (record { amount = 64; verbose = false; dumps = false; stats = true; test = true }))
unfolding read_args read_loop read_flag read_t atoi signed digits same_text wrap
some_options = refl

-- no argument prints the usage; a last `-m` is followed by the `NULL` behind the arguments
few_options : (read_args [] ≡ some usage) × (read_args (option 109 ∷ []) ≡ none)
unfolding read_args read_loop same_text
few_options = (refl, refl)
