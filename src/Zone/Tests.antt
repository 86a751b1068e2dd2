-- ===== src/Zone/Tests.antt =====
-- The zone allocator at small memories.
use system_sw.Prelude.{
  ℕ, ◌+◌, ◌*◌, ◌^◌, ◌≤◌, ◌<◌, ◌≡◌, refl, none, some, arith, ◌==◌, if◌then◌else◌, [], ◌∷◌, ltb, ◌⊎◌,
  inl, inr, subst, ap,
}
use system_sw.Prelude.Word.{wrap, sub32}
use system_sw.Zone.{
  page_of_addr, state_free, state_busy, state_multipage, desc, ZoneInfo, is_free, log2_loop,
  float_exponent, round_pow_2,
}
use system_sw.Zone.Pages.{find_loop, find_free_pages, mark_pages, multipage_alloc}
use system_sw.Zone.Rounding.{round_pow_2_lem}
use system_sw.Zone.Ops.Chain.{blocks_from}
use system_sw.Zone.Ops.Drain.{alloc_many}
use system_sw.Zone.Ops.Whole.{FirstFree}
use system_sw.Zone.Ops.Cycle.{free_many, InPage, SameZonePages, free_many-alloc_many}
use system_sw.Zone.Ops.{Calls, above, mem_alloc, mem_free, alloc_with, free_with}
use system_sw.Zone.Ops.Linked.{class_of, Linked}
use system_sw.Zone.Ops.Depth.{mem_alloc-above}
use system_sw.Zone.Ops.InPage.{SameZone, taken, mem_free-mem_alloc_in_page}
use system_sw.Zone.Ops.Multipage.{Outcome, marked, mem_alloc-Outcome}
use system_sw.Zone.Ops.Return.{Restored, mem_free-mem_alloc, mem_free_loses_block}

-- pages of 64 bytes, all free but the first
abbrev pages : ℕ → ZoneInfo
pages n = record {
  amount = 64 * n;
  page_count = n;
  page_size = 64;
  class_count = 5;
  descriptors = λ k. if k == 0 then state_busy else state_free;
  classes = λ k. none;
  page_classes = λ k. 0;
  store =
      λ a. record { free_count = 0; index = 0; class = 0; block = none; next = none; prev = none };
  links = λ a. none;
  memory = λ a. 0;
}

mem_alloc-Outcome_example : Outcome (pages 10) 2 (mem_alloc 100 (pages 10))
unfolding log2_loop float_exponent round_pow_2 wrap
mem_alloc-Outcome_example = mem_alloc-Outcome 100 (pages 10) (omega arith) (omega arith)

-- a block of two pages from page 1 on
two_pages : mem_alloc 100 (pages 10) ≡ some (some 64, marked 2 1 (pages 10))
unfolding log2_loop float_exponent round_pow_2 wrap mem_alloc alloc_with multipage_alloc mark_pages
    find_free_pages find_loop is_free
two_pages = refl

mem_free-mem_alloc_example :
    (z'' : ZoneInfo) × (mem_free 64 (marked 2 1 (pages 10)) ≡ some z'') × Restored (pages 10) z''
unfolding log2_loop float_exponent round_pow_2 wrap
mem_free-mem_alloc_example =
    mem_free-mem_alloc 100 (pages 10) (omega arith) (omega arith) (omega arith) (omega arith)
      (λ k e. refl) 64 (marked 2 1 (pages 10)) two_pages

many_pages : mem_alloc 8192 (pages 130) ≡ some (some 64, marked 128 1 (pages 130))
unfolding log2_loop float_exponent round_pow_2 wrap mem_alloc alloc_with multipage_alloc mark_pages
    find_free_pages find_loop is_free
many_pages = refl

mem_free_loses_block_example :
    mem_free 64 (marked 128 1 (pages 130)) ≡ some (marked 128 1 (pages 130))
unfolding log2_loop float_exponent round_pow_2 wrap
mem_free_loses_block_example =
    mem_free_loses_block 8192 (pages 130) (omega arith) (omega arith) (omega arith) (omega arith) 64
      (marked 128 1 (pages 130)) many_pages

round_pow_2_lem_example : (c : ℕ) × (round_pow_2 100 ≡ 2 ^ c) × (100 ≤ 2 ^ c) × (2 ^ c < 200)
round_pow_2_lem_example = round_pow_2_lem 100 (omega arith) (omega arith)

-- pages of 256 bytes, of which page 1 has its descriptor and a block of 32 bytes taken
abbrev partly_used : ZoneInfo
partly_used = record {
  amount = 2560;
  page_count = 10;
  page_size = 256;
  class_count = 7;
  descriptors = λ k. if k == 0 then state_busy else if k == 1 then desc 256 else state_free;
  classes = λ c. if c == 5 then some 256 else none;
  page_classes = λ k. if k == 1 then 5 else 0;
  store = λ a. record {
    free_count = 6;
    index = 1;
    class = 5;
    block = some 320;
    next = none;
    prev = none;
  };
  links = λ a. if a == 480 then none else some (a + 32);
  memory = λ a. 0;
}

mem_free-mem_alloc_in_page_example :
    (mem_alloc 20 partly_used ≡ some (some 320, taken partly_used 256 352))
    × ((z' : ZoneInfo) × (mem_free 320 (taken partly_used 256 352) ≡ some z')
        × SameZone partly_used z')
unfolding log2_loop float_exponent round_pow_2 wrap sub32
mem_free-mem_alloc_in_page_example =
    mem_free-mem_alloc_in_page 20 partly_used 256 320 352
      (record {
        in_page = omega arith;
        first = refl;
        block = refl;
        next = refl;
        page = refl;
        some_free = omega arith;
        few_free = omega arith;
      })
      (record { not_all = omega arith; not_local = refl })

-- pages of 256 bytes, none of which is open
abbrev fresh_zone : ZoneInfo
fresh_zone = record partly_used {
  descriptors = λ k. if k == 0 then state_busy else state_free;
  classes = λ c. none;
  page_classes = λ k. 0;
}

fresh_zone-FirstFree : FirstFree fresh_zone 1
unfolding is_free
fresh_zone-FirstFree = record {
  behind = omega arith;
  below = omega arith;
  free = refl;
  taken = λ k lo hi. absurd (omega arith);
}

-- the seven blocks of page 1, and the same seven given back in another order
free_many-alloc_many_example :
    (z' z'' : ZoneInfo) × (alloc_many 7 20 fresh_zone ≡ some (blocks_from 288 32 7, z'))
    × (free_many (480 ∷ 288 ∷ 320 ∷ 352 ∷ 384 ∷ 448 ∷ 416 ∷ []) z' ≡ some z'')
    × SameZonePages fresh_zone z'' 1
free_many-alloc_many_example =
    free_many-alloc_many 20 fresh_zone 1 480 288 (320 ∷ 352 ∷ 384 ∷ 448 ∷ 416 ∷ []) (omega arith)
      (omega arith) refl fresh_zone-FirstFree (omega arith) apart refl
  where
    apart : InPage 256 1 (480 ∷ 288 ∷ 320 ∷ 352 ∷ 384 ∷ 448 ∷ 416 ∷ []) []
    apart = (
      (7, omega arith, omega arith, refl),
      tt,
      (
        (1, omega arith, omega arith, refl),
        omega arith,
        (
          (2, omega arith, omega arith, refl),
          omega arith,
          (
            (3, omega arith, omega arith, refl),
            omega arith,
            (
              (4, omega arith, omega arith, refl),
              omega arith,
              (
                (6, omega arith, omega arith, refl),
                omega arith,
                ((5, omega arith, omega arith, refl), omega arith, tt),
              ),
            ),
          ),
        ),
      ),
    )

-- page 1 is open for blocks of 32 bytes, and has the descriptor of page 2 in it, open for blocks of 64:
-- its last two are handed out
abbrev open_pages : ZoneInfo
open_pages = record {
  amount = 1024;
  page_count = 4;
  page_size = 256;
  class_count = 7;
  descriptors = λ k. if k == 1 then desc 256 else if k == 2 then desc 288 else state_free;
  classes = λ c. if c == 5 then some 256 else if c == 6 then some 288 else none;
  page_classes = λ k. if k == 1 then 5 else if k == 2 then 6 else 0;
  store = λ a. record {
    free_count = if a == 256 then 6 else 2;
    index = if a == 256 then 1 else 2;
    class = if a == 256 then 5 else 6;
    block = if a == 256 then some 320 else some 512;
    next = none;
    prev = none;
  };
  links = λ a.
      if a == 480
      then none
      else if a == 576
      then none
      else if ltb a 512
      then some (a + 32)
      else some (a + 64);
  memory = λ a. 0;
}

desc_at :
    (k d : ℕ) → open_pages.descriptors k ≡ desc d → ((k ≡ 1) × (d ≡ 256)) ⊎ ((k ≡ 2) × (d ≡ 288))
desc_at k d e = ground arith

some_inj : (p : ℕ) → some 256 ≡ some p → p ≡ 256
some_inj p e = ground arith

open_pages-Linked : Linked open_pages
open_pages-Linked = record {
  local = λ k d e c. elim (desc_at k d e) [
    | inl (p, q) ↦ omega arith
    | inr (p, q) ↦
        let six : 6 ≡ 5 = subst (λ k. class_of open_pages k ≡ 5) p c in absurd (omega (arith, six))
  ];
  delegated = λ k d e out. elim (desc_at k d e) [
    | inl (p, q) ↦ absurd (out (omega arith))
    | inr (p, q) ↦ ap (λ d. class_of open_pages (page_of_addr open_pages d)) q
  ];
  first = λ p e. ap (λ a. class_of open_pages (open_pages.store a).index) (some_inj p e);
  sizes = omega arith;
}

-- what would be done at the bound: any size is answered by address 0, and nothing is freed
abbrev at_bound : Calls
at_bound = record { alloc = λ size z. some (some 0, z); free = λ addr z. some z }

mem_alloc-above_example :
    (alloc_with (above at_bound) 40 open_pages ≡ mem_alloc 40 open_pages)
    × (free_with (above at_bound) 640 open_pages ≡ mem_free 640 open_pages)
mem_alloc-above_example = mem_alloc-above at_bound 40 640 open_pages open_pages-Linked (omega arith)

-- pages 1 and 2 are a block
abbrev with_block : ZoneInfo
with_block = record (pages 10) {
  descriptors = λ k. if k == 0 then state_busy else if ltb k 3 then state_multipage else state_free;
  page_classes = λ k. if k == 1 then 2 else if k == 2 then 255 else 0;
}
