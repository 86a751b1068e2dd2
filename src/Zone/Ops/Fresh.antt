-- ===== src/Zone/Ops/Fresh.antt =====
-- A new page for blocks of 32 bytes, which has its own descriptor in its first block.
use system_sw.Prelude.{
  ℕ, suc, ◌+◌, ◌-◌, ◌/◌, ◌^◌, ◌≤◌, ◌<◌, ◌≡◌, refl, sym, subst, true, none, some, arith, ltb, ◌==◌,
  lt→ltb,
}
use system_sw.Zone.{
  state_busy, desc, ZoneInfo, put, log2_loop, page_addr, link_last, append_page_to_class,
}
use system_sw.Zone.Pages.{find_loop}
use system_sw.Zone.Ops.{
  Calls, rounded, mem_alloc, calls_at, depth, alloc_with, class_page, link_blocks, new_page,
  alloc_page_at, alloc_page,
}
use system_sw.Zone.Ops.Chain.{Chain, blocks_from, length-blocks_from, link_blocks-Chain, OpenPage}

-- how many blocks such a page has besides its descriptor
abbrev pub block_count : ZoneInfo → ℕ
block_count z = z.page_size / 32 - 1

-- the state with page `i` opened
abbrev pub opened : ZoneInfo → ℕ → ZoneInfo
opened z i =
    let pa = page_addr z i in
    record z {
      store = put z.store pa (record {
        free_count = block_count z;
        index = i;
        class = 5;
        block = some (pa + 32);
        next = none;
        prev = none;
      });
      links = link_blocks z.links (pa + 32) 32 (block_count z - 1);
      descriptors = put (put z.descriptors i state_busy) i (desc pa);
      classes = put z.classes 5 (some pa);
      page_classes = put z.page_classes i 5;
    }

module _ (z : ZoneInfo) (i : ℕ) (no_page : z.classes 5 ≡ none)
    (free : find_loop z.descriptors 1 1 (z.page_count - 1) 0 ≡ some i) where
  alloc_page-opened :
      (calls : Calls) → alloc_page calls 32 z ≡ some (some (page_addr z i), opened z i)
  unfolding alloc_page alloc_page_at new_page append_page_to_class link_last log2_loop
  alloc_page-opened calls =
      let self : (page_addr z i == page_addr z i) ≡ true = ground arith in
      rw (free, no_page, self) refl

  pub mem_alloc-opened :
      (size : ℕ)
      → rounded size ≡ 32
      → 5 < z.class_count
      → mem_alloc size z ≡ mem_alloc size (opened z i)
  unfolding mem_alloc alloc_with class_page log2_loop
  mem_alloc-opened size e h =
      let l : ltb 5 z.class_count ≡ true = lt→ltb _ _ h in
      rw (e, l, no_page, alloc_page-opened (calls_at depth)) refl

  pub opened-OpenPage :
      2 ≤ z.page_size / 32
      → z.page_size < 2 ^ 32
      → OpenPage (opened z i) (page_addr z i) (blocks_from (page_addr z i + 32) 32 (block_count z))
  opened-OpenPage two small =
      let self : (page_addr z i == page_addr z i) ≡ true = ground arith in
      let ii : (i == i) ≡ true = ground arith in
      let pa = page_addr z i in
      let n = block_count z - 1 in
      let s : suc n ≡ block_count z = omega arith in
      let all = link_blocks-Chain z.links (pa + 32) 32 n (omega arith) in
      let len = length-blocks_from (pa + 32) 32 (block_count z) in
      record {
        chain = rw self (
            subst
              (λ m.
                Chain (link_blocks z.links (pa + 32) 32 n) (some (pa + 32))
                  (blocks_from (pa + 32) 32 m))
              s all);
        free_count = rw self (sym len);
        page = rw (self, ii) refl;
        small = omega (arith, len);
      }
