-- ===== src/Zone/Pages.antt =====
-- Runs of free pages and the blocks of several pages: `find_free_pages`, and the branches of
-- `mem_alloc` and `mem_free` for such blocks.
pub mod Runs
use system_sw.Prelude.{
  ℕ, zero, suc, ◌+◌, ◌-◌, ◌*◌, ◌/◌, ◌%◌, ◌^◌, ◌≤◌, ◌<◌, min, ◌≡◌, ◌∙◌, refl, sym, ap, subst, ◌≢◌,
  ◌↔◌, ◌⊎◌, inl, inr, Bool, true, false, not, ◌&&◌, ◌||◌, Option, none, some, List, [], ◌∷◌, ◌++◌,
  map, arith, ltb, leb, ◌==◌, if◌then◌else◌, ltb→lt, lt→ltb, le→not_ltb, le→leb, lt→not_leb,
  Bool-cases, ◌>>=◌, length, length-append,
}
use system_sw.Prelude.Word.{
  wrap, sub32, positive, wrap_small, sub32_small, sub32_neg, positive_small, not_positive_of_neg,
  positive-sub32,
}
use system_sw.Zone.{
  PageState, state_free, state_multipage, ZoneInfo, put, fill, char_value, is_free, page_addr,
}

-- the loop of `find_free_pages` from page `i` on, `n` rounds, with `r` free pages in front of it
unfoldable pub find_loop : (ℕ → PageState) → ℕ → ℕ → ℕ → ℕ → Option ℕ
find_loop descriptors num i zero r = none
find_loop descriptors num i (suc n) r =
    let r' = if is_free (descriptors i) then r + 1 else 0 in
    let rest = find_loop descriptors num (i + 1) n r' in
    if leb num r' then some (i + 1 - num) else rest

-- `none` is -1.
unfoldable pub find_free_pages : (ℕ → PageState) → ℕ → ℕ → Option ℕ
find_free_pages descriptors page_count num = find_loop descriptors num 0 page_count 0

-- pages from `page` on made a multipage block. `page_classes` is of characters.
unfoldable pub mark_pages : ℕ → Option ℕ → ZoneInfo → Option ℕ × ZoneInfo
mark_pages num none z = (none, z)
mark_pages num (some page) z = (
  some (page_addr z page),
  record z {
    descriptors = fill z.descriptors page num state_multipage;
    page_classes = put (fill z.page_classes page num 255) page (num % 256);
  },
)

-- how many pages a block of `size` bytes takes: rounded to the nearest number
abbrev pub pages_for : ZoneInfo → ℕ → ℕ
pages_for z size = wrap (size + z.page_size / 2) / z.page_size

unfoldable pub multipage_alloc : ℕ → ZoneInfo → Option ℕ × ZoneInfo
multipage_alloc size z =
    let num = pages_for z size in mark_pages num (find_free_pages z.descriptors z.page_count num) z

unfoldable pub free_multipage : ℕ → ZoneInfo → ZoneInfo
free_multipage page_id z =
    let page_num = char_value (z.page_classes page_id) in
    record z {
      descriptors = fill z.descriptors page_id page_num state_free;
      page_classes = fill z.page_classes page_id page_num 0;
    }
