-- ===== src/Zone/Dump.antt =====
-- `mem_dump` of zone-allocator/allocator.c: the lines that it prints, as data.
use system_sw.Prelude.{
  ℕ, zero, suc, ◌+◌, ◌^◌, Option, none, some, List, [], ◌∷◌, ◌++◌, ◌==◌, if◌then◌else◌,
}
use system_sw.Zone.{PageState, state_free, state_busy, state_multipage, desc, ZoneInfo}

-- a line for a page or for a class; classes of pages are the bit patterns of their characters
pub data DumpLine : Type 0 where
  free_page : ℕ → DumpLine
  busy_page : ℕ → ℕ → DumpLine
  multipage : ℕ → ℕ → DumpLine
  continuation : ℕ → DumpLine
  open_page : ℕ → ℕ → ℕ → DumpLine
  empty_class : ℕ → ℕ → DumpLine
  existing_class : ℕ → ℕ → ℕ → DumpLine

pub page_line : ZoneInfo → ℕ → PageState → DumpLine
page_line z i state_free = free_page i
page_line z i state_busy = busy_page i (z.page_classes i)
page_line z i state_multipage =
    if z.page_classes i == 255 then continuation i else multipage i (z.page_classes i)
page_line z i (desc d) = open_page i (z.store d).free_count (z.page_classes i)

pub class_line : ℕ → Option ℕ → DumpLine
class_line i none = empty_class i (2 ^ i)
class_line i (some d) = existing_class i (2 ^ i) d

-- the two loops, `n` rounds from `i` on
pub page_lines : ZoneInfo → ℕ → ℕ → List DumpLine
page_lines z i zero = []
page_lines z i (suc n) = page_line z i (z.descriptors i) ∷ page_lines z (i + 1) n

pub class_lines : ZoneInfo → ℕ → ℕ → List DumpLine
class_lines z i zero = []
class_lines z i (suc n) = class_line i (z.classes i) ∷ class_lines z (i + 1) n

pub mem_dump : ZoneInfo → List DumpLine
mem_dump z = page_lines z 0 z.page_count ++ class_lines z 0 z.class_count
