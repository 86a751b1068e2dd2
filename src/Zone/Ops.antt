-- ===== src/Zone/Ops.antt =====
-- `alloc_page`, `mem_alloc`, `mem_realloc`, `free_page` and `mem_free` of zone-allocator/allocator.c.
-- They call each other: each takes the two operations it may call, and `depth` counts the calls.
pub mod Realloc
pub mod Multipage
pub mod Return
pub mod Room
pub mod InPage
pub mod Chain
pub mod Drain
pub mod Fresh
pub mod Whole
pub mod GiveBack
pub mod Cycle
pub mod Post
pub mod Local
pub mod OfDescriptor
pub mod PageSize
pub mod Linked
pub mod Depth
use system_sw.Prelude.{
  ℕ, zero, suc, ◌+◌, ◌-◌, ◌*◌, ◌/◌, ◌%◌, ◌^◌, ◌≤◌, ◌<◌, min, ◌≡◌, ◌∙◌, refl, sym, ap, subst, ◌≢◌,
  ◌↔◌, ◌⊎◌, inl, inr, Bool, true, false, not, ◌&&◌, ◌||◌, Option, none, some, List, [], ◌∷◌, ◌++◌,
  map, arith, ltb, leb, ◌==◌, if◌then◌else◌, ltb→lt, lt→ltb, le→not_ltb, le→leb, lt→not_leb,
  Bool-cases, ◌>>=◌, length, length-append,
}
use system_sw.Prelude.Word.{
  wrap, sub32, positive, wrap_small, sub32_small, sub32_neg, positive_small, not_positive_of_neg,
  positive-sub32,
}
use system_sw.Memory.{Bytes, at, copy}
use system_sw.Zone.{
  size_d, PageState, state_free, state_busy, state_multipage, desc, Descriptor, ZoneInfo, put, fill,
  log2, char_value, round_pow_2, page_addr, page_of_addr, append_page_to_class, unlink_neighbours,
  remove_from_class,
}
use system_sw.Zone.Pages.{find_loop, multipage_alloc, free_multipage}

-- the result of an allocation, an address or `NULL`, and the state
abbrev pub Allocated : Type 0
Allocated = Option (Option ℕ × ZoneInfo)

-- `mem_alloc` and `mem_free`
pub record Calls : Type 0 where
  pub alloc : ℕ → ZoneInfo → Allocated
  pub free : ℕ → ZoneInfo → Option ZoneInfo

-- a descriptor in its own page: `(size > sizeof(descriptor)) && size < sizeof(descriptor)*2`
abbrev pub is_local : ℕ → Bool
is_local size = ltb size_d size && ltb size (2 * size_d)

-- the blocks from `block` on linked to a list, `n` of them before the last
pub link_blocks : (ℕ → Option ℕ) → ℕ → ℕ → ℕ → ℕ → Option ℕ
link_blocks links block size zero = put links block none
link_blocks links block size (suc n) =
    link_blocks (put links block (some (block + size))) (block + size) size n

-- `alloc_page` from `*descp = d` on
pub new_page : ℕ → ℕ → ℕ → ℕ → ℕ → ZoneInfo → Allocated
new_page i size free_count block descp z =
    let d : Descriptor = record {
      free_count = free_count;
      index = i;
      class = log2 size;
      block = some block;
      next = none;
      prev = none;
    } in
    append_page_to_class (log2 size) descp (record z {
      store = put z.store descp d;
      links = link_blocks z.links block size (free_count - 1);
      descriptors = put z.descriptors i (desc descp);
    })
    >>= (λ z'. some (some descp, z'))

-- the page of a delegated descriptor, once its block is allocated
pub delegated_page : ℕ → ℕ → Option ℕ × ZoneInfo → Allocated
delegated_page i size (none, z) = some (none, z)
delegated_page i size (some descp, z) = new_page i size (z.page_size / size) (page_addr z i) descp z

-- `alloc_page` for the page that its loop found
pub alloc_page_at : Calls → ℕ → Option ℕ → ZoneInfo → Allocated
alloc_page_at calls size none z = some (none, z)
alloc_page_at calls size (some i) z =
    let z' = record z { descriptors = put z.descriptors i state_busy } in
    if is_local size
    then new_page i size (z.page_size / size - 1) (page_addr z i + size) (page_addr z i) z'
    else calls.alloc size_d z' >>= delegated_page i size

-- the search of its loop is the one for a single free page, from page 1 on
pub alloc_page : Calls → ℕ → ZoneInfo → Allocated
alloc_page calls size z =
    alloc_page_at calls size (find_loop z.descriptors 1 1 (z.page_count - 1) 0) z

-- `PAGE_OF_ADDR(mi.descriptors[id]) != id`, and the descriptor freed if that holds
pub free_delegated : Calls → PageState → ℕ → ZoneInfo → Option ZoneInfo
free_delegated calls state_free id z = none
free_delegated calls state_busy id z = none
free_delegated calls state_multipage id z = none
free_delegated calls (desc d) id z = if page_of_addr z d == id then some z else calls.free d z

-- the page at `page` without its last free block: it leaves its list, and its descriptor is freed
pub page_full : Calls → ℕ → ℕ → ZoneInfo → Option ZoneInfo
page_full calls class page z =
    let p = z.store page in
    let z' = record z { store = unlink_neighbours page z.store } in
    free_delegated calls (z'.descriptors p.index) p.index z' >>= (λ z''. some (record z'' {
      descriptors = put z''.descriptors p.index state_busy;
      classes = put z''.classes class p.next;
    }))

-- the block is taken; without a block behind it the page is full
pub after_front : Calls → ℕ → ℕ → ℕ → Option ℕ → ZoneInfo → Allocated
after_front calls class page block none z =
    page_full calls class page z >>= (λ z'. some (some block, z'))
after_front calls class page block (some b) z = some (some block, z)

-- the block at the front of the page's list
pub take_front : Calls → ℕ → ℕ → Option ℕ → ZoneInfo → Allocated
take_front calls class page none z = none
take_front calls class page (some block) z =
    let p = z.store page in
    let p' = record p { block = z.links block; free_count = sub32 p.free_count 1 } in
    after_front calls class page block (z.links block) (record z { store = put z.store page p' })

-- `if (!page) return NULL;`
pub take_block_of : Calls → ℕ → Option ℕ × ZoneInfo → Allocated
take_block_of calls class (none, z) = some (none, z)
take_block_of calls class (some page, z) = take_front calls class page (z.store page).block z

-- the first page of the class, or a new one
pub class_page : Calls → ℕ → Option ℕ → ZoneInfo → Allocated
class_page calls size none z = alloc_page calls size z
class_page calls size (some page) z = some (some page, z)

-- the size of the block for `size_in` bytes, which has room for a descriptor
abbrev pub rounded : ℕ → ℕ
rounded size_in = round_pow_2 (if leb size_d size_in then size_in else size_d)

unfoldable pub alloc_with : Calls → ℕ → ZoneInfo → Allocated
alloc_with calls size_in z =
    let size = rounded size_in in
    let class = log2 size in
    if ltb class z.class_count
    then class_page calls size (z.classes class) z >>= take_block_of calls class
    else some (multipage_alloc size z)

-- `free_page`
pub free_page : Calls → ℕ → ℕ → ZoneInfo → Option ZoneInfo
free_page calls page_id d z =
    let z' = remove_from_class d (record z { page_classes = put z.page_classes page_id 0 }) in
    free_delegated calls (z'.descriptors page_id) page_id z'
    >>= (λ z''. some (record z'' { descriptors = put z''.descriptors page_id state_free }))

-- a block given back to a page that has free blocks
pub free_in_page : Calls → ℕ → ℕ → ℕ → ZoneInfo → Option ZoneInfo
free_in_page calls addr page_id d z =
    let p = z.store d in
    let count = wrap (p.free_count + 1) in
    let max = z.page_size / 2 ^ p.class in
    let z' = record z {
      store = put z.store d (record p { free_count = count; block = some addr });
      links = put z.links addr p.block;
    } in
    if leb max count || (leb (sub32 max 1) count && page_of_addr z d == page_id)
    then free_page calls page_id d z'
    else some z'

-- a block given back to a page without free blocks, once it has a descriptor
pub reopen_page : ℕ → ℕ → Option ℕ × ZoneInfo → Option ZoneInfo
reopen_page addr page_id (none, z) = some z
reopen_page addr page_id (some d, z) =
    let class = char_value (z.page_classes page_id) in
    let p : Descriptor = record {
      free_count = 1;
      index = page_id;
      class = class;
      block = some addr;
      next = none;
      prev = none;
    } in
    append_page_to_class class d
      (record z { store = put z.store d p; links = put z.links addr none })
    >>= (λ z'. some (record z' { descriptors = put z'.descriptors page_id (desc d) }))

pub free_in_full : Calls → ℕ → ℕ → ZoneInfo → Option ZoneInfo
free_in_full calls addr page_id z =
    let z' = record z { descriptors = put z.descriptors page_id state_busy } in
    let size = 2 ^ char_value (z.page_classes page_id) in
    if is_local size
    then reopen_page addr page_id (some (page_addr z page_id), z')
    else calls.alloc size_d z' >>= reopen_page addr page_id

pub free_state : Calls → PageState → ℕ → ℕ → ZoneInfo → Option ZoneInfo
free_state calls state_free addr page_id z = free_in_full calls addr page_id z
free_state calls state_busy addr page_id z = free_in_full calls addr page_id z
free_state calls state_multipage addr page_id z = some (free_multipage page_id z)
free_state calls (desc d) addr page_id z = free_in_page calls addr page_id d z

unfoldable pub free_with : Calls → ℕ → ZoneInfo → Option ZoneInfo
free_with calls addr z =
    let page_id = page_of_addr z addr in free_state calls (z.descriptors page_id) addr page_id z

-- the operations over those that they call
abbrev pub above : Calls → Calls
above calls = record { alloc = alloc_with calls; free = free_with calls }

-- the operations with `depth` calls of each other below them
pub calls_at : ℕ → Calls
calls_at zero = record { alloc = λ size z. none; free = λ addr z. none }
calls_at (suc depth) = above (calls_at depth)

-- A descriptor's own page has its descriptor in it: four calls are more than follow each other.
abbrev pub depth : ℕ
depth = 4

unfoldable pub mem_alloc : ℕ → ZoneInfo → Allocated
mem_alloc size z = alloc_with (calls_at depth) size z

unfoldable pub mem_free : ℕ → ZoneInfo → Option ZoneInfo
mem_free addr z = free_with (calls_at depth) addr z
