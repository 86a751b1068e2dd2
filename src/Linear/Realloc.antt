-- ===== src/Linear/Realloc.antt =====
-- `mem_realloc` of linear-allocator/allocator.c, a definition for each of its branches. The source
-- calls `memfree`, which it does not declare, at the end of the last branch: a parameter here.
pub mod Shrink
pub mod Right
pub mod Own
mod Cases
use system_sw.Prelude.{
  ℕ, ◌+◌, ◌*◌, true, false, not, ◌&&◌, Option, none, some, ltb, leb, if◌then◌else◌, ◌>>=◌,
}
use system_sw.Prelude.Word.{wrap, sub32, positive}
use system_sw.Memory.{Bytes, at, copy}
use system_sw.Linear.{
  AlcInfo, BlockHeader, size_h, is_busy, read_header, ceil_4, write_header, mem_alloc,
}

-- a pointer or `NULL`, and the new state; `none` is a run that does not end in its fuel
abbrev pub Run : Type 0
Run = Option (Option ℕ × AlcInfo)

-- the blocks that a call reads: its own at `h`, the ones before and after, and the rounded size
pub record Around : Type 0 where
  pub h : ℕ
  pub prev_h : ℕ
  pub own : BlockHeader
  pub prev : BlockHeader
  pub next : BlockHeader
  pub ret_size : ℕ

pub around : AlcInfo → ℕ → ℕ → Around
around mi addr size =
    let h = sub32 addr size_h in
    let own = read_header mi.memory h in
    let prev_h = sub32 (sub32 addr own.prev_size) (2 * size_h) in
    record {
      h = h;
      prev_h = prev_h;
      own = own;
      prev = read_header mi.memory prev_h;
      next = read_header mi.memory (wrap (addr + own.size));
      ret_size = ceil_4 size;
    }

-- `memmove(to, from, size)`
pub moved : AlcInfo → ℕ → ℕ → ℕ → AlcInfo
moved mi to from size = record mi { memory = copy mi.memory to (at mi.memory from) size }

module _ (junk : Bytes → Bytes) (memfree : ℕ → AlcInfo → Option AlcInfo) where
  -- the block's own header, and its address
  pub keep_place : AlcInfo → (addr h prev_h : ℕ) → Bytes → ℕ → Run
  keep_place mi addr h prev_h m ret_size =
      write_header junk mi.amount m h true ret_size (read_header m prev_h).size
      >>= (λ m'. some (some addr, record mi { memory = m' }))

  pub shrink : AlcInfo → ℕ → Around → Run
  shrink mi addr a =
      let free_size = sub32 (sub32 a.own.size size_h) a.ret_size in
      if positive free_size
      then write_header junk mi.amount mi.memory (wrap (a.h + a.ret_size + size_h)) false free_size
          a.ret_size
        >>= (λ m. keep_place mi addr a.h a.prev_h m a.ret_size)
      else keep_place mi addr a.h a.prev_h mi.memory a.own.size

  pub expand_right : AlcInfo → ℕ → Around → Run
  expand_right mi addr a =
      let free_offset = wrap (a.h + size_h + a.ret_size) in
      let free_size = sub32 (sub32 (wrap (a.own.size + size_h + a.next.size)) a.ret_size) size_h in
      if positive free_size
      then write_header junk mi.amount mi.memory free_offset false free_size a.ret_size
        >>= (λ m. keep_place mi addr a.h a.prev_h m a.ret_size)
      else keep_place mi addr a.h a.prev_h mi.memory (wrap (a.own.size + a.next.size + size_h))

  -- the writes of the branch to the left, from the block's new place and the two sizes on
  pub write_left : AlcInfo → (addr size prev_h new_offset ret_size prev_size : ℕ) → Run
  write_left mi addr size prev_h new_offset ret_size prev_size =
      write_header junk mi.amount mi.memory new_offset true ret_size prev_size >>= (λ m.
        (if positive prev_size
          then write_header junk mi.amount m prev_h false prev_size (read_header m prev_h).prev_size
          else some m)
        >>= (λ m'.
            let ret_addr = wrap (new_offset + size_h) in
            some (some ret_addr, moved (record mi { memory = m' }) ret_addr addr size)))

  pub expand_left : AlcInfo → ℕ → ℕ → Around → Run
  expand_left mi addr size a =
      let available = wrap (a.prev.size + a.own.size + size_h) in
      let prev_size = sub32 (sub32 available a.ret_size) size_h in
      let new_offset = sub32 (wrap (a.h + a.own.size)) a.ret_size in
      if positive prev_size
      then write_left mi addr size a.prev_h new_offset a.ret_size prev_size
      else write_left mi addr size a.prev_h a.prev_h available a.prev.prev_size

  pub expand_both : AlcInfo → ℕ → ℕ → Around → Run
  expand_both mi addr size a =
      let available = wrap (a.prev.size + a.own.size + a.next.size + size_h * 2) in
      let free_size = sub32 (sub32 available a.ret_size) size_h in
      write_header junk mi.amount mi.memory a.prev_h true a.ret_size a.prev.prev_size >>= (λ m.
        (if positive free_size
          then write_header junk mi.amount m (wrap (a.prev_h + a.ret_size + size_h)) false free_size
              a.ret_size
          else some m)
        >>= (λ m'.
            let ret_addr = wrap (a.prev_h + size_h) in
            some (some ret_addr, moved (record mi { memory = m' }) ret_addr addr size)))

  pub move_away : ℕ → ℕ → Option ℕ × AlcInfo → Run
  move_away addr size (none, mi) = some (none, mi)
  move_away addr size (some ret_addr, mi) =
      memfree addr (moved mi ret_addr addr size) >>= (λ mi'. some (some ret_addr, mi'))

  -- A request for at least the block's size: the first of the branches that fits.
  pub grow : AlcInfo → ℕ → ℕ → Around → Run
  grow mi addr size a =
      if not (is_busy a.next) && leb a.ret_size (wrap (a.next.size + a.own.size + size_h))
      then expand_right mi addr a
      else if not (is_busy a.prev) && leb a.ret_size (wrap (a.prev.size + a.own.size + size_h))
      then expand_left mi addr size a
      else if not (is_busy a.prev)
          && not (is_busy a.next)
          && leb a.ret_size (wrap (a.prev.size + a.own.size + a.next.size + size_h * 2))
      then expand_both mi addr size a
      else mem_alloc junk size mi >>= move_away addr size

  -- `addr` is `none` for `NULL`.
  pub mem_realloc : Option ℕ → ℕ → AlcInfo → Run
  mem_realloc none size mi = mem_alloc junk size mi
  mem_realloc (some addr) size mi =
      let a = around mi addr size in
      if ltb size a.own.size then shrink mi addr a else grow mi addr size a
