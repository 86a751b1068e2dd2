-- ===== src/Zone/Ops/Realloc.antt =====
-- `mem_realloc` of zone-allocator/allocator.c.
pub mod Move
use system_sw.Prelude.{ℕ, ◌+◌, ◌-◌, ◌*◌, ◌^◌, min, Option, none, some, ltb, if◌then◌else◌, ◌>>=◌}
use system_sw.Prelude.Word.{wrap}
use system_sw.Memory.{at, copy}
use system_sw.Zone.{
  PageState, state_free, state_busy, state_multipage, desc, ZoneInfo, page_of_addr,
}
use system_sw.Zone.Ops.{Allocated, mem_alloc, mem_free}

-- `min(pow(2, c), size)`
abbrev pub class_bytes : ℕ → ℕ → ℕ
class_bytes c size = if ltb c 128 then min (2 ^ c) size else 0

-- The number of bytes that `mem_realloc` copies. The product is unsigned.
pub copy_size : PageState → ℕ → ℕ → ℕ → ℕ
copy_size state_multipage c page_size size =
    min (wrap ((if ltb c 128 then c else c + 2 ^ 32 - 256) * page_size)) size
copy_size state_free c page_size size = class_bytes c size
copy_size state_busy c page_size size = class_bytes c size
copy_size (desc d) c page_size size = class_bytes c size

pub move_to : ℕ → ℕ → Option ℕ × ZoneInfo → Allocated
move_to addr size (none, z) = some (none, z)
move_to addr size (some new, z) =
    let page = page_of_addr z addr in
    let n = copy_size (z.descriptors page) (z.page_classes page) z.page_size size in
    mem_free addr (record z { memory = copy z.memory new (at z.memory addr) n })
    >>= (λ z'. some (some new, z'))

pub mem_realloc : ℕ → ℕ → ZoneInfo → Allocated
mem_realloc addr size z = mem_alloc size z >>= move_to addr size
