-- ===== src/Mkfs/Taken.antt =====
-- What a mounted image of mkfs.ffs hands out first.
use system_sw.Prelude.{ℕ, ◌+◌, ◌*◌, ◌≤◌, ◌<◌, ◌≡◌, inl, inr, arith, ltb, ltb→lt, Bool-cases}
use system_sw.Memory.{Bytes}
use system_sw.Ffs.{InodeInfo, Fs}
use system_sw.Ffs.Bitmask.{check_bit, get_empty_block, get_empty_fd}
use system_sw.Ffs.Bitmask.Take.{
  TakesFirst, BlockMaskOk, FdMaskOk, get_empty_block-TookBlock, get_empty_fd-TookFd,
}
use system_sw.Ffs.Mount.{mounted, fill_super}
use system_sw.Mkfs.{layout, service_blocks, mkfs}
use system_sw.Mkfs.Readback.{zeros}
use system_sw.Mkfs.Contents.{fill_super-MkfsMount}

-- of a mask with its first `c` bits set, bit `c` is taken first
first_is :
    (bm bm' : Bytes) (count c i : ℕ)
    → ((k : ℕ) → check_bit bm k ≡ ltb k c)
    → TakesFirst bm bm' count i
    → i ≡ c
first_is bm bm' count c i bits t = elim (Bool-cases (ltb c i)) [
  | inl e ↦ absurd (let a = t.first c (ltb→lt _ _ e) in let b = bits c in ground (arith, a, b))
  | inr e ↦ let a = t.was_clear in let b = bits i in ground (arith, a, b)
]

-- In the mounted image, `ffs_get_empty_block` gives the first block behind those that mkfs.ffs used,
-- and `ffs_get_empty_fd` the fourth descriptor; both masks are in step with the disk after it. The
-- answers are the numbers plus one.
pub get_empty-mkfs :
    (junk : Bytes) (size : ℕ) (blank : InodeInfo) (fs : Fs)
    → 12800 ≤ size
    → size < 512 * 4097
    → fill_super blank (mkfs junk size zeros) ≡ mounted 0 fs
    → (((get_empty_block fs).0 ≡ service_blocks (layout size) + 7)
        × BlockMaskOk (get_empty_block fs).1)
      × (((get_empty_fd fs).0 ≡ 4) × FdMaskOk (get_empty_fd fs).1)
get_empty-mkfs junk size blank fs low high e =
    let f = (fill_super-MkfsMount junk size blank fs low high e).fresh in
    let c = service_blocks (layout size) + 6 in
    let (room, room') = f.more in
    (
      elim (get_empty_block-TookBlock fs f.block_mask) [
        | inl (z, same, all) ↦
            absurd (let a = all c room in let b = f.used_blocks c in ground (arith, a, b))
        | inr (i, r, takes, ok, rest) ↦
            let q = first_is _ _ _ c i f.used_blocks takes in (omega (arith, r, q), ok)
      ],
      elim (get_empty_fd-TookFd fs f.fd_mask) [
        | inl (z, same, all) ↦
            absurd (let a = all 3 room' in let b = f.used_fds 3 in ground (arith, a, b))
        | inr (i, r, takes, ok, rest) ↦
            let q = first_is _ _ _ 3 i f.used_fds takes in (omega (arith, r, q), ok)
      ],
    )
