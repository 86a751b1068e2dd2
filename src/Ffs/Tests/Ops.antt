-- ===== src/Ffs/Tests/Ops.antt =====
-- The operations on inodes and directories at the small image.
use system_sw.Prelude.{
  ℕ, zero, suc, ◌+◌, ◌*◌, ◌≤◌, ◌<◌, ◌≡◌, refl, ◌≢◌, ◌⊎◌, true, some, [], ◌∷◌, arith, ◌==◌,
  if◌then◌else◌,
}
use system_sw.Prelude.Word.{sub32}
use Prim.Native.Nat.{bit_and}
use system_sw.Memory.{Bytes, get32}
use system_sw.Ffs.{Fs, InodeInfo}
use system_sw.Ffs.Bitmask.{bitmask_page}
use system_sw.Ffs.Bitmask.Bits.{AreBytes}
use system_sw.Ffs.Bitmask.Inodes.{SameInodes}
use system_sw.Ffs.Inode.{clear_fd}
use system_sw.Ffs.Inode.Clear.{Clears, Listed, clear_fd-Clears}
use system_sw.Ffs.Dir.{s_ifdir, LookupResult, no_entry, lookup}
use system_sw.Ffs.Dir.Search.{Holds, Finds, lookup-Finds}
use system_sw.Ffs.Ops.{setattr}
use system_sw.Ffs.Ops.Truncate.{setattr_frees_count}
use system_sw.Ffs.Ops.{drop_link}
use system_sw.Ffs.Ops.Unlink.{Kept, Removed, drop_link_lem}
use system_sw.Ffs.Tests.{b_mask, fd_mask, file_blocks, disk, file, image}

b_mask-AreBytes : AreBytes b_mask
b_mask-AreBytes k = ground arith

fd_mask-AreBytes : AreBytes fd_mask
fd_mask-AreBytes k = ground arith

blocks_away : (k : ℕ) → 1 ≤ k → k < 4 → 9 ≢ bitmask_page (get32 file_blocks (4 * k)) + 1
unfolding get32
blocks_away zero lo hi = absurd (omega arith)
blocks_away (suc zero) lo hi = omega arith
blocks_away (suc (suc zero)) lo hi = omega arith
blocks_away (suc (suc (suc zero))) lo hi = omega arith
blocks_away (suc (suc (suc (suc k)))) lo hi = absurd (omega arith)

clear_fd-Clears_example :
    let fs' = clear_fd 0 image in
    Clears b_mask fs'.sbi.b_bitmask (λ m. Listed file_blocks 1 4 m ⊎ (m ≡ 9))
    × Clears fd_mask fs'.sbi.fd_bitmask (λ m. m ≡ sub32 2 1)
    × SameInodes image fs'
unfolding get32
clear_fd-Clears_example = clear_fd-Clears image 0 b_mask-AreBytes fd_mask-AreBytes blocks_away

setattr_frees_count_example :
    let fs' = setattr 0 true 512 image in
    Clears b_mask fs'.sbi.b_bitmask (λ m. (1 < 3) × (m ≡ 3))
    × (fs'.sbi.fd_bitmask ≡ fd_mask)
    × ((fs'.inode 0).i_size ≡ 512)
    × ((fs'.inode 0).fd.file_size ≡ 512)
    × ((k : ℕ) → k ≢ 0 → fs'.inode k ≡ image.inode k)
unfolding get32
setattr_frees_count_example =
    setattr_frees_count image 0 512 (omega arith) (omega arith) (omega arith) b_mask-AreBytes
      (omega arith)

-- a directory with the entries 1 `a` and 2 `b`, in block 20
abbrev pub entries : Bytes
entries k =
    if k == 0 then 1 else if k == 4 then 97 else if k == 16 then 2 else if k == 20 then 98 else 0

abbrev pub root : InodeInfo
root = record file {
  i_ino = 1;
  i_mode = 0o040755;
  i_size = 32;
  fd = record file.fd { file_size = 32 };
}

abbrev pub tree : Fs
tree = record image {
  disk = λ n. if n == 20 then entries else disk n;
  inode = λ r. if r == 0 then root else file;
  inodes = 1 ∷ 0 ∷ [];
}

lookup-Finds_example :
    ((bit_and 0o040755 s_ifdir ≡ 0) × (lookup tree 0 (98 ∷ []) ≡ some no_entry))
    ⊎ ((bit_and 0o040755 s_ifdir ≢ 0)
        × ((buf : Bytes) × (res : LookupResult) × (lookup tree 0 (98 ∷ []) ≡ some res)
            × Holds tree 0 buf
            × Finds tree buf (98 ∷ []) 0 2 res))
lookup-Finds_example = lookup-Finds tree 0 (98 ∷ []) (record { agree = refl; small = omega arith })

drop_link_lem_example :
    ((2 ≤ 1) × Kept 0 image (drop_link 0 image))
    ⊎ ((file.fd.link_count ≡ 1) × Removed 0 image (drop_link 0 image))
unfolding get32
drop_link_lem_example =
    drop_link_lem 0 image (omega arith) (omega arith) b_mask-AreBytes fd_mask-AreBytes blocks_away
