-- ===== src/Ffs/Tests/Dir.antt =====
-- A directory with a name added, and with one removed.
use system_sw.Prelude.{
  ℕ, zero, suc, ◌+◌, ◌<◌, ◌≡◌, refl, some, true, false, Bool, List, [], ◌∷◌, arith,
}
use system_sw.Prelude.Word.{wrap, sub32, positive}
use system_sw.Memory.{Bytes, at, copy, get32}
use system_sw.Ffs.{Fs}
use system_sw.Ffs.Inode.{iget, find_inode}
use system_sw.Ffs.File.{file_read, read_loop, read_all}
use system_sw.Ffs.File.Overwrite.{fd_block, file_block}
use system_sw.Ffs.Dir.{
  str_eq, entry_inode, or_next, read_dir, add_to_dir, Memcpy, negative, lookup_loop, lookup,
  DirItem, readdir,
}
use system_sw.Ffs.Dir.Names.{nul_free}
use system_sw.Ffs.Dir.Search.{Holds}
use system_sw.Ffs.Dir.Loop.{DirOk}
use system_sw.Ffs.Dir.Add.{Added, lookup-add_to_dir}
use system_sw.Ffs.Dir.Listing.{items, hand_over, readdir-hand_over}
use system_sw.Ffs.Tests.Ops.{root, tree}

blocks : (j : ℕ) → j < 3 → file_block tree root j ≡ 20 + j
unfolding get32 sub32
blocks zero h = refl
blocks (suc zero) h = refl
blocks (suc (suc zero)) h = refl
blocks (suc (suc (suc j))) h = absurd (omega arith)

tree-DirOk : DirOk tree 0
unfolding get32 sub32
tree-DirOk = record {
  is_dir = omega arith;
  size = record { agree = refl; small = omega arith };
  file = record {
    small = omega arith;
    apart = λ j k hj hk e. omega (arith, blocks j hj, blocks k hk, e);
    not_datablock = λ j h e. absurd (omega (arith, blocks j h, e));
    not_fd =
        λ j h e. absurd (let f : fd_block tree root ≡ 3 = fd_at in omega (arith, blocks j h, e, f));
    datablock = λ e. absurd (let f : fd_block tree root ≡ 3 = fd_at in omega (arith, e, f));
  };
  within = omega arith;
  entries = refl;
}
  where
    fd_at : fd_block tree root ≡ 3
    fd_at = refl

lookup_c : lookup tree 0 (99 ∷ []) ≡ some negative
unfolding lookup read_dir read_all file_read read_loop lookup_loop str_eq entry_inode or_next iget
    find_inode copy get32 sub32 wrap positive
lookup_c = refl

iget_2 : iget tree 2 ≡ some 1
unfolding iget find_inode
iget_2 = refl

lookup-add_to_dir_example :
    (fs' : Fs) × (add_to_dir (λ fs k. 7) 0 1 (99 ∷ []) tree ≡ some fs')
    × Added tree fs' 0 1 (99 ∷ [])
unfolding get32 sub32 nul_free
lookup-add_to_dir_example =
    lookup-add_to_dir (λ fs k. 7) tree 0 1 (99 ∷ []) tree-DirOk refl (omega arith) (omega arith)
      (omega arith) iget_2 lookup_c (omega arith) (omega arith)

upwards : Memcpy
upwards m dst src n = copy m dst (at m src) n

-- a buffer of inode numbers with room for three
take_three : List ℕ → DirItem → Bool × List ℕ
take_three (a ∷ b ∷ c ∷ l) item = (true, a ∷ b ∷ c ∷ l)
take_three l item = (false, item.ino ∷ l)

readdir-hand_over_example :
    (buf : Bytes) × Holds tree 0 buf
    × (let (res, pos, s') = hand_over take_three 0 [] (items tree 0 0 buf) in
        (readdir take_three tree 0 0 0 [] ≡ some (res, pos, s'))
        × (readdir take_three tree 0 0 pos s' ≡ some (1, pos, s')))
readdir-hand_over_example = readdir-hand_over take_three tree 0 0 [] tree-DirOk.size
