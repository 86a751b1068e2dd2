-- ===== src/Ffs/Ops/Parent.antt =====
-- The directory of a new name, while `create_entry` takes a descriptor and a block and fills the inode.
use system_sw.Prelude.{
  ℕ, ◌+◌, ◌*◌, ◌/◌, ◌^◌, ◌≤◌, ◌<◌, ◌≡◌, ◌∙◌, refl, ap, ◌≢◌, inl, inr, true, false, some, List, [],
  ◌∷◌, arith, ltb, ◌==◌, ltb→lt, Bool-cases,
}
use system_sw.Prelude.Word.{wrap, sub32}
use system_sw.Memory.{Bytes}
use system_sw.Ffs.{userfiles_offset, InodeInfo, Fs, fd_list_block}
use system_sw.Ffs.Bitmask.{check_bit}
use system_sw.Ffs.Bitmask.Inodes.{SameInodes, SameInodes_trans}
use system_sw.Ffs.Bitmask.Take.{TakesFirst}
use system_sw.Ffs.Bitmask.Taken.{BlockTaken, FdTaken}
use system_sw.Ffs.Inode.{find_inode, iget}
use system_sw.Ffs.File.Read.{content}
use system_sw.Ffs.File.Overwrite.{file_blocks}
use system_sw.Ffs.Dir.{entry_fd}
use system_sw.Ffs.Dir.Loop.{DirOk}
use system_sw.Ffs.Volume.{data_start, Volume, Marked, Owns, FdTaken-Volume, BlockTaken-Volume}

-- the references of a list are all below `n`
abbrev pub Older : List ℕ → ℕ → Type 0
Older [] n = Unit {0}
Older (r ∷ rs) n = (r < n) × Older rs n

-- the inode number in entry `k`
abbrev pub entry_number : Bytes → ℕ → ℕ
entry_number bytes k = sub32 (wrap (userfiles_offset + entry_fd bytes k)) 1

-- A directory with room for one more entry in its blocks. Its entries name no free descriptor.
pub record Parent (fs : Fs) (dir : ℕ) : Type 0 where
  pub ok : DirOk fs dir
  pub owns : Owns fs (fs.inode dir)
  pub older : dir < fs.fresh
  pub list : Older fs.inodes fs.fresh
  pub room : (fs.inode dir).i_size + 16 ≤ 512 * file_blocks fs (fs.inode dir)
  pub room31 : (fs.inode dir).i_size + 16 < 2 ^ 31
  pub entries :
      (k i : ℕ)
      → k < (fs.inode dir).i_size / 16
      → check_bit fs.sbi.fd_bitmask i ≡ false
      → entry_number (content fs (fs.inode dir)) k ≢ userfiles_offset + i

find_inode-others :
    (s s' : ℕ → InodeInfo) (n r : ℕ) (l : List ℕ)
    → Older l r
    → ((k : ℕ) → k ≢ r → s' k ≡ s k)
    → find_inode s' n l ≡ find_inode s n l
unfolding find_inode
find_inode-others s s' n r [] old same = refl
find_inode-others s s' n r (x ∷ xs) (lt, old) same =
    rw (same x (omega (arith, lt)), find_inode-others s s' n r xs old same) refl

-- an inode in front of the list
module _ (fs fs' : Fs) (r n : ℕ) (list : fs'.inodes ≡ r ∷ fs.inodes) (old : Older fs.inodes r)
    (same : (k : ℕ) → k ≢ r → fs'.inode k ≡ fs.inode k) where
  pub iget_first : (fs'.inode r).i_ino ≡ n → iget fs' n ≡ some r
  unfolding iget find_inode
  iget_first e = let t : ((fs'.inode r).i_ino == n) ≡ true = ground arith in rw (list, t) refl

  pub iget_behind : n ≢ (fs'.inode r).i_ino → iget fs' n ≡ iget fs n
  unfolding iget find_inode
  iget_behind ne =
      let t : ((fs'.inode r).i_ino == n) ≡ false = ground arith in
      rw (list, t) (find_inode-others fs.inode fs'.inode n r fs.inodes old same)

-- descriptor `i` and block `j` are taken, each the first that was free
pub record BothTaken (fs fs2 : Fs) (i j : ℕ) : Type 0 where
  pub volume : Volume fs2
  pub list_block : fd_list_block fs2.sbi ≡ fd_list_block fs.sbi
  pub start : data_start fs2.sbi ≡ data_start fs.sbi
  pub files : fs2.sbi.max_file_count ≡ fs.sbi.max_file_count
  pub block_count : fs2.sbi.block_count ≡ fs.sbi.block_count
  pub disk : (b : ℕ) → data_start fs.sbi ≤ b → fs2.disk b ≡ fs.disk b
  pub fd : TakesFirst fs.sbi.fd_bitmask fs2.sbi.fd_bitmask fs.sbi.max_file_count i
  pub block : TakesFirst fs.sbi.b_bitmask fs2.sbi.b_bitmask fs.sbi.block_count j
  pub inodes : SameInodes fs fs2

pub both_taken :
    (fs fs1 fs2 : Fs) (i j : ℕ)
    → Volume fs
    → FdTaken fs i fs1
    → BlockTaken fs1 j fs2
    → BothTaken fs fs2 i j
both_taken fs fs1 fs2 i j v f b =
    let e = f.sbi in
    let l1 : fd_list_block fs1.sbi ≡ fd_list_block fs.sbi = ap (λ s. fd_list_block s) e in
    let l2 : fd_list_block fs2.sbi ≡ fd_list_block fs1.sbi = ap (λ s. fd_list_block s) b.sbi in
    let s1 : data_start fs1.sbi ≡ data_start fs.sbi = ap (λ s. data_start s) e in
    let s2 : data_start fs2.sbi ≡ data_start fs1.sbi = ap (λ s. data_start s) b.sbi in
    let m1 : fs1.sbi.max_file_count ≡ fs.sbi.max_file_count = ap (λ s. s.max_file_count) e in
    let m2 : fs2.sbi.max_file_count ≡ fs1.sbi.max_file_count = ap (λ s. s.max_file_count) b.sbi in
    let bm : fs1.sbi.b_bitmask ≡ fs.sbi.b_bitmask = ap (λ s. s.b_bitmask) e in
    let bc : fs1.sbi.block_count ≡ fs.sbi.block_count = ap (λ s. s.block_count) e in
    let fm : fs2.sbi.fd_bitmask ≡ fs1.sbi.fd_bitmask = ap (λ s. s.fd_bitmask) b.sbi in
    let v1 = FdTaken-Volume fs i fs1 f v in
    let below_i = f.takes.below in
    let below_j : j < fs.sbi.block_count = rw bc at (b.takes.below) in
    let rooms = v.layout.fd_bits in
    let rooms' = v.layout.b_bits in
    record {
      volume = BlockTaken-Volume fs1 j fs2 b v1;
      list_block = l2 ∙ l1;
      start = s2 ∙ s1;
      files = m2 ∙ m1;
      block_count = ap (λ s. s.block_count) b.sbi ∙ bc;
      disk = λ k h. b.disk k (λ q. absurd (omega arith)) ∙ f.disk k (λ q. absurd (omega arith));
      fd = rw fm f.takes;
      block = rw bm at (rw bc at (b.takes));
      inodes = SameInodes_trans f.inodes b.inodes;
    }

-- block `j`, which was free, is behind the service blocks, and no marked block is the same
pub BothTaken-start :
    (fs fs2 : Fs) (i j : ℕ) → Volume fs → BothTaken fs fs2 i j → data_start fs.sbi ≤ j
BothTaken-start fs fs2 i j v t = elim (Bool-cases (ltb j (data_start fs.sbi))) [
  | inl e ↦
      absurd
        (let s = v.service j (ltb→lt _ _ e) in let c = t.block.was_clear in ground (arith, s, c))
  | inr e ↦ ground arith
]

pub BothTaken-ne : (fs fs2 : Fs) (i j b : ℕ) → BothTaken fs fs2 i j → Marked fs b → b ≢ j
BothTaken-ne fs fs2 i j b t m e =
    let q = rw e at (m.1) in let c = t.block.was_clear in ground (arith, q, c)
