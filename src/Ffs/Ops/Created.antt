-- ===== src/Ffs/Ops/Created.antt =====
-- What `create_entry` leaves.
use system_sw.Prelude.{
  ℕ, ◌+◌, ◌-◌, ◌≤◌, ◌<◌, ◌≡◌, ◌∙◌, refl, sym, ap, subst, ◌≢◌, true, false, ◌||◌, some, List, ◌∷◌,
  arith, ◌==◌, length,
}
use system_sw.Prelude.Word.{sub32_small}
use system_sw.Memory.{Bytes, get32}
use system_sw.Ffs.{userfiles_offset, InodeInfo, Fs, fd_list_block}
use system_sw.Ffs.Bitmask.{check_bit}
use system_sw.Ffs.Bitmask.Take.{TakesFirst}
use system_sw.Ffs.Bitmask.Taken.{get_empty_block-BlockTaken, get_empty_fd-FdTaken}
use system_sw.Ffs.File.{word}
use system_sw.Ffs.File.Overwrite.{fd_block, file_block, file_blocks}
use system_sw.Ffs.Dir.{negative, attached, lookup}
use system_sw.Ffs.Dir.Names.{nul_free}
use system_sw.Ffs.Dir.Loop.{DirOk}
use system_sw.Ffs.Dir.Add.{Added}
use system_sw.Ffs.Volume.{FdTaken-Volume, data_start, Volume, Volume-kept, Marked, Owns}
use system_sw.Ffs.Ops.{created, file_type, create_typed, create_entry}
use system_sw.Ffs.Ops.Fill.{write_inode-fill_inode, filled-zero, filled-sbi, filled-Volume}
use system_sw.Ffs.Ops.Create.{
  made, fs3, listed, data_block, kept_inode, first, self, kept_dir, kept_table, kept_list_block,
  lookup-filled, filled-add,
}
use system_sw.Ffs.Ops.Parent.{Parent, BothTaken, both_taken, BothTaken-start, BothTaken-ne}

-- The state after `create_entry` with descriptor `i` and datablock `j`: the name and the inode are
-- there, and all else is as it was.
pub record Created (fs fs' : Fs) (dir : ℕ) (name : List ℕ) (mode type i j : ℕ) : Type 0 where
  pub found : lookup fs' dir name ≡ some (attached fs.fresh)
  pub other_names :
      (a : List ℕ)
      → nul_free a ≡ true
      → length a ≤ 9
      → a ≢ name
      → lookup fs' dir a ≡ lookup fs dir a
  pub fd_bit : TakesFirst fs.sbi.fd_bitmask fs'.sbi.fd_bitmask fs.sbi.max_file_count i
  pub block_bit : TakesFirst fs.sbi.b_bitmask fs'.sbi.b_bitmask fs.sbi.block_count j
  pub i_ino : (fs'.inode fs.fresh).i_ino ≡ userfiles_offset + i
  pub i_mode : (fs'.inode fs.fresh).i_mode ≡ mode
  pub i_size : (fs'.inode fs.fresh).i_size ≡ 0
  pub i_nlink : (fs'.inode fs.fresh).i_nlink ≡ 1
  pub fd :
      (fs'.inode fs.fresh).fd
      ≡ record { type = type; datablock_id = j; link_count = 1; file_size = 0 }
  pub datablock : (fs'.inode fs.fresh).datablock ≡ j
  pub no_blocks : file_blocks fs' (fs'.inode fs.fresh) ≡ 0
  pub list : fs'.inodes ≡ fs.fresh ∷ fs.inodes
  pub others : (k : ℕ) → k ≢ dir → k ≢ fs.fresh → fs'.inode k ≡ fs.inode k
  pub dir_ok : DirOk fs' dir
  pub owns : Owns fs' (fs'.inode dir)
  pub apart : (fs'.inode dir).datablock ≢ j
  pub blocks_apart :
      (q : ℕ) → q < file_blocks fs' (fs'.inode dir) → file_block fs' (fs'.inode dir) q ≢ j
  pub volume : Volume fs'
  pub start : data_start fs'.sbi ≡ data_start fs.sbi
  pub files : fs'.sbi.max_file_count ≡ fs.sbi.max_file_count
  pub block_count : fs'.sbi.block_count ≡ fs.sbi.block_count
  pub behind : data_start fs.sbi ≤ j

word_zero : (b : Bytes) → ((k : ℕ) → k < 512 → b k ≡ 0) → word b 0 ≡ 0
unfolding get32
word_zero b h =
    let a = h 0 (omega arith) in
    let c = h 1 (omega arith) in
    let d = h 2 (omega arith) in let e = h 3 (omega arith) in ground (arith, a, c, d, e)

module _ (fs fs2 : Fs) (dir i j : ℕ) (blank : InodeInfo) (mode type : ℕ) (v : Volume fs)
    (p : Parent fs dir) (t : BothTaken fs fs2 i j) where
  abbrev before : Fs
  before = fs3 fs fs2 dir i j blank mode type v p t

  module _ (fs' : Fs) (name : List ℕ) (added : Added before fs' dir fs.fresh name) where
    start : data_start fs.sbi ≤ j
    start = BothTaken-start fs fs2 i j v t

    list_block : fd_list_block before.sbi ≡ fd_list_block fs.sbi
    list_block = kept_list_block fs fs2 dir i j blank mode type v p t

    table : before.disk (before.inode dir).datablock ≡ fs.disk (fs.inode dir).datablock
    table = kept_table fs fs2 dir i j blank mode type v p t

    dir_block :
        (q : ℕ)
        → q < file_blocks before (before.inode dir)
        → Marked fs (file_block before (before.inode dir) q)
    dir_block q l = rw table (p.owns.blocks q (rw table at l))

    descriptor : fd_block before (before.inode dir) < data_start fs.sbi
    descriptor =
        let number = p.owns.number in
        let listed = p.owns.listed in
        let files = v.layout.files in
        let d = v.layout.descriptors in
        let s = sub32_small (fs.inode dir).i_ino 1 number (omega arith) in
        let e : (before.inode dir).i_ino ≡ (fs.inode dir).i_ino =
          ap (λ x. x.i_ino) (kept_dir fs fs2 dir i j blank mode type v p t) in
        rw (e, s) (omega (arith, list_block))

    new_block : fs'.disk j ≡ before.disk j
    new_block =
        added.blocks j (λ e. absurd (omega (arith, e, start, descriptor)))
          (λ q l e. BothTaken-ne fs fs2 i j _ t (dir_block q l) (sym e))

    inode_kept : fs'.inode fs.fresh ≡ before.inode fs.fresh
    inode_kept = let o = p.older in added.others fs.fresh (omega arith)

    inode_made :
        fs'.inode fs.fresh
        ≡ record (made fs fs2 dir i j blank mode type v p t) { i_blocks = get32 (before.disk j) 0 }
    inode_made = inode_kept ∙ self fs fs2 dir i j blank mode type v p t

    sbi_kept : fs'.sbi ≡ fs2.sbi
    sbi_kept =
        added.sbi
        ∙ filled-sbi fs2 (made fs fs2 dir i j blank mode type v p t) i j fs.fresh refl refl
            (listed fs fs2 dir i j blank mode type v p t) t.volume.layout
            (data_block fs fs2 dir i j blank mode type v p t)

    kept-Volume : Volume fs'
    kept-Volume =
        Volume-kept before fs' added.sbi
          (λ n h.
            added.blocks n (λ e. absurd (omega (arith, e, h)))
              (λ q l e. absurd (let m = (dir_block q l).0 in omega (arith, e, m, h, list_block))))
          (filled-Volume fs2 (made fs fs2 dir i j blank mode type v p t) i j fs.fresh refl refl
            (listed fs fs2 dir i j blank mode type v p t) t.volume.layout
            (data_block fs fs2 dir i j blank mode type v p t) t.volume)

    start_kept : data_start fs'.sbi ≡ data_start fs.sbi
    start_kept = ap (λ s. data_start s) sbi_kept ∙ t.start

    mark_kept : (b : ℕ) → Marked fs b → Marked fs' b
    mark_kept b (l, m) =
        let q : check_bit fs'.sbi.b_bitmask b ≡ (j == b || check_bit fs.sbi.b_bitmask b) =
          rw sbi_kept (t.block.sets b) in
        (rw start_kept l, q ∙ ground (arith, m))

    db_kept : (fs'.inode dir).datablock ≡ (fs.inode dir).datablock
    db_kept =
        added.datablock ∙ ap (λ x. x.datablock) (kept_dir fs fs2 dir i j blank mode type v p t)

    tb_kept : fs'.disk (fs'.inode dir).datablock ≡ fs.disk (fs.inode dir).datablock
    tb_kept = added.table ∙ table

    kept-Owns : Owns fs' (fs'.inode dir)
    kept-Owns =
        let same = kept_dir fs fs2 dir i j blank mode type v p t in
        let number : (fs'.inode dir).i_ino ≡ (fs.inode dir).i_ino =
          added.number ∙ ap (λ x. x.i_ino) same in
        let files : fs'.sbi.max_file_count ≡ fs.sbi.max_file_count =
          ap (λ s. s.max_file_count) sbi_kept ∙ t.files in
        record {
          datablock = subst (Marked fs') (sym db_kept) (mark_kept _ p.owns.datablock);
          blocks = λ q l.
              subst (λ d. Marked fs' (word d (q + 1))) (sym tb_kept)
                (mark_kept _ (p.owns.blocks q (subst (λ d. q < word d 0) tb_kept l)));
          number = rw number p.owns.number;
          listed = rw (number, files) p.owns.listed;
        }

    pub added-Created : Created fs fs' dir name mode type i j
    added-Created = record {
      found = added.found;
      other_names = λ a fa sa ne.
          added.other_names a fa sa ne ∙ lookup-filled fs fs2 dir i j blank mode type v p t a sa;
      fd_bit = rw sbi_kept t.fd;
      block_bit = rw sbi_kept t.block;
      i_ino = ap (λ x. x.i_ino) inode_made;
      i_mode = ap (λ x. x.i_mode) inode_made;
      i_size = ap (λ x. x.i_size) inode_made;
      i_nlink = ap (λ x. x.i_nlink) inode_made;
      fd = ap (λ x. x.fd) inode_made;
      datablock = ap (λ x. x.datablock) inode_made;
      no_blocks =
          ap (λ x. word (fs'.disk x.datablock) 0) inode_made
          ∙ ap (λ b. word b 0) new_block
          ∙ word_zero (before.disk j) (
              filled-zero fs2 (made fs fs2 dir i j blank mode type v p t) i j fs.fresh refl refl
                (listed fs fs2 dir i j blank mode type v p t) t.volume.layout
                (data_block fs fs2 dir i j blank mode type v p t));
      list = added.numbers.list ∙ first fs fs2 dir i j blank mode type v p t;
      others = λ k nd nf. added.others k nd ∙ kept_inode fs fs2 dir i j blank mode type v p t k nf;
      dir_ok = added.dir_ok;
      owns = kept-Owns;
      apart = subst (λ b. b ≢ j) (sym db_kept) (BothTaken-ne fs fs2 i j _ t p.owns.datablock);
      blocks_apart = λ q l.
          subst (λ d. word d (q + 1) ≢ j) (sym tb_kept)
            (BothTaken-ne fs fs2 i j _ t (p.owns.blocks q (subst (λ d. q < word d 0) tb_kept l)));
      volume = kept-Volume;
      start = start_kept;
      files = ap (λ s. s.max_file_count) sbi_kept ∙ t.files;
      block_count = ap (λ s. s.block_count) sbi_kept ∙ t.block_count;
      behind = start;
    }

-- `create_entry` of a known file type, by a name that `ffs_lookup` does not find, ends and answers 0
-- where a descriptor and a block are free. It takes the first of each. The new inode has the
-- descriptor's number, the mode of its type, one link, no bytes and no blocks, and stands first in the
-- list; `ffs_lookup` finds it by the name, and by every other name what it found before. The directory
-- is again one of whole entries, the masks are in step with the disk, and the other inodes stay. The
-- conditions are those of `Volume` and `Parent`: the service blocks and the directory's are marked, the
-- directory has room for an entry in its blocks, and no entry names a free descriptor. Names have at
-- most nine characters, none of them 0.
pub create_entry-Created :
    (junk : Fs → Bytes) (blank : InodeInfo) (fs : Fs) (dir : ℕ) (name : List ℕ)
    (mode mode' type free_fd free_block : ℕ)
    → Volume fs
    → Parent fs dir
    → file_type mode ≡ some (mode', type)
    → nul_free name ≡ true
    → length name ≤ 9
    → lookup fs dir name ≡ some negative
    → free_fd < fs.sbi.max_file_count
    → check_bit fs.sbi.fd_bitmask free_fd ≡ false
    → free_block < fs.sbi.block_count
    → check_bit fs.sbi.b_bitmask free_block ≡ false
    → (i j : ℕ) × (fs' : Fs) × (create_entry junk blank dir name mode fs
        ≡ some (created fs.fresh, fs'))
      × Created fs fs' dir name mode' type i j
unfolding create_entry create_typed
create_entry-Created junk blank fs dir name mode mode' type free_fd free_block v p known free short
      none_yet hf cf hb cb =
    let (i, fs1, run1, f) = get_empty_fd-FdTaken fs free_fd v.fd_mask hf cf in
    let count : fs1.sbi.block_count ≡ fs.sbi.block_count = ap (λ s. s.block_count) f.sbi in
    let bits : fs1.sbi.b_bitmask ≡ fs.sbi.b_bitmask = ap (λ s. s.b_bitmask) f.sbi in
    let v1 = FdTaken-Volume fs i fs1 f v in
    let (j, fs2, run2, b) =
      get_empty_block-BlockTaken fs1 free_block v1.b_mask (rw count hb) (rw bits cb) in
    let t = both_taken fs fs1 fs2 i j v f b in
    let fresh1 : fs1.fresh ≡ fs.fresh = f.inodes.fresh in
    let small = v.layout.blocks in
    let below = t.block.below in
    let fill =
      write_inode-fill_inode blank i mode' type j fs.fresh fs1 fs2 run2 (omega arith)
        (b.inodes.fresh ∙ fresh1) in
    let (fs', run, added) =
      filled-add fs fs2 dir i j blank mode' type v p t junk name free short none_yet in
    let some_fd : (i + 1 == 0) ≡ false = ground arith in
    let index : i + 1 - 1 ≡ i = omega arith in
    (
      i,
      j,
      fs',
      rw (run1, some_fd, known, index, fresh1, fill, run) refl,
      added-Created fs fs2 dir i j blank mode' type v p t fs' name added,
    )
