-- ===== src/Ffs/Ops/Create.antt =====
-- `create_entry`, and `ffs_lookup` after it.
use system_sw.Prelude.{
  ℕ, ◌+◌, ◌/◌, ◌%◌, ◌≤◌, ◌<◌, ◌≡◌, ◌∙◌, refl, ap, ◌≢◌, true, some, List, ◌∷◌, arith, length,
}
use system_sw.Memory.{Bytes, get32}
use system_sw.Ffs.{userfiles_offset, InodeInfo, Fs, fd_list_block}
use system_sw.Ffs.File.{word}
use system_sw.Ffs.File.Read.{content}
use system_sw.Ffs.File.Overwrite.{file_block, FileOk-kept}
use system_sw.Ffs.Dir.{entry_inode, negative, add_to_dir, lookup}
use system_sw.Ffs.Dir.Names.{nul_free}
use system_sw.Ffs.Dir.Loop.{DirOk}
use system_sw.Ffs.Dir.Kept.{lookup-kept}
use system_sw.Ffs.Dir.Add.{Added, lookup-add_to_dir}
use system_sw.Ffs.Volume.{data_start, Volume, Marked}
use system_sw.Ffs.Ops.Fill.{
  new_inode, filled, filled-data, filled-sbi, filled-inodes, filled-others, filled_self,
}
use system_sw.Ffs.Ops.Parent.{
  entry_number, Parent, iget_first, iget_behind, BothTaken, BothTaken-start, BothTaken-ne,
}

-- the state before the name is put into the directory
module _ (fs fs2 : Fs) (dir i j : ℕ) (blank : InodeInfo) (mode type : ℕ) (v : Volume fs)
    (p : Parent fs dir) (t : BothTaken fs fs2 i j) where
  abbrev pub made : InodeInfo
  made = new_inode blank i mode type j

  abbrev pub fs3 : Fs
  fs3 = filled made j fs.fresh fs2

  pub listed : i < fs2.sbi.max_file_count
  listed = rw (t.files) (t.fd.below)

  pub data_block : data_start fs2.sbi ≤ j
  data_block = rw (t.start) (BothTaken-start fs fs2 i j v t)

  pub kept_block : (b : ℕ) → Marked fs b → fs3.disk b ≡ fs.disk b
  kept_block b m =
      filled-data fs2 made i j fs.fresh refl refl listed t.volume.layout data_block b
        (BothTaken-ne fs fs2 i j b t m) (rw (t.start) (m.0))
      ∙ t.disk b m.0

  pub kept_inode : (k : ℕ) → k ≢ fs.fresh → fs3.inode k ≡ fs.inode k
  kept_inode k ne =
      filled-others fs2 made i j fs.fresh refl refl listed t.volume.layout data_block k ne
      ∙ ap (λ s. s k) t.inodes.store

  pub first : fs3.inodes ≡ fs.fresh ∷ fs.inodes
  first =
      filled-inodes fs2 made i j fs.fresh refl refl listed t.volume.layout data_block
      ∙ ap (λ l. fs.fresh ∷ l) t.inodes.list

  pub self : fs3.inode fs.fresh ≡ record made { i_blocks = get32 (fs3.disk j) 0 }
  self = filled_self fs2 made i j fs.fresh refl refl listed t.volume.layout data_block

  pub kept_dir : fs3.inode dir ≡ fs.inode dir
  kept_dir = let o = p.older in kept_inode dir (omega arith)

  kept_bytes :
      (k : ℕ)
      → k < (fs.inode dir).i_size
      → content fs3 (fs.inode dir) k ≡ content fs (fs.inode dir) k
  kept_bytes k h =
      let w = p.ok.within in
      let table = kept_block (fs.inode dir).datablock p.owns.datablock in
      let b = file_block fs (fs.inode dir) (k / 512) in
      let named : content fs3 (fs.inode dir) k ≡ fs3.disk b (k % 512) =
        λ x. fs3.disk (word (table x) (k / 512 + 1)) (k % 512) in
      named ∙ ap (λ x. x (k % 512)) (kept_block b (p.owns.blocks (k / 512) (omega arith)))

  kept_entries :
      (k : ℕ)
      → k < (fs.inode dir).i_size / 16
      → entry_inode fs3 (content fs (fs.inode dir)) k ≡ entry_inode fs (content fs (fs.inode dir)) k
  unfolding entry_inode
  kept_entries k h =
      let ne = p.entries k i h t.fd.was_clear in
      let number : (fs3.inode fs.fresh).i_ino ≡ userfiles_offset + i = ap (λ x. x.i_ino) self in
      iget_behind fs fs3 fs.fresh (entry_number (content fs (fs.inode dir)) k) first p.list
        kept_inode (rw number ne)

  pub lookup-filled : (a : List ℕ) → length a ≤ 9 → lookup fs3 dir a ≡ lookup fs dir a
  lookup-filled a short = lookup-kept fs fs3 dir a p.ok kept_dir kept_bytes kept_entries short

  pub kept_table : fs3.disk (fs3.inode dir).datablock ≡ fs.disk (fs.inode dir).datablock
  kept_table = rw kept_dir (kept_block (fs.inode dir).datablock p.owns.datablock)

  pub kept_list_block : fd_list_block fs3.sbi ≡ fd_list_block fs.sbi
  kept_list_block =
      ap (λ s. fd_list_block s)
        (filled-sbi fs2 made i j fs.fresh refl refl listed t.volume.layout data_block)
      ∙ t.list_block

  kept_DirOk : DirOk fs3 dir
  kept_DirOk =
      let table = kept_block (fs.inode dir).datablock p.owns.datablock in
      record {
        is_dir = rw kept_dir p.ok.is_dir;
        size = record { agree = rw kept_dir p.ok.size.agree; small = rw kept_dir p.ok.size.small };
        file = rw kept_dir (FileOk-kept fs fs3 (fs.inode dir) kept_list_block table p.ok.file);
        within = rw (kept_dir, table) p.ok.within;
        entries = rw kept_dir p.ok.entries;
      }

  pub filled-add :
      (junk : Fs → Bytes) (name : List ℕ)
      → nul_free name ≡ true
      → length name ≤ 9
      → lookup fs dir name ≡ some negative
      → (fs' : Fs) × (add_to_dir junk dir fs.fresh name fs3 ≡ some fs')
        × Added fs3 fs' dir fs.fresh name
  filled-add junk name free short none_yet =
      let number : (fs3.inode fs.fresh).i_ino ≡ userfiles_offset + i = ap (λ x. x.i_ino) self in
      let files = t.volume.layout.files in
      let l = listed in
      let table = kept_block (fs.inode dir).datablock p.owns.datablock in
      lookup-add_to_dir junk fs3 dir fs.fresh name kept_DirOk free short (omega (arith, number))
        (omega (arith, number, l))
        (iget_first fs fs3 fs.fresh (fs3.inode fs.fresh).i_ino first p.list kept_inode refl)
        (lookup-filled name short ∙ none_yet) (rw (kept_dir, table) p.room) (rw kept_dir p.room31)
