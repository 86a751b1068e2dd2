-- ===== src/Ffs/Ops/Fill.antt =====
-- `create_entry` before the new name is put into the directory.
use system_sw.Prelude.{
  ℕ, ◌+◌, ◌/◌, ◌^◌, ◌≤◌, ◌<◌, ◌≡◌, ◌∙◌, refl, ◌≢◌, true, false, ◌∷◌, arith, ◌==◌,
}
use system_sw.Prelude.Word.{sub32, sub32_small}
use system_sw.Memory.{copy, get32, copy_inside}
use system_sw.Ffs.{
  block_size, userfiles_offset, InodeInfo, Fs, fd_list_block, write_block, write_object,
}
use system_sw.Ffs.Bitmask.{get_empty_block}
use system_sw.Ffs.Inode.{write_inode}
use system_sw.Ffs.Volume.{data_start, Layout, Volume, Volume-kept}
use system_sw.Ffs.Ops.{fill_inode}

-- the inode that `create_entry` fills in: descriptor `i`, datablock `j`
abbrev pub new_inode : InodeInfo → ℕ → ℕ → ℕ → ℕ → InodeInfo
new_inode blank i mode type j = record blank {
  i_ino = userfiles_offset + i;
  i_mode = mode;
  i_size = 0;
  i_nlink = 1;
  i_blocks = 0;
  fd = record { type = type; datablock_id = j; link_count = 1; file_size = 0 };
  datablock = j;
}

-- the state with the inode at the reference `r`, its datablock cleared and its descriptor written
abbrev pub filled : InodeInfo → ℕ → ℕ → Fs → Fs
filled n j r fs = write_inode r (record fs {
  disk = write_block fs.disk j (copy (fs.disk j) 0 (λ k. 0) block_size);
  inode = write_object fs.inode r n;
  fresh = r + 1;
  inodes = r ∷ fs.inodes;
})

pub write_inode-fill_inode :
    (blank : InodeInfo) (i mode type j r : ℕ) (fs fs' : Fs)
    → get_empty_block fs ≡ (j + 1, fs')
    → j + 1 < 2 ^ 32
    → fs'.fresh ≡ r
    → write_inode r (fill_inode blank i mode type fs)
      ≡ filled (new_inode blank i mode type j) j r fs'
unfolding fill_inode
write_inode-fill_inode blank i mode type j r fs fs' e h f =
    let b : sub32 (j + 1) 1 ≡ j = sub32_small (j + 1) 1 (omega arith) h ∙ omega arith in
    rw (e, b, f) refl

-- the inode with descriptor `i` and datablock `j`, at the reference `r`
module _ (fs : Fs) (n : InodeInfo) (i j r : ℕ) (ino : n.i_ino ≡ userfiles_offset + i)
    (db : n.datablock ≡ j) (listed : i < fs.sbi.max_file_count) (layout : Layout fs.sbi)
    (data_block : data_start fs.sbi ≤ j) where
  abbrev fs' : Fs
  fs' = filled n j r fs

  fd_index : sub32 n.i_ino 1 ≡ i
  fd_index =
      let small = layout.files in
      rw ino (sub32_small (1 + i) 1 (omega arith) (omega arith) ∙ omega arith)

  descriptor_below : fd_list_block fs.sbi + i / 32 < data_start fs.sbi
  descriptor_below = let d = layout.descriptors in omega arith

  pub filled-disk : (b : ℕ) → b ≢ j → b ≢ fd_list_block fs.sbi + i / 32 → fs'.disk b ≡ fs.disk b
  unfolding write_inode
  filled-disk b ne nf =
      let rr : (r == r) ≡ true = ground arith in
      let e : (b == j) ≡ false = ground arith in
      let f : (b == fd_list_block fs.sbi + i / 32) ≡ false = ground arith in
      rw (rr, fd_index, f, e) refl

  pub filled-data : (b : ℕ) → b ≢ j → data_start fs.sbi ≤ b → fs'.disk b ≡ fs.disk b
  filled-data b ne h = filled-disk b ne (λ e. absurd (omega (arith, e, descriptor_below)))

  pub filled-zero : (k : ℕ) → k < 512 → fs'.disk j k ≡ 0
  unfolding write_inode
  filled-zero k h =
      let rr : (r == r) ≡ true = ground arith in
      let jj : (j == j) ≡ true = ground arith in
      let f : (j == fd_list_block fs.sbi + i / 32) ≡ false =
        let d = descriptor_below in ground arith in
      let z : 0 + k ≡ k = omega arith in
      rw (rr, fd_index, f, jj) (rw z at (copy_inside (fs.disk j) 0 (λ x. 0) 512 k h))

  pub filled-sbi : fs'.sbi ≡ fs.sbi
  unfolding write_inode
  filled-sbi = refl

  pub filled-inodes : fs'.inodes ≡ r ∷ fs.inodes
  unfolding write_inode
  filled-inodes = refl

  pub filled-others : (k : ℕ) → k ≢ r → fs'.inode k ≡ fs.inode k
  unfolding write_inode
  filled-others k ne = let e : (k == r) ≡ false = ground arith in rw e refl

  pub filled_self : fs'.inode r ≡ record n { i_blocks = get32 (fs'.disk j) 0 }
  unfolding write_inode
  filled_self = let rr : (r == r) ≡ true = ground arith in rw (rr, db) refl

  pub filled-Volume : Volume fs → Volume fs'
  filled-Volume v =
      Volume-kept fs fs' filled-sbi
        (λ b h. filled-disk b (λ e. absurd (omega arith)) (λ e. absurd (omega arith))) v
