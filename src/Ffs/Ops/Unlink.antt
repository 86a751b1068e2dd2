-- ===== src/Ffs/Ops/Unlink.antt =====
-- What `ffs_unlink` does to the inode behind `remove_from_dir`.
use system_sw.Prelude.{
  ℕ, ◌+◌, ◌-◌, ◌*◌, ◌^◌, ◌≤◌, ◌<◌, ◌≡◌, ◌∙◌, refl, ap, subst, ◌≢◌, ◌⊎◌, inl, inr, true, false,
  arith, leb, ◌==◌, Bool-cases,
}
use system_sw.Prelude.Word.{sub32, sub32_small}
use system_sw.Memory.{get32}
use system_sw.Ffs.{Fs, InodeInfo, write_object}
use system_sw.Ffs.Bitmask.{bitmask_page}
use system_sw.Ffs.Bitmask.Bits.{AreBytes}
use system_sw.Ffs.Bitmask.Inodes.{SameInodes}
use system_sw.Ffs.Inode.{write_inode, clear_fd}
use system_sw.Ffs.Inode.Clear.{Clears, Listed, clear_fd-Clears}
use system_sw.Ffs.Ops.{hlist_del, drop_link}

-- the state with the link count of the inode at `r` lowered
abbrev lowered : ℕ → Fs → Fs
lowered r fs =
    let i = fs.inode r in
    record fs {
      inode =
          write_object fs.inode r
            (record i { fd = record i.fd { link_count = sub32 i.fd.link_count 1 } });
    }

-- an inode that keeps a name: the count is one less, and no block or descriptor is given back
pub record Kept (r : ℕ) (fs fs' : Fs) : Type 0 where
  pub masks : fs'.sbi ≡ fs.sbi
  pub list : fs'.inodes ≡ fs.inodes
  pub link_count : (fs'.inode r).fd.link_count ≡ (fs.inode r).fd.link_count - 1
  pub i_nlink : (fs'.inode r).i_nlink ≡ (fs.inode r).i_nlink - 1
  pub others : (k : ℕ) → k ≢ r → fs'.inode k ≡ fs.inode k

-- an inode without a name: its blocks, its datablock and its descriptor are given back, and it
-- leaves the list
pub record Removed (r : ℕ) (fs fs' : Fs) : Type 0 where
  pub blocks :
      let i = fs.inode r in
      let d = fs.disk i.datablock in
      Clears fs.sbi.b_bitmask fs'.sbi.b_bitmask
        (λ m. Listed d 1 (get32 d 0 + 1) m ⊎ (m ≡ i.fd.datablock_id))
  pub descriptor : Clears fs.sbi.fd_bitmask fs'.sbi.fd_bitmask (λ m. m ≡ sub32 (fs.inode r).i_ino 1)
  pub list : fs'.inodes ≡ hlist_del r fs.inodes
  pub others : (k : ℕ) → k ≢ r → fs'.inode k ≡ fs.inode k

drop_link-Kept :
    (r : ℕ) (fs : Fs)
    → 2 ≤ (fs.inode r).fd.link_count
    → (fs.inode r).fd.link_count < 2 ^ 32
    → Kept r fs (drop_link r fs)
unfolding drop_link write_inode
drop_link-Kept r fs h small =
    let c = sub32_small (fs.inode r).fd.link_count 1 (omega arith) small in
    let nz : (sub32 (fs.inode r).fd.link_count 1 == 0) ≡ false = rw c (ground arith) in
    let rr : (r == r) ≡ true = ground arith in
    record {
      masks = rw nz refl;
      list = rw nz refl;
      link_count = rw (nz, rr) c;
      i_nlink = rw (nz, rr) refl;
      others = λ k ne. let e : (k == r) ≡ false = ground arith in rw (nz, e) refl;
    }

-- `clear_fd-Clears` for an inode that is known
clear_fd_at :
    (fs : Fs) (r : ℕ) (i : InodeInfo)
    → fs.inode r ≡ i
    → let d = fs.disk i.datablock in
      AreBytes fs.sbi.b_bitmask
      → AreBytes fs.sbi.fd_bitmask
      → ((k : ℕ) → 1 ≤ k → k < get32 d 0 + 1 → i.datablock ≢ bitmask_page (get32 d (4 * k)) + 1)
      → let fs' = clear_fd r fs in
        Clears fs.sbi.b_bitmask fs'.sbi.b_bitmask
          (λ m. Listed d 1 (get32 d 0 + 1) m ⊎ (m ≡ i.fd.datablock_id))
        × Clears fs.sbi.fd_bitmask fs'.sbi.fd_bitmask (λ m. m ≡ sub32 i.i_ino 1)
        × SameInodes fs fs'
clear_fd_at fs r i e =
    subst
      (λ j.
        let d = fs.disk j.datablock in
        AreBytes fs.sbi.b_bitmask
        → AreBytes fs.sbi.fd_bitmask
        → ((k : ℕ) → 1 ≤ k → k < get32 d 0 + 1 → j.datablock ≢ bitmask_page (get32 d (4 * k)) + 1)
        → let fs' = clear_fd r fs in
          Clears fs.sbi.b_bitmask fs'.sbi.b_bitmask
            (λ m. Listed d 1 (get32 d 0 + 1) m ⊎ (m ≡ j.fd.datablock_id))
          × Clears fs.sbi.fd_bitmask fs'.sbi.fd_bitmask (λ m. m ≡ sub32 j.i_ino 1)
          × SameInodes fs fs')
      e (clear_fd-Clears fs r)

drop_link-Removed :
    (r : ℕ) (fs : Fs)
    → let i = fs.inode r in
      let d = fs.disk i.datablock in
      i.fd.link_count ≡ 1
      → AreBytes fs.sbi.b_bitmask
      → AreBytes fs.sbi.fd_bitmask
      → ((k : ℕ) → 1 ≤ k → k < get32 d 0 + 1 → i.datablock ≢ bitmask_page (get32 d (4 * k)) + 1)
      → Removed r fs (drop_link r fs)
unfolding drop_link
drop_link-Removed r fs one ok okf away =
    let i = fs.inode r in
    let z : (sub32 i.fd.link_count 1 == 0) ≡ true =
      rw (one, sub32_small 1 1 (omega arith) (omega arith)) refl in
    let rr : (r == r) ≡ true = ground arith in
    let (blocks, descriptor, same) =
      clear_fd_at (lowered r fs) r
        (record i { fd = record i.fd { link_count = sub32 i.fd.link_count 1 } }) (rw rr refl) ok okf
        away in
    record {
      blocks = rw z blocks;
      descriptor = rw z descriptor;
      list = rw z (ap (hlist_del r) same.list);
      others = λ k ne.
          let e : (k == r) ≡ false = ground arith in
          rw (z, e) (ap (λ st. st k) same.store ∙ rw e refl);
    }

-- `ffs_unlink`, once the name is out of the directory. An inode with another name keeps its blocks
-- and its place in the list, and its link count is one less. One that had its last name gives back
-- the blocks that its datablock names, the datablock and its descriptor, no other bit of the masks
-- changes, and it leaves the list. The other inodes stay. The conditions are that the link count is
-- a word and not 0, that the masks are bytes, and that no mask block which is written is the
-- datablock.
pub drop_link_lem :
    (r : ℕ) (fs : Fs)
    → let i = fs.inode r in
      let d = fs.disk i.datablock in
      0 < i.fd.link_count
      → i.fd.link_count < 2 ^ 32
      → AreBytes fs.sbi.b_bitmask
      → AreBytes fs.sbi.fd_bitmask
      → ((k : ℕ) → 1 ≤ k → k < get32 d 0 + 1 → i.datablock ≢ bitmask_page (get32 d (4 * k)) + 1)
      → ((2 ≤ i.fd.link_count) × Kept r fs (drop_link r fs))
        ⊎ ((i.fd.link_count ≡ 1) × Removed r fs (drop_link r fs))
drop_link_lem r fs pos small ok okf away = elim (Bool-cases (leb 2 (fs.inode r).fd.link_count)) [
  | inl t ↦
      let h : 2 ≤ (fs.inode r).fd.link_count = ground arith in inl (h, drop_link-Kept r fs h small)
  | inr t ↦
      let one : (fs.inode r).fd.link_count ≡ 1 = ground arith in
      inr (one, drop_link-Removed r fs one ok okf away)
]
