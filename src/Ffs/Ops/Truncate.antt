-- ===== src/Ffs/Ops/Truncate.antt =====
-- What `ffs_setattr` does where it makes a file shorter.
use system_sw.Prelude.{
  ℕ, zero, suc, ◌+◌, ◌-◌, ◌/◌, ◌^◌, ◌<◌, ◌≡◌, ◌∙◌, refl, sym, ap, subst, ◌≢◌, ◌⊎◌, inl, inr, true,
  false, arith, ltb, ◌==◌, lt→ltb, le→not_ltb,
}
use system_sw.Prelude.Word.{wrap, wrap_small}
use system_sw.Memory.{get32}
use system_sw.Ffs.{Fs}
use system_sw.Ffs.Bitmask.{bitmask_page}
use system_sw.Ffs.Bitmask.Bits.{AreBytes}
use system_sw.Ffs.Inode.{write_inode, free_block}
use system_sw.Ffs.Inode.Clear.{Clears, Clears_trans, Clears_map, Freed, free_block-Freed}
use system_sw.Ffs.Ops.{truncate_loop, set_size, setattr}

round_or_later : (n : ℕ) (T : Type 0) → T ⊎ ((0 < n) × T) → (0 < suc n) × T
round_or_later n T (inl t) = (omega arith, t)
round_or_later n T (inr (l, t)) = (omega arith, t)

-- every round frees the block whose number is the count
truncate_loop-Freed :
    (datablock n c : ℕ) (fs : Fs)
    → c ≡ get32 (fs.disk datablock) 0
    → AreBytes fs.sbi.b_bitmask
    → datablock ≢ bitmask_page c + 1
    → Freed fs (truncate_loop datablock n fs) datablock (λ m. (0 < n) × (m ≡ c))
unfolding truncate_loop
truncate_loop-Freed datablock zero c fs e ok away = record {
  b_bitmask = record {
    bytes = ok;
    gone = λ m (l, t). absurd (omega (arith, l));
    kept = λ m n. refl;
    fewer = λ m z. z;
  };
  fd_bitmask = refl;
  same = record { store = refl; list = refl; fresh = refl };
  unwritten = refl;
}
truncate_loop-Freed datablock (suc n) c fs e ok away =
    let one = free_block-Freed c fs datablock ok away in
    let fs1 = free_block c fs in
    let rest =
      truncate_loop-Freed datablock n c fs1 (e ∙ ap (λ b. get32 b 0) (sym one.unwritten))
        one.b_bitmask.bytes away in
    let fs2 = truncate_loop datablock n fs1 in
    subst
      (λ x.
        Freed fs (truncate_loop datablock n (free_block x fs)) datablock
          (λ m. (0 < suc n) × (m ≡ c)))
      e
      (record {
        b_bitmask =
            Clears_trans fs.sbi.b_bitmask fs1.sbi.b_bitmask fs2.sbi.b_bitmask one.b_bitmask
              rest.b_bitmask (λ m (l, t). inl t) (λ m. round_or_later n (m ≡ c));
        fd_bitmask = rest.fd_bitmask ∙ one.fd_bitmask;
        same = record {
          store = rest.same.store ∙ one.same.store;
          list = rest.same.list ∙ one.same.list;
          fresh = rest.same.fresh ∙ one.same.fresh;
        };
        unwritten = rest.unwritten ∙ one.unwritten;
      })

module _ (r size count : ℕ) (fs : Fs) where
  set_size_inode :
      (let i' = (set_size r size count fs).inode r in
        (i'.i_size ≡ size) × (i'.fd.file_size ≡ wrap size))
  unfolding set_size write_inode
  set_size_inode = let e : (r == r) ≡ true = ground arith in rw e (refl, refl)

  set_size_others : (k : ℕ) → k ≢ r → (set_size r size count fs).inode k ≡ fs.inode k
  unfolding set_size write_inode
  set_size_others k ne = let e : (k == r) ≡ false = ground arith in rw e refl

  set_size_sbi : (set_size r size count fs).sbi ≡ fs.sbi
  unfolding set_size write_inode
  set_size_sbi = refl

-- `ffs_setattr` with a smaller size sets the size in the inode and in the descriptor and leaves the
-- other inodes. Of the bits of the mask of blocks it clears the one whose number is the count of the
-- file's blocks, if the file then needs fewer blocks, and no other: it gives none of the file's
-- blocks back, unless one has that number. The conditions are that the mask is bytes, and that the
-- mask's block which it writes is not the datablock.
pub setattr_frees_count :
    (fs : Fs) (r size : ℕ)
    → let i = fs.inode r in
      let count = get32 (fs.disk i.datablock) 0 in
      i.i_size ≢ size
      → size < i.fd.file_size
      → size < 2 ^ 32
      → AreBytes fs.sbi.b_bitmask
      → i.datablock ≢ bitmask_page count + 1
      → let fs' = setattr r true size fs in
        Clears fs.sbi.b_bitmask fs'.sbi.b_bitmask (λ m. ((size + 511) / 512 < count) × (m ≡ count))
        × (fs'.sbi.fd_bitmask ≡ fs.sbi.fd_bitmask)
        × ((fs'.inode r).i_size ≡ size)
        × ((fs'.inode r).fd.file_size ≡ size)
        × ((k : ℕ) → k ≢ r → fs'.inode k ≡ fs.inode k)
unfolding setattr
setattr_frees_count fs r size ne less small ok away =
    let i = fs.inode r in
    let count = get32 (fs.disk i.datablock) 0 in
    let not_same : (i.i_size == size) ≡ false = ground arith in
    let no_growth : ltb i.fd.file_size size ≡ false = le→not_ltb _ _ (omega arith) in
    let shrinks : ltb size i.fd.file_size ≡ true = lt→ltb _ _ less in
    let new_count = wrap ((size + 512 - 1) / 512) in
    let w : new_count ≡ (size + 511) / 512 =
      wrap_small ((size + 512 - 1) / 512) (omega arith) ∙ omega arith in
    let n = count - new_count in
    let fs1 = truncate_loop i.datablock n fs in
    let done = truncate_loop-Freed i.datablock n count fs refl ok away in
    let sbi = set_size_sbi r size new_count fs1 in
    let (is, fds) = set_size_inode r size new_count fs1 in
    rw (not_same, no_growth, shrinks)
      (
        Clears_map {P = λ m. (0 < n) × (m ≡ count)} fs.sbi.b_bitmask
            (set_size r size new_count fs1).sbi.b_bitmask (rw sbi done.b_bitmask)
            (λ m (l, e). (omega (arith, w, l), e)) (λ m (l, e). (omega (arith, w, l), e)),
        rw sbi done.fd_bitmask,
        is,
        fds ∙ wrap_small size small,
        (λ k no. set_size_others r size new_count fs1 k no ∙ ap (λ st. st k) done.same.store),
      )
