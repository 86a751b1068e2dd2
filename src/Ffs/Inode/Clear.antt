-- ===== src/Ffs/Inode/Clear.antt =====
-- What `ffs_clear_fd` gives back.
use system_sw.Prelude.{
  ℕ, zero, suc, ◌+◌, ◌*◌, ◌/◌, ◌≤◌, ◌<◌, ◌≡◌, ◌∙◌, refl, sym, subst, ◌≢◌, ◌⊎◌, inl, inr, Bool, true,
  false, not, ◌&&◌, arith, ◌==◌, Bool-cases,
}
use system_sw.Prelude.Word.{sub32}
use system_sw.Memory.{Bytes, get32}
use system_sw.Ffs.{Fs}
use system_sw.Ffs.Bitmask.{bitmask_page, check_bit, reset_bit, write_b_bitmask, write_fd_bitmask}
use system_sw.Ffs.Bitmask.Bits.{AreBytes, check_bit-reset_bit, reset_bit-AreBytes}
use system_sw.Ffs.Bitmask.Inodes.{SameInodes}
use system_sw.Ffs.Inode.{free_block, free_blocks, clear_fd}

-- a number of `b`, `b + 1`, ... below `hi` in the words of `d`
abbrev pub Listed : Bytes → ℕ → ℕ → ℕ → Type 0
Listed d b hi m = (k : ℕ) × (b ≤ k) × (k < hi) × (m ≡ get32 d (4 * k))

-- `bm'` is `bm` less the bits of the numbers in `Gone`
pub record Clears (bm bm' : Bytes) (Gone : ℕ → Type 0) : Type 0 where
  pub bytes : AreBytes bm'
  pub gone : (m : ℕ) → Gone m → check_bit bm' m ≡ false
  pub kept : (m : ℕ) → ¬ Gone m → check_bit bm' m ≡ check_bit bm m
  pub fewer : (m : ℕ) → check_bit bm m ≡ false → check_bit bm' m ≡ false

and_false : (b : Bool) → (b && false) ≡ false
and_false true = refl
and_false false = refl

reset_bit-Clears : (bm : Bytes) (n : ℕ) → AreBytes bm → Clears bm (reset_bit bm n) (λ m. m ≡ n)
reset_bit-Clears bm n ok =
    let law = λ (m : ℕ). check_bit-reset_bit bm n m (ok (n / 8)) in
    record {
      bytes = reset_bit-AreBytes bm n ok;
      gone = λ m e. let t : (n == m) ≡ true = ground arith in law m ∙ rw t refl;
      kept = λ m no.
          let ne : m ≢ n = no in let t : (n == m) ≡ false = ground arith in law m ∙ rw t refl;
      fewer = λ m h. law m ∙ rw h (and_false (not (n == m)));
    }

-- one mask after another
pub Clears_trans :
    {P Q R : ℕ → Type 0} (a b c : Bytes)
    → Clears a b P
    → Clears b c Q
    → ((m : ℕ) → R m → P m ⊎ Q m)
    → ((m : ℕ) → P m ⊎ Q m → R m)
    → Clears a c R
Clears_trans a b c p q split join = record {
  bytes = q.bytes;
  gone = λ m g. elim (split m g) [ inl x ↦ q.fewer m (p.gone m x) | inr y ↦ q.gone m y ];
  kept = λ m n. q.kept m (λ y. n (join m (inr y))) ∙ p.kept m (λ x. n (join m (inl x)));
  fewer = λ m h. q.fewer m (p.fewer m h);
}

pub Clears_map :
    {P Q : ℕ → Type 0} (a b : Bytes)
    → Clears a b P
    → ((m : ℕ) → P m → Q m)
    → ((m : ℕ) → Q m → P m)
    → Clears a b Q
Clears_map a b p f g = record {
  bytes = p.bytes;
  gone = λ m q. p.gone m (g m q);
  kept = λ m n. p.kept m (λ x. n (f m x));
  fewer = p.fewer;
}

-- the first of the numbers, or one of the others
first_or_later :
    (d : Bytes) (b hi m : ℕ) → Listed d b hi m → (m ≡ get32 d (4 * b)) ⊎ Listed d (b + 1) hi m
first_or_later d b hi m (k, lo, l, e) = elim (Bool-cases (b == k)) [
  | inl t ↦ let w : k ≡ b = ground arith in inl (subst (λ x. m ≡ get32 d (4 * x)) w e)
  | inr t ↦ inr (k, ground arith, l, e)
]

join_first :
    (d : Bytes) (b hi m : ℕ)
    → b < hi
    → (m ≡ get32 d (4 * b)) ⊎ Listed d (b + 1) hi m
    → Listed d b hi m
join_first d b hi m h (inl e) = (b, omega arith, h, e)
join_first d b hi m h (inr (k, lo, l, e)) = (k, omega (arith, lo), l, e)

-- What freeing blocks does to the state: to the mask as `Clears` says, nothing to the other mask, to
-- the inodes and to the block `datablock`.
pub record Freed (fs fs' : Fs) (datablock : ℕ) (Gone : ℕ → Type 0) : Type 0 where
  pub b_bitmask : Clears fs.sbi.b_bitmask fs'.sbi.b_bitmask Gone
  pub fd_bitmask : fs'.sbi.fd_bitmask ≡ fs.sbi.fd_bitmask
  pub same : SameInodes fs fs'
  pub unwritten : fs'.disk datablock ≡ fs.disk datablock

pub free_block-Freed :
    (n : ℕ) (fs : Fs) (datablock : ℕ)
    → AreBytes fs.sbi.b_bitmask
    → datablock ≢ bitmask_page n + 1
    → Freed fs (free_block n fs) datablock (λ m. m ≡ n)
unfolding free_block write_b_bitmask
free_block-Freed n fs datablock ok ne = record {
  b_bitmask = reset_bit-Clears fs.sbi.b_bitmask n ok;
  fd_bitmask = refl;
  same = record { store = refl; list = refl; fresh = refl };
  unwritten = let e : (datablock == bitmask_page n + 1) ≡ false = ground arith in rw e refl;
}

free_blocks-Freed :
    (datablock b n hi : ℕ) (fs : Fs)
    → b + n ≡ hi
    → AreBytes fs.sbi.b_bitmask
    → ((k : ℕ) → b ≤ k → k < hi → datablock ≢ bitmask_page (get32 (fs.disk datablock) (4 * k)) + 1)
    → Freed fs (free_blocks datablock b n fs) datablock (Listed (fs.disk datablock) b hi)
unfolding free_blocks
free_blocks-Freed datablock b zero hi fs h ok away = record {
  b_bitmask = record {
    bytes = ok;
    gone = λ m (k, lo, l, e). absurd (omega (arith, lo, l));
    kept = λ m n. refl;
    fewer = λ m z. z;
  };
  fd_bitmask = refl;
  same = record { store = refl; list = refl; fresh = refl };
  unwritten = refl;
}
free_blocks-Freed datablock b (suc n) hi fs h ok away =
    let bi = get32 (fs.disk datablock) (4 * b) in
    let one = free_block-Freed bi fs datablock ok (away b (omega arith) (omega arith)) in
    let fs1 = free_block bi fs in
    let d = one.unwritten in
    let fs2 = free_blocks datablock (b + 1) n fs1 in
    let rest =
      free_blocks-Freed datablock (b + 1) n hi fs1 (omega arith) one.b_bitmask.bytes
        (λ k lo l. rw d (away k (omega (arith, lo)) l)) in
    record {
      b_bitmask =
          Clears_trans _ _ _ one.b_bitmask
            (subst (λ x. Clears fs1.sbi.b_bitmask fs2.sbi.b_bitmask (Listed x (b + 1) hi)) d
              rest.b_bitmask)
            (first_or_later (fs.disk datablock) b hi)
            (λ m. join_first (fs.disk datablock) b hi m (omega arith));
      fd_bitmask = rest.fd_bitmask ∙ one.fd_bitmask;
      same = record {
        store = rest.same.store ∙ one.same.store;
        list = rest.same.list ∙ one.same.list;
        fresh = rest.same.fresh ∙ one.same.fresh;
      };
      unwritten = rest.unwritten ∙ d;
    }

-- `ffs_clear_fd` clears, in the mask of blocks, the bits of the blocks that the inode's datablock
-- names and the bit of the datablock itself, and no other; in the mask of descriptors, the bit of
-- the inode's descriptor and no other. The inodes stay. The conditions are that the masks are bytes
-- and that no mask block which the loop writes is the datablock.
pub clear_fd-Clears :
    (fs : Fs) (r : ℕ)
    → let i = fs.inode r in
      let d = fs.disk i.datablock in
      let hi = get32 d 0 + 1 in
      AreBytes fs.sbi.b_bitmask
      → AreBytes fs.sbi.fd_bitmask
      → ((k : ℕ) → 1 ≤ k → k < hi → i.datablock ≢ bitmask_page (get32 d (4 * k)) + 1)
      → let fs' = clear_fd r fs in
        Clears fs.sbi.b_bitmask fs'.sbi.b_bitmask (λ m. Listed d 1 hi m ⊎ (m ≡ i.fd.datablock_id))
        × Clears fs.sbi.fd_bitmask fs'.sbi.fd_bitmask (λ m. m ≡ sub32 i.i_ino 1)
        × SameInodes fs fs'
unfolding clear_fd free_block write_b_bitmask write_fd_bitmask
clear_fd-Clears fs r ok okf away =
    let i = fs.inode r in
    let d = fs.disk i.datablock in
    let n = get32 d 0 in
    let fd_i = sub32 i.i_ino 1 in
    let all = free_blocks-Freed i.datablock 1 n (n + 1) fs (omega arith) ok away in
    let fs1 = free_blocks i.datablock 1 n fs in
    let last = reset_bit-Clears fs1.sbi.b_bitmask i.fd.datablock_id all.b_bitmask.bytes in
    (
      Clears_trans _ _ _ all.b_bitmask last (λ m g. g) (λ m g. g),
      subst (λ x. Clears x (reset_bit fs1.sbi.fd_bitmask fd_i) (λ m. m ≡ fd_i)) all.fd_bitmask
          (reset_bit-Clears fs1.sbi.fd_bitmask fd_i (subst AreBytes (sym all.fd_bitmask) okf)),
      record { store = all.same.store; list = all.same.list; fresh = all.same.fresh },
    )
