-- ===== src/Ffs/File/Grow.antt =====
-- The loop of `file_write`, where it appends blocks to the file too.
use system_sw.Prelude.{
  ℕ, ◌+◌, ◌*◌, ◌/◌, ◌%◌, ◌≤◌, ◌<◌, ◌≡◌, ◌∙◌, refl, sym, ap, subst, ◌≢◌, ◌⊎◌, inl, inr, true, false,
  arith, ltb, if◌then◌else◌, ltb→lt, Bool-cases,
}
use system_sw.Memory.{Bytes}
use system_sw.Ffs.{Fs, fd_list_block}
use system_sw.Ffs.Bitmask.{check_bit}
use system_sw.Ffs.File.{word}
use system_sw.Ffs.File.Blocks.{bytes_of}
use system_sw.Ffs.File.Append.{count_at, block_at, Good, Appended, Appended-Marked, Appended-ne}
use system_sw.Ffs.Volume.{data_start, Volume, Marked}

-- byte `k` of the file with datablock `db`
abbrev pub bytes_at : Fs → ℕ → Bytes
bytes_at fs db = bytes_of (block_at fs db) fs.disk

-- how many blocks hold `end` bytes
abbrev pub blocks_for : ℕ → ℕ
blocks_for end = (end + 511) / 512

-- What a write of the `n` bytes of `src` at place `p` leaves: the file has the blocks it had, and as
-- many more behind them as it needs, which were free; the bytes are written, and the file's other bytes
-- are as they were, and so are all blocks that were marked but the file's.
pub record Grown (fs fs' : Fs) (db p : ℕ) (src : Bytes) (n : ℕ) : Type 0 where
  pub good : Good fs' db
  pub count :
      count_at fs' db
      ≡ (if ltb (count_at fs db) (blocks_for (p + n)) then blocks_for (p + n) else count_at fs db)
  pub old_blocks : (j : ℕ) → j < count_at fs db → block_at fs' db j ≡ block_at fs db j
  pub new_blocks :
      (j : ℕ)
      → count_at fs db ≤ j
      → j < count_at fs' db
      → check_bit fs.sbi.b_bitmask (block_at fs' db j) ≡ false
  pub written : (k : ℕ) → k < n → bytes_at fs' db (p + k) ≡ src k
  pub kept :
      (k : ℕ)
      → k < 512 * count_at fs db
      → (k < p) ⊎ (p + n ≤ k)
      → bytes_at fs' db k ≡ bytes_at fs db k
  pub marks : (b : ℕ) → Marked fs b → Marked fs' b
  pub others :
      (b : ℕ)
      → Marked fs b
      → b ≢ db
      → ((j : ℕ) → j < count_at fs db → b ≢ block_at fs db j)
      → fs'.disk b ≡ fs.disk b
  pub start : data_start fs'.sbi ≡ data_start fs.sbi
  pub list_block : fd_list_block fs'.sbi ≡ fd_list_block fs.sbi
  pub files : fs'.sbi.max_file_count ≡ fs.sbi.max_file_count

pub Grown-none :
    (fs : Fs) (db p : ℕ) (src : Bytes)
    → Good fs db
    → p ≤ 512 * count_at fs db
    → Grown fs fs db p src 0
Grown-none fs db p src good within = record {
  good = good;
  count = let h : ltb (count_at fs db) (blocks_for (p + 0)) ≡ false = ground arith in rw h refl;
  old_blocks = λ j h. refl;
  new_blocks = λ j l h. absurd (omega arith);
  written = λ k h. absurd (omega arith);
  kept = λ k h o. refl;
  marks = λ b m. m;
  others = λ b m ne h. refl;
  start = refl;
  list_block = refl;
  files = refl;
}

-- An appended block in front of a write that reaches into it.
pub Grown-append :
    (fs fs1 fs' : Fs) (db j p : ℕ) (src : Bytes) (n : ℕ)
    → Good fs db
    → Appended fs fs1 db j
    → 512 * count_at fs db < p + n
    → Grown fs1 fs' db p src n
    → Grown fs fs' db p src n
Grown-append fs fs1 fs' db j p src n good a reaches g =
    let c = a.count in
    let more : ltb (count_at fs db) (blocks_for (p + n)) ≡ true = ground arith in
    let more1 : count_at fs' db ≡ blocks_for (p + n) = let q = g.count in ground (arith, c, q) in
    let sets = a.sets in
    record {
      good = g.good;
      count = more1 ∙ sym (rw more refl);
      old_blocks = λ k h. g.old_blocks k (omega (arith, c)) ∙ a.old k h;
      new_blocks = λ k l h. elim (Bool-cases (ltb k (count_at fs1 db))) [
        | inl e ↦
            let q : k ≡ count_at fs db = let x = ltb→lt _ _ e in omega (arith, c, x) in
            let named : block_at fs' db k ≡ j =
              g.old_blocks k (ltb→lt _ _ e) ∙ ap (block_at fs1 db) q ∙ a.new in
            ap (check_bit fs.sbi.b_bitmask) named ∙ a.was_clear
        | inr e ↦
            let f = g.new_blocks k (ground arith) h in
            let s = sets (block_at fs' db k) in ground (arith, f, s)
      ];
      written = g.written;
      kept = λ k h o.
          let x : k < 512 * count_at fs1 db = omega (arith, c) in
          let b = good.blocks (k / 512) (omega arith) in
          let ne = good.own (k / 512) (omega arith) in
          g.kept k x o
          ∙ ap (λ y. fs1.disk y (k % 512)) (a.old (k / 512) (omega arith))
          ∙ ap (λ d. d (k % 512)) (a.disk _ b.0 ne);
      marks = λ b m. g.marks b (Appended-Marked fs fs1 db j good a b m);
      others = λ b m ne h.
          g.others b (Appended-Marked fs fs1 db j good a b m) ne (λ k l e.
            elim (Bool-cases (ltb k (count_at fs db))) [
              | inl x ↦ h k (ltb→lt _ _ x) (e ∙ a.old k (ltb→lt _ _ x))
              | inr x ↦
                  let q : k ≡ count_at fs db = ground (arith, c) in
                  Appended-ne fs fs1 db j good a b m (e ∙ ap (block_at fs1 db) q ∙ a.new)
            ])
          ∙ a.disk b m.0 ne;
      start = g.start ∙ a.start;
      list_block = g.list_block ∙ a.list_block;
      files = g.files ∙ a.files;
    }

-- A file stays as it is where the superblock's state and the blocks behind the service blocks do.
pub Grown-after :
    (fs fs2 fs' : Fs) (db p : ℕ) (src : Bytes) (n : ℕ)
    → fs'.sbi ≡ fs2.sbi
    → Volume fs'
    → ((b : ℕ) → data_start fs2.sbi ≤ b → fs'.disk b ≡ fs2.disk b)
    → Grown fs fs2 db p src n
    → Grown fs fs' db p src n
Grown-after fs fs2 fs' db p src n sbi v same g =
    let good = g.good in
    let table : fs'.disk db ≡ fs2.disk db = same db good.datablock.0 in
    let count : count_at fs' db ≡ count_at fs2 db = ap (λ d. word d 0) table in
    let block : (j : ℕ) → block_at fs' db j ≡ block_at fs2 db j =
      λ j. ap (λ d. word d (j + 1)) table in
    let mark : (b : ℕ) → Marked fs2 b → Marked fs' b = λ b m. rw sbi m in
    let bytes : (k : ℕ) → k < 512 * count_at fs2 db → bytes_at fs' db k ≡ bytes_at fs2 db k = λ k h.
      ap (λ b. fs'.disk b (k % 512)) (block (k / 512))
      ∙ ap (λ d. d (k % 512)) (same _ (good.blocks (k / 512) (omega arith)).0) in
    let q = g.count in
    record {
      good = record {
        volume = v;
        room = rw count good.room;
        datablock = mark db good.datablock;
        blocks = λ j h. subst (Marked fs') (sym (block j)) (mark _ (good.blocks j (rw count at h)));
        apart = λ j k hj hk e.
            good.apart j k (rw count at hj) (rw count at hk) (sym (block j) ∙ e ∙ block k);
        own = λ j h e. good.own j (rw count at h) (sym (block j) ∙ e);
      };
      count = count ∙ g.count;
      old_blocks = λ j h. block j ∙ g.old_blocks j h;
      new_blocks =
          λ j l h. ap (check_bit fs.sbi.b_bitmask) (block j) ∙ g.new_blocks j l (rw count at h);
      written = λ k h. bytes (p + k) (ground (arith, q)) ∙ g.written k h;
      kept = λ k h o. bytes k (ground (arith, q)) ∙ g.kept k h o;
      marks = λ b m. mark b (g.marks b m);
      others = λ b m ne h. same b (g.marks b m).0 ∙ g.others b m ne h;
      start = ap (λ s. data_start s) sbi ∙ g.start;
      list_block = ap (λ s. fd_list_block s) sbi ∙ g.list_block;
      files = ap (λ s. s.max_file_count) sbi ∙ g.files;
    }
