-- ===== src/Ffs/File/GrowWrite.antt =====
-- Bytes that `file_write` puts into one block of a file.
use system_sw.Prelude.{
  ℕ, ◌+◌, ◌-◌, ◌*◌, ◌/◌, ◌%◌, ◌≤◌, ◌<◌, ◌≡◌, ◌∙◌, refl, sym, ap, subst, inl, inr, false, arith, ltb,
  ◌==◌, if◌then◌else◌, ltb→lt, Bool-cases,
}
use system_sw.Memory.{Bytes, at, copy, copy_inside, copy_outside}
use system_sw.Ffs.{Fs, write_block}
use system_sw.Ffs.File.{word}
use system_sw.Ffs.File.Blocks.{block-copy}
use system_sw.Ffs.File.Append.{count_at, block_at, Good}
use system_sw.Ffs.File.Grow.{bytes_at, blocks_for, Grown}
use system_sw.Ffs.Volume.{Volume-kept, Marked}

-- `n` bytes written inside one block of the file
module _ (fs : Fs) (db p : ℕ) (src : Bytes) (n : ℕ) (good : Good fs db)
    (room : p / 512 < count_at fs db) (inside : p % 512 + n ≤ 512) where
  abbrev pub target : ℕ
  target = block_at fs db (p / 512)

  abbrev pub fs1 : Fs
  fs1 = record fs { disk = write_block fs.disk target (copy (fs.disk target) (p % 512) src n) }

  pub table1 : fs1.disk db ≡ fs.disk db
  table1 =
      let ne = good.own (p / 512) room in let e : (db == target) ≡ false = ground arith in rw e refl

  pub count1 : count_at fs1 db ≡ count_at fs db
  count1 = ap (λ d. word d 0) table1

  block1 : (j : ℕ) → block_at fs1 db j ≡ block_at fs db j
  block1 j = ap (λ d. word d (j + 1)) table1

  bytes1 : (k : ℕ) → k < 512 * count_at fs db → bytes_at fs1 db k ≡ copy (bytes_at fs db) p src n k
  bytes1 k h =
      ap (λ b. fs1.disk b (k % 512)) (block1 (k / 512))
      ∙ block-copy (block_at fs db) (count_at fs db) good.apart fs.disk src p n inside room k
          (omega arith)

  target_Marked : Marked fs target
  target_Marked = good.blocks (p / 512) room

  pub good1 : Good fs1 db
  good1 = record {
    volume =
        Volume-kept fs fs1 refl
          (λ b h.
            let m = target_Marked.0 in let ne : (b == target) ≡ false = ground arith in rw ne refl)
          good.volume;
    room = rw count1 good.room;
    datablock = good.datablock;
    blocks = λ j h. subst (Marked fs) (sym (block1 j)) (good.blocks j (rw count1 at h));
    apart = λ j k hj hk e.
        good.apart j k (rw count1 at hj) (rw count1 at hk) (sym (block1 j) ∙ e ∙ block1 k);
    own = λ j h e. good.own j (rw count1 at h) (sym (block1 j) ∙ e);
  }

  -- in front of the rest of the write
  pub Grown-write :
      (fs' : Fs) (m : ℕ) → Grown fs1 fs' db (p + n) (at src n) m → Grown fs fs' db p src (n + m)
  Grown-write fs' m g =
      let sum : p + (n + m) ≡ p + n + m = omega arith in
      record {
        good = g.good;
        count = rw sum (
            subst
              (λ c.
                count_at fs' db
                ≡ (if ltb c (blocks_for (p + n + m)) then blocks_for (p + n + m) else c))
              count1 g.count);
        old_blocks = λ j h. g.old_blocks j (rw count1 h) ∙ block1 j;
        new_blocks = λ j l h. g.new_blocks j (rw count1 l) h;
        written = λ k h. elim (Bool-cases (ltb k n)) [
          | inl e ↦
              let l = ltb→lt _ _ e in
              g.kept (p + k) (rw count1 (omega (arith, l))) (inl (omega (arith, l)))
              ∙ bytes1 (p + k) (omega (arith, l))
              ∙ copy_inside (bytes_at fs db) p src n k l
          | inr e ↦
              let l : n ≤ k = ground arith in
              let q : p + n + (k - n) ≡ p + k = omega (arith, l) in
              let r : n + (k - n) ≡ k = omega (arith, l) in
              ap (bytes_at fs' db) (sym q) ∙ g.written (k - n) (omega (arith, l)) ∙ ap src r
        ];
        kept = λ k h o.
            g.kept k (rw count1 h)
              (elim o [ inl a ↦ inl (omega arith) | inr b ↦ inr (omega arith) ])
            ∙ bytes1 k h
            ∙ copy_outside (bytes_at fs db) p src n k
                (elim o [ inl a ↦ inl a | inr b ↦ inr (omega arith) ]);
        marks = g.marks;
        others = λ b mk ne h.
            g.others b mk ne (λ j l e. h j (rw count1 at l) (e ∙ block1 j))
            ∙ (let x = h (p / 512) room in
                let t : (b == target) ≡ false = ground arith in rw t refl);
        start = g.start;
        list_block = g.list_block;
        files = g.files;
      }
