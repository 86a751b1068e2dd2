-- ===== src/Ffs/File/Blocks.antt =====
-- The loop of `file_write` inside the blocks that a file has.
use system_sw.Prelude.{
  ℕ, zero, suc, ◌+◌, ◌-◌, ◌*◌, ◌/◌, ◌%◌, ◌^◌, ◌≤◌, ◌<◌, ◌≡◌, ◌∙◌, refl, ap, ◌≢◌, inl, inr, true,
  false, ◌&&◌, some, arith, ltb, leb, ◌==◌, Bool-cases,
}
use system_sw.Prelude.Word.{wrap, wrap_small}
use system_sw.Memory.{Bytes, at, copy}
use system_sw.Ffs.{Fs, write_block}
use system_sw.Ffs.File.{word, WriteState, write_loop}
use system_sw.Ffs.File.Total.{round, round-bounds}

-- a copy in two parts
copy-split :
    (m : Bytes) (a : ℕ) (src : Bytes) (n l k : ℕ)
    → copy (copy m a src n) (a + n) (at src n) l k ≡ copy m a src (n + l) k
unfolding copy
copy-split m a src n l k = elim (Bool-cases (leb (a + n) k && ltb k (a + n + l))) [
  | inl e ↦
      let f : (leb a k && ltb k (a + (n + l))) ≡ true = ground arith in
      let i : n + (k - (a + n)) ≡ k - a = ground arith in rw (e, f, i) refl
  | inr e ↦ elim (Bool-cases (leb a k && ltb k (a + n))) [
    | inl x ↦ let f : (leb a k && ltb k (a + (n + l))) ≡ true = ground arith in rw (e, x, f) refl
    | inr x ↦ let f : (leb a k && ltb k (a + (n + l))) ≡ false = ground arith in rw (e, x, f) refl
  ]
]

pub copy-congr :
    (m m' : Bytes) (a : ℕ) (src src' : Bytes) (l k : ℕ)
    → m k ≡ m' k
    → ((j : ℕ) → src j ≡ src' j)
    → copy m a src l k ≡ copy m' a src' l k
unfolding copy
copy-congr m m' a src src' l k e f = rw (e, f (k - a)) refl

-- byte `k` of the blocks that a table names
abbrev pub bytes_of : (ℕ → ℕ) → (ℕ → Bytes) → Bytes
bytes_of table disk k = disk (table (k / 512)) (k % 512)

-- a table of `count` blocks: no two entries are the same
abbrev pub Distinct : (ℕ → ℕ) → ℕ → Type 0
Distinct table count = (i j : ℕ) → i < count → j < count → table i ≡ table j → i ≡ j

-- `n` bytes inside a block written at place `p` of the file
module _ (table : ℕ → ℕ) (count : ℕ) (apart : Distinct table count) (disk : ℕ → Bytes) (src : Bytes)
    (p n : ℕ) (inside : p % 512 + n ≤ 512) (room : p / 512 < count) where
  abbrev pub disk1 : ℕ → Bytes
  disk1 = write_block disk (table (p / 512)) (copy (disk (table (p / 512))) (p % 512) src n)

  pub block-copy :
      (k : ℕ) → k / 512 < count → bytes_of table disk1 k ≡ copy (bytes_of table disk) p src n k
  unfolding copy
  block-copy k h = elim (Bool-cases (k / 512 == p / 512)) [
    | inl e ↦
        let q : k / 512 ≡ p / 512 = ground arith in
        let same : (table (k / 512) == table (p / 512)) ≡ true =
          let t : table (k / 512) ≡ table (p / 512) = ap table q in ground arith in
        let here : (leb (p % 512) (k % 512) && ltb (k % 512) (p % 512 + n))
            ≡ (leb p k && ltb k (p + n)) =
          ground arith in
        let i : k % 512 - p % 512 ≡ k - p = omega arith in rw (same, here, i, q) refl
    | inr e ↦
        let ne : (table (k / 512) == table (p / 512)) ≡ false =
          elim (Bool-cases (table (k / 512) == table (p / 512))) [
            | inl x ↦
                absurd
                  (let t = apart (k / 512) (p / 512) h room (ground arith) in ground (arith, t))
            | inr x ↦ x
          ] in
        let out : (leb p k && ltb k (p + n)) ≡ false = ground arith in rw (ne, out) refl
  ]

-- the file whose datablock is `d`, at block `datablock` of the disk
module _ (datablock : ℕ) (d : Bytes) (count : ℕ) where
  -- its table of blocks
  abbrev pub table : ℕ → ℕ
  table j = word d (j + 1)

  -- the disk `disk'` has `n` bytes of `src` at place `p` of the file, and is else as it was
  pub record Overwritten (disk disk' : ℕ → Bytes) (p : ℕ) (src : Bytes) (n : ℕ) : Type 0 where
    pub kept_table : disk' datablock ≡ d
    pub bytes :
        (k : ℕ) → k < 512 * count → bytes_of table disk' k ≡ copy (bytes_of table disk) p src n k
    pub others : (b : ℕ) → ((j : ℕ) → j < count → b ≢ table j) → disk' b ≡ disk b

  module _ (apart : Distinct table count) (own : (j : ℕ) → j < count → table j ≢ datablock)
      (small : 512 * count < 2 ^ 32) (buf : Bytes) (len : ℕ) where
    -- the loop's end: the disk is written, and all else is as it was
    pub record LoopOut (s : WriteState) (fs : Fs) (out : WriteState × Fs) : Type 0 where
      pub disk : Overwritten fs.disk out.1.disk s.f_pos (at buf (len - s.copy_left)) s.copy_left
      pub f_pos : out.0.f_pos ≡ s.f_pos + s.copy_left
      pub inode : out.1.inode ≡ fs.inode
      pub sbi : out.1.sbi ≡ fs.sbi

    nothing_left :
        (s : WriteState) (fs : Fs) → fs.disk datablock ≡ d → s.copy_left ≡ 0 → LoopOut s fs (s, fs)
    unfolding copy
    nothing_left s fs e z = record {
      disk = record {
        kept_table = e;
        bytes = λ k h.
            let out : (leb s.f_pos k && ltb k (s.f_pos + s.copy_left)) ≡ false = ground arith in
            rw out refl;
        others = λ b h. refl;
      };
      f_pos = omega arith;
      inode = refl;
      sbi = refl;
    }

    -- a round in front of the rest
    one_round :
        (s : WriteState) (fs : Fs) (n b : ℕ) (out : WriteState × Fs)
        → let p = s.f_pos in
          let t = table (p / 512) in
          let src = at buf (len - s.copy_left) in
          let disk' = write_block fs.disk t (copy (fs.disk t) (p % 512) src n) in
          fs.disk datablock ≡ d
          → n ≤ s.copy_left
          → s.copy_left ≤ len
          → p % 512 + n ≤ 512
          → p + s.copy_left ≤ 512 * count
          → p / 512 < count
          → LoopOut
              (record { block_count = b; f_pos = p + n; copy_left = s.copy_left - n })
              (record fs { disk = disk' })
              out
          → LoopOut s fs out
    one_round s fs n b out e le fits inside within room rest =
        let p = s.f_pos in
        let src = at buf (len - s.copy_left) in
        let l : n + (s.copy_left - n) ≡ s.copy_left = omega arith in
        record {
          disk = record {
            kept_table = rest.disk.kept_table;
            bytes = λ k h.
                let same : (j : ℕ) → at buf (len - (s.copy_left - n)) j ≡ at src n j = λ j.
                  let i : len - (s.copy_left - n) + j ≡ len - s.copy_left + (n + j) = omega arith in
                  ap buf i in
                rest.disk.bytes k h
                ∙ copy-congr _ _ (p + n) _ (at src n) (s.copy_left - n) k
                    (block-copy table count apart fs.disk src p n inside room k (omega arith)) same
                ∙ copy-split (bytes_of table fs.disk) p src n (s.copy_left - n) k
                ∙ ap (λ x. copy (bytes_of table fs.disk) p src x k) l;
            others = λ b h. let ne = h (p / 512) room in rest.disk.others b h ∙ ground arith;
          };
          f_pos = let x = rest.f_pos in omega arith;
          inode = rest.inode;
          sbi = rest.sbi;
        }

    pub write_loop-LoopOut :
        (f : ℕ) (s : WriteState) (fs : Fs)
        → s.copy_left < f
        → s.copy_left ≤ len
        → fs.disk datablock ≡ d
        → s.block_count ≡ count
        → s.f_pos + s.copy_left ≤ 512 * count
        → (out : WriteState × Fs) × (write_loop f datablock buf len s fs ≡ some out)
          × LoopOut s fs out
    unfolding write_loop
    write_loop-LoopOut zero s fs h fits e c within = absurd (omega arith)
    write_loop-LoopOut (suc f) s fs h fits e c within = elim (Bool-cases (s.copy_left == 0)) [
      | inl z ↦ rw z ((s, fs), refl, nothing_left s fs e (ground arith))
      | inr z ↦
          let p = s.f_pos in
          let n = round p s.copy_left in
          let (pos, le) = round-bounds p s.copy_left (ground arith) in
          let more : ltb s.block_count (p / 512 + 1) ≡ false = ground arith in
          let t = table (p / 512) in
          let src = at buf (len - s.copy_left) in
          let o : p - p / 512 * 512 ≡ p % 512 = omega arith in
          let w : wrap (p + n) ≡ p + n = wrap_small _ (omega (arith, le)) in
          let disk' = write_block fs.disk t (copy (fs.disk t) (p % 512) src n) in
          let table_kept : disk' datablock ≡ d =
            let ne = own (p / 512) (ground arith) in ground (arith, e) in
          let (out, run, rest) =
            write_loop-LoopOut f
              (record { block_count = s.block_count; f_pos = p + n; copy_left = s.copy_left - n })
              (record fs { disk = disk' }) (omega (arith, pos, le)) (omega arith) table_kept c
              (omega (arith, le)) in
          rw (z, more, e, o, w)
            (
              out,
              run,
              one_round s fs n s.block_count out e le fits (ground arith) within (ground arith)
                  rest,
            )
    ]
