-- ===== src/Ffs/File/Append.antt =====
-- A block appended to a file of a volume.
use system_sw.Prelude.{
  ℕ, ◌+◌, ◌≤◌, ◌<◌, ◌≡◌, some, leb, not, ◌&&◌, ◌∙◌, refl, sym, ap, subst, ◌≢◌, ◌⊎◌, inl, inr, true,
  false, ◌||◌, arith, ltb, ◌==◌, ltb→lt, Bool-cases,
}
use system_sw.Prelude.Word.{wrap, sub32, wrap_small, sub32_small}
use system_sw.Ffs.{Fs, fd_list_block, write_block}
use system_sw.Ffs.Bitmask.{check_bit}
use system_sw.Ffs.Bitmask.Inodes.{SameInodes}
use system_sw.Ffs.Bitmask.Taken.{BlockTaken, get_empty_block-BlockTaken}
use system_sw.Ffs.Bitmask.Count.{clear_bits, clear_bit, clear_bits-take}
use system_sw.Ffs.File.{word, put_word, append_block}
use system_sw.Ffs.File.Words.{word-put_word, word-put_word_other}
use system_sw.Ffs.Volume.{data_start, Volume, Volume-kept, Marked, BlockTaken-Volume}

-- how many blocks the file with datablock `db` has, and their numbers
abbrev pub count_at : Fs → ℕ → ℕ
count_at fs db = word (fs.disk db) 0

abbrev pub block_at : Fs → ℕ → ℕ → ℕ
block_at fs db j = word (fs.disk db) (j + 1)

-- the blocks that are free
abbrev pub free_blocks_of : Fs → ℕ
free_blocks_of fs = clear_bits fs.sbi.b_bitmask fs.sbi.block_count

-- A file of a volume: its datablock, with room for the numbers of its blocks, and its blocks are
-- marked and apart from each other.
pub record Good (fs : Fs) (db : ℕ) : Type 0 where
  pub volume : Volume fs
  pub room : count_at fs db ≤ 127
  pub datablock : Marked fs db
  pub blocks : (j : ℕ) → j < count_at fs db → Marked fs (block_at fs db j)
  pub apart :
      (j k : ℕ)
      → j < count_at fs db
      → k < count_at fs db
      → block_at fs db j ≡ block_at fs db k
      → j ≡ k
  pub own : (j : ℕ) → j < count_at fs db → block_at fs db j ≢ db

-- the file with block `j` appended
pub record Appended (fs fs' : Fs) (db j : ℕ) : Type 0 where
  pub volume : Volume fs'
  pub start : data_start fs'.sbi ≡ data_start fs.sbi
  pub list_block : fd_list_block fs'.sbi ≡ fd_list_block fs.sbi
  pub block_count : fs'.sbi.block_count ≡ fs.sbi.block_count
  pub files : fs'.sbi.max_file_count ≡ fs.sbi.max_file_count
  pub inodes : SameInodes fs fs'
  pub count : count_at fs' db ≡ count_at fs db + 1
  pub old : (k : ℕ) → k < count_at fs db → block_at fs' db k ≡ block_at fs db k
  pub new : block_at fs' db (count_at fs db) ≡ j
  pub was_clear : check_bit fs.sbi.b_bitmask j ≡ false
  pub behind : data_start fs.sbi ≤ j
  pub sets : (m : ℕ) → check_bit fs'.sbi.b_bitmask m ≡ (j == m || check_bit fs.sbi.b_bitmask m)
  pub disk : (b : ℕ) → data_start fs.sbi ≤ b → b ≢ db → fs'.disk b ≡ fs.disk b
  pub free : free_blocks_of fs' + 1 ≡ free_blocks_of fs

-- the three steps: the count is raised, a block is taken, its number is put into the datablock
module _ (fs fs2 : Fs) (db j : ℕ) (good : Good fs db) where
  abbrev c : ℕ
  c = count_at fs db

  abbrev raised : Fs
  raised = record fs { disk = write_block fs.disk db (put_word (fs.disk db) 0 (wrap (c + 1))) }

  abbrev named : Fs
  named = record fs2 { disk = write_block fs2.disk db (put_word (fs2.disk db) (c + 1) j) }

  raised-Volume : Volume raised
  raised-Volume =
      Volume-kept fs raised refl
        (λ n h. let b = good.datablock.0 in let ne : (n == db) ≡ false = ground arith in rw ne refl)
        good.volume

  module _ (t : BlockTaken raised j fs2) where
    start2 : data_start fs2.sbi ≡ data_start fs.sbi
    start2 = ap (λ s. data_start s) t.sbi

    list2 : fd_list_block fs2.sbi ≡ fd_list_block fs.sbi
    list2 = ap (λ s. fd_list_block s) t.sbi

    count2 : fs2.sbi.block_count ≡ fs.sbi.block_count
    count2 = ap (λ s. s.block_count) t.sbi

    clear_before : check_bit fs.sbi.b_bitmask j ≡ false
    clear_before = t.takes.was_clear

    behind_start : data_start fs.sbi ≤ j
    behind_start = elim (Bool-cases (ltb j (data_start fs.sbi))) [
      | inl e ↦ absurd (
          let s = good.volume.service j (ltb→lt _ _ e) in
          let n = clear_before in ground (arith, s, n))
      | inr e ↦ ground arith
    ]

    -- the mask's block is in front of the data
    kept2 : (b : ℕ) → data_start fs.sbi ≤ b → fs2.disk b ≡ raised.disk b
    kept2 b h =
        let below : j < fs.sbi.block_count = t.takes.below in
        let room = good.volume.layout.b_bits in t.disk b (λ e. absurd (omega arith))

    datablock2 : named.disk db ≡ put_word (put_word (fs.disk db) 0 (wrap (c + 1))) (c + 1) j
    datablock2 =
        let same : (db == db) ≡ true = ground arith in
        rw same (ap (λ b. put_word b (c + 1) j) (kept2 db good.datablock.0 ∙ rw same refl))

    named-Appended : Appended fs named db j
    named-Appended =
        let room = good.room in
        let below : j < fs.sbi.block_count = t.takes.below in
        let small = good.volume.layout.blocks in
        let w : wrap (c + 1) ≡ c + 1 = wrap_small (c + 1) (omega arith) in
        let first = put_word (fs.disk db) 0 (wrap (c + 1)) in
        record {
          volume =
              Volume-kept fs2 named refl
                (λ n h.
                  let b = good.datablock.0 in
                  let ne : (n == db) ≡ false = ground (arith, list2) in rw ne refl)
                (BlockTaken-Volume raised j fs2 t raised-Volume);
          start = start2;
          list_block = list2;
          block_count = count2;
          files = ap (λ s. s.max_file_count) t.sbi;
          inodes = record { store = t.inodes.store; list = t.inodes.list; fresh = t.inodes.fresh };
          count =
              ap (λ b. word b 0) datablock2
              ∙ word-put_word_other first (c + 1) j 0 (omega arith)
              ∙ word-put_word (fs.disk db) 0 (wrap (c + 1)) (omega (arith, w))
              ∙ w;
          old = λ k h.
              ap (λ b. word b (k + 1)) datablock2
              ∙ word-put_word_other first (c + 1) j (k + 1) (omega arith)
              ∙ word-put_word_other (fs.disk db) 0 (wrap (c + 1)) (k + 1) (omega arith);
          new = ap (λ b. word b (c + 1)) datablock2 ∙ word-put_word first (c + 1) j (omega arith);
          was_clear = clear_before;
          behind = behind_start;
          sets = t.takes.sets;
          disk = λ b h ne.
              let other : (b == db) ≡ false = ground arith in rw other (kept2 b h ∙ rw other refl);
          free =
              ap (λ n. clear_bits fs2.sbi.b_bitmask n + 1) count2
              ∙ clear_bits-take fs.sbi.b_bitmask fs2.sbi.b_bitmask fs.sbi.block_count j below
                  clear_before t.takes.sets;
        }

-- With a free block left, and room in the datablock, `append_block` behind the last block of the file
-- appends one.
pub append_block-Appended :
    (fs : Fs) (db : ℕ)
    → Good fs db
    → count_at fs db < 127
    → 0 < free_blocks_of fs
    → (j : ℕ) × (fs' : Fs) × (append_block fs db (count_at fs db) ≡ some fs') × Appended fs fs' db j
unfolding append_block
append_block-Appended fs db good room some_left =
    let (m, below, clear) = clear_bit fs.sbi.b_bitmask fs.sbi.block_count some_left in
    let up = raised fs fs db 0 good in
    let (j, fs2, run, t) =
      get_empty_block-BlockTaken up m (raised-Volume fs fs db 0 good).b_mask below clear in
    let small = good.volume.layout.blocks in
    let lt : j < fs.sbi.block_count = t.takes.below in
    let b : sub32 (j + 1) 1 ≡ j = sub32_small (j + 1) 1 (omega arith) (omega arith) ∙ omega arith in
    let fits : (leb (count_at fs db + 2) 128 && not (j + 1 == 0)) ≡ true = ground arith in
    (j, _, rw (run, fits, b) refl, named-Appended fs fs2 db j good t)

-- the file with the block is one of the volume too
module _ (fs fs' : Fs) (db j : ℕ) (good : Good fs db) (a : Appended fs fs' db j) where
  pub Appended-Marked : (b : ℕ) → Marked fs b → Marked fs' b
  Appended-Marked b (l, m) = (rw (a.start) l, let s = a.sets b in ground (arith, s, m))

  new_Marked : Marked fs' j
  new_Marked = (rw (a.start) (a.behind), let s = a.sets j in ground (arith, s))

  pub Appended-ne : (b : ℕ) → Marked fs b → b ≢ j
  Appended-ne b (l, m) e =
      let q = subst (λ x. check_bit fs.sbi.b_bitmask x ≡ true) e m in
      let c = a.was_clear in ground (arith, q, c)

  entry :
      (k : ℕ)
      → k < count_at fs' db
      → ((k < count_at fs db) × (block_at fs' db k ≡ block_at fs db k))
        ⊎ ((k ≡ count_at fs db) × (block_at fs' db k ≡ j))
  entry k h = elim (Bool-cases (ltb k (count_at fs db))) [
    | inl e ↦ let l = ltb→lt _ _ e in inl (l, a.old k l)
    | inr e ↦
        let q : k ≡ count_at fs db = let c = a.count in ground (arith, c) in
        inr (q, ap (block_at fs' db) q ∙ a.new)
  ]

  entry_Marked : (k : ℕ) → k < count_at fs' db → Marked fs' (block_at fs' db k)
  entry_Marked k h = elim (entry k h) [
    | inl (l, e) ↦ subst (Marked fs') (sym e) (Appended-Marked _ (good.blocks k l))
    | inr (q, e) ↦ subst (Marked fs') (sym e) new_Marked
  ]

  entry_own : (k : ℕ) → k < count_at fs' db → block_at fs' db k ≢ db
  entry_own k h x = elim (entry k h) [
    | inl (l, e) ↦ good.own k l (sym e ∙ x)
    | inr (q, e) ↦ Appended-ne db good.datablock (sym x ∙ e)
  ]

  entry_apart :
      (k l : ℕ)
      → k < count_at fs' db
      → l < count_at fs' db
      → block_at fs' db k ≡ block_at fs' db l
      → k ≡ l
  entry_apart k l h g x = elim (entry k h) [
    | inl (kl, e) ↦ elim (entry l g) [
      | inl (ll, f) ↦ good.apart k l kl ll (sym e ∙ x ∙ f)
      | inr (q, f) ↦ absurd (Appended-ne _ (good.blocks k kl) (sym e ∙ x ∙ f))
    ]
    | inr (p, e) ↦ elim (entry l g) [
      | inl (ll, f) ↦ absurd (Appended-ne _ (good.blocks l ll) (sym f ∙ sym x ∙ e))
      | inr (q, f) ↦ p ∙ sym q
    ]
  ]

  pub Appended-Good : count_at fs db < 127 → Good fs' db
  Appended-Good less = record {
    volume = a.volume;
    room = let c = a.count in omega (arith, c);
    datablock = Appended-Marked db good.datablock;
    blocks = entry_Marked;
    apart = entry_apart;
    own = entry_own;
  }
