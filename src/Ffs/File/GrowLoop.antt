-- ===== src/Ffs/File/GrowLoop.antt =====
-- The rounds of `file_write`'s loop, where it appends blocks to the file too.
use system_sw.Prelude.{
  ℕ, zero, suc, ◌+◌, ◌-◌, ◌*◌, ◌/◌, ◌%◌, ◌≤◌, ◌<◌, ◌≡◌, ◌∙◌, refl, sym, subst, ◌≢◌, inl, inr, true,
  false, some, arith, ltb, ◌==◌, ltb→lt, Bool-cases,
}
use system_sw.Prelude.Word.{wrap, wrap_small}
use system_sw.Memory.{Bytes, at}
use system_sw.Ffs.{Fs}
use system_sw.Ffs.Bitmask.Inodes.{SameInodes, SameInodes_refl, SameInodes_trans}
use system_sw.Ffs.File.{WriteState, append_block, write_loop}
use system_sw.Ffs.File.Total.{round, round-bounds}
use system_sw.Ffs.File.Append.{
  count_at, free_blocks_of, Good, Appended, append_block-Appended, Appended-Good,
}
use system_sw.Ffs.File.Grow.{blocks_for, Grown, Grown-none, Grown-append}
use system_sw.Ffs.File.GrowWrite.{fs1, count1, good1, Grown-write}

-- where the loop ends
pub record GrowEnd (db : ℕ) (src : Bytes) (s : WriteState) (fs : Fs) (out : WriteState × Fs)
    : Type 0 where
  pub grown : Grown fs out.1 db s.f_pos src s.copy_left
  pub f_pos : out.0.f_pos ≡ s.f_pos + s.copy_left
  pub inodes : SameInodes fs out.1

module _ (db : ℕ) (buf : Bytes) (len : ℕ) where
  -- what the loop needs: room in the datablock, and free blocks
  pub record Ready (s : WriteState) (fs : Fs) : Type 0 where
    pub good : Good fs db
    pub left : s.copy_left ≤ len
    pub count : s.block_count ≡ count_at fs db
    pub from : s.f_pos ≤ 512 * count_at fs db
    pub room : blocks_for (s.f_pos + s.copy_left) ≤ 127
    pub free : blocks_for (s.f_pos + s.copy_left) ≤ count_at fs db + free_blocks_of fs

  -- the state behind a round
  abbrev next : WriteState → WriteState
  next s =
      let n = round s.f_pos s.copy_left in
      record { block_count = s.block_count; f_pos = s.f_pos + n; copy_left = s.copy_left - n }

  -- a round that appends nothing
  module _ (s : WriteState) (fs : Fs) (ready : Ready s fs) (more : s.copy_left ≢ 0)
      (room : s.f_pos / 512 < count_at fs db) where
    abbrev n : ℕ
    n = round s.f_pos s.copy_left

    abbrev src : Bytes
    src = at buf (len - s.copy_left)

    inside : s.f_pos % 512 + n ≤ 512
    inside = ground arith

    abbrev fs' : Fs
    fs' = fs1 fs db s.f_pos src n ready.good room inside

    next_Ready : Ready (next s) fs'
    next_Ready =
        let (pos, le) = round-bounds s.f_pos s.copy_left (ground arith) in
        let c = count1 fs db s.f_pos src n ready.good room inside in
        let sum : s.f_pos + n + (s.copy_left - n) ≡ s.f_pos + s.copy_left = omega (arith, le) in
        let l = ready.left in
        record {
          good = good1 fs db s.f_pos src n ready.good room inside;
          left = omega arith;
          count = ready.count ∙ sym c;
          from = let i = inside in omega (arith, c);
          room = rw sum ready.room;
          free = rw (sum, c) ready.free;
        }

    round-GrowEnd :
        (out : WriteState × Fs)
        → GrowEnd db (at buf (len - (s.copy_left - n))) (next s) fs' out
        → GrowEnd db src s fs out
    round-GrowEnd out rest =
        let (pos, le) = round-bounds s.f_pos s.copy_left (ground arith) in
        let l = ready.left in
        let sum : n + (s.copy_left - n) ≡ s.copy_left = omega (arith, le) in
        let same : at buf (len - (s.copy_left - n)) ≡ at src n =
          let i : (j : ℕ) → len - (s.copy_left - n) + j ≡ len - s.copy_left + (n + j) =
            λ j. omega arith in
          λ t j. buf (i j t) in
        let g =
          Grown-write fs db s.f_pos src n ready.good room inside out.1 (s.copy_left - n)
            (subst (λ b. Grown fs' out.1 db (s.f_pos + n) b (s.copy_left - n)) same rest.grown) in
        record {
          grown = subst (λ x. Grown fs out.1 db s.f_pos src x) sum g;
          f_pos = let q = rest.f_pos in omega (arith, le, q);
          inodes = record {
            store = rest.inodes.store;
            list = rest.inodes.list;
            fresh = rest.inodes.fresh;
          };
        }

  -- a block appended, where the write stands behind the last one
  with_block :
      (s : WriteState) (fs fs' : Fs) (j : ℕ)
      → Appended fs fs' db j
      → Ready s fs
      → s.copy_left ≢ 0
      → s.f_pos ≡ 512 * count_at fs db
      → Ready (record s { block_count = s.block_count + 1 }) fs'
  with_block s fs fs' j a ready more at_end =
      let c = a.count in
      let fr = a.free in
      let r = ready.room in
      record {
        good = Appended-Good fs fs' db j ready.good a (omega arith);
        left = ready.left;
        count = let q = ready.count in omega (arith, c, q);
        from = omega (arith, c);
        room = ready.room;
        free = let q = ready.free in omega (arith, c, fr, q);
      }

  -- the loop behind the block that it has appended, if it has
  write_loop_round :
      (f : ℕ) (s : WriteState) (fs : Fs)
      → ((s' : WriteState) (fs' : Fs)
          → s'.copy_left < f
          → Ready s' fs'
          → (out : WriteState × Fs) × (write_loop f db buf len s' fs' ≡ some out)
            × GrowEnd db (at buf (len - s'.copy_left)) s' fs' out)
      → s.copy_left < suc f
      → Ready s fs
      → s.copy_left ≢ 0
      → s.f_pos / 512 < count_at fs db
      → (out : WriteState × Fs) × (write_loop (suc f) db buf len s fs ≡ some out)
        × GrowEnd db (at buf (len - s.copy_left)) s fs out
  unfolding write_loop
  write_loop_round f s fs rec h ready more room =
      let p = s.f_pos in
      let n = round p s.copy_left in
      let (pos, le) = round-bounds p s.copy_left (ground arith) in
      let z : (s.copy_left == 0) ≡ false = ground arith in
      let q = ready.count in
      let no_more : ltb s.block_count (p / 512 + 1) ≡ false = ground (arith, q) in
      let o : p - p / 512 * 512 ≡ p % 512 = omega arith in
      let small = ready.room in
      let w : wrap (p + n) ≡ p + n = wrap_small _ (omega (arith, le)) in
      let (out, run, rest) =
        rec (next s) (fs' s fs ready more room) (omega (arith, pos, le))
          (next_Ready s fs ready more room) in
      rw (z, no_more, o, w) (out, run, round-GrowEnd s fs ready more room out rest)

  -- A round that appends a block goes on as one from the state with the block.
  write_loop-append_block :
      (f : ℕ) (s : WriteState) (fs fs' : Fs)
      → append_block fs db (count_at fs db) ≡ some fs'
      → s.copy_left ≢ 0
      → s.block_count ≡ count_at fs db
      → s.f_pos ≡ 512 * count_at fs db
      → write_loop (suc f) db buf len s fs
        ≡ write_loop (suc f) db buf len (record s { block_count = s.block_count + 1 }) fs'
  unfolding write_loop
  write_loop-append_block f s fs fs' appended more q e =
      let z : (s.copy_left == 0) ≡ false = ground arith in
      let yes_more : ltb s.block_count (s.f_pos / 512 + 1) ≡ true = ground (arith, q) in
      let no_more : ltb (s.block_count + 1) (s.f_pos / 512 + 1) ≡ false = ground (arith, q) in
      let i : s.f_pos / 512 ≡ count_at fs db = omega arith in
      rw (z, yes_more, no_more, i, appended) refl

  pub write_loop-GrowEnd :
      (f : ℕ) (s : WriteState) (fs : Fs)
      → s.copy_left < f
      → Ready s fs
      → (out : WriteState × Fs) × (write_loop f db buf len s fs ≡ some out)
        × GrowEnd db (at buf (len - s.copy_left)) s fs out
  write_loop-GrowEnd zero s fs h ready = absurd (omega arith)
  write_loop-GrowEnd (suc f) s fs h ready = elim (Bool-cases (s.copy_left == 0)) [
    | inl z ↦
        let e : s.copy_left ≡ 0 = ground arith in
        let run : write_loop (suc f) db buf len s fs ≡ some (s, fs) =
          unfold write_loop in rw z refl in
        (
          (s, fs),
          run,
          record {
            grown =
                subst (Grown fs fs db s.f_pos (at buf (len - s.copy_left))) (sym e)
                  (Grown-none fs db s.f_pos (at buf (len - s.copy_left)) ready.good ready.from);
            f_pos = omega arith;
            inodes = SameInodes_refl fs;
          },
        )
    | inr z ↦
        let more : s.copy_left ≢ 0 = λ e. absurd (ground arith) in
        elim (Bool-cases (ltb (s.f_pos / 512) (count_at fs db))) [
          | inl r ↦ write_loop_round f s fs (write_loop-GrowEnd f) h ready more (ltb→lt _ _ r)
          | inr r ↦
              let from = ready.from in
              let at_end : s.f_pos ≡ 512 * count_at fs db = ground arith in
              let free = ready.free in
              let full = ready.room in
              let (j, fsa, appended, a) =
                append_block-Appended fs db ready.good (omega (arith, full)) (omega arith) in
              let s' : WriteState = record s { block_count = s.block_count + 1 } in
              let c = a.count in
              let (out, run, end) =
                write_loop_round f s' fsa (write_loop-GrowEnd f) h
                  (with_block s fs fsa j a ready more at_end) more (omega (arith, c)) in
              (
                out,
                write_loop-append_block f s fs fsa appended more ready.count at_end ∙ run,
                record {
                  grown =
                      Grown-append fs fsa out.1 db j s.f_pos (at buf (len - s.copy_left))
                        s.copy_left ready.good a (omega arith) end.grown;
                  f_pos = end.f_pos;
                  inodes = SameInodes_trans a.inodes end.inodes;
                },
              )
        ]
  ]
