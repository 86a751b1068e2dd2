-- ===== src/Ffs/File/Read.antt =====
-- What `file_read` reads.
use system_sw.Prelude.{
  ℕ, zero, suc, ◌+◌, ◌-◌, ◌*◌, ◌/◌, ◌%◌, ◌^◌, ◌≤◌, ◌<◌, min, ◌≡◌, ◌∙◌, refl, sym, ap, ◌⊎◌, inl, inr,
  true, some, arith, ltb, leb, ◌==◌, if◌then◌else◌, ltb→lt, lt→ltb, le→not_ltb, Bool-cases,
}
use system_sw.Prelude.Word.{wrap, sub32, positive, wrap_small, sub32_small, positive_small}
use system_sw.Memory.{Bytes, copy, copy_inside, copy_outside}
use system_sw.Ffs.{InodeInfo, Fs}
use system_sw.Ffs.File.{word, ReadResult, read_loop, file_read, read_all}

-- byte `k` of the file, in the blocks that its datablock names
abbrev pub content : Fs → InodeInfo → Bytes
content fs i k = fs.disk (word (fs.disk i.datablock) (k / 512 + 1)) (k % 512)

-- the state of the loop after `n` bytes more
abbrev pub advance : Fs → InodeInfo → ReadResult → ℕ → ReadResult
advance fs i s n = record {
  already_read = s.already_read + n;
  offset = s.offset + n;
  buf = copy s.buf s.already_read (fs.disk (word (fs.disk i.datablock) (s.offset / 512 + 1))) n;
}

module _ (fs : Fs) (i : InodeInfo) (max : ℕ) (small : i.i_size < 2 ^ 31) where
  till_end_lem :
      (offset : ℕ)
      → offset ≤ i.i_size
      → sub32 (sub32 (wrap i.i_size) (wrap (offset / 512 * 512))) (offset - offset / 512 * 512)
        ≡ i.i_size - offset
  till_end_lem offset h =
      rw
        (
          wrap_small i.i_size (omega arith),
          wrap_small (offset / 512 * 512) (omega arith),
          sub32_small i.i_size (offset / 512 * 512) (omega arith) (omega arith),
        )
        (sub32_small (i.i_size - offset / 512 * 512) (offset - offset / 512 * 512) (omega arith)
            (omega arith)
          ∙ omega arith)

  read_loop_stop :
      (f : ℕ) (s : ReadResult) → s.offset ≡ i.i_size → read_loop (suc f) fs i max s ≡ some s
  unfolding read_loop positive
  read_loop_stop f s e =
      let t = till_end_lem s.offset (omega arith) in
      let z : i.i_size - s.offset ≡ 0 = omega arith in rw (t, z) (ground arith)

  pub read_loop_full :
      (f : ℕ) (s : ReadResult) → 0 < f → max ≤ s.already_read → read_loop f fs i max s ≡ some s
  unfolding read_loop
  read_loop_full zero s p h = absurd (omega arith)
  read_loop_full (suc f) s p h = rw (le→not_ltb _ _ h)

  -- the bytes that a round reads: up to the end of the file or of the block, and `max` at most
  abbrev pub chunk : ReadResult → ℕ
  chunk s = min (min (i.i_size - s.offset) (512 - s.offset % 512)) max

  pub read_loop-chunk :
      (f : ℕ) (s : ReadResult)
      → s.offset < i.i_size
      → s.already_read < max
      → max < 2 ^ 31
      → read_loop (suc f) fs i max s ≡ read_loop f fs i max (advance fs i s (chunk s))
  unfolding read_loop
  read_loop-chunk f s h room hm =
      let o = s.offset in
      let till = i.i_size - o in
      let t = till_end_lem o (omega arith) in
      let go : ltb s.already_read max ≡ true = lt→ltb _ _ room in
      let pos : positive till ≡ true = positive_small till (omega arith) (omega arith) in
      let off : 512 - (o - o / 512 * 512) ≡ 512 - o % 512 = omega arith in
      let n : (if ltb till (512 - o % 512) then till else 512 - o % 512)
          ≡ min till (512 - o % 512) =
        ground arith in
      let a = min till (512 - o % 512) in
      let m : (if leb a max then a else max) ≡ min a max = ground arith in
      let w : wrap (s.already_read + min a max) ≡ s.already_read + min a max =
        wrap_small _ (omega arith) in
      rw (t, go, pos, off, n, m, w)

  read_loop_step :
      (f : ℕ) (s : ReadResult)
      → s.offset % 512 ≡ 0
      → s.offset < i.i_size
      → i.i_size - s.offset ≤ max - s.already_read
      → max < 2 ^ 31
      → read_loop (suc f) fs i max s
        ≡ read_loop f fs i max (advance fs i s (min (i.i_size - s.offset) 512))
  read_loop_step f s al h room hm =
      let e : chunk s ≡ min (i.i_size - s.offset) 512 = omega arith in
      read_loop-chunk f s h (omega arith) hm ∙ ap (λ n. read_loop f fs i max (advance fs i s n)) e

-- What a read from offset `o` to the end of the file leaves: the rest of the file, in order, from the
-- buffer's start, and the buffer behind it as it was.
pub record ReadRest (fs : Fs) (i : InodeInfo) (o : ℕ) (buf : Bytes) (r : ReadResult) : Type 0 where
  pub count : o + r.already_read ≡ i.i_size
  pub at_end : r.offset ≡ i.i_size
  pub bytes : (k : ℕ) → k < r.already_read → r.buf k ≡ content fs i (o + k)
  pub rest : (k : ℕ) → r.already_read ≤ k → r.buf k ≡ buf k

module _ (fs : Fs) (i : InodeInfo) (max o : ℕ) (buf : Bytes) (small : i.i_size < 2 ^ 31)
    (within : o ≤ i.i_size) (fits : i.i_size ≤ o + max) (words : max < 2 ^ 31) where
  -- the loop's invariant
  record Reading (s : ReadResult) : Type 0 where
    offset : s.offset ≡ o + s.already_read
    below : s.offset ≤ i.i_size
    aligned : (s.offset % 512 ≡ 0) ⊎ (s.offset ≡ i.i_size)
    bytes : (k : ℕ) → k < s.already_read → s.buf k ≡ content fs i (o + k)
    rest : (k : ℕ) → s.already_read ≤ k → s.buf k ≡ buf k

  step-Reading :
      (s : ReadResult)
      → Reading s
      → s.offset % 512 ≡ 0
      → s.offset < i.i_size
      → Reading (advance fs i s (min (i.i_size - s.offset) 512))
  step-Reading s v al h =
      let n = min (i.i_size - s.offset) 512 in
      let b = fs.disk (word (fs.disk i.datablock) (s.offset / 512 + 1)) in
      let at_o = v.offset in
      record {
        offset = omega arith;
        below = omega arith;
        aligned = omega arith;
        bytes = λ k l. elim (Bool-cases (ltb k s.already_read)) [
          | inl e ↦
              copy_outside s.buf s.already_read b n k (inl (ltb→lt _ _ e))
              ∙ v.bytes k (ltb→lt _ _ e)
          | inr e ↦
              let low : s.already_read ≤ k = ground arith in
              let j = k - s.already_read in
              let ek : s.already_read + j ≡ k = omega arith in
              let q : (o + k) / 512 ≡ s.offset / 512 = omega arith in
              let r : (o + k) % 512 ≡ j = omega arith in
              let c = copy_inside s.buf s.already_read b n j (omega arith) in
              let there : content fs i (o + k) ≡ b j =
                λ t. fs.disk (word (fs.disk i.datablock) (q t + 1)) (r t) in
              (rw ek at c) ∙ sym there
        ];
        rest = λ k l. copy_outside s.buf s.already_read b n k (inr l) ∙ v.rest k (omega arith);
      }

  read_loop-ReadRest :
      (f : ℕ) (s : ReadResult)
      → Reading s
      → max < s.already_read + f
      → (r : ReadResult) × (read_loop f fs i max s ≡ some r) × ReadRest fs i o buf r
  read_loop-ReadRest zero s v hf = absurd (let a = v.offset in let b = v.below in omega arith)
  read_loop-ReadRest (suc f) s v hf = elim (Bool-cases (s.offset == i.i_size)) [
    | inl e ↦
        let q : s.offset ≡ i.i_size = ground arith in
        let a = v.offset in
        (
          s,
          read_loop_stop fs i max small f s q,
          record { count = omega arith; at_end = q; bytes = v.bytes; rest = v.rest },
        )
    | inr e ↦
        let a = v.offset in
        let b = v.below in
        let h : s.offset < i.i_size = ground arith in
        let al : s.offset % 512 ≡ 0 = let c = v.aligned in omega arith in
        let (r, q, out) =
          read_loop-ReadRest f (advance fs i s (min (i.i_size - s.offset) 512))
            (step-Reading s v al h) (omega arith) in
        (r, read_loop_step fs i max small f s al h (omega arith) words ∙ q, out)
  ]

-- From an offset that begins a block, or the end of the file, `file_read` with room for the rest of
-- the file ends, and reads it: the count and the offset after it are exact, the bytes are those of the
-- file's blocks in order, and nothing is written behind them.
pub file_read-ReadRest :
    (fs : Fs) (r : ℕ) (buf : Bytes) (max o : ℕ)
    → (fs.inode r).i_size < 2 ^ 31
    → o ≤ (fs.inode r).i_size
    → (fs.inode r).i_size ≤ o + max
    → max < 2 ^ 31
    → (o % 512 ≡ 0) ⊎ (o ≡ (fs.inode r).i_size)
    → (out : ReadResult) × (file_read fs r buf max o ≡ some out)
      × ReadRest fs (fs.inode r) o buf out
unfolding file_read
file_read-ReadRest fs r buf max o small within fits words al =
    read_loop-ReadRest fs (fs.inode r) max o buf small within fits words (max + 1)
      (record { already_read = 0; offset = o; buf = buf })
      (record {
        offset = omega arith;
        below = within;
        aligned = al;
        bytes = λ k l. absurd (omega arith);
        rest = λ k l. refl;
      })
      (omega arith)

-- The loop `while (file_read(...));` with which the directory functions read a whole directory ends
-- after two calls, and leaves the file's bytes in the buffer and the rest of the buffer alone.
pub read_all-content :
    (fs : Fs) (r : ℕ) (buf : Bytes) (f : ℕ)
    → (fs.inode r).i_size < 2 ^ 31
    → 2 ≤ f
    → (out : Bytes) × (read_all f fs r buf (fs.inode r).i_size 0 ≡ some out)
      × ((k : ℕ) → k < (fs.inode r).i_size → out k ≡ content fs (fs.inode r) k)
      × ((k : ℕ) → (fs.inode r).i_size ≤ k → out k ≡ buf k)
unfolding read_all
read_all-content fs r buf zero small hf = absurd (omega arith)
read_all-content fs r buf (suc zero) small hf = absurd (omega arith)
read_all-content fs r buf (suc (suc f)) small hf =
    let size = (fs.inode r).i_size in
    let (r1, e1, d1) =
      file_read-ReadRest fs r buf size 0 small (omega arith) (omega arith) small (inl refl) in
    let n1 : r1.already_read ≡ size = let x = d1.count in omega arith in
    let (r2, e2, d2) =
      file_read-ReadRest fs r r1.buf size size small (omega arith) (omega arith) small (inr refl) in
    let n2 : r2.already_read ≡ 0 = let x = d2.count in omega arith in
    let at_zero : (k : ℕ) → content fs (fs.inode r) (0 + k) ≡ content fs (fs.inode r) k =
      λ k. let z : 0 + k ≡ k = omega arith in ap (content fs (fs.inode r)) z in
    elim (Bool-cases (r1.already_read == 0)) [
      | inl z ↦ (
        r1.buf,
        rw (e1, z),
        λ k l. d1.bytes k (omega arith) ∙ at_zero k,
        λ k l. d1.rest k (omega arith),
      )
      | inr z ↦ (
        r2.buf,
        rw (e1, z, d1.at_end, e2, n2),
        λ k l. d2.rest k (omega arith) ∙ d1.bytes k (omega arith) ∙ at_zero k,
        λ k l. d2.rest k (omega arith) ∙ d1.rest k (omega arith),
      )
    ]
