-- ===== src/Ffs/File/Overrun.antt =====
-- Two ways in which `file_read` departs from a read of `max` bytes from `*offset`.
use system_sw.Prelude.{
  ℕ, suc, ◌+◌, ◌-◌, ◌/◌, ◌%◌, ◌^◌, ◌≤◌, ◌<◌, ◌≡◌, ◌∙◌, refl, sym, ap, some, arith,
}
use system_sw.Memory.{Bytes, copy, copy_inside}
use system_sw.Ffs.{InodeInfo, Fs}
use system_sw.Ffs.File.{word, ReadResult, read_loop, file_read}
use system_sw.Ffs.File.Read.{content, advance, chunk, read_loop_full, read_loop-chunk}

-- the bytes that a copy of a block's start leaves
copied :
    (fs : Fs) (i : InodeInfo) (o k n : ℕ) (buf : Bytes)
    → o < 512
    → k < n
    → n ≤ 512
    → copy buf 0 (fs.disk (word (fs.disk i.datablock) (o / 512 + 1))) n k ≡ content fs i k
copied fs i o k n buf lo l h =
    let b = fs.disk (word (fs.disk i.datablock) (o / 512 + 1)) in
    let z : 0 + k ≡ k = omega arith in
    let q : k / 512 ≡ o / 512 = omega arith in
    let r : k % 512 ≡ k = omega arith in
    let there : content fs i k ≡ b k = λ t. fs.disk (word (fs.disk i.datablock) (q t + 1)) (r t) in
    (rw z at (copy_inside buf 0 b n k l)) ∙ sym there

second :
    (fs : Fs) (i : InodeInfo) (s : ReadResult) (k : ℕ)
    → s.offset ≡ 512
    → s.already_read ≡ 512
    → 512 ≤ k
    → k < 1024
    → (advance fs i s 512).buf k ≡ content fs i k
second fs i s k eo er lo hi =
    let b = fs.disk (word (fs.disk i.datablock) (s.offset / 512 + 1)) in
    let j = k - s.already_read in
    let z : s.already_read + j ≡ k = omega arith in
    let q : k / 512 ≡ s.offset / 512 = omega arith in
    let r : k % 512 ≡ j = omega arith in
    let there : content fs i k ≡ b j = λ t. fs.disk (word (fs.disk i.datablock) (q t + 1)) (r t) in
    (rw z at (copy_inside s.buf s.already_read b 512 j (omega arith))) ∙ sym there

-- Of a file of 1024 bytes or more, a read from the start with room for more than one block and less
-- than two copies two whole blocks: it returns 1024, more than `max`, and has written the file's bytes
-- up to there into the buffer, behind its end too.
pub file_read_overruns :
    (fs : Fs) (r : ℕ) (buf : Bytes) (max : ℕ)
    → (fs.inode r).i_size < 2 ^ 31
    → 1024 ≤ (fs.inode r).i_size
    → 512 < max
    → max < 1024
    → (out : ReadResult) × (file_read fs r buf max 0 ≡ some out)
      × (out.already_read ≡ 1024)
      × ((k : ℕ) → max ≤ k → k < 1024 → out.buf k ≡ content fs (fs.inode r) k)
unfolding file_read
file_read_overruns fs r buf max small big lo hi =
    let i = fs.inode r in
    let s : ReadResult = record { already_read = 0; offset = 0; buf = buf } in
    let s1 = advance fs i s 512 in
    let s2 = advance fs i s1 512 in
    let n1 : chunk fs i max small s ≡ 512 = omega arith in
    let n2 : chunk fs i max small s1 ≡ 512 = omega arith in
    let step1 =
      read_loop-chunk fs i max small max s (omega arith) (omega arith) (omega arith)
      ∙ ap (λ x. read_loop max fs i max (advance fs i s x)) n1 in
    let step2 =
      read_loop-chunk fs i max small (max - 1) s1 (omega arith) (omega arith) (omega arith)
      ∙ ap (λ x. read_loop (max - 1) fs i max (advance fs i s1 x)) n2 in
    let stop = read_loop_full fs i max small (max - 1) s2 (omega arith) (omega arith) in
    let fuel : max + 1 ≡ suc max = omega arith in
    let fuel' : max ≡ suc (max - 1) = omega arith in
    (
      s2,
      rw fuel (step1 ∙ (ap (λ f. read_loop f fs i max s1) fuel' ∙ step2 ∙ stop)),
      omega arith,
      λ k l u. second fs i s1 k refl refl (omega arith) u,
    )

-- A read that starts inside the file's first block, at `o`, and stays inside it, copies the block's first
-- bytes and not those from `o` on.
pub file_read_ignores_offset :
    (fs : Fs) (r : ℕ) (buf : Bytes) (max o : ℕ)
    → (fs.inode r).i_size < 2 ^ 31
    → o < 512
    → 0 < max
    → o + max ≤ 512
    → o + max ≤ (fs.inode r).i_size
    → (out : ReadResult) × (file_read fs r buf max o ≡ some out)
      × (out.already_read ≡ max)
      × (out.offset ≡ o + max)
      × ((k : ℕ) → k < max → out.buf k ≡ content fs (fs.inode r) k)
unfolding file_read
file_read_ignores_offset fs r buf max o small lo pos inside within =
    let i = fs.inode r in
    let s : ReadResult = record { already_read = 0; offset = o; buf = buf } in
    let n : chunk fs i max small s ≡ max = omega arith in
    let s' = advance fs i s max in
    let step =
      read_loop-chunk fs i max small max s (omega arith) pos (omega arith)
      ∙ ap (λ x. read_loop max fs i max (advance fs i s x)) n in
    let stop = read_loop_full fs i max small max s' pos (omega arith) in
    let fuel : max + 1 ≡ suc max = omega arith in
    (
      s',
      rw fuel (step ∙ stop),
      omega arith,
      refl,
      λ k l. copied fs i o k max buf lo l (omega arith),
    )
