-- ===== src/Ffs/File/Overwrite.antt =====
-- `file_write` inside the blocks that a file has: the file's bytes after it.
use system_sw.Prelude.{
  ℕ, ◌+◌, ◌-◌, ◌*◌, ◌/◌, ◌%◌, ◌^◌, ◌≤◌, ◌<◌, ◌≡◌, ◌∙◌, refl, ap, ◌≢◌, Bool, true, false, some,
  arith, ◌==◌, if◌then◌else◌, ltb,
}
use system_sw.Prelude.Word.{sub32, wrap_small}
use system_sw.Memory.{Bytes, at, copy}
use system_sw.Ffs.{Fs, InodeInfo, fd_list_block, write_object}
use system_sw.Ffs.Inode.{write_inode}
use system_sw.Ffs.File.{word, WriteState, finish_write, file_write}
use system_sw.Ffs.File.Read.{content}
use system_sw.Ffs.File.Blocks.{copy-congr, bytes_of, Overwritten, write_loop-LoopOut}

-- the block of the disk that the descriptor of an inode is in
abbrev pub fd_block : Fs → InodeInfo → ℕ
fd_block fs i = fd_list_block fs.sbi + sub32 i.i_ino 1 / 32

-- the number of a file's block, and how many there are
abbrev pub file_block : Fs → InodeInfo → ℕ → ℕ
file_block fs i j = word (fs.disk i.datablock) (j + 1)

abbrev pub file_blocks : Fs → InodeInfo → ℕ
file_blocks fs i = word (fs.disk i.datablock) 0

-- A file whose blocks are apart from each other, from its datablock and from its descriptor's block.
pub record FileOk (fs : Fs) (i : InodeInfo) : Type 0 where
  pub small : 512 * file_blocks fs i < 2 ^ 32
  pub apart :
      (j k : ℕ)
      → j < file_blocks fs i
      → k < file_blocks fs i
      → file_block fs i j ≡ file_block fs i k
      → j ≡ k
  pub not_datablock : (j : ℕ) → j < file_blocks fs i → file_block fs i j ≢ i.datablock
  pub not_fd : (j : ℕ) → j < file_blocks fs i → file_block fs i j ≢ fd_block fs i
  pub datablock : i.datablock ≢ fd_block fs i

-- the inode at `r` with another size, and its descriptor written
abbrev pub resized : ℕ → ℕ → Fs → Fs
resized r s fs =
    let i = fs.inode r in
    write_inode r (record fs {
      inode = write_object fs.inode r (record i { i_size = s; fd = record i.fd { file_size = s } });
    })

pub resized-content :
    (fs : Fs) (r s k : ℕ)
    → FileOk fs (fs.inode r)
    → k < 512 * file_blocks fs (fs.inode r)
    → let fs' = resized r s fs in content fs' (fs'.inode r) k ≡ content fs (fs.inode r) k
unfolding write_inode
resized-content fs r s k ok h =
    let self : (r == r) ≡ true = ground arith in
    let d : ((fs.inode r).datablock == fd_block fs (fs.inode r)) ≡ false =
      let ne = ok.datablock in ground arith in
    let b : (file_block fs (fs.inode r) (k / 512) == fd_block fs (fs.inode r)) ≡ false =
      let ne = ok.not_fd (k / 512) (omega arith) in ground arith in
    rw (self, d, b) refl

pub resized-disk :
    (fs : Fs) (r s b : ℕ) → b ≢ fd_block fs (fs.inode r) → (resized r s fs).disk b ≡ fs.disk b
unfolding write_inode
resized-disk fs r s b ne =
    let self : (r == r) ≡ true = ground arith in
    let e : (b == fd_block fs (fs.inode r)) ≡ false = ground arith in rw (self, e) refl

pub resized-sbi : (fs : Fs) (r s : ℕ) → (resized r s fs).sbi ≡ fs.sbi
unfolding write_inode
resized-sbi fs r s = refl

pub finish_write-resized :
    (fs : Fs) (r len ppos : ℕ) (s : WriteState)
    → (finish_write r len ppos (s, fs)).2
      ≡ resized r (if ltb s.f_pos (fs.inode r).i_size then (fs.inode r).i_size else s.f_pos) fs
unfolding finish_write
finish_write-resized fs r len ppos s = refl

pub FileOk-kept :
    (fs fs' : Fs) (i : InodeInfo)
    → fd_list_block fs'.sbi ≡ fd_list_block fs.sbi
    → fs'.disk i.datablock ≡ fs.disk i.datablock
    → FileOk fs i
    → FileOk fs' i
FileOk-kept fs fs' i b d ok = record {
  small = rw d ok.small;
  apart = rw d ok.apart;
  not_datablock = rw d ok.not_datablock;
  not_fd = rw (b, d) ok.not_fd;
  datablock = rw b ok.datablock;
}

-- an inode with the same datablock and number
pub FileOk-moved :
    (fs : Fs) (i i' : InodeInfo)
    → i'.datablock ≡ i.datablock
    → i'.i_ino ≡ i.i_ino
    → FileOk fs i
    → FileOk fs i'
FileOk-moved fs i i' d n ok = record {
  small = rw d ok.small;
  apart = rw d ok.apart;
  not_datablock = rw d ok.not_datablock;
  not_fd = rw (d, n) ok.not_fd;
  datablock = rw (d, n) ok.datablock;
}

-- what a write of `len` bytes from `start` on leaves: the file's bytes, the other blocks, the superblock
pub record Wrote (fs fs' : Fs) (r : ℕ) (buf : Bytes) (start len : ℕ) : Type 0 where
  pub bytes :
      (k : ℕ)
      → k < 512 * file_blocks fs (fs.inode r)
      → content fs' (fs'.inode r) k ≡ copy (content fs (fs.inode r)) start buf len k
  pub sbi : fs'.sbi ≡ fs.sbi
  pub others :
      (b : ℕ)
      → b ≢ fd_block fs (fs.inode r)
      → ((j : ℕ) → j < file_blocks fs (fs.inode r) → b ≢ file_block fs (fs.inode r) j)
      → fs'.disk b ≡ fs.disk b

pub finish_write_lem :
    (r len ppos : ℕ) (out : WriteState × Fs)
    → finish_write r len ppos out
      ≡ (len, (finish_write r len ppos out).1, (finish_write r len ppos out).2)
unfolding finish_write
finish_write_lem r len ppos out = refl

finish-Wrote :
    (fs : Fs) (r : ℕ) (buf : Bytes) (len ppos start : ℕ) (s : WriteState) (fs2 : Fs)
    → let i = fs.inode r in
      FileOk fs i
      → fs2.inode ≡ fs.inode
      → fs2.sbi ≡ fs.sbi
      → Overwritten i.datablock
          (fs.disk i.datablock)
          (file_blocks fs i)
          fs.disk
          fs2.disk
          start
          (at buf (len - len))
          len
      → Wrote fs (finish_write r len ppos (s, fs2)).2 r buf start len
finish-Wrote fs r buf len ppos start s fs2 ok store sbi done =
    let i = fs.inode r in
    let same : fs2.inode r ≡ i = ap (λ st. st r) store in
    let ok2 : FileOk fs2 (fs2.inode r) =
      rw same (FileOk-kept fs fs2 i (ap (λ x. fd_list_block x) sbi) done.kept_table ok) in
    let z : (j : ℕ) → at buf (len - len) j ≡ buf j =
      λ j. let q : len - len + j ≡ j = omega arith in ap buf q in
    let named : fs2.disk (fs2.inode r).datablock ≡ fs.disk i.datablock =
      ap (λ j. fs2.disk j.datablock) same ∙ done.kept_table in
    let count : file_blocks fs2 (fs2.inode r) ≡ file_blocks fs i = ap (λ d. word d 0) named in
    let before : (k : ℕ) → content fs2 (fs2.inode r) k ≡ bytes_of (file_block fs i) fs2.disk k =
      λ k. λ t. fs2.disk (word (named t) (k / 512 + 1)) (k % 512) in
    let size = if ltb s.f_pos (fs2.inode r).i_size then (fs2.inode r).i_size else s.f_pos in
    rw (finish_write-resized fs2 r len ppos s) (record {
      bytes = λ k h.
          resized-content fs2 r size k ok2 (rw count h)
          ∙ before k
          ∙ done.bytes k h
          ∙ copy-congr (content fs i) (content fs i) start (at buf (len - len)) buf len k refl z;
      sbi = resized-sbi fs2 r size ∙ sbi;
      others = λ b ne h. resized-disk fs2 r size b (rw (sbi, same) ne) ∙ done.others b h;
    })

-- `file_write` of `len` bytes that end inside the blocks which the file has ends, and overwrites the
-- file's bytes from `start` on, which is its end if it appends, with those of the buffer: every other
-- byte of its blocks stays, and every block of the disk but these and the descriptor's, and the superblock's state. The condition
-- is that these blocks are apart from each other and from the file's datablock.
pub file_write-Wrote :
    (fs : Fs) (r : ℕ) (buf : Bytes) (len ppos : ℕ) (append : Bool)
    → let i = fs.inode r in
      let start = if append then i.i_size else ppos in
      FileOk fs i
      → start + len ≤ 512 * file_blocks fs i
      → (ppos' : ℕ) × (fs' : Fs) × (file_write fs r buf len ppos append ≡ some (len, ppos', fs'))
        × Wrote fs fs' r buf start len
unfolding file_write
file_write-Wrote fs r buf len ppos append ok within =
    let i = fs.inode r in
    let start = if append then i.i_size else ppos in
    let small = ok.small in
    let w = wrap_small start (omega arith) in
    let count = file_blocks fs i in
    let (out, run, done) =
      write_loop-LoopOut i.datablock (fs.disk i.datablock) count ok.apart ok.not_datablock ok.small
        buf len (len + 1) (record { block_count = count; f_pos = start; copy_left = len }) fs
        (omega arith) (omega arith) refl refl within in
    rw (w, run)
      (
        (finish_write r len ppos out).1,
        (finish_write r len ppos out).2,
        ap some (finish_write_lem r len ppos out),
        finish-Wrote fs r buf len ppos start out.0 out.1 ok done.inode done.sbi done.disk,
      )
