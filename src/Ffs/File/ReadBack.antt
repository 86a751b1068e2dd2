-- ===== src/Ffs/File/ReadBack.antt =====
-- A file that is written and read.
use system_sw.Prelude.{
  ℕ, ◌+◌, ◌*◌, ◌^◌, ◌≤◌, ◌<◌, ◌≡◌, ◌∙◌, refl, ap, inl, false, some, arith, ltb, if◌then◌else◌,
}
use system_sw.Memory.{Bytes, copy}
use system_sw.Ffs.{Fs, InodeInfo}
use system_sw.Ffs.File.{ReadResult, file_write, file_read}
use system_sw.Ffs.File.Read.{content, file_read-ReadRest}
use system_sw.Ffs.File.Overwrite.{file_blocks, FileOk}
use system_sw.Ffs.File.Done.{file_write-Done}

-- the size of a file after a write that ends at `end`
abbrev pub new_size : InodeInfo → ℕ → ℕ
new_size i end = if ltb end i.i_size then i.i_size else end

-- The bytes of `buf` are written into a file's blocks from `start` on, and the file is read from its
-- beginning, with room for all of it: both calls end, `file_read` answers the file's size, and reads
-- the bytes of `buf` where they were written and the file's bytes as they were elsewhere. The file and
-- the write lie inside the file's blocks, which are apart from each other and from its datablock, and
-- below 2 ^ 31.
pub file_read-file_write :
    (fs : Fs) (r : ℕ) (buf : Bytes) (len start max : ℕ) (into : Bytes)
    → let i = fs.inode r in
      let size = new_size i (start + len) in
      FileOk fs i
      → size ≤ 512 * file_blocks fs i
      → size ≤ max
      → max < 2 ^ 31
      → (ppos' : ℕ) × (fs' : Fs) × (out : ReadResult) × (file_write fs r buf len start false
          ≡ some (len, ppos', fs'))
        × (file_read fs' r into max 0 ≡ some out)
        × (out.already_read ≡ size)
        × ((k : ℕ) → k < size → out.buf k ≡ copy (content fs i) start buf len k)
file_read-file_write fs r buf len start max into ok inside room small =
    let i = fs.inode r in
    let size = new_size i (start + len) in
    let ends : start + len ≤ size = ground arith in
    let (p1, fs1, run, done) = file_write-Done fs r buf len start false ok (omega (arith, ends)) in
    let size_eq : (fs1.inode r).i_size ≡ size = done.sized.i_size in
    let (out, reads, rest) =
      file_read-ReadRest fs1 r into max 0 (omega (arith, size_eq)) (omega arith)
        (omega (arith, size_eq)) small (inl refl) in
    (
      p1,
      fs1,
      out,
      run,
      reads,
      (let c = rest.count in omega (arith, size_eq)),
      λ k l.
          let z : 0 + k ≡ k = omega arith in
          rest.bytes k (let c = rest.count in omega (arith, size_eq))
          ∙ ap (content fs1 (fs1.inode r)) z
          ∙ done.wrote.bytes k (omega arith),
    )
