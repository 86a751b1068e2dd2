-- ===== src/Ffs/File/Done.antt =====
-- All that `file_write` inside a file's blocks does: to the bytes, to the inodes and to the list.
use system_sw.Prelude.{
  ℕ, ◌+◌, ◌*◌, ◌^◌, ◌≤◌, ◌<◌, ◌≡◌, sym, ap, ◌≢◌, Bool, some, arith, if◌then◌else◌,
}
use system_sw.Memory.{Bytes}
use system_sw.Ffs.{Fs, fd_list_block}
use system_sw.Ffs.File.{file_write}
use system_sw.Ffs.File.Total.{Sized, file_write-Resized}
use system_sw.Ffs.File.Overwrite.{
  file_blocks, FileOk, FileOk-kept, FileOk-moved, Wrote, file_write-Wrote,
}

pub record WriteDone (fs fs' : Fs) (r : ℕ) (buf : Bytes) (start len : ℕ) : Type 0 where
  pub wrote : Wrote fs fs' r buf start len
  pub sized : Sized (fs.inode r) (fs'.inode r) (start + len)
  pub others : (k : ℕ) → k ≢ r → fs'.inode k ≡ fs.inode k
  pub list : fs'.inodes ≡ fs.inodes

pub file_write-Done :
    (fs : Fs) (r : ℕ) (buf : Bytes) (len ppos : ℕ) (append : Bool)
    → let i = fs.inode r in
      let start = if append then i.i_size else ppos in
      FileOk fs i
      → start + len ≤ 512 * file_blocks fs i
      → (ppos' : ℕ) × (fs' : Fs) × (file_write fs r buf len ppos append ≡ some (len, ppos', fs'))
        × WriteDone fs fs' r buf start len
file_write-Done fs r buf len ppos append ok within =
    let i = fs.inode r in
    let start = if append then i.i_size else ppos in
    let small : start + len < 2 ^ 32 = let s = ok.small in omega arith in
    let (p1, fs1, run, wrote) = file_write-Wrote fs r buf len ppos append ok within in
    let z = file_write-Resized fs r buf len ppos append len p1 fs1 small run in
    (p1, fs1, run, record { wrote = wrote; sized = z.sized; others = z.others; list = z.list })

-- The file's blocks are apart as before, and it has as many.
pub WriteDone-FileOk :
    (fs fs' : Fs) (r : ℕ) (buf : Bytes) (start len : ℕ)
    → FileOk fs (fs.inode r)
    → WriteDone fs fs' r buf start len
    → (fs'.disk (fs'.inode r).datablock ≡ fs.disk (fs.inode r).datablock) × FileOk fs' (fs'.inode r)
WriteDone-FileOk fs fs' r buf start len ok done =
    let i = fs.inode r in
    let d = done.sized.datablock in
    let table : fs'.disk i.datablock ≡ fs.disk i.datablock =
      done.wrote.others i.datablock ok.datablock (λ j h e. ok.not_datablock j h (sym e)) in
    let kept = FileOk-kept fs fs' i (ap (λ x. fd_list_block x) done.wrote.sbi) table ok in
    (rw d table, FileOk-moved fs' i (fs'.inode r) d done.sized.i_ino kept)
