-- ===== src/Ffs/File/Grown.antt =====
-- `file_write` on a volume, where it appends blocks too.
use system_sw.Prelude.{
  ℕ, ◌+◌, ◌-◌, ◌*◌, ◌^◌, ◌≤◌, ◌<◌, ◌≡◌, refl, sym, ap, subst, ◌≢◌, Bool, some, arith, ltb,
  if◌then◌else◌,
}
use system_sw.Prelude.Word.{wrap_small, sub32_small}
use system_sw.Memory.{Bytes, at}
use system_sw.Ffs.{InodeInfo, Fs, fd_list_block}
use system_sw.Ffs.File.{WriteState, write_loop, finish_write, file_write}
use system_sw.Ffs.File.Append.{count_at, free_blocks_of, Good}
use system_sw.Ffs.File.Grow.{blocks_for, Grown}
use system_sw.Ffs.File.Overwrite.{
  fd_block, resized, resized-disk, resized-sbi, finish_write_lem, finish_write-resized,
}
use system_sw.Ffs.File.Total.{Sized, file_write-Resized}
use system_sw.Ffs.File.Grow.{Grown-after}
use system_sw.Ffs.File.GrowLoop.{write_loop-GrowEnd}
use system_sw.Ffs.Volume.{data_start, Layout, Volume-kept}

-- an inode's descriptor is in the list
abbrev pub InList : Fs → InodeInfo → Type 0
InList fs i = (1 ≤ i.i_ino) × (i.i_ino ≤ fs.sbi.max_file_count)

pub fd_block-below :
    (fs : Fs) (i : InodeInfo)
    → Layout fs.sbi
    → InList fs i
    → (fd_list_block fs.sbi ≤ fd_block fs i) × (fd_block fs i < data_start fs.sbi)
fd_block-below fs i l (number, listed) =
    let files = l.files in
    let d = l.descriptors in
    let s = sub32_small i.i_ino 1 number (omega arith) in rw s (omega arith)

-- the descriptor written behind the loop
resized-Grown :
    (fs fs2 : Fs) (r size db p : ℕ) (src : Bytes) (n : ℕ)
    → InList fs2 (fs2.inode r)
    → Grown fs fs2 db p src n
    → Grown fs (resized r size fs2) db p src n
resized-Grown fs fs2 r size db p src n listed g =
    let v = g.good.volume in
    let (above, below) = fd_block-below fs2 (fs2.inode r) v.layout listed in
    Grown-after fs fs2 (resized r size fs2) db p src n (resized-sbi fs2 r size)
      (Volume-kept fs2 (resized r size fs2) (resized-sbi fs2 r size)
        (λ b h. resized-disk fs2 r size b (λ e. absurd (omega (arith, above)))) v)
      (λ b h. resized-disk fs2 r size b (λ e. absurd (omega (arith, below)))) g

-- the run of `file_write` whose loop ends in `out`
file_write_run :
    (fs : Fs) (r : ℕ) (buf : Bytes) (len ppos : ℕ) (append : Bool) (out : WriteState × Fs)
    → let i = fs.inode r in
      let start = if append then i.i_size else ppos in
      start < 2 ^ 32
      → write_loop
          (len + 1)
          i.datablock
          buf
          len
          (record { block_count = count_at fs i.datablock; f_pos = start; copy_left = len })
          fs
        ≡ some out
      → file_write fs r buf len ppos append
        ≡ some (len, (finish_write r len ppos out).1, (finish_write r len ppos out).2)
unfolding file_write
file_write_run fs r buf len ppos append out small run =
    let w = wrap_small (if append then (fs.inode r).i_size else ppos) small in
    rw (w, run) (ap some (finish_write_lem r len ppos out))

start_of : {n : ℕ} → n ≡ 0 → (j : ℕ) → n + j ≡ j
start_of e j = omega arith

-- `file_write` of `len` bytes from `start` on, which is the file's end if it appends, in a volume that
-- is in step, ends and answers `len`, also where the file needs more blocks. The new blocks were free,
-- and are marked; the bytes are in the file, its other bytes are as they were, and so are all other
-- blocks that were marked and all other inodes. The masks are in step with the disk, and the file's
-- blocks apart from each other, as before. The conditions are that the write begins at most behind the
-- file's last block, that the file has 127 blocks at most, and that there are blocks enough.
pub file_write-Grown :
    (fs : Fs) (r : ℕ) (buf : Bytes) (len ppos : ℕ) (append : Bool)
    → let i = fs.inode r in
      let start = if append then i.i_size else ppos in
      Good fs i.datablock
      → InList fs i
      → start ≤ 512 * count_at fs i.datablock
      → blocks_for (start + len) ≤ 127
      → blocks_for (start + len) ≤ count_at fs i.datablock + free_blocks_of fs
      → (ppos' : ℕ) × (fs' : Fs) × (file_write fs r buf len ppos append ≡ some (len, ppos', fs'))
        × Grown fs fs' i.datablock start buf len
        × Sized i (fs'.inode r) (start + len)
        × ((k : ℕ) → k ≢ r → fs'.inode k ≡ fs.inode k)
        × (fs'.inodes ≡ fs.inodes)
file_write-Grown fs r buf len ppos append good listed from room free =
    let i = fs.inode r in
    let start = if append then i.i_size else ppos in
    let (out, run, end) =
      write_loop-GrowEnd i.datablock buf len (len + 1)
        (record { block_count = count_at fs i.datablock; f_pos = start; copy_left = len }) fs
        (omega arith)
        (record {
          good = good;
          left = omega arith;
          count = refl;
          from = from;
          room = room;
          free = free;
        }) in
    let fs2 = out.1 in
    let same : fs2.inode r ≡ i = ap (λ s. s r) end.inodes.store in
    let nothing : len - len ≡ 0 = omega arith in
    let all : at buf (len - len) ≡ buf = λ t j. buf (start_of nothing j t) in
    let files = end.grown.files in
    let listed2 : InList fs2 (fs2.inode r) =
      let (a, b) = listed in rw same (omega (arith, a), omega (arith, b, files)) in
    let size = if ltb out.0.f_pos (fs2.inode r).i_size then (fs2.inode r).i_size else out.0.f_pos in
    let grown =
      resized-Grown fs fs2 r size i.datablock start buf len listed2
        (subst (λ b. Grown fs fs2 i.datablock start b len) all end.grown) in
    let fs1 = (finish_write r len ppos out).2 in
    let run1 : file_write fs r buf len ppos append
        ≡ some (len, (finish_write r len ppos out).1, fs1) =
      file_write_run fs r buf len ppos append out (omega arith) run in
    let z = file_write-Resized fs r buf len ppos append len _ fs1 (omega arith) run1 in
    (
      (finish_write r len ppos out).1,
      fs1,
      run1,
      subst (λ f. Grown fs f i.datablock start buf len)
          (sym (finish_write-resized fs2 r len ppos out.0)) grown,
      z.sized,
      z.others,
      z.list,
    )
