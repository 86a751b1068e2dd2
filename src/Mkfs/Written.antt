-- ===== src/Mkfs/Written.antt =====
-- The first file of a mounted image of mkfs.ffs, written and read.
use system_sw.Prelude.{
  ℕ, ◌+◌, ◌*◌, ◌≤◌, ◌<◌, ◌≡◌, ◌∙◌, refl, ap, inl, inr, false, ◌&&◌, some, [], ◌∷◌, arith, ltb, leb,
  if◌then◌else◌, Bool-cases,
}
use system_sw.Prelude.Word.{sub32, sub32_small}
use system_sw.Memory.{Bytes, copy}
use system_sw.Ffs.{InodeInfo, Fs}
use system_sw.Ffs.File.{ReadResult, file_read, file_write}
use system_sw.Ffs.File.Read.{content}
use system_sw.Ffs.File.Overwrite.{file_block, file_blocks, fd_block, FileOk}
use system_sw.Ffs.File.ReadBack.{new_size, file_read-file_write}
use system_sw.Ffs.Dir.{str_bytes}
use system_sw.Ffs.Mount.{mounted, fill_super}
use system_sw.Mkfs.{layout, service_blocks, mkfs}
use system_sw.Mkfs.Readback.{zeros, mounted_datablocks, mounted_count, service_four}
use system_sw.Mkfs.Image.{layout-RoomFor, mkfs-texts}
use system_sw.Mkfs.Contents.{in_block, MkfsMount, fill_super-MkfsMount}

module _ (junk : Bytes) (size : ℕ) (fs : Fs) (m : MkfsMount junk size fs) where
  abbrev s : ℕ
  s = service_blocks (layout size)

  abbrev hello : InodeInfo
  hello = fs.inode 1

  one_block : file_blocks fs hello ≡ 1
  one_block = rw (m.disk, m.fresh.hello.datablock) (mounted_count junk size m.low m.high)

  its_block : file_block fs hello 0 ≡ s + 4
  its_block = rw (m.disk, m.fresh.hello.datablock) (mounted_datablocks junk size m.low m.high).2

  its_fd : fd_block fs hello ≡ 3
  its_fd =
      let x : sub32 2 1 ≡ 1 = sub32_small 2 1 (omega arith) (omega arith) in
      let (b, f) = m.fresh.one_mask_block in rw (b, f, m.fresh.hello.i_ino, x) refl

  only_block : (j : ℕ) → j < file_blocks fs hello → file_block fs hello j ≡ s + 4
  only_block j h =
      let z : j ≡ 0 = omega (arith, one_block) in ap (file_block fs hello) z ∙ its_block

  hello-FileOk : FileOk fs hello
  hello-FileOk =
      let four = service_four junk size m.low m.high in
      let d = m.fresh.hello.datablock in
      record {
        small = omega (arith, one_block);
        apart = λ j k hj hk e. omega (arith, one_block, hj, hk);
        not_datablock = λ j h e. absurd (omega (arith, only_block j h, e, d));
        not_fd = λ j h e. absurd (omega (arith, only_block j h, e, its_fd, four));
        datablock = λ e. absurd (omega (arith, e, its_fd, d, four));
      }

  text : Bytes
  text = str_bytes (52 ∷ 50 ∷ 10 ∷ [])

  hello_bytes : (k : ℕ) → k < 3 → content fs hello k ≡ text k
  unfolding text
  hello_bytes k h =
      let room = layout-RoomFor size m.low (let x = m.high in omega arith) in
      in_block junk size fs m 1 (s + 1) (s + 4) m.fresh.hello.datablock
        (mounted_datablocks junk size m.low m.high).2 k (omega arith)
      ∙ (mkfs-texts junk size zeros room).0 k h

  -- the file's text with the buffer's bytes over it
  written_bytes :
      (buf : Bytes) (len start k : ℕ)
      → start ≤ 3
      → k < (if ltb (start + len) 3 then 3 else start + len)
      → copy (content fs hello) start buf len k ≡ copy text start buf len k
  unfolding copy
  written_bytes buf len start k near h = elim (Bool-cases (leb start k && ltb k (start + len))) [
    | inl e ↦ rw e refl
    | inr e ↦ rw e (hello_bytes k (ground arith))
  ]

-- In the mounted image, `file_write` of up to 512 bytes into the first file, from a place in its text or
-- from its end, and a `file_read` of the file after it end: the file's size has grown to the write's end
-- if that is behind it, and what is read is `42` and a new line with the buffer's bytes over it.
pub file_write-mkfs :
    (junk : Bytes) (size : ℕ) (blank : InodeInfo) (fs : Fs) (buf into : Bytes) (len start : ℕ)
    → 12800 ≤ size
    → size < 512 * 4097
    → fill_super blank (mkfs junk size zeros) ≡ mounted 0 fs
    → start ≤ 3
    → start + len ≤ 512
    → let end = if ltb (start + len) 3 then 3 else start + len in
      (ppos' : ℕ) × (fs' : Fs) × (out : ReadResult) × (file_write fs 1 buf len start false
        ≡ some (len, ppos', fs'))
      × (file_read fs' 1 into 512 0 ≡ some out)
      × (out.already_read ≡ end)
      × ((k : ℕ) → k < end → out.buf k ≡ copy (str_bytes (52 ∷ 50 ∷ 10 ∷ [])) start buf len k)
unfolding text
file_write-mkfs junk size blank fs buf into len start low high e near fits =
    let m = fill_super-MkfsMount junk size blank fs low high e in
    let i = fs.inode 1 in
    let old = m.fresh.hello.i_size in
    let end : new_size i (start + len) ≡ (if ltb (start + len) 3 then 3 else start + len) =
      rw old refl in
    let one = one_block junk size fs m in
    let (ppos', fs', out, wrote, reads, count, bytes) =
      file_read-file_write fs 1 buf len start 512 into (hello-FileOk junk size fs m)
        (rw (end, one) (ground arith)) (rw end (ground arith)) (omega arith) in
    (
      ppos',
      fs',
      out,
      wrote,
      reads,
      count ∙ end,
      λ k h. bytes k (rw end h) ∙ written_bytes junk size fs m buf len start k near h,
    )
