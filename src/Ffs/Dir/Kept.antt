-- ===== src/Ffs/Dir/Kept.antt =====
-- `ffs_lookup` in a directory that an operation leaves alone.
use system_sw.Prelude.{
  ℕ, ◌+◌, ◌*◌, ◌/◌, ◌≤◌, ◌<◌, ◌≡◌, ◌∙◌, refl, sym, ap, ◌≢◌, some, List, arith, length,
}
use Prim.Native.Nat.{bit_and}
use system_sw.Memory.{Bytes}
use system_sw.Ffs.{Fs}
use system_sw.Ffs.File.Read.{content}
use system_sw.Ffs.Dir.{s_ifdir, entry_inode, lookup_loop, lookup}
use system_sw.Ffs.Dir.Search.{Holds, SizeOk}
use system_sw.Ffs.Dir.Loop.{DirOk, lookup-loop}
use system_sw.Ffs.Dir.Entries.{SameNumbers, SameEntry, entry_inode-congr, lookup_loop-by}

Holds-SameEntry :
    (fs : Fs) (dir : ℕ) (b : Bytes) (k : ℕ)
    → Holds fs dir b
    → k < (fs.inode dir).i_size / 16
    → SameEntry b k (content fs (fs.inode dir)) k
Holds-SameEntry fs dir b k holds h i l = holds.inside (16 * k + i) (omega arith)

same_numbers : (fs : Fs) → SameNumbers fs fs
same_numbers fs = record { list = refl; number = λ k. refl }

-- The search finds what it found before where the directory has its bytes and the inodes of its
-- entries are the same.
pub lookup-kept :
    (fs fs' : Fs) (dir : ℕ) (name : List ℕ)
    → DirOk fs dir
    → fs'.inode dir ≡ fs.inode dir
    → let bytes = content fs (fs.inode dir) in
      ((k : ℕ) → k < (fs.inode dir).i_size → content fs' (fs.inode dir) k ≡ bytes k)
      → ((k : ℕ)
          → k < (fs.inode dir).i_size / 16
          → entry_inode fs' bytes k ≡ entry_inode fs bytes k)
      → length name ≤ 9
      → lookup fs' dir name ≡ lookup fs dir name
lookup-kept fs fs' dir name ok same bytes inodes short =
    let i = fs.inode dir in
    let size = i.i_size in
    let size' : (fs'.inode dir).i_size ≡ size = ap (λ x. x.i_size) same in
    let ok' : SizeOk fs' dir = record {
      agree = rw same ok.size.agree;
      small = rw same ok.size.small;
    } in
    let is_dir : bit_and (fs'.inode dir).i_mode s_ifdir ≢ 0 = rw same ok.is_dir in
    let (b, read, holds, look) = lookup-loop fs dir ok.size ok.is_dir in
    let (c, read', holds', look') = lookup-loop fs' dir ok' is_dir in
    let there : (k : ℕ) → content fs' (fs'.inode dir) k ≡ content fs' i k =
      λ k. ap (λ x. content fs' x k) same in
    let inside : (k : ℕ) → k < size → c k ≡ content fs i k =
      λ k h. holds'.inside k (rw size' h) ∙ there k ∙ bytes k h in
    let entry : (k : ℕ) → k < size / 16 → SameEntry c k b k = λ k h j l.
      inside (16 * k + j) (omega arith) ∙ sym (holds.inside (16 * k + j) (omega arith)) in
    let inode : (k : ℕ) → k < size / 16 → entry_inode fs' c k ≡ entry_inode fs b k = λ k h.
      entry_inode-congr c (content fs i) k k (λ j l. inside (16 * k + j) (omega arith)) fs' fs'
        (same_numbers fs')
      ∙ inodes k h
      ∙ sym (
          entry_inode-congr b (content fs i) k k (Holds-SameEntry fs dir b k holds h) fs fs
            (same_numbers fs)) in
    let z : (k : ℕ) → k ≡ 0 + k = λ k. omega arith in
    let loops : lookup_loop fs' c name 0 (size / 16) ≡ lookup_loop fs b name 0 (size / 16) =
      lookup_loop-by fs fs' c b name 0 0 (size / 16) short (λ k h. rw (z k) at (entry k h))
        (λ k h. rw (z k) at (inode k h)) in
    look' name
    ∙ ap (λ s. some (lookup_loop fs' c name 0 (s / 16))) size'
    ∙ ap some loops
    ∙ sym (look name)
