-- ===== src/Ffs/Dir/Add.antt =====
-- `ffs_lookup` behind `add_to_dir`.
use system_sw.Prelude.{
  ℕ, ◌+◌, ◌*◌, ◌/◌, ◌^◌, ◌≤◌, ◌<◌, ◌≡◌, ◌∙◌, refl, sym, ap, ◌≢◌, inl, inr, true, false, some, List,
  arith, ltb, Bool-cases, length,
}
use system_sw.Prelude.Word.{wrap, sub32, wrap_small, sub32_small}
use Prim.Native.Nat.{bit_and}
use system_sw.Memory.{Bytes, copy, byte, get32-byte, copy_inside, copy_outside}
use system_sw.Ffs.{Fs}
use system_sw.Ffs.Inode.{iget}
use system_sw.Ffs.File.Read.{content}
use system_sw.Ffs.File.Overwrite.{fd_block, file_block, file_blocks}
use system_sw.Ffs.File.Done.{WriteDone, file_write-Done, WriteDone-FileOk}
use system_sw.Ffs.Dir.{
  s_ifdir, str_bytes, str_eq, entry_fd, entry_name, add_to_dir, negative, attached, entry_inode,
  lookup_loop, lookup,
}
use system_sw.Ffs.Dir.Names.{nul_free, HoldsName, str_eq_self, str_eq-names}
use system_sw.Ffs.Dir.Search.{Holds, SizeOk}
use system_sw.Ffs.Dir.Loop.{DirOk, some_inj, lookup-loop, WriteDone-SameNumbers}
use system_sw.Ffs.Dir.Entries.{
  SameNumbers, iget-congr, SameEntry, lookup_loop-congr, lookup_loop_none, lookup_loop-append,
  or_else, or_else-negative, lookup_loop_one,
}

-- the entry that `add_to_dir` writes
abbrev new_entry : Bytes → ℕ → List ℕ → Bytes
new_entry junk i_fd name = copy (copy junk 0 (byte i_fd) 4) 4 (str_bytes name) (length name + 1)

new_entry-fd :
    (junk : Bytes) (i_fd : ℕ) (name : List ℕ) (k : ℕ)
    → k < 4
    → new_entry junk i_fd name k ≡ byte i_fd k
new_entry-fd junk i_fd name k h =
    copy_outside (copy junk 0 (byte i_fd) 4) 4 (str_bytes name) (length name + 1) k (inl h)
    ∙ (let z : 0 + k ≡ k = omega arith in rw z at (copy_inside junk 0 (byte i_fd) 4 k h))

new_entry-name :
    (junk : Bytes) (i_fd : ℕ) (name : List ℕ) (k : ℕ)
    → k ≤ length name
    → new_entry junk i_fd name (4 + k) ≡ str_bytes name k
new_entry-name junk i_fd name k h =
    copy_inside (copy junk 0 (byte i_fd) 4) 4 (str_bytes name) (length name + 1) k (omega arith)

-- the number of an inode goes through an entry unchanged
i_fd-number :
    (n : ℕ) → 1 ≤ n → n < 2 ^ 31 → (wrap (sub32 n 1 + 1) ≡ n) × (sub32 (wrap (1 + n)) 1 ≡ n)
i_fd-number n pos small =
    let a = sub32_small n 1 pos (omega arith) in
    let w : wrap (sub32 n 1 + 1) ≡ n =
      wrap_small (sub32 n 1 + 1) (omega (arith, a)) ∙ omega (arith, a) in
    let v = wrap_small (1 + n) (omega arith) in
    (w, rw v (sub32_small (1 + n) 1 (omega arith) (omega arith) ∙ omega arith))

-- what `add_to_dir` of the inode at `r` leaves
pub record Added (fs fs' : Fs) (dir r : ℕ) (name : List ℕ) : Type 0 where
  pub found : lookup fs' dir name ≡ some (attached r)
  pub other_names :
      (a : List ℕ)
      → nul_free a ≡ true
      → length a ≤ 9
      → a ≢ name
      → lookup fs' dir a ≡ lookup fs dir a
  pub size : (fs'.inode dir).i_size ≡ (fs.inode dir).i_size + 16
  pub dir_ok : DirOk fs' dir
  pub number : (fs'.inode dir).i_ino ≡ (fs.inode dir).i_ino
  pub sbi : fs'.sbi ≡ fs.sbi
  pub datablock : (fs'.inode dir).datablock ≡ (fs.inode dir).datablock
  pub table : fs'.disk (fs'.inode dir).datablock ≡ fs.disk (fs.inode dir).datablock
  pub blocks :
      (b : ℕ)
      → b ≢ fd_block fs (fs.inode dir)
      → ((j : ℕ) → j < file_blocks fs (fs.inode dir) → b ≢ file_block fs (fs.inode dir) j)
      → fs'.disk b ≡ fs.disk b
  pub others : (k : ℕ) → k ≢ dir → fs'.inode k ≡ fs.inode k
  pub numbers : SameNumbers fs fs'

-- the entries of a directory with one more behind them
module _ (fs fs' : Fs) (dir r : ℕ) (name : List ℕ) (junk : Bytes) (ok : DirOk fs dir)
    (free : nul_free name ≡ true) (short : length name ≤ 9) (number : 1 ≤ (fs.inode r).i_ino)
    (small : (fs.inode r).i_ino < 2 ^ 31) (listed : iget fs (fs.inode r).i_ino ≡ some r)
    (room : (fs.inode dir).i_size + 16 ≤ 512 * file_blocks fs (fs.inode dir))
    (room31 : (fs.inode dir).i_size + 16 < 2 ^ 31)
    (done : WriteDone fs fs' dir
      (new_entry junk (fs.inode r).i_ino name)
      (fs.inode dir).i_size
      16) where
  abbrev size : ℕ
  size = (fs.inode dir).i_size

  grown : (fs'.inode dir).i_size ≡ size + 16
  grown =
      let e = done.sized.i_size in
      let t : ltb (size + 16) size ≡ false = ground arith in e ∙ rw t refl

  grown-SizeOk : SizeOk fs' dir
  grown-SizeOk = record { agree = done.sized.file_size; small = omega (arith, grown) }

  grown-is_dir : bit_and (fs'.inode dir).i_mode s_ifdir ≢ 0
  grown-is_dir = rw (done.sized.i_mode) ok.is_dir

  grown-DirOk : DirOk fs' dir
  grown-DirOk =
      let (table, file) = WriteDone-FileOk fs fs' dir _ size 16 ok.file done in
      let e = ok.entries in
      record {
        is_dir = grown-is_dir;
        size = grown-SizeOk;
        file = file;
        within = rw (table, grown) room;
        entries = omega (arith, grown);
      }

  -- bytes that hold the directory before and after
  module _ (b c : Bytes) (holds : Holds fs dir b) (holds' : Holds fs' dir c) where
    old_entries : (k : ℕ) → k < size / 16 → SameEntry c (0 + k) b (0 + k)
    old_entries k h j l =
        let p : 16 * (0 + k) + j ≡ 16 * k + j = omega arith in
        rw p (
          holds'.inside (16 * k + j) (omega (arith, grown))
          ∙ done.wrote.bytes (16 * k + j) (omega arith)
          ∙ copy_outside (content fs (fs.inode dir)) size _ 16 (16 * k + j) (inl (omega arith))
          ∙ sym (holds.inside (16 * k + j) (omega arith)))

    last_entry : (j : ℕ) → j < 16 → c (size + j) ≡ new_entry junk (fs.inode r).i_ino name j
    last_entry j l =
        holds'.inside (size + j) (omega (arith, grown))
        ∙ done.wrote.bytes (size + j) (omega arith)
        ∙ copy_inside (content fs (fs.inode dir)) size _ 16 j l

    abbrev count : ℕ
    count = size / 16

    place : 16 * count ≡ size
    place = let e = ok.entries in omega arith

    last_name : HoldsName (entry_name c (0 + count)) name
    last_name k h =
        let p : 16 * (0 + count) + 4 + k ≡ size + (4 + k) = omega (arith, place) in
        ap c p ∙ last_entry (4 + k) (omega arith) ∙ new_entry-name junk (fs.inode r).i_ino name k h

    last_inode : entry_inode fs' c (0 + count) ≡ some r
    unfolding entry_inode
    last_inode =
        let i_ino = (fs.inode r).i_ino in
        let p : 16 * (0 + count) ≡ size = omega (arith, place) in
        let e : entry_fd c (0 + count) ≡ i_ino = rw p (
          get32-byte c size i_ino (omega arith)
            (λ k l. last_entry k (omega arith) ∙ new_entry-fd junk i_ino name k l)) in
        rw (e, (i_fd-number i_ino number small).1)
          (iget-congr fs fs' i_ino (WriteDone-SameNumbers fs fs' dir size 16 _ done) ∙ listed)

    numbers : SameNumbers fs fs'
    numbers = WriteDone-SameNumbers fs fs' dir size 16 _ done

    loop_found :
        lookup_loop fs b name 0 count ≡ negative → lookup_loop fs' c name 0 (count + 1) ≡ attached r
    loop_found none_yet =
        lookup_loop-append fs' c name 0 count 1
        ∙ ap (λ x. or_else x (lookup_loop fs' c name (0 + count) 1))
            (lookup_loop-congr fs fs' c b name 0 0 count numbers short old_entries ∙ none_yet)
        ∙ lookup_loop_one fs' c name (0 + count) r (str_eq_self _ name last_name) last_inode

    loop_other :
        (a : List ℕ)
        → nul_free a ≡ true
        → length a ≤ 9
        → a ≢ name
        → lookup_loop fs' c a 0 (count + 1) ≡ lookup_loop fs b a 0 count
    loop_other a fa sa ne =
        let no : str_eq (entry_name c (0 + count)) a ≡ false =
          elim (Bool-cases (str_eq (entry_name c (0 + count)) a)) [
            | inl e ↦ absurd (ne (sym (str_eq-names _ name a last_name free fa e)))
            | inr e ↦ e
          ] in
        lookup_loop-append fs' c a 0 count 1
        ∙ ap (or_else (lookup_loop fs' c a 0 count)) (
            lookup_loop_none fs' c a (0 + count) 1
              (λ k l. let z : 0 + count + k ≡ 0 + count = omega arith in rw z no))
        ∙ or_else-negative (lookup_loop fs' c a 0 count)
        ∙ lookup_loop-congr fs fs' c b a 0 0 count numbers sa old_entries

  done-Added : lookup fs dir name ≡ some negative → Added fs fs' dir r name
  done-Added none_yet =
      let (b, read, holds, look) = lookup-loop fs dir ok.size ok.is_dir in
      let (c, read', holds', look') = lookup-loop fs' dir grown-SizeOk grown-is_dir in
      let n : (fs'.inode dir).i_size / 16 ≡ size / 16 + 1 = omega (arith, grown) in
      let neg = some_inj _ negative (sym (look name) ∙ none_yet) in
      record {
        found = look' name ∙ rw n (ap some (loop_found b c holds holds' neg));
        other_names = λ a fa sa ne.
            look' a ∙ rw n (ap some (loop_other b c holds holds' a fa sa ne)) ∙ sym (look a);
        size = grown;
        dir_ok = grown-DirOk;
        number = done.sized.i_ino;
        sbi = done.wrote.sbi;
        datablock = done.sized.datablock;
        table = (WriteDone-FileOk fs fs' dir _ size 16 ok.file done).0;
        blocks = done.wrote.others;
        others = done.others;
        numbers = numbers b c holds holds';
      }

-- `add_to_dir` of an inode of the list, by a name that `ffs_lookup` does not find, into a directory
-- that has room for the entry in its blocks ends. `ffs_lookup` then finds the inode by the name, and by
-- every other name what it found before; the directory is 16 bytes longer and again one of whole entries, and
-- no other inode changes, no block but the directory's and its descriptor's, and no mask.
-- Names have at most nine characters, none of them 0.
pub lookup-add_to_dir :
    (junk : Fs → Bytes) (fs : Fs) (dir r : ℕ) (name : List ℕ)
    → DirOk fs dir
    → nul_free name ≡ true
    → length name ≤ 9
    → 1 ≤ (fs.inode r).i_ino
    → (fs.inode r).i_ino < 2 ^ 31
    → iget fs (fs.inode r).i_ino ≡ some r
    → lookup fs dir name ≡ some negative
    → (fs.inode dir).i_size + 16 ≤ 512 * file_blocks fs (fs.inode dir)
    → (fs.inode dir).i_size + 16 < 2 ^ 31
    → (fs' : Fs) × (add_to_dir junk dir r name fs ≡ some fs') × Added fs fs' dir r name
unfolding add_to_dir
lookup-add_to_dir junk fs dir r name ok free short number small listed none_yet room room31 =
    let i_ino = (fs.inode r).i_ino in
    let (p, fs', run, done) =
      file_write-Done fs dir (new_entry (junk fs) i_ino name) 16 0 true ok.file room in
    rw ((i_fd-number i_ino number small).0, run)
      (
        fs',
        refl,
        done-Added fs fs' dir r name (junk fs) ok free short number small listed room room31 done
            none_yet,
      )
