-- ===== src/Ffs/Ops/Contents.antt =====
-- A file that is made, written and read.
use system_sw.Prelude.{
  ℕ, ◌+◌, ◌/◌, ◌%◌, ◌^◌, ◌≤◌, ◌<◌, ◌≡◌, ◌∙◌, refl, sym, ap, subst, ◌≢◌, inl, inr, true, false, some,
  List, arith, ltb, ◌==◌, if◌then◌else◌, Bool-cases, length,
}
use system_sw.Memory.{Bytes}
use system_sw.Ffs.{InodeInfo, Fs}
use system_sw.Ffs.Bitmask.{check_bit}
use system_sw.Ffs.Bitmask.Count.{clear_bits, clear_bit, clear_bits-take}
use system_sw.Ffs.File.{word, ReadResult, file_write, file_read}
use system_sw.Ffs.File.Read.{content, file_read-ReadRest}
use system_sw.Ffs.File.Total.{Sized}
use system_sw.Ffs.File.Overwrite.{file_block}
use system_sw.Ffs.File.Append.{count_at, free_blocks_of, Good}
use system_sw.Ffs.File.Grow.{bytes_at, blocks_for, Grown}
use system_sw.Ffs.File.Grown.{file_write-Grown}
use system_sw.Ffs.Dir.{negative, attached, lookup}
use system_sw.Ffs.Dir.Names.{nul_free}
use system_sw.Ffs.Dir.Entries.{SameNumbers, entry_inode-congr}
use system_sw.Ffs.Dir.Kept.{lookup-kept}
use system_sw.Ffs.Volume.{Volume, Marked}
use system_sw.Ffs.Ops.{created, file_type, create_entry}
use system_sw.Ffs.Ops.Parent.{Parent}
use system_sw.Ffs.Ops.Created.{Created, create_entry-Created}

-- the new file `r` with the `len` bytes of `buf`, in the state behind the write
pub record Holding (fs fs' : Fs) (dir r : ℕ) (buf : Bytes) (len : ℕ) : Type 0 where
  pub i_size : (fs'.inode r).i_size ≡ len
  pub file_size : (fs'.inode r).fd.file_size ≡ len
  pub bytes : (k : ℕ) → k < len → content fs' (fs'.inode r) k ≡ buf k
  pub names : (a : List ℕ) → length a ≤ 9 → lookup fs' dir a ≡ lookup fs dir a
  pub volume : Volume fs'

-- a file that was just made, written
module _ (fs fs1 : Fs) (dir mode type i j : ℕ) (name : List ℕ) (older : dir < fs.fresh)
    (made : Created fs fs1 dir name mode type i j) where
  new_Marked : Marked fs1 j
  new_Marked = (rw (made.start) (made.behind), let s = made.block_bit.sets j in ground (arith, s))

  no_count : count_at fs1 j ≡ 0
  no_count = ap (λ d. word (fs1.disk d) 0) (sym made.datablock) ∙ made.no_blocks

  new_Good : Good fs1 j
  new_Good = record {
    volume = made.volume;
    room = rw no_count (omega arith);
    datablock = new_Marked;
    blocks = λ k h. absurd (omega (arith, no_count));
    apart = λ k l h g e. absurd (omega (arith, no_count));
    own = λ k h e. absurd (omega (arith, no_count));
  }

  -- the write changes none of the directory's blocks
  module _ (fs2 : Fs) (buf : Bytes) (len : ℕ) (g : Grown fs1 fs2 j 0 buf len)
      (sized : Sized (fs1.inode fs.fresh) (fs2.inode fs.fresh) (0 + len))
      (others : (k : ℕ) → k ≢ fs.fresh → fs2.inode k ≡ fs1.inode k)
      (list : fs2.inodes ≡ fs1.inodes) where
    kept_block : (b : ℕ) → Marked fs1 b → b ≢ j → fs2.disk b ≡ fs1.disk b
    kept_block b m ne = g.others b m ne (λ k h. absurd (omega (arith, no_count)))

    kept_dir : fs2.inode dir ≡ fs1.inode dir
    kept_dir = others dir (omega arith)

    kept_bytes :
        (k : ℕ)
        → k < (fs1.inode dir).i_size
        → content fs2 (fs1.inode dir) k ≡ content fs1 (fs1.inode dir) k
    kept_bytes k h =
        let w = made.dir_ok.within in
        let table = kept_block (fs1.inode dir).datablock made.owns.datablock made.apart in
        let q = k / 512 in
        let named : content fs2 (fs1.inode dir) k
            ≡ fs2.disk (file_block fs1 (fs1.inode dir) q) (k % 512) =
          λ x. fs2.disk (word (table x) (k / 512 + 1)) (k % 512) in
        named
        ∙ ap (λ x. x (k % 512))
            (kept_block _ (made.owns.blocks q (omega arith)) (made.blocks_apart q (omega arith)))

    kept_numbers : SameNumbers fs1 fs2
    kept_numbers = record {
      list = list;
      number = λ k. elim (Bool-cases (k == fs.fresh)) [
        | inl e ↦
            let q : k ≡ fs.fresh = ground arith in
            subst (λ x. (fs2.inode x).i_ino ≡ (fs1.inode x).i_ino) (sym q) (sized.i_ino)
        | inr e ↦ ap (λ i. i.i_ino) (others k (ground arith))
      ];
    }

    Grown-Holding : Holding fs1 fs2 dir fs.fresh buf len
    Grown-Holding =
        let z : 0 + len ≡ len = omega arith in
        let no_less : ltb (0 + len) 0 ≡ false = ground arith in
        let size : (fs2.inode fs.fresh).i_size ≡ len =
          sized.i_size
          ∙ ap (λ s. if ltb (0 + len) s then s else 0 + len) made.i_size
          ∙ rw no_less z in
        let db : (fs2.inode fs.fresh).datablock ≡ j = sized.datablock ∙ made.datablock in
        record {
          i_size = size;
          file_size = sized.file_size ∙ size;
          bytes = λ k h.
              let y : 0 + k ≡ k = omega arith in
              ap (λ d. bytes_at fs2 d k) db ∙ ap (bytes_at fs2 j) (sym y) ∙ g.written k h;
          names = λ a short.
              lookup-kept fs1 fs2 dir a made.dir_ok kept_dir kept_bytes
                (λ k h.
                  entry_inode-congr (content fs1 (fs1.inode dir)) (content fs1 (fs1.inode dir)) k k
                    (λ x l. refl) fs1 fs2 kept_numbers)
                short;
          volume = g.good.volume;
        }

-- a new file, written from its beginning
pub file_write-Holding :
    (fs fs1 : Fs) (dir mode type i j : ℕ) (name : List ℕ) (buf : Bytes) (len : ℕ)
    → dir < fs.fresh
    → Created fs fs1 dir name mode type i j
    → blocks_for len ≤ 127
    → blocks_for len + 1 ≤ free_blocks_of fs
    → (ppos' : ℕ) × (fs2 : Fs) × (file_write fs1 fs.fresh buf len 0 false ≡ some (len, ppos', fs2))
      × Holding fs1 fs2 dir fs.fresh buf len
file_write-Holding fs fs1 dir mode type i j name buf len older made room free =
    let z : 0 + len ≡ len = omega arith in
    let below = made.fd_bit.below in
    let files = made.files in
    let ino = made.i_ino in
    let db = made.datablock in
    let taken : free_blocks_of fs1 + 1 ≡ free_blocks_of fs =
      ap (λ n. clear_bits fs1.sbi.b_bitmask n + 1) made.block_count
      ∙ clear_bits-take fs.sbi.b_bitmask fs1.sbi.b_bitmask fs.sbi.block_count j made.block_bit.below
          made.block_bit.was_clear made.block_bit.sets in
    let good = new_Good fs fs1 dir mode type i j name older made in
    let (p, fs2, run, grown, sized, others, list) =
      file_write-Grown fs1 fs.fresh buf len 0 false (subst (Good fs1) (sym db) good)
        (omega (arith, ino), omega (arith, ino, files, below)) (omega arith) (rw z room)
        (rw z (omega (arith, taken))) in
    (
      p,
      fs2,
      run,
      Grown-Holding fs fs1 dir mode type i j name older made fs2 buf len
          (subst (λ d. Grown fs1 fs2 d 0 buf len) db grown) sized others list,
    )

-- A file that `create_entry` makes, `file_write` fills from its beginning, and `file_read` reads with
-- room for all of it, gives back the bytes that were written, and as many; `ffs_lookup` finds it by its
-- name. The conditions are those of `create_entry-Created`, a free descriptor, and blocks enough for the
-- datablock and the bytes, which are at most 127 blocks.
pub file_read-create_entry :
    (junk : Fs → Bytes) (blank : InodeInfo) (fs : Fs) (dir : ℕ) (name : List ℕ)
    (mode mode' type free_fd : ℕ) (buf : Bytes) (len max : ℕ) (into : Bytes)
    → Volume fs
    → Parent fs dir
    → file_type mode ≡ some (mode', type)
    → nul_free name ≡ true
    → length name ≤ 9
    → lookup fs dir name ≡ some negative
    → free_fd < fs.sbi.max_file_count
    → check_bit fs.sbi.fd_bitmask free_fd ≡ false
    → blocks_for len ≤ 127
    → blocks_for len + 1 ≤ free_blocks_of fs
    → len ≤ max
    → max < 2 ^ 31
    → let r = fs.fresh in
      (fs1 : Fs) × (ppos' : ℕ) × (fs2 : Fs) × (out : ReadResult) × (create_entry junk blank dir name
          mode fs
        ≡ some (created r, fs1))
      × (file_write fs1 r buf len 0 false ≡ some (len, ppos', fs2))
      × (file_read fs2 r into max 0 ≡ some out)
      × (out.already_read ≡ len)
      × ((k : ℕ) → k < len → out.buf k ≡ buf k)
      × (lookup fs2 dir name ≡ some (attached r))
file_read-create_entry junk blank fs dir name mode mode' type free_fd buf len max into v p known
      free short none_yet hf cf room enough fits small =
    let (b, below, clear) = clear_bit fs.sbi.b_bitmask fs.sbi.block_count (omega arith) in
    let (i, j, fs1, run1, made) =
      create_entry-Created junk blank fs dir name mode mode' type free_fd b v p known free short
        none_yet hf cf below clear in
    let (ppos, fs2, run2, h) =
      file_write-Holding fs fs1 dir mode' type i j name buf len p.older made room enough in
    let size = h.i_size in
    let (out, run3, rest) =
      file_read-ReadRest fs2 fs.fresh into max 0 (omega (arith, size)) (omega arith)
        (omega (arith, size)) small (inl refl) in
    let n : out.already_read ≡ len = let c = rest.count in omega (arith, size, c) in
    (
      fs1,
      ppos,
      fs2,
      out,
      run1,
      run2,
      run3,
      n,
      (λ k l.
          let z : 0 + k ≡ k = omega arith in
          rest.bytes k (rw n l) ∙ ap (content fs2 (fs2.inode fs.fresh)) z ∙ h.bytes k l),
      h.names name short ∙ made.found,
    )
