-- ===== src/Ffs/Tests/Contents.antt =====
-- Files of the small volume, written beyond their blocks, made and read.
use system_sw.Prelude.{ℕ, ◌+◌, ◌%◌, ◌<◌, ◌≡◌, refl, ◌≢◌, false, some, [], ◌∷◌, arith}
use system_sw.Memory.{Bytes, get32}
use system_sw.Ffs.{Fs}
use system_sw.Ffs.Bitmask.{check_bit}
use system_sw.Ffs.Bitmask.Count.{clear_bits}
use system_sw.Ffs.File.{ReadResult, file_write, file_read}
use system_sw.Ffs.File.Total.{Sized}
use system_sw.Ffs.File.Append.{free_blocks_of, Good}
use system_sw.Ffs.File.Grow.{Grown}
use system_sw.Ffs.File.Grown.{file_write-Grown}
use system_sw.Ffs.Dir.{str_bytes, attached, lookup}
use system_sw.Ffs.Dir.Names.{nul_free}
use system_sw.Ffs.Ops.{created, file_type, create_entry, symlink, follow_link}
use system_sw.Ffs.Ops.Contents.{file_read-create_entry}
use system_sw.Ffs.Ops.Symlink.{follow_link-symlink}
use system_sw.Ffs.Tests.{file}
use system_sw.Ffs.Tests.Ops.{root}
use system_sw.Ffs.Tests.Create.{small, small-Volume, small-Parent, lookup_c, blocks, marked}

free_small : free_blocks_of small ≡ 25
unfolding clear_bits check_bit
free_small = refl

small-Good : Good small 9
unfolding get32 check_bit
small-Good = record {
  volume = small-Volume;
  room = omega arith;
  datablock = (omega arith, refl);
  blocks = marked;
  apart = λ j k hj hk e. omega (arith, blocks j hj, blocks k hk, e);
  own = λ j h e. absurd (omega (arith, blocks j h, e));
}

abbrev text : Bytes
text k = 65 + k % 26

file_write-Grown_example :
    (ppos' : ℕ) × (fs' : Fs) × (file_write small 0 text 700 1500 false ≡ some (700, ppos', fs'))
    × Grown small fs' 9 1500 text 700
    × Sized root (fs'.inode 0) 2200
    × ((k : ℕ) → k ≢ 0 → fs'.inode k ≡ small.inode k)
    × (fs'.inodes ≡ small.inodes)
unfolding get32
file_write-Grown_example =
    file_write-Grown small 0 text 700 1500 false small-Good (omega arith, omega arith) (omega arith)
      (omega arith) (omega (arith, free_small))

file_read-create_entry_example :
    (fs1 : Fs) × (ppos' : ℕ) × (fs2 : Fs) × (out : ReadResult) × (create_entry
        (λ fs k. 7)
        file
        0
        (99 ∷ [])
        0o100644
        small
      ≡ some (created 2, fs1))
    × (file_write fs1 2 text 700 0 false ≡ some (700, ppos', fs2))
    × (file_read fs2 2 (λ k. 0) 1000 0 ≡ some out)
    × (out.already_read ≡ 700)
    × ((k : ℕ) → k < 700 → out.buf k ≡ text k)
    × (lookup fs2 0 (99 ∷ []) ≡ some (attached 2))
unfolding nul_free file_type check_bit
file_read-create_entry_example =
    file_read-create_entry (λ fs k. 7) file small 0 (99 ∷ []) 0o100644 0o100644 0 2 text 700 1000
      (λ k. 0) small-Volume small-Parent refl refl (omega arith) lookup_c (omega arith) refl
      (omega arith) (omega (arith, free_small)) (omega arith) (omega arith)

follow_link-symlink_example :
    (fs' : Fs) × (out : Bytes) × (symlink (λ fs k. 7) file 0 (99 ∷ []) (47 ∷ 97 ∷ []) small
      ≡ some (created 2, fs'))
    × (follow_link 2 fs' ≡ some out)
    × ((k : ℕ) → k < 2 → out k ≡ str_bytes (47 ∷ 97 ∷ []) k)
    × (lookup fs' 0 (99 ∷ []) ≡ some (attached 2))
unfolding nul_free check_bit
follow_link-symlink_example =
    follow_link-symlink (λ fs k. 7) file small 0 (99 ∷ []) (47 ∷ 97 ∷ []) 2 small-Volume
      small-Parent refl (omega arith) lookup_c (omega arith) refl (omega arith)
      (omega (arith, free_small))
