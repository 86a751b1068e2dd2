-- ===== src/Ffs/Tests/Create.antt =====
-- A name made in a small volume.
use system_sw.Prelude.{
  ℕ, zero, suc, ◌+◌, ◌/◌, ◌%◌, ◌<◌, ◌≡◌, refl, ◌≢◌, true, false, some, [], ◌∷◌, arith, ◌==◌,
  if◌then◌else◌,
}
use system_sw.Prelude.Word.{wrap, sub32, positive}
use system_sw.Memory.{Bytes, copy, get32}
use system_sw.Ffs.{Fs}
use system_sw.Ffs.Bitmask.{check_bit}
use system_sw.Ffs.Volume.{Volume, Marked}
use system_sw.Ffs.Ops.{created, file_type, create_entry}
use system_sw.Ffs.Ops.Parent.{entry_number, Parent}
use system_sw.Ffs.Ops.Created.{Created, create_entry-Created}
use system_sw.Ffs.File.Read.{content}
use system_sw.Ffs.Inode.{iget, find_inode}
use system_sw.Ffs.File.{file_read, read_loop, read_all}
use system_sw.Ffs.File.Overwrite.{fd_block, file_block}
use system_sw.Ffs.Dir.{str_eq, entry_inode, or_next, read_dir, negative, lookup_loop, lookup}
use system_sw.Ffs.Dir.Names.{nul_free}
use system_sw.Ffs.Tests.Ops.{entries, root}
use system_sw.Ffs.Tests.{fd_mask, disk, file, sbi}

-- blocks 0 to 11 and 20 to 22 are taken
abbrev pub mask : Bytes
mask k = if k == 0 then 0xff else if k == 1 then 0x0f else if k == 2 then 0x70 else 0

abbrev pub small : Fs
small = record {
  disk = λ n. if n == 1 then mask else if n == 20 then entries else disk n;
  sbi = record sbi { b_bitmask = mask };
  inode = λ r. if r == 0 then root else file;
  fresh = 2;
  inodes = 1 ∷ 0 ∷ [];
}

pub small-Volume : Volume small
unfolding check_bit
small-Volume = record {
  layout = record {
    b_len = omega arith;
    b_bits = omega arith;
    fd_len = omega arith;
    fd_bits = omega arith;
    descriptors = omega arith;
    blocks = omega arith;
    files = omega arith;
  };
  b_mask = record {
    bytes = λ k. ground arith;
    on_disk =
        λ k l. let q : k / 512 ≡ 0 = omega arith in let r : k % 512 ≡ k = omega arith in rw (q, r);
    room = omega arith;
    small = omega arith;
  };
  fd_mask = record {
    bytes = λ k. ground arith;
    on_disk =
        λ k l. let q : k / 512 ≡ 0 = omega arith in let r : k % 512 ≡ k = omega arith in rw (q, r);
    room = omega arith;
    small = omega arith;
  };
  service = service;
}
  where
    service : (k : ℕ) → k < 4 → check_bit mask k ≡ true
    service zero h = refl
    service (suc zero) h = refl
    service (suc (suc zero)) h = refl
    service (suc (suc (suc zero))) h = refl
    service (suc (suc (suc (suc k)))) h = absurd (omega arith)

pub blocks : (j : ℕ) → j < 3 → file_block small root j ≡ 20 + j
unfolding get32 sub32
blocks zero h = refl
blocks (suc zero) h = refl
blocks (suc (suc zero)) h = refl
blocks (suc (suc (suc j))) h = absurd (omega arith)

pub marked : (j : ℕ) → j < 3 → Marked small (file_block small root j)
unfolding get32 sub32 check_bit
marked zero h = (omega arith, refl)
marked (suc zero) h = (omega arith, refl)
marked (suc (suc zero)) h = (omega arith, refl)
marked (suc (suc (suc j))) h = absurd (omega arith)

taken :
    (k i : ℕ) → k < 2 → check_bit fd_mask i ≡ false → entry_number (content small root) k ≢ 1 + i
unfolding get32 sub32 wrap check_bit
taken zero zero h c e = absurd (cc)
taken zero (suc i) h c e = absurd (omega (arith, e))
taken (suc zero) zero h c e = absurd (omega (arith, e))
taken (suc zero) (suc zero) h c e = absurd (cc)
taken (suc zero) (suc (suc i)) h c e = absurd (omega (arith, e))
taken (suc (suc k)) i h c e = absurd (omega arith)

pub small-Parent : Parent small 0
unfolding get32 sub32 check_bit
small-Parent = record {
  ok = record {
    is_dir = omega arith;
    size = record { agree = refl; small = omega arith };
    file = record {
      small = omega arith;
      apart = λ j k hj hk e. omega (arith, blocks j hj, blocks k hk, e);
      not_datablock = λ j h e. absurd (omega (arith, blocks j h, e));
      not_fd = λ j h e.
          absurd (let f : fd_block small root ≡ 3 = fd_at in omega (arith, blocks j h, e, f));
      datablock = λ e. absurd (let f : fd_block small root ≡ 3 = fd_at in omega (arith, e, f));
    };
    within = omega arith;
    entries = refl;
  };
  owns = record {
    datablock = (omega arith, refl);
    blocks = marked;
    number = omega arith;
    listed = omega arith;
  };
  older = omega arith;
  list = (omega arith, (omega arith, tt));
  room = omega arith;
  room31 = omega arith;
  entries = taken;
}
  where
    fd_at : fd_block small root ≡ 3
    fd_at = refl

pub lookup_c : lookup small 0 (99 ∷ []) ≡ some negative
unfolding lookup read_dir read_all file_read read_loop lookup_loop str_eq entry_inode or_next iget
    find_inode copy get32 sub32 wrap positive
lookup_c = refl

create_entry-Created_example :
    (i j : ℕ) × (fs' : Fs) × (create_entry (λ fs k. 7) file 0 (99 ∷ []) 0o100644 small
      ≡ some (created 2, fs'))
    × Created small fs' 0 (99 ∷ []) 0o100644 0 i j
unfolding nul_free file_type check_bit
create_entry-Created_example =
    create_entry-Created (λ fs k. 7) file small 0 (99 ∷ []) 0o100644 0o100644 0 2 12 small-Volume
      small-Parent refl refl (omega arith) lookup_c (omega arith) refl (omega arith) refl
