-- ===== src/Mkfs.antt =====
-- fs/mkfs.ffs/mkfs.c: the image that mkfs.ffs writes over a file of `size` bytes. `open`, `lseek`
-- and `write` are taken to succeed; a file is its bytes and the position in it.
pub mod Layers
pub mod Image
pub mod Readback
pub mod Fresh
pub mod Contents
pub mod Written
pub mod Taken
pub mod Layout
mod Tests
use system_sw.Prelude.{
  ℕ, zero, suc, ◌+◌, ◌-◌, ◌*◌, ◌/◌, ◌%◌, ◌^◌, ◌≤◌, ◌<◌, min, ◌≡◌, ◌∙◌, refl, sym, ap, subst, ◌≢◌,
  ◌↔◌, ◌⊎◌, inl, inr, Bool, true, false, not, ◌&&◌, ◌||◌, Option, none, some, List, [], ◌∷◌, ◌++◌,
  map, arith, ltb, leb, ◌==◌, if◌then◌else◌, ltb→lt, lt→ltb, le→not_ltb, le→leb, lt→not_leb,
  Bool-cases, ◌>>=◌, length, length-append,
}
use system_sw.Prelude.Word.{
  wrap, sub32, positive, wrap_small, sub32_small, sub32_neg, positive_small, not_positive_of_neg,
  positive-sub32,
}
use system_sw.Memory.{Bytes, copy, byte}
use system_sw.Ffs.{block_size, fd_per_block, ffs_reg, ffs_dir, size_fd, size_entry, Fd}
use system_sw.Ffs.Inode.{fd_bytes}
use system_sw.Ffs.Dir.{str_bytes}
use system_sw.Ffs.Mount.{ffs_magic, MetaInfo}

pub record File : Type 0 where
  pub bytes : Bytes
  pub pos : ℕ

abbrev pub lseek : ℕ → File → File
lseek pos f = record f { pos = pos }

abbrev pub write : Bytes → ℕ → File → File
write src n f = record { bytes = copy f.bytes f.pos src n; pos = f.pos + n }

-- The layout. `size * 0.005` is a double, divided by 16 and cut off: 0.005 is rounded up by less than
-- 2 ^ -55 of it, and so for a size of 32 bits this is `size / 3200`.
pub layout : ℕ → MetaInfo
layout size =
    let block_count = size / block_size in
    let b_bm_size = block_count / 8 in
    let max_file_count = size / 3200 in
    let fd_bm_size = (max_file_count + 7) / 8 in
    record {
      magic = ffs_magic;
      block_count = block_count;
      block_size = block_size;
      fd_blocks = (max_file_count + fd_per_block - 1) / fd_per_block;
      max_file_count = max_file_count;
      b_bm_blocks = (b_bm_size + block_size - 1) / block_size;
      fd_bm_blocks = (fd_bm_size + block_size - 1) / block_size;
    }

pub service_blocks : MetaInfo → ℕ
service_blocks info = 1 + info.b_bm_blocks + info.fd_bm_blocks + info.fd_blocks

-- the bytes of a `struct ffs_metainfo_sector`, seven words
pub metainfo_bytes : MetaInfo → Bytes
metainfo_bytes info k =
    if ltb k 4
    then byte info.magic k
    else if ltb k 8
    then byte info.block_count (k - 4)
    else if ltb k 12
    then byte info.block_size (k - 8)
    else if ltb k 16
    then byte info.fd_blocks (k - 12)
    else if ltb k 20
    then byte info.max_file_count (k - 16)
    else if ltb k 24
    then byte info.b_bm_blocks (k - 20)
    else byte info.fd_bm_blocks (k - 24)

-- `BIT_MASK` as a byte
abbrev pub bit_mask : ℕ → ℕ
bit_mask x = if leb 32 x then 255 else (2 ^ x - 1) % 256

abbrev pub one_byte : ℕ → Bytes
one_byte b k = b

-- the loop over the bits of taken blocks: `c` of them, whole bytes first. Each round takes a bit or
-- more, and `c` rounds are enough.
pub bitmap_loop : ℕ → ℕ → File → File
bitmap_loop zero c f = f
bitmap_loop (suc n) c f =
    let rest =
      if leb 8 c
      then bitmap_loop n (c - 8) (write (one_byte (bit_mask 8)) 1 f)
      else bitmap_loop n 0 (write (one_byte (bit_mask c)) 1 f) in
    if c == 0 then f else rest

-- the metainfo and the two bit masks
pub write_masks : MetaInfo → File → File
write_masks info f =
    let c = service_blocks info + 6 in
    let f1 = write (metainfo_bytes info) 28 (lseek 0 f) in
    let f2 = bitmap_loop c c (lseek block_size f1) in
    write (one_byte (bit_mask 3)) 1 (lseek (block_size * (1 + info.b_bm_blocks)) f2)

-- the descriptors of the root directory and of two files
abbrev pub new_fd : ℕ → ℕ → ℕ → Fd
new_fd type datablock_id file_size = record {
  type = type;
  datablock_id = datablock_id;
  link_count = 1;
  file_size = file_size;
}

pub write_fds : MetaInfo → File → File
write_fds info f =
    let s = service_blocks info in
    let f1 = lseek (block_size * (1 + info.b_bm_blocks + info.fd_bm_blocks)) f in
    let f2 = write (fd_bytes (new_fd ffs_dir s (2 * size_entry))) size_fd f1 in
    let f3 = write (fd_bytes (new_fd ffs_reg (s + 1) 3)) size_fd f2 in
    write (fd_bytes (new_fd ffs_reg (s + 2) 4)) size_fd f3

-- a datablock: a count of one, and the block's number
pub write_datablock : ℕ → ℕ → File → File
write_datablock at_block number f =
    write (byte number) 4 (write (byte 1) 4 (lseek (block_size * at_block) f))

pub write_datablocks : ℕ → File → File
write_datablocks s f =
    write_datablock (s + 2) (s + 5) (write_datablock (s + 1) (s + 4) (write_datablock s (s + 3) f))

abbrev pub hello_txt : List ℕ
hello_txt = 104 ∷ 101 ∷ 108 ∷ 108 ∷ 111 ∷ 46 ∷ 116 ∷ 120 ∷ 116 ∷ []

abbrev pub world_txt : List ℕ
world_txt = 119 ∷ 111 ∷ 114 ∷ 108 ∷ 100 ∷ 46 ∷ 116 ∷ 120 ∷ 116 ∷ []

-- `file_entry` with its members set; the padding behind the name is what was there
pub set_entry : Bytes → ℕ → List ℕ → Bytes
set_entry e i_fd name = copy (copy e 0 (byte i_fd) 4) 4 (str_bytes name) (length name + 1)

-- the root directory's entries and the two files' texts; `junk` is the uninitialised entry
pub write_contents : Bytes → ℕ → File → File
write_contents junk s f =
    let e1 = set_entry junk 2 hello_txt in
    let e2 = set_entry e1 3 world_txt in
    let f1 = write e2 size_entry (write e1 size_entry (lseek (block_size * (s + 3)) f)) in
    let f2 = write (str_bytes (52 ∷ 50 ∷ 10 ∷ [])) 3 (lseek (block_size * (s + 4)) f1) in
    write (str_bytes (98 ∷ 108 ∷ 97 ∷ 10 ∷ [])) 4 (lseek (block_size * (s + 5)) f2)

pub mkfs : Bytes → ℕ → Bytes → Bytes
mkfs junk size image =
    let info = layout size in
    let s = service_blocks info in
    let f = write_masks info (record { bytes = image; pos = 0 }) in
    let done = write_contents junk s (write_datablocks s (write_fds info f)) in done.bytes

-- `file_size`, from the results of `stat`: whether it failed, the kinds of file, and the size.
-- `none` is its negative result, at which `main` ends.
pub data FileKind : Type 0 where
  no_file : FileKind
  regular : ℕ → FileKind
  block_device : FileKind
  other_file : FileKind

pub file_size : FileKind → Option ℕ
file_size no_file = none
file_size (regular size) = some (wrap size)
file_size block_device = none
file_size other_file = none

-- `main`, with the file that its argument names, if there is one: the file's new bytes, or the exit
-- with -1
pub mkfs_main : Bytes → Option FileKind → Bytes → Option Bytes
mkfs_main junk none image = none
mkfs_main junk (some kind) image = file_size kind >>= (λ size. some (mkfs junk size image))
