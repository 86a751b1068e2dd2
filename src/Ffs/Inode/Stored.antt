-- ===== src/Ffs/Inode/Stored.antt =====
-- A descriptor that `write_inode` puts on the disk is read back, and the others stay.
use system_sw.Prelude.{
  ℕ, ◌+◌, ◌-◌, ◌*◌, ◌/◌, ◌%◌, ◌^◌, ◌≤◌, ◌<◌, ◌≡◌, ◌∙◌, refl, ◌≢◌, inl, inr, true, arith, ltb, ◌==◌,
  ltb→lt, Bool-cases,
}
use system_sw.Prelude.Word.{sub32, sub32_small}
use system_sw.Memory.{Bytes, at, copy, get32, bytes_sum, copy_inside, copy_outside}
use system_sw.Ffs.{Fd, Fs, fd_list_block, write_block}
use system_sw.Ffs.Inode.{fd_bytes, read_fd, write_inode}

-- the descriptor with index `i`, where `ffs_read_root` finds it
unfoldable pub stored_fd : Fs → ℕ → Fd
unfolding read_fd
stored_fd fs i = read_fd (at (fs.disk (fd_list_block fs.sbi + i / 32)) (16 * (i % 32)))

pub record Words (fd : Fd) : Type 0 where
  pub type : fd.type < 2 ^ 32
  pub datablock_id : fd.datablock_id < 2 ^ 32
  pub link_count : fd.link_count < 2 ^ 32
  pub file_size : fd.file_size < 2 ^ 32

read_fd-congr : (f g : Bytes) → ((k : ℕ) → k < 16 → f k ≡ g k) → read_fd f ≡ read_fd g
unfolding read_fd get32
read_fd-congr f g e =
    ground
      (arith, e 0, e 1, e 2, e 3, e 4, e 5, e 6, e 7, e 8, e 9, e 10, e 11, e 12, e 13, e 14, e 15)

read_fd-fd_bytes : (fd : Fd) → Words fd → read_fd (fd_bytes fd) ≡ fd
unfolding read_fd fd_bytes get32
read_fd-fd_bytes fd w = ground (
  arith,
  bytes_sum fd.type w.type,
  bytes_sum fd.datablock_id w.datablock_id,
  bytes_sum fd.link_count w.link_count,
  bytes_sum fd.file_size w.file_size,
)

-- bytes that hold a descriptor
pub read_fd_lem :
    (f : Bytes) (fd : Fd) → Words fd → ((k : ℕ) → k < 16 → f k ≡ fd_bytes fd k) → read_fd f ≡ fd
read_fd_lem f fd w e = read_fd-congr f (fd_bytes fd) e ∙ read_fd-fd_bytes fd w

-- a disk whose list of descriptors begins at block `base`, with descriptor `i` written
abbrev put_fd : (ℕ → Bytes) → ℕ → ℕ → Fd → ℕ → Bytes
put_fd disk base i fd =
    write_block disk (base + i / 32) (copy (disk (base + i / 32)) (16 * (i % 32)) (fd_bytes fd) 16)

module _ (disk : ℕ → Bytes) (base i : ℕ) (fd : Fd) where
  put_fd_self : Words fd → read_fd (at (put_fd disk base i fd (base + i / 32)) (16 * (i % 32))) ≡ fd
  put_fd_self w =
      let b : (base + i / 32 == base + i / 32) ≡ true = ground arith in
      rw b (
        read_fd-congr _ (fd_bytes fd)
          (λ k l. copy_inside (disk (base + i / 32)) (16 * (i % 32)) (fd_bytes fd) 16 k l)
        ∙ read_fd-fd_bytes fd w)

  put_fd-other :
      (j : ℕ)
      → j ≢ i
      → read_fd (at (put_fd disk base i fd (base + j / 32)) (16 * (j % 32)))
        ≡ read_fd (at (disk (base + j / 32)) (16 * (j % 32)))
  put_fd-other j h = elim (Bool-cases (base + j / 32 == base + i / 32)) [
    | inl e ↦
        let q : base + j / 32 ≡ base + i / 32 = ground arith in
        rw (e, q)
          (read_fd-congr _ _ (λ k l.
            copy_outside (disk (base + i / 32)) (16 * (i % 32)) (fd_bytes fd) 16 (16 * (j % 32) + k)
              (elim (Bool-cases (ltb (j % 32) (i % 32))) [
                | inl x ↦ inl (let y = ltb→lt _ _ x in omega arith)
                | inr x ↦ inr (let y : i % 32 ≤ j % 32 = ground arith in omega arith)
              ])))
    | inr e ↦ rw e
  ]

write_inode-disk :
    (fs : Fs) (r i : ℕ)
    → (fs.inode r).i_ino ≡ i + 1
    → i < 2 ^ 31
    → (write_inode r fs).disk ≡ put_fd fs.disk (fd_list_block fs.sbi) i (fs.inode r).fd
unfolding write_inode
write_inode-disk fs r i e hi =
    let x : sub32 (i + 1) 1 ≡ i = sub32_small (i + 1) 1 (omega arith) (omega arith) ∙ omega arith in
    let p : 16 * i - i / 32 * 16 * 32 ≡ 16 * (i % 32) = omega arith in rw (e, x, p)

write_inode-sbi : (fs : Fs) (r : ℕ) → (write_inode r fs).sbi ≡ fs.sbi
unfolding write_inode
write_inode-sbi fs r = refl

-- `ffs_write_inode` of an inode with number `i + 1` stores its descriptor at index `i` of the list on
-- the disk, leaves the descriptors at every other index, and every block but the one that it is in.
pub write_inode-stored_fd :
    (fs : Fs) (r i : ℕ)
    → (fs.inode r).i_ino ≡ i + 1
    → i < 2 ^ 31
    → Words (fs.inode r).fd
    → let fs' = write_inode r fs in
      (stored_fd fs' i ≡ (fs.inode r).fd)
      × ((j : ℕ) → j ≢ i → stored_fd fs' j ≡ stored_fd fs j)
      × ((n : ℕ) → n ≢ fd_list_block fs.sbi + i / 32 → fs'.disk n ≡ fs.disk n)
unfolding stored_fd
write_inode-stored_fd fs r i e hi w =
    let d = write_inode-disk fs r i e hi in
    let b = write_inode-sbi fs r in
    let base = fd_list_block fs.sbi in
    rw (d, b)
      (
        put_fd_self fs.disk base i (fs.inode r).fd w,
        λ j h. put_fd-other fs.disk base i (fs.inode r).fd j h,
        λ n h. ground arith,
      )
