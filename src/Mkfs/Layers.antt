-- ===== src/Mkfs/Layers.antt =====
-- Where each part of mkfs.ffs writes, and what it leaves.
use system_sw.Prelude.{
  ℕ, zero, suc, ◌+◌, ◌-◌, ◌*◌, ◌/◌, ◌%◌, ◌≤◌, ◌<◌, ◌≡◌, ◌∙◌, refl, ap, ◌⊎◌, inl, inr, true, false,
  ◌&&◌, [], ◌∷◌, arith, ltb, leb, ◌==◌, if◌then◌else◌, Bool-cases,
}
use system_sw.Memory.{Bytes, copy, byte, copy_inside, copy_outside}
use system_sw.Ffs.{ffs_dir, ffs_reg}
use system_sw.Ffs.Inode.{fd_bytes}
use system_sw.Ffs.Dir.{str_bytes}
use system_sw.Ffs.Mount.{MetaInfo}
use system_sw.Mkfs.{
  File, lseek, write, service_blocks, metainfo_bytes, bit_mask, one_byte, bitmap_loop, write_masks,
  new_fd, write_fds, write_datablock, write_datablocks, hello_txt, world_txt, set_entry,
  write_contents,
}

-- a write, seen at one place
pub write_lem :
    (src : Bytes) (n : ℕ) (f : File) (i : ℕ)
    → (write src n f).bytes i
      ≡ (if leb f.pos i && ltb i (f.pos + n) then src (i - f.pos) else f.bytes i)
unfolding copy
write_lem src n f i = refl

-- byte `k` of a mask whose first `c` bits are set; it is written up to the last of them
abbrev pub mask_byte : ℕ → ℕ → ℕ
mask_byte c k = if ltb k (c / 8) then 255 else bit_mask (c % 8)

bitmap_none : (n : ℕ) (f : File) → bitmap_loop n 0 f ≡ f
unfolding bitmap_loop
bitmap_none zero f = refl
bitmap_none (suc n) f = refl

bitmap_full :
    (n c : ℕ) (f : File)
    → 8 ≤ c
    → bitmap_loop (suc n) c f ≡ bitmap_loop n (c - 8) (write (one_byte 255) 1 f)
unfolding bitmap_loop
bitmap_full n c f h =
    let z : (c == 0) ≡ false = ground arith in
    let w : leb 8 c ≡ true = ground arith in rw (z, w) refl

bitmap_last :
    (n c : ℕ) (f : File)
    → 0 < c
    → c < 8
    → bitmap_loop (suc n) c f ≡ write (one_byte (bit_mask c)) 1 f
unfolding bitmap_loop
bitmap_last n c f p h =
    let z : (c == 0) ≡ false = ground arith in
    let w : leb 8 c ≡ false = ground arith in
    rw (z, w) (bitmap_none n (write (one_byte (bit_mask c)) 1 f))

-- the bytes from `p` on with the mask written over them
abbrev pub masked : ℕ → ℕ → Bytes → Bytes
masked c p m i = if leb p i && ltb i (p + (c + 7) / 8) then mask_byte c (i - p) else m i

masked_full :
    (c p : ℕ) (m m' : Bytes) (i : ℕ)
    → 8 ≤ c
    → m' i ≡ (if leb p i && ltb i (p + 1) then 255 else m i)
    → masked (c - 8) (p + 1) m' i ≡ masked c p m i
masked_full c p m m' i h e = let r : (c - 8) % 8 ≡ c % 8 = omega arith in rw (r, e) (ground arith)

masked_last :
    (c p : ℕ) (m : Bytes) (i : ℕ)
    → 0 < c
    → c < 8
    → (if leb p i && ltb i (p + 1) then bit_mask c else m i) ≡ masked c p m i
masked_last c p m i pos h = let r : c % 8 ≡ c = omega arith in rw r (ground arith)

bitmap_nothing :
    (n c : ℕ) (f : File) (i : ℕ) → c ≡ 0 → (bitmap_loop n c f).bytes i ≡ masked c f.pos f.bytes i
bitmap_nothing n c f i e =
    let out : (leb f.pos i && ltb i (f.pos + (0 + 7) / 8)) ≡ false = ground arith in
    rw (e, bitmap_none n f, out) refl

bitmap_loop_lem :
    (n c : ℕ) (f : File) (i : ℕ) → c ≤ n → (bitmap_loop n c f).bytes i ≡ masked c f.pos f.bytes i
bitmap_loop_lem zero c f i h = bitmap_nothing zero c f i (omega arith)
bitmap_loop_lem (suc n) c f i h = elim (Bool-cases (c == 0)) [
  | inl z ↦ bitmap_nothing (suc n) c f i (ground arith)
  | inr z ↦ elim (Bool-cases (leb 8 c)) [
    | inl w ↦
        let f' = write (one_byte 255) 1 f in
        rw (bitmap_full n c f (ground arith)) (
          bitmap_loop_lem n (c - 8) f' i (ground arith)
          ∙ masked_full c f.pos f.bytes f'.bytes i (ground arith) (write_lem (one_byte 255) 1 f i))
    | inr w ↦ rw (bitmap_last n c f (ground arith) (ground arith)) (
        write_lem (one_byte (bit_mask c)) 1 f i
        ∙ masked_last c f.pos f.bytes i (ground arith) (ground arith))
  ]
]

one_at :
    (p i b x y : ℕ)
    → x ≡ y
    → (if leb p i && ltb i (p + 1) then b else x) ≡ (if i == p then b else y)
one_at p i b x y e = ground (arith, e)

module _ (info : MetaInfo) (f : File) where
  abbrev pub c : ℕ
  c = service_blocks info + 6

  -- the masks, seen at one place
  pub write_masks_lem :
      (i : ℕ)
      → (write_masks info f).bytes i ≡ (
          if i == 512 * (1 + info.b_bm_blocks)
          then 7
          else masked c 512 (write (metainfo_bytes info) 28 (lseek 0 f)).bytes i)
  unfolding write_masks copy
  write_masks_lem i =
      let f1 = write (metainfo_bytes info) 28 (lseek 0 f) in
      let e = bitmap_loop_lem c c (lseek 512 f1) i (omega arith) in
      one_at (512 * (1 + info.b_bm_blocks)) i 7 _ _ e

  -- the descriptors
  pub write_fds_frame :
      (i : ℕ)
      → i < 512 * (1 + info.b_bm_blocks + info.fd_bm_blocks)
      → (write_fds info f).bytes i ≡ f.bytes i
  unfolding write_fds copy
  write_fds_frame i h = ground arith

  pub write_fds_lem :
      (k : ℕ)
      → k < 16
      → let s = service_blocks info in
        let p = 512 * (1 + info.b_bm_blocks + info.fd_bm_blocks) in
        let m = (write_fds info f).bytes in
        (m (p + k) ≡ fd_bytes (new_fd ffs_dir s 32) k)
        × (m (p + 16 + k) ≡ fd_bytes (new_fd ffs_reg (s + 1) 3) k)
        × (m (p + 32 + k) ≡ fd_bytes (new_fd ffs_reg (s + 2) 4) k)
  unfolding write_fds
  write_fds_lem k h =
      let p = 512 * (1 + info.b_bm_blocks + info.fd_bm_blocks) in
      let third : p + 32 + k ≡ p + 16 + 16 + k = omega arith in
      (
        copy_outside _ (p + 16 + 16) _ 16 (p + k) (inl (omega arith))
            ∙ copy_outside _ (p + 16) _ 16 (p + k) (inl (omega arith))
            ∙ copy_inside f.bytes p _ 16 k h,
        copy_outside _ (p + 16 + 16) _ 16 (p + 16 + k) (inl (omega arith))
            ∙ copy_inside _ (p + 16) _ 16 k h,
        ap (λ x. (write_fds info f).bytes x) third ∙ copy_inside _ (p + 16 + 16) _ 16 k h,
      )

-- a datablock with the numbers 1 and `v`
pub write_datablock_lem :
    (b v : ℕ) (f : File) (k : ℕ)
    → k < 4
    → let m = (write_datablock b v f).bytes in
      (m (512 * b + k) ≡ byte 1 k) × (m (512 * b + 4 + k) ≡ byte v k)
unfolding write_datablock
write_datablock_lem b v f k h = (
  copy_outside _ (512 * b + 4) _ 4 (512 * b + k) (inl (omega arith))
      ∙ copy_inside f.bytes (512 * b) _ 4 k h,
  copy_inside _ (512 * b + 4) _ 4 k h,
)

write_datablock_frame :
    (b v : ℕ) (f : File) (i : ℕ)
    → (i < 512 * b) ⊎ (512 * b + 8 ≤ i)
    → (write_datablock b v f).bytes i ≡ f.bytes i
unfolding write_datablock
write_datablock_frame b v f i h =
    copy_outside _ (512 * b + 4) _ 4 i (high h) ∙ copy_outside f.bytes (512 * b) _ 4 i (low h)
  where
    high : (i < 512 * b) ⊎ (512 * b + 8 ≤ i) → (i < 512 * b + 4) ⊎ (512 * b + 4 + 4 ≤ i)
    high (inl x) = inl (omega arith)
    high (inr x) = inr (omega arith)

    low : (i < 512 * b) ⊎ (512 * b + 8 ≤ i) → (i < 512 * b) ⊎ (512 * b + 4 ≤ i)
    low (inl x) = inl (omega arith)
    low (inr x) = inr (omega arith)

module _ (s : ℕ) (f : File) where
  pub write_datablocks_frame : (i : ℕ) → i < 512 * s → (write_datablocks s f).bytes i ≡ f.bytes i
  unfolding write_datablocks
  write_datablocks_frame i h =
      write_datablock_frame (s + 2) (s + 5) _ i (inl (omega arith))
      ∙ write_datablock_frame (s + 1) (s + 4) _ i (inl (omega arith))
      ∙ write_datablock_frame s (s + 3) f i (inl h)

  -- the three datablocks
  pub write_datablocks_lem :
      (k : ℕ)
      → k < 4
      → let m = (write_datablocks s f).bytes in
        ((m (512 * s + k) ≡ byte 1 k) × (m (512 * s + 4 + k) ≡ byte (s + 3) k))
        × ((m (512 * (s + 1) + k) ≡ byte 1 k) × (m (512 * (s + 1) + 4 + k) ≡ byte (s + 4) k))
        × ((m (512 * (s + 2) + k) ≡ byte 1 k) × (m (512 * (s + 2) + 4 + k) ≡ byte (s + 5) k))
  unfolding write_datablocks
  write_datablocks_lem k h =
      let f1 = write_datablock s (s + 3) f in
      let f2 = write_datablock (s + 1) (s + 4) f1 in
      let first = write_datablock_lem s (s + 3) f k h in
      let second = write_datablock_lem (s + 1) (s + 4) f1 k h in
      (
        (
          write_datablock_frame (s + 2) (s + 5) f2 _ (inl (omega arith))
              ∙ write_datablock_frame (s + 1) (s + 4) f1 _ (inl (omega arith))
              ∙ first.0,
          write_datablock_frame (s + 2) (s + 5) f2 _ (inl (omega arith))
              ∙ write_datablock_frame (s + 1) (s + 4) f1 _ (inl (omega arith))
              ∙ first.1,
        ),
        (
          write_datablock_frame (s + 2) (s + 5) f2 _ (inl (omega arith)) ∙ second.0,
          write_datablock_frame (s + 2) (s + 5) f2 _ (inl (omega arith)) ∙ second.1,
        ),
        write_datablock_lem (s + 2) (s + 5) f2 k h,
      )

  module _ (junk : Bytes) where
    pub write_contents_frame :
        (i : ℕ) → i < 512 * (s + 3) → (write_contents junk s f).bytes i ≡ f.bytes i
    unfolding write_contents
    write_contents_frame i h =
        copy_outside _ (512 * (s + 5)) _ 4 i (inl (omega arith))
        ∙ copy_outside _ (512 * (s + 4)) _ 3 i (inl (omega arith))
        ∙ copy_outside _ (512 * (s + 3) + 16) _ 16 i (inl (omega arith))
        ∙ copy_outside f.bytes (512 * (s + 3)) _ 16 i (inl h)

    -- the directory's entries and the texts
    pub write_entries_lem :
        (k : ℕ)
        → k < 16
        → let e = set_entry junk 2 hello_txt in
          let m = (write_contents junk s f).bytes in
          (m (512 * (s + 3) + k) ≡ e k) × (m (512 * (s + 3) + 16 + k) ≡ set_entry e 3 world_txt k)
    unfolding write_contents
    write_entries_lem k h = (
      copy_outside _ (512 * (s + 5)) _ 4 (512 * (s + 3) + k) (inl (omega arith))
          ∙ copy_outside _ (512 * (s + 4)) _ 3 (512 * (s + 3) + k) (inl (omega arith))
          ∙ copy_outside _ (512 * (s + 3) + 16) _ 16 (512 * (s + 3) + k) (inl (omega arith))
          ∙ copy_inside f.bytes (512 * (s + 3)) _ 16 k h,
      copy_outside _ (512 * (s + 5)) _ 4 (512 * (s + 3) + 16 + k) (inl (omega arith))
          ∙ copy_outside _ (512 * (s + 4)) _ 3 (512 * (s + 3) + 16 + k) (inl (omega arith))
          ∙ copy_inside _ (512 * (s + 3) + 16) _ 16 k h,
    )

    pub write_texts_lem :
        let m = (write_contents junk s f).bytes in
        ((k : ℕ) → k < 3 → m (512 * (s + 4) + k) ≡ str_bytes (52 ∷ 50 ∷ 10 ∷ []) k)
        × ((k : ℕ) → k < 4 → m (512 * (s + 5) + k) ≡ str_bytes (98 ∷ 108 ∷ 97 ∷ 10 ∷ []) k)
    unfolding write_contents
    write_texts_lem = (
      λ k h.
          copy_outside _ (512 * (s + 5)) _ 4 (512 * (s + 4) + k) (inl (omega arith))
          ∙ copy_inside _ (512 * (s + 4)) _ 3 k h,
      λ k h. copy_inside _ (512 * (s + 5)) _ 4 k h,
    )
