-- ===== src/Ffs/File/Total.antt =====
-- What `file_write` does to the inodes.
use system_sw.Prelude.{
  ℕ, zero, suc, ◌+◌, ◌-◌, ◌*◌, ◌/◌, ◌^◌, ◌≤◌, ◌<◌, ◌≡◌, ◌∙◌, refl, ap, subst, ◌≢◌, inl, inr, Bool,
  true, false, some, arith, ltb, ◌==◌, if◌then◌else◌, Bool-cases, leb, not, ◌&&◌,
}
use system_sw.Prelude.Word.{wrap, wrap_small}
use system_sw.Prelude.Post.{Post, Post-bind, Post-map}
use system_sw.Memory.{Bytes}
use system_sw.Ffs.Bitmask.{get_empty_block}
use system_sw.Ffs.{Fs, InodeInfo, write_block}
use system_sw.Ffs.Bitmask.Inodes.{SameInodes, SameInodes_refl, get_empty_block-SameInodes}
use system_sw.Ffs.Inode.{write_inode}
use system_sw.Ffs.File.{
  word, put_word, WriteState, append_block, write_loop, finish_write, file_write,
}

append_block-SameInodes :
    (fs : Fs) (datablock block_index : ℕ)
    → Post (SameInodes fs) (append_block fs datablock block_index)
unfolding append_block
append_block-SameInodes fs datablock block_index =
    let d = fs.disk datablock in
    let fs1 = record fs {
      disk = write_block fs.disk datablock (put_word d 0 (wrap (word d 0 + 1)));
    } in
    let same = get_empty_block-SameInodes fs1 in
    elim (Bool-cases (leb (block_index + 2) 128 && not ((get_empty_block fs1).0 == 0))) [
      | inl e ↦ rw e (record { store = same.store; list = same.list; fresh = same.fresh })
      | inr e ↦ rw e tt
    ]

grown-SameInodes :
    (b : Bool) (fs : Fs) (datablock block_index : ℕ)
    → Post (SameInodes fs) (if b then append_block fs datablock block_index else some fs)
grown-SameInodes true fs datablock block_index = append_block-SameInodes fs datablock block_index
grown-SameInodes false fs datablock block_index = SameInodes_refl fs

-- how many bytes a round moves: one or more, and no more than are left
abbrev pub round : ℕ → ℕ → ℕ
round f_pos left = let rem = (f_pos / 512 + 1) * 512 - f_pos in if ltb left rem then left else rem

pub round-bounds : (f_pos left : ℕ) → 0 < left → (0 < round f_pos left) × (round f_pos left ≤ left)
round-bounds f_pos left h = (ground arith, ground arith)

-- where the loop ends
record LoopEnd (s : WriteState) (fs : Fs) (out : WriteState × Fs) : Type 0 where
  pub left : out.0.copy_left ≡ 0
  pub f_pos : s.f_pos + s.copy_left < 2 ^ 32 → out.0.f_pos ≡ s.f_pos + s.copy_left
  pub same : SameInodes fs out.1

after_round :
    (f_pos left n end : ℕ)
    → n ≤ left
    → (wrap (f_pos + n) + (left - n) < 2 ^ 32 → end ≡ wrap (f_pos + n) + (left - n))
    → f_pos + left < 2 ^ 32
    → end ≡ f_pos + left
after_round f_pos left n end le done small =
    let w = wrap_small (f_pos + n) (omega arith) in omega (arith, w, done (omega (arith, w)))

write_loop-LoopEnd :
    (f datablock : ℕ) (buf : Bytes) (len : ℕ) (s : WriteState) (fs : Fs)
    → Post (LoopEnd s fs) (write_loop f datablock buf len s fs)
unfolding write_loop
write_loop-LoopEnd zero datablock buf len s fs = tt
write_loop-LoopEnd (suc f) datablock buf len s fs = elim (Bool-cases (s.copy_left == 0)) [
  | inl e ↦
      rw e (record { left = ground arith; f_pos = λ l. ground arith; same = SameInodes_refl fs })
  | inr e ↦
      let (pos, le) = round-bounds s.f_pos s.copy_left (ground arith) in
      let n : ℕ = round s.f_pos s.copy_left in
      rw e (
        Post-bind (SameInodes fs) (LoopEnd s fs) _ _
          (grown-SameInodes (ltb s.block_count (s.f_pos / 512 + 1)) fs datablock (s.f_pos / 512))
          (λ fs1 grown.
            Post-map (LoopEnd _ _) (LoopEnd s fs) _
              (λ out done. record {
                left = done.left;
                f_pos = after_round s.f_pos s.copy_left n out.0.f_pos le done.f_pos;
                same = record {
                  store = done.same.store ∙ grown.store;
                  list = done.same.list ∙ grown.list;
                  fresh = done.same.fresh ∙ grown.fresh;
                };
              })
              (write_loop-LoopEnd f datablock buf len _ _)))
]

-- The inode after a write that ends at `end`: its size does not shrink, and nothing but the size and
-- the count of blocks changes.
pub record Sized (i i' : InodeInfo) (end : ℕ) : Type 0 where
  pub i_size : i'.i_size ≡ (if ltb end i.i_size then i.i_size else end)
  pub file_size : i'.fd.file_size ≡ i'.i_size
  pub i_ino : i'.i_ino ≡ i.i_ino
  pub i_mode : i'.i_mode ≡ i.i_mode
  pub i_nlink : i'.i_nlink ≡ i.i_nlink
  pub link_count : i'.fd.link_count ≡ i.fd.link_count
  pub type : i'.fd.type ≡ i.fd.type
  pub datablock_id : i'.fd.datablock_id ≡ i.fd.datablock_id
  pub datablock : i'.datablock ≡ i.datablock

module _ (r len ppos : ℕ) (out : WriteState × Fs) where
  finish_write_offset : 0 < len → (finish_write r len ppos out).1 ≡ out.0.f_pos
  unfolding finish_write
  finish_write_offset pos = ground arith

  finish_write_others : (k : ℕ) → k ≢ r → (finish_write r len ppos out).2.inode k ≡ out.1.inode k
  unfolding finish_write write_inode
  finish_write_others k ne = let e : (k == r) ≡ false = ground arith in rw e refl

  finish_write_list : (finish_write r len ppos out).2.inodes ≡ out.1.inodes
  unfolding finish_write write_inode
  finish_write_list = refl

  finish_write-Sized : Sized (out.1.inode r) ((finish_write r len ppos out).2.inode r) out.0.f_pos
  unfolding finish_write write_inode
  finish_write-Sized =
      let e : (r == r) ≡ true = ground arith in
      rw e (record {
        i_size = refl;
        file_size = refl;
        i_ino = refl;
        i_mode = refl;
        i_nlink = refl;
        link_count = refl;
        type = refl;
        datablock_id = refl;
        datablock = refl;
      })

-- what a run of `file_write` that ends does to the inodes
pub record Resized (fs fs' : Fs) (r start len ppos' : ℕ) : Type 0 where
  pub moved : 0 < len → ppos' ≡ start + len
  pub sized : Sized (fs.inode r) (fs'.inode r) (start + len)
  pub others : (k : ℕ) → k ≢ r → fs'.inode k ≡ fs.inode k
  pub list : fs'.inodes ≡ fs.inodes

abbrev ResizedBy : Fs → ℕ → ℕ → ℕ → ℕ × ℕ × Fs → Type 0
ResizedBy fs r start len (n, ppos', fs') = Resized fs fs' r start len ppos'

file_write-ResizedBy :
    (fs : Fs) (r : ℕ) (buf : Bytes) (len ppos : ℕ) (append : Bool)
    → let i = fs.inode r in
      let start = if append then i.i_size else ppos in
      start + len < 2 ^ 32 → Post (ResizedBy fs r start len) (file_write fs r buf len ppos append)
unfolding file_write finish_write
file_write-ResizedBy fs r buf len ppos append small =
    let i = fs.inode r in
    let start = if append then i.i_size else ppos in
    let w = wrap_small start (omega arith) in
    let s : WriteState = record {
      block_count = word (fs.disk i.datablock) 0;
      f_pos = wrap start;
      copy_left = len;
    } in
    Post-bind (LoopEnd s fs) (ResizedBy fs r start len) _ _
      (write_loop-LoopEnd (len + 1) i.datablock buf len s fs)
      (λ out done.
        let end : out.0.f_pos ≡ start + len = omega (arith, w, done.f_pos (omega (arith, w))) in
        record {
          moved = λ pos. finish_write_offset r len ppos out pos ∙ end;
          sized =
              subst (λ j. Sized j ((finish_write r len ppos out).2.inode r) (start + len))
                (ap (λ st. st r) done.same.store)
                (subst (λ e. Sized (out.1.inode r) ((finish_write r len ppos out).2.inode r) e) end
                  (finish_write-Sized r len ppos out));
          others =
              λ k ne. finish_write_others r len ppos out k ne ∙ ap (λ st. st k) done.same.store;
          list = finish_write_list r len ppos out ∙ done.same.list;
        })

-- A run of `file_write` from `start` on that ends moves the offset behind the last byte. The inode's
-- size is as `Sized` says; all other inodes and the list of inodes are as before. The condition is
-- that the last offset is a word.
pub file_write-Resized :
    (fs : Fs) (r : ℕ) (buf : Bytes) (len ppos : ℕ) (append : Bool) (n ppos' : ℕ) (fs' : Fs)
    → let start = if append then (fs.inode r).i_size else ppos in
      start + len < 2 ^ 32
      → file_write fs r buf len ppos append ≡ some (n, ppos', fs')
      → Resized fs fs' r start len ppos'
file_write-Resized fs r buf len ppos append n ppos' fs' small run =
    let start = if append then (fs.inode r).i_size else ppos in
    subst (Post (ResizedBy fs r start len)) run
      (file_write-ResizedBy fs r buf len ppos append small)
