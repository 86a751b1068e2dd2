-- ===== src/Ffs/Dir/Listing.antt =====
-- The items that `ffs_f_readdir` hands to `filldir`.
use system_sw.Prelude.{
  ℕ, zero, suc, ◌+◌, ◌/◌, ◌≤◌, ◌<◌, ◌≡◌, refl, ◌⊎◌, inl, inr, Bool, false, Option, none, some, List,
  [], ◌∷◌, arith, if◌then◌else◌, lt→ltb, Bool-cases,
}
use system_sw.Memory.{Bytes}
use system_sw.Ffs.{Fs}
use system_sw.Ffs.Dir.{str_bytes, entry_name, entry_inode, DirItem, dir_item, readdir_loop, readdir}
use system_sw.Ffs.Dir.Search.{Holds, SizeOk, read_dir-Holds}

-- the items of `n` entries from `i` on, those without an inode left out, at no position yet
pub entry_items : Fs → Bytes → ℕ → ℕ → List DirItem
entry_items fs buf i zero = []
entry_items fs buf i (suc n) = elim (entry_inode fs buf i) [
  | none ↦ entry_items fs buf (i + 1) n
  | some r ↦
      record {
        name = entry_name buf i;
        len = 10;
        pos = 0;
        ino = (fs.inode r).i_ino;
        is_dir = false;
      }
      ∷ entry_items fs buf (i + 1) n
]

-- `.` and `..`, and the entries of a directory
abbrev pub items : Fs → ℕ → ℕ → Bytes → List DirItem
items fs dir parent buf =
    dir_item fs (str_bytes (46 ∷ [])) 1 0 dir
    ∷ dir_item fs (str_bytes (46 ∷ 46 ∷ [])) 2 0 parent
    ∷ entry_items fs buf 0 ((fs.inode dir).i_size / 16)

found : (o : Option ℕ) → (o ≡ none) ⊎ ((r : ℕ) × (o ≡ some r))
found none = inl refl
found (some r) = inr (r, refl)

module _ {S : Type 0} (filldir : S → DirItem → Bool × S) where
  -- items handed over in order, at positions from `pos` on, until one is refused: the result, the position
  -- behind the last one handed over, and the buffer
  pub hand_over : ℕ → S → List DirItem → ℕ × ℕ × S
  hand_over pos s [] = (1, pos, s)
  hand_over pos s (item ∷ rest) =
      let (stop, s') = filldir s (record item { pos = pos }) in
      let after = hand_over (pos + 1) s' rest in if stop then (0, pos + 1, s') else after

  readdir_loop-hand_over :
      (fs : Fs) (buf : Bytes) (i n pos : ℕ) (s : S)
      → readdir_loop filldir fs buf i n pos s ≡ hand_over pos s (entry_items fs buf i n)
  unfolding readdir_loop entry_items hand_over
  readdir_loop-hand_over fs buf i zero pos s = refl
  readdir_loop-hand_over fs buf i (suc n) pos s = elim (found (entry_inode fs buf i)) [
    | inl e ↦ rw (e, readdir_loop, entry_items) (readdir_loop-hand_over fs buf (i + 1) n pos s)
    | inr (r, e) ↦
        let it : DirItem = record {
          name = entry_name buf i;
          len = 10;
          pos = pos;
          ino = (fs.inode r).i_ino;
          is_dir = false;
        } in
        let rest = readdir_loop-hand_over fs buf (i + 1) n (pos + 1) (filldir s it).1 in
        rw (e, readdir_loop, entry_items, rest) refl
  ]

  -- the position does not go back
  hand_over-later : (pos : ℕ) (s : S) (l : List DirItem) → pos ≤ (hand_over pos s l).1
  unfolding hand_over
  hand_over-later pos s [] = omega arith
  hand_over-later pos s (item ∷ rest) =
      let (stop, s') = filldir s (record item { pos = pos }) in
      let after = hand_over-later (pos + 1) s' rest in
      elim (Bool-cases stop) [ inl e ↦ rw e (omega arith) | inr e ↦ rw e (omega (arith, after)) ]

  hand_over_more : (s : S) (item : DirItem) (l : List DirItem) → 0 < (hand_over 0 s (item ∷ l)).1
  unfolding hand_over
  hand_over_more s item rest =
      let (stop, s') = filldir s (record item { pos = 0 }) in
      let after = hand_over-later (0 + 1) s' rest in
      elim (Bool-cases stop) [ inl e ↦ rw e (omega arith) | inr e ↦ rw e (omega (arith, after)) ]

  -- Where the directory's descriptor and inode agree on its size, `ffs_f_readdir` at the position 0 hands
  -- `.`, `..` and then the directory's entries that have an inode over, in their order, at one position
  -- after the other, until `filldir` refuses one, which still takes a position; a call from the position
  -- where it ends hands nothing over.
  pub readdir-hand_over :
      (fs : Fs) (dir parent : ℕ) (s : S)
      → SizeOk fs dir
      → (buf : Bytes) × Holds fs dir buf
        × (let (res, pos, s') = hand_over 0 s (items fs dir parent buf) in
            (readdir filldir fs dir parent 0 s ≡ some (res, pos, s'))
            × (readdir filldir fs dir parent pos s' ≡ some (1, pos, s')))
  unfolding readdir hand_over dir_item
  readdir-hand_over fs dir parent s ok =
      let (buf, eq, holds) = read_dir-Holds fs dir ok in
      let (stop, s1) = filldir s (dir_item fs (str_bytes (46 ∷ [])) 1 0 dir) in
      let (stop', s2) = filldir s1 (dir_item fs (str_bytes (46 ∷ 46 ∷ [])) 2 1 parent) in
      let rest = readdir_loop-hand_over fs buf 0 ((fs.inode dir).i_size / 16) 2 s2 in
      let past = hand_over_more s (dir_item fs (str_bytes (46 ∷ [])) 1 0 dir) (
        dir_item fs (str_bytes (46 ∷ 46 ∷ [])) 2 0 parent
        ∷ entry_items fs buf 0 ((fs.inode dir).i_size / 16)) in
      (
        buf,
        holds,
        (
          rw (eq, ok.agree)
              (elim (Bool-cases stop) [
                | inl e ↦ rw e refl
                | inr e ↦ elim (Bool-cases stop') [
                  | inl e' ↦ rw (e, e') refl
                  | inr e' ↦ rw (e, e', rest) refl
                ]
              ]),
          rw (lt→ltb _ _ past) refl,
        ),
      )
