-- ===== src/Ffs/Dir/Entries.antt =====
-- The search of `ffs_lookup` through the entries of a directory, as a function of their bytes.
use system_sw.Prelude.{
  ℕ, zero, suc, ◌+◌, ◌*◌, ◌≤◌, ◌<◌, ◌≡◌, ◌∙◌, refl, sym, ap, inl, inr, true, false, Option, none,
  some, List, [], ◌∷◌, arith, Bool-cases, length,
}
use system_sw.Memory.{Bytes, at, get32}
use system_sw.Ffs.{Fs, InodeInfo}
use system_sw.Ffs.Inode.{find_inode, iget}
use system_sw.Ffs.Dir.{
  str_eq, entry_fd, entry_name, LookupResult, no_entry, negative, attached, entry_inode, or_next,
  lookup_loop,
}
use system_sw.Ffs.Dir.Names.{nul_free}

-- `strcmp` reads no byte behind the name's 0
pub str_eq-congr :
    (f g : Bytes) (a : List ℕ) → ((k : ℕ) → k ≤ length a → f k ≡ g k) → str_eq f a ≡ str_eq g a
unfolding str_eq
str_eq-congr f g [] h = rw (h 0 (omega arith)) refl
str_eq-congr f g (c ∷ cs) h =
    rw (h 0 (omega arith), str_eq-congr (at f 1) (at g 1) cs (λ k l. h (1 + k) (omega arith))) refl

-- two names that the same bytes have
pub str_eq_unique :
    (f : Bytes) (a b : List ℕ)
    → nul_free a ≡ true
    → nul_free b ≡ true
    → str_eq f a ≡ true
    → str_eq f b ≡ true
    → a ≡ b
unfolding str_eq nul_free
str_eq_unique f [] [] p q e e' = refl
str_eq_unique f [] (d ∷ ds) p q e e' = absurd (ground arith)
str_eq_unique f (c ∷ cs) [] p q e e' = absurd (ground arith)
str_eq_unique f (c ∷ cs) (d ∷ ds) p q e e' =
    let head : c ≡ d = ground arith in
    let tail : cs ≡ ds =
      str_eq_unique (at f 1) cs ds (ground arith) (ground arith) (ground arith) (ground arith) in
    λ t. head t ∷ tail t

-- states whose lists of inodes have the same numbers
pub record SameNumbers (fs fs' : Fs) : Type 0 where
  pub list : fs'.inodes ≡ fs.inodes
  pub number : (k : ℕ) → (fs'.inode k).i_ino ≡ (fs.inode k).i_ino

find_inode-congr :
    (s s' : ℕ → InodeInfo) (n : ℕ) (l : List ℕ)
    → ((k : ℕ) → (s' k).i_ino ≡ (s k).i_ino)
    → find_inode s' n l ≡ find_inode s n l
unfolding find_inode
find_inode-congr s s' n [] h = refl
find_inode-congr s s' n (r ∷ rs) h = rw (h r, find_inode-congr s s' n rs h) refl

pub iget-congr : (fs fs' : Fs) (n : ℕ) → SameNumbers fs fs' → iget fs' n ≡ iget fs n
unfolding iget
iget-congr fs fs' n same =
    rw (same.list) (find_inode-congr fs.inode fs'.inode n fs.inodes same.number)

-- bytes that agree on entry `i` of the one and entry `j` of the other
abbrev pub SameEntry : Bytes → ℕ → Bytes → ℕ → Type 0
SameEntry b i c j = (k : ℕ) → k < 16 → b (16 * i + k) ≡ c (16 * j + k)

module _ (b c : Bytes) (i j : ℕ) (same : SameEntry b i c j) where
  pub entry_name-congr :
      (a : List ℕ) → length a ≤ 9 → str_eq (entry_name b i) a ≡ str_eq (entry_name c j) a
  entry_name-congr a h = str_eq-congr (entry_name b i) (entry_name c j) a (λ k l.
      let x : 16 * i + 4 + k ≡ 16 * i + (4 + k) = omega arith in
      let y : 16 * j + (4 + k) ≡ 16 * j + 4 + k = omega arith in
      ap b x ∙ same (4 + k) (omega arith) ∙ ap c y)

  entry_fd-congr : entry_fd b i ≡ entry_fd c j
  unfolding get32
  entry_fd-congr =
      let z : 16 * i + 0 ≡ 16 * i = omega arith in
      let y : 16 * j + 0 ≡ 16 * j = omega arith in
      let e0 : b (16 * i) ≡ c (16 * j) = ap b (sym z) ∙ same 0 (omega arith) ∙ ap c y in
      ground (arith, e0, same 1, same 2, same 3)

  pub entry_inode-congr :
      (fs fs' : Fs) → SameNumbers fs fs' → entry_inode fs' b i ≡ entry_inode fs c j
  unfolding entry_inode
  entry_inode-congr fs fs' list = rw entry_fd-congr (iget-congr fs fs' _ list)

-- The searches through `n` entries from `i` on and from `j` on agree where the entries and their
-- inodes do.
pub lookup_loop-by :
    (fs fs' : Fs) (b c : Bytes) (name : List ℕ) (i j n : ℕ)
    → length name ≤ 9
    → ((k : ℕ) → k < n → SameEntry b (i + k) c (j + k))
    → ((k : ℕ) → k < n → entry_inode fs' b (i + k) ≡ entry_inode fs c (j + k))
    → lookup_loop fs' b name i n ≡ lookup_loop fs c name j n
unfolding lookup_loop
lookup_loop-by fs fs' b c name i j zero short same inode = refl
lookup_loop-by fs fs' b c name i j (suc n) short same inode =
    let z : i + 0 ≡ i = omega arith in
    let y : j + 0 ≡ j = omega arith in
    let here : SameEntry b i c j = rw z at (rw y at (same 0 (omega arith))) in
    let it : entry_inode fs' b i ≡ entry_inode fs c j = rw z at (rw y at (inode 0 (omega arith))) in
    let p : (k : ℕ) → i + (1 + k) ≡ i + 1 + k = λ k. omega arith in
    let q : (k : ℕ) → j + (1 + k) ≡ j + 1 + k = λ k. omega arith in
    let rest =
      lookup_loop-by fs fs' b c name (i + 1) (j + 1) n short
        (λ k l. rw (p k) at (rw (q k) at (same (1 + k) (omega arith))))
        (λ k l. rw (p k) at (rw (q k) at (inode (1 + k) (omega arith)))) in
    rw (entry_name-congr b c i j here name short, it, rest) refl

pub lookup_loop-congr :
    (fs fs' : Fs) (b c : Bytes) (name : List ℕ) (i j n : ℕ)
    → SameNumbers fs fs'
    → length name ≤ 9
    → ((k : ℕ) → k < n → SameEntry b (i + k) c (j + k))
    → lookup_loop fs' b name i n ≡ lookup_loop fs c name j n
lookup_loop-congr fs fs' b c name i j n list short same =
    lookup_loop-by fs fs' b c name i j n short same
      (λ k l. entry_inode-congr b c (i + k) (j + k) (same k l) fs fs' list)

-- the result of two searches, one after the other
abbrev pub or_else : LookupResult → LookupResult → LookupResult
or_else no_entry later = no_entry
or_else negative later = later
or_else (attached r) later = attached r

pub or_else-negative : (l : LookupResult) → or_else l negative ≡ l
or_else-negative no_entry = refl
or_else-negative negative = refl
or_else-negative (attached r) = refl

or_next-or_else :
    (x y : LookupResult) (o : Option ℕ) → or_next (or_else x y) o ≡ or_else (or_next x o) y
unfolding or_next
or_next-or_else x y none = refl
or_next-or_else x y (some r) = refl

module _ (fs : Fs) (b : Bytes) (name : List ℕ) where
  -- a search through no entry with the name
  pub lookup_loop_none :
      (i n : ℕ)
      → ((k : ℕ) → k < n → str_eq (entry_name b (i + k)) name ≡ false)
      → lookup_loop fs b name i n ≡ negative
  unfolding lookup_loop
  lookup_loop_none i zero h = refl
  lookup_loop_none i (suc n) h =
      let z : i + 0 ≡ i = omega arith in
      let here : str_eq (entry_name b i) name ≡ false = rw z at (h 0 (omega arith)) in
      rw here (
        lookup_loop_none (i + 1) n (λ k l.
          let p : i + (1 + k) ≡ i + 1 + k = omega arith in rw p at (h (1 + k) (omega arith))))

  -- a search in two parts
  pub lookup_loop-append :
      (i n m : ℕ)
      → lookup_loop fs b name i (n + m)
        ≡ or_else (lookup_loop fs b name i n) (lookup_loop fs b name (i + n) m)
  unfolding lookup_loop
  lookup_loop-append i zero m =
      let z : i + 0 ≡ i = omega arith in let y : 0 + m ≡ m = omega arith in rw (y, z) refl
  lookup_loop-append i (suc n) m =
      let p : suc n + m ≡ suc (n + m) = omega arith in
      let q : i + suc n ≡ i + 1 + n = omega arith in
      let move =
        or_next-or_else (lookup_loop fs b name (i + 1) n) (lookup_loop fs b name (i + 1 + n) m)
          (entry_inode fs b i) in
      let rest = lookup_loop-append (i + 1) n m in
      rw (p, q)
        (elim (Bool-cases (str_eq (entry_name b i) name)) [
          | inl e ↦ rw (e, rest) move
          | inr e ↦ rw (e, rest) refl
        ])

  -- an entry with another name is no part of a search
  pub lookup_loop_other :
      (i n : ℕ)
      → str_eq (entry_name b i) name ≡ false
      → lookup_loop fs b name i (1 + n) ≡ lookup_loop fs b name (i + 1) n
  unfolding lookup_loop
  lookup_loop_other i n e = let p : 1 + n ≡ suc n = omega arith in rw (p, e) refl

  -- one entry
  pub lookup_loop_one :
      (i r : ℕ)
      → str_eq (entry_name b i) name ≡ true
      → entry_inode fs b i ≡ some r
      → lookup_loop fs b name i 1 ≡ attached r
  unfolding lookup_loop or_next
  lookup_loop_one i r e f = rw (e, f) refl
