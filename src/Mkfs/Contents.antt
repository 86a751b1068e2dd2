-- ===== src/Mkfs/Contents.antt =====
-- The directory and the files of a mounted image of mkfs.ffs, through `ffs_lookup` and `file_read`.
use system_sw.Prelude.{
  ℕ, ◌+◌, ◌*◌, ◌/◌, ◌%◌, ◌≤◌, ◌<◌, ◌≡◌, ◌∙◌, refl, sym, ap, subst, ◌≢◌, ◌⊎◌, inl, inr, true, some,
  List, [], ◌∷◌, arith, if◌then◌else◌, Bool-cases, length,
}
use system_sw.Prelude.Word.{wrap, sub32}
use system_sw.Memory.{Bytes, at, byte, copy, copy_inside, copy_outside, get32, get32-byte}
use system_sw.Ffs.{InodeInfo, Fs}
use system_sw.Ffs.Inode.{find_inode, iget}
use system_sw.Ffs.File.{ReadResult, file_read}
use system_sw.Ffs.File.Read.{content, file_read-ReadRest}
use system_sw.Ffs.Dir.{
  str_bytes, str_eq, entry_fd, entry_name, negative, attached, entry_inode, or_next, lookup_loop,
  lookup,
}
use system_sw.Ffs.Dir.Names.{nul_free, HoldsName, str_eq-other, str_eq-names}
use system_sw.Ffs.Dir.Search.{Holds, SizeOk, read_dir-Holds}
use system_sw.Ffs.Mount.{blocks_of, MountResult, out_fail, mounted, fill_super}
use system_sw.Mkfs.{layout, service_blocks, hello_txt, world_txt, set_entry, mkfs}
use system_sw.Mkfs.Image.{layout-RoomFor, mkfs-entries, mkfs-texts}
use system_sw.Mkfs.Readback.{zeros, mounted_datablocks}
use system_sw.Mkfs.Fresh.{Fresh, fill_super-Fresh}

-- the two members of an entry that is set
set_entry-fd : (e : Bytes) (i : ℕ) (name : List ℕ) (k : ℕ) → k < 4 → set_entry e i name k ≡ byte i k
unfolding set_entry
set_entry-fd e i name k h =
    let z : 0 + k ≡ k = omega arith in
    copy_outside _ 4 (str_bytes name) (length name + 1) k (inl h)
    ∙ ap (copy e 0 (byte i) 4) (sym z)
    ∙ copy_inside e 0 (byte i) 4 k h

set_entry-name : (e : Bytes) (i : ℕ) (name : List ℕ) → HoldsName (at (set_entry e i name) 4) name
unfolding set_entry
set_entry-name e i name k h = copy_inside _ 4 (str_bytes name) (length name + 1) k (omega arith)

-- what the buffer of the root directory holds
record RootBuf (buf : Bytes) : Type 0 where
  fd_hello : entry_fd buf 0 ≡ 2
  fd_world : entry_fd buf 1 ≡ 3
  hello : HoldsName (entry_name buf 0) hello_txt
  world : HoldsName (entry_name buf 1) world_txt

entries-RootBuf :
    (junk buf : Bytes)
    → ((k : ℕ) → k < 16 → buf k ≡ set_entry junk 2 hello_txt k)
    → ((k : ℕ) → k < 16 → buf (16 + k) ≡ set_entry (set_entry junk 2 hello_txt) 3 world_txt k)
    → RootBuf buf
entries-RootBuf junk buf first second =
    let e1 = set_entry junk 2 hello_txt in
    record {
      fd_hello = get32-byte buf 0 2 (omega arith) (λ k h.
          let z : 0 + k ≡ k = omega arith in
          ap buf z ∙ first k (omega arith) ∙ set_entry-fd junk 2 hello_txt k h);
      fd_world =
          get32-byte buf 16 3 (omega arith)
            (λ k h. second k (omega arith) ∙ set_entry-fd e1 3 world_txt k h);
      hello = λ k h. first (4 + k) (omega arith) ∙ set_entry-name junk 2 hello_txt k h;
      world = λ k h.
          let z : 20 + k ≡ 16 + (4 + k) = omega arith in
          ap buf z ∙ second (4 + k) (omega arith) ∙ set_entry-name e1 3 world_txt k h;
    }

module _ (s : ℕ) (fs : Fs) (fresh : Fresh s fs) where
  -- the numbers 2 and 3 are in the list of inodes
  iget-two : iget fs 2 ≡ some 1
  unfolding iget find_inode
  iget-two = rw (fresh.inodes, fresh.world.i_ino, fresh.hello.i_ino) refl

  iget-three : iget fs 3 ≡ some 2
  unfolding iget find_inode
  iget-three = rw (fresh.inodes, fresh.world.i_ino) refl

  root_loop :
      (buf : Bytes) (name : List ℕ)
      → RootBuf buf
      → lookup_loop fs buf name 0 2 ≡ (
          if str_eq (entry_name buf 0) name
          then attached 1
          else if str_eq (entry_name buf 1) name
          then attached 2
          else negative)
  unfolding lookup_loop entry_inode wrap sub32 or_next
  root_loop buf name b = rw (b.fd_hello, b.fd_world, iget-two, iget-three) refl

  root_size : SizeOk fs 0
  root_size =
      let e = fresh.root.i_size in
      record { agree = rw (fresh.root.descriptor) (sym e); small = omega arith }

  -- a lookup in the root directory, for what its bytes are
  lookup_root :
      (name : List ℕ)
      → ((buf : Bytes) → Holds fs 0 buf → RootBuf buf)
      → (buf : Bytes) × RootBuf buf
        × (lookup fs 0 name
            ≡ some (
                if str_eq (entry_name buf 0) name
                then attached 1
                else if str_eq (entry_name buf 1) name
                then attached 2
                else negative))
  unfolding lookup
  lookup_root name holds =
      let (buf, eq, h) = read_dir-Holds fs 0 root_size in
      (
        buf,
        holds buf h,
        rw (fresh.root.i_mode, eq, fresh.root.descriptor)
            (ap some (root_loop buf name (holds buf h))),
      )

mounted-injective : (a b : ℕ) (x y : Fs) → mounted a x ≡ mounted b y → x ≡ y
mounted-injective a b x y e = ap state e
  where
    state : MountResult → Fs
    state out_fail = x
    state (mounted r fs) = fs

-- the image, mounted
pub record MkfsMount (junk : Bytes) (size : ℕ) (fs : Fs) : Type 0 where
  pub low : 12800 ≤ size
  pub high : size < 512 * 4097
  pub fresh : Fresh (service_blocks (layout size)) fs
  pub disk : fs.disk ≡ blocks_of (mkfs junk size zeros) 512

pub fill_super-MkfsMount :
    (junk : Bytes) (size : ℕ) (blank : InodeInfo) (fs : Fs)
    → 12800 ≤ size
    → size < 512 * 4097
    → fill_super blank (mkfs junk size zeros) ≡ mounted 0 fs
    → MkfsMount junk size fs
fill_super-MkfsMount junk size blank fs low high e =
    let (fs', m, f, d) = fill_super-Fresh junk size blank low high in
    let same : fs' ≡ fs = mounted-injective 0 0 fs' fs (sym m ∙ e) in
    record {
      low = low;
      high = high;
      fresh = subst (Fresh (service_blocks (layout size))) same f;
      disk = ap Fs.disk (sym same) ∙ d;
    }

module _ (junk : Bytes) (size : ℕ) (fs : Fs) (m : MkfsMount junk size fs) where
  abbrev s : ℕ
  s = service_blocks (layout size)

  abbrev device : Bytes
  device = mkfs junk size zeros

  -- the content of a file of one block
  pub in_block :
      (r d b : ℕ)
      → (fs.inode r).datablock ≡ d
      → get32 (blocks_of device 512 d) 4 ≡ b
      → (k : ℕ) → k < 512
      → content fs (fs.inode r) k ≡ device (512 * b + k)
  in_block r d b at_d e k h =
      let q : k / 512 ≡ 0 = omega arith in
      let w : k % 512 ≡ k = omega arith in rw (m.disk, at_d, q, w, e) refl

  root_bytes : (buf : Bytes) → Holds fs 0 buf → RootBuf buf
  root_bytes buf h =
      let room = layout-RoomFor size m.low (let x = m.high in omega arith) in
      let size_lem = m.fresh.root.i_size in
      let here =
        in_block 0 s (s + 3) m.fresh.root.datablock (mounted_datablocks junk size m.low m.high).1 in
      entries-RootBuf junk buf
        (λ k l.
          h.inside k (omega arith)
          ∙ here k (omega arith)
          ∙ (mkfs-entries junk size zeros room k l).0)
        (λ k l.
          let z : 512 * (s + 3) + (16 + k) ≡ 512 * (s + 3) + 16 + k = omega arith in
          h.inside (16 + k) (omega arith)
          ∙ here (16 + k) (omega arith)
          ∙ ap device z
          ∙ (mkfs-entries junk size zeros room k l).1)

  -- a file of one block, read from its start
  read_text :
      (r d b n : ℕ) (text buf : Bytes)
      → (fs.inode r).i_size ≡ n
      → (fs.inode r).datablock ≡ d
      → get32 (blocks_of device 512 d) 4 ≡ b
      → n ≤ 512
      → ((k : ℕ) → k < n → device (512 * b + k) ≡ text k)
      → (out : ReadResult) × (file_read fs r buf n 0 ≡ some out)
        × (out.already_read ≡ n)
        × ((k : ℕ) → k < n → out.buf k ≡ text k)
  read_text r d b n text buf size_n at_d block h bytes =
      let (out, e, rest) =
        file_read-ReadRest fs r buf n 0 (omega (arith, size_n)) (omega arith) (omega arith)
          (omega arith) (inl refl) in
      (
        out,
        e,
        (let c = rest.count in omega arith),
        λ k l.
            let z : 0 + k ≡ k = omega arith in
            rest.bytes k (let c = rest.count in omega arith)
            ∙ ap (content fs (fs.inode r)) z
            ∙ in_block r d b at_d block k (omega arith)
            ∙ bytes k l,
      )

-- In the mounted image, `ffs_lookup` of a name in the root directory ends, and finds the inode of the
-- first file for `hello.txt`, that of the second for `world.txt`, and none for every other name.
pub lookup-mkfs :
    (junk : Bytes) (size : ℕ) (blank : InodeInfo) (fs : Fs) (name : List ℕ)
    → 12800 ≤ size
    → size < 512 * 4097
    → fill_super blank (mkfs junk size zeros) ≡ mounted 0 fs
    → nul_free name ≡ true
    → ((name ≡ hello_txt) × (lookup fs 0 name ≡ some (attached 1)))
      ⊎ (((name ≡ world_txt) × (lookup fs 0 name ≡ some (attached 2)))
          ⊎ ((name ≢ hello_txt) × (name ≢ world_txt) × (lookup fs 0 name ≡ some negative)))
unfolding nul_free
lookup-mkfs junk size blank fs name low high e free =
    let m = fill_super-MkfsMount junk size blank fs low high e in
    let (buf, b, found) =
      lookup_root (service_blocks (layout size)) fs m.fresh name (root_bytes junk size fs m) in
    elim (Bool-cases (str_eq (entry_name buf 0) name)) [
      | inl x ↦ inl (
        sym (str_eq-names (entry_name buf 0) hello_txt name b.hello refl free x),
        found ∙ rw x refl,
      )
      | inr x ↦ elim (Bool-cases (str_eq (entry_name buf 1) name)) [
        | inl y ↦ inr (
            inl (
              sym (str_eq-names (entry_name buf 1) world_txt name b.world refl free y),
              found ∙ rw (x, y) refl,
            ))
        | inr y ↦ inr (
            inr (
              str_eq-other (entry_name buf 0) hello_txt name b.hello x,
              str_eq-other (entry_name buf 1) world_txt name b.world y,
              found ∙ rw (x, y) refl,
            ))
      ]
    ]

-- In the mounted image, `file_read` of the first file, with room for its 3 bytes, reads `42` and a new
-- line, and of the second, with room for its 4 bytes, `bla` and a new line.
pub file_read-mkfs :
    (junk : Bytes) (size : ℕ) (blank : InodeInfo) (fs : Fs) (buf : Bytes)
    → 12800 ≤ size
    → size < 512 * 4097
    → fill_super blank (mkfs junk size zeros) ≡ mounted 0 fs
    → ((out : ReadResult) × (file_read fs 1 buf 3 0 ≡ some out)
        × (out.already_read ≡ 3)
        × ((k : ℕ) → k < 3 → out.buf k ≡ str_bytes (52 ∷ 50 ∷ 10 ∷ []) k))
      × ((out : ReadResult) × (file_read fs 2 buf 4 0 ≡ some out)
          × (out.already_read ≡ 4)
          × ((k : ℕ) → k < 4 → out.buf k ≡ str_bytes (98 ∷ 108 ∷ 97 ∷ 10 ∷ []) k))
file_read-mkfs junk size blank fs buf low high e =
    let m = fill_super-MkfsMount junk size blank fs low high e in
    let s = service_blocks (layout size) in
    let blocks = mounted_datablocks junk size low high in
    let texts = mkfs-texts junk size zeros (layout-RoomFor size low (omega (arith, high))) in
    (
      read_text junk size fs m 1 (s + 1) (s + 4) 3 _ buf m.fresh.hello.i_size
          m.fresh.hello.datablock blocks.2 (omega arith) texts.0,
      read_text junk size fs m 2 (s + 2) (s + 5) 4 _ buf m.fresh.world.i_size
          m.fresh.world.datablock blocks.3 (omega arith) texts.1,
    )
