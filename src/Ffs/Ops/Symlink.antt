-- ===== src/Ffs/Ops/Symlink.antt =====
-- `ffs_follow_link` of what `ffs_symlink` made.
use system_sw.Prelude.{
  ℕ, ◌+◌, ◌^◌, ◌≤◌, ◌<◌, ◌≡◌, ◌∙◌, refl, true, false, some, List, arith, length,
}
use system_sw.Prelude.Word.{wrap_small}
use system_sw.Memory.{Bytes}
use system_sw.Ffs.{InodeInfo, Fs}
use system_sw.Ffs.Bitmask.{check_bit}
use system_sw.Ffs.Bitmask.Count.{clear_bit}
use system_sw.Ffs.File.Read.{content, read_all-content}
use system_sw.Ffs.File.Append.{free_blocks_of}
use system_sw.Ffs.File.Grow.{blocks_for}
use system_sw.Ffs.Dir.{negative, attached, lookup, str_bytes}
use system_sw.Ffs.Dir.Names.{nul_free}
use system_sw.Ffs.Volume.{Volume}
use system_sw.Ffs.Ops.{created, file_type, s_iflnk, write_symname, symlink, follow_link}
use system_sw.Ffs.Ops.Parent.{Parent}
use system_sw.Ffs.Ops.Created.{create_entry-Created}
use system_sw.Ffs.Ops.Contents.{file_write-Holding}
use Prim.Native.Nat.{bit_or}

-- the content of a link of fewer than 2 ^ 31 bytes
follow_link-content :
    (fs : Fs) (r : ℕ)
    → (fs.inode r).i_size < 2 ^ 31
    → (out : Bytes) × (follow_link r fs ≡ some out)
      × ((k : ℕ) → k < (fs.inode r).i_size → out k ≡ content fs (fs.inode r) k)
unfolding follow_link
follow_link-content fs r small =
    let (out, run, inside, behind) =
      read_all-content fs r (λ k. 0) ((fs.inode r).i_size + 2) small (omega arith) in
    (out, rw (wrap_small (fs.inode r).i_size (omega arith)) run, inside)

link_mode : file_type (bit_or (bit_or s_iflnk 0o444) 0o222) ≡ some (bit_or 0o120666 s_iflnk, 2)
unfolding file_type
link_mode = refl

-- `ffs_follow_link` of a symbolic link that `ffs_symlink` made reads the text that the link was made
-- with, and `ffs_lookup` finds the link by its name. The conditions are those of
-- `create_entry-Created`, a free descriptor, and blocks enough for the datablock and the text, which
-- is at most 127 blocks.
pub follow_link-symlink :
    (junk : Fs → Bytes) (blank : InodeInfo) (fs : Fs) (dir : ℕ) (name symname : List ℕ)
    (free_fd : ℕ)
    → Volume fs
    → Parent fs dir
    → nul_free name ≡ true
    → length name ≤ 9
    → lookup fs dir name ≡ some negative
    → free_fd < fs.sbi.max_file_count
    → check_bit fs.sbi.fd_bitmask free_fd ≡ false
    → blocks_for (length symname) ≤ 127
    → blocks_for (length symname) + 1 ≤ free_blocks_of fs
    → (fs' : Fs) × (out : Bytes) × (symlink junk blank dir name symname fs
        ≡ some (created fs.fresh, fs'))
      × (follow_link fs.fresh fs' ≡ some out)
      × ((k : ℕ) → k < length symname → out k ≡ str_bytes symname k)
      × (lookup fs' dir name ≡ some (attached fs.fresh))
unfolding symlink write_symname
follow_link-symlink junk blank fs dir name symname free_fd v p free short none_yet hf cf room
      enough =
    let len = length symname in
    let (b, below, clear) = clear_bit fs.sbi.b_bitmask fs.sbi.block_count (omega arith) in
    let (i, j, fs1, run1, made) =
      create_entry-Created junk blank fs dir name _ _ _ free_fd b v p link_mode free short none_yet
        hf cf below clear in
    let (ppos, fs2, run2, h) =
      file_write-Holding fs fs1 dir _ _ i j name (str_bytes symname) len p.older made room enough in
    let size = h.i_size in
    let (out, run3, inside) = follow_link-content fs2 fs.fresh (omega (arith, size)) in
    (
      fs2,
      out,
      rw (run1, run2) refl,
      run3,
      (λ k l. inside k (omega (arith, size, l)) ∙ h.bytes k l),
      h.names name short ∙ made.found,
    )
