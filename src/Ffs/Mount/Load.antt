-- ===== src/Ffs/Mount/Load.antt =====
-- The loop of `ffs_read_root` over the descriptors, and the loop over their numbers.
use system_sw.Prelude.{
  ℕ, zero, suc, ◌+◌, ◌-◌, ◌*◌, ◌/◌, ◌%◌, ◌≤◌, ◌<◌, min, ◌≡◌, ◌∙◌, refl, ap, inl, inr, true, false,
  arith, leb, ◌==◌, if◌then◌else◌, le→leb, lt→not_leb, Bool-cases,
}
use system_sw.Memory.{at}
use system_sw.Ffs.{Fd, SbInfo, InodeInfo, Fs}
use system_sw.Ffs.Bitmask.{check_bit}
use system_sw.Ffs.Inode.{read_fd}
use system_sw.Ffs.Mount.{load_fd, load_inode, load_block, load_blocks}

-- The reference: each number from `i` on, `n` of them, whose bit is set is loaded from its place in
-- the list of descriptors that begins at block `base`.
pub load_each : InodeInfo → ℕ → ℕ → ℕ → ℕ → Fs → Fs
load_each blank root base i zero fs = fs
load_each blank root base i (suc n) fs =
    let fd = read_fd (at (fs.disk (base + i / 32)) (16 * (i % 32))) in
    load_each blank root base (i + 1) n
      (if check_bit fs.sbi.fd_bitmask i then load_inode blank root i fd fs else fs)

pub load_inode-sbi :
    (blank : InodeInfo) (root i : ℕ) (fd : Fd) (fs : Fs)
    → (load_inode blank root i fd fs).sbi ≡ fs.sbi
unfolding load_inode load_fd
load_inode-sbi blank root i fd fs = ground arith

pub load_inode-disk :
    (blank : InodeInfo) (root i : ℕ) (fd : Fd) (fs : Fs)
    → (load_inode blank root i fd fs).disk ≡ fs.disk
unfolding load_inode load_fd
load_inode-disk blank root i fd fs = ground arith

-- one number: its inode is loaded if its bit is set
abbrev step : InodeInfo → ℕ → ℕ → Fd → Fs → Fs
step blank root i fd fs =
    if check_bit fs.sbi.fd_bitmask i then load_inode blank root i fd fs else fs

step-sbi :
    (blank : InodeInfo) (root i : ℕ) (fd : Fd) (fs : Fs) → (step blank root i fd fs).sbi ≡ fs.sbi
step-sbi blank root i fd fs = elim (Bool-cases (check_bit fs.sbi.fd_bitmask i)) [
  | inl e ↦ rw e (load_inode-sbi blank root i fd fs)
  | inr e ↦ rw e refl
]

module _ (blank : InodeInfo) (root base : ℕ) where
  load_block_end :
      (b j n index : ℕ) (fs : Fs)
      → fs.sbi.max_file_count ≤ index
      → load_block blank root b j n index fs ≡ (index, fs)
  unfolding load_block
  load_block_end b j zero index fs h = refl
  load_block_end b j (suc n) index fs h = rw (le→leb _ _ h) refl

  load_block_next :
      (b j n index : ℕ) (fs : Fs)
      → index < fs.sbi.max_file_count
      → load_block blank root b j (suc n) index fs
        ≡ load_block blank root b
            (j + 1)
            n
            (index + 1)
            (step blank root index (read_fd (at (fs.disk b) (16 * j))) fs)
  unfolding load_block
  load_block_next b j n index fs h = rw (lt→not_leb _ _ h) refl

  load_each_next :
      (i n : ℕ) (fs : Fs)
      → load_each blank root base i (suc n) fs
        ≡ load_each blank root base
            (i + 1)
            n
            (step blank root i (read_fd (at (fs.disk (base + i / 32)) (16 * (i % 32)))) fs)
  unfolding load_each
  load_each_next i n fs = refl

  load_each_none : (i : ℕ) (fs : Fs) → load_each blank root base i 0 fs ≡ fs
  unfolding load_each
  load_each_none i fs = refl

  load_each-add :
      (i n m : ℕ) (fs : Fs)
      → load_each blank root base i (n + m) fs
        ≡ load_each blank root base (i + n) m (load_each blank root base i n fs)
  unfolding load_each
  load_each-add i zero m fs =
      let z : 0 + m ≡ m = omega arith in let w : i + 0 ≡ i = omega arith in rw (z, w) refl
  load_each-add i (suc n) m fs =
      let z : suc n + m ≡ suc (n + m) = omega arith in
      let w : i + suc n ≡ i + 1 + n = omega arith in rw (z, w) (load_each-add (i + 1) n m _)

  load_each-sbi : (i n : ℕ) (fs : Fs) → (load_each blank root base i n fs).sbi ≡ fs.sbi
  unfolding load_each
  load_each-sbi i zero fs = refl
  load_each-sbi i (suc n) fs = load_each-sbi (i + 1) n _ ∙ step-sbi blank root i _ fs

  -- a number whose bit is set, and numbers whose bits are clear
  pub load_each_set :
      (i n : ℕ) (fs : Fs) (fd : Fd)
      → check_bit fs.sbi.fd_bitmask i ≡ true
      → read_fd (at (fs.disk (base + i / 32)) (16 * (i % 32))) ≡ fd
      → load_each blank root base i (suc n) fs
        ≡ load_each blank root base (i + 1) n (load_inode blank root i fd fs)
  load_each_set i n fs fd h e = load_each_next i n fs ∙ rw (h, e) refl

  pub load_each_clear :
      (i n : ℕ) (fs : Fs)
      → ((k : ℕ) → i ≤ k → check_bit fs.sbi.fd_bitmask k ≡ false)
      → load_each blank root base i n fs ≡ fs
  load_each_clear i zero fs h = load_each_none i fs
  load_each_clear i (suc n) fs h =
      load_each_next i n fs
      ∙ rw (h i (omega arith)) (load_each_clear (i + 1) n fs (λ k l. h k (omega arith)))

  -- the rounds of a block, from the place `j` on
  load_block-each :
      (b j n index max : ℕ) (fs : Fs)
      → j + n ≤ 32
      → 32 * b + j ≡ index
      → index ≤ max
      → fs.sbi.max_file_count ≡ max
      → load_block blank root (base + b) j n index fs
        ≡ (index + min n (max - index), load_each blank root base index (min n (max - index)) fs)
  unfolding load_block
  load_block-each b j zero index max fs hj e hi hm =
      let z : min 0 (max - index) ≡ 0 = omega arith in
      let w : index + 0 ≡ index = omega arith in rw (z, w, load_each_none index fs) refl
  load_block-each b j (suc n) index max fs hj e hi hm = elim (Bool-cases (index == max)) [
    | inl q ↦
        let z : min (suc n) (max - index) ≡ 0 = ground arith in
        let w : index + 0 ≡ index = omega arith in
        rw (z, w, load_each_none index fs)
          (load_block_end (base + b) j (suc n) index fs (ground arith))
    | inr q ↦
        let block : b ≡ index / 32 = omega arith in
        let place : j ≡ index % 32 = omega arith in
        let fd = read_fd (at (fs.disk (base + b)) (16 * j)) in
        let rest = min n (max - (index + 1)) in
        let m : min (suc n) (max - index) ≡ suc rest = ground arith in
        let w : index + suc rest ≡ index + 1 + rest = omega arith in
        let here : fd ≡ read_fd (at (fs.disk (base + index / 32)) (16 * (index % 32))) =
          λ t. read_fd (at (fs.disk (base + block t)) (16 * place t)) in
        load_block_next (base + b) j n index fs (ground arith)
        ∙ load_block-each b (j + 1) n (index + 1) max (step blank root index fd fs) (omega arith)
            (omega arith) (ground arith)
            (ap SbInfo.max_file_count (step-sbi blank root index fd fs) ∙ hm)
        ∙ rw (m, w, load_each_next index rest fs, here) refl
  ]

  -- all the blocks: `n` of them from `b` on
  load_blocks-from :
      (b n index max : ℕ) (fs : Fs)
      → index ≡ min (32 * b) max
      → fs.sbi.max_file_count ≡ max
      → load_blocks blank root (base + b) n index fs
        ≡ load_each blank root base index (min (32 * n) (max - index)) fs
  unfolding load_blocks
  load_blocks-from b zero index max fs e hm =
      let z : min (32 * 0) (max - index) ≡ 0 = omega arith in rw (z, load_each_none index fs) refl
  load_blocks-from b (suc n) index max fs e hm =
      let k = min 32 (max - index) in
      let next : base + b + 1 ≡ base + (b + 1) = omega arith in
      let sum : min (32 * suc n) (max - index) ≡ k + min (32 * n) (max - (index + k)) =
        omega arith in
      let fs' = load_each blank root base index k fs in
      rw (first b index max fs e hm, next, sum, load_each-add index k _ fs)
        (load_blocks-from (b + 1) n (index + k) max fs' (omega arith)
          (ap SbInfo.max_file_count (load_each-sbi index k fs) ∙ hm))
    where
      first :
          (b index max : ℕ) (fs : Fs)
          → index ≡ min (32 * b) max
          → fs.sbi.max_file_count ≡ max
          → load_block blank root (base + b) 0 32 index fs ≡ (
            index + min 32 (max - index),
            load_each blank root base index (min 32 (max - index)) fs,
          )
      first b index max fs e hm = elim (Bool-cases (leb (32 * b) max)) [
        | inl q ↦ load_block-each b 0 32 index max fs (omega arith) (ground arith) (omega arith) hm
        | inr q ↦
            let i : index ≡ max = ground arith in
            let z : min 32 (max - index) ≡ 0 = omega arith in
            let w : index + 0 ≡ index = omega arith in
            rw (z, w, load_each_none index fs)
              (load_block_end (base + b) 0 32 index fs (omega arith))
      ]

-- The nested loop over `n` blocks of descriptors, which counts the numbers with its own `index`, is the
-- loop over the numbers: it loads, in order, each number below `max_file_count` and below 32 times the
-- blocks whose bit is set, from block `i / 32` of the list and place `i % 32` in it.
pub load_blocks-load_each :
    (blank : InodeInfo) (root base n : ℕ) (fs : Fs)
    → load_blocks blank root base n 0 fs
      ≡ load_each blank root base 0 (min (32 * n) fs.sbi.max_file_count) fs
load_blocks-load_each blank root base n fs =
    let z : base + 0 ≡ base = omega arith in
    let w : fs.sbi.max_file_count - 0 ≡ fs.sbi.max_file_count = omega arith in
    rw (z, w) at
      (load_blocks-from blank root base 0 n 0 fs.sbi.max_file_count fs (omega arith) refl)

pub load_blocks-sbi :
    (blank : InodeInfo) (root base n : ℕ) (fs : Fs)
    → (load_blocks blank root base n 0 fs).sbi ≡ fs.sbi
load_blocks-sbi blank root base n fs =
    ap Fs.sbi (load_blocks-load_each blank root base n fs) ∙ load_each-sbi blank root base 0 _ fs
