-- ===== src/Ffs/Bitmask/OnDisk.antt =====
-- A mask and its copy on the disk.
use system_sw.Prelude.{
  ℕ, ◌+◌, ◌-◌, ◌*◌, ◌/◌, ◌%◌, ◌^◌, ◌≤◌, ◌<◌, min, ◌≡◌, ◌∙◌, sym, ap, ◌≢◌, inl, inr, arith, ◌==◌,
  Bool-cases,
}
use system_sw.Prelude.Word.{sub32_small}
use system_sw.Memory.{Bytes, at, copy_inside}
use system_sw.Ffs.{write_block}
use system_sw.Ffs.Bitmask.{bitmask_page, page_len, put_page}

-- the blocks from `base` on hold the `len` bytes of the mask
abbrev pub OnDisk : (ℕ → Bytes) → ℕ → Bytes → ℕ → Type 0
OnDisk disk base bm len = (k : ℕ) → k < len → disk (k / 512 + base) (k % 512) ≡ bm k

-- the disk with the page of bit `i` written
abbrev pub written : (ℕ → Bytes) → ℕ → Bytes → ℕ → ℕ → ℕ → Bytes
written disk base bm len i =
    let b = bitmask_page i + base in write_block disk b (put_page bm len i (disk b))

page_len-eq :
    (len i : ℕ)
    → bitmask_page i * 512 ≤ len
    → len < 2 ^ 32
    → page_len len i ≡ min 512 (len - bitmask_page i * 512)
unfolding page_len
page_len-eq len i h l = rw (sub32_small len (bitmask_page i * 512) h l) (ground arith)

-- Writing the page of a byte that changed brings the disk up to date.
pub put_page-OnDisk :
    (disk : ℕ → Bytes) (base : ℕ) (bm bm' : Bytes) (len i : ℕ)
    → OnDisk disk base bm len
    → ((k : ℕ) → k ≢ i / 8 → bm' k ≡ bm k)
    → i / 8 < len
    → len < 2 ^ 32
    → OnDisk (written disk base bm' len i) base bm' len
unfolding put_page
put_page-OnDisk disk base bm bm' len i h same hi hl k hk =
    elim (Bool-cases (k / 512 + base == bitmask_page i + base)) [
      | inl e ↦
          let p : k / 512 ≡ bitmask_page i = ground arith in
          let n = page_len-eq len i (omega arith) hl in
          let room : k % 512 < page_len len i = omega arith in
          let z : 0 + k % 512 ≡ k % 512 = omega arith in
          let there : bitmask_page i * 512 + k % 512 ≡ k = omega arith in
          rw e (
            (rw z at (
              copy_inside (disk (bitmask_page i + base)) 0 (at bm' (bitmask_page i * 512))
                (page_len len i) (k % 512) room))
            ∙ ap bm' there)
      | inr e ↦
          let ne : k ≢ i / 8 =
            λ q. absurd (let p : k / 512 ≡ bitmask_page i = omega arith in ground arith) in
          rw e (h k hk ∙ sym (same k ne))
    ]

-- every other block stays
pub put_page-other :
    (disk : ℕ → Bytes) (b n : ℕ) (bytes : Bytes) → n ≢ b → write_block disk b bytes n ≡ disk n
put_page-other disk b n bytes h = ground arith
