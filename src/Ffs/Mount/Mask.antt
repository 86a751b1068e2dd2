-- ===== src/Ffs/Mount/Mask.antt =====
-- What the loops of `ffs_read_root` that read a mask leave in it.
use system_sw.Prelude.{
  ℕ, zero, suc, ◌+◌, ◌*◌, ◌^◌, ◌≤◌, ◌<◌, ◌≡◌, ◌∙◌, refl, false, arith, ltb, if◌then◌else◌,
}
use system_sw.Prelude.Word.{wrap, wrap_small}
use system_sw.Memory.{Bytes}
use system_sw.Ffs.Mount.{mask_part, read_mask}

mask_part_full : (len back : ℕ) → 512 ≤ len + back → len + back < 2 ^ 31 → mask_part len back ≡ 512
unfolding wrap
mask_part_full len back h l = ground arith

mask_part_small : (len : ℕ) → len ≤ 512 → mask_part len 0 ≡ len
unfolding wrap
mask_part_small len h = ground arith

-- a round that begins a block or more behind copies nothing into the mask
later_rounds :
    (disk : ℕ → Bytes) (len n b back : ℕ) (mask : Bytes) (k : ℕ)
    → 512 ≤ back
    → len + back + 512 * n < 2 ^ 31
    → read_mask disk len n b back mask k ≡ mask k
unfolding read_mask
later_rounds disk len zero b back mask k h l = refl
later_rounds disk len (suc n) b back mask k h l =
    let p = mask_part_full len back (omega arith) (omega arith) in
    let w : wrap (back + 512) ≡ back + 512 = wrap_small _ (omega arith) in
    let out : ltb (k + back) 512 ≡ false = ground arith in
    rw (p, w)
      (later_rounds disk len n (b + 1) (back + 512) _ k (omega arith) (omega arith) ∙ rw out refl)

-- a mask in one block
pub read_mask_one :
    (disk : ℕ → Bytes) (len b : ℕ) (mask : Bytes) (k : ℕ)
    → len ≤ 512
    → read_mask disk len 1 b 0 mask k ≡ (if ltb k len then disk b k else mask k)
unfolding read_mask
read_mask_one disk len b mask k h =
    let z : k + 0 ≡ k = omega arith in rw (mask_part_small len h, z) refl

-- Of a mask of 512 bytes or more, in any number of blocks, the loop reads only the first block: byte
-- `k` is the first block's where `k` is below 512, and what the buffer held before elsewhere.
pub read_mask_first :
    (disk : ℕ → Bytes) (len n b : ℕ) (mask : Bytes) (k : ℕ)
    → 512 ≤ len
    → 0 < n
    → len + 512 * n < 2 ^ 31
    → read_mask disk len n b 0 mask k ≡ (if ltb k 512 then disk b k else mask k)
unfolding read_mask
read_mask_first disk len zero b mask k h p l = absurd (omega arith)
read_mask_first disk len (suc n) b mask k h p l =
    let z : k + 0 ≡ k = omega arith in
    let w : wrap (0 + 512) ≡ 512 = wrap_small _ (omega arith) in
    rw (mask_part_full len 0 (omega arith) (omega arith), w)
      (later_rounds disk len n (b + 1) 512 _ k (omega arith) (omega arith) ∙ rw z refl)
