-- ===== src/Linear/Header.antt =====
-- Reading back a header that `write_raw_header` wrote, and headers that a write spares.
use system_sw.Prelude.{ℕ, ◌+◌, ◌≤◌, ◌<◌, ◌^◌, ◌≡◌, ◌∙◌, ◌⊎◌, Bool, true, false, arith}
use system_sw.Prelude.Word.{wrap, wrap_small}
use system_sw.Memory.{Bytes, at, copy, get32, bytes_sum, copy_inside, copy_outside}
use system_sw.Linear.{
  BlockHeader, header, header_bytes, read_bytes, read_header, is_busy, set_busy, write_raw_header,
}

read_bytes-congr : (f g : Bytes) → ((k : ℕ) → k < 12 → f k ≡ g k) → read_bytes f ≡ read_bytes g
unfolding read_bytes get32
read_bytes-congr f g e = ground (arith, e 0, e 4, e 5, e 6, e 7, e 8, e 9, e 10, e 11)

-- a header depends on its own twelve bytes
pub read_header-congr :
    (m m' : Bytes) (o : ℕ)
    → ((i : ℕ) → o ≤ i → i < o + 12 → m' i ≡ m i)
    → read_header m' o ≡ read_header m o
unfolding read_header
read_header-congr m m' o e =
    read_bytes-congr (at m' o) (at m o) (λ k h. e (o + k) (omega arith) (omega arith))

read_bytes-header_bytes :
    (junk : Bytes) (h : BlockHeader)
    → h.size < 2 ^ 32
    → h.prev_size < 2 ^ 32
    → read_bytes (header_bytes junk h) ≡ h
unfolding read_bytes header_bytes get32
read_bytes-header_bytes junk h s p = ground (arith, bytes_sum h.size s, bytes_sum h.prev_size p)

set_busy-is_busy : (b : Bool) (f s p : ℕ) → is_busy (header (set_busy b f) s p) ≡ b
unfolding is_busy set_busy
set_busy-is_busy true f s p = ground arith
set_busy-is_busy false f s p = ground arith

module _ (junk : Bytes → Bytes) (m : Bytes) (o : ℕ) (b : Bool) (s p : ℕ) where
  pub raw_header_lem :
      s < 2 ^ 32
      → p < 2 ^ 32
      → let h = read_header (write_raw_header junk m o b s p) o in
        (is_busy h ≡ b) × (h.size ≡ s) × (h.prev_size ≡ p)
  unfolding write_raw_header read_header
  raw_header_lem hs hp =
      let h = header (set_busy b (junk m 0)) (wrap s) (wrap p) in
      let e : read_bytes (at (copy m o (header_bytes (junk m) h) 12) o) ≡ h =
        read_bytes-congr _ _ (λ k l. copy_inside m o (header_bytes (junk m) h) 12 k l)
        ∙ read_bytes-header_bytes (junk m) h (rw (wrap_small s hs) hs) (rw (wrap_small p hp) hp) in
      rw e (set_busy-is_busy b (junk m 0) (wrap s) (wrap p), wrap_small s hs, wrap_small p hp)

  pub raw_header_frame : (i : ℕ) → (i < o) ⊎ (o + 12 ≤ i) → write_raw_header junk m o b s p i ≡ m i
  unfolding write_raw_header
  raw_header_frame i h = copy_outside m o _ 12 i h
