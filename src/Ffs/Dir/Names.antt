-- ===== src/Ffs/Dir/Names.antt =====
-- Names in directory entries: what `strcmp` finds equal.
use system_sw.Prelude.{
  ℕ, suc, ◌+◌, ◌≤◌, ◌≡◌, ◌∙◌, refl, ap, ◌≢◌, Bool, true, false, not, ◌&&◌, List, [], ◌∷◌, arith,
  ◌==◌, length,
}
use system_sw.Memory.{Bytes, at}
use system_sw.Ffs.Dir.{str_bytes, str_eq}

-- no character is the 0 that ends a string
unfoldable pub nul_free : List ℕ → Bool
nul_free [] = true
nul_free (c ∷ cs) = not (c == 0) && nul_free cs

-- bytes that hold a string and the 0 behind it
abbrev pub HoldsName : Bytes → List ℕ → Type 0
HoldsName f a = (k : ℕ) → k ≤ length a → f k ≡ str_bytes a k

tail-HoldsName : (f : Bytes) (c : ℕ) (cs : List ℕ) → HoldsName f (c ∷ cs) → HoldsName (at f 1) cs
unfolding str_bytes
tail-HoldsName f c cs h k l =
    let e : 1 + k ≡ suc k = omega arith in ap f e ∙ h (suc k) (omega arith)

pub str_eq_self : (f : Bytes) (a : List ℕ) → HoldsName f a → str_eq f a ≡ true
unfolding str_eq str_bytes
str_eq_self f [] h = let e = h 0 (omega arith) in ground (arith, e)
str_eq_self f (c ∷ cs) h =
    let e = h 0 (omega arith) in
    let rest = str_eq_self (at f 1) cs (tail-HoldsName f c cs h) in ground (arith, e, rest)

pub str_eq-names :
    (f : Bytes) (a b : List ℕ)
    → HoldsName f a
    → nul_free a ≡ true
    → nul_free b ≡ true
    → str_eq f b ≡ true
    → a ≡ b
unfolding str_eq str_bytes nul_free
str_eq-names f [] [] h p q e = refl
str_eq-names f [] (c ∷ cs) h p q e = absurd (let z = h 0 (omega arith) in ground (arith, z))
str_eq-names f (c ∷ cs) [] h p q e = absurd (let z = h 0 (omega arith) in ground (arith, z))
str_eq-names f (c ∷ cs) (d ∷ ds) h p q e =
    let z = h 0 (omega arith) in
    let head : c ≡ d = ground (arith, z) in
    let tail : cs ≡ ds =
      str_eq-names (at f 1) cs ds (tail-HoldsName f c cs h) (ground arith) (ground arith)
        (ground arith) in
    λ t. head t ∷ tail t

pub str_eq-other : (f : Bytes) (a b : List ℕ) → HoldsName f a → str_eq f b ≡ false → b ≢ a
str_eq-other f a b h e q =
    absurd (let t = str_eq_self f a h in let s = ap (str_eq f) q in ground (arith, t, s, e))
