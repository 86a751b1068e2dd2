-- ===== src/Linear/Client.antt =====
-- A program that uses the linear allocator: it allocates, frees and cuts down blocks, and writes
-- into the blocks it has. `live` lists the blocks that it has, with the sizes it asked for, and
-- `shadow` is what it knows of their bytes.
pub mod Blocks
pub mod Keep
pub mod Steps
pub mod Safe
use system_sw.Prelude.{
  ℕ, zero, suc, ◌+◌, ◌-◌, ◌*◌, ◌/◌, ◌%◌, ◌^◌, ◌≤◌, ◌<◌, min, ◌≡◌, ◌∙◌, refl, sym, ap, subst, ◌≢◌,
  ◌↔◌, ◌⊎◌, inl, inr, Bool, true, false, not, ◌&&◌, ◌||◌, Option, none, some, List, [], ◌∷◌, ◌++◌,
  map, arith, ltb, leb, ◌==◌, if◌then◌else◌, ltb→lt, lt→ltb, le→not_ltb, le→leb, lt→not_leb,
  Bool-cases, ◌>>=◌, length, length-append,
}
use system_sw.Prelude.Word.{
  wrap, sub32, positive, wrap_small, sub32_small, sub32_neg, positive_small, not_positive_of_neg,
  positive-sub32,
}
use system_sw.Memory.{Bytes}
use system_sw.Linear.{AlcInfo, mem_alloc, mem_free}
use system_sw.Linear.Realloc.{mem_realloc}

pub record World : Type 0 where
  pub mi : AlcInfo
  pub live : List (ℕ × ℕ)
  pub shadow : Bytes

-- the block at `a` with `s` bytes is one of the program's
abbrev pub Has : List (ℕ × ℕ) → ℕ → ℕ → Type 0
Has [] a s = ⊥
Has ((a', s') ∷ live) a s = ((a ≡ a') × (s ≡ s')) ⊎ Has live a s

-- the blocks at other addresses
pub without : ℕ → List (ℕ × ℕ) → List (ℕ × ℕ)
without a [] = []
without a ((a', s') ∷ live) = let rest = without a live in if a' == a then rest else (a', s') ∷ rest

-- the known bytes, with those of a new block as they are found
abbrev pub learn : Bytes → Bytes → ℕ → ℕ → Bytes
learn shadow m a s i = if leb a i && ltb i (a + s) then m i else shadow i

abbrev pub put_byte : Bytes → ℕ → ℕ → Bytes
put_byte m i v k = if k == i then v else m k

-- One action of the program. A block that is cut down keeps its address.
module _ (junk : Bytes → Bytes) where
  pub data Step : World → World → Type 0 where
    allocates :
        (w : World) (size a : ℕ) (mi' : AlcInfo)
        → mem_alloc junk size w.mi ≡ some (some a, mi')
        → Step w (record {
          mi = mi';
          live = (a, size) ∷ w.live;
          shadow = learn w.shadow mi'.memory a size;
        })
    refused :
        (w : World) (size : ℕ) (mi' : AlcInfo)
        → mem_alloc junk size w.mi ≡ some (none, mi')
        → Step w (record w { mi = mi' })
    frees :
        (w : World) (a s : ℕ) (mi' : AlcInfo)
        → Has w.live a s
        → mem_free junk a w.mi ≡ some mi'
        → Step w (record w { mi = mi'; live = without a w.live })
    cuts :
        (w : World) (a s size : ℕ) (r : Option ℕ) (mi' : AlcInfo)
        → Has w.live a s
        → size < s
        → mem_realloc junk (mem_free junk) (some a) size w.mi ≡ some (r, mi')
        → Step w (record w { mi = mi'; live = (a, size) ∷ without a w.live })
    writes :
        (w : World) (a s i v : ℕ)
        → Has w.live a s
        → a ≤ i
        → i < a + s
        → Step w (record {
          mi = record w.mi { memory = put_byte w.mi.memory i v };
          live = w.live;
          shadow = put_byte w.shadow i v;
        })

  pub data Reach (start : World) : World → Type 0 where
    here : Reach start start
    next : {w w' : World} → Reach start w → Step w w' → Reach start w'
