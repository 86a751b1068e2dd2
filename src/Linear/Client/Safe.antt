-- ===== src/Linear/Client/Safe.antt =====
-- What a program may rely on from `alc_init` on.
use system_sw.Prelude.{
  ℕ, ◌+◌, ◌-◌, ◌*◌, ◌/◌, ◌^◌, ◌≤◌, ◌<◌, ◌≡◌, refl, subst, ◌≢◌, Bool-cases, ◌==◌, ◌⊎◌, inl, inr,
  false, Option, none, some, List, [], ◌∷◌, arith,
}
use system_sw.Memory.{Bytes}
use system_sw.Linear.{AlcInfo, alc_init, mem_alloc, mem_free}
use system_sw.Linear.Chain.{Block, block}
use system_sw.Linear.Heap.{IsHeap}
use system_sw.Linear.Located.{own-lt}
use system_sw.Linear.Owned.{Owned, Owned-Located}
use system_sw.Linear.Alloc.Contract.{Answered, mem_alloc-contract}
use system_sw.Linear.Free.{mem_free-merge}
use system_sw.Linear.Init.{alc_init-IsHeap}
use system_sw.Linear.Client.{
  World, Has, without, Step, allocates, refused, frees, cuts, writes, Reach, here, next,
}
use system_sw.Linear.Client.Blocks.{Owned-apart}
use system_sw.Linear.Client.Keep.{Valid, Has-without}
use system_sw.Linear.Client.Steps.{Reach-Valid}

-- no two entries have one address
abbrev pub Distinct : List (ℕ × ℕ) → Type 0
Distinct [] = Unit {0}
Distinct ((a, s) ∷ live) = ((s' : ℕ) → Has live a s' → ⊥) × Distinct live

-- `bs` are the blocks of a valid region, and each of the program's is a busy one with its bytes
pub record InRegion (w : World) (bs : List Block) : Type 0 where
  pub heap : IsHeap w.mi bs
  pub busy : (a s : ℕ) → Has w.live a s → (t : ℕ) × (s ≤ t) × Owned 12 bs a t

pub record Safe (junk : Bytes → Bytes) (w : World) : Type 0 where
  pub region : (bs : List Block) × InRegion w bs
  pub distinct : Distinct w.live
  pub known : (a s i : ℕ) → Has w.live a s → a ≤ i → i < a + s → w.mi.memory i ≡ w.shadow i
  pub apart :
      (a s a' s' : ℕ)
      → Has w.live a s
      → Has w.live a' s'
      → a ≢ a'
      → (a + s + 12 ≤ a') ⊎ (a' + s' + 12 ≤ a)
  pub inside : (a s : ℕ) → Has w.live a s → (24 ≤ a) × (a + s + 12 ≤ w.mi.amount)
  pub allocates : (size : ℕ) → (r : Option ℕ × AlcInfo) × (mem_alloc junk size w.mi ≡ some r)
  pub frees : (a s : ℕ) → Has w.live a s → (mi' : AlcInfo) × (mem_free junk a w.mi ≡ some mi')

run_ends :
    (mi : AlcInfo) (bs : List Block) (size : ℕ) (r : Option (Option ℕ × AlcInfo))
    → Answered mi bs size r
    → (x : Option ℕ × AlcInfo) × (r ≡ some x)
run_ends mi bs size r (inl (e, u)) = ((none, mi), e)
run_ends mi bs size r (inr (a, mi', bs', t, e, is, fits, g, frame)) = ((some a, mi'), e)

Distinct-without : (x : ℕ) (live : List (ℕ × ℕ)) → Distinct live → Distinct (without x live)
unfolding without
Distinct-without x [] d = tt
Distinct-without x ((a, s) ∷ live) (out, d) = elim (Bool-cases (a == x)) [
  | inl e ↦ rw e (Distinct-without x live d)
  | inr e ↦ rw e ((λ s' h. out s' (Has-without x live a s' h).1), Distinct-without x live d)
]

cut-Distinct : (a s : ℕ) (live : List (ℕ × ℕ)) → Distinct live → Distinct ((a, s) ∷ without a live)
cut-Distinct a s live d = ((λ s' h. (Has-without a live a s' h).0 refl), Distinct-without a live d)

-- a block that `mem_alloc` answers is none of the program's
new_address :
    (junk : Bytes → Bytes) (w : World) (v : Valid w) (size a : ℕ) (mi' : AlcInfo)
    → mem_alloc junk size w.mi ≡ some (some a, mi')
    → (s : ℕ) → Has w.live a s
    → ⊥
new_address junk w v size a mi' run s h = elim (mem_alloc-contract junk w.mi v.blocks size v.heap) [
  | inl (e, u) ↦ cc
  | inr (a1, mi1, bs1, t, e, is, fits, (new, old), frame) ↦
      let ea : a ≡ a1 = cc in let (t', f, o) = v.owns a s h in (old a t' o).2 ea
]

Step-Distinct :
    (junk : Bytes → Bytes) {w w' : World}
    → Step junk w w'
    → Valid w
    → Distinct w.live
    → Distinct w'.live
Step-Distinct junk (allocates w size a mi' run) v d = (new_address junk w v size a mi' run, d)
Step-Distinct junk (refused w size mi' run) v d = d
Step-Distinct junk (frees w a s mi' h run) v d = Distinct-without a w.live d
Step-Distinct junk (cuts w a s size r mi' h less run) v d = cut-Distinct a size w.live d
Step-Distinct junk (writes w a s i b h l u) v d = d

Reach-Distinct :
    (junk : Bytes → Bytes) {w w' : World}
    → Valid w
    → Distinct w.live
    → Reach junk w w'
    → Distinct w'.live
Reach-Distinct junk v d here = d
Reach-Distinct junk v d (next r st) =
    Step-Distinct junk st (Reach-Valid junk v r) (Reach-Distinct junk v d r)

Valid-Safe : (junk : Bytes → Bytes) (w : World) → Valid w → Distinct w.live → Safe junk w
Valid-Safe junk w v d = record {
  region = (v.blocks, record { heap = v.heap; busy = v.owns });
  distinct = d;
  known = v.known;
  apart = λ a s a' s' h h' ne.
      let (t, f, o) = v.owns a s h in
      let (t', f', o') = v.owns a' s' h' in
      elim (Owned-apart 12 v.blocks a t a' t' o o') [
        | inl e ↦ absurd (ne e.0)
        | inr (inl x) ↦ inl (omega (arith, f, x))
        | inr (inr x) ↦ inr (omega (arith, f', x))
      ];
  inside = λ a s h.
      let (t, f, o) = v.owns a s h in
      let l = Owned-Located v.blocks a t o in
      let p = l.place in (omega arith, omega (arith, f, own-lt v.heap l));
  allocates =
      λ size. run_ends w.mi v.blocks size _ (mem_alloc-contract junk w.mi v.blocks size v.heap);
  frees = λ a s h.
      let (t, f, o) = v.owns a s h in
      let (mi1, bs1, e, split, is, am, frame) =
        mem_free-merge v.heap (Owned-Located v.blocks a t o) junk in
      (mi1, e);
}

-- A program that starts with the region which `alc_init` makes of 36 bytes or more, fewer than
-- 2 ^ 31, and allocates, frees, cuts down its blocks and writes into them, in any order: at any time
-- the region is valid, each of its blocks is a busy one of it, no two of them have one address,
-- its blocks hold the bytes that it knows of them, lie inside the region, and two of them are a
-- header or more apart; `mem_alloc` of any size ends, and so does `mem_free` of any of its blocks.
pub Reach-Safe :
    (junk : Bytes → Bytes) (n : ℕ) (mem : Bytes) (mi : AlcInfo) (shadow : Bytes) (w : World)
    → 36 ≤ n
    → n < 2 ^ 31
    → alc_init junk n (some mem) ≡ some mi
    → Reach junk (record { mi = mi; live = []; shadow = shadow }) w
    → Safe junk w
Reach-Safe junk n mem mi shadow w lo hi run r =
    let (mi1, e, am, is) = alc_init-IsHeap junk n mem lo hi in
    let em : mi1 ≡ mi = cc in
    let first : Valid (record { mi = mi; live = []; shadow = shadow }) = record {
      blocks = block false ((n - 36) / 4 * 4) ∷ [];
      heap = subst (λ x. IsHeap x (block false ((n - 36) / 4 * 4) ∷ [])) em is;
      owns = λ a s h. absurd h;
      known = λ a s i h l u. absurd h;
    } in
    Valid-Safe junk w (Reach-Valid junk first r) (Reach-Distinct junk first tt r)
