-- ===== src/Linear/Client/Keep.antt =====
-- What holds of a program between its actions, and what keeps it.
use system_sw.Prelude.{
  ℕ, ◌+◌, ◌≤◌, ◌<◌, ◌≡◌, ◌∙◌, refl, sym, subst, ◌≢◌, ◌⊎◌, inl, inr, true, false, ◌&&◌, List, [],
  ◌∷◌, arith, ltb, leb, ◌==◌, Bool-cases,
}
use system_sw.Linear.{AlcInfo}
use system_sw.Linear.Chain.{Block, block, OffHeaders}
use system_sw.Linear.Heap.{IsHeap}
use system_sw.Linear.Owned.{Owned, Owned-ge, Owned-OffHeaders}
use system_sw.Linear.Client.{World, Has, without, learn}

-- The region is valid, the program's blocks are busy blocks of it with room for what was asked, and
-- their bytes are the known ones.
pub record Valid (w : World) : Type 0 where
  pub blocks : List Block
  pub heap : IsHeap w.mi blocks
  pub owns : (a s : ℕ) → Has w.live a s → (t : ℕ) × (s ≤ t) × Owned 12 blocks a t
  pub known : (a s i : ℕ) → Has w.live a s → a ≤ i → i < a + s → w.mi.memory i ≡ w.shadow i

kept_entry :
    (x a' s' : ℕ) (live : List (ℕ × ℕ)) (a s : ℕ)
    → (a' == x) ≡ false
    → ((a ≡ a') × (s ≡ s')) ⊎ ((a ≢ x) × Has live a s)
    → (a ≢ x) × (((a ≡ a') × (s ≡ s')) ⊎ Has live a s)
kept_entry x a' s' live a s k (inl e) = (ground arith, inl e)
kept_entry x a' s' live a s k (inr (ne, h)) = (ne, inr h)

pub Has-without :
    (x : ℕ) (live : List (ℕ × ℕ)) (a s : ℕ) → Has (without x live) a s → (a ≢ x) × Has live a s
unfolding without
Has-without x [] a s h = absurd h
Has-without x ((a', s') ∷ live) a s h =
    let rest = Has-without x live a s in
    elim (Bool-cases (a' == x)) [
      | inl k ↦ let (ne, y) = rest (rw k at h) in (ne, inr y)
      | inr k ↦
          kept_entry x a' s' live a s k (elim (rw k at h) [ inl e ↦ inl e | inr y ↦ inr (rest y) ])
    ]

-- a payload of the new region off its headers
pub payload :
    (bs : List Block) (a t i : ℕ)
    → Owned 12 bs a t
    → a ≤ i
    → i < a + t
    → OffHeaders 0 (block true 0 ∷ bs) i
payload bs a t i h l u =
    (inr (omega (arith, Owned-ge 12 bs a t h)), Owned-OffHeaders 12 bs a t i h l u)

module _ (w : World) (v : Valid w) where
  -- an answer `bs'` to a run that writes headers alone and keeps the blocks of `live'` owned
  pub keep_live :
      (mi' : AlcInfo) (bs' : List Block) (live' : List (ℕ × ℕ))
      → IsHeap mi' bs'
      → ((i : ℕ) → OffHeaders 0 (block true 0 ∷ bs') i → mi'.memory i ≡ w.mi.memory i)
      → ((a s : ℕ) → Has live' a s → (t : ℕ) × (s ≤ t) × Owned 12 bs' a t)
      → ((a s : ℕ) → Has live' a s → (s' : ℕ) × (s ≤ s') × Has w.live a s')
      → Valid (record w { mi = mi'; live = live' })
  keep_live mi' bs' live' is frame owns before = record {
    blocks = bs';
    heap = is;
    owns = owns;
    known = λ a s i h l u.
        let (t, fits, o) = owns a s h in
        let (s', more, old) = before a s h in
        frame i (payload bs' a t i o l (omega (arith, fits)))
        ∙ v.known a s' i old l (omega (arith, more));
  }

  -- a new block, apart from the blocks that were there
  pub granted :
      (size a t : ℕ) (mi' : AlcInfo) (bs' : List Block)
      → IsHeap mi' bs'
      → size ≤ t
      → Owned 12 bs' a t
      → ((a' s : ℕ) → Owned 12 v.blocks a' s → Owned 12 bs' a' s)
      → ((a' s i : ℕ) → Owned 12 v.blocks a' s → a' ≤ i → i < a' + s → mi'.memory i ≡ w.mi.memory i)
      → Valid (record {
        mi = mi';
        live = (a, size) ∷ w.live;
        shadow = learn w.shadow mi'.memory a size;
      })
  granted size a t mi' bs' is fits new old frame =
      let owns : (a' s : ℕ)
          → ((a' ≡ a) × (s ≡ size)) ⊎ Has w.live a' s
          → (t' : ℕ) × (s ≤ t') × Owned 12 bs' a' t' =
        λ a' s h. elim h [
          | inl e ↦ (t, omega (arith, e, fits), subst (λ x. Owned 12 bs' x t) (sym e.0) new)
          | inr y ↦ let (t', f, o) = v.owns a' s y in (t', f, old a' t' o)
        ] in
      let known : (a' s i : ℕ)
          → ((a' ≡ a) × (s ≡ size)) ⊎ Has w.live a' s
          → a' ≤ i
          → i < a' + s
          → mi'.memory i ≡ learn w.shadow mi'.memory a size i =
        λ a' s i h l u. elim (Bool-cases (leb a i && ltb i (a + size))) [
          | inl k ↦ rw k refl
          | inr k ↦ elim h [
            | inl e ↦ absurd (ground (arith, e))
            | inr y ↦
                let (t', f, o) = v.owns a' s y in
                rw k (frame a' t' i o l (omega (arith, f)) ∙ v.known a' s i y l u)
          ]
        ] in
      record { blocks = bs'; heap = is; owns = owns; known = known }
