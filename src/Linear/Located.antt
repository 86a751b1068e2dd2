-- ===== src/Linear/Located.antt =====
-- A busy block in a valid region, and a region with a part of its blocks replaced.
use system_sw.Prelude.{
  ℕ, ◌+◌, ◌-◌, ◌≤◌, ◌≡◌, ◌∙◌, refl, sym, ap, subst, true, false, List, [], ◌∷◌, ◌++◌, arith,
}
use system_sw.Prelude.Word.{wrap, sub32, wrap_small, sub32_small}
use system_sw.Memory.{Bytes}
use system_sw.Linear.{AlcInfo, size_h}
use system_sw.Linear.Chain.{
  Block, block, span, last_size, Chain, Chain-suffix, Chain-graft, SameBelow, Chain-le, OffHeaders,
  OffHeaders-suffix,
}
use system_sw.Linear.Heap.{Tidy, IsHeap, last_free, Tidy-suffix, Tidy-graft}

-- `addr` is the address of a busy block of size `s` behind the block `left`.
pub record Located (bs : List Block) (addr s : ℕ) : Type 0 where
  pub before : List Block
  pub left : Block
  pub after : List Block
  pub split : block true 0 ∷ bs ≡ before ++ left ∷ block true s ∷ after
  pub place : addr ≡ span before + 12 + left.size + 12

-- the blocks from the one in front of the located block on
abbrev pub part : {bs : List Block} {addr s : ℕ} → Located bs addr s → List Block
part {s} l = l.left ∷ block true s ∷ l.after

-- the region with `part l` replaced by `zs`
abbrev pub Replaced :
    {bs : List Block} {addr s : ℕ} → Located bs addr s → List Block → List Block → Type 0
Replaced l zs bs' = block true 0 ∷ bs' ≡ l.before ++ zs

head_eq : (x y : Block) (xs ys : List Block) → x ∷ xs ≡ y ∷ ys → x ≡ y
head_eq x y xs ys e = cc

rebuild :
    (bs xs : List Block) (a : Block) (ys zs : List Block)
    → block true 0 ∷ bs ≡ xs ++ a ∷ ys
    → (a.busy ≡ true → (ws : List Block) × (zs ≡ a ∷ ws))
    → (bs' : List Block) × (block true 0 ∷ bs' ≡ xs ++ zs)
rebuild bs [] a ys zs e keep =
    let h = head_eq (block true 0) a bs ys e in
    let (ws, k) = keep (ap (λ x. x.busy) (sym h)) in (ws, ap (λ x. x ∷ ws) h ∙ sym k)
rebuild bs (x ∷ xs) a ys zs e keep =
    (xs ++ zs, ap (λ y. y ∷ xs ++ zs) (head_eq (block true 0) x bs (xs ++ a ∷ ys) e))

module _ {mi : AlcInfo} {bs : List Block} {addr s : ℕ} (is : IsHeap mi bs)
    (l : Located bs addr s) where
  pub part-Chain : Chain mi.amount mi.memory (span l.before) (last_size 0 l.before) (part l)
  part-Chain =
      let c = subst (λ x. Chain mi.amount mi.memory 0 0 x) l.split is.chain in
      let z : 0 + span l.before ≡ span l.before = omega arith in
      subst (λ o. Chain mi.amount mi.memory o (last_size 0 l.before) (part l)) z
        (Chain-suffix mi.amount mi.memory 0 0 l.before (part l) c)

  full-Tidy : Tidy false (l.before ++ part l)
  full-Tidy = subst (λ x. Tidy false x) l.split (refl, refl, is.tidy)

  pub part-Tidy : Tidy (last_free false l.before) (part l)
  part-Tidy = Tidy-suffix false l.before (part l) full-Tidy

  -- the region after a change from `l.left` on
  pub replace :
      (m' : Bytes) (zs : List Block)
      → SameBelow (span l.before) mi.memory m'
      → Chain mi.amount m' (span l.before) (last_size 0 l.before) zs
      → Tidy (last_free false l.before) zs
      → (l.left.busy ≡ true → (ws : List Block) × (zs ≡ l.left ∷ ws))
      → (bs' : List Block) × Replaced l zs bs' × IsHeap (record mi { memory = m' }) bs'
  replace m' zs below c t keep =
      let z : span l.before ≡ 0 + span l.before = omega arith in
      let (bs', e) = rebuild bs l.before l.left (block true s ∷ l.after) zs l.split keep in
      let c0 = subst (λ x. Chain mi.amount mi.memory 0 0 x) l.split is.chain in
      let c' =
        Chain-graft mi.amount mi.memory m' 0 0 l.before (part l) zs c0
          (λ i h. below i (omega arith))
          (subst (λ o. Chain mi.amount m' o (last_size 0 l.before) zs) z c) in
      let t' = Tidy-graft false l.before (part l) zs full-Tidy t in
      (
        bs',
        e,
        record {
          chain = subst (λ x. Chain mi.amount m' 0 0 x) (sym e) c';
          small = is.small;
          tidy = (subst (λ x. Tidy false x) (sym e) t').2;
        },
      )

  -- the offset of the located block
  abbrev pub own : ℕ
  own = span l.before + 12 + l.left.size

  pub own-lt : own + 24 + s ≤ mi.amount
  own-lt = omega (arith, Chain-le mi.amount mi.memory _ _ (part l) part-Chain)

  pub own_offset : sub32 addr size_h ≡ own
  own_offset =
      let p = l.place in
      let le = own-lt in
      let sm = is.small in sub32_small addr 12 (omega arith) (omega arith) ∙ omega arith

  pub left_offset : sub32 (sub32 addr l.left.size) 24 ≡ span l.before
  left_offset =
      let p = l.place in
      let le = own-lt in
      let sm = is.small in
      ap (λ x. sub32 x 24) (sub32_small addr l.left.size (omega arith) (omega arith))
      ∙ sub32_small (addr - l.left.size) 24 (omega arith) (omega arith)
      ∙ omega arith

  pub right_offset : wrap (addr + s) ≡ own + 12 + s
  right_offset =
      let p = l.place in
      let le = own-lt in let sm = is.small in wrap_small (addr + s) (omega arith) ∙ omega arith

  -- the off-header bytes of the new region, seen from the replaced part
  pub part-OffHeaders :
      (zs bs' : List Block) (i : ℕ)
      → Replaced l zs bs'
      → OffHeaders 0 (block true 0 ∷ bs') i
      → OffHeaders (span l.before) zs i
  part-OffHeaders zs bs' i e off =
      let z : 0 + span l.before ≡ span l.before = omega arith in
      subst (λ o. OffHeaders o zs i) z
        (OffHeaders-suffix 0 l.before zs i (subst (λ x. OffHeaders 0 x i) e off))
