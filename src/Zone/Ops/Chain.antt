-- ===== src/Zone/Ops/Chain.antt =====
-- The list of free blocks in a page.
use system_sw.Prelude.{
  ℕ, zero, suc, ◌+◌, ◌^◌, ◌<◌, ◌≡◌, ◌∙◌, refl, ap, true, false, Option, none, some, List, [], ◌∷◌,
  arith, ◌==◌, length,
}
use system_sw.Zone.{desc, ZoneInfo, put}
use system_sw.Zone.Ops.{link_blocks}

-- the list from `head` on, as the links in the blocks give it
abbrev pub Chain : (ℕ → Option ℕ) → Option ℕ → List ℕ → Type 0
Chain links head [] = head ≡ none
Chain links head (b ∷ bs) = (head ≡ some b) × Chain links (links b) bs

-- `n` blocks of `size` bytes from `a` on
unfoldable pub blocks_from : ℕ → ℕ → ℕ → List ℕ
blocks_from a size zero = []
blocks_from a size (suc n) = a ∷ blocks_from (a + size) size n

pub length-blocks_from : (a size n : ℕ) → length (blocks_from a size n) ≡ n
unfolding blocks_from
length-blocks_from a size zero = refl
length-blocks_from a size (suc n) = ap suc (length-blocks_from (a + size) size n)

-- the links in front of the blocks stay
pub link_blocks_before :
    (links : ℕ → Option ℕ) (block size n k : ℕ)
    → k < block
    → link_blocks links block size n k ≡ links k
unfolding link_blocks
link_blocks_before links block size zero k h =
    let e : (k == block) ≡ false = ground arith in rw e refl
link_blocks_before links block size (suc n) k h =
    let e : (k == block) ≡ false = ground arith in
    link_blocks_before (put links block (some (block + size))) (block + size) size n k (omega arith)
    ∙ rw e refl

-- The loop of `alloc_page` that links the blocks of a page makes a list of all of them.
pub link_blocks-Chain :
    (links : ℕ → Option ℕ) (block size n : ℕ)
    → 0 < size
    → Chain (link_blocks links block size n) (some block) (blocks_from block size (suc n))
unfolding link_blocks blocks_from
link_blocks-Chain links block size zero pos =
    (refl, let e : (block == block) ≡ true = ground arith in rw e refl)
link_blocks-Chain links block size (suc n) pos =
    let l = put links block (some (block + size)) in
    let e : (block == block) ≡ true = ground arith in
    let first : link_blocks l (block + size) size n block ≡ some (block + size) =
      link_blocks_before l (block + size) size n block (omega arith) ∙ rw e refl in
    let rest = link_blocks-Chain l (block + size) size n pos in (refl, (first, rest.1))

-- a page in order: its descriptor is at `d`, and `bs` are its free blocks, first to last
pub record OpenPage (z : ZoneInfo) (d : ℕ) (bs : List ℕ) : Type 0 where
  pub chain : Chain z.links (z.store d).block bs
  pub free_count : (z.store d).free_count ≡ length bs
  pub page : z.descriptors (z.store d).index ≡ desc d
  pub small : length bs < 2 ^ 32
