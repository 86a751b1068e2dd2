-- ===== src/Linear/Client/Steps.antt =====
-- Every action of a program leaves it with a valid region, in which it owns its blocks and knows
-- their bytes.
use system_sw.Prelude.{
  ℕ, ◌+◌, ◌≤◌, ◌<◌, ◌≡◌, refl, sym, subst, ◌≢◌, inl, inr, true, false, Option, none, some, ◌∷◌,
  arith, ◌==◌, Bool-cases,
}
use system_sw.Memory.{Bytes}
use system_sw.Linear.{AlcInfo, mem_alloc, mem_free}
use system_sw.Linear.Chain.{block}
use system_sw.Linear.Heap.{round_up}
use system_sw.Linear.Owned.{Owned, Owned-Located}
use system_sw.Linear.Alloc.Contract.{Answered, mem_alloc-contract}
use system_sw.Linear.Free.{merge, mem_free-merge}
use system_sw.Linear.Realloc.{mem_realloc}
use system_sw.Linear.Realloc.Shrink.{trim, mem_realloc-trim}
use system_sw.Linear.Client.{
  World, Has, without, learn, put_byte, Step, allocates, refused, frees, cuts, writes, Reach, here,
  next,
}
use system_sw.Linear.Client.Blocks.{
  Owned-Replaced, Owned-place, Owned-merge, Owned-trim, Owned-trimmed, Chain-write,
}
use system_sw.Linear.Client.Keep.{Valid, Has-without, payload, keep_live, granted}

module _ (w : World) (v : Valid w) where
  module _ (junk : Bytes → Bytes) where
    allocates-Valid :
        (size a : ℕ) (mi' : AlcInfo)
        → mem_alloc junk size w.mi ≡ some (some a, mi')
        → Valid (record {
          mi = mi';
          live = (a, size) ∷ w.live;
          shadow = learn w.shadow mi'.memory a size;
        })
    allocates-Valid size a mi' run = answered (mem_alloc-contract junk w.mi v.blocks size v.heap)
      where
        answered :
            Answered w.mi v.blocks size (mem_alloc junk size w.mi)
            → Valid (record {
              mi = mi';
              live = (a, size) ∷ w.live;
              shadow = learn w.shadow mi'.memory a size;
            })
        answered (inl (e, u)) = cc
        answered (inr (a1, mi1, bs1, t, e, is, fits, (new, old), frame)) =
            let ea : a1 ≡ a = cc in
            let em : mi1 ≡ mi' = cc in
            subst
              (λ x. Valid (record {
                mi = x;
                live = (a, size) ∷ w.live;
                shadow = learn w.shadow x.memory a size;
              }))
              em
              (subst
                (λ x. Valid (record {
                  mi = mi1;
                  live = (x, size) ∷ w.live;
                  shadow = learn w.shadow mi1.memory x size;
                }))
                ea (granted w v size a1 t mi1 bs1 is fits new (λ a' s o. (old a' s o).0) frame))

    refused-Valid :
        (size : ℕ) (mi' : AlcInfo)
        → mem_alloc junk size w.mi ≡ some (none, mi')
        → Valid (record w { mi = mi' })
    refused-Valid size mi' run = answered (mem_alloc-contract junk w.mi v.blocks size v.heap)
      where
        answered :
            Answered w.mi v.blocks size (mem_alloc junk size w.mi) → Valid (record w { mi = mi' })
        answered (inl (e, u)) =
            let em : w.mi ≡ mi' = cc in subst (λ x. Valid (record w { mi = x })) em v
        answered (inr (a1, mi1, bs1, t, e, is, fits, g, frame)) = cc

    frees-Valid :
        (a s : ℕ) (mi' : AlcInfo)
        → Has w.live a s
        → mem_free junk a w.mi ≡ some mi'
        → Valid (record w { mi = mi'; live = without a w.live })
    frees-Valid a s mi' h run =
        let (t, fits, o) = v.owns a s h in
        let l = Owned-Located v.blocks a t o in
        let (mi1, bs1, e, split, is, am, frame) = mem_free-merge v.heap l junk in
        let em : mi1 ≡ mi' = cc in
        let zs = merge l.left t l.after in
        subst (λ x. Valid (record w { mi = x; live = without a w.live })) em
          (keep_live w v mi1 bs1 (without a w.live) is frame
            (λ a' s' y.
              let (ne, old) = Has-without a w.live a' s' y in
              let (t', f', o') = v.owns a' s' old in
              (t', f', Owned-Replaced l zs bs1 a' t' split (Owned-merge l a' t' ne) o'))
            (λ a' s' y. (s', omega arith, (Has-without a w.live a' s' y).1)))

    cuts-Valid :
        (a s size : ℕ) (r : Option ℕ) (mi' : AlcInfo)
        → Has w.live a s
        → size < s
        → mem_realloc junk (mem_free junk) (some a) size w.mi ≡ some (r, mi')
        → Valid (record w { mi = mi'; live = (a, size) ∷ without a w.live })
    cuts-Valid a s size r mi' h less run =
        let (t, fits, o) = v.owns a s h in
        let l = Owned-Located v.blocks a t o in
        let (mi1, bs1, e, split, is, am, frame) =
          mem_realloc-trim v.heap l junk (mem_free junk) size (omega (arith, fits)) in
        let em : mi1 ≡ mi' = cc in
        let n = round_up size in
        let zs = trim n t l.after in
        let own : (t' : ℕ) × (size ≤ t') × Owned 12 bs1 a t' = elim (Owned-trimmed l n) [
          | inl x ↦ (n, omega arith, Owned-place l (l.left ∷ zs) bs1 n split x)
          | inr x ↦ (t, omega (arith, fits), Owned-place l (l.left ∷ zs) bs1 t split x)
        ] in
        subst (λ x. Valid (record w { mi = x; live = (a, size) ∷ without a w.live })) em
          (keep_live w v mi1 bs1 ((a, size) ∷ without a w.live) is frame
            (λ a' s' y. elim y [
              | inl q ↦
                  let (t', f', o') = own in
                  (t', omega (arith, f', q), subst (λ x. Owned 12 bs1 x t') (sym q.0) o')
              | inr y ↦
                  let (ne, old) = Has-without a w.live a' s' y in
                  let (t', f', o') = v.owns a' s' old in
                  (
                    t',
                    f',
                    Owned-Replaced l (l.left ∷ zs) bs1 a' t' split (Owned-trim l n a' t' ne) o',
                  )
            ])
            (λ a' s' y. elim y [
              | inl q ↦ (s, omega (arith, q), subst (λ x. Has w.live x s) (sym q.0) h)
              | inr y ↦ (s', omega arith, (Has-without a w.live a' s' y).1)
            ]))

  pub writes-Valid :
      (a s i b : ℕ)
      → Has w.live a s
      → a ≤ i
      → i < a + s
      → Valid (record {
        mi = record w.mi { memory = put_byte w.mi.memory i b };
        live = w.live;
        shadow = put_byte w.shadow i b;
      })
  writes-Valid a s i b h l u =
      let (t, fits, o) = v.owns a s h in
      let off = payload v.blocks a t i o l (omega (arith, fits)) in
      let same : (k : ℕ) → k ≢ i → put_byte w.mi.memory i b k ≡ w.mi.memory k =
        λ k ne. let e : (k == i) ≡ false = ground arith in rw e refl in
      record {
        blocks = v.blocks;
        heap = record {
          chain =
              Chain-write w.mi.amount w.mi.memory (put_byte w.mi.memory i b) 0 0 i
                (block true 0 ∷ v.blocks) same off v.heap.chain;
          small = v.heap.small;
          tidy = v.heap.tidy;
        };
        owns = v.owns;
        known = λ a' s' k h' l' u'. elim (Bool-cases (k == i)) [
          | inl e ↦ rw e refl
          | inr e ↦ rw e (v.known a' s' k h' l' u')
        ];
      }

Step-Valid : (junk : Bytes → Bytes) {w w' : World} → Step junk w w' → Valid w → Valid w'
Step-Valid junk (allocates w size a mi' run) v = allocates-Valid w v junk size a mi' run
Step-Valid junk (refused w size mi' run) v = refused-Valid w v junk size mi' run
Step-Valid junk (frees w a s mi' h run) v = frees-Valid w v junk a s mi' h run
Step-Valid junk (cuts w a s size r mi' h less run) v = cuts-Valid w v junk a s size r mi' h less run
Step-Valid junk (writes w a s i b h l u) v = writes-Valid w v a s i b h l u

pub Reach-Valid : (junk : Bytes → Bytes) {w w' : World} → Valid w → Reach junk w w' → Valid w'
Reach-Valid junk v here = v
Reach-Valid junk v (next r st) = Step-Valid junk st (Reach-Valid junk v r)
