-- ===== src/Zone/Ops/Post.antt =====
-- What `append_page_to_class` keeps.
use system_sw.Prelude.{
  ℕ, ◌+◌, ◌≡◌, ◌∙◌, refl, sym, ap, inl, inr, Option, none, some, arith, ◌==◌, Bool-cases,
}
use system_sw.Prelude.Post.{Post, Post-bind}
use system_sw.Zone.{Descriptor, ZoneInfo, put, last_of, link_last, append_page_to_class}

-- the pages, the links and the size of a page are the same, and so are each descriptor's page and first block
pub record SameBlocks (z z' : ZoneInfo) : Type 0 where
  pub descriptors : z'.descriptors ≡ z.descriptors
  pub links : z'.links ≡ z.links
  pub page_size : z'.page_size ≡ z.page_size
  pub index : (a : ℕ) → (z'.store a).index ≡ (z.store a).index
  pub block : (a : ℕ) → (z'.store a).block ≡ (z.store a).block

any_Post : (o : Option ℕ) → Post (λ a. Unit {0}) o
any_Post none = tt
any_Post (some a) = tt

-- a field that a store keeps at a place it keeps everywhere
field-put :
    {A : Type 0}
    → (g : Descriptor → A) → (f : ℕ → Descriptor) → (i a : ℕ) → (v : Descriptor) → g v ≡ g (f i)
    → g (put f i v a) ≡ g (f a)
field-put g f i a v same = elim (Bool-cases (a == i)) [
  | inl e ↦ let q : a ≡ i = ground arith in rw e (same ∙ ap (λ x. g (f x)) (sym q))
  | inr e ↦ rw e refl
]

linked :
    {A : Type 0}
    → (g : Descriptor → A) → (f : ℕ → Descriptor) → (l d a : ℕ)
    → ((x : Descriptor) (n p : Option ℕ) → g (record x { next = n; prev = p }) ≡ g x)
    → let s = put f l (record (f l) { next = some d }) in
      g (put s d (record (s d) { prev = some l }) a) ≡ g (f a)
linked g f l d a blind =
    let s = put f l (record (f l) { next = some d }) in
    field-put g s d a (record (s d) { prev = some l }) (blind (s d) (s d).next (some l))
    ∙ field-put g f l a _ (blind (f l) (some d) (f l).prev)

link_last-Post :
    (class d : ℕ) (first : Option ℕ) (z : ZoneInfo)
    → Post (SameBlocks z) (link_last class first z d)
unfolding link_last
link_last-Post class d none z = record {
  descriptors = refl;
  links = refl;
  page_size = refl;
  index = λ a. refl;
  block = λ a. refl;
}
link_last-Post class d (some first) z =
    Post-bind (λ l. Unit {0}) (SameBlocks z) (last_of (z.page_count + 1) z.store first) _
      (any_Post _)
      (λ l u. record {
        descriptors = refl;
        links = refl;
        page_size = refl;
        index = λ a. linked (λ x. x.index) z.store l d a (λ x n p. refl);
        block = λ a. linked (λ x. x.block) z.store l d a (λ x n p. refl);
      })

pub append_page_to_class-Post :
    (class d : ℕ) (z : ZoneInfo) → Post (SameBlocks z) (append_page_to_class class d z)
unfolding append_page_to_class
append_page_to_class-Post class d z =
    Post-bind (SameBlocks z) (SameBlocks z) (link_last class (z.classes class) z d) _
      (link_last-Post class d (z.classes class) z)
      (λ z' s. record {
        descriptors = s.descriptors;
        links = s.links;
        page_size = s.page_size;
        index = s.index;
        block = s.block;
      })
