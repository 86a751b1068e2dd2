-- ===== src/Prelude/Post.antt =====
-- What holds of the value of an operation, where it does not fail.
use system_sw.Prelude.{◌≡◌, refl, Option, none, some, ◌>>=◌}

-- `P` of the value, where there is one
abbrev pub Post {ℓ} : {A : Type ℓ} → (A → Type 0) → Option A → Type 0
Post P none = Unit {0}
Post P (some a) = P a

module _ {ℓ} {A : Type ℓ} (P : A → Type 0) where
  -- what follows such a value
  pub Post-bind {ℓ'} :
      {B : Type ℓ'} (Q : B → Type 0) (o : Option A) (f : A → Option B)
      → Post P o
      → ((a : A) → P a → Post Q (f a))
      → Post Q (o >>= f)
  Post-bind Q none f h step = tt
  Post-bind Q (some a) f h step = step a h

  -- what follows may be replaced by what does the same after such a value
  pub bind_congr {ℓ'} :
      {B : Type ℓ'} (o : Option A) (f g : A → Option B)
      → Post P o
      → ((a : A) → P a → f a ≡ g a)
      → (o >>= f) ≡ (o >>= g)
  bind_congr none f g h same = refl
  bind_congr (some a) f g h same = same a h

  pub Post-map : (Q : A → Type 0) (o : Option A) → ((a : A) → P a → Q a) → Post P o → Post Q o
  Post-map Q none f h = tt
  Post-map Q (some a) f h = f a h
