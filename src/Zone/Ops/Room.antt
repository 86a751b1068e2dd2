-- ===== src/Zone/Ops/Room.antt =====
-- A block of several pages has room for what it is asked for.
use system_sw.Prelude.{
  ℕ, zero, suc, ◌+◌, ◌-◌, ◌*◌, ◌/◌, ◌^◌, ◌≤◌, ◌<◌, ◌≡◌, ◌∙◌, sym, ap, subst, inl, inr, arith, ltb,
  leb, if◌then◌else◌, Bool-cases,
}
use system_sw.Prelude.Word.{wrap, wrap_small}
use native.Mathlib.Nat.{
  two-pow-succ, pow-le-pow_right, one-le-pow, add-mul-div_left, mul-add, div-eq_of_lt, mul_comm,
  mul-div_cancel_left,
}
use system_sw.Zone.{ZoneInfo, log2}
use system_sw.Zone.Pages.{pages_for}
use system_sw.Zone.Rounding.{double, round_pow_2_lem, log2_power}
use system_sw.Zone.Ops.{rounded}

pow-split : (k j : ℕ) → 2 ^ (k + j) ≡ 2 ^ k * 2 ^ j
pow-split k zero = let e : k + 0 ≡ k = omega arith in rw e (omega arith)
pow-split k (suc j) =
    let e : k + suc j ≡ suc (k + j) = omega arith in
    let d : 2 ^ suc (k + j) ≡ 2 ^ (k + j) + 2 ^ (k + j) = two-pow-succ (k + j) in
    let d' : 2 ^ suc j ≡ 2 ^ j + 2 ^ j = two-pow-succ j in
    rw e (d ∙ rw (pow-split k j, d') (sym (mul-add (2 ^ k) (2 ^ j) (2 ^ j))))

-- whole pages and half a page are as many whole pages
half_more : (p q : ℕ) → 0 < p → (p * q + p / 2) / p ≡ q
half_more p q pos =
    let swap : p * q + p / 2 ≡ p / 2 + p * q = omega arith in
    let small : p / 2 < p = omega arith in
    let none : p / 2 / p ≡ 0 = div-eq_of_lt small in
    rw swap (add-mul-div_left (p / 2) q pos ∙ omega (arith, none))

-- a power of two, not below half a page, has room in the number of pages that it is rounded to
power_fits : (k c : ℕ) → k ≤ c → 2 ^ c ≤ (2 ^ c + 2 ^ (k + 1) / 2) / 2 ^ (k + 1) * 2 ^ (k + 1)
power_fits k c h =
    let page : ℕ = 2 ^ (k + 1) in
    let d : 2 ^ (k + 1) ≡ 2 * 2 ^ k = double k in
    let one : 1 ≤ 2 ^ k = one-le-pow k 2 (omega arith) in
    elim (Bool-cases (ltb k c)) [
      | inl t ↦
          let e : c ≡ k + 1 + (c - (k + 1)) = ground arith in
          let split : 2 ^ c ≡ page * 2 ^ (c - (k + 1)) =
            ap (λ x. 2 ^ x) e ∙ pow-split (k + 1) (c - (k + 1)) in
          let q : ℕ = 2 ^ (c - (k + 1)) in
          let n = half_more page q (omega (arith, d, one)) in
          subst (λ x. x ≤ (x + page / 2) / page * page) (sym split)
            (subst (λ x. page * q ≤ x * page) (sym n) (omega (arith, mul_comm page q)))
      | inr t ↦
          let e : k ≡ c = ground arith in
          let pc : 2 ^ k ≡ 2 ^ c = ap (λ x. 2 ^ x) e in
          let whole : 2 ^ c + page / 2 ≡ page = omega (arith, d, pc) in
          let m : page * 1 ≡ page = omega arith in
          let self : page / page ≡ 1 =
            ap (λ x. x / page) (sym m) ∙ mul-div_cancel_left 1 (omega (arith, d, one)) in
          subst (λ x. 2 ^ c ≤ x / page * page) (sym whole)
            (subst (λ x. 2 ^ c ≤ x * page) (sym self) (omega (arith, d, pc)))
    ]

-- The pages of a block of several pages have room for the size that `mem_alloc` is asked for. The
-- conditions are that the page size is a power of two, that the rounded size is half a page or more,
-- as where its class is not below the number of classes, and that the size is at most 2 ^ 24.
pub pages_for_has_room :
    (z : ZoneInfo) (size_in k : ℕ)
    → z.page_size ≡ 2 ^ (k + 1)
    → k ≤ log2 (rounded size_in)
    → size_in ≤ 2 ^ 24
    → size_in ≤ pages_for z (rounded size_in) * z.page_size
pages_for_has_room z size_in k page h small =
    let v : ℕ = if leb 24 size_in then size_in else 24 in
    let ge : 24 ≤ v = ground arith in
    let covers : size_in ≤ v = ground arith in
    let top : v ≤ 2 ^ 24 = ground arith in
    let (c, eq, lo, hi) = round_pow_2_lem v (omega (arith, ge)) top in
    let in_word : c < 32 = elim (Bool-cases (ltb c 32)) [
      | inl t ↦ ground arith
      | inr t ↦
          let le : 32 ≤ c = ground arith in
          let p : 2 ^ 32 ≤ 2 ^ c = pow-le-pow_right (omega arith) le in
          absurd (omega (arith, p, hi, top))
    ] in
    let le : k ≤ c = subst (λ x. k ≤ x) (ap log2 eq ∙ log2_power c in_word) h in
    let two : 2 ^ k ≤ 2 ^ c = pow-le-pow_right (omega arith) le in
    let w = wrap_small (2 ^ c + 2 ^ (k + 1) / 2) (omega (arith, two, hi, top, double k)) in
    subst (λ x. size_in ≤ wrap (x + z.page_size / 2) / z.page_size * z.page_size) (sym eq)
      (subst (λ p. size_in ≤ wrap (2 ^ c + p / 2) / p * p) (sym page)
        (subst (λ x. size_in ≤ x / 2 ^ (k + 1) * 2 ^ (k + 1)) (sym w)
          (let f = power_fits k c le in omega (arith, f, covers, lo))))
