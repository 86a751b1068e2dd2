-- ===== src/Zone/Pages/Runs.antt =====
-- `find_free_pages` finds the first run of free pages.
use system_sw.Prelude.{
  ℕ, zero, suc, ◌+◌, ◌-◌, ◌≤◌, ◌<◌, ◌≡◌, subst, inl, inr, true, false, Option, none, some, arith,
  leb, ◌==◌, Bool-cases,
}
use system_sw.Zone.{PageState, is_free}
use system_sw.Zone.Pages.{find_loop, find_free_pages}

module _ (ds : ℕ → PageState) (num : ℕ) where
  -- of the `num` pages from `q` on, one is not free
  abbrev pub Blocked : ℕ → Type 0
  Blocked q = (k : ℕ) × (q ≤ k) × (k < q + num) × (is_free (ds k) ≡ false)

  -- all of them are free
  abbrev pub FreeRun : ℕ → Type 0
  FreeRun p = (k : ℕ) → p ≤ k → k < p + num → is_free (ds k) ≡ true

  -- the first run of the pages below `count`, or none
  abbrev pub FirstRun : ℕ → Option ℕ → Type 0
  FirstRun count none = (q : ℕ) → q + num ≤ count → Blocked q
  FirstRun count (some p) = (p + num ≤ count) × FreeRun p × ((q : ℕ) → q < p → Blocked q)

  -- in front of page `i`: the `r` pages before it are free, the one before them is not, and no run
  -- ends there
  record Counted (i r : ℕ) : Type 0 where
    pub le : r ≤ i
    pub short : r < num
    pub free : (k : ℕ) → i ≤ k + r → k < i → is_free (ds k) ≡ true
    pub edge : (k : ℕ) → k + r + 1 ≡ i → is_free (ds k) ≡ false
    pub none_yet : (q : ℕ) → q + num ≤ i → Blocked q

  stop_run : (i r : ℕ) → Counted i r → is_free (ds i) ≡ false → Counted (i + 1) 0
  stop_run i r c e = record {
    le = omega arith;
    short = let s = c.short in omega arith;
    free = λ k a b. absurd (omega (arith, a, b));
    edge = λ k a. let w : i ≡ k = omega (arith, a) in subst (λ x. is_free (ds x) ≡ false) w e;
    none_yet = λ q a. elim (Bool-cases (leb (q + num) i)) [
      | inl t ↦ c.none_yet q (ground arith)
      | inr t ↦ let s = c.short in (i, ground arith, ground arith, e)
    ];
  }

  longer_run :
      (i r : ℕ) → Counted i r → is_free (ds i) ≡ true → r + 1 < num → Counted (i + 1) (r + 1)
  longer_run i r c e l = record {
    le = let u = c.le in omega arith;
    short = l;
    free = λ k a b. elim (Bool-cases (i == k)) [
      | inl t ↦ let w : i ≡ k = ground arith in subst (λ x. is_free (ds x) ≡ true) w e
      | inr t ↦ c.free k (omega (arith, a)) (ground arith)
    ];
    edge = λ k a. c.edge k (omega (arith, a));
    none_yet = λ q a. elim (Bool-cases (leb (q + num) i)) [
      | inl t ↦ c.none_yet q (ground arith)
      | inr t ↦
          let end : q + num ≡ i + 1 = ground arith in
          (i - r - 1, omega arith, omega arith, c.edge (i - r - 1) (omega arith))
    ];
  }

  find_loop-FirstRun :
      (i n r count : ℕ) → Counted i r → i + n ≡ count → FirstRun count (find_loop ds num i n r)
  unfolding find_loop
  find_loop-FirstRun i zero r count c h = λ q a. c.none_yet q (omega (arith, a))
  find_loop-FirstRun i (suc n) r count c h = elim (Bool-cases (is_free (ds i))) [
    | inr e ↦
        let s : leb num 0 ≡ false = let u = c.short in ground arith in
        rw (e, s) (find_loop-FirstRun (i + 1) n 0 count (stop_run i r c e) (omega arith))
    | inl e ↦ elim (Bool-cases (leb num (r + 1))) [
      | inr t ↦
          rw (e, t)
            (find_loop-FirstRun (i + 1) n (r + 1) count (longer_run i r c e (ground arith))
              (omega arith))
      | inl t ↦
          let full : num ≡ r + 1 = let u = c.short in ground arith in
          let u = c.le in
          rw (e, t)
            (
              omega arith,
              (λ k a b. elim (Bool-cases (i == k)) [
                | inl w ↦ let v : i ≡ k = ground arith in subst (λ x. is_free (ds x) ≡ true) v e
                | inr w ↦ c.free k (omega (arith, a)) (ground arith)
              ]),
              (λ q a. c.none_yet q (omega (arith, a))),
            )
    ]
  ]

  pub find_free_pages-FirstRun :
      (count : ℕ) → 0 < num → FirstRun count (find_free_pages ds count num)
  unfolding find_free_pages
  find_free_pages-FirstRun count pos =
      find_loop-FirstRun 0 count 0 count
        (record {
          le = omega arith;
          short = pos;
          free = λ k a b. absurd (omega (arith, b));
          edge = λ k a. absurd (omega (arith, a));
          none_yet = λ q a. absurd (omega (arith, a));
        })
        (omega arith)
