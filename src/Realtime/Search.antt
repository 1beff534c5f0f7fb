-- ===== src/Realtime/Search.antt =====
-- `binarySearch` of realtime-callbacks.js on a list that the test splits in two.
use matrix_js_sdk.Base.{
  ℕ, zero, suc, ◌+◌, ◌-◌, ◌/◌, ◌≤◌, ◌<◌, ◌≡◌, refl, ◌≢◌, inl, inr, Bool, true, false, some, List,
  [], ◌∷◌, arith, ltb, length, get_elem?, Bool-cases,
}
use matrix_js_sdk.Realtime.Callbacks.{search_loop, binary_search}

module _ {ℓ} {A : Type ℓ} where
  get_elem?-lt : (xs : List A) (i : ℕ) → i < length xs → (a : A) × (get_elem? xs i ≡ some a)
  get_elem?-lt [] i h = absurd (omega arith)
  get_elem?-lt (x ∷ xs) zero h = (x, refl)
  get_elem?-lt (x ∷ xs) (suc i) h = get_elem?-lt xs i (omega arith)

  get_elem?-length : (xs : List A) (k : ℕ) (a : A) → length xs ≤ k → get_elem? xs k ≢ some a
  get_elem?-length [] k a h = cc
  get_elem?-length (x ∷ xs) zero a h = absurd (omega arith)
  get_elem?-length (x ∷ xs) (suc k) a h = get_elem?-length xs k a (omega arith)

  -- the elements below `i` fail the test, and those from `j` pass it
  pub record Splits (p : A → Bool) (xs : List A) (i j : ℕ) : Type ℓ where
    pub below : (k : ℕ) (a : A) → k < i → get_elem? xs k ≡ some a → p a ≡ false
    pub above : (k : ℕ) (a : A) → j ≤ k → get_elem? xs k ≡ some a → p a ≡ true

  -- the test, once passed, stays passed
  abbrev pub IsMonotone : (A → Bool) → List A → Type ℓ
  IsMonotone p xs =
      (i j : ℕ) (a b : A)
      → i ≤ j
      → get_elem? xs i ≡ some a
      → get_elem? xs j ≡ some b
      → p a ≡ true
      → p b ≡ true

  module _ (p : A → Bool) (xs : List A) (mono : IsMonotone p xs) where
    search_loop-Splits :
        (fuel min max : ℕ)
        → max - min < fuel
        → min ≤ max
        → max ≤ length xs
        → Splits p xs min max
        → (i : ℕ) × (search_loop fuel xs p min max ≡ some i) × (i ≤ length xs) × Splits p xs i i
    unfolding search_loop
    search_loop-Splits zero min max f l n s = absurd (omega arith)
    search_loop-Splits (suc fuel) min max f l n s = elim (Bool-cases (ltb min max)) [
      | inr done ↦
          let e : min ≡ max = ground arith in
          (
            min,
            rw done,
            omega arith,
            record { below = s.below; above = λ k a h. s.above k a (omega arith) },
          )
      | inl more ↦
          let mid : ℕ = (min + max) / 2 in
          let (el, at) = get_elem?-lt xs mid (ground arith) in
          elim (Bool-cases (p el)) [
            | inl big ↦
                rw (more, at, big)
                  (search_loop-Splits fuel min mid (ground arith) (ground arith) (ground arith)
                    (record { below = s.below; above = λ k a h q. mono mid k el a h at q big }))
            | inr small ↦
                rw (more, at, small)
                  (search_loop-Splits fuel (mid + 1) max (ground arith) (ground arith) n (record {
                    below = λ k a h q. elim (Bool-cases (p a)) [
                      | inr f ↦ f
                      | inl t ↦ cc (small, mono k mid a el (omega arith) q at t)
                    ];
                    above = s.above;
                  }))
          ]
    ]

    -- With a test that stays passed along the list, the search returns the place where it starts to
    -- pass.
    pub binary_search-Splits :
        (i : ℕ) × (binary_search xs p ≡ some i) × (i ≤ length xs) × Splits p xs i i
    unfolding binary_search
    binary_search-Splits =
        search_loop-Splits (suc (length xs)) 0 (length xs) (omega arith) (omega arith) (omega arith)
          (record {
            below = λ k a h. absurd (omega arith);
            above = λ k a h q. absurd (get_elem?-length xs k a h q);
          })
