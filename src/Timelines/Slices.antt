-- ===== src/Timelines/Slices.antt =====
-- Slices of lists, and the slices of a chain's events that lie in one timeline.
use mathlib.Core.Option.{some-injective}
use matrix_js_sdk.Base.{
  ℕ, zero, suc, ◌+◌, ◌≤◌, ◌≡◌, refl, ap, ◌∙◌, some, List, [], ◌∷◌, ◌++◌, map, arith, length,
  get_elem?, take, drop,
}
use matrix_js_sdk.Base.Int.{pos, ◌+ℤ◌}
use matrix_js_sdk.Timelines.Timeline.{Event, Timeline}
use matrix_js_sdk.Timelines.Chain.{events_at, all_events, total}
use matrix_js_sdk.Timelines.Contents.{copied}

-- `n` elements from the place `x` on
abbrev pub slice {ℓ} : {A : Type ℓ} → (x n : ℕ) → List A → List A
slice x n xs = take n (drop x xs)

module _ {ℓ} {A : Type ℓ} where
  slice_nil : (x n : ℕ) → slice {A = A} x n [] ≡ []
  slice_nil zero zero = refl
  slice_nil zero (suc n) = refl
  slice_nil (suc x) zero = refl
  slice_nil (suc x) (suc n) = refl

  -- two slices that meet
  pub slice-append :
      (xs : List A) (x n y m k : ℕ)
      → x + n ≡ y
      → n + m ≡ k
      → slice x n xs ++ slice y m xs ≡ slice x k xs
  slice-append [] x n y m k e f = rw (slice_nil x n, slice_nil y m, slice_nil x k) refl
  slice-append (a ∷ xs) zero zero y m k e f =
      let y0 : y ≡ 0 = omega arith in let km : m ≡ k = omega arith in rw (y0, km) refl
  slice-append (a ∷ xs) zero (suc n) zero m k e f = absurd (omega arith)
  slice-append (a ∷ xs) zero (suc n) (suc y) m zero e f = absurd (omega arith)
  slice-append (a ∷ xs) zero (suc n) (suc y) m (suc k) e f =
      ap (λ r. a ∷ r) (slice-append xs zero n y m k (omega arith) (omega arith))
  slice-append (a ∷ xs) (suc x) n zero m k e f = absurd (omega arith)
  slice-append (a ∷ xs) (suc x) n (suc y) m k e f = slice-append xs x n y m k (omega arith) f

  slice_in_front :
      (xs ys : List A) (x n : ℕ) → x + n ≤ length xs → slice x n (xs ++ ys) ≡ slice x n xs
  slice_in_front [] ys zero zero le = refl
  slice_in_front [] ys zero (suc n) le = absurd (omega arith)
  slice_in_front [] ys (suc x) n le = absurd (omega arith)
  slice_in_front (a ∷ xs) ys zero zero le = refl
  slice_in_front (a ∷ xs) ys zero (suc n) le =
      ap (λ r. a ∷ r) (slice_in_front xs ys zero n (omega arith))
  slice_in_front (a ∷ xs) ys (suc x) n le = slice_in_front xs ys x n (omega arith)

  slice_behind :
      (xs ys : List A) (x n y : ℕ) → y ≡ length xs + x → slice y n (xs ++ ys) ≡ slice x n ys
  slice_behind [] ys x n y e = let s : y ≡ x = omega (arith, e) in rw s refl
  slice_behind (a ∷ xs) ys x n zero e = absurd (omega (arith, e))
  slice_behind (a ∷ xs) ys x n (suc y) e = slice_behind xs ys x n y (omega (arith, e))

-- the first element of a slice
slice_first :
    (es : List Event) (x y n : ℕ)
    → x + suc n ≤ length es
    → suc x ≡ y
    → map some (slice x (suc n) es) ≡ get_elem? es x ∷ map some (slice y n es)
slice_first [] x y n le e = absurd (omega arith)
slice_first (a ∷ es) zero zero n le e = absurd (omega arith)
slice_first (a ∷ es) zero (suc y) n le e = let y0 : y ≡ 0 = omega arith in rw y0 refl
slice_first (a ∷ es) (suc x) zero n le e = absurd (omega arith)
slice_first (a ∷ es) (suc x) (suc y) n le e = slice_first es x y n (omega arith) (omega arith)

pos_next : (x : ℕ) → pos x +ℤ pos 1 ≡ pos (suc x)
unfolding ◌+ℤ◌
pos_next x = ground arith

-- the slice of a timeline is a slice of the chain
pub slice_of_chain :
    (ts : List Timeline) (c : List ℕ) (i m x n y : ℕ)
    → get_elem? c i ≡ some m
    → x + n ≤ length (events_at ts m)
    → y ≡ total ts (take i c) + x
    → slice y n (all_events ts c) ≡ slice x n (events_at ts m)
slice_of_chain ts [] i m x n y e le h = cc
slice_of_chain ts (m' ∷ c) zero m x n y e le h =
    let same = some-injective _ _ e in
    let here : y ≡ x = omega (arith, h) in
    rw (here, same) (slice_in_front (events_at ts m) (all_events ts c) x n le)
slice_of_chain ts (m' ∷ c) (suc i) m x n y e le h =
    slice_behind (events_at ts m') (all_events ts c) (total ts (take i c) + x) n y (omega arith)
    ∙ slice_of_chain ts c i m x n (total ts (take i c) + x) e le refl

-- what is copied is a slice
pub copied-slice :
    (es : List Event) (x n : ℕ) → x + n ≤ length es → copied es (pos x) n ≡ map some (slice x n es)
unfolding copied
copied-slice es x zero le = refl
copied-slice es x (suc n) le =
    rw (slice_first es x (suc x) n le refl, pos_next x)
      (ap (λ r. get_elem? es x ∷ r) (copied-slice es (suc x) n (omega arith)))
