-- ===== src/Realtime/Sorted.antt =====
-- The order of the callback list of realtime-callbacks.js.
use mathlib.Core.Option.{some-injective}
use mathlib.Core.Path.{subst}
use matrix_js_sdk.Base.{
  ℕ, zero, suc, ◌≤◌, ◌<◌, ◌≡◌, refl, ap, some, List, [], ◌∷◌, ◌++◌, arith, ltb, ◌==◌, if◌then◌else◌,
  length, get_elem?, take, drop, All, Bool-cases, inl, inr,
}
use matrix_js_sdk.Realtime.Callbacks.{Callback, remove_key, take_due}
use matrix_js_sdk.Realtime.Search.{Splits, IsMonotone}

-- No callback is due before one that stands in front of it.
abbrev pub IsSorted : List Callback → Type 0
IsSorted [] = Unit
IsSorted (x ∷ xs) = All (λ y. x.run_at ≤ y.run_at) xs × IsSorted xs

-- before the first callback that is due later
abbrev pub insert_sorted : Callback → List Callback → List Callback
insert_sorted d [] = d ∷ []
insert_sorted d (x ∷ xs) = if ltb d.run_at x.run_at then d ∷ x ∷ xs else x ∷ insert_sorted d xs

All-get {ℓ κ} :
    {A : Type ℓ} (P : A → Type κ) (xs : List A) (i : ℕ) (a : A)
    → All P xs
    → get_elem? xs i ≡ some a
    → P a
All-get P [] i a h e = cc
All-get P (x ∷ xs) zero a h e = subst P (some-injective _ _ e) h.0
All-get P (x ∷ xs) (suc i) a h e = All-get P xs i a h.1 e

IsSorted-get :
    (xs : List Callback) (i j : ℕ) (a b : Callback)
    → IsSorted xs
    → i ≤ j
    → get_elem? xs i ≡ some a
    → get_elem? xs j ≡ some b
    → a.run_at ≤ b.run_at
IsSorted-get [] i j a b s l p q = cc
IsSorted-get (x ∷ xs) zero zero a b s l p q = ground arith
IsSorted-get (x ∷ xs) zero (suc j) a b s l p q =
    ground (arith, All-get (λ y. x.run_at ≤ y.run_at) xs j b s.0 q)
IsSorted-get (x ∷ xs) (suc i) zero a b s l p q = absurd (omega arith)
IsSorted-get (x ∷ xs) (suc i) (suc j) a b s l p q = IsSorted-get xs i j a b s.1 (omega arith) p q

pub later-IsMonotone :
    (t : ℕ) (xs : List Callback) → IsSorted xs → IsMonotone (λ el. ltb t el.run_at) xs
later-IsMonotone t xs s i j a b l p q h = ground (arith, IsSorted-get xs i j a b s l p q)

-- What `splice` does at the place that the search returns.
pub splice-insert_sorted :
    (d : Callback) (xs : List Callback) (i : ℕ)
    → i ≤ length xs
    → Splits (λ el. ltb d.run_at el.run_at) xs i i
    → take i xs ++ d ∷ drop i xs ≡ insert_sorted d xs
splice-insert_sorted d [] zero l s = refl
splice-insert_sorted d [] (suc i) l s = absurd (omega arith)
splice-insert_sorted d (x ∷ xs) zero l s = rw (s.above 0 x (omega arith) refl)
splice-insert_sorted d (x ∷ xs) (suc i) l s = rw (s.below 0 x (omega arith) refl) (
    ap (λ r. x ∷ r)
      (splice-insert_sorted d xs i (omega arith) (record {
        below = λ k a h q. s.below (suc k) a (omega arith) q;
        above = λ k a h q. s.above (suc k) a (omega arith) q;
      })))

All-insert_sorted :
    (t : ℕ) (d : Callback) (xs : List Callback)
    → t ≤ d.run_at
    → All (λ y. t ≤ y.run_at) xs
    → All (λ y. t ≤ y.run_at) (insert_sorted d xs)
All-insert_sorted t d [] h a = (h, tt)
All-insert_sorted t d (x ∷ xs) h a = ground (arith, All-insert_sorted t d xs)

All-le_trans :
    (t u : ℕ) (xs : List Callback) → t ≤ u → All (λ y. u ≤ y.run_at) xs → All (λ y. t ≤ y.run_at) xs
All-le_trans t u [] h a = tt
All-le_trans t u (x ∷ xs) h a = (omega arith, All-le_trans t u xs h a.1)

pub insert_sorted-IsSorted :
    (d : Callback) (xs : List Callback) → IsSorted xs → IsSorted (insert_sorted d xs)
insert_sorted-IsSorted d [] s = (tt, tt)
insert_sorted-IsSorted d (x ∷ xs) s = ground (
  arith,
  insert_sorted-IsSorted d xs,
  All-insert_sorted x.run_at d xs,
  All-le_trans d.run_at x.run_at xs,
)

pub All-remove_key :
    (P : Callback → Type 0) (key : ℕ) (xs : List Callback) → All P xs → All P (remove_key key xs)
unfolding remove_key
All-remove_key P key [] a = tt
All-remove_key P key (x ∷ xs) a = elim (Bool-cases (x.key == key)) [
  | inl e ↦ rw e a.1
  | inr e ↦ rw e (a.0, All-remove_key P key xs a.1)
]

pub remove_key-IsSorted :
    (key : ℕ) (xs : List Callback) → IsSorted xs → IsSorted (remove_key key xs)
unfolding remove_key
remove_key-IsSorted key [] s = tt
remove_key-IsSorted key (x ∷ xs) s = elim (Bool-cases (x.key == key)) [
  | inl e ↦ rw e s.1
  | inr e ↦
      rw e (All-remove_key (λ y. x.run_at ≤ y.run_at) key xs s.0, remove_key-IsSorted key xs s.1)
]

-- The callbacks that are run are those that are due, and the others stay, in order.
pub take_due_lem :
    (now : ℕ) (xs : List Callback)
    → IsSorted xs
    → ((take_due now xs).0 ++ (take_due now xs).1 ≡ xs)
      × All (λ y. y.run_at ≤ now) (take_due now xs).0
      × All (λ y. now < y.run_at) (take_due now xs).1
      × IsSorted (take_due now xs).1
unfolding take_due
take_due_lem now [] s = (refl, tt, tt, tt)
take_due_lem now (x ∷ xs) s = elim (Bool-cases (ltb now x.run_at)) [
  | inl later ↦
      rw later (refl, tt, (ground arith, All-le_trans (suc now) x.run_at xs (ground arith) s.0), s)
  | inr due ↦
      let (split, before, after, sorted) = take_due_lem now xs s.1 in
      rw due (ap (λ r. x ∷ r) split, (ground arith, before), after, sorted)
]
