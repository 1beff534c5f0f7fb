-- ===== src/Realtime/Runs.antt =====
-- `clearTimeout` and `_runCallbacks` of realtime-callbacks.js.
use matrix_js_sdk.Base.{
  ℕ, ◌≤◌, ◌<◌, ◌≡◌, ◌≢◌, refl, sym, ap, false, Option, List, [], ◌∷◌, ◌++◌, arith, ◌==◌,
  if◌then◌else◌, All, Bool-cases, inl, inr,
}
use matrix_js_sdk.Realtime.Callbacks.{
  Callback, State, remove_key, is_first, clear_timeout, take_due, run_callbacks,
}
use matrix_js_sdk.Realtime.Sorted.{All-remove_key, remove_key-IsSorted, take_due_lem}
use matrix_js_sdk.Realtime.Laws.{HasDistinctKeys, IsArmed, IsValid, schedule-IsValid}

-- `xs` without the callbacks of a key
abbrev pub without : ℕ → List Callback → List Callback
without key [] = []
without key (x ∷ xs) = if x.key == key then without key xs else x ∷ without key xs

without-absent : (key : ℕ) (xs : List Callback) → All (λ y. y.key ≢ key) xs → without key xs ≡ xs
without-absent key [] a = refl
without-absent key (x ∷ xs) a = ground (arith, without-absent key xs a.1)

remove_key-without :
    (key : ℕ) (xs : List Callback) → HasDistinctKeys xs → remove_key key xs ≡ without key xs
unfolding remove_key
remove_key-without key [] u = refl
remove_key-without key (x ∷ xs) u = elim (Bool-cases (x.key == key)) [
  | inl e ↦
      let same : x.key ≡ key = ground arith in rw e (sym (without-absent key xs (rw same at u.0)))
  | inr e ↦ rw e (ap (λ r. x ∷ r) (remove_key-without key xs u.1))
]

remove_key-HasDistinctKeys :
    (key : ℕ) (xs : List Callback) → HasDistinctKeys xs → HasDistinctKeys (remove_key key xs)
unfolding remove_key
remove_key-HasDistinctKeys key [] u = tt
remove_key-HasDistinctKeys key (x ∷ xs) u = elim (Bool-cases (x.key == key)) [
  | inl e ↦ rw e u.1
  | inr e ↦
      rw e (All-remove_key (λ y. y.key ≢ x.key) key xs u.0, remove_key-HasDistinctKeys key xs u.1)
]

-- A callback that is not the first leaves the first in place, and the host's timer with it.
remove_key-IsArmed :
    (now key : ℕ) (xs : List Callback) (real : Option ℕ)
    → is_first key xs ≡ false
    → IsArmed now xs real
    → IsArmed now (remove_key key xs) real
unfolding remove_key
remove_key-IsArmed now key [] real h a = a
remove_key-IsArmed now key (x ∷ xs) real h a = rw h a

-- From a valid state `clearTimeout` takes exactly the callbacks of the given key off the list, and
-- leaves the state valid.
pub clear_timeout-without :
    (now key : ℕ) (s : State)
    → IsValid now s
    → ((clear_timeout now key s).callbacks ≡ without key s.callbacks)
      × IsValid now (clear_timeout now key s)
unfolding clear_timeout
clear_timeout-without now key s v =
    let rest = remove_key key s.callbacks in
    let sorted = remove_key-IsSorted key s.callbacks v.sorted in
    let distinct = remove_key-HasDistinctKeys key s.callbacks v.distinct in
    let fresh = All-remove_key (λ y. y.key < s.count) key s.callbacks v.fresh in
    elim (Bool-cases (is_first key s.callbacks)) [
      | inl e ↦ rw e (
        remove_key-without key s.callbacks v.distinct,
        schedule-IsValid now (record s { callbacks = rest }) sorted distinct fresh,
      )
      | inr e ↦ rw e (
        remove_key-without key s.callbacks v.distinct,
        record {
          sorted = sorted;
          distinct = distinct;
          fresh = fresh;
          armed = remove_key-IsArmed now key s.callbacks s.real_callback e v.armed;
        },
      )
    ]

All-of_append {ℓ} : {A : Type ℓ} (P : A → Type 0) (xs ys : List A) → All P (xs ++ ys) → All P ys
All-of_append P [] ys a = a
All-of_append P (x ∷ xs) ys a = All-of_append P xs ys a.1

HasDistinctKeys-of_append :
    (xs ys : List Callback) → HasDistinctKeys (xs ++ ys) → HasDistinctKeys ys
HasDistinctKeys-of_append [] ys u = u
HasDistinctKeys-of_append (x ∷ xs) ys u = HasDistinctKeys-of_append xs ys u.1

-- From a valid state `_runCallbacks` calls the callbacks that are due by now and no other: those
-- that it calls, in their order, followed by those that stay, are the list as it was; those that
-- stay are due later, and the state is left valid.
pub run_callbacks-due :
    (now before : ℕ) (s : State)
    → IsValid before s
    → ((run_callbacks now s).0 ++ (run_callbacks now s).1.callbacks ≡ s.callbacks)
      × All (λ y. y.run_at ≤ now) (run_callbacks now s).0
      × All (λ y. now < y.run_at) (run_callbacks now s).1.callbacks
      × IsValid now (run_callbacks now s).1
unfolding run_callbacks
run_callbacks-due now before s v =
    let (due, later) = take_due now s.callbacks in
    let (split, past, future, sorted) = take_due_lem now s.callbacks v.sorted in
    (
      split,
      past,
      future,
      schedule-IsValid now (record s { callbacks = later }) sorted
          (HasDistinctKeys-of_append due later (rw (← split) at v.distinct))
          (All-of_append (λ y. y.key < s.count) due later (rw (← split) at v.fresh)),
    )
