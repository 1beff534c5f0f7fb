-- ===== src/Realtime/Laws.antt =====
-- What the operations of realtime-callbacks.js keep, and which callbacks run.
use Prim.Native.Nat.{max}
use matrix_js_sdk.Base.{
  ℕ, ◌+◌, ◌≤◌, ◌<◌, String, ◌≡◌, ◌≢◌, refl, Option, none, some, List, [], ◌∷◌, arith, ltb, All,
  Bool-cases, inl, inr,
}
use matrix_js_sdk.Realtime.Callbacks.{
  Callback, State, real_callback_time, schedule_real_callback, set_timeout,
}
use matrix_js_sdk.Realtime.Search.{binary_search-Splits}
use matrix_js_sdk.Realtime.Sorted.{
  IsSorted, insert_sorted, later-IsMonotone, splice-insert_sorted, insert_sorted-IsSorted,
}

-- every key is on the list once
abbrev pub HasDistinctKeys : List Callback → Type 0
HasDistinctKeys [] = Unit
HasDistinctKeys (x ∷ xs) = All (λ y. y.key ≢ x.key) xs × HasDistinctKeys xs

-- The host's timer is set exactly while there is a callback, to fire within the check period and
-- not after the first callback is due.
abbrev pub IsArmed : ℕ → List Callback → Option ℕ → Type 0
IsArmed now [] real = real ≡ none
IsArmed now (first ∷ rest) real =
    (at : ℕ) × (real ≡ some at) × (at ≤ now + 1000) × (at ≤ max now first.run_at)

pub record IsValid (now : ℕ) (s : State) : Type 0 where
  pub sorted : IsSorted s.callbacks
  pub distinct : HasDistinctKeys s.callbacks
  pub fresh : All (λ y. y.key < s.count) s.callbacks
  pub armed : IsArmed now s.callbacks s.real_callback

real_callback_time-IsArmed :
    (now : ℕ) (xs : List Callback) → IsArmed now xs (real_callback_time now xs)
unfolding real_callback_time
real_callback_time-IsArmed now [] = refl
real_callback_time-IsArmed now (x ∷ xs) = (_, refl, omega arith, omega arith)

pub schedule-IsValid :
    (now : ℕ) (s : State)
    → IsSorted s.callbacks
    → HasDistinctKeys s.callbacks
    → All (λ y. y.key < s.count) s.callbacks
    → IsValid now (schedule_real_callback now s)
unfolding schedule_real_callback
schedule-IsValid now s sorted distinct fresh = record {
  sorted = sorted;
  distinct = distinct;
  fresh = fresh;
  armed = real_callback_time-IsArmed now s.callbacks;
}

All-insert_sorted :
    (P : Callback → Type 0) (d : Callback) (xs : List Callback)
    → P d
    → All P xs
    → All P (insert_sorted d xs)
All-insert_sorted P d [] h a = (h, tt)
All-insert_sorted P d (x ∷ xs) h a = elim (Bool-cases (ltb d.run_at x.run_at)) [
  | inl e ↦ rw e (h, a)
  | inr e ↦ rw e (a.0, All-insert_sorted P d xs h a.1)
]

pub All-mono {ℓ} :
    {A : Type ℓ} {P Q : A → Type 0} (f : (a : A) → P a → Q a) (xs : List A) → All P xs → All Q xs
All-mono f [] a = tt
All-mono f (x ∷ xs) a = (f x a.0, All-mono f xs a.1)

insert_sorted-HasDistinctKeys :
    (d : Callback) (xs : List Callback)
    → All (λ y. y.key < d.key) xs
    → HasDistinctKeys xs
    → HasDistinctKeys (insert_sorted d xs)
insert_sorted-HasDistinctKeys d [] f u = (tt, tt)
insert_sorted-HasDistinctKeys d (x ∷ xs) f u = elim (Bool-cases (ltb d.run_at x.run_at)) [
  | inl e ↦ rw e (All-mono (λ y h. omega arith) (x ∷ xs) f, u)
  | inr e ↦ rw e (
    All-insert_sorted (λ y. y.key ≢ x.key) d xs (omega (arith, f.0)) u.0,
    insert_sorted-HasDistinctKeys d xs f.1 u.1,
  )
]

abbrev pub entry_of : ℕ → String → ℕ → State → Callback
entry_of now func delay s = record { run_at = now + delay; func = func; key = s.count }

-- From a valid state `setTimeout` returns the next key, puts the new callback in front of the first
-- one that is due later (behind all that are due at the same time) and leaves the state valid.
pub set_timeout-insert_sorted :
    (now : ℕ) (func : String) (delay : ℕ) (s : State)
    → IsValid now s
    → (s' : State) × (set_timeout now func delay s ≡ some (s.count, s'))
      × (s'.callbacks ≡ insert_sorted (entry_of now func delay s) s.callbacks)
      × (s'.count ≡ s.count + 1)
      × IsValid now s'
unfolding set_timeout
set_timeout-insert_sorted now func delay s v =
    let d = entry_of now func delay s in
    let (idx, found, le, splits) =
      binary_search-Splits (λ el. ltb d.run_at el.run_at) s.callbacks
        (later-IsMonotone d.run_at s.callbacks v.sorted) in
    let place = splice-insert_sorted d s.callbacks idx le splits in
    let next : State = record {
      count = s.count + 1;
      callbacks = insert_sorted d s.callbacks;
      real_callback = s.real_callback;
    } in
    (
      schedule_real_callback now next,
      rw (found, set_timeout) (rw place refl),
      refl,
      refl,
      schedule-IsValid now next (insert_sorted-IsSorted d s.callbacks v.sorted)
          (insert_sorted-HasDistinctKeys d s.callbacks v.fresh v.distinct)
          (All-insert_sorted (λ y. y.key < s.count + 1) d s.callbacks (omega arith)
            (All-mono (λ y h. omega arith) s.callbacks v.fresh)),
    )
