-- ===== src/Tests/Timers.antt =====
-- realtime-callbacks.js with two timeouts.
use matrix_js_sdk.Base.{ℕ, ◌≡◌, ◌≤◌, ◌<◌, ◌+◌, refl, some, [], ◌∷◌, ◌++◌, arith, ltb, length, All}
use matrix_js_sdk.Realtime.Callbacks.{
  Callback, State, binary_search, search_loop, set_timeout, schedule_real_callback,
  real_callback_time, clear_timeout, run_callbacks,
}
use matrix_js_sdk.Realtime.Search.{Splits, binary_search-Splits}
use matrix_js_sdk.Realtime.Sorted.{insert_sorted, later-IsMonotone}
use matrix_js_sdk.Realtime.Laws.{IsValid, entry_of, set_timeout-insert_sorted}
use matrix_js_sdk.Realtime.Runs.{without, clear_timeout-without, run_callbacks-due}

abbrev callback : ℕ → ℕ → Callback
callback at key = record { run_at = at; func = "f"; key = key }

abbrev two_timeouts : State
two_timeouts = record {
  count = 2;
  callbacks = callback 110 1 ∷ callback 150 0 ∷ [];
  real_callback = some 110;
}

two_timeouts-IsValid : IsValid 100 two_timeouts
two_timeouts-IsValid = record {
  sorted = ((omega arith, tt), (tt, tt));
  distinct = ((λ (e : 0 ≡ 1). absurd (omega (arith, e)), tt), (tt, tt));
  fresh = (omega arith, (omega arith, tt));
  armed = (110, refl, omega arith, omega arith);
}

-- a third timeout, due with the first, goes behind it
third_timeout :
    set_timeout 100 "g" 10 two_timeouts
    ≡ some (
      2,
      record {
        count = 3;
        callbacks =
            callback 110 1 ∷ record { run_at = 110; func = "g"; key = 2 } ∷ callback 150 0 ∷ [];
        real_callback = some 110;
      },
    )
unfolding set_timeout binary_search search_loop schedule_real_callback real_callback_time
third_timeout = refl

binary_search-Splits_example :
    (i : ℕ) × (binary_search two_timeouts.callbacks (λ el. ltb 120 el.run_at) ≡ some i)
    × (i ≤ length two_timeouts.callbacks)
    × Splits (λ el. ltb 120 el.run_at) two_timeouts.callbacks i i
binary_search-Splits_example =
    binary_search-Splits (λ el. ltb 120 el.run_at) two_timeouts.callbacks
      (later-IsMonotone 120 two_timeouts.callbacks two_timeouts-IsValid.sorted)

set_timeout-insert_sorted_example :
    (s' : State) × (set_timeout 100 "g" 10 two_timeouts ≡ some (2, s'))
    × (s'.callbacks ≡ insert_sorted (entry_of 100 "g" 10 two_timeouts) two_timeouts.callbacks)
    × (s'.count ≡ 2 + 1)
    × IsValid 100 s'
set_timeout-insert_sorted_example =
    set_timeout-insert_sorted 100 "g" 10 two_timeouts two_timeouts-IsValid

clear_timeout-without_example :
    ((clear_timeout 100 1 two_timeouts).callbacks ≡ without 1 two_timeouts.callbacks)
    × IsValid 100 (clear_timeout 100 1 two_timeouts)
clear_timeout-without_example = clear_timeout-without 100 1 two_timeouts two_timeouts-IsValid

run_callbacks-due_example :
    ((run_callbacks 120 two_timeouts).0 ++ (run_callbacks 120 two_timeouts).1.callbacks
      ≡ two_timeouts.callbacks)
    × All (λ y. y.run_at ≤ 120) (run_callbacks 120 two_timeouts).0
    × All (λ y. 120 < y.run_at) (run_callbacks 120 two_timeouts).1.callbacks
    × IsValid 120 (run_callbacks 120 two_timeouts).1
run_callbacks-due_example = run_callbacks-due 120 100 two_timeouts two_timeouts-IsValid
