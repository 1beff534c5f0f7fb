-- ===== src/Realtime/Callbacks.antt =====
-- The state and the functions of realtime-callbacks.js. Times are milliseconds. The clock is the
-- argument `now`; a callback's function with its parameters is a name, `func`.
use Prim.Native.Nat.{min}
use matrix_js_sdk.Base.{
  ℕ, zero, suc, ◌+◌, ◌-◌, ◌/◌, String, Bool, false, Option, none, some, List, [], ◌∷◌, ◌++◌, ltb,
  ◌==◌, if◌then◌else◌, length, get_elem?, take, drop,
}

pub record Callback : Type 0 where
  pub run_at : ℕ
  pub func : String
  pub key : ℕ

pub record State : Type 0 where
  -- `_count`
  pub count : ℕ
  -- `_callbackList`
  pub callbacks : List Callback
  -- when the host's timer fires, if one is set
  pub real_callback : Option ℕ

abbrev pub initial : State
initial = record { count = 0; callbacks = []; real_callback = none }

abbrev pub timer_check_period_ms : ℕ
timer_check_period_ms = 1000

-- The loop of `binarySearch` on fuel; `none` is the fuel running out or a read past the end.
unfoldable pub search_loop {ℓ} : {A : Type ℓ} → ℕ → List A → (A → Bool) → ℕ → ℕ → Option ℕ
search_loop zero array too_big min max = none
search_loop (suc fuel) array too_big min max =
    let mid = (min + max) / 2 in
    let left = search_loop fuel array too_big min mid in
    let right = search_loop fuel array too_big (mid + 1) max in
    if ltb min max
    then (elim (get_elem? array mid) [ none ↦ none | some el ↦ if too_big el then left else right ])
    else some min

unfoldable pub binary_search {ℓ} : {A : Type ℓ} → List A → (A → Bool) → Option ℕ
unfolding search_loop
binary_search array too_big = search_loop (suc (length array)) array too_big 0 (length array)

-- When the host's timer is to fire. A delay in the past is a delay of 0 for the host, as it is for
-- the subtraction of ℕ.
unfoldable pub real_callback_time : ℕ → List Callback → Option ℕ
real_callback_time now [] = none
real_callback_time now (first ∷ rest) = some (now + min (first.run_at - now) timer_check_period_ms)

unfoldable pub schedule_real_callback : ℕ → State → State
unfolding real_callback_time
schedule_real_callback now s = record s { real_callback = real_callback_time now s.callbacks }

-- `setTimeout(func, delayMs)`, its delay already `delayMs || 0`, and 0 for a negative one
unfoldable pub set_timeout : ℕ → String → ℕ → State → Option (ℕ × State)
unfolding binary_search schedule_real_callback
set_timeout now func delay_ms s =
    let run_at = now + delay_ms in
    elim (binary_search s.callbacks (λ el. ltb run_at el.run_at)) [
      | none ↦ none
      | some idx ↦
          let entry : Callback = record { run_at = run_at; func = func; key = s.count } in
          some (
            s.count,
            schedule_real_callback now (record {
              count = s.count + 1;
              callbacks = take idx s.callbacks ++ entry ∷ drop idx s.callbacks;
              real_callback = s.real_callback;
            }),
          )
    ]

-- The loop of `clearTimeout`: the list without the first entry of this key.
unfoldable pub remove_key : ℕ → List Callback → List Callback
remove_key key [] = []
remove_key key (cb ∷ rest) = if cb.key == key then rest else cb ∷ remove_key key rest

abbrev pub is_first : ℕ → List Callback → Bool
is_first key [] = false
is_first key (cb ∷ rest) = cb.key == key

unfoldable pub clear_timeout : ℕ → ℕ → State → State
unfolding remove_key schedule_real_callback
clear_timeout now key s =
    let s' : State = record s { callbacks = remove_key key s.callbacks } in
    if is_first key s.callbacks then schedule_real_callback now s' else s'

-- The `while (true)` of `_runCallbacks`: what is due at the head, and the rest.
unfoldable pub take_due : ℕ → List Callback → List Callback × List Callback
take_due now [] = ([], [])
take_due now (first ∷ rest) =
    let (due, later) = take_due now rest in
    if ltb now first.run_at then ([], first ∷ rest) else (first ∷ due, later)

-- The callbacks to call, in order, and the state that they are called in.
unfoldable pub run_callbacks : ℕ → State → List Callback × State
unfolding take_due schedule_real_callback
run_callbacks now s =
    let (due, later) = take_due now s.callbacks in
    (due, schedule_real_callback now (record s { callbacks = later }))
