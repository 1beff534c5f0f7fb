-- ===== src/Tests/Store.antt =====
-- The problems and the notified devices of memory-crypto-store.js.
use Prim.Native.Nat.{min}
use matrix_js_sdk.Base.{◌≡◌, ◌||◌, true, false, none, [], ◌∷◌, arith, if◌then◌else◌, any}
use matrix_js_sdk.Base.Dict.{get}
use matrix_js_sdk.CryptoStore.Sessions.{
  Device, Store, filter_out_notified_error_devices, is_notified, store_end_to_end_session_problem,
  get_end_to_end_session_problem,
}
use matrix_js_sdk.CryptoStore.Notified.{same_device, times, filter_out_notified_error_devices-times}
use matrix_js_sdk.CryptoStore.Problems.{
  IsOrdered, IsBy, problems_of, problem_at, get_end_to_end_session_problem-store,
}

abbrev phone : Device
phone = record { user_id = "@a:x"; device_id = "P" }

-- one problem at the time 3
abbrev store : Store
store = record {
  sessions = [];
  session_problems = ("key", problem_at 3 "wedged" false ∷ []) ∷ [];
  notified_error_devices = [];
}

store-IsOrdered : IsOrdered (problems_of "key" store)
unfolding get
store-IsOrdered = (tt, tt)

store-IsBy : IsBy 5 (problems_of "key" store)
unfolding get
store-IsBy = (omega arith, tt)

filter_out_notified_error_devices-times_example :
    (times phone (filter_out_notified_error_devices (phone ∷ phone ∷ []) store).0
      ≡ (if is_notified phone [] then 0 else min 1 (times phone (phone ∷ phone ∷ []))))
    × (is_notified phone
          (filter_out_notified_error_devices (phone ∷ phone ∷ []) store).1.notified_error_devices
        ≡ (is_notified phone [] || any (λ x. same_device x phone) (phone ∷ phone ∷ [])))
filter_out_notified_error_devices-times_example =
    filter_out_notified_error_devices-times phone (phone ∷ phone ∷ []) store

get_end_to_end_session_problem-store_example :
    get_end_to_end_session_problem "key" 6
      (store_end_to_end_session_problem 5 "key" "wedged" true store)
    ≡ none
get_end_to_end_session_problem-store_example =
    get_end_to_end_session_problem-store 5 6 "key" "wedged" true store store-IsOrdered store-IsBy
      (omega arith)
