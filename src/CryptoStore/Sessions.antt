-- ===== src/CryptoStore/Sessions.antt =====
-- The state of `MemoryCryptoStore` on Olm sessions (crypto/store/memory-crypto-store.js). A session
-- is its text; a callback `func` is the result of the function here.
use matrix_js_sdk.Base.{
  ℕ, String, Bool, true, false, Option, none, some, List, [], ◌∷◌, ◌++◌, if◌then◌else◌, is_some,
  ltb,
}
use matrix_js_sdk.Base.Dict.{Dict, get, put, get_or}

-- an entry of `_sessionProblems[deviceKey]`
pub record Problem : Type 0 where
  pub type : String
  pub fixed : Bool
  pub time : ℕ

pub record Device : Type 0 where
  pub user_id : String
  pub device_id : String

pub record Store : Type 0 where
  pub sessions : Dict (Dict String)
  pub session_problems : Dict (List Problem)
  pub notified_error_devices : Dict (Dict Bool)

unfoldable pub store_end_to_end_session : String → String → String → Store → Store
store_end_to_end_session device_key session_id info s = record s {
  sessions = put device_key (put session_id info (get_or device_key s.sessions [])) s.sessions;
}

unfoldable pub get_end_to_end_session : String → String → Store → Option String
get_end_to_end_session device_key session_id s = get session_id (get_or device_key s.sessions [])

-- the inner loop of `getAllEndToEndSessions`
unfoldable pub sessions_of : String → Dict String → List (String × String × String)
sessions_of device_key [] = []
sessions_of device_key ((session_id, info) ∷ d) =
    (device_key, session_id, info) ∷ sessions_of device_key d

unfoldable pub all_sessions : Dict (Dict String) → List (String × String × String)
unfolding sessions_of
all_sessions [] = []
all_sessions ((device_key, d) ∷ m) = sessions_of device_key d ++ all_sessions m

-- `problems.sort` by the time: a problem goes behind those of the same time
unfoldable pub insert_problem : Problem → List Problem → List Problem
insert_problem p [] = p ∷ []
insert_problem p (q ∷ qs) = if ltb p.time q.time then p ∷ q ∷ qs else q ∷ insert_problem p qs

unfoldable pub sort_onto : List Problem → List Problem → List Problem
unfolding insert_problem
sort_onto sorted [] = sorted
sort_onto sorted (p ∷ ps) = sort_onto (insert_problem p sorted) ps

-- `storeEndToEndSessionProblem`, at the time `now`
unfoldable pub store_end_to_end_session_problem : ℕ → String → String → Bool → Store → Store
unfolding sort_onto
store_end_to_end_session_problem now device_key type fixed s =
    let problems = get_or device_key s.session_problems [] in
    let problem : Problem = record { type = type; fixed = fixed; time = now } in
    record s {
      session_problems =
          put device_key (sort_onto [] (problems ++ problem ∷ [])) s.session_problems;
    }

abbrev pub last_problem : Problem → List Problem → Problem
last_problem p [] = p
last_problem p (q ∷ qs) = last_problem q qs

-- the loop of `getEndToEndSessionProblem`
unfoldable pub first_after : ℕ → List Problem → Option Problem
first_after timestamp [] = none
first_after timestamp (p ∷ ps) = if ltb timestamp p.time then some p else first_after timestamp ps

unfoldable pub problem_of : ℕ → List Problem → Option Problem
unfolding first_after
problem_of timestamp [] = none
problem_of timestamp (p ∷ ps) =
    let last = last_problem p ps in
    elim (first_after timestamp (p ∷ ps)) [
      | some problem ↦ some (record problem { fixed = last.fixed })
      | none ↦ if last.fixed then none else some last
    ]

unfoldable pub get_end_to_end_session_problem : String → ℕ → Store → Option Problem
unfolding problem_of
get_end_to_end_session_problem device_key timestamp s =
    problem_of timestamp (get_or device_key s.session_problems [])

-- the device was in an earlier call
unfoldable pub is_notified : Device → Dict (Dict Bool) → Bool
is_notified x n = elim (get x.user_id n) [ none ↦ false | some ds ↦ is_some (get x.device_id ds) ]

unfoldable pub notify : Device → Dict (Dict Bool) → Dict (Dict Bool)
notify x n = elim (get x.user_id n) [
  | none ↦ put x.user_id ((x.device_id, true) ∷ []) n
  | some ds ↦ put x.user_id (put x.device_id true ds) n
]

-- the loop of `filterOutNotifiedErrorDevices`
unfoldable pub filter_out : List Device → Dict (Dict Bool) → List Device × Dict (Dict Bool)
filter_out [] n = ([], n)
filter_out (x ∷ xs) n = elim (is_notified x n) [
  | true ↦ filter_out xs n
  | false ↦ let (ret, n') = filter_out xs (notify x n) in (x ∷ ret, n')
]

unfoldable pub filter_out_notified_error_devices : List Device → Store → List Device × Store
unfolding filter_out
filter_out_notified_error_devices devices s =
    let (ret, n) = filter_out devices s.notified_error_devices in
    (ret, record s { notified_error_devices = n })
