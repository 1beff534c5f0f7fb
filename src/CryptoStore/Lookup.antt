-- ===== src/CryptoStore/Lookup.antt =====
-- The Olm sessions of memory-crypto-store.js, as they are stored and read.
use matrix_js_sdk.Base.{String, ◌≡◌, ◌&&◌, some, [], arith, eq_iff, str_eq, if◌then◌else◌}
use matrix_js_sdk.Base.Dict.{put, get-put, get-nil, get_or}
use matrix_js_sdk.CryptoStore.Sessions.{Store, store_end_to_end_session, get_end_to_end_session}

-- After a session is stored, it is read at its device key and session id, and every other session
-- is read as it was.
pub get_end_to_end_session-store_end_to_end_session :
    (device_key session_id other_key other_id info : String) (s : Store)
    → get_end_to_end_session other_key other_id
        (store_end_to_end_session device_key session_id info s)
      ≡ (if str_eq device_key other_key && str_eq session_id other_id
          then some info
          else get_end_to_end_session other_key other_id s)
unfolding get_end_to_end_session store_end_to_end_session
get_end_to_end_session-store_end_to_end_session device_key session_id other_key other_id info s =
    let d = get_or device_key s.sessions [] in
    ground (
      arith,
      get-put device_key other_key (put session_id info d) s.sessions,
      get-put session_id other_id info d,
      eq_iff device_key other_key,
      eq_iff session_id other_id,
      get-nil {V = String} other_id,
    )
