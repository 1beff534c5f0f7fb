-- ===== src/Devices/Tracking.antt =====
-- The tracking of users by the `DeviceList` of crypto/DeviceList.js. A promise of `_doKeyDownload` is its
-- number; it waits for a deferred of the serialiser, and `finished` is run when that settles. The saves
-- to the store, with their dirty flag, and the emitted events are left out.
use matrix_js_sdk.Base.{
  ℕ, suc, String, Bool, true, false, ◌&&◌, ◌||◌, not, Option, none, some, List, [], ◌∷◌, ◌++◌, ◌==◌,
  if◌then◌else◌, is_some,
}
use matrix_js_sdk.Base.Dict.{Dict, get, put, remove}
use matrix_js_sdk.Devices.Serialiser.{
  Serialiser, new_serialiser, update_devices_for_users, request_succeeded, request_failed,
}

pub data Status : Type 0 where
  not_tracked pending_download in_progress up_to_date : Status

pub record Waiter : Type 0 where
  pub users : List String
  pub deferred : ℕ
  pub promise : ℕ

pub record Tracker : Type 0 where
  pub status : Dict Status
  -- `_keyDownloadsInProgressByUser`
  pub downloads : Dict ℕ
  pub sync_token : Option String
  pub serialiser : Serialiser
  pub waiters : List Waiter
  pub next_promise : ℕ

abbrev pub new_tracker : Tracker
new_tracker = record {
  status = [];
  downloads = [];
  sync_token = none;
  serialiser = new_serialiser;
  waiters = [];
  next_promise = 0;
}

-- a status that is there and not 0
abbrev pub is_tracked : Option Status → Bool
is_tracked none = false
is_tracked (some not_tracked) = false
is_tracked (some _) = true

abbrev pub is_pending : Option Status → Bool
is_pending (some pending_download) = true
is_pending _ = false

abbrev pub is_in_progress : Option Status → Bool
is_in_progress (some in_progress) = true
is_in_progress _ = false

abbrev pub is_up_to_date : Option Status → Bool
is_up_to_date (some up_to_date) = true
is_up_to_date _ = false

unfoldable pub start_tracking_device_list : String → Tracker → Tracker
start_tracking_device_list u t =
    if is_tracked (get u t.status) then t else record t { status = put u pending_download t.status }

unfoldable pub stop_tracking_device_list : String → Tracker → Tracker
stop_tracking_device_list u t =
    if is_tracked (get u t.status) then record t { status = put u not_tracked t.status } else t

abbrev pub none_tracked : Dict Status → Dict Status
none_tracked [] = []
none_tracked ((u, s) ∷ status) = (u, not_tracked) ∷ none_tracked status

unfoldable pub stop_tracking_all_device_lists : Tracker → Tracker
stop_tracking_all_device_lists t = record t { status = none_tracked t.status }

unfoldable pub invalidate_user_device_list : String → Tracker → Tracker
invalidate_user_device_list u t =
    if is_tracked (get u t.status) then record t { status = put u pending_download t.status } else t

-- a user of `_doKeyDownload`
unfoldable pub mark_user : ℕ → String → Tracker → Tracker
mark_user promise u t = record t {
  downloads = put u promise t.downloads;
  status = (if is_pending (get u t.status) then put u in_progress t.status else t.status);
}

unfoldable pub mark_users : ℕ → List String → Tracker → Tracker
unfolding mark_user
mark_users promise [] t = t
mark_users promise (u ∷ users) t = mark_users promise users (mark_user promise u t)

-- `_doKeyDownload`; `none` is an error of the serialiser
unfoldable pub do_key_download : List String → Tracker → Option Tracker
unfolding mark_users
do_key_download [] t = some t
do_key_download (u ∷ users) t =
    elim (update_devices_for_users (u ∷ users) t.sync_token t.serialiser) [
      | none ↦ none
      | some (d, s) ↦ some (
          mark_users t.next_promise (u ∷ users) (record t {
            serialiser = s;
            waiters =
                t.waiters
                ++ record { users = u ∷ users; deferred = d; promise = t.next_promise } ∷ [];
            next_promise = suc t.next_promise;
          }))
    ]

unfoldable pub outdated_users : Dict Status → List String
outdated_users [] = []
outdated_users ((u, s) ∷ status) =
    let rest = outdated_users status in if is_pending (some s) then u ∷ rest else rest

unfoldable pub refresh_outdated_device_lists : Tracker → Option Tracker
unfolding do_key_download outdated_users
refresh_outdated_device_lists t = do_key_download (outdated_users t.status) t

-- the users that `downloadKeys` asks for
unfoldable pub users_to_download : Bool → List String → Tracker → List String
users_to_download force [] t = []
users_to_download force (u ∷ users) t =
    let rest = users_to_download force users t in
    if not (is_some (get u t.downloads)) && (force || not (is_up_to_date (get u t.status)))
    then u ∷ rest
    else rest

unfoldable pub download_keys : List String → Bool → Tracker → Option Tracker
unfolding do_key_download users_to_download
download_keys users force t = do_key_download (users_to_download force users t) t

abbrev pub is_promise : ℕ → Option ℕ → Bool
is_promise promise none = false
is_promise promise (some p) = p == promise

abbrev pub finished_status : Bool → Status
finished_status true = up_to_date
finished_status false = pending_download

-- a user of `finished`
unfoldable pub finish_user : Bool → ℕ → String → Tracker → Tracker
finish_user success promise u t =
    if is_promise promise (get u t.downloads)
    then record t {
      downloads = remove u t.downloads;
      status =
          (if is_in_progress (get u t.status)
            then put u (finished_status success) t.status
            else t.status);
    }
    else t

unfoldable pub finish_users : Bool → ℕ → List String → Tracker → Tracker
unfolding finish_user
finish_users success promise [] t = t
finish_users success promise (u ∷ users) t =
    finish_users success promise users (finish_user success promise u t)

-- the deferred settles: its waiters are finished, in their order
unfoldable pub settle : Bool → ℕ → List Waiter → Tracker → Tracker
unfolding finish_users
settle success d [] t = t
settle success d (w ∷ waiters) t =
    settle success d waiters
      (if w.deferred == d then finish_users success w.promise w.users t else t)

abbrev pub not_waiting : ℕ → List Waiter → List Waiter
not_waiting d [] = []
not_waiting d (w ∷ waiters) =
    let rest = not_waiting d waiters in if w.deferred == d then rest else w ∷ rest

abbrev pub serialiser_step : Bool → Serialiser → Option (ℕ × Serialiser)
serialiser_step true = request_succeeded
serialiser_step false = request_failed

-- the request settles
unfoldable pub on_response : Bool → Tracker → Option Tracker
unfolding settle
on_response success t = elim (serialiser_step success t.serialiser) [
  | none ↦ none
  | some (d, s) ↦
      some (
        settle success d t.waiters (record t { serialiser = s; waiters = not_waiting d t.waiters }))
]
