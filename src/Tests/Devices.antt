-- ===== src/Tests/Devices.antt =====
-- The device lists, with a device that keeps its key and users whose keys are downloaded.
use matrix_js_sdk.Base.{
  ℕ, ◌≡◌, refl, String, Bool, true, false, ◌&&◌, ◌||◌, none, some, [], ◌∷◌, if◌then◌else◌,
}
use matrix_js_sdk.Base.Dict.{Dict, get, IsUnique}
use matrix_js_sdk.Devices.Keys.{
  Device, DeviceResult, new_device, has_removed, update_stored_device_keys_for_user,
}
use matrix_js_sdk.Devices.Trust.{Trusted, update_stored_device_keys_for_user-Trusted}
use matrix_js_sdk.Devices.Identities.{
  DeviceList, set_raw_stored_devices_for_user, get_user_by_identity_key, olm_algorithm,
  has_identity, get_user_by_identity_key-set_raw_stored_devices_for_user,
}
use matrix_js_sdk.Devices.Serialiser.{
  Serialiser, new_serialiser, has_user, update_devices_for_users, request_failed, request_succeeded,
  do_queued_queries, queue_users,
}
use matrix_js_sdk.Devices.Queue.{IsSerial, is_asked, deferred_of, Updated}
use matrix_js_sdk.Devices.Settling.{Settled, request_failed-Settled, Reachable, Reachable-IsSerial}
use matrix_js_sdk.Devices.Tracking.{
  pending_download, in_progress, up_to_date, Tracker, new_tracker, is_pending, is_in_progress,
  finished_status, do_key_download, outdated_users, refresh_outdated_device_lists, on_response,
}
use matrix_js_sdk.Devices.Refresh.{is_settled}
use matrix_js_sdk.Devices.Downloads.{
  Downloading, do_key_download-on_response, refresh_outdated_device_lists-Downloading,
  on_response-status,
}

abbrev key_data : String → Dict String
key_data key = ("ed25519:D", key) ∷ ("curve25519:D", "c") ∷ []

abbrev stored : Dict Device
stored = ("D", record new_device { keys = key_data "k" }) ∷ []

-- the response has another key for the device
abbrev response : Dict DeviceResult
response =
    (
      "D",
      record {
        user_id = "@a:x";
        device_id = "D";
        algorithms = none;
        keys = some (key_data "other");
        unsigned = none;
        signatures = none;
      },
    )
    ∷ []

abbrev all_good : DeviceResult → (user device key : String) → Bool
all_good r user device key = true

response_has_it : has_removed response "D" ≡ false
unfolding has_removed get
response_has_it = refl

update_stored_device_keys_for_user-Trusted_example :
    Trusted all_good "@a:x" response "D"
      (get "D" stored)
      (get "D" (update_stored_device_keys_for_user all_good "@a:x" response stored))
update_stored_device_keys_for_user-Trusted_example =
    update_stored_device_keys_for_user-Trusted all_good "@a:x" response "D" stored response_has_it

abbrev list_of_none : DeviceList
list_of_none = record { devices = []; user_by_identity_key = [] }

get_user_by_identity_key-set_raw_stored_devices_for_user_example :
    get_user_by_identity_key olm_algorithm "c"
      (set_raw_stored_devices_for_user "@a:x" stored list_of_none)
    ≡ (if has_identity "c" stored
        then some "@a:x"
        else (if has_identity "c" []
            then none
            else get_user_by_identity_key olm_algorithm "c" list_of_none))
unfolding get
get_user_by_identity_key-set_raw_stored_devices_for_user_example =
    get_user_by_identity_key-set_raw_stored_devices_for_user olm_algorithm "@a:x" "c" stored
      list_of_none refl

-- a request for one user, and another user in the queue
abbrev busy : Serialiser
busy = record {
  download_in_progress = true;
  queued_users = "@b:x" ∷ [];
  queued_deferred = some 1;
  sync_token = none;
  next_deferred = 2;
  requests = record { users = "@a:x" ∷ []; token = none; deferred = 0 } ∷ [];
}

busy-IsSerial : IsSerial busy
busy-IsSerial = record { one_request = refl; has_deferred = λ h. cc }

request_failed-Settled_example :
    (t : Settled busy none (request_failed busy)) × (v : Updated
      ("@c:x" ∷ [])
      t.state
      (update_devices_for_users ("@c:x" ∷ []) none t.state))
    × ((u : String) → is_asked u v.state ≡ (has_user u ("@b:x" ∷ []) || has_user u ("@c:x" ∷ [])))
request_failed-Settled_example = request_failed-Settled busy busy-IsSerial refl ("@c:x" ∷ []) none

-- one user is asked for, and then another one, who is queued
abbrev asks_one : Serialiser
asks_one = record new_serialiser {
  download_in_progress = true;
  next_deferred = 1;
  requests = record { users = "@a:x" ∷ []; token = none; deferred = 0 } ∷ [];
}

asks_one-Reachable : Reachable asks_one
unfolding update_devices_for_users do_queued_queries queue_users has_user
asks_one-Reachable = Reachable.updates ("@a:x" ∷ []) none Reachable.made refl

busy-Reachable : Reachable busy
unfolding update_devices_for_users do_queued_queries queue_users has_user
busy-Reachable = Reachable.updates ("@b:x" ∷ []) none asks_one-Reachable refl

-- the request succeeds, and the one for the queue is made
abbrev asks_next : Serialiser
asks_next = record busy {
  queued_users = [];
  queued_deferred = none;
  requests = record { users = "@b:x" ∷ []; token = none; deferred = 1 } ∷ [];
}

asks_next-Reachable : Reachable asks_next
unfolding request_succeeded do_queued_queries
asks_next-Reachable = Reachable.succeeds busy-Reachable refl

Reachable-IsSerial_example : IsSerial asks_next
Reachable-IsSerial_example = Reachable-IsSerial asks_next-Reachable

abbrev tracker : Tracker
tracker = record new_tracker { status = ("@a:x", pending_download) ∷ [] }

idle-IsSerial : IsSerial new_serialiser
idle-IsSerial = record { one_request = refl; has_deferred = λ h. refl }

a_is_pending : is_pending (get "@a:x" tracker.status) ≡ true
unfolding get
a_is_pending = refl

a_is_in : has_user "@a:x" ("@a:x" ∷ []) ≡ true
unfolding has_user
a_is_in = refl

do_key_download-on_response_example :
    (t t' : Tracker) × (do_key_download ("@a:x" ∷ []) tracker ≡ some t)
    × (on_response true t ≡ some t')
    × (get "@a:x" t'.status ≡ some up_to_date)
do_key_download-on_response_example =
    do_key_download-on_response ("@a:x" ∷ []) tracker "@a:x" idle-IsSerial refl a_is_in a_is_pending

tracker-IsUnique : IsUnique tracker.status
unfolding get
tracker-IsUnique = (refl, tt)

refresh_outdated_device_lists-Downloading_example :
    (r : Downloading
      (outdated_users tracker.status)
      tracker
      (refresh_outdated_device_lists tracker))
    × ((u : String)
        → get u r.tracker.status
          ≡ (if is_pending (get u tracker.status) then some in_progress else get u tracker.status))
    × ((u : String)
        → is_asked u r.tracker.serialiser
          ≡ (is_asked u tracker.serialiser || is_pending (get u tracker.status)))
refresh_outdated_device_lists-Downloading_example =
    refresh_outdated_device_lists-Downloading tracker idle-IsSerial tracker-IsUnique

-- the user of the request is in progress
abbrev waiting : Tracker
waiting = record {
  status = ("@a:x", in_progress) ∷ [];
  downloads = ("@a:x", 0) ∷ [];
  sync_token = none;
  serialiser = busy;
  waiters = record { users = "@a:x" ∷ []; deferred = 0; promise = 0 } ∷ [];
  next_promise = 1;
}

on_response-status_example :
    (t : Tracker) × (d : ℕ) × (on_response true waiting ≡ some t)
    × (deferred_of waiting.serialiser.requests ≡ some d)
    × IsSerial t.serialiser
    × ((u : String)
        → get u t.status ≡ (
            if is_settled d u (get u waiting.downloads) waiting.waiters
              && is_in_progress (get u waiting.status)
            then some (finished_status true)
            else get u waiting.status))
on_response-status_example = on_response-status true waiting busy-IsSerial refl
