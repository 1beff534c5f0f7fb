-- ===== src/Devices/Downloads.antt =====
-- Downloads of crypto/DeviceList.js, from the users they are for to the statuses they leave.
use mathlib.Core.Option.{some-injective}
use matrix_js_sdk.Base.{
  ℕ, suc, ◌≡◌, refl, ap, sym, ◌∙◌, String, Bool, true, false, ◌&&◌, ◌||◌, Option, some, List, [],
  ◌∷◌, ◌++◌, arith, if◌then◌else◌,
}
use matrix_js_sdk.Base.Dict.{get, IsUnique}
use matrix_js_sdk.Devices.Serialiser.{Serialiser, has_user, request_succeeded, request_failed}
use matrix_js_sdk.Devices.Queue.{IsSerial, is_asked, deferred_of, update_devices_for_users-Updated}
use matrix_js_sdk.Devices.Settling.{request_succeeded-Settled, failed_settled}
use matrix_js_sdk.Devices.Tracking.{
  in_progress, up_to_date, Waiter, Tracker, is_pending, is_in_progress, mark_users, do_key_download,
  outdated_users, refresh_outdated_device_lists, finished_status, settle, not_waiting, on_response,
}
use matrix_js_sdk.Devices.Refresh.{
  is_settled, is_settled-append, settle-status, settle-serialiser, mark_users-status,
  mark_users-downloads, mark_users-serialiser, mark_users-waiters, outdated-has_user,
}

-- What `_doKeyDownload` of some users leaves.
pub record Downloading (users : List String) (t : Tracker) (result : Option Tracker) : Type 0 where
  pub tracker : Tracker
  pub went : result ≡ some tracker
  pub serial : IsSerial tracker.serialiser
  pub status :
      (u : String)
      → get u tracker.status ≡ (
          if has_user u users && is_pending (get u t.status)
          then some in_progress
          else get u t.status)
  pub asked :
      (u : String) → is_asked u tracker.serialiser ≡ (is_asked u t.serialiser || has_user u users)

-- `_doKeyDownload` does not throw in a serial state (one request while a download is in progress
-- and none else, users queued only with a promise). The users that were pending and are for
-- download are in progress, no other status changes, and just the users that were asked before and
-- those for download are asked.
pub do_key_download-Downloading :
    (users : List String) (t : Tracker)
    → IsSerial t.serialiser
    → Downloading users t (do_key_download users t)
unfolding do_key_download has_user
do_key_download-Downloading [] t serial = record {
  tracker = t;
  went = refl;
  serial = serial;
  status = λ u. refl;
  asked = λ u. ground arith;
}
do_key_download-Downloading (v ∷ users) t serial =
    let r = update_devices_for_users-Updated (v ∷ users) t.sync_token t.serialiser serial in
    let t0 : Tracker = record t {
      serialiser = r.state;
      waiters =
          t.waiters
          ++ record { users = v ∷ users; deferred = r.promise; promise = t.next_promise } ∷ [];
      next_promise = suc t.next_promise;
    } in
    let kept = mark_users-serialiser t.next_promise (v ∷ users) t0 in
    record {
      tracker = mark_users t.next_promise (v ∷ users) t0;
      went = rw (r.went, do_key_download) refl;
      serial = rw kept r.serial;
      status = λ u. mark_users-status t.next_promise u (v ∷ users) t0;
      asked = λ u. rw kept (r.asked u);
    }

on_response-true :
    (t : Tracker) (d : ℕ) (s : Serialiser)
    → request_succeeded t.serialiser ≡ some (d, s)
    → on_response true t
      ≡ some
          (settle true d t.waiters (record t { serialiser = s; waiters = not_waiting d t.waiters }))
unfolding on_response
on_response-true t d s e = rw (e, on_response) refl

-- the statuses, once the request of a download for some users has succeeded
up_to_date_after :
    (d promise : ℕ) (u : String) (s : Serialiser) (waiters : List Waiter) (w : Waiter) (t : Tracker)
    → t.waiters ≡ waiters ++ w ∷ []
    → w.deferred ≡ d
    → w.promise ≡ promise
    → has_user u w.users ≡ true
    → get u t.downloads ≡ some promise
    → get u t.status ≡ some in_progress
    → get u
        (settle true d t.waiters
          (record t { serialiser = s; waiters = not_waiting d t.waiters })).status
      ≡ some up_to_date
up_to_date_after d promise u s waiters w t all same latest has download status =
    let settled : is_settled d u (get u t.downloads) t.waiters ≡ true =
      ap (is_settled d u (get u t.downloads)) all
      ∙ ap (λ x. is_settled d u x (waiters ++ w ∷ [])) download
      ∙ is_settled-append d u (some promise) waiters w (ground arith) in
    settle-status true d u t.waiters
      (record t { serialiser = s; waiters = not_waiting d t.waiters })
    ∙ ground (arith, settled, status)

-- In a state with no request and no queue, `_doKeyDownload` of users followed by the success of the request
-- leaves each of the users that was pending up to date.
pub do_key_download-on_response :
    (users : List String) (t : Tracker) (u : String)
    → IsSerial t.serialiser
    → t.serialiser.download_in_progress ≡ false
    → has_user u users ≡ true
    → is_pending (get u t.status) ≡ true
    → (t' t'' : Tracker) × (do_key_download users t ≡ some t')
      × (on_response true t' ≡ some t'')
      × (get u t''.status ≡ some up_to_date)
unfolding do_key_download has_user
do_key_download-on_response [] t u serial idle has pending = cc
do_key_download-on_response (v ∷ users) t u serial idle has pending =
    let r = update_devices_for_users-Updated (v ∷ users) t.sync_token t.serialiser serial in
    let z = request_succeeded-Settled r.state r.serial r.busy in
    let w : Waiter = record { users = v ∷ users; deferred = r.promise; promise = t.next_promise } in
    let t0 : Tracker = record t {
      serialiser = r.state;
      waiters = t.waiters ++ w ∷ [];
      next_promise = suc t.next_promise;
    } in
    let t1 = mark_users t.next_promise (v ∷ users) t0 in
    let same : r.promise ≡ z.promise = some-injective _ _ (sym (r.at_once idle) ∙ z.of_request) in
    (
      t1,
      settle true z.promise t1.waiters
          (record t1 { serialiser = z.state; waiters = not_waiting z.promise t1.waiters }),
      rw (r.went, do_key_download) refl,
      on_response-true t1 z.promise z.state
          (ap request_succeeded (mark_users-serialiser t.next_promise (v ∷ users) t0) ∙ z.went),
      up_to_date_after z.promise t.next_promise u z.state t.waiters w t1
          (mark_users-waiters t.next_promise (v ∷ users) t0) same refl has
          (mark_users-downloads t.next_promise u (v ∷ users) t0 ∙ ground (arith, has))
          (mark_users-status t.next_promise u (v ∷ users) t0 ∙ ground (arith, has, pending)),
    )

-- In a serial state (one request while a download is in progress and none else, users queued only
-- with a promise), whose map of statuses has each user once, `refreshOutdatedDeviceLists` does not
-- throw: each pending user comes to be in progress, no other status changes, and just the users
-- that were asked before and the pending ones are asked.
pub refresh_outdated_device_lists-Downloading :
    (t : Tracker)
    → IsSerial t.serialiser
    → IsUnique t.status
    → (r : Downloading (outdated_users t.status) t (refresh_outdated_device_lists t))
      × ((u : String)
          → get u r.tracker.status
            ≡ (if is_pending (get u t.status) then some in_progress else get u t.status))
      × ((u : String)
          → is_asked u r.tracker.serialiser
            ≡ (is_asked u t.serialiser || is_pending (get u t.status)))
unfolding refresh_outdated_device_lists
refresh_outdated_device_lists-Downloading t serial unique =
    let r = do_key_download-Downloading (outdated_users t.status) t serial in
    (
      r,
      λ u. r.status u ∙ ground (arith, outdated-has_user u t.status unique),
      λ u. r.asked u ∙ ap (λ b. is_asked u t.serialiser || b) (outdated-has_user u t.status unique),
    )

on_response-false :
    (t : Tracker) (d : ℕ) (s : Serialiser)
    → request_failed t.serialiser ≡ some (d, s)
    → on_response false t
      ≡ some (
          settle false d t.waiters (record t { serialiser = s; waiters = not_waiting d t.waiters }))
unfolding on_response
on_response-false t d s e = rw (e, on_response) refl

-- While a download is in progress, in a serial state (one request while a download is in progress
-- and none else, users queued only with a promise), a response does not throw. It makes a user up
-- to date, or pending if the request failed, just when the user's status is in progress and the
-- user's latest download waited for this request; all other statuses stay: a user that was
-- invalidated since, that is no longer tracked, or that has a later download.
pub on_response-status :
    (success : Bool) (t : Tracker)
    → IsSerial t.serialiser
    → t.serialiser.download_in_progress ≡ true
    → (t' : Tracker) × (d : ℕ) × (on_response success t ≡ some t')
      × (deferred_of t.serialiser.requests ≡ some d)
      × IsSerial t'.serialiser
      × ((u : String)
          → get u t'.status ≡ (
              if is_settled d u (get u t.downloads) t.waiters && is_in_progress (get u t.status)
              then some (finished_status success)
              else get u t.status))
on_response-status true t serial busy =
    let z = request_succeeded-Settled t.serialiser serial busy in
    let t1 : Tracker = record t {
      serialiser = z.state;
      waiters = not_waiting z.promise t.waiters;
    } in
    (
      settle true z.promise t.waiters t1,
      z.promise,
      on_response-true t z.promise z.state z.went,
      z.of_request,
      rw (settle-serialiser true z.promise t.waiters t1) z.serial,
      λ u. settle-status true z.promise u t.waiters t1,
    )
on_response-status false t serial busy =
    let z = failed_settled t.serialiser serial busy in
    let t1 : Tracker = record t {
      serialiser = z.state;
      waiters = not_waiting z.promise t.waiters;
    } in
    (
      settle false z.promise t.waiters t1,
      z.promise,
      on_response-false t z.promise z.state z.went,
      z.of_request,
      rw (settle-serialiser false z.promise t.waiters t1) z.serial,
      λ u. settle-status false z.promise u t.waiters t1,
    )
