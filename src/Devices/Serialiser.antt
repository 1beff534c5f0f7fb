-- ===== src/Devices/Serialiser.antt =====
-- `DeviceListUpdateSerialiser` of crypto/DeviceList.js. A deferred is its number, in the order of their
-- making; the requests are the calls of `downloadKeysForUsers` that have not settled yet, in that order,
-- of which the first is the next to settle.
use matrix_js_sdk.Base.{
  ℕ, suc, String, Bool, true, false, Option, none, some, List, [], ◌∷◌, ◌++◌, str_eq, any, truthy,
  if◌then◌else◌,
}

pub record Request : Type 0 where
  pub users : List String
  pub token : Option String
  pub deferred : ℕ

pub record Serialiser : Type 0 where
  pub download_in_progress : Bool
  -- the keys of `_keyDownloadsQueuedByUser`
  pub queued_users : List String
  pub queued_deferred : Option ℕ
  pub sync_token : Option String
  pub next_deferred : ℕ
  pub requests : List Request

abbrev pub new_serialiser : Serialiser
new_serialiser = record {
  download_in_progress = false;
  queued_users = [];
  queued_deferred = none;
  sync_token = none;
  next_deferred = 0;
  requests = [];
}

unfoldable pub has_user : String → List String → Bool
has_user u users = any (λ v. str_eq v u) users

abbrev pub queue_user : String → List String → List String
queue_user u users = if has_user u users then users else users ++ u ∷ []

unfoldable pub queue_users : List String → List String → List String
unfolding has_user
queue_users [] queued = queued
queue_users (u ∷ users) queued = queue_users users (queue_user u queued)

-- the deferred of the queue, which is made if there is none
abbrev pub with_deferred : Serialiser → Option ℕ → Serialiser
with_deferred s none = record s {
  queued_deferred = some s.next_deferred;
  next_deferred = suc s.next_deferred;
}
with_deferred s (some d) = s

abbrev pub token_of : Option String → Option String
token_of token = if truthy token then token else none

-- `_doQueuedQueries`, with the promise it returns; `none` is the error of a download that is in
-- progress, or of a queue that has no deferred
unfoldable pub do_queued_queries : Serialiser → Option (ℕ × Serialiser)
do_queued_queries s = if s.download_in_progress then none else elim s.queued_deferred [
  | none ↦ none
  | some d ↦ some (
    d,
    record s {
      queued_users = [];
      queued_deferred = none;
      download_in_progress = true;
      requests =
          s.requests
          ++ record { users = s.queued_users; token = token_of s.sync_token; deferred = d } ∷ [];
    },
  )
]

-- the state in which `updateDevicesForUsers` decides
abbrev pub enqueued : List String → Option String → Serialiser → Serialiser
enqueued users token s =
    let s' = with_deferred s s.queued_deferred in
    record s' { queued_users = queue_users users s.queued_users; sync_token = token }

unfoldable pub update_devices_for_users :
    List String → Option String → Serialiser → Option (ℕ × Serialiser)
unfolding do_queued_queries queue_users
update_devices_for_users users token s =
    let s' = enqueued users token s in
    if s.download_in_progress
    then (elim s'.queued_deferred [ none ↦ none | some d ↦ some (d, s') ])
    else do_queued_queries s'

-- the state once the first request has settled, which leaves the others
abbrev pub with_requests : List Request → Serialiser → Serialiser
with_requests others s = record s { download_in_progress = false; requests = others }

-- The request succeeds: the deferred that is resolved, and what is done about the queue.
unfoldable pub request_succeeded : Serialiser → Option (ℕ × Serialiser)
unfolding do_queued_queries
request_succeeded s = elim s.requests [
  | [] ↦ none
  | r ∷ others ↦ elim s.queued_deferred [
    | none ↦ some (r.deferred, with_requests others s)
    | some d ↦ elim (do_queued_queries (with_requests others s)) [
      | none ↦ none
      | some (_, s') ↦ some (r.deferred, s')
    ]
  ]
]

-- The request fails: the deferred that is rejected.
unfoldable pub request_failed : Serialiser → Option (ℕ × Serialiser)
request_failed s = elim s.requests [
  | [] ↦ none
  | r ∷ others ↦ some (r.deferred, with_requests others s)
]
