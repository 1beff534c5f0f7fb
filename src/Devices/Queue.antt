-- ===== src/Devices/Queue.antt =====
-- That the serialiser of crypto/DeviceList.js loses no user.
use matrix_js_sdk.Base.{
  ℕ, ◌≡◌, refl, ◌⊎◌, inl, inr, String, Bool, true, false, ◌||◌, Option, none, some, List, [], ◌∷◌,
  ◌++◌, str_eq, length, if◌then◌else◌, arith, Bool-cases, eq_iff,
}
use matrix_js_sdk.Devices.Serialiser.{
  Request, Serialiser, has_user, queue_user, queue_users, do_queued_queries,
  update_devices_for_users,
}

-- There is one request while a download is in progress, and no request else, and users are queued only
-- with a deferred.
pub record IsSerial (s : Serialiser) : Type 0 where
  pub one_request : length s.requests ≡ (if s.download_in_progress then 1 else 0)
  pub has_deferred : (s.queued_deferred ≡ none) → s.queued_users ≡ []

-- the user waits in the queue, or is in a request
abbrev pub in_request : String → List Request → Bool
in_request u [] = false
in_request u (r ∷ rs) = has_user u r.users || in_request u rs

abbrev pub is_asked : String → Serialiser → Bool
is_asked u s = has_user u s.queued_users || in_request u s.requests

has_user-append :
    (u v : String) (xs : List String) → has_user u (xs ++ v ∷ []) ≡ (has_user u xs || str_eq v u)
unfolding has_user
has_user-append u v [] = ground arith
has_user-append u v (x ∷ xs) = ground (arith, has_user-append u v xs)

has_user-queue_user :
    (u v : String) (xs : List String) → has_user u (queue_user v xs) ≡ (has_user u xs || str_eq v u)
has_user-queue_user u v xs = elim (Bool-cases (has_user v xs)) [
  | inl there ↦ rw there (ground (arith, there, eq_iff v u))
  | inr new ↦ rw new (has_user-append u v xs)
]

has_user-queue_users :
    (u : String) (users xs : List String)
    → has_user u (queue_users users xs) ≡ (has_user u xs || has_user u users)
unfolding queue_users has_user
has_user-queue_users u [] xs = ground arith
has_user-queue_users u (v ∷ users) xs =
    ground (arith, has_user-queue_users u users (queue_user v xs), has_user-queue_user u v xs)

-- the promise of the next request to settle
abbrev pub deferred_of : List Request → Option ℕ
deferred_of [] = none
deferred_of (r ∷ rs) = some r.deferred

-- What an update leaves: a download is in progress, and just the users that were asked before and
-- those of the update are asked; the promise is of the queue or of the request.
pub record Updated (users : List String) (s : Serialiser) (result : Option (ℕ × Serialiser))
    : Type 0 where
  pub promise : ℕ
  pub state : Serialiser
  pub went : result ≡ some (promise, state)
  pub serial : IsSerial state
  pub busy : state.download_in_progress ≡ true
  pub asked : (u : String) → is_asked u state ≡ (is_asked u s || has_user u users)
  pub promised :
      (state.queued_deferred ≡ some promise) ⊎ (deferred_of state.requests ≡ some promise)
  pub at_once : s.download_in_progress ≡ false → deferred_of state.requests ≡ some promise

module _ (users queued : List String) (token sync : Option String) (next : ℕ) where
  asked_all :
      (u : String) (b : Bool)
      → (has_user u (queue_users users queued) || b)
        ≡ ((has_user u queued || b) || has_user u users)
  asked_all u b = ground (arith, has_user-queue_users u users queued)

  asked_now :
      (u : String)
      → (false || (has_user u (queue_users users queued) || false))
        ≡ ((has_user u queued || false) || has_user u users)
  asked_now u = ground (arith, has_user-queue_users u users queued)

  updated :
      (busy : Bool) (q : Option ℕ) (r : List Request)
      → length r ≡ (if busy then 1 else 0)
      → let s : Serialiser = (record {
        download_in_progress = busy;
        queued_users = queued;
        queued_deferred = q;
        sync_token = sync;
        next_deferred = next;
        requests = r;
      }) in
        Updated users s (update_devices_for_users users token s)
  unfolding update_devices_for_users do_queued_queries has_user
  updated true q [] e = cc
  updated true q (r ∷ x ∷ rs) e = absurd (omega (arith, e))
  updated false q (r ∷ rs) e = absurd (omega (arith, e))
  updated true none (r ∷ []) e = record {
    promise = next;
    state = _;
    went = refl;
    serial = record { one_request = refl; has_deferred = λ h. cc };
    busy = refl;
    asked = λ u. asked_all u (has_user u r.users || false);
    promised = inl refl;
    at_once = λ h. cc;
  }
  updated true (some d) (r ∷ []) e = record {
    promise = d;
    state = _;
    went = refl;
    serial = record { one_request = refl; has_deferred = λ h. cc };
    busy = refl;
    asked = λ u. asked_all u (has_user u r.users || false);
    promised = inl refl;
    at_once = λ h. cc;
  }
  updated false none [] e = record {
    promise = next;
    state = _;
    went = refl;
    serial = record { one_request = refl; has_deferred = λ h. refl };
    busy = refl;
    asked = λ u. asked_now u;
    promised = inr refl;
    at_once = λ h. refl;
  }
  updated false (some d) [] e = record {
    promise = d;
    state = _;
    went = refl;
    serial = record { one_request = refl; has_deferred = λ h. refl };
    busy = refl;
    asked = λ u. asked_now u;
    promised = inr refl;
    at_once = λ h. refl;
  }

-- In a serial state (one request while a download is in progress and none else, users queued only
-- with a promise), `updateDevicesForUsers` does not throw. Afterwards a download is in progress,
-- just the users that were asked before and those of the call are asked, and the promise is the one
-- of the queue or of the request: of the request, if there was none before.
pub update_devices_for_users-Updated :
    (users : List String) (token : Option String) (s : Serialiser)
    → IsSerial s
    → Updated users s (update_devices_for_users users token s)
update_devices_for_users-Updated users token s serial =
    updated users s.queued_users token s.sync_token s.next_deferred s.download_in_progress
      s.queued_deferred s.requests serial.one_request
