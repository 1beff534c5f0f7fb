-- ===== src/Devices/Settling.antt =====
-- What the requests of the serialiser of crypto/DeviceList.js leave, and the states it reaches.
use mathlib.Core.Path.{subst}
use mathlib.Core.Option.{some-injective}
use matrix_js_sdk.Base.{
  ℕ, ◌≡◌, ◌≢◌, refl, ap, sym, ◌∙◌, inl, inr, String, Bool, true, false, ◌||◌, Option, none, some,
  List, [], ◌∷◌, ◌++◌, length, length-append, arith, if◌then◌else◌, Bool-cases,
}
use matrix_js_sdk.Devices.Serialiser.{
  Request, Serialiser, new_serialiser, has_user, do_queued_queries, update_devices_for_users,
  request_succeeded, request_failed,
}
use matrix_js_sdk.Devices.Queue.{
  IsSerial, is_asked, deferred_of, Updated, update_devices_for_users-Updated,
}

-- What a request that settles leaves: its deferred settles, just the users of the queue are asked, and
-- the next request is one with the promise `next`, if any.
pub record Settled (s : Serialiser) (next : Option ℕ) (result : Option (ℕ × Serialiser))
    : Type 0 where
  pub promise : ℕ
  pub state : Serialiser
  pub went : result ≡ some (promise, state)
  pub of_request : deferred_of s.requests ≡ some promise
  pub serial : IsSerial state
  pub asked : (u : String) → is_asked u state ≡ has_user u s.queued_users
  pub continued : deferred_of state.requests ≡ next

or_false : (b : Bool) → (b || false) ≡ b
or_false true = refl
or_false false = refl

module _ (queued : List String) (sync : Option String) (next : ℕ) (busy : Bool) where
  abbrev state_of : Option ℕ → List Request → Serialiser
  state_of q r = record {
    download_in_progress = busy;
    queued_users = queued;
    queued_deferred = q;
    sync_token = sync;
    next_deferred = next;
    requests = r;
  }

  succeeded :
      (q : Option ℕ) (r : List Request)
      → busy ≡ true
      → length r ≡ (if busy then 1 else 0)
      → ((q ≡ none) → queued ≡ [])
      → Settled (state_of q r) q (request_succeeded (state_of q r))
  unfolding request_succeeded do_queued_queries has_user
  succeeded q [] b e h = absurd (ground (arith, b, e))
  succeeded q (r ∷ x ∷ rs) b e h = absurd (ground (arith, b, e))
  succeeded none (r ∷ []) b e h = record {
    promise = r.deferred;
    state = _;
    went = refl;
    of_request = refl;
    serial = record { one_request = refl; has_deferred = h };
    asked = λ u. or_false (has_user u queued);
    continued = refl;
  }
  succeeded (some d) (r ∷ []) b e h = record {
    promise = r.deferred;
    state = _;
    went = refl;
    of_request = refl;
    serial = record { one_request = refl; has_deferred = λ x. refl };
    asked = λ u. or_false (has_user u queued);
    continued = refl;
  }

  failed :
      (q : Option ℕ) (r : List Request)
      → busy ≡ true
      → length r ≡ (if busy then 1 else 0)
      → ((q ≡ none) → queued ≡ [])
      → Settled (state_of q r) none (request_failed (state_of q r))
  unfolding request_failed
  failed q [] b e h = absurd (ground (arith, b, e))
  failed q (r ∷ x ∷ rs) b e h = absurd (ground (arith, b, e))
  failed q (r ∷ []) b e h = record {
    promise = r.deferred;
    state = _;
    went = refl;
    of_request = refl;
    serial = record { one_request = refl; has_deferred = h };
    asked = λ u. or_false (has_user u queued);
    continued = refl;
  }

module _ (s : Serialiser) (serial : IsSerial s) (busy : s.download_in_progress ≡ true) where
  -- In a serial state (one request while a download is in progress and none else, users queued only
  -- with a promise), while a download is in progress: when the request succeeds its promise is
  -- resolved, no user of the queue is lost, and if the queue has a promise the next request is made
  -- under it.
  pub request_succeeded-Settled : Settled s s.queued_deferred (request_succeeded s)
  request_succeeded-Settled =
      succeeded s.queued_users s.sync_token s.next_deferred s.download_in_progress s.queued_deferred
        s.requests busy serial.one_request serial.has_deferred

  pub failed_settled : Settled s none (request_failed s)
  failed_settled =
      failed s.queued_users s.sync_token s.next_deferred s.download_in_progress s.queued_deferred
        s.requests busy serial.one_request serial.has_deferred

  -- In a serial state (one request while a download is in progress and none else, users queued only
  -- with a promise), while a download is in progress: when the request fails its promise is
  -- rejected and no next request is made, whatever the queue; the users of the queue stay asked,
  -- and the next `updateDevicesForUsers` asks for them and its own.
  pub request_failed-Settled :
      (users : List String) (token : Option String)
      → (t : Settled s none (request_failed s)) × (v : Updated users t.state
          (update_devices_for_users users token t.state))
        × ((u : String) → is_asked u v.state ≡ (has_user u s.queued_users || has_user u users))
  request_failed-Settled users token =
      let t = failed_settled in
      let v = update_devices_for_users-Updated users token t.state t.serial in
      (t, v, λ u. v.asked u ∙ ap (λ b. b || has_user u users) (t.asked u))

-- The states of a serialiser: calls of `updateDevicesForUsers`, and requests that settle, of which any may
-- be the next, since others may overtake the first.
pub data Reachable : Serialiser → Type 0 where
  made : Reachable new_serialiser
  updates :
      {s s' : Serialiser} {promise : ℕ} (users : List String) (token : Option String)
      → Reachable s
      → update_devices_for_users users token s ≡ some (promise, s')
      → Reachable s'
  succeeds :
      {s s' : Serialiser} {promise : ℕ}
      → Reachable s
      → request_succeeded s ≡ some (promise, s')
      → Reachable s'
  fails :
      {s s' : Serialiser} {promise : ℕ}
      → Reachable s
      → request_failed s ≡ some (promise, s')
      → Reachable s'
  overtaken :
      {s : Serialiser} (first : Request) (others : List Request)
      → Reachable s
      → s.requests ≡ first ∷ others
      → Reachable (record s { requests = others ++ first ∷ [] })

length-zero {ℓ} : {A : Type ℓ} (xs : List A) → length xs ≡ 0 → xs ≡ []
length-zero [] e = refl
length-zero (x ∷ xs) e = cc

IsSerial-of_result :
    {result : Option (ℕ × Serialiser)} {promise promise' : ℕ} {s' : Serialiser} (s : Serialiser)
    → IsSerial s
    → result ≡ some (promise, s)
    → result ≡ some (promise', s')
    → IsSerial s'
IsSerial-of_result s serial e f =
    subst IsSerial (ap (λ (x : ℕ × Serialiser). x.1) (some-injective _ _ (sym e ∙ f))) serial

succeeded_request :
    {promise : ℕ} {s' : Serialiser} (s : Serialiser)
    → request_succeeded s ≡ some (promise, s')
    → s.requests ≢ []
unfolding request_succeeded
succeeded_request s e none_there =
    let nothing : request_succeeded s ≡ none = rw (none_there, request_succeeded) refl in
    cc (e, nothing)

failed_request :
    {promise : ℕ} {s' : Serialiser} (s : Serialiser)
    → request_failed s ≡ some (promise, s')
    → s.requests ≢ []
unfolding request_failed
failed_request s e none_there =
    let nothing : request_failed s ≡ none = rw (none_there, request_failed) refl in cc (e, nothing)

busy_of : (s : Serialiser) → IsSerial s → s.requests ≢ [] → s.download_in_progress ≡ true
busy_of s serial there = elim (Bool-cases s.download_in_progress) [
  | inl busy ↦ busy
  | inr idle ↦ absurd (there (length-zero s.requests (serial.one_request ∙ rw idle refl)))
]

-- In every state that the serialiser reaches, in whatever order its requests settle, there is exactly one
-- request in flight while a download is in progress and none else, so never two, and users are
-- queued only with a promise.
pub Reachable-IsSerial : {s : Serialiser} → Reachable s → IsSerial s
Reachable-IsSerial made = record { one_request = refl; has_deferred = λ h. refl }
Reachable-IsSerial (updates {s} {s'} users token r e) =
    let v = update_devices_for_users-Updated users token s (Reachable-IsSerial r) in
    IsSerial-of_result v.state v.serial v.went e
Reachable-IsSerial (succeeds {s} {s'} r e) =
    let serial = Reachable-IsSerial r in
    let t = request_succeeded-Settled s serial (busy_of s serial (succeeded_request s e)) in
    IsSerial-of_result t.state t.serial t.went e
Reachable-IsSerial (fails {s} {s'} r e) =
    let serial = Reachable-IsSerial r in
    let t = failed_settled s serial (busy_of s serial (failed_request s e)) in
    IsSerial-of_result t.state t.serial t.went e
Reachable-IsSerial (overtaken {s} first others r e) =
    let serial = Reachable-IsSerial r in
    record {
      one_request =
          omega (arith, length-append others (first ∷ []), ap length e) ∙ serial.one_request;
      has_deferred = serial.has_deferred;
    }
