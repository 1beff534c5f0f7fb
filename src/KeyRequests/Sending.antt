-- ===== src/KeyRequests/Sending.antt =====
-- The sending loop of OutgoingRoomKeyRequestManager.js ends, and leaves nothing to be sent.
use mathlib.Core.Option.{some-injective}
use matrix_js_sdk.Base.{
  ℕ, zero, suc, ◌+◌, ◌<◌, String, ◌≡◌, refl, ap, ◌⊎◌, inl, inr, Bool, true, false, none, some, List,
  [], ◌∷◌, arith, eq_iff, str_eq, str_eq_self, any, All, Bool-cases, Option-cases, length,
}
use matrix_js_sdk.KeyRequests.Store.{
  RequestState, unsent, sent, cancellation_pending, cancellation_pending_and_will_resend,
  same_state, Request, Updates, find_by_state, update_request, delete_request,
}
use matrix_js_sdk.KeyRequests.Manager.{
  to_state, pending_states, Message, message_of, was_sent, send_all,
}
use matrix_js_sdk.KeyRequests.Lookup.{
  state_at, same_state_self, HasUniqueIds, update_request-HasUniqueIds, delete_request-HasUniqueIds,
}

-- how many messages a request in this state still needs
abbrev pub messages_needed : RequestState → ℕ
messages_needed unsent = 1
messages_needed sent = 0
messages_needed cancellation_pending = 1
messages_needed cancellation_pending_and_will_resend = 2

abbrev pub total_needed : List Request → ℕ
total_needed [] = 0
total_needed (r ∷ rs) = messages_needed r.state + total_needed rs

find_by_state-wanted :
    (wanted : List RequestState) (rs : List Request) (r : Request)
    → find_by_state wanted rs ≡ some r
    → any (λ s. same_state r.state s) wanted ≡ true
unfolding find_by_state
find_by_state-wanted wanted [] r h = cc
find_by_state-wanted wanted (x ∷ rs) r h =
    elim (Bool-cases (any (λ s. same_state x.state s) wanted)) [
      | inl e ↦ let same : x ≡ r = some-injective x r (rw e at h) in rw (← same) e
      | inr e ↦ find_by_state-wanted wanted rs r (rw e at h)
    ]

state_at-find_by_state :
    (wanted : List RequestState) (rs : List Request) (r : Request)
    → HasUniqueIds rs
    → find_by_state wanted rs ≡ some r
    → state_at r.request_id rs ≡ some r.state
unfolding find_by_state state_at
state_at-find_by_state wanted [] r u h = cc
state_at-find_by_state wanted (x ∷ rs) r u h =
    elim (Bool-cases (any (λ s. same_state x.state s) wanted)) [
      | inl e ↦
          let same : x ≡ r = some-injective x r (rw e at h) in
          rw (← same) (rw (str_eq_self x.request_id) refl)
      | inr e ↦
          let found = state_at-find_by_state wanted rs r u.1 (rw e at h) in
          ground (arith, found, u.0, eq_iff x.request_id r.request_id)
    ]

total_needed-update_request :
    (id : String) (expected : RequestState) (u : Updates) (rs : List Request)
    → state_at id rs ≡ some expected
    → total_needed (update_request id expected u rs).1 + messages_needed expected
      ≡ total_needed rs + messages_needed u.state
unfolding update_request state_at
total_needed-update_request id expected u [] h = cc
total_needed-update_request id expected u (r ∷ rs) h = elim (Bool-cases (str_eq r.request_id id)) [
  | inl e ↦
      let same : r.state ≡ expected = some-injective _ _ (rw e at h) in
      let hit : same_state r.state expected ≡ true = rw same (same_state_self expected) in
      rw (e, hit) (omega (arith, ap messages_needed same))
  | inr e ↦ rw e (omega (arith, total_needed-update_request id expected u rs (rw e at h)))
]

total_needed-delete_request :
    (id : String) (expected : RequestState) (rs : List Request)
    → state_at id rs ≡ some expected
    → total_needed (delete_request id expected rs).1 + messages_needed expected ≡ total_needed rs
unfolding delete_request state_at
total_needed-delete_request id expected [] h = cc
total_needed-delete_request id expected (r ∷ rs) h = elim (Bool-cases (str_eq r.request_id id)) [
  | inl e ↦
      let same : r.state ≡ expected = some-injective _ _ (rw e at h) in
      let hit : same_state r.state expected ≡ true = rw same (same_state_self expected) in
      rw (e, hit) (omega (arith, ap messages_needed same))
  | inr e ↦ rw e (omega (arith, total_needed-delete_request id expected rs (rw e at h)))
]

-- A message sent is one fewer to send.
total_needed-was_sent :
    (rs : List Request) (r : Request) (s : RequestState)
    → r.state ≡ s
    → any (λ t. same_state s t) pending_states ≡ true
    → state_at r.request_id rs ≡ some s
    → total_needed (was_sent r rs) + 1 ≡ total_needed rs
unfolding was_sent same_state
total_needed-was_sent rs r unsent e p h =
    rw e (omega (arith, total_needed-update_request r.request_id unsent (to_state sent) rs h))
total_needed-was_sent rs r cancellation_pending e p h =
    rw e (total_needed-delete_request r.request_id cancellation_pending rs h)
total_needed-was_sent rs r cancellation_pending_and_will_resend e p h = rw e (
    omega (
      arith,
      total_needed-update_request r.request_id cancellation_pending_and_will_resend
          (to_state unsent) rs h,
    ))
total_needed-was_sent rs r sent e p h = cc

was_sent-HasUniqueIds :
    (rs : List Request) (r : Request) (s : RequestState)
    → r.state ≡ s
    → HasUniqueIds rs
    → HasUniqueIds (was_sent r rs)
unfolding was_sent
was_sent-HasUniqueIds rs r unsent e u =
    rw e (update_request-HasUniqueIds r.request_id unsent (to_state sent) rs u)
was_sent-HasUniqueIds rs r cancellation_pending e u =
    rw e (delete_request-HasUniqueIds r.request_id cancellation_pending rs u)
was_sent-HasUniqueIds rs r cancellation_pending_and_will_resend e u = rw e (
    update_request-HasUniqueIds r.request_id cancellation_pending_and_will_resend (to_state unsent)
      rs u)
was_sent-HasUniqueIds rs r sent e u = rw e u

find_by_state-none :
    (rs : List Request) → find_by_state pending_states rs ≡ none → All (λ r. r.state ≡ sent) rs
unfolding find_by_state same_state
find_by_state-none [] h = tt
find_by_state-none (r ∷ rs) h = ground (arith, find_by_state-none rs)

-- the next message to send is not delivered
abbrev pub IsStuck : (Message → Bool) → List Request → Type 0
IsStuck deliver rs =
    (r : Request) × (find_by_state pending_states rs ≡ some r) × (deliver (message_of r) ≡ false)

-- Where every request has an id of its own and nothing else writes between the steps of the loop, the
-- loop ends with more fuel than messages are needed. It has sent as many messages as are needed
-- fewer after it, and then every request is sent, or the next message cannot be delivered.
pub send_all-ends :
    (deliver : Message → Bool) (fuel : ℕ) (rs : List Request)
    → total_needed rs < fuel
    → HasUniqueIds rs
    → (messages : List Message) × (rs' : List Request) × (send_all fuel deliver rs
        ≡ some (messages, rs'))
      × (length messages + total_needed rs' ≡ total_needed rs)
      × (All (λ r. r.state ≡ sent) rs' ⊎ IsStuck deliver rs')
unfolding send_all
send_all-ends deliver zero rs f u = absurd (omega arith)
send_all-ends deliver (suc fuel) rs f u = elim (Option-cases (find_by_state pending_states rs)) [
  | inl e ↦ ([], rs, ground arith, omega arith, inl (find_by_state-none rs e))
  | inr (r, e) ↦ elim (Bool-cases (deliver (message_of r))) [
    | inr no_delivery ↦ ([], rs, ground arith, omega arith, inr (r, e, no_delivery))
    | inl delivered ↦
        let fewer =
          total_needed-was_sent rs r r.state refl (find_by_state-wanted pending_states rs r e)
            (state_at-find_by_state pending_states rs r u e) in
        let (messages, rs', run, count, final) =
          send_all-ends deliver fuel (was_sent r rs) (omega (arith, fewer))
            (was_sent-HasUniqueIds rs r r.state refl u) in
        (
          message_of r ∷ messages,
          rs',
          ground (arith, e, delivered, run),
          omega (arith, fewer, count),
          final,
        )
  ]
]
