-- ===== src/KeyRequests/Diagram.antt =====
-- The state diagram of OutgoingRoomKeyRequestManager.js against what its methods do.
use matrix_js_sdk.Base.{
  String, ◌≡◌, refl, ◌⊎◌, inl, inr, Bool, true, false, ◌&&◌, Option, none, some, List, arith,
  eq_iff, str_eq, Bool-cases,
}
use matrix_js_sdk.KeyRequests.Store.{
  RequestState, unsent, sent, cancellation_pending, cancellation_pending_and_will_resend,
  RequestBody, Recipient, Request, Updates, update_request, delete_request,
}
use matrix_js_sdk.KeyRequests.Manager.{
  TxnIds, queue_room_key_request, cancel_room_key_request, request_was_sent, cancellation_was_sent,
  to_state, new_request, requeue, cancel_and_resend, cancel_only, after_update,
}
use matrix_js_sdk.KeyRequests.Lookup.{
  state_at, is_in, is_in-eq, HasUniqueIds, state_at-update_request, state_at-delete_request,
  state_at-get_or_add,
}

-- The arrows of the diagram above `ROOM_KEY_REQUEST_STATES`; `none` is "deleted" or not there yet.
abbrev pub in_diagram : Option RequestState → Option RequestState → Bool
in_diagram none (some unsent) = true
in_diagram (some unsent) none = true
in_diagram (some unsent) (some sent) = true
in_diagram (some sent) (some cancellation_pending) = true
in_diagram (some sent) (some cancellation_pending_and_will_resend) = true
in_diagram (some cancellation_pending) none = true
in_diagram (some cancellation_pending_and_will_resend) (some unsent) = true
in_diagram _ _ = false

-- The two arrows that `queueRoomKeyRequest` adds for a request whose cancellation is pending.
abbrev pub is_requeue : Option RequestState → Option RequestState → Bool
is_requeue (some cancellation_pending) (some sent) = true
is_requeue (some cancellation_pending) (some cancellation_pending_and_will_resend) = true
is_requeue _ _ = false

-- One write of the manager to the store, whatever it had read before.
pub data Step (rs : List Request) : List Request → Type 0 where
  queue :
      (body : RequestBody) (recipients : List Recipient) (resend : Bool) (txn : TxnIds)
      (read : Option Request)
      → state_at txn.first rs ≡ none
      → Step rs (queue_room_key_request body recipients resend txn read rs).0
  cancel : (txn : String) (read : Option Request) → Step rs (cancel_room_key_request txn read rs).0
  request_sent : (req : Request) → Step rs (request_was_sent req rs)
  cancellation_sent :
      (req : Request) (resend : Bool) → Step rs (cancellation_was_sent req resend rs)

-- a request stays as it is, or takes an arrow
abbrev pub Moves : Option RequestState → Option RequestState → Type 0
Moves a b = (a ≡ b) ⊎ ((in_diagram a b ≡ true) ⊎ (is_requeue a b ≡ true))

update-Moves :
    (id j : String) (expected : RequestState) (u : Updates) (rs : List Request)
    → (in_diagram (some expected) (some u.state) ≡ true)
      ⊎ (is_requeue (some expected) (some u.state) ≡ true)
    → Moves (state_at j rs) (state_at j (update_request id expected u rs).1)
update-Moves id j expected u rs arrow =
    elim (Bool-cases (str_eq id j && is_in expected (state_at id rs))) [
      | inr e ↦ inl (rw (state_at-update_request id j expected u rs, e) refl)
      | inl e ↦
          let same : id ≡ j = (eq_iff id j).0 (ground arith) in
          let here : state_at j rs ≡ some expected =
            rw (← same) (is_in-eq expected (state_at id rs) (ground arith)) in
          inr (rw (state_at-update_request id j expected u rs, e, here) arrow)
    ]

delete-Moves :
    (id j : String) (expected : RequestState) (rs : List Request)
    → HasUniqueIds rs
    → in_diagram (some expected) none ≡ true
    → Moves (state_at j rs) (state_at j (delete_request id expected rs).1)
delete-Moves id j expected rs unique arrow =
    elim (Bool-cases (str_eq id j && is_in expected (state_at id rs))) [
      | inr e ↦ inl (rw (state_at-delete_request id j expected rs unique, e) refl)
      | inl e ↦
          let same : id ≡ j = (eq_iff id j).0 (ground arith) in
          let here : state_at j rs ≡ some expected =
            rw (← same) (is_in-eq expected (state_at id rs) (ground arith)) in
          inr (rw (state_at-delete_request id j expected rs unique, e, here) (inl arrow))
    ]

-- what is done with the result of an update does not change its store
pub after_update-store {ℓ} :
    {A : Type ℓ} (p : Option Request × List Request) (f : Request → A) (a : A)
    → (after_update p f a).0 ≡ p.1
after_update-store (none, rs) f a = refl
after_update-store (some r, rs) f a = refl

module _ (rs : List Request) (j : String) where
  queue_found-Moves :
      (body : RequestBody) (recipients : List Recipient) (resend : Bool) (txn : TxnIds)
      (req : Request) (s : RequestState)
      → req.state ≡ s
      → Moves
          (state_at j rs)
          (state_at j (queue_room_key_request body recipients resend txn (some req) rs).0)
  unfolding queue_room_key_request
  queue_found-Moves body recipients resend txn req unsent e = rw e (inl refl)
  queue_found-Moves body recipients resend txn req cancellation_pending_and_will_resend e =
      rw e (inl refl)
  queue_found-Moves body recipients true txn req cancellation_pending e =
      rw e (update-Moves req.request_id j cancellation_pending (requeue true txn) rs (inr refl))
  queue_found-Moves body recipients false txn req cancellation_pending e =
      rw e (update-Moves req.request_id j cancellation_pending (requeue false txn) rs (inr refl))
  queue_found-Moves body recipients false txn req sent e = rw e (inl refl)
  queue_found-Moves body recipients true txn req sent e =
      rw (e, after_update-store)
        (update-Moves req.request_id j sent (cancel_and_resend txn) rs (inl refl))

  queue_new-Moves :
      (body : RequestBody) (recipients : List Recipient) (resend : Bool) (txn : TxnIds)
      → state_at txn.first rs ≡ none
      → Moves
          (state_at j rs)
          (state_at j (queue_room_key_request body recipients resend txn none rs).0)
  unfolding queue_room_key_request
  queue_new-Moves body recipients resend txn fresh =
      elim (state_at-get_or_add j (new_request body recipients txn.first) rs fresh) [
        | inl e ↦ inl (rw e refl)
        | inr (e, e') ↦ inr (rw (e, e') (inl refl))
      ]

  cancel-Moves :
      (txn : String) (req : Request) (s : RequestState)
      → HasUniqueIds rs
      → req.state ≡ s
      → Moves (state_at j rs) (state_at j (cancel_room_key_request txn (some req) rs).0)
  unfolding cancel_room_key_request
  cancel-Moves txn req cancellation_pending u e = rw e (inl refl)
  cancel-Moves txn req cancellation_pending_and_will_resend u e = rw e (inl refl)
  cancel-Moves txn req unsent u e = rw e (delete-Moves req.request_id j unsent rs u refl)
  cancel-Moves txn req sent u e =
      rw (e, after_update-store)
        (update-Moves req.request_id j sent (cancel_only txn) rs (inl refl))

-- With distinct request ids, every write of the manager leaves a request in its state, or takes it
-- along an arrow of the diagram or along one of the two arrows for a queued request whose
-- cancellation is pending.
pub Step-Moves :
    {rs rs' : List Request}
    → HasUniqueIds rs
    → Step rs rs'
    → (j : String) → Moves (state_at j rs) (state_at j rs')
unfolding request_was_sent cancellation_was_sent cancel_room_key_request
Step-Moves {rs} u (queue body recipients resend txn none fresh) j =
    queue_new-Moves rs j body recipients resend txn fresh
Step-Moves {rs} u (queue body recipients resend txn (some req) fresh) j =
    queue_found-Moves rs j body recipients resend txn req req.state refl
Step-Moves u (cancel txn none) j = inl refl
Step-Moves {rs} u (cancel txn (some req)) j = cancel-Moves rs j txn req req.state u refl
Step-Moves {rs} u (request_sent req) j =
    update-Moves req.request_id j unsent (to_state sent) rs (inl refl)
Step-Moves {rs} u (cancellation_sent req true) j =
    update-Moves req.request_id j cancellation_pending_and_will_resend (to_state unsent) rs
      (inl refl)
Step-Moves {rs} u (cancellation_sent req false) j =
    delete-Moves req.request_id j cancellation_pending rs u refl
