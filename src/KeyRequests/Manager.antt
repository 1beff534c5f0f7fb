-- ===== src/KeyRequests/Manager.antt =====
-- `OutgoingRoomKeyRequestManager` (crypto/OutgoingRoomKeyRequestManager.js). Each call of the store
-- is awaited, so what a method read before may have changed when it writes: the request that was
-- read is the argument `req`, and the store is the one at the time of the write. Transaction ids
-- are made by `baseApis.makeTxnId`, and are arguments.
use matrix_js_sdk.Base.{
  ℕ, zero, suc, String, Bool, true, false, Option, none, some, List, [], ◌∷◌, if◌then◌else◌,
}
use matrix_js_sdk.KeyRequests.Store.{
  RequestState, unsent, sent, cancellation_pending, cancellation_pending_and_will_resend,
  RequestBody, Recipient, Request, Updates, get_or_add, find_by_state, update_request,
  delete_request,
}

-- What a method does after its write.
pub data Next : Type 0 where
  returns : Next
  -- the request was changed by another tab: start again
  again : Next
  -- send the cancellation of the request, to be sent again after that if the flag is set
  send_cancellation : Request → Bool → Next

-- the transaction ids that a call of `queueRoomKeyRequest` makes
pub record TxnIds : Type 0 where
  pub first : String
  pub second : String

-- the store after a call of `updateOutgoingRoomKeyRequest`, and what is done with its result
abbrev pub after_update {ℓ} :
    {A : Type ℓ} → Option Request × List Request → (Request → A) → A → List Request × A
after_update (none, rs) f a = (rs, a)
after_update (some r, rs) f a = (rs, f r)

abbrev pub new_request : RequestBody → List Recipient → String → Request
new_request body recipients id = record {
  body = body;
  recipients = recipients;
  request_id = id;
  state = unsent;
  cancellation_txn_id = none;
  request_txn_id = none;
}

-- the updates that the two methods write
abbrev pub requeue : Bool → TxnIds → Updates
requeue resend txn = record {
  state = (if resend then cancellation_pending_and_will_resend else sent);
  cancellation_txn_id = some txn.first;
  request_txn_id = none;
}

abbrev pub cancel_and_resend : TxnIds → Updates
cancel_and_resend txn = record {
  state = cancellation_pending_and_will_resend;
  cancellation_txn_id = some txn.first;
  request_txn_id = some txn.second;
}

abbrev pub cancel_only : String → Updates
cancel_only txn = record {
  state = cancellation_pending;
  cancellation_txn_id = some txn;
  request_txn_id = none;
}

-- `queueRoomKeyRequest`, from its read of the store on
unfoldable pub queue_room_key_request :
    RequestBody
    → List Recipient
    → Bool
    → TxnIds
    → Option Request
    → List Request
    → List Request × Next
unfolding get_or_add update_request
queue_room_key_request body recipients resend txn none rs =
    ((get_or_add (new_request body recipients txn.first) rs).1, returns)
queue_room_key_request body recipients resend txn (some req) rs = elim req.state [
  | cancellation_pending_and_will_resend ↦ (rs, returns)
  | unsent ↦ (rs, returns)
  | cancellation_pending ↦
      ((update_request req.request_id cancellation_pending (requeue resend txn) rs).1, returns)
  | sent ↦
      if resend
      then after_update (update_request req.request_id sent (cancel_and_resend txn) rs)
          (λ updated. send_cancellation updated true) again
      else (rs, returns)
]

-- `cancelRoomKeyRequest`, from its read of the store on
unfoldable pub cancel_room_key_request :
    String → Option Request → List Request → List Request × Next
unfolding update_request delete_request
cancel_room_key_request txn none rs = (rs, returns)
cancel_room_key_request txn (some req) rs = elim req.state [
  | cancellation_pending ↦ (rs, returns)
  | cancellation_pending_and_will_resend ↦ (rs, returns)
  | unsent ↦ ((delete_request req.request_id unsent rs).1, returns)
  | sent ↦
      after_update (update_request req.request_id sent (cancel_only txn) rs)
        (λ updated. send_cancellation updated false) returns
]

abbrev pub to_state : RequestState → Updates
to_state s = record { state = s; cancellation_txn_id = none; request_txn_id = none }

-- `_sendOutgoingRoomKeyRequest`, after the message was sent
unfoldable pub request_was_sent : Request → List Request → List Request
unfolding update_request
request_was_sent req rs = (update_request req.request_id unsent (to_state sent) rs).1

-- `_sendOutgoingRoomKeyRequestCancellation`, after the message was sent
unfoldable pub cancellation_was_sent : Request → Bool → List Request → List Request
unfolding update_request delete_request
cancellation_was_sent req and_resend rs =
    if and_resend
    then (update_request req.request_id cancellation_pending_and_will_resend (to_state unsent) rs).1
    else (delete_request req.request_id cancellation_pending rs).1

abbrev pub pending_states : List RequestState
pending_states = cancellation_pending ∷ cancellation_pending_and_will_resend ∷ unsent ∷ []

-- The message that `_sendOutgoingRoomKeyRequests` sends for a request, with its transaction id.
pub data Message : Type 0 where
  request : (request_id : String) → List Recipient → (txn_id : String) → Message
  request_cancellation : (request_id : String) → List Recipient → (txn_id : Option String) → Message

abbrev pub or_id : Option String → String → String
or_id none id = id
or_id (some txn) id = txn

unfoldable pub message_of : Request → Message
message_of r = elim r.state [
  | unsent ↦ request r.request_id r.recipients (or_id r.request_txn_id r.request_id)
  | _ ↦ request_cancellation r.request_id r.recipients r.cancellation_txn_id
]

-- what the store is after that message was sent
unfoldable pub was_sent : Request → List Request → List Request
unfolding request_was_sent cancellation_was_sent
was_sent r rs = elim r.state [
  | unsent ↦ request_was_sent r rs
  | cancellation_pending ↦ cancellation_was_sent r false rs
  | cancellation_pending_and_will_resend ↦ cancellation_was_sent r true rs
  | sent ↦ rs
]

-- The loop of `_sendOutgoingRoomKeyRequests` while the client runs, on fuel, with nothing else
-- running between its steps. `deliver` says whether a message is sent; the loop stops at the first
-- that is not. `none` is the fuel running out.
unfoldable pub send_all : ℕ → (Message → Bool) → List Request → Option (List Message × List Request)
unfolding find_by_state message_of was_sent
send_all zero deliver rs = none
send_all (suc fuel) deliver rs = elim (find_by_state pending_states rs) [
  | none ↦ some ([], rs)
  | some r ↦
      if deliver (message_of r)
      then (elim (send_all fuel deliver (was_sent r rs)) [
        | none ↦ none
        | some (messages, rs') ↦ some (message_of r ∷ messages, rs')
      ])
      else some ([], rs)
]
