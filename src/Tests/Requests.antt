-- ===== src/Tests/Requests.antt =====
-- The outgoing room key requests, with one that waits for its cancellation to be sent.
use matrix_js_sdk.Base.{
  ◌+◌, ◌≡◌, refl, ◌⊎◌, true, false, none, some, List, [], ◌∷◌, arith, length, All,
}
use matrix_js_sdk.KeyRequests.Store.{
  RequestState, sent, cancellation_pending, RequestBody, Recipient, Request, requests_by_target,
  get_or_add, find_request, update_request, same_state,
}
use matrix_js_sdk.KeyRequests.Manager.{
  Message, TxnIds, queue_room_key_request, request_was_sent, send_all,
}
use matrix_js_sdk.KeyRequests.Lookup.{HasUniqueIds, state_at}
use matrix_js_sdk.KeyRequests.Diagram.{Step, Moves, Step-Moves}
use matrix_js_sdk.KeyRequests.Sending.{total_needed, IsStuck, send_all-ends}
use matrix_js_sdk.KeyRequests.Bodies.{HasUniqueBodies}
use matrix_js_sdk.KeyRequests.Targets.{Reached, Reached-HasUniqueBodies, requests_by_target-nil}

abbrev body : RequestBody
body = record {
  algorithm = "m.megolm.v1.aes-sha2";
  room_id = "!r";
  sender_key = "k";
  session_id = "s";
}

abbrev alice : Recipient
alice = record { object = 0; user_id = "@a:x"; device_id = "D" }

abbrev request_in : RequestState → Request
request_in state = record {
  body = body;
  recipients = alice ∷ [];
  request_id = "1";
  state = state;
  cancellation_txn_id = none;
  request_txn_id = none;
}

abbrev store : List Request
store = request_in cancellation_pending ∷ []

store-HasUniqueIds : HasUniqueIds store
unfolding state_at
store-HasUniqueIds = (refl, tt)

abbrev txn_ids : TxnIds
txn_ids = record { first = "2"; second = "3" }

fresh : state_at "2" store ≡ none
unfolding state_at
fresh = refl

requeued :
    Step store
      (queue_room_key_request body
        (alice ∷ [])
        false
        txn_ids
        (some (request_in cancellation_pending))
        store).0
requeued = Step.queue body (alice ∷ []) false txn_ids (some (request_in cancellation_pending)) fresh

Step-Moves_example : Moves (state_at "1" store) (
    state_at "1"
      (queue_room_key_request body
        (alice ∷ [])
        false
        txn_ids
        (some (request_in cancellation_pending))
        store).0)
Step-Moves_example = Step-Moves store-HasUniqueIds requeued "1"

send_all-ends_example :
    (messages : List Message) × (rs' : List Request) × (send_all 5 (λ m. true) store
      ≡ some (messages, rs'))
    × (length messages + total_needed rs' ≡ total_needed store)
    × (All (λ r. r.state ≡ sent) rs' ⊎ IsStuck (λ m. true) rs')
send_all-ends_example = send_all-ends (λ m. true) 5 store (omega arith) store-HasUniqueIds

abbrev first_ids : TxnIds
first_ids = record { first = "1"; second = "2" }

-- a request to alice is queued
abbrev queued_store : List Request
queued_store = (queue_room_key_request body (alice ∷ []) false first_ids none []).0

-- and sent, and the same body is queued again by a caller that had not seen it
abbrev sent_store : List Request
sent_store = request_was_sent (request_in RequestState.unsent) queued_store

abbrev queued_again : List Request
queued_again = (queue_room_key_request body (alice ∷ []) false txn_ids none sent_store).0

abbrev sent_store-Reached : Reached 1 sent_store
sent_store-Reached = Reached.request_sent (request_in RequestState.unsent) (
    Reached.queues body (alice ∷ []) false first_ids none ((omega arith), tt)
      (Reached.makes Reached.empty))

-- the store has the request of alice's device in the wanted state
sent_store_is : sent_store ≡ request_in sent ∷ []
unfolding queue_room_key_request request_was_sent get_or_add find_request update_request same_state
sent_store_is = refl

Reached-HasUniqueBodies_example : HasUniqueBodies queued_again
Reached-HasUniqueBodies_example =
    Reached-HasUniqueBodies
      (Reached.queues body (alice ∷ []) false txn_ids none ((omega arith), tt) sent_store-Reached)

requests_by_target-nil_example : (requests_by_target "@a:x" "D" (sent ∷ []) sent_store 1).1 ≡ []
requests_by_target-nil_example = requests_by_target-nil "@a:x" "D" (sent ∷ []) sent_store-Reached
