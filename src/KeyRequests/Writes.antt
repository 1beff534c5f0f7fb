-- ===== src/KeyRequests/Writes.antt =====
-- What every write of OutgoingRoomKeyRequestManager.js keeps, if the writes of the store keep it.
use matrix_js_sdk.Base.{String, ◌≡◌, refl, Bool, true, false, none, some, Option, List}
use matrix_js_sdk.KeyRequests.Store.{
  RequestState, unsent, sent, cancellation_pending, cancellation_pending_and_will_resend,
  RequestBody, Recipient, Request, Updates, get_or_add, update_request, delete_request,
}
use matrix_js_sdk.KeyRequests.Manager.{
  TxnIds, new_request, requeue, cancel_and_resend, cancel_only, to_state, queue_room_key_request,
  cancel_room_key_request, request_was_sent, cancellation_was_sent,
}
use matrix_js_sdk.KeyRequests.Diagram.{after_update-store}

module _ (P : List Request → Type 0)
    (updates : (id : String) (expected : RequestState) (u : Updates) (rs : List Request)
      → P rs
      → P (update_request id expected u rs).1)
    (deletes : (id : String) (expected : RequestState) (rs : List Request)
      → P rs
      → P (delete_request id expected rs).1) where
  queue_found_keeps :
      (body : RequestBody) (recipients : List Recipient) (resend : Bool) (txn : TxnIds)
      (req : Request) (rs : List Request) (s : RequestState)
      → req.state ≡ s
      → P rs
      → P (queue_room_key_request body recipients resend txn (some req) rs).0
  unfolding queue_room_key_request
  queue_found_keeps body recipients resend txn req rs unsent e h = rw e h
  queue_found_keeps body recipients resend txn req rs cancellation_pending_and_will_resend e h =
      rw e h
  queue_found_keeps body recipients resend txn req rs cancellation_pending e h =
      rw e (updates req.request_id cancellation_pending (requeue resend txn) rs h)
  queue_found_keeps body recipients false txn req rs sent e h = rw e h
  queue_found_keeps body recipients true txn req rs sent e h =
      rw (e, after_update-store) (updates req.request_id sent (cancel_and_resend txn) rs h)

  pub queue_keeps :
      (body : RequestBody) (recipients : List Recipient) (resend : Bool) (txn : TxnIds)
      (read : Option Request) (rs : List Request)
      → P (get_or_add (new_request body recipients txn.first) rs).1
      → P rs
      → P (queue_room_key_request body recipients resend txn read rs).0
  unfolding queue_room_key_request
  queue_keeps body recipients resend txn none rs added h = added
  queue_keeps body recipients resend txn (some req) rs added h =
      queue_found_keeps body recipients resend txn req rs req.state refl h

  cancel_found_keeps :
      (txn : String) (req : Request) (rs : List Request) (s : RequestState)
      → req.state ≡ s
      → P rs
      → P (cancel_room_key_request txn (some req) rs).0
  unfolding cancel_room_key_request
  cancel_found_keeps txn req rs cancellation_pending e h = rw e h
  cancel_found_keeps txn req rs cancellation_pending_and_will_resend e h = rw e h
  cancel_found_keeps txn req rs unsent e h = rw e (deletes req.request_id unsent rs h)
  cancel_found_keeps txn req rs sent e h =
      rw (e, after_update-store) (updates req.request_id sent (cancel_only txn) rs h)

  pub cancel_keeps :
      (txn : String) (read : Option Request) (rs : List Request)
      → P rs
      → P (cancel_room_key_request txn read rs).0
  unfolding cancel_room_key_request
  cancel_keeps txn none rs h = h
  cancel_keeps txn (some req) rs h = cancel_found_keeps txn req rs req.state refl h

  pub request_was_sent_keeps :
      (req : Request) (rs : List Request) → P rs → P (request_was_sent req rs)
  unfolding request_was_sent
  request_was_sent_keeps req rs h = updates req.request_id unsent (to_state sent) rs h

  pub cancellation_was_sent_keeps :
      (req : Request) (resend : Bool) (rs : List Request)
      → P rs
      → P (cancellation_was_sent req resend rs)
  unfolding cancellation_was_sent
  cancellation_was_sent_keeps req true rs h =
      updates req.request_id cancellation_pending_and_will_resend (to_state unsent) rs h
  cancellation_was_sent_keeps req false rs h = deletes req.request_id cancellation_pending rs h
