-- ===== src/KeyRequests/Targets.antt =====
-- The stores that the manager's writes reach from the empty one, with the objects made on the way, and
-- what holds in them: of the bodies, and of the lookup by target of memory-crypto-store.js.
use matrix_js_sdk.Base.{ℕ, suc, String, ◌≡◌, arith, Bool, Option, List, []}
use matrix_js_sdk.KeyRequests.Store.{
  RequestState, RequestBody, Recipient, Request, requests_by_target,
}
use matrix_js_sdk.KeyRequests.Manager.{
  TxnIds, new_request, queue_room_key_request, cancel_room_key_request, request_was_sent,
  cancellation_was_sent,
}
use matrix_js_sdk.KeyRequests.Bodies.{
  HasUniqueBodies, get_or_add-HasUniqueBodies, update_request-HasUniqueBodies,
  delete_request-HasUniqueBodies,
}
use matrix_js_sdk.KeyRequests.Writes.{
  queue_keeps, cancel_keeps, request_was_sent_keeps, cancellation_was_sent_keeps,
}
use matrix_js_sdk.KeyRequests.Objects.{
  AreMade, HasMade, HasMade-le, update_request-HasMade, delete_request-HasMade, get_or_add-HasMade,
  by_target-nil,
}

-- The store with the count of the objects made: other code makes objects, the methods of the manager
-- write, whatever they had read before, and lookups by target make their literals. The recipients
-- of a request are objects that have been made.
pub data Reached : ℕ → List Request → Type 0 where
  empty : Reached 0 []
  makes : {n : ℕ} {rs : List Request} → Reached n rs → Reached (suc n) rs
  queues :
      {n : ℕ} {rs : List Request} (body : RequestBody) (recipients : List Recipient) (resend : Bool)
      (txn : TxnIds) (read : Option Request)
      → AreMade n recipients
      → Reached n rs
      → Reached n (queue_room_key_request body recipients resend txn read rs).0
  cancels :
      {n : ℕ} {rs : List Request} (txn : String) (read : Option Request)
      → Reached n rs
      → Reached n (cancel_room_key_request txn read rs).0
  request_sent :
      {n : ℕ} {rs : List Request} (req : Request)
      → Reached n rs
      → Reached n (request_was_sent req rs)
  cancellation_sent :
      {n : ℕ} {rs : List Request} (req : Request) (resend : Bool)
      → Reached n rs
      → Reached n (cancellation_was_sent req resend rs)
  looks_up :
      {n : ℕ} {rs : List Request} (user_id device_id : String) (wanted : List RequestState)
      → Reached n rs
      → Reached (requests_by_target user_id device_id wanted rs n).0 rs

-- In every store that is reached from the empty one, however the writes of the manager and the lookups
-- by target are interleaved, and whatever the manager had read before a write, no two requests have
-- the same body.
pub Reached-HasUniqueBodies : {n : ℕ} {rs : List Request} → Reached n rs → HasUniqueBodies rs
Reached-HasUniqueBodies empty = tt
Reached-HasUniqueBodies (makes r) = Reached-HasUniqueBodies r
Reached-HasUniqueBodies (queues {n} {rs} body recipients resend txn read made r) =
    let u = Reached-HasUniqueBodies r in
    queue_keeps HasUniqueBodies update_request-HasUniqueBodies delete_request-HasUniqueBodies body
      recipients resend txn read rs
      (get_or_add-HasUniqueBodies (new_request body recipients txn.first) rs u) u
Reached-HasUniqueBodies (cancels {n} {rs} txn read r) =
    cancel_keeps HasUniqueBodies update_request-HasUniqueBodies delete_request-HasUniqueBodies txn
      read rs (Reached-HasUniqueBodies r)
Reached-HasUniqueBodies (request_sent {n} {rs} req r) =
    request_was_sent_keeps HasUniqueBodies update_request-HasUniqueBodies
      delete_request-HasUniqueBodies req rs (Reached-HasUniqueBodies r)
Reached-HasUniqueBodies (cancellation_sent {n} {rs} req resend r) =
    cancellation_was_sent_keeps HasUniqueBodies update_request-HasUniqueBodies
      delete_request-HasUniqueBodies req resend rs (Reached-HasUniqueBodies r)
Reached-HasUniqueBodies (looks_up user_id device_id wanted r) = Reached-HasUniqueBodies r

Reached-HasMade : {n : ℕ} {rs : List Request} → Reached n rs → HasMade n rs
Reached-HasMade empty = tt
Reached-HasMade (makes {n} {rs} r) = HasMade-le n (suc n) rs (omega arith) (Reached-HasMade r)
Reached-HasMade (queues {n} {rs} body recipients resend txn read made r) =
    let h = Reached-HasMade r in
    queue_keeps (HasMade n) (update_request-HasMade n) (delete_request-HasMade n) body recipients
      resend txn read rs (get_or_add-HasMade n (new_request body recipients txn.first) rs made h) h
Reached-HasMade (cancels {n} {rs} txn read r) =
    cancel_keeps (HasMade n) (update_request-HasMade n) (delete_request-HasMade n) txn read rs
      (Reached-HasMade r)
Reached-HasMade (request_sent {n} {rs} req r) =
    request_was_sent_keeps (HasMade n) (update_request-HasMade n) (delete_request-HasMade n) req rs
      (Reached-HasMade r)
Reached-HasMade (cancellation_sent {n} {rs} req resend r) =
    cancellation_was_sent_keeps (HasMade n) (update_request-HasMade n) (delete_request-HasMade n)
      req resend rs (Reached-HasMade r)
Reached-HasMade (looks_up {n} {rs} user_id device_id wanted r) =
    let h = Reached-HasMade r in
    HasMade-le n _ rs (by_target-nil user_id device_id wanted rs n h).0 h

-- In every store that is reached from the empty one, where the recipients of a request are objects made
-- before it is queued, the lookup by target finds no request, whatever user, device and states it is
-- for: its literal is a new object each time, and no request has it as a recipient.
pub requests_by_target-nil :
    {n : ℕ} {rs : List Request} (user_id device_id : String) (wanted : List RequestState)
    → Reached n rs
    → (requests_by_target user_id device_id wanted rs n).1 ≡ []
requests_by_target-nil {n} {rs} user_id device_id wanted r =
    (by_target-nil user_id device_id wanted rs n (Reached-HasMade r)).1
