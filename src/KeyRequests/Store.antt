-- ===== src/KeyRequests/Store.antt =====
-- The outgoing room key requests of `MemoryCryptoStore` (crypto/store/memory-crypto-store.js).
use matrix_js_sdk.Base.{
  ℕ, suc, String, Bool, ◌&&◌, Option, none, some, List, [], ◌∷◌, ◌++◌, ◌==◌, str_eq, if◌then◌else◌,
  any,
}

-- `ROOM_KEY_REQUEST_STATES`
pub data RequestState : Type 0 where
  unsent sent cancellation_pending cancellation_pending_and_will_resend : RequestState

abbrev pub number : RequestState → ℕ
number unsent = 0
number sent = 1
number cancellation_pending = 2
number cancellation_pending_and_will_resend = 3

unfoldable pub same_state : RequestState → RequestState → Bool
same_state a b = number a == number b

pub record RequestBody : Type 0 where
  pub algorithm : String
  pub room_id : String
  pub sender_key : String
  pub session_id : String

-- `utils.deepCompare` of two request bodies
abbrev pub same_body : RequestBody → RequestBody → Bool
same_body a b =
    str_eq a.algorithm b.algorithm
    && str_eq a.room_id b.room_id
    && str_eq a.sender_key b.sender_key
    && str_eq a.session_id b.session_id

pub record Recipient : Type 0 where
  -- which object it is, for comparisons by identity
  pub object : ℕ
  pub user_id : String
  pub device_id : String

pub record Request : Type 0 where
  pub body : RequestBody
  pub recipients : List Recipient
  pub request_id : String
  pub state : RequestState
  pub cancellation_txn_id : Option String
  pub request_txn_id : Option String

-- the second argument of `Object.assign`; a field that is `none` is not assigned
pub record Updates : Type 0 where
  pub state : RequestState
  pub cancellation_txn_id : Option String
  pub request_txn_id : Option String

abbrev pub assigned {ℓ} : {A : Type ℓ} → Option A → Option A → Option A
assigned none old = old
assigned (some new) old = some new

abbrev pub assign : Request → Updates → Request
assign r u = record r {
  state = u.state;
  cancellation_txn_id = assigned u.cancellation_txn_id r.cancellation_txn_id;
  request_txn_id = assigned u.request_txn_id r.request_txn_id;
}

-- `_getOutgoingRoomKeyRequest`
unfoldable pub find_request : RequestBody → List Request → Option Request
find_request body [] = none
find_request body (r ∷ rs) = if same_body r.body body then some r else find_request body rs

-- `getOrAddOutgoingRoomKeyRequest`: the request that is there, or the new one at the end
unfoldable pub get_or_add : Request → List Request → Request × List Request
unfolding find_request
get_or_add new rs = elim (find_request new.body rs) [
  | some existing ↦ (existing, rs)
  | none ↦ (new, rs ++ new ∷ [])
]

-- `getOutgoingRoomKeyRequestByState`
unfoldable pub find_by_state : List RequestState → List Request → Option Request
find_by_state wanted [] = none
find_by_state wanted (r ∷ rs) =
    if any (λ s. same_state r.state s) wanted then some r else find_by_state wanted rs

-- `getAllOutgoingRoomKeyRequestsByState`
unfoldable pub all_by_state : RequestState → List Request → List Request
all_by_state wanted [] = []
all_by_state wanted (r ∷ rs) =
    let rest = all_by_state wanted rs in if same_state r.state wanted then r ∷ rest else rest

-- `recipients.includes(target)`, which compares objects by identity
unfoldable pub includes_object : Recipient → List Recipient → Bool
includes_object target = any (λ x. x.object == target.object)

-- The object literal `{userId, deviceId}`: a new object, numbered by the count of those made before.
abbrev pub literal : (next : ℕ) (user_id device_id : String) → Recipient
literal next user_id device_id = record { object = next; user_id = user_id; device_id = device_id }

-- The inner loop for one request, with the count of the objects: it is pushed for each wanted state
-- that it is in, if its recipients include the literal, which is made for the comparison.
unfoldable pub push_matches :
    (user_id device_id : String) → Request → List RequestState → ℕ → ℕ × List Request
unfolding includes_object same_state
push_matches user_id device_id r [] next = (next, [])
push_matches user_id device_id r (s ∷ ss) next =
    let compares = same_state r.state s in
    let (next', rest) = push_matches user_id device_id r ss (if compares then suc next else next) in
    (
      next',
      if compares && includes_object (literal next user_id device_id) r.recipients
          then r ∷ rest
          else rest,
    )

-- `getOutgoingRoomKeyRequestsByTarget`, with the count of the objects
unfoldable pub requests_by_target :
    (user_id device_id : String) → List RequestState → List Request → ℕ → ℕ × List Request
unfolding push_matches
requests_by_target user_id device_id wanted [] next = (next, [])
requests_by_target user_id device_id wanted (r ∷ rs) next =
    let (next', found) = push_matches user_id device_id r wanted next in
    let (next'', rest) = requests_by_target user_id device_id wanted rs next' in
    (next'', found ++ rest)

-- `updateOutgoingRoomKeyRequest`
unfoldable pub update_request :
    String → RequestState → Updates → List Request → Option Request × List Request
update_request id expected u [] = (none, [])
update_request id expected u (r ∷ rs) =
    let (found, rest) = update_request id expected u rs in
    if str_eq r.request_id id
    then (if same_state r.state expected
        then (some (assign r u), assign r u ∷ rs)
        else (none, r ∷ rs))
    else (found, r ∷ rest)

-- `deleteOutgoingRoomKeyRequest`
unfoldable pub delete_request : String → RequestState → List Request → Option Request × List Request
delete_request id expected [] = (none, [])
delete_request id expected (r ∷ rs) =
    let (found, rest) = delete_request id expected rs in
    if str_eq r.request_id id
    then (if same_state r.state expected then (some r, rs) else (none, r ∷ rs))
    else (found, r ∷ rest)
