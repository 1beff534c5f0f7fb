-- ===== src/KeyRequests/Lookup.antt =====
-- The state of the request with an id, under the writes of the store of room key requests.
use matrix_js_sdk.Base.{
  String, ◌≡◌, ap, ◌⊎◌, Bool, true, false, ◌&&◌, Option, none, some, List, [], ◌∷◌, ◌++◌, arith,
  eq_iff, str_eq, if◌then◌else◌,
}
use matrix_js_sdk.KeyRequests.Store.{
  RequestState, same_state, Request, Updates, get_or_add, update_request, delete_request,
}

-- the first request of an id
unfoldable pub state_at : String → List Request → Option RequestState
state_at id [] = none
state_at id (r ∷ rs) = if str_eq r.request_id id then some r.state else state_at id rs

abbrev pub is_in : RequestState → Option RequestState → Bool
is_in s none = false
is_in s (some t) = same_state t s

pub same_state-eq : (a b : RequestState) → same_state a b ≡ true → a ≡ b
unfolding same_state
same_state-eq a b h = ground arith

pub same_state_self : (a : RequestState) → same_state a a ≡ true
unfolding same_state
same_state_self a = ground arith

pub is_in-eq : (s : RequestState) (o : Option RequestState) → is_in s o ≡ true → o ≡ some s
is_in-eq s none h = cc
is_in-eq s (some t) h = ap some (same_state-eq t s h)

-- An update changes the state of its request, and only where it is in the expected state.
pub state_at-update_request :
    (id j : String) (expected : RequestState) (u : Updates) (rs : List Request)
    → state_at j (update_request id expected u rs).1
      ≡ (if str_eq id j && is_in expected (state_at id rs) then some u.state else state_at j rs)
unfolding state_at update_request
state_at-update_request id j expected u [] = ground arith
state_at-update_request id j expected u (r ∷ rs) = ground (
  arith,
  state_at-update_request id j expected u rs,
  eq_iff r.request_id id,
  eq_iff r.request_id j,
  eq_iff id j,
)

-- every id occurs once
abbrev pub HasUniqueIds : List Request → Type 0
HasUniqueIds [] = Unit
HasUniqueIds (r ∷ rs) = (state_at r.request_id rs ≡ none) × HasUniqueIds rs

-- A deletion takes its request away, and only where it is in the expected state.
pub state_at-delete_request :
    (id j : String) (expected : RequestState) (rs : List Request)
    → HasUniqueIds rs
    → state_at j (delete_request id expected rs).1
      ≡ (if str_eq id j && is_in expected (state_at id rs) then none else state_at j rs)
unfolding state_at delete_request
state_at-delete_request id j expected [] u = ground arith
state_at-delete_request id j expected (r ∷ rs) u = ground (
  arith,
  state_at-delete_request id j expected rs u.1,
  eq_iff r.request_id id,
  eq_iff r.request_id j,
  eq_iff id j,
)

state_at-append :
    (j : String) (rs : List Request) (r : Request)
    → state_at j (rs ++ r ∷ []) ≡ (elim (state_at j rs) [
      | none ↦ if str_eq r.request_id j then some r.state else none
      | some s ↦ some s
    ])
unfolding state_at
state_at-append j [] r = ground arith
state_at-append j (x ∷ rs) r = ground (arith, state_at-append j rs r)

-- An addition of a request with a new id changes nothing, or adds a state where there was none.
pub state_at-get_or_add :
    (j : String) (new : Request) (rs : List Request)
    → state_at new.request_id rs ≡ none
    → (state_at j (get_or_add new rs).1 ≡ state_at j rs)
      ⊎ ((state_at j rs ≡ none) × (state_at j (get_or_add new rs).1 ≡ some new.state))
unfolding get_or_add
state_at-get_or_add j new rs fresh =
    ground (arith, state_at-append j rs new, eq_iff new.request_id j)

pub update_request-HasUniqueIds :
    (id : String) (expected : RequestState) (u : Updates) (rs : List Request)
    → HasUniqueIds rs
    → HasUniqueIds (update_request id expected u rs).1
unfolding update_request
update_request-HasUniqueIds id expected u [] h = tt
update_request-HasUniqueIds id expected u (r ∷ rs) h = ground (
  arith,
  update_request-HasUniqueIds id expected u rs,
  state_at-update_request id r.request_id expected u rs,
  eq_iff r.request_id id,
  eq_iff id r.request_id,
)

pub delete_request-HasUniqueIds :
    (id : String) (expected : RequestState) (rs : List Request)
    → HasUniqueIds rs
    → HasUniqueIds (delete_request id expected rs).1
unfolding delete_request
delete_request-HasUniqueIds id expected [] h = tt
delete_request-HasUniqueIds id expected (r ∷ rs) h = ground (
  arith,
  delete_request-HasUniqueIds id expected rs,
  state_at-delete_request id r.request_id expected rs h.1,
  eq_iff r.request_id id,
  eq_iff id r.request_id,
)
