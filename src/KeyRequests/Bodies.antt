-- ===== src/KeyRequests/Bodies.antt =====
-- The bodies of the requests under the writes of the store of room key requests.
use matrix_js_sdk.Base.{
  ◌≡◌, refl, Bool, false, ◌||◌, List, [], ◌∷◌, ◌++◌, arith, eq_iff, is_some, String,
}
use matrix_js_sdk.KeyRequests.Store.{
  RequestState, RequestBody, same_body, Request, Updates, find_request, get_or_add, update_request,
  delete_request,
}

abbrev pub has_body : RequestBody → List Request → Bool
has_body body rs = is_some (find_request body rs)

-- every body occurs once
abbrev pub HasUniqueBodies : List Request → Type 0
HasUniqueBodies [] = Unit
HasUniqueBodies (r ∷ rs) = (has_body r.body rs ≡ false) × HasUniqueBodies rs

same_body_comm : (a b : RequestBody) → same_body a b ≡ same_body b a
same_body_comm a b = ground (
  arith,
  eq_iff a.algorithm b.algorithm,
  eq_iff b.algorithm a.algorithm,
  eq_iff a.room_id b.room_id,
  eq_iff b.room_id a.room_id,
  eq_iff a.sender_key b.sender_key,
  eq_iff b.sender_key a.sender_key,
  eq_iff a.session_id b.session_id,
  eq_iff b.session_id a.session_id,
)

has_body-update_request :
    (body : RequestBody) (id : String) (expected : RequestState) (u : Updates) (rs : List Request)
    → has_body body (update_request id expected u rs).1 ≡ has_body body rs
unfolding find_request update_request
has_body-update_request body id expected u [] = refl
has_body-update_request body id expected u (r ∷ rs) =
    ground (arith, has_body-update_request body id expected u rs)

has_body-delete_request :
    (body : RequestBody) (id : String) (expected : RequestState) (rs : List Request)
    → has_body body rs ≡ false
    → has_body body (delete_request id expected rs).1 ≡ false
unfolding find_request delete_request
has_body-delete_request body id expected [] h = refl
has_body-delete_request body id expected (r ∷ rs) h =
    ground (arith, has_body-delete_request body id expected rs)

has_body-append :
    (body : RequestBody) (rs : List Request) (r : Request)
    → has_body body (rs ++ r ∷ []) ≡ (has_body body rs || same_body r.body body)
unfolding find_request
has_body-append body [] r = ground arith
has_body-append body (x ∷ rs) r = ground (arith, has_body-append body rs r)

append-HasUniqueBodies :
    (rs : List Request) (r : Request)
    → has_body r.body rs ≡ false
    → HasUniqueBodies rs
    → HasUniqueBodies (rs ++ r ∷ [])
unfolding find_request
append-HasUniqueBodies [] r new u = (refl, tt)
append-HasUniqueBodies (x ∷ rs) r new u =
    ground (
      arith,
      append-HasUniqueBodies rs r,
      has_body-append x.body rs r,
      same_body_comm x.body r.body,
    )

pub get_or_add-HasUniqueBodies :
    (new : Request) (rs : List Request) → HasUniqueBodies rs → HasUniqueBodies (get_or_add new rs).1
unfolding get_or_add
get_or_add-HasUniqueBodies new rs u = ground (arith, append-HasUniqueBodies rs new)

pub update_request-HasUniqueBodies :
    (id : String) (expected : RequestState) (u : Updates) (rs : List Request)
    → HasUniqueBodies rs
    → HasUniqueBodies (update_request id expected u rs).1
unfolding update_request
update_request-HasUniqueBodies id expected u [] h = tt
update_request-HasUniqueBodies id expected u (r ∷ rs) h = ground (
  arith,
  update_request-HasUniqueBodies id expected u rs,
  has_body-update_request r.body id expected u rs,
)

pub delete_request-HasUniqueBodies :
    (id : String) (expected : RequestState) (rs : List Request)
    → HasUniqueBodies rs
    → HasUniqueBodies (delete_request id expected rs).1
unfolding delete_request
delete_request-HasUniqueBodies id expected [] h = tt
delete_request-HasUniqueBodies id expected (r ∷ rs) h = ground (
  arith,
  delete_request-HasUniqueBodies id expected rs,
  has_body-delete_request r.body id expected rs,
)
