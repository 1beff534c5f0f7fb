-- ===== src/KeyRequests/Objects.antt =====
-- The objects of the recipients under the writes of the store of room key requests, and under its lookup by
-- target, which makes new ones.
use matrix_js_sdk.Base.{
  ℕ, suc, ◌≤◌, ◌<◌, String, ◌≡◌, All, arith, refl, false, List, [], ◌∷◌, ◌++◌, Bool-cases, inl, inr,
}
use matrix_js_sdk.KeyRequests.Store.{
  RequestState, same_state, Recipient, Request, Updates, includes_object, literal, push_matches,
  requests_by_target, get_or_add, update_request, delete_request,
}

-- objects that have been made, when `made` objects have
abbrev pub AreMade : ℕ → List Recipient → Type 0
AreMade made = All (λ x. x.object < made)

-- the recipients of every request are objects that have been made
abbrev pub HasMade : ℕ → List Request → Type 0
HasMade n rs = All (λ r. AreMade n r.recipients) rs

pub update_request-HasMade :
    (n : ℕ) (id : String) (expected : RequestState) (u : Updates) (rs : List Request)
    → HasMade n rs
    → HasMade n (update_request id expected u rs).1
unfolding update_request
update_request-HasMade n id expected u [] h = tt
update_request-HasMade n id expected u (r ∷ rs) h =
    ground (arith, update_request-HasMade n id expected u rs)

pub delete_request-HasMade :
    (n : ℕ) (id : String) (expected : RequestState) (rs : List Request)
    → HasMade n rs
    → HasMade n (delete_request id expected rs).1
unfolding delete_request
delete_request-HasMade n id expected [] h = tt
delete_request-HasMade n id expected (r ∷ rs) h =
    ground (arith, delete_request-HasMade n id expected rs)

append-HasMade :
    (n : ℕ) (rs : List Request) (r : Request)
    → AreMade n r.recipients
    → HasMade n rs
    → HasMade n (rs ++ r ∷ [])
append-HasMade n [] r made h = (made, tt)
append-HasMade n (x ∷ rs) r made h = (h.0, append-HasMade n rs r made h.1)

pub get_or_add-HasMade :
    (n : ℕ) (new : Request) (rs : List Request)
    → AreMade n new.recipients
    → HasMade n rs
    → HasMade n (get_or_add new rs).1
unfolding get_or_add
get_or_add-HasMade n new rs made h = ground (arith, append-HasMade n rs new)

AreMade-le : (n m : ℕ) (xs : List Recipient) → n ≤ m → AreMade n xs → AreMade m xs
AreMade-le n m [] le h = tt
AreMade-le n m (x ∷ xs) le h = (omega (arith, h.0), AreMade-le n m xs le h.1)

pub HasMade-le : (n m : ℕ) (rs : List Request) → n ≤ m → HasMade n rs → HasMade m rs
HasMade-le n m [] le h = tt
HasMade-le n m (r ∷ rs) le h = (AreMade-le n m r.recipients le h.0, HasMade-le n m rs le h.1)

-- a new literal is none of the recipients
includes_object-literal :
    (n : ℕ) (user_id device_id : String) (xs : List Recipient)
    → AreMade n xs
    → includes_object (literal n user_id device_id) xs ≡ false
unfolding includes_object
includes_object-literal n user_id device_id [] h = refl
includes_object-literal n user_id device_id (x ∷ xs) h =
    ground (arith, includes_object-literal n user_id device_id xs, h.0)

push_matches-nil :
    (user_id device_id : String) (r : Request) (ss : List RequestState) (n : ℕ)
    → AreMade n r.recipients
    → (n ≤ (push_matches user_id device_id r ss n).0)
      × ((push_matches user_id device_id r ss n).1 ≡ [])
unfolding push_matches
push_matches-nil user_id device_id r [] n h = (omega arith, refl)
push_matches-nil user_id device_id r (s ∷ ss) n h = elim (Bool-cases (same_state r.state s)) [
  | inl same ↦
      let (le, nothing) =
        push_matches-nil user_id device_id r ss (suc n)
          (AreMade-le n (suc n) r.recipients (omega arith) h) in
      rw (same, includes_object-literal n user_id device_id r.recipients h)
        ((omega (arith, le)), nothing)
  | inr other ↦ rw other (push_matches-nil user_id device_id r ss n h)
]

pub by_target-nil :
    (user_id device_id : String) (wanted : List RequestState) (rs : List Request) (n : ℕ)
    → HasMade n rs
    → (n ≤ (requests_by_target user_id device_id wanted rs n).0)
      × ((requests_by_target user_id device_id wanted rs n).1 ≡ [])
unfolding requests_by_target
by_target-nil user_id device_id wanted [] n h = (omega arith, refl)
by_target-nil user_id device_id wanted (r ∷ rs) n h =
    let m = (push_matches user_id device_id r wanted n).0 in
    let (le, none_pushed) = push_matches-nil user_id device_id r wanted n h.0 in
    let (le', nothing) = by_target-nil user_id device_id wanted rs m (HasMade-le n m rs le h.1) in
    (omega (arith, le, le'), rw (none_pushed, nothing) refl)
