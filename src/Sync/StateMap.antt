-- ===== src/Sync/StateMap.antt =====
-- `setState` of sync-accumulator.js: the state map, type → state key → event.
use matrix_js_sdk.Base.{
  String, ◌≡◌, refl, Bool, true, false, ◌&&◌, Option, none, some, List, [], ◌∷◌, ◌++◌, arith,
  eq_iff, str_eq, if◌then◌else◌, Option-cases, inl, inr,
}
use matrix_js_sdk.Base.Dict.{Dict, get, put, get-put, get_or}
use matrix_js_sdk.Sync.Response.{Event}

abbrev pub StateMap : Type 0
StateMap = Dict (Dict Event)

-- `eventMap[type][stateKey]`, with a missing inner map read as empty
unfoldable pub lookup_state : String → String → StateMap → Option Event
lookup_state t k m = get k (get_or t m [])

-- What the guard of `setState` lets through: an event with a state key and a non-empty type.
unfoldable pub slot : Event → Option (String × String)
slot e = elim e.state_key [
  | none ↦ none
  | some k ↦ elim e.type [ none ↦ none | some t ↦ if str_eq t "" then none else some (t, k) ]
]

unfoldable pub set_state : StateMap → Event → StateMap
set_state m e = elim (slot e) [ none ↦ m | some (t, k) ↦ put t (put k e (get_or t m [])) m ]

-- `forEach((e) => setState(map, e))`
unfoldable pub set_all : StateMap → List Event → StateMap
set_all m [] = m
set_all m (e ∷ es) = set_all (set_state m e) es

-- the event is the state at this type and key
abbrev pub is_state_at : String → String → Event → Bool
is_state_at t k e = elim (slot e) [ none ↦ false | some (s, j) ↦ str_eq s t && str_eq j k ]

abbrev pub or_else {ℓ} : {A : Type ℓ} → Option A → Option A → Option A
or_else none o = o
or_else (some a) o = some a

-- the last event of a list that is the state at this type and key
unfoldable pub last_state : String → String → List Event → Option Event
last_state t k [] = none
last_state t k (e ∷ es) = or_else (last_state t k es) (if is_state_at t k e then some e else none)

lookup_state-put :
    (s j t k : String) (e : Event) (m : StateMap)
    → lookup_state t k (put s (put j e (get_or s m [])) m)
      ≡ (if str_eq s t && str_eq j k then some e else lookup_state t k m)
unfolding lookup_state
lookup_state-put s j t k e m =
    ground
      (arith, get-put s t (put j e (get_or s m [])) m, get-put j k e (get_or s m []), eq_iff s t)

pub set_state-none : (m : StateMap) (e : Event) → slot e ≡ none → set_state m e ≡ m
unfolding set_state
set_state-none m e h = ground arith

pub set_state-some :
    (m : StateMap) (e : Event) (t k : String)
    → slot e ≡ some (t, k)
    → set_state m e ≡ put t (put k e (get_or t m [])) m
unfolding set_state
set_state-some m e t k h = ground arith

pub slot_of_is_state_at :
    (t k : String) (e : Event) → is_state_at t k e ≡ true → slot e ≡ some (t, k)
slot_of_is_state_at t k e h = elim (Option-cases (slot e)) [
  | inl n ↦ ground arith
  | inr ((s, j), q) ↦ ground (arith, eq_iff s t, eq_iff j k)
]

pub lookup_state-set_state :
    (t k : String) (m : StateMap) (e : Event)
    → lookup_state t k (set_state m e) ≡ (if is_state_at t k e then some e else lookup_state t k m)
unfolding set_state
lookup_state-set_state t k m e = grind (arith, lookup_state-put)

pub lookup_state-set_all :
    (t k : String) (m : StateMap) (es : List Event)
    → lookup_state t k (set_all m es) ≡ or_else (last_state t k es) (lookup_state t k m)
unfolding set_all last_state
lookup_state-set_all t k m [] = refl
lookup_state-set_all t k m (e ∷ es) =
    ground (arith, lookup_state-set_all t k (set_state m e) es, lookup_state-set_state t k m e)

pub last_state-append :
    (t k : String) (xs ys : List Event)
    → last_state t k (xs ++ ys) ≡ or_else (last_state t k ys) (last_state t k xs)
unfolding last_state
last_state-append t k [] ys = ground arith
last_state-append t k (x ∷ xs) ys = ground (arith, last_state-append t k xs ys)
