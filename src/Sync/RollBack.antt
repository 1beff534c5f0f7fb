-- ===== src/Sync/RollBack.antt =====
-- The state that `getJSON` of sync-accumulator.js exports: what is rolled back, and what the last
-- event of the export is at each key.
use matrix_js_sdk.Base.{
  String, ◌≡◌, refl, Option, none, some, List, [], ◌∷◌, arith, eq_iff, str_eq, if◌then◌else◌,
  Option-cases, inl, inr,
}
use matrix_js_sdk.Base.Dict.{Dict, get, IsUnique}
use matrix_js_sdk.Sync.Response.{Event}
use matrix_js_sdk.Sync.StateMap.{
  StateMap, slot, lookup_state, last_state, last_state-append, slot_of_is_state_at,
  lookup_state-set_state,
}
use matrix_js_sdk.Sync.WellFormed.{TypeKeyed, IsStateMap}
use matrix_js_sdk.Sync.Export.{prior, roll_back, rolled_back, export_type, export_state}

slot-prior : (e : Event) → slot (prior e) ≡ slot e
unfolding slot prior
slot-prior e = ground arith

pub lookup_state-nil : (t k : String) → lookup_state t k [] ≡ none
unfolding lookup_state get
lookup_state-nil t k = refl

-- Where no timeline event is the state at a key nothing is rolled back there.
pub roll_back-none :
    (t k : String) (es : List Event)
    → last_state t k es ≡ none
    → lookup_state t k (roll_back es) ≡ none
unfolding roll_back last_state
roll_back-none t k [] h = lookup_state-nil t k
roll_back-none t k (e ∷ es) h = ground (
  arith,
  roll_back-none t k es,
  lookup_state-set_state t k (roll_back es) (prior e),
  slot-prior e,
)

-- What is rolled back stands at its own type and key.
pub roll_back-slot :
    (t k : String) (es : List Event) (e : Event)
    → lookup_state t k (roll_back es) ≡ some e
    → slot e ≡ some (t, k)
unfolding roll_back
roll_back-slot t k [] x h = cc (lookup_state-nil t k)
roll_back-slot t k (e ∷ es) x h = ground (
  arith,
  roll_back-slot t k es x,
  lookup_state-set_state t k (roll_back es) (prior e),
  slot_of_is_state_at t k (prior e),
)

abbrev pub pick : StateMap → String → String → Option Event → Option Event
pick rolled t k none = none
pick rolled t k (some e) = some (rolled_back (lookup_state t k rolled) e)

module _ (rolled : StateMap)
    (keyed : (t k : String) (e : Event)
      → lookup_state t k rolled ≡ some e
      → slot e ≡ some (t, k)) where
  rolled_back-slot :
      (t k : String) (e : Event)
      → slot e ≡ some (t, k)
      → slot (rolled_back (lookup_state t k rolled) e) ≡ some (t, k)
  rolled_back-slot t k e h = elim (Option-cases (lookup_state t k rolled)) [
    | inl n ↦ rw n h
    | inr (old, s) ↦ rw s (keyed t k old s)
  ]

  last_state-export_type :
      (s t k : String) (d : Dict Event)
      → TypeKeyed s d
      → IsUnique d
      → last_state t k (export_type rolled s d)
        ≡ (if str_eq s t then pick rolled t k (get k d) else none)
  unfolding last_state export_type get
  last_state-export_type s t k [] w u = ground arith
  last_state-export_type s t k ((j, e) ∷ d) w u = ground (
    arith,
    last_state-export_type s t k d w.1 u.1,
    rolled_back-slot s j e w.0,
    eq_iff s t,
    eq_iff j k,
  )

  pub last_state-export_state :
      (t k : String) (m : StateMap)
      → IsStateMap m
      → last_state t k (export_state rolled m) ≡ pick rolled t k (lookup_state t k m)
  unfolding export_state lookup_state get last_state
  last_state-export_state t k [] w = ground arith
  last_state-export_state t k ((s, d) ∷ m) w = ground (
    arith,
    last_state-append t k (export_type rolled s d) (export_state rolled m),
    last_state-export_type s t k d w.0 w.1,
    last_state-export_state t k m w.3,
    eq_iff s t,
  )
