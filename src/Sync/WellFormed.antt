-- ===== src/Sync/WellFormed.antt =====
-- The well-formedness of a state map: every event stands at its own type and key, and no key
-- occurs twice.
use matrix_js_sdk.Base.{String, ◌≡◌, some, List, [], ◌∷◌, arith, eq_iff, Option-cases, inl, inr}
use matrix_js_sdk.Base.Dict.{
  Dict, get, put, get-nil, get-put, get_or, Absent, IsUnique, put-IsUnique,
}
use matrix_js_sdk.Sync.Response.{Event}
use matrix_js_sdk.Sync.StateMap.{StateMap, slot, set_state, set_all, set_state-none, set_state-some}

abbrev pub TypeKeyed : String → Dict Event → Type 0
TypeKeyed t [] = Unit
TypeKeyed t ((k, e) ∷ d) = (slot e ≡ some (t, k)) × TypeKeyed t d

abbrev pub IsStateMap : StateMap → Type 0
IsStateMap [] = Unit
IsStateMap ((t, d) ∷ m) = TypeKeyed t d × IsUnique d × Absent t m × IsStateMap m

put-TypeKeyed :
    (t k : String) (e : Event) (d : Dict Event)
    → slot e ≡ some (t, k)
    → TypeKeyed t d
    → TypeKeyed t (put k e d)
unfolding put
put-TypeKeyed t k e [] h w = (h, tt)
put-TypeKeyed t k e ((j, x) ∷ d) h w = ground (arith, put-TypeKeyed t k e d, eq_iff j k)

get_or-IsStateMap :
    (t : String) (m : StateMap)
    → IsStateMap m
    → TypeKeyed t (get_or t m []) × IsUnique (get_or t m [])
unfolding get
get_or-IsStateMap t [] w = (tt, tt)
get_or-IsStateMap t ((s, d) ∷ m) w = ground (arith, get_or-IsStateMap t m, eq_iff s t)

put-IsStateMap :
    (t : String) (d : Dict Event) (m : StateMap)
    → TypeKeyed t d
    → IsUnique d
    → IsStateMap m
    → IsStateMap (put t d m)
unfolding put
put-IsStateMap t d [] w u h = (w, u, get-nil t, tt)
put-IsStateMap t d ((s, x) ∷ m) w u h =
    ground (arith, put-IsStateMap t d m, eq_iff s t, eq_iff t s, get-put t s d m)

pub set_state-IsStateMap : (m : StateMap) (e : Event) → IsStateMap m → IsStateMap (set_state m e)
set_state-IsStateMap m e h = elim (Option-cases (slot e)) [
  | inl none_e ↦ rw (set_state-none m e none_e) h
  | inr ((t, k), at) ↦
      let (w, u) = get_or-IsStateMap t m h in
      rw (set_state-some m e t k at) (
        put-IsStateMap t (put k e (get_or t m [])) m (put-TypeKeyed t k e (get_or t m []) at w)
          (put-IsUnique k e (get_or t m []) u) h)
]

pub set_all-IsStateMap : (m : StateMap) (es : List Event) → IsStateMap m → IsStateMap (set_all m es)
unfolding set_all
set_all-IsStateMap m [] h = h
set_all-IsStateMap m (e ∷ es) h = set_all-IsStateMap (set_state m e) es (set_state-IsStateMap m e h)
