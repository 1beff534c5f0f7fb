-- ===== src/Base/Dict.antt =====
-- A plain object used as a map: its properties in insertion order. A write to a property that is
-- there keeps its place, and a new property goes to the end. `Object.keys` would list keys that
-- spell an array index first; that reordering is not modelled.
use Prim.Native.String.{String}
use mathlib.Core.Path.{◌≡◌, refl}
use mathlib.Core.List.{List, [], ◌∷◌}
use mathlib.Core.Option.{Option, none, some}
use native.Mathlib.Omega.{arith}
use text.Mathlib.TextEquality.{eq_iff}
use matrix_js_sdk.Base.Tests.{str_eq, if◌then◌else◌, str_eq_self}

abbrev pub Dict {ℓ} : Type ℓ → Type ℓ
Dict V = List (String × V)

module _ {ℓ} {V : Type ℓ} where
  unfoldable pub get : String → Dict V → Option V
  get k [] = none
  get k ((j, v) ∷ d) = if str_eq j k then some v else get k d

  unfoldable pub put : String → V → Dict V → Dict V
  put k v [] = (k, v) ∷ []
  put k v ((j, w) ∷ d) = if str_eq j k then (j, v) ∷ d else (j, w) ∷ put k v d

  unfoldable pub remove : String → Dict V → Dict V
  remove k [] = []
  remove k ((j, w) ∷ d) = let rest = remove k d in if str_eq j k then rest else (j, w) ∷ rest

  pub get-nil : (k : String) → get k [] ≡ none
  unfolding get
  get-nil k = refl

  pub get-put :
      (k j : String) (v : V) (d : Dict V)
      → get j (put k v d) ≡ (if str_eq k j then some v else get j d)
  unfolding get put
  get-put k j v [] = refl
  get-put k j v ((i, w) ∷ d) = ground (arith, eq_iff i k, eq_iff i j, eq_iff k j, get-put k j v d)

  pub get-put_self : (k : String) (v : V) (d : Dict V) → get k (put k v d) ≡ some v
  get-put_self k v d = simp (get-put, str_eq_self)

  pub get-remove :
      (k j : String) (d : Dict V) → get j (remove k d) ≡ (if str_eq k j then none else get j d)
  unfolding get remove
  get-remove k j [] = ground arith
  get-remove k j ((i, w) ∷ d) = ground (arith, eq_iff i k, eq_iff i j, eq_iff k j, get-remove k j d)

  pub get-remove_self : (k : String) (d : Dict V) → get k (remove k d) ≡ none
  get-remove_self k d = simp (get-remove, str_eq_self)

module _ {ℓ} {V : Type ℓ} where
  -- no earlier property has the key
  abbrev pub Absent : String → Dict V → Type ℓ
  Absent k d = get k d ≡ none

  -- every key occurs once
  abbrev pub IsUnique : Dict V → Type ℓ
  IsUnique [] = Unit
  IsUnique ((k, v) ∷ d) = Absent k d × IsUnique d

  pub put-IsUnique : (k : String) (v : V) (d : Dict V) → IsUnique d → IsUnique (put k v d)
  unfolding put get
  put-IsUnique k v [] u = (refl, tt)
  put-IsUnique k v ((j, w) ∷ d) u =
      ground (arith, get-put k j v d, put-IsUnique k v d, eq_iff j k, eq_iff k j)

  pub remove-IsUnique : (k : String) (d : Dict V) → IsUnique d → IsUnique (remove k d)
  unfolding remove get
  remove-IsUnique k [] u = tt
  remove-IsUnique k ((j, w) ∷ d) u =
      ground (arith, get-remove k j d, remove-IsUnique k d, eq_iff j k, eq_iff k j)

  -- `d[k] || e`, for a map whose values are objects
  abbrev pub get_or : String → Dict V → V → V
  get_or k d e = elim (get k d) [ none ↦ e | some v ↦ v ]

  pub get_or-put_self : (k : String) (v e : V) (d : Dict V) → get_or k (put k v d) e ≡ v
  get_or-put_self k v e d = rw (get-put_self k v d, get_or) refl

-- `Object.values`, in the order of the keys
abbrev pub values {ℓ} : {V : Type ℓ} → Dict V → List V
values [] = []
values ((k, v) ∷ d) = v ∷ values d
