-- ===== src/Filter/Component.antt =====
-- `FilterComponent` of filter-component.js. A text is the list of its UTF-16 units.
use matrix_js_sdk.Base.{
  ℕ, Bool, true, false, not, ◌&&◌, Option, none, some, List, [], ◌∷◌, ◌==◌, if◌then◌else◌, any,
}

abbrev pub Text : Type 0
Text = List ℕ

-- `===` on texts
unfoldable pub text_eq : Text → Text → Bool
text_eq [] [] = true
text_eq (a ∷ s) (b ∷ t) = a == b && text_eq s t
text_eq _ _ = false

abbrev pub star : ℕ
star = b'*'

-- `filter_value.endsWith("*")`
unfoldable pub ends_with_star : Text → Bool
ends_with_star [] = false
ends_with_star (c ∷ []) = c == star
ends_with_star (c ∷ d ∷ s) = ends_with_star (d ∷ s)

-- `filter_value.slice(0, -1)`
unfoldable pub drop_last : Text → Text
drop_last [] = []
drop_last (c ∷ []) = []
drop_last (c ∷ d ∷ s) = c ∷ drop_last (d ∷ s)

-- `actual_value.substr(0, p.length) === p`
unfoldable pub starts_with : Text → Text → Bool
starts_with s [] = true
starts_with [] (c ∷ p) = false
starts_with (d ∷ s) (c ∷ p) = d == c && starts_with s p

unfoldable pub matches_wildcard : Text → Text → Bool
unfolding text_eq ends_with_star drop_last starts_with
matches_wildcard actual_value filter_value =
    if ends_with_star filter_value
    then starts_with actual_value (drop_last filter_value)
    else text_eq actual_value filter_value

-- `filter_json`; the constructor reads a missing list of `not_…` as empty
pub record FilterComponent : Type 0 where
  pub types : Option (List Text)
  pub not_types : List Text
  pub rooms : Option (List Text)
  pub not_rooms : List Text
  pub senders : Option (List Text)
  pub not_senders : List Text
  pub contains_url : Option Bool
  pub limit : Option ℕ

-- what `check` reads of a MatrixEvent; `content` is whether there is a `url`, if there is content
pub record Event : Type 0 where
  pub room_id : Text
  pub sender : Text
  pub type : Text
  pub content : Option Bool

-- One round of the loop over `literal_keys`.
unfoldable pub passes : (Text → Bool) → List Text → Option (List Text) → Bool
passes match_func disallowed_values allowed_values =
    if any match_func disallowed_values then false else (elim allowed_values [
      | none ↦ true
      | some [] ↦ true
      | some (v ∷ vs) ↦ any match_func (v ∷ vs)
    ])

abbrev pub bool_eq : Bool → Bool → Bool
bool_eq true b = b
bool_eq false b = not b

unfoldable pub check_fields : FilterComponent → Text → Text → Text → Bool → Bool
unfolding passes matches_wildcard
check_fields f room_id sender event_type contains_url =
    if not (passes (λ v. text_eq room_id v) f.not_rooms f.rooms)
    then false
    else if not (passes (λ v. text_eq sender v) f.not_senders f.senders)
    then false
    else if not (passes (λ v. matches_wildcard event_type v) f.not_types f.types)
    then false
    else (elim f.contains_url [ none ↦ true | some b ↦ bool_eq b contains_url ])

abbrev pub has_url : Option Bool → Bool
has_url none = false
has_url (some b) = b

unfoldable pub check : FilterComponent → Event → Bool
unfolding check_fields
check f e = check_fields f e.room_id e.sender e.type (has_url e.content)

unfoldable pub filter : FilterComponent → List Event → List Event
unfolding check
filter f [] = []
filter f (e ∷ es) = let rest = filter f es in if check f e then e ∷ rest else rest

abbrev pub limit : FilterComponent → ℕ
limit f = elim f.limit [ none ↦ 10 | some n ↦ n ]
