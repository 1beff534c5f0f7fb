-- ===== src/Tests/Filters.antt =====
-- filter-component.js: a filter for one room and all types of one prefix.
use matrix_js_sdk.Base.{◌≡◌, ◌↔◌, refl, true, false, none, some, [], ◌∷◌}
use matrix_js_sdk.Filter.Component.{
  FilterComponent, Event, check, check_fields, passes, matches_wildcard, text_eq, ends_with_star,
  starts_with, drop_last,
}
use matrix_js_sdk.Filter.Meaning.{Accepts, check_iff}

abbrev component : FilterComponent
component = record {
  types = some ((b'm' ∷ b'*' ∷ []) ∷ []);
  not_types = [];
  rooms = some ((b'r' ∷ []) ∷ []);
  not_rooms = [];
  senders = none;
  not_senders = [];
  contains_url = some false;
  limit = none;
}

abbrev event : Event
event = record {
  room_id = b'r' ∷ [];
  sender = b'a' ∷ [];
  type = b'm' ∷ b'.' ∷ b'x' ∷ [];
  content = none;
}

event_passes : check component event ≡ true
unfolding check check_fields passes matches_wildcard text_eq ends_with_star starts_with drop_last
event_passes = refl

check_iff_example : (check component event ≡ true) ↔ Accepts component event
check_iff_example = check_iff component event
