-- ===== src/Tests/Sets.antt =====
-- A timeline set of two timelines that an event joins.
use matrix_js_sdk.Base.{
  ◌||◌, false, eq_iff, ap, sym, ◌∙◌, zero, suc, ◌≡◌, refl, String, true, none, some, [], ◌∷◌, arith,
  str_eq, get_elem?,
}
use mathlib.Core.Option.{some-injective}
use matrix_js_sdk.Timelines.Timeline.{Timeline, backwards, new_timeline, add_event}
use matrix_js_sdk.Base.Dict.{get, put}
use matrix_js_sdk.Timelines.Timeline.{set_neighbouring_timeline}
use matrix_js_sdk.Timelines.Sets.{
  TimelineSet, update_at, add_event_to_timeline, set_neighbour_at, join_timelines, add_existing,
  add_one, add_all, with_token, add_unfiltered, add_events_to_timeline,
}
use matrix_js_sdk.Timelines.Ownership.{count, IsIndexed}
use matrix_js_sdk.Timelines.Known.{is_known, has_id, add_events_to_timeline-IsIndexed}
use matrix_js_sdk.Timelines.Fresh.{AreFresh, placed, add_events_to_timeline-placed}
use matrix_js_sdk.Tests.Windows.{message}

abbrev set_of_two : TimelineSet
set_of_two = record {
  room_id = "!r";
  is_unfiltered = false;
  timeline_support = true;
  timelines =
      record (new_timeline "!r") { events = message "a" ∷ [] }
      ∷ record (new_timeline "!r") { events = message "c" ∷ [] }
      ∷ [];
  live_timeline = 0;
  event_id_to_timeline = ("a", 0) ∷ ("c", 1) ∷ [];
}

-- "b" is new, and "c" joins the timelines
abbrev set_joined : TimelineSet
set_joined = record set_of_two {
  timelines =
      record (new_timeline "!r") {
        events = message "b" ∷ message "a" ∷ [];
        base_index = 1;
        prev_timeline = some 1;
      }
      ∷ record (new_timeline "!r") { events = message "c" ∷ []; next_timeline = some 0 }
      ∷ [];
  event_id_to_timeline = ("a", 0) ∷ ("c", 1) ∷ ("b", 0) ∷ [];
}

set_of_two-IsIndexed : IsIndexed set_of_two
unfolding get
set_of_two-IsIndexed zero t e id =
    ap (λ (x : Timeline). count id x.events) (sym (some-injective _ _ e))
    ∙ ground (arith, eq_iff "a" id, eq_iff "c" id)
set_of_two-IsIndexed (suc zero) t e id =
    let apart : str_eq "a" "c" ≡ false = refl in
    ap (λ (x : Timeline). count id x.events) (sym (some-injective _ _ e))
    ∙ ground (arith, apart, eq_iff "a" id, eq_iff "c" id, eq_iff "a" "c")
set_of_two-IsIndexed (suc (suc n)) t e id = cc

events_joined :
    add_events_to_timeline none (message "b" ∷ message "c" ∷ []) backwards 0 none set_of_two
    ≡ some set_joined
unfolding add_events_to_timeline add_unfiltered add_all add_one add_existing add_event_to_timeline
    add_event join_timelines set_neighbour_at set_neighbouring_timeline update_at with_token get put
events_joined = refl

add_events_to_timeline-IsIndexed_example :
    IsIndexed set_joined
    × ((id : String)
        → is_known id set_joined
          ≡ (is_known id set_of_two || has_id id (message "b" ∷ message "c" ∷ [])))
add_events_to_timeline-IsIndexed_example =
    add_events_to_timeline-IsIndexed none (message "b" ∷ message "c" ∷ []) backwards 0 none
      set_of_two set_joined set_of_two-IsIndexed events_joined

both-AreFresh : AreFresh (message "x" ∷ message "y" ∷ []) set_of_two
unfolding get
both-AreFresh = (refl, refl, (refl, refl, tt))

add_events_to_timeline-placed_example :
    (s : TimelineSet) × (t : Timeline) × (add_events_to_timeline none
        (message "x" ∷ message "y" ∷ [])
        backwards
        0
        none
        set_of_two
      ≡ some s)
    × (get_elem? s.timelines 0 ≡ some t)
    × (t.events ≡ placed backwards (message "x" ∷ message "y" ∷ []) (message "a" ∷ []))
add_events_to_timeline-placed_example =
    add_events_to_timeline-placed (message "x" ∷ message "y" ∷ []) backwards 0 none set_of_two
      (record (new_timeline "!r") { events = message "a" ∷ [] }) both-AreFresh refl refl
