-- ===== src/Timelines/Sets.antt =====
-- `EventTimelineSet` of models/event-timeline-set.js. The filter is the one of the set, if it has one, as
-- the function that `filterRoomTimeline` of filter.js is. Relations and emitted events are left out.
use matrix_js_sdk.Base.{
  ℕ, zero, suc, String, Bool, true, false, ◌&&◌, ◌||◌, not, Option, none, some, List, [], ◌∷◌,
  length, get_elem?, ◌==◌, if◌then◌else◌, is_some,
}
use matrix_js_sdk.Base.Dict.{Dict, get, put, remove}
use matrix_js_sdk.Timelines.Timeline.{
  Event, Timeline, Direction, backwards, forwards, new_timeline, get_neighbouring_timeline,
  set_neighbouring_timeline, set_pagination_token, add_event, remove_event,
}

pub record TimelineSet : Type 0 where
  pub room_id : String
  -- whether it is the unfiltered set of its room
  pub is_unfiltered : Bool
  pub timeline_support : Bool
  pub timelines : List Timeline
  pub live_timeline : ℕ
  pub event_id_to_timeline : Dict ℕ

abbrev pub new_timeline_set : String → Bool → Bool → TimelineSet
new_timeline_set room unfiltered support = record {
  room_id = room;
  is_unfiltered = unfiltered;
  timeline_support = support;
  timelines = new_timeline room ∷ [];
  live_timeline = 0;
  event_id_to_timeline = [];
}

-- a change of one timeline object
unfoldable pub update_at : ℕ → (Timeline → Timeline) → List Timeline → List Timeline
update_at n f [] = []
update_at zero f (t ∷ ts) = f t ∷ ts
update_at (suc n) f (t ∷ ts) = t ∷ update_at n f ts

abbrev pub pushed : Timeline → List Timeline → List Timeline
pushed t [] = t ∷ []
pushed t (u ∷ ts) = u ∷ pushed t ts

-- `none` is the error of a set without timeline support
unfoldable pub add_timeline : TimelineSet → Option (ℕ × TimelineSet)
add_timeline s =
    if s.timeline_support
    then some
        (length s.timelines, record s { timelines = pushed (new_timeline s.room_id) s.timelines })
    else none

unfoldable pub add_event_to_timeline : Event → ℕ → (at_start : Bool) → TimelineSet → TimelineSet
unfolding update_at
add_event_to_timeline e n at_start s = record s {
  timelines = update_at n (λ t. add_event s.is_unfiltered e at_start t) s.timelines;
  event_id_to_timeline = put e.id n s.event_id_to_timeline;
}

abbrev pub inverse : Direction → Direction
inverse backwards = forwards
inverse forwards = backwards

-- `setNeighbouringTimeline` on the timeline number `n`
unfoldable pub set_neighbour_at :
    (neighbour : ℕ) → Direction → (n : ℕ) → List Timeline → Option (List Timeline)
unfolding update_at
set_neighbour_at neighbour d n ts = elim (get_elem? ts n) [
  | none ↦ none
  | some t ↦ elim (set_neighbouring_timeline neighbour d t) [
    | none ↦ none
    | some t' ↦ some (update_at n (λ _. t') ts)
  ]
]

-- the timeline and the existing one become neighbours; `none` is the error of either
unfoldable pub join_timelines : ℕ → ℕ → Direction → List Timeline → Option (List Timeline)
unfolding set_neighbour_at
join_timelines timeline existing d ts = elim (set_neighbour_at existing d timeline ts) [
  | none ↦ none
  | some ts' ↦ set_neighbour_at timeline (inverse d) existing ts'
]

-- a live timeline would come to have a timeline after it
abbrev pub refuses : Direction → (existing_is_live timeline_is_live : Bool) → Bool
refuses backwards existing timeline = existing
refuses forwards existing timeline = timeline

-- where the loop of `addEventsToTimeline` stands
pub record Adding : Type 0 where
  pub set : TimelineSet
  pub timeline : ℕ
  pub did_update : Bool
  pub last_event_was_new : Bool

abbrev pub is_backwards : Direction → Bool
is_backwards backwards = true
is_backwards forwards = false

-- an event that the set has in the timeline `existing`
unfoldable pub add_existing : Direction → ℕ → Adding → Option Adding
unfolding join_timelines
add_existing d existing a =
    if existing == a.timeline
    then some (record a { last_event_was_new = false })
    else elim (get_elem? a.set.timelines a.timeline) [
      | none ↦ none
      | some t ↦ elim (get_neighbouring_timeline d t) [
        | some neighbour ↦ some (record a { timeline = existing; last_event_was_new = false })
        | none ↦
            elim (refuses d (existing == a.set.live_timeline) (a.timeline == a.set.live_timeline)) [
              | true ↦ some (record a { last_event_was_new = false })
              | false ↦ elim (join_timelines a.timeline existing d a.set.timelines) [
                | none ↦ none
                | some joined ↦ some (record {
                  set = record a.set { timelines = joined };
                  timeline = existing;
                  did_update = true;
                  last_event_was_new = false;
                })
              ]
            ]
      ]
    ]

unfoldable pub add_one : Direction → Event → Adding → Option Adding
unfolding add_event_to_timeline add_existing
add_one d e a = elim (get e.id a.set.event_id_to_timeline) [
  | none ↦ some (record a {
    set = add_event_to_timeline e a.timeline (is_backwards d) a.set;
    last_event_was_new = true;
    did_update = true;
  })
  | some existing ↦ add_existing d existing a
]

unfoldable pub add_all : Direction → List Event → Adding → Option Adding
unfolding add_one
add_all d [] a = some a
add_all d (e ∷ es) a = elim (add_one d e a) [ none ↦ none | some b ↦ add_all d es b ]

-- the token of the last timeline, where the loop says so
unfoldable pub with_token : Direction → Option String → Adding → TimelineSet
unfolding update_at
with_token d token a =
    if (a.last_event_was_new || not a.did_update)
      && not (not (is_backwards d) && (a.timeline == a.set.live_timeline))
    then record a.set {
      timelines = update_at a.timeline (λ t. set_pagination_token token d t) a.set.timelines;
    }
    else a.set

abbrev pub is_empty : List Event → Bool
is_empty [] = true
is_empty (e ∷ es) = false

unfoldable pub add_unfiltered :
    List Event → Direction → ℕ → Option String → TimelineSet → Option TimelineSet
unfolding add_all with_token
add_unfiltered events d n token s =
    elim (add_all d events
      (record { set = s; timeline = n; did_update = false; last_event_was_new = false })) [
        | none ↦ none
        | some a ↦ some (with_token d token a)
      ]

-- `addEventsToTimeline`; `none` is one of its errors
unfoldable pub add_events_to_timeline :
    Option (List Event → List Event)
    → List Event
    → Direction
    → ℕ
    → Option String
    → TimelineSet
    → Option TimelineSet
unfolding add_unfiltered
add_events_to_timeline filter events d n token s =
    if not (is_backwards d) && (n == s.live_timeline) then none else elim filter [
      | none ↦ add_unfiltered events d n token s
      | some f ↦ if is_empty (f events) then some s else add_unfiltered (f events) d n token s
    ]

-- the timeline, without the event, and the event
abbrev pub without_event : String → ℕ → TimelineSet → TimelineSet × Option Event
without_event id n s = elim (get_elem? s.timelines n) [
  | none ↦ (s, none)
  | some t ↦
      let (t', removed) = remove_event id t in
      if is_some removed
      then (
        record s {
          timelines = update_at n (λ _. t') s.timelines;
          event_id_to_timeline = remove id s.event_id_to_timeline;
        },
        removed,
      )
      else (s, none)
]

unfoldable pub remove_event_of_set : String → TimelineSet → TimelineSet × Option Event
unfolding update_at remove_event
remove_event_of_set id s = elim (get id s.event_id_to_timeline) [
  | none ↦ (s, none)
  | some n ↦ without_event id n s
]
