-- ===== src/Timelines/Timeline.antt =====
-- `EventTimeline` of models/event-timeline.js. A timeline object is its place in the list of all
-- timelines. Of a `RoomState` of models/room-state.js it keeps the state events and the pagination
-- token; members, the metadata of events and emitted events are left out.
use matrix_js_sdk.Base.{
  ℕ, ◌+◌, ◌-◌, String, Bool, true, false, Option, none, some, List, [], ◌∷◌, ◌++◌, str_eq, ltb,
  if◌then◌else◌, is_some, length, get_elem?, zero, suc,
}
use matrix_js_sdk.Base.Dict.{Dict, put, get_or}

pub record Event : Type 0 where
  pub id : String
  pub room_id : String
  pub type : String
  -- a state event has one
  pub state_key : Option String

pub record RoomState : Type 0 where
  pub room_id : String
  pub events : Dict (Dict Event)
  pub pagination_token : Option String

pub record Timeline : Type 0 where
  pub room_id : String
  pub events : List Event
  pub base_index : ℕ
  pub start_state : RoomState
  pub end_state : RoomState
  pub prev_timeline : Option ℕ
  pub next_timeline : Option ℕ

pub data Direction : Type 0 where
  backwards forwards : Direction

abbrev pub new_state : String → RoomState
new_state room = record { room_id = room; events = []; pagination_token = none }

abbrev pub new_timeline : String → Timeline
new_timeline room = record {
  room_id = room;
  events = [];
  base_index = 0;
  start_state = new_state room;
  end_state = new_state room;
  prev_timeline = none;
  next_timeline = none;
}

-- one event of `setStateEvents`, as far as the state events go
unfoldable pub set_state_event : RoomState → Event → RoomState
set_state_event s e = elim e.state_key [
  | none ↦ s
  | some key ↦
      if str_eq e.room_id s.room_id
      then record s { events = put e.type (put key e (get_or e.type s.events [])) s.events }
      else s
]

unfoldable pub set_state_events : RoomState → List Event → RoomState
unfolding set_state_event
set_state_events s [] = s
set_state_events s (e ∷ es) = set_state_events (set_state_event s e) es

-- `none` is the error of a timeline that has events
unfoldable pub initialise_state : List Event → Timeline → Option Timeline
unfolding set_state_events
initialise_state state_events t =
    if ltb 0 (length t.events)
    then none
    else some (record t {
      start_state = set_state_events t.start_state state_events;
      end_state = set_state_events t.end_state state_events;
    })

abbrev pub get_state : Direction → Timeline → RoomState
get_state backwards t = t.start_state
get_state forwards t = t.end_state

abbrev pub get_pagination_token : Direction → Timeline → Option String
get_pagination_token d t = (get_state d t).pagination_token

abbrev pub set_pagination_token : Option String → Direction → Timeline → Timeline
set_pagination_token token backwards t = record t {
  start_state = record t.start_state { pagination_token = token };
}
set_pagination_token token forwards t = record t {
  end_state = record t.end_state { pagination_token = token };
}

abbrev pub get_neighbouring_timeline : Direction → Timeline → Option ℕ
get_neighbouring_timeline backwards t = t.prev_timeline
get_neighbouring_timeline forwards t = t.next_timeline

abbrev pub with_neighbour : ℕ → Direction → Timeline → Timeline
with_neighbour n backwards t = record t { prev_timeline = some n }
with_neighbour n forwards t = record t { next_timeline = some n }

-- `none` is the error of a neighbour that is set already
unfoldable pub set_neighbouring_timeline : ℕ → Direction → Timeline → Option Timeline
set_neighbouring_timeline neighbour d t =
    if is_some (get_neighbouring_timeline d t)
    then none
    else some (set_pagination_token none d (with_neighbour neighbour d t))

-- `unfiltered` is whether the timeline's set is the unfiltered one of its room
abbrev pub state_after : Bool → Event → RoomState → RoomState
state_after true e s = set_state_events s (e ∷ [])
state_after false e s = s

unfoldable pub add_event : Bool → Event → (at_start : Bool) → Timeline → Timeline
unfolding set_state_events
add_event unfiltered e true t = record t {
  start_state = state_after unfiltered e t.start_state;
  events = e ∷ t.events;
  base_index = t.base_index + 1;
}
add_event unfiltered e false t = record t {
  end_state = state_after unfiltered e t.end_state;
  events = t.events ++ e ∷ [];
}

-- the place of the last event of the id
unfoldable pub last_place : String → List Event → Option ℕ
last_place id [] = none
last_place id (e ∷ es) = elim (last_place id es) [
  | some i ↦ some (i + 1)
  | none ↦ if str_eq e.id id then some 0 else none
]

-- `splice(i, 1)`
unfoldable pub remove_at : ℕ → List Event → List Event
remove_at i [] = []
remove_at zero (e ∷ es) = es
remove_at (suc i) (e ∷ es) = e ∷ remove_at i es

unfoldable pub remove_event : String → Timeline → Timeline × Option Event
unfolding last_place remove_at
remove_event id t = elim (last_place id t.events) [
  | none ↦ (t, none)
  | some i ↦ (
    record t {
      events = remove_at i t.events;
      base_index = (if ltb i t.base_index then t.base_index - 1 else t.base_index);
    },
    get_elem? t.events i,
  )
]
