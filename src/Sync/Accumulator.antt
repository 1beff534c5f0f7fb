-- ===== src/Sync/Accumulator.antt =====
-- `SyncAccumulator` of sync-accumulator.js: invited and joined rooms, groups, account data.
use matrix_js_sdk.Base.{
  ℕ, zero, suc, String, Bool, true, false, ◌&&◌, Option, none, some, List, [], ◌∷◌, ◌++◌, str_eq,
  if◌then◌else◌, is_some, any,
}
use matrix_js_sdk.Base.Dict.{Dict, get, put, remove, get_or}
use matrix_js_sdk.Sync.Response.{
  Json, Event, AccountData, InviteData, JoinData, Rooms, Groups, SyncResponse,
}
use matrix_js_sdk.Sync.Room.{JoinedRoom, new_room, update_room, put_account_data, events_or_none}

pub record GroupMaps : Type 0 where
  pub invite : Dict Json
  pub join : Dict Json
  pub leave : Dict Json

pub record Accumulator : Type 0 where
  pub max_timeline_entries : ℕ
  pub account_data : Dict AccountData
  -- the events of `invite_state`
  pub invite_rooms : Dict (List Event)
  pub join_rooms : Dict JoinedRoom
  pub next_batch : Option String
  pub groups : GroupMaps

-- `opts.maxTimelineEntries || 50`
abbrev pub or_default : Option ℕ → ℕ
or_default none = 50
or_default (some zero) = 50
or_default (some (suc n)) = suc n

abbrev pub new_accumulator : Option ℕ → Accumulator
new_accumulator max = record {
  max_timeline_entries = or_default max;
  account_data = [];
  invite_rooms = [];
  join_rooms = [];
  next_batch = none;
  groups = record { invite = []; join = []; leave = [] };
}

-- `a === b` and `a == b` between optional texts
abbrev pub same_text : Option String → Option String → Bool
same_text none none = true
same_text (some a) (some b) = str_eq a b
same_text _ _ = false

abbrev pub same_slot : Event → Event → Bool
same_slot current e = same_text current.type e.type && same_text current.state_key e.state_key

-- The inner loop: every event with the type and the state key of `e` becomes `e`.
unfoldable pub replace_all : Event → List Event → List Event
replace_all e [] = []
replace_all e (current ∷ rest) = (if same_slot current e then e else current) ∷ replace_all e rest

unfoldable pub put_invite_event : List Event → Event → List Event
unfolding replace_all
put_invite_event events e =
    if any (λ current. same_slot current e) events then replace_all e events else events ++ e ∷ []

unfoldable pub put_invite_events : List Event → List Event → List Event
put_invite_events events [] = events
put_invite_events events (e ∷ es) = put_invite_events (put_invite_event events e) es

unfoldable pub accumulate_invite_state : Accumulator → String → InviteData → Accumulator
unfolding put_invite_events put_invite_event
accumulate_invite_state s room d = elim d.invite_state [
  | none ↦ s
  | some new ↦ elim (get room s.invite_rooms) [
    | none ↦ record s { invite_rooms = put room new s.invite_rooms }
    | some old ↦ record s { invite_rooms = put room (put_invite_events old new) s.invite_rooms }
  ]
]

unfoldable pub accumulate_join_state : Accumulator → String → JoinData → Accumulator
accumulate_join_state s room d = record s {
  join_rooms =
      put room (update_room s.max_timeline_entries (get_or room s.join_rooms new_room) d)
        s.join_rooms;
}

-- a category with its data; the code's `default` case has no category
pub data RoomUpdate : Type 0 where
  invite : InviteData → RoomUpdate
  join : JoinData → RoomUpdate
  leave : Json → RoomUpdate

unfoldable pub accumulate_room : Accumulator → String → RoomUpdate → Accumulator
unfolding accumulate_invite_state accumulate_join_state
accumulate_room s room (invite d) = accumulate_invite_state s room d
accumulate_room s room (join d) =
    let s' : Accumulator =
      if is_some (get room s.invite_rooms)
      then record s { invite_rooms = remove room s.invite_rooms }
      else s in
    accumulate_join_state s' room d
accumulate_room s room (leave d) =
    if is_some (get room s.invite_rooms)
    then record s { invite_rooms = remove room s.invite_rooms }
    else record s { join_rooms = remove room s.join_rooms }

-- `Object.keys(m).forEach(…)`, with `f` the update of one entry
abbrev pub each {ℓ} :
    {V : Type ℓ}
    → (Accumulator → String → V → Accumulator)
    → Accumulator
    → Option (Dict V)
    → Accumulator
each {V = V} f s none = s
each {V = V} f s (some []) = s
each {V = V} f s (some ((k, v) ∷ d)) = each f (f s k v) (some d)

unfoldable pub accumulate_rooms : Accumulator → Option Rooms → Accumulator
unfolding accumulate_room
accumulate_rooms s none = s
accumulate_rooms s (some r) =
    let s1 : Accumulator = each (λ a room d. accumulate_room a room (invite d)) s r.invite in
    let s2 : Accumulator = each (λ a room d. accumulate_room a room (join d)) s1 r.join in
    each (λ a room d. accumulate_room a room (leave d)) s2 r.leave

pub data Category : Type 0 where
  invite join leave : Category

-- the group is taken out of every category, and put into the one given
unfoldable pub accumulate_group : Category → Accumulator → String → Json → Accumulator
accumulate_group c s group json =
    let g : GroupMaps = record {
      invite = remove group s.groups.invite;
      join = remove group s.groups.join;
      leave = remove group s.groups.leave;
    } in
    elim c [
      | invite ↦ record s { groups = record g { invite = put group json g.invite } }
      | join ↦ record s { groups = record g { join = put group json g.join } }
      | leave ↦ record s { groups = record g { leave = put group json g.leave } }
    ]

unfoldable pub accumulate_groups : Accumulator → Option Groups → Accumulator
unfolding accumulate_group
accumulate_groups s none = s
accumulate_groups s (some g) =
    each (accumulate_group leave)
      (each (accumulate_group join) (each (accumulate_group invite) s g.invite) g.join) g.leave

unfoldable pub accumulate_account_data : Accumulator → Option (List AccountData) → Accumulator
unfolding put_account_data
accumulate_account_data s es = record s {
  account_data = put_account_data s.account_data (events_or_none es);
}

unfoldable pub accumulate : Accumulator → SyncResponse → Accumulator
unfolding accumulate_rooms accumulate_groups accumulate_account_data
accumulate s r =
    let s' : Accumulator =
      accumulate_account_data (accumulate_groups (accumulate_rooms s r.rooms) r.groups)
        r.account_data in
    record s' { next_batch = some r.next_batch }
