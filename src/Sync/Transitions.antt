-- ===== src/Sync/Transitions.antt =====
-- The room transitions of sync-accumulator.js against a table of states.
use matrix_js_sdk.Base.{
  ℕ, String, Bool, true, false, Option, none, some, List, if◌then◌else◌, is_some,
}
use matrix_js_sdk.Base.Dict.{get}
use matrix_js_sdk.Sync.Accumulator.{Accumulator, RoomUpdate, invite, join, leave, put_invite_events}
use matrix_js_sdk.Sync.Response.{Event}
use matrix_js_sdk.Sync.Room.{JoinedRoom, new_room, update_room}

-- What the accumulator holds of a room.
pub data Membership : Type 0 where
  nothing invited joined invited_and_joined : Membership

abbrev pub membership_of : (has_invite has_join : Bool) → Membership
membership_of false false = nothing
membership_of true false = invited
membership_of false true = joined
membership_of true true = invited_and_joined

abbrev pub membership : String → Accumulator → Membership
membership room s =
    membership_of (is_some (get room s.invite_rooms)) (is_some (get room s.join_rooms))

-- The table of the transitions; an invite with no events says nothing new.
abbrev pub next : RoomUpdate → Membership → Membership
next (invite d) m =
    if is_some d.invite_state
    then (elim m [
      | nothing ↦ invited
      | invited ↦ invited
      | joined ↦ invited_and_joined
      | invited_and_joined ↦ invited_and_joined
    ])
    else m
next (join d) m = joined
next (leave d) nothing = nothing
next (leave d) invited = nothing
next (leave d) joined = nothing
next (leave d) invited_and_joined = joined

-- the events of an invite, and the room of a join, that an update makes of the ones there
abbrev pub next_invite : RoomUpdate → Option (List Event) → Option (List Event)
next_invite (invite d) held = elim d.invite_state [
  | none ↦ held
  | some new ↦ elim held [ none ↦ some new | some old ↦ some (put_invite_events old new) ]
]
next_invite (join d) held = none
next_invite (leave d) held = none

abbrev pub next_room : ℕ → RoomUpdate → (is_invited : Bool) → Option JoinedRoom → Option JoinedRoom
next_room max (invite d) is_invited held = held
next_room max (join d) is_invited none = some (update_room max new_room d)
next_room max (join d) is_invited (some r) = some (update_room max r d)
next_room max (leave d) is_invited held = if is_invited then held else none
