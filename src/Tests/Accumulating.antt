-- ===== src/Tests/Accumulating.antt =====
-- sync-accumulator.js on a room with three messages.
use matrix_js_sdk.Base.{
  String, ◌≡◌, ◌≤◌, ◌<◌, ◌↔◌, ◌-◌, refl, inl, inr, true, false, Option, none, some, List, [], ◌∷◌,
  ◌++◌, arith, length, drop,
}
use matrix_js_sdk.Base.Dict.{put, get}
use matrix_js_sdk.Sync.Response.{Event, JoinData, SyncResponse}
use matrix_js_sdk.Sync.StateMap.{set_all, set_state, slot, lookup_state}
use matrix_js_sdk.Sync.Timeline.{Entry, prune, from_token, has_token, HasTokenHead}
use matrix_js_sdk.Sync.Pruning.{prune_longest, prune-exceeds_iff}
use matrix_js_sdk.Sync.Room.{JoinedRoom, new_room, update_room}
use matrix_js_sdk.Sync.Consistency.{IsConsistent, update_room-IsConsistent, new_room-IsConsistent}
use matrix_js_sdk.Sync.Reload.{reload, SameRoom, reload-SameRoom}
use matrix_js_sdk.Sync.Accumulator.{Accumulator, RoomUpdate, new_accumulator, accumulate}
use matrix_js_sdk.Sync.Invariant.{IsValid, accumulate-IsValid, new_accumulator-IsValid}

abbrev topic : String → Event
topic text = record {
  type = some "m.room.topic";
  state_key = some "";
  sender = some "@a:x";
  content = text;
  unsigned = none;
}

abbrev message : String → Event
message text = record {
  type = some "m.room.message";
  state_key = none;
  sender = some "@a:x";
  content = text;
  unsigned = none;
}

abbrev join_data : JoinData
join_data = record {
  account_data = none;
  unread_notifications = none;
  summary = none;
  ephemeral = none;
  timeline = some (record {
    limited = true;
    events = some (message "1" ∷ topic "2" ∷ message "3" ∷ []);
    prev_batch = some "t1";
  });
  state = some (topic "0" ∷ []);
}

abbrev example_room : JoinedRoom
example_room = update_room 50 new_room join_data

-- the topic of the timeline has replaced that of the state block
topic_is_2 : lookup_state "m.room.topic" "" example_room.current_state ≡ some (topic "2")
unfolding lookup_state update_room set_all set_state slot put get
topic_is_2 = refl

abbrev example_room-IsConsistent : IsConsistent example_room
example_room-IsConsistent =
    update_room-IsConsistent 50 new_room join_data new_room-IsConsistent (inl refl) (inr refl)

reload-SameRoom_example : SameRoom (reload 50 "!r" example_room) example_room
reload-SameRoom_example = reload-SameRoom 50 "!r" example_room example_room-IsConsistent

abbrev response : SyncResponse
response = record {
  rooms = some (record { invite = none; join = some (("!r", join_data) ∷ []); leave = none });
  groups = none;
  account_data = none;
  next_batch = "s1";
}

accumulate-IsValid_example : IsValid (accumulate (new_accumulator none) response)
accumulate-IsValid_example =
    accumulate-IsValid (new_accumulator none) response ((inl refl, inr refl), tt)
      (new_accumulator-IsValid none)

-- a joined room, and an invite to another one
abbrev two_rooms : Accumulator
two_rooms = record (new_accumulator none) {
  invite_rooms = ("!i", topic "i" ∷ []) ∷ [];
  join_rooms = ("!r", example_room) ∷ [];
}

-- the invite is accepted
abbrev accepted : RoomUpdate
accepted = RoomUpdate.join join_data

abbrev entry : Option String → Event → Entry
entry token e = record { event = e; token = token }

abbrev older : List Entry
older = entry (some "t0") (message "0") ∷ []

abbrev newer : List Entry
newer = entry (some "t1") (message "1") ∷ entry none (message "2") ∷ []

-- one entry may stay, but none of the last one has a token
prune_keeps_all : prune 1 newer ≡ newer
unfolding prune from_token
prune_keeps_all = refl

prune_longest_example :
    HasTokenHead (prune 2 (older ++ newer))
    × (length (prune 2 (older ++ newer)) ≤ 2)
    × (length newer ≤ length (prune 2 (older ++ newer)))
prune_longest_example = prune_longest 2 older newer (omega arith) refl (omega arith)

prune-exceeds_iff_example :
    (1 < length (prune 1 newer))
    ↔ ((1 < length newer) × (has_token (drop (length newer - 1) newer) ≡ false))
prune-exceeds_iff_example = prune-exceeds_iff 1 newer
