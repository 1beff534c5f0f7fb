-- ===== src/Sync/Export.antt =====
-- `getJSON` of sync-accumulator.js.
use matrix_js_sdk.Base.{
  String, false, Option, none, some, List, [], ◌∷◌, ◌++◌, map, if◌then◌else◌, truthy, is_some,
}
use matrix_js_sdk.Base.Dict.{Dict, put, get_or, values}
use matrix_js_sdk.Sync.Response.{Json, Event, AccountData, Ephemeral, JoinData}
use matrix_js_sdk.Sync.StateMap.{StateMap, lookup_state, set_state}
use matrix_js_sdk.Sync.Timeline.{emit}
use matrix_js_sdk.Sync.Room.{Receipt, JoinedRoom}
use matrix_js_sdk.Sync.Accumulator.{Accumulator, GroupMaps}

-- the state event that a timeline event replaced, as far as `unsigned` tells
unfoldable pub prior : Event → Event
prior e = elim e.unsigned [
  | none ↦ e
  | some u ↦ record e {
    content = (elim u.prev_content [ none ↦ e.content | some c ↦ c ]);
    sender = (if truthy u.prev_sender then u.prev_sender else e.sender);
  }
]

-- The loop from the last timeline event to the first.
unfoldable pub roll_back : List Event → StateMap
unfolding prior set_state
roll_back [] = []
roll_back (e ∷ es) =
    let m = roll_back es in if is_some e.state_key then set_state m (prior e) else m

abbrev pub rolled_back : Option Event → Event → Event
rolled_back none ev = ev
rolled_back (some old) ev = old

-- the events of one type in the current state
unfoldable pub export_type : StateMap → String → Dict Event → List Event
unfolding lookup_state
export_type rolled t [] = []
export_type rolled t ((k, ev) ∷ d) =
    rolled_back (lookup_state t k rolled) ev ∷ export_type rolled t d

unfoldable pub export_state : StateMap → StateMap → List Event
unfolding export_type
export_state rolled [] = []
export_state rolled ((t, d) ∷ m) = export_type rolled t d ++ export_state rolled m

-- `content[eventId]["m.read"][userId] = data` for each receipt
unfoldable pub group_receipts : Dict (Dict Json) → Dict Receipt → Dict (Dict Json)
group_receipts content [] = content
group_receipts content ((user, r) ∷ rest) =
    group_receipts (put r.event_id (put user r.content (get_or r.event_id content [])) content) rest

-- one receipt event, if it has any content
unfoldable pub receipt_events : String → Dict (Dict Json) → List Ephemeral
receipt_events room [] = []
receipt_events room (entry ∷ content) =
    record {
      type = "m.receipt";
      room_id = some room;
      content = some (map (λ p. (p.0, some p.1)) (entry ∷ content));
    }
    ∷ []

unfoldable pub export_receipts : String → Dict Receipt → List Ephemeral
unfolding group_receipts receipt_events
export_receipts room receipts = receipt_events room (group_receipts [] receipts)

unfoldable pub export_room : String → JoinedRoom → JoinData
unfolding export_state roll_back export_receipts emit
export_room room r =
    let (token, events) = emit none [] r.timeline in
    record {
      account_data = some (values r.account_data);
      unread_notifications = some r.unread_notifications;
      summary = some r.summary;
      ephemeral = some (export_receipts room r.read_receipts);
      timeline = some (record { limited = false; events = some events; prev_batch = token });
      state = some (export_state (roll_back events) r.current_state);
    }

pub record SyncData : Type 0 where
  pub next_batch : Option String
  pub join : Dict JoinData
  pub invite : Dict (List Event)
  pub leave : Dict Json
  pub groups : GroupMaps
  pub account_data : List AccountData

unfoldable pub get_json : Accumulator → SyncData
unfolding export_room
get_json s = record {
  next_batch = s.next_batch;
  join = map (λ p. (p.0, export_room p.0 p.1)) s.join_rooms;
  invite = s.invite_rooms;
  leave = [];
  groups = s.groups;
  account_data = values s.account_data;
}
