-- ===== src/Sync/Room.antt =====
-- `_accumulateJoinState` of sync-accumulator.js: what a joined room keeps.
use matrix_js_sdk.Base.{
  ℕ, zero, suc, String, Bool, false, Option, none, some, List, [], ◌∷◌, ◌++◌, str_eq, if◌then◌else◌,
}
use matrix_js_sdk.Base.Dict.{Dict, put}
use matrix_js_sdk.Sync.Response.{
  Json, Event, AccountData, Ephemeral, Summary, TimelineData, JoinData,
}
use matrix_js_sdk.Sync.StateMap.{StateMap, set_all}
use matrix_js_sdk.Sync.Timeline.{Entry, entries, prune}

-- `_readReceipts[userId]`
pub record Receipt : Type 0 where
  pub content : Json
  pub event_id : String

pub record JoinedRoom : Type 0 where
  pub current_state : StateMap
  pub timeline : List Entry
  pub account_data : Dict AccountData
  pub unread_notifications : Json
  pub summary : Summary
  pub read_receipts : Dict Receipt

abbrev pub new_room : JoinedRoom
new_room = record {
  current_state = [];
  timeline = [];
  account_data = [];
  unread_notifications = "{}";
  summary = record { heroes = none; joined_member_count = none; invited_member_count = none };
  read_receipts = [];
}

-- `events.forEach((e) => map[e.type] = e)`
unfoldable pub put_account_data : Dict AccountData → List AccountData → Dict AccountData
put_account_data d [] = d
put_account_data d (e ∷ es) = put_account_data (put e.type e d) es

-- `a || b` on a list, which is truthy when it is there, and on a count, which is not when it is 0
abbrev pub or_heroes : Option (List String) → Option (List String) → Option (List String)
or_heroes none b = b
or_heroes (some a) b = some a

abbrev pub or_count : Option ℕ → Option ℕ → Option ℕ
or_count none b = b
or_count (some zero) b = b
or_count (some (suc n)) b = some (suc n)

unfoldable pub merge_summary : Summary → Summary → Summary
merge_summary acc sum = record {
  heroes = or_heroes sum.heroes acc.heroes;
  joined_member_count = or_count sum.joined_member_count acc.joined_member_count;
  invited_member_count = or_count sum.invited_member_count acc.invited_member_count;
}

-- the users of `content[eventId]["m.read"]`
unfoldable pub put_readers : String → Dict Json → Dict Receipt → Dict Receipt
put_readers event_id [] d = d
put_readers event_id ((user, json) ∷ users) d =
    put_readers event_id users (put user (record { content = json; event_id = event_id }) d)

-- the events of one receipt's content; one with no `m.read` is passed over
unfoldable pub put_receipt : Dict (Option (Dict Json)) → Dict Receipt → Dict Receipt
unfolding put_readers
put_receipt [] d = d
put_receipt ((event_id, none) ∷ rest) d = put_receipt rest d
put_receipt ((event_id, some users) ∷ rest) d = put_receipt rest (put_readers event_id users d)

-- an ephemeral event that is no receipt, or has no content, is passed over
unfoldable pub put_receipt_event : Dict Receipt → Ephemeral → Dict Receipt
unfolding put_receipt
put_receipt_event d e =
    if str_eq e.type "m.receipt"
    then (elim e.content [ none ↦ d | some content ↦ put_receipt content d ])
    else d

unfoldable pub put_ephemeral : Dict Receipt → List Ephemeral → Dict Receipt
unfolding put_receipt_event
put_ephemeral d [] = d
put_ephemeral d (e ∷ es) = put_ephemeral (put_receipt_event d e) es

abbrev pub events_or_none {ℓ} : {A : Type ℓ} → Option (List A) → List A
events_or_none none = []
events_or_none (some es) = es

abbrev pub is_limited : Option TimelineData → Bool
is_limited none = false
is_limited (some t) = t.limited

abbrev pub timeline_events : Option TimelineData → List Event
timeline_events none = []
timeline_events (some t) = events_or_none t.events

abbrev pub timeline_token : Option TimelineData → Option String
timeline_token none = none
timeline_token (some t) = t.prev_batch

-- The timeline part: a limited response clears the timeline, and the new events go to its end.
unfoldable pub append_timeline : List Entry → Option TimelineData → List Entry
unfolding entries
append_timeline timeline t =
    (if is_limited t then [] else timeline) ++ entries (timeline_token t) (timeline_events t)

-- The update of `currentData`, in the order of the code; the state takes the state block first and
-- then the timeline, and the timeline is pruned last.
unfoldable pub update_room : ℕ → JoinedRoom → JoinData → JoinedRoom
unfolding put_account_data merge_summary put_ephemeral append_timeline set_all prune
update_room max r d = record {
  account_data = put_account_data r.account_data (events_or_none d.account_data);
  unread_notifications = (elim d.unread_notifications [
    | none ↦ r.unread_notifications
    | some u ↦ u
  ]);
  summary = (elim d.summary [ none ↦ r.summary | some s ↦ merge_summary r.summary s ]);
  read_receipts = put_ephemeral r.read_receipts (events_or_none d.ephemeral);
  current_state =
      set_all (set_all r.current_state (events_or_none d.state)) (timeline_events d.timeline);
  timeline = prune max (append_timeline r.timeline d.timeline);
}
