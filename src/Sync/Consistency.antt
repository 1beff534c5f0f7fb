-- ===== src/Sync/Consistency.antt =====
-- The invariant of a joined room that makes the export of sync-accumulator.js faithful, and that
-- `_accumulateJoinState` keeps it.
use matrix_js_sdk.Base.{
  ℕ, String, ◌≡◌, refl, ◌⊎◌, false, true, Option, none, some, List, [], ◌∷◌, ◌++◌, arith, eq_iff,
  truthy, if◌then◌else◌,
}
use matrix_js_sdk.Base.Dict.{Dict, put, get-nil, get-put, Absent, IsUnique}
use matrix_js_sdk.Sync.Response.{Event, AccountData, TimelineData, JoinData}
use matrix_js_sdk.Sync.StateMap.{
  lookup_state, set_all, or_else, last_state, last_state-append, lookup_state-set_all,
}
use matrix_js_sdk.Sync.WellFormed.{IsStateMap, set_all-IsStateMap}
use matrix_js_sdk.Sync.Timeline.{Entry, entries, events_of, StartsWithToken}
use matrix_js_sdk.Sync.Pruning.{
  events_of-append, events_of-entries, prune_suffix, prune-StartsWithToken, StartsWithToken-append,
  StartsWithToken-entries,
}
use matrix_js_sdk.Sync.Receipts.{put_ephemeral-IsUnique}
use matrix_js_sdk.Sync.Room.{
  JoinedRoom, new_room, update_room, append_timeline, events_or_none, is_limited, timeline_events,
  timeline_token, put_account_data,
}

-- Every event of the account data stands at its own type, once.
abbrev pub IsAccountMap : Dict AccountData → Type 0
IsAccountMap [] = Unit
IsAccountMap ((k, a) ∷ d) = (a.type ≡ k) × Absent k d × IsAccountMap d

put-IsAccountMap :
    (a : AccountData) (d : Dict AccountData) → IsAccountMap d → IsAccountMap (put a.type a d)
unfolding put
put-IsAccountMap a [] h = (refl, get-nil a.type, tt)
put-IsAccountMap a ((k, b) ∷ d) h =
    ground (arith, put-IsAccountMap a d, eq_iff k a.type, eq_iff a.type k, get-put a.type k a d)

put_account_data-IsAccountMap :
    (d : Dict AccountData) (es : List AccountData)
    → IsAccountMap d
    → IsAccountMap (put_account_data d es)
unfolding put_account_data
put_account_data-IsAccountMap d [] h = h
put_account_data-IsAccountMap d (a ∷ es) h =
    put_account_data-IsAccountMap (put a.type a d) es (put-IsAccountMap a d h)

-- The state map is well formed, holds the last state event of the timeline at each key, and the
-- timeline starts with a token.
pub record IsConsistent (r : JoinedRoom) : Type 0 where
  pub state : IsStateMap r.current_state
  pub agrees :
      (t k : String) (e : Event)
      → last_state t k (events_of r.timeline) ≡ some e
      → lookup_state t k r.current_state ≡ some e
  pub starts : StartsWithToken r.timeline
  pub account : IsAccountMap r.account_data
  pub receipts : IsUnique r.read_receipts

-- A response with a state block has a gap before its timeline.
abbrev pub StateOnlyAfterGap : JoinData → Type 0
StateOnlyAfterGap d = (is_limited d.timeline ≡ true) ⊎ (events_or_none d.state ≡ [])

-- A timeline with events comes with a token.
abbrev pub HasPrevBatch : JoinData → Type 0
HasPrevBatch d = (timeline_events d.timeline ≡ []) ⊎ (truthy (timeline_token d.timeline) ≡ true)

last_state_of_suffix :
    (t k : String) (front rest : List Entry) (e : Event)
    → last_state t k (events_of rest) ≡ some e
    → last_state t k (events_of (front ++ rest)) ≡ some e
last_state_of_suffix t k front rest e h =
    rw (events_of-append front rest)
      (ground (arith, last_state-append t k (events_of front) (events_of rest)))

last_state-append_timeline :
    (t k : String) (timeline : List Entry) (d : Option TimelineData)
    → last_state t k (events_of (append_timeline timeline d))
      ≡ or_else
          (last_state t k (timeline_events d))
          (if is_limited d then none else last_state t k (events_of timeline))
unfolding append_timeline last_state
last_state-append_timeline t k timeline d =
    let new : List Entry = entries (timeline_token d) (timeline_events d) in
    let old : List Entry = if is_limited d then [] else timeline in
    ground (
      arith,
      events_of-append old new,
      events_of-entries (timeline_token d) (timeline_events d),
      last_state-append t k (events_of old) (timeline_events d),
    )

StartsWithToken-append_timeline :
    (timeline : List Entry) (d : Option TimelineData)
    → StartsWithToken timeline
    → (timeline_events d ≡ []) ⊎ (truthy (timeline_token d) ≡ true)
    → StartsWithToken (append_timeline timeline d)
unfolding append_timeline
StartsWithToken-append_timeline timeline d s h =
    StartsWithToken-append (if is_limited d then [] else timeline) _
      (elim (is_limited d) as (λ b. StartsWithToken (if b then [] else timeline)) [
        | true ↦ tt
        | false ↦ s
      ])
      (StartsWithToken-entries (timeline_token d) (timeline_events d) h)

-- A joined room stays consistent through every update that has a state block only after a gap, and
-- a token with its timeline if that has events.
pub update_room-IsConsistent :
    (max : ℕ) (r : JoinedRoom) (d : JoinData)
    → IsConsistent r
    → StateOnlyAfterGap d
    → HasPrevBatch d
    → IsConsistent (update_room max r d)
unfolding update_room
update_room-IsConsistent max r d c gap token = record {
  state =
      set_all-IsStateMap _ (timeline_events d.timeline)
        (set_all-IsStateMap _ (events_or_none d.state) c.state);
  agrees = λ t k e h.
      let (front, split) = prune_suffix max (append_timeline r.timeline d.timeline) in
      let whole : last_state t k (events_of (append_timeline r.timeline d.timeline)) ≡ some e =
        rw split (last_state_of_suffix t k front _ e h) in
      ground (
        arith,
        lookup_state-set_all t k (set_all r.current_state (events_or_none d.state))
            (timeline_events d.timeline),
        lookup_state-set_all t k r.current_state (events_or_none d.state),
        last_state-append_timeline t k r.timeline d.timeline,
        c.agrees t k e,
      );
  starts =
      prune-StartsWithToken max (append_timeline r.timeline d.timeline)
        (StartsWithToken-append_timeline r.timeline d.timeline c.starts token);
  account = put_account_data-IsAccountMap r.account_data (events_or_none d.account_data) c.account;
  receipts = put_ephemeral-IsUnique r.read_receipts (events_or_none d.ephemeral) c.receipts;
}

pub new_room-IsConsistent : IsConsistent new_room
unfolding last_state
new_room-IsConsistent = record {
  state = tt;
  agrees = λ t k e h. cc;
  starts = tt;
  account = tt;
  receipts = tt;
}
