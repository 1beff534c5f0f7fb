-- ===== src/Sync/Reload.antt =====
-- A joined room that is exported by `getJSON` of sync-accumulator.js and accumulated again from
-- nothing, as happens when the stored sync is loaded at startup.
use matrix_js_sdk.Base.{
  ℕ, zero, suc, ◌-◌, String, ◌≡◌, refl, ap, ◌∙◌, false, Option, none, List, [], ◌∷◌, arith, eq_iff,
  ltb, length, drop, Bool-cases, Option-cases, inl, inr,
}
use matrix_js_sdk.Base.Dict.{Dict, get, put, get-put, values}
use matrix_js_sdk.Sync.Response.{Event, AccountData}
use matrix_js_sdk.Sync.StateMap.{lookup_state, or_else, last_state, set_all, lookup_state-set_all}
use matrix_js_sdk.Sync.Timeline.{Entry, entries, prune, emit, events_of, has_token}
use matrix_js_sdk.Sync.Pruning.{
  prune-no_token, prune-within, emit-StartsWithToken, events_of-entries,
}
use matrix_js_sdk.Sync.Room.{JoinedRoom, new_room, update_room, put_account_data, append_timeline}
use matrix_js_sdk.Sync.Export.{roll_back, export_state, export_room}
use matrix_js_sdk.Sync.Receipts.{get-put_ephemeral-export_receipts}
use matrix_js_sdk.Sync.RollBack.{
  lookup_state-nil, roll_back-none, roll_back-slot, last_state-export_state,
}
use matrix_js_sdk.Sync.Consistency.{IsConsistent, IsAccountMap}

-- the room after a restart
unfoldable pub reload : ℕ → String → JoinedRoom → JoinedRoom
unfolding update_room export_room
reload max room r = update_room max new_room (export_room room r)

-- An exported timeline has one token, so that loading it prunes nothing.
no_token_after : (es : List Event) (n : ℕ) → has_token (drop n (entries none es)) ≡ false
unfolding entries
no_token_after [] zero = refl
no_token_after [] (suc n) = refl
no_token_after (e ∷ es) zero = no_token_after es zero
no_token_after (e ∷ es) (suc n) = no_token_after es n

prune-entries :
    (max : ℕ) (token : Option String) (es : List Event)
    → prune max (entries token es) ≡ entries token es
unfolding entries
prune-entries max token [] = prune-within max [] (omega arith)
prune-entries max token (e ∷ es) =
    let tl : List Entry = entries token (e ∷ es) in
    elim (Bool-cases (ltb max (length tl))) [
      | inl over ↦
          let n : ℕ = length tl - max - 1 in
          let cut : length tl - max ≡ suc n = ground arith in
          prune-no_token max tl (rw cut (no_token_after es n))
      | inr fits ↦ prune-within max tl (ground arith)
    ]

get-put_account_data :
    (k : String) (d acc : Dict AccountData)
    → IsAccountMap d
    → get k (put_account_data acc (values d)) ≡ or_else (get k d) (get k acc)
unfolding put_account_data get
get-put_account_data k [] acc h = refl
get-put_account_data k ((j, a) ∷ d) acc h =
    ground
      (arith, get-put_account_data k d (put a.type a acc) h.2, get-put a.type k a acc, eq_iff j k)

-- The parts of the reload.
module _ (max : ℕ) (room : String) (r : JoinedRoom) (c : IsConsistent r) where
  reload_events : events_of (reload max room r).timeline ≡ events_of r.timeline
  unfolding reload append_timeline
  reload_events =
      let (token, events) = emit none [] r.timeline in
      ap events_of (prune-entries max token events)
      ∙ events_of-entries token events
      ∙ emit-StartsWithToken r.timeline c.starts

  reload_state :
      (t k : String)
      → lookup_state t k (reload max room r).current_state ≡ lookup_state t k r.current_state
  unfolding reload
  reload_state t k =
      let events : List Event = (emit none [] r.timeline).1 in
      let all : events ≡ events_of r.timeline = emit-StartsWithToken r.timeline c.starts in
      let rolled = roll_back events in
      let exported = export_state rolled r.current_state in
      let loaded = lookup_state-set_all t k (set_all [] exported) events in
      elim (Option-cases (last_state t k events)) [
        | inr (e, h) ↦ loaded ∙ cc (h, c.agrees t k e (rw (← all) h))
        | inl h ↦ ground (
          arith,
          loaded,
          lookup_state-set_all t k [] exported,
          lookup_state-nil t k,
          last_state-export_state rolled (λ s j e. roll_back-slot s j events e) t k r.current_state
              c.state,
          roll_back-none t k events h,
        )
      ]

  reload_account : (k : String) → get k (reload max room r).account_data ≡ get k r.account_data
  unfolding reload get
  reload_account k = ground (arith, get-put_account_data k r.account_data [] c.account)

-- What a client can read of a joined room.
pub record SameRoom (a b : JoinedRoom) : Type 0 where
  pub state : (t k : String) → lookup_state t k a.current_state ≡ lookup_state t k b.current_state
  pub events : events_of a.timeline ≡ events_of b.timeline
  pub unread : a.unread_notifications ≡ b.unread_notifications
  pub account : (k : String) → get k a.account_data ≡ get k b.account_data
  pub receipts : (u : String) → get u a.read_receipts ≡ get u b.read_receipts

-- From a consistent room, exporting it by `getJSON` and accumulating the export from nothing gives
-- a room with the same state event at every type and key, the same timeline events in order, the
-- same unread counts, the same account data of every type and the same read receipt of every user.
pub reload-SameRoom :
    (max : ℕ) (room : String) (r : JoinedRoom) → IsConsistent r → SameRoom (reload max room r) r
unfolding reload
reload-SameRoom max room r c = record {
  state = reload_state max room r c;
  events = reload_events max room r c;
  unread = refl;
  account = reload_account max room r c;
  receipts = λ u. get-put_ephemeral-export_receipts room u r.read_receipts c.receipts;
}
