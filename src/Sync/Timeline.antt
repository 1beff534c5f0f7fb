-- ===== src/Sync/Timeline.antt =====
-- The timeline of a joined room in sync-accumulator.js: the append, the pruning and the part that
-- `getJSON` emits.
use matrix_js_sdk.Base.{
  ℕ, ◌-◌, String, ◌≡◌, Bool, true, Option, none, some, List, [], ◌∷◌, ◌++◌, map, ltb, truthy,
  if◌then◌else◌, length, drop, any,
}
use matrix_js_sdk.Sync.Response.{Event}

-- `{event: e, token: …}`
pub record Entry : Type 0 where
  pub event : Event
  pub token : Option String

-- `_timeline.push({event: e, token: index === 0 ? prev_batch : null})` for each event
unfoldable pub entries : Option String → List Event → List Entry
entries token [] = []
entries token (e ∷ es) = record { event = e; token = token } ∷ entries none es

-- The loop of the pruning: the rest from the first entry with a token.
unfoldable pub from_token : List Entry → Option (List Entry)
from_token [] = none
from_token (x ∷ xs) = if truthy x.token then some (x ∷ xs) else from_token xs

unfoldable pub prune : ℕ → List Entry → List Entry
unfolding from_token
prune max timeline =
    if ltb max (length timeline)
    then (elim (from_token (drop (length timeline - max) timeline)) [
      | none ↦ timeline
      | some rest ↦ rest
    ])
    else timeline

-- The loop of `getJSON` over the timeline, from what `prev_batch` and `events` are so far.
unfoldable pub emit : Option String → List Event → List Entry → Option String × List Event
emit prev_batch events [] = (prev_batch, events)
emit prev_batch events (x ∷ xs) =
    let next : Option String × List Event =
      if truthy prev_batch
      then (prev_batch, events ++ x.event ∷ [])
      else if truthy x.token
      then (x.token, events ++ x.event ∷ [])
      else (prev_batch, events) in
    emit next.0 next.1 xs

abbrev pub has_token : List Entry → Bool
has_token = any (λ x. truthy x.token)

-- the first entry has a token
abbrev pub StartsWithToken : List Entry → Type 0
StartsWithToken [] = Unit
StartsWithToken (x ∷ xs) = truthy x.token ≡ true

abbrev pub events_of : List Entry → List Event
events_of = map (λ x. x.event)

-- non-empty, with a token on its first entry
abbrev pub HasTokenHead : List Entry → Type 0
HasTokenHead [] = ⊥
HasTokenHead (x ∷ xs) = truthy x.token ≡ true
