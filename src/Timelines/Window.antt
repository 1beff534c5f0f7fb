-- ===== src/Timelines/Window.antt =====
-- `TimelineWindow` of timeline-window.js. Where the source throws, the outcome is `thrown`; where
-- the fuel runs out, or a timeline is not there, it is `stuck`.
use matrix_js_sdk.Base.{
  ℕ, zero, suc, ◌+◌, ◌-◌, String, Bool, true, false, ◌||◌, Option, none, some, List, [], ◌∷◌,
  if◌then◌else◌, is_some, length, get_elem?, str_eq, ltb, truthy,
}
use matrix_js_sdk.Base.Int.{ℤ, pos, pos_part, ◌+ℤ◌, ◌-ℤ◌, ltb_ℤ}
use matrix_js_sdk.Timelines.Timeline.{
  Event, Timeline, Direction, backwards, forwards, get_neighbouring_timeline, get_pagination_token,
}
use matrix_js_sdk.Timelines.Index.{TimelineIndex, min_index, max_index, is_zero, advance, retreat}

pub data Outcome {ℓ} (A : Type ℓ) : Type ℓ where
  done : A → Outcome A
  thrown stuck : Outcome A

pub record Window : Type 0 where
  pub start : Option TimelineIndex
  pub end : Option TimelineIndex
  pub event_count : ℤ
  pub window_limit : ℕ

-- the limit of the options, if there is one and it is not 0
abbrev pub limit_of : Option ℕ → ℕ
limit_of (some (suc n)) = suc n
limit_of _ = 1000

abbrev pub new_window : Option ℕ → Window
new_window limit = record {
  start = none;
  end = none;
  event_count = pos 0;
  window_limit = limit_of limit;
}

-- the first event of the id
unfoldable pub place_of : String → List Event → Option ℕ
place_of id [] = none
place_of id (e ∷ es) =
    let rest = place_of id es in
    if str_eq e.id id then some 0 else elim rest [ none ↦ none | some i ↦ some (suc i) ]

-- the middle of the window: the end of the live timeline, or the event
unfoldable pub event_index : Option String → List Event → Option ℕ
unfolding place_of
event_index none events = some (length events)
event_index (some id) events = place_of id events

-- the size that is asked for, if there is one and it is not 0
abbrev pub initial_size : Option ℕ → ℕ
initial_size (some (suc n)) = suc n
initial_size _ = 20

-- the rounded up half
abbrev pub half_up : ℕ → ℕ
half_up zero = 0
half_up (suc zero) = 1
half_up (suc (suc n)) = suc (half_up n)

abbrev pub end_index : ℕ → ℕ → ℕ → ℕ
end_index size index count =
    if ltb count (index + half_up size) then count else index + half_up size

-- `initFields` on the timeline number `n`
unfoldable pub init_fields : Option String → Option ℕ → ℕ → Timeline → Window → Outcome Window
unfolding event_index
init_fields id wanted n t w = elim (event_index id t.events) [
  | none ↦ thrown
  | some index ↦
      let size = initial_size wanted in
      let to = end_index size index (length t.events) in
      done (record w {
        start = some (record { timeline = n; index = pos (to - size) -ℤ pos t.base_index });
        end = some (record { timeline = n; index = pos to -ℤ pos t.base_index });
        event_count = pos to -ℤ pos (to - size);
      })
]

abbrev pub get_timeline_index : Direction → Window → Option TimelineIndex
get_timeline_index backwards w = w.start
get_timeline_index forwards w = w.end

abbrev pub with_index : Direction → TimelineIndex → Window → Window
with_index backwards ix w = record w { start = some ix }
with_index forwards ix w = record w { end = some ix }

-- `advance` of the start, or `retreat` of the end
abbrev pub inwards : Direction → ℕ → List Timeline → ℤ → TimelineIndex → Option (ℤ × TimelineIndex)
inwards backwards = advance
inwards forwards = retreat

-- `retreat` of the start, or `advance` of the end
abbrev pub outwards : Direction → ℕ → List Timeline → ℤ → TimelineIndex → Option (ℤ × TimelineIndex)
outwards backwards = retreat
outwards forwards = advance

abbrev pub opposite : Direction → Direction
opposite backwards = forwards
opposite forwards = backwards

-- the loop of `unpaginate`, of at most `steps` rounds
unfoldable pub drop_events :
    (steps fuel : ℕ) → List Timeline → Direction → ℤ → Window → Outcome Window
drop_events zero fuel ts d delta w = stuck
drop_events (suc steps) fuel ts d delta w = elim (ltb_ℤ (pos 0) delta) [
  | false ↦ done w
  | true ↦ elim (get_timeline_index d w) [
    | none ↦ thrown
    | some tl ↦ elim (inwards d fuel ts delta tl) [
      | none ↦ stuck
      | some (count, moved) ↦ elim (ltb_ℤ (pos 0) count) [
        | false ↦ thrown
        | true ↦
            drop_events steps fuel ts d (delta -ℤ count)
              (record (with_index d moved w) { event_count = w.event_count -ℤ count })
      ]
    ]
  ]
]

-- `unpaginate(delta, startOfTimeline)`: the direction is the side the events go from
unfoldable pub unpaginate : ℕ → List Timeline → ℤ → Direction → Window → Outcome Window
unfolding drop_events
unpaginate fuel ts delta d w =
    if ltb_ℤ w.event_count delta || ltb_ℤ delta (pos 0)
    then thrown
    else drop_events (suc (pos_part delta)) fuel ts d delta w

abbrev pub with_success : Outcome Window → Outcome (Bool × Window)
with_success (done w) = done (true, w)
with_success thrown = thrown
with_success stuck = stuck

-- what `extend` does about the limit
unfoldable pub within_limit : ℕ → List Timeline → Direction → Window → Outcome Window
unfolding unpaginate
within_limit fuel ts d w =
    let excess = w.event_count -ℤ pos w.window_limit in
    elim (ltb_ℤ (pos 0) excess) [ false ↦ done w | true ↦ unpaginate fuel ts excess (opposite d) w ]

-- `extend` once the index has moved by `count`
unfoldable pub extended : ℕ → List Timeline → Direction → ℤ → Window → Outcome (Bool × Window)
unfolding within_limit
extended fuel ts d count w = elim (is_zero count) [
  | true ↦ done (false, w)
  | false ↦
      with_success (within_limit fuel ts d (record w { event_count = w.event_count +ℤ count }))
]

unfoldable pub extend : ℕ → List Timeline → Direction → ℤ → Window → Outcome (Bool × Window)
unfolding extended
extend fuel ts d size w = elim (get_timeline_index d w) [
  | none ↦ done (false, w)
  | some tl ↦ elim (outwards d fuel ts size tl) [
    | none ↦ stuck
    | some (count, moved) ↦ extended fuel ts d count (with_index d moved w)
  ]
]

-- whether the index is short of the end of its timeline
abbrev pub is_short : Direction → ℤ → Timeline → Bool
is_short backwards index t = ltb_ℤ (min_index t) index
is_short forwards index t = ltb_ℤ index (max_index t)

-- `canPaginate`; `none` is a timeline that is not there
unfoldable pub can_paginate : List Timeline → Direction → Window → Option Bool
can_paginate ts d w = elim (get_timeline_index d w) [
  | none ↦ some false
  | some tl ↦ elim (get_elem? ts tl.timeline) [
    | none ↦ none
    | some t ↦ some (
        is_short d tl.index t
        || is_some (get_neighbouring_timeline d t)
        || truthy (get_pagination_token d t))
  ]
]
