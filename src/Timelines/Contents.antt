-- ===== src/Timelines/Contents.antt =====
-- `getEvents` of timeline-window.js. A place of a timeline that has no event yields `none`, as an
-- index out of range yields `undefined`.
use matrix_js_sdk.Base.{
  ℕ, zero, suc, true, false, Option, none, some, List, [], ◌∷◌, ◌++◌, length, get_elem?, ◌==◌,
  if◌then◌else◌,
}
use matrix_js_sdk.Base.Int.{ℤ, pos, negsuc, pos_part, ◌+ℤ◌, ◌-ℤ◌}
use matrix_js_sdk.Timelines.Timeline.{Event, Timeline}
use matrix_js_sdk.Timelines.Index.{TimelineIndex}
use matrix_js_sdk.Timelines.Window.{Window, Outcome, done, thrown, stuck}

abbrev pub event_at : List Event → ℤ → Option Event
event_at events (pos i) = get_elem? events i
event_at events (negsuc i) = none

-- `count` places from an index on
unfoldable pub copied : List Event → ℤ → (count : ℕ) → List (Option Event)
copied events index zero = []
copied events index (suc count) = event_at events index ∷ copied events (index +ℤ pos 1) count

abbrev pub first_index : TimelineIndex → ℕ → Timeline → ℤ
first_index start n t = if n == start.timeline then start.index +ℤ pos t.base_index else pos 0

abbrev pub last_index : TimelineIndex → ℕ → Timeline → ℤ
last_index end n t =
    if n == end.timeline then end.index +ℤ pos t.base_index else pos (length t.events)

-- what one timeline gives
unfoldable pub events_between : TimelineIndex → TimelineIndex → ℕ → Timeline → List (Option Event)
unfolding copied
events_between start end n t =
    copied t.events (first_index start n t) (pos_part (last_index end n t -ℤ first_index start n t))

abbrev pub prepend :
    List (Option Event) → Outcome (List (Option Event)) → Outcome (List (Option Event))
prepend es (done rest) = done (es ++ rest)
prepend es thrown = thrown
prepend es stuck = stuck

-- the loop of `getEvents`, from the timeline number `n` on, on fuel
unfoldable pub events_from :
    ℕ → List Timeline → TimelineIndex → TimelineIndex → ℕ → Outcome (List (Option Event))
unfolding events_between
events_from zero ts start end n = stuck
events_from (suc fuel) ts start end n = elim (get_elem? ts n) [
  | none ↦ stuck
  | some t ↦ elim (n == end.timeline) [
    | true ↦ done (events_between start end n t)
    | false ↦ elim t.next_timeline [
      | none ↦ thrown
      | some next ↦ prepend (events_between start end n t) (events_from fuel ts start end next)
    ]
  ]
]

-- a window with a start and no end throws
unfoldable pub get_events : ℕ → List Timeline → Window → Outcome (List (Option Event))
unfolding events_from
get_events fuel ts w = elim w.start [
  | none ↦ done []
  | some start ↦ elim w.end [
    | none ↦ thrown
    | some end ↦ events_from fuel ts start end start.timeline
  ]
]
