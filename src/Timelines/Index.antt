-- ===== src/Timelines/Index.antt =====
-- `TimelineIndex` of timeline-window.js. The index counts from the timeline's base index.
use matrix_js_sdk.Base.{
  ℕ, zero, suc, Bool, true, false, Option, none, some, List, length, get_elem?,
}
use matrix_js_sdk.Base.Int.{ℤ, pos, negsuc, ◌+ℤ◌, ◌-ℤ◌, neg, ltb_ℤ, min_ℤ, max_ℤ}
use matrix_js_sdk.Timelines.Timeline.{
  Timeline, Direction, backwards, forwards, get_neighbouring_timeline,
}

pub record TimelineIndex : Type 0 where
  pub timeline : ℕ
  pub index : ℤ

unfoldable pub min_index : Timeline → ℤ
min_index t = neg (pos t.base_index)

unfoldable pub max_index : Timeline → ℤ
max_index t = pos (length t.events) -ℤ pos t.base_index

-- `Math.max(delta, minIndex - index)` or `Math.min(delta, maxIndex - index)`
unfoldable pub capped_delta : ℤ → Timeline → ℤ → ℤ
unfolding min_index max_index
capped_delta (pos d) t index = min_ℤ (pos d) (max_index t -ℤ index)
capped_delta (negsuc d) t index = max_ℤ (negsuc d) (min_index t -ℤ index)

abbrev pub is_zero : ℤ → Bool
is_zero (pos zero) = true
is_zero _ = false

abbrev pub is_room : ℤ → ℤ → Bool
is_room (pos d) capped = ltb_ℤ (pos 0) capped
is_room (negsuc d) capped = ltb_ℤ capped (pos 0)

abbrev pub direction_of : ℤ → Direction
direction_of (pos d) = forwards
direction_of (negsuc d) = backwards

-- where the index enters a neighbour
abbrev pub entry : ℤ → Timeline → ℤ
entry (pos d) t = min_index t
entry (negsuc d) t = max_index t

-- `advance(delta)`, on fuel: how far it went, and the index. `none` is the fuel running out, or a
-- timeline that is not there.
unfoldable pub advance : ℕ → List Timeline → ℤ → TimelineIndex → Option (ℤ × TimelineIndex)
advance zero ts delta i = none
advance (suc fuel) ts delta i = elim (is_zero delta) [
  | true ↦ some (pos 0, i)
  | false ↦ elim (get_elem? ts i.timeline) [
    | none ↦ none
    | some t ↦
        let capped = capped_delta delta t i.index in
        elim (is_room delta capped) [
          | true ↦ some (capped, record { timeline = i.timeline; index = i.index +ℤ capped })
          | false ↦ elim (get_neighbouring_timeline (direction_of delta) t) [
            | none ↦ some (pos 0, i)
            | some n ↦ elim (get_elem? ts n) [
              | none ↦ none
              | some u ↦ advance fuel ts delta (record { timeline = n; index = entry delta u })
            ]
          ]
        ]
  ]
]

abbrev pub negated : Option (ℤ × TimelineIndex) → Option (ℤ × TimelineIndex)
negated none = none
negated (some (k, i)) = some (neg k, i)

unfoldable pub retreat : ℕ → List Timeline → ℤ → TimelineIndex → Option (ℤ × TimelineIndex)
unfolding advance
retreat fuel ts delta i = negated (advance fuel ts (neg delta) i)
