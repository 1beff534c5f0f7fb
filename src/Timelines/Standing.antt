-- ===== src/Timelines/Standing.antt =====
-- Indexes that stand in a chain of timelines, and the steps of `advance` of timeline-window.js.
use matrix_js_sdk.Base.{
  ℕ, suc, ◌+◌, ◌≤◌, ◌≡◌, refl, ap, ◌∙◌, true, false, none, some, List, arith, length, get_elem?,
}
use matrix_js_sdk.Base.Int.{ℤ, pos, pos_part, neg_part, ◌+ℤ◌, ◌-ℤ◌, +ℤ_parts, eq_of_parts}
use matrix_js_sdk.Timelines.Timeline.{Timeline, get_neighbouring_timeline}
use matrix_js_sdk.Timelines.Index.{
  TimelineIndex, min_index, max_index, capped_delta, is_zero, is_room, direction_of, entry, advance,
}
use matrix_js_sdk.Timelines.Chain.{events_at, IsAt, position}

-- The index stands behind the first `p` events of the chain.
pub record StandsAt (ts : List Timeline) (c : List ℕ) (ix : TimelineIndex) (p : ℕ) : Type 0 where
  pub place : ℕ
  pub offset : ℕ
  pub timeline : Timeline
  pub at : IsAt ts c ix place offset timeline
  pub here : position ts c place offset ≡ p

module _ (ts : List Timeline) (delta : ℤ) (ix : TimelineIndex) (t : Timeline)
    (more : is_zero delta ≡ false) (found : get_elem? ts ix.timeline ≡ some t) where
  pub advance-room :
      (fuel : ℕ) (capped : ℤ)
      → capped_delta delta t ix.index ≡ capped
      → is_room delta capped ≡ true
      → advance (suc fuel) ts delta ix
        ≡ some (capped, record { timeline = ix.timeline; index = ix.index +ℤ capped })
  unfolding advance
  advance-room fuel capped e r =
      let r' : is_room delta (capped_delta delta t ix.index) ≡ true = ap (is_room delta) e ∙ r in
      rw (more, found, r', advance)
        (ap (λ x. some (x, record { timeline = ix.timeline; index = ix.index +ℤ x })) e)

  pub advance-end :
      (fuel : ℕ) (capped : ℤ)
      → capped_delta delta t ix.index ≡ capped
      → is_room delta capped ≡ false
      → get_neighbouring_timeline (direction_of delta) t ≡ none
      → advance (suc fuel) ts delta ix ≡ some (pos 0, ix)
  unfolding advance
  advance-end fuel capped e r n = rw (more, found, e, r, n, advance) refl

  pub advance-next :
      (fuel : ℕ) (capped : ℤ) (n : ℕ) (u : Timeline)
      → capped_delta delta t ix.index ≡ capped
      → is_room delta capped ≡ false
      → get_neighbouring_timeline (direction_of delta) t ≡ some n
      → get_elem? ts n ≡ some u
      → advance (suc fuel) ts delta ix
        ≡ advance fuel ts delta (record { timeline = n; index = entry delta u })
  unfolding advance
  advance-next fuel capped n u e r nb g = rw (more, found, e, r, nb, g, advance) refl

-- In the range of a timeline the index stands where its offset says.
abbrev pub at_offset :
    (ts : List Timeline) (c : List ℕ) (n place o p : ℕ) (index : ℤ) (t : Timeline)
    → position ts c place o ≡ p
    → get_elem? c place ≡ some n
    → get_elem? ts n ≡ some t
    → index +ℤ pos t.base_index ≡ pos o
    → o ≤ length t.events
    → StandsAt ts c (record { timeline = n; index = index }) p
at_offset ts c n place o p index t here on found shift within = record {
  place = place;
  offset = o;
  timeline = t;
  at = record { on = on; found = found; shift = shift; within = within };
  here = here;
}

-- the index after a move within a timeline
pub shifted :
    (index move : ℤ) (base o q : ℕ)
    → index +ℤ pos base ≡ pos o
    → pos_part move + o ≡ neg_part move + q
    → (index +ℤ move) +ℤ pos base ≡ pos q
shifted index move base o q e m =
    let sum = +ℤ_parts index (pos base) in
    eq_of_parts _ _ (
      omega (
        arith,
        +ℤ_parts (index +ℤ move) (pos base),
        +ℤ_parts index move,
        ap pos_part e,
        ap neg_part e,
        sum,
      ))

pub entry_start : (t : Timeline) → min_index t +ℤ pos t.base_index ≡ pos 0
unfolding min_index ◌+ℤ◌
entry_start t = ground arith

pub entry_end : (t : Timeline) → max_index t +ℤ pos t.base_index ≡ pos (length t.events)
unfolding max_index ◌+ℤ◌ ◌-ℤ◌
entry_end t = ground arith

-- The events of the timeline at a place, as the chain counts them.
pub size_at :
    (ts : List Timeline) (n : ℕ) (t : Timeline)
    → get_elem? ts n ≡ some t
    → length (events_at ts n) ≡ length t.events
size_at ts n t e = rw (e, events_at, length) refl
