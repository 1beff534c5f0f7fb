-- ===== src/Timelines/Chain.antt =====
-- Timelines that are joined up, and places in the sequence of all their events.
use Prim.Native.Nat.{min}
use matrix_js_sdk.Base.{
  ℕ, zero, suc, ◌+◌, ◌-◌, ◌≤◌, ◌<◌, ◌≡◌, refl, Option, none, some, List, [], ◌∷◌, ◌++◌, arith,
  length, get_elem?, take,
}
use matrix_js_sdk.Base.Int.{ℤ, pos, negsuc, ◌+ℤ◌, ◌-ℤ◌, neg}
use matrix_js_sdk.Timelines.Timeline.{Event, Timeline}
use matrix_js_sdk.Timelines.Index.{TimelineIndex, min_index, max_index, capped_delta}

abbrev pub events_at : List Timeline → ℕ → List Event
events_at ts n = elim (get_elem? ts n) [ none ↦ [] | some t ↦ t.events ]

-- the events of a chain of timelines, in order
abbrev pub all_events : List Timeline → List ℕ → List Event
all_events ts [] = []
all_events ts (n ∷ c) = events_at ts n ++ all_events ts c

abbrev pub total : List Timeline → List ℕ → ℕ
total ts [] = 0
total ts (n ∷ c) = length (events_at ts n) + total ts c

abbrev pub before : List ℕ → ℕ → Option ℕ
before c zero = none
before c (suc i) = get_elem? c i

-- The timelines of `c` are there, each joined to the next and to the one before, and the first and
-- the last to nothing else.
abbrev pub IsChain : List Timeline → List ℕ → Type 0
IsChain ts c =
    (i n : ℕ)
    → get_elem? c i ≡ some n
    → (t : Timeline) × (get_elem? ts n ≡ some t)
      × (t.next_timeline ≡ get_elem? c (suc i))
      × (t.prev_timeline ≡ before c i)

-- The index is before the event number `offset` of the timeline at `place` of the chain.
pub record IsAt (ts : List Timeline) (c : List ℕ) (ix : TimelineIndex) (place offset : ℕ)
    (t : Timeline) : Type 0 where
  pub on : get_elem? c place ≡ some ix.timeline
  pub found : get_elem? ts ix.timeline ≡ some t
  pub shift : ix.index +ℤ pos t.base_index ≡ pos offset
  pub within : offset ≤ length t.events

-- how many events of the chain are before an index
abbrev pub position : List Timeline → List ℕ → ℕ → ℕ → ℕ
position ts c place offset = total ts (take place c) + offset

pub total-take-suc :
    (ts : List Timeline) (c : List ℕ) (i n : ℕ)
    → get_elem? c i ≡ some n
    → total ts (take (suc i) c) ≡ total ts (take i c) + length (events_at ts n)
total-take-suc ts [] i n e = cc
total-take-suc ts (m ∷ c) zero n e = ground arith
total-take-suc ts (m ∷ c) (suc i) n e = omega (arith, total-take-suc ts c i n e)

pub total-take_all :
    (ts : List Timeline) (c : List ℕ) (i : ℕ)
    → get_elem? c i ≡ none
    → total ts (take i c) ≡ total ts c
total-take_all ts [] zero e = refl
total-take_all ts [] (suc i) e = refl
total-take_all ts (m ∷ c) zero e = cc
total-take_all ts (m ∷ c) (suc i) e = omega (arith, total-take_all ts c i e)

pub lt_of_get_elem? : (c : List ℕ) (i n : ℕ) → get_elem? c i ≡ some n → i < length c
lt_of_get_elem? [] i n e = cc
lt_of_get_elem? (m ∷ c) zero n e = omega arith
lt_of_get_elem? (m ∷ c) (suc i) n e = omega (arith, lt_of_get_elem? c i n e)

module _ (t : Timeline) (index : ℤ) (o : ℕ) (shift : index +ℤ pos t.base_index ≡ pos o)
    (within : o ≤ length t.events) where
  room_after : max_index t -ℤ index ≡ pos (length t.events - o)
  unfolding max_index ◌+ℤ◌ ◌-ℤ◌
  room_after = ground arith

  room_before : min_index t -ℤ index ≡ neg (pos o)
  unfolding min_index ◌+ℤ◌ ◌-ℤ◌
  room_before = ground arith

  pub capped_forward : (d : ℕ) → capped_delta (pos d) t index ≡ pos (min d (length t.events - o))
  unfolding capped_delta
  capped_forward d = ground (arith, room_after)

  pub capped_backward : (d : ℕ) → capped_delta (negsuc d) t index ≡ neg (pos (min (suc d) o))
  unfolding capped_delta
  capped_backward d = ground (arith, room_before)
