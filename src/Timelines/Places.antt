-- ===== src/Timelines/Places.antt =====
-- Places of indexes in one chain of timelines, and the windows between them.
use matrix_js_sdk.Base.{
  ℕ, zero, suc, ◌+◌, ◌-◌, ◌≤◌, ◌<◌, ◌≡◌, refl, ◌⊎◌, inl, inr, some, List, [], ◌∷◌, arith, length,
  take, leb, Bool-cases,
}
use matrix_js_sdk.Base.Int.{pos}
use matrix_js_sdk.Timelines.Timeline.{Timeline}
use matrix_js_sdk.Timelines.Index.{TimelineIndex}
use matrix_js_sdk.Timelines.Chain.{total, total-take-suc}
use matrix_js_sdk.Timelines.Standing.{StandsAt, size_at}
use matrix_js_sdk.Timelines.Window.{Window}

total-take_nil : (ts : List Timeline) (i : ℕ) → total ts (take i []) ≡ 0
total-take_nil ts zero = refl
total-take_nil ts (suc i) = refl

pub total-take_mono :
    (ts : List Timeline) (c : List ℕ) (i j : ℕ) → i ≤ j → total ts (take i c) ≤ total ts (take j c)
total-take_mono ts [] i j le = omega (arith, total-take_nil ts i, total-take_nil ts j)
total-take_mono ts (m ∷ c) zero j le = omega arith
total-take_mono ts (m ∷ c) (suc i) zero le = absurd (omega arith)
total-take_mono ts (m ∷ c) (suc i) (suc j) le =
    omega (arith, total-take_mono ts c i j (omega arith))

total-take_le : (ts : List Timeline) (c : List ℕ) (i : ℕ) → total ts (take i c) ≤ total ts c
total-take_le ts [] i = omega (arith, total-take_nil ts i)
total-take_le ts (m ∷ c) zero = omega arith
total-take_le ts (m ∷ c) (suc i) = omega (arith, total-take_le ts c i)

module _ {ts : List Timeline} {c : List ℕ} {ix : TimelineIndex} {p : ℕ}
    (s : StandsAt ts c ix p) where
  -- how many events the chain has up to the end of the index's timeline
  up_to_here : total ts (take (suc s.place) c) + s.offset ≡ p + length s.timeline.events
  up_to_here = omega (
    arith,
    s.here,
    total-take-suc ts c s.place ix.timeline s.at.on,
    size_at ts ix.timeline s.timeline s.at.found,
  )

  pub stands_within : p ≤ total ts c
  stands_within = omega (arith, up_to_here, total-take_le ts c (suc s.place), s.at.within)

-- Of two places of the chain the one with an event between it and the start of its timeline, or
-- between the other and the end of its timeline, is not the earlier.
module _ {ts : List Timeline} {c : List ℕ} {a b : TimelineIndex} {p q : ℕ} (s : StandsAt ts c a p)
    (e : StandsAt ts c b q) where
  pub places_ordered :
      p ≤ q → (0 < s.offset) ⊎ (e.offset < length e.timeline.events) → s.place ≤ e.place
  places_ordered le inside = elim (Bool-cases (leb s.place e.place)) [
    | inl yes_le ↦ ground arith
    | inr later ↦ absurd (
        omega (
          arith,
          up_to_here s,
          up_to_here e,
          s.here,
          e.here,
          s.at.within,
          e.at.within,
          inside,
          total-take_mono ts c (suc e.place) s.place (ground arith),
        ))
  ]

-- The window is the chain's events from behind the first `p` to behind the first `q`.
pub record IsWindow (ts : List Timeline) (c : List ℕ) (w : Window) (p q : ℕ) : Type 0 where
  pub first : TimelineIndex
  pub last : TimelineIndex
  pub starts : w.start ≡ some first
  pub ends : w.end ≡ some last
  pub lower : StandsAt ts c first p
  pub upper : StandsAt ts c last q
  pub ordered : lower.place ≤ upper.place
  pub le : p ≤ q
  pub counted : w.event_count ≡ pos (q - p)
