-- ===== src/Timelines/Openings.antt =====
-- `initFields` of timeline-window.js on a timeline of a chain, and the events that an index keeps when
-- `addEvent` of models/event-timeline.js puts one in.
use mathlib.Core.Path.{subst}
use matrix_js_sdk.Base.{
  ℕ, zero, suc, ◌+◌, ◌-◌, ◌≤◌, ◌<◌, ◌≡◌, refl, ap, ◌∙◌, ◌⊎◌, inl, inr, String, Bool, true, false,
  Option, none, some, List, [], ◌∷◌, ◌++◌, arith, length, get_elem?, take, str_eq, leb,
  Option-cases, Bool-cases,
}
use matrix_js_sdk.Base.Int.{ℤ, pos, negsuc, ◌+ℤ◌, ◌-ℤ◌}
use matrix_js_sdk.Timelines.Timeline.{Event, Timeline, add_event}
use matrix_js_sdk.Timelines.Chain.{total}
use matrix_js_sdk.Timelines.Window.{
  Window, done, place_of, event_index, initial_size, half_up, end_index, init_fields,
}
use matrix_js_sdk.Timelines.Standing.{at_offset}
use matrix_js_sdk.Timelines.Trims.{pos_sub}
use matrix_js_sdk.Timelines.Places.{IsWindow}
use matrix_js_sdk.Timelines.Contents.{event_at}

size_positive : (wanted : Option ℕ) → 0 < initial_size wanted
size_positive none = omega arith
size_positive (some zero) = omega arith
size_positive (some (suc n)) = omega arith

half_up_bounds : (n : ℕ) → (n ≤ half_up n + half_up n) × (half_up n + half_up n ≤ suc n)
half_up_bounds zero = (omega arith, omega arith)
half_up_bounds (suc zero) = (omega arith, omega arith)
half_up_bounds (suc (suc n)) = let (a, b) = half_up_bounds n in (omega arith, omega arith)

-- an index that is counted from the base
from_base : (a b : ℕ) → (pos a -ℤ pos b) +ℤ pos b ≡ pos a
unfolding ◌+ℤ◌ ◌-ℤ◌
from_base a b = ground arith

place_of_within :
    (id : String) (es : List Event) (i : ℕ)
    → place_of id es ≡ some i
    → (i < length es) × (e : Event) × (get_elem? es i ≡ some e) × (str_eq e.id id ≡ true)
unfolding place_of
place_of_within id [] i h = cc
place_of_within id (e ∷ es) i h = elim (Bool-cases (str_eq e.id id)) [
  | inl match ↦ let i0 : i ≡ 0 = ground arith in rw i0 (omega arith, e, refl, match)
  | inr other ↦ elim (Option-cases (place_of id es)) [
    | inl missing ↦ absurd (ground arith)
    | inr (j, there) ↦
        let (lt, f, at, match) = place_of_within id es j there in
        let is : i ≡ suc j = ground arith in rw is (omega arith, f, at, match)
  ]
]

end_index_bounds :
    (size index count : ℕ)
    → 0 < size
    → index ≤ count
    → (end_index size index count ≤ count)
      × (end_index size index count ≤ index + size)
      × (index ≤ end_index size index count)
      × ((index ≡ count) ⊎ (index < end_index size index count))
end_index_bounds size index count positive le =
    let (a, b) = half_up_bounds size in
    (ground arith, ground (arith, a, b), ground arith, ground (arith, a, b))

-- the window that `initFields` makes around an index
opened :
    (ts : List Timeline) (c : List ℕ) (i n : ℕ) (t : Timeline) (size to : ℕ) (w : Window)
    → get_elem? c i ≡ some n
    → get_elem? ts n ≡ some t
    → to ≤ length t.events
    → IsWindow ts c
        (record w {
          start = some (record { timeline = n; index = pos (to - size) -ℤ pos t.base_index });
          end = some (record { timeline = n; index = pos to -ℤ pos t.base_index });
          event_count = pos to -ℤ pos (to - size);
        })
        (total ts (take i c) + (to - size))
        (total ts (take i c) + to)
opened ts c i n t size to w on found le = record {
  first = record { timeline = n; index = pos (to - size) -ℤ pos t.base_index };
  last = record { timeline = n; index = pos to -ℤ pos t.base_index };
  starts = refl;
  ends = refl;
  lower =
      at_offset ts c n i (to - size) _ _ t refl on found (from_base (to - size) t.base_index)
        (omega arith);
  upper = at_offset ts c n i to _ _ t refl on found (from_base to t.base_index) le;
  ordered = omega arith;
  le = omega arith;
  counted = pos_sub to (to - size) (omega arith) ∙ ap pos (omega arith);
}

module _ (ts : List Timeline) (c : List ℕ) (wanted : Option ℕ) (i n : ℕ) (t : Timeline) (w : Window)
    (on : get_elem? c i ≡ some n) (found : get_elem? ts n ≡ some t) where
  init_fields_at :
      (id : Option String) (index : ℕ)
      → event_index id t.events ≡ some index
      → index ≤ length t.events
      → (first to : ℕ) × (w' : Window) × (init_fields id wanted n t w ≡ done w')
        × IsWindow ts c w' (total ts (take i c) + first) (total ts (take i c) + to)
        × (to ≤ first + initial_size wanted)
        × (first ≤ index)
        × (index ≤ to)
        × (to ≤ length t.events)
        × ((index ≡ length t.events) ⊎ (index < to))
  unfolding init_fields
  init_fields_at id index e le =
      let to = end_index (initial_size wanted) index (length t.events) in
      let (a, b, d, f) =
        end_index_bounds (initial_size wanted) index (length t.events) (size_positive wanted) le in
      (
        to - initial_size wanted,
        to,
        _,
        rw (e, init_fields) refl,
        opened ts c i n t (initial_size wanted) to w on found a,
        omega arith,
        omega arith,
        d,
        a,
        f,
      )

  -- If the timeline number `n`, which is in the chain, has an event of the id, `initFields` makes a
  -- window of the chain, of at most the size that is asked for, that has the event in it.
  pub init_fields-IsWindow_event :
      (id : String) (index : ℕ)
      → event_index (some id) t.events ≡ some index
      → (first to : ℕ) × (w' : Window) × (e : Event) × (init_fields (some id) wanted n t w
          ≡ done w')
        × IsWindow ts c w' (total ts (take i c) + first) (total ts (take i c) + to)
        × (to ≤ first + initial_size wanted)
        × (first ≤ index)
        × (index < to)
        × (get_elem? t.events index ≡ some e)
        × (str_eq e.id id ≡ true)
  unfolding event_index
  init_fields-IsWindow_event id index h =
      let (lt, e, at, match) = place_of_within id t.events index h in
      let (first, to, w', went, valid, size, low, high, end, inside) =
        init_fields_at (some id) index h (omega arith) in
      (first, to, w', e, went, valid, size, low, omega arith, at, match)

  -- Without an id, `initFields` on a timeline in the chain makes a window of the chain that ends with
  -- the timeline's last event and has at most the size that is asked for.
  pub init_fields-IsWindow_live :
      (first : ℕ) × (w' : Window) × (init_fields none wanted n t w ≡ done w')
      × IsWindow ts c w' (total ts (take i c) + first) (total ts (take i c) + length t.events)
      × (length t.events ≤ first + initial_size wanted)
  unfolding event_index
  init_fields-IsWindow_live =
      let (first, to, w', went, valid, size, low, high, end, inside) =
        init_fields_at none (length t.events) refl (omega arith) in
      let all_of_it : to ≡ length t.events = omega arith in
      (
        first,
        w',
        went,
        subst (λ x. IsWindow ts c w' (total ts (take i c) + first) (total ts (take i c) + x))
            all_of_it valid,
        omega arith,
      )

-- the event that an index of the timeline is before
abbrev pub event_of : Timeline → ℤ → Option Event
event_of t k = event_at t.events (k +ℤ pos t.base_index)

-- an index that the base makes a place, or does not
sum_cases :
    (k : ℤ) (b : ℕ)
    → ((i : ℕ) × (k +ℤ pos b ≡ pos i) × (k +ℤ pos (b + 1) ≡ pos (suc i)))
      ⊎ ((i : ℕ) × (k +ℤ pos b ≡ negsuc i))
unfolding ◌+ℤ◌
sum_cases (pos k) b = inl (k + b, ground arith, ground arith)
sum_cases (negsuc k) b = elim (Bool-cases (leb (suc k) b)) [
  | inl fits ↦ inl (b - suc k, ground arith, ground arith)
  | inr short ↦ inr (suc k - b - 1, ground arith)
]

event_at_front :
    (e x : Event) (es : List Event) (k : ℤ) (b : ℕ)
    → event_at es (k +ℤ pos b) ≡ some x
    → event_at (e ∷ es) (k +ℤ pos (b + 1)) ≡ some x
event_at_front e x es k b h = elim (sum_cases k b) [
  | inl (i, low, high) ↦ rw (high, event_at) (subst (λ y. event_at es y ≡ some x) low h)
  | inr (i, low) ↦ absurd (cc (subst (λ y. event_at es y ≡ some x) low h))
]

event_at_back :
    (e x : Event) (es : List Event) (k : ℤ)
    → event_at es k ≡ some x
    → event_at (es ++ e ∷ []) k ≡ some x
event_at_back e x es (negsuc k) h = cc
event_at_back e x [] (pos k) h = cc
event_at_back e x (f ∷ es) (pos zero) h = h
event_at_back e x (f ∷ es) (pos (suc k)) h = event_at_back e x es (pos k) h

-- An index of a timeline that is before an event stays before that event when `addEvent` puts another
-- one in, at the start or at the end.
pub add_event-event_of :
    (unfiltered at_start : Bool) (e x : Event) (t : Timeline) (k : ℤ)
    → event_of t k ≡ some x
    → event_of (add_event unfiltered e at_start t) k ≡ some x
unfolding add_event
add_event-event_of unfiltered true e x t k h = event_at_front e x t.events k t.base_index h
add_event-event_of unfiltered false e x t k h = event_at_back e x t.events (k +ℤ pos t.base_index) h
