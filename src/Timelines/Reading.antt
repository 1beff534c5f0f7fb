-- ===== src/Timelines/Reading.antt =====
-- What `getEvents` of timeline-window.js yields for a window of a chain of timelines.
use mathlib.Core.Option.{some-injective}
use mathlib.Core.List.{map-append}
use matrix_js_sdk.Base.{
  ℕ, zero, suc, ◌+◌, ◌-◌, ◌≤◌, ◌<◌, ◌≡◌, ◌≢◌, refl, ap, sym, ◌∙◌, inl, inr, true, false, Option,
  some, List, [], ◌∷◌, ◌++◌, map, arith, length, get_elem?, take, ◌==◌, ==_iff, Bool-cases,
}
use matrix_js_sdk.Base.Int.{pos, pos_part, ◌+ℤ◌, ◌-ℤ◌}
use matrix_js_sdk.Timelines.Timeline.{Event, Timeline}
use matrix_js_sdk.Timelines.Index.{TimelineIndex}
use matrix_js_sdk.Timelines.Chain.{
  events_at, all_events, total, before, IsChain, total-take-suc, lt_of_get_elem?,
}
use matrix_js_sdk.Timelines.Window.{Window, done}
use matrix_js_sdk.Timelines.Standing.{StandsAt, size_at}
use matrix_js_sdk.Timelines.Trims.{pos_sub}
use matrix_js_sdk.Timelines.Places.{IsWindow, total-take_mono}
use matrix_js_sdk.Timelines.Slices.{slice, slice-append, slice_of_chain, copied-slice}
use matrix_js_sdk.Timelines.Contents.{
  first_index, last_index, copied, events_between, events_from, get_events,
}

-- below a place of a list there is no gap
get_below :
    (c : List ℕ) (i j n : ℕ) → get_elem? c j ≡ some n → i ≤ j → (m : ℕ) × (get_elem? c i ≡ some m)
get_below [] i j n e le = absurd (cc)
get_below (m ∷ c) zero j n e le = (m, refl)
get_below (m ∷ c) (suc i) zero n e le = absurd (omega arith)
get_below (m ∷ c) (suc i) (suc j) n e le = get_below c i j n e (omega arith)

module _ (ts : List Timeline) (c : List ℕ) (chain : IsChain ts c) where
  -- a timeline has one place in the chain
  before_same :
      (i j n : ℕ) → get_elem? c i ≡ some n → get_elem? c j ≡ some n → before c i ≡ before c j
  before_same i j n e f =
      let (t, found, _, prev) = chain i n e in
      let (t', found', _, prev') = chain j n f in
      sym prev
      ∙ ap (λ (x : Timeline). x.prev_timeline) (some-injective _ _ (sym found ∙ found'))
      ∙ prev'

  place_unique : (i j n : ℕ) → get_elem? c i ≡ some n → get_elem? c j ≡ some n → i ≡ j
  place_unique zero zero n e f = refl
  place_unique zero (suc j) n e f =
      let (m, g) = get_below c j (suc j) n f (omega arith) in
      absurd (cc (before_same zero (suc j) n e f, g))
  place_unique (suc i) zero n e f =
      let (m, g) = get_below c i (suc i) n e (omega arith) in
      absurd (cc (before_same (suc i) zero n e f, g))
  place_unique (suc i) (suc j) n e f =
      let (m, g) = get_below c i (suc i) n e (omega arith) in
      ap suc (place_unique i j m g (sym (before_same (suc i) (suc j) n e f) ∙ g))

  -- what one timeline gives, between two of its places
  between :
      (start end : TimelineIndex) (n a b : ℕ) (t : Timeline)
      → first_index start n t ≡ pos a
      → last_index end n t ≡ pos b
      → a ≤ b
      → b ≤ length t.events
      → events_between start end n t ≡ map some (slice a (b - a) t.events)
  unfolding events_between
  between start end n a b t e f le within =
      ap (λ x. copied t.events x (pos_part (last_index end n t -ℤ x))) e
      ∙ ap (λ x. copied t.events (pos a) (pos_part (x -ℤ pos a))) f
      ∙ ap (λ x. copied t.events (pos a) (pos_part x)) (pos_sub b a le)
      ∙ copied-slice t.events a (b - a) (omega arith)

  -- the same, as a slice of the chain
  between_of_chain :
      (start end : TimelineIndex) (i n a b x m : ℕ) (t : Timeline)
      → get_elem? c i ≡ some n
      → get_elem? ts n ≡ some t
      → first_index start n t ≡ pos a
      → last_index end n t ≡ pos b
      → a ≤ b
      → b ≤ length t.events
      → x ≡ total ts (take i c) + a
      → m ≡ b - a
      → events_between start end n t ≡ map some (slice x m (all_events ts c))
  between_of_chain start end i n a b x m t on found e f le within place size =
      let size_n = size_at ts n t found in
      let same : events_at ts n ≡ t.events = rw (found, events_at) refl in
      between start end n a b t e f le within
      ∙ ap (λ k. map some (slice a k t.events)) (sym size)
      ∙ ap (λ es. map some (slice a m es)) (sym same)
      ∙ ap (map some) (sym (slice_of_chain ts c i n a m x on (omega arith) place))

  module _ {ix : TimelineIndex} {p i n : ℕ} {t : Timeline} (s : StandsAt ts c ix p)
      (on : get_elem? c i ≡ some n) (found : get_elem? ts n ≡ some t) where
    is_here : i ≡ s.place → (n == ix.timeline) ≡ true
    is_here e =
        (==_iff n ix.timeline).1 (some-injective _ _ (sym on ∙ ap (get_elem? c) e ∙ s.at.on))

    is_elsewhere : i ≢ s.place → (n == ix.timeline) ≡ false
    is_elsewhere ne = elim (Bool-cases (n == ix.timeline)) [
      | inr no_match ↦ no_match
      | inl match ↦
          let same = (==_iff n ix.timeline).0 match in
          absurd (ne (place_unique i s.place n on (s.at.on ∙ ap some (sym same))))
    ]

    timeline_here : i ≡ s.place → t ≡ s.timeline
    timeline_here e =
        some-injective _ _
          (sym found ∙ ap (get_elem? ts) ((==_iff n ix.timeline).0 (is_here e)) ∙ s.at.found)

    shift_here : i ≡ s.place → ix.index +ℤ pos t.base_index ≡ pos s.offset
    shift_here e =
        ap (λ (x : Timeline). ix.index +ℤ pos x.base_index) (timeline_here e) ∙ s.at.shift

    first_here : i ≡ s.place → first_index ix n t ≡ pos s.offset
    first_here e = rw (is_here e) (shift_here e)

    first_elsewhere : i ≢ s.place → first_index ix n t ≡ pos 0
    first_elsewhere ne = rw (is_elsewhere ne) refl

    last_here : i ≡ s.place → last_index ix n t ≡ pos s.offset
    last_here e = rw (is_here e) (shift_here e)

    last_elsewhere : i ≢ s.place → last_index ix n t ≡ pos (length t.events)
    last_elsewhere ne = rw (is_elsewhere ne) refl

  read_last :
      (fuel : ℕ) (start end : TimelineIndex) (n : ℕ) (t : Timeline) (es : List (Option Event))
      → get_elem? ts n ≡ some t
      → (n == end.timeline) ≡ true
      → events_between start end n t ≡ es
      → events_from (suc fuel) ts start end n ≡ done es
  unfolding events_from
  read_last fuel start end n t es found here e = rw (found, here, events_from) (ap done e)

  read_next :
      (fuel : ℕ) (start end : TimelineIndex) (n m : ℕ) (t : Timeline)
      (es rest : List (Option Event))
      → get_elem? ts n ≡ some t
      → (n == end.timeline) ≡ false
      → t.next_timeline ≡ some m
      → events_between start end n t ≡ es
      → events_from fuel ts start end m ≡ done rest
      → events_from (suc fuel) ts start end n ≡ done (es ++ rest)
  unfolding events_from
  read_next fuel start end n m t es rest found elsewhere next e r =
      rw (found, elsewhere, next, r, events_from) (ap (λ x. done (x ++ rest)) e)

  module _ {w : Window} {p q : ℕ} (v : IsWindow ts c w p q) where
    -- the loop from the place `i` on, of which the first `a` events are before the window
    read_from :
        (fuel i n a x : ℕ) (t : Timeline)
        → get_elem? c i ≡ some n
        → get_elem? ts n ≡ some t
        → first_index v.first n t ≡ pos a
        → a ≤ length t.events
        → x ≡ total ts (take i c) + a
        → x ≤ q
        → v.lower.place ≤ i
        → i ≤ v.upper.place
        → v.upper.place < fuel + i
        → events_from fuel ts v.first v.last n ≡ done (map some (slice x (q - x) (all_events ts c)))
    read_from zero i n a x t on found e within place le low high f = absurd (omega arith)
    read_from (suc fuel) i n a x t on found e within place le low high f =
        elim (Bool-cases (i == v.upper.place)) [
          | inl last ↦
              let here = (==_iff i v.upper.place).0 last in
              let count : total ts (take i c) + v.upper.offset ≡ q =
                ap (λ x. total ts (take x c) + v.upper.offset) here ∙ v.upper.here in
              let fits =
                ap (λ (x : Timeline). length x.events) (timeline_here v.upper on found here) in
              read_last fuel v.first v.last n t _ found (is_here v.upper on found here) (
                between_of_chain v.first v.last i n a v.upper.offset x (q - x) t on found e
                  (last_here v.upper on found here) (omega arith) (omega (arith, v.upper.at.within))
                  place (omega arith))
          | inr later ↦
              let not_here : i ≢ v.upper.place = λ e'. cc (later, (==_iff i v.upper.place).1 e') in
              let above : suc i ≤ v.upper.place = omega (arith, high, not_here) in
              let (m, more) =
                get_below c (suc i) v.upper.place v.last.timeline v.upper.at.on above in
              let (u, found', _, _) = chain (suc i) m more in
              let (t', again, next, _) = chain i n on in
              let t_next =
                ap (λ (x : Timeline). x.next_timeline) (some-injective _ _ (sym found ∙ again))
                ∙ next
                ∙ more in
              let y = total ts (take (suc i) c) + 0 in
              let joined = total-take-suc ts c i n on in
              let fits = size_at ts n t found in
              let bound : y ≤ q =
                omega (arith, total-take_mono ts c (suc i) v.upper.place above, v.upper.here) in
              read_next fuel v.first v.last n m t _ _ found (is_elsewhere v.upper on found not_here)
                t_next
                (between_of_chain v.first v.last i n a (length t.events) x (length t.events - a) t
                  on found e (last_elsewhere v.upper on found not_here) within (omega arith) place
                  refl)
                (read_from fuel (suc i) m 0 y u more found'
                  (first_elsewhere v.lower more found' (λ e'. absurd (omega (arith, e'))))
                  (omega arith) refl bound (omega arith) above (omega arith))
              ∙ ap done (
                  sym (
                    map-append some (slice x (length t.events - a) (all_events ts c))
                      (slice y (q - y) (all_events ts c)))
                  ∙ ap (map some) (
                      slice-append (all_events ts c) x (length t.events - a) y (q - y) (q - x)
                        (omega (arith, joined, fits)) (omega (arith, joined, fits, bound))))
        ]

    -- `getEvents` of a window of the chain, with fuel for each of its timelines, neither throws nor gets
    -- stuck: it yields just the events from behind the first `p` to behind the first `q`, each of
    -- them present.
    pub get_events-slice :
        (fuel : ℕ)
        → length c ≤ fuel
        → get_events fuel ts w ≡ done (map some (slice p (q - p) (all_events ts c)))
    unfolding get_events
    get_events-slice fuel enough =
        rw (v.starts, v.ends, get_events)
          (read_from fuel v.lower.place v.first.timeline v.lower.offset p v.lower.timeline
            v.lower.at.on v.lower.at.found (first_here v.lower v.lower.at.on v.lower.at.found refl)
            v.lower.at.within (omega (arith, v.lower.here)) v.le (omega arith) v.ordered
            (omega (arith, lt_of_get_elem? c v.upper.place v.last.timeline v.upper.at.on)))
