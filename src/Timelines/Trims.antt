-- ===== src/Timelines/Trims.antt =====
-- `unpaginate` of timeline-window.js on a window whose ends stand in one chain of timelines.
use matrix_js_sdk.Base.{
  ℕ, zero, suc, ◌+◌, ◌-◌, ◌≤◌, ◌<◌, ◌≡◌, refl, ap, ◌∙◌, ◌⊎◌, inl, inr, true, false, ◌||◌, some,
  List, arith, length,
}
use matrix_js_sdk.Base.Int.{pos, ◌-ℤ◌, ltb_ℤ}
use matrix_js_sdk.Timelines.Timeline.{Timeline, Direction, backwards, forwards}
use matrix_js_sdk.Timelines.Index.{TimelineIndex, advance, retreat}
use matrix_js_sdk.Timelines.Chain.{total, IsChain}
use matrix_js_sdk.Timelines.Moves.{advance-Forward}
use matrix_js_sdk.Timelines.Standing.{StandsAt}
use matrix_js_sdk.Timelines.Retreats.{retreat-Backward}
use matrix_js_sdk.Timelines.Window.{
  Window, Outcome, done, get_timeline_index, with_index, inwards, drop_events, unpaginate,
}
use matrix_js_sdk.Timelines.Places.{stands_within, places_ordered, IsWindow}

-- The outcome is such a window, with the limit there was.
pub record Trimmed (ts : List Timeline) (c : List ℕ) (limit p q : ℕ) (r : Outcome Window)
    : Type 0 where
  pub window : Window
  pub went : r ≡ done window
  pub valid : IsWindow ts c window p q
  pub same_limit : window.window_limit ≡ limit

is_positive : (n : ℕ) → ltb_ℤ (pos 0) (pos (suc n)) ≡ true
is_positive n = ground arith

-- one round of the loop
drop_round :
    (steps fuel : ℕ) (ts : List Timeline) (d : Direction) (n k : ℕ) (w : Window)
    (tl moved : TimelineIndex)
    → get_timeline_index d w ≡ some tl
    → inwards d fuel ts (pos (suc n)) tl ≡ some (pos (suc k), moved)
    → drop_events (suc steps) fuel ts d (pos (suc n)) w
      ≡ drop_events steps fuel ts d
          (pos (suc n) -ℤ pos (suc k))
          (record (with_index d moved w) { event_count = w.event_count -ℤ pos (suc k) })
unfolding drop_events
drop_round steps fuel ts d n k w tl moved e m =
    rw (is_positive n, e, m, is_positive k, drop_events) refl

pub pos_sub : (a b : ℕ) → b ≤ a → pos a -ℤ pos b ≡ pos (a - b)
unfolding ◌-ℤ◌
pos_sub a b le = ground arith

-- the window once its start has moved on, and once its end has moved back
start_moved :
    {ts : List Timeline} {c : List ℕ} {w : Window} {p q : ℕ} (k : ℕ) (moved : TimelineIndex)
    → IsWindow ts c w p q
    → (s : StandsAt ts c moved (p + suc k)) → 0 < s.offset
    → p + suc k ≤ q
    → IsWindow ts c
        (record w { start = some moved; event_count = w.event_count -ℤ pos (suc k) })
        (p + suc k)
        q
start_moved {ts} {c} {w} {p} {q} k moved v s inside le = record {
  first = moved;
  last = v.last;
  starts = refl;
  ends = v.ends;
  lower = s;
  upper = v.upper;
  ordered = places_ordered s v.upper le (inl inside);
  le = le;
  counted =
      ap (λ x. x -ℤ pos (suc k)) v.counted
      ∙ pos_sub (q - p) (suc k) (omega arith)
      ∙ ap pos (omega arith);
}

end_moved :
    {ts : List Timeline} {c : List ℕ} {w : Window} {p q : ℕ} (k q' : ℕ) (moved : TimelineIndex)
    → IsWindow ts c w p q
    → (s : StandsAt ts c moved q') → q' + suc k ≡ q
    → s.offset < length s.timeline.events
    → p ≤ q'
    → IsWindow ts c (record w { end = some moved; event_count = w.event_count -ℤ pos (suc k) }) p q'
end_moved {ts} {c} {w} {p} {q} k q' moved v s e inside le = record {
  first = v.first;
  last = moved;
  starts = v.starts;
  ends = refl;
  lower = v.lower;
  upper = s;
  ordered = places_ordered v.lower s le (inr inside);
  le = le;
  counted =
      ap (λ x. x -ℤ pos (suc k)) v.counted
      ∙ pos_sub (q - p) (suc k) (omega arith)
      ∙ ap pos (omega arith);
}

module _ (ts : List Timeline) (c : List ℕ) (chain : IsChain ts c) (fuel : ℕ)
    (enough : length c ≤ fuel) where
  -- the loop from the start takes exactly `n` events off
  pub drop_from_start :
      (steps n p p' q : ℕ) (w : Window)
      → IsWindow ts c w p q
      → n < steps
      → p + n ≡ p'
      → p' ≤ q
      → Trimmed ts c w.window_limit p' q (drop_events steps fuel ts backwards (pos n) w)
  unfolding drop_events
  drop_from_start zero n p p' q w v f e le = absurd (omega arith)
  drop_from_start (suc steps) zero p p' q w v f e le =
      let same : p ≡ p' = omega arith in
      record { window = w; went = refl; valid = rw (← same) v; same_limit = refl }
  drop_from_start (suc steps) (suc n) p p' q w v f e le =
      let r = advance-Forward ts c chain fuel (suc n) p v.first v.lower enough in
      go (λ m p'' w' v' f' e'. drop_from_start steps m p'' p' q w' v' f' e' le) r.k r.index r.went
        r.stands r.within r.inside r.progress
    where
      go :
          ((m p'' : ℕ) (w' : Window)
            → IsWindow ts c w' p'' q
            → m < steps
            → p'' + m ≡ p'
            → Trimmed ts c w'.window_limit p' q (drop_events steps fuel ts backwards (pos m) w'))
          → (k : ℕ) (moved : TimelineIndex)
          → advance fuel ts (pos (suc n)) v.first ≡ some (pos k, moved)
          → (s : StandsAt ts c moved (p + k)) → k ≤ suc n
          → (k ≡ 0) ⊎ (0 < s.offset)
          → (suc n ≡ 0) ⊎ ((0 < k) ⊎ (p ≡ total ts c))
          → Trimmed ts c w.window_limit p' q
              (drop_events (suc steps) fuel ts backwards (pos (suc n)) w)
      go rest zero moved m s within inside progress = absurd (omega (arith, stands_within v.upper))
      go rest (suc k) moved m s within inside progress =
          rw
            (
              drop_round steps fuel ts backwards n k w v.first moved v.starts m,
              pos_sub (suc n) (suc k) within,
            )
            (rest (suc n - suc k) (p + suc k) _
              (start_moved k moved v s (omega arith) (omega arith)) (omega arith) (omega arith))

  -- and from the end
  pub drop_from_end :
      (steps n p q q' : ℕ) (w : Window)
      → IsWindow ts c w p q
      → n < steps
      → q' + n ≡ q
      → p ≤ q'
      → Trimmed ts c w.window_limit p q' (drop_events steps fuel ts forwards (pos n) w)
  unfolding drop_events
  drop_from_end zero n p q q' w v f e le = absurd (omega arith)
  drop_from_end (suc steps) zero p q q' w v f e le =
      let same : q ≡ q' = omega arith in
      record { window = w; went = refl; valid = rw (← same) v; same_limit = refl }
  drop_from_end (suc steps) (suc n) p q q' w v f e le =
      let r = retreat-Backward ts c chain fuel (suc n) q v.last v.upper enough in
      go (λ m q'' w' v' f' e'. drop_from_end steps m p q'' q' w' v' f' e' le) r.k r.q r.index r.went
        r.stands r.left r.within r.inside r.progress
    where
      go :
          ((m q'' : ℕ) (w' : Window)
            → IsWindow ts c w' p q''
            → m < steps
            → q' + m ≡ q''
            → Trimmed ts c w'.window_limit p q' (drop_events steps fuel ts forwards (pos m) w'))
          → (k q'' : ℕ) (moved : TimelineIndex)
          → retreat fuel ts (pos (suc n)) v.last ≡ some (pos k, moved)
          → (s : StandsAt ts c moved q'') → q'' + k ≡ q
          → k ≤ suc n
          → (k ≡ 0) ⊎ (s.offset < length s.timeline.events)
          → (suc n ≡ 0) ⊎ ((0 < k) ⊎ (q ≡ 0))
          → Trimmed ts c w.window_limit p q'
              (drop_events (suc steps) fuel ts forwards (pos (suc n)) w)
      go rest zero q'' moved m s left within inside progress = absurd (omega arith)
      go rest (suc k) q'' moved m s left within inside progress =
          rw
            (
              drop_round steps fuel ts forwards n k w v.last moved v.ends m,
              pos_sub (suc n) (suc k) within,
            )
            (rest (suc n - suc k) q'' _ (end_moved k q'' moved v s left (omega arith) (omega arith))
              (omega arith) (omega arith))

  -- `unpaginate` of `n` events from the start of a window of the chain, with fuel for each of its
  -- timelines, neither throws nor gets stuck, and takes exactly the first `n` events off, if the
  -- window has as many.
  pub unpaginate-IsWindow_start :
      (n p q : ℕ) (w : Window)
      → IsWindow ts c w p q
      → p + n ≤ q
      → Trimmed ts c w.window_limit (p + n) q (unpaginate fuel ts (pos n) backwards w)
  unfolding unpaginate
  unpaginate-IsWindow_start n p q w v le =
      let sane : (ltb_ℤ w.event_count (pos n) || ltb_ℤ (pos n) (pos 0)) ≡ false =
        ap (λ x. ltb_ℤ x (pos n) || ltb_ℤ (pos n) (pos 0)) v.counted ∙ ground arith in
      rw sane (drop_from_start (suc n) n p (p + n) q w v (omega arith) refl le)

  -- `unpaginate` of `n` events from the end of a window of the chain, with fuel for each of its
  -- timelines, neither throws nor gets stuck, and takes exactly the last `n` events off, if the
  -- window has as many.
  pub unpaginate-IsWindow_end :
      (n p q : ℕ) (w : Window)
      → IsWindow ts c w p (q + n)
      → p ≤ q
      → Trimmed ts c w.window_limit p q (unpaginate fuel ts (pos n) forwards w)
  unfolding unpaginate
  unpaginate-IsWindow_end n p q w v le =
      let sane : (ltb_ℤ w.event_count (pos n) || ltb_ℤ (pos n) (pos 0)) ≡ false =
        ap (λ x. ltb_ℤ x (pos n) || ltb_ℤ (pos n) (pos 0)) v.counted ∙ ground arith in
      rw sane (drop_from_end (suc n) n p (q + n) q w v (omega arith) refl le)
