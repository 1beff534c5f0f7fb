-- ===== src/Timelines/Extends.antt =====
-- `extend` of timeline-window.js on a window whose ends stand in one chain of timelines.
use mathlib.Core.Path.{subst}
use matrix_js_sdk.Base.{
  ℕ, zero, suc, ◌+◌, ◌-◌, ◌≤◌, ◌<◌, ◌≡◌, refl, ap, ◌∙◌, ◌⊎◌, Bool, Option, some, List, arith,
  length, ltb,
}
use matrix_js_sdk.Base.Int.{ℤ, pos, ◌+ℤ◌}
use matrix_js_sdk.Timelines.Timeline.{Timeline, Direction, backwards, forwards}
use matrix_js_sdk.Timelines.Index.{TimelineIndex}
use matrix_js_sdk.Timelines.Chain.{total, IsChain}
use matrix_js_sdk.Timelines.Moves.{advance-Forward}
use matrix_js_sdk.Timelines.Standing.{StandsAt}
use matrix_js_sdk.Timelines.Retreats.{retreat-Backward}
use matrix_js_sdk.Timelines.Window.{
  Window, Outcome, done, get_timeline_index, with_index, outwards, with_success, extended, extend,
}
use matrix_js_sdk.Timelines.Places.{IsWindow}
use matrix_js_sdk.Timelines.Limits.{limited_from, limited_to}

pos_add : (a b : ℕ) → pos a +ℤ pos b ≡ pos (a + b)
unfolding ◌+ℤ◌
pos_add a b = ground arith

add_none : (a : ℤ) → a +ℤ pos 0 ≡ a
unfolding ◌+ℤ◌
add_none a = ground arith

-- a count that grew by none
nothing_grown :
    {ts : List Timeline} {c : List ℕ} {start end : Option TimelineIndex} {count : ℤ} {limit p q : ℕ}
    → IsWindow ts c
        (record { start = start; end = end; event_count = count +ℤ pos 0; window_limit = limit })
        p
        q
    → IsWindow ts c
        (record { start = start; end = end; event_count = count; window_limit = limit })
        p
        q
nothing_grown {ts} {c} {start} {end} {count} {limit} {p} {q} v =
    subst
      (λ x.
        IsWindow ts c (record { start = start; end = end; event_count = x; window_limit = limit }) p
          q)
      (add_none count) v

-- where the window starts, or ends, once `k` events have come in at the other side
abbrev pub kept_from : (k limit p q : ℕ) → ℕ
kept_from zero limit p q = p
kept_from (suc k) limit p q = p + (q - p - limit)

abbrev pub kept_to : (k limit p q : ℕ) → ℕ
kept_to zero limit p q = q
kept_to (suc k) limit p q = q - (q - p - limit)

-- The outcome is `done`, with whether `k` is not 0 and such a window with the limit there was.
pub record Extended (ts : List Timeline) (c : List ℕ) (limit k p q : ℕ)
    (r : Outcome (Bool × Window)) : Type 0 where
  pub window : Window
  pub went : r ≡ done (ltb 0 k, window)
  pub valid : IsWindow ts c window p q
  pub same_limit : window.window_limit ≡ limit

extend_moved :
    (fuel : ℕ) (ts : List Timeline) (d : Direction) (n : ℕ) (count : ℤ) (w : Window)
    (tl moved : TimelineIndex)
    → get_timeline_index d w ≡ some tl
    → outwards d fuel ts (pos n) tl ≡ some (count, moved)
    → extend fuel ts d (pos n) w ≡ extended fuel ts d count (with_index d moved w)
unfolding extend
extend_moved fuel ts d n count w tl moved e m = rw (e, m, extend) refl

-- the window once its end has moved on, and once its start has moved back
end_moved_on :
    {ts : List Timeline} {c : List ℕ} {w : Window} {p q : ℕ} (k : ℕ) (moved : TimelineIndex)
    (v : IsWindow ts c w p q) (s : StandsAt ts c moved (q + k))
    → v.upper.place ≤ s.place
    → IsWindow ts c (record w { end = some moved; event_count = w.event_count +ℤ pos k }) p (q + k)
end_moved_on {ts} {c} {w} {p} {q} k moved v s onward = record {
  first = v.first;
  last = moved;
  starts = v.starts;
  ends = refl;
  lower = v.lower;
  upper = s;
  ordered = omega arith;
  le = omega arith;
  counted = ap (λ x. x +ℤ pos k) v.counted ∙ pos_add (q - p) k ∙ ap pos (omega arith);
}

start_moved_back :
    {ts : List Timeline} {c : List ℕ} {w : Window} {p q : ℕ} (k p' : ℕ) (moved : TimelineIndex)
    (v : IsWindow ts c w p q) (s : StandsAt ts c moved p')
    → p' + k ≡ p
    → s.place ≤ v.lower.place
    → IsWindow ts c (record w { start = some moved; event_count = w.event_count +ℤ pos k }) p' q
start_moved_back {ts} {c} {w} {p} {q} k p' moved v s e onward = record {
  first = moved;
  last = v.last;
  starts = refl;
  ends = v.ends;
  lower = s;
  upper = v.upper;
  ordered = omega arith;
  le = omega arith;
  counted = ap (λ x. x +ℤ pos k) v.counted ∙ pos_add (q - p) k ∙ ap pos (omega arith);
}

module _ (ts : List Timeline) (c : List ℕ) (chain : IsChain ts c) (fuel : ℕ)
    (enough : length c ≤ fuel) where
  -- what `extend` does once the end has moved, and once the start has
  grown_forwards :
      (k p q : ℕ) (moved : TimelineIndex) (w : Window)
      → IsWindow ts c
          (record w { end = some moved; event_count = w.event_count +ℤ pos k })
          p
          (q + k)
      → Extended ts c w.window_limit k
          (kept_from k w.window_limit p (q + k))
          (q + k)
          (extended fuel ts forwards (pos k) (with_index forwards moved w))
  unfolding extended
  grown_forwards zero p q moved w v = record {
    window = with_index forwards moved w;
    went = refl;
    valid = nothing_grown v;
    same_limit = refl;
  }
  grown_forwards (suc k) p q moved w v =
      let r = limited_from ts c chain fuel enough p (q + suc k) _ v in
      record {
        window = r.window;
        went = ap with_success r.went ∙ ap (λ x. done (x, r.window)) (ground arith);
        valid = r.valid;
        same_limit = r.same_limit;
      }

  grown_backwards :
      (k p q : ℕ) (moved : TimelineIndex) (w : Window)
      → IsWindow ts c (record w { start = some moved; event_count = w.event_count +ℤ pos k }) p q
      → Extended ts c w.window_limit k p
          (kept_to k w.window_limit p q)
          (extended fuel ts backwards (pos k) (with_index backwards moved w))
  unfolding extended
  grown_backwards zero p q moved w v = record {
    window = with_index backwards moved w;
    went = refl;
    valid = nothing_grown v;
    same_limit = refl;
  }
  grown_backwards (suc k) p q moved w v =
      let r = limited_to ts c chain fuel enough p q _ v in
      record {
        window = r.window;
        went = ap with_success r.went ∙ ap (λ x. done (x, r.window)) (ground arith);
        valid = r.valid;
        same_limit = r.same_limit;
      }

  -- `extend` forwards by `n` on a window of the chain, with fuel for each of its timelines: it neither
  -- throws nor gets stuck, brings in `k` events at the end, at most `n`, and says whether any; if
  -- any, it takes what is over the limit off at the start. None comes only if `n` is 0 or the
  -- window ends where the chain does.
  pub extend-IsWindow_forwards :
      (n p q : ℕ) (w : Window)
      → IsWindow ts c w p q
      → (k : ℕ) × (k ≤ n)
        × ((n ≡ 0) ⊎ ((0 < k) ⊎ (q ≡ total ts c)))
        × Extended ts c w.window_limit k
            (kept_from k w.window_limit p (q + k))
            (q + k)
            (extend fuel ts forwards (pos n) w)
  extend-IsWindow_forwards n p q w v =
      let r = advance-Forward ts c chain fuel n q v.last v.upper enough in
      (
        r.k,
        r.within,
        r.progress,
        rw (extend_moved fuel ts forwards n (pos r.k) w v.last r.index v.ends r.went)
            (grown_forwards r.k p q r.index w (end_moved_on r.k r.index v r.stands r.onward)),
      )

  -- `extend` backwards by `n` on a window of the chain, with fuel for each of its timelines: it neither
  -- throws nor gets stuck, brings in `k` events at the start, at most `n`, and says whether any; if
  -- any, it takes what is over the limit off at the end. None comes only if `n` is 0 or the
  -- window starts where the chain does.
  pub extend-IsWindow_backwards :
      (n p q : ℕ) (w : Window)
      → IsWindow ts c w p q
      → (k p' : ℕ) × (k ≤ n)
        × (p' + k ≡ p)
        × ((n ≡ 0) ⊎ ((0 < k) ⊎ (p ≡ 0)))
        × Extended ts c w.window_limit k p'
            (kept_to k w.window_limit p' q)
            (extend fuel ts backwards (pos n) w)
  extend-IsWindow_backwards n p q w v =
      let r = retreat-Backward ts c chain fuel n p v.first v.lower enough in
      (
        r.k,
        r.q,
        r.within,
        r.left,
        r.progress,
        rw (extend_moved fuel ts backwards n (pos r.k) w v.first r.index v.starts r.went) (
            grown_backwards r.k r.q q r.index w
              (start_moved_back r.k r.q r.index v r.stands r.left r.onward)),
      )
