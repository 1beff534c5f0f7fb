-- ===== src/Timelines/Limits.antt =====
-- What `extend` of timeline-window.js does about the limit.
use mathlib.Core.Path.{subst}
use matrix_js_sdk.Base.{
  ℕ, ◌+◌, ◌-◌, ◌≤◌, ◌≡◌, refl, ap, ◌∙◌, inl, inr, true, false, List, arith, length, ltb, Bool-cases,
}
use matrix_js_sdk.Base.Int.{pos, ◌-ℤ◌, ltb_ℤ}
use matrix_js_sdk.Timelines.Timeline.{Timeline, Direction, backwards, forwards}
use matrix_js_sdk.Timelines.Chain.{IsChain}
use matrix_js_sdk.Timelines.Window.{Window, done, opposite, unpaginate, within_limit}
use matrix_js_sdk.Timelines.Trims.{
  Trimmed, pos_sub, unpaginate-IsWindow_start, unpaginate-IsWindow_end,
}
use matrix_js_sdk.Timelines.Places.{IsWindow}

-- the excess over the limit
excess_of :
    (w : Window) (size limit : ℕ)
    → w.event_count ≡ pos size
    → w.window_limit ≡ limit
    → limit ≤ size
    → w.event_count -ℤ pos w.window_limit ≡ pos (size - limit)
excess_of w size limit e l le =
    ap (λ x. x -ℤ pos w.window_limit) e ∙ ap (λ x. pos size -ℤ pos x) l ∙ pos_sub size limit le

none_over : (size limit : ℕ) → size ≤ limit → ltb_ℤ (pos 0) (pos size -ℤ pos limit) ≡ false
unfolding ◌-ℤ◌
none_over size limit le = ground arith

no_excess_of :
    (w : Window) (size limit : ℕ)
    → w.event_count ≡ pos size
    → w.window_limit ≡ limit
    → size ≤ limit
    → ltb_ℤ (pos 0) (w.event_count -ℤ pos w.window_limit) ≡ false
no_excess_of w size limit e l le =
    ap (λ x. ltb_ℤ (pos 0) (x -ℤ pos w.window_limit)) e
    ∙ ap (λ x. ltb_ℤ (pos 0) (pos size -ℤ pos x)) l
    ∙ none_over size limit le

over_limit :
    (fuel : ℕ) (ts : List Timeline) (d : Direction) (excess : ℕ) (w : Window)
    → w.event_count -ℤ pos w.window_limit ≡ pos excess
    → ltb_ℤ (pos 0) (pos excess) ≡ true
    → within_limit fuel ts d w ≡ unpaginate fuel ts (pos excess) (opposite d) w
unfolding within_limit
over_limit fuel ts d excess w e over =
    let cond : ltb_ℤ (pos 0) (w.event_count -ℤ pos w.window_limit) ≡ true =
      ap (ltb_ℤ (pos 0)) e ∙ over in
    rw (cond, within_limit) (ap (λ x. unpaginate fuel ts x (opposite d) w) e)

under_limit :
    (fuel : ℕ) (ts : List Timeline) (d : Direction) (w : Window)
    → ltb_ℤ (pos 0) (w.event_count -ℤ pos w.window_limit) ≡ false
    → within_limit fuel ts d w ≡ done w
unfolding within_limit
under_limit fuel ts d w e = rw (e, within_limit) refl

module _ (ts : List Timeline) (c : List ℕ) (chain : IsChain ts c) (fuel : ℕ)
    (enough : length c ≤ fuel) where
  -- the limit on a window that has grown at its end, and at its start
  pub limited_from :
      (p q : ℕ) (w : Window)
      → IsWindow ts c w p q
      → Trimmed ts c w.window_limit
          (p + (q - p - w.window_limit))
          q
          (within_limit fuel ts forwards w)
  unfolding within_limit
  limited_from p q w v = elim (Bool-cases (ltb w.window_limit (q - p))) [
    | inr small ↦
        let fits = no_excess_of w (q - p) w.window_limit v.counted refl (ground arith) in
        let same : p ≡ p + (q - p - w.window_limit) = ground arith in
        rw (under_limit fuel ts forwards w fits, ← same)
          (record { window = w; went = refl; valid = v; same_limit = refl })
    | inl large ↦
        let excess = excess_of w (q - p) w.window_limit v.counted refl (ground arith) in
        let over : ltb_ℤ (pos 0) (pos (q - p - w.window_limit)) ≡ true = ground arith in
        rw (over_limit fuel ts forwards (q - p - w.window_limit) w excess over) (
          unpaginate-IsWindow_start ts c chain fuel enough (q - p - w.window_limit) p q w v
            (omega (arith, v.le)))
  ]

  pub limited_to :
      (p q : ℕ) (w : Window)
      → IsWindow ts c w p q
      → Trimmed ts c w.window_limit p
          (q - (q - p - w.window_limit))
          (within_limit fuel ts backwards w)
  unfolding within_limit
  limited_to p q w v = elim (Bool-cases (ltb w.window_limit (q - p))) [
    | inr small ↦
        let fits = no_excess_of w (q - p) w.window_limit v.counted refl (ground arith) in
        let same : q ≡ q - (q - p - w.window_limit) = ground arith in
        rw (under_limit fuel ts backwards w fits, ← same)
          (record { window = w; went = refl; valid = v; same_limit = refl })
    | inl large ↦
        let excess = excess_of w (q - p) w.window_limit v.counted refl (ground arith) in
        let over : ltb_ℤ (pos 0) (pos (q - p - w.window_limit)) ≡ true = ground arith in
        let whole : q ≡ (q - (q - p - w.window_limit)) + (q - p - w.window_limit) = omega arith in
        rw (over_limit fuel ts backwards (q - p - w.window_limit) w excess over) (
          unpaginate-IsWindow_end ts c chain fuel enough (q - p - w.window_limit) p
            (q - (q - p - w.window_limit)) w (subst (λ x. IsWindow ts c w p x) whole v)
            (omega (arith, v.le)))
  ]
