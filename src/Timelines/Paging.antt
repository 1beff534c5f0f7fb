-- ===== src/Timelines/Paging.antt =====
-- `paginate` of timeline-window.js, one call at a time: a second call while one waits for its request gets
-- the promise of the first. `request` stands for `paginateEventTimeline` of the client: whether it got
-- events or a token, and the timelines after it; `none` is its rejection. It is any function.
use mathlib.Core.Path.{subst}
use matrix_js_sdk.Base.{
  ℕ, zero, suc, ◌+◌, ◌≤◌, ◌<◌, ◌≡◌, ◌⊎◌, arith, refl, inl, inr, Bool, true, false, Option, none,
  some, List, length, get_elem?, truthy,
}
use matrix_js_sdk.Base.Int.{ℤ, pos}
use matrix_js_sdk.Timelines.Timeline.{
  Timeline, Direction, backwards, forwards, get_pagination_token,
}
use matrix_js_sdk.Timelines.Index.{TimelineIndex}
use matrix_js_sdk.Timelines.Chain.{IsChain, total}
use matrix_js_sdk.Timelines.Window.{
  Window, Outcome, done, thrown, stuck, get_timeline_index, extend,
}
use matrix_js_sdk.Timelines.Places.{IsWindow, stands_within}
use matrix_js_sdk.Timelines.Extends.{
  extend-IsWindow_forwards, extend-IsWindow_backwards, kept_from, kept_to,
}

abbrev pub Request : Type 0
Request = ℕ → Direction → ℤ → List Timeline → Option (Bool × List Timeline)

-- DEFAULT_PAGINATE_LOOP_LIMIT
abbrev pub default_loop_limit : ℕ
default_loop_limit = 5

-- the timeline of the index has a token to ask for more with; `none` is a timeline that is not there
abbrev pub token_at : List Timeline → Direction → TimelineIndex → Option Bool
token_at ts d tl = elim (get_elem? ts tl.timeline) [
  | none ↦ none
  | some t ↦ some (truthy (get_pagination_token d t))
]

module _ (request : Request) (fuel : ℕ) (d : Direction) (size : ℕ) where
  -- what is done when the cap cannot be moved: `again` is the next round, if a request is made
  abbrev pub ask :
      Option (List Timeline → Outcome (Bool × Window × List Timeline))
      → List Timeline
      → Window
      → Outcome (Bool × Window × List Timeline)
  ask none ts w = done (false, w, ts)
  ask (some again) ts w = elim (get_timeline_index d w) [
    | none ↦ thrown
    | some tl ↦ elim (token_at ts d tl) [
      | none ↦ stuck
      | some false ↦ done (false, w, ts)
      | some true ↦ elim (request tl.timeline d (pos size) ts) [
        | none ↦ thrown
        | some (false, ts') ↦ done (false, w, ts')
        | some (true, ts') ↦ again ts'
      ]
    ]
  ]

  -- `paginate` with `limit` as its request limit, 0 where no request is to be made
  unfoldable pub paginate :
      (limit : ℕ) → List Timeline → Window → Outcome (Bool × Window × List Timeline)
  paginate zero ts w = elim (get_timeline_index d w) [
    | none ↦ done (false, w, ts)
    | some tl ↦ elim (extend fuel ts d (pos size) w) [
      | thrown ↦ thrown
      | stuck ↦ stuck
      | done (true, w') ↦ done (true, w', ts)
      | done (false, w') ↦ ask none ts w'
    ]
  ]
  paginate (suc limit) ts w = elim (get_timeline_index d w) [
    | none ↦ done (false, w, ts)
    | some tl ↦ elim (extend fuel ts d (pos size) w) [
      | thrown ↦ thrown
      | stuck ↦ stuck
      | done (true, w') ↦ done (true, w', ts)
      | done (false, w') ↦ ask (some (λ ts'. paginate limit ts' w')) ts w'
    ]
  ]

-- None of the timelines has a token to ask for more with.
abbrev pub HasNoTokens : Direction → List Timeline → Type 0
HasNoTokens d ts =
    (n : ℕ) (t : Timeline) → get_elem? ts n ≡ some t → truthy (get_pagination_token d t) ≡ false

module _ (request : Request) (fuel : ℕ) (d : Direction) (size : ℕ) where
  paginate-moved :
      (limit : ℕ) (ts : List Timeline) (w w' : Window) (tl : TimelineIndex)
      → get_timeline_index d w ≡ some tl
      → extend fuel ts d (pos size) w ≡ done (true, w')
      → paginate request fuel d size limit ts w ≡ done (true, w', ts)
  unfolding paginate
  paginate-moved zero ts w w' tl index went = rw (index, went, paginate) refl
  paginate-moved (suc limit) ts w w' tl index went = rw (index, went, paginate) refl

  paginate-no_tokens :
      (limit : ℕ) (ts : List Timeline) (w w' : Window) (tl tl' : TimelineIndex) (t : Timeline)
      → get_timeline_index d w ≡ some tl
      → extend fuel ts d (pos size) w ≡ done (false, w')
      → get_timeline_index d w' ≡ some tl'
      → get_elem? ts tl'.timeline ≡ some t
      → (limit ≡ 0) ⊎ HasNoTokens d ts
      → paginate request fuel d size limit ts w ≡ done (false, w', ts)
  unfolding paginate
  paginate-no_tokens zero ts w w' tl tl' t index went index' found stop =
      rw (index, went, paginate) refl
  paginate-no_tokens (suc limit) ts w w' tl tl' t index went index' found (inl e) =
      absurd (omega (arith, e))
  paginate-no_tokens (suc limit) ts w w' tl tl' t index went index' found (inr no_tokens) =
      rw (index, went, paginate, ask, index', found, no_tokens tl'.timeline t found) refl

module _ (request : Request) (ts : List Timeline) (c : List ℕ) (chain : IsChain ts c) (fuel : ℕ)
    (enough : length c ≤ fuel) (size : ℕ) (positive : 1 ≤ size) (limit p q : ℕ) (w : Window)
    (v : IsWindow ts c w p q) where
  unmoved :
      {w' : Window} (k : ℕ)
      → k ≡ 0
      → IsWindow ts c w' (kept_from k w.window_limit p (q + k)) (q + k)
      → IsWindow ts c w' p q
  unmoved {w'} zero e r =
      let q_same : q + 0 ≡ q = omega arith in subst (IsWindow ts c w' p) q_same r
  unmoved (suc k) e r = absurd (omega (arith, e))

  -- `paginate` forwards by `size`, at least 1, on a window of a chain of timelines, with fuel for each of
  -- them, whatever a request would bring. If the chain has an event after the window it answers
  -- true, leaves the timelines as they were, and brings in `k` events at the end, at least one and
  -- at most `size`, with the start moved on for the limit of the window. If the chain has none, and
  -- no request is allowed or no timeline has a token, it answers false, with the same events in the
  -- window and the timelines as they were.
  pub paginate-IsWindow_forwards :
      (q < total ts c
        → (k : ℕ) × (w' : Window) × (1 ≤ k)
          × (k ≤ size)
          × (paginate request fuel forwards size limit ts w ≡ done (true, w', ts))
          × IsWindow ts c w' (kept_from k w.window_limit p (q + k)) (q + k))
      × ((q ≡ total ts c)
          → (limit ≡ 0) ⊎ HasNoTokens forwards ts
          → (w' : Window) × (paginate request fuel forwards size limit ts w ≡ done (false, w', ts))
            × IsWindow ts c w' p q)
  paginate-IsWindow_forwards = (
    λ there.
        let (k, le, progress, r) = extend-IsWindow_forwards ts c chain fuel enough size p q w v in
        let some_come : 1 ≤ k = omega (arith, progress, there, positive) in
        (
          k,
          r.window,
          some_come,
          le,
          paginate-moved request fuel forwards size limit ts w r.window v.last v.ends
              (rw r.went (ground (arith, some_come))),
          r.valid,
        ),
    λ at_end stop.
        let (k, le, progress, r) = extend-IsWindow_forwards ts c chain fuel enough size p q w v in
        let none_come : k ≡ 0 = omega (arith, stands_within r.valid.upper, at_end) in
        let same : IsWindow ts c r.window p q = unmoved k none_come r.valid in
        (
          r.window,
          paginate-no_tokens request fuel forwards size limit ts w r.window v.last same.last
              same.upper.timeline v.ends (rw r.went (ground (arith, none_come))) same.ends
              same.upper.at.found stop,
          same,
        ),
  )

  unmoved_back :
      {w' : Window} (k p' : ℕ)
      → k ≡ 0
      → p' ≡ p
      → IsWindow ts c w' p' (kept_to k w.window_limit p' q)
      → IsWindow ts c w' p q
  unmoved_back {w'} zero p' e f r = subst (λ x. IsWindow ts c w' x q) f r
  unmoved_back (suc k) p' e f r = absurd (omega (arith, e))

  -- The same backwards: if the chain has an event before the window, `paginate` answers true and brings in
  -- `k` events at the start, with the end moved back for the limit of the window; if it has none,
  -- and no request is allowed or no timeline has a token, it answers false.
  pub paginate-IsWindow_backwards :
      (0 < p
        → (k p' : ℕ) × (w' : Window) × (1 ≤ k)
          × (k ≤ size)
          × (p' + k ≡ p)
          × (paginate request fuel backwards size limit ts w ≡ done (true, w', ts))
          × IsWindow ts c w' p' (kept_to k w.window_limit p' q))
      × ((p ≡ 0)
          → (limit ≡ 0) ⊎ HasNoTokens backwards ts
          → (w' : Window) × (paginate request fuel backwards size limit ts w ≡ done (false, w', ts))
            × IsWindow ts c w' p q)
  paginate-IsWindow_backwards = (
    λ there.
        let (k, p', le, left, progress, r) =
          extend-IsWindow_backwards ts c chain fuel enough size p q w v in
        let some_come : 1 ≤ k = omega (arith, progress, there, positive) in
        (
          k,
          p',
          r.window,
          some_come,
          le,
          left,
          paginate-moved request fuel backwards size limit ts w r.window v.first v.starts
              (rw r.went (ground (arith, some_come))),
          r.valid,
        ),
    λ at_start stop.
        let (k, p', le, left, progress, r) =
          extend-IsWindow_backwards ts c chain fuel enough size p q w v in
        let none_come : k ≡ 0 = omega (arith, left, at_start) in
        let same : IsWindow ts c r.window p q =
          unmoved_back k p' none_come (omega (arith, left, none_come)) r.valid in
        (
          r.window,
          paginate-no_tokens request fuel backwards size limit ts w r.window v.first same.first
              same.lower.timeline v.starts (rw r.went (ground (arith, none_come))) same.starts
              same.lower.at.found stop,
          same,
        ),
  )
