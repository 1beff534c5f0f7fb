-- ===== src/Timelines/Moves.antt =====
-- How far `advance` of timeline-window.js goes in a chain of timelines.
use Prim.Native.Nat.{min}
use mathlib.Core.Option.{some-injective}
use matrix_js_sdk.Base.{
  ℕ, zero, suc, ◌+◌, ◌-◌, ◌≤◌, ◌<◌, ◌≡◌, refl, ap, sym, ◌∙◌, ◌⊎◌, inl, inr, Option, some, List,
  arith, length, get_elem?, ltb, Option-cases, Bool-cases,
}
use matrix_js_sdk.Base.Int.{ℤ, pos, ◌+ℤ◌}
use matrix_js_sdk.Timelines.Timeline.{Timeline}
use matrix_js_sdk.Timelines.Index.{TimelineIndex, min_index, capped_delta, advance}
use matrix_js_sdk.Timelines.Chain.{
  total, before, IsChain, IsAt, position, total-take-suc, total-take_all, lt_of_get_elem?,
  capped_forward,
}
use matrix_js_sdk.Timelines.Standing.{
  StandsAt, advance-room, advance-end, advance-next, at_offset, shifted, entry_start, size_at,
}

-- A move forward from place `i` by up to `d` events: it went `k` events.
pub record Forward (ts : List Timeline) (c : List ℕ) (i p d : ℕ)
    (result : Option (ℤ × TimelineIndex)) : Type 0 where
  pub k : ℕ
  pub index : TimelineIndex
  pub went : result ≡ some (pos k, index)
  pub stands : StandsAt ts c index (p + k)
  pub within : k ≤ d
  pub onward : i ≤ stands.place
  pub inside : (k ≡ 0) ⊎ (0 < stands.offset)
  pub progress : (d ≡ 0) ⊎ ((0 < k) ⊎ (p ≡ total ts c))

-- a move from a later place is one from an earlier place
from_earlier :
    {ts : List Timeline} {c : List ℕ} {p d : ℕ} {result : Option (ℤ × TimelineIndex)} (i j : ℕ)
    → i ≤ j
    → Forward ts c j p d result
    → Forward ts c i p d result
from_earlier i j le r = record {
  k = r.k;
  index = r.index;
  went = r.went;
  stands = r.stands;
  within = r.within;
  onward = omega (arith, r.onward);
  inside = r.inside;
  progress = r.progress;
}

module _ (ts : List Timeline) (c : List ℕ) (chain : IsChain ts c) where
  -- the neighbours of the timeline at a place
  next_in_chain :
      {ix : TimelineIndex} {i o : ℕ} {t : Timeline}
      → IsAt ts c ix i o t
      → t.next_timeline ≡ get_elem? c (suc i)
  next_in_chain {ix} {i} {o} {t} a =
      let (t', found, next, _) = chain i ix.timeline a.on in
      ap (λ (x : Timeline). x.next_timeline) (some-injective _ _ (sym a.found ∙ found)) ∙ next

  pub prev_in_chain :
      {ix : TimelineIndex} {i o : ℕ} {t : Timeline}
      → IsAt ts c ix i o t
      → t.prev_timeline ≡ before c i
  prev_in_chain {ix} {i} {o} {t} a =
      let (t', found, _, prev) = chain i ix.timeline a.on in
      ap (λ (x : Timeline). x.prev_timeline) (some-injective _ _ (sym a.found ∙ found)) ∙ prev

  -- the end of a timeline is where the next one begins
  position-suc :
      {ix : TimelineIndex} {i o : ℕ} {t : Timeline}
      → IsAt ts c ix i o t
      → length t.events ≤ o
      → position ts c (suc i) 0 ≡ position ts c i o
  position-suc {ix} {i} {o} {t} a full =
      omega
        (arith, total-take-suc ts c i ix.timeline a.on, size_at ts ix.timeline t a.found, a.within)

  advance_from :
      (fuel d i o : ℕ) (ix : TimelineIndex) (t : Timeline)
      → IsAt ts c ix i o t
      → length c ≤ fuel + i
      → Forward ts c i (position ts c i o) (suc d) (advance fuel ts (pos (suc d)) ix)
  advance_from zero d i o ix t a f = absurd (omega (arith, lt_of_get_elem? c i ix.timeline a.on))
  advance_from (suc fuel) d i o ix t a f = elim (Bool-cases (ltb o (length t.events))) [
    | inl room ↦
        let k = min (suc d) (length t.events - o) in
        let e = capped_forward t ix.index o a.shift a.within (suc d) in
        record {
          k = k;
          index = record { timeline = ix.timeline; index = ix.index +ℤ pos k };
          went = advance-room ts (pos (suc d)) ix t refl a.found fuel (pos k) e (ground arith);
          stands =
              at_offset ts c ix.timeline i (o + k) (position ts c i o + k) (ix.index +ℤ pos k) t
                (omega arith) a.on a.found
                (shifted ix.index (pos k) t.base_index o (o + k) a.shift (omega arith))
                (omega (arith, a.within));
          within = omega arith;
          onward = omega arith;
          inside = inr (ground arith);
          progress = inr (inl (ground arith));
        }
    | inr no_room ↦
        let full : length t.events ≤ o = ground arith in
        let e : capped_delta (pos (suc d)) t ix.index ≡ pos 0 =
          capped_forward t ix.index o a.shift a.within (suc d) ∙ ap pos (omega arith) in
        let next = next_in_chain a in
        elim (Option-cases (get_elem? c (suc i))) [
          | inl last ↦
              let none_left =
                advance-end ts (pos (suc d)) ix t refl a.found fuel (pos 0) e refl (next ∙ last) in
              record {
                k = 0;
                index = ix;
                went = none_left;
                stands = record { place = i; offset = o; timeline = t; at = a; here = omega arith };
                within = omega arith;
                onward = omega arith;
                inside = inl refl;
                progress =
                    inr
                      (inr (omega (arith, position-suc a full, total-take_all ts c (suc i) last)));
              }
          | inr (n, more) ↦
              let (u, found, _, _) = chain (suc i) n more in
              let step =
                advance-next ts (pos (suc d)) ix t refl a.found fuel (pos 0) n u e refl
                  (next ∙ more) found in
              let b : IsAt ts c (record { timeline = n; index = min_index u }) (suc i) 0 u =
                record { on = more; found = found; shift = entry_start u; within = omega arith } in
              rw (step, ← position-suc a full)
                (from_earlier i (suc i) (omega arith) (
                  advance_from fuel d (suc i) 0 (record { timeline = n; index = min_index u }) u b
                    (omega arith)))
        ]
  ]

  -- From behind the first `p` events of a chain, with at least as much fuel as it has timelines,
  -- `advance` by `d` events goes `k` events, at most `d`, and then stands behind the first `p + k`,
  -- in no earlier timeline; it goes nowhere only if `d` is 0 or no event of the chain is left.
  pub advance-Forward :
      (fuel d p : ℕ) (ix : TimelineIndex) (s : StandsAt ts c ix p)
      → length c ≤ fuel
      → Forward ts c s.place p d (advance fuel ts (pos d) ix)
  unfolding advance
  advance-Forward fuel (suc d) p ix s f =
      rw (← s.here) (advance_from fuel d s.place s.offset ix s.timeline s.at (omega arith))
  advance-Forward zero zero p ix s f =
      absurd (omega (arith, lt_of_get_elem? c s.place ix.timeline s.at.on))
  advance-Forward (suc fuel) zero p ix s f = record {
    k = 0;
    index = ix;
    went = refl;
    stands = record {
      place = s.place;
      offset = s.offset;
      timeline = s.timeline;
      at = s.at;
      here = omega (arith, s.here);
    };
    within = omega arith;
    onward = omega arith;
    inside = inl refl;
    progress = inl refl;
  }
