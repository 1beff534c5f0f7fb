-- ===== src/Timelines/Retreats.antt =====
-- How far `retreat` of timeline-window.js goes in a chain of timelines.
use Prim.Native.Nat.{min}
use matrix_js_sdk.Base.{
  ℕ, zero, suc, ◌+◌, ◌-◌, ◌≤◌, ◌<◌, ◌≡◌, ◌≢◌, refl, ap, ◌∙◌, ◌⊎◌, inl, inr, Option, none, some,
  List, [], ◌∷◌, arith, length, get_elem?, Option-cases,
}
use matrix_js_sdk.Base.Int.{ℤ, pos, negsuc, ◌+ℤ◌, neg}
use matrix_js_sdk.Timelines.Timeline.{Timeline}
use matrix_js_sdk.Timelines.Index.{
  TimelineIndex, max_index, capped_delta, advance, retreat, negated,
}
use matrix_js_sdk.Timelines.Chain.{
  IsChain, IsAt, position, total-take-suc, lt_of_get_elem?, capped_backward,
}
use matrix_js_sdk.Timelines.Moves.{prev_in_chain}
use matrix_js_sdk.Timelines.Standing.{
  StandsAt, advance-room, advance-end, advance-next, at_offset, shifted, entry_end, size_at,
}

-- A move backward from place `i` by up to `d` events: it went `k` events, to behind the first `q`.
pub record Backward (ts : List Timeline) (c : List ℕ) (i p d : ℕ)
    (result : Option (ℤ × TimelineIndex)) : Type 0 where
  pub k : ℕ
  pub q : ℕ
  pub index : TimelineIndex
  pub went : result ≡ some (pos k, index)
  pub stands : StandsAt ts c index q
  pub left : q + k ≡ p
  pub within : k ≤ d
  pub onward : stands.place ≤ i
  pub inside : (k ≡ 0) ⊎ (stands.offset < length stands.timeline.events)
  pub progress : (d ≡ 0) ⊎ ((0 < k) ⊎ (p ≡ 0))

-- a move from an earlier place is one from a later place
from_later :
    {ts : List Timeline} {c : List ℕ} {p d : ℕ} {result : Option (ℤ × TimelineIndex)} (i j : ℕ)
    → j ≤ i
    → Backward ts c j p d result
    → Backward ts c i p d result
from_later i j le r = record {
  k = r.k;
  q = r.q;
  index = r.index;
  went = r.went;
  stands = r.stands;
  left = r.left;
  within = r.within;
  onward = omega (arith, r.onward);
  inside = r.inside;
  progress = r.progress;
}

-- a negated number that is not 0
neg-suc : (d : ℕ) → neg (pos (suc d)) ≡ negsuc d
neg-suc d = ground arith

neg-neg : (k : ℕ) → neg (neg (pos k)) ≡ pos k
neg-neg k = ground arith

-- at the start of a timeline there is no room before
capped_at_start :
    (t : Timeline) (index : ℤ)
    → index +ℤ pos t.base_index ≡ pos 0
    → (d : ℕ) → capped_delta (negsuc d) t index ≡ pos 0
capped_at_start t index shift d =
    let z : min (suc d) 0 ≡ 0 = omega arith in
    capped_backward t index 0 shift (omega arith) d ∙ ap (λ k. neg (pos k)) z

no_gap : (c : List ℕ) (i n : ℕ) → get_elem? c (suc i) ≡ some n → get_elem? c i ≢ none
no_gap [] i n e = cc
no_gap (m ∷ c) zero n e = cc
no_gap (m ∷ c) (suc i) n e = no_gap c i n e

module _ (ts : List Timeline) (c : List ℕ) (chain : IsChain ts c) where
  -- a timeline's start is where the one before it ends
  position_of_end :
      {ix : TimelineIndex} {i : ℕ} {t : Timeline} (j m : ℕ) (u : Timeline)
      → IsAt ts c ix i 0 t
      → i ≡ suc j
      → get_elem? c j ≡ some m
      → get_elem? ts m ≡ some u
      → position ts c j (length u.events) ≡ position ts c i 0
  position_of_end {ix} {i} {t} j m u a e on found =
      rw e (omega (arith, total-take-suc ts c j m on, size_at ts m u found))

  stays_at_start :
      (fuel d : ℕ) (ix : TimelineIndex) (t : Timeline)
      → IsAt ts c ix 0 0 t
      → capped_delta (negsuc d) t ix.index ≡ pos 0
      → Backward ts c 0 0 (suc d) (negated (advance (suc fuel) ts (negsuc d) ix))
  stays_at_start fuel d ix t a e = record {
    k = 0;
    q = 0;
    index = ix;
    went = ap negated (
        advance-end ts (negsuc d) ix t refl a.found fuel (pos 0) e refl
          (prev_in_chain ts c chain a));
    stands = record { place = 0; offset = 0; timeline = t; at = a; here = omega arith };
    left = omega arith;
    within = omega arith;
    onward = omega arith;
    inside = inl refl;
    progress = inr (inr refl);
  }

  retreat_from :
      (fuel d i o : ℕ) (ix : TimelineIndex) (t : Timeline)
      → IsAt ts c ix i o t
      → i < fuel
      → Backward ts c i (position ts c i o) (suc d) (negated (advance fuel ts (negsuc d) ix))
  retreat_from zero d i o ix t a f = absurd (omega arith)
  retreat_from (suc fuel) d i (suc o) ix t a f =
      let k = min (suc d) (suc o) in
      let e = capped_backward t ix.index (suc o) a.shift a.within d in
      record {
        k = k;
        q = position ts c i (suc o - k);
        index = record { timeline = ix.timeline; index = ix.index +ℤ neg (pos k) };
        went =
            ap negated
              (advance-room ts (negsuc d) ix t refl a.found fuel (neg (pos k)) e (ground arith))
            ∙ ap (λ x. some (x, record { timeline = ix.timeline; index = ix.index +ℤ neg (pos k) }))
                (neg-neg k);
        stands =
            at_offset ts c ix.timeline i (suc o - k) (position ts c i (suc o - k))
              (ix.index +ℤ neg (pos k)) t refl a.on a.found
              (shifted ix.index (neg (pos k)) t.base_index (suc o) (suc o - k) a.shift
                (ground arith))
              (omega (arith, a.within));
        left = omega arith;
        within = omega arith;
        onward = omega arith;
        inside = inr (omega (arith, a.within));
        progress = inr (inl (omega arith));
      }
  retreat_from (suc fuel) d zero zero ix t a f =
      stays_at_start fuel d ix t a (capped_at_start t ix.index a.shift d)
  retreat_from (suc fuel) d (suc j) zero ix t a f =
      let e : capped_delta (negsuc d) t ix.index ≡ pos 0 = capped_at_start t ix.index a.shift d in
      elim (Option-cases (get_elem? c j)) [
        | inl gap ↦ absurd (no_gap c j ix.timeline a.on gap)
        | inr (n, on) ↦
            let (u, found, _, _) = chain j n on in
            let step =
              advance-next ts (negsuc d) ix t refl a.found fuel (pos 0) n u e refl
                (prev_in_chain ts c chain a ∙ on) found in
            let b : IsAt ts c (record { timeline = n; index = max_index u }) j (length u.events) u =
              record { on = on; found = found; shift = entry_end u; within = omega arith } in
            rw (step, ← position_of_end j n u a refl on found)
              (from_later (suc j) j (omega arith) (
                retreat_from fuel d j (length u.events)
                  (record { timeline = n; index = max_index u }) u b (omega arith)))
      ]

  -- From behind the first `p` events of a chain, with at least as much fuel as it has timelines,
  -- `retreat` by `d` events goes `k` events, at most `d`, and then stands behind the first `q` with
  -- `q + k` being `p`, in no later timeline; it goes nowhere only if `d` or `p` is 0.
  pub retreat-Backward :
      (fuel d p : ℕ) (ix : TimelineIndex) (s : StandsAt ts c ix p)
      → length c ≤ fuel
      → Backward ts c s.place p d (retreat fuel ts (pos d) ix)
  unfolding advance retreat
  retreat-Backward fuel (suc d) p ix s f =
      rw (← s.here, neg-suc d)
        (retreat_from fuel d s.place s.offset ix s.timeline s.at
          (omega (arith, lt_of_get_elem? c s.place ix.timeline s.at.on)))
  retreat-Backward zero zero p ix s f =
      absurd (omega (arith, lt_of_get_elem? c s.place ix.timeline s.at.on))
  retreat-Backward (suc fuel) zero p ix s f = record {
    k = 0;
    q = p;
    index = ix;
    went = refl;
    stands = s;
    left = omega arith;
    within = omega arith;
    onward = omega arith;
    inside = inl refl;
    progress = inl refl;
  }
