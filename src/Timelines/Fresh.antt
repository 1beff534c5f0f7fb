-- ===== src/Timelines/Fresh.antt =====
-- What `addEventsToTimeline` of models/event-timeline-set.js does with events that are new to the set.
use mathlib.Core.Option.{some-injective}
use matrix_js_sdk.Base.{
  ℕ, zero, suc, ◌≡◌, refl, ap, ◌∙◌, String, Bool, true, false, ◌&&◌, ◌||◌, not, Option, none, some,
  List, [], ◌∷◌, ◌++◌, arith, get_elem?, ◌==◌, str_eq_comm, Bool-cases, inl, inr, is_some,
}
use matrix_js_sdk.Base.Dict.{get, get-put}
use matrix_js_sdk.Timelines.Timeline.{
  Event, Timeline, Direction, backwards, forwards, add_event, set_pagination_token,
}
use matrix_js_sdk.Timelines.Sets.{
  TimelineSet, update_at, add_event_to_timeline, Adding, is_backwards, add_one, add_all, with_token,
  add_unfiltered, add_events_to_timeline,
}
use matrix_js_sdk.Timelines.Known.{is_known, has_id}

-- The set knows none of the events, and they are apart from each other.
abbrev pub AreFresh : List Event → TimelineSet → Type 0
AreFresh [] s = Unit
AreFresh (e ∷ es) s = (is_known e.id s ≡ false) × (has_id e.id es ≡ false) × AreFresh es s

-- the events put in one after the other
abbrev pub placed : Direction → List Event → List Event → List Event
placed d [] old = old
placed backwards (e ∷ es) old = placed backwards es (e ∷ old)
placed forwards (e ∷ es) old = placed forwards es (old ++ e ∷ [])

get-update_at_self :
    (n : ℕ) (f : Timeline → Timeline) (ts : List Timeline) (t : Timeline)
    → get_elem? ts n ≡ some t
    → get_elem? (update_at n f ts) n ≡ some (f t)
unfolding update_at
get-update_at_self n f [] t e = cc
get-update_at_self zero f (u ∷ ts) t e = ap (λ x. some (f x)) (some-injective _ _ e)
get-update_at_self (suc n) f (u ∷ ts) t e = get-update_at_self n f ts t e

AreFresh-add_event_to_timeline :
    (e : Event) (n : ℕ) (at_start : Bool) (es : List Event) (s : TimelineSet)
    → has_id e.id es ≡ false
    → AreFresh es s
    → AreFresh es (add_event_to_timeline e n at_start s)
unfolding add_event_to_timeline
AreFresh-add_event_to_timeline e n at_start [] s apart fresh = tt
AreFresh-add_event_to_timeline e n at_start (v ∷ es) s apart (new, other, rest) = (
  ground (arith, apart, new, str_eq_comm e.id v.id, get-put e.id v.id n s.event_id_to_timeline),
  other,
  AreFresh-add_event_to_timeline e n at_start es s (ground (arith, apart)) rest,
)

placed-add_event :
    (unfiltered : Bool) (d : Direction) (e : Event) (es : List Event) (t : Timeline)
    → placed d es (add_event unfiltered e (is_backwards d) t).events ≡ placed d (e ∷ es) t.events
unfolding add_event
placed-add_event unfiltered backwards e es t = refl
placed-add_event unfiltered forwards e es t = refl

-- What the loop leaves: the timeline, with the events put in.
record Placed (d : Direction) (es : List Event) (a : Adding) (t : Timeline) (r : Option Adding)
    : Type 0 where
  adding : Adding
  went : r ≡ some adding
  same : adding.timeline ≡ a.timeline
  last : Timeline
  there : get_elem? adding.set.timelines a.timeline ≡ some last
  holds : last.events ≡ placed d es t.events

not_some : (o : Option ℕ) → is_some o ≡ false → o ≡ none
not_some none e = refl
not_some (some n) e = cc

add_all-Placed :
    (d : Direction) (es : List Event) (a : Adding) (t : Timeline)
    → AreFresh es a.set
    → get_elem? a.set.timelines a.timeline ≡ some t
    → Placed d es a t (add_all d es a)
unfolding add_all add_one add_event_to_timeline
add_all-Placed d [] a t fresh there = record {
  adding = a;
  went = refl;
  same = refl;
  last = t;
  there = there;
  holds = refl;
}
add_all-Placed d (e ∷ es) a t (new, apart, rest) there =
    let unknown : get e.id a.set.event_id_to_timeline ≡ none = not_some _ new in
    let a' : Adding = record a {
      set = add_event_to_timeline e a.timeline (is_backwards d) a.set;
      last_event_was_new = true;
      did_update = true;
    } in
    let r =
      add_all-Placed d es a' (add_event a.set.is_unfiltered e (is_backwards d) t)
        (AreFresh-add_event_to_timeline e a.timeline (is_backwards d) es a.set apart rest)
        (get-update_at_self a.timeline (λ t. add_event a.set.is_unfiltered e (is_backwards d) t)
          a.set.timelines t there) in
    let step : add_all d (e ∷ es) a ≡ add_all d es a' = rw (unknown, add_all, add_one) refl in
    record {
      adding = r.adding;
      went = step ∙ r.went;
      same = r.same;
      last = r.last;
      there = r.there;
      holds = r.holds ∙ placed-add_event a.set.is_unfiltered d e es t;
    }

-- the token changes no events
with_token-events :
    (d : Direction) (token : Option String) (a : Adding) (n : ℕ) (t : Timeline)
    → a.timeline ≡ n
    → get_elem? a.set.timelines n ≡ some t
    → (u : Timeline) × (get_elem? (with_token d token a).timelines n ≡ some u)
      × (u.events ≡ t.events)
unfolding with_token
with_token-events d token a n t e there =
    elim (Bool-cases (
      (a.last_event_was_new || not a.did_update)
      && not (not (is_backwards d) && (a.timeline == a.set.live_timeline)))) [
        | inl sets ↦ (
          set_pagination_token token d t,
          rw (sets, with_token, e)
              (get-update_at_self n (λ t. set_pagination_token token d t) a.set.timelines t there),
          same_at d,
        )
        | inr leaves ↦ (t, rw (leaves, with_token) there, refl)
      ]
  where
    same_at : (d : Direction) → (set_pagination_token token d t).events ≡ t.events
    same_at backwards = refl
    same_at forwards = refl

-- In a set without a filter, `addEventsToTimeline` of events that are new to the set and apart from each
-- other does not throw, if it is not at the end of the live timeline: the timeline comes to have the
-- events put in one after the other, at its start or at its end.
pub add_events_to_timeline-placed :
    (events : List Event) (d : Direction) (n : ℕ) (token : Option String) (s : TimelineSet)
    (t : Timeline)
    → AreFresh events s
    → get_elem? s.timelines n ≡ some t
    → (not (is_backwards d) && (n == s.live_timeline)) ≡ false
    → (s' : TimelineSet) × (t' : Timeline) × (add_events_to_timeline none events d n token s
        ≡ some s')
      × (get_elem? s'.timelines n ≡ some t')
      × (t'.events ≡ placed d events t.events)
unfolding add_events_to_timeline add_unfiltered
add_events_to_timeline-placed events d n token s t fresh there fine =
    let a : Adding = record {
      set = s;
      timeline = n;
      did_update = false;
      last_event_was_new = false;
    } in
    let r = add_all-Placed d events a t fresh there in
    let (u, has, same) = with_token-events d token r.adding n r.last r.same r.there in
    (
      with_token d token r.adding,
      u,
      rw (fine, r.went, add_events_to_timeline, add_unfiltered) refl,
      has,
      same ∙ r.holds,
    )
