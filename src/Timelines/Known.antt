-- ===== src/Timelines/Known.antt =====
-- Which events a timeline set of models/event-timeline-set.js comes to have.
use matrix_js_sdk.Base.{
  ℕ, ◌≡◌, refl, ap, sym, ◌∙◌, inl, inr, String, Bool, true, false, ◌&&◌, ◌||◌, not, Option, none,
  some, List, [], ◌∷◌, arith, get_elem?, ◌==◌, str_eq, if◌then◌else◌, Option-cases, Bool-cases,
  eq_iff, is_some,
}
use mathlib.Core.Option.{some-injective}
use mathlib.Core.Path.{subst}
use matrix_js_sdk.Base.Dict.{Dict, get, put, get-put}
use matrix_js_sdk.Timelines.Timeline.{Event, Timeline, Direction, get_neighbouring_timeline}
use matrix_js_sdk.Timelines.Sets.{
  TimelineSet, add_event_to_timeline, join_timelines, refuses, Adding, is_backwards, add_existing,
  add_one, add_all, with_token, is_empty, add_unfiltered, add_events_to_timeline,
}
use matrix_js_sdk.Timelines.Ownership.{IsIndexed, with_token-IsIndexed}
use matrix_js_sdk.Timelines.Adding.{add_all-IsIndexed}

-- the ids of which the index knows a timeline
abbrev pub is_known : String → TimelineSet → Bool
is_known id s = is_some (get id s.event_id_to_timeline)

abbrev pub has_id : String → List Event → Bool
has_id id [] = false
has_id id (e ∷ es) = str_eq e.id id || has_id id es

abbrev IndexIfSome : Dict ℕ → Option Adding → Type 0
IndexIfSome index none = Unit
IndexIfSome index (some a) = a.set.event_id_to_timeline ≡ index

joined_index :
    (s : TimelineSet) (existing : ℕ) (o : Option (List Timeline))
    → IndexIfSome s.event_id_to_timeline (elim o [
      | none ↦ none
      | some ts ↦ some (record {
        set = record s { timelines = ts };
        timeline = existing;
        did_update = true;
        last_event_was_new = false;
      })
    ])
joined_index s existing none = tt
joined_index s existing (some ts) = refl

add_existing-index :
    (d : Direction) (existing : ℕ) (a : Adding)
    → IndexIfSome a.set.event_id_to_timeline (add_existing d existing a)
unfolding add_existing
add_existing-index d existing a = elim (Bool-cases (existing == a.timeline)) [
  | inl same ↦ rw (same, add_existing) refl
  | inr other ↦ elim (Option-cases (get_elem? a.set.timelines a.timeline)) [
    | inl missing ↦ rw (other, missing, add_existing) tt
    | inr (t, there) ↦ elim (Option-cases (get_neighbouring_timeline d t)) [
      | inr (m, neighbour) ↦ rw (other, there, neighbour, add_existing) refl
      | inl free ↦
          elim (Bool-cases
            (refuses d (existing == a.set.live_timeline) (a.timeline == a.set.live_timeline))) [
              | inl refused ↦ rw (other, there, free, refused, add_existing) refl
              | inr joins ↦
                  rw (other, there, free, joins, add_existing)
                    (joined_index a.set existing
                      (join_timelines a.timeline existing d a.set.timelines))
            ]
    ]
  ]
]

add_one-is_known :
    (d : Direction) (e : Event) (a b : Adding) (id : String)
    → add_one d e a ≡ some b
    → is_known id b.set ≡ (is_known id a.set || str_eq e.id id)
unfolding add_one add_event_to_timeline
add_one-is_known d e a b id h = elim (Option-cases (get e.id a.set.event_id_to_timeline)) [
  | inl new ↦
      let went : add_one d e a
          ≡ some (record a {
            set = add_event_to_timeline e a.timeline (is_backwards d) a.set;
            last_event_was_new = true;
            did_update = true;
          }) =
        rw (new, add_one) refl in
      let index : b.set.event_id_to_timeline ≡ put e.id a.timeline a.set.event_id_to_timeline =
        ap (λ (x : Adding). x.set.event_id_to_timeline) (some-injective _ _ (sym h ∙ went)) in
      ap (λ i. is_some (get id i)) index
      ∙ ground (arith, get-put e.id id a.timeline a.set.event_id_to_timeline)
  | inr (existing, known) ↦
      let went : add_one d e a ≡ add_existing d existing a = rw (known, add_one) refl in
      let same : b.set.event_id_to_timeline ≡ a.set.event_id_to_timeline =
        subst (IndexIfSome a.set.event_id_to_timeline) (sym went ∙ h)
          (add_existing-index d existing a) in
      ap (λ i. is_some (get id i)) same ∙ ground (arith, known, eq_iff e.id id)
]

add_all-is_known :
    (d : Direction) (es : List Event) (a b : Adding) (id : String)
    → add_all d es a ≡ some b
    → is_known id b.set ≡ (is_known id a.set || has_id id es)
unfolding add_all
add_all-is_known d [] a b id e =
    ap (λ (x : Adding). is_known id x.set) (sym (some-injective _ _ e)) ∙ ground arith
add_all-is_known d (v ∷ es) a b id e = elim (Option-cases (add_one d v a)) [
  | inl failed ↦
      let nothing : add_all d (v ∷ es) a ≡ none = rw (failed, add_all) refl in
      absurd (cc (nothing, e))
  | inr (a', went) ↦
      let rest : add_all d (v ∷ es) a ≡ add_all d es a' = rw (went, add_all) refl in
      add_all-is_known d es a' b id (sym rest ∙ e)
      ∙ ground (arith, add_one-is_known d v a a' id went)
]

with_token-index :
    (d : Direction) (token : Option String) (a : Adding)
    → (with_token d token a).event_id_to_timeline ≡ a.set.event_id_to_timeline
unfolding with_token
with_token-index d token a = ground arith

-- the events that pass the filter of the set
abbrev pub kept : Option (List Event → List Event) → List Event → List Event
kept none events = events
kept (some f) events = f events

add_unfiltered-IsIndexed :
    (events : List Event) (d : Direction) (n : ℕ) (token : Option String) (s s' : TimelineSet)
    → IsIndexed s
    → add_unfiltered events d n token s ≡ some s'
    → IsIndexed s' × ((id : String) → is_known id s' ≡ (is_known id s || has_id id events))
unfolding add_unfiltered
add_unfiltered-IsIndexed events d n token s s' indexed e =
    let a : Adding = record {
      set = s;
      timeline = n;
      did_update = false;
      last_event_was_new = false;
    } in
    elim (Option-cases (add_all d events a)) [
      | inl failed ↦
          let nothing : add_unfiltered events d n token s ≡ none =
            rw (failed, add_unfiltered) refl in
          absurd (cc (nothing, e))
      | inr (b, went) ↦
          let ended : add_unfiltered events d n token s ≡ some (with_token d token b) =
            rw (went, add_unfiltered) refl in
          let last = some-injective _ _ (sym ended ∙ e) in
          (
            subst IsIndexed last
                (with_token-IsIndexed d token b (add_all-IsIndexed d events a b went indexed)),
            λ id.
                ap (is_known id) (sym last)
                ∙ ap (λ i. is_some (get id i)) (with_token-index d token b)
                ∙ add_all-is_known d events a b id went,
          )
    ]

has_id-nil : (id : String) (es : List Event) → is_empty es ≡ true → has_id id es ≡ false
has_id-nil id [] e = refl
has_id-nil id (v ∷ es) e = cc

-- If a timeline set has every event once, in the timeline that its index says, then it does after
-- `addEventsToTimeline`, whenever that does not throw, and it has just the events of before and those
-- that pass the filter.
pub add_events_to_timeline-IsIndexed :
    (filter : Option (List Event → List Event)) (events : List Event) (d : Direction) (n : ℕ)
    (token : Option String) (s s' : TimelineSet)
    → IsIndexed s
    → add_events_to_timeline filter events d n token s ≡ some s'
    → IsIndexed s'
      × ((id : String) → is_known id s' ≡ (is_known id s || has_id id (kept filter events)))
unfolding add_events_to_timeline
add_events_to_timeline-IsIndexed filter events d n token s s' indexed e =
    elim (Bool-cases (not (is_backwards d) && (n == s.live_timeline))) [
      | inl live ↦
          let nothing : add_events_to_timeline filter events d n token s ≡ none =
            rw (live, add_events_to_timeline) refl in
          absurd (cc (nothing, e))
      | inr fine ↦ filtered filter (sym (rw (fine, add_events_to_timeline) refl) ∙ e)
    ]
  where
    filtered :
        (f : Option (List Event → List Event))
        → (elim f [
          | none ↦ add_unfiltered events d n token s
          | some g ↦ if is_empty (g events) then some s else add_unfiltered (g events) d n token s
        ])
          ≡ some s'
        → IsIndexed s'
          × ((id : String) → is_known id s' ≡ (is_known id s || has_id id (kept f events)))
    filtered none h = add_unfiltered-IsIndexed events d n token s s' indexed h
    filtered (some g) h = elim (Bool-cases (is_empty (g events))) [
      | inl empty ↦
          let same : some s ≡ some s' =
            subst (λ b. (if b then some s else add_unfiltered (g events) d n token s) ≡ some s')
              empty h in
          (
            subst IsIndexed (some-injective _ _ same) indexed,
            λ id.
                ap (is_known id) (sym (some-injective _ _ same))
                ∙ ground (arith, has_id-nil id (g events) empty),
          )
      | inr some_left ↦ add_unfiltered-IsIndexed (g events) d n token s s' indexed (
          subst (λ b. (if b then some s else add_unfiltered (g events) d n token s) ≡ some s')
            some_left h)
    ]
