-- ===== src/Timelines/Adding.antt =====
-- That the loop of `addEventsToTimeline` of models/event-timeline-set.js keeps every event once.
use matrix_js_sdk.Base.{
  ℕ, ◌≡◌, refl, sym, ◌∙◌, inl, inr, true, false, Option, none, some, List, [], ◌∷◌, get_elem?, ◌==◌,
  Option-cases, Bool-cases,
}
use mathlib.Core.Option.{some-injective}
use mathlib.Core.Path.{subst}
use matrix_js_sdk.Base.Dict.{get}
use matrix_js_sdk.Timelines.Timeline.{Event, Timeline, Direction, get_neighbouring_timeline}
use matrix_js_sdk.Timelines.Sets.{
  TimelineSet, join_timelines, refuses, Adding, is_backwards, add_existing, add_one, add_all,
}
use matrix_js_sdk.Timelines.Ownership.{
  IsIndexed, add_event_to_timeline-IsIndexed, join_timelines-IsIndexed,
}

-- what a step of the loop may leave
abbrev IsIndexedIfSome : Option Adding → Type 0
IsIndexedIfSome none = Unit
IsIndexedIfSome (some a) = IsIndexed a.set

joined_part :
    (s : TimelineSet) (existing : ℕ) (o : Option (List Timeline))
    → ((ts : List Timeline) → o ≡ some ts → IsIndexed (record s { timelines = ts }))
    → IsIndexedIfSome (elim o [
      | none ↦ none
      | some ts ↦ some (record {
        set = record s { timelines = ts };
        timeline = existing;
        did_update = true;
        last_event_was_new = false;
      })
    ])
joined_part s existing none h = tt
joined_part s existing (some ts) h = h ts refl

add_existing-IsIndexed :
    (d : Direction) (existing : ℕ) (a : Adding)
    → IsIndexed a.set
    → IsIndexedIfSome (add_existing d existing a)
unfolding add_existing
add_existing-IsIndexed d existing a indexed = elim (Bool-cases (existing == a.timeline)) [
  | inl same ↦ rw (same, add_existing) indexed
  | inr other ↦ elim (Option-cases (get_elem? a.set.timelines a.timeline)) [
    | inl missing ↦ rw (other, missing, add_existing) tt
    | inr (t, there) ↦ elim (Option-cases (get_neighbouring_timeline d t)) [
      | inr (m, neighbour) ↦ rw (other, there, neighbour, add_existing) indexed
      | inl free ↦
          elim (Bool-cases
            (refuses d (existing == a.set.live_timeline) (a.timeline == a.set.live_timeline))) [
              | inl refused ↦ rw (other, there, free, refused, add_existing) indexed
              | inr joins ↦
                  rw (other, there, free, joins, add_existing)
                    (joined_part a.set existing
                      (join_timelines a.timeline existing d a.set.timelines)
                      (λ ts e. join_timelines-IsIndexed a.timeline existing d a.set ts e indexed))
            ]
    ]
  ]
]

add_one-IsIndexed :
    (d : Direction) (e : Event) (a : Adding) → IsIndexed a.set → IsIndexedIfSome (add_one d e a)
unfolding add_one
add_one-IsIndexed d e a indexed = elim (Option-cases (get e.id a.set.event_id_to_timeline)) [
  | inl new ↦
      rw (new, add_one)
        (add_event_to_timeline-IsIndexed e a.timeline (is_backwards d) a.set new indexed)
  | inr (existing, known) ↦ rw (known, add_one) (add_existing-IsIndexed d existing a indexed)
]

pub add_all-IsIndexed :
    (d : Direction) (es : List Event) (a b : Adding)
    → add_all d es a ≡ some b
    → IsIndexed a.set
    → IsIndexed b.set
unfolding add_all
add_all-IsIndexed d [] a b e indexed = subst (λ x. IsIndexed x.set) (some-injective _ _ e) indexed
add_all-IsIndexed d (v ∷ es) a b e indexed = elim (Option-cases (add_one d v a)) [
  | inl failed ↦
      let nothing : add_all d (v ∷ es) a ≡ none = rw (failed, add_all) refl in
      absurd (cc (nothing, e))
  | inr (a', went) ↦
      let rest : add_all d (v ∷ es) a ≡ add_all d es a' = rw (went, add_all) refl in
      add_all-IsIndexed d es a' b (sym rest ∙ e)
        (subst IsIndexedIfSome went (add_one-IsIndexed d v a indexed))
]
