-- ===== src/Timelines/Ownership.antt =====
-- That a timeline set has every event once, in the timeline that its index says.
use matrix_js_sdk.Base.{
  ℕ, zero, suc, ◌+◌, ◌≡◌, refl, ap, sym, ◌∙◌, inl, inr, String, Bool, true, false, ◌&&◌, ◌||◌, not,
  Option, none, some, List, [], ◌∷◌, ◌++◌, arith, get_elem?, ◌==◌, ==_iff, str_eq, if◌then◌else◌,
  Option-cases, Bool-cases, eq_iff, is_some,
}
use mathlib.Core.Option.{some-injective}
use mathlib.Core.Path.{subst}
use matrix_js_sdk.Base.Dict.{get, put, get-put}
use matrix_js_sdk.Timelines.Timeline.{
  Event, Timeline, Direction, backwards, forwards, get_neighbouring_timeline,
  set_neighbouring_timeline, set_pagination_token, add_event, with_neighbour,
}
use matrix_js_sdk.Timelines.Sets.{
  TimelineSet, update_at, add_event_to_timeline, set_neighbour_at, join_timelines, inverse, Adding,
  is_backwards, with_token,
}

abbrev pub count : String → List Event → ℕ
count id [] = 0
count id (e ∷ es) = (if str_eq e.id id then 1 else 0) + count id es

abbrev pub is_in : ℕ → Option ℕ → Bool
is_in n none = false
is_in n (some m) = m == n

-- Every timeline has an event once if the index says so, and otherwise not at all.
abbrev pub IsIndexed : TimelineSet → Type 0
IsIndexed s =
    (n : ℕ) (t : Timeline)
    → get_elem? s.timelines n ≡ some t
    → (id : String) → count id t.events ≡ (if is_in n (get id s.event_id_to_timeline) then 1 else 0)

count-append : (id : String) (xs ys : List Event) → count id (xs ++ ys) ≡ count id xs + count id ys
count-append id [] ys = omega arith
count-append id (x ∷ xs) ys = omega (arith, count-append id xs ys)

count-add_event :
    (id : String) (unfiltered : Bool) (e : Event) (at_start : Bool) (t : Timeline)
    → count id (add_event unfiltered e at_start t).events
      ≡ (if str_eq e.id id then 1 else 0) + count id t.events
unfolding add_event
count-add_event id unfiltered e true t = refl
count-add_event id unfiltered e false t = omega (arith, count-append id t.events (e ∷ []))

-- a timeline after a change of one is that one changed, or another as it was
get-update_at :
    (n m : ℕ) (f : Timeline → Timeline) (ts : List Timeline) (u : Timeline)
    → get_elem? (update_at n f ts) m ≡ some u
    → (t : Timeline) × (get_elem? ts m ≡ some t) × (u ≡ (if n == m then f t else t))
unfolding update_at
get-update_at n m f [] u e = cc
get-update_at zero zero f (t ∷ ts) u e = (t, refl, sym (some-injective _ _ e))
get-update_at zero (suc m) f (t ∷ ts) u e = (u, e, ground arith)
get-update_at (suc n) zero f (t ∷ ts) u e = (t, refl, sym (some-injective _ _ e) ∙ ground arith)
get-update_at (suc n) (suc m) f (t ∷ ts) u e =
    let (v, there, same) = get-update_at n m f ts u e in (v, there, same ∙ ground arith)

-- a change that leaves the events of the timeline
same_events :
    (s : TimelineSet) (n : ℕ) (f : Timeline → Timeline)
    → ((t : Timeline) → get_elem? s.timelines n ≡ some t → (f t).events ≡ t.events)
    → IsIndexed s
    → IsIndexed (record s { timelines = update_at n f s.timelines })
same_events s n f kept indexed m u e id =
    let (t, there, same) = get-update_at n m f s.timelines u e in
    ap (count id) (events_at t there same) ∙ indexed m t there id
  where
    events_at :
        (t : Timeline)
        → get_elem? s.timelines m ≡ some t
        → u ≡ (if n == m then f t else t)
        → u.events ≡ t.events
    events_at t there same = elim (Bool-cases (n == m)) [
      | inl here ↦
          let n_is_m = (==_iff n m).0 here in
          let changed : u ≡ f t = subst (λ b. u ≡ (if b then f t else t)) here same in
          ap (λ (x : Timeline). x.events) changed
          ∙ kept t (ap (get_elem? s.timelines) n_is_m ∙ there)
      | inr elsewhere ↦
          let unchanged : u ≡ t = subst (λ b. u ≡ (if b then f t else t)) elsewhere same in
          ap (λ (x : Timeline). x.events) unchanged
    ]

-- an event that is new to the set
pub add_event_to_timeline-IsIndexed :
    (e : Event) (n : ℕ) (at_start : Bool) (s : TimelineSet)
    → get e.id s.event_id_to_timeline ≡ none
    → IsIndexed s
    → IsIndexed (add_event_to_timeline e n at_start s)
unfolding add_event_to_timeline
add_event_to_timeline-IsIndexed e n at_start s new indexed m u there id =
    let (t, was, same) =
      get-update_at n m (λ t. add_event s.is_unfiltered e at_start t) s.timelines u there in
    counted t (indexed m t was id) same
  where
    counted :
        (t : Timeline)
        → count id t.events ≡ (if is_in m (get id s.event_id_to_timeline) then 1 else 0)
        → u ≡ (if n == m then add_event s.is_unfiltered e at_start t else t)
        → count id u.events
          ≡ (if is_in m (get id (put e.id n s.event_id_to_timeline)) then 1 else 0)
    counted t before same =
        ap (λ (x : Timeline). count id x.events) same
        ∙ ground (
          arith,
          before,
          count-add_event id s.is_unfiltered e at_start t,
          get-put e.id id n s.event_id_to_timeline,
          eq_iff e.id id,
          new,
        )

set_neighbouring_timeline-events :
    (neighbour : ℕ) (d : Direction) (t t' : Timeline)
    → set_neighbouring_timeline neighbour d t ≡ some t'
    → t'.events ≡ t.events
unfolding set_neighbouring_timeline
set_neighbouring_timeline-events neighbour d t t' e =
    elim (Bool-cases (is_some (get_neighbouring_timeline d t))) [
      | inl taken ↦
          let refused : set_neighbouring_timeline neighbour d t ≡ none =
            rw (taken, set_neighbouring_timeline) refl in
          absurd (cc (refused, e))
      | inr free ↦
          let x = set_pagination_token none d (with_neighbour neighbour d t) in
          let went : set_neighbouring_timeline neighbour d t ≡ some x =
            rw (free, set_neighbouring_timeline) refl in
          ap (λ (u : Timeline). u.events) (some-injective _ _ (sym e ∙ went)) ∙ same_at d
    ]
  where
    same_at :
        (d : Direction)
        → (set_pagination_token none d (with_neighbour neighbour d t)).events ≡ t.events
    same_at backwards = refl
    same_at forwards = refl

set_neighbour_at-IsIndexed :
    (neighbour : ℕ) (d : Direction) (n : ℕ) (s : TimelineSet) (ts : List Timeline)
    → set_neighbour_at neighbour d n s.timelines ≡ some ts
    → IsIndexed s
    → IsIndexed (record s { timelines = ts })
unfolding set_neighbour_at
set_neighbour_at-IsIndexed neighbour d n s ts e indexed =
    elim (Option-cases (get_elem? s.timelines n)) [
      | inl missing ↦
          let refused : set_neighbour_at neighbour d n s.timelines ≡ none =
            rw (missing, set_neighbour_at) refl in
          absurd (cc (refused, e))
      | inr (t, there) ↦ elim (Option-cases (set_neighbouring_timeline neighbour d t)) [
        | inl taken ↦
            let refused : set_neighbour_at neighbour d n s.timelines ≡ none =
              rw (there, taken, set_neighbour_at) refl in
            absurd (cc (refused, e))
        | inr (t', went) ↦
            let done_so : set_neighbour_at neighbour d n s.timelines
                ≡ some (update_at n (λ _. t') s.timelines) =
              rw (there, went, set_neighbour_at) refl in
            subst (λ x. IsIndexed (record s { timelines = x }))
              (some-injective _ _ (sym done_so ∙ e))
              (same_events s n (λ _. t')
                (λ u at.
                  set_neighbouring_timeline-events neighbour d t t' went
                  ∙ ap (λ (x : Timeline). x.events) (some-injective _ _ (sym there ∙ at)))
                indexed)
      ]
    ]

pub join_timelines-IsIndexed :
    (timeline existing : ℕ) (d : Direction) (s : TimelineSet) (ts : List Timeline)
    → join_timelines timeline existing d s.timelines ≡ some ts
    → IsIndexed s
    → IsIndexed (record s { timelines = ts })
unfolding join_timelines
join_timelines-IsIndexed timeline existing d s ts e indexed =
    elim (Option-cases (set_neighbour_at existing d timeline s.timelines)) [
      | inl refused ↦
          let nothing : join_timelines timeline existing d s.timelines ≡ none =
            rw (refused, join_timelines) refl in
          absurd (cc (nothing, e))
      | inr (ts', half) ↦
          let other : set_neighbour_at timeline (inverse d) existing ts' ≡ some ts =
            sym (rw (half, join_timelines) refl) ∙ e in
          set_neighbour_at-IsIndexed timeline (inverse d) existing (record s { timelines = ts' }) ts
            other (set_neighbour_at-IsIndexed existing d timeline s ts' half indexed)
    ]

pub with_token-IsIndexed :
    (d : Direction) (token : Option String) (a : Adding)
    → IsIndexed a.set
    → IsIndexed (with_token d token a)
unfolding with_token
with_token-IsIndexed d token a indexed =
    elim (Bool-cases (
      (a.last_event_was_new || not a.did_update)
      && not (not (is_backwards d) && (a.timeline == a.set.live_timeline)))) [
        | inl sets ↦
            let went : with_token d token a ≡ record a.set {
              timelines =
                  update_at a.timeline (λ t. set_pagination_token token d t) a.set.timelines;
            } =
              rw (sets, with_token) refl in
            subst IsIndexed (sym went) (
              same_events a.set a.timeline (λ t. set_pagination_token token d t)
                (λ t there. same_at d t) indexed)
        | inr leaves ↦
            let went : with_token d token a ≡ a.set = rw (leaves, with_token) refl in
            subst IsIndexed (sym went) indexed
      ]
  where
    same_at : (d : Direction) (t : Timeline) → (set_pagination_token token d t).events ≡ t.events
    same_at backwards t = refl
    same_at forwards t = refl
