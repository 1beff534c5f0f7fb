-- ===== src/Scheduler/Steps.antt =====
-- The steps of scheduler.js, by its client and by its environment, keep its invariant.
use mathlib.Core.Option.{some-injective}
use mathlib.Core.Path.{subst}
use matrix_js_sdk.Base.{
  ℕ, ◌+◌, ◌≤◌, String, ◌≡◌, refl, true, Option, none, some, List, [], ◌∷◌, ◌++◌, arith, eq_iff,
  get_elem?, Option-cases, inl, inr,
}
use matrix_js_sdk.Base.Dict.{get, put, get-put, put-IsUnique}
use matrix_js_sdk.Scheduler.Queues.{
  Event, Error, Entry, Job, sending, waiting, Settled, resolved, rejected, Scheduler, new_scheduler,
  queue_of, remove_next_event, set_process_function, remove_event, update_entry, remove_job,
  on_success, on_failure, add_attempt, queue_name, remove_event_from_queue, queue_event, succeed,
  fail, wake,
}
use matrix_js_sdk.Scheduler.Counts.{count, names, has_events}
use matrix_js_sdk.Scheduler.Invariant.{
  Inv, IsValid, IsValid-IsConsistent, process_queue-Inv, start_processing_queues-IsValid,
  set_process_function-IsValid, remove_job-Inv, remove_next_event-Inv, update_entry-Inv,
}

-- a promise that is settled does not matter to the invariant
settle-Inv :
    (x : Settled) (owed : List String) (s : Scheduler)
    → Inv owed [] s
    → Inv owed [] (record s { settled = x ∷ s.settled })
settle-Inv x owed s v = record { jobs = v.jobs; once = v.once; awake = v.awake; unique = v.unique }

on_success-IsValid :
    (name : String) (obj : Entry) (s : Scheduler)
    → Inv (name ∷ []) [] s
    → IsValid (on_success name obj s)
on_success-IsValid name obj s v = process_queue-Inv name [] _ (
    settle-Inv (resolved obj.defer) (name ∷ []) (remove_next_event name s)
      (remove_next_event-Inv name (name ∷ []) s v))

on_failure-IsValid :
    (o : Option ℕ) (name : String) (obj : Entry) (s : Scheduler)
    → Inv (name ∷ []) [] s
    → IsValid (on_failure o name obj s)
on_failure-IsValid none name obj s v =
    let s' = update_entry name (add_attempt obj) s in
    process_queue-Inv name [] _ (
      settle-Inv (rejected obj.defer) (name ∷ []) (remove_next_event name s') (
        remove_next_event-Inv name (name ∷ []) s'
          (update_entry-Inv name (add_attempt obj) (name ∷ []) s v)))
on_failure-IsValid (some wait) name obj s v =
    let w = update_entry-Inv name (add_attempt obj) (name ∷ []) s v in
    record {
      jobs = λ k. ground (arith, w.jobs k);
      once = w.once;
      awake = w.awake;
      unique = w.unique;
    }

has_events_of_remove_event :
    (e : Event) (q : List Entry) → has_events (remove_event e q).0 ≡ true → has_events q ≡ true
unfolding remove_event
has_events_of_remove_event e [] h = h
has_events_of_remove_event e (x ∷ q) h = refl

module _ (queue_algorithm : Event → Option String)
    (retry_algorithm : Event → ℕ → Error → Option ℕ) where
  -- One operation by the client, or the end of one job.
  pub data Step (s : Scheduler) : Scheduler → Type 0 where
    queued : (e : Event) → Step s (queue_event queue_algorithm retry_algorithm e s).0
    removed : (e : Event) → Step s (remove_event_from_queue queue_algorithm retry_algorithm e s).0
    started : Step s (set_process_function s)
    succeeded :
        (i : ℕ) {s' : Scheduler} → succeed queue_algorithm retry_algorithm i s ≡ some s' → Step s s'
    failed :
        (i : ℕ) (err : Error) {s' : Scheduler}
        → fail queue_algorithm retry_algorithm i err s ≡ some s'
        → Step s s'
    woken :
        (i : ℕ) {s' : Scheduler} → wake queue_algorithm retry_algorithm i s ≡ some s' → Step s s'

  pub data Reach (s : Scheduler) : Scheduler → Type 0 where
    here : Reach s s
    next : {t u : Scheduler} → Reach s t → Step t u → Reach s u

  queue_event-IsValid :
      (e : Event) (s : Scheduler)
      → IsValid s
      → IsValid (queue_event queue_algorithm retry_algorithm e s).0
  unfolding queue_event
  queue_event-IsValid e s v = elim (Option-cases (queue_name queue_algorithm retry_algorithm e)) [
    | inl n ↦ rw (n, queue_event) v
    | inr (name, n) ↦
        let entry : Entry = record { event = e; defer = s.next_defer; attempts = 0 } in
        let c = IsValid-IsConsistent s v in
        let s' : Scheduler = record s {
          queues = put name (queue_of name s ++ entry ∷ []) s.queues;
          next_defer = s.next_defer + 1;
        } in
        rw (n, queue_event)
          (start_processing_queues-IsValid s' (record {
            jobs = c.jobs;
            once = c.once;
            unique = put-IsUnique name _ s.queues c.unique;
          }))
  ]

  remove_event-IsValid :
      (e : Event) (s : Scheduler)
      → IsValid s
      → IsValid (remove_event_from_queue queue_algorithm retry_algorithm e s).0
  unfolding remove_event_from_queue
  remove_event-IsValid e s v = elim (Option-cases (queue_name queue_algorithm retry_algorithm e)) [
    | inl n ↦ rw (n, remove_event_from_queue) v
    | inr (name, n) ↦ elim (Option-cases (get name s.queues)) [
      | inl g ↦ rw (n, remove_event_from_queue) (rw (g, remove_event_from_queue) v)
      | inr (q, g) ↦
          rw (n, remove_event_from_queue)
            (rw (g, remove_event_from_queue)
              (record {
                jobs = v.jobs;
                once = v.once;
                awake = λ k p h. v.awake k p (
                    ground (
                      arith,
                      h,
                      g,
                      get-put name k (remove_event e q).0 s.queues,
                      eq_iff name k,
                      has_events_of_remove_event e q,
                    ));
                unique = put-IsUnique name (remove_event e q).0 s.queues v.unique;
              }))
    ]
  ]

  succeed-IsValid :
      (i : ℕ) (s s' : Scheduler)
      → succeed queue_algorithm retry_algorithm i s ≡ some s'
      → IsValid s
      → IsValid s'
  unfolding succeed
  succeed-IsValid i s s' h v = go (get_elem? s.jobs i) refl
    where
      go : (o : Option (String × Job)) → get_elem? s.jobs i ≡ o → IsValid s'
      go none e = cc (rw (e, succeed) at h)
      go (some (name, waiting ms)) e = cc (rw (e, succeed) at h)
      go (some (name, sending obj)) e = subst IsValid (some-injective _ _ (rw (e, succeed) at h)) (
          on_success-IsValid name obj (record s { jobs = remove_job i s.jobs })
            (remove_job-Inv i name (sending obj) s e v))

  fail-IsValid :
      (i : ℕ) (err : Error) (s s' : Scheduler)
      → fail queue_algorithm retry_algorithm i err s ≡ some s'
      → IsValid s
      → IsValid s'
  unfolding fail
  fail-IsValid i err s s' h v = go (get_elem? s.jobs i) refl
    where
      go : (o : Option (String × Job)) → get_elem? s.jobs i ≡ o → IsValid s'
      go none e = cc (rw (e, fail) at h)
      go (some (name, waiting ms)) e = cc (rw (e, fail) at h)
      go (some (name, sending obj)) e = subst IsValid (some-injective _ _ (rw (e, fail) at h)) (
          on_failure-IsValid (retry_algorithm obj.event (obj.attempts + 1) err) name obj
            (record s { jobs = remove_job i s.jobs }) (remove_job-Inv i name (sending obj) s e v))

  wake-IsValid :
      (i : ℕ) (s s' : Scheduler)
      → wake queue_algorithm retry_algorithm i s ≡ some s'
      → IsValid s
      → IsValid s'
  unfolding wake
  wake-IsValid i s s' h v = go (get_elem? s.jobs i) refl
    where
      go : (o : Option (String × Job)) → get_elem? s.jobs i ≡ o → IsValid s'
      go none e = cc (rw (e, wake) at h)
      go (some (name, sending obj)) e = cc (rw (e, wake) at h)
      go (some (name, waiting ms)) e = subst IsValid (some-injective _ _ (rw (e, wake) at h)) (
          process_queue-Inv name [] (record s { jobs = remove_job i s.jobs })
            (remove_job-Inv i name (waiting ms) s e v))

  Step-IsValid : {s s' : Scheduler} → IsValid s → Step s s' → IsValid s'
  Step-IsValid {s} v (queued e) = queue_event-IsValid e s v
  Step-IsValid {s} v (removed e) = remove_event-IsValid e s v
  Step-IsValid {s} v started = set_process_function-IsValid s v
  Step-IsValid {s} {s'} v (succeeded i h) = succeed-IsValid i s s' h v
  Step-IsValid {s} {s'} v (failed i err h) = fail-IsValid i err s s' h v
  Step-IsValid {s} {s'} v (woken i h) = wake-IsValid i s s' h v

  new_scheduler-IsValid : IsValid new_scheduler
  new_scheduler-IsValid = record {
    jobs = λ k. omega arith;
    once = λ k. omega arith;
    awake = λ k p h. cc (p);
    unique = tt;
  }

  Reach-IsValid : {s s' : Scheduler} → IsValid s → Reach s s' → IsValid s'
  Reach-IsValid v here = v
  Reach-IsValid v (next r st) = Step-IsValid (Reach-IsValid v r) st

  -- In every state that a new scheduler reaches by operations and by ends of jobs, in any order, a
  -- queue has at most one job: an event at the process function, or a retry that is waited for.
  pub Reach-one_job :
      {s : Scheduler} → Reach new_scheduler s → (k : String) → count k (names s.jobs) ≤ 1
  Reach-one_job r k =
      let v = Reach-IsValid new_scheduler-IsValid r in omega (arith, v.jobs k, v.once k)

  -- In every state that a new scheduler reaches, once a process function is set, a queue with events
  -- has a job: no event waits in a queue that nothing will look at.
  pub Reach-awake :
      {s : Scheduler}
      → Reach new_scheduler s
      → s.has_proc_fn ≡ true
      → (k : String) → has_events (queue_of k s) ≡ true
      → count k (names s.jobs) ≡ 1
  Reach-awake r p k h =
      let v = Reach-IsValid new_scheduler-IsValid r in omega (arith, v.jobs k, v.awake k p h)
