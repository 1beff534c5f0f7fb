-- ===== src/Scheduler/Invariant.antt =====
-- At most one event of a queue of scheduler.js is at the process function or waits for its retry at
-- a time, and a queue with events always has one that is.
use matrix_js_sdk.Base.{
  ℕ, ◌+◌, ◌≤◌, String, ◌≡◌, refl, true, false, not, ◌&&◌, Option, none, some, List, [], ◌∷◌, ◌++◌,
  arith, eq_iff, if◌then◌else◌, get_elem?, Bool-cases, inl, inr,
}
use matrix_js_sdk.Base.Dict.{Dict, get, IsUnique}
use matrix_js_sdk.Scheduler.Queues.{
  Entry, Job, sending, Scheduler, queue_of, is_active, remove_first, remove_next_event,
  process_queue, ready_names, start_names, start_processing_queues, set_process_function,
  update_entry, remove_job,
}
use matrix_js_sdk.Scheduler.Counts.{
  count, names, has_events, count-append, count-remove_first, is_active_iff, count-remove_job,
  has_events_of_remove_next_event, has_events-update_entry, remove_next_event-else,
  update_entry-else, remove_next_event-IsUnique, update_entry-IsUnique,
}

-- A state in which a job is owed to each name of `owed`, and the names of `todo` are to be started.
pub record Inv (owed todo : List String) (s : Scheduler) : Type 0 where
  -- every active queue has one job, and no other queue has any
  pub jobs : (k : String) → count k (names s.jobs) + count k owed ≡ count k s.active_queues
  pub once : (k : String) → count k s.active_queues + count k todo ≤ 1
  -- once there is a process function, every queue with events is active
  pub awake :
      (k : String)
      → s.has_proc_fn ≡ true
      → has_events (queue_of k s) ≡ true
      → count k s.active_queues + count k todo ≡ 1
  pub unique : IsUnique s.queues

abbrev pub IsValid : Scheduler → Type 0
IsValid = Inv [] []

process_queue-nil :
    (n : String) (s : Scheduler)
    → queue_of n s ≡ []
    → process_queue n s ≡ record s { active_queues = remove_first n s.active_queues }
unfolding process_queue
process_queue-nil n s e = rw (e, process_queue) refl

process_queue-cons :
    (n : String) (s : Scheduler) (x : Entry) (q : List Entry)
    → queue_of n s ≡ x ∷ q
    → process_queue n s ≡ record s { jobs = (n, sending x) ∷ s.jobs }
unfolding process_queue
process_queue-cons n s x q e = rw (e, process_queue) refl

pub process_queue-Inv :
    (n : String) (todo : List String) (s : Scheduler)
    → Inv (n ∷ []) todo s
    → Inv [] todo (process_queue n s)
process_queue-Inv n todo s v = go (queue_of n s) refl
  where
    go : (q : List Entry) → queue_of n s ≡ q → Inv [] todo (process_queue n s)
    go [] e = rw (process_queue-nil n s e) (record {
      jobs = λ k. ground (arith, v.jobs k, count-remove_first n k s.active_queues);
      once = λ k. ground (arith, v.once k, count-remove_first n k s.active_queues);
      awake = λ k p h.
          ground (arith, v.awake k p h, count-remove_first n k s.active_queues, eq_iff n k, e, h);
      unique = v.unique;
    })
    go (x ∷ q) e = rw (process_queue-cons n s x q e) (record {
      jobs = λ k. ground (arith, v.jobs k);
      once = v.once;
      awake = v.awake;
      unique = v.unique;
    })

start_one-Inv :
    (n : String) (todo : List String) (s : Scheduler)
    → Inv [] (n ∷ todo) s
    → Inv (n ∷ []) todo (record s { active_queues = s.active_queues ++ n ∷ [] })
start_one-Inv n todo s v = record {
  jobs = λ k. omega (arith, v.jobs k, count-append k s.active_queues (n ∷ []));
  once = λ k. omega (arith, v.once k, count-append k s.active_queues (n ∷ []));
  awake = λ k p h. omega (arith, v.awake k p h, count-append k s.active_queues (n ∷ []));
  unique = v.unique;
}

start_names-IsValid :
    (todo : List String) (s : Scheduler) → Inv [] todo s → IsValid (start_names todo s)
unfolding start_names
start_names-IsValid [] s v = v
start_names-IsValid (n ∷ todo) s v =
    start_names-IsValid todo
      (process_queue n (record s { active_queues = s.active_queues ++ n ∷ [] }))
      (process_queue-Inv n todo (record s { active_queues = s.active_queues ++ n ∷ [] })
        (start_one-Inv n todo s v))

abbrev or_empty : Option (List Entry) → List Entry
or_empty none = []
or_empty (some q) = q

-- The names to be started are those of the queues with events that are not active, once each.
count-ready_names :
    (k : String) (s : Scheduler) (d : Dict (List Entry))
    → IsUnique d
    → count k (ready_names s d)
      ≡ (if not (is_active k s.active_queues) && has_events (or_empty (get k d)) then 1 else 0)
unfolding ready_names get
count-ready_names k s [] u = ground arith
count-ready_names k s ((n, []) ∷ d) u = ground (arith, count-ready_names k s d u.1, eq_iff n k)
count-ready_names k s ((n, x ∷ q) ∷ d) u =
    ground (arith, count-ready_names k s d u.1, eq_iff n k, u.0)

-- what an operation leaves before it starts the queues
pub record IsConsistent (s : Scheduler) : Type 0 where
  pub jobs : (k : String) → count k (names s.jobs) ≡ count k s.active_queues
  pub once : (k : String) → count k s.active_queues ≤ 1
  pub unique : IsUnique s.queues

start_processing_queues-on :
    (s : Scheduler)
    → s.has_proc_fn ≡ true
    → start_processing_queues s ≡ start_names (ready_names s s.queues) s
unfolding start_processing_queues
start_processing_queues-on s on = ground arith

start_processing_queues-off :
    (s : Scheduler) → s.has_proc_fn ≡ false → start_processing_queues s ≡ s
unfolding start_processing_queues
start_processing_queues-off s off = ground arith

pub start_processing_queues-IsValid :
    (s : Scheduler) → IsConsistent s → IsValid (start_processing_queues s)
start_processing_queues-IsValid s v = elim (Bool-cases s.has_proc_fn) [
  | inr off ↦ rw (start_processing_queues-off s off) (record {
    jobs = λ k. omega (arith, v.jobs k);
    once = λ k. omega (arith, v.once k);
    awake = λ k p h. cc (off, p);
    unique = v.unique;
  })
  | inl on ↦
      let ready = λ (k : String). count-ready_names k s s.queues v.unique in
      let active = λ (k : String). is_active_iff k s.active_queues in
      rw (start_processing_queues-on s on) (
        start_names-IsValid (ready_names s s.queues) s (record {
          jobs = λ k. omega (arith, v.jobs k);
          once = λ k. ground (arith, v.once k, ready k, active k);
          awake = λ k p h. ground (arith, v.once k, ready k, active k, h);
          unique = v.unique;
        }))
]

pub IsValid-IsConsistent : (s : Scheduler) → IsValid s → IsConsistent s
IsValid-IsConsistent s v = record {
  jobs = λ k. omega (arith, v.jobs k);
  once = λ k. omega (arith, v.once k);
  unique = v.unique;
}

pub set_process_function-IsValid : (s : Scheduler) → IsValid s → IsValid (set_process_function s)
unfolding set_process_function
set_process_function-IsValid s v =
    let c = IsValid-IsConsistent s v in
    start_processing_queues-IsValid (record s { has_proc_fn = true })
      (record { jobs = c.jobs; once = c.once; unique = c.unique })

-- The job at `i` is taken away, and its queue is owed one.
pub remove_job-Inv :
    (i : ℕ) (name : String) (j : Job) (s : Scheduler)
    → get_elem? s.jobs i ≡ some (name, j)
    → IsValid s
    → Inv (name ∷ []) [] (record s { jobs = remove_job i s.jobs })
remove_job-Inv i name j s h v = record {
  jobs = λ k. ground (arith, v.jobs k, count-remove_job i k name j s.jobs h);
  once = v.once;
  awake = v.awake;
  unique = v.unique;
}

pub remove_next_event-Inv :
    (name : String) (owed : List String) (s : Scheduler)
    → Inv owed [] s
    → Inv owed [] (remove_next_event name s)
remove_next_event-Inv name owed s v =
    let (active, jobs, proc) = remove_next_event-else name s in
    record {
      jobs = λ k. rw (active, jobs) (v.jobs k);
      once = λ k. rw active (v.once k);
      awake = λ k p h.
          rw active (v.awake k (rw proc at p) (has_events_of_remove_next_event name k s h));
      unique = remove_next_event-IsUnique name s v.unique;
    }

pub update_entry-Inv :
    (name : String) (obj : Entry) (owed : List String) (s : Scheduler)
    → Inv owed [] s
    → Inv owed [] (update_entry name obj s)
update_entry-Inv name obj owed s v =
    let (active, jobs, proc) = update_entry-else name obj s in
    record {
      jobs = λ k. rw (active, jobs) (v.jobs k);
      once = λ k. rw active (v.once k);
      awake = λ k p h.
          rw active (v.awake k (rw proc at p) (rw (has_events-update_entry name k obj s) at h));
      unique = update_entry-IsUnique name obj s v.unique;
    }
