-- ===== src/Scheduler/Counts.antt =====
-- How often a queue's name stands among the active queues and among the jobs of scheduler.js.
use matrix_js_sdk.Base.{
  ℕ, zero, suc, ◌+◌, ◌-◌, String, ◌≡◌, refl, Bool, true, false, some, List, [], ◌∷◌, ◌++◌, arith,
  eq_iff, str_eq, if◌then◌else◌, get_elem?, ltb, Option-cases, inl, inr,
}
use matrix_js_sdk.Base.Dict.{get, get-put, IsUnique, put-IsUnique}
use matrix_js_sdk.Scheduler.Queues.{
  Entry, Job, Scheduler, queue_of, is_active, remove_first, tail_of, remove_next_event,
  update_entry, replace_entry, remove_job,
}

abbrev pub count : String → List String → ℕ
count name [] = 0
count name (n ∷ ns) = (if str_eq n name then 1 else 0) + count name ns

abbrev pub names : List (String × Job) → List String
names [] = []
names ((n, j) ∷ js) = n ∷ names js

-- there is something in the queue
abbrev pub has_events : List Entry → Bool
has_events [] = false
has_events (e ∷ es) = true

pub count-append :
    (name : String) (xs ys : List String) → count name (xs ++ ys) ≡ count name xs + count name ys
count-append name [] ys = omega arith
count-append name (x ∷ xs) ys = omega (arith, count-append name xs ys)

pub count-remove_first :
    (name k : String) (xs : List String)
    → count k (remove_first name xs) ≡ count k xs - (if str_eq name k then 1 else 0)
unfolding remove_first
count-remove_first name k [] = ground arith
count-remove_first name k (x ∷ xs) =
    ground (arith, count-remove_first name k xs, eq_iff x name, eq_iff x k, eq_iff name k)

pub is_active_iff : (name : String) (xs : List String) → is_active name xs ≡ ltb 0 (count name xs)
is_active_iff name [] = ground arith
is_active_iff name (x ∷ xs) = ground (arith, is_active_iff name xs)

-- Taking the job at `i` away takes one occurrence of its name away.
pub count-remove_job :
    (i : ℕ) (k name : String) (j : Job) (js : List (String × Job))
    → get_elem? js i ≡ some (name, j)
    → count k (names js) ≡ count k (names (remove_job i js)) + (if str_eq name k then 1 else 0)
unfolding remove_job
count-remove_job i k name j [] h = cc
count-remove_job zero k name j ((n, x) ∷ js) h = ground arith
count-remove_job (suc i) k name j ((n, x) ∷ js) h = ground (arith, count-remove_job i k name j js h)

pub has_events-append : (q : List Entry) (e : Entry) → has_events (q ++ e ∷ []) ≡ true
has_events-append [] e = refl
has_events-append (x ∷ q) e = refl

has_events-replace_entry :
    (obj : Entry) (q : List Entry) → has_events (replace_entry obj q) ≡ has_events q
unfolding replace_entry
has_events-replace_entry obj [] = refl
has_events-replace_entry obj (x ∷ q) = refl

-- Another queue is not touched.
pub queue_of-remove_next_event :
    (name k : String) (s : Scheduler)
    → queue_of k (remove_next_event name s)
      ≡ (if str_eq name k then tail_of (queue_of k s) else queue_of k s)
unfolding remove_next_event
queue_of-remove_next_event name k s = elim (Option-cases (get name s.queues)) [
  | inl e ↦ ground (arith, e, eq_iff name k)
  | inr (q, e) ↦ ground (arith, e, get-put name k (tail_of q) s.queues, eq_iff name k)
]

pub has_events-update_entry :
    (name k : String) (obj : Entry) (s : Scheduler)
    → has_events (queue_of k (update_entry name obj s)) ≡ has_events (queue_of k s)
unfolding update_entry
has_events-update_entry name k obj s = elim (Option-cases (get name s.queues)) [
  | inl e ↦ ground (arith, e)
  | inr (q, e) ↦ ground (
    arith,
    e,
    get-put name k (replace_entry obj q) s.queues,
    has_events-replace_entry obj q,
    eq_iff name k,
  )
]

-- nothing else changes
pub remove_next_event-else :
    (name : String) (s : Scheduler)
    → ((remove_next_event name s).active_queues ≡ s.active_queues)
      × ((remove_next_event name s).jobs ≡ s.jobs)
      × ((remove_next_event name s).has_proc_fn ≡ s.has_proc_fn)
unfolding remove_next_event
remove_next_event-else name s = ground arith

pub update_entry-else :
    (name : String) (obj : Entry) (s : Scheduler)
    → ((update_entry name obj s).active_queues ≡ s.active_queues)
      × ((update_entry name obj s).jobs ≡ s.jobs)
      × ((update_entry name obj s).has_proc_fn ≡ s.has_proc_fn)
unfolding update_entry
update_entry-else name obj s = ground arith

pub remove_next_event-IsUnique :
    (name : String) (s : Scheduler) → IsUnique s.queues → IsUnique (remove_next_event name s).queues
unfolding remove_next_event
remove_next_event-IsUnique name s u = elim (Option-cases (get name s.queues)) [
  | inl e ↦ rw (e, remove_next_event) u
  | inr (q, e) ↦ rw (e, remove_next_event) (put-IsUnique name (tail_of q) s.queues u)
]

pub update_entry-IsUnique :
    (name : String) (obj : Entry) (s : Scheduler)
    → IsUnique s.queues
    → IsUnique (update_entry name obj s).queues
unfolding update_entry
update_entry-IsUnique name obj s u = elim (Option-cases (get name s.queues)) [
  | inl e ↦ rw (e, update_entry) u
  | inr (q, e) ↦ rw (e, update_entry) (put-IsUnique name (replace_entry obj q) s.queues u)
]

has_events-tail_of : (q : List Entry) → has_events (tail_of q) ≡ true → has_events q ≡ true
has_events-tail_of [] h = h
has_events-tail_of (x ∷ q) h = refl

pub has_events_of_remove_next_event :
    (name k : String) (s : Scheduler)
    → has_events (queue_of k (remove_next_event name s)) ≡ true
    → has_events (queue_of k s) ≡ true
has_events_of_remove_next_event name k s h =
    ground (arith, queue_of-remove_next_event name k s, has_events-tail_of (queue_of k s), h)
