-- ===== src/Scheduler/Queues.antt =====
-- `MatrixScheduler` of scheduler.js. A promise that is pending, or a timer that is set, is a job:
-- a queue's event at `procFn`, or a queue that waits for a retry. The environment ends a job by
-- `succeed`, `fail` or `wake` at its place in the list of jobs.
use matrix_js_sdk.Base.{
  ℕ, zero, suc, ◌+◌, String, Bool, true, false, not, ◌&&◌, Option, none, some, List, [], ◌∷◌, ◌++◌,
  map, str_eq, ◌==◌, ltb, if◌then◌else◌, get_elem?, length, truthy, any,
}
use matrix_js_sdk.Base.Dict.{Dict, get, put}

-- what the scheduler reads of a MatrixEvent
pub record Event : Type 0 where
  pub id : String
  pub type : String
  pub has_association : Bool

-- what the retry algorithm reads of a MatrixError
pub record Error : Type 0 where
  pub http_status : ℕ
  pub cors_rejected : Bool
  pub name : String
  pub retry_after_ms : Option ℕ

-- an element of a queue; the promise is named by a number
pub record Entry : Type 0 where
  pub event : Event
  pub defer : ℕ
  pub attempts : ℕ

pub data Job : Type 0 where
  sending : Entry → Job
  waiting : ℕ → Job

pub data Settled : Type 0 where
  resolved : ℕ → Settled
  rejected : ℕ → Settled

pub record Scheduler : Type 0 where
  pub queues : Dict (List Entry)
  pub active_queues : List String
  pub has_proc_fn : Bool
  pub jobs : List (String × Job)
  pub next_defer : ℕ
  -- the promises settled so far, the last one first
  pub settled : List Settled

abbrev pub new_scheduler : Scheduler
new_scheduler = record {
  queues = [];
  active_queues = [];
  has_proc_fn = false;
  jobs = [];
  next_defer = 0;
  settled = [];
}

abbrev pub queue_of : String → Scheduler → List Entry
queue_of name s = elim (get name s.queues) [ none ↦ [] | some q ↦ q ]

abbrev pub is_active : String → List String → Bool
is_active name = any (λ n. str_eq n name)

-- `indexOf` and `splice`: the first occurrence goes
unfoldable pub remove_first : String → List String → List String
remove_first name [] = []
remove_first name (n ∷ ns) = if str_eq n name then ns else n ∷ remove_first name ns

-- `_peekNextEvent`
abbrev pub peek_next_event : String → Scheduler → Option Entry
peek_next_event name s = elim (queue_of name s) [ [] ↦ none | e ∷ es ↦ some e ]

abbrev pub tail_of {ℓ} : {A : Type ℓ} → List A → List A
tail_of [] = []
tail_of (x ∷ xs) = xs

-- `_removeNextEvent`; a queue that is not there stays so
unfoldable pub remove_next_event : String → Scheduler → Scheduler
remove_next_event name s = elim (get name s.queues) [
  | none ↦ s
  | some q ↦ record s { queues = put name (tail_of q) s.queues }
]

-- `_processQueue`
unfoldable pub process_queue : String → Scheduler → Scheduler
unfolding remove_first
process_queue name s = elim (peek_next_event name s) [
  | none ↦ record s { active_queues = remove_first name s.active_queues }
  | some obj ↦ record s { jobs = (name, sending obj) ∷ s.jobs }
]

abbrev pub is_ready : Scheduler → String → List Entry → Bool
is_ready s name q = not (is_active name s.active_queues) && ltb 0 (length q)

-- the `filter` of `_startProcessingQueues`
unfoldable pub ready_names : Scheduler → Dict (List Entry) → List String
ready_names s [] = []
ready_names s ((name, q) ∷ d) =
    let rest = ready_names s d in if is_ready s name q then name ∷ rest else rest

-- the `forEach` of `_startProcessingQueues`
unfoldable pub start_names : List String → Scheduler → Scheduler
unfolding process_queue
start_names [] s = s
start_names (name ∷ names) s =
    start_names names
      (process_queue name (record s { active_queues = s.active_queues ++ name ∷ [] }))

unfoldable pub start_processing_queues : Scheduler → Scheduler
unfolding ready_names start_names
start_processing_queues s = if s.has_proc_fn then start_names (ready_names s s.queues) s else s

unfoldable pub set_process_function : Scheduler → Scheduler
unfolding start_processing_queues
set_process_function s = start_processing_queues (record s { has_proc_fn = true })

-- the same id
abbrev pub same_event : Event → Event → Bool
same_event a b = str_eq a.id b.id

-- `utils.removeElement`: the first element of the id goes
unfoldable pub remove_event : Event → List Entry → List Entry × Bool
remove_event e [] = ([], false)
remove_event e (x ∷ xs) =
    let (rest, removed) = remove_event e xs in
    if same_event x.event e then (xs, true) else (x ∷ rest, removed)

-- the object that a job and a queue share gets one more attempt
abbrev pub add_attempt : Entry → Entry
add_attempt obj = record obj { attempts = obj.attempts + 1 }

unfoldable pub replace_entry : Entry → List Entry → List Entry
replace_entry obj [] = []
replace_entry obj (x ∷ xs) = (if x.defer == obj.defer then obj else x) ∷ replace_entry obj xs

unfoldable pub update_entry : String → Entry → Scheduler → Scheduler
unfolding replace_entry
update_entry name obj s = elim (get name s.queues) [
  | none ↦ s
  | some q ↦ record s { queues = put name (replace_entry obj q) s.queues }
]

unfoldable pub remove_job : ℕ → List (String × Job) → List (String × Job)
remove_job i [] = []
remove_job zero (j ∷ js) = js
remove_job (suc i) (j ∷ js) = j ∷ remove_job i js

-- The handlers of one job that is done.
abbrev pub on_success : String → Entry → Scheduler → Scheduler
on_success name obj s =
    let s' = remove_next_event name s in
    process_queue name (record s' { settled = resolved obj.defer ∷ s'.settled })

abbrev pub on_failure : Option ℕ → String → Entry → Scheduler → Scheduler
on_failure none name obj s =
    let s' = remove_next_event name (update_entry name (add_attempt obj) s) in
    process_queue name (record s' { settled = rejected obj.defer ∷ s'.settled })
on_failure (some wait) name obj s =
    let s' = update_entry name (add_attempt obj) s in
    record s' { jobs = (name, waiting wait) ∷ s'.jobs }

module _ (queue_algorithm : Event → Option String)
    (retry_algorithm : Event → ℕ → Error → Option ℕ) where
  -- the queue's name, unless it is missing or empty
  abbrev pub queue_name : Event → Option String
  queue_name e = if truthy (queue_algorithm e) then queue_algorithm e else none

  unfoldable pub get_queue_for_event : Event → Scheduler → Option (List Event)
  get_queue_for_event e s = elim (queue_name e) [
    | none ↦ none
    | some name ↦ elim (get name s.queues) [ none ↦ none | some q ↦ some (map (λ x. x.event) q) ]
  ]

  unfoldable pub remove_event_from_queue : Event → Scheduler → Scheduler × Bool
  unfolding remove_event
  remove_event_from_queue e s = elim (queue_name e) [
    | none ↦ (s, false)
    | some name ↦ elim (get name s.queues) [
      | none ↦ (s, false)
      | some q ↦
          let (rest, removed) = remove_event e q in
          (record s { queues = put name rest s.queues }, removed)
    ]
  ]

  -- the promise of the event, if it was queued
  unfoldable pub queue_event : Event → Scheduler → Scheduler × Option ℕ
  unfolding start_processing_queues
  queue_event e s = elim (queue_name e) [
    | none ↦ (s, none)
    | some name ↦
        let entry : Entry = record { event = e; defer = s.next_defer; attempts = 0 } in
        (
          start_processing_queues (record s {
            queues = put name (queue_of name s ++ entry ∷ []) s.queues;
            next_defer = s.next_defer + 1;
          }),
          some s.next_defer,
        )
  ]

  -- The job at `i` ends: its promise resolves, or is rejected, or its timer fires. `none` is a job
  -- that is not there or cannot end so.
  unfoldable pub succeed : ℕ → Scheduler → Option Scheduler
  unfolding remove_job remove_next_event process_queue
  succeed i s = elim (get_elem? s.jobs i) [
    | some (name, sending obj) ↦
        some (on_success name obj (record s { jobs = remove_job i s.jobs }))
    | _ ↦ none
  ]

  unfoldable pub fail : ℕ → Error → Scheduler → Option Scheduler
  unfolding remove_job remove_next_event process_queue update_entry
  fail i err s = elim (get_elem? s.jobs i) [
    | some (name, sending obj) ↦ some (
        on_failure (retry_algorithm obj.event (obj.attempts + 1) err) name obj
          (record s { jobs = remove_job i s.jobs }))
    | _ ↦ none
  ]

  unfoldable pub wake : ℕ → Scheduler → Option Scheduler
  unfolding remove_job process_queue
  wake i s = elim (get_elem? s.jobs i) [
    | some (name, waiting ms) ↦ some (process_queue name (record s { jobs = remove_job i s.jobs }))
    | _ ↦ none
  ]
