-- ===== src/Tests/Queues.antt =====
-- scheduler.js with one queue for all events.
use matrix_js_sdk.Base.{◌≡◌, ◌≤◌, ◌↔◌, ◌⊎◌, ◌*◌, ◌^◌, refl, true, false, some}
use matrix_js_sdk.Base.Dict.{put, get}
use matrix_js_sdk.Scheduler.Queues.{
  Event, Error, Scheduler, new_scheduler, queue_of, set_process_function, queue_event,
  start_processing_queues, ready_names, start_names, process_queue,
}
use matrix_js_sdk.Scheduler.Retry.{
  IsFatal, IsLimited, IsUnlimited, retry_backoff_ratelimit, retry_backoff_ratelimit_iff,
  queue_messages,
}
use matrix_js_sdk.Scheduler.Counts.{count, names, has_events}
use matrix_js_sdk.Scheduler.Steps.{Step, Reach, Reach-one_job, Reach-awake}

abbrev message : Event
message = record { id = "1"; type = "m.room.message"; has_association = false }

abbrev limited : Error
limited = record {
  http_status = 429;
  cors_rejected = false;
  name = "M_LIMIT_EXCEEDED";
  retry_after_ms = some 7;
}

abbrev started : Scheduler
started = set_process_function new_scheduler

abbrev queued : Scheduler
queued = (queue_event queue_messages retry_backoff_ratelimit message started).0

abbrev queued-Reach : Reach queue_messages retry_backoff_ratelimit new_scheduler queued
queued-Reach = Reach.next (Reach.next Reach.here Step.started) (Step.queued message)

retry_backoff_ratelimit_iff_example : (retry_backoff_ratelimit message 9 limited ≡ some 7) ↔ (
    (¬ IsFatal limited)
    × (IsLimited limited 7 ⊎ (IsUnlimited limited × (9 ≤ 4) × (7 ≡ 1000 * 2 ^ 9))))
retry_backoff_ratelimit_iff_example = retry_backoff_ratelimit_iff message 9 limited 7

Reach-one_job_example : count "message" (names queued.jobs) ≤ 1
Reach-one_job_example = Reach-one_job queue_messages retry_backoff_ratelimit queued-Reach "message"

-- the first event of the queue is at the process function
queued_has_proc_fn : queued.has_proc_fn ≡ true
unfolding queue_event queue_messages set_process_function start_processing_queues ready_names
    start_names process_queue put get
queued_has_proc_fn = refl

queued-has_events : has_events (queue_of "message" queued) ≡ true
unfolding queue_event queue_messages set_process_function start_processing_queues ready_names
    start_names process_queue put get
queued-has_events = refl

Reach-awake_example : count "message" (names queued.jobs) ≡ 1
Reach-awake_example =
    Reach-awake queue_messages retry_backoff_ratelimit queued-Reach queued_has_proc_fn "message"
      queued-has_events
