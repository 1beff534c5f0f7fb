-- ===== src/Scheduler/Retry.antt =====
-- The default algorithms of scheduler.js. `none` is the result -1, to give up, and the result null.
use matrix_js_sdk.Base.{
  ℕ, zero, suc, ◌*◌, ◌^◌, ◌≤◌, String, ◌≡◌, ◌≢◌, ◌↔◌, ◌⊎◌, Bool, true, ◌||◌, Option, none, some,
  arith, ltb, ◌==◌, eq_iff, str_eq, if◌then◌else◌,
}
use matrix_js_sdk.Scheduler.Queues.{Event, Error}

unfoldable pub is_fatal : Error → Bool
is_fatal err =
    err.http_status == 400
    || err.http_status == 403
    || err.http_status == 401
    || err.cors_rejected
    || str_eq err.name "M_TOO_LARGE"

-- `err.data.retry_after_ms` of a rate limit, unless it is missing or 0
unfoldable pub rate_limit : Error → Option ℕ
rate_limit err =
    if str_eq err.name "M_LIMIT_EXCEEDED"
    then (elim err.retry_after_ms [ none ↦ none | some zero ↦ none | some (suc n) ↦ some (suc n) ])
    else none

unfoldable pub retry_backoff_ratelimit : Event → ℕ → Error → Option ℕ
retry_backoff_ratelimit event attempts err = if is_fatal err then none else (elim (rate_limit err) [
  | some wait ↦ some wait
  | none ↦ if ltb 4 attempts then none else some (1000 * 2 ^ attempts)
])

unfoldable pub queue_messages : Event → Option String
queue_messages e =
    if str_eq e.type "m.room.message" || e.has_association then some "message" else none

-- The errors after which no retry is of use: three statuses of a client error, a browser with no
-- connection, and an event that is too large.
abbrev pub IsFatal : Error → Type 0
IsFatal err =
    (err.http_status ≡ 400)
    ⊎ ((err.http_status ≡ 401)
        ⊎ ((err.http_status ≡ 403) ⊎ ((err.cors_rejected ≡ true) ⊎ (err.name ≡ "M_TOO_LARGE"))))

-- The server asks for a wait of `wait` milliseconds.
abbrev pub IsLimited : Error → ℕ → Type 0
IsLimited err wait = (err.name ≡ "M_LIMIT_EXCEEDED") × (err.retry_after_ms ≡ some wait) × (1 ≤ wait)

-- It asks for none: another error, or no time, or the time 0.
abbrev pub IsUnlimited : Error → Type 0
IsUnlimited err =
    (err.name ≢ "M_LIMIT_EXCEEDED") ⊎ ((err.retry_after_ms ≡ none) ⊎ (err.retry_after_ms ≡ some 0))

is_fatal_iff : (err : Error) → (is_fatal err ≡ true) ↔ IsFatal err
unfolding is_fatal
is_fatal_iff err = (
  λ h. ground (arith, eq_iff err.name "M_TOO_LARGE"),
  λ h. ground (arith, eq_iff err.name "M_TOO_LARGE"),
)

rate_limit_iff : (err : Error) (wait : ℕ) → (rate_limit err ≡ some wait) ↔ IsLimited err wait
unfolding rate_limit
rate_limit_iff err wait = (
  λ h. ground (arith, eq_iff err.name "M_LIMIT_EXCEEDED"),
  λ h. ground (arith, eq_iff err.name "M_LIMIT_EXCEEDED"),
)

rate_limit-none : (err : Error) → (rate_limit err ≡ none) ↔ IsUnlimited err
unfolding rate_limit
rate_limit-none err = (
  λ h. ground (arith, eq_iff err.name "M_LIMIT_EXCEEDED"),
  λ h. ground (arith, eq_iff err.name "M_LIMIT_EXCEEDED"),
)

-- The default algorithm answers with a time to wait exactly on an error that is not fatal (a status of
-- 400, 401 or 403, a rejection by CORS, the name M_TOO_LARGE), and either the error has the name
-- M_LIMIT_EXCEEDED and this time, which is not 0, as its retry_after_ms, or it has another
-- name, or no retry_after_ms or 0 as such, there were at most four attempts, and the time is
-- 2 ^ attempts seconds. In every other case it gives up.
pub retry_backoff_ratelimit_iff :
    (event : Event) (attempts : ℕ) (err : Error) (wait : ℕ)
    → (retry_backoff_ratelimit event attempts err ≡ some wait) ↔ (
        (¬ IsFatal err)
        × (IsLimited err wait ⊎ (IsUnlimited err × (attempts ≤ 4) × (wait ≡ 1000 * 2 ^ attempts))))
unfolding retry_backoff_ratelimit
retry_backoff_ratelimit_iff event attempts err wait = (
  λ h. ground (arith, is_fatal_iff err, rate_limit_iff err wait, rate_limit-none err),
  λ h. ground (arith, is_fatal_iff err, rate_limit_iff err wait, rate_limit-none err),
)
