-- ===== src/Devices/Refresh.antt =====
-- What downloads do to the tracking of crypto/DeviceList.js.
use matrix_js_sdk.Base.{
  ℕ, ◌≡◌, refl, ◌∙◌, String, Bool, true, false, ◌&&◌, ◌||◌, Option, none, some, List, [], ◌∷◌, ◌++◌,
  str_eq, ◌==◌, arith, if◌then◌else◌, eq_iff,
}
use matrix_js_sdk.Base.Dict.{Dict, get, get-put, get-remove, IsUnique}
use matrix_js_sdk.Devices.Serialiser.{has_user}
use matrix_js_sdk.Devices.Tracking.{
  Status, in_progress, Tracker, is_pending, is_in_progress, mark_user, mark_users, outdated_users,
  is_promise, finished_status, finish_user, finish_users, settle, Waiter,
}

module _ (success : Bool) (promise : ℕ) where
  -- what `finished` makes of a user's status
  abbrev pub status_after : String → Tracker → Option Status
  status_after u t =
      if is_promise promise (get u t.downloads) && is_in_progress (get u t.status)
      then some (finished_status success)
      else get u t.status

  finish_user-status :
      (u v : String) (t : Tracker)
      → get u (finish_user success promise v t).status
        ≡ (if str_eq v u then status_after u t else get u t.status)
  unfolding finish_user
  finish_user-status u v t =
      ground (arith, eq_iff v u, get-put v u (finished_status success) t.status)

  status_after-finish_user :
      (u v : String) (t : Tracker)
      → status_after u (finish_user success promise v t) ≡ status_after u t
  unfolding finish_user
  status_after-finish_user u v t = ground (
    arith,
    eq_iff v u,
    get-put v u (finished_status success) t.status,
    get-remove v u t.downloads,
  )

  finish_user-downloads :
      (u v : String) (t : Tracker)
      → get u (finish_user success promise v t).downloads
        ≡ (if str_eq v u && is_promise promise (get u t.downloads) then none else get u t.downloads)
  unfolding finish_user
  finish_user-downloads u v t = ground (arith, eq_iff v u, get-remove v u t.downloads)

  finish_users-status :
      (u : String) (users : List String) (t : Tracker)
      → get u (finish_users success promise users t).status
        ≡ (if has_user u users then status_after u t else get u t.status)
  unfolding finish_users has_user
  finish_users-status u [] t = ground arith
  finish_users-status u (v ∷ users) t = ground (
    arith,
    finish_users-status u users (finish_user success promise v t),
    finish_user-status u v t,
    status_after-finish_user u v t,
  )

  finish_users-downloads :
      (u : String) (users : List String) (t : Tracker)
      → get u (finish_users success promise users t).downloads ≡ (
          if has_user u users && is_promise promise (get u t.downloads)
          then none
          else get u t.downloads)
  unfolding finish_users has_user
  finish_users-downloads u [] t = ground arith
  finish_users-downloads u (v ∷ users) t = ground (
    arith,
    finish_users-downloads u users (finish_user success promise v t),
    finish_user-downloads u v t,
  )

-- some download that waited for the deferred is the user's latest
abbrev pub is_settled : ℕ → String → Option ℕ → List Waiter → Bool
is_settled d u latest [] = false
is_settled d u latest (w ∷ waiters) =
    ((w.deferred == d) && (has_user u w.users && is_promise w.promise latest))
    || is_settled d u latest waiters

pub is_settled-append :
    (d : ℕ) (u : String) (latest : Option ℕ) (waiters : List Waiter) (w : Waiter)
    → ((w.deferred == d) && (has_user u w.users && is_promise w.promise latest)) ≡ true
    → is_settled d u latest (waiters ++ w ∷ []) ≡ true
is_settled-append d u latest [] w e = ground arith
is_settled-append d u latest (v ∷ waiters) w e =
    ground (arith, is_settled-append d u latest waiters w e)

nothing_settled : (d : ℕ) (u : String) (waiters : List Waiter) → is_settled d u none waiters ≡ false
nothing_settled d u [] = refl
nothing_settled d u (w ∷ waiters) = ground (arith, nothing_settled d u waiters)

pub settle-status :
    (success : Bool) (d : ℕ) (u : String) (waiters : List Waiter) (t : Tracker)
    → get u (settle success d waiters t).status ≡ (
        if is_settled d u (get u t.downloads) waiters && is_in_progress (get u t.status)
        then some (finished_status success)
        else get u t.status)
unfolding settle
settle-status success d u [] t = ground arith
settle-status success d u (w ∷ waiters) t = ground (
  arith,
  settle-status success d u waiters (finish_users success w.promise w.users t),
  settle-status success d u waiters t,
  finish_users-status success w.promise u w.users t,
  finish_users-downloads success w.promise u w.users t,
  nothing_settled d u waiters,
)

-- what `mark_users` does
mark_user-status :
    (promise : ℕ) (u v : String) (t : Tracker)
    → get u (mark_user promise v t).status
      ≡ (if str_eq v u && is_pending (get u t.status) then some in_progress else get u t.status)
unfolding mark_user
mark_user-status promise u v t = ground (arith, eq_iff v u, get-put v u in_progress t.status)

pub mark_users-status :
    (promise : ℕ) (u : String) (users : List String) (t : Tracker)
    → get u (mark_users promise users t).status ≡ (
        if has_user u users && is_pending (get u t.status)
        then some in_progress
        else get u t.status)
unfolding mark_users has_user
mark_users-status promise u [] t = ground arith
mark_users-status promise u (v ∷ users) t = ground (
  arith,
  mark_users-status promise u users (mark_user promise v t),
  mark_user-status promise u v t,
)

pub mark_users-downloads :
    (promise : ℕ) (u : String) (users : List String) (t : Tracker)
    → get u (mark_users promise users t).downloads
      ≡ (if has_user u users then some promise else get u t.downloads)
unfolding mark_users mark_user has_user
mark_users-downloads promise u [] t = ground arith
mark_users-downloads promise u (v ∷ users) t = ground (
  arith,
  mark_users-downloads promise u users (mark_user promise v t),
  get-put v u promise t.downloads,
)

-- the marks change nothing else
pub mark_users-serialiser :
    (promise : ℕ) (users : List String) (t : Tracker)
    → (mark_users promise users t).serialiser ≡ t.serialiser
unfolding mark_users mark_user
mark_users-serialiser promise [] t = refl
mark_users-serialiser promise (v ∷ users) t =
    mark_users-serialiser promise users (mark_user promise v t)

pub mark_users-waiters :
    (promise : ℕ) (users : List String) (t : Tracker)
    → (mark_users promise users t).waiters ≡ t.waiters
unfolding mark_users mark_user
mark_users-waiters promise [] t = refl
mark_users-waiters promise (v ∷ users) t = mark_users-waiters promise users (mark_user promise v t)

pub outdated-has_user :
    (u : String) (status : Dict Status)
    → IsUnique status
    → has_user u (outdated_users status) ≡ is_pending (get u status)
unfolding outdated_users has_user get
outdated-has_user u [] unique = refl
outdated-has_user u ((v, s) ∷ status) unique =
    ground (arith, outdated-has_user u status, eq_iff v u)

finish_users-serialiser :
    (success : Bool) (promise : ℕ) (users : List String) (t : Tracker)
    → (finish_users success promise users t).serialiser ≡ t.serialiser
unfolding finish_users finish_user
finish_users-serialiser success promise [] t = refl
finish_users-serialiser success promise (v ∷ users) t =
    finish_users-serialiser success promise users (finish_user success promise v t) ∙ ground arith

pub settle-serialiser :
    (success : Bool) (d : ℕ) (waiters : List Waiter) (t : Tracker)
    → (settle success d waiters t).serialiser ≡ t.serialiser
unfolding settle
settle-serialiser success d [] t = refl
settle-serialiser success d (w ∷ waiters) t = ground (
  arith,
  settle-serialiser success d waiters t,
  settle-serialiser success d waiters (finish_users success w.promise w.users t),
  finish_users-serialiser success w.promise w.users t,
)
