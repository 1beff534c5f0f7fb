-- ===== src/Tests/Windows.antt =====
-- A window on two timelines that are joined, of two events and of one.
use matrix_js_sdk.Base.{
  false, ℕ, zero, suc, ◌+◌, ◌≤◌, ◌<◌, ◌≡◌, refl, ◌⊎◌, String, true, none, some, List, [], ◌∷◌, map,
  arith, str_eq, get_elem?,
}
use mathlib.Core.Option.{some-injective}
use mathlib.Core.Path.{subst}
use matrix_js_sdk.Base.Int.{pos, ◌+ℤ◌, ◌-ℤ◌}
use matrix_js_sdk.Timelines.Timeline.{Event, Timeline, backwards, forwards, new_timeline, add_event}
use matrix_js_sdk.Timelines.Index.{min_index, max_index, capped_delta, advance}
use matrix_js_sdk.Timelines.Chain.{total, IsChain, all_events}
use matrix_js_sdk.Timelines.Window.{
  Window, done, new_window, init_fields, event_index, drop_events, unpaginate, within_limit, extend,
}
use matrix_js_sdk.Timelines.Trims.{Trimmed, unpaginate-IsWindow_start}
use matrix_js_sdk.Timelines.Places.{IsWindow}
use matrix_js_sdk.Timelines.Extends.{
  Extended, kept_from, kept_to, extend-IsWindow_forwards, extend-IsWindow_backwards,
}
use matrix_js_sdk.Timelines.Slices.{slice}
use matrix_js_sdk.Timelines.Contents.{get_events}
use matrix_js_sdk.Timelines.Reading.{get_events-slice}
use matrix_js_sdk.Timelines.Paging.{
  Request, default_loop_limit, paginate, HasNoTokens, paginate-IsWindow_forwards,
}
use matrix_js_sdk.Timelines.Openings.{init_fields-IsWindow_event, event_of, add_event-event_of}

abbrev pub message : String → Event
message id = record { id = id; room_id = "!r"; type = "m.room.message"; state_key = none }

abbrev older : Timeline
older = record (new_timeline "!r") {
  events = message "a" ∷ message "b" ∷ [];
  base_index = 1;
  next_timeline = some 1;
}

abbrev newer : Timeline
newer = record (new_timeline "!r") { events = message "c" ∷ []; prev_timeline = some 0 }

abbrev two_timelines : List Timeline
two_timelines = older ∷ newer ∷ []

abbrev both : List ℕ
both = 0 ∷ 1 ∷ []

two_timelines-IsChain : IsChain two_timelines both
two_timelines-IsChain zero n e =
    subst
      (λ m.
        (t : Timeline) × (get_elem? two_timelines m ≡ some t)
        × (t.next_timeline ≡ some 1)
        × (t.prev_timeline ≡ none))
      (some-injective _ _ e) (older, refl, refl, refl)
two_timelines-IsChain (suc zero) n e =
    subst
      (λ m.
        (t : Timeline) × (get_elem? two_timelines m ≡ some t)
        × (t.next_timeline ≡ none)
        × (t.prev_timeline ≡ some 0))
      (some-injective _ _ e) (newer, refl, refl, refl)
two_timelines-IsChain (suc (suc i)) n e = cc

-- the window of the event "b"
abbrev window : Window
window = record (new_window (some 1)) {
  start = some (record { timeline = 0; index = pos 0 });
  end = some (record { timeline = 0; index = pos 1 });
  event_count = pos 1;
}

window-IsWindow : IsWindow two_timelines both window 1 2
unfolding ◌+ℤ◌
window-IsWindow = record {
  first = record { timeline = 0; index = pos 0 };
  last = record { timeline = 0; index = pos 1 };
  starts = refl;
  ends = refl;
  lower = record {
    place = 0;
    offset = 1;
    timeline = older;
    at = record { on = refl; found = refl; shift = refl; within = omega arith };
    here = refl;
  };
  upper = record {
    place = 0;
    offset = 2;
    timeline = older;
    at = record { on = refl; found = refl; shift = refl; within = omega arith };
    here = refl;
  };
  ordered = omega arith;
  le = omega arith;
  counted = refl;
}

-- over the limit, the window moves on
extend_run :
    extend 2 two_timelines forwards (pos 5) window
    ≡ done (
      true,
      record window {
        start = some (record { timeline = 0; index = pos 1 });
        end = some (record { timeline = 1; index = pos 1 });
      },
    )
unfolding extend advance capped_delta max_index min_index within_limit unpaginate drop_events ◌+ℤ◌
    ◌-ℤ◌
extend_run = refl

extend-IsWindow_forwards_example :
    (k : ℕ) × (k ≤ 5)
    × ((◌≡◌ {A = ℕ} 5 0) ⊎ ((0 < k) ⊎ (◌≡◌ {A = ℕ} 2 3)))
    × Extended two_timelines both 1 k
        (kept_from k 1 1 (2 + k))
        (2 + k)
        (extend 2 two_timelines forwards (pos 5) window)
extend-IsWindow_forwards_example =
    extend-IsWindow_forwards two_timelines both two_timelines-IsChain 2 (omega arith) 5 1 2 window
      window-IsWindow

extend-IsWindow_backwards_example :
    (k p : ℕ) × (k ≤ 5)
    × (p + k ≡ 1)
    × ((◌≡◌ {A = ℕ} 5 0) ⊎ ((0 < k) ⊎ (◌≡◌ {A = ℕ} 1 0)))
    × Extended two_timelines both 1 k p
        (kept_to k 1 p 2)
        (extend 2 two_timelines backwards (pos 5) window)
extend-IsWindow_backwards_example =
    extend-IsWindow_backwards two_timelines both two_timelines-IsChain 2 (omega arith) 5 1 2 window
      window-IsWindow

unpaginate-IsWindow_start_example :
    Trimmed two_timelines both 1 (1 + 1) 2 (unpaginate 2 two_timelines (pos 1) backwards window)
unpaginate-IsWindow_start_example =
    unpaginate-IsWindow_start two_timelines both two_timelines-IsChain 2 (omega arith) 1 1 2 window
      window-IsWindow (omega arith)

get_events-slice_example :
    get_events 2 two_timelines window ≡ done (map some (slice 1 1 (all_events two_timelines both)))
get_events-slice_example =
    get_events-slice two_timelines both two_timelines-IsChain window-IsWindow 2 (omega arith)

b_is_there : event_index (some "b") older.events ≡ some 1
unfolding event_index
b_is_there = refl

init_fields-IsWindow_event_example :
    (first to : ℕ) × (w : Window) × (e : Event) × (init_fields
        (some "b")
        (some 3)
        0
        older
        (new_window none)
      ≡ done w)
    × IsWindow two_timelines both w (0 + first) (0 + to)
    × (to ≤ first + 3)
    × (first ≤ 1)
    × (1 < to)
    × (get_elem? older.events 1 ≡ some e)
    × (str_eq e.id "b" ≡ true)
init_fields-IsWindow_event_example =
    init_fields-IsWindow_event two_timelines both (some 3) 0 0 older (new_window none) refl refl "b"
      1 b_is_there

b_is_at_0 : event_of older (pos 0) ≡ some (message "b")
unfolding ◌+ℤ◌
b_is_at_0 = refl

add_event-event_of_example :
    event_of (add_event true (message "z") true older) (pos 0) ≡ some (message "b")
add_event-event_of_example =
    add_event-event_of true true (message "z") (message "b") older (pos 0) b_is_at_0

-- a client whose requests are rejected
abbrev offline : Request
offline n d size ts = none

paginate-IsWindow_forwards_example :
    (2 < total two_timelines both
      → (k : ℕ) × (w : Window) × (1 ≤ k)
        × (k ≤ 5)
        × (paginate offline 2 forwards 5 default_loop_limit two_timelines window
            ≡ done (true, w, two_timelines))
        × IsWindow two_timelines both w (kept_from k 1 1 (2 + k)) (2 + k))
    × ((2 ≡ total two_timelines both)
        → (default_loop_limit ≡ 0) ⊎ HasNoTokens forwards two_timelines
        → (w : Window) × (paginate offline 2 forwards 5 default_loop_limit two_timelines window
            ≡ done (false, w, two_timelines))
          × IsWindow two_timelines both w 1 2)
paginate-IsWindow_forwards_example =
    paginate-IsWindow_forwards offline two_timelines both two_timelines-IsChain 2 (omega arith) 5
      (omega arith) default_loop_limit 1 2 window window-IsWindow
