-- ===== src/Lib.antt =====
-- Verification of parts of the Matrix client SDK for JavaScript.
--
-- The SDK keeps what a client knows of its rooms. `sync.js` asks the server for changes and hands
-- each response to the sync accumulator, whose export is stored and is read back at startup. The
-- client sends events through the scheduler, decides by the push processor which events notify
-- the user, filters timelines by filter components, and requests missing room keys by the manager
-- of outgoing requests, which keeps its requests in a crypto store. The device list tracks whose
-- device keys are wanted and downloads them. A room is shown through a window on timelines that are
-- joined. Timeouts that must survive a suspended machine go through the realtime callbacks.
--
-- Files:
--   Base         helpers: tests on numbers and texts, lists measured by native numbers, and objects
--                used as maps (Base/Dict)
--   Sync         src/sync-accumulator.js. `Response` holds the data of a response, `StateMap` is
--                setState, `Timeline` the timeline with its pruning and its export, `Room` is
--                _accumulateJoinState (`update_room`), `Accumulator` the class and its methods,
--                `Export` is getJSON. Proofs: `WellFormed`, `Pruning`, `RollBack`, `Receipts`,
--                `Consistency`, `Reload`, `Invariant`, `Transitions`.
--   Realtime     src/realtime-callbacks.js. `Callbacks` holds the module's state and its functions.
--                Proofs: `Search`, `Sorted`, `Laws`, `Runs`.
--   KeyRequests  src/crypto/store/memory-crypto-store.js (`Store`) and
--                src/crypto/OutgoingRoomKeyRequestManager.js (`Manager`). Proofs: `Lookup`,
--                `Bodies` and `Objects` on the store, `Writes`, `Diagram`, `Sending`, `Targets`.
--   CryptoStore  the Olm sessions of src/crypto/store/memory-crypto-store.js (`Sessions`). Proofs:
--                `Lookup`, `Problems`, `Notified`.
--   Timelines    src/models/event-timeline.js (`Timeline`), src/models/event-timeline-set.js (`Sets`)
--                and src/timeline-window.js: `Index` is TimelineIndex, `Window` the window,
--                `Contents` its getEvents, `Paging` its paginate, with the proofs of it. `Chain` says
--                what a chain of timelines is. Proofs:
--                `Standing`, `Moves`, `Retreats` (how far an index goes), `Places`, `Trims`,
--                `Limits`, `Extends`, `Slices`, `Reading`, `Openings`; `Ownership`, `Adding`, `Known`
--                and `Fresh` (the events of a set).
--   Devices      src/crypto/DeviceList.js and src/crypto/deviceinfo.js: `Keys` is the update of a
--                user's device keys, `Identities` their index, `Serialiser` the class
--                DeviceListUpdateSerialiser, `Tracking` the tracking of users by DeviceList. Proofs:
--                `Trust`, `Identities`, `Queue`, `Settling`, `Refresh`, `Downloads`.
--   Scheduler    src/scheduler.js. `Queues` holds the scheduler and its methods, `Retry` the default
--                algorithms. Proofs: `Counts`, `Invariant`, `Steps`.
--   Filter       src/filter-component.js (`Component`). Proofs: `Meaning`.
--   PushRules    src/pushprocessor.js (`Conditions`, `Rules`, `Defaults`) and globToRegexp of
--                src/utils.ts (`Globs`). `Meaning` says what the rules mean.
--                Proofs: `ActionLists`, `Defaults`, `Matching`, `SharedGlobs`.
--   Tests        runs on small inputs
--
-- A method that changes `this` is a function from the old state to the new one. Asynchronous code
-- is cut at its awaits: a write of the key request manager may come at any store, whatever was read
-- before, and a promise or a timer of the scheduler is a job that the environment ends. A JSON value
-- that is only passed on is its text. A clock is an argument. The requests for device keys that are
-- in flight are a list, and any of them may be the next to settle. Where objects are compared by
-- identity, an object has a number, and a literal gets the count of the objects made so far.
--
-- Fuel: `binary_search` has one unit more than the list has elements, and the interval shrinks in
-- every round. `send_all` is given its fuel; more than the messages that are still needed is enough.
-- `advance` and getEvents take fuel for the timelines they enter; as much as the chain has timelines
-- is enough. The loop of `unpaginate` has one unit more than it drops events.
--
-- Parameters: the regular expression engine of the push rules, the algorithms of the scheduler, the
-- filter of a timeline set, the requests of a window (paginateEventTimeline of src/client.js, about
-- which nothing is assumed), and the signature check of the device keys, which is on the Olm library.
--
-- Not modelled: the order in which an object lists keys that are array indices; properties of the
-- prototypes; in push rules, the properties of arrays and of texts, globs with a line break, and
-- the `kind` that is written into a matched rule, which is returned beside the rule; logging; the
-- forks of timelines, the members of a room state, concurrent calls of paginate; the loading, the
-- saving and the cross-signing keys of the device list; and the other parts of the SDK (rooms, the
-- client and its requests to the server, the cryptography on top of Olm, calls, the stores on
-- IndexedDB).
pub mod Base
pub mod Sync
pub mod Realtime
pub mod KeyRequests
pub mod CryptoStore
pub mod Timelines
pub mod Devices
pub mod Scheduler
pub mod Filter
pub mod PushRules
pub mod Tests
