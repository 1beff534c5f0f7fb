-- ===== src/Sync/Invariant.antt =====
-- The invariant of the whole accumulator of sync-accumulator.js.
use mathlib.Core.Path.{subst}
use matrix_js_sdk.Base.{
  ℕ, ◌+◌, ◌≤◌, String, ◌≡◌, refl, inl, inr, Option, none, some, [], ◌∷◌, arith, str_eq,
  if◌then◌else◌, is_some, Bool-cases,
}
use matrix_js_sdk.Base.Dict.{Dict, get, remove, get-nil, get-put, get-remove, get_or}
use matrix_js_sdk.Sync.Response.{Json, InviteData, JoinData, Rooms, Groups, SyncResponse}
use matrix_js_sdk.Sync.Room.{JoinedRoom, new_room, update_room}
use matrix_js_sdk.Sync.Accumulator
use matrix_js_sdk.Sync.Accumulator.{
  Accumulator, GroupMaps, RoomUpdate, Category, each, accumulate_invite_state,
  accumulate_join_state, accumulate_room, accumulate_rooms, accumulate_group, accumulate_groups,
  accumulate_account_data, accumulate,
}
use matrix_js_sdk.Sync.Consistency.{
  IsConsistent, StateOnlyAfterGap, HasPrevBatch, update_room-IsConsistent, new_room-IsConsistent,
}

abbrev count_in {ℓ} : {V : Type ℓ} → String → Dict V → ℕ
count_in k d = if is_some (get k d) then 1 else 0

-- The number of categories that list a group.
abbrev pub places : String → GroupMaps → ℕ
places k g = count_in k g.invite + count_in k g.join + count_in k g.leave

-- No group is in two categories.
abbrev pub GroupsDisjoint : Accumulator → Type 0
GroupsDisjoint s = (k : String) → places k s.groups ≤ 1

accumulate_group-GroupsDisjoint :
    (c : Category) (s : Accumulator) (group : String) (json : Json)
    → GroupsDisjoint s
    → GroupsDisjoint (accumulate_group c s group json)
unfolding accumulate_group
accumulate_group-GroupsDisjoint Category.invite s group json h k = ground (
  arith,
  h k,
  get-put group k json (remove group s.groups.invite),
  get-remove group k s.groups.invite,
  get-remove group k s.groups.join,
  get-remove group k s.groups.leave,
)
accumulate_group-GroupsDisjoint Category.join s group json h k = ground (
  arith,
  h k,
  get-put group k json (remove group s.groups.join),
  get-remove group k s.groups.invite,
  get-remove group k s.groups.join,
  get-remove group k s.groups.leave,
)
accumulate_group-GroupsDisjoint Category.leave s group json h k = ground (
  arith,
  h k,
  get-put group k json (remove group s.groups.leave),
  get-remove group k s.groups.invite,
  get-remove group k s.groups.join,
  get-remove group k s.groups.leave,
)

abbrev AllValues {ℓ κ} : {V : Type ℓ} → (V → Type κ) → Dict V → Type κ
AllValues Q [] = Unit
AllValues Q ((k, v) ∷ d) = Q v × AllValues Q d

abbrev pub EveryValue {ℓ κ} : {V : Type ℓ} → (V → Type κ) → Option (Dict V) → Type κ
EveryValue Q none = Unit
EveryValue Q (some d) = AllValues Q d

Every-any {ℓ} : {V : Type ℓ} (o : Option (Dict V)) → EveryValue (λ _. Unit {0}) o
Every-any none = tt
Every-any (some []) = tt
Every-any (some (p ∷ d)) = (tt, Every-any (some d))

-- every joined room of a response is regular
abbrev pub JoinsRegular : Option Rooms → Type 0
JoinsRegular none = Unit
JoinsRegular (some r) = EveryValue (λ d. StateOnlyAfterGap d × HasPrevBatch d) r.join

module _ {ℓ} {V : Type ℓ} (P : Accumulator → Type 0) (Q : V → Type 0)
    (f : Accumulator → String → V → Accumulator)
    (step : (s : Accumulator) (k : String) (v : V) → Q v → P s → P (f s k v)) where
  each_some_inv : (s : Accumulator) (d : Dict V) → AllValues Q d → P s → P (each f s (some d))
  each_some_inv s [] q p = p
  each_some_inv s ((k, v) ∷ d) q p = each_some_inv (f s k v) d q.1 (step s k v q.0 p)

  each_inv : (s : Accumulator) (o : Option (Dict V)) → EveryValue Q o → P s → P (each f s o)
  each_inv s none q p = p
  each_inv s (some d) q p = each_some_inv s d q p

module _ (s : Accumulator) (room : String) where
  groups-accumulate_invite_state :
      (d : InviteData) → (accumulate_invite_state s room d).groups ≡ s.groups
  unfolding accumulate_invite_state
  groups-accumulate_invite_state d = ground arith

  groups-accumulate_room : (u : RoomUpdate) → (accumulate_room s room u).groups ≡ s.groups
  unfolding accumulate_room
  groups-accumulate_room (RoomUpdate.invite d) = groups-accumulate_invite_state d
  groups-accumulate_room (RoomUpdate.join d) = ground arith
  groups-accumulate_room (RoomUpdate.leave d) = ground arith

-- Every joined room is consistent.
abbrev pub RoomsConsistent : Accumulator → Type 0
RoomsConsistent s =
    (room : String) (r : JoinedRoom) → get room s.join_rooms ≡ some r → IsConsistent r

pub record IsValid (s : Accumulator) : Type 0 where
  pub groups : GroupsDisjoint s
  pub rooms : RoomsConsistent s

-- What the server sends for a joined room: state only after a gap, and a token with every timeline.
abbrev pub IsRegular : RoomUpdate → Type 0
IsRegular (RoomUpdate.join d) = StateOnlyAfterGap d × HasPrevBatch d
IsRegular _ = Unit

get_or-IsConsistent :
    (s : Accumulator) (room : String)
    → RoomsConsistent s
    → IsConsistent (get_or room s.join_rooms new_room)
get_or-IsConsistent s room h = go (get room s.join_rooms) refl
  where
    go :
        (o : Option JoinedRoom)
        → get room s.join_rooms ≡ o
        → IsConsistent (elim o [ none ↦ new_room | some v ↦ v ])
    go none e = new_room-IsConsistent
    go (some r) e = h room r e

accumulate_join_state-RoomsConsistent :
    (s : Accumulator) (room : String) (d : JoinData)
    → StateOnlyAfterGap d
    → HasPrevBatch d
    → RoomsConsistent s
    → RoomsConsistent (accumulate_join_state s room d)
unfolding accumulate_join_state
accumulate_join_state-RoomsConsistent s room d gap token h k r e =
    let old : JoinedRoom = get_or room s.join_rooms new_room in
    let new : JoinedRoom = update_room s.max_timeline_entries old d in
    elim (Bool-cases (str_eq room k)) [
      | inl same ↦
          let eq : new ≡ r = ground (arith, get-put room k new s.join_rooms) in
          subst IsConsistent eq (
            update_room-IsConsistent s.max_timeline_entries old d (get_or-IsConsistent s room h) gap
              token)
      | inr other ↦ h k r (ground (arith, get-put room k new s.join_rooms))
    ]

accumulate_invite_state-RoomsConsistent :
    (s : Accumulator) (room : String) (d : InviteData)
    → RoomsConsistent s
    → RoomsConsistent (accumulate_invite_state s room d)
unfolding accumulate_invite_state
accumulate_invite_state-RoomsConsistent s room d h k r e = h k r (ground arith)

accumulate_room-RoomsConsistent :
    (s : Accumulator) (room : String) (u : RoomUpdate)
    → IsRegular u
    → RoomsConsistent s
    → RoomsConsistent (accumulate_room s room u)
unfolding accumulate_room
accumulate_room-RoomsConsistent s room (RoomUpdate.invite d) q h =
    accumulate_invite_state-RoomsConsistent s room d h
accumulate_room-RoomsConsistent s room (RoomUpdate.join d) q h =
    elim (Bool-cases (is_some (get room s.invite_rooms))) [
      | inl i ↦
          let s' : Accumulator = record s { invite_rooms = remove room s.invite_rooms } in
          rw i (accumulate_join_state-RoomsConsistent s' room d q.0 q.1 h)
      | inr n ↦ rw n (accumulate_join_state-RoomsConsistent s room d q.0 q.1 h)
    ]
accumulate_room-RoomsConsistent s room (RoomUpdate.leave d) q h =
    λ k r e. h k r (ground (arith, get-remove room k s.join_rooms))

accumulate_room-IsValid :
    (s : Accumulator) (room : String) (u : RoomUpdate)
    → IsRegular u
    → IsValid s
    → IsValid (accumulate_room s room u)
accumulate_room-IsValid s room u q v = record {
  groups = rw (groups-accumulate_room s room u) v.groups;
  rooms = accumulate_room-RoomsConsistent s room u q v.rooms;
}

rooms-accumulate_group :
    (c : Category) (s : Accumulator) (group : String) (json : Json)
    → (accumulate_group c s group json).join_rooms ≡ s.join_rooms
unfolding accumulate_group
rooms-accumulate_group c s group json = ground arith

accumulate_group-IsValid :
    (c : Category) (s : Accumulator) (group : String) (json : Json)
    → IsValid s
    → IsValid (accumulate_group c s group json)
accumulate_group-IsValid c s group json v = record {
  groups = accumulate_group-GroupsDisjoint c s group json v.groups;
  rooms = λ k r e. v.rooms k r (rw (rooms-accumulate_group c s group json) at e);
}

accumulate_groups-IsValid :
    (s : Accumulator) (o : Option Groups) → IsValid s → IsValid (accumulate_groups s o)
unfolding accumulate_groups
accumulate_groups-IsValid s none v = v
accumulate_groups-IsValid s (some g) v =
    let step = λ (c : Category).
      each_inv IsValid (λ _. Unit {0}) (accumulate_group c)
        (λ a k json _ h. accumulate_group-IsValid c a k json h) in
    step Category.leave _ g.leave (Every-any g.leave) (
      step Category.join _ g.join (Every-any g.join)
        (step Category.invite s g.invite (Every-any g.invite) v))

accumulate_rooms-IsValid :
    (s : Accumulator) (o : Option Rooms)
    → JoinsRegular o
    → IsValid s
    → IsValid (accumulate_rooms s o)
unfolding accumulate_rooms
accumulate_rooms-IsValid s none q v = v
accumulate_rooms-IsValid s (some r) q v =
    each_inv IsValid (λ _. Unit {0}) (λ a k d. accumulate_room a k (RoomUpdate.leave d))
      (λ a k d _ h. accumulate_room-IsValid a k (RoomUpdate.leave d) tt h) _ r.leave
      (Every-any r.leave)
      (each_inv IsValid (λ d. StateOnlyAfterGap d × HasPrevBatch d)
        (λ a k d. accumulate_room a k (RoomUpdate.join d))
        (λ a k d c h. accumulate_room-IsValid a k (RoomUpdate.join d) c h) _ r.join q
        (each_inv IsValid (λ _. Unit {0}) (λ a k d. accumulate_room a k (RoomUpdate.invite d))
          (λ a k d _ h. accumulate_room-IsValid a k (RoomUpdate.invite d) tt h) s r.invite
          (Every-any r.invite) v))

-- In a valid accumulator no group is in two categories and every joined room is consistent. Every
-- response whose joined rooms carry a state block only after a gap, and a token with every
-- timeline that has events, leaves the accumulator valid.
pub accumulate-IsValid :
    (s : Accumulator) (r : SyncResponse)
    → JoinsRegular r.rooms
    → IsValid s
    → IsValid (accumulate s r)
unfolding accumulate accumulate_account_data
accumulate-IsValid s r q v =
    let w = accumulate_groups-IsValid _ r.groups (accumulate_rooms-IsValid s r.rooms q v) in
    record { groups = w.groups; rooms = w.rooms }

pub new_accumulator-IsValid : (max : Option ℕ) → IsValid (Accumulator.new_accumulator max)
new_accumulator-IsValid max = record {
  groups = λ k. ground (arith, get-nil {V = Json} k);
  rooms = λ k r e. cc (get-nil {V = JoinedRoom} k);
}
