-- ===== src/Sync/Response.antt =====
-- The parts of a /sync response that sync-accumulator.js reads. A JSON value that the code only
-- passes on (`content`, `unread_notifications`, a group's data) is a `Json`, its serialised text; a
-- property that may be missing or null is an `Option`.
use matrix_js_sdk.Base.{ℕ, String, Bool, Option, List}
use matrix_js_sdk.Base.Dict.{Dict}

abbrev pub Json : Type 0
Json = String

pub record Unsigned : Type 0 where
  pub prev_content : Option Json
  pub prev_sender : Option String

pub record Event : Type 0 where
  pub type : Option String
  pub state_key : Option String
  pub sender : Option String
  pub content : Json
  pub unsigned : Option Unsigned

pub record AccountData : Type 0 where
  pub type : String
  pub content : Json

-- an entry of `ephemeral.events`; `content` is eventId → { "m.read": userId → data }
pub record Ephemeral : Type 0 where
  pub room_id : Option String
  pub type : String
  pub content : Option (Dict (Option (Dict Json)))

pub record Summary : Type 0 where
  pub heroes : Option (List String)
  pub joined_member_count : Option ℕ
  pub invited_member_count : Option ℕ

pub record TimelineData : Type 0 where
  pub limited : Bool
  pub events : Option (List Event)
  pub prev_batch : Option String

-- `x.events` of a missing `x` counts as missing
pub record JoinData : Type 0 where
  pub account_data : Option (List AccountData)
  pub unread_notifications : Option Json
  pub summary : Option Summary
  pub ephemeral : Option (List Ephemeral)
  pub timeline : Option TimelineData
  pub state : Option (List Event)

pub record InviteData : Type 0 where
  pub invite_state : Option (List Event)

pub record Rooms : Type 0 where
  pub invite : Option (Dict InviteData)
  pub join : Option (Dict JoinData)
  pub leave : Option (Dict Json)

pub record Groups : Type 0 where
  pub invite : Option (Dict Json)
  pub join : Option (Dict Json)
  pub leave : Option (Dict Json)

pub record SyncResponse : Type 0 where
  pub rooms : Option Rooms
  pub groups : Option Groups
  pub account_data : Option (List AccountData)
  pub next_batch : String
