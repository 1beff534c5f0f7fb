-- ===== src/PushRules/Conditions.antt =====
-- The conditions of a push rule in pushprocessor.js. The regular expression engine is a parameter:
-- `matches source s` is `s.match(new RegExp(source, 'i'))`.
use matrix_js_sdk.Base.{
  ℕ, ◌+◌, ◌-◌, ◌*◌, Bool, true, false, ◌&&◌, ◌||◌, Option, none, some, List, [], ◌∷◌, ◌++◌, ltb,
  leb, ◌==◌, if◌then◌else◌,
}
use matrix_js_sdk.PushRules.Texts.{Text, text, text_eq, is_truthy, split}
use matrix_js_sdk.PushRules.Globs.{escape_reg_exp, glob_to_regexp}

mutual
  pub data Json : Type 0 where
    null : Json
    bool : Bool → Json
    num : ℕ → Json
    str : Text → Json
    arr : Items → Json
    obj : Fields → Json

  pub data Items : Type 0 where
    nil : Items
    cons : Json → Items → Items

  pub data Fields : Type 0 where
    end : Fields
    field : Text → Json → Fields → Fields

unfoldable pub lookup_field : Text → Fields → Option Json
unfolding text_eq
lookup_field k end = none
lookup_field k (field j v fs) = if text_eq j k then some v else lookup_field k fs

-- `val[part]`, null for what is missing; only objects have properties here
abbrev pub property : Text → Json → Option Json
property k (obj fs) = elim (lookup_field k fs) [ none ↦ none | some null ↦ none | some v ↦ some v ]
property k _ = none

-- what the processor reads of a MatrixEvent; `raw` is `ev.event`
pub record Event : Type 0 where
  pub type : Text
  pub sender : Text
  pub content : Json
  pub raw : Json
  pub is_encrypted : Bool
  pub clear_content : Option Json

-- What it asks of the event's room, if the client has it: `mayTriggerNotifOfType`,
-- `getJoinedMemberCount` and the name of the user's own member.
pub record Room : Type 0 where
  pub may_trigger : Text → Text → Bool
  pub joined_member_count : ℕ
  pub my_name : Option Text

pub data Kind : Type 0 where
  event_match contains_display_name room_member_count sender_notification_permission : Kind
  unknown : Kind

pub record Condition : Type 0 where
  pub kind : Kind
  pub key : Option Text
  pub value : Option Text
  pub pattern : Text
  pub is : Option Text

-- the loop of `valueForDottedKey`
unfoldable pub walk : List Text → Json → Option Json
unfolding lookup_field
walk [] val = some val
walk (part ∷ parts) val = elim (property part val) [ none ↦ none | some v ↦ walk parts v ]

unfoldable pub value_for_dotted_key : Text → Event → Option Json
unfolding split walk text_eq
value_for_dotted_key key ev =
    let (first, rest) = split b'.' key in
    if text_eq first (text "content")
    then walk rest ev.content
    else if text_eq first (text "type")
    then walk rest (str ev.type)
    else walk (first ∷ rest) ev.raw

-- the two groups of `/^([=<>]*)([0-9]*)$/`
abbrev pub is_ineq : ℕ → Bool
is_ineq c = c == b'=' || c == b'<' || c == b'>'

unfoldable pub split_ineq : Text → Text × Text
split_ineq [] = ([], [])
split_ineq (c ∷ s) =
    let (ineq, rest) = split_ineq s in if is_ineq c then (c ∷ ineq, rest) else ([], c ∷ s)

-- `parseInt` of a text of digits; `none` is no match, or NaN
unfoldable pub digits : ℕ → Text → Option ℕ
digits n [] = some n
digits n (c ∷ s) = if leb b'0' c && leb c b'9' then digits (n * 10 + (c - b'0')) s else none

unfoldable pub parse_rhs : Text → Option ℕ
unfolding digits
parse_rhs [] = none
parse_rhs (c ∷ s) = digits 0 (c ∷ s)

unfoldable pub compare_count : Text → ℕ → ℕ → Bool
unfolding text_eq
compare_count ineq count rhs =
    if text_eq ineq [] || text_eq ineq (text "==")
    then count == rhs
    else if text_eq ineq (text "<")
    then ltb count rhs
    else if text_eq ineq (text ">")
    then ltb rhs count
    else if text_eq ineq (text "<=")
    then leb count rhs
    else if text_eq ineq (text ">=")
    then leb rhs count
    else false

unfoldable pub fulfills_room_member_count : Option Room → Condition → Bool
unfolding split_ineq parse_rhs compare_count
fulfills_room_member_count room cond = elim cond.is [
  | none ↦ false
  | some is ↦ elim room [
    | none ↦ false
    | some r ↦
        let (ineq, rhs) = split_ineq is in
        elim (parse_rhs rhs) [ none ↦ false | some n ↦ compare_count ineq r.joined_member_count n ]
  ]
]

unfoldable pub fulfills_sender_notif_perm : Option Room → Condition → Event → Bool
fulfills_sender_notif_perm room cond ev =
    if is_truthy cond.key
    then (elim room [
      | none ↦ false
      | some r ↦ elim cond.key [ none ↦ false | some key ↦ r.may_trigger key ev.sender ]
    ])
    else false

abbrev pub body_of : Json → Option Text
body_of content = elim (property (text "body") content) [ some (str s) ↦ some s | _ ↦ none ]

abbrev pub shown_content : Event → Json
shown_content ev =
    if ev.is_encrypted
    then (elim ev.clear_content [ none ↦ ev.content | some c ↦ c ])
    else ev.content

abbrev pub word_start : Text
word_start = text "(^|\\W)"

abbrev pub word_end : Text
word_end = text "(\\W|$)"

abbrev pub body_key : Text
body_key = text "content.body"

-- `cachedGlobToRegex`, by the glob
abbrev pub Cache : Type 0
Cache = List (Text × Text)

unfoldable pub cached : Text → Cache → Option Text
unfolding text_eq
cached glob [] = none
cached glob ((g, source) ∷ c) = if text_eq g glob then some source else cached glob c

-- `createCachedRegex`
unfoldable pub create_cached_regex : Text → Text → Text → Cache → Text × Cache
unfolding cached
create_cached_regex before glob after cache = elim (cached glob cache) [
  | some source ↦ (source, cache)
  | none ↦ let source = before ++ (glob_to_regexp glob ++ after) in (source, (glob, source) ∷ cache)
]

-- what the expression of an `event_match` condition is made of
abbrev pub prefix_of : Text → Text
prefix_of key = if text_eq key body_key then word_start else text "^"

abbrev pub suffix_of : Text → Text
suffix_of key = if text_eq key body_key then word_end else text "$"

module _ (matches : Text → Text → Bool) where
  unfoldable pub fulfills_display_name : Option Room → Event → Bool
  unfolding escape_reg_exp
  fulfills_display_name room ev = elim (body_of (shown_content ev)) [
    | none ↦ false
    | some [] ↦ false
    | some body ↦ elim room [
      | none ↦ false
      | some r ↦ elim r.my_name [
        | none ↦ false
        | some name ↦ matches (word_start ++ (escape_reg_exp name ++ word_end)) body
      ]
    ]
  ]

  -- the rest of `event_match`, once the value is looked up
  unfoldable pub match_value : Text → Condition → Option Json → Cache → Bool × Cache
  unfolding create_cached_regex
  match_value key cond (some (str val)) cache =
      if is_truthy cond.value
      then (elim cond.value [ none ↦ false | some v ↦ text_eq v val ], cache)
      else let (source, cache') =
          create_cached_regex (prefix_of key) cond.pattern (suffix_of key) cache in
        (matches source val, cache')
  match_value key cond _ cache = (false, cache)

  unfoldable pub match_key : Option Text → Condition → Event → Cache → Bool × Cache
  unfolding value_for_dotted_key match_value
  match_key none cond ev cache = (false, cache)
  match_key (some []) cond ev cache = (false, cache)
  match_key (some (c ∷ key)) cond ev cache =
      match_value (c ∷ key) cond (value_for_dotted_key (c ∷ key) ev) cache

  unfoldable pub fulfills_event_match : Condition → Event → Cache → Bool × Cache
  unfolding match_key
  fulfills_event_match cond ev cache = match_key cond.key cond ev cache

  -- `condition_functions`, by the kind
  unfoldable pub condition_function : Kind → Option Room → Condition → Event → Cache → Bool × Cache
  unfolding fulfills_event_match
  condition_function event_match room cond ev cache = fulfills_event_match cond ev cache
  condition_function contains_display_name room cond ev cache =
      (fulfills_display_name room ev, cache)
  condition_function room_member_count room cond ev cache =
      (fulfills_room_member_count room cond, cache)
  condition_function sender_notification_permission room cond ev cache =
      (fulfills_sender_notif_perm room cond ev, cache)
  condition_function unknown room cond ev cache = (false, cache)

  -- `eventFulfillsCondition`
  unfoldable pub fulfills : Option Room → Condition → Event → Cache → Bool × Cache
  unfolding condition_function
  fulfills room cond ev cache = condition_function cond.kind room cond ev cache

  -- the loop of `ruleMatchesEvent`: every condition is evaluated, whatever came before
  unfoldable pub fulfills_all : Option Room → List Condition → Event → Cache → Bool × Cache
  unfolding fulfills
  fulfills_all room [] ev cache = (true, cache)
  fulfills_all room (cond ∷ conds) ev cache =
      let (b, cache') = fulfills room cond ev cache in
      let (bs, cache'') = fulfills_all room conds ev cache' in (b && bs, cache'')
