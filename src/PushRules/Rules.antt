-- ===== src/PushRules/Rules.antt =====
-- pushprocessor.js: the rule that an event matches, and the actions object it makes. The returned
-- rule stands beside its kind, which the source writes into the rule's `kind` property.
use Prim.Native.String.{String}
use matrix_js_sdk.Base.{Bool, true, false, Option, none, some, List, [], ◌∷◌, if◌then◌else◌, str_eq}
use matrix_js_sdk.Base.Dict.{Dict, get, put}
use matrix_js_sdk.PushRules.Texts.{Text, text, text_eq, is_truthy}
use matrix_js_sdk.PushRules.Conditions.{
  Json, bool, Event, Room, Condition, event_match, Cache, body_key, fulfills_all,
}

pub data RuleKind : Type 0 where
  override content room sender underride : RuleKind

abbrev pub rule_kinds_in_order : List RuleKind
rule_kinds_in_order = override ∷ content ∷ room ∷ sender ∷ underride ∷ []

-- an action is a word, or an object with a `set_tweak` and maybe a `value`
pub data Action : Type 0 where
  word : String → Action
  tweak : String → Option Json → Action

pub record Rule : Type 0 where
  pub rule_id : Option Text
  pub default : Bool
  pub enabled : Bool
  pub pattern : Option Text
  pub conditions : List Condition
  pub actions : List Action

-- the global rule sets, by kind
pub record KindSet : Type 0 where
  pub override_rules : Option (List Rule)
  pub content_rules : Option (List Rule)
  pub room_rules : Option (List Rule)
  pub sender_rules : Option (List Rule)
  pub underride_rules : Option (List Rule)

abbrev pub rules_of : RuleKind → KindSet → Option (List Rule)
rules_of override s = s.override_rules
rules_of content s = s.content_rules
rules_of room s = s.room_rules
rules_of sender s = s.sender_rules
rules_of underride s = s.underride_rules

-- an `event_match` condition that `templateRuleToRaw` makes
abbrev equals : Text → Option Text → Condition
equals key value = record {
  kind = event_match;
  key = some key;
  value = value;
  pattern = [];
  is = none;
}

abbrev body_matches : Text → Condition
body_matches pattern = record {
  kind = event_match;
  key = some body_key;
  value = none;
  pattern = pattern;
  is = none;
}

-- `templateRuleToRaw(kind, tprule)`: the conditions of the raw rule
unfoldable pub template_rule_to_raw : RuleKind → Rule → Option (List Condition)
template_rule_to_raw underride rule = some rule.conditions
template_rule_to_raw override rule = some rule.conditions
template_rule_to_raw room rule =
    if is_truthy rule.rule_id then some (equals (text "room_id") rule.rule_id ∷ []) else none
template_rule_to_raw sender rule =
    if is_truthy rule.rule_id then some (equals (text "user_id") rule.rule_id ∷ []) else none
template_rule_to_raw content rule = elim rule.pattern [
  | none ↦ none
  | some [] ↦ none
  | some (c ∷ s) ↦ some (body_matches (c ∷ s) ∷ [])
]

abbrev pub Match : Type 0
Match = Option (RuleKind × Rule)

module _ (matches : Text → Text → Bool) (in_room : Option Room) (ev : Event) where
  -- the raw rule, of a rule that is enabled or not
  unfoldable pub raw_rule_matches : Bool → Option (List Condition) → Cache → Bool × Cache
  unfolding fulfills_all
  raw_rule_matches false raw cache = (false, cache)
  raw_rule_matches true none cache = (false, cache)
  raw_rule_matches true (some conditions) cache = fulfills_all matches in_room conditions ev cache

  unfoldable pub rule_matches : RuleKind → Rule → Cache → Bool × Cache
  unfolding template_rule_to_raw raw_rule_matches
  rule_matches kind rule cache =
      raw_rule_matches rule.enabled (template_rule_to_raw kind rule) cache

  unfoldable pub match_rules : RuleKind → List Rule → Cache → Match × Cache
  unfolding rule_matches
  match_rules kind [] cache = (none, cache)
  match_rules kind (rule ∷ rules) cache =
      let (b, cache') = rule_matches kind rule cache in
      elim b [ true ↦ (some (kind, rule), cache') | false ↦ match_rules kind rules cache' ]

  unfoldable pub match_kinds : List RuleKind → KindSet → Cache → Match × Cache
  unfolding match_rules
  match_kinds [] kindset cache = (none, cache)
  match_kinds (kind ∷ kinds) kindset cache = elim (rules_of kind kindset) [
    | none ↦ match_kinds kinds kindset cache
    | some rules ↦
        let (m, cache') = match_rules kind rules cache in
        elim m [ some r ↦ (some r, cache') | none ↦ match_kinds kinds kindset cache' ]
  ]

  unfoldable pub matching_rule_from_kind_set : KindSet → Cache → Match × Cache
  unfolding match_kinds
  matching_rule_from_kind_set = match_kinds rule_kinds_in_order

  -- `matchingRuleForEventWithRulesets(ev, rulesets)`
  unfoldable pub matching_rule : Text → Option KindSet → Cache → Match × Cache
  unfolding matching_rule_from_kind_set text_eq
  matching_rule my_id none cache = (none, cache)
  matching_rule my_id (some global) cache =
      if text_eq ev.sender my_id then (none, cache) else matching_rule_from_kind_set global cache

-- the result of `actionListToActionsObject`
pub record Actions : Type 0 where
  pub notify : Bool
  pub tweaks : Dict Json

abbrev pub act : Action → Actions → Actions
act (word w) o = if str_eq w "notify" then record { notify = true; tweaks = o.tweaks } else o
act (tweak name none) o = record { notify = o.notify; tweaks = put name (bool true) o.tweaks }
act (tweak name (some value)) o = record { notify = o.notify; tweaks = put name value o.tweaks }

unfoldable pub act_all : List Action → Actions → Actions
unfolding put
act_all [] o = o
act_all (a ∷ rest) o = act_all rest (act a o)

unfoldable pub action_list_to_actions_object : List Action → Actions
unfolding act_all
action_list_to_actions_object actions = act_all actions (record { notify = false; tweaks = [] })

abbrev pub is_content : RuleKind → Bool
is_content content = true
is_content _ = false

-- `pushActionsForEventAndRulesets` after the match; `none` is the empty object
unfoldable pub push_actions : Match → Option Actions
unfolding action_list_to_actions_object get put
push_actions none = none
push_actions (some (kind, rule)) =
    let o = action_list_to_actions_object rule.actions in
    elim (get "highlight" o.tweaks) [
      | some v ↦ some o
      | none ↦
          some (record {
            notify = o.notify;
            tweaks = put "highlight" (bool (is_content kind)) o.tweaks;
          })
    ]

-- the inner loop of `getPushRuleById`
unfoldable pub find_rule : Text → List Rule → Option Rule
unfolding text_eq
find_rule id [] = none
find_rule id (rule ∷ rules) = elim rule.rule_id [
  | none ↦ find_rule id rules
  | some j ↦ if text_eq j id then some rule else find_rule id rules
]

unfoldable pub find_in_kinds : Text → List RuleKind → KindSet → Option Rule
unfolding find_rule
find_in_kinds id [] kindset = none
find_in_kinds id (kind ∷ kinds) kindset = elim (rules_of kind kindset) [
  | none ↦ find_in_kinds id kinds kindset
  | some rules ↦ elim (find_rule id rules) [
    | some rule ↦ some rule
    | none ↦ find_in_kinds id kinds kindset
  ]
]

-- `getPushRuleById(ruleId)`
unfoldable pub get_push_rule_by_id : Text → Option KindSet → Option Rule
unfolding find_in_kinds
get_push_rule_by_id id none = none
get_push_rule_by_id id (some global) = find_in_kinds id rule_kinds_in_order global
