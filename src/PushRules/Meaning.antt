-- ===== src/PushRules/Meaning.antt =====
-- What the rules of pushprocessor.js mean, with no cache of regular expressions.
use matrix_js_sdk.Base.{
  ◌≡◌, Bool, true, false, Option, none, some, List, [], ◌∷◌, ◌++◌, if◌then◌else◌, All, every,
}
use matrix_js_sdk.PushRules.Texts.{Text, text_eq, is_truthy}
use matrix_js_sdk.PushRules.Globs.{glob_to_regexp}
use matrix_js_sdk.PushRules.Conditions.{
  Json, str, Event, Room, Condition, Kind, event_match, contains_display_name, room_member_count,
  sender_notification_permission, unknown, value_for_dotted_key, Cache, prefix_of, suffix_of,
  cached, fulfills_display_name, fulfills_room_member_count, fulfills_sender_notif_perm,
}
use matrix_js_sdk.PushRules.Rules.{RuleKind, Rule, KindSet, Match, rules_of, template_rule_to_raw}

-- the expression that a condition on `key` means
abbrev pub source_of : Text → Text → Text
source_of key glob = prefix_of key ++ (glob_to_regexp glob ++ suffix_of key)

-- The cached expressions are the ones meant, when `key_of` tells the key that each glob is used on.
abbrev pub IsFor : (Text → Text) → Cache → Type 0
IsFor key_of cache =
    (glob source : Text) → cached glob cache ≡ some source → source ≡ source_of (key_of glob) glob

-- A condition uses its glob on that key, or on another whose expressions are framed alike.
abbrev pub UsesAs : (Text → Text) → Condition → Type 0
UsesAs key_of cond =
    (key : Text)
    → cond.key ≡ some key
    → source_of key cond.pattern ≡ source_of (key_of cond.pattern) cond.pattern

module _ (matches : Text → Text → Bool) (in_room : Option Room) (ev : Event) where
  unfoldable pub value_matches : Text → Condition → Option Json → Bool
  value_matches key cond (some (str val)) =
      if is_truthy cond.value
      then (elim cond.value [ none ↦ false | some v ↦ text_eq v val ])
      else matches (source_of key cond.pattern) val
  value_matches key cond _ = false

  unfoldable pub key_matches : Option Text → Condition → Bool
  unfolding value_matches
  key_matches none cond = false
  key_matches (some []) cond = false
  key_matches (some (c ∷ key)) cond =
      value_matches (c ∷ key) cond (value_for_dotted_key (c ∷ key) ev)

  -- what an `event_match` condition means
  unfoldable pub event_matches : Condition → Bool
  unfolding key_matches
  event_matches cond = key_matches cond.key cond

  unfoldable pub kind_holds : Kind → Condition → Bool
  unfolding event_matches
  kind_holds event_match cond = event_matches cond
  kind_holds contains_display_name cond = fulfills_display_name matches in_room ev
  kind_holds room_member_count cond = fulfills_room_member_count in_room cond
  kind_holds sender_notification_permission cond = fulfills_sender_notif_perm in_room cond ev
  kind_holds unknown cond = false

  unfoldable pub holds : Condition → Bool
  unfolding kind_holds
  holds cond = kind_holds cond.kind cond

  -- an enabled rule that has conditions, which all hold
  unfoldable pub raw_applies : Bool → Option (List Condition) → Bool
  unfolding holds
  raw_applies false raw = false
  raw_applies true none = false
  raw_applies true (some conditions) = every holds conditions

  unfoldable pub applies : RuleKind → Rule → Bool
  unfolding raw_applies
  applies kind rule = raw_applies rule.enabled (template_rule_to_raw kind rule)

  unfoldable pub first_rule : RuleKind → List Rule → Match
  unfolding applies
  first_rule kind [] = none
  first_rule kind (rule ∷ rules) =
      let rest = first_rule kind rules in if applies kind rule then some (kind, rule) else rest

  -- the first rule that applies, the kinds taken in order
  unfoldable pub first_match : List RuleKind → KindSet → Match
  unfolding first_rule
  first_match [] kindset = none
  first_match (kind ∷ kinds) kindset = elim (rules_of kind kindset) [
    | none ↦ first_match kinds kindset
    | some rules ↦ elim (first_rule kind rules) [
      | some m ↦ some m
      | none ↦ first_match kinds kindset
    ]
  ]

-- A result that is the one described, with a cache that is still the one meant.
abbrev pub Yields {ℓ} : {A : Type ℓ} → (Text → Text) → A × Cache → A → Type ℓ
Yields key_of r a = (r.0 ≡ a) × IsFor key_of r.1

-- Every glob of the rule is used on the key that `key_of` tells.
abbrev pub RuleUsesAs : (Text → Text) → RuleKind → Rule → Type 0
RuleUsesAs key_of kind rule =
    (conds : List Condition)
    → template_rule_to_raw kind rule ≡ some conds
    → All (UsesAs key_of) conds

abbrev pub KindSetUsesAs : (Text → Text) → KindSet → Type 0
KindSetUsesAs key_of kindset =
    (kind : RuleKind) (rules : List Rule)
    → rules_of kind kindset ≡ some rules
    → All (RuleUsesAs key_of kind) rules
