-- ===== src/Tests/Rules.antt =====
-- pushprocessor.js on a tombstone event and the default override rules.
use matrix_js_sdk.Base.{
  ◌≡◌, ◌&&◌, refl, Bool, true, false, none, some, [], ◌∷◌, map, All, any, List,
}
use mathlib.Core.Option.{some-injective}
use mathlib.Core.Path.{subst}
use matrix_js_sdk.PushRules.Texts.{Text, text, text_eq, split}
use matrix_js_sdk.PushRules.Conditions.{
  null, str, obj, end, field, Event, value_for_dotted_key, walk, lookup_field, cached, fulfills_all,
}
use matrix_js_sdk.Base.Dict.{get}
use matrix_js_sdk.PushRules.ActionLists.{
  is_notify, last_value, action_list_to_actions_object-last_value,
}
use matrix_js_sdk.PushRules.Rules.{
  Action, word, tweak, action_list_to_actions_object, Rule, RuleKind, KindSet, rule_kinds_in_order,
  matching_rule_from_kind_set, template_rule_to_raw,
}
use matrix_js_sdk.PushRules.Defaults.{
  reaction_rule, rewrite_default_rules, rewrite_default_rules-rewrite_default_rules, choice,
  or_empty, StartsWith, rewrite_default_rules-choices,
}
use matrix_js_sdk.PushRules.Matching.{matching_rule_from_kind_set-first}
use matrix_js_sdk.PushRules.Meaning.{
  source_of, IsFor, UsesAs, RuleUsesAs, KindSetUsesAs, Yields, first_match,
}
use matrix_js_sdk.PushRules.SharedGlobs.{glob_condition, fulfills_all-shared_glob}

abbrev reaction : Event
reaction = record {
  type = text "m.reaction";
  sender = text "@a:x";
  content = obj (field (text "body") (str (text "m.reaction is a type")) end);
  raw = null;
  is_encrypted = false;
  clear_content = none;
}

-- one rule, which the user has switched off
abbrev switched_off : Rule
switched_off = record {
  rule_id = reaction_rule.rule_id;
  default = true;
  enabled = false;
  pattern = none;
  conditions = [];
  actions = [];
}

abbrev kindset : KindSet
kindset = record {
  override_rules = some (switched_off ∷ reaction_rule ∷ []);
  content_rules = none;
  room_rules = none;
  sender_rules = none;
  underride_rules = none;
}

-- equality in place of a regular expression
abbrev matches : Text → Text → Bool
matches = text_eq

rewrite_default_rules-rewrite_default_rules_example :
    rewrite_default_rules (some (rewrite_default_rules (some kindset)))
    ≡ rewrite_default_rules (some kindset)
rewrite_default_rules-rewrite_default_rules_example =
    rewrite_default_rules-rewrite_default_rules (some kindset)

rewrite_default_rules-choices_example :
    StartsWith
      (map choice (or_empty (rewrite_default_rules (some kindset)).override_rules))
      (map choice (or_empty kindset.override_rules))
rewrite_default_rules-choices_example = rewrite_default_rules-choices kindset

abbrev type_key : Text → Text
type_key glob = text "type"

kindset-KindSetUsesAs : KindSetUsesAs type_key kindset
unfolding template_rule_to_raw
kindset-KindSetUsesAs RuleKind.override rules e =
    subst (All (RuleUsesAs type_key RuleKind.override)) (some-injective _ _ e) (
      λ conds q. subst (All (UsesAs type_key)) (some-injective _ _ q) tt,
      (
        λ conds q. subst (All (UsesAs type_key)) (some-injective _ _ q) (
            (
              λ key k.
                  subst
                    (λ x.
                      source_of x (text "m.reaction") ≡ source_of (text "type") (text "m.reaction"))
                    (some-injective _ _ k) refl,
              tt,
            )),
        tt,
      ),
    )
kindset-KindSetUsesAs RuleKind.content rules e = cc
kindset-KindSetUsesAs RuleKind.room rules e = cc
kindset-KindSetUsesAs RuleKind.sender rules e = cc
kindset-KindSetUsesAs RuleKind.underride rules e = cc

empty-IsFor : IsFor type_key []
unfolding cached
empty-IsFor glob source e = cc

matching_rule_from_kind_set-first_example :
    Yields type_key
      (matching_rule_from_kind_set matches none reaction kindset [])
      (first_match matches none reaction rule_kinds_in_order kindset)
matching_rule_from_kind_set-first_example =
    matching_rule_from_kind_set-first matches none reaction type_key kindset []
      kindset-KindSetUsesAs empty-IsFor

body_value :
    value_for_dotted_key (text "content.body") reaction ≡ some (str (text "m.reaction is a type"))
unfolding value_for_dotted_key split walk text_eq lookup_field
body_value = refl

type_value : value_for_dotted_key (text "type") reaction ≡ some (str (text "m.reaction"))
unfolding value_for_dotted_key split walk text_eq
type_value = refl

none-cached : cached (text "m.reaction") [] ≡ none
unfolding cached
none-cached = refl

fulfills_all-shared_glob_example :
    (fulfills_all matches none
      (glob_condition (text "content.body") (text "m.reaction")
        ∷ glob_condition (text "type") (text "m.reaction")
        ∷ [])
      reaction
      []).0
    ≡ (matches (source_of (text "content.body") (text "m.reaction")) (text "m.reaction is a type")
        && (matches (source_of (text "content.body") (text "m.reaction")) (text "m.reaction")
            && true))
fulfills_all-shared_glob_example =
    fulfills_all-shared_glob matches none reaction [] (text "m.reaction") (text "ontent.body")
      (text "ype") (text "m.reaction is a type") (text "m.reaction") b'c' b't' none-cached
      body_value type_value

abbrev actions : List Action
actions = word "notify" ∷ tweak "sound" none ∷ tweak "sound" (some (str (text "ring"))) ∷ []

action_list_to_actions_object-last_value_example :
    ((action_list_to_actions_object actions).notify ≡ any is_notify actions)
    × (get "sound" (action_list_to_actions_object actions).tweaks ≡ last_value "sound" actions)
action_list_to_actions_object-last_value_example =
    action_list_to_actions_object-last_value actions "sound"
