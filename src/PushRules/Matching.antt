-- ===== src/PushRules/Matching.antt =====
-- Which rule matches, against a description without the cache of regular expressions.
use matrix_js_sdk.Base.{
  ◌≡◌, refl, ap, sym, ◌∙◌, inl, inr, Bool, true, false, Option, none, some, List, [], ◌∷◌, ◌++◌,
  All, every, Bool-cases, Option-cases,
}
use mathlib.Core.Option.{some-injective}
use matrix_js_sdk.PushRules.Texts.{Text, text_eq, text_eq_iff, is_truthy}
use matrix_js_sdk.PushRules.Globs.{glob_to_regexp}
use matrix_js_sdk.PushRules.Conditions.{
  Json, str, Event, Room, Condition, Kind, event_match, contains_display_name, room_member_count,
  sender_notification_permission, unknown, value_for_dotted_key, Cache, prefix_of, suffix_of,
  cached, create_cached_regex, match_value, match_key, fulfills_event_match, condition_function,
  fulfills, fulfills_all,
}
use matrix_js_sdk.PushRules.Rules.{
  RuleKind, Rule, KindSet, rules_of, rule_kinds_in_order, template_rule_to_raw, raw_rule_matches,
  rule_matches, match_rules, match_kinds, matching_rule_from_kind_set,
}
use matrix_js_sdk.PushRules.Meaning.{
  source_of, IsFor, UsesAs, value_matches, key_matches, event_matches, kind_holds, holds,
  raw_applies, applies, first_rule, first_match, Yields, RuleUsesAs, KindSetUsesAs,
}

pub create-hit :
    (before glob after source : Text) (cache : Cache)
    → cached glob cache ≡ some source
    → create_cached_regex before glob after cache ≡ (source, cache)
unfolding create_cached_regex
create-hit before glob after source cache e = rw (e, create_cached_regex)

pub create-miss :
    (before glob after : Text) (cache : Cache)
    → cached glob cache ≡ none
    → create_cached_regex before glob after cache ≡ (
      before ++ (glob_to_regexp glob ++ after),
      (glob, before ++ (glob_to_regexp glob ++ after)) ∷ cache,
    )
unfolding create_cached_regex
create-miss before glob after cache e = rw (e, create_cached_regex)

cached-cons :
    (key_of : Text → Text) (glob source : Text) (cache : Cache)
    → source ≡ source_of (key_of glob) glob
    → IsFor key_of cache
    → IsFor key_of ((glob, source) ∷ cache)
unfolding cached
cached-cons key_of glob source cache e h g s = elim (Bool-cases (text_eq glob g)) [
  | inl t ↦
      rw (t, cached)
        (λ q.
          sym (some-injective _ _ q)
          ∙ (e ∙ ap (λ x. source_of (key_of x) x) ((text_eq_iff glob g).0 t)))
  | inr t ↦ rw (t, cached) (λ q. h g s q)
]

create_cached_regex-IsFor :
    (key_of : Text → Text) (key glob : Text) (cache : Cache)
    → source_of key glob ≡ source_of (key_of glob) glob
    → IsFor key_of cache
    → ((create_cached_regex (prefix_of key) glob (suffix_of key) cache).0 ≡ source_of key glob)
      × IsFor key_of (create_cached_regex (prefix_of key) glob (suffix_of key) cache).1
create_cached_regex-IsFor key_of key glob cache u h = elim (Option-cases (cached glob cache)) [
  | inr (source, e) ↦
      rw (create-hit (prefix_of key) glob (suffix_of key) source cache e)
        (h glob source e ∙ sym u, h)
  | inl e ↦
      rw (create-miss (prefix_of key) glob (suffix_of key) cache e)
        (refl, cached-cons key_of glob (source_of key glob) cache u h)
]

module _ (matches : Text → Text → Bool) (in_room : Option Room) (ev : Event)
    (key_of : Text → Text) where
  match_value-Yields :
      (key : Text) (cond : Condition) (v : Option Json) (cache : Cache)
      → source_of key cond.pattern ≡ source_of (key_of cond.pattern) cond.pattern
      → IsFor key_of cache
      → Yields key_of
          (match_value matches key cond v cache)
          (value_matches matches in_room ev key cond v)
  unfolding match_value value_matches
  match_value-Yields key cond none cache u h = (refl, h)
  match_value-Yields key cond (some Json.null) cache u h = (refl, h)
  match_value-Yields key cond (some (Json.bool b)) cache u h = (refl, h)
  match_value-Yields key cond (some (Json.num n)) cache u h = (refl, h)
  match_value-Yields key cond (some (Json.arr xs)) cache u h = (refl, h)
  match_value-Yields key cond (some (Json.obj fs)) cache u h = (refl, h)
  match_value-Yields key cond (some (str val)) cache u h =
      elim (Bool-cases (is_truthy cond.value)) [
        | inl e ↦ rw e (refl, h)
        | inr e ↦
            let made = create_cached_regex-IsFor key_of key cond.pattern cache u h in
            rw e (ap (λ source. matches source val) made.0, made.1)
      ]

  match_key-Yields :
      (k : Option Text) (cond : Condition) (cache : Cache)
      → cond.key ≡ k
      → UsesAs key_of cond
      → IsFor key_of cache
      → Yields key_of (match_key matches k cond ev cache) (key_matches matches in_room ev k cond)
  unfolding match_key key_matches
  match_key-Yields none cond cache e u h = (refl, h)
  match_key-Yields (some []) cond cache e u h = (refl, h)
  match_key-Yields (some (c ∷ key)) cond cache e u h =
      match_value-Yields (c ∷ key) cond (value_for_dotted_key (c ∷ key) ev) cache (u _ e) h

  condition_function-Yields :
      (k : Kind) (cond : Condition) (cache : Cache)
      → UsesAs key_of cond
      → IsFor key_of cache
      → Yields key_of
          (condition_function matches k in_room cond ev cache)
          (kind_holds matches in_room ev k cond)
  unfolding condition_function kind_holds event_matches fulfills_event_match
  condition_function-Yields event_match cond cache u h =
      match_key-Yields cond.key cond cache refl u h
  condition_function-Yields contains_display_name cond cache u h = (refl, h)
  condition_function-Yields room_member_count cond cache u h = (refl, h)
  condition_function-Yields sender_notification_permission cond cache u h = (refl, h)
  condition_function-Yields unknown cond cache u h = (refl, h)

  fulfills-Yields :
      (cond : Condition) (cache : Cache)
      → UsesAs key_of cond
      → IsFor key_of cache
      → Yields key_of (fulfills matches in_room cond ev cache) (holds matches in_room ev cond)
  unfolding fulfills holds
  fulfills-Yields cond cache u h = condition_function-Yields cond.kind cond cache u h

  fulfills_all-Yields :
      (conds : List Condition) (cache : Cache)
      → All (UsesAs key_of) conds
      → IsFor key_of cache
      → Yields key_of
          (fulfills_all matches in_room conds ev cache)
          (every (holds matches in_room ev) conds)
  unfolding fulfills_all
  fulfills_all-Yields [] cache u h = (refl, h)
  fulfills_all-Yields (cond ∷ conds) cache u h =
      let (p, h') = fulfills-Yields cond cache u.0 h in
      let (q, h'') = fulfills_all-Yields conds (fulfills matches in_room cond ev cache).1 u.1 h' in
      (rw (p, q) refl, h'')

module _ (matches : Text → Text → Bool) (in_room : Option Room) (ev : Event)
    (key_of : Text → Text) where
  raw_rule_matches-Yields :
      (b : Bool) (raw : Option (List Condition)) (cache : Cache)
      → ((conds : List Condition) → raw ≡ some conds → All (UsesAs key_of) conds)
      → IsFor key_of cache
      → Yields key_of
          (raw_rule_matches matches in_room ev b raw cache)
          (raw_applies matches in_room ev b raw)
  unfolding raw_rule_matches raw_applies
  raw_rule_matches-Yields false raw cache u h = (refl, h)
  raw_rule_matches-Yields true none cache u h = (refl, h)
  raw_rule_matches-Yields true (some conds) cache u h =
      fulfills_all-Yields matches in_room ev key_of conds cache (u conds refl) h

  rule_matches-Yields :
      (kind : RuleKind) (rule : Rule) (cache : Cache)
      → RuleUsesAs key_of kind rule
      → IsFor key_of cache
      → Yields key_of
          (rule_matches matches in_room ev kind rule cache)
          (applies matches in_room ev kind rule)
  unfolding rule_matches applies
  rule_matches-Yields kind rule cache u h =
      raw_rule_matches-Yields rule.enabled (template_rule_to_raw kind rule) cache u h

  match_rules-Yields :
      (kind : RuleKind) (rules : List Rule) (cache : Cache)
      → All (RuleUsesAs key_of kind) rules
      → IsFor key_of cache
      → Yields key_of
          (match_rules matches in_room ev kind rules cache)
          (first_rule matches in_room ev kind rules)
  unfolding match_rules first_rule
  match_rules-Yields kind [] cache u h = (refl, h)
  match_rules-Yields kind (rule ∷ rules) cache u h =
      let r = rule_matches-Yields kind rule cache u.0 h in
      elim (Bool-cases (applies matches in_room ev kind rule)) [
        | inl e ↦ rw (r.0 ∙ e, e, match_rules, first_rule) (refl, r.1)
        | inr e ↦ rw (r.0 ∙ e, e, match_rules, first_rule) (match_rules-Yields kind rules _ u.1 r.1)
      ]

  match_kinds-Yields :
      (kinds : List RuleKind) (kindset : KindSet) (cache : Cache)
      → KindSetUsesAs key_of kindset
      → IsFor key_of cache
      → Yields key_of
          (match_kinds matches in_room ev kinds kindset cache)
          (first_match matches in_room ev kinds kindset)
  unfolding match_kinds first_match
  match_kinds-Yields [] kindset cache u h = (refl, h)
  match_kinds-Yields (kind ∷ kinds) kindset cache u h =
      elim (Option-cases (rules_of kind kindset)) [
        | inl e ↦ rw (e, match_kinds, first_match) (match_kinds-Yields kinds kindset cache u h)
        | inr (rules, e) ↦
            let r = match_rules-Yields kind rules cache (u kind rules e) h in
            elim (Option-cases (first_rule matches in_room ev kind rules)) [
              | inl f ↦
                  rw (e, r.0 ∙ f, f, match_kinds, first_match)
                    (match_kinds-Yields kinds kindset _ u r.1)
              | inr (m, f) ↦ rw (e, r.0 ∙ f, f, match_kinds, first_match) (refl, r.1)
            ]
      ]

  -- The rule returned is the first one, by kind and then by position, that is enabled and whose
  -- conditions all hold, provided every glob among the rules is used on keys framed alike, and the
  -- cached expressions are those; the cache stays such a one.
  pub matching_rule_from_kind_set-first :
      (kindset : KindSet) (cache : Cache)
      → KindSetUsesAs key_of kindset
      → IsFor key_of cache
      → Yields key_of
          (matching_rule_from_kind_set matches in_room ev kindset cache)
          (first_match matches in_room ev rule_kinds_in_order kindset)
  unfolding matching_rule_from_kind_set
  matching_rule_from_kind_set-first kindset cache u h =
      match_kinds-Yields rule_kinds_in_order kindset cache u h
