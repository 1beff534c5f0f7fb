-- ===== src/PushRules/Defaults.antt =====
-- `PushProcessor.rewriteDefaultRules`: the client's own override rules, merged into the server's.
use matrix_js_sdk.Base.{
  ◌≡◌, ◌↔◌, inl, inr, refl, ap, sym, ◌∙◌, ◌++◌, map, Bool-cases, Option-cases, Bool, true, false,
  Option, none, some, List, [], ◌∷◌, if◌then◌else◌,
}
use mathlib.Core.List.{append-nil, append_assoc}
use mathlib.Core.Option.{some-injective}
use matrix_js_sdk.PushRules.Texts.{Text, text, text_eq, text_eq_iff}
use matrix_js_sdk.PushRules.Conditions.{bool, Condition, event_match}
use matrix_js_sdk.PushRules.Rules.{Rule, word, tweak, KindSet}

abbrev type_is : Text → Condition
type_is pattern = record {
  kind = event_match;
  key = some (text "type");
  value = none;
  pattern = pattern;
  is = none;
}

abbrev pub tombstone_rule : Rule
tombstone_rule = record {
  rule_id = some (text ".m.rule.tombstone");
  default = true;
  enabled = true;
  pattern = none;
  conditions =
      type_is (text "m.room.tombstone")
      ∷ record {
        kind = event_match;
        key = some (text "state_key");
        value = none;
        pattern = [];
        is = none;
      }
      ∷ [];
  actions = word "notify" ∷ tweak "highlight" (some (bool true)) ∷ [];
}

abbrev pub reaction_rule : Rule
reaction_rule = record {
  rule_id = some (text ".m.rule.reaction");
  default = true;
  enabled = true;
  pattern = none;
  conditions = type_is (text "m.reaction") ∷ [];
  actions = word "dont_notify" ∷ [];
}

-- `DEFAULT_OVERRIDE_RULES`
abbrev pub default_override_rules : List Rule
default_override_rules = tombstone_rule ∷ reaction_rule ∷ []

abbrev pub same_id : Rule → Rule → Bool
same_id a b = elim a.rule_id [
  | none ↦ elim b.rule_id [ none ↦ true | some j ↦ false ]
  | some i ↦ elim b.rule_id [ none ↦ false | some j ↦ text_eq i j ]
]

-- what an existing rule takes from the default
abbrev pub refresh : Rule → Rule → Rule
refresh override rule = record {
  rule_id = rule.rule_id;
  default = override.default;
  enabled = rule.enabled;
  pattern = rule.pattern;
  conditions = override.conditions;
  actions = override.actions;
}

-- one step of the loop: the first rule of the same id, or a new rule at the end
unfoldable pub merge_rule : Rule → List Rule → List Rule
unfolding text_eq
merge_rule override [] = override ∷ []
merge_rule override (rule ∷ rules) =
    let rest = merge_rule override rules in
    if same_id rule override then refresh override rule ∷ rules else rule ∷ rest

unfoldable pub merge_rules : List Rule → List Rule → List Rule
unfolding merge_rule
merge_rules [] rules = rules
merge_rules (override ∷ overrides) rules = merge_rules overrides (merge_rule override rules)

abbrev no_rules : KindSet
no_rules = record {
  override_rules = none;
  content_rules = none;
  room_rules = none;
  sender_rules = none;
  underride_rules = none;
}

abbrev or_no_rules : Option KindSet → KindSet
or_no_rules none = no_rules
or_no_rules (some global) = global

abbrev pub or_empty : Option (List Rule) → List Rule
or_empty none = []
or_empty (some rules) = rules

-- `rewriteDefaultRules(incomingRules)`, on the global rule sets; a missing part is empty
unfoldable pub rewrite_default_rules : Option KindSet → KindSet
unfolding merge_rules
rewrite_default_rules incoming =
    let global = or_no_rules incoming in
    record {
      override_rules = some (merge_rules default_override_rules (or_empty global.override_rules));
      content_rules = global.content_rules;
      room_rules = global.room_rules;
      sender_rules = global.sender_rules;
      underride_rules = global.underride_rules;
    }

pub same_id_iff : (a b : Rule) → (same_id a b ≡ true) ↔ (a.rule_id ≡ b.rule_id)
same_id_iff a b = elim (Option-cases a.rule_id) [
  | inl ea ↦ elim (Option-cases b.rule_id) [
    | inl eb ↦ rw (ea, eb) (λ h. refl, λ h. refl)
    | inr (j, eb) ↦ rw (ea, eb) (λ h. cc, λ h. cc)
  ]
  | inr (i, ea) ↦ elim (Option-cases b.rule_id) [
    | inl eb ↦ rw (ea, eb) (λ h. cc, λ h. cc)
    | inr (j, eb) ↦
        rw (ea, eb)
          (λ h. ap some ((text_eq_iff i j).0 h), λ h. (text_eq_iff i j).1 (some-injective _ _ h))
  ]
]

hit :
    (a rule : Rule) (rules : List Rule)
    → same_id rule a ≡ true
    → merge_rule a (rule ∷ rules) ≡ refresh a rule ∷ rules
unfolding merge_rule
hit a rule rules e = rw e

miss :
    (a rule : Rule) (rules : List Rule)
    → same_id rule a ≡ false
    → merge_rule a (rule ∷ rules) ≡ rule ∷ merge_rule a rules
unfolding merge_rule
miss a rule rules e = rw e

-- merging the rule again changes nothing
IsMerged : Rule → List Rule → Type 0
IsMerged override rules = merge_rule override rules ≡ rules

merge_rule-IsMerged :
    (override : Rule) (rules : List Rule)
    → merge_rule override (merge_rule override rules) ≡ merge_rule override rules
unfolding merge_rule
merge_rule-IsMerged override [] = hit override override [] ((same_id_iff override override).1 refl)
merge_rule-IsMerged override (rule ∷ rules) = elim (Bool-cases (same_id rule override)) [
  | inl e ↦ rw (hit override rule rules e) (hit override (refresh override rule) rules e)
  | inr e ↦
      rw (miss override rule rules e)
        (miss override rule _ e ∙ ap (λ rs. rule ∷ rs) (merge_rule-IsMerged override rules))
]

-- the head and the tail of equal lists
heads : (r s : Rule) (rs ss : List Rule) → r ∷ rs ≡ s ∷ ss → r ≡ s
heads r s rs ss e = cc

tails : (r s : Rule) (rs ss : List Rule) → r ∷ rs ≡ s ∷ ss → rs ≡ ss
tails r s rs ss e = cc

not_same : (a b rule : Rule) → same_id a b ≡ false → same_id rule a ≡ true → same_id rule b ≡ false
not_same a b rule d e = elim (Bool-cases (same_id rule b)) [
  | inr f ↦ f
  | inl f ↦
      let same = sym ((same_id_iff rule a).0 e) ∙ (same_id_iff rule b).0 f in
      let same' = (same_id_iff a b).1 same in cc
]

IsMerged-merge_rule :
    (a b : Rule) (rules : List Rule)
    → same_id a b ≡ false
    → merge_rule a rules ≡ rules
    → merge_rule a (merge_rule b rules) ≡ merge_rule b rules
unfolding merge_rule
IsMerged-merge_rule a b [] d m = cc
IsMerged-merge_rule a b (rule ∷ rules) d m = elim (Bool-cases (same_id rule a)) [
  | inl e ↦
      let f = not_same a b rule d e in
      rw (miss b rule rules f) (
        hit a rule _ e
        ∙ ap (λ r. r ∷ merge_rule b rules) (heads _ _ _ _ (sym (hit a rule rules e) ∙ m)))
  | inr e ↦
      let m' = tails _ _ _ _ (sym (miss a rule rules e) ∙ m) in
      elim (Bool-cases (same_id rule b)) [
        | inl f ↦
            rw (hit b rule rules f)
              (miss a (refresh b rule) rules e ∙ ap (λ rs. refresh b rule ∷ rs) m')
        | inr f ↦
            rw (miss b rule rules f)
              (miss a rule _ e ∙ ap (λ rs. rule ∷ rs) (IsMerged-merge_rule a b rules d m'))
      ]
]

-- The rules after a rewrite are those after one rewrite, however often it is done: the merged
-- defaults are found again and are written over with the same values.
pub rewrite_default_rules-rewrite_default_rules :
    (incoming : Option KindSet)
    → rewrite_default_rules (some (rewrite_default_rules incoming)) ≡ rewrite_default_rules incoming
unfolding rewrite_default_rules merge_rules text_eq
rewrite_default_rules-rewrite_default_rules incoming =
    let rules = or_empty (or_no_rules incoming).override_rules in
    let once = merge_rule tombstone_rule rules in
    let first =
      IsMerged-merge_rule tombstone_rule reaction_rule once refl
        (merge_rule-IsMerged tombstone_rule rules) in
    rw (first, merge_rule-IsMerged reaction_rule once)

-- What the user chose: the id, whether the rule is enabled, and the pattern.
abbrev pub choice : Rule → Option Text × (Bool × Option Text)
choice rule = (rule.rule_id, (rule.enabled, rule.pattern))

-- `xs` starts with `ys`
abbrev pub StartsWith {ℓ} : {A : Type ℓ} → List A → List A → Type ℓ
StartsWith {A} xs ys = (more : List A) × (xs ≡ ys ++ more)

choices-merge_rule :
    (a : Rule) (rules : List Rule) → StartsWith (map choice (merge_rule a rules)) (map choice rules)
unfolding merge_rule
choices-merge_rule a [] = (choice a ∷ [], refl)
choices-merge_rule a (rule ∷ rules) = elim (Bool-cases (same_id rule a)) [
  | inl e ↦ rw (hit a rule rules e) ([], sym (append-nil _))
  | inr e ↦
      let (more, p) = choices-merge_rule a rules in
      rw (miss a rule rules e) (more, ap (λ cs. choice rule ∷ cs) p)
]

-- A rewrite keeps every override rule of the user in its place, with its id, whether it is enabled
-- and its pattern; it adds rules at the end only.
pub rewrite_default_rules-choices :
    (global : KindSet)
    → StartsWith
        (map choice (or_empty (rewrite_default_rules (some global)).override_rules))
        (map choice (or_empty global.override_rules))
unfolding rewrite_default_rules merge_rules
rewrite_default_rules-choices global =
    let rules = or_empty global.override_rules in
    let once = merge_rule tombstone_rule rules in
    let (m, p) = choices-merge_rule tombstone_rule rules in
    let (n, q) = choices-merge_rule reaction_rule once in
    (m ++ n, q ∙ (ap (λ l. l ++ n) p ∙ append_assoc (map choice rules) m n))
