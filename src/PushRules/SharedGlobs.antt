-- ===== src/PushRules/SharedGlobs.antt =====
-- What becomes of two conditions of one glob, since `cachedGlobToRegex` is keyed by the glob alone.
use matrix_js_sdk.Base.{ℕ, ◌≡◌, refl, ap, ◌∙◌, Bool, true, ◌&&◌, Option, none, some, [], ◌∷◌}
use matrix_js_sdk.PushRules.Texts.{Text, text_eq_iff}
use matrix_js_sdk.PushRules.Conditions.{
  str, Event, Room, Condition, event_match, value_for_dotted_key, Cache, prefix_of, suffix_of,
  cached, fulfills_event_match, fulfills, condition_function, fulfills_all, match_value, match_key,
}
use matrix_js_sdk.PushRules.Matching.{create-hit, create-miss}
use matrix_js_sdk.PushRules.Meaning.{source_of}

abbrev pub glob_condition : Text → Text → Condition
glob_condition key glob = record {
  kind = event_match;
  key = some key;
  value = none;
  pattern = glob;
  is = none;
}

cached_self :
    (glob source : Text) (cache : Cache) → cached glob ((glob, source) ∷ cache) ≡ some source
unfolding cached
cached_self glob source cache = rw ((text_eq_iff glob glob).1 refl) refl

first_use :
    (matches : Text → Text → Bool) (key glob val : Text) (cache : Cache)
    → cached glob cache ≡ none
    → match_value matches key (glob_condition key glob) (some (str val)) cache
      ≡ (matches (source_of key glob) val, (glob, source_of key glob) ∷ cache)
unfolding match_value
first_use matches key glob val cache e =
    rw (create-miss (prefix_of key) glob (suffix_of key) cache e) refl

next_use :
    (matches : Text → Text → Bool) (key glob val source : Text) (cache : Cache)
    → cached glob cache ≡ some source
    → match_value matches key (glob_condition key glob) (some (str val)) cache
      ≡ (matches source val, cache)
unfolding match_value
next_use matches key glob val source cache e =
    rw (create-hit (prefix_of key) glob (suffix_of key) source cache e) refl

-- When a rule has two conditions of the same glob, which is not cached yet, on the keys of two
-- texts of the event, both texts are tested with the expression made for the first key, whatever
-- the second key is.
pub fulfills_all-shared_glob :
    (matches : Text → Text → Bool) (in_room : Option Room) (ev : Event) (cache : Cache)
    (glob first second val other : Text) (c d : ℕ)
    → cached glob cache ≡ none
    → value_for_dotted_key (c ∷ first) ev ≡ some (str val)
    → value_for_dotted_key (d ∷ second) ev ≡ some (str other)
    → (fulfills_all matches in_room
        (glob_condition (c ∷ first) glob ∷ glob_condition (d ∷ second) glob ∷ [])
        ev
        cache).0
      ≡ (matches (source_of (c ∷ first) glob) val
          && (matches (source_of (c ∷ first) glob) other && true))
unfolding fulfills_all fulfills condition_function fulfills_event_match match_key
fulfills_all-shared_glob matches in_room ev cache glob first second val other c d e ev1 ev2 =
    let source = source_of (c ∷ first) glob in
    let other_cond = glob_condition (d ∷ second) glob in
    rw (ev1, ev2)
      (ap
          (λ r.
            r.0 && ((match_value matches (d ∷ second) other_cond (some (str other)) r.1).0 && true))
          (first_use matches (c ∷ first) glob val cache e)
        ∙ ap (λ r. matches source val && (r.0 && true))
            (next_use matches (d ∷ second) glob other source ((glob, source) ∷ cache)
              (cached_self glob source cache)))
