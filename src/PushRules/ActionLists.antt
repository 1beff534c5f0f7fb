-- ===== src/PushRules/ActionLists.antt =====
-- What `actionListToActionsObject` of pushprocessor.js makes of a list of actions.
use matrix_js_sdk.Base.{
  String, ◌≡◌, refl, Bool, true, false, ◌||◌, Option, none, some, List, [], ◌∷◌, arith, str_eq,
  if◌then◌else◌, any,
}
use matrix_js_sdk.Base.Dict.{get, get-nil, get-put}
use matrix_js_sdk.PushRules.Conditions.{Json, bool}
use matrix_js_sdk.PushRules.Rules.{
  Action, word, tweak, Actions, act, act_all, action_list_to_actions_object,
}

abbrev pub is_notify : Action → Bool
is_notify (word w) = str_eq w "notify"
is_notify (tweak name value) = false

-- the value that an action sets a tweak to; one without a value sets it to true
abbrev pub value_or_true : Option Json → Json
value_or_true none = bool true
value_or_true (some v) = v

abbrev pub value_set : String → Action → Option Json
value_set k (word w) = none
value_set k (tweak name value) = if str_eq name k then some (value_or_true value) else none

abbrev pub or_value : Option Json → Option Json → Option Json
or_value none o = o
or_value (some v) o = some v

-- the value that the last action about a tweak sets it to
unfoldable pub last_value : String → List Action → Option Json
last_value k [] = none
last_value k (a ∷ rest) = or_value (last_value k rest) (value_set k a)

act_all-notify :
    (actions : List Action) (o : Actions)
    → (act_all actions o).notify ≡ (any is_notify actions || o.notify)
unfolding act_all
act_all-notify [] o = refl
act_all-notify (word w ∷ rest) o = ground (arith, act_all-notify rest (act (word w) o))
act_all-notify (tweak k none ∷ rest) o = ground (arith, act_all-notify rest (act (tweak k none) o))
act_all-notify (tweak k (some v) ∷ rest) o =
    ground (arith, act_all-notify rest (act (tweak k (some v)) o))

act_all-tweaks :
    (k : String) (actions : List Action) (o : Actions)
    → get k (act_all actions o).tweaks ≡ or_value (last_value k actions) (get k o.tweaks)
unfolding act_all last_value
act_all-tweaks k [] o = refl
act_all-tweaks k (word w ∷ rest) o = ground (arith, act_all-tweaks k rest (act (word w) o))
act_all-tweaks k (tweak j none ∷ rest) o =
    ground (arith, act_all-tweaks k rest (act (tweak j none) o), get-put j k (bool true) o.tweaks)
act_all-tweaks k (tweak j (some v) ∷ rest) o =
    ground (arith, act_all-tweaks k rest (act (tweak j (some v)) o), get-put j k v o.tweaks)

-- The actions object notifies exactly if one of the actions is "notify", and every tweak has the
-- value that the last action about it sets, which is true for an action without a value.
pub action_list_to_actions_object-last_value :
    (actions : List Action) (k : String)
    → ((action_list_to_actions_object actions).notify ≡ any is_notify actions)
      × (get k (action_list_to_actions_object actions).tweaks ≡ last_value k actions)
unfolding action_list_to_actions_object
action_list_to_actions_object-last_value actions k =
    let o : Actions = record { notify = false; tweaks = [] } in
    (
      ground (arith, act_all-notify actions o),
      ground (arith, act_all-tweaks k actions o, get-nil {V = Json} k),
    )
