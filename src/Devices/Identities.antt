-- ===== src/Devices/Identities.antt =====
-- The devices that the `DeviceList` of crypto/DeviceList.js stores, and the index of their identity keys.
use Prim.Native.String.{◌++◌ as joined}
use matrix_js_sdk.Base.{
  ◌≡◌, String, Bool, true, false, ◌&&◌, ◌||◌, not, Option, none, some, [], ◌∷◌, str_eq,
  if◌then◌else◌, arith, Option-cases, inl, inr,
}
use matrix_js_sdk.Base.Dict.{Dict, get, put, remove, get-put, get-remove}
use matrix_js_sdk.Devices.Keys.{Device, DeviceResult, or_empty, update_stored_device_keys_for_user}

pub record DeviceList : Type 0 where
  pub devices : Dict (Dict Device)
  pub user_by_identity_key : Dict String

-- the property that an identity key names; a device without one has that of `undefined`
unfoldable pub identity_key : String → Device → String
identity_key device d = elim (get (joined "curve25519:" device) d.keys) [
  | none ↦ "undefined"
  | some k ↦ k
]

unfoldable pub forget_keys : Dict Device → Dict String → Dict String
unfolding identity_key
forget_keys [] index = index
forget_keys ((device, d) ∷ devices) index =
    forget_keys devices (remove (identity_key device d) index)

unfoldable pub learn_keys : String → Dict Device → Dict String → Dict String
unfolding identity_key
learn_keys user [] index = index
learn_keys user ((device, d) ∷ devices) index =
    learn_keys user devices (put (identity_key device d) user index)

-- `_setRawStoredDevicesForUser`
unfoldable pub set_raw_stored_devices_for_user : String → Dict Device → DeviceList → DeviceList
unfolding forget_keys learn_keys
set_raw_stored_devices_for_user user devices l =
    let forgotten : Dict String = elim (get user l.devices) [
      | none ↦ l.user_by_identity_key
      | some old ↦ forget_keys old l.user_by_identity_key
    ] in
    record l {
      devices = put user devices l.devices;
      user_by_identity_key = learn_keys user devices forgotten;
    }

abbrev pub olm_algorithm : String
olm_algorithm = "m.olm.v1.curve25519-aes-sha2"

abbrev pub megolm_algorithm : String
megolm_algorithm = "m.megolm.v1.aes-sha2"

unfoldable pub get_user_by_identity_key : String → String → DeviceList → Option String
get_user_by_identity_key algorithm sender_key l =
    if not (str_eq algorithm olm_algorithm) && not (str_eq algorithm megolm_algorithm)
    then none
    else get sender_key l.user_by_identity_key

module _ (verify : DeviceResult → (user device key : String) → Bool) where
  -- the part of `_processQueryResponseForUser` that is about devices
  unfoldable pub process_query_response_for_user :
      String → Option (Dict DeviceResult) → DeviceList → DeviceList
  unfolding set_raw_stored_devices_for_user
  process_query_response_for_user user response l =
      set_raw_stored_devices_for_user user
        (update_stored_device_keys_for_user verify user (or_empty response)
          (or_empty (get user l.devices)))
        l

-- whether some device has the identity key
abbrev pub has_identity : String → Dict Device → Bool
has_identity k [] = false
has_identity k ((device, d) ∷ devices) = str_eq (identity_key device d) k || has_identity k devices

get-forget_keys :
    (k : String) (devices : Dict Device) (index : Dict String)
    → get k (forget_keys devices index) ≡ (if has_identity k devices then none else get k index)
unfolding forget_keys
get-forget_keys k [] index = ground arith
get-forget_keys k ((device, d) ∷ devices) index = ground (
  arith,
  get-forget_keys k devices (remove (identity_key device d) index),
  get-remove (identity_key device d) k index,
)

get-learn_keys :
    (k user : String) (devices : Dict Device) (index : Dict String)
    → get k (learn_keys user devices index)
      ≡ (if has_identity k devices then some user else get k index)
unfolding learn_keys
get-learn_keys k user [] index = ground arith
get-learn_keys k user ((device, d) ∷ devices) index = ground (
  arith,
  get-learn_keys k user devices (put (identity_key device d) user index),
  get-put (identity_key device d) k user index,
)

-- For an Olm or Megolm algorithm, once the devices of a user are set, the user is the one found by the identity
-- key of each of those devices; an identity key that the user's devices had before, and that none
-- of them has now, finds nobody, whoever else has it; all other keys find whom they found.
pub get_user_by_identity_key-set_raw_stored_devices_for_user :
    (algorithm user k : String) (devices : Dict Device) (l : DeviceList)
    → (str_eq algorithm olm_algorithm || str_eq algorithm megolm_algorithm) ≡ true
    → get_user_by_identity_key algorithm k (set_raw_stored_devices_for_user user devices l) ≡ (
        if has_identity k devices
        then some user
        else (if has_identity k (or_empty (get user l.devices))
            then none
            else get_user_by_identity_key algorithm k l))
unfolding get_user_by_identity_key set_raw_stored_devices_for_user
get_user_by_identity_key-set_raw_stored_devices_for_user algorithm user k devices l known =
    elim (Option-cases (get user l.devices)) [
      | inl nothing ↦
          rw (nothing, set_raw_stored_devices_for_user)
            (ground (arith, known, get-learn_keys k user devices l.user_by_identity_key))
      | inr (old, there) ↦
          rw (there, set_raw_stored_devices_for_user)
            (ground (
              arith,
              known,
              get-learn_keys k user devices (forget_keys old l.user_by_identity_key),
              get-forget_keys k old l.user_by_identity_key,
            ))
    ]
