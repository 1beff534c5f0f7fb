-- ===== src/Devices/Keys.antt =====
-- `_updateStoredDeviceKeysForUser` and `_storeDeviceKeys` of crypto/DeviceList.js, with the devices of
-- crypto/deviceinfo.js. `verify` stands for `olmlib.verifySignature`, which asks the Olm library:
-- whether the signature on the device's data by the user, the device and the key is good. Whether
-- anything was updated is returned too, but read by nobody, and left out.
use Prim.Native.String.{◌++◌ as joined}
use matrix_js_sdk.Base.{
  String, Bool, false, ◌||◌, not, Option, none, some, List, [], ◌∷◌, str_eq, if◌then◌else◌, is_some,
}
use matrix_js_sdk.Base.Dict.{Dict, get, put}

pub data Verification : Type 0 where
  blocked unverified verified : Verification

-- the device's id is its key in the map of the user's devices
pub record Device : Type 0 where
  pub algorithms : List String
  pub keys : Dict String
  pub verification : Verification
  pub known : Bool
  pub unsigned : Dict String
  pub signatures : Dict (Dict String)

abbrev pub new_device : Device
new_device = record {
  algorithms = [];
  keys = [];
  verification = unverified;
  known = false;
  unsigned = [];
  signatures = [];
}

-- what a server says of a device
pub record DeviceResult : Type 0 where
  pub user_id : String
  pub device_id : String
  pub algorithms : Option (List String)
  pub keys : Option (Dict String)
  pub unsigned : Option (Dict String)
  pub signatures : Option (Dict (Dict String))

unfoldable pub sign_key_id : String → String
sign_key_id device = joined "ed25519:" device

abbrev pub get_fingerprint : String → Device → Option String
get_fingerprint device d = get (sign_key_id device) d.keys

abbrev pub or_empty {ℓ} : {A : Type ℓ} → Option (List A) → List A
or_empty none = []
or_empty (some xs) = xs

-- `deviceStore`, once it is written
abbrev pub with_result : DeviceResult → Device → Device
with_result r d = record d {
  keys = or_empty r.keys;
  algorithms = or_empty r.algorithms;
  unsigned = or_empty r.unsigned;
  signatures = or_empty r.signatures;
}

abbrev pub is_key : String → Option String → Bool
is_key sign_key none = false
is_key sign_key (some k) = str_eq k sign_key

unfoldable pub has_removed : Dict DeviceResult → String → Bool
has_removed results device = not (is_some (get device results))

-- the first loop: the devices that the result does not have are dropped
unfoldable pub remove_missing : Dict DeviceResult → Dict Device → Dict Device
unfolding has_removed
remove_missing results [] = []
remove_missing results ((device, d) ∷ store) =
    let rest = remove_missing results store in
    if has_removed results device then rest else (device, d) ∷ rest

module _ (verify : DeviceResult → (user device key : String) → Bool) where
  -- the device's entry, if the key is the one it has
  abbrev pub store_with_key : String → DeviceResult → Option Device → Dict Device → Dict Device
  store_with_key sign_key r none store = put r.device_id (with_result r new_device) store
  store_with_key sign_key r (some d) store =
      if is_key sign_key (get_fingerprint r.device_id d)
      then put r.device_id (with_result r d) store
      else store

  unfoldable pub store_device_keys : DeviceResult → Dict Device → Dict Device
  store_device_keys r store = elim r.keys [
    | none ↦ store
    | some keys ↦ elim (get (sign_key_id r.device_id) keys) [
      | none ↦ store
      | some sign_key ↦
          if str_eq sign_key "" || not (verify r r.user_id r.device_id sign_key)
          then store
          else store_with_key sign_key r (get r.device_id store) store
    ]
  ]

  -- one device of the second loop
  unfoldable pub update_device : String → String → DeviceResult → Dict Device → Dict Device
  unfolding store_device_keys
  update_device user device r store =
      if not (str_eq r.user_id user) || not (str_eq r.device_id device)
      then store
      else store_device_keys r store

  unfoldable pub update_devices : String → Dict DeviceResult → Dict Device → Dict Device
  unfolding update_device
  update_devices user [] store = store
  update_devices user ((device, r) ∷ results) store =
      update_devices user results (update_device user device r store)

  unfoldable pub update_stored_device_keys_for_user :
      String → Dict DeviceResult → Dict Device → Dict Device
  unfolding remove_missing update_devices
  update_stored_device_keys_for_user user results store =
      update_devices user results (remove_missing results store)
