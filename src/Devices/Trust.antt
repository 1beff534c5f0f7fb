-- ===== src/Devices/Trust.antt =====
-- What an update of the device keys of crypto/DeviceList.js keeps of what is known.
use mathlib.Core.Path.{subst}
use matrix_js_sdk.Base.{
  ◌≡◌, refl, ap, sym, ◌∙◌, ◌⊎◌, inl, inr, String, Bool, true, false, ◌||◌, not, Option, none, some,
  [], ◌∷◌, str_eq, arith, if◌then◌else◌, Option-cases, Bool-cases, eq_iff,
}
use matrix_js_sdk.Base.Dict.{Dict, get, put, get-put}
use matrix_js_sdk.Devices.Keys.{
  Device, DeviceResult, new_device, sign_key_id, get_fingerprint, or_empty, with_result, is_key,
  has_removed, remove_missing, store_with_key, store_device_keys, update_device, update_devices,
  update_stored_device_keys_for_user,
}

-- the devices that are left are those the result has, as they were
get-remove_missing :
    (results : Dict DeviceResult) (id : String) (store : Dict Device)
    → get id (remove_missing results store)
      ≡ (if has_removed results id then none else get id store)
unfolding get remove_missing
get-remove_missing results id [] = ground arith
get-remove_missing results id ((j, d) ∷ store) =
    ground (arith, eq_iff j id, get-remove_missing results id store)

is_key-some : (key : String) (o : Option String) → is_key key o ≡ true → o ≡ some key
is_key-some key none h = cc
is_key-some key (some k) h = ap some ((eq_iff k key).0 h)

-- the response has the result for the device
abbrev pub Listed : String → DeviceResult → Dict DeviceResult → Type 0
Listed id r [] = ⊥
Listed id r ((j, s) ∷ rest) = ((j ≡ id) × (s ≡ r)) ⊎ Listed id r rest

module _ (verify : DeviceResult → (user device key : String) → Bool) (user : String)
    (results : Dict DeviceResult) (id : String) where
  -- The response has a result for the device, with the user's and the device's ids and the key, and the
  -- signature by the key is good.
  pub record IsSigned (r : DeviceResult) (key : String) : Type 0 where
    pub listed : Listed id r results
    pub for_user : r.user_id ≡ user
    pub for_device : r.device_id ≡ id
    pub has_key : get (sign_key_id id) (or_empty r.keys) ≡ some key
    pub good : verify r user id key ≡ true

  -- What the store may come to have of a device: a device that it had keeps the key it is known by, and
  -- whether it is verified or known; one that it did not have is signed by its key.
  abbrev pub Trusted : Option Device → Option Device → Type 0
  Trusted none none = Unit
  Trusted none (some d) =
      (r : DeviceResult) × (key : String) × IsSigned r key × (get_fingerprint id d ≡ some key)
  Trusted (some d) none = ⊥
  Trusted (some d) (some d') =
      (get_fingerprint id d' ≡ get_fingerprint id d)
      × (d'.verification ≡ d.verification)
      × (d'.known ≡ d.known)

  Trusted-refl : (a : Option Device) → Trusted a a
  Trusted-refl none = tt
  Trusted-refl (some d) = (refl, refl, refl)

  Trusted-trans : (a b c : Option Device) → Trusted a b → Trusted b c → Trusted a c
  Trusted-trans none none c s t = t
  Trusted-trans none (some d) none s t = absurd t
  Trusted-trans none (some d) (some e) (r, key, signed, f) (g, _, _) = (r, key, signed, g ∙ f)
  Trusted-trans (some d) none c s t = absurd s
  Trusted-trans (some d) (some e) none s t = absurd t
  Trusted-trans (some d) (some e) (some f) (a, b, c) (a', b', c') = (a' ∙ a, b' ∙ b, c' ∙ c)

  put-Trusted :
      (device : String) (d : Device) (store : Dict Device)
      → (device ≡ id → Trusted (get id store) (some d))
      → Trusted (get id store) (get id (put device d store))
  put-Trusted device d store h = elim (Bool-cases (str_eq device id)) [
    | inl here ↦ rw (get-put device id d store, here) (h ((eq_iff device id).0 here))
    | inr elsewhere ↦ rw (get-put device id d store, elsewhere) (Trusted-refl (get id store))
  ]

  -- an entry is written only with the key it has
  store_with_key-Trusted :
      (key : String) (r : DeviceResult) (store : Dict Device) (o : Option Device)
      → get r.device_id store ≡ o
      → (r.device_id ≡ id → IsSigned r key)
      → Trusted (get id store) (get id (store_with_key verify key r o store))
  store_with_key-Trusted key r store none e signed =
      put-Trusted r.device_id (with_result r new_device) store (λ here.
        let s = signed here in
        let missing : get id store ≡ none = rw (← here) e in rw missing (r, key, s, s.has_key))
  store_with_key-Trusted key r store (some d) e signed =
      elim (Bool-cases (is_key key (get_fingerprint r.device_id d))) [
        | inr other ↦ rw other (Trusted-refl (get id store))
        | inl match ↦ rw match (
            put-Trusted r.device_id (with_result r d) store (λ here.
              let s = signed here in
              let there : get id store ≡ some d = rw (← here) e in
              let f : get_fingerprint id d ≡ some key = rw (← here) (is_key-some key _ match) in
              rw there (s.has_key ∙ sym f, refl, refl)))
      ]

  store_device_keys-Trusted :
      (r : DeviceResult) (store : Dict Device)
      → Listed r.device_id r results
      → r.user_id ≡ user
      → Trusted (get id store) (get id (store_device_keys verify r store))
  unfolding store_device_keys
  store_device_keys-Trusted r store listed mine = elim (Option-cases r.keys) [
    | inl no_keys ↦ rw (no_keys, store_device_keys) (Trusted-refl (get id store))
    | inr (keys, has_keys) ↦ elim (Option-cases (get (sign_key_id r.device_id) keys)) [
      | inl unsigned ↦ rw (has_keys, unsigned, store_device_keys) (Trusted-refl (get id store))
      | inr (key, has) ↦
          elim (Bool-cases (str_eq key "" || not (verify r r.user_id r.device_id key))) [
            | inl bad ↦ rw (has_keys, has, bad, store_device_keys) (Trusted-refl (get id store))
            | inr fine ↦
                rw (has_keys, has, fine, store_device_keys)
                  (store_with_key-Trusted key r store (get r.device_id store) refl (λ here. record {
                    listed = rw (← here) listed;
                    for_user = mine;
                    for_device = here;
                    has_key =
                        rw (← here)
                          (ap (λ o. get (sign_key_id r.device_id) (or_empty o)) has_keys ∙ has);
                    good = rw (← mine, ← here) (ground arith);
                  }))
          ]
    ]
  ]

  update_device-Trusted :
      (device : String) (r : DeviceResult) (store : Dict Device)
      → Listed device r results
      → Trusted (get id store) (get id (update_device verify user device r store))
  unfolding update_device
  update_device-Trusted device r store listed =
      elim (Bool-cases (not (str_eq r.user_id user) || not (str_eq r.device_id device))) [
        | inl bad ↦ rw (bad, update_device) (Trusted-refl (get id store))
        | inr fine ↦
            let mine : r.user_id ≡ user = (eq_iff r.user_id user).0 (ground arith) in
            let own : r.device_id ≡ device = (eq_iff r.device_id device).0 (ground arith) in
            rw (fine, update_device)
              (store_device_keys-Trusted r store (subst (λ j. Listed j r results) (sym own) listed)
                mine)
      ]

  update_devices-Trusted :
      (rest : Dict DeviceResult) (store : Dict Device)
      → ((device : String) (r : DeviceResult) → Listed device r rest → Listed device r results)
      → Trusted (get id store) (get id (update_devices verify user rest store))
  unfolding update_devices
  update_devices-Trusted [] store sub = Trusted-refl (get id store)
  update_devices-Trusted ((device, r) ∷ rest) store sub =
      Trusted-trans (get id store) (get id (update_device verify user device r store))
        (get id (update_devices verify user rest (update_device verify user device r store)))
        (update_device-Trusted device r store (sub device r (inl (refl, refl))))
        (update_devices-Trusted rest (update_device verify user device r store)
          (λ j s l. sub j s (inr l)))

  update-Trusted_left :
      (store : Dict Device)
      → Trusted
          (if has_removed results id then none else get id store)
          (get id (update_stored_device_keys_for_user verify user results store))
  unfolding update_stored_device_keys_for_user
  update-Trusted_left store =
      rw (← get-remove_missing results id store)
        (update_devices-Trusted results (remove_missing results store) (λ j s l. l))

  -- If the response has the device: a device that the store had is kept with the key it is known by and
  -- with its verification, whatever the response says, and a device that it did not have comes in
  -- only with a key whose signature on the response's data for this user and device is good.
  pub update_stored_device_keys_for_user-Trusted :
      (store : Dict Device)
      → has_removed results id ≡ false
      → Trusted
          (get id store)
          (get id (update_stored_device_keys_for_user verify user results store))
  update_stored_device_keys_for_user-Trusted store there =
      subst
        (λ b.
          Trusted (if b then none else get id store)
            (get id (update_stored_device_keys_for_user verify user results store)))
        there (update-Trusted_left store)

  Listed-known :
      (r : DeviceResult) (rest : Dict DeviceResult) → Listed id r rest → has_removed rest id ≡ false
  unfolding has_removed get
  Listed-known r [] l = elim l [ ]
  Listed-known r ((j, s) ∷ rest) (inl (here, same)) = ground (arith, eq_iff j id)
  Listed-known r ((j, s) ∷ rest) (inr l) = ground (arith, Listed-known r rest l)

  none_of_none : (o : Option Device) → has_removed results id ≡ true → Trusted none o → o ≡ none
  none_of_none none gone t = refl
  none_of_none (some d) gone (r, key, s, _) = absurd (cc (gone, Listed-known r results s.listed))

  -- A device that the response does not have is not in the store after the update.
  pub get-update_stored_device_keys_for_user_removed :
      (store : Dict Device)
      → has_removed results id ≡ true
      → get id (update_stored_device_keys_for_user verify user results store) ≡ none
  get-update_stored_device_keys_for_user_removed store gone =
      none_of_none (get id (update_stored_device_keys_for_user verify user results store)) gone (
        subst
          (λ b.
            Trusted (if b then none else get id store)
              (get id (update_stored_device_keys_for_user verify user results store)))
          gone (update-Trusted_left store))
