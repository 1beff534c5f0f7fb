-- ===== src/CryptoStore/Notified.antt =====
-- Which devices `filterOutNotifiedErrorDevices` of memory-crypto-store.js returns.
use Prim.Native.Nat.{min}
use matrix_js_sdk.Base.{
  ℕ, suc, ◌≡◌, refl, Bool, true, false, ◌&&◌, ◌||◌, List, [], ◌∷◌, arith, eq_iff, str_eq,
  if◌then◌else◌, any, Bool-cases, Option-cases, inl, inr,
}
use matrix_js_sdk.Base.Dict.{Dict, get, put, get-put}
use matrix_js_sdk.CryptoStore.Sessions.{
  Device, Store, is_notified, notify, filter_out, filter_out_notified_error_devices,
}

abbrev pub same_device : Device → Device → Bool
same_device x y = str_eq x.user_id y.user_id && str_eq x.device_id y.device_id

is_notified-notify :
    (x y : Device) (n : Dict (Dict Bool))
    → is_notified y (notify x n) ≡ (same_device x y || is_notified y n)
unfolding is_notified notify get
is_notified-notify x y n = elim (Option-cases (get x.user_id n)) [
  | inl e ↦ ground (
    arith,
    get-put x.user_id y.user_id ((x.device_id, true) ∷ []) n,
    eq_iff x.user_id y.user_id,
    eq_iff x.device_id y.device_id,
  )
  | inr (ds, e) ↦ ground (
    arith,
    get-put x.user_id y.user_id (put x.device_id true ds) n,
    get-put x.device_id y.device_id true ds,
    eq_iff x.user_id y.user_id,
    eq_iff x.device_id y.device_id,
  )
]

-- how often the device is in the list
abbrev pub times : Device → List Device → ℕ
times y [] = 0
times y (x ∷ xs) = if same_device x y then suc (times y xs) else times y xs

is_notified-same :
    (x y : Device) (n : Dict (Dict Bool))
    → same_device x y ≡ true
    → is_notified y n ≡ is_notified x n
unfolding is_notified
is_notified-same x y n e =
    ground (arith, eq_iff x.user_id y.user_id, eq_iff x.device_id y.device_id)

filter_out-old :
    (x : Device) (xs : List Device) (n : Dict (Dict Bool))
    → is_notified x n ≡ true
    → filter_out (x ∷ xs) n ≡ filter_out xs n
unfolding filter_out
filter_out-old x xs n e = rw (e, filter_out) refl

filter_out-new :
    (x : Device) (xs : List Device) (n : Dict (Dict Bool))
    → is_notified x n ≡ false
    → filter_out (x ∷ xs) n ≡ (x ∷ (filter_out xs (notify x n)).0, (filter_out xs (notify x n)).1)
unfolding filter_out
filter_out-new x xs n e = rw (e, filter_out) refl

filter_out-times :
    (y : Device) (xs : List Device) (n : Dict (Dict Bool))
    → (times y (filter_out xs n).0 ≡ (if is_notified y n then 0 else min 1 (times y xs)))
      × (is_notified y (filter_out xs n).1 ≡ (is_notified y n || any (λ x. same_device x y) xs))
unfolding filter_out
filter_out-times y [] n = (ground arith, ground arith)
filter_out-times y (x ∷ xs) n = elim (Bool-cases (is_notified x n)) [
  | inl e ↦
      let (p, q) = filter_out-times y xs n in
      rw (filter_out-old x xs n e)
        (ground (arith, p, e, is_notified-same x y n), ground (arith, q, e, is_notified-same x y n))
  | inr e ↦
      let (p, q) = filter_out-times y xs (notify x n) in
      rw (filter_out-new x xs n e) (
        ground (arith, p, e, is_notified-same x y n, is_notified-notify x y n),
        ground (arith, q, e, is_notified-same x y n, is_notified-notify x y n),
      )
]

-- A device is returned once if it is among those given and was not notified before, and is not
-- returned otherwise; afterwards the notified devices are those of before and those given.
pub filter_out_notified_error_devices-times :
    (y : Device) (devices : List Device) (s : Store)
    → (times y (filter_out_notified_error_devices devices s).0
        ≡ (if is_notified y s.notified_error_devices then 0 else min 1 (times y devices)))
      × (is_notified y (filter_out_notified_error_devices devices s).1.notified_error_devices
          ≡ (is_notified y s.notified_error_devices || any (λ x. same_device x y) devices))
unfolding filter_out_notified_error_devices
filter_out_notified_error_devices-times y devices s =
    filter_out-times y devices s.notified_error_devices
