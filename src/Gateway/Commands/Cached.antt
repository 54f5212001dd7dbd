-- ===== src/Gateway/Commands/Cached.antt =====
-- When `ReadAttribute` of BLEGatewayApplication/BLE_DRIVER.cpp returns what it has.
use io_tblegateway.Common.{
  ℕ, ◌-◌, ◌%◌, ◌≤◌, ◌<◌, ◌≡◌, sym, ap, ◌∙◌, inl, inr, false, none, some, [], ◌∷◌, arith, ltb,
  if◌then◌else◌, Bool-cases, Bytes,
}
use io_tblegateway.Client.Process.{Env}
use io_tblegateway.Gateway.Map.{Map, Sorted, find, put, ltb-Order, find-Above}
use io_tblegateway.Gateway.Map.All.{All-find}
use io_tblegateway.Gateway.Driver.{
  Driver, AttributeData, ConnectedDeviceInfo, D, ret, then_run, catch_run, ◌>>◌, pure, device_at,
  new_attribute, new_device,
}
use io_tblegateway.Gateway.Events.{or_new, attribute_at, update_attribute}
use io_tblegateway.Gateway.Receive.Devices.{Devices, DeviceIn}
use io_tblegateway.Gateway.Commands.{
  present, no_device, attribute, Result, result, answer, with_handle, handle_of, guarded,
}
use io_tblegateway.Gateway.Commands.Read.{
  is_stale, cached_timestamp, touch_attribute, shown_attribute, read_cached, refresh_attribute,
  read_attribute,
}
use Prim.Native.String.{String}

put-found :
    {V : Type 0} (k : ℕ) (a : V) (m : Map ℕ V)
    → Sorted ltb m
    → find ltb k m ≡ some a
    → put ltb k a m ≡ m
unfolding find put
put-found k a [] sorted e = absurd (ground arith)
put-found k a (x ∷ m) sorted e = elim (Bool-cases (ltb k x.0)) [
  | inl p ↦ absurd (ground (arith, find-Above ltb-Order k x.0 m sorted.0 p))
  | inr p ↦ elim (Bool-cases (ltb x.0 k)) [
    | inl q ↦ rw (p, q) (ap (λ r. x ∷ r) (put-found k a m sorted.1 (ground arith)))
    | inr q ↦ let same : x.1 ≡ a = ground arith in rw (p, q) (ap (λ b. (x.0, b) ∷ m) (sym same))
  ]
]

-- The device with an address and one of its attributes are there.
module _ (handle k : ℕ) (dev : ConnectedDeviceInfo) (a : AttributeData) (d : Driver)
    (ok : Devices d) (e : device_at handle d ≡ some dev)
    (f : find ltb k dev.attribute_map ≡ some a) where
  abbrev with_devices : Map ℕ ConnectedDeviceInfo → Driver
  with_devices m = record d { connected_devices = m }

  abbrev with_attributes : Map ℕ AttributeData → Driver
  with_attributes m =
      with_devices (put ltb handle (record dev { attribute_map = m }) d.connected_devices)

  touch_same : touch_attribute handle k d ≡ ret tt d
  touch_same =
      ap
        (λ o. ret tt (
          with_devices (
            put ltb handle (update_attribute d.now k (λ x. x) (or_new new_device o))
              d.connected_devices)))
        e
      ∙ ap
          (λ o.
            ret tt (with_attributes (put ltb k (or_new (new_attribute d.now) o) dev.attribute_map)))
          f
      ∙ ap (λ m. ret tt (with_attributes m))
          (put-found k a dev.attribute_map
            (All-find ltb-Order DeviceIn handle dev d.connected_devices ok.1 e).1.0 f)
      ∙ ap (λ m. ret tt (with_devices m)) (put-found handle dev d.connected_devices ok.0 e)

  timestamp_same : cached_timestamp handle k d ≡ a.timestamp
  timestamp_same =
      ap (λ o. elim o [ none ↦ d.now | some x ↦ (attribute_at d.now k x).timestamp ]) e
      ∙ ap (λ o. (or_new (new_attribute d.now) o).timestamp) f

  shown_same :
      (message : String)
      → shown_attribute handle k message d
        ≡ ret (result 0 (some handle) message (attribute handle k ∷ [])) d
  shown_same message =
      let shown : Result = result 0 (some handle) message (attribute handle k ∷ []) in
      ap
        (λ o.
          if present o then (touch_attribute handle k >> pure shown) d else ret (answer none 3) d)
        e
      ∙ ap (λ r. then_run r (λ _. pure shown)) touch_same

not_stale :
    (now timestamp last_update : ℕ)
    → timestamp ≤ now
    → (now - timestamp) % 60 < last_update
    → is_stale now timestamp last_update ≡ false
not_stale now timestamp last_update past fresh = ground arith

-- An attribute that is in the cache is returned as it is, and nothing is sent, if the seconds of its
-- age, without the full minutes, are less than the age that is asked for.
pub read_attribute-cached :
    (env : Env) (mac : Bytes) (handle k last_update : ℕ) (dev : ConnectedDeviceInfo)
    (a : AttributeData) (d : Driver)
    → Devices d
    → handle_of mac d ≡ some handle
    → device_at handle d ≡ some dev
    → find ltb k dev.attribute_map ≡ some a
    → a.timestamp ≤ d.now
    → (d.now - a.timestamp) % 60 < last_update
    → read_attribute env mac k last_update d
      ≡ ret (result 0 (some handle) "Returning cached values" (attribute handle k ∷ [])) d
unfolding read_attribute read_cached
read_attribute-cached env mac handle k last_update dev a d ok known e f past fresh =
    let failed : D Result = pure (answer (some handle) 1) in
    ap
      (λ o.
        with_handle o (pure (no_device 0))
          (λ h. guarded (some h) (λ d0.
            then_run (touch_attribute h k d0)
              (λ _. read_cached env h k last_update (cached_timestamp h k d0))))
          d)
      known
    ∙ ap
        (λ r.
          catch_run
            (then_run r (λ _. read_cached env handle k last_update (cached_timestamp handle k d)))
            failed)
        (touch_same handle k dev a d ok e f)
    ∙ ap (λ time. catch_run (read_cached env handle k last_update time d) failed)
        (timestamp_same handle k dev a d ok e f)
    ∙ ap
        (λ b.
          catch_run
            (if b
              then refresh_attribute env handle k d
              else shown_attribute handle k "Returning cached values" d)
            failed)
        (not_stale d.now a.timestamp last_update past fresh)
    ∙ ap (λ r. catch_run r failed) (shown_same handle k dev a d ok e f "Returning cached values")
