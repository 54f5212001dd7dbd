-- ===== src/Gateway/Commands/Calm/Reading.antt =====
-- `ReadAttribute` of BLEGatewayApplication/BLE_DRIVER.cpp neither throws nor leaves a wait
-- registered, and keeps the maps in order.
use io_tblegateway.Common.{
  subst, ℕ, ◌≡◌, refl, sym, inl, inr, Bool, none, some, [], ◌∷◌, arith, ltb, if◌then◌else◌,
  Bool-cases, Option-cases, Bytes,
}
use Prim.Native.String.{String}
use mathlib.Core.List.{reverse}
use io_tblegateway.Client.Process.{Env}
use io_tblegateway.Client.Commands.Requests.{find_information, read_by_handle}
use io_tblegateway.Gateway.Map.{Map, find, Sorted, ltb-Order, find_at_Above}
use io_tblegateway.Gateway.Driver.{Driver, ConnectedDeviceInfo, D, ret, then_run, pure, device_at}
use io_tblegateway.Gateway.Receive.Devices.{touch-Devices}
use io_tblegateway.Gateway.Events.{update_device, update_attribute}
use io_tblegateway.Gateway.Errors.{create_error_message}
use io_tblegateway.Gateway.Wait.Ends.{Calm}
use io_tblegateway.Gateway.Commands.{
  present, is_present, ble_cmd_gatt_read_attribute_by_handle, Result, answer, no_device, guarded,
  mac_to_connection_handle, same_mac, handle_of, with_handle, if_present,
}
use io_tblegateway.Gateway.Commands.Read.{
  is_stale, cached_timestamp, touch_attribute, shown_attribute, refresh_attribute, read_cached,
  read_attribute,
}
use io_tblegateway.Gateway.Commands.Calm.{
  AtRest, Held, Holds, Calm-caught, Holds-answered, Holds-send_request, Holds-step, Holds-request,
}

handle-Found :
    (same : Bytes → Bytes → Bool) (mac : Bytes) (m : Map ℕ ConnectedDeviceInfo) (handle : ℕ)
    → Sorted ltb m
    → mac_to_connection_handle same mac m ≡ some handle
    → (dev : ConnectedDeviceInfo) × (find ltb handle m ≡ some dev)
unfolding mac_to_connection_handle find
handle-Found same mac [] handle sorted e = absurd (ground arith)
handle-Found same mac (x ∷ m) handle sorted e = elim (Bool-cases (same x.1.mac_address mac)) [
  | inl p ↦ (x.1, ground arith)
  | inr p ↦
      let r = handle-Found same mac m handle sorted.1 (ground arith) in
      (r.0, ground (arith, r.1, find_at_Above ltb-Order x.0 m sorted.0))
]

Holds-present :
    (handle : ℕ) (shown : D Result)
    → ((dev : ConnectedDeviceInfo) (d : Driver)
        → device_at handle d ≡ some dev
        → AtRest d
        → Held (shown d))
    → Holds (if_present handle shown)
Holds-present handle shown k d h = elim (Option-cases (device_at handle d)) [
  | inl e ↦ subst (λ o. Held (if present o then shown d else ret (answer none 3) d)) (sym e) h
  | inr (dev, e) ↦
      subst (λ o. Held (if present o then shown d else ret (answer none 3) d)) (sym e) (k dev d e h)
]

Holds-shown : (handle k : ℕ) (message : String) → Holds (shown_attribute handle k message)
Holds-shown handle k message =
    Holds-present handle _ (λ dev d e h. (h.0, touch-Devices handle k dev d e h.1))

Holds-read_by_handle :
    (env : Env) (handle k : ℕ) → Holds (ble_cmd_gatt_read_attribute_by_handle env handle k)
unfolding ble_cmd_gatt_read_attribute_by_handle
Holds-read_by_handle env handle k d h = elim (Bool-cases (is_present handle d)) [
  | inl e ↦ rw e (Holds-send_request env (read_by_handle handle k) d h)
  | inr e ↦ rw e h
]

Holds-refresh : (env : Env) (handle k : ℕ) → Holds (refresh_attribute env handle k)
unfolding refresh_attribute
Holds-refresh env handle k =
    Holds-request env (find_information handle k k) 0x800 handle 200 (some handle) _ refl (
      Holds-step env 0x81 handle 200 (some handle) _ refl (
        Holds-answered env (ble_cmd_gatt_read_attribute_by_handle env handle k) 0x100 handle 200
          (some handle) _ (Holds-read_by_handle env handle k) refl
          (Holds-step env 0x40081 handle 200 (some handle) _ refl
            (Holds-shown handle k (create_error_message 0)))))

Holds-cached :
    (env : Env) (handle k last_update timestamp : ℕ)
    → Holds (read_cached env handle k last_update timestamp)
unfolding read_cached
Holds-cached env handle k last_update timestamp d h =
    elim (Bool-cases (is_stale d.now timestamp last_update)) [
      | inl e ↦ rw e (Holds-refresh env handle k d h)
      | inr e ↦ rw e (Holds-shown handle k "Returning cached values" d h)
    ]

pub read-Calm :
    (env : Env) (mac : Bytes) (k last_update : ℕ) (d : Driver)
    → AtRest d
    → Calm AtRest (read_attribute env mac k last_update d)
unfolding read_attribute
read-Calm env mac k last_update d h = elim (Option-cases (handle_of mac d)) [
  | inl e ↦ subst (λ o. Calm AtRest (with_handle o (pure (no_device 0)) found d)) (sym e) h
  | inr (handle, e) ↦
      let (dev, there) = handle-Found same_mac (reverse mac) d.connected_devices handle h.1.0 e in
      subst (λ o. Calm AtRest (with_handle o (pure (no_device 0)) found d)) (sym e)
        (Calm-caught (some handle)
          (then_run (touch_attribute handle k d)
            (λ _. read_cached env handle k last_update (cached_timestamp handle k d)))
          (Holds-cached env handle k last_update (cached_timestamp handle k d)
            (update_device handle (update_attribute d.now k (λ a. a)) d)
            (h.0, touch-Devices handle k dev d there h.1)))
]
  where
    found : ℕ → D Result
    found handle = guarded (some handle) (λ d0.
        then_run (touch_attribute handle k d0)
          (λ _. read_cached env handle k last_update (cached_timestamp handle k d0)))
