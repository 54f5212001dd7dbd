-- ===== src/Gateway/Commands/Read.antt =====
-- `ReadAttribute` of BLEGatewayApplication/BLE_DRIVER.cpp.
use io_tblegateway.Common.{
  ℕ, ◌-◌, ◌%◌, Bool, ◌&&◌, none, some, [], ◌∷◌, ltb, leb, ◌==◌, if◌then◌else◌, Bytes,
}
use Prim.Native.String.{String}
use io_tblegateway.Client.Process.{Env}
use io_tblegateway.Client.Commands.Requests.{find_information}
use io_tblegateway.Gateway.Driver.{Driver, D, ret, then_run, ◌>>=◌, ◌>>◌, pure, device_at}
use io_tblegateway.Gateway.CompletionEvents.{attclient_read_rsp_evt, attclient_findinfo_rsp_evt}
use io_tblegateway.Gateway.Errors.{create_error_message}
use io_tblegateway.Gateway.Events.{attribute_at, update_device, update_attribute}
use io_tblegateway.Gateway.Wait.{wait_for_completion_event}
use io_tblegateway.Gateway.Commands.{
  send_request, ble_cmd_gatt_read_attribute_by_handle, attribute, Result, result, no_device,
  checked, guarded, on_device, if_present, disconnected_or_complete,
}

-- `diff.seconds() >= lastUpdate`: the seconds of a duration are what its full minutes leave.
abbrev pub is_stale : (now timestamp last_update : ℕ) → Bool
is_stale now timestamp last_update =
    if ltb now timestamp
    then (timestamp - now) % 60 == 0 && last_update == 0
    else leb last_update ((now - timestamp) % 60)

abbrev pub cached_timestamp : ℕ → ℕ → Driver → ℕ
cached_timestamp handle k d = elim (device_at handle d) [
  | none ↦ d.now
  | some x ↦ (attribute_at d.now k x).timestamp
]

-- `connectedDevices[handle].attributeMap[k]`, which makes an entry if there is none
abbrev pub touch_attribute : ℕ → ℕ → D (Unit {0})
touch_attribute handle k d = ret tt (update_device handle (update_attribute d.now k (λ a. a)) d)

abbrev pub shown_attribute : ℕ → ℕ → String → D Result
shown_attribute handle k message =
    if_present handle
      (touch_attribute handle k >> pure (result 0 (some handle) message (attribute handle k ∷ [])))

unfoldable pub refresh_attribute : Env → ℕ → ℕ → D Result
refresh_attribute env handle k =
    send_request env (find_information handle k k)
    >> wait_for_completion_event env attclient_findinfo_rsp_evt handle 200
    >>= checked (some handle) (
        wait_for_completion_event env disconnected_or_complete handle 200
        >>= checked (some handle) (
            ble_cmd_gatt_read_attribute_by_handle env handle k
            >> wait_for_completion_event env attclient_read_rsp_evt handle 200
            >>= checked (some handle) (
                wait_for_completion_event env 0x40081 handle 200
                >>= checked (some handle) (shown_attribute handle k (create_error_message 0)))))

unfoldable pub read_cached : Env → ℕ → ℕ → ℕ → ℕ → D Result
read_cached env handle k last_update timestamp d =
    if is_stale d.now timestamp last_update
    then refresh_attribute env handle k d
    else shown_attribute handle k "Returning cached values" d

unfoldable pub read_attribute : Env → Bytes → ℕ → ℕ → D Result
read_attribute env mac k last_update = on_device mac (pure (no_device 0)) (λ handle.
    guarded (some handle) (λ d.
      then_run (touch_attribute handle k d)
        (λ _. read_cached env handle k last_update (cached_timestamp handle k d))))
