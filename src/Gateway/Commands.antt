-- ===== src/Gateway/Commands.antt =====
-- The commands of the driver that wait for the dongle, of BLEGatewayApplication/BLE_DRIVER.cpp.
pub mod Connect
pub mod Read
pub mod Discover
pub mod Info
pub mod Calm
pub mod Cached
use io_tblegateway.Common.{
  ℕ, Bool, true, false, Option, none, some, List, [], ◌∷◌, ◌==◌, if◌then◌else◌, Bytes, take,
}
use Prim.Native.String.{String}
use mathlib.Core.List.{reverse}
use io_tblegateway.Client.Process.{Env}
use io_tblegateway.Client.Commands.Requests.{
  Request, end_procedure, scan_parameters, discover, connect, update, disconnect,
  read_by_group_type, find_information, read_by_handle, write_attribute, format_of, packed,
}
use io_tblegateway.Gateway.Map.{Map, find}
use io_tblegateway.Gateway.Text.{hex_str_to_hex_buf}
use io_tblegateway.Gateway.Driver.{
  Driver, AttributeData, AdvertisementData, ConnectedDeviceInfo, Polled, D, Out, ret, thrown,
  blocked, undefined, uninitialised, then_run, catch_run, ◌>>=◌, ◌>>◌, pure, throw, undefined_by,
  modify, device_at,
}
use io_tblegateway.Gateway.CompletionEvents.{
  gatt_procedure_complete_evt, gap_connection_evt, gap_connection_rsp_evt, gap_discover_rsp_evt,
  connection_update_rsp_evt, connection_update_evt, connection_disconnect_rsp_evt,
  connection_disconnect_evt, attclient_read_rsp_evt, attclient_write_rsp_evt,
  attclient_readgroup_rsp_evt, attclient_findinfo_rsp_evt, attclient_attribute_found_evt,
}
use io_tblegateway.Gateway.Errors.{create_error_message}
use io_tblegateway.Gateway.Transport.{write_tcp_msg_to_socket}
use io_tblegateway.Gateway.Events.{attribute_at, update_device, update_attribute}
use io_tblegateway.Gateway.Receive.{process_polled}
use io_tblegateway.Gateway.Wait.{wait_for_completion_event}
use io_tblegateway.Gateway.Parameters.{
  ConnectionParameters, check_connection_parameters, DiscoverParameters, check_discover_parameters,
}

-- Each `BleCmd...` function but those below.
abbrev pub written : Option Bytes → D (Unit {0})
written none = undefined_by uninitialised
written (some buffer) = write_tcp_msg_to_socket buffer

unfoldable pub send_request : Env → Request → D (Unit {0})
send_request env r = if env.tpl.maps (format_of r) then written (packed env.tpl r) else throw

unfoldable pub ble_cmd_gap_discover : Env → DiscoverParameters → ℕ → D (Unit {0})
ble_cmd_gap_discover env p active =
    modify (λ d. record d { discovered_devices = [] })
    >> send_request env (scan_parameters p.scan_interval p.scan_window active)
    >> send_request env (discover p.discover_mode)

abbrev pub present : Option ConnectedDeviceInfo → Bool
present none = false
present (some device) = true

abbrev pub is_present : ℕ → Driver → Bool
is_present handle d = present (device_at handle d)

unfoldable pub ble_cmd_gatt_read_attribute_by_handle : Env → ℕ → ℕ → D (Unit {0})
ble_cmd_gatt_read_attribute_by_handle env handle k d =
    if is_present handle d then send_request env (read_by_handle handle k) d else thrown d

-- The structures that a result points to.
pub data Shown : Type 0 where
  information : Shown
  device : (handle : ℕ) → Shown
  attribute : (handle : ℕ) (k : ℕ) → Shown
  advertisement : (mac : Bytes) → Shown

-- `connection_handle` is `none` for -1.
pub record Result : Type 0 where
  pub error_code : ℕ
  pub connection_handle : Option ℕ
  pub error_message : String
  pub data_list : List Shown

abbrev pub result : ℕ → Option ℕ → String → List Shown → Result
result code handle message data_list = record {
  error_code = code;
  connection_handle = handle;
  error_message = message;
  data_list = data_list;
}

-- a result with a code and its message, and no data
abbrev pub answer : Option ℕ → ℕ → Result
answer handle code = result code handle (create_error_message code) []

abbrev pub no_device : ℕ → Result
no_device code = result code none "No Device with this MAC Address found" []

-- A code other than 0 is returned; with 0 the command goes on.
abbrev pub checked : Option ℕ → D Result → ℕ → D Result
checked handle rest code = if code == 0 then rest else pure (answer handle code)

-- `catch (BLED112Exception& e)` of a command
abbrev pub guarded : Option ℕ → D Result → D Result
guarded handle body d = catch_run (body d) (pure (answer handle 1))

-- The loop over the devices finds the first one with the address.
unfoldable pub mac_to_connection_handle :
    (Bytes → Bytes → Bool) → Bytes → Map ℕ ConnectedDeviceInfo → Option ℕ
mac_to_connection_handle same mac [] = none
mac_to_connection_handle same mac (e ∷ m) =
    if same e.1.mac_address mac then some e.0 else mac_to_connection_handle same mac m

-- `operator==` on addresses
unfoldable pub same_mac : Bytes → Bytes → Bool
same_mac [] [] = true
same_mac (a ∷ xs) (b ∷ ys) = if a == b then same_mac xs ys else false
same_mac _ _ = false

-- An address comes in the order of its text, and is stored in the reverse order.
abbrev pub handle_of : Bytes → Driver → Option ℕ
handle_of mac d = mac_to_connection_handle same_mac (reverse mac) d.connected_devices

abbrev pub with_handle : Option ℕ → D Result → (ℕ → D Result) → D Result
with_handle none missing found = missing
with_handle (some handle) missing found = found handle

-- a command on the device with an address
abbrev pub on_device : Bytes → D Result → (ℕ → D Result) → D Result
on_device mac missing found d = with_handle (handle_of mac d) missing found d

-- the data at the end of a command, if the device is still connected
abbrev pub if_present : ℕ → D Result → D Result
if_present handle shown d = if is_present handle d then shown d else ret (answer none 3) d

unfoldable pub disconnect_device : Env → Bytes → D Result
disconnect_device env mac = on_device mac (pure (no_device 0)) (λ handle. guarded (some handle) (
    send_request env (disconnect handle)
    >> wait_for_completion_event env connection_disconnect_rsp_evt handle 200
    >>= checked (some handle) (
        wait_for_completion_event env connection_disconnect_evt handle 200
        >>= (λ code. pure (answer (some handle) code)))))

abbrev pub disconnected_or_complete : ℕ
disconnected_or_complete = 0x81

unfoldable pub read_all_attributes : Env → Bytes → D Result
read_all_attributes env mac = on_device mac (pure (no_device 0)) (λ handle. guarded (some handle) (
    send_request env (read_by_group_type handle 1 65535 (0x00 ∷ 0x28 ∷ []))
    >> wait_for_completion_event env attclient_readgroup_rsp_evt handle 200
    >>= checked (some handle) (
        wait_for_completion_event env disconnected_or_complete handle 200
        >>= checked (some handle) (
            send_request env (find_information handle 1 65535)
            >> wait_for_completion_event env attclient_findinfo_rsp_evt handle 200
            >>= checked (some handle) (
                wait_for_completion_event env disconnected_or_complete handle 200
                >>= checked (some handle) (
                    if_present handle (
                      pure (
                        result 0 (some handle) (create_error_message 0) (device handle ∷ [])))))))))

unfoldable pub write_device_attribute : Env → Bytes → ℕ → Bytes → D Result
write_device_attribute env mac k text = on_device mac (pure (no_device 3)) (λ handle.
    guarded (some handle) (
      send_request env (write_attribute handle k (take 20 (hex_str_to_hex_buf text)))
      >> wait_for_completion_event env attclient_write_rsp_evt handle 200
      >>= checked (some handle) (
          wait_for_completion_event env disconnected_or_complete handle 200
          >>= (λ code. pure (answer (some handle) code)))))

abbrev pub devices_of : Map ℕ ConnectedDeviceInfo → List Shown
devices_of [] = []
devices_of (e ∷ m) = device e.0 ∷ devices_of m

unfoldable pub get_connected_devices : D Result
get_connected_devices d =
    ret (result 0 none (create_error_message 0) (devices_of d.connected_devices)) d

-- An update ends with the device's parameters, a new connection with none.
abbrev pub settled_message : Bool → String → String
settled_message correct changed = if correct then create_error_message 0 else changed
