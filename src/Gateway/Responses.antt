-- ===== src/Gateway/Responses.antt =====
-- The callbacks for the responses of the dongle, of BLEGatewayApplication/BLE_DRIVER.cpp.
use io_tblegateway.Common.{ℕ, Option, none, some, List, [], ◌∷◌, ◌==◌, if◌then◌else◌, Bytes}
use Prim.Native.String.{String}
use io_tblegateway.Bglib.Indices.{
  ble_rsp_gap_set_scan_parameters_idx, ble_rsp_connection_disconnect_idx,
  ble_rsp_connection_update_idx, ble_rsp_attclient_read_by_group_type_idx,
  ble_rsp_attclient_read_by_type_idx, ble_rsp_attclient_find_information_idx,
  ble_rsp_attclient_read_by_handle_idx, ble_rsp_attclient_attribute_write_idx,
  ble_rsp_gap_discover_idx, ble_rsp_gap_end_procedure_idx,
}
use io_tblegateway.Tpl.{Value, v, c, Tpl}
use io_tblegateway.Gateway.Driver.{D, uninitialised, ◌>>=◌, ◌>>◌, pure, throw, undefined_by, modify}
use io_tblegateway.Gateway.CompletionEvents.{
  gap_connection_rsp_evt, gap_discover_rsp_evt, connection_update_rsp_evt,
  connection_disconnect_rsp_evt, attclient_read_rsp_evt, attclient_write_rsp_evt,
  attclient_readgroup_rsp_evt, attclient_findinfo_rsp_evt, attclient_readtype_rsp_evt,
  gap_endprocedure_rsp_evt, gap_set_scanparameter_rsp_evt, sys_get_maxcon_rsp_evt,
  connection_get_status_rsp_evt, sys_get_info_rsp_evt,
}
use io_tblegateway.Gateway.Register.{post_completion_event}

-- `tpl_map`, `tpl_load` and `tpl_unpack`, into variables with the values that they have before:
-- `none` if one of those is not initialised.
abbrev pub loaded : Option (List Value) → Option (List Value) → D (List Value)
loaded (some vs) before = pure vs
loaded none (some vs) = pure vs
loaded none none = undefined_by uninitialised

unfoldable pub load : Tpl → String → Bytes → Option (List Value) → D (List Value)
load t format message before =
    if t.maps format then loaded (t.unpack format message) before else throw

abbrev pub other_values : D (Unit {0})
other_values = undefined_by uninitialised

unfoldable pub got_system_info : List Value → D (Unit {0})
got_system_info
      (v command_idx
        ∷ v build
        ∷ v ll_version
        ∷ v major
        ∷ v minor
        ∷ v patch
        ∷ c hw
        ∷ c protocol_version
        ∷ []) =
    do
      modify (λ d. record d {
        bled_info = record {
          d_major = major;
          d_minor = minor;
          patch = patch;
          build = build;
          ll_version = ll_version;
          protocol_version = protocol_version;
          hw = hw;
          max_connections = d.bled_info.max_connections;
        };
      })
      post_completion_event sys_get_info_rsp_evt 0 0
got_system_info _ = other_values

unfoldable pub ble_rsp_system_get_info : Tpl → Bytes → D (Unit {0})
ble_rsp_system_get_info t message = do vs ← load t "vvvvvvcc" message none; got_system_info vs

unfoldable pub got_connect_direct : List Value → D (Unit {0})
got_connect_direct (v command_idx ∷ v result ∷ c connection_handle ∷ []) =
    post_completion_event gap_connection_rsp_evt 0 result
got_connect_direct _ = other_values

unfoldable pub ble_rsp_gap_connect_direct : Tpl → Bytes → D (Unit {0})
ble_rsp_gap_connect_direct t message = do vs ← load t "vvc" message none; got_connect_direct vs

unfoldable pub got_connection_status : List Value → D (Unit {0})
got_connection_status (v command_idx ∷ c connection ∷ []) =
    post_completion_event connection_get_status_rsp_evt connection 0
got_connection_status _ = other_values

unfoldable pub ble_rsp_connection_get_status : Tpl → Bytes → D (Unit {0})
ble_rsp_connection_get_status t message = do vs ← load t "vc" message none; got_connection_status vs

unfoldable pub got_connections : List Value → D (Unit {0})
got_connections (v command_idx ∷ c maxconn ∷ []) = do
  modify (λ d. record d { bled_info = record d.bled_info { max_connections = maxconn } })
  post_completion_event sys_get_maxcon_rsp_evt 0 0
got_connections _ = other_values

unfoldable pub ble_rsp_system_get_max_connections : Tpl → Bytes → D (Unit {0})
ble_rsp_system_get_max_connections t message = do vs ← load t "vc" message none; got_connections vs

-- The `switch` of `BleSimpleResponse`: the event that each response is for. Other indices have no
-- case.
unfoldable pub simple_event : ℕ → Option ℕ
simple_event command_idx =
    if command_idx == ble_rsp_gap_discover_idx
    then some gap_discover_rsp_evt
    else if command_idx == ble_rsp_gap_set_scan_parameters_idx
    then some gap_set_scanparameter_rsp_evt
    else if command_idx == ble_rsp_gap_end_procedure_idx
    then some gap_endprocedure_rsp_evt
    else none

abbrev pub post_if : Option ℕ → ℕ → ℕ → D (Unit {0})
post_if none connection result = pure tt
post_if (some ce) connection result = post_completion_event ce connection result

unfoldable pub got_simple : List Value → D (Unit {0})
got_simple (v command_idx ∷ v result ∷ []) = post_if (simple_event command_idx) 0 result
got_simple _ = other_values

unfoldable pub ble_simple_response : Tpl → Bytes → D (Unit {0})
ble_simple_response t message = do vs ← load t "vv" message (some (v 0 ∷ v 0 ∷ [])); got_simple vs

-- The `switch` of `BleSimpleConnectionResponse`: the event that each response is for.
unfoldable pub connection_event : ℕ → Option ℕ
connection_event command_idx =
    if command_idx == ble_rsp_connection_update_idx
    then some connection_update_rsp_evt
    else if command_idx == ble_rsp_connection_disconnect_idx
    then some connection_disconnect_rsp_evt
    else if command_idx == ble_rsp_attclient_read_by_group_type_idx
    then some attclient_readgroup_rsp_evt
    else if command_idx == ble_rsp_attclient_read_by_type_idx
    then some attclient_readtype_rsp_evt
    else if command_idx == ble_rsp_attclient_find_information_idx
    then some attclient_findinfo_rsp_evt
    else if command_idx == ble_rsp_attclient_read_by_handle_idx
    then some attclient_read_rsp_evt
    else if command_idx == ble_rsp_attclient_attribute_write_idx
    then some attclient_write_rsp_evt
    else none

unfoldable pub got_simple_connection : List Value → D (Unit {0})
got_simple_connection (v command_idx ∷ c connection ∷ v result ∷ []) =
    post_if (connection_event command_idx) connection result
got_simple_connection _ = other_values

-- `result` and `connection` have no values before, but no case of the `switch` reads them then
unfoldable pub ble_simple_connection_response : Tpl → Bytes → D (Unit {0})
ble_simple_connection_response t message = do
  vs ← load t "vcv" message (some (v 0 ∷ c 0 ∷ v 0 ∷ []))
  got_simple_connection vs
