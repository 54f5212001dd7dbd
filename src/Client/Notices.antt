-- ===== src/Client/Notices.antt =====
-- The messages of the dongle that the client passes on, as packed structs of
-- BLEGatewayClient/cmd_def.h, and what the gateway receives for each.
pub mod Structs
pub mod Sent
use io_tblegateway.Common.{
  ℕ, ◌+◌, ◌*◌, ◌/◌, ◌%◌, ◌≡◌, refl, some, List, [], ◌∷◌, ◌++◌, arith, Bytes, length, length-append,
  take-append, drop-append,
}
use Prim.Native.String.{String}
use io_tblegateway.Bglib.Handlers.{
  Handler, ble_rsp_gap_set_scan_parameters, ble_rsp_system_get_connections, ble_rsp_system_get_info,
  ble_rsp_connection_disconnect, ble_rsp_connection_update, ble_rsp_connection_get_status,
  ble_rsp_attclient_read_by_group_type, ble_rsp_attclient_read_by_type,
  ble_rsp_attclient_find_information, ble_rsp_attclient_read_by_handle,
  ble_rsp_attclient_attribute_write, ble_rsp_gap_discover, ble_rsp_gap_connect_direct,
  ble_rsp_gap_end_procedure, ble_evt_connection_status, ble_evt_connection_disconnected,
  ble_evt_attclient_procedure_completed, ble_evt_attclient_group_found,
  ble_evt_attclient_find_information_found, ble_evt_attclient_attribute_value,
  ble_evt_gap_scan_response,
}
use io_tblegateway.Bglib.Indices.{
  ble_rsp_gap_set_scan_parameters_idx, ble_rsp_system_get_connections_idx,
  ble_rsp_system_get_info_idx, ble_rsp_connection_disconnect_idx, ble_rsp_connection_update_idx,
  ble_rsp_connection_get_status_idx, ble_rsp_attclient_read_by_group_type_idx,
  ble_rsp_attclient_read_by_type_idx, ble_rsp_attclient_find_information_idx,
  ble_rsp_attclient_read_by_handle_idx, ble_rsp_attclient_attribute_write_idx,
  ble_rsp_gap_discover_idx, ble_rsp_gap_connect_direct_idx, ble_rsp_gap_end_procedure_idx,
  ble_evt_connection_status_idx, ble_evt_connection_disconnected_idx,
  ble_evt_attclient_procedure_completed_idx, ble_evt_attclient_group_found_idx,
  ble_evt_attclient_find_information_found_idx, ble_evt_attclient_attribute_value_idx,
  ble_evt_gap_scan_response_idx,
}
use io_tblegateway.Tpl.{Value, v, c, s, bin}
use io_tblegateway.Client.Process.{World, Env}
use io_tblegateway.Client.Callbacks
use io_tblegateway.Client.Callbacks.Access.{slice, send_packed}

-- A message with the fields of its struct, in their order there.
pub data Notice : Type 0 where
  rsp_gap_set_scan_parameters : (result : ℕ) → Notice
  rsp_system_get_connections : (maxconn : ℕ) → Notice
  rsp_system_get_info :
      (major : ℕ) (minor : ℕ) (patch : ℕ) (build : ℕ) (ll_version : ℕ) (protocol_version : ℕ)
      (hw : ℕ)
      → Notice
  rsp_connection_disconnect : (connection : ℕ) (result : ℕ) → Notice
  rsp_connection_update : (connection : ℕ) (result : ℕ) → Notice
  rsp_connection_get_status : (connection : ℕ) → Notice
  rsp_attclient_read_by_group_type : (connection : ℕ) (result : ℕ) → Notice
  rsp_attclient_read_by_type : (connection : ℕ) (result : ℕ) → Notice
  rsp_attclient_find_information : (connection : ℕ) (result : ℕ) → Notice
  rsp_attclient_read_by_handle : (connection : ℕ) (result : ℕ) → Notice
  rsp_attclient_attribute_write : (connection : ℕ) (result : ℕ) → Notice
  rsp_gap_discover : (result : ℕ) → Notice
  rsp_gap_connect_direct : (result : ℕ) (connection_handle : ℕ) → Notice
  rsp_gap_end_procedure : (result : ℕ) → Notice
  evt_connection_status :
      (connection : ℕ) (flags : ℕ) (address : Bytes) (address_type : ℕ) (conn_interval : ℕ)
      (timeout : ℕ) (latency : ℕ) (bonding : ℕ)
      → Notice
  evt_connection_disconnected : (connection : ℕ) (reason : ℕ) → Notice
  evt_attclient_procedure_completed : (connection : ℕ) (result : ℕ) (chrhandle : ℕ) → Notice
  evt_attclient_group_found : (connection : ℕ) (first : ℕ) (last : ℕ) (uuid : Bytes) → Notice
  evt_attclient_find_information_found : (connection : ℕ) (chrhandle : ℕ) (uuid : Bytes) → Notice
  evt_attclient_attribute_value :
      (connection : ℕ) (atthandle : ℕ) (type : ℕ) (value : Bytes) → Notice
  evt_gap_scan_response :
      (rssi : ℕ) (packet_type : ℕ) (sender : Bytes) (address_type : ℕ) (bond : ℕ) (adv : Bytes)
      → Notice

abbrev pub handler_of : Notice → Handler
handler_of (rsp_gap_set_scan_parameters _) = ble_rsp_gap_set_scan_parameters
handler_of (rsp_system_get_connections _) = ble_rsp_system_get_connections
handler_of (rsp_system_get_info _ _ _ _ _ _ _) = ble_rsp_system_get_info
handler_of (rsp_connection_disconnect _ _) = ble_rsp_connection_disconnect
handler_of (rsp_connection_update _ _) = ble_rsp_connection_update
handler_of (rsp_connection_get_status _) = ble_rsp_connection_get_status
handler_of (rsp_attclient_read_by_group_type _ _) = ble_rsp_attclient_read_by_group_type
handler_of (rsp_attclient_read_by_type _ _) = ble_rsp_attclient_read_by_type
handler_of (rsp_attclient_find_information _ _) = ble_rsp_attclient_find_information
handler_of (rsp_attclient_read_by_handle _ _) = ble_rsp_attclient_read_by_handle
handler_of (rsp_attclient_attribute_write _ _) = ble_rsp_attclient_attribute_write
handler_of (rsp_gap_discover _) = ble_rsp_gap_discover
handler_of (rsp_gap_connect_direct _ _) = ble_rsp_gap_connect_direct
handler_of (rsp_gap_end_procedure _) = ble_rsp_gap_end_procedure
handler_of (evt_connection_status _ _ _ _ _ _ _ _) = ble_evt_connection_status
handler_of (evt_connection_disconnected _ _) = ble_evt_connection_disconnected
handler_of (evt_attclient_procedure_completed _ _ _) = ble_evt_attclient_procedure_completed
handler_of (evt_attclient_group_found _ _ _ _) = ble_evt_attclient_group_found
handler_of (evt_attclient_find_information_found _ _ _) = ble_evt_attclient_find_information_found
handler_of (evt_attclient_attribute_value _ _ _ _) = ble_evt_attclient_attribute_value
handler_of (evt_gap_scan_response _ _ _ _ _ _) = ble_evt_gap_scan_response

abbrev pub format_of : Notice → String
format_of (rsp_gap_set_scan_parameters _) = "vv"
format_of (rsp_system_get_connections _) = "vc"
format_of (rsp_system_get_info _ _ _ _ _ _ _) = "vvvvvvcc"
format_of (rsp_connection_disconnect _ _) = "vcv"
format_of (rsp_connection_update _ _) = "vcv"
format_of (rsp_connection_get_status _) = "vc"
format_of (rsp_attclient_read_by_group_type _ _) = "vcv"
format_of (rsp_attclient_read_by_type _ _) = "vcv"
format_of (rsp_attclient_find_information _ _) = "vcv"
format_of (rsp_attclient_read_by_handle _ _) = "vcv"
format_of (rsp_attclient_attribute_write _ _) = "vcv"
format_of (rsp_gap_discover _) = "vv"
format_of (rsp_gap_connect_direct _ _) = "vvc"
format_of (rsp_gap_end_procedure _) = "vv"
format_of (evt_connection_status _ _ _ _ _ _ _ _) = "vS(c#)cccvvvc"
format_of (evt_connection_disconnected _ _) = "vcv"
format_of (evt_attclient_procedure_completed _ _ _) = "vcvv"
format_of (evt_attclient_group_found _ _ _ _) = "vcvvB"
format_of (evt_attclient_find_information_found _ _ _) = "vcvB"
format_of (evt_attclient_attribute_value _ _ _ _) = "vcvcB"
format_of (evt_gap_scan_response _ _ _ _ _ _) = "vS(c#)ccccB"

-- what the gateway unpacks: the message index and the fields in the order of the format
abbrev pub values_of : Notice → List Value
values_of (rsp_gap_set_scan_parameters result) =
    v ble_rsp_gap_set_scan_parameters_idx ∷ v result ∷ []
values_of (rsp_system_get_connections maxconn) =
    v ble_rsp_system_get_connections_idx ∷ c maxconn ∷ []
values_of (rsp_system_get_info major minor patch build ll_version protocol_version hw) =
    v ble_rsp_system_get_info_idx
    ∷ v build
    ∷ v ll_version
    ∷ v major
    ∷ v minor
    ∷ v patch
    ∷ c hw
    ∷ c protocol_version
    ∷ []
values_of (rsp_connection_disconnect connection result) =
    v ble_rsp_connection_disconnect_idx ∷ c connection ∷ v result ∷ []
values_of (rsp_connection_update connection result) =
    v ble_rsp_connection_update_idx ∷ c connection ∷ v result ∷ []
values_of (rsp_connection_get_status connection) =
    v ble_rsp_connection_get_status_idx ∷ c connection ∷ []
values_of (rsp_attclient_read_by_group_type connection result) =
    v ble_rsp_attclient_read_by_group_type_idx ∷ c connection ∷ v result ∷ []
values_of (rsp_attclient_read_by_type connection result) =
    v ble_rsp_attclient_read_by_type_idx ∷ c connection ∷ v result ∷ []
values_of (rsp_attclient_find_information connection result) =
    v ble_rsp_attclient_find_information_idx ∷ c connection ∷ v result ∷ []
values_of (rsp_attclient_read_by_handle connection result) =
    v ble_rsp_attclient_read_by_handle_idx ∷ c connection ∷ v result ∷ []
values_of (rsp_attclient_attribute_write connection result) =
    v ble_rsp_attclient_attribute_write_idx ∷ c connection ∷ v result ∷ []
values_of (rsp_gap_discover result) = v ble_rsp_gap_discover_idx ∷ v result ∷ []
values_of (rsp_gap_connect_direct result connection_handle) =
    v ble_rsp_gap_connect_direct_idx ∷ v result ∷ c connection_handle ∷ []
values_of (rsp_gap_end_procedure result) = v ble_rsp_gap_end_procedure_idx ∷ v result ∷ []
values_of
      (evt_connection_status connection flags address address_type conn_interval timeout latency
        bonding) =
    v ble_evt_connection_status_idx
    ∷ s address
    ∷ c connection
    ∷ c flags
    ∷ c address_type
    ∷ v conn_interval
    ∷ v timeout
    ∷ v latency
    ∷ c bonding
    ∷ []
values_of (evt_connection_disconnected connection reason) =
    v ble_evt_connection_disconnected_idx ∷ c connection ∷ v reason ∷ []
values_of (evt_attclient_procedure_completed connection result chrhandle) =
    v ble_evt_attclient_procedure_completed_idx ∷ c connection ∷ v result ∷ v chrhandle ∷ []
values_of (evt_attclient_group_found connection first last uuid) =
    v ble_evt_attclient_group_found_idx ∷ c connection ∷ v first ∷ v last ∷ bin uuid ∷ []
values_of (evt_attclient_find_information_found connection chrhandle uuid) =
    v ble_evt_attclient_find_information_found_idx ∷ c connection ∷ v chrhandle ∷ bin uuid ∷ []
values_of (evt_attclient_attribute_value connection atthandle type value) =
    v ble_evt_attclient_attribute_value_idx ∷ c connection ∷ v atthandle ∷ c type ∷ bin value ∷ []
values_of (evt_gap_scan_response rssi packet_type sender address_type bond adv) =
    v ble_evt_gap_scan_response_idx
    ∷ s sender
    ∷ c rssi
    ∷ c packet_type
    ∷ c address_type
    ∷ c bond
    ∷ bin adv
    ∷ []
