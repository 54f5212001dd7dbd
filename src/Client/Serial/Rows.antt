-- ===== src/Client/Serial/Rows.antt =====
-- The rows of the message table that stand for the messages which the client passes on.
use io_tblegateway.Common.{
  ℕ, ◌≤◌, ◌<◌, ◌≡◌, refl, some, [], ◌++◌, append_assoc, arith, Bytes, get_elem?,
}
use io_tblegateway.Bglib.Handlers.{
  Handler, ble_rsp_gap_set_scan_parameters, ble_rsp_system_get_connections, ble_rsp_system_get_info,
  ble_rsp_connection_disconnect, ble_rsp_connection_update, ble_rsp_connection_get_status,
  ble_rsp_attclient_read_by_group_type, ble_rsp_attclient_read_by_type,
  ble_rsp_attclient_find_information, ble_rsp_attclient_read_by_handle,
  ble_rsp_attclient_attribute_write, ble_rsp_gap_discover, ble_rsp_gap_connect_direct,
  ble_rsp_gap_end_procedure, ble_evt_connection_status, ble_evt_connection_disconnected,
  ble_evt_attclient_procedure_completed, ble_evt_attclient_group_found,
  ble_evt_attclient_find_information_found, ble_evt_attclient_attribute_value,
  ble_evt_gap_scan_response,
}
use io_tblegateway.Bglib.Types.{ble_msg_type_rsp, ble_msg_type_evt, BleMsg}
use io_tblegateway.Bglib.Lookup.{apis}
use io_tblegateway.Bglib.Lookup.Complete.{first_rsp, last}
use io_tblegateway.Client.Notices.{
  Notice, rsp_gap_set_scan_parameters, rsp_system_get_connections, rsp_system_get_info,
  rsp_connection_disconnect, rsp_connection_update, rsp_connection_get_status,
  rsp_attclient_read_by_group_type, rsp_attclient_read_by_type, rsp_attclient_find_information,
  rsp_attclient_read_by_handle, rsp_attclient_attribute_write, rsp_gap_discover,
  rsp_gap_connect_direct, rsp_gap_end_procedure, evt_connection_status, evt_connection_disconnected,
  evt_attclient_procedure_completed, evt_attclient_group_found,
  evt_attclient_find_information_found, evt_attclient_attribute_value, evt_gap_scan_response,
  handler_of,
}
use io_tblegateway.Client.Notices.Structs.{struct_of}

-- the index in `apis` of the row of a message
unfoldable pub row_index : Notice → ℕ
row_index (rsp_gap_set_scan_parameters _) = 174
row_index (rsp_system_get_connections _) = 111
row_index (rsp_system_get_info _ _ _ _ _ _ _) = 113
row_index (rsp_connection_disconnect _ _) = 138
row_index (rsp_connection_update _ _) = 140
row_index (rsp_connection_get_status _) = 145
row_index (rsp_attclient_read_by_group_type _ _) = 148
row_index (rsp_attclient_read_by_type _ _) = 149
row_index (rsp_attclient_find_information _ _) = 150
row_index (rsp_attclient_read_by_handle _ _) = 151
row_index (rsp_attclient_attribute_write _ _) = 152
row_index (rsp_gap_discover _) = 169
row_index (rsp_gap_connect_direct _ _) = 170
row_index (rsp_gap_end_procedure _) = 171
row_index (evt_connection_status _ _ _ _ _ _ _ _) = 221
row_index (evt_connection_disconnected _ _) = 225
row_index (evt_attclient_procedure_completed _ _ _) = 227
row_index (evt_attclient_group_found _ _ _ _) = 228
row_index (evt_attclient_find_information_found _ _ _) = 230
row_index (evt_attclient_attribute_value _ _ _ _) = 231
row_index (evt_gap_scan_response _ _ _ _ _ _) = 238

abbrev row : ℕ → ℕ → ℕ → ℕ → ℕ → Handler → BleMsg
row kind lolen cls command params handler = record {
  hdr = record { type_hilen = kind; lolen = lolen; cls = cls; command = command };
  params = params;
  handler = some handler;
}

-- that row
unfoldable pub row_of : Notice → BleMsg
row_of (rsp_gap_set_scan_parameters _) =
    row ble_msg_type_rsp 2 6 7 0x4 ble_rsp_gap_set_scan_parameters
row_of (rsp_system_get_connections _) =
    row ble_msg_type_rsp 1 0 6 0x2 ble_rsp_system_get_connections
row_of (rsp_system_get_info _ _ _ _ _ _ _) =
    row ble_msg_type_rsp 12 0 8 0x2244444 ble_rsp_system_get_info
row_of (rsp_connection_disconnect _ _) =
    row ble_msg_type_rsp 3 3 0 0x42 ble_rsp_connection_disconnect
row_of (rsp_connection_update _ _) = row ble_msg_type_rsp 3 3 2 0x42 ble_rsp_connection_update
row_of (rsp_connection_get_status _) = row ble_msg_type_rsp 1 3 7 0x2 ble_rsp_connection_get_status
row_of (rsp_attclient_read_by_group_type _ _) =
    row ble_msg_type_rsp 3 4 1 0x42 ble_rsp_attclient_read_by_group_type
row_of (rsp_attclient_read_by_type _ _) =
    row ble_msg_type_rsp 3 4 2 0x42 ble_rsp_attclient_read_by_type
row_of (rsp_attclient_find_information _ _) =
    row ble_msg_type_rsp 3 4 3 0x42 ble_rsp_attclient_find_information
row_of (rsp_attclient_read_by_handle _ _) =
    row ble_msg_type_rsp 3 4 4 0x42 ble_rsp_attclient_read_by_handle
row_of (rsp_attclient_attribute_write _ _) =
    row ble_msg_type_rsp 3 4 5 0x42 ble_rsp_attclient_attribute_write
row_of (rsp_gap_discover _) = row ble_msg_type_rsp 2 6 2 0x4 ble_rsp_gap_discover
row_of (rsp_gap_connect_direct _ _) = row ble_msg_type_rsp 3 6 3 0x24 ble_rsp_gap_connect_direct
row_of (rsp_gap_end_procedure _) = row ble_msg_type_rsp 2 6 4 0x4 ble_rsp_gap_end_procedure
row_of (evt_connection_status _ _ _ _ _ _ _ _) =
    row ble_msg_type_evt 16 3 0 0x24442a22 ble_evt_connection_status
row_of (evt_connection_disconnected _ _) =
    row ble_msg_type_evt 3 3 4 0x42 ble_evt_connection_disconnected
row_of (evt_attclient_procedure_completed _ _ _) =
    row ble_msg_type_evt 5 4 1 0x442 ble_evt_attclient_procedure_completed
row_of (evt_attclient_group_found _ _ _ _) =
    row ble_msg_type_evt 6 4 2 0x8442 ble_evt_attclient_group_found
row_of (evt_attclient_find_information_found _ _ _) =
    row ble_msg_type_evt 4 4 4 0x842 ble_evt_attclient_find_information_found
row_of (evt_attclient_attribute_value _ _ _ _) =
    row ble_msg_type_evt 5 4 5 0x8242 ble_evt_attclient_attribute_value
row_of (evt_gap_scan_response _ _ _ _ _ _) =
    row ble_msg_type_evt 11 6 0 0x822a23 ble_evt_gap_scan_response

pub row_of-apis : (n : Notice) → get_elem? apis (row_index n) ≡ some (row_of n)
unfolding apis row_index row_of
row_of-apis (rsp_gap_set_scan_parameters _) = refl
row_of-apis (rsp_system_get_connections _) = refl
row_of-apis (rsp_system_get_info _ _ _ _ _ _ _) = refl
row_of-apis (rsp_connection_disconnect _ _) = refl
row_of-apis (rsp_connection_update _ _) = refl
row_of-apis (rsp_connection_get_status _) = refl
row_of-apis (rsp_attclient_read_by_group_type _ _) = refl
row_of-apis (rsp_attclient_read_by_type _ _) = refl
row_of-apis (rsp_attclient_find_information _ _) = refl
row_of-apis (rsp_attclient_read_by_handle _ _) = refl
row_of-apis (rsp_attclient_attribute_write _ _) = refl
row_of-apis (rsp_gap_discover _) = refl
row_of-apis (rsp_gap_connect_direct _ _) = refl
row_of-apis (rsp_gap_end_procedure _) = refl
row_of-apis (evt_connection_status _ _ _ _ _ _ _ _) = refl
row_of-apis (evt_connection_disconnected _ _) = refl
row_of-apis (evt_attclient_procedure_completed _ _ _) = refl
row_of-apis (evt_attclient_group_found _ _ _ _) = refl
row_of-apis (evt_attclient_find_information_found _ _ _) = refl
row_of-apis (evt_attclient_attribute_value _ _ _ _) = refl
row_of-apis (evt_gap_scan_response _ _ _ _ _ _) = refl

pub row_index_bounds : (n : Notice) → (first_rsp ≤ row_index n) × (row_index n < last)
unfolding row_index
row_index_bounds (rsp_gap_set_scan_parameters _) = omega arith
row_index_bounds (rsp_system_get_connections _) = omega arith
row_index_bounds (rsp_system_get_info _ _ _ _ _ _ _) = omega arith
row_index_bounds (rsp_connection_disconnect _ _) = omega arith
row_index_bounds (rsp_connection_update _ _) = omega arith
row_index_bounds (rsp_connection_get_status _) = omega arith
row_index_bounds (rsp_attclient_read_by_group_type _ _) = omega arith
row_index_bounds (rsp_attclient_read_by_type _ _) = omega arith
row_index_bounds (rsp_attclient_find_information _ _) = omega arith
row_index_bounds (rsp_attclient_read_by_handle _ _) = omega arith
row_index_bounds (rsp_attclient_attribute_write _ _) = omega arith
row_index_bounds (rsp_gap_discover _) = omega arith
row_index_bounds (rsp_gap_connect_direct _ _) = omega arith
row_index_bounds (rsp_gap_end_procedure _) = omega arith
row_index_bounds (evt_connection_status _ _ _ _ _ _ _ _) = omega arith
row_index_bounds (evt_connection_disconnected _ _) = omega arith
row_index_bounds (evt_attclient_procedure_completed _ _ _) = omega arith
row_index_bounds (evt_attclient_group_found _ _ _ _) = omega arith
row_index_bounds (evt_attclient_find_information_found _ _ _) = omega arith
row_index_bounds (evt_attclient_attribute_value _ _ _ _) = omega arith
row_index_bounds (evt_gap_scan_response _ _ _ _ _ _) = omega arith

pub handler-row_of : (n : Notice) → (row_of n).handler ≡ some (handler_of n)
unfolding row_of
handler-row_of (rsp_gap_set_scan_parameters _) = refl
handler-row_of (rsp_system_get_connections _) = refl
handler-row_of (rsp_system_get_info _ _ _ _ _ _ _) = refl
handler-row_of (rsp_connection_disconnect _ _) = refl
handler-row_of (rsp_connection_update _ _) = refl
handler-row_of (rsp_connection_get_status _) = refl
handler-row_of (rsp_attclient_read_by_group_type _ _) = refl
handler-row_of (rsp_attclient_read_by_type _ _) = refl
handler-row_of (rsp_attclient_find_information _ _) = refl
handler-row_of (rsp_attclient_read_by_handle _ _) = refl
handler-row_of (rsp_attclient_attribute_write _ _) = refl
handler-row_of (rsp_gap_discover _) = refl
handler-row_of (rsp_gap_connect_direct _ _) = refl
handler-row_of (rsp_gap_end_procedure _) = refl
handler-row_of (evt_connection_status _ _ _ _ _ _ _ _) = refl
handler-row_of (evt_connection_disconnected _ _) = refl
handler-row_of (evt_attclient_procedure_completed _ _ _) = refl
handler-row_of (evt_attclient_group_found _ _ _ _) = refl
handler-row_of (evt_attclient_find_information_found _ _ _) = refl
handler-row_of (evt_attclient_attribute_value _ _ _ _) = refl
handler-row_of (evt_gap_scan_response _ _ _ _ _ _) = refl

pub struct_of-append : (n : Notice) (rest : Bytes) → struct_of n [] ++ rest ≡ struct_of n rest
struct_of-append (rsp_gap_set_scan_parameters _) rest = refl
struct_of-append (rsp_system_get_connections _) rest = refl
struct_of-append (rsp_system_get_info _ _ _ _ _ _ _) rest = refl
struct_of-append (rsp_connection_disconnect _ _) rest = refl
struct_of-append (rsp_connection_update _ _) rest = refl
struct_of-append (rsp_connection_get_status _) rest = refl
struct_of-append (rsp_attclient_read_by_group_type _ _) rest = refl
struct_of-append (rsp_attclient_read_by_type _ _) rest = refl
struct_of-append (rsp_attclient_find_information _ _) rest = refl
struct_of-append (rsp_attclient_read_by_handle _ _) rest = refl
struct_of-append (rsp_attclient_attribute_write _ _) rest = refl
struct_of-append (rsp_gap_discover _) rest = refl
struct_of-append (rsp_gap_connect_direct _ _) rest = refl
struct_of-append (rsp_gap_end_procedure _) rest = refl
struct_of-append (evt_connection_status _ _ _ _ _ _ _ _) rest = simp append_assoc
struct_of-append (evt_connection_disconnected _ _) rest = refl
struct_of-append (evt_attclient_procedure_completed _ _ _) rest = refl
struct_of-append (evt_attclient_group_found _ _ _ _) rest = simp append_assoc
struct_of-append (evt_attclient_find_information_found _ _ _) rest = simp append_assoc
struct_of-append (evt_attclient_attribute_value _ _ _ _) rest = simp append_assoc
struct_of-append (evt_gap_scan_response _ _ _ _ _ _) rest = simp append_assoc
