-- ===== src/Gateway/Receive.antt =====
-- How BLEGatewayApplication/BLE_DRIVER.cpp takes a message of the client from the socket.
pub mod Devices
pub mod Keeps
pub mod Gone
use io_tblegateway.Common.{
  ℕ, ◌+◌, ◌-◌, ◌*◌, ◌%◌, ◌^◌, Option, none, some, List, [], ◌∷◌, ltb, ◌==◌, if◌then◌else◌, Bytes,
}
use io_tblegateway.Bglib.Indices.{
  ble_rsp_gap_set_scan_parameters_idx, ble_rsp_system_get_connections_idx,
  ble_rsp_system_get_info_idx, ble_rsp_connection_disconnect_idx, ble_rsp_connection_update_idx,
  ble_rsp_connection_get_status_idx, ble_rsp_attclient_read_by_group_type_idx,
  ble_rsp_attclient_read_by_type_idx, ble_rsp_attclient_find_information_idx,
  ble_rsp_attclient_read_by_handle_idx, ble_rsp_attclient_attribute_write_idx,
  ble_rsp_gap_discover_idx, ble_rsp_gap_connect_direct_idx, ble_rsp_gap_end_procedure_idx,
  ble_evt_connection_status_idx, ble_evt_connection_disconnected_idx,
  ble_evt_attclient_procedure_completed_idx, ble_evt_attclient_group_found_idx,
  ble_evt_attclient_find_information_found_idx, ble_evt_attclient_attribute_value_idx,
  ble_evt_gap_scan_response_idx,
}
use io_tblegateway.Tpl.{Tpl}
use io_tblegateway.Client.Process.{Env, local_array}
use io_tblegateway.Gateway.Driver.{
  Polled, readable, silent, D, Out, ret, thrown, ◌>>=◌, pure, throw,
}
use io_tblegateway.Gateway.Transport.{read_bytes_from_tcpsocket}
use io_tblegateway.Gateway.Responses.{
  ble_rsp_system_get_info, ble_rsp_gap_connect_direct, ble_rsp_connection_get_status,
  ble_rsp_system_get_max_connections, ble_simple_response, ble_simple_connection_response,
}
use io_tblegateway.Gateway.Events.{
  ble_evt_gap_scan_response, ble_evt_connection_get_status, ble_evt_connection_disconnect,
  ble_evt_gatt_service_found, ble_evt_gatt_attribute_value, ble_evt_gatt_procedure_completed,
  ble_evt_gatt_attribute_info_found,
}

-- The functions that the `switch` of `DecodeIncomingTCPMessage` calls.
pub data Callback : Type 0 where
  rsp_system_get_info : Callback
  simple_response : Callback
  rsp_system_get_max_connections : Callback
  rsp_gap_connect_direct : Callback
  rsp_connection_get_status : Callback
  evt_gap_scan_response : Callback
  evt_connection_get_status : Callback
  simple_connection_response : Callback
  evt_connection_disconnect : Callback
  evt_gatt_service_found : Callback
  evt_gatt_procedure_completed : Callback
  evt_gatt_attribute_value : Callback
  evt_gatt_attribute_info_found : Callback

abbrev pub cases : List (ℕ × Callback)
cases =
    (ble_rsp_system_get_info_idx, rsp_system_get_info)
    ∷ (ble_rsp_gap_set_scan_parameters_idx, simple_response)
    ∷ (ble_rsp_gap_discover_idx, simple_response)
    ∷ (ble_rsp_gap_end_procedure_idx, simple_response)
    ∷ (ble_rsp_system_get_connections_idx, rsp_system_get_max_connections)
    ∷ (ble_rsp_gap_connect_direct_idx, rsp_gap_connect_direct)
    ∷ (ble_rsp_connection_get_status_idx, rsp_connection_get_status)
    ∷ (ble_evt_gap_scan_response_idx, evt_gap_scan_response)
    ∷ (ble_evt_connection_status_idx, evt_connection_get_status)
    ∷ (ble_rsp_connection_disconnect_idx, simple_connection_response)
    ∷ (ble_evt_connection_disconnected_idx, evt_connection_disconnect)
    ∷ (ble_rsp_connection_update_idx, simple_connection_response)
    ∷ (ble_rsp_attclient_read_by_group_type_idx, simple_connection_response)
    ∷ (ble_evt_attclient_group_found_idx, evt_gatt_service_found)
    ∷ (ble_evt_attclient_procedure_completed_idx, evt_gatt_procedure_completed)
    ∷ (ble_rsp_attclient_read_by_type_idx, simple_connection_response)
    ∷ (ble_evt_attclient_attribute_value_idx, evt_gatt_attribute_value)
    ∷ (ble_rsp_attclient_find_information_idx, simple_connection_response)
    ∷ (ble_evt_attclient_find_information_found_idx, evt_gatt_attribute_info_found)
    ∷ (ble_rsp_attclient_read_by_handle_idx, simple_connection_response)
    ∷ (ble_rsp_attclient_attribute_write_idx, simple_connection_response)
    ∷ []

unfoldable pub case_for : ℕ → List (ℕ × Callback) → Option Callback
case_for command_idx [] = none
case_for command_idx (row ∷ rows) =
    if command_idx == row.0 then some row.1 else case_for command_idx rows

unfoldable pub callback : Tpl → Callback → Bytes → D (Unit {0})
callback t rsp_system_get_info message = ble_rsp_system_get_info t message
callback t simple_response message = ble_simple_response t message
callback t rsp_system_get_max_connections message = ble_rsp_system_get_max_connections t message
callback t rsp_gap_connect_direct message = ble_rsp_gap_connect_direct t message
callback t rsp_connection_get_status message = ble_rsp_connection_get_status t message
callback t evt_gap_scan_response message = ble_evt_gap_scan_response t message
callback t evt_connection_get_status message = ble_evt_connection_get_status t message
callback t simple_connection_response message = ble_simple_connection_response t message
callback t evt_connection_disconnect message = ble_evt_connection_disconnect t message
callback t evt_gatt_service_found message = ble_evt_gatt_service_found t message
callback t evt_gatt_procedure_completed message = ble_evt_gatt_procedure_completed t message
callback t evt_gatt_attribute_value message = ble_evt_gatt_attribute_value t message
callback t evt_gatt_attribute_info_found message = ble_evt_gatt_attribute_info_found t message

abbrev pub call_case : Tpl → Option Callback → Bytes → D (Unit {0})
call_case t none message = throw
call_case t (some k) message = callback t k message

abbrev pub call_index : Tpl → Option ℕ → Bytes → D (Unit {0})
call_index t none message = throw
call_index t (some command_idx) message = call_case t (case_for command_idx cases) message

-- What a callback throws is thrown again.
unfoldable pub decode_incoming_tcp_message : Tpl → Bytes → D (Unit {0})
decode_incoming_tcp_message t message = call_index t (t.peek_v message) message

-- The bytes of the header are `char`, which is signed: a byte from 128 on is added as a negative
-- number.
abbrev signed_char : ℕ → ℕ
signed_char b = if ltb b 128 then b else b + (2 ^ 32 - 256)

unfoldable pub data_size : ℕ → Bytes → ℕ
data_size size [] = size
data_size size (b ∷ header) = data_size ((size * 256 % 2 ^ 32 + signed_char b) % 2 ^ 32) header

unfoldable pub read_data : Env → ℕ → D (Unit {0})
read_data env size =
    if size == 0
    then pure tt
    else read_bytes_from_tcpsocket (local_array env.garbage size) size
      >>= decode_incoming_tcp_message env.tpl

unfoldable pub receive_message : Env → D (Unit {0})
receive_message env = do
  header ← read_bytes_from_tcpsocket (local_array env.garbage 4) 4
  read_data env (data_size 0 header)

-- `ProcessTCPMsgFromSocket` when `poll` reports at a time
unfoldable pub process_polled : Env → ℕ × Polled → D (Unit {0})
process_polled env (time, readable) d = receive_message env (record d { now = time })
process_polled env (time, silent) d = ret tt (record d { now = time })
process_polled env (time, Polled.failed) d = thrown (record d { now = time })

abbrev next_poll : Env → List (ℕ × Polled) → D (Unit {0})
next_poll env [] d = Out.blocked d
next_poll env (p ∷ ps) d = process_polled env p (record d { polls = ps })

unfoldable process_tcp_msg_from_socket : Env → D (Unit {0})
unfolding process_polled
process_tcp_msg_from_socket env d = next_poll env d.polls d
