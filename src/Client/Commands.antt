-- ===== src/Client/Commands.antt =====
-- `decode_incoming_tcp_message` of BLEGatewayClient/client.c: a message of the gateway becomes a
-- command to the dongle. A value that tpl did not unpack would be read uninitialised.
pub mod Requests
pub mod Rows
use io_tblegateway.Common.{ℕ, Option, none, some, List, [], ◌∷◌, ◌==◌, if◌then◌else◌, Bytes, length}
use Prim.Native.String.{String}
use io_tblegateway.Bglib.Indices.{
  ble_cmd_system_get_info_idx, ble_cmd_gap_end_procedure_idx, ble_cmd_system_get_connections_idx,
  ble_cmd_gap_set_scan_parameters_idx, ble_cmd_gap_discover_idx, ble_cmd_gap_connect_direct_idx,
  ble_cmd_connection_get_status_idx, ble_cmd_connection_disconnect_idx,
  ble_cmd_connection_update_idx, ble_cmd_attclient_read_by_group_type_idx,
  ble_cmd_attclient_read_by_type_idx, ble_cmd_attclient_find_information_idx,
  ble_cmd_attclient_read_by_handle_idx, ble_cmd_attclient_attribute_write_idx,
}
use io_tblegateway.Bglib.Send.{Arg, int, ptr, Output, ble_send_message}
use io_tblegateway.Tpl.{Tpl, Value, v, c, s, bin}
use io_tblegateway.Client.Process.{
  Res, M, ◌>>=◌, ◌>>◌, pure, undefined, from_option, Env, minus_one,
}
use io_tblegateway.Client.Transport.{send_message_to_serial_port}

abbrev pub to_port : Output → M (Unit {0})
to_port o = send_message_to_serial_port o.header_length o.header o.data_length o.data_ptr

-- A BGLIB command, with `bglib_output` set as in `main`; the case then returns 0.
unfoldable pub ble_cmd : ℕ → List Arg → M ℕ
ble_cmd msgid args = do o ← from_option (ble_send_message msgid args); to_port o; pure 0

-- `tpl_map`, `tpl_load` and `tpl_unpack` of a message
unfoldable pub with_values : Env → String → Bytes → (List Value → M ℕ) → M ℕ
with_values env format message use_values =
    if env.tpl.maps format
    then from_option (env.tpl.unpack format message) >>= use_values
    else pure minus_one

unfoldable pub get_info : M ℕ
get_info = ble_cmd ble_cmd_system_get_info_idx []

unfoldable pub end_procedure : M ℕ
end_procedure = ble_cmd ble_cmd_gap_end_procedure_idx []

unfoldable pub get_connections : M ℕ
get_connections = ble_cmd ble_cmd_system_get_connections_idx []

unfoldable pub set_scan_parameters_call : List Value → M ℕ
set_scan_parameters_call (v i ∷ v scan_int ∷ v scan_win ∷ c active ∷ []) =
    ble_cmd ble_cmd_gap_set_scan_parameters_idx (int scan_int ∷ int scan_win ∷ int active ∷ [])
set_scan_parameters_call _ = undefined

unfoldable pub set_scan_parameters : Env → Bytes → M ℕ
unfolding set_scan_parameters_call
set_scan_parameters env message = with_values env "vvvc" message set_scan_parameters_call

unfoldable pub discover_call : List Value → M ℕ
discover_call (v i ∷ v scan_mode ∷ []) = ble_cmd ble_cmd_gap_discover_idx (int scan_mode ∷ [])
discover_call _ = undefined

unfoldable pub discover : Env → Bytes → M ℕ
unfolding discover_call
discover env message = with_values env "vv" message discover_call

unfoldable pub connect_direct_call : List Value → M ℕ
connect_direct_call (v i ∷ s mac ∷ c address_type ∷ v lo ∷ v hi ∷ v timeout ∷ v latency ∷ []) =
    ble_cmd ble_cmd_gap_connect_direct_idx
      (ptr mac ∷ int address_type ∷ int lo ∷ int hi ∷ int timeout ∷ int latency ∷ [])
connect_direct_call _ = undefined

unfoldable pub connect_direct : Env → Bytes → M ℕ
unfolding connect_direct_call
connect_direct env message = with_values env "vS(c#)cvvvv" message connect_direct_call

unfoldable pub get_status_call : List Value → M ℕ
get_status_call (v i ∷ c connection ∷ []) =
    ble_cmd ble_cmd_connection_get_status_idx (int connection ∷ [])
get_status_call _ = undefined

unfoldable pub get_status : Env → Bytes → M ℕ
unfolding get_status_call
get_status env message = with_values env "vc" message get_status_call

unfoldable pub disconnect_call : List Value → M ℕ
disconnect_call (v i ∷ c connection ∷ []) =
    ble_cmd ble_cmd_connection_disconnect_idx (int connection ∷ [])
disconnect_call _ = undefined

unfoldable pub disconnect : Env → Bytes → M ℕ
unfolding disconnect_call
disconnect env message = with_values env "vc" message disconnect_call

unfoldable pub connection_update_call : List Value → M ℕ
connection_update_call (v i ∷ c connection ∷ v lo ∷ v hi ∷ v timeout ∷ v latency ∷ []) =
    ble_cmd ble_cmd_connection_update_idx
      (int connection ∷ int lo ∷ int hi ∷ int latency ∷ int timeout ∷ [])
connection_update_call _ = undefined

unfoldable pub connection_update : Env → Bytes → M ℕ
unfolding connection_update_call
connection_update env message = with_values env "vcvvvv" message connection_update_call

unfoldable pub read_by_group_type_call : List Value → M ℕ
read_by_group_type_call (v i ∷ c connection ∷ v first ∷ v last ∷ bin uuid ∷ []) =
    ble_cmd ble_cmd_attclient_read_by_group_type_idx
      (int connection ∷ int first ∷ int last ∷ int (length uuid) ∷ ptr uuid ∷ [])
read_by_group_type_call _ = undefined

unfoldable pub read_by_group_type : Env → Bytes → M ℕ
unfolding read_by_group_type_call
read_by_group_type env message = with_values env "vcvvB" message read_by_group_type_call

unfoldable pub read_by_type_call : List Value → M ℕ
read_by_type_call (v i ∷ c connection ∷ v first ∷ v last ∷ bin uuid ∷ []) =
    ble_cmd ble_cmd_attclient_read_by_type_idx
      (int connection ∷ int first ∷ int last ∷ int (length uuid) ∷ ptr uuid ∷ [])
read_by_type_call _ = undefined

unfoldable pub read_by_type : Env → Bytes → M ℕ
unfolding read_by_type_call
read_by_type env message = with_values env "vcvvB" message read_by_type_call

unfoldable pub find_information_call : List Value → M ℕ
find_information_call (v i ∷ c connection ∷ v first ∷ v last ∷ []) =
    ble_cmd ble_cmd_attclient_find_information_idx (int connection ∷ int first ∷ int last ∷ [])
find_information_call _ = undefined

unfoldable pub find_information : Env → Bytes → M ℕ
unfolding find_information_call
find_information env message = with_values env "vcvv" message find_information_call

unfoldable pub read_by_handle_call : List Value → M ℕ
read_by_handle_call (v i ∷ c connection ∷ v attribute ∷ []) =
    ble_cmd ble_cmd_attclient_read_by_handle_idx (int connection ∷ int attribute ∷ [])
read_by_handle_call _ = undefined

unfoldable pub read_by_handle : Env → Bytes → M ℕ
unfolding read_by_handle_call
read_by_handle env message = with_values env "vcv" message read_by_handle_call

unfoldable pub attribute_write_call : List Value → M ℕ
attribute_write_call (v i ∷ c connection ∷ v attribute ∷ bin value ∷ []) =
    ble_cmd ble_cmd_attclient_attribute_write_idx
      (int connection ∷ int attribute ∷ int (length value) ∷ ptr value ∷ [])
attribute_write_call _ = undefined

unfoldable pub attribute_write : Env → Bytes → M ℕ
unfolding attribute_write_call
attribute_write env message = with_values env "vcvB" message attribute_write_call

-- the `switch`
unfoldable pub command_case : Env → ℕ → Bytes → M ℕ
unfolding get_info end_procedure get_connections set_scan_parameters discover connect_direct
    get_status disconnect connection_update read_by_group_type read_by_type find_information
    read_by_handle attribute_write
command_case env idx message =
    if idx == ble_cmd_system_get_info_idx
    then get_info
    else if idx == ble_cmd_gap_end_procedure_idx
    then end_procedure
    else if idx == ble_cmd_system_get_connections_idx
    then get_connections
    else if idx == ble_cmd_gap_set_scan_parameters_idx
    then set_scan_parameters env message
    else if idx == ble_cmd_gap_discover_idx
    then discover env message
    else if idx == ble_cmd_gap_connect_direct_idx
    then connect_direct env message
    else if idx == ble_cmd_connection_get_status_idx
    then get_status env message
    else if idx == ble_cmd_connection_disconnect_idx
    then disconnect env message
    else if idx == ble_cmd_connection_update_idx
    then connection_update env message
    else if idx == ble_cmd_attclient_read_by_group_type_idx
    then read_by_group_type env message
    else if idx == ble_cmd_attclient_read_by_type_idx
    then read_by_type env message
    else if idx == ble_cmd_attclient_find_information_idx
    then find_information env message
    else if idx == ble_cmd_attclient_read_by_handle_idx
    then read_by_handle env message
    else if idx == ble_cmd_attclient_attribute_write_idx
    then attribute_write env message
    else pure 0

unfoldable pub decode_peeked : Env → Option ℕ → Bytes → M ℕ
decode_peeked env none message = pure minus_one
decode_peeked env (some idx) message = command_case env idx message

unfoldable pub decode_incoming_tcp_message : Env → Bytes → M ℕ
unfolding decode_peeked
decode_incoming_tcp_message env message = decode_peeked env (env.tpl.peek_v message) message
