-- ===== src/Client/Abort/Callback.antt =====
-- The handlers of the message table and `abort_cmd`.
use io_tblegateway.Common.{Bytes}
use io_tblegateway.Client.Process.{Env}
use io_tblegateway.Client.Callbacks.{callback}
use io_tblegateway.Client.Abort.{Keeps, Keeps-pure}
use io_tblegateway.Client.Abort.Callbacks.{
  Keeps-ble_rsp_gap_set_scan_parameters, Keeps-ble_rsp_system_get_connections,
  Keeps-ble_rsp_system_get_info, Keeps-ble_rsp_connection_disconnect,
  Keeps-ble_rsp_connection_update, Keeps-ble_rsp_connection_get_status,
  Keeps-ble_rsp_attclient_read_by_group_type, Keeps-ble_rsp_attclient_read_by_type,
  Keeps-ble_rsp_attclient_find_information, Keeps-ble_rsp_attclient_read_by_handle,
  Keeps-ble_rsp_attclient_attribute_write, Keeps-ble_rsp_gap_discover,
  Keeps-ble_rsp_gap_connect_direct, Keeps-ble_rsp_gap_end_procedure,
  Keeps-ble_evt_connection_status, Keeps-ble_evt_connection_disconnected,
  Keeps-ble_evt_attclient_procedure_completed, Keeps-ble_evt_attclient_group_found,
  Keeps-ble_evt_attclient_find_information_found, Keeps-ble_evt_attclient_attribute_value,
  Keeps-ble_evt_gap_scan_response,
}
use io_tblegateway.Bglib.Handlers.{
  Handler, ble_rsp_gap_set_scan_parameters, ble_rsp_system_get_connections, ble_rsp_system_get_info,
  ble_rsp_connection_disconnect, ble_rsp_connection_update, ble_rsp_connection_get_status,
  ble_rsp_attclient_read_by_group_type, ble_rsp_attclient_read_by_type,
  ble_rsp_attclient_find_information, ble_rsp_attclient_read_by_handle,
  ble_rsp_attclient_attribute_write, ble_rsp_gap_discover, ble_rsp_gap_connect_direct,
  ble_rsp_gap_end_procedure, ble_evt_connection_status, ble_evt_connection_disconnected,
  ble_evt_attclient_procedure_completed, ble_evt_attclient_group_found,
  ble_evt_attclient_find_information_found, ble_evt_attclient_attribute_value,
  ble_evt_gap_scan_response,
}

pub Keeps-callback : (env : Env) (h : Handler) (msg : Bytes) → Keeps (callback env h msg)
unfolding callback
Keeps-callback env ble_rsp_gap_set_scan_parameters msg =
    Keeps-ble_rsp_gap_set_scan_parameters env msg
Keeps-callback env ble_rsp_system_get_connections msg = Keeps-ble_rsp_system_get_connections env msg
Keeps-callback env ble_rsp_system_get_info msg = Keeps-ble_rsp_system_get_info env msg
Keeps-callback env ble_rsp_connection_disconnect msg = Keeps-ble_rsp_connection_disconnect env msg
Keeps-callback env ble_rsp_connection_update msg = Keeps-ble_rsp_connection_update env msg
Keeps-callback env ble_rsp_connection_get_status msg = Keeps-ble_rsp_connection_get_status env msg
Keeps-callback env ble_rsp_attclient_read_by_group_type msg =
    Keeps-ble_rsp_attclient_read_by_group_type env msg
Keeps-callback env ble_rsp_attclient_read_by_type msg = Keeps-ble_rsp_attclient_read_by_type env msg
Keeps-callback env ble_rsp_attclient_find_information msg =
    Keeps-ble_rsp_attclient_find_information env msg
Keeps-callback env ble_rsp_attclient_read_by_handle msg =
    Keeps-ble_rsp_attclient_read_by_handle env msg
Keeps-callback env ble_rsp_attclient_attribute_write msg =
    Keeps-ble_rsp_attclient_attribute_write env msg
Keeps-callback env ble_rsp_gap_discover msg = Keeps-ble_rsp_gap_discover env msg
Keeps-callback env ble_rsp_gap_connect_direct msg = Keeps-ble_rsp_gap_connect_direct env msg
Keeps-callback env ble_rsp_gap_end_procedure msg = Keeps-ble_rsp_gap_end_procedure env msg
Keeps-callback env ble_evt_connection_status msg = Keeps-ble_evt_connection_status env msg
Keeps-callback env ble_evt_connection_disconnected msg =
    Keeps-ble_evt_connection_disconnected env msg
Keeps-callback env ble_evt_attclient_procedure_completed msg =
    Keeps-ble_evt_attclient_procedure_completed env msg
Keeps-callback env ble_evt_attclient_group_found msg = Keeps-ble_evt_attclient_group_found env msg
Keeps-callback env ble_evt_attclient_find_information_found msg =
    Keeps-ble_evt_attclient_find_information_found env msg
Keeps-callback env ble_evt_attclient_attribute_value msg =
    Keeps-ble_evt_attclient_attribute_value env msg
Keeps-callback env ble_evt_gap_scan_response msg = Keeps-ble_evt_gap_scan_response env msg
Keeps-callback env _ msg = Keeps-pure
