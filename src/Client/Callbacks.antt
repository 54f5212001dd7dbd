-- ===== src/Client/Callbacks.antt =====
-- The callbacks of BLEGatewayClient/response_callbacks.c, by the handler in the message table.
pub mod Access
pub mod Responses
pub mod Events
use io_tblegateway.Common.{Bytes}
use io_tblegateway.Bglib.Handlers.{
  Handler, ble_rsp_gap_set_scan_parameters, ble_rsp_system_get_connections, ble_rsp_system_get_info,
  ble_rsp_connection_disconnect, ble_rsp_connection_update, ble_rsp_connection_get_status,
  ble_rsp_attclient_read_by_group_type, ble_rsp_attclient_read_by_type,
  ble_rsp_attclient_find_information, ble_rsp_attclient_read_by_handle,
  ble_rsp_attclient_attribute_write, ble_rsp_gap_discover, ble_rsp_gap_connect_direct,
  ble_rsp_gap_end_procedure, ble_evt_connection_status, ble_evt_connection_disconnected,
  ble_evt_attclient_procedure_completed, ble_evt_attclient_group_found,
  ble_evt_attclient_find_information_found, ble_evt_attclient_attribute_value,
  ble_evt_gap_scan_response,
}
use io_tblegateway.Client.Process.{M, pure, Env}
use Responses
use Events

-- All other callbacks have empty bodies.
unfoldable pub callback : Env → Handler → Bytes → M (Unit {0})
unfolding Responses.ble_rsp_gap_set_scan_parameters Responses.ble_rsp_system_get_connections
    Responses.ble_rsp_system_get_info Responses.ble_rsp_connection_disconnect
    Responses.ble_rsp_connection_update Responses.ble_rsp_connection_get_status
    Responses.ble_rsp_attclient_read_by_group_type Responses.ble_rsp_attclient_read_by_type
    Responses.ble_rsp_attclient_find_information Responses.ble_rsp_attclient_read_by_handle
    Responses.ble_rsp_attclient_attribute_write Responses.ble_rsp_gap_discover
    Responses.ble_rsp_gap_connect_direct Responses.ble_rsp_gap_end_procedure
    Events.ble_evt_connection_status Events.ble_evt_connection_disconnected
    Events.ble_evt_attclient_procedure_completed Events.ble_evt_attclient_group_found
    Events.ble_evt_attclient_find_information_found Events.ble_evt_attclient_attribute_value
    Events.ble_evt_gap_scan_response
callback env ble_rsp_gap_set_scan_parameters msg = Responses.ble_rsp_gap_set_scan_parameters env msg
callback env ble_rsp_system_get_connections msg = Responses.ble_rsp_system_get_connections env msg
callback env ble_rsp_system_get_info msg = Responses.ble_rsp_system_get_info env msg
callback env ble_rsp_connection_disconnect msg = Responses.ble_rsp_connection_disconnect env msg
callback env ble_rsp_connection_update msg = Responses.ble_rsp_connection_update env msg
callback env ble_rsp_connection_get_status msg = Responses.ble_rsp_connection_get_status env msg
callback env ble_rsp_attclient_read_by_group_type msg =
    Responses.ble_rsp_attclient_read_by_group_type env msg
callback env ble_rsp_attclient_read_by_type msg = Responses.ble_rsp_attclient_read_by_type env msg
callback env ble_rsp_attclient_find_information msg =
    Responses.ble_rsp_attclient_find_information env msg
callback env ble_rsp_attclient_read_by_handle msg =
    Responses.ble_rsp_attclient_read_by_handle env msg
callback env ble_rsp_attclient_attribute_write msg =
    Responses.ble_rsp_attclient_attribute_write env msg
callback env ble_rsp_gap_discover msg = Responses.ble_rsp_gap_discover env msg
callback env ble_rsp_gap_connect_direct msg = Responses.ble_rsp_gap_connect_direct env msg
callback env ble_rsp_gap_end_procedure msg = Responses.ble_rsp_gap_end_procedure env msg
callback env ble_evt_connection_status msg = Events.ble_evt_connection_status env msg
callback env ble_evt_connection_disconnected msg = Events.ble_evt_connection_disconnected env msg
callback env ble_evt_attclient_procedure_completed msg =
    Events.ble_evt_attclient_procedure_completed env msg
callback env ble_evt_attclient_group_found msg = Events.ble_evt_attclient_group_found env msg
callback env ble_evt_attclient_find_information_found msg =
    Events.ble_evt_attclient_find_information_found env msg
callback env ble_evt_attclient_attribute_value msg =
    Events.ble_evt_attclient_attribute_value env msg
callback env ble_evt_gap_scan_response msg = Events.ble_evt_gap_scan_response env msg
callback env _ msg = pure tt
