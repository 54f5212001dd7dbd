-- ===== src/Bglib/Indices.antt =====
-- The indices of `enum ble_msg_idx` in BLEGatewayClient/cmd_def.h that the client names.
use io_tblegateway.Common.{ℕ}

abbrev pub ble_cmd_system_get_info_idx : ℕ
ble_cmd_system_get_info_idx = 8

abbrev pub ble_cmd_gap_end_procedure_idx : ℕ
ble_cmd_gap_end_procedure_idx = 66

abbrev pub ble_cmd_system_get_connections_idx : ℕ
ble_cmd_system_get_connections_idx = 6

abbrev pub ble_cmd_gap_set_scan_parameters_idx : ℕ
ble_cmd_gap_set_scan_parameters_idx = 69

abbrev pub ble_cmd_gap_discover_idx : ℕ
ble_cmd_gap_discover_idx = 64

abbrev pub ble_cmd_gap_connect_direct_idx : ℕ
ble_cmd_gap_connect_direct_idx = 65

abbrev pub ble_cmd_connection_get_status_idx : ℕ
ble_cmd_connection_get_status_idx = 40

abbrev pub ble_cmd_connection_disconnect_idx : ℕ
ble_cmd_connection_disconnect_idx = 33

abbrev pub ble_cmd_connection_update_idx : ℕ
ble_cmd_connection_update_idx = 35

abbrev pub ble_cmd_attclient_read_by_group_type_idx : ℕ
ble_cmd_attclient_read_by_group_type_idx = 43

abbrev pub ble_cmd_attclient_read_by_type_idx : ℕ
ble_cmd_attclient_read_by_type_idx = 44

abbrev pub ble_cmd_attclient_find_information_idx : ℕ
ble_cmd_attclient_find_information_idx = 45

abbrev pub ble_cmd_attclient_read_by_handle_idx : ℕ
ble_cmd_attclient_read_by_handle_idx = 46

abbrev pub ble_cmd_attclient_attribute_write_idx : ℕ
ble_cmd_attclient_attribute_write_idx = 47

abbrev pub ble_rsp_system_get_info_idx : ℕ
ble_rsp_system_get_info_idx = 113

abbrev pub ble_rsp_gap_end_procedure_idx : ℕ
ble_rsp_gap_end_procedure_idx = 171

abbrev pub ble_rsp_system_get_connections_idx : ℕ
ble_rsp_system_get_connections_idx = 111

abbrev pub ble_rsp_gap_set_scan_parameters_idx : ℕ
ble_rsp_gap_set_scan_parameters_idx = 174

abbrev pub ble_rsp_gap_discover_idx : ℕ
ble_rsp_gap_discover_idx = 169

abbrev pub ble_rsp_gap_connect_direct_idx : ℕ
ble_rsp_gap_connect_direct_idx = 170

abbrev pub ble_rsp_connection_get_status_idx : ℕ
ble_rsp_connection_get_status_idx = 145

abbrev pub ble_rsp_connection_disconnect_idx : ℕ
ble_rsp_connection_disconnect_idx = 138

abbrev pub ble_rsp_connection_update_idx : ℕ
ble_rsp_connection_update_idx = 140

abbrev pub ble_rsp_attclient_read_by_group_type_idx : ℕ
ble_rsp_attclient_read_by_group_type_idx = 148

abbrev pub ble_rsp_attclient_read_by_type_idx : ℕ
ble_rsp_attclient_read_by_type_idx = 149

abbrev pub ble_rsp_attclient_find_information_idx : ℕ
ble_rsp_attclient_find_information_idx = 150

abbrev pub ble_rsp_attclient_read_by_handle_idx : ℕ
ble_rsp_attclient_read_by_handle_idx = 151

abbrev pub ble_rsp_attclient_attribute_write_idx : ℕ
ble_rsp_attclient_attribute_write_idx = 152

abbrev pub ble_evt_connection_status_idx : ℕ
ble_evt_connection_status_idx = 221

abbrev pub ble_evt_connection_disconnected_idx : ℕ
ble_evt_connection_disconnected_idx = 225

abbrev pub ble_evt_attclient_procedure_completed_idx : ℕ
ble_evt_attclient_procedure_completed_idx = 227

abbrev pub ble_evt_attclient_group_found_idx : ℕ
ble_evt_attclient_group_found_idx = 228

abbrev pub ble_evt_attclient_find_information_found_idx : ℕ
ble_evt_attclient_find_information_found_idx = 230

abbrev pub ble_evt_attclient_attribute_value_idx : ℕ
ble_evt_attclient_attribute_value_idx = 231

abbrev pub ble_evt_gap_scan_response_idx : ℕ
ble_evt_gap_scan_response_idx = 238
