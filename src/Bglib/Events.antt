-- ===== src/Bglib/Events.antt =====
-- The events of the message table `apis` of BLEGatewayClient/cmd_def.c (lines 222 to 256), row by row.
use io_tblegateway.Common.{ℕ, bit_or, List, [], ◌∷◌, some}
use io_tblegateway.Bglib.Handlers.{
  Handler, ble_evt_system_boot, ble_evt_system_debug, ble_evt_system_endpoint_watermark_rx,
  ble_evt_system_endpoint_watermark_tx, ble_evt_system_script_failure,
  ble_evt_system_no_license_key, ble_evt_system_protocol_error, ble_evt_flash_ps_key,
  ble_evt_attributes_value, ble_evt_attributes_user_read_request, ble_evt_attributes_status,
  ble_evt_connection_status, ble_evt_connection_version_ind, ble_evt_connection_feature_ind,
  ble_evt_connection_raw_rx, ble_evt_connection_disconnected, ble_evt_attclient_indicated,
  ble_evt_attclient_procedure_completed, ble_evt_attclient_group_found,
  ble_evt_attclient_attribute_found, ble_evt_attclient_find_information_found,
  ble_evt_attclient_attribute_value, ble_evt_attclient_read_multiple_response, ble_evt_sm_smp_data,
  ble_evt_sm_bonding_fail, ble_evt_sm_passkey_display, ble_evt_sm_passkey_request,
  ble_evt_sm_bond_status, ble_evt_gap_scan_response, ble_evt_gap_mode_changed,
  ble_evt_hardware_io_port_status, ble_evt_hardware_soft_timer, ble_evt_hardware_adc_result,
  ble_evt_hardware_analog_comparator_status, ble_evt_dfu_boot,
}
use io_tblegateway.Bglib.Types.{
  BleMsg, ble_msg_type_evt, ble_dev_type_ble, cls_system, cls_flash, cls_attributes, cls_connection,
  cls_attclient, cls_sm, cls_gap, cls_hardware, cls_dfu,
}

-- lolen, class, command id, parameter nibbles, callback.
abbrev row : ℕ → ℕ → ℕ → ℕ → Handler → BleMsg
row lolen cls command params handler = record {
  hdr = record {
    type_hilen = bit_or ble_dev_type_ble ble_msg_type_evt;
    lolen = lolen;
    cls = cls;
    command = command;
  };
  params = params;
  handler = some handler;
}

unfoldable pub apis_evt : List BleMsg
apis_evt =
    row 0xc cls_system 0 0x2244444 ble_evt_system_boot
    ∷ row 0x1 cls_system 1 0x8 ble_evt_system_debug
    ∷ row 0x2 cls_system 2 0x22 ble_evt_system_endpoint_watermark_rx
    ∷ row 0x2 cls_system 3 0x22 ble_evt_system_endpoint_watermark_tx
    ∷ row 0x4 cls_system 4 0x44 ble_evt_system_script_failure
    ∷ row 0x0 cls_system 5 0x0 ble_evt_system_no_license_key
    ∷ row 0x2 cls_system 6 0x4 ble_evt_system_protocol_error
    ∷ row 0x3 cls_flash 0 0x84 ble_evt_flash_ps_key
    ∷ row 0x7 cls_attributes 0 0x84422 ble_evt_attributes_value
    ∷ row 0x6 cls_attributes 1 0x2442 ble_evt_attributes_user_read_request
    ∷ row 0x3 cls_attributes 2 0x24 ble_evt_attributes_status
    ∷ row 0x10 cls_connection 0 0x24442a22 ble_evt_connection_status
    ∷ row 0x6 cls_connection 1 0x4422 ble_evt_connection_version_ind
    ∷ row 0x2 cls_connection 2 0x82 ble_evt_connection_feature_ind
    ∷ row 0x2 cls_connection 3 0x82 ble_evt_connection_raw_rx
    ∷ row 0x3 cls_connection 4 0x42 ble_evt_connection_disconnected
    ∷ row 0x3 cls_attclient 0 0x42 ble_evt_attclient_indicated
    ∷ row 0x5 cls_attclient 1 0x442 ble_evt_attclient_procedure_completed
    ∷ row 0x6 cls_attclient 2 0x8442 ble_evt_attclient_group_found
    ∷ row 0x7 cls_attclient 3 0x82442 ble_evt_attclient_attribute_found
    ∷ row 0x4 cls_attclient 4 0x842 ble_evt_attclient_find_information_found
    ∷ row 0x5 cls_attclient 5 0x8242 ble_evt_attclient_attribute_value
    ∷ row 0x2 cls_attclient 6 0x82 ble_evt_attclient_read_multiple_response
    ∷ row 0x3 cls_sm 0 0x822 ble_evt_sm_smp_data
    ∷ row 0x3 cls_sm 1 0x42 ble_evt_sm_bonding_fail
    ∷ row 0x5 cls_sm 2 0x62 ble_evt_sm_passkey_display
    ∷ row 0x1 cls_sm 3 0x2 ble_evt_sm_passkey_request
    ∷ row 0x4 cls_sm 4 0x2222 ble_evt_sm_bond_status
    ∷ row 0xb cls_gap 0 0x822a23 ble_evt_gap_scan_response
    ∷ row 0x2 cls_gap 1 0x22 ble_evt_gap_mode_changed
    ∷ row 0x7 cls_hardware 0 0x2226 ble_evt_hardware_io_port_status
    ∷ row 0x1 cls_hardware 1 0x2 ble_evt_hardware_soft_timer
    ∷ row 0x3 cls_hardware 2 0x52 ble_evt_hardware_adc_result
    ∷ row 0x5 cls_hardware 3 0x26 ble_evt_hardware_analog_comparator_status
    ∷ row 0x4 cls_dfu 0 0x6 ble_evt_dfu_boot
    ∷ []
