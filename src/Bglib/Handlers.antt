-- ===== src/Bglib/Handlers.antt =====
-- The callbacks that the message table of BLEGatewayClient/cmd_def.c names; their bodies are
-- in BLEGatewayClient/response_callbacks.c, and `ble_default` is on its line 10.
pub data Handler : Type 0 where
  ble_default : Handler
  ble_rsp_system_reset : Handler
  ble_rsp_system_hello : Handler
  ble_rsp_system_address_get : Handler
  ble_rsp_system_reg_write : Handler
  ble_rsp_system_reg_read : Handler
  ble_rsp_system_get_counters : Handler
  ble_rsp_system_get_connections : Handler
  ble_rsp_system_read_memory : Handler
  ble_rsp_system_get_info : Handler
  ble_rsp_system_endpoint_tx : Handler
  ble_rsp_system_whitelist_append : Handler
  ble_rsp_system_whitelist_remove : Handler
  ble_rsp_system_whitelist_clear : Handler
  ble_rsp_system_endpoint_rx : Handler
  ble_rsp_system_endpoint_set_watermarks : Handler
  ble_rsp_system_aes_setkey : Handler
  ble_rsp_system_aes_encrypt : Handler
  ble_rsp_system_aes_decrypt : Handler
  ble_rsp_flash_ps_defrag : Handler
  ble_rsp_flash_ps_dump : Handler
  ble_rsp_flash_ps_erase_all : Handler
  ble_rsp_flash_ps_save : Handler
  ble_rsp_flash_ps_load : Handler
  ble_rsp_flash_ps_erase : Handler
  ble_rsp_flash_erase_page : Handler
  ble_rsp_flash_write_data : Handler
  ble_rsp_flash_read_data : Handler
  ble_rsp_attributes_write : Handler
  ble_rsp_attributes_read : Handler
  ble_rsp_attributes_read_type : Handler
  ble_rsp_attributes_user_read_response : Handler
  ble_rsp_attributes_user_write_response : Handler
  ble_rsp_attributes_send : Handler
  ble_rsp_connection_disconnect : Handler
  ble_rsp_connection_get_rssi : Handler
  ble_rsp_connection_update : Handler
  ble_rsp_connection_version_update : Handler
  ble_rsp_connection_channel_map_get : Handler
  ble_rsp_connection_channel_map_set : Handler
  ble_rsp_connection_features_get : Handler
  ble_rsp_connection_get_status : Handler
  ble_rsp_connection_raw_tx : Handler
  ble_rsp_attclient_find_by_type_value : Handler
  ble_rsp_attclient_read_by_group_type : Handler
  ble_rsp_attclient_read_by_type : Handler
  ble_rsp_attclient_find_information : Handler
  ble_rsp_attclient_read_by_handle : Handler
  ble_rsp_attclient_attribute_write : Handler
  ble_rsp_attclient_write_command : Handler
  ble_rsp_attclient_indicate_confirm : Handler
  ble_rsp_attclient_read_long : Handler
  ble_rsp_attclient_prepare_write : Handler
  ble_rsp_attclient_execute_write : Handler
  ble_rsp_attclient_read_multiple : Handler
  ble_rsp_sm_encrypt_start : Handler
  ble_rsp_sm_set_bondable_mode : Handler
  ble_rsp_sm_delete_bonding : Handler
  ble_rsp_sm_set_parameters : Handler
  ble_rsp_sm_passkey_entry : Handler
  ble_rsp_sm_get_bonds : Handler
  ble_rsp_sm_set_oob_data : Handler
  ble_rsp_sm_whitelist_bonds : Handler
  ble_rsp_gap_set_privacy_flags : Handler
  ble_rsp_gap_set_mode : Handler
  ble_rsp_gap_discover : Handler
  ble_rsp_gap_connect_direct : Handler
  ble_rsp_gap_end_procedure : Handler
  ble_rsp_gap_connect_selective : Handler
  ble_rsp_gap_set_filtering : Handler
  ble_rsp_gap_set_scan_parameters : Handler
  ble_rsp_gap_set_adv_parameters : Handler
  ble_rsp_gap_set_adv_data : Handler
  ble_rsp_gap_set_directed_connectable_mode : Handler
  ble_rsp_hardware_io_port_config_irq : Handler
  ble_rsp_hardware_set_soft_timer : Handler
  ble_rsp_hardware_adc_read : Handler
  ble_rsp_hardware_io_port_config_direction : Handler
  ble_rsp_hardware_io_port_config_function : Handler
  ble_rsp_hardware_io_port_config_pull : Handler
  ble_rsp_hardware_io_port_write : Handler
  ble_rsp_hardware_io_port_read : Handler
  ble_rsp_hardware_spi_config : Handler
  ble_rsp_hardware_spi_transfer : Handler
  ble_rsp_hardware_i2c_read : Handler
  ble_rsp_hardware_i2c_write : Handler
  ble_rsp_hardware_set_txpower : Handler
  ble_rsp_hardware_timer_comparator : Handler
  ble_rsp_hardware_io_port_irq_enable : Handler
  ble_rsp_hardware_io_port_irq_direction : Handler
  ble_rsp_hardware_analog_comparator_enable : Handler
  ble_rsp_hardware_analog_comparator_read : Handler
  ble_rsp_hardware_analog_comparator_config_irq : Handler
  ble_rsp_hardware_set_rxgain : Handler
  ble_rsp_hardware_usb_enable : Handler
  ble_rsp_test_phy_tx : Handler
  ble_rsp_test_phy_rx : Handler
  ble_rsp_test_phy_end : Handler
  ble_rsp_test_phy_reset : Handler
  ble_rsp_test_get_channel_map : Handler
  ble_rsp_test_debug : Handler
  ble_rsp_test_channel_mode : Handler
  ble_rsp_dfu_reset : Handler
  ble_rsp_dfu_flash_set_address : Handler
  ble_rsp_dfu_flash_upload : Handler
  ble_rsp_dfu_flash_upload_finish : Handler
  ble_evt_system_boot : Handler
  ble_evt_system_debug : Handler
  ble_evt_system_endpoint_watermark_rx : Handler
  ble_evt_system_endpoint_watermark_tx : Handler
  ble_evt_system_script_failure : Handler
  ble_evt_system_no_license_key : Handler
  ble_evt_system_protocol_error : Handler
  ble_evt_flash_ps_key : Handler
  ble_evt_attributes_value : Handler
  ble_evt_attributes_user_read_request : Handler
  ble_evt_attributes_status : Handler
  ble_evt_connection_status : Handler
  ble_evt_connection_version_ind : Handler
  ble_evt_connection_feature_ind : Handler
  ble_evt_connection_raw_rx : Handler
  ble_evt_connection_disconnected : Handler
  ble_evt_attclient_indicated : Handler
  ble_evt_attclient_procedure_completed : Handler
  ble_evt_attclient_group_found : Handler
  ble_evt_attclient_attribute_found : Handler
  ble_evt_attclient_find_information_found : Handler
  ble_evt_attclient_attribute_value : Handler
  ble_evt_attclient_read_multiple_response : Handler
  ble_evt_sm_smp_data : Handler
  ble_evt_sm_bonding_fail : Handler
  ble_evt_sm_passkey_display : Handler
  ble_evt_sm_passkey_request : Handler
  ble_evt_sm_bond_status : Handler
  ble_evt_gap_scan_response : Handler
  ble_evt_gap_mode_changed : Handler
  ble_evt_hardware_io_port_status : Handler
  ble_evt_hardware_soft_timer : Handler
  ble_evt_hardware_adc_result : Handler
  ble_evt_hardware_analog_comparator_status : Handler
  ble_evt_dfu_boot : Handler
