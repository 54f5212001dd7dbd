-- ===== src/Bglib/Responses.antt =====
-- The responses of the message table `apis` of BLEGatewayClient/cmd_def.c (lines 117 to 221), row by row.
use io_tblegateway.Common.{ℕ, bit_or, List, [], ◌∷◌, some}
use io_tblegateway.Bglib.Handlers.{
  Handler, ble_rsp_system_reset, ble_rsp_system_hello, ble_rsp_system_address_get,
  ble_rsp_system_reg_write, ble_rsp_system_reg_read, ble_rsp_system_get_counters,
  ble_rsp_system_get_connections, ble_rsp_system_read_memory, ble_rsp_system_get_info,
  ble_rsp_system_endpoint_tx, ble_rsp_system_whitelist_append, ble_rsp_system_whitelist_remove,
  ble_rsp_system_whitelist_clear, ble_rsp_system_endpoint_rx,
  ble_rsp_system_endpoint_set_watermarks, ble_rsp_system_aes_setkey, ble_rsp_system_aes_encrypt,
  ble_rsp_system_aes_decrypt, ble_rsp_flash_ps_defrag, ble_rsp_flash_ps_dump,
  ble_rsp_flash_ps_erase_all, ble_rsp_flash_ps_save, ble_rsp_flash_ps_load, ble_rsp_flash_ps_erase,
  ble_rsp_flash_erase_page, ble_rsp_flash_write_data, ble_rsp_flash_read_data,
  ble_rsp_attributes_write, ble_rsp_attributes_read, ble_rsp_attributes_read_type,
  ble_rsp_attributes_user_read_response, ble_rsp_attributes_user_write_response,
  ble_rsp_attributes_send, ble_rsp_connection_disconnect, ble_rsp_connection_get_rssi,
  ble_rsp_connection_update, ble_rsp_connection_version_update, ble_rsp_connection_channel_map_get,
  ble_rsp_connection_channel_map_set, ble_rsp_connection_features_get,
  ble_rsp_connection_get_status, ble_rsp_connection_raw_tx, ble_rsp_attclient_find_by_type_value,
  ble_rsp_attclient_read_by_group_type, ble_rsp_attclient_read_by_type,
  ble_rsp_attclient_find_information, ble_rsp_attclient_read_by_handle,
  ble_rsp_attclient_attribute_write, ble_rsp_attclient_write_command,
  ble_rsp_attclient_indicate_confirm, ble_rsp_attclient_read_long, ble_rsp_attclient_prepare_write,
  ble_rsp_attclient_execute_write, ble_rsp_attclient_read_multiple, ble_rsp_sm_encrypt_start,
  ble_rsp_sm_set_bondable_mode, ble_rsp_sm_delete_bonding, ble_rsp_sm_set_parameters,
  ble_rsp_sm_passkey_entry, ble_rsp_sm_get_bonds, ble_rsp_sm_set_oob_data,
  ble_rsp_sm_whitelist_bonds, ble_rsp_gap_set_privacy_flags, ble_rsp_gap_set_mode,
  ble_rsp_gap_discover, ble_rsp_gap_connect_direct, ble_rsp_gap_end_procedure,
  ble_rsp_gap_connect_selective, ble_rsp_gap_set_filtering, ble_rsp_gap_set_scan_parameters,
  ble_rsp_gap_set_adv_parameters, ble_rsp_gap_set_adv_data,
  ble_rsp_gap_set_directed_connectable_mode, ble_rsp_hardware_io_port_config_irq,
  ble_rsp_hardware_set_soft_timer, ble_rsp_hardware_adc_read,
  ble_rsp_hardware_io_port_config_direction, ble_rsp_hardware_io_port_config_function,
  ble_rsp_hardware_io_port_config_pull, ble_rsp_hardware_io_port_write,
  ble_rsp_hardware_io_port_read, ble_rsp_hardware_spi_config, ble_rsp_hardware_spi_transfer,
  ble_rsp_hardware_i2c_read, ble_rsp_hardware_i2c_write, ble_rsp_hardware_set_txpower,
  ble_rsp_hardware_timer_comparator, ble_rsp_hardware_io_port_irq_enable,
  ble_rsp_hardware_io_port_irq_direction, ble_rsp_hardware_analog_comparator_enable,
  ble_rsp_hardware_analog_comparator_read, ble_rsp_hardware_analog_comparator_config_irq,
  ble_rsp_hardware_set_rxgain, ble_rsp_hardware_usb_enable, ble_rsp_test_phy_tx,
  ble_rsp_test_phy_rx, ble_rsp_test_phy_end, ble_rsp_test_phy_reset, ble_rsp_test_get_channel_map,
  ble_rsp_test_debug, ble_rsp_test_channel_mode, ble_rsp_dfu_reset, ble_rsp_dfu_flash_set_address,
  ble_rsp_dfu_flash_upload, ble_rsp_dfu_flash_upload_finish,
}
use io_tblegateway.Bglib.Types.{
  BleMsg, ble_msg_type_rsp, ble_dev_type_ble, cls_system, cls_flash, cls_attributes, cls_connection,
  cls_attclient, cls_sm, cls_gap, cls_hardware, cls_test, cls_dfu,
}

-- lolen, class, command id, parameter nibbles, callback.
abbrev row : ℕ → ℕ → ℕ → ℕ → Handler → BleMsg
row lolen cls command params handler = record {
  hdr = record {
    type_hilen = bit_or ble_dev_type_ble ble_msg_type_rsp;
    lolen = lolen;
    cls = cls;
    command = command;
  };
  params = params;
  handler = some handler;
}

unfoldable pub apis_rsp : List BleMsg
apis_rsp =
    row 0x0 cls_system 0 0x0 ble_rsp_system_reset
    ∷ row 0x0 cls_system 1 0x0 ble_rsp_system_hello
    ∷ row 0x6 cls_system 2 0xa ble_rsp_system_address_get
    ∷ row 0x2 cls_system 3 0x4 ble_rsp_system_reg_write
    ∷ row 0x3 cls_system 4 0x24 ble_rsp_system_reg_read
    ∷ row 0x5 cls_system 5 0x22222 ble_rsp_system_get_counters
    ∷ row 0x1 cls_system 6 0x2 ble_rsp_system_get_connections
    ∷ row 0x5 cls_system 7 0x86 ble_rsp_system_read_memory
    ∷ row 0xc cls_system 8 0x2244444 ble_rsp_system_get_info
    ∷ row 0x2 cls_system 9 0x4 ble_rsp_system_endpoint_tx
    ∷ row 0x2 cls_system 10 0x4 ble_rsp_system_whitelist_append
    ∷ row 0x2 cls_system 11 0x4 ble_rsp_system_whitelist_remove
    ∷ row 0x0 cls_system 12 0x0 ble_rsp_system_whitelist_clear
    ∷ row 0x3 cls_system 13 0x84 ble_rsp_system_endpoint_rx
    ∷ row 0x2 cls_system 14 0x4 ble_rsp_system_endpoint_set_watermarks
    ∷ row 0x0 cls_system 15 0x0 ble_rsp_system_aes_setkey
    ∷ row 0x1 cls_system 16 0x8 ble_rsp_system_aes_encrypt
    ∷ row 0x1 cls_system 17 0x8 ble_rsp_system_aes_decrypt
    ∷ row 0x0 cls_flash 0 0x0 ble_rsp_flash_ps_defrag
    ∷ row 0x0 cls_flash 1 0x0 ble_rsp_flash_ps_dump
    ∷ row 0x0 cls_flash 2 0x0 ble_rsp_flash_ps_erase_all
    ∷ row 0x2 cls_flash 3 0x4 ble_rsp_flash_ps_save
    ∷ row 0x3 cls_flash 4 0x84 ble_rsp_flash_ps_load
    ∷ row 0x0 cls_flash 5 0x0 ble_rsp_flash_ps_erase
    ∷ row 0x2 cls_flash 6 0x4 ble_rsp_flash_erase_page
    ∷ row 0x2 cls_flash 7 0x4 ble_rsp_flash_write_data
    ∷ row 0x1 cls_flash 8 0x8 ble_rsp_flash_read_data
    ∷ row 0x2 cls_attributes 0 0x4 ble_rsp_attributes_write
    ∷ row 0x7 cls_attributes 1 0x8444 ble_rsp_attributes_read
    ∷ row 0x5 cls_attributes 2 0x844 ble_rsp_attributes_read_type
    ∷ row 0x0 cls_attributes 3 0x0 ble_rsp_attributes_user_read_response
    ∷ row 0x0 cls_attributes 4 0x0 ble_rsp_attributes_user_write_response
    ∷ row 0x2 cls_attributes 5 0x4 ble_rsp_attributes_send
    ∷ row 0x3 cls_connection 0 0x42 ble_rsp_connection_disconnect
    ∷ row 0x2 cls_connection 1 0x32 ble_rsp_connection_get_rssi
    ∷ row 0x3 cls_connection 2 0x42 ble_rsp_connection_update
    ∷ row 0x3 cls_connection 3 0x42 ble_rsp_connection_version_update
    ∷ row 0x2 cls_connection 4 0x82 ble_rsp_connection_channel_map_get
    ∷ row 0x3 cls_connection 5 0x42 ble_rsp_connection_channel_map_set
    ∷ row 0x3 cls_connection 6 0x42 ble_rsp_connection_features_get
    ∷ row 0x1 cls_connection 7 0x2 ble_rsp_connection_get_status
    ∷ row 0x1 cls_connection 8 0x2 ble_rsp_connection_raw_tx
    ∷ row 0x3 cls_attclient 0 0x42 ble_rsp_attclient_find_by_type_value
    ∷ row 0x3 cls_attclient 1 0x42 ble_rsp_attclient_read_by_group_type
    ∷ row 0x3 cls_attclient 2 0x42 ble_rsp_attclient_read_by_type
    ∷ row 0x3 cls_attclient 3 0x42 ble_rsp_attclient_find_information
    ∷ row 0x3 cls_attclient 4 0x42 ble_rsp_attclient_read_by_handle
    ∷ row 0x3 cls_attclient 5 0x42 ble_rsp_attclient_attribute_write
    ∷ row 0x3 cls_attclient 6 0x42 ble_rsp_attclient_write_command
    ∷ row 0x2 cls_attclient 7 0x4 ble_rsp_attclient_indicate_confirm
    ∷ row 0x3 cls_attclient 8 0x42 ble_rsp_attclient_read_long
    ∷ row 0x3 cls_attclient 9 0x42 ble_rsp_attclient_prepare_write
    ∷ row 0x3 cls_attclient 10 0x42 ble_rsp_attclient_execute_write
    ∷ row 0x3 cls_attclient 11 0x42 ble_rsp_attclient_read_multiple
    ∷ row 0x3 cls_sm 0 0x42 ble_rsp_sm_encrypt_start
    ∷ row 0x0 cls_sm 1 0x0 ble_rsp_sm_set_bondable_mode
    ∷ row 0x2 cls_sm 2 0x4 ble_rsp_sm_delete_bonding
    ∷ row 0x0 cls_sm 3 0x0 ble_rsp_sm_set_parameters
    ∷ row 0x2 cls_sm 4 0x4 ble_rsp_sm_passkey_entry
    ∷ row 0x1 cls_sm 5 0x2 ble_rsp_sm_get_bonds
    ∷ row 0x0 cls_sm 6 0x0 ble_rsp_sm_set_oob_data
    ∷ row 0x3 cls_sm 7 0x24 ble_rsp_sm_whitelist_bonds
    ∷ row 0x0 cls_gap 0 0x0 ble_rsp_gap_set_privacy_flags
    ∷ row 0x2 cls_gap 1 0x4 ble_rsp_gap_set_mode
    ∷ row 0x2 cls_gap 2 0x4 ble_rsp_gap_discover
    ∷ row 0x3 cls_gap 3 0x24 ble_rsp_gap_connect_direct
    ∷ row 0x2 cls_gap 4 0x4 ble_rsp_gap_end_procedure
    ∷ row 0x3 cls_gap 5 0x24 ble_rsp_gap_connect_selective
    ∷ row 0x2 cls_gap 6 0x4 ble_rsp_gap_set_filtering
    ∷ row 0x2 cls_gap 7 0x4 ble_rsp_gap_set_scan_parameters
    ∷ row 0x2 cls_gap 8 0x4 ble_rsp_gap_set_adv_parameters
    ∷ row 0x2 cls_gap 9 0x4 ble_rsp_gap_set_adv_data
    ∷ row 0x2 cls_gap 10 0x4 ble_rsp_gap_set_directed_connectable_mode
    ∷ row 0x2 cls_hardware 0 0x4 ble_rsp_hardware_io_port_config_irq
    ∷ row 0x2 cls_hardware 1 0x4 ble_rsp_hardware_set_soft_timer
    ∷ row 0x2 cls_hardware 2 0x4 ble_rsp_hardware_adc_read
    ∷ row 0x2 cls_hardware 3 0x4 ble_rsp_hardware_io_port_config_direction
    ∷ row 0x2 cls_hardware 4 0x4 ble_rsp_hardware_io_port_config_function
    ∷ row 0x2 cls_hardware 5 0x4 ble_rsp_hardware_io_port_config_pull
    ∷ row 0x2 cls_hardware 6 0x4 ble_rsp_hardware_io_port_write
    ∷ row 0x4 cls_hardware 7 0x224 ble_rsp_hardware_io_port_read
    ∷ row 0x2 cls_hardware 8 0x4 ble_rsp_hardware_spi_config
    ∷ row 0x4 cls_hardware 9 0x824 ble_rsp_hardware_spi_transfer
    ∷ row 0x3 cls_hardware 10 0x84 ble_rsp_hardware_i2c_read
    ∷ row 0x1 cls_hardware 11 0x2 ble_rsp_hardware_i2c_write
    ∷ row 0x0 cls_hardware 12 0x0 ble_rsp_hardware_set_txpower
    ∷ row 0x2 cls_hardware 13 0x4 ble_rsp_hardware_timer_comparator
    ∷ row 0x2 cls_hardware 14 0x4 ble_rsp_hardware_io_port_irq_enable
    ∷ row 0x2 cls_hardware 15 0x4 ble_rsp_hardware_io_port_irq_direction
    ∷ row 0x0 cls_hardware 16 0x0 ble_rsp_hardware_analog_comparator_enable
    ∷ row 0x3 cls_hardware 17 0x24 ble_rsp_hardware_analog_comparator_read
    ∷ row 0x2 cls_hardware 18 0x4 ble_rsp_hardware_analog_comparator_config_irq
    ∷ row 0x0 cls_hardware 19 0x0 ble_rsp_hardware_set_rxgain
    ∷ row 0x2 cls_hardware 20 0x4 ble_rsp_hardware_usb_enable
    ∷ row 0x0 cls_test 0 0x0 ble_rsp_test_phy_tx
    ∷ row 0x0 cls_test 1 0x0 ble_rsp_test_phy_rx
    ∷ row 0x2 cls_test 2 0x4 ble_rsp_test_phy_end
    ∷ row 0x0 cls_test 3 0x0 ble_rsp_test_phy_reset
    ∷ row 0x1 cls_test 4 0x8 ble_rsp_test_get_channel_map
    ∷ row 0x1 cls_test 5 0x8 ble_rsp_test_debug
    ∷ row 0x0 cls_test 6 0x0 ble_rsp_test_channel_mode
    ∷ row 0x0 cls_dfu 0 0x0 ble_rsp_dfu_reset
    ∷ row 0x2 cls_dfu 1 0x4 ble_rsp_dfu_flash_set_address
    ∷ row 0x2 cls_dfu 2 0x4 ble_rsp_dfu_flash_upload
    ∷ row 0x2 cls_dfu 3 0x4 ble_rsp_dfu_flash_upload_finish
    ∷ []
