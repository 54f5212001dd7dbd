-- ===== src/Gateway/CompletionEvents.antt =====
-- The enumeration `CompletionEvent` of BLEGatewayApplication/Headers/BLE_DRIVER.h: the events of
-- the gateway itself, one bit each.
use io_tblegateway.Common.{ℕ}

abbrev pub gatt_procedure_complete_evt : ℕ
gatt_procedure_complete_evt = 0x1

abbrev pub gap_connection_evt : ℕ
gap_connection_evt = 0x2

abbrev pub gap_connection_rsp_evt : ℕ
gap_connection_rsp_evt = 0x4

abbrev pub gap_discover_rsp_evt : ℕ
gap_discover_rsp_evt = 0x8

abbrev pub connection_update_rsp_evt : ℕ
connection_update_rsp_evt = 0x10

abbrev pub connection_update_evt : ℕ
connection_update_evt = 0x20

abbrev pub connection_disconnect_rsp_evt : ℕ
connection_disconnect_rsp_evt = 0x40

abbrev pub connection_disconnect_evt : ℕ
connection_disconnect_evt = 0x80

abbrev pub attclient_read_rsp_evt : ℕ
attclient_read_rsp_evt = 0x100

abbrev pub attclient_write_rsp_evt : ℕ
attclient_write_rsp_evt = 0x200

abbrev pub attclient_readgroup_rsp_evt : ℕ
attclient_readgroup_rsp_evt = 0x400

abbrev pub attclient_findinfo_rsp_evt : ℕ
attclient_findinfo_rsp_evt = 0x800

abbrev pub attclient_readtype_rsp_evt : ℕ
attclient_readtype_rsp_evt = 0x1000

abbrev pub gap_endprocedure_rsp_evt : ℕ
gap_endprocedure_rsp_evt = 0x2000

abbrev pub gap_set_scanparameter_rsp_evt : ℕ
gap_set_scanparameter_rsp_evt = 0x4000

abbrev pub sys_get_maxcon_rsp_evt : ℕ
sys_get_maxcon_rsp_evt = 0x8000

abbrev pub connection_get_status_rsp_evt : ℕ
connection_get_status_rsp_evt = 0x10000

abbrev pub sys_get_info_rsp_evt : ℕ
sys_get_info_rsp_evt = 0x20000

abbrev pub attclient_attribute_found_evt : ℕ
attclient_attribute_found_evt = 0x40000
