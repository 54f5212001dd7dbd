-- ===== src/Client/Callbacks/Responses.antt =====
-- The callbacks of BLEGatewayClient/response_callbacks.c that answer the gateway: responses.
-- Each reads the fields of its packed struct at their offsets.
use io_tblegateway.Common.{[], ◌∷◌, Bytes}
use io_tblegateway.Bglib.Indices.{
  ble_rsp_gap_set_scan_parameters_idx, ble_rsp_system_get_connections_idx,
  ble_rsp_system_get_info_idx, ble_rsp_connection_disconnect_idx, ble_rsp_connection_update_idx,
  ble_rsp_connection_get_status_idx, ble_rsp_attclient_read_by_group_type_idx,
  ble_rsp_attclient_read_by_type_idx, ble_rsp_attclient_find_information_idx,
  ble_rsp_attclient_read_by_handle_idx, ble_rsp_attclient_attribute_write_idx,
  ble_rsp_gap_discover_idx, ble_rsp_gap_connect_direct_idx, ble_rsp_gap_end_procedure_idx,
}
use io_tblegateway.Tpl.{v, c}
use io_tblegateway.Client.Process.{M, ◌>>=◌, Env}
use io_tblegateway.Client.Callbacks.Access.{uint8, uint16, send_packed}

unfoldable pub ble_rsp_gap_set_scan_parameters : Env → Bytes → M (Unit {0})
ble_rsp_gap_set_scan_parameters env msg = do
  result ← uint16 msg 0
  send_packed env "vv" (v ble_rsp_gap_set_scan_parameters_idx ∷ v result ∷ [])

unfoldable pub ble_rsp_system_get_connections : Env → Bytes → M (Unit {0})
ble_rsp_system_get_connections env msg = do
  maxconn ← uint8 msg 0
  send_packed env "vc" (v ble_rsp_system_get_connections_idx ∷ c maxconn ∷ [])

unfoldable pub ble_rsp_system_get_info : Env → Bytes → M (Unit {0})
ble_rsp_system_get_info env msg = do
  major ← uint16 msg 0
  minor ← uint16 msg 2
  patch ← uint16 msg 4
  build ← uint16 msg 6
  ll_version ← uint16 msg 8
  protocol_version ← uint8 msg 10
  hw ← uint8 msg 11
  send_packed env "vvvvvvcc" (
      v ble_rsp_system_get_info_idx
      ∷ v build
      ∷ v ll_version
      ∷ v major
      ∷ v minor
      ∷ v patch
      ∷ c hw
      ∷ c protocol_version
      ∷ [])

unfoldable pub ble_rsp_connection_disconnect : Env → Bytes → M (Unit {0})
ble_rsp_connection_disconnect env msg = do
  connection ← uint8 msg 0
  result ← uint16 msg 1
  send_packed env "vcv" (v ble_rsp_connection_disconnect_idx ∷ c connection ∷ v result ∷ [])

unfoldable pub ble_rsp_connection_update : Env → Bytes → M (Unit {0})
ble_rsp_connection_update env msg = do
  connection ← uint8 msg 0
  result ← uint16 msg 1
  send_packed env "vcv" (v ble_rsp_connection_update_idx ∷ c connection ∷ v result ∷ [])

unfoldable pub ble_rsp_connection_get_status : Env → Bytes → M (Unit {0})
ble_rsp_connection_get_status env msg = do
  connection ← uint8 msg 0
  send_packed env "vc" (v ble_rsp_connection_get_status_idx ∷ c connection ∷ [])

unfoldable pub ble_rsp_attclient_read_by_group_type : Env → Bytes → M (Unit {0})
ble_rsp_attclient_read_by_group_type env msg = do
  connection ← uint8 msg 0
  result ← uint16 msg 1
  send_packed env "vcv" (v ble_rsp_attclient_read_by_group_type_idx ∷ c connection ∷ v result ∷ [])

unfoldable pub ble_rsp_attclient_read_by_type : Env → Bytes → M (Unit {0})
ble_rsp_attclient_read_by_type env msg = do
  connection ← uint8 msg 0
  result ← uint16 msg 1
  send_packed env "vcv" (v ble_rsp_attclient_read_by_type_idx ∷ c connection ∷ v result ∷ [])

unfoldable pub ble_rsp_attclient_find_information : Env → Bytes → M (Unit {0})
ble_rsp_attclient_find_information env msg = do
  connection ← uint8 msg 0
  result ← uint16 msg 1
  send_packed env "vcv" (v ble_rsp_attclient_find_information_idx ∷ c connection ∷ v result ∷ [])

unfoldable pub ble_rsp_attclient_read_by_handle : Env → Bytes → M (Unit {0})
ble_rsp_attclient_read_by_handle env msg = do
  connection ← uint8 msg 0
  result ← uint16 msg 1
  send_packed env "vcv" (v ble_rsp_attclient_read_by_handle_idx ∷ c connection ∷ v result ∷ [])

unfoldable pub ble_rsp_attclient_attribute_write : Env → Bytes → M (Unit {0})
ble_rsp_attclient_attribute_write env msg = do
  connection ← uint8 msg 0
  result ← uint16 msg 1
  send_packed env "vcv" (v ble_rsp_attclient_attribute_write_idx ∷ c connection ∷ v result ∷ [])

unfoldable pub ble_rsp_gap_discover : Env → Bytes → M (Unit {0})
ble_rsp_gap_discover env msg = do
  result ← uint16 msg 0
  send_packed env "vv" (v ble_rsp_gap_discover_idx ∷ v result ∷ [])

unfoldable pub ble_rsp_gap_connect_direct : Env → Bytes → M (Unit {0})
ble_rsp_gap_connect_direct env msg = do
  result ← uint16 msg 0
  connection_handle ← uint8 msg 2
  send_packed env "vvc" (v ble_rsp_gap_connect_direct_idx ∷ v result ∷ c connection_handle ∷ [])

unfoldable pub ble_rsp_gap_end_procedure : Env → Bytes → M (Unit {0})
ble_rsp_gap_end_procedure env msg = do
  result ← uint16 msg 0
  send_packed env "vv" (v ble_rsp_gap_end_procedure_idx ∷ v result ∷ [])
