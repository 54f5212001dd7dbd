-- ===== src/Client/Callbacks/Events.antt =====
-- The callbacks of BLEGatewayClient/response_callbacks.c that answer the gateway: events.
-- Each reads the fields of its packed struct at their offsets.
use io_tblegateway.Common.{[], ◌∷◌, Bytes}
use io_tblegateway.Bglib.Indices.{
  ble_evt_connection_status_idx, ble_evt_connection_disconnected_idx,
  ble_evt_attclient_procedure_completed_idx, ble_evt_attclient_group_found_idx,
  ble_evt_attclient_find_information_found_idx, ble_evt_attclient_attribute_value_idx,
  ble_evt_gap_scan_response_idx,
}
use io_tblegateway.Tpl.{v, c, s, bin}
use io_tblegateway.Client.Process.{M, ◌>>=◌, Env}
use io_tblegateway.Client.Callbacks.Access.{uint8, uint16, bd_addr, uint8array, send_packed}

unfoldable pub ble_evt_connection_status : Env → Bytes → M (Unit {0})
ble_evt_connection_status env msg = do
  connection ← uint8 msg 0
  flags ← uint8 msg 1
  address ← bd_addr msg 2
  address_type ← uint8 msg 8
  conn_interval ← uint16 msg 9
  timeout ← uint16 msg 11
  latency ← uint16 msg 13
  bonding ← uint8 msg 15
  send_packed env "vS(c#)cccvvvc" (
      v ble_evt_connection_status_idx
      ∷ s address
      ∷ c connection
      ∷ c flags
      ∷ c address_type
      ∷ v conn_interval
      ∷ v timeout
      ∷ v latency
      ∷ c bonding
      ∷ [])

unfoldable pub ble_evt_connection_disconnected : Env → Bytes → M (Unit {0})
ble_evt_connection_disconnected env msg = do
  connection ← uint8 msg 0
  reason ← uint16 msg 1
  send_packed env "vcv" (v ble_evt_connection_disconnected_idx ∷ c connection ∷ v reason ∷ [])

unfoldable pub ble_evt_attclient_procedure_completed : Env → Bytes → M (Unit {0})
ble_evt_attclient_procedure_completed env msg = do
  connection ← uint8 msg 0
  result ← uint16 msg 1
  chrhandle ← uint16 msg 3
  send_packed env "vcvv"
      (v ble_evt_attclient_procedure_completed_idx ∷ c connection ∷ v result ∷ v chrhandle ∷ [])

unfoldable pub ble_evt_attclient_group_found : Env → Bytes → M (Unit {0})
ble_evt_attclient_group_found env msg = do
  connection ← uint8 msg 0
  first ← uint16 msg 1
  last ← uint16 msg 3
  uuid ← uint8array msg 5
  send_packed env "vcvvB"
      (v ble_evt_attclient_group_found_idx ∷ c connection ∷ v first ∷ v last ∷ bin uuid ∷ [])

unfoldable pub ble_evt_attclient_find_information_found : Env → Bytes → M (Unit {0})
ble_evt_attclient_find_information_found env msg = do
  connection ← uint8 msg 0
  chrhandle ← uint16 msg 1
  uuid ← uint8array msg 3
  send_packed env "vcvB"
      (v ble_evt_attclient_find_information_found_idx ∷ c connection ∷ v chrhandle ∷ bin uuid ∷ [])

unfoldable pub ble_evt_attclient_attribute_value : Env → Bytes → M (Unit {0})
ble_evt_attclient_attribute_value env msg = do
  connection ← uint8 msg 0
  atthandle ← uint16 msg 1
  type ← uint8 msg 3
  value ← uint8array msg 4
  send_packed env "vcvcB" (
      v ble_evt_attclient_attribute_value_idx
      ∷ c connection
      ∷ v atthandle
      ∷ c type
      ∷ bin value
      ∷ [])

unfoldable pub ble_evt_gap_scan_response : Env → Bytes → M (Unit {0})
ble_evt_gap_scan_response env msg = do
  rssi ← uint8 msg 0
  packet_type ← uint8 msg 1
  sender ← bd_addr msg 2
  address_type ← uint8 msg 8
  bond ← uint8 msg 9
  adv ← uint8array msg 10
  send_packed env "vS(c#)ccccB" (
      v ble_evt_gap_scan_response_idx
      ∷ s sender
      ∷ c rssi
      ∷ c packet_type
      ∷ c address_type
      ∷ c bond
      ∷ bin adv
      ∷ [])
