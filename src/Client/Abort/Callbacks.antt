-- ===== src/Client/Abort/Callbacks.antt =====
-- The callbacks of BLEGatewayClient/response_callbacks.c and `abort_cmd`.
use io_tblegateway.Common.{ℕ, ◌+◌, Bytes, get_elem?}
use io_tblegateway.Client.Process.{Env}
use io_tblegateway.Client.Callbacks.Access.{uint8, uint16, bd_addr, uint8array, slice}
use io_tblegateway.Client.Abort.{
  Keeps, Keeps-bind, Keeps-pure, Keeps-from_option, Keeps-send_packed,
}
use io_tblegateway.Client.Callbacks.Responses
use io_tblegateway.Client.Callbacks.Events

Keeps-uint8 : (msg : Bytes) (off : ℕ) → Keeps (uint8 msg off)
Keeps-uint8 msg off = Keeps-from_option (get_elem? msg off)

Keeps-uint16 : (msg : Bytes) (off : ℕ) → Keeps (uint16 msg off)
Keeps-uint16 msg off =
    Keeps-bind (Keeps-uint8 msg off) (λ _. Keeps-bind (Keeps-uint8 msg (off + 1)) (λ _. Keeps-pure))

Keeps-bd_addr : (msg : Bytes) (off : ℕ) → Keeps (bd_addr msg off)
Keeps-bd_addr msg off = Keeps-from_option (slice msg off 6)

Keeps-uint8array : (msg : Bytes) (off : ℕ) → Keeps (uint8array msg off)
Keeps-uint8array msg off = Keeps-bind (Keeps-uint8 msg off) (λ _. Keeps-from_option _)

ruleset sends =
    (Keeps-bind, Keeps-uint8, Keeps-uint16, Keeps-bd_addr, Keeps-uint8array, Keeps-send_packed)

pub Keeps-ble_rsp_gap_set_scan_parameters :
    (env : Env) (msg : Bytes) → Keeps (Responses.ble_rsp_gap_set_scan_parameters env msg)
unfolding Responses.ble_rsp_gap_set_scan_parameters
Keeps-ble_rsp_gap_set_scan_parameters env msg = search sends depth 10

pub Keeps-ble_rsp_system_get_connections :
    (env : Env) (msg : Bytes) → Keeps (Responses.ble_rsp_system_get_connections env msg)
unfolding Responses.ble_rsp_system_get_connections
Keeps-ble_rsp_system_get_connections env msg = search sends depth 10

pub Keeps-ble_rsp_system_get_info :
    (env : Env) (msg : Bytes) → Keeps (Responses.ble_rsp_system_get_info env msg)
unfolding Responses.ble_rsp_system_get_info
Keeps-ble_rsp_system_get_info env msg = search sends depth 10

pub Keeps-ble_rsp_connection_disconnect :
    (env : Env) (msg : Bytes) → Keeps (Responses.ble_rsp_connection_disconnect env msg)
unfolding Responses.ble_rsp_connection_disconnect
Keeps-ble_rsp_connection_disconnect env msg = search sends depth 10

pub Keeps-ble_rsp_connection_update :
    (env : Env) (msg : Bytes) → Keeps (Responses.ble_rsp_connection_update env msg)
unfolding Responses.ble_rsp_connection_update
Keeps-ble_rsp_connection_update env msg = search sends depth 10

pub Keeps-ble_rsp_connection_get_status :
    (env : Env) (msg : Bytes) → Keeps (Responses.ble_rsp_connection_get_status env msg)
unfolding Responses.ble_rsp_connection_get_status
Keeps-ble_rsp_connection_get_status env msg = search sends depth 10

pub Keeps-ble_rsp_attclient_read_by_group_type :
    (env : Env) (msg : Bytes) → Keeps (Responses.ble_rsp_attclient_read_by_group_type env msg)
unfolding Responses.ble_rsp_attclient_read_by_group_type
Keeps-ble_rsp_attclient_read_by_group_type env msg = search sends depth 10

pub Keeps-ble_rsp_attclient_read_by_type :
    (env : Env) (msg : Bytes) → Keeps (Responses.ble_rsp_attclient_read_by_type env msg)
unfolding Responses.ble_rsp_attclient_read_by_type
Keeps-ble_rsp_attclient_read_by_type env msg = search sends depth 10

pub Keeps-ble_rsp_attclient_find_information :
    (env : Env) (msg : Bytes) → Keeps (Responses.ble_rsp_attclient_find_information env msg)
unfolding Responses.ble_rsp_attclient_find_information
Keeps-ble_rsp_attclient_find_information env msg = search sends depth 10

pub Keeps-ble_rsp_attclient_read_by_handle :
    (env : Env) (msg : Bytes) → Keeps (Responses.ble_rsp_attclient_read_by_handle env msg)
unfolding Responses.ble_rsp_attclient_read_by_handle
Keeps-ble_rsp_attclient_read_by_handle env msg = search sends depth 10

pub Keeps-ble_rsp_attclient_attribute_write :
    (env : Env) (msg : Bytes) → Keeps (Responses.ble_rsp_attclient_attribute_write env msg)
unfolding Responses.ble_rsp_attclient_attribute_write
Keeps-ble_rsp_attclient_attribute_write env msg = search sends depth 10

pub Keeps-ble_rsp_gap_discover :
    (env : Env) (msg : Bytes) → Keeps (Responses.ble_rsp_gap_discover env msg)
unfolding Responses.ble_rsp_gap_discover
Keeps-ble_rsp_gap_discover env msg = search sends depth 10

pub Keeps-ble_rsp_gap_connect_direct :
    (env : Env) (msg : Bytes) → Keeps (Responses.ble_rsp_gap_connect_direct env msg)
unfolding Responses.ble_rsp_gap_connect_direct
Keeps-ble_rsp_gap_connect_direct env msg = search sends depth 10

pub Keeps-ble_rsp_gap_end_procedure :
    (env : Env) (msg : Bytes) → Keeps (Responses.ble_rsp_gap_end_procedure env msg)
unfolding Responses.ble_rsp_gap_end_procedure
Keeps-ble_rsp_gap_end_procedure env msg = search sends depth 10

pub Keeps-ble_evt_connection_status :
    (env : Env) (msg : Bytes) → Keeps (Events.ble_evt_connection_status env msg)
unfolding Events.ble_evt_connection_status
Keeps-ble_evt_connection_status env msg = search sends depth 10

pub Keeps-ble_evt_connection_disconnected :
    (env : Env) (msg : Bytes) → Keeps (Events.ble_evt_connection_disconnected env msg)
unfolding Events.ble_evt_connection_disconnected
Keeps-ble_evt_connection_disconnected env msg = search sends depth 10

pub Keeps-ble_evt_attclient_procedure_completed :
    (env : Env) (msg : Bytes) → Keeps (Events.ble_evt_attclient_procedure_completed env msg)
unfolding Events.ble_evt_attclient_procedure_completed
Keeps-ble_evt_attclient_procedure_completed env msg = search sends depth 10

pub Keeps-ble_evt_attclient_group_found :
    (env : Env) (msg : Bytes) → Keeps (Events.ble_evt_attclient_group_found env msg)
unfolding Events.ble_evt_attclient_group_found
Keeps-ble_evt_attclient_group_found env msg = search sends depth 10

pub Keeps-ble_evt_attclient_find_information_found :
    (env : Env) (msg : Bytes) → Keeps (Events.ble_evt_attclient_find_information_found env msg)
unfolding Events.ble_evt_attclient_find_information_found
Keeps-ble_evt_attclient_find_information_found env msg = search sends depth 10

pub Keeps-ble_evt_attclient_attribute_value :
    (env : Env) (msg : Bytes) → Keeps (Events.ble_evt_attclient_attribute_value env msg)
unfolding Events.ble_evt_attclient_attribute_value
Keeps-ble_evt_attclient_attribute_value env msg = search sends depth 10

pub Keeps-ble_evt_gap_scan_response :
    (env : Env) (msg : Bytes) → Keeps (Events.ble_evt_gap_scan_response env msg)
unfolding Events.ble_evt_gap_scan_response
Keeps-ble_evt_gap_scan_response env msg = search sends depth 10
