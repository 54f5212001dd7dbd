-- ===== src/Gateway/Delivery.antt =====
-- What the gateway does with each message of the client: from the bytes that
-- BLEGatewayClient/response_callbacks.c sends to the driver's state, in
-- BLEGatewayApplication/BLE_DRIVER.cpp.
pub mod Framing
pub mod Crossing
use io_tblegateway.Common.{
  ℕ, ◌≡◌, refl, ap, ◌∙◌, Option, none, some, List, [], ◌∷◌, if◌then◌else◌, Bytes,
}
use Prim.Native.String.{String}
use io_tblegateway.Tpl.{Value, v, c, s, bin, Tpl, Laws}
use io_tblegateway.Client.Notices.{
  Notice, rsp_gap_set_scan_parameters, rsp_system_get_connections, rsp_system_get_info,
  rsp_connection_disconnect, rsp_connection_update, rsp_connection_get_status,
  rsp_attclient_read_by_group_type, rsp_attclient_read_by_type, rsp_attclient_find_information,
  rsp_attclient_read_by_handle, rsp_attclient_attribute_write, rsp_gap_discover,
  rsp_gap_connect_direct, rsp_gap_end_procedure, evt_connection_status, evt_connection_disconnected,
  evt_attclient_procedure_completed, evt_attclient_group_found,
  evt_attclient_find_information_found, evt_attclient_attribute_value, evt_gap_scan_response,
  format_of, values_of,
}
use io_tblegateway.Gateway.Driver.{then_run, Driver, D, Out, ◌>>=◌, ◌>>◌, modify, throw}
use io_tblegateway.Gateway.CompletionEvents.{
  gatt_procedure_complete_evt, gap_connection_rsp_evt, gap_discover_rsp_evt,
  connection_update_rsp_evt, connection_disconnect_rsp_evt, attclient_read_rsp_evt,
  attclient_write_rsp_evt, attclient_readgroup_rsp_evt, attclient_findinfo_rsp_evt,
  attclient_readtype_rsp_evt, gap_endprocedure_rsp_evt, gap_set_scanparameter_rsp_evt,
  sys_get_maxcon_rsp_evt, connection_get_status_rsp_evt, sys_get_info_rsp_evt,
  attclient_attribute_found_evt,
}
use io_tblegateway.Gateway.Packets.{parse_uuid}
use io_tblegateway.Gateway.Register.{post_completion_event}
use io_tblegateway.Gateway.Responses.{
  load, got_system_info, got_connect_direct, got_connections, got_simple, simple_event,
  connection_event, got_simple_connection, ble_rsp_system_get_info, ble_rsp_gap_connect_direct,
  ble_rsp_connection_get_status, ble_rsp_system_get_max_connections, ble_simple_response,
  ble_simple_connection_response,
}
use io_tblegateway.Gateway.Responses
use io_tblegateway.Gateway.Events
use io_tblegateway.Gateway.Events.{
  got_scan_response, got_disconnected, got_service, got_attribute_value, got_procedure_completed,
  got_attribute_info, found_service, found_info, set_attribute, with_value,
  ble_evt_gap_scan_response, ble_evt_connection_get_status, ble_evt_connection_disconnect,
  ble_evt_gatt_service_found, ble_evt_gatt_attribute_value, ble_evt_gatt_procedure_completed,
  ble_evt_gatt_attribute_info_found,
}
use io_tblegateway.Gateway.Meaning.{handled}
use io_tblegateway.Gateway.Meaning.Callbacks.{
  set_attribute-recorded, found_service-recorded, found_info-recorded, got_scan-recorded,
}
use io_tblegateway.Gateway.Receive.{
  Callback, rsp_system_get_info, simple_response, rsp_system_get_max_connections,
  simple_connection_response, evt_gap_scan_response, evt_connection_get_status,
  evt_connection_disconnect, evt_gatt_service_found, evt_gatt_procedure_completed,
  evt_gatt_attribute_value, evt_gatt_attribute_info_found, callback, case_for, cases, call_case,
  call_index, decode_incoming_tcp_message,
}
use io_tblegateway.Gateway.Receive

module _ (t : Tpl) (laws : Laws t) where
  load-dump :
      (f : String) (vs : List Value) (body : Bytes) (before : Option (List Value))
      (g : List Value → D (Unit {0})) (d : Driver)
      → t.dump f vs ≡ some body
      → (load t f body before >>= g) d ≡ g vs d
  unfolding load
  load-dump f vs body before g d e =
      rw (laws.maps-dump f vs body e, laws.unpack-dump f vs body e) refl

  decode-load :
      {f : String} {idx : ℕ} {vs : List Value} {body : Bytes} (k : Callback)
      (before : Option (List Value)) (g : List Value → D (Unit {0})) (d : Driver)
      → t.dump f (v idx ∷ vs) ≡ some body
      → case_for idx cases ≡ some k
      → callback t k body d ≡ (load t f body before >>= g) d
      → decode_incoming_tcp_message t body d ≡ g (v idx ∷ vs) d
  unfolding decode_incoming_tcp_message
  decode-load {f} {idx} {vs} {body} k before g d e found run =
      ap (λ o. call_index t o body d) (laws.peek-dump f idx vs body e)
      ∙ ap (λ o. call_case t o body d) found
      ∙ run
      ∙ load-dump f (v idx ∷ vs) body before g d e

  -- A message that the client has packed is handled as what it is: the index in it selects the
  -- callback that unpacks its format.
  pub decode-handled :
      (n : Notice) (body : Bytes) (d : Driver)
      → t.dump (format_of n) (values_of n) ≡ some body
      → decode_incoming_tcp_message t body d ≡ handled n d
  unfolding case_for callback ble_rsp_system_get_info ble_rsp_gap_connect_direct
      ble_rsp_connection_get_status ble_rsp_system_get_max_connections ble_simple_response
      ble_simple_connection_response ble_evt_gap_scan_response ble_evt_connection_get_status
      ble_evt_connection_disconnect ble_evt_gatt_service_found ble_evt_gatt_procedure_completed
      ble_evt_gatt_attribute_info_found got_system_info got_connect_direct got_connections
      got_simple simple_event connection_event got_simple_connection Responses.got_connection_status
      Events.got_connection_status got_disconnected got_service got_attribute_value
      got_procedure_completed got_attribute_info ble_evt_gatt_attribute_value
  decode-handled (rsp_gap_set_scan_parameters result) body d e =
      decode-load simple_response (some (v 0 ∷ v 0 ∷ [])) got_simple d e refl refl
  decode-handled (rsp_system_get_connections maxconn) body d e =
      decode-load rsp_system_get_max_connections none got_connections d e refl refl
  decode-handled (rsp_system_get_info _ _ _ _ _ _ _) body d e =
      decode-load Receive.rsp_system_get_info none got_system_info d e refl refl
  decode-handled (rsp_connection_disconnect _ _) body d e =
      decode-load simple_connection_response (some (v 0 ∷ c 0 ∷ v 0 ∷ [])) got_simple_connection d e
        refl refl
  decode-handled (rsp_connection_update _ _) body d e =
      decode-load simple_connection_response (some (v 0 ∷ c 0 ∷ v 0 ∷ [])) got_simple_connection d e
        refl refl
  decode-handled (rsp_attclient_read_by_group_type _ _) body d e =
      decode-load simple_connection_response (some (v 0 ∷ c 0 ∷ v 0 ∷ [])) got_simple_connection d e
        refl refl
  decode-handled (rsp_attclient_read_by_type _ _) body d e =
      decode-load simple_connection_response (some (v 0 ∷ c 0 ∷ v 0 ∷ [])) got_simple_connection d e
        refl refl
  decode-handled (rsp_attclient_find_information _ _) body d e =
      decode-load simple_connection_response (some (v 0 ∷ c 0 ∷ v 0 ∷ [])) got_simple_connection d e
        refl refl
  decode-handled (rsp_attclient_read_by_handle _ _) body d e =
      decode-load simple_connection_response (some (v 0 ∷ c 0 ∷ v 0 ∷ [])) got_simple_connection d e
        refl refl
  decode-handled (rsp_attclient_attribute_write _ _) body d e =
      decode-load simple_connection_response (some (v 0 ∷ c 0 ∷ v 0 ∷ [])) got_simple_connection d e
        refl refl
  decode-handled (rsp_connection_get_status _) body d e =
      decode-load Receive.rsp_connection_get_status none Responses.got_connection_status d e refl
        refl
  decode-handled (rsp_gap_discover _) body d e =
      decode-load simple_response (some (v 0 ∷ v 0 ∷ [])) got_simple d e refl refl
  decode-handled (rsp_gap_end_procedure _) body d e =
      decode-load simple_response (some (v 0 ∷ v 0 ∷ [])) got_simple d e refl refl
  decode-handled (rsp_gap_connect_direct _ _) body d e =
      decode-load Receive.rsp_gap_connect_direct none got_connect_direct d e refl refl
  decode-handled (evt_connection_status _ _ _ _ _ _ _ _) body d e =
      decode-load evt_connection_get_status
        (some (v 0 ∷ s [] ∷ c 0 ∷ c 0 ∷ c 0 ∷ v 0 ∷ v 0 ∷ v 0 ∷ c 0 ∷ []))
        Events.got_connection_status d e refl refl
  decode-handled (evt_connection_disconnected _ _) body d e =
      decode-load evt_connection_disconnect none got_disconnected d e refl refl
  decode-handled (evt_attclient_procedure_completed _ _ _) body d e =
      decode-load evt_gatt_procedure_completed none got_procedure_completed d e refl refl
  decode-handled (evt_attclient_group_found connection first last uuid) body d e =
      decode-load evt_gatt_service_found none got_service d e refl refl
      ∙ found_service-recorded connection first last (parse_uuid uuid) d
  decode-handled (evt_attclient_find_information_found connection chrhandle uuid) body d e =
      decode-load evt_gatt_attribute_info_found none got_attribute_info d e refl refl
      ∙ found_info-recorded connection chrhandle (parse_uuid uuid) d
  decode-handled (evt_gap_scan_response rssi packet_type sender address_type bond adv) body d e =
      decode-load Receive.evt_gap_scan_response none got_scan_response d e refl refl
      ∙ got_scan-recorded rssi packet_type sender address_type bond adv d
  decode-handled (evt_attclient_attribute_value connection atthandle type value) body d e =
      decode-load evt_gatt_attribute_value none got_attribute_value d e refl (
        ap
          (λ b.
            (if b
                then load t "vcvcB" body none >>= got_attribute_value
                else post_completion_event attclient_attribute_found_evt 0 1 >> throw)
              d)
          (laws.maps-dump "vcvcB"
            (values_of (evt_attclient_attribute_value connection atthandle type value)) body e))
      ∙ ap (λ o. then_run o (λ _. post_completion_event attclient_attribute_found_evt connection 0))
          (set_attribute-recorded connection atthandle (with_value connection atthandle type value)
            d)
