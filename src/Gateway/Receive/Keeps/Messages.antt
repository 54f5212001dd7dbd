-- ===== src/Gateway/Receive/Keeps/Messages.antt =====
-- Every message of the client keeps the register and the maps of the driver of
-- BLEGatewayApplication/BLE_DRIVER.cpp in order.
use io_tblegateway.Common.{
  ℕ, ◌^◌, inl, inr, Option, none, some, [], ◌∷◌, ltb, ◌==◌, Bool-cases, Bytes,
}
use io_tblegateway.Posix.{value, error, Io, returns}
use io_tblegateway.Uart.{Rx, read_loop}
use io_tblegateway.Tpl.{v, c, s, Tpl}
use io_tblegateway.Client.Process.{Env, local_array}
use io_tblegateway.Gateway.Driver.{
  Driver, ConnectionEvent, Polled, readable, silent, ◌>>=◌, ◌>>◌, pure, throw,
}
use io_tblegateway.Gateway.Register.{Register, post_completion_event}
use io_tblegateway.Gateway.Register.Watch.{PostKeeps}
use io_tblegateway.Gateway.Transport.{finish_read, read_bytes_from_tcpsocket}
use io_tblegateway.Gateway.Responses.{
  loaded, load, other_values, got_system_info, ble_rsp_system_get_info, got_connect_direct,
  ble_rsp_gap_connect_direct, ble_rsp_connection_get_status, got_connections,
  ble_rsp_system_get_max_connections, got_simple, ble_simple_response, connection_event,
  simple_event, post_if, got_simple_connection, ble_simple_connection_response,
}
use io_tblegateway.Gateway.Responses
use io_tblegateway.Gateway.Events
use io_tblegateway.Gateway.Events.{
  update_device, update_attribute, update_discovered, when_connected, set_attribute, with_status,
  with_service, with_value, with_info, got_advertisement, parsed_advertisement, got_scan_response,
  ble_evt_gap_scan_response, ble_evt_connection_get_status, got_disconnected,
  ble_evt_connection_disconnect, found_service, got_service, ble_evt_gatt_service_found,
  got_attribute_value, ble_evt_gatt_attribute_value, got_procedure_completed,
  ble_evt_gatt_procedure_completed, described, found_info, got_attribute_info,
  ble_evt_gatt_attribute_info_found,
}
use io_tblegateway.Gateway.Receive.{
  Callback, rsp_system_get_info, simple_response, rsp_system_get_max_connections,
  rsp_gap_connect_direct, rsp_connection_get_status, evt_gap_scan_response,
  evt_connection_get_status, simple_connection_response, evt_connection_disconnect,
  evt_gatt_service_found, evt_gatt_procedure_completed, evt_gatt_attribute_value,
  evt_gatt_attribute_info_found, callback, call_case, case_for, cases, call_index,
  decode_incoming_tcp_message, data_size, read_data, receive_message, process_polled,
}
use io_tblegateway.Gateway.Receive.Keeps.{
  Good, Keeps, SoundWith, Good-then, Keeps-if, Keeps-load, Sound-post, Sound-got_system_info,
  Sound-got_connect_direct, Sound-status_response, Sound-got_connections, Sound-got_simple,
  Sound-got_simple_connection,
}
use io_tblegateway.Gateway.Receive.Keeps.Changes.{
  Sound-scan_response, Sound-status, Sound-disconnected, Sound-service, Sound-attribute_value,
  Sound-completed, Sound-info,
}

module _ (I : Register → Option (ℕ × ConnectionEvent) → Type 0) (keeps : PostKeeps I) where
  abbrev Sound : Driver → Type 0
  Sound = SoundWith I

  Sound-attribute_value_message :
      (t : Tpl) (message : Bytes) → Keeps Sound (ble_evt_gatt_attribute_value t message)
  unfolding ble_evt_gatt_attribute_value
  Sound-attribute_value_message t message =
      Keeps-if Sound (t.maps "vcvcB") (load t "vcvcB" message none >>= got_attribute_value)
        (post_completion_event 0x40000 0 1 >> throw)
        (Keeps-load Sound t "vcvcB" message none got_attribute_value
          (Sound-attribute_value I keeps))
        (λ d h.
          Good-then Sound (post_completion_event 0x40000 0 1 d) (λ _. throw)
            (Sound-post I keeps 0x40000 0 1 d h) (λ _ d0 h0. h0))

  Sound-callback : (t : Tpl) (k : Callback) (message : Bytes) → Keeps Sound (callback t k message)
  unfolding callback ble_rsp_system_get_info ble_rsp_gap_connect_direct
      ble_rsp_connection_get_status ble_rsp_system_get_max_connections ble_simple_response
      ble_simple_connection_response ble_evt_gap_scan_response ble_evt_connection_get_status
      ble_evt_connection_disconnect ble_evt_gatt_service_found ble_evt_gatt_procedure_completed
      ble_evt_gatt_attribute_info_found
  Sound-callback t rsp_system_get_info message =
      Keeps-load Sound t "vvvvvvcc" message none got_system_info (Sound-got_system_info I keeps)
  Sound-callback t simple_response message =
      Keeps-load Sound t "vv" message (some (v 0 ∷ v 0 ∷ [])) got_simple (Sound-got_simple I keeps)
  Sound-callback t rsp_system_get_max_connections message =
      Keeps-load Sound t "vc" message none got_connections (Sound-got_connections I keeps)
  Sound-callback t rsp_gap_connect_direct message =
      Keeps-load Sound t "vvc" message none got_connect_direct (Sound-got_connect_direct I keeps)
  Sound-callback t rsp_connection_get_status message =
      Keeps-load Sound t "vc" message none Responses.got_connection_status
        (Sound-status_response I keeps)
  Sound-callback t evt_gap_scan_response message =
      Keeps-load Sound t "vS(c#)ccccB" message none got_scan_response (Sound-scan_response I keeps)
  Sound-callback t evt_connection_get_status message =
      Keeps-load Sound t "vS(c#)cccvvvc" message
        (some (v 0 ∷ s [] ∷ c 0 ∷ c 0 ∷ c 0 ∷ v 0 ∷ v 0 ∷ v 0 ∷ c 0 ∷ []))
        Events.got_connection_status (Sound-status I keeps)
  Sound-callback t simple_connection_response message =
      Keeps-load Sound t "vcv" message (some (v 0 ∷ c 0 ∷ v 0 ∷ [])) got_simple_connection
        (Sound-got_simple_connection I keeps)
  Sound-callback t evt_connection_disconnect message =
      Keeps-load Sound t "vcv" message none got_disconnected (Sound-disconnected I keeps)
  Sound-callback t evt_gatt_service_found message =
      Keeps-load Sound t "vcvvB" message none got_service (Sound-service I keeps)
  Sound-callback t evt_gatt_procedure_completed message =
      Keeps-load Sound t "vcvv" message none got_procedure_completed (Sound-completed I keeps)
  Sound-callback t evt_gatt_attribute_value message = Sound-attribute_value_message t message
  Sound-callback t evt_gatt_attribute_info_found message =
      Keeps-load Sound t "vcvB" message none got_attribute_info (Sound-info I keeps)

  Sound-case :
      (t : Tpl) (o : Option Callback) (message : Bytes) → Keeps Sound (call_case t o message)
  Sound-case t none message d h = h
  Sound-case t (some k) message d h = Sound-callback t k message d h

  Sound-index : (t : Tpl) (o : Option ℕ) (message : Bytes) → Keeps Sound (call_index t o message)
  Sound-index t none message d h = h
  Sound-index t (some idx) message d h = Sound-case t (case_for idx cases) message d h

  Sound-decode : (t : Tpl) (message : Bytes) → Keeps Sound (decode_incoming_tcp_message t message)
  unfolding decode_incoming_tcp_message
  Sound-decode t message d h = Sound-index t (t.peek_v message) message d h

  Sound-finish :
      (n : ℕ) (io : Io) (r : Rx) (d : Driver) → Sound d → Good Sound (finish_read n d io r)
  Sound-finish n (returns (value k)) r d h = elim (Bool-cases (k == n)) [
    | inl p ↦ rw p h
    | inr p ↦ rw p h
  ]
  Sound-finish n (returns (error e)) r d h = h
  Sound-finish n Io.blocked r d h = h
  Sound-finish n Io.fault r d h = tt

  Sound-read : (buf : Bytes) (n : ℕ) → Keeps Sound (read_bytes_from_tcpsocket buf n)
  unfolding read_bytes_from_tcpsocket
  Sound-read buf n d h =
      let r = read_loop n d.tcp_reads buf 0 n in
      elim (Bool-cases (ltb n (2 ^ 31))) [
        | inl p ↦ rw p (Sound-finish n r.io r d h)
        | inr p ↦ rw p tt
      ]

  Sound-read_data : (env : Env) (size : ℕ) → Keeps Sound (read_data env size)
  unfolding read_data
  Sound-read_data env size =
      Keeps-if Sound (size == 0) (pure tt)
        (read_bytes_from_tcpsocket (local_array env.garbage size) size
          >>= decode_incoming_tcp_message env.tpl)
        (λ d h. h)
        (λ d h.
          Good-then Sound (read_bytes_from_tcpsocket (local_array env.garbage size) size d)
            (decode_incoming_tcp_message env.tpl)
            (Sound-read (local_array env.garbage size) size d h) (Sound-decode env.tpl))

  Sound-receive : (env : Env) → Keeps Sound (receive_message env)
  unfolding receive_message
  Sound-receive env d h =
      Good-then Sound (read_bytes_from_tcpsocket (local_array env.garbage 4) 4 d)
        (λ header. read_data env (data_size 0 header))
        (Sound-read (local_array env.garbage 4) 4 d h)
        (λ header. Sound-read_data env (data_size 0 header))

  -- If each post keeps what holds of the register, then so does whatever `poll` reports and the client
  -- sends, and the maps stay in order; no register pointer dangles and no iterator is past the end. A
  -- write outside the receive buffer is not excluded.
  pub Sound-process_polled : (env : Env) (p : ℕ × Polled) → Keeps Sound (process_polled env p)
  unfolding process_polled
  Sound-process_polled env (time, readable) d h = Sound-receive env (record d { now = time }) h
  Sound-process_polled env (time, silent) d h = h
  Sound-process_polled env (time, Polled.failed) d h = h
