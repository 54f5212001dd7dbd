-- ===== src/Gateway/Receive/Keeps.antt =====
-- What every message of the client leaves true of the driver of BLEGatewayApplication/BLE_DRIVER.cpp.
pub mod Changes
pub mod Messages
use io_tblegateway.Common.{
  ℕ, Bool, true, false, Option, none, some, List, [], ◌∷◌, if◌then◌else◌, Bytes, length,
}
use Prim.Native.String.{String}
use io_tblegateway.Posix.{Ret, value, error, Io, returns}
use io_tblegateway.Uart.{Rx, read_loop}
use io_tblegateway.Tpl.{Value, v, c, s, bin, Tpl}
use io_tblegateway.Client.Process.{Env, local_array}
use io_tblegateway.Gateway.Map.{Map, put, erase}
use io_tblegateway.Gateway.Packets.{
  Parsed, parsed, throws, overrun, parse_uuid, parse_advertisement,
}
use io_tblegateway.Gateway.Driver.{
  Driver, ConnectionEvent, ConnectedDeviceInfo, AttributeData, AdvertisementPacket, Polled,
  readable, silent, D, Out, ret, thrown, blocked, undefined, Cause, uninitialised, outside,
  past_end, dangling, then_run, ◌>>=◌, ◌>>◌, pure, throw, undefined_by, modify, device_at,
}
use io_tblegateway.Gateway.Register.{
  Register, Posted, posted, fails, post_loop, finish_post, post_completion_event,
}
use io_tblegateway.Gateway.Register.Watch.{After, PostKeeps}
use io_tblegateway.Gateway.Transport.{finish_read, read_bytes_from_tcpsocket}
use io_tblegateway.Gateway.Responses.{
  loaded, load, other_values, got_system_info, ble_rsp_system_get_info, got_connect_direct,
  ble_rsp_gap_connect_direct, ble_rsp_connection_get_status, got_connections,
  ble_rsp_system_get_max_connections, got_simple, ble_simple_response, connection_event,
  simple_event, post_if, got_simple_connection, ble_simple_connection_response,
}
use io_tblegateway.Gateway.Responses
use io_tblegateway.Gateway.Events
use io_tblegateway.Gateway.Events.{
  update_device, update_attribute, update_discovered, when_connected, set_attribute, with_status,
  with_service, with_value, with_info, got_advertisement, parsed_advertisement, got_scan_response,
  ble_evt_gap_scan_response, ble_evt_connection_get_status, got_disconnected,
  ble_evt_connection_disconnect, found_service, got_service, ble_evt_gatt_service_found,
  got_attribute_value, ble_evt_gatt_attribute_value, got_procedure_completed,
  ble_evt_gatt_procedure_completed, described, found_info, got_attribute_info,
  ble_evt_gatt_attribute_info_found,
}
use io_tblegateway.Gateway.Receive.{
  Callback, rsp_system_get_info, simple_response, rsp_system_get_max_connections,
  rsp_gap_connect_direct, rsp_connection_get_status, evt_gap_scan_response,
  evt_connection_get_status, simple_connection_response, evt_connection_disconnect,
  evt_gatt_service_found, evt_gatt_procedure_completed, evt_gatt_attribute_value,
  evt_gatt_attribute_info_found, callback, call_case, case_for, cases, call_index,
  decode_incoming_tcp_message, data_size, read_data, receive_message, process_polled,
}
use io_tblegateway.Gateway.Receive.Devices.{
  Devices, AttributeIn, update_device-Devices, update_attribute-Devices, Devices-erase,
}

-- Pointers and iterators are sound: what else a call may be is the fault of the serialiser or of
-- the size that a header gives.
abbrev pub Tolerable : Cause → Type 0
Tolerable uninitialised = Unit {0}
Tolerable outside = Unit {0}
Tolerable past_end = ⊥
Tolerable dangling = ⊥

abbrev pub Good : {A : Type 0} → (Driver → Type 0) → Out A → Type 0
Good P (ret a d) = P d
Good P (thrown d) = P d
Good P (blocked d) = P d
Good P (undefined cause) = Tolerable cause

abbrev pub Keeps : {A : Type 0} → (Driver → Type 0) → D A → Type 0
Keeps P m = (d : Driver) → P d → Good P (m d)

-- The register and the frame satisfy `I`, and the maps are in order.
abbrev pub SoundWith : (Register → Option (ℕ × ConnectionEvent) → Type 0) → Driver → Type 0
SoundWith I d = I d.completion_event_register d.frame × Devices d

module _ (P : Driver → Type 0) where
  pub Good-then :
      {A B : Type 0} (o : Out A) (f : A → D B)
      → Good P o
      → ((a : A) → Keeps P (f a))
      → Good P (then_run o f)
  Good-then (ret a d) f h k = k a d h
  Good-then (thrown d) f h k = h
  Good-then (blocked d) f h k = h
  Good-then (undefined cause) f h k = h

  pub Keeps-if :
      {A : Type 0} (b : Bool) (m n : D A)
      → Keeps P m
      → Keeps P n
      → Keeps P (λ d. (if b then m else n) d)
  Keeps-if true m n hm hn = hm
  Keeps-if false m n hm hn = hn

  Keeps-loaded : (o before : Option (List Value)) → Keeps P (loaded o before)
  Keeps-loaded (some vs) before d h = h
  Keeps-loaded none (some vs) d h = h
  Keeps-loaded none none d h = tt

  pub Keeps-load :
      (t : Tpl) (format : String) (message : Bytes) (before : Option (List Value))
      (f : List Value → D (Unit {0}))
      → ((vs : List Value) → Keeps P (f vs))
      → Keeps P (load t format message before >>= f)
  unfolding load
  Keeps-load t format message before f k d h =
      Good-then (load t format message before d) f
        (Keeps-if (t.maps format) (loaded (t.unpack format message) before) throw
          (Keeps-loaded (t.unpack format message) before) (λ d0 h0. h0) d h)
        k

module _ (I : Register → Option (ℕ × ConnectionEvent) → Type 0) (keeps : PostKeeps I) where
  abbrev pub Sound : Driver → Type 0
  Sound = SoundWith I

  Sound-posted : (d : Driver) (r : Posted) → After I r → Devices d → Good Sound (finish_post d r)
  Sound-posted d (posted es frame) h ok = (h, ok)
  Sound-posted d (fails cause) h ok = elim h [ ]

  pub Sound-post : (ce ch code : ℕ) → Keeps Sound (post_completion_event ce ch code)
  unfolding post_completion_event
  Sound-post ce ch code d h =
      let es = d.completion_event_register in
      Sound-posted d (post_loop ce ch code (length es) 0 es d.frame)
        (keeps ce ch code es d.frame h.0) h.1

  abbrev pub KeepsAll : (List Value → D (Unit {0})) → Type 0
  KeepsAll f = (vs : List Value) → Keeps Sound (f vs)

  pub Sound-got_system_info : KeepsAll got_system_info
  unfolding got_system_info
  Sound-got_system_info
        (v _ ∷ v build ∷ v ll_version ∷ v major ∷ v minor ∷ v patch ∷ c hw ∷ c pv ∷ []) d h =
      Sound-post 0x20000 0 0 _ h
  Sound-got_system_info _ d h = tt

  pub Sound-got_connect_direct : KeepsAll got_connect_direct
  unfolding got_connect_direct
  Sound-got_connect_direct (v _ ∷ v result ∷ c _ ∷ []) d h = Sound-post 4 0 result d h
  Sound-got_connect_direct _ d h = tt

  pub Sound-status_response : KeepsAll Responses.got_connection_status
  unfolding Responses.got_connection_status
  Sound-status_response (v _ ∷ c connection ∷ []) d h = Sound-post 0x10000 connection 0 d h
  Sound-status_response _ d h = tt

  pub Sound-got_connections : KeepsAll got_connections
  unfolding got_connections
  Sound-got_connections (v _ ∷ c maxconn ∷ []) d h = Sound-post 0x8000 0 0 _ h
  Sound-got_connections _ d h = tt

  Sound-post_if : (o : Option ℕ) (connection result : ℕ) → Keeps Sound (post_if o connection result)
  Sound-post_if none connection result d h = h
  Sound-post_if (some ce) connection result d h = Sound-post ce connection result d h

  pub Sound-got_simple : KeepsAll got_simple
  unfolding got_simple
  Sound-got_simple (v idx ∷ v result ∷ []) d h = Sound-post_if (simple_event idx) 0 result d h
  Sound-got_simple _ d h = tt

  pub Sound-got_simple_connection : KeepsAll got_simple_connection
  unfolding got_simple_connection
  Sound-got_simple_connection (v idx ∷ c connection ∷ v result ∷ []) d h =
      Sound-post_if (connection_event idx) connection result d h
  Sound-got_simple_connection _ d h = tt
