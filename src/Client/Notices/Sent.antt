-- ===== src/Client/Notices/Sent.antt =====
-- What a callback sends for each message that the client passes on, and what the gateway unpacks.
use io_tblegateway.Common.{
  ℕ, ◌+◌, ◌*◌, ◌/◌, ◌%◌, ◌≡◌, refl, ap, ◌∙◌, some, List, [], ◌∷◌, ◌++◌, append_assoc, arith, Bytes,
  length, take, length-append, take-append, drop-append, take_self,
}
use io_tblegateway.Posix.{value, WriteOutcome, took}
use io_tblegateway.Tpl.{Laws}
use io_tblegateway.Client.Process.{World, ret, Env}
use io_tblegateway.Client.Transport.{
  send_in, tcp_send, or_quit, htonl_bytes, send_message_to_tcpsocket,
}
use io_tblegateway.Client.Callbacks
use io_tblegateway.Client.Callbacks.Access.{slice, send_packed}
use io_tblegateway.Client.Notices.{
  Notice, rsp_gap_set_scan_parameters, rsp_system_get_connections, rsp_system_get_info,
  rsp_connection_disconnect, rsp_connection_update, rsp_connection_get_status,
  rsp_attclient_read_by_group_type, rsp_attclient_read_by_type, rsp_attclient_find_information,
  rsp_attclient_read_by_handle, rsp_attclient_attribute_write, rsp_gap_discover,
  rsp_gap_connect_direct, rsp_gap_end_procedure, evt_connection_status, evt_connection_disconnected,
  evt_attclient_procedure_completed, evt_attclient_group_found,
  evt_attclient_find_information_found, evt_attclient_attribute_value, evt_gap_scan_response,
  handler_of, format_of, values_of,
}
use io_tblegateway.Client.Notices.Structs.{struct_of, HasAddress}

slice-at :
    (front bs rest : Bytes) → slice (front ++ (bs ++ rest)) (length front) (length bs) ≡ some bs
unfolding slice
slice-at front bs rest =
    rw (drop-append front (bs ++ rest), take-append bs rest)
      (ground (arith, length-append front (bs ++ rest), length-append bs rest))

join : (x : ℕ) → x % 256 + 256 * (x / 256) ≡ x
join x = omega arith

-- Each callback sends what the gateway is to receive, whatever follows the struct in the buffer.
pub callback-notice :
    (env : Env) (n : Notice) (rest : Bytes) (w : World)
    → HasAddress n
    → Callbacks.callback env (handler_of n) (struct_of n rest) w
      ≡ send_packed env (format_of n) (values_of n) w
unfolding Callbacks.callback
callback-notice env (rsp_gap_set_scan_parameters result) rest w h = simp (join result)
callback-notice env (rsp_system_get_connections _) rest w h = refl
callback-notice env (rsp_system_get_info major minor patch build ll_version _ _) rest w h =
    simp (join major, join minor, join patch, join build, join ll_version)
callback-notice env (rsp_connection_disconnect _ result) rest w h = simp (join result)
callback-notice env (rsp_connection_update _ result) rest w h = simp (join result)
callback-notice env (rsp_connection_get_status _) rest w h = refl
callback-notice env (rsp_attclient_read_by_group_type _ result) rest w h = simp (join result)
callback-notice env (rsp_attclient_read_by_type _ result) rest w h = simp (join result)
callback-notice env (rsp_attclient_find_information _ result) rest w h = simp (join result)
callback-notice env (rsp_attclient_read_by_handle _ result) rest w h = simp (join result)
callback-notice env (rsp_attclient_attribute_write _ result) rest w h = simp (join result)
callback-notice env (rsp_gap_discover result) rest w h = simp (join result)
callback-notice env (rsp_gap_connect_direct result _) rest w h = simp (join result)
callback-notice env (rsp_gap_end_procedure result) rest w h = simp (join result)
callback-notice env
      (evt_connection_status connection flags
        (b0 ∷ b1 ∷ b2 ∷ b3 ∷ b4 ∷ b5 ∷ [])
        address_type
        conn_interval
        timeout
        latency
        bonding)
      rest w h =
    simp (
      slice-at (connection ∷ flags ∷ []) (b0 ∷ b1 ∷ b2 ∷ b3 ∷ b4 ∷ b5 ∷ []) (
          address_type
          ∷ conn_interval % 256
          ∷ conn_interval / 256
          ∷ timeout % 256
          ∷ timeout / 256
          ∷ latency % 256
          ∷ latency / 256
          ∷ bonding
          ∷ rest),
      join conn_interval,
      join timeout,
      join latency,
    )
callback-notice env (evt_connection_status _ _ _ _ _ _ _ _) rest w h = absurd h
callback-notice env (evt_connection_disconnected _ reason) rest w h = simp (join reason)
callback-notice env (evt_attclient_procedure_completed _ result chrhandle) rest w h =
    simp (join result, join chrhandle)
callback-notice env (evt_attclient_group_found connection first last uuid) rest w h = simp (
  slice-at (connection ∷ first % 256 ∷ first / 256 ∷ last % 256 ∷ last / 256 ∷ length uuid ∷ [])
      uuid rest,
  join first,
  join last,
)
callback-notice env (evt_attclient_find_information_found connection chrhandle uuid) rest w h =
    simp (
      slice-at (connection ∷ chrhandle % 256 ∷ chrhandle / 256 ∷ length uuid ∷ []) uuid rest,
      join chrhandle,
    )
callback-notice env (evt_attclient_attribute_value connection atthandle type found) rest w h =
    simp (
      slice-at (connection ∷ atthandle % 256 ∷ atthandle / 256 ∷ type ∷ length found ∷ []) found
          rest,
      join atthandle,
    )
callback-notice env
      (evt_gap_scan_response rssi packet_type
        (b0 ∷ b1 ∷ b2 ∷ b3 ∷ b4 ∷ b5 ∷ [])
        address_type
        bond
        adv)
      rest w h =
    simp (
      slice-at (rssi ∷ packet_type ∷ []) (b0 ∷ b1 ∷ b2 ∷ b3 ∷ b4 ∷ b5 ∷ [])
          (address_type ∷ bond ∷ length adv ∷ (adv ++ rest)),
      slice-at
          (rssi ∷ packet_type ∷ b0 ∷ b1 ∷ b2 ∷ b3 ∷ b4 ∷ b5 ∷ address_type ∷ bond ∷ length adv ∷ [])
          adv rest,
    )
callback-notice env (evt_gap_scan_response _ _ _ _ _ _) rest w h = absurd h

tcp_send-took :
    (k : ℕ) (bs : Bytes) (os : List WriteOutcome) (w : World)
    → w.tcp_sends ≡ took k ∷ os
    → tcp_send bs w ≡ ret (value k) (record w { tcp_sends = os; tcp_out = w.tcp_out ++ take k bs })
unfolding tcp_send
tcp_send-took k bs os w e = ap (λ sends. send_in sends bs w) e

-- `send_message_to_tcpsocket` on a socket that takes both parts: the length and the message.
pub send_message_to_tcpsocket-whole :
    (msg : Bytes) (rest : List WriteOutcome) (w : World)
    → w.tcp_sends ≡ took 4 ∷ took (length msg) ∷ rest
    → send_message_to_tcpsocket msg w
      ≡ ret tt
          (record w { tcp_sends = rest; tcp_out = w.tcp_out ++ (htonl_bytes (length msg) ++ msg) })
unfolding send_message_to_tcpsocket or_quit htonl_bytes
send_message_to_tcpsocket-whole msg rest w e =
    let header = htonl_bytes (length msg) in
    let w1 : World = record w {
      tcp_sends = took (length msg) ∷ rest;
      tcp_out = w.tcp_out ++ header;
    } in
    rw (
      tcp_send-took 4 header (took (length msg) ∷ rest) w e,
      tcp_send-took (length msg) msg rest w1 refl,
      take_self msg,
      append_assoc,
    )

-- A message of the dongle that the client passes on reaches the gateway, if the socket takes what
-- is sent: one frame, from which the message's fields are unpacked.
pub notice-sent :
    (env : Env)
    → Laws env.tpl
    → (n : Notice) (msg tail : Bytes) (rest : List WriteOutcome) (w : World) → HasAddress n
    → env.tpl.dump (format_of n) (values_of n) ≡ some msg
    → w.tcp_sends ≡ took 4 ∷ took (length msg) ∷ rest
    → (Callbacks.callback env (handler_of n) (struct_of n tail) w
        ≡ ret tt (record w {
          tcp_sends = rest;
          tcp_out = w.tcp_out ++ (htonl_bytes (length msg) ++ msg);
        }))
      × (env.tpl.unpack (format_of n) msg ≡ some (values_of n))
unfolding send_packed
notice-sent env laws n msg tail rest w six pack takes = (
  callback-notice env n tail w six ∙ rw pack (send_message_to_tcpsocket-whole msg rest w takes),
  laws.unpack-dump _ _ msg pack,
)
