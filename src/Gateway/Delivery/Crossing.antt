-- ===== src/Gateway/Delivery/Crossing.antt =====
-- Messages between BLEGatewayClient/client.c and BLEGatewayApplication/BLE_DRIVER.cpp, on both sides of
-- the socket.
use io_tblegateway.Common.{
  ℕ, ◌^◌, ◌<◌, ◌≡◌, refl, ap, ◌∙◌, some, List, ◌∷◌, ◌++◌, append_assoc, Bytes, length, take,
  take_self,
}
use io_tblegateway.Posix.{ReadOutcome, got, WriteOutcome, took}
use io_tblegateway.Tpl.{Laws}
use io_tblegateway.Client.Process.{World, Env}
use io_tblegateway.Client.Process
use io_tblegateway.Client.Transport.{htonl_bytes}
use io_tblegateway.Client.Callbacks
use io_tblegateway.Client.Commands
use io_tblegateway.Client.Commands.Requests.{Request, packed, index_of, arguments_of, decode-packed}
use io_tblegateway.Client.Tcp.{process_message_from_tcpsocket}
use io_tblegateway.Client.Tcp.Framing.{process_message-frame}
use io_tblegateway.Gateway.Driver.{Driver, ret}
use io_tblegateway.Gateway.Transport.{send_in, tcp_send, write_tcp_msg_to_socket}
use io_tblegateway.Gateway.Commands.{written, send_request}

tcp_send-took :
    (k : ℕ) (bs : Bytes) (os : List WriteOutcome) (d : Driver)
    → d.tcp_sends ≡ took k ∷ os
    → tcp_send bs d ≡ ret tt (record d { tcp_sends = os; tcp_out = d.tcp_out ++ take k bs })
unfolding tcp_send send_in
tcp_send-took k bs os d e = ap (λ sends. send_in sends bs d) e

write_msg-whole :
    (msg : Bytes) (rest : List WriteOutcome) (d : Driver)
    → d.tcp_sends ≡ took 4 ∷ took (length msg) ∷ rest
    → write_tcp_msg_to_socket msg d
      ≡ ret tt
          (record d { tcp_sends = rest; tcp_out = d.tcp_out ++ (htonl_bytes (length msg) ++ msg) })
unfolding write_tcp_msg_to_socket htonl_bytes
write_msg-whole msg rest d e =
    let header = htonl_bytes (length msg) in
    let d1 : Driver = record d {
      tcp_sends = took (length msg) ∷ rest;
      tcp_out = d.tcp_out ++ header;
    } in
    rw (
      tcp_send-took 4 header (took (length msg) ∷ rest) d e,
      tcp_send-took (length msg) msg rest d1 refl,
      take_self msg,
      append_assoc,
    )

-- A request that the gateway sends goes out as one frame, and the client that reads the frame's two
-- parts runs the BGLIB command of the request with its values as arguments. The socket takes what
-- is sent.
pub request-crosses :
    (env : Env) (r : Request) (msg : Bytes) (rest : List WriteOutcome) (rs : List ReadOutcome)
    (d : Driver) (w : World)
    → Laws env.tpl
    → packed env.tpl r ≡ some msg
    → d.tcp_sends ≡ took 4 ∷ took (length msg) ∷ rest
    → w.tcp_reads ≡ got (htonl_bytes (length msg)) ∷ got msg ∷ rs
    → 0 < length msg
    → length msg < 2 ^ 31
    → (send_request env r d
        ≡ ret tt (record d {
          tcp_sends = rest;
          tcp_out = d.tcp_out ++ (htonl_bytes (length msg) ++ msg);
        }))
      × (process_message_from_tcpsocket env w
          ≡ Process.then_run
              (Commands.ble_cmd (index_of r) (arguments_of r) (record w { tcp_reads = rs }))
              (λ _. Process.pure 0))
unfolding send_request packed
request-crosses env r msg rest rs d w laws pack takes reads pos small = (
  rw (laws.maps-dump _ _ msg pack) (ap (λ o. written o d) pack ∙ write_msg-whole msg rest d takes),
  process_message-frame env rs w msg reads pos small
      ∙ ap (λ m. Process.then_run (m (record w { tcp_reads = rs })) (λ _. Process.pure 0))
          (decode-packed env laws r msg pack),
)
