-- ===== src/Client/Tcp/Delivery.antt =====
-- From a request of the gateway to the bytes on the serial port of the client.
use io_tblegateway.Common.{
  ℕ, ◌^◌, ◌<◌, ◌≡◌, ap, ◌∙◌, some, List, ◌∷◌, ◌++◌, Bytes, length, get_elem?,
}
use io_tblegateway.Posix.{WriteOutcome, ReadOutcome, got}
use io_tblegateway.Bglib.Types.{BleMsg}
use io_tblegateway.Bglib.Lookup.{apis}
use io_tblegateway.Bglib.Send.{Arg, Output}
use io_tblegateway.Bglib.Send.Layout.{kinds, Typed}
use io_tblegateway.Bglib.Send.RoundTrip.{packet_of, Framed, send_message-frames}
use io_tblegateway.Tpl.{Laws}
use io_tblegateway.Client.Process.{World, ret, M, then_run, pure, Env}
use io_tblegateway.Client.Transport.{htonl_bytes}
use io_tblegateway.Client.Transport.Serial.{whole_write, send_message_to_serial_port-whole}
use io_tblegateway.Client.Commands.{ble_cmd}
use io_tblegateway.Client.Commands.Rows.{
  IsValid, row_of, row_of-apis, index_of-lt, arguments_of-Typed,
}
use io_tblegateway.Client.Commands.Requests.{Request, index_of, arguments_of, packed, decode-packed}
use io_tblegateway.Client.Tcp.{process_message_from_tcpsocket}
use io_tblegateway.Client.Tcp.Framing.{process_message-frame}

-- what a packet puts on the port, and the outcomes of a port that takes whole writes
abbrev pub bytes_of : Output → Bytes
bytes_of out = out.header ++ out.data_ptr

abbrev pub writes_of : Output → List WriteOutcome → List WriteOutcome
writes_of out rest = whole_write out.header (whole_write out.data_ptr rest)

-- A command whose arguments fit, on a port that takes whole writes: its packet goes out, and the
-- case of the `switch` ends with 0.
pub ble_cmd-delivers :
    (msgid : ℕ) {m : BleMsg} {args : List Arg} (w : World) (rest : List WriteOutcome)
    → get_elem? apis msgid ≡ some m
    → msgid < 105
    → Typed (kinds 16 m.params) args
    → w.serial_writes ≡ writes_of (packet_of m args) rest
    → ble_cmd msgid args w
      ≡ ret 0 (record w {
        serial_writes = rest;
        serial_out = w.serial_out ++ bytes_of (packet_of m args);
      })
unfolding ble_cmd
ble_cmd-delivers msgid {m} {args} w rest row small t e =
    let (sent, framed) = send_message-frames msgid row small t in
    let out = packet_of m args in
    rw (
      sent,
      framed.whole,
      framed.data_whole,
      send_message_to_serial_port-whole out.header out.data_ptr rest w e,
    )

-- A valid request that the gateway packed and sent as one message, which arrives as its header and
-- its body, makes `process_message_from_tcpsocket` write to the serial port, if that takes whole
-- writes, one packet with the request's class, command and arguments, and nothing else.
pub request-delivered :
    (env : Env)
    → Laws env.tpl
    → (r : Request) (msg : Bytes) (w : World) (reads : List ReadOutcome)
      (writes : List WriteOutcome)
    → IsValid r
    → packed env.tpl r ≡ some msg
    → 0 < length msg
    → length msg < 2 ^ 31
    → w.tcp_reads ≡ got (htonl_bytes (length msg)) ∷ got msg ∷ reads
    → w.serial_writes ≡ writes_of (packet_of (row_of r) (arguments_of r)) writes
    → (process_message_from_tcpsocket env w
        ≡ ret 0 (record w {
          tcp_reads = reads;
          serial_writes = writes;
          serial_out = w.serial_out ++ bytes_of (packet_of (row_of r) (arguments_of r));
        }))
      × Framed (row_of r) (arguments_of r) (packet_of (row_of r) (arguments_of r))
request-delivered env laws r msg w reads writes valid pack pos small came takes =
    let typed = arguments_of-Typed r valid in
    let w1 : World = record w { tcp_reads = reads } in
    (
      process_message-frame env reads w msg came pos small
          ∙ ap (λ (m : M ℕ). then_run (m w1) (λ _. pure 0)) (decode-packed env laws r msg pack)
          ∙ ap (λ res. then_run res (λ _. pure 0))
              (ble_cmd-delivers (index_of r) w1 writes (row_of-apis r) (index_of-lt r) typed takes),
      (send_message-frames (index_of r) (row_of-apis r) (index_of-lt r) typed).1,
    )
