-- ===== src/Client/Transport/Serial.antt =====
-- `send_message_to_serial_port` of BLEGatewayClient/client.c on a port that takes whole writes.
use io_tblegateway.Common.{
  ◌≡◌, refl, ap, ◌∙◌, List, [], ◌∷◌, ◌++◌, append_assoc, arith, Bytes, length, take_self,
}
use io_tblegateway.Posix.{WriteOutcome, took, value, returns}
use io_tblegateway.Uart.{uart_tx}
use io_tblegateway.Uart.Transmit.{tx-whole, tx-nothing}
use io_tblegateway.Client.Process.{World, ret}
use io_tblegateway.Client.Transport.{serial_tx, or_quit, send_message_to_serial_port}

-- The outcomes that a buffer needs which goes out in one write; an empty one needs none.
abbrev pub whole_write : Bytes → List WriteOutcome → List WriteOutcome
whole_write [] rest = rest
whole_write (b ∷ bs) rest = took (length (b ∷ bs)) ∷ rest

uart_tx-whole_write :
    (bs : Bytes) (rest : List WriteOutcome)
    → uart_tx (whole_write bs rest) (length bs) bs
      ≡ record { io = returns (value (length bs)); rest = rest; sent = bs }
uart_tx-whole_write [] rest = tx-nothing rest []
uart_tx-whole_write (b ∷ bs) rest =
    tx-whole rest (b ∷ bs) (length (b ∷ bs)) (omega arith) (omega arith)
    ∙ ap (λ sent. record { io = returns (value (length (b ∷ bs))); rest = rest; sent = sent })
        (take_self (b ∷ bs))

serial_tx-whole_write :
    (bs : Bytes) (rest : List WriteOutcome) (w : World)
    → w.serial_writes ≡ whole_write bs rest
    → serial_tx (length bs) bs w
      ≡ ret (value (length bs)) (record w { serial_writes = rest; serial_out = w.serial_out ++ bs })
unfolding serial_tx
serial_tx-whole_write bs rest w e =
    rw (ap (λ ws. uart_tx ws (length bs) bs) e ∙ uart_tx-whole_write bs rest)

-- Both pieces of a packet go out, in order.
pub send_message_to_serial_port-whole :
    (header data_bytes : Bytes) (rest : List WriteOutcome) (w : World)
    → w.serial_writes ≡ whole_write header (whole_write data_bytes rest)
    → send_message_to_serial_port (length header) header (length data_bytes) data_bytes w
      ≡ ret tt
          (record w { serial_writes = rest; serial_out = w.serial_out ++ (header ++ data_bytes) })
unfolding send_message_to_serial_port or_quit
send_message_to_serial_port-whole header data_bytes rest w e =
    let w1 : World = record w {
      serial_writes = whole_write data_bytes rest;
      serial_out = w.serial_out ++ header;
    } in
    rw (
      serial_tx-whole_write header (whole_write data_bytes rest) w e,
      serial_tx-whole_write data_bytes rest w1 refl,
      append_assoc,
    )
