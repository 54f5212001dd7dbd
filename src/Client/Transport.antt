-- ===== src/Client/Transport.antt =====
-- How BLEGatewayClient/client.c moves bytes through the serial port and the TCP socket.
pub mod Serial
use io_tblegateway.Common.{
  ℕ, ◌/◌, ◌%◌, ◌^◌, List, [], ◌∷◌, ◌++◌, ltb, if◌then◌else◌, Bytes, length, take,
}
use io_tblegateway.Posix.{WriteOutcome, took, Ret, value, error, Io, returns}
use io_tblegateway.Uart.{Tx, Rx, read_loop, uart_tx, uart_rx}
use io_tblegateway.Client.Process.{World, Res, ret, M, ◌>>=◌, ◌>>◌, pure, quit}

abbrev pub finish_tx : World → Io → Tx → Res Ret
finish_tx w (returns x) r =
    ret x (record w { serial_writes = r.rest; serial_out = w.serial_out ++ r.sent })
finish_tx w Io.blocked r =
    Res.blocked (record w { serial_writes = r.rest; serial_out = w.serial_out ++ r.sent })
finish_tx w Io.fault r = Res.fault

-- `uart_tx` on the serial port
unfoldable pub serial_tx : ℕ → Bytes → M Ret
serial_tx len buf w = let r = uart_tx w.serial_writes len buf in finish_tx w r.io r

abbrev pub finish_serial : World → Io → Rx → Res (Ret × Bytes)
finish_serial w (returns x) r = ret (x, r.buf) (record w { serial_reads = r.rest })
finish_serial w Io.blocked r = Res.blocked (record w { serial_reads = r.rest })
finish_serial w Io.fault r = Res.fault

-- `uart_rx` on the serial port, into a buffer that comes back
unfoldable pub serial_rx : ℕ → Bytes → M (Ret × Bytes)
serial_rx len buf w = let r = uart_rx w.serial_reads len buf in finish_serial w r.io r

abbrev pub finish_tcp : World → Io → Rx → Res (Ret × Bytes)
finish_tcp w (returns x) r = ret (x, r.buf) (record w { tcp_reads = r.rest })
finish_tcp w Io.blocked r = Res.blocked (record w { tcp_reads = r.rest })
finish_tcp w Io.fault r = Res.fault

-- The loop is that of `uart_rx`. A length of 2 ^ 31 or more is negative as an `int`, and has no
-- array on the stack to go with it: that is left undefined.
unfoldable pub read_bytes_from_tcpsocket : ℕ → Bytes → M (Ret × Bytes)
read_bytes_from_tcpsocket len buf w =
    let r = read_loop len w.tcp_reads buf 0 len in
    if ltb len (2 ^ 31) then finish_tcp w r.io r else Res.fault

-- `send` on the socket: one outcome, of which the program sees only whether it is an error
unfoldable pub send_in : List WriteOutcome → Bytes → M Ret
send_in [] bs w = Res.blocked w
send_in (WriteOutcome.failed e ∷ os) bs w = ret (error e) (record w { tcp_sends = os })
send_in (took k ∷ os) bs w =
    ret (value k) (record w { tcp_sends = os; tcp_out = w.tcp_out ++ take k bs })

unfoldable pub tcp_send : Bytes → M Ret
unfolding send_in
tcp_send bs w = send_in w.tcp_sends bs w

-- `written < 0` ends the thread
unfoldable pub or_quit : Ret → M (Unit {0})
or_quit (value k) = pure tt
or_quit (error e) = quit

-- the four bytes of `htonl`
unfoldable pub htonl_bytes : ℕ → Bytes
htonl_bytes n = n / 16777216 % 256 ∷ n / 65536 % 256 ∷ n / 256 % 256 ∷ n % 256 ∷ []

unfoldable pub send_message_to_tcpsocket : Bytes → M (Unit {0})
send_message_to_tcpsocket buffer = do
  a ← tcp_send (htonl_bytes (length buffer))
  or_quit a
  b ← tcp_send buffer
  or_quit b

unfoldable pub send_message_to_serial_port : ℕ → Bytes → ℕ → Bytes → M (Unit {0})
send_message_to_serial_port header_length header data_length data_ptr = do
  a ← serial_tx header_length header
  or_quit a
  b ← serial_tx data_length data_ptr
  or_quit b
