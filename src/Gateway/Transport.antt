-- ===== src/Gateway/Transport.antt =====
-- How BLEGatewayApplication/BLE_DRIVER.cpp moves bytes through the TCP socket of the client.
use io_tblegateway.Common.{
  ℕ, ◌^◌, false, List, [], ◌∷◌, ◌++◌, ltb, ◌==◌, if◌then◌else◌, Bytes, length, take,
}
use io_tblegateway.Posix.{WriteOutcome, took, value, error, Io, returns}
use io_tblegateway.Uart.{Rx, read_loop}
use io_tblegateway.Client.Transport.{htonl_bytes}
use io_tblegateway.Gateway.Driver.{Driver, D, Out, ret, thrown, blocked, undefined, outside, ◌>>◌}

-- The end of the stream clears `isConnected` and throws, as an error does.
abbrev pub finish_read : ℕ → Driver → Io → Rx → Out Bytes
finish_read length d (returns (value k)) r =
    if k == length
    then ret r.buf (record d { tcp_reads = r.rest })
    else thrown (record d { tcp_reads = r.rest; is_connected = false })
finish_read length d (returns (error e)) r = thrown (record d { tcp_reads = r.rest })
finish_read length d Io.blocked r = blocked (record d { tcp_reads = r.rest })
finish_read length d Io.fault r = undefined outside

-- The loop is that of `uart_rx`, which gives 0 at the end of the stream, and the length if all
-- bytes have come. The buffer comes back. A length of 2 ^ 31 or more is negative as an `int`, and
-- has no array on the stack to go with it: that is left undefined.
unfoldable pub read_bytes_from_tcpsocket : Bytes → ℕ → D Bytes
read_bytes_from_tcpsocket data_buffer length d =
    let r = read_loop length d.tcp_reads data_buffer 0 length in
    if ltb length (2 ^ 31) then finish_read length d r.io r else undefined outside

-- `send`, of which the program sees only whether it is an error
unfoldable pub send_in : List WriteOutcome → Bytes → D (Unit {0})
send_in [] bs d = blocked d
send_in (WriteOutcome.failed e ∷ os) bs d = thrown (record d { tcp_sends = os })
send_in (took k ∷ os) bs d = ret tt (record d { tcp_sends = os; tcp_out = d.tcp_out ++ take k bs })

unfoldable pub tcp_send : Bytes → D (Unit {0})
tcp_send bs d = send_in d.tcp_sends bs d

unfoldable pub write_tcp_msg_to_socket : Bytes → D (Unit {0})
write_tcp_msg_to_socket buffer = do tcp_send (htonl_bytes (length buffer)); tcp_send buffer
