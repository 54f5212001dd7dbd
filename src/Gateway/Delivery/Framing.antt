-- ===== src/Gateway/Delivery/Framing.antt =====
-- The frame around a message that the gateway reads: BLEGatewayApplication/BLE_DRIVER.cpp.
use io_tblegateway.Common.{
  ℕ, ◌+◌, ◌-◌, ◌/◌, ◌%◌, ◌^◌, ◌≤◌, ◌<◌, ◌≡◌, refl, ap, ◌∙◌, some, List, [], ◌∷◌, ◌++◌, append-nil,
  arith, Bytes, length, drop, drop_self,
}
use io_tblegateway.Posix.{ReadOutcome, got, value, returns}
use io_tblegateway.Uart.{read_loop}
use io_tblegateway.Uart.Receive.{read_loop-whole}
use io_tblegateway.Tpl.{Laws}
use io_tblegateway.Client.Process.{Env, local_array, length-local_array}
use io_tblegateway.Client.Transport.{htonl_bytes}
use io_tblegateway.Client.Notices.{Notice, format_of, values_of}
use io_tblegateway.Gateway.Driver.{Driver, ret, then_run}
use io_tblegateway.Gateway.Transport.{read_bytes_from_tcpsocket}
use io_tblegateway.Gateway.Receive.{
  data_size, read_data, receive_message, decode_incoming_tcp_message,
}
use io_tblegateway.Gateway.Delivery.{decode-handled}
use io_tblegateway.Gateway.Meaning.{handled}

small_header : (n : ℕ) → n < 256 → htonl_bytes n ≡ 0 ∷ 0 ∷ 0 ∷ n ∷ []
unfolding htonl_bytes
small_header n h =
    let d : n / 16777216 % 256 ≡ 0 = omega arith in
    let e : n / 65536 % 256 ≡ 0 = omega arith in
    let f : n / 256 % 256 ≡ 0 = omega arith in let g : n % 256 ≡ n = omega arith in cc (d, e, f, g)

-- A size below 128 comes back from the four bytes that `htonl` makes of it.
pub data_size-htonl_bytes : (n : ℕ) → n < 128 → data_size 0 (htonl_bytes n) ≡ n
unfolding data_size
data_size-htonl_bytes n h = rw (small_header n (omega arith)) (ground arith)

-- From 128 to 255 the last byte of the header is negative as a `char`: the size that is read is
-- 256 less than the one sent, as a number of 32 bits.
pub data_size-negative :
    (n : ℕ) → 128 ≤ n → n < 256 → data_size 0 (htonl_bytes n) ≡ n + (2 ^ 32 - 256)
unfolding data_size
data_size-negative n low high = rw (small_header n high) (ground arith)

read_bytes-whole :
    (bs buf : Bytes) (rs : List ReadOutcome) (d : Driver)
    → d.tcp_reads ≡ got bs ∷ rs
    → 0 < length bs
    → length bs < 2 ^ 31
    → length buf ≡ length bs
    → read_bytes_from_tcpsocket buf (length bs) d ≡ ret bs (record d { tcp_reads = rs })
unfolding read_bytes_from_tcpsocket
read_bytes-whole bs buf rs d e pos small size = rw (run, nothing_left, append-nil) (ground arith)
  where
    run :
        read_loop (length bs) d.tcp_reads buf 0 (length bs)
        ≡ record { io = returns (value (length bs)); rest = rs; buf = bs ++ drop (length bs) buf }
    run =
        ap (λ reads. read_loop (length bs) reads buf 0 (length bs)) e
        ∙ read_loop-whole rs bs buf pos (omega arith)

    nothing_left : drop (length bs) buf ≡ []
    nothing_left = rw (← size) (drop_self buf)

-- A message of 1 to 127 bytes that comes as its header and its body, each in one read, is decoded.
receive-frame :
    (env : Env) (body : Bytes) (rs : List ReadOutcome) (d : Driver)
    → d.tcp_reads ≡ got (htonl_bytes (length body)) ∷ got body ∷ rs
    → 0 < length body
    → length body < 128
    → receive_message env d ≡ decode_incoming_tcp_message env.tpl body (record d { tcp_reads = rs })
unfolding receive_message htonl_bytes read_data
receive-frame env body rs d e pos small =
    ap (λ r. then_run r (λ header. read_data env (data_size 0 header)))
      (read_bytes-whole (htonl_bytes (length body)) (local_array env.garbage 4) (got body ∷ rs) d e
        (omega arith) (omega arith) (length-local_array env.garbage 4))
    ∙ ap (λ size. read_data env size (record d { tcp_reads = got body ∷ rs }))
        (data_size-htonl_bytes (length body) small)
    ∙ (ground arith)
    ∙ ap (λ r. then_run r (decode_incoming_tcp_message env.tpl))
        (read_bytes-whole body (local_array env.garbage (length body)) rs
          (record d { tcp_reads = got body ∷ rs }) refl pos (omega arith)
          (length-local_array env.garbage (length body)))

-- A message that the client has packed and framed, of at most 127 bytes, does what it is for.
pub receive-handled :
    (env : Env) (n : Notice) (body : Bytes) (rs : List ReadOutcome) (d : Driver)
    → Laws env.tpl
    → env.tpl.dump (format_of n) (values_of n) ≡ some body
    → d.tcp_reads ≡ got (htonl_bytes (length body)) ∷ got body ∷ rs
    → 0 < length body
    → length body < 128
    → receive_message env d ≡ handled n (record d { tcp_reads = rs })
receive-handled env n body rs d laws packed e pos small =
    receive-frame env body rs d e pos small
    ∙ decode-handled env.tpl laws n body (record d { tcp_reads = rs }) packed
