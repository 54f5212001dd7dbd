-- ===== src/Client/Tcp/Framing.antt =====
-- What `process_message_from_tcpsocket` of BLEGatewayClient/client.c does with a message, a closed
-- socket and an error.
use io_tblegateway.Common.{
  ℕ, ◌^◌, ◌<◌, ◌≡◌, refl, ap, ◌∙◌, List, [], ◌∷◌, ◌++◌, append-nil, arith, Bytes, length, drop,
  drop_self,
}
use io_tblegateway.Posix.{ReadOutcome, got, value, returns}
use io_tblegateway.Uart.{read_loop}
use io_tblegateway.Uart.Receive.{read_loop-whole}
use io_tblegateway.Client.Process.{
  World, ret, then_run, pure, Env, local_array, length-local_array, minus_one,
}
use io_tblegateway.Client.Transport.{read_bytes_from_tcpsocket, htonl_bytes}
use io_tblegateway.Client.Commands.{decode_incoming_tcp_message}
use io_tblegateway.Client.Tcp.{
  receive_header_size, size_from, after_data, read_data, after_header,
  process_message_from_tcpsocket,
}

-- A length below 2 ^ 32 comes back from the loop over the four bytes that `htonl` makes of it.
pub size_from-htonl_bytes : (n : ℕ) → n < 2 ^ 32 → size_from 0 (htonl_bytes n) ≡ n
unfolding size_from htonl_bytes
size_from-htonl_bytes n h = omega arith

-- One read that brings exactly what was asked for fills the array.
pub read_bytes-whole :
    (bs buf : Bytes) (rs : List ReadOutcome) (w : World)
    → w.tcp_reads ≡ got bs ∷ rs
    → 0 < length bs
    → length bs < 2 ^ 31
    → length buf ≡ length bs
    → read_bytes_from_tcpsocket (length bs) buf w
      ≡ ret (value (length bs), bs) (record w { tcp_reads = rs })
unfolding read_bytes_from_tcpsocket
read_bytes-whole bs buf rs w e pos small size = rw (run, nothing_left, append-nil) (ground arith)
  where
    run :
        read_loop (length bs) w.tcp_reads buf 0 (length bs)
        ≡ record { io = returns (value (length bs)); rest = rs; buf = bs ++ drop (length bs) buf }
    run =
        ap (λ reads. read_loop (length bs) reads buf 0 (length bs)) e
        ∙ read_loop-whole rs bs buf pos (omega arith)

    nothing_left : drop (length bs) buf ≡ []
    nothing_left = rw (← size) (drop_self buf)

module _ (env : Env) (rs : List ReadOutcome) (w : World) where
  abbrev header_b : Bytes
  header_b = local_array env.garbage receive_header_size

  abbrev after_reads : List ReadOutcome → World
  after_reads left = record w { tcp_reads = left }

  -- If the first read brings no bytes, since the gateway has closed the socket, the call returns -1
  -- and does nothing else.
  pub process_message-closed :
      w.tcp_reads ≡ got [] ∷ rs
      → process_message_from_tcpsocket env w ≡ ret minus_one (after_reads rs)
  unfolding process_message_from_tcpsocket after_header read_bytes_from_tcpsocket read_loop
  process_message-closed e = rw (ap (λ reads. read_loop 4 reads header_b 0 4) e)

  -- If the read of the header fails, the call returns `errno` and does nothing else.
  pub process_message-failed :
      {errno : ℕ}
      → w.tcp_reads ≡ ReadOutcome.failed errno ∷ rs
      → process_message_from_tcpsocket env w ≡ ret errno (after_reads rs)
  unfolding process_message_from_tcpsocket after_header read_bytes_from_tcpsocket read_loop
  process_message-failed e = rw (ap (λ reads. read_loop 4 reads header_b 0 4) e)

  read_header :
      {left : List ReadOutcome} (n : ℕ)
      → w.tcp_reads ≡ got (htonl_bytes n) ∷ left
      → n < 2 ^ 32
      → process_message_from_tcpsocket env w ≡ read_data env n (after_reads left)
  unfolding process_message_from_tcpsocket after_header htonl_bytes
  read_header {left} n e small =
      ap (λ r. then_run r (after_header env))
        (read_bytes-whole (htonl_bytes n) header_b left w e (omega arith) (omega arith)
          (length-local_array env.garbage 4))
      ∙ ap (λ size. read_data env size (after_reads left)) (size_from-htonl_bytes n small)

  -- A message of no bytes is skipped.
  pub process_message-empty :
      w.tcp_reads ≡ got (htonl_bytes 0) ∷ rs
      → process_message_from_tcpsocket env w ≡ ret 0 (after_reads rs)
  unfolding read_data
  process_message-empty e = read_header 0 e (omega arith)

  -- A message of 1 to 2 ^ 31 - 1 bytes that comes as its header and its body, each in one read, is
  -- decoded;
  -- what the decoding returns is dropped, and the message counts as processed.
  pub process_message-frame :
      (body : Bytes)
      → w.tcp_reads ≡ got (htonl_bytes (length body)) ∷ got body ∷ rs
      → 0 < length body
      → length body < 2 ^ 31
      → process_message_from_tcpsocket env w
        ≡ then_run (decode_incoming_tcp_message env body (after_reads rs)) (λ _. pure 0)
  unfolding read_data
  process_message-frame body e pos small =
      read_header (length body) e (omega arith)
      ∙ (ground arith)
      ∙ ap (λ r. then_run r (after_data env))
          (read_bytes-whole body (local_array env.garbage (length body)) rs
            (after_reads (got body ∷ rs)) refl pos small
            (length-local_array env.garbage (length body)))
