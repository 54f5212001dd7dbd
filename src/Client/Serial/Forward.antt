-- ===== src/Client/Serial/Forward.antt =====
-- A message of the dongle on its way through `read_message_from_serial_port` of
-- BLEGatewayClient/client.c to the gateway.
use io_tblegateway.Common.{
  ◌≤◌, ◌<◌, bit_and, ◌≡◌, refl, ap, ◌∙◌, false, some, List, [], ◌∷◌, ◌++◌, arith, ◌==◌, Bytes,
  length, drop,
}
use io_tblegateway.Posix.{ReadOutcome, WriteOutcome, got, took, value}
use io_tblegateway.Uart.{uart_rx}
use io_tblegateway.Uart.Receive.{rx-whole}
use io_tblegateway.Bglib.Types.{Header, ref}
use io_tblegateway.Bglib.Lookup.{ble_get_msg_hdr}
use io_tblegateway.Bglib.Lookup.Complete.{get_msg_hdr_complete}
use io_tblegateway.Bglib.Send.{header_bytes}
use io_tblegateway.Tpl.{Laws}
use io_tblegateway.Client.Process.{World, ret, pure, then_run, Env, local_array, length-local_array}
use io_tblegateway.Client.Transport.{serial_rx, htonl_bytes}
use io_tblegateway.Client.Notices.{Notice, format_of, values_of}
use io_tblegateway.Client.Notices.Structs.{struct_of, HasAddress}
use io_tblegateway.Client.Notices.Sent.{notice-sent}
use io_tblegateway.Client.Serial.{
  data_size, dispatch, on_data, on_header, read_header, on_read, read_message_from_serial_port,
}
use io_tblegateway.Client.Serial.Rows.{
  row_of, row_index, row_of-apis, row_index_bounds, handler-row_of, struct_of-append,
}

-- One read that brings exactly what was asked for fills the start of the buffer.
serial_rx-whole :
    (bs buf : Bytes) (rs : List ReadOutcome) (w : World)
    → w.serial_reads ≡ got bs ∷ rs
    → 0 < length bs
    → length bs ≤ length buf
    → serial_rx (length bs) buf w
      ≡ ret (value (length bs), bs ++ drop (length bs) buf) (record w { serial_reads = rs })
unfolding serial_rx
serial_rx-whole bs buf rs w e pos fits =
    rw (ap (λ reads. uart_rx reads (length bs) buf) e ∙ rx-whole rs bs buf pos fits)

-- The header states the class, command and type bit of the message, and the length of its struct.
pub record Heads (hdr : Header) (n : Notice) : Type 0 where
  pub kind : bit_and hdr.type_hilen 0x80 ≡ bit_and (row_of n).hdr.type_hilen 0x80
  pub cls : hdr.cls ≡ (row_of n).hdr.cls
  pub command : hdr.command ≡ (row_of n).hdr.command
  pub lolen : hdr.lolen ≡ length (struct_of n [])
  pub some_data : 0 < length (struct_of n [])
  pub fits : length (struct_of n []) ≤ data_size

found : {hdr : Header} {n : Notice} → Heads hdr n → ble_get_msg_hdr hdr ≡ ref (row_of n)
found {hdr} {n} h =
    let (lo, hi) = row_index_bounds n in
    get_msg_hdr_complete (row_index n) hdr (row_of-apis n) lo hi h.kind h.cls h.command

serial_rx-header :
    (env : Env) (hdr : Header) (rs : List ReadOutcome) (w : World)
    → w.serial_reads ≡ got (header_bytes hdr) ∷ rs
    → serial_rx 4 (local_array env.garbage 4) w
      ≡ ret (value 4, header_bytes hdr) (record w { serial_reads = rs })
unfolding local_array
serial_rx-header env hdr rs w came =
    serial_rx-whole (header_bytes hdr) (local_array env.garbage 4) rs w came (omega arith)
      (omega arith)

on_header-data :
    (env : Env) (hdr : Header) (w : World)
    → (hdr.lolen == 0) ≡ false
    → on_header env hdr w
      ≡ then_run (serial_rx hdr.lolen (local_array env.garbage data_size) w) (on_data env hdr)
unfolding on_header
on_header-data env hdr w e = rw e refl

module _ (env : Env) (laws : Laws env.tpl) {hdr : Header} {n : Notice} (h : Heads hdr n)
    (six : HasAddress n) {msg : Bytes} (pack : env.tpl.dump (format_of n) (values_of n) ≡ some msg)
    (sends : List WriteOutcome) where
  abbrev after : World → World
  after w = record w { tcp_sends = sends; tcp_out = w.tcp_out ++ (htonl_bytes (length msg) ++ msg) }

  dispatch-notice :
      (tail : Bytes) (w : World)
      → w.tcp_sends ≡ took 4 ∷ took (length msg) ∷ sends
      → dispatch env (struct_of n [] ++ tail) (ble_get_msg_hdr hdr) w ≡ ret 0 (after w)
  unfolding dispatch
  dispatch-notice tail w takes =
      rw (found h, handler-row_of n, struct_of-append n tail)
        (ap (λ r. then_run r (λ _. pure 0))
          (notice-sent env laws n msg tail sends w six pack takes).0)

  -- A message that the client passes on, which arrives as its header and its struct, each in one
  -- read, makes `read_message_from_serial_port` return 0 and send one frame, the length and the
  -- packed fields, if the socket takes what is sent; and the gateway unpacks those fields from it.
  pub message-forwarded :
      (reads : List ReadOutcome) (w : World)
      → w.serial_reads ≡ got (header_bytes hdr) ∷ got (struct_of n []) ∷ reads
      → w.tcp_sends ≡ took 4 ∷ took (length msg) ∷ sends
      → (read_message_from_serial_port env w ≡ ret 0 (record (after w) { serial_reads = reads }))
        × (env.tpl.unpack (format_of n) msg ≡ some (values_of n))
  unfolding read_message_from_serial_port on_data on_read read_header
  message-forwarded reads w came takes = (
    ap (λ r. then_run r (on_read env)) (serial_rx-header env hdr _ w came)
        ∙ (on_header-data env hdr w1 long
            ∙ (ap (λ r. then_run r (on_data env hdr)) body_read ∙ dispatch-notice tail w2 takes)),
    laws.unpack-dump _ _ msg pack,
  )
    where
      w1 : World
      w1 = record w { serial_reads = got (struct_of n []) ∷ reads }

      w2 : World
      w2 = record w { serial_reads = reads }

      tail : Bytes
      tail = drop (length (struct_of n [])) (local_array env.garbage data_size)

      long : (hdr.lolen == 0) ≡ false
      long = ground (arith, h.some_data, h.lolen)

      body_read :
          serial_rx hdr.lolen (local_array env.garbage data_size) w1
          ≡ ret (value (length (struct_of n [])), struct_of n [] ++ tail) w2
      body_read =
          ap (λ len. serial_rx len (local_array env.garbage data_size) w1) h.lolen
          ∙ serial_rx-whole (struct_of n []) (local_array env.garbage data_size) reads w1 refl
              h.some_data (rw (length-local_array env.garbage data_size) h.fits)
