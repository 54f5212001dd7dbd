-- ===== src/Client/Abort/Messages.antt =====
-- One message in either direction and `abort_cmd`.
use io_tblegateway.Client.Abort.{
  ℕ, Keeps, Keeps-bind, Keeps-pure, Keeps-undefined, Keeps-if, Keeps-serial_rx,
  Keeps-read_bytes_from_tcpsocket,
}
use io_tblegateway.Client.Process.{local_array, Env}
use io_tblegateway.Common.{Option, none, some, [], ◌∷◌, ◌==◌, Bytes}
use io_tblegateway.Posix.{Ret, value, error}
use io_tblegateway.Bglib.Handlers.{Handler}
use io_tblegateway.Bglib.Types.{Header, MsgPtr, null, ref, wild}
use io_tblegateway.Client.Tcp.{
  receive_header_size, size_from, read_data, after_data, after_header,
  process_message_from_tcpsocket,
}
use io_tblegateway.Bglib.Lookup.{ble_get_msg_hdr}
use io_tblegateway.Client.Serial.{
  call_handler, dispatch, on_data, on_header, read_header, on_read, read_message_from_serial_port,
}
use io_tblegateway.Client.Abort.Callback.{Keeps-callback}
use io_tblegateway.Client.Abort.Commands.{Keeps-decode_incoming_tcp_message}

module _ (env : Env) where
  Keeps-after_data : (r : Ret × Bytes) → Keeps (after_data env r)
  unfolding after_data
  Keeps-after_data (error e, bs) = Keeps-pure
  Keeps-after_data (value n, bs) =
      Keeps-bind (Keeps-decode_incoming_tcp_message env bs) (λ _. Keeps-pure)

  Keeps-read_data : (size : ℕ) → Keeps (read_data env size)
  unfolding read_data
  Keeps-read_data size = Keeps-if (size == 0) Keeps-pure (
      Keeps-bind (Keeps-read_bytes_from_tcpsocket size (local_array env.garbage size))
        Keeps-after_data)

  Keeps-after_header : (r : Ret × Bytes) → Keeps (after_header env r)
  unfolding after_header
  Keeps-after_header (error e, bs) = Keeps-pure
  Keeps-after_header (value n, bs) = Keeps-if (n == 0) Keeps-pure (Keeps-read_data (size_from 0 bs))

  -- Handling a message of the gateway leaves `abort_cmd` as it was, unless it ends the thread, and
  -- then it has set it.
  pub Keeps-process_message_from_tcpsocket : Keeps (process_message_from_tcpsocket env)
  unfolding process_message_from_tcpsocket
  Keeps-process_message_from_tcpsocket =
      Keeps-bind
        (Keeps-read_bytes_from_tcpsocket receive_header_size
          (local_array env.garbage receive_header_size))
        Keeps-after_header

  Keeps-call_handler : (bs : Bytes) (h : Option Handler) → Keeps (call_handler env bs h)
  unfolding call_handler
  Keeps-call_handler bs none = Keeps-undefined
  Keeps-call_handler bs (some h) = Keeps-bind (Keeps-callback env h bs) (λ _. Keeps-pure)

  Keeps-dispatch : (bs : Bytes) (m : MsgPtr) → Keeps (dispatch env bs m)
  unfolding dispatch
  Keeps-dispatch bs null = Keeps-pure
  Keeps-dispatch bs (ref m) = Keeps-call_handler bs m.handler
  Keeps-dispatch bs wild = Keeps-undefined

  Keeps-on_data : (hdr : Header) (r : Ret × Bytes) → Keeps (on_data env hdr r)
  unfolding on_data
  Keeps-on_data hdr (error e, bs) = Keeps-pure
  Keeps-on_data hdr (value n, bs) = Keeps-dispatch bs (ble_get_msg_hdr hdr)

  Keeps-on_header : (hdr : Header) → Keeps (on_header env hdr)
  unfolding on_header
  Keeps-on_header hdr =
      Keeps-if (hdr.lolen == 0) (Keeps-dispatch _ _)
        (Keeps-bind (Keeps-serial_rx _ _) (Keeps-on_data hdr))

  Keeps-read_header : (bs : Bytes) → Keeps (read_header env bs)
  unfolding read_header
  Keeps-read_header (a ∷ b ∷ c ∷ d ∷ []) = Keeps-on_header _
  Keeps-read_header _ = Keeps-undefined

  Keeps-on_read : (r : Ret × Bytes) → Keeps (on_read env r)
  unfolding on_read
  Keeps-on_read (error e, bs) = Keeps-pure
  Keeps-on_read (value n, bs) = Keeps-if (n == 0) Keeps-pure (Keeps-read_header bs)

  -- Handling a message of the dongle leaves `abort_cmd` as it was, unless it ends the thread, and
  -- then it has set it.
  pub Keeps-read_message_from_serial_port : Keeps (read_message_from_serial_port env)
  unfolding read_message_from_serial_port
  Keeps-read_message_from_serial_port =
      Keeps-bind (Keeps-serial_rx 4 (local_array env.garbage 4)) Keeps-on_read
