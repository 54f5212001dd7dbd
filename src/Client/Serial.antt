-- ===== src/Client/Serial.antt =====
-- `read_message_from_serial_port` of BLEGatewayClient/client.c: one message of the dongle.
pub mod Rows
pub mod Forward
use io_tblegateway.Common.{ℕ, Option, none, some, [], ◌∷◌, ◌==◌, if◌then◌else◌, Bytes}
use io_tblegateway.Posix.{Ret, value, error}
use io_tblegateway.Bglib.Handlers.{Handler}
use io_tblegateway.Bglib.Types.{Header, BleMsg, MsgPtr, null, ref, wild}
use io_tblegateway.Bglib.Lookup.{ble_get_msg_hdr}
use io_tblegateway.Client.Process.{M, ◌>>=◌, ◌>>◌, pure, undefined, Env, local_array, minus_one}
use io_tblegateway.Client.Transport.{serial_rx}
use io_tblegateway.Client.Callbacks.{callback}

-- the size of `data`, "enough for BLE"
abbrev pub data_size : ℕ
data_size = 256

-- `apimsg->handler(data)`
unfoldable pub call_handler : Env → Bytes → Option Handler → M ℕ
call_handler env data_bytes none = undefined
call_handler env data_bytes (some h) = do callback env h data_bytes; pure 0

unfoldable pub dispatch : Env → Bytes → MsgPtr → M ℕ
unfolding call_handler
dispatch env data_bytes null = pure minus_one
dispatch env data_bytes (ref m) = call_handler env data_bytes m.handler
dispatch env data_bytes wild = undefined

-- A count of 0, after a timeout inside the message, is not told from a full read.
unfoldable pub on_data : Env → Header → Ret × Bytes → M ℕ
on_data env apihdr (error e, data_bytes) = pure e
on_data env apihdr (value n, data_bytes) = dispatch env data_bytes (ble_get_msg_hdr apihdr)

unfoldable pub on_header : Env → Header → M ℕ
unfolding on_data
on_header env apihdr =
    if apihdr.lolen == 0
    then dispatch env (local_array env.garbage data_size) (ble_get_msg_hdr apihdr)
    else serial_rx apihdr.lolen (local_array env.garbage data_size) >>= on_data env apihdr

-- the four bytes of the packed header
unfoldable pub read_header : Env → Bytes → M ℕ
unfolding on_header
read_header env (a ∷ b ∷ c ∷ d ∷ []) =
    on_header env (record { type_hilen = a; lolen = b; cls = c; command = d })
read_header env _ = undefined

unfoldable pub on_read : Env → Ret × Bytes → M ℕ
unfolding read_header
on_read env (error e, apihdr) = pure e
on_read env (value n, apihdr) = if n == 0 then pure 0 else read_header env apihdr

unfoldable pub read_message_from_serial_port : Env → M ℕ
unfolding on_read
read_message_from_serial_port env = serial_rx 4 (local_array env.garbage 4) >>= on_read env
