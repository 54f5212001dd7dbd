-- ===== src/Client/Callbacks/Access.antt =====
-- How a callback of BLEGatewayClient/response_callbacks.c reads its message and sends its answer. A
-- read past the buffer is undefined, and so is the use of a null node of tpl.
use io_tblegateway.Common.{
  ℕ, ◌+◌, ◌*◌, Option, none, some, List, leb, if◌then◌else◌, Bytes, length, get_elem?, take, drop,
}
use Prim.Native.String.{String}
use io_tblegateway.Tpl.{Value}
use io_tblegateway.Client.Process.{M, ◌>>=◌, pure, from_option, Env}
use io_tblegateway.Client.Transport.{send_message_to_tcpsocket}

abbrev pub uint8 : Bytes → ℕ → M ℕ
uint8 msg off = from_option (get_elem? msg off)

-- little-endian, as the host is
abbrev pub uint16 : Bytes → ℕ → M ℕ
uint16 msg off = do low ← uint8 msg off; high ← uint8 msg (off + 1); pure (low + 256 * high)

unfoldable pub slice : Bytes → ℕ → ℕ → Option Bytes
slice msg off n = if leb (off + n) (length msg) then some (take n (drop off msg)) else none

abbrev pub bd_addr : Bytes → ℕ → M Bytes
bd_addr msg off = from_option (slice msg off 6)

-- a `uint8array`: its length, and as many bytes behind it
abbrev pub uint8array : Bytes → ℕ → M Bytes
uint8array msg off = do n ← uint8 msg off; from_option (slice msg (off + 1) n)

unfoldable pub send_packed : Env → String → List Value → M (Unit {0})
send_packed env format values = do
  buffer ← from_option (env.tpl.dump format values)
  send_message_to_tcpsocket buffer
