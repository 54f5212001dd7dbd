-- ===== src/Client/Tcp.antt =====
-- `process_message_from_tcpsocket` of BLEGatewayClient/client.c: one length-prefixed message of the
-- gateway.
pub mod Framing
pub mod Delivery
use io_tblegateway.Common.{ℕ, ◌+◌, ◌*◌, ◌%◌, ◌^◌, [], ◌∷◌, ◌==◌, if◌then◌else◌, Bytes}
use io_tblegateway.Posix.{Ret, value, error}
use io_tblegateway.Client.Process.{M, ◌>>=◌, pure, Env, local_array, minus_one}
use io_tblegateway.Client.Transport.{read_bytes_from_tcpsocket}
use io_tblegateway.Client.Commands.{decode_incoming_tcp_message}

abbrev pub receive_header_size : ℕ
receive_header_size = 4

-- `data_size = (data_size << 8) + header_b[i]`, in 32 bits, over the bytes of the header
unfoldable pub size_from : ℕ → Bytes → ℕ
size_from data_size [] = data_size
size_from data_size (b ∷ bs) = size_from ((data_size * 256 + b) % 2 ^ 32) bs

-- The result of the decoding is dropped, and a count of 0 is taken for a full message.
unfoldable pub after_data : Env → Ret × Bytes → M ℕ
after_data env (error e, data_b) = pure e
after_data env (value n, data_b) = decode_incoming_tcp_message env data_b >>= λ _. pure 0

unfoldable pub read_data : Env → ℕ → M ℕ
unfolding after_data
read_data env data_size =
    if data_size == 0
    then pure 0
    else read_bytes_from_tcpsocket data_size (local_array env.garbage data_size) >>= after_data env

unfoldable pub after_header : Env → Ret × Bytes → M ℕ
unfolding read_data size_from
after_header env (error e, header_b) = pure e
after_header env (value n, header_b) =
    if n == 0 then pure minus_one else read_data env (size_from 0 header_b)

unfoldable pub process_message_from_tcpsocket : Env → M ℕ
process_message_from_tcpsocket env =
    read_bytes_from_tcpsocket receive_header_size (local_array env.garbage receive_header_size)
    >>= after_header env
