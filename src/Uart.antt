-- ===== src/Uart.antt =====
-- BLEGatewayClient/uart_driver.c: `uart_tx` and `uart_rx`, the loops that move bytes through the
-- serial port. A buffer is the memory from the pointer that the caller passes to the end of the
-- object; a transfer that leaves it is a fault.
pub mod Transmit
pub mod Receive
pub mod Port
use io_tblegateway.Common.{
  ◌||◌, ℕ, ◌+◌, ◌-◌, List, [], ◌∷◌, ◌++◌, ltb, ◌==◌, if◌then◌else◌, Bytes, length, take, drop,
}
use io_tblegateway.Posix.{
  ReadOutcome, WriteOutcome, got, took, Ret, value, error, Io, returns, blocked, fault, write_at,
}

-- how `uart_tx` ends, the outcomes that are left, and the bytes that the port has taken
pub record Tx : Type 0 where
  pub io : Io
  pub rest : List WriteOutcome
  pub sent : Bytes

abbrev tx_end : Io → List WriteOutcome → Tx
tx_end io ws = record { io = io; rest = ws; sent = [] }

abbrev pub tx_more : Bytes → Tx → Tx
tx_more bs r = record r { sent = bs ++ r.sent }

-- `l` is the length asked for, `n` what is left of it, and `off` how far `data_buffer` has moved:
-- after a write of `k` bytes by the new `length`, which is `n - k`.
tx_loop : ℕ → List WriteOutcome → Bytes → ℕ → ℕ → Tx
tx_loop l [] buf off n = tx_end (if n == 0 then returns (value l) else blocked) []
tx_loop l (WriteOutcome.failed e ∷ ws) buf off n =
    if n == 0
    then tx_end (returns (value l)) (WriteOutcome.failed e ∷ ws)
    else tx_end (returns (error e)) ws
tx_loop l (took k ∷ ws) buf off n =
    let next = tx_more (take k (drop off buf)) (tx_loop l ws buf (off + (n - k)) (n - k)) in
    if n == 0
    then tx_end (returns (value l)) (took k ∷ ws)
    else if ltb n k || ltb (length buf) (off + k)
    then tx_end fault ws
    else next

unfoldable pub uart_tx : List WriteOutcome → ℕ → Bytes → Tx
unfolding tx_loop
uart_tx ws len buf = tx_loop len ws buf 0 len

-- how `uart_rx` ends, the outcomes that are left, and the caller's buffer
pub record Rx : Type 0 where
  pub io : Io
  pub rest : List ReadOutcome
  pub buf : Bytes

abbrev rx_end : Io → List ReadOutcome → Bytes → Rx
rx_end io rs buf = record { io = io; rest = rs; buf = buf }

unfoldable pub read_loop : ℕ → List ReadOutcome → Bytes → ℕ → ℕ → Rx
read_loop l [] buf off n = rx_end (if n == 0 then returns (value l) else blocked) [] buf
read_loop l (ReadOutcome.failed e ∷ rs) buf off n =
    if n == 0
    then rx_end (returns (value l)) (ReadOutcome.failed e ∷ rs) buf
    else rx_end (returns (error e)) rs buf
read_loop l (got bs ∷ rs) buf off n =
    let next = read_loop l rs (write_at buf off bs) (off + (n - length bs)) (n - length bs) in
    if n == 0
    then rx_end (returns (value l)) (got bs ∷ rs) buf
    else if length bs == 0
    then rx_end (returns (value 0)) rs buf
    else if ltb n (length bs) || ltb (length buf) (off + length bs)
    then rx_end fault rs buf
    else next

unfoldable pub uart_rx : List ReadOutcome → ℕ → Bytes → Rx
unfolding read_loop
uart_rx rs len buf = read_loop len rs buf 0 len
