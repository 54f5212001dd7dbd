-- ===== src/Uart/Transmit.antt =====
-- What `uart_tx` of BLEGatewayClient/uart_driver.c sends.
use io_tblegateway.Common.{
  ℕ, ◌+◌, ◌-◌, ◌*◌, ◌≤◌, ◌<◌, ◌≡◌, refl, ◌≢◌, List, [], ◌∷◌, ◌++◌, append-nil, arith, Bytes, length,
  take, drop, length-append, length-take, length-drop,
}
use io_tblegateway.Posix.{WriteOutcome, took, value, returns, blocked, fault}
use io_tblegateway.Uart.{tx_loop, uart_tx}

tx_loop-zero :
    (l : ℕ) (ws : List WriteOutcome) (buf : Bytes) (off : ℕ)
    → tx_loop l ws buf off 0 ≡ record { io = returns (value l); rest = ws; sent = [] }
unfolding tx_loop
tx_loop-zero l [] buf off = refl
tx_loop-zero l (WriteOutcome.failed x ∷ ws) buf off = refl
tx_loop-zero l (took k ∷ ws) buf off = refl

pub tx-nothing :
    (ws : List WriteOutcome) (buf : Bytes)
    → uart_tx ws 0 buf ≡ record { io = returns (value 0); rest = ws; sent = [] }
unfolding uart_tx
tx-nothing ws buf = tx_loop-zero 0 ws buf 0

-- If the port takes all `len` bytes at once, one or more, exactly those are sent, in order, and
-- `uart_tx` returns their number.
pub tx-whole :
    (ws : List WriteOutcome) (buf : Bytes) (len : ℕ)
    → 0 < len
    → len ≤ length buf
    → uart_tx (took len ∷ ws) len buf
      ≡ record { io = returns (value len); rest = ws; sent = take len buf }
unfolding uart_tx tx_loop
tx-whole ws buf len h k =
    let left : len - len ≡ 0 = omega arith in
    rw left (ground (arith, append-nil (take len buf), tx_loop-zero len ws buf 0))

tx_loop-count :
    (l : ℕ) (ws : List WriteOutcome) (buf : Bytes) (off n : ℕ) {v : ℕ}
    → (tx_loop l ws buf off n).io ≡ returns (value v)
    → (v ≡ l) × (length (tx_loop l ws buf off n).sent ≡ n)
unfolding tx_loop
tx_loop-count l [] buf off n e = ground arith
tx_loop-count l (WriteOutcome.failed x ∷ ws) buf off n e = ground arith
tx_loop-count l (took k ∷ ws) buf off n {v} e =
    let now = take k (drop off buf) in
    let later = tx_loop l ws buf (off + (n - k)) (n - k) in
    ground (
      arith,
      tx_loop-count l ws buf (off + (n - k)) (n - k) {v = v},
      length-append now later.sent,
      length-take k (drop off buf),
      length-drop off buf,
    )

-- When `uart_tx` returns a count it is the length asked for, and the port has taken as many bytes.
pub tx-count :
    (ws : List WriteOutcome) (len : ℕ) (buf : Bytes) {v : ℕ}
    → (uart_tx ws len buf).io ≡ returns (value v)
    → (v ≡ len) × (length (uart_tx ws len buf).sent ≡ len)
unfolding uart_tx
tx-count ws len buf e = tx_loop-count len ws buf 0 len e

-- Each outcome moves at least one byte, or is an error.
abbrev pub Progress : List WriteOutcome → Type 0
Progress [] = Unit
Progress (WriteOutcome.failed e ∷ ws) = Progress ws
Progress (took k ∷ ws) = (0 < k) × Progress ws

tx_loop-ends :
    (l : ℕ) (ws : List WriteOutcome) (buf : Bytes) (off n : ℕ)
    → Progress ws
    → n ≤ length ws
    → (tx_loop l ws buf off n).io ≢ blocked
unfolding tx_loop
tx_loop-ends l [] buf off n p h = ground arith
tx_loop-ends l (WriteOutcome.failed x ∷ ws) buf off n p h = ground arith
tx_loop-ends l (took k ∷ ws) buf off n p h =
    ground (arith, tx_loop-ends l ws buf (off + (n - k)) (n - k) p.1)

-- If every write moves a byte or fails, `uart_tx` ends within as many writes as there are bytes.
pub tx-ends :
    (ws : List WriteOutcome) (len : ℕ) (buf : Bytes)
    → Progress ws
    → len ≤ length ws
    → (uart_tx ws len buf).io ≢ blocked
unfolding uart_tx
tx-ends ws len buf p h = tx_loop-ends len ws buf 0 len p h

-- A buffer of `len` bytes of which the first write takes `k`, less than half: since the pointer
-- moves by what is left, the second write would read past the buffer.
pub tx-split-short :
    (ws : List WriteOutcome) (buf : Bytes) (len k : ℕ)
    → length buf ≡ len
    → 0 < k
    → 2 * k < len
    → (uart_tx (took k ∷ took (len - k) ∷ ws) len buf).io ≡ fault
unfolding uart_tx tx_loop
tx-split-short ws buf len k size pos short = ground arith

-- A buffer of `len` bytes of which the first write takes `k`, half or more, and the second the
-- rest: the number of bytes that go out is right, but after the first `k` the bytes from offset
-- `len - k` are sent, and not those from offset `k`.
pub tx-split-long :
    (ws : List WriteOutcome) (buf : Bytes) (len k : ℕ)
    → length buf ≡ len
    → k < len
    → len ≤ 2 * k
    → uart_tx (took k ∷ took (len - k) ∷ ws) len buf ≡ record {
      io = returns (value len);
      rest = ws;
      sent = take k buf ++ take (len - k) (drop (len - k) buf);
    }
unfolding uart_tx tx_loop
tx-split-long ws buf len k size lt long =
    rw (shift, left)
      (ground (
        arith,
        tx_loop-zero len ws buf (len - k + 0),
        append-nil (take (len - k) (drop (len - k) buf)),
      ))
  where
    shift : 0 + (len - k) ≡ len - k
    shift = omega arith

    left : len - k - (len - k) ≡ 0
    left = omega arith
