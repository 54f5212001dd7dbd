-- ===== src/Uart/Receive.antt =====
-- What `uart_rx` of BLEGatewayClient/uart_driver.c, and the same loop in `read_bytes_from_tcpsocket`
-- of BLEGatewayClient/client.c, put into the caller's buffer.
use io_tblegateway.Common.{
  ℕ, ◌+◌, ◌-◌, ◌≤◌, ◌<◌, ◌≡◌, refl, ◌≢◌, inl, inr, List, [], ◌∷◌, ◌++◌, arith, ◌==◌, Bool-cases,
  Bytes, length, drop,
}
use io_tblegateway.Posix.{
  ReadOutcome, got, moves, value, returns, blocked, fault, write_at, length-write_at,
}
use io_tblegateway.Uart.{Rx, read_loop, uart_rx}

read_loop-zero :
    (l : ℕ) (rs : List ReadOutcome) (buf : Bytes) (off : ℕ)
    → read_loop l rs buf off 0 ≡ record { io = returns (value l); rest = rs; buf = buf }
unfolding read_loop
read_loop-zero l [] buf off = refl
read_loop-zero l (ReadOutcome.failed x ∷ rs) buf off = refl
read_loop-zero l (got bs ∷ rs) buf off = refl

pub read_loop-whole :
    (rs : List ReadOutcome) (bs buf : Bytes)
    → 0 < length bs
    → length bs ≤ length buf
    → read_loop (length bs) (got bs ∷ rs) buf 0 (length bs)
      ≡ record { io = returns (value (length bs)); rest = rs; buf = bs ++ drop (length bs) buf }
unfolding read_loop write_at
read_loop-whole rs bs buf h k =
    rw (left, start) (ground (arith, read_loop-zero (length bs) rs (bs ++ drop (length bs) buf) 0))
  where
    left : length bs - length bs ≡ 0
    left = omega arith

    start : 0 + length bs ≡ length bs
    start = omega arith

-- If one read brings all the bytes asked for, the buffer begins with them and is otherwise as it
-- was, and `uart_rx` returns their number.
pub rx-whole :
    (rs : List ReadOutcome) (bs buf : Bytes)
    → 0 < length bs
    → length bs ≤ length buf
    → uart_rx (got bs ∷ rs) (length bs) buf
      ≡ record { io = returns (value (length bs)); rest = rs; buf = bs ++ drop (length bs) buf }
unfolding uart_rx
rx-whole rs bs buf h k = read_loop-whole rs bs buf h k

-- A run of the loop leaves a suffix of the outcomes; what was used brought `n` bytes if the loop
-- returned a count other than 0.
abbrev total : List ReadOutcome → ℕ
total [] = 0
total (o ∷ rs) = moves o + total rs

pub record Counted (l n v : ℕ) (rs : List ReadOutcome) (r : Rx) : Type 0 where
  pub used : List ReadOutcome
  pub split : rs ≡ used ++ r.rest
  pub all : v ≡ l
  pub bytes : total used ≡ n

read_loop-size :
    (l : ℕ) (rs : List ReadOutcome) (buf : Bytes) (off n : ℕ)
    → length (read_loop l rs buf off n).buf ≡ length buf
unfolding read_loop
read_loop-size l [] buf off n = ground arith
read_loop-size l (ReadOutcome.failed x ∷ rs) buf off n = ground arith
read_loop-size l (got bs ∷ rs) buf off n = ground (
  arith,
  read_loop-size l rs (write_at buf off bs) (off + (n - length bs)) (n - length bs),
  length-write_at buf off bs,
)

-- `uart_rx` never changes the size of the caller's buffer: what does not fit is a fault.
pub rx-size :
    (rs : List ReadOutcome) (len : ℕ) (buf : Bytes) → length (uart_rx rs len buf).buf ≡ length buf
unfolding uart_rx
rx-size rs len buf = read_loop-size len rs buf 0 len

read_loop-Counted :
    (l : ℕ) (rs : List ReadOutcome) (buf : Bytes) (off n : ℕ) {v : ℕ}
    → (read_loop l rs buf off n).io ≡ returns (value v)
    → 0 < v
    → Counted l n v rs (read_loop l rs buf off n)
unfolding read_loop
read_loop-Counted l [] buf off n e h = record {
  used = [];
  split = ground arith;
  all = ground arith;
  bytes = ground arith;
}
read_loop-Counted l (ReadOutcome.failed x ∷ rs) buf off n e h = record {
  used = [];
  split = ground arith;
  all = ground arith;
  bytes = ground arith;
}
read_loop-Counted l (got bs ∷ rs) buf off n {v} e h = elim (Bool-cases (n == 0)) [
  | inl done ↦ record { used = []; split = ground arith; all = ground arith; bytes = ground arith }
  | inr more ↦
      let later = read_loop l rs (write_at buf off bs) (off + (n - length bs)) (n - length bs) in
      let same : later.io ≡ returns (value v) = ground arith in
      let c =
        read_loop-Counted l rs (write_at buf off bs) (off + (n - length bs)) (n - length bs) same
          h in
      record {
        used = got bs ∷ c.used;
        split = ground (arith, c.split);
        all = c.all;
        bytes = ground (arith, c.bytes);
      }
]

-- When `uart_rx` returns a count other than 0, it is the length asked for, and the reads that it
-- made brought exactly that many bytes.
pub rx-Counted :
    (rs : List ReadOutcome) (len : ℕ) (buf : Bytes) {v : ℕ}
    → (uart_rx rs len buf).io ≡ returns (value v)
    → 0 < v
    → Counted len len v rs (uart_rx rs len buf)
unfolding uart_rx
rx-Counted rs len buf e h = read_loop-Counted len rs buf 0 len e h

read_loop-ends :
    (l : ℕ) (rs : List ReadOutcome) (buf : Bytes) (off n : ℕ)
    → n ≤ length rs
    → (read_loop l rs buf off n).io ≢ blocked
unfolding read_loop
read_loop-ends l [] buf off n h = ground arith
read_loop-ends l (ReadOutcome.failed x ∷ rs) buf off n h = ground arith
read_loop-ends l (got bs ∷ rs) buf off n h =
    ground
      (arith, read_loop-ends l rs (write_at buf off bs) (off + (n - length bs)) (n - length bs))

-- `uart_rx` ends within as many reads as there are bytes asked for.
pub rx-ends :
    (rs : List ReadOutcome) (len : ℕ) (buf : Bytes)
    → len ≤ length rs
    → (uart_rx rs len buf).io ≢ blocked
unfolding uart_rx
rx-ends rs len buf h = read_loop-ends len rs buf 0 len h

module _ (rs : List ReadOutcome) (xs bs buf : Bytes)
    (size : length buf ≡ length xs + length bs) where
  mid : length buf - length xs ≡ length bs
  mid = omega arith

  shift : 0 + length bs ≡ length bs
  shift = omega arith

  -- Bytes that come in two pieces, the first shorter than the second, into a buffer of their size:
  -- since the pointer moves by what is left, the second piece would go past the buffer.
  pub rx-split-short :
      0 < length xs
      → length xs < length bs
      → (uart_rx (got xs ∷ got bs ∷ rs) (length buf) buf).io ≡ fault
  unfolding uart_rx read_loop
  rx-split-short pos short = rw (mid, shift) (ground (arith, length-write_at buf 0 xs))

  -- Bytes that come in two pieces, the second not longer than the first, into a buffer of their
  -- size: `uart_rx` returns the full count, but writes the second piece at the offset of its own
  -- length, and not behind the first.
  pub rx-split-long :
      0 < length bs
      → length bs ≤ length xs
      → uart_rx (got xs ∷ got bs ∷ rs) (length buf) buf ≡ record {
        io = returns (value (length buf));
        rest = rs;
        buf = write_at (write_at buf 0 xs) (length bs) bs;
      }
  unfolding uart_rx read_loop
  rx-split-long pos long =
      rw (mid, shift, left)
        (ground (
          arith,
          length-write_at buf 0 xs,
          read_loop-zero (length buf) rs (write_at (write_at buf 0 xs) (length bs) bs)
              (length bs + 0),
        ))
    where
      left : length bs - length bs ≡ 0
      left = omega arith
