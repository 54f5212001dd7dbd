-- ===== src/Tests/Uart.antt =====
-- Runs of the transfer routines of BLEGatewayClient/uart_driver.c.
use io_tblegateway.Common.{none, some, false, true, ℕ, ◌≡◌, refl, [], ◌∷◌, arith}
use io_tblegateway.Posix.{write_at, WriteOutcome, got, took, value, error, returns}
use io_tblegateway.Uart.{uart_tx, uart_rx}
use io_tblegateway.Uart.Port.{Termios, Calls, Port, uart_open}
use io_tblegateway.Uart.Port.Opening.{Opened, uart_open-Opened}
use io_tblegateway.Uart.Transmit.{tx-split-long}
use io_tblegateway.Uart.Receive.{Counted, rx-Counted}

abbrev two_writes : ℕ
two_writes = 3

-- The last byte of four goes out, but the third is sent twice: 7, 8, 9 and then 8.
tx-split-long_example :
    uart_tx (took 3 ∷ took 1 ∷ []) 4 (7 ∷ 8 ∷ 9 ∷ 10 ∷ [])
    ≡ record { io = returns (value 4); rest = []; sent = 7 ∷ 8 ∷ 9 ∷ 8 ∷ [] }
tx-split-long_example = tx-split-long [] (7 ∷ 8 ∷ 9 ∷ 10 ∷ []) 4 3 refl (omega arith) (omega arith)

tx_error : (uart_tx (took 1 ∷ WriteOutcome.failed 5 ∷ []) 2 (7 ∷ 8 ∷ [])).io ≡ returns (error 5)
unfolding uart_tx
tx_error = refl

rx-Counted_example :
    Counted 2 2 2
      (got (7 ∷ []) ∷ got (8 ∷ []) ∷ [])
      (uart_rx (got (7 ∷ []) ∷ got (8 ∷ []) ∷ []) 2 (0 ∷ 0 ∷ []))
unfolding uart_rx write_at
rx-Counted_example = rx-Counted (got (7 ∷ []) ∷ got (8 ∷ []) ∷ []) 2 (0 ∷ 0 ∷ []) refl (omega arith)

rx_timeout : (uart_rx (got (7 ∷ []) ∷ got [] ∷ []) 2 (0 ∷ 0 ∷ [])).io ≡ returns (value 0)
unfolding uart_rx
rx_timeout = refl

abbrev old : Termios
old = record {
  c_cflag = record {
    parenb = true;
    cstopb = false;
    csize = 2;
    crtscts = true;
    hupcl = true;
    clocal = false;
    cread = true;
    other = 13;
  };
  c_lflag = record {
    icanon = true;
    isig = true;
    echo = true ∷ true ∷ true ∷ false ∷ true ∷ false ∷ true ∷ [];
    iexten = true;
    other = 0;
  };
  c_iflag = record {
    inpck = false;
    ixon = true;
    ixoff = false;
    ixany = false;
    icrnl = true;
    istrip = false;
    inlcr = false;
    igncr = false;
    parmrk = false;
    other = 4;
  };
  c_oflag = record { opost = true; onlcr = true; other = 0 };
  c_cc = 3 ∷ 28 ∷ 127 ∷ [];
  vtime = 5;
  vmin = 0;
  ispeed = 9600;
  ospeed = 9600;
}

-- the port is in use by another process
abbrev calls : Calls
calls = record {
  open_fd = some 3;
  isatty = true;
  stack = old;
  tcgetattr = some old;
  cfsetispeed = true;
  cfsetospeed = true;
  tcsetattr = true;
  applied = λ t. t;
  flock = false;
}

abbrev port : Port
port = record { fds = 0 ∷ 1 ∷ 2 ∷ []; options = none; locked = false }

uart_open-Opened_example : Opened calls port (uart_open calls port)
uart_open-Opened_example = uart_open-Opened calls port
