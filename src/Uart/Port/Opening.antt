-- ===== src/Uart/Port/Opening.antt =====
-- How `uart_open` of BLEGatewayClient/uart_driver.c can end.
use io_tblegateway.Common.{
  ap, ◌&&◌, subst, ℕ, ◌≡◌, refl, sym, inl, inr, Bool, true, false, Option, none, some, ◌∷◌, arith,
  if◌then◌else◌, Option-cases,
}
use io_tblegateway.Uart.Port.{
  options_of, b115200, cs8, Termios, configured, Calls, Port, or_stack, configure_ret,
  uart_configure, after_configure, after_open, uart_open,
}

-- Eight bits without parity or flow control, no lines and signals, no change of CR to NL on input
-- and none on output, and a read waits for one byte.
pub record AsksForBytes (t : Termios) : Type 0 where
  pub eight_bits : t.c_cflag.csize ≡ cs8
  pub no_parity : (t.c_cflag.parenb ≡ false) × (t.c_iflag.inpck ≡ false)
  pub no_flow : (t.c_cflag.crtscts ≡ false) × (t.c_iflag.ixon ≡ false) × (t.c_iflag.ixoff ≡ false)
  pub no_lines : (t.c_lflag.icanon ≡ false) × (t.c_lflag.isig ≡ false)
  pub no_change : (t.c_iflag.icrnl ≡ false) × (t.c_oflag.opost ≡ false) × (t.c_oflag.onlcr ≡ false)
  pub waits : (t.vtime ≡ 0) × (t.vmin ≡ 1)
  pub speed : (t.ispeed ≡ b115200) × (t.ospeed ≡ b115200)

-- The other flags that change bytes on input.
pub record SameInput (t t' : Termios) : Type 0 where
  pub istrip : t.c_iflag.istrip ≡ t'.c_iflag.istrip
  pub inlcr : t.c_iflag.inlcr ≡ t'.c_iflag.inlcr
  pub igncr : t.c_iflag.igncr ≡ t'.c_iflag.igncr
  pub parmrk : t.c_iflag.parmrk ≡ t'.c_iflag.parmrk

-- `isatty` holds, and the calls after it return 0.
abbrev pub all_calls : Calls → Bool
all_calls c = c.isatty && (configure_ret c && c.flock)

pub record Ready (c : Calls) (p p' : Port) (fd : ℕ) : Type 0 where
  pub opened : c.open_fd ≡ some fd
  pub calls : all_calls c ≡ true
  pub fds : p'.fds ≡ fd ∷ p.fds
  pub before : Termios
  pub read : c.tcgetattr ≡ some before
  pub asked : Termios
  pub set : p'.options ≡ some (c.applied asked)
  pub bytes : AsksForBytes asked
  pub kept : SameInput asked before
  pub locked : p'.locked ≡ true

-- How `uart_open` can end.
pub data Opened (c : Calls) (p : Port) : Option ℕ × Port → Type 0 where
  not_opened : c.open_fd ≡ none → Opened c p (none, p)
  lost :
      (fd : ℕ) (p' : Port)
      → c.open_fd ≡ some fd
      → all_calls c ≡ false
      → p'.fds ≡ fd ∷ p.fds
      → p'.locked ≡ p.locked
      → Opened c p (none, p')
  ready : (fd : ℕ) (p' : Port) → Ready c p p' fd → Opened c p (some fd, p')

module _ (c : Calls) (p : Port) (fd : ℕ) (o : c.open_fd ≡ some fd) where
  abbrev opened : Port
  opened = record p { fds = fd ∷ p.fds }

  abbrev set_port : Port
  unfolding options_of
  set_port = record opened { options = some (c.applied (options_of c)) }

  all-Ready :
      (before : Termios)
      → all_calls c ≡ true
      → c.cfsetispeed ≡ true
      → c.cfsetospeed ≡ true
      → c.tcgetattr ≡ some before
      → Ready c p (record set_port { locked = true }) fd
  unfolding configured options_of set_port
  all-Ready before all input output read = record {
    opened = o;
    calls = all;
    fds = refl;
    before = before;
    read = read;
    asked = options_of c;
    set = refl;
    bytes = record {
      eight_bits = refl;
      no_parity = (refl, refl);
      no_flow = (refl, refl, refl);
      no_lines = (refl, refl);
      no_change = (refl, refl, refl);
      waits = (refl, refl);
      speed = (ground arith, ground arith);
    };
    kept = record {
      istrip = ap (λ t. (or_stack c.stack t).c_iflag.istrip) read;
      inlcr = ap (λ t. (or_stack c.stack t).c_iflag.inlcr) read;
      igncr = ap (λ t. (or_stack c.stack t).c_iflag.igncr) read;
      parmrk = ap (λ t. (or_stack c.stack t).c_iflag.parmrk) read;
    };
    locked = refl;
  }

  flock-Opened :
      (f : Bool)
      → c.flock ≡ f
      → c.isatty ≡ true
      → configure_ret c ≡ true
      → Opened c p (if f then (some fd, record set_port { locked = true }) else (none, set_port))
  unfolding set_port
  flock-Opened true locks tty all = elim (Option-cases c.tcgetattr) [
    | inl e ↦ absurd (ground (arith, e))
    | inr (before, e) ↦ ready fd _ (all-Ready before (ground arith) (ground arith) (ground arith) e)
  ]
  flock-Opened false fails tty all = lost fd _ o (ground arith) refl refl

  configure-Opened :
      (all set : Bool)
      → configure_ret c ≡ all
      → c.tcsetattr ≡ set
      → c.isatty ≡ true
      → Opened c p (after_configure fd c (all, if set then set_port else opened))
  unfolding after_configure set_port
  configure-Opened true true all set tty = flock-Opened c.flock refl tty all
  configure-Opened true false all set tty = absurd (ground arith)
  configure-Opened false true all set tty = lost fd _ o (ground arith) refl refl
  configure-Opened false false all set tty = lost fd _ o (ground arith) refl refl

  tty-Opened :
      (tty : Bool)
      → c.isatty ≡ tty
      → Opened c p (if tty then after_configure fd c (uart_configure c opened) else (none, opened))
  unfolding uart_configure set_port
  tty-Opened true tty = configure-Opened (configure_ret c) c.tcsetattr refl refl tty
  tty-Opened false tty = lost fd _ o (ground arith) refl refl

-- `uart_open` returns a descriptor only if it is that of `open`, the port is a terminal and no call
-- fails. The descriptor is then open besides those that were, the port is locked for the process,
-- and has what `tcsetattr` made of these options: 115200 baud, eight bits without parity and flow
-- control, no lines and signals, no change of CR to NL on input and none on output, one byte for a
-- read; `ISTRIP`, `INLCR`, `IGNCR` and `PARMRK`, which change bytes too, are as they were. It
-- returns -1 if `open` fails, and then no more descriptors are open; or if the port is no terminal
-- or a later call fails, and then the descriptor of `open` is left open, without the lock.
pub uart_open-Opened : (c : Calls) (p : Port) → Opened c p (uart_open c p)
unfolding uart_open after_open
uart_open-Opened c p = elim (Option-cases c.open_fd) [
  | inl failed ↦ subst (λ o. Opened c p (after_open c o p)) (sym failed) (not_opened failed)
  | inr (fd, o) ↦
      subst (λ o. Opened c p (after_open c o p)) (sym o) (tty-Opened c p fd o c.isatty refl)
]
