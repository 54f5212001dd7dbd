-- ===== src/Uart/Port.antt =====
-- `uart_open`, `uart_configure` and `uart_close` of BLEGatewayClient/uart_driver.c. What the system
-- calls answer is a parameter. The options are decoded: a field for each flag that the code names,
-- and for those of the input that change bytes, and `other` for the rest.
pub mod Opening
use io_tblegateway.Common.{
  ◌==◌, subst, ℕ, bit_or, ◌≡◌, refl, sym, inl, inr, Bool, true, false, ◌&&◌, Option, none, some,
  List, [], ◌∷◌, arith, if◌then◌else◌, Option-cases,
}

pub record ControlFlags : Type 0 where
  pub parenb : Bool
  pub cstopb : Bool
  pub csize : ℕ
  pub crtscts : Bool
  pub hupcl : Bool
  pub clocal : Bool
  pub cread : Bool
  pub other : ℕ

pub record LocalFlags : Type 0 where
  pub icanon : Bool
  pub isig : Bool
  -- `ECHO`, `ECHOE`, `ECHOK`, `ECHONL`, `ECHOCTL`, `ECHOPRT` and `ECHOKE`
  pub echo : List Bool
  pub iexten : Bool
  pub other : ℕ

pub record InputFlags : Type 0 where
  pub inpck : Bool
  pub ixon : Bool
  pub ixoff : Bool
  pub ixany : Bool
  pub icrnl : Bool
  -- `ISTRIP`, `INLCR`, `IGNCR` and `PARMRK`, which the code leaves as they are
  pub istrip : Bool
  pub inlcr : Bool
  pub igncr : Bool
  pub parmrk : Bool
  pub other : ℕ

pub record OutputFlags : Type 0 where
  pub opost : Bool
  pub onlcr : Bool
  pub other : ℕ

-- `struct termios`; of `c_cc` the entries `VTIME` and `VMIN` are apart.
pub record Termios : Type 0 where
  pub c_cflag : ControlFlags
  pub c_lflag : LocalFlags
  pub c_iflag : InputFlags
  pub c_oflag : OutputFlags
  pub c_cc : List ℕ
  pub vtime : ℕ
  pub vmin : ℕ
  pub ispeed : ℕ
  pub ospeed : ℕ

-- `CS8`, both bits of `CSIZE`
abbrev pub cs8 : ℕ
cs8 = 3

-- `_POSIX_VDISABLE` of Linux
abbrev pub posix_vdisable : ℕ
posix_vdisable = 0

-- the loop over `c_cc`
unfoldable pub disable : List ℕ → List ℕ
disable [] = []
disable (x ∷ xs) = posix_vdisable ∷ disable xs

abbrev pub cleared_flags : List Bool → List Bool
cleared_flags [] = []
cleared_flags (b ∷ bs) = false ∷ cleared_flags bs

-- `B115200`, in baud
abbrev pub b115200 : ℕ
b115200 = 115200

-- The options that `uart_configure` sets, where `cfsetispeed` and `cfsetospeed` return 0 or not.
unfoldable pub configured : Bool → Bool → Termios → Termios
unfolding disable
configured input output t = record {
  c_cflag = record {
    parenb = false;
    cstopb = false;
    csize = bit_or 0 cs8;
    crtscts = false;
    hupcl = false;
    clocal = true;
    cread = true;
    other = t.c_cflag.other;
  };
  c_lflag = record {
    icanon = false;
    isig = false;
    echo = cleared_flags t.c_lflag.echo;
    iexten = false;
    other = t.c_lflag.other;
  };
  c_iflag = record {
    inpck = false;
    ixon = false;
    ixoff = false;
    ixany = false;
    icrnl = false;
    istrip = t.c_iflag.istrip;
    inlcr = t.c_iflag.inlcr;
    igncr = t.c_iflag.igncr;
    parmrk = t.c_iflag.parmrk;
    other = t.c_iflag.other;
  };
  c_oflag = record { opost = false; onlcr = false; other = t.c_oflag.other };
  c_cc = disable t.c_cc;
  vtime = 0;
  vmin = 1;
  ispeed = if input then b115200 else t.ispeed;
  ospeed = if output then b115200 else t.ospeed;
}

-- The answers of the system calls: the descriptor of `open`, `isatty`, the options of `tcgetattr`
-- and whether the other calls return 0. `stack` is what the options hold if `tcgetattr` fails.
-- `tcsetattr` returns 0 if it made any of the changes asked for: `applied` are the options that the
-- port then has.
pub record Calls : Type 0 where
  pub open_fd : Option ℕ
  pub isatty : Bool
  pub stack : Termios
  pub tcgetattr : Option Termios
  pub cfsetispeed : Bool
  pub cfsetospeed : Bool
  pub tcsetattr : Bool
  pub applied : Termios → Termios
  pub flock : Bool

-- the descriptors that are open, the options of the port, and whether the process has its lock
pub record Port : Type 0 where
  pub fds : List ℕ
  pub options : Option Termios
  pub locked : Bool

abbrev pub is_some : Option Termios → Bool
is_some none = false
is_some (some t) = true

abbrev pub or_stack : Termios → Option Termios → Termios
or_stack stack none = stack
or_stack stack (some t) = t

-- `ret`, which is 0 if no call failed
abbrev pub configure_ret : Calls → Bool
configure_ret c = is_some c.tcgetattr && (c.cfsetispeed && (c.cfsetospeed && c.tcsetattr))

abbrev pub options_of : Calls → Termios
unfolding configured
options_of c = configured c.cfsetispeed c.cfsetospeed (or_stack c.stack c.tcgetattr)

-- All calls are made, whatever the earlier ones return.
unfoldable pub uart_configure : Calls → Port → Bool × Port
unfolding configured
uart_configure c p = (
  configure_ret c,
  if c.tcsetattr then record p { options = some (c.applied (options_of c)) } else p,
)

unfoldable pub after_configure : ℕ → Calls → Bool × Port → Option ℕ × Port
after_configure fd c (false, p) = (none, p)
after_configure fd c (true, p) =
    if c.flock then (some fd, record p { locked = true }) else (none, p)

unfoldable pub after_open : Calls → Option ℕ → Port → Option ℕ × Port
unfolding uart_configure after_configure
after_open c none p = (none, p)
after_open c (some fd) p =
    let opened : Port = record p { fds = fd ∷ p.fds } in
    if c.isatty then after_configure fd c (uart_configure c opened) else (none, opened)

-- `none` is -1.
unfoldable pub uart_open : Calls → Port → Option ℕ × Port
unfolding after_open
uart_open c p = after_open c c.open_fd p

abbrev pub without_fd : ℕ → List ℕ → List ℕ
without_fd fd [] = []
without_fd fd (x ∷ xs) = let rest = without_fd fd xs in if x == fd then rest else x ∷ rest

-- `uart_close` when `close` returns 0 or not: the lock went with the descriptor, and the unlocking
-- of the closed descriptor has no effect.
unfoldable pub uart_close : Bool → ℕ → Port → Bool × Port
uart_close closes fd p =
    if closes then (true, record p { fds = without_fd fd p.fds; locked = false }) else (false, p)
