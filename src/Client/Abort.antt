-- ===== src/Client/Abort.antt =====
-- How the functions of BLEGatewayClient/client.c treat `abort_cmd`.
pub mod Callbacks
pub mod Callback
pub mod Commands
pub mod Messages
use io_tblegateway.Common.{
  ℕ, ◌^◌, ◌≡◌, refl, ◌∙◌, inl, inr, Bool, true, false, Option, none, some, List, [], ◌∷◌, ltb,
  if◌then◌else◌, Bool-cases, Bytes,
}
use Prim.Native.String.{String}
use io_tblegateway.Posix.{WriteOutcome, took, Ret, value, error, Io, returns}
use io_tblegateway.Uart.{Tx, Rx, uart_tx, uart_rx, read_loop}
use io_tblegateway.Bglib.Send.{Arg, ble_send_message}
use io_tblegateway.Tpl.{Value}
use io_tblegateway.Client.Process.{
  World, Res, ret, blocked, exited, fault, M, then_run, ◌>>=◌, ◌>>◌, pure, undefined, from_option,
  signal_abort_threadsafe, quit, Env,
}
use io_tblegateway.Client.Transport.{
  finish_tx, finish_serial, finish_tcp, serial_tx, serial_rx, read_bytes_from_tcpsocket, send_in,
  tcp_send, or_quit, send_message_to_tcpsocket, send_message_to_serial_port,
}
use io_tblegateway.Client.Commands.{ble_cmd}
use io_tblegateway.Client.Callbacks.Access.{send_packed}

-- What a call that starts in a state does to `abort_cmd`: it leaves it as it was if it returns or
-- waits, and has set it if it ends the thread.
abbrev pub Sound : {A : Type 0} → World → Res A → Type 0
Sound w (ret a w') = w'.abort_cmd ≡ w.abort_cmd
Sound w (blocked w') = w'.abort_cmd ≡ w.abort_cmd
Sound w (exited w') = w'.abort_cmd ≡ true
Sound w fault = Unit

pub record Keeps {A : Type 0} (m : M A) : Type 0 where
  pub keeps : (w : World) → Sound w (m w)

Sound-then :
    {A B : Type 0} (w : World) (r : Res A) (f : A → M B)
    → Sound w r
    → ((a : A) → Keeps (f a))
    → Sound w (then_run r f)
Sound-then {B = B} w (ret a w1) f h k = moved (f a w1) ((k a).keeps w1)
  where
    moved : (r : Res B) → Sound w1 r → Sound w r
    moved (ret b w2) e = e ∙ h
    moved (blocked w2) e = e ∙ h
    moved (exited w2) e = e
    moved fault e = e
Sound-then w (blocked w1) f h k = h
Sound-then w (exited w1) f h k = h
Sound-then w fault f h k = h

pub Keeps-bind :
    {A B : Type 0} {m : M A} {f : A → M B} → Keeps m → ((a : A) → Keeps (f a)) → Keeps (m >>= f)
Keeps-bind {m = m} {f = f} h k = record { keeps = λ w. Sound-then w (m w) f (h.keeps w) k }

pub Keeps-pure : {A : Type 0} {a : A} → Keeps (pure a)
Keeps-pure = record { keeps = λ w. refl }

pub Keeps-undefined : {A : Type 0} → Keeps (undefined {A = A})
Keeps-undefined = record { keeps = λ w. tt }

pub Keeps-from_option : {A : Type 0} (o : Option A) → Keeps (from_option o)
Keeps-from_option none = record { keeps = λ w. tt }
Keeps-from_option (some a) = record { keeps = λ w. refl }

Keeps-quit : {A : Type 0} → Keeps (quit {A = A})
unfolding quit signal_abort_threadsafe
Keeps-quit = record { keeps = λ w. refl }

pub Keeps-if : {A : Type 0} (b : Bool) {m k : M A} → Keeps m → Keeps k → Keeps (if b then m else k)
Keeps-if true h k = h
Keeps-if false h k = k

Sound-finish_tx : (w : World) (io : Io) (r : Tx) → Sound w (finish_tx w io r)
Sound-finish_tx w (returns x) r = refl
Sound-finish_tx w Io.blocked r = refl
Sound-finish_tx w Io.fault r = tt

Keeps-serial_tx : (len : ℕ) (buf : Bytes) → Keeps (serial_tx len buf)
unfolding serial_tx
Keeps-serial_tx len buf = record {
  keeps = λ w. let r = uart_tx w.serial_writes len buf in Sound-finish_tx w r.io r;
}

Sound-finish_serial : (w : World) (io : Io) (r : Rx) → Sound w (finish_serial w io r)
Sound-finish_serial w (returns x) r = refl
Sound-finish_serial w Io.blocked r = refl
Sound-finish_serial w Io.fault r = tt

pub Keeps-serial_rx : (len : ℕ) (buf : Bytes) → Keeps (serial_rx len buf)
unfolding serial_rx
Keeps-serial_rx len buf = record {
  keeps = λ w. let r = uart_rx w.serial_reads len buf in Sound-finish_serial w r.io r;
}

Sound-finish_tcp : (w : World) (io : Io) (r : Rx) → Sound w (finish_tcp w io r)
Sound-finish_tcp w (returns x) r = refl
Sound-finish_tcp w Io.blocked r = refl
Sound-finish_tcp w Io.fault r = tt

Sound-read_bytes :
    (len : ℕ) (buf : Bytes) (w : World) → Sound w (read_bytes_from_tcpsocket len buf w)
unfolding read_bytes_from_tcpsocket
Sound-read_bytes len buf w = elim (Bool-cases (ltb len (2 ^ 31))) [
  | inl small ↦ rw small (let r = read_loop len w.tcp_reads buf 0 len in Sound-finish_tcp w r.io r)
  | inr large ↦ rw large tt
]

pub Keeps-read_bytes_from_tcpsocket :
    (len : ℕ) (buf : Bytes) → Keeps (read_bytes_from_tcpsocket len buf)
Keeps-read_bytes_from_tcpsocket len buf = record { keeps = Sound-read_bytes len buf }

Sound-send_in : (os : List WriteOutcome) (bs : Bytes) (w : World) → Sound w (send_in os bs w)
unfolding send_in
Sound-send_in [] bs w = refl
Sound-send_in (WriteOutcome.failed e ∷ os) bs w = refl
Sound-send_in (took k ∷ os) bs w = refl

Keeps-tcp_send : (bs : Bytes) → Keeps (tcp_send bs)
unfolding tcp_send
Keeps-tcp_send bs = record { keeps = λ w. Sound-send_in w.tcp_sends bs w }

Keeps-or_quit : (r : Ret) → Keeps (or_quit r)
unfolding or_quit
Keeps-or_quit (value k) = Keeps-pure
Keeps-or_quit (error e) = Keeps-quit

-- The two steps of sending to the socket or to the serial port.
Keeps-two :
    {first second : M Ret}
    → Keeps first
    → Keeps second
    → Keeps (do a ← first; or_quit a; b ← second; or_quit b)
Keeps-two h k = Keeps-bind h (λ a. Keeps-bind (Keeps-or_quit a) (λ _. Keeps-bind k Keeps-or_quit))

pub Keeps-send_message_to_tcpsocket : (msg : Bytes) → Keeps (send_message_to_tcpsocket msg)
unfolding send_message_to_tcpsocket
Keeps-send_message_to_tcpsocket msg = Keeps-two (Keeps-tcp_send _) (Keeps-tcp_send _)

pub Keeps-ble_cmd : (msgid : ℕ) (args : List Arg) → Keeps (ble_cmd msgid args)
unfolding ble_cmd send_message_to_serial_port
Keeps-ble_cmd msgid args =
    Keeps-bind (Keeps-from_option (ble_send_message msgid args))
      (λ o. Keeps-bind (Keeps-two (Keeps-serial_tx _ _) (Keeps-serial_tx _ _)) (λ _. Keeps-pure))

pub Keeps-send_packed :
    (env : Env) (format : String) (values : List Value) → Keeps (send_packed env format values)
unfolding send_packed
Keeps-send_packed env format values =
    Keeps-bind (Keeps-from_option _) Keeps-send_message_to_tcpsocket
