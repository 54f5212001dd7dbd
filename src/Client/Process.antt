-- ===== src/Client/Process.antt =====
-- The state that the threads of BLEGatewayClient/client.c share, and how a call of one of its
-- functions can end.
use io_tblegateway.Common.{
  ℕ, zero, suc, ◌-◌, ◌^◌, ◌≡◌, refl, ap, Bool, true, Option, none, some, List, [], ◌∷◌, Bytes,
  length,
}
use io_tblegateway.Posix.{ReadOutcome, WriteOutcome}
use io_tblegateway.Tpl.{Tpl}

-- The system calls to come on the serial port and the TCP socket, what both have taken so far, and
-- `abort_cmd`.
pub record World : Type 0 where
  pub serial_reads : List ReadOutcome
  pub serial_writes : List WriteOutcome
  pub tcp_reads : List ReadOutcome
  pub tcp_sends : List WriteOutcome
  pub serial_out : Bytes
  pub tcp_out : Bytes
  pub abort_cmd : Bool

-- A call returns, waits in a system call, ends its thread by `pthread_exit`, or is undefined.
pub data Res (A : Type 0) : Type 0 where
  ret : A → World → Res A
  blocked : World → Res A
  exited : World → Res A
  fault : Res A

abbrev pub M : Type 0 → Type 0
M A = World → Res A

abbrev pub then_run : {A B : Type 0} → Res A → (A → M B) → Res B
then_run (ret a w) f = f a w
then_run (blocked w) f = blocked w
then_run (exited w) f = exited w
then_run fault f = fault

infixl 5 ◌>>=◌ ◌>>◌
abbrev pub ◌>>=◌ : {A B : Type 0} → M A → (A → M B) → M B
◌>>=◌ m f w = then_run (m w) f

abbrev pub ◌>>◌ : {B : Type 0} → M (Unit {0}) → M B → M B
◌>>◌ m k w = then_run (m w) (λ _. k)

abbrev pub pure : {A : Type 0} → A → M A
pure a w = ret a w

abbrev pub undefined : {A : Type 0} → M A
undefined w = fault

abbrev pub from_option : {A : Type 0} → Option A → M A
from_option none w = fault
from_option (some a) w = ret a w

abbrev pub pthread_exit : {A : Type 0} → M A
pthread_exit w = exited w

-- The lock is held for one access only, and the calls of the mutex are taken to succeed: a thread
-- that waits for it makes its step when the other one has released it.
unfoldable pub read_abort_threadsafe : M Bool
read_abort_threadsafe w = ret w.abort_cmd w

unfoldable pub signal_abort_threadsafe : M (Unit {0})
signal_abort_threadsafe w = ret tt (record w { abort_cmd = true })

-- `signal_abort_threadsafe(); pthread_exit(NULL);`
unfoldable pub quit : {A : Type 0} → M A
unfolding signal_abort_threadsafe
quit = do signal_abort_threadsafe; pthread_exit

-- What the process runs with: the serialiser, and what uninitialised stack memory holds.
pub record Env : Type 0 where
  pub tpl : Tpl
  pub garbage : ℕ → ℕ

-- an array of `n` bytes on the stack, not initialised
unfoldable pub local_array : (ℕ → ℕ) → ℕ → Bytes
local_array garbage zero = []
local_array garbage (suc n) = garbage n ∷ local_array garbage n

pub length-local_array : (garbage : ℕ → ℕ) (n : ℕ) → length (local_array garbage n) ≡ n
unfolding local_array
length-local_array garbage zero = refl
length-local_array garbage (suc n) = ap suc (length-local_array garbage n)

-- an `int` as its 32 bits
abbrev pub minus_one : ℕ
minus_one = 2 ^ 32 - 1
