-- ===== src/Client/Start.antt =====
-- `main` and `connect_to_server` of BLEGatewayClient/client.c, up to the work of the threads. What
-- the operating system answers to each call is a parameter.
pub mod Threaded
use io_tblegateway.Common.{
  subst, refl, true, false, none, some, inl, inr, Bool-cases, leb, ◌++◌, arith, ℕ, zero, suc, ◌+◌,
  ◌≤◌, ◌≡◌, Bool, ◌&&◌, Option, List, [], ◌∷◌, ltb, if◌then◌else◌, Bytes,
}
use io_tblegateway.Posix.{WriteOutcome, took}
use io_tblegateway.Bglib.Indices.{ble_cmd_gap_end_procedure_idx}
use io_tblegateway.Bglib.Lookup.{apis}
use io_tblegateway.Bglib.Send.{kind_of}
use io_tblegateway.Bglib.Send.Layout.{kinds, fixed, array, nil}
use io_tblegateway.Bglib.Send.Rounds.{final, finish}
use io_tblegateway.Bglib.Send.RoundTrip.{packet_of}
use io_tblegateway.Client.Tcp.Delivery.{ble_cmd-delivers}
use io_tblegateway.Client.Process.{World, Res, ret, blocked, exited, fault}
use io_tblegateway.Client.Commands.{end_procedure}
use io_tblegateway.Client.Threads.{checking, System, Starts}

-- one call of `connect_to_server`: `socket` fails, `connect` fails, or a descriptor
pub data Connection : Type 0 where
  no_socket : Connection
  refused : Connection
  connected : ℕ → Connection

-- `CONNECTION_RETRY`
abbrev pub connection_retry : ℕ
connection_retry = 2

-- how the loop ends: with a descriptor, by `exit(-1)`, or it waits in a call
pub data Attempt : Type 0 where
  descriptor : ℕ → Attempt
  exit : Attempt
  waits : Attempt

-- the loop over `connect_to_server`; `retry` counts the refusals
unfoldable pub connect_loop : ℕ → List Connection → Attempt
connect_loop retry [] = waits
connect_loop retry (no_socket ∷ cs) = exit
connect_loop retry (refused ∷ cs) =
    let again = connect_loop (retry + 1) cs in
    if ltb connection_retry (retry + 1) then exit else again
connect_loop retry (connected fd ∷ cs) = descriptor fd

-- The answers to the calls of `main`: `uart_open`, which is `none` below 0, the connections,
-- whether `pthread_mutex_init` is 0, and whether the two threads are created.
pub record Answers : Type 0 where
  pub serial : Option ℕ
  pub connections : List Connection
  pub mutex : Bool
  pub response_thread : Bool
  pub command_thread : Bool

-- `main` exits, waits, has ended its own thread, is undefined, or has started the threads.
pub data Started : Type 0 where
  exits : World → Started
  hangs : World → Started
  ends : World → Started
  undefined : Started
  runs : System → Started

-- `pthread_create` returns a positive number on an error, which the test `< 0` does not see: the
-- join of a thread that does not exist is undefined.
unfoldable pub create_threads : Answers → World → Started
create_threads a w =
    if a.response_thread && a.command_thread
    then runs (record { command = checking; response = checking; world = w })
    else undefined

unfoldable pub after_procedure : Answers → Res ℕ → Started
unfolding create_threads
after_procedure a (ret r w) =
    if a.mutex then create_threads a (record w { abort_cmd = false }) else exits w
after_procedure a (blocked w) = hangs w
after_procedure a (exited w) = ends w
after_procedure a fault = undefined

unfoldable pub after_connect : Answers → Attempt → World → Started
unfolding after_procedure
after_connect a (descriptor fd) w = after_procedure a (end_procedure w)
after_connect a exit w = exits w
after_connect a waits w = hangs w

unfoldable pub after_open : Answers → Option ℕ → World → Started
unfolding after_connect connect_loop
after_open a none w = exits w
after_open a (some fd) w = after_connect a (connect_loop 0 a.connections) w

unfoldable pub main : ℕ → Answers → World → Started
unfolding after_open
main argc a w = if ltb argc 4 then exits w else after_open a a.serial w
