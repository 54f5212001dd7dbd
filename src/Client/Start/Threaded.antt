-- ===== src/Client/Start/Threaded.antt =====
-- When `main` of BLEGatewayClient/client.c connects, and in what state it starts the threads.
use io_tblegateway.Common.{
  subst, refl, true, false, none, some, inl, inr, Bool-cases, leb, ◌++◌, arith, ℕ, zero, suc, ◌+◌,
  ◌≤◌, ◌≡◌, ◌&&◌, Option, List, [], ◌∷◌, ltb, if◌then◌else◌, Bytes,
}
use io_tblegateway.Posix.{WriteOutcome, took}
use io_tblegateway.Bglib.Indices.{ble_cmd_gap_end_procedure_idx}
use io_tblegateway.Bglib.Lookup.{apis}
use io_tblegateway.Bglib.Send.{kind_of}
use io_tblegateway.Bglib.Send.Layout.{kinds, fixed, array, nil}
use io_tblegateway.Bglib.Send.Rounds.{final, finish}
use io_tblegateway.Bglib.Send.RoundTrip.{packet_of}
use io_tblegateway.Client.Tcp.Delivery.{ble_cmd-delivers}
use io_tblegateway.Client.Process.{World, Res, ret, blocked, exited, fault}
use io_tblegateway.Client.Commands.{end_procedure}
use io_tblegateway.Client.Threads.{checking, System, Starts}
use io_tblegateway.Client.Start.{
  Connection, connection_retry, Attempt, connect_loop, Answers, Started, create_threads,
  after_procedure, after_connect, after_open, main, refused, connected, descriptor, exit, waits,
  exits, hangs, ends, undefined, runs,
}

-- `n` refusals before the rest
abbrev pub refusals : ℕ → List Connection → List Connection
refusals zero cs = cs
refusals (suc n) cs = refused ∷ refusals n cs

connect_loop-from :
    (retry n fd : ℕ) (cs : List Connection)
    → retry ≤ connection_retry
    → connect_loop retry (refusals n (connected fd ∷ cs))
      ≡ (if leb (retry + n) connection_retry then descriptor fd else exit)
unfolding connect_loop
connect_loop-from retry zero fd cs h = ground arith
connect_loop-from retry (suc n) fd cs h = elim (Bool-cases (ltb connection_retry (retry + 1))) [
  | inl late ↦ ground arith
  | inr early ↦ ground (arith, connect_loop-from (retry + 1) n fd cs)
]

-- A server that refuses `n` times and then accepts is connected to if `n` is at most 2; else the
-- client exits.
pub connect_loop-refusals :
    (n fd : ℕ) (cs : List Connection)
    → connect_loop 0 (refusals n (connected fd ∷ cs))
      ≡ (if leb n connection_retry then descriptor fd else exit)
connect_loop-refusals n fd cs =
    let start : 0 + n ≡ n = omega arith in rw start at (connect_loop-from 0 n fd cs (omega arith))

-- What holds of the threads if they run.
abbrev Good : Started → Type 0
Good (exits w) = Unit
Good (hangs w) = Unit
Good (ends w) = Unit
Good undefined = Unit
Good (runs s) = Starts s

create_threads-Good : (a : Answers) (w : World) → w.abort_cmd ≡ false → Good (create_threads a w)
unfolding create_threads
create_threads-Good a w h = elim (Bool-cases (a.response_thread && a.command_thread)) [
  | inl both ↦ rw both (record { command = refl; response = refl; abort = h })
  | inr failed ↦ rw failed tt
]

after_procedure-Good : (a : Answers) (r : Res ℕ) → Good (after_procedure a r)
unfolding after_procedure
after_procedure-Good a (ret r w) = elim (Bool-cases a.mutex) [
  | inl ok ↦ rw ok (create_threads-Good a (record w { abort_cmd = false }) refl)
  | inr failed ↦ rw failed tt
]
after_procedure-Good a (blocked w) = tt
after_procedure-Good a (exited w) = tt
after_procedure-Good a fault = tt

after_connect-Good : (a : Answers) (t : Attempt) (w : World) → Good (after_connect a t w)
unfolding after_connect
after_connect-Good a (descriptor fd) w = after_procedure-Good a (end_procedure w)
after_connect-Good a exit w = tt
after_connect-Good a waits w = tt

after_open-Good : (a : Answers) (serial : Option ℕ) (w : World) → Good (after_open a serial w)
unfolding after_open
after_open-Good a none w = tt
after_open-Good a (some fd) w = after_connect-Good a (connect_loop 0 a.connections) w

main-Good : (argc : ℕ) (a : Answers) (w : World) → Good (main argc a w)
unfolding main
main-Good argc a w = elim (Bool-cases (ltb argc 4)) [
  | inl few ↦ rw few tt
  | inr enough ↦ rw enough (after_open-Good a a.serial w)
]

-- When `main` has started its threads, both are at the head of their loops and the abort is not
-- set, whatever it was before.
pub main-Starts :
    (argc : ℕ) (a : Answers) (w : World) {s : System} → main argc a w ≡ runs s → Starts s
main-Starts argc a w e = subst Good e (main-Good argc a w)

-- the packet of `ble_cmd_gap_end_procedure`
abbrev pub end_packet : Bytes
end_packet = 0 ∷ 0 ∷ 6 ∷ 4 ∷ []

end_procedure-sent :
    (w : World) (writes : List WriteOutcome)
    → w.serial_writes ≡ took 4 ∷ writes
    → end_procedure w
      ≡ ret 0 (record w { serial_writes = writes; serial_out = w.serial_out ++ end_packet })
unfolding end_procedure apis kinds kind_of packet_of final finish fixed array
end_procedure-sent w writes takes =
    ble_cmd-delivers ble_cmd_gap_end_procedure_idx w writes refl (omega arith) nil takes

-- With its arguments, a serial port that takes the packet in one write, a server that refuses at
-- most twice, a mutex and two threads, `main` sends the command that ends a discovery, clears the
-- abort and starts its threads.
pub main-runs :
    (argc n tcp serial : ℕ) (cs : List Connection) (w : World) (writes : List WriteOutcome)
    → 4 ≤ argc
    → n ≤ connection_retry
    → w.serial_writes ≡ took 4 ∷ writes
    → main argc
        (record {
          serial = some serial;
          connections = refusals n (connected tcp ∷ cs);
          mutex = true;
          response_thread = true;
          command_thread = true;
        })
        w
      ≡ runs (record {
        command = checking;
        response = checking;
        world = record w {
          serial_writes = writes;
          serial_out = w.serial_out ++ end_packet;
          abort_cmd = false;
        };
      })
unfolding main after_open after_connect after_procedure create_threads
main-runs argc n tcp serial cs w writes args few takes =
    let enough : ltb argc 4 ≡ false = ground arith in
    let small : leb n connection_retry ≡ true = ground arith in
    rw (enough, connect_loop-refusals n tcp cs, small, end_procedure-sent w writes takes) refl
