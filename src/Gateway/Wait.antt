-- ===== src/Gateway/Wait.antt =====
-- `WaitForCompletionEvent` of BLEGatewayApplication/BLE_DRIVER.cpp.
pub mod Ends
pub mod Answers
use io_tblegateway.Common.{
  ℕ, suc, ◌+◌, Bool, false, not, ◌&&◌, Option, none, some, List, [], ◌∷◌, ltb, if◌then◌else◌,
}
use io_tblegateway.Client.Process.{Env}
use io_tblegateway.Gateway.Driver.{
  Driver, ConnectionEvent, Polled, D, Out, ret, thrown, blocked, undefined, Cause, dangling,
  then_run, catch_run, ◌>>=◌, ◌>>◌, pure,
}
use io_tblegateway.Gateway.Register.{register_for_completion_event, post_completion_event}
use io_tblegateway.Gateway.Receive.{process_polled}

-- `eventOccurred`, a local variable of the wait
abbrev pub occurred : Option (ℕ × ConnectionEvent) → Bool
occurred none = false
occurred (some (es, event)) = event.event_occurred

abbrev code_of : Option (ℕ × ConnectionEvent) → ℕ
code_of none = 3
code_of (some (es, event)) = event.error_code

-- the condition of the loop, for a wait that began at a time
abbrev pub goes_on : ℕ → ℕ → Driver → Bool
goes_on begin wait_time d =
    not (occurred d.frame) && (d.is_connected && ltb d.now (begin + wait_time))

-- The loop takes the results of `poll` one by one; with none left it waits in `poll`. An exception
-- of a round is caught.
unfoldable pub wait_loop : Env → ℕ → ℕ → List (ℕ × Polled) → D (Unit {0})
wait_loop env begin wait_time [] d =
    if goes_on begin wait_time d
    then blocked (record d { polls = [] })
    else ret tt (record d { polls = [] })
wait_loop env begin wait_time (p ∷ ps) d =
    let round = catch_run (process_polled env p d) (pure tt) in
    let rest = then_run round (λ _. wait_loop env begin wait_time ps) in
    if goes_on begin wait_time d then rest else ret tt (record d { polls = p ∷ ps })

-- The stack frame of the wait, with `conEvStr` and `eventOccurred`; its number is its address.
abbrev pub enter : ℕ → ℕ → Driver → Driver
enter ce ch d = record d {
  frame = some (d.waits, record { event_occurred = false; connection_handle = ch; error_code = 3 });
  waits = suc d.waits;
}

-- the frame is gone when the wait returns
unfoldable pub leave : D ℕ
leave d = ret (code_of d.frame) (record d { frame = none })

abbrev pub post_timeout : ℕ → ℕ → D (Unit {0})
post_timeout ce ch d = if occurred d.frame then ret tt d else post_completion_event ce ch 2 d

abbrev pub run_loop : Env → ℕ → D (Unit {0})
run_loop env wait_time d = wait_loop env d.now wait_time d.polls d

unfoldable pub wait_for_completion_event : Env → ℕ → ℕ → ℕ → D ℕ
wait_for_completion_event env ce ch wait_time d =
    then_run (register_for_completion_event ce d.waits (enter ce ch d))
      (λ _. run_loop env wait_time >> post_timeout ce ch >>= (λ _. leave))
