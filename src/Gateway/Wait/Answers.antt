-- ===== src/Gateway/Wait/Answers.antt =====
-- What a wait of BLEGatewayApplication/BLE_DRIVER.cpp returns: the code of the answer, or the code of
-- a timeout.
use io_tblegateway.Common.{
  ℕ, suc, ◌+◌, ◌≤◌, ◌<◌, bit_and, ◌≡◌, refl, ap, ◌∙◌, Bool, true, false, not, none, some, List, [],
  ◌∷◌, arith, ltb, ◌==◌, if◌then◌else◌, Bytes, length,
}
use io_tblegateway.Posix.{ReadOutcome, got}
use io_tblegateway.Tpl.{Laws}
use io_tblegateway.Client.Process.{Env}
use io_tblegateway.Client.Transport.{htonl_bytes}
use io_tblegateway.Client.Notices.{Notice, format_of, values_of}
use io_tblegateway.Gateway.Driver.{
  Out, Driver, Polled, readable, silent, ret, modify, then_run, catch_run, pure,
}
use io_tblegateway.Gateway.Register.{
  finish_post, register_for_completion_event, post_completion_event,
}
use io_tblegateway.Gateway.Register.Watch.{event, post-releases}
use io_tblegateway.Gateway.Receive.{process_polled}
use io_tblegateway.Gateway.Meaning.{handled}
use io_tblegateway.Gateway.Delivery.Framing.{receive-handled}
use io_tblegateway.Gateway.Wait.{goes_on, wait_loop, leave, post_timeout, wait_for_completion_event}

wait_loop-stops :
    (env : Env) (begin wait_time : ℕ) (ps : List (ℕ × Polled)) (d : Driver)
    → goes_on begin wait_time d ≡ false
    → wait_loop env begin wait_time ps d ≡ ret tt (record d { polls = ps })
unfolding wait_loop
wait_loop-stops env begin wait_time [] d e = rw e refl
wait_loop-stops env begin wait_time (p ∷ ps) d e = rw e refl

wait_loop-round :
    (env : Env) (begin wait_time : ℕ) (p : ℕ × Polled) (ps : List (ℕ × Polled)) (d d1 : Driver)
    → goes_on begin wait_time d ≡ true
    → process_polled env p d ≡ ret tt d1
    → wait_loop env begin wait_time (p ∷ ps) d ≡ wait_loop env begin wait_time ps d1
unfolding wait_loop
wait_loop-round env begin wait_time p ps d d1 e run =
    rw e (ap (λ r. then_run (catch_run r (pure tt)) (λ _. wait_loop env begin wait_time ps)) run)

-- Nothing is registered, and the client is connected.
abbrev pub idle : Driver → Driver
idle d = record d { is_connected = true; completion_event_register = []; frame = none }

-- the state of a wait that has registered
abbrev registered : ℕ → ℕ → Bool → ℕ → Driver → Driver
registered ce ch left code d = record d {
  is_connected = true;
  completion_event_register = if left then (ce, d.waits) ∷ [] else [];
  frame = some (d.waits, event (not left) ch code);
  waits = suc d.waits;
}

later : (now wait_time : ℕ) → 0 < wait_time → ltb now (now + wait_time) ≡ true
later now wait_time pos = ground arith

post-registered :
    (ce ch flags code : ℕ) (d : Driver)
    → (bit_and ce flags == 0) ≡ false
    → post_completion_event flags ch code (registered ce ch true 3 d)
      ≡ ret tt (registered ce ch false code d)
unfolding post_completion_event
post-registered ce ch flags code d overlap =
    ap (finish_post (registered ce ch true 3 d)) (post-releases ce ch d.waits flags code 3 overlap)

module _ (env : Env) (ce ch wait_time : ℕ) (d : Driver) where
  settled :
      (code : ℕ) (d1 : Driver)
      → wait_loop env d.now wait_time d.polls (registered ce ch true 3 d)
        ≡ ret tt (registered ce ch false code d1)
      → wait_for_completion_event env ce ch wait_time (idle d)
        ≡ ret code (record (idle d1) { waits = suc d1.waits })
  unfolding wait_for_completion_event register_for_completion_event leave
  settled code d1 run = ap (λ r. then_run (then_run r (λ _. post_timeout ce ch)) (λ _. leave)) run

-- A wait for the events `ce` of the connection `ch` is answered by the next `poll`, if that brings a
-- message of 1 to 127 bytes, in two reads, that posts one of these events for this connection, and
-- nothing else is registered: the wait returns the code that the message posts, and nothing is
-- registered any more. The message may change the driver before and after it posts (`first` and
-- `second`), but not what belongs to the wait.
pub wait-answered :
    (env : Env) (n : Notice) (body : Bytes) (rs : List ReadOutcome) (time : ℕ)
    (ps : List (ℕ × Polled)) (d : Driver) (ce ch wait_time flags code : ℕ)
    (first second : Driver → Driver)
    → Laws env.tpl
    → env.tpl.dump (format_of n) (values_of n) ≡ some body
    → 0 < length body
    → length body < 128
    → ((x : Driver)
        → handled n x
          ≡ then_run (post_completion_event flags ch code (first x)) (λ _. modify second))
    → ((x : Driver) → first (registered ce ch true 3 x) ≡ registered ce ch true 3 (first x))
    → ((x : Driver)
        → second (registered ce ch false code x) ≡ registered ce ch false code (second x))
    → (bit_and ce flags == 0) ≡ false
    → 0 < wait_time
    → wait_for_completion_event env ce ch wait_time (
        idle (record d {
          polls = (time, readable) ∷ ps;
          tcp_reads = got (htonl_bytes (length body)) ∷ got body ∷ rs;
        }))
      ≡ (let after =
            second
              (first (record d { now = time; polls = (time, readable) ∷ ps; tcp_reads = rs })) in
          ret code (record (idle after) { polls = ps; waits = suc after.waits }))
unfolding process_polled
wait-answered env n body rs time ps d ce ch wait_time flags code first second laws packed some_body
      small posts before beside overlap pos =
    let start = record d {
      polls = (time, readable) ∷ ps;
      tcp_reads = got (htonl_bytes (length body)) ∷ got body ∷ rs;
    } in
    let came = record d { now = time; polls = (time, readable) ∷ ps; tcp_reads = rs } in
    let after = second (first came) in
    let finish = λ (o : Out (Unit {0})). then_run o (λ _. modify second) in
    settled env ce ch wait_time start code (record after { polls = ps })
      (wait_loop-round env d.now wait_time (time, readable) ps (registered ce ch true 3 start)
          (registered ce ch false code after) (later d.now wait_time pos)
          (receive-handled env n body rs (registered ce ch true 3 (record start { now = time }))
              laws packed refl some_body small
            ∙ posts (registered ce ch true 3 came)
            ∙ ap (λ x. finish (post_completion_event flags ch code x)) (before came)
            ∙ ap finish (post-registered ce ch flags code (first came) overlap)
            ∙ ap (ret tt) (beside (first came)))
        ∙ wait_loop-stops env d.now wait_time ps (registered ce ch false code after) refl)

-- silent polls
abbrev silently : List ℕ → List (ℕ × Polled) → List (ℕ × Polled)
silently [] ps = ps
silently (t ∷ ts) ps = (t, silent) ∷ silently ts ps

abbrev AllBefore : ℕ → List ℕ → Type 0
AllBefore deadline [] = Unit {0}
AllBefore deadline (t ∷ ts) = (t < deadline) × AllBefore deadline ts

still :
    (begin wait_time : ℕ) (d : Driver) (ce ch : ℕ)
    → d.now < begin + wait_time
    → goes_on begin wait_time (registered ce ch true 3 d) ≡ true
still begin wait_time d ce ch lt = ground arith

over :
    (begin wait_time : ℕ) (d : Driver) (ce ch : ℕ)
    → begin + wait_time ≤ d.now
    → goes_on begin wait_time (registered ce ch true 3 d) ≡ false
over begin wait_time d ce ch le = ground arith

silent_loop :
    (env : Env) (begin wait_time ce ch time : ℕ) (ps : List (ℕ × Polled)) (ts : List ℕ) (d : Driver)
    → d.now < begin + wait_time
    → AllBefore (begin + wait_time) ts
    → begin + wait_time ≤ time
    → wait_loop env begin wait_time (silently ts ((time, silent) ∷ ps)) (registered ce ch true 3 d)
      ≡ ret tt (registered ce ch true 3 (record d { now = time; polls = ps }))
unfolding process_polled
silent_loop env begin wait_time ce ch time ps [] d lt before le =
    wait_loop-round env begin wait_time (time, silent) ps (registered ce ch true 3 d)
      (registered ce ch true 3 (record d { now = time })) (still begin wait_time d ce ch lt) refl
    ∙ wait_loop-stops env begin wait_time ps (registered ce ch true 3 (record d { now = time }))
        (over begin wait_time (record d { now = time }) ce ch le)
silent_loop env begin wait_time ce ch time ps (t ∷ ts) d lt before le =
    wait_loop-round env begin wait_time (t, silent) (silently ts ((time, silent) ∷ ps))
      (registered ce ch true 3 d) (registered ce ch true 3 (record d { now = t }))
      (still begin wait_time d ce ch lt) refl
    ∙ silent_loop env begin wait_time ce ch time ps ts (record d { now = t }) before.0 before.1 le

-- If the client says nothing, a wait ends at the first `poll` that returns at its deadline or
-- later, with the code 2 of a timeout, and nothing is registered any more.
pub wait-times_out :
    (env : Env) (ts : List ℕ) (time : ℕ) (ps : List (ℕ × Polled)) (d : Driver) (ce ch wait_time : ℕ)
    → (bit_and ce ce == 0) ≡ false
    → 0 < wait_time
    → AllBefore (d.now + wait_time) ts
    → d.now + wait_time ≤ time
    → wait_for_completion_event env ce ch wait_time
        (idle (record d { polls = silently ts ((time, silent) ∷ ps) }))
      ≡ ret 2 (record (idle d) { now = time; polls = ps; waits = suc d.waits })
unfolding wait_for_completion_event register_for_completion_event leave
wait-times_out env ts time ps d ce ch wait_time some_flag pos before le =
    let start = record d { polls = silently ts ((time, silent) ∷ ps) } in
    let end = record d { now = time; polls = ps } in
    ap (λ r. then_run (then_run r (λ _. post_timeout ce ch)) (λ _. leave))
      (silent_loop env d.now wait_time ce ch time ps ts start (omega arith) before le)
    ∙ ap (λ r. then_run r (λ _. leave)) (post-registered ce ch ce 2 end some_flag)
