-- ===== src/Gateway/Wait/Ends.antt =====
-- How a wait of BLEGatewayApplication/BLE_DRIVER.cpp ends.
use io_tblegateway.Common.{
  subst, ℕ, bit_and, ◌≡◌, refl, sym, Bool, true, false, Option, some, List, [], ◌∷◌, ◌++◌, arith,
  ◌==◌, if◌then◌else◌, length,
}
use io_tblegateway.Client.Process.{Env}
use io_tblegateway.Gateway.Driver.{
  Driver, ConnectionEvent, Polled, D, Out, ret, thrown, blocked, undefined, then_run, catch_run,
  ◌>>=◌, ◌>>◌, pure,
}
use io_tblegateway.Gateway.Register.{
  Register, Posted, posted, fails, post_loop, finish_post, register_for_completion_event,
  post_completion_event,
}
use io_tblegateway.Gateway.Register.Watch.{
  event, Watching, pending, released, Watching-post, After, Quiet, post-releases,
}
use io_tblegateway.Gateway.Receive.{process_polled}
use io_tblegateway.Gateway.Receive.Devices.{Devices}
use io_tblegateway.Gateway.Receive.Keeps.{Tolerable, Good, SoundWith}
use io_tblegateway.Gateway.Receive.Keeps.Messages.{Sound-process_polled}
use io_tblegateway.Gateway.Wait.{
  occurred, goes_on, wait_loop, enter, leave, post_timeout, run_loop, wait_for_completion_event,
}

-- A call that does not throw.
abbrev pub Calm : {A : Type 0} → (Driver → Type 0) → Out A → Type 0
Calm P (ret a d) = P d
Calm P (thrown d) = ⊥
Calm P (blocked d) = Unit {0}
Calm P (undefined cause) = Tolerable cause

module _ (P : Driver → Type 0) where
  pub Calm-then :
      {A B : Type 0} (Q : Driver → Type 0) (o : Out A) (f : A → D B)
      → Calm Q o
      → ((a : A) (d : Driver) → Q d → Calm P (f a d))
      → Calm P (then_run o f)
  Calm-then Q (ret a d) f h k = k a d h
  Calm-then Q (thrown d) f h k = elim h [ ]
  Calm-then Q (blocked d) f h k = h
  Calm-then Q (undefined cause) f h k = h

  pub Calm-catch : (o : Out (Unit {0})) → Good P o → Calm P (catch_run o (pure tt))
  Calm-catch (ret a d) h = h
  Calm-catch (thrown d) h = h
  Calm-catch (blocked d) h = tt
  Calm-catch (undefined cause) h = h

  pub Calm-if :
      {A : Type 0} (b : Bool) (o p : Out A)
      → (b ≡ true → Calm P o)
      → (b ≡ false → Calm P p)
      → Calm P (if b then o else p)
  Calm-if true o p h k = h refl
  Calm-if false o p h k = k refl

module _ (ce ch es : ℕ) where
  abbrev W : Driver → Type 0
  W = SoundWith (Watching ce ch es)

  loop-Calm :
      (env : Env) (begin wait_time : ℕ) (ps : List (ℕ × Polled)) (d : Driver)
      → W d
      → Calm W (wait_loop env begin wait_time ps d)
  unfolding wait_loop
  loop-Calm env begin wait_time [] d h =
      Calm-if W (goes_on begin wait_time d) (blocked (record d { polls = [] }))
        (ret tt (record d { polls = [] })) (λ _. tt) (λ _. h)
  loop-Calm env begin wait_time (p ∷ ps) d h =
      let round = catch_run (process_polled env p d) (pure tt) in
      Calm-if W (goes_on begin wait_time d) (then_run round (λ _. wait_loop env begin wait_time ps))
        (ret tt (record d { polls = p ∷ ps }))
        (λ _.
          Calm-then W W round (λ _. wait_loop env begin wait_time ps)
            (Calm-catch W (process_polled env p d)
              (Sound-process_polled (Watching ce ch es) (Watching-post ce ch es) env p d h))
            (λ _ d1 h1. loop-Calm env begin wait_time ps d1 h1))
        (λ _. h)

  -- Nothing is registered any more.
  abbrev Unregistered : Register → Option (ℕ × ConnectionEvent) → Type 0
  Unregistered reg frame = reg ≡ []

  occurred-Unregistered :
      (reg : Register) (frame : Option (ℕ × ConnectionEvent))
      → Watching ce ch es reg frame
      → occurred frame ≡ true
      → reg ≡ []
  occurred-Unregistered _ _ (pending was) e = absurd (ground arith)
  occurred-Unregistered _ _ (released was) e = refl

  timeout-Unregistered :
      (reg : Register) (frame : Option (ℕ × ConnectionEvent))
      → (bit_and ce ce == 0) ≡ false
      → Watching ce ch es reg frame
      → After Unregistered (post_loop ce ch 2 (length reg) 0 reg frame)
  timeout-Unregistered _ _ some_flag (pending was) =
      subst (After Unregistered) (sym (post-releases ce ch es ce 2 was some_flag)) refl
  timeout-Unregistered _ _ some_flag (released was) = unfold post_loop in refl

  Calm-posted :
      (d : Driver) (r : Posted)
      → After Unregistered r
      → Devices d
      → Calm (SoundWith Unregistered) (finish_post d r)
  Calm-posted d (posted reg frame) h ok = (h, ok)
  Calm-posted d (fails cause) h ok = elim h [ ]

  timeout-Calm :
      (d : Driver)
      → (bit_and ce ce == 0) ≡ false
      → W d
      → Calm (SoundWith Unregistered) (post_timeout ce ch d)
  unfolding post_completion_event
  timeout-Calm d some_flag h =
      let reg = d.completion_event_register in
      Calm-if (SoundWith Unregistered) (occurred d.frame) (ret tt d)
        (post_completion_event ce ch 2 d) (λ e. (occurred-Unregistered reg d.frame h.0 e, h.1))
        (λ _.
          Calm-posted d (post_loop ce ch 2 (length reg) 0 reg d.frame)
            (timeout-Unregistered reg d.frame some_flag h.0) h.1)

  settle-Calm :
      (env : Env) (wait_time : ℕ) (d : Driver)
      → (bit_and ce ce == 0) ≡ false
      → W d
      → Calm (SoundWith Quiet) ((run_loop env wait_time >> post_timeout ce ch >>= (λ _. leave)) d)
  unfolding leave
  settle-Calm env wait_time d some_flag h =
      let looped = wait_loop env d.now wait_time d.polls d in
      Calm-then (SoundWith Quiet) (SoundWith Unregistered)
        (then_run looped (λ _. post_timeout ce ch)) (λ _. leave)
        (Calm-then (SoundWith Unregistered) W looped (λ _. post_timeout ce ch)
          (loop-Calm env d.now wait_time d.polls d h) (λ _ d1 h1. timeout-Calm d1 some_flag h1))
        (λ _ d1 h1. ((h1.0, refl), h1.1))

-- A wait that starts with nothing registered never throws, never follows a pointer into a stack
-- frame that is gone, and never uses an iterator behind the end of the register, whatever the
-- client sends; if it returns, nothing is registered, and the maps are in order.
pub wait-Quiet :
    (env : Env) (ce ch wait_time : ℕ) (d : Driver)
    → (bit_and ce ce == 0) ≡ false
    → SoundWith Quiet d
    → Calm (SoundWith Quiet) (wait_for_completion_event env ce ch wait_time d)
unfolding wait_for_completion_event register_for_completion_event
wait-Quiet env ce ch wait_time d some_flag h =
    settle-Calm ce ch d.waits env wait_time
      (record (enter ce ch d) {
        completion_event_register = d.completion_event_register ++ (ce, d.waits) ∷ [];
      })
      some_flag
      (
        subst
            (λ reg.
              Watching ce ch d.waits (reg ++ (ce, d.waits) ∷ []) (some (d.waits, event false ch 3)))
            (sym h.0.0) (pending 3),
        h.1,
      )
