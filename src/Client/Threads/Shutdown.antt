-- ===== src/Client/Threads/Shutdown.antt =====
-- The end of the client's threads.
use io_tblegateway.Common.{
  Bool-cases, inl, inr, refl, ◌∙◌, ◌⊎◌, subst, none, ℕ, ◌+◌, ◌≤◌, ◌<◌, ◌≡◌, true, Option, some,
  arith, ◌==◌,
}
use io_tblegateway.Client.Process.{
  World, Res, ret, blocked, exited, fault, M, quit, read_abort_threadsafe, signal_abort_threadsafe,
  Env,
}
use io_tblegateway.Client.Abort.{Sound, Keeps}
use io_tblegateway.Client.Abort.Messages.{
  Keeps-process_message_from_tcpsocket, Keeps-read_message_from_serial_port,
}
use io_tblegateway.Client.Threads.{
  Pc, checking, working, gone, after_work, turn, command_thread_handler, response_thread_handler,
  System, Step, command_turn, response_turn, Run, here, then_step, Starts,
}

-- the steps that a thread can still make when the abort is set
abbrev rank : Pc → ℕ
rank checking = 1
rank working = 2
rank gone = 0

-- What a thread's step does to `abort_cmd`.
record Turned (pc : Pc) (w : World) (pc' : Pc) (w' : World) : Type 0 where
  ended : pc' ≡ gone → w'.abort_cmd ≡ true
  stays : w.abort_cmd ≡ true → w'.abort_cmd ≡ true
  falls : w.abort_cmd ≡ true → rank pc' < rank pc

abbrev TurnedTo : Pc → World → Option (Pc × World) → Type 0
TurnedTo pc w none = Unit
TurnedTo pc w (some (pc', w')) = Turned pc w pc' w'

Turned-work : (w : World) (r : Res ℕ) → Sound w r → TurnedTo working w (after_work r)
unfolding quit signal_abort_threadsafe
Turned-work w (ret r w') h = elim (Bool-cases (r == 0)) [
  | inl again ↦
      rw again (record { ended = λ e. ground arith; stays = λ a. h ∙ a; falls = λ _. omega arith })
  | inr ends ↦ rw ends (record { ended = λ _. refl; stays = λ _. refl; falls = λ _. omega arith })
]
Turned-work w (blocked w') h = tt
Turned-work w (exited w') h = record { ended = λ _. h; stays = λ _. h; falls = λ _. omega arith }
Turned-work w fault h = tt

Turned-turn : (work : M ℕ) (pc : Pc) (w : World) → Keeps work → TurnedTo pc w (turn work pc w)
unfolding turn read_abort_threadsafe
Turned-turn work checking w h = elim (Bool-cases w.abort_cmd) [
  | inl set ↦ record { ended = λ _. set; stays = λ a. a; falls = λ _. rw set (omega arith) }
  | inr unset ↦ record { ended = λ e. ground arith; stays = λ a. a; falls = λ a. ground arith }
]
Turned-turn work working w h = Turned-work w (work w) (h.keeps w)
Turned-turn work gone w h = tt

command-Turned :
    (env : Env) (s : System) {pc : Pc} {w : World}
    → command_thread_handler env s.command s.world ≡ some (pc, w)
    → Turned s.command s.world pc w
unfolding command_thread_handler
command-Turned env s e =
    subst (TurnedTo s.command s.world) e
      (Turned-turn _ s.command s.world (Keeps-process_message_from_tcpsocket env))

response-Turned :
    (env : Env) (s : System) {pc : Pc} {w : World}
    → response_thread_handler env s.response s.world ≡ some (pc, w)
    → Turned s.response s.world pc w
unfolding response_thread_handler
response-Turned env s e =
    subst (TurnedTo s.response s.world) e
      (Turned-turn _ s.response s.world (Keeps-read_message_from_serial_port env))

-- A thread that has ended has left the abort set.
record Inv (s : System) : Type 0 where
  command : s.command ≡ gone → s.world.abort_cmd ≡ true
  response : s.response ≡ gone → s.world.abort_cmd ≡ true

Step-Inv : {env : Env} {s t : System} → Step env s t → Inv s → Inv t
Step-Inv {env = env} {s = s} (command_turn pc w e) inv =
    let c = command-Turned env s e in
    record { command = c.ended; response = λ g. c.stays (inv.response g) }
Step-Inv {env = env} {s = s} (response_turn pc w e) inv =
    let c = response-Turned env s e in
    record { command = λ g. c.stays (inv.command g); response = c.ended }

Run-Inv : {env : Env} {n : ℕ} {s t : System} → Run env n s t → Inv s → Inv t
Run-Inv here inv = inv
Run-Inv (then_step st r) inv = Run-Inv r (Step-Inv st inv)

-- In every run from the start, the abort is set once a thread has ended.
pub gone-aborts :
    {env : Env} {n : ℕ} {s t : System}
    → Starts s
    → Run env n s t
    → (t.command ≡ gone) ⊎ (t.response ≡ gone)
    → t.world.abort_cmd ≡ true
gone-aborts starts r ended =
    let inv = Run-Inv r (record {
      command = λ g. ground (arith, starts.command);
      response = λ g. ground (arith, starts.response);
    }) in
    elim ended [ inl c ↦ inv.command c | inr d ↦ inv.response d ]

rank_le : (pc : Pc) → rank pc ≤ 2
rank_le checking = omega arith
rank_le working = omega arith
rank_le gone = omega arith

abbrev ranks : System → ℕ
ranks s = rank s.command + rank s.response

Step-ranks :
    {env : Env} {s t : System}
    → Step env s t
    → s.world.abort_cmd ≡ true
    → (ranks t < ranks s) × (t.world.abort_cmd ≡ true)
Step-ranks {env = env} {s = s} (command_turn pc w e) a =
    let c = command-Turned env s e in (ground (arith, c.falls a), c.stays a)
Step-ranks {env = env} {s = s} (response_turn pc w e) a =
    let c = response-Turned env s e in (ground (arith, c.falls a), c.stays a)

Run-ranks :
    {env : Env} {n : ℕ} {s t : System}
    → Run env n s t
    → s.world.abort_cmd ≡ true
    → n + ranks t ≤ ranks s
Run-ranks here a = omega arith
Run-ranks (then_step st r) a =
    let (less, b) = Step-ranks st a in let later = Run-ranks r b in omega arith

-- Once the abort is set, the two threads make at most four more steps together, however they
-- interleave.
pub abort-stops :
    {env : Env} {n : ℕ} {s t : System} → Run env n s t → s.world.abort_cmd ≡ true → n ≤ 4
abort-stops {s = s} r a = omega (arith, Run-ranks r a, rank_le s.command, rank_le s.response)
