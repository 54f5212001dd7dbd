-- ===== src/Client/Threads.antt =====
-- The two worker threads of BLEGatewayClient/client.c and their interleavings. The calls of one
-- thread use other fields of the state than those of the other thread, apart from `abort_cmd`, so a
-- message is handled in one step, which ends when its call does.
pub mod Shutdown
use io_tblegateway.Common.{ℕ, suc, ◌≡◌, Bool, false, Option, none, some, ◌==◌, if◌then◌else◌}
use io_tblegateway.Client.Process.{
  World, Res, ret, blocked, exited, fault, M, quit, read_abort_threadsafe, Env,
}
use io_tblegateway.Client.Tcp.{process_message_from_tcpsocket}
use io_tblegateway.Client.Serial.{read_message_from_serial_port}

-- at the head of the loop, past the test of `abort_cmd`, or ended
pub data Pc : Type 0 where
  checking working gone : Pc

-- Where a thread goes on; `none` while its call waits, and when the process has crashed.
abbrev pub after_check : Res Bool → Option (Pc × World)
after_check (ret abort w) = some (if abort then gone else working, w)
after_check _ = none

abbrev pub after_quit : Res (Unit {0}) → Option (Pc × World)
after_quit (exited w) = some (gone, w)
after_quit _ = none

abbrev pub after_work : Res ℕ → Option (Pc × World)
after_work (ret r w) = if r == 0 then some (checking, w) else after_quit (quit w)
after_work (exited w) = some (gone, w)
after_work (blocked w) = none
after_work fault = none

-- One step of a thread whose loop handles messages by `work`.
unfoldable pub turn : M ℕ → Pc → World → Option (Pc × World)
unfolding quit read_abort_threadsafe
turn work checking w = after_check (read_abort_threadsafe w)
turn work working w = after_work (work w)
turn work gone w = none

unfoldable pub command_thread_handler : Env → Pc → World → Option (Pc × World)
unfolding turn
command_thread_handler env = turn (process_message_from_tcpsocket env)

unfoldable pub response_thread_handler : Env → Pc → World → Option (Pc × World)
unfolding turn
response_thread_handler env = turn (read_message_from_serial_port env)

pub record System : Type 0 where
  pub command : Pc
  pub response : Pc
  pub world : World

pub data Step (env : Env) : System → System → Type 0 where
  command_turn :
      {s : System} (pc : Pc) (w : World)
      → command_thread_handler env s.command s.world ≡ some (pc, w)
      → Step env s (record s { command = pc; world = w })
  response_turn :
      {s : System} (pc : Pc) (w : World)
      → response_thread_handler env s.response s.world ≡ some (pc, w)
      → Step env s (record s { response = pc; world = w })

-- a run of that many steps
pub data Run (env : Env) : ℕ → System → System → Type 0 where
  here : {s : System} → Run env 0 s s
  then_step : {n : ℕ} {s t u : System} → Step env s t → Run env n t u → Run env (suc n) s u

-- as `main` starts them
pub record Starts (s : System) : Type 0 where
  pub command : s.command ≡ checking
  pub response : s.response ≡ checking
  pub abort : s.world.abort_cmd ≡ false
