-- ===== src/Gateway/Commands/Calm.antt =====
-- The commands of BLEGatewayApplication/BLE_DRIVER.cpp neither throw nor leave a wait registered.
pub mod Reading
pub mod Each
use io_tblegateway.Common.{
  ℕ, bit_and, ◌≡◌, inl, inr, false, Option, none, some, List, [], ◌∷◌, ◌==◌, Bool-cases, Bytes,
  length,
}
use io_tblegateway.Posix.{WriteOutcome, took}
use io_tblegateway.Client.Process.{Env}
use io_tblegateway.Client.Transport.{htonl_bytes}
use io_tblegateway.Client.Commands.Requests
use io_tblegateway.Client.Commands.Requests.{
  Request, end_procedure, scan_parameters, discover, connect, update, disconnect,
  read_by_group_type, find_information, read_by_handle, write_attribute, packed,
}
use io_tblegateway.Gateway.Text.{hex_str_to_hex_buf}
use mathlib.Core.List.{reverse}
use io_tblegateway.Gateway.Driver.{
  Driver, Polled, D, Out, ret, thrown, blocked, undefined, then_run, catch_run, ◌>>=◌, ◌>>◌, pure,
}
use io_tblegateway.Gateway.Register.Watch.{Quiet, Quiet-post}
use io_tblegateway.Gateway.Transport.{send_in, tcp_send, write_tcp_msg_to_socket}
use io_tblegateway.Gateway.Receive.{process_polled}
use io_tblegateway.Gateway.Receive.Keeps.{Tolerable, SoundWith}
use io_tblegateway.Gateway.Receive.Keeps.Messages.{Sound-process_polled}
use io_tblegateway.Gateway.Wait.{wait_for_completion_event}
use io_tblegateway.Gateway.Wait.Ends.{Calm, Calm-catch, Calm-if, Calm-then, wait-Quiet}
use io_tblegateway.Gateway.Parameters.{
  ConnectionParameters, check_connection_parameters, DiscoverParameters, check_discover_parameters,
}
use io_tblegateway.Gateway.Commands.{
  written, with_handle, send_request, ble_cmd_gap_discover, is_present, Shown, device, Result,
  result, answer, no_device, checked, guarded, handle_of, on_device, if_present, disconnect_device,
  read_all_attributes, write_device_attribute,
}
use io_tblegateway.Gateway.Commands.Connect.{update_connection, new_connection, connect_device}
use io_tblegateway.Gateway.Commands.Discover.{discover_loop, discovered, discover_devices}

abbrev pub AtRest : Driver → Type 0
AtRest = SoundWith Quiet

-- A call that may throw, and leaves nothing registered then.
abbrev pub Held : {A : Type 0} → Out A → Type 0
Held (ret a d) = AtRest d
Held (thrown d) = AtRest d
Held (blocked d) = Unit {0}
Held (undefined cause) = Tolerable cause

abbrev pub Holds : {A : Type 0} → D A → Type 0
Holds m = (d : Driver) → AtRest d → Held (m d)

pub Held-then :
    {A B : Type 0} (o : Out A) (f : A → D B)
    → Held o
    → ((a : A) → Holds (f a))
    → Held (then_run o f)
Held-then (ret a d) f h k = k a d h
Held-then (thrown d) f h k = h
Held-then (blocked d) f h k = h
Held-then (undefined cause) f h k = h

pub Held-Calm : {A : Type 0} (o : Out A) → Calm AtRest o → Held o
Held-Calm (ret a d) h = h
Held-Calm (thrown d) h = elim h [ ]
Held-Calm (blocked d) h = h
Held-Calm (undefined cause) h = h

-- The `catch` of a command.
pub Calm-caught :
    (handle : Option ℕ) (o : Out Result)
    → Held o
    → Calm AtRest (catch_run o (pure (answer handle 1)))
Calm-caught handle (ret a d) h = h
Calm-caught handle (thrown d) h = h
Calm-caught handle (blocked d) h = h
Calm-caught handle (undefined cause) h = h

pub Calm-guarded :
    (handle : Option ℕ) (body : D Result)
    → Holds body
    → (d : Driver) → AtRest d
    → Calm AtRest (guarded handle body d)
Calm-guarded handle body k d h = Calm-caught handle (body d) (k d h)

Holds-send_in : (os : List WriteOutcome) (bs : Bytes) → Holds (send_in os bs)
unfolding send_in
Holds-send_in [] bs d h = tt
Holds-send_in (WriteOutcome.failed e ∷ os) bs d h = h
Holds-send_in (took k ∷ os) bs d h = h

Holds-written : (o : Option Bytes) → Holds (written o)
unfolding write_tcp_msg_to_socket tcp_send
Holds-written none d h = tt
Holds-written (some buffer) d h =
    Held-then (tcp_send (htonl_bytes (length buffer)) d) (λ _. tcp_send buffer)
      (Holds-send_in d.tcp_sends (htonl_bytes (length buffer)) d h)
      (λ _ d1 h1. Holds-send_in d1.tcp_sends buffer d1 h1)

pub Holds-send_request : (env : Env) (r : Request) → Holds (send_request env r)
unfolding send_request
Holds-send_request env r d h = elim (Bool-cases (env.tpl.maps (Requests.format_of r))) [
  | inl e ↦ rw e (Holds-written (packed env.tpl r) d h)
  | inr e ↦ rw e h
]

pub Holds-wait :
    (env : Env) (ce ch wait_time : ℕ)
    → (bit_and ce ce == 0) ≡ false
    → Holds (wait_for_completion_event env ce ch wait_time)
Holds-wait env ce ch wait_time some_flag d h =
    Held-Calm (wait_for_completion_event env ce ch wait_time d)
      (wait-Quiet env ce ch wait_time d some_flag h)

pub Holds-checked :
    (handle : Option ℕ) (rest : D Result)
    → Holds rest
    → (code : ℕ) → Holds (checked handle rest code)
Holds-checked handle rest k code d h = elim (Bool-cases (code == 0)) [
  | inl e ↦ rw e (k d h)
  | inr e ↦ rw e h
]

pub Holds-if_present :
    (handle : ℕ) (shown : D Result) → Holds shown → Holds (if_present handle shown)
Holds-if_present handle shown k d h = elim (Bool-cases (is_present handle d)) [
  | inl e ↦ rw e (k d h)
  | inr e ↦ rw e h
]

-- A wait, and what a command does if its code is 0.
pub Holds-step :
    (env : Env) (ce ch wait_time : ℕ) (handle : Option ℕ) (rest : D Result)
    → (bit_and ce ce == 0) ≡ false
    → Holds rest
    → Holds (wait_for_completion_event env ce ch wait_time >>= checked handle rest)
Holds-step env ce ch wait_time handle rest some_flag k d h =
    Held-then (wait_for_completion_event env ce ch wait_time d) (checked handle rest)
      (Holds-wait env ce ch wait_time some_flag d h) (Holds-checked handle rest k)

-- What is sent, a wait for the response, and the rest.
pub Holds-answered :
    (env : Env) (m : D (Unit {0})) (ce ch wait_time : ℕ) (handle : Option ℕ) (rest : D Result)
    → Holds m
    → (bit_and ce ce == 0) ≡ false
    → Holds rest
    → Holds (m >> wait_for_completion_event env ce ch wait_time >>= checked handle rest)
Holds-answered env m ce ch wait_time handle rest sent some_flag k d h =
    Held-then (then_run (m d) (λ _. wait_for_completion_event env ce ch wait_time))
      (checked handle rest)
      (Held-then (m d) (λ _. wait_for_completion_event env ce ch wait_time) (sent d h)
        (λ _. Holds-wait env ce ch wait_time some_flag))
      (Holds-checked handle rest k)

pub Holds-request :
    (env : Env) (r : Request) (ce ch wait_time : ℕ) (handle : Option ℕ) (rest : D Result)
    → (bit_and ce ce == 0) ≡ false
    → Holds rest
    → Holds (
        send_request env r >> wait_for_completion_event env ce ch wait_time >>= checked handle rest)
Holds-request env r ce ch wait_time handle rest =
    Holds-answered env (send_request env r) ce ch wait_time handle rest (Holds-send_request env r)

pub Holds-last :
    (env : Env) (ce ch wait_time : ℕ) (f : ℕ → D Result)
    → (bit_and ce ce == 0) ≡ false
    → ((code : ℕ) → Holds (f code))
    → Holds (wait_for_completion_event env ce ch wait_time >>= f)
Holds-last env ce ch wait_time f some_flag k d h =
    Held-then (wait_for_completion_event env ce ch wait_time d) f
      (Holds-wait env ce ch wait_time some_flag d h) k

pub Calm-on_device :
    (mac : Bytes) (missing : D Result) (found : ℕ → D Result)
    → ((d : Driver) → AtRest d → Calm AtRest (missing d))
    → ((handle : ℕ) (d : Driver) → AtRest d → Calm AtRest (found handle d))
    → (d : Driver) → AtRest d
    → Calm AtRest (on_device mac missing found d)
Calm-on_device mac missing found j k d h = each (handle_of mac d)
  where
    each : (o : Option ℕ) → Calm AtRest (with_handle o missing found d)
    each none = j d h
    each (some handle) = k handle d h
