-- ===== src/Gateway/Commands/Calm/Each.antt =====
-- Each command of BLEGatewayApplication/BLE_DRIVER.cpp, for its two or more waits.
use io_tblegateway.Common.{
  ℕ, ◌+◌, refl, inl, inr, Bool, none, some, List, [], ◌∷◌, ltb, ◌==◌, if◌then◌else◌, Bool-cases,
  Bytes, take,
}
use io_tblegateway.Client.Process.{Env}
use io_tblegateway.Client.Commands.Requests.{
  end_procedure, scan_parameters, discover, connect, update, disconnect, read_by_group_type,
  find_information, write_attribute, get_info, get_max_connections,
}
use io_tblegateway.Gateway.Text.{hex_str_to_hex_buf}
use mathlib.Core.List.{reverse}
use io_tblegateway.Gateway.Driver.{Driver, Polled, D, ret, then_run, catch_run, ◌>>=◌, ◌>>◌, pure}
use io_tblegateway.Gateway.Register.Watch.{Quiet, Quiet-post}
use io_tblegateway.Gateway.Receive.{process_polled}
use io_tblegateway.Gateway.Receive.Keeps.Messages.{Sound-process_polled}
use io_tblegateway.Gateway.Wait.{wait_for_completion_event}
use io_tblegateway.Gateway.Wait.Ends.{Calm, Calm-catch, Calm-if, Calm-then}
use io_tblegateway.Gateway.Parameters.{
  ConnectionParameters, check_connection_parameters, DiscoverParameters, check_discover_parameters,
}
use io_tblegateway.Gateway.Commands.{
  send_request, ble_cmd_gap_discover, Result, result, answer, checked, disconnect_device,
  read_all_attributes, write_device_attribute, settled_message,
}
use io_tblegateway.Gateway.Commands.Connect.{update_connection, new_connection, connect_device}
use io_tblegateway.Gateway.Commands.Read.{read_attribute}
use io_tblegateway.Gateway.Commands.Calm.Reading.{read-Calm}
use io_tblegateway.Gateway.Commands.Calm.{
  Holds-answered, AtRest, Holds, Held-then, Held-Calm, Calm-guarded, Holds-send_request, Holds-last,
  Holds-step, Holds-request, Holds-if_present, Calm-on_device,
}
use io_tblegateway.Gateway.Commands.Info.{update_bled_information}
use io_tblegateway.Gateway.Commands.Discover.{discover_loop, discovered, discover_devices}

disconnect-Calm :
    (env : Env) (mac : Bytes) (d : Driver) → AtRest d → Calm AtRest (disconnect_device env mac d)
unfolding disconnect_device
disconnect-Calm env mac =
    Calm-on_device mac _ _ (λ d h. h)
      (λ handle. Calm-guarded (some handle) _ (
        Holds-request env (disconnect handle) 0x40 handle 200 (some handle) _ refl (
          Holds-last env 0x80 handle 200 (λ code. pure (answer (some handle) code)) refl
            (λ code d h. h))))

read_all-Calm :
    (env : Env) (mac : Bytes) (d : Driver) → AtRest d → Calm AtRest (read_all_attributes env mac d)
unfolding read_all_attributes
read_all-Calm env mac =
    Calm-on_device mac _ _ (λ d h. h)
      (λ handle. Calm-guarded (some handle) _ (
        Holds-request env (read_by_group_type handle 1 65535 (0x00 ∷ 0x28 ∷ [])) 0x400 handle 200
          (some handle) _ refl
          (Holds-step env 0x81 handle 200 (some handle) _ refl (
            Holds-request env (find_information handle 1 65535) 0x800 handle 200 (some handle) _
              refl
              (Holds-step env 0x81 handle 200 (some handle) _ refl
                (Holds-if_present handle _ (λ d h. h)))))))

write-Calm :
    (env : Env) (mac : Bytes) (k : ℕ) (text : Bytes) (d : Driver)
    → AtRest d
    → Calm AtRest (write_device_attribute env mac k text d)
unfolding write_device_attribute
write-Calm env mac k text =
    Calm-on_device mac _ _ (λ d h. h)
      (λ handle. Calm-guarded (some handle) _ (
        Holds-request env (write_attribute handle k (take 20 (hex_str_to_hex_buf text))) 0x200
          handle 200 (some handle) _ refl
          (Holds-last env 0x81 handle 200 (λ code. pure (answer (some handle) code)) refl
            (λ code d h. h))))

update-Calm :
    (env : Env) (correct : Bool) (p : ConnectionParameters) (handle : ℕ) (d : Driver)
    → AtRest d
    → Calm AtRest (update_connection env correct p handle d)
unfolding update_connection
update-Calm env correct p handle = Calm-guarded (some handle) _ (
    Holds-request env
      (update handle p.conn_interval_min p.conn_interval_max p.timeout p.slave_latency) 0x10 handle
      200 (some handle) _ refl
      (Holds-step env 0xa0 handle 200 (some handle) _ refl (Holds-if_present handle _ (λ d h. h))))

new-Calm :
    (env : Env) (correct : Bool) (p : ConnectionParameters) (mac : Bytes) (address_type : ℕ)
    (d : Driver)
    → AtRest d
    → Calm AtRest (new_connection env correct p mac address_type d)
unfolding new_connection
new-Calm env correct p mac address_type = Calm-guarded none _ (
    Holds-request env
      (connect (reverse mac) address_type p.conn_interval_min p.conn_interval_max p.timeout
        p.slave_latency)
      4 0 200 none _ refl (Holds-last env 2 0 15 _ refl ended))
  where
    ended :
        (code : ℕ)
        → Holds (λ d.
          (if code == 0
              then pure (
                  result 0 none
                    (settled_message correct "Parameters were changed to default values")
                    [])
              else send_request env end_procedure >> pure (answer none code))
            d)
    ended code d h = elim (Bool-cases (code == 0)) [
      | inl e ↦ rw e h
      | inr e ↦ rw e (
          Held-then (send_request env end_procedure d) (λ _. pure (answer none code))
            (Holds-send_request env end_procedure d h) (λ _ d1 h1. h1))
    ]

discover_loop-Calm :
    (env : Env) (begin time : ℕ) (ps : List (ℕ × Polled)) (d : Driver)
    → AtRest d
    → Calm AtRest (discover_loop env begin time ps d)
unfolding discover_loop
discover_loop-Calm env begin time [] d h =
    Calm-if AtRest (ltb d.now (begin + time)) _ _ (λ _. tt) (λ _. h)
discover_loop-Calm env begin time (p ∷ ps) d h =
    let round = catch_run (process_polled env p d) (pure tt) in
    Calm-if AtRest (ltb d.now (begin + time))
      (then_run round (λ _. discover_loop env begin time ps)) (ret tt (record d { polls = p ∷ ps }))
      (λ _.
        Calm-then AtRest AtRest round (λ _. discover_loop env begin time ps)
          (Calm-catch AtRest (process_polled env p d)
            (Sound-process_polled Quiet Quiet-post env p d h))
          (λ _ d1 h1. discover_loop-Calm env begin time ps d1 h1))
      (λ _. h)

Holds-gap_discover :
    (env : Env) (p : DiscoverParameters) (active : ℕ) → Holds (ble_cmd_gap_discover env p active)
unfolding ble_cmd_gap_discover
Holds-gap_discover env p active d h =
    let first = send_request env (scan_parameters p.scan_interval p.scan_window active) in
    Held-then (first (record d { discovered_devices = [] }))
      (λ _. send_request env (discover p.discover_mode))
      (Holds-send_request env (scan_parameters p.scan_interval p.scan_window active)
        (record d { discovered_devices = [] }) h)
      (λ _. Holds-send_request env (discover p.discover_mode))

Holds-scan :
    (env : Env) (time : ℕ) (listed : D Result)
    → Holds listed
    → Holds (
        (λ d1. discover_loop env d1.now time d1.polls d1)
        >> send_request env end_procedure
        >> listed)
Holds-scan env time listed k d h =
    let looped = discover_loop env d.now time d.polls d in
    Held-then (then_run looped (λ _. send_request env end_procedure)) (λ _. listed)
      (Held-then looped (λ _. send_request env end_procedure)
        (Held-Calm looped (discover_loop-Calm env d.now time d.polls d h))
        (λ _. Holds-send_request env end_procedure))
      (λ _. k)

Holds-discovery :
    (env : Env) (p : DiscoverParameters) (active : ℕ) (scan : D Result)
    → Holds scan
    → Holds (
        ble_cmd_gap_discover env p active
        >> wait_for_completion_event env 8 0 200
        >>= checked (some 0) scan)
Holds-discovery env p active scan k =
    Holds-answered env (ble_cmd_gap_discover env p active) 8 0 200 (some 0) scan
      (Holds-gap_discover env p active) refl k

discover-Calm :
    (env : Env) (p : DiscoverParameters) (active time : ℕ) (d : Driver)
    → AtRest d
    → Calm AtRest (discover_devices env p active time d)
unfolding discover_devices
discover-Calm env p active time d h =
    let q = check_discover_parameters p in
    let listed = discovered (settled_message q.0 "Parameters were changed to default values") in
    Calm-if AtRest (ltb 0 time) _ (discovered "Returning cached values" d)
      (λ _.
        Calm-guarded (some 0) _
          (Holds-discovery env q.1 active _ (Holds-scan env time listed (λ d1 h1. h1))) d h)
      (λ _. h)

-- The update of the dongle's information may throw, and leaves nothing registered then.
Holds-update_information : (env : Env) → Holds (update_bled_information env)
unfolding update_bled_information
Holds-update_information env =
    Holds-request env get_info 0x20000 0 5 (some 0) _ refl
      (Holds-request env get_max_connections 0x8000 0 5 (some 0) _ refl (λ d h. h))

-- The commands that the gateway runs for a request.
pub data Command : Type 0 where
  connect_to : (mac : Bytes) (address_type : ℕ) (p : ConnectionParameters) → Command
  disconnect_from : (mac : Bytes) → Command
  read_all : (mac : Bytes) → Command
  read_from : (mac : Bytes) (k last_update : ℕ) → Command
  write_to : (mac : Bytes) (k : ℕ) (text : Bytes) → Command
  scan_for : (p : DiscoverParameters) (active time : ℕ) → Command

abbrev pub run : Env → Command → D Result
run env (connect_to mac address_type p) = connect_device env mac address_type p
run env (disconnect_from mac) = disconnect_device env mac
run env (read_all mac) = read_all_attributes env mac
run env (read_from mac k last_update) = read_attribute env mac k last_update
run env (write_to mac k text) = write_device_attribute env mac k text
run env (scan_for p active time) = discover_devices env p active time

-- A command that starts with nothing registered never throws, follows no pointer into a stack frame
-- that is gone and uses no iterator behind the end of the register, whatever the client sends and
-- whichever send fails; if it returns, nothing is registered, and the maps of the devices and of
-- their attributes are in order.
pub run-Calm :
    (env : Env) (command : Command) (d : Driver) → AtRest d → Calm AtRest (run env command d)
unfolding connect_device
run-Calm env (connect_to mac address_type p) d h =
    let q = check_connection_parameters p in
    Calm-on_device mac (new_connection env q.0 q.1 mac address_type) (update_connection env q.0 q.1)
      (new-Calm env q.0 q.1 mac address_type) (update-Calm env q.0 q.1) d h
run-Calm env (disconnect_from mac) d h = disconnect-Calm env mac d h
run-Calm env (read_all mac) d h = read_all-Calm env mac d h
run-Calm env (read_from mac k last_update) d h = read-Calm env mac k last_update d h
run-Calm env (write_to mac k text) d h = write-Calm env mac k text d h
run-Calm env (scan_for p active time) d h = discover-Calm env p active time d h
