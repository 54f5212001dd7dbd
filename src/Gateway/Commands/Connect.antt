-- ===== src/Gateway/Commands/Connect.antt =====
-- `Connect` of BLEGatewayApplication/BLE_DRIVER.cpp.
use io_tblegateway.Common.{ℕ, Bool, none, some, [], ◌∷◌, ◌==◌, if◌then◌else◌, Bytes}
use mathlib.Core.List.{reverse}
use io_tblegateway.Client.Process.{Env}
use io_tblegateway.Client.Commands.Requests.{end_procedure, connect, update}
use io_tblegateway.Gateway.Driver.{D, ◌>>=◌, ◌>>◌, pure}
use io_tblegateway.Gateway.CompletionEvents.{
  gap_connection_evt, gap_connection_rsp_evt, connection_update_rsp_evt,
}
use io_tblegateway.Gateway.Wait.{wait_for_completion_event}
use io_tblegateway.Gateway.Parameters.{ConnectionParameters, check_connection_parameters}
use io_tblegateway.Gateway.Commands.{
  send_request, device, Result, result, answer, checked, guarded, on_device, if_present,
  settled_message,
}

unfoldable pub update_connection : Env → Bool → ConnectionParameters → ℕ → D Result
update_connection env correct p handle = guarded (some handle) (
    send_request env
      (update handle p.conn_interval_min p.conn_interval_max p.timeout p.slave_latency)
    >> wait_for_completion_event env connection_update_rsp_evt handle 200
    >>= checked (some handle) (
        wait_for_completion_event env 0xa0 handle 200
        >>= checked (some handle) (
            if_present handle (
              pure (
                result 0 (some handle)
                  (settled_message correct "Invalid parameters: changed to default values")
                  (device handle ∷ []))))))

-- A connection that is not made in 15 s is given up.
unfoldable pub new_connection : Env → Bool → ConnectionParameters → Bytes → ℕ → D Result
new_connection env correct p mac address_type = guarded none (
    send_request env (
      connect (reverse mac) address_type p.conn_interval_min p.conn_interval_max p.timeout
        p.slave_latency)
    >> wait_for_completion_event env gap_connection_rsp_evt 0 200
    >>= checked none (
        wait_for_completion_event env gap_connection_evt 0 15 >>= (λ code.
          if code == 0
          then pure (
              result 0 none (settled_message correct "Parameters were changed to default values")
                [])
          else send_request env end_procedure >> pure (answer none code))))

unfoldable pub connect_device : Env → Bytes → ℕ → ConnectionParameters → D Result
connect_device env mac address_type p =
    let checked_p = check_connection_parameters p in
    on_device mac (new_connection env checked_p.0 checked_p.1 mac address_type)
      (update_connection env checked_p.0 checked_p.1)
