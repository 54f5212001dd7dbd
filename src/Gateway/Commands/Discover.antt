-- ===== src/Gateway/Commands/Discover.antt =====
-- `Discover` of BLEGatewayApplication/BLE_DRIVER.cpp.
use io_tblegateway.Common.{ℕ, ◌+◌, some, List, [], ◌∷◌, ltb, if◌then◌else◌, Bytes}
use Prim.Native.String.{String}
use io_tblegateway.Client.Process.{Env}
use io_tblegateway.Client.Commands.Requests.{end_procedure}
use io_tblegateway.Gateway.Map.{Map}
use io_tblegateway.Gateway.Driver.{
  AdvertisementData, Polled, D, ret, blocked, then_run, catch_run, ◌>>=◌, ◌>>◌, pure,
}
use io_tblegateway.Gateway.CompletionEvents.{gap_discover_rsp_evt}
use io_tblegateway.Gateway.Receive.{process_polled}
use io_tblegateway.Gateway.Wait.{wait_for_completion_event}
use io_tblegateway.Gateway.Parameters.{DiscoverParameters, check_discover_parameters}
use io_tblegateway.Gateway.Commands.{
  send_request, ble_cmd_gap_discover, Shown, advertisement, Result, result, checked, guarded,
  settled_message,
}

-- the loop of a discovery, which handles messages for its time
unfoldable pub discover_loop : Env → ℕ → ℕ → List (ℕ × Polled) → D (Unit {0})
discover_loop env begin time [] d =
    if ltb d.now (begin + time)
    then blocked (record d { polls = [] })
    else ret tt (record d { polls = [] })
discover_loop env begin time (p ∷ ps) d =
    let round = catch_run (process_polled env p d) (pure tt) in
    let rest = then_run round (λ _. discover_loop env begin time ps) in
    if ltb d.now (begin + time) then rest else ret tt (record d { polls = p ∷ ps })

abbrev advertisements : Map Bytes AdvertisementData → List Shown
advertisements [] = []
advertisements (e ∷ m) = advertisement e.0 ∷ advertisements m

abbrev pub discovered : String → D Result
discovered message d = ret (result 0 (some 0) message (advertisements d.discovered_devices)) d

unfoldable pub discover_devices : Env → DiscoverParameters → ℕ → ℕ → D Result
discover_devices env p active discover_time d =
    let checked_p = check_discover_parameters p in
    let run =
      guarded (some 0)
        (ble_cmd_gap_discover env checked_p.1 active
          >> wait_for_completion_event env gap_discover_rsp_evt 0 200
          >>= checked (some 0) (
              (λ d1. discover_loop env d1.now discover_time d1.polls d1)
              >> send_request env end_procedure
              >> discovered
                  (settled_message checked_p.0 "Parameters were changed to default values")))
        d in
    if ltb 0 discover_time then run else discovered "Returning cached values" d
