-- ===== src/Gateway/Commands/Info.antt =====
-- The constructor `BLED112` and `UpdateBledInformation` of BLEGatewayApplication/BLE_DRIVER.cpp.
use io_tblegateway.Common.{true, some, [], ◌∷◌}
use io_tblegateway.Client.Process.{Env}
use io_tblegateway.Client.Commands.Requests.{get_info, get_max_connections}
use io_tblegateway.Gateway.Driver.{D, ◌>>=◌, ◌>>◌, pure, modify}
use io_tblegateway.Gateway.CompletionEvents.{sys_get_info_rsp_evt, sys_get_maxcon_rsp_evt}
use io_tblegateway.Gateway.Errors.{create_error_message}
use io_tblegateway.Gateway.Wait.{wait_for_completion_event}
use io_tblegateway.Gateway.Commands.{send_request, information, Result, result, checked}

-- An exception of a send is thrown on with another text.
unfoldable new_bled112 : Env → D (Unit {0})
new_bled112 env =
    send_request env get_info
    >> send_request env get_max_connections
    >> modify (λ d. record d { is_connected = true })

-- The exceptions of the sends are not caught.
unfoldable pub update_bled_information : Env → D Result
update_bled_information env =
    send_request env get_info
    >> wait_for_completion_event env sys_get_info_rsp_evt 0 5
    >>= checked (some 0) (
        send_request env get_max_connections
        >> wait_for_completion_event env sys_get_maxcon_rsp_evt 0 5
        >>= checked (some 0) (pure (result 0 (some 0) (create_error_message 0) (information ∷ []))))
