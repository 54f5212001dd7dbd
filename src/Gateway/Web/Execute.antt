-- ===== src/Gateway/Web/Execute.antt =====
-- `ExecuteWorkRequest` of BLEGatewayApplication/BLE_GATEWAY.cpp: the command of a request, and its
-- reply. An exception of any type is thrown; nothing catches it.
use io_tblegateway.Common.{
  ◌-◌, ℕ, ◌+◌, ◌%◌, ◌^◌, Bool, Option, none, some, [], ltb, ◌==◌, if◌then◌else◌, Bytes,
}
use Prim.Native.String.{String}
use io_tblegateway.Client.Process.{Env}
use io_tblegateway.Gateway.Text.{construct_valid_integer, construct_valid_mac, stoi_digits}
use io_tblegateway.Gateway.Driver.{D, ◌>>=◌, pure, throw}
use io_tblegateway.Gateway.Parameters.{ConnectionParameters, DiscoverParameters}
use io_tblegateway.Gateway.Commands.{
  Result, disconnect_device, read_all_attributes, write_device_attribute, get_connected_devices,
}
use io_tblegateway.Gateway.Commands.Connect.{connect_device}
use io_tblegateway.Gateway.Commands.Read.{read_attribute}
use io_tblegateway.Gateway.Commands.Discover.{discover_devices}
use io_tblegateway.Gateway.Commands.Info.{update_bled_information}
use io_tblegateway.Gateway.Web.Params.{text, to_string, Params, get, set}
use io_tblegateway.Gateway.Web.Keys.{
  command_key, http_body_string, http_statuscode, http_code, mac_string, attr_handle_str,
  query_discover_mode, query_scan_interval, query_scan_window, query_active_scan,
  query_discover_time, query_address_type, query_connection_interval, query_timeout,
  query_slave_latency, query_last_update, query_write_value, cmd_dongle_overview,
  cmd_bledev_overview, cmd_connected, cmd_discovered, cmd_connect, cmd_disconnect, cmd_write_handle,
  cmd_read_handle, cmd_error, cmd_options, http_200_ok, http_201_created, http_400_bad_req,
  http_404_not_found, http_500_int_s_error, http_502_bad_gateway,
}
use io_tblegateway.Gateway.Web.Accept.{Floats}
use io_tblegateway.Gateway.Web.Request.{Request, process_http_request}
use io_tblegateway.Gateway.Web.Reply.{Reply, post_http_struct_data, post_http_message}

abbrev pub or_throw : {A : Type 0} → Option A → D A
or_throw none = throw
or_throw (some a) = pure a

abbrev pub with_status : ℕ → String → Bytes → Params → Params
with_status code status body ps =
    set http_body_string body
      (set http_statuscode (text status) (set http_code (to_string code) ps))

abbrev pub post_message : ℕ → String → Bytes → Params → D Reply
post_message code status body ps = or_throw (post_http_message (with_status code status body ps))

abbrev pub post_data : ℕ → String → Result → Params → D Reply
post_data code status r ps =
    pure (post_http_struct_data r.data_list (with_status code status (text r.error_message) ps))

-- the reply to a result, with `found` for one without an error
abbrev pub unless_error : (Result → Params → D Reply) → Params → Result → D Reply
unless_error found ps r =
    if r.error_code == 0
    then found r ps
    else post_message http_502_bad_gateway "502 Bad Gateway" (text r.error_message) ps

abbrev pub post_ok : Params → Result → D Reply
post_ok ps r = unless_error (post_data http_200_ok "200 OK") ps r

-- a choice by the connection handle of a result, which is -1 or not
abbrev pub known_or : Option ℕ → D Reply → D Reply → D Reply
known_or none missing known = missing
known_or (some handle) missing known = known

abbrev pub post_found : Params → Result → D Reply
post_found ps r =
    known_or r.connection_handle
      (post_message http_404_not_found "404 Not Found" (text r.error_message) ps) (post_ok ps r)

-- A new connection is created, and has no handle.
abbrev pub created_or_ok : Result → Params → D Reply
created_or_ok r ps =
    known_or r.connection_handle (post_data http_201_created "201 Created" r ps)
      (post_data http_200_ok "200 OK" r ps)

abbrev pub bad_format : String → Params → D Reply
bad_format message ps = post_message http_400_bad_req "400 Bad Request" (text message) ps

abbrev pub if_mac : Option (Bool × Bytes) → Params → (Bytes → D Reply) → D Reply
if_mac none ps f = throw
if_mac (some (valid, mac)) ps f =
    if valid then f mac else bad_format "Not a valid MAC Address format" ps

abbrev pub with_mac : Params → (Bytes → D Reply) → D Reply
with_mac ps f = if_mac (construct_valid_mac (get mac_string ps) []) ps f

-- `attributeHandle` is a `uint16`.
abbrev pub if_handle : Option ℕ → Params → (ℕ → D Reply) → D Reply
if_handle none ps f = bad_format "Not a valid Attribute Handle format" ps
if_handle (some n) ps f = f (n % 2 ^ 16)

abbrev pub with_handle : Params → (ℕ → D Reply) → D Reply
with_handle ps f = if_handle (stoi_digits (get attr_handle_str ps)) ps f

abbrev pub value_or : ℕ → Option ℕ → ℕ
value_or default none = default
value_or default (some i) = i

abbrev pub integer : Bytes → ℕ → Params → ℕ
integer key default ps = value_or default (construct_valid_integer (get key ps))

unfoldable pub discover_parameters : Params → DiscoverParameters
unfolding text get construct_valid_integer
discover_parameters ps =
    let mode = integer query_discover_mode 1 ps in
    record {
      discover_mode = if ltb mode 3 then mode else 1;
      scan_interval = integer query_scan_interval 0x4b ps % 2 ^ 16;
      scan_window = integer query_scan_window 0x32 ps % 2 ^ 16;
    }

-- The lower bound of the interval is `connectionInterval - 0x10` as a `uint16_t`.
unfoldable pub connection_parameters : Params → ConnectionParameters
unfolding text get construct_valid_integer
connection_parameters ps =
    let interval = integer query_connection_interval 0x4c ps in
    record {
      conn_interval_min = (interval + (2 ^ 16 - 0x10)) % 2 ^ 16;
      conn_interval_max = interval % 2 ^ 16;
      timeout = integer query_timeout 0x64 ps % 2 ^ 16;
      slave_latency = integer query_slave_latency 0 ps % 2 ^ 16;
    }

-- The cases of the `switch` over the commands.
abbrev pub dongle_overview : Env → Params → D Reply
dongle_overview env ps = update_bled_information env >>= post_ok ps

abbrev pub device_overview : Env → Params → D Reply
device_overview env ps = with_mac ps (λ mac. read_all_attributes env mac >>= post_found ps)

abbrev pub discover : Env → Params → D Reply
discover env ps =
    discover_devices env (discover_parameters ps)
      (if integer query_active_scan 1 ps == 0 then 0 else 1)
      (integer query_discover_time 0 ps % 2 ^ 16)
    >>= post_ok ps

abbrev pub connected : Params → D Reply
connected ps = get_connected_devices >>= post_ok ps

abbrev pub connect : Env → Params → D Reply
connect env ps = with_mac ps (λ mac.
    connect_device env mac (integer query_address_type 1 ps % 2 ^ 8) (connection_parameters ps)
    >>= unless_error created_or_ok ps)

abbrev pub disconnect : Env → Params → D Reply
disconnect env ps = with_mac ps (λ mac. disconnect_device env mac >>= post_ok ps)

abbrev pub read_handle : Env → Params → D Reply
read_handle env ps = with_mac ps (λ mac.
    with_handle ps
      (λ k. read_attribute env mac k (integer query_last_update 0 ps) >>= post_found ps))

abbrev pub write_handle : Env → Params → D Reply
write_handle env ps = with_mac ps (λ mac.
    with_handle ps
      (λ k. write_device_attribute env mac k (get query_write_value ps) >>= post_found ps))

unfoldable pub execute : Env → ℕ → Params → D Reply
unfolding text get discover_parameters connection_parameters
execute env id ps =
    if id == cmd_dongle_overview
    then dongle_overview env ps
    else if id == cmd_bledev_overview
    then device_overview env ps
    else if id == cmd_discovered
    then discover env ps
    else if id == cmd_connected
    then connected ps
    else if id == cmd_connect
    then connect env ps
    else if id == cmd_disconnect
    then disconnect env ps
    else if id == cmd_read_handle
    then read_handle env ps
    else if id == cmd_write_handle
    then write_handle env ps
    else if id == cmd_options
    then or_throw (post_http_message ps)
    else if id == cmd_error
    then or_throw (post_http_message ps)
    else post_message http_500_int_s_error "500 Internal Server Error" (text "Unknown Error") ps

-- `std::stoi` of the command throws on the empty text.
abbrev pub execute_command : Env → Params → Option ℕ → D Reply
execute_command env ps none = throw
execute_command env ps (some id) = execute env id ps

abbrev pub execute_parsed : Env → Option Params → D Reply
execute_parsed env none = throw
execute_parsed env (some ps) = execute_command env ps (stoi_digits (get command_key ps))

unfoldable pub execute_work_request : Floats → Env → Request → D Reply
unfolding execute process_http_request
execute_work_request fl env wr = execute_parsed env (process_http_request fl wr [])
