-- ===== src/Gateway/Web/Uri.antt =====
-- `ParseURI` of BLEGatewayApplication/HTTP_HELPER.cpp: the command of a path and a method. `none` is
-- a loop that does not end.
use io_tblegateway.Common.{ℕ, ◌&&◌, Option, none, some, List, [], ◌∷◌, ◌++◌, if◌then◌else◌, Bytes}
use Prim.Native.String.{String}
use io_tblegateway.Gateway.Text.{construct_substrings, is_valid_integer, is_valid_mac}
use io_tblegateway.Gateway.Web.Params.{text, iequals, to_string, Params, set}
use io_tblegateway.Gateway.Web.Keys.{
  command_key, http_body_string, http_code, mac_string, attr_handle_str, cmd_gw_overview,
  cmd_dongle_overview, cmd_bledev_overview, cmd_connected, cmd_discovered, cmd_connect,
  cmd_disconnect, cmd_write_handle, cmd_read_handle, cmd_error, cmd_options, http_200_ok,
  http_400_bad_req, http_405_m_not_a,
}

abbrev pub http_get : Bytes
http_get = text "GET"

abbrev pub http_put : Bytes
http_put = text "PUT"

abbrev pub http_delete : Bytes
http_delete = text "DELETE"

abbrev pub http_options : Bytes
http_options = text "OPTIONS"

abbrev pub discovered_devices : Bytes
discovered_devices = text "Discovered"

abbrev pub connected_devices : Bytes
connected_devices = text "Connected"

-- The texts of the replies to OPTIONS and to bad requests.
abbrev pub get_options : String
get_options = "METHODS: GET, OPTIONS"

abbrev pub discover_options : String
discover_options =
    "METHODS: GET, OPTIONS; QUERY GET: ||| discovertime (in seconds) ||| discovermode(0:limited,1:generic,2:observation) ||| scaninterval(in units of 625micros,0x4<=val<=0x4000) ||| scanwindow(in units of 625micros, 0x4<=val<=scaninterval<=0x4000) ||| activescan(0,1)"

abbrev pub device_options : String
device_options =
    "METHODS: GET, PUT, DELETE, OPTIONS; QUERY PUT: ||| connectioninterval(in units of 1.25ms, 6<=val<=3200) ||| slavelatency(0<=val<=500) ||| timeout(in units of 10ms, 10<=val<=3200)"

abbrev pub attribute_options : String
attribute_options =
    "METHODS: GET, PUT, OPTIONS; QUERY GET: ||| lastupdate(in seconds); QUERY PUT:||| value(hex string)"

abbrev pub not_a_device : String
not_a_device = ": Invalid Syntax. Could not recognize Discovered, Connectedor MAC Address."

abbrev pub not_an_attribute : String
not_an_attribute = ": Invalid Syntax. Could not recognize MAC Address or Attribute Handle"

abbrev pub invalid_syntax : String
invalid_syntax = ": Invalid Syntax"

abbrev pub slash : Bytes
slash = b'/' ∷ []

abbrev pub command : ℕ → Params → Params
command id result = set command_key (to_string id) result

-- a command that needs no driver, with its status code and its text
abbrev pub settled : ℕ → ℕ → Bytes → Params → Params
settled id code body result =
    set http_body_string body (set http_code (to_string code) (command id result))

-- The end of each chain of methods: OPTIONS, or an error with the methods that are allowed.
unfoldable pub other_method : String → String → Bytes → Params → Params
unfolding text iequals
other_method described allowed request_method result =
    if iequals request_method http_options
    then settled cmd_options http_200_ok (text described) result
    else settled cmd_error http_405_m_not_a (text allowed) result

unfoldable pub only_get : ℕ → String → Bytes → Params → Params
unfolding text iequals other_method
only_get id described request_method result =
    if iequals request_method http_get
    then command id result
    else other_method described "GET, OPTIONS" request_method result

unfoldable pub device_method : Bytes → Bytes → Params → Params
unfolding text iequals other_method
device_method uri_command request_method result =
    if iequals request_method http_get
    then set mac_string uri_command (command cmd_bledev_overview result)
    else if iequals request_method http_put
    then set mac_string uri_command (command cmd_connect result)
    else if iequals request_method http_delete
    then set mac_string uri_command (command cmd_disconnect result)
    else other_method device_options "GET, PUT, DELETE, OPTIONS" request_method result

unfoldable pub attribute_method : Bytes → Bytes → Bytes → Params → Params
unfolding text iequals other_method
attribute_method uri_command attribute_id request_method result =
    if iequals request_method http_get
    then set attr_handle_str attribute_id
        (set mac_string uri_command (command cmd_read_handle result))
    else if iequals request_method http_put
    then set attr_handle_str attribute_id
        (set mac_string uri_command (command cmd_write_handle result))
    else other_method attribute_options "GET, PUT, OPTIONS" request_method result

abbrev pub bad_request : Bytes → String → Params → Params
bad_request request_uri message result =
    settled cmd_error http_400_bad_req (request_uri ++ text message) result

unfoldable pub two_parts : Bytes → Bytes → Bytes → Params → Option Params
unfolding text iequals only_get device_method
two_parts request_uri uri_command request_method result =
    if iequals uri_command discovered_devices
    then some (only_get cmd_discovered discover_options request_method result)
    else if iequals uri_command connected_devices
    then some (only_get cmd_connected get_options request_method result)
    else elim (is_valid_mac uri_command) [
      | none ↦ none
      | some valid ↦ some (
          if valid
          then device_method uri_command request_method result
          else bad_request request_uri not_a_device result)
    ]

unfoldable pub three_parts : Bytes → Bytes → Bytes → Bytes → Params → Option Params
unfolding text attribute_method
three_parts request_uri uri_command attribute_id request_method result =
    elim (is_valid_mac uri_command) [
      | none ↦ none
      | some valid ↦ some (
          if valid && is_valid_integer attribute_id
          then attribute_method uri_command attribute_id request_method result
          else bad_request request_uri not_an_attribute result)
    ]

-- The `switch` over the number of parts of the path.
unfoldable pub by_parts : Bytes → Bytes → List Bytes → Params → Option Params
unfolding text only_get two_parts three_parts
by_parts request_uri request_method [] result =
    some (only_get cmd_gw_overview get_options request_method result)
by_parts request_uri request_method (dongle ∷ []) result =
    some (only_get cmd_dongle_overview get_options request_method result)
by_parts request_uri request_method (dongle ∷ uri_command ∷ []) result =
    two_parts request_uri uri_command request_method result
by_parts request_uri request_method (dongle ∷ uri_command ∷ attribute_id ∷ []) result =
    three_parts request_uri uri_command attribute_id request_method result
by_parts request_uri request_method _ result = some (bad_request request_uri invalid_syntax result)

unfoldable pub parse_uri : Bytes → Bytes → Params → Option Params
unfolding by_parts
parse_uri request_uri request_method result = elim (construct_substrings request_uri slash) [
  | none ↦ none
  | some uri_parameters ↦ by_parts request_uri request_method uri_parameters result
]
