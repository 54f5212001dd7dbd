-- ===== src/Gateway/Web/Keys.antt =====
-- The keys of the parameter map, the commands and the status codes of
-- BLEGatewayApplication/Headers/HTTP_HELPER.h.
use io_tblegateway.Common.{ℕ, Bytes}
use io_tblegateway.Gateway.Web.Params.{text}

abbrev pub command_key : Bytes
command_key = text "COMMAND_ID"

abbrev pub http_body_string : Bytes
http_body_string = text "HTTP_BODY_STRING"

abbrev pub http_statuscode : Bytes
http_statuscode = text "HTTP_STATUSCODE"

abbrev pub http_code : Bytes
http_code = text "HTTP_CODE"

abbrev pub mac_string : Bytes
mac_string = text "MAC_STRING"

abbrev pub attr_handle_str : Bytes
attr_handle_str = text "ATTR_HANDLE_STR"

abbrev pub accepted_mime : Bytes
accepted_mime = text "ACCEPTED_MIME"

abbrev pub query_discover_mode : Bytes
query_discover_mode = text "DISCOVERMODE"

abbrev pub query_scan_interval : Bytes
query_scan_interval = text "SCANINTERVAL"

abbrev pub query_scan_window : Bytes
query_scan_window = text "SCANWINDOW"

abbrev pub query_active_scan : Bytes
query_active_scan = text "ACTIVESCAN"

abbrev pub query_discover_time : Bytes
query_discover_time = text "DISCOVERTIME"

abbrev pub query_address_type : Bytes
query_address_type = text "ADDRESSTYPE"

abbrev pub query_connection_interval : Bytes
query_connection_interval = text "CONNECTIONINTERVAL"

abbrev pub query_timeout : Bytes
query_timeout = text "TIMEOUT"

abbrev pub query_slave_latency : Bytes
query_slave_latency = text "SLAVELATENCY"

abbrev pub query_last_update : Bytes
query_last_update = text "LASTUPDATE"

abbrev pub query_write_value : Bytes
query_write_value = text "VALUE"

abbrev pub cmd_gw_overview : ℕ
cmd_gw_overview = 0

abbrev pub cmd_dongle_overview : ℕ
cmd_dongle_overview = 1

abbrev pub cmd_bledev_overview : ℕ
cmd_bledev_overview = 2

abbrev pub cmd_connected : ℕ
cmd_connected = 3

abbrev pub cmd_discovered : ℕ
cmd_discovered = 4

abbrev pub cmd_connect : ℕ
cmd_connect = 5

abbrev pub cmd_disconnect : ℕ
cmd_disconnect = 6

abbrev pub cmd_write_handle : ℕ
cmd_write_handle = 7

abbrev pub cmd_read_handle : ℕ
cmd_read_handle = 8

abbrev pub cmd_error : ℕ
cmd_error = 9

abbrev pub cmd_options : ℕ
cmd_options = 10

abbrev pub html_content_type : Bytes
html_content_type = text "text/html"

abbrev pub json_content_type : Bytes
json_content_type = text "application/json"

abbrev pub textwc_content_type : Bytes
textwc_content_type = text "text/*"

abbrev pub appwc_content_type : Bytes
appwc_content_type = text "application/*"

abbrev pub wcwc_content_type : Bytes
wcwc_content_type = text "*/*"

abbrev pub http_200_ok : ℕ
http_200_ok = 3

abbrev pub http_201_created : ℕ
http_201_created = 4

abbrev pub http_202_accepted : ℕ
http_202_accepted = 5

abbrev pub http_400_bad_req : ℕ
http_400_bad_req = 13

abbrev pub http_404_not_found : ℕ
http_404_not_found = 17

abbrev pub http_405_m_not_a : ℕ
http_405_m_not_a = 18

abbrev pub http_406_not_acc : ℕ
http_406_not_acc = 19

abbrev pub http_500_int_s_error : ℕ
http_500_int_s_error = 27

abbrev pub http_501_not_impl : ℕ
http_501_not_impl = 28

abbrev pub http_502_bad_gateway : ℕ
http_502_bad_gateway = 29
