-- ===== src/Client/Commands/Requests.antt =====
-- What the gateway (BLEGatewayApplication/BLE_DRIVER.cpp) serialises for each request, and that the
-- client turns it into the command with the same arguments.
use io_tblegateway.Common.{ℕ, ◌≡◌, Option, some, List, [], ◌∷◌, Bytes, length}
use Prim.Native.String.{String}
use io_tblegateway.Bglib.Indices.{
  ble_cmd_system_get_info_idx, ble_cmd_gap_end_procedure_idx, ble_cmd_system_get_connections_idx,
  ble_cmd_gap_set_scan_parameters_idx, ble_cmd_gap_discover_idx, ble_cmd_gap_connect_direct_idx,
  ble_cmd_connection_get_status_idx, ble_cmd_connection_disconnect_idx,
  ble_cmd_connection_update_idx, ble_cmd_attclient_read_by_group_type_idx,
  ble_cmd_attclient_find_information_idx, ble_cmd_attclient_read_by_handle_idx,
  ble_cmd_attclient_attribute_write_idx,
}
use io_tblegateway.Bglib.Send.{Arg, int, ptr}
use io_tblegateway.Tpl.{Tpl, Value, v, c, s, bin, Laws}
use io_tblegateway.Client.Process.{M, Env}
use io_tblegateway.Client.Commands

-- the requests that the gateway sends, by its `BleCmd...` functions
pub data Request : Type 0 where
  get_info : Request
  end_procedure : Request
  get_max_connections : Request
  scan_parameters : (scan_int scan_win active : ℕ) → Request
  discover : (scan_mode : ℕ) → Request
  connect : (mac : Bytes) (address_type lo hi timeout latency : ℕ) → Request
  get_status : (connection : ℕ) → Request
  update : (connection lo hi timeout latency : ℕ) → Request
  disconnect : (connection : ℕ) → Request
  read_by_group_type : (connection first last : ℕ) (uuid : Bytes) → Request
  find_information : (connection first last : ℕ) → Request
  read_by_handle : (connection attribute : ℕ) → Request
  write_attribute : (connection attribute : ℕ) (written : Bytes) → Request

-- the format string of each `tpl_map`
unfoldable pub format_of : Request → String
format_of get_info = "v"
format_of end_procedure = "v"
format_of get_max_connections = "v"
format_of (scan_parameters _ _ _) = "vvvc"
format_of (discover _) = "vv"
format_of (connect _ _ _ _ _ _) = "vS(c#)cvvvv"
format_of (get_status _) = "vc"
format_of (update _ _ _ _ _) = "vcvvvv"
format_of (disconnect _) = "vc"
format_of (read_by_group_type _ _ _ _) = "vcvvB"
format_of (find_information _ _ _) = "vcvv"
format_of (read_by_handle _ _) = "vcv"
format_of (write_attribute _ _ _) = "vcvB"

-- the values packed behind the command's index
unfoldable pub fields_of : Request → List Value
fields_of get_info = []
fields_of end_procedure = []
fields_of get_max_connections = []
fields_of (scan_parameters scan_int scan_win active) = v scan_int ∷ v scan_win ∷ c active ∷ []
fields_of (discover scan_mode) = v scan_mode ∷ []
fields_of (connect mac address_type lo hi timeout latency) =
    s mac ∷ c address_type ∷ v lo ∷ v hi ∷ v timeout ∷ v latency ∷ []
fields_of (get_status connection) = c connection ∷ []
fields_of (update connection lo hi timeout latency) =
    c connection ∷ v lo ∷ v hi ∷ v timeout ∷ v latency ∷ []
fields_of (disconnect connection) = c connection ∷ []
fields_of (read_by_group_type connection first last uuid) =
    c connection ∷ v first ∷ v last ∷ bin uuid ∷ []
fields_of (find_information connection first last) = c connection ∷ v first ∷ v last ∷ []
fields_of (read_by_handle connection attribute) = c connection ∷ v attribute ∷ []
fields_of (write_attribute connection attribute written) =
    c connection ∷ v attribute ∷ bin written ∷ []

unfoldable pub index_of : Request → ℕ
index_of get_info = ble_cmd_system_get_info_idx
index_of end_procedure = ble_cmd_gap_end_procedure_idx
index_of get_max_connections = ble_cmd_system_get_connections_idx
index_of (scan_parameters _ _ _) = ble_cmd_gap_set_scan_parameters_idx
index_of (discover _) = ble_cmd_gap_discover_idx
index_of (connect _ _ _ _ _ _) = ble_cmd_gap_connect_direct_idx
index_of (get_status _) = ble_cmd_connection_get_status_idx
index_of (update _ _ _ _ _) = ble_cmd_connection_update_idx
index_of (disconnect _) = ble_cmd_connection_disconnect_idx
index_of (read_by_group_type _ _ _ _) = ble_cmd_attclient_read_by_group_type_idx
index_of (find_information _ _ _) = ble_cmd_attclient_find_information_idx
index_of (read_by_handle _ _) = ble_cmd_attclient_read_by_handle_idx
index_of (write_attribute _ _ _) = ble_cmd_attclient_attribute_write_idx

unfoldable pub packed : Tpl → Request → Option Bytes
packed tpl r = tpl.dump (format_of r) (v (index_of r) ∷ fields_of r)

-- The arguments of the BGLIB command that a request asks for, in the order of its macro in
-- BLEGatewayClient/cmd_def.h.
unfoldable pub arguments_of : Request → List Arg
arguments_of get_info = []
arguments_of end_procedure = []
arguments_of get_max_connections = []
arguments_of (scan_parameters scan_int scan_win active) =
    int scan_int ∷ int scan_win ∷ int active ∷ []
arguments_of (discover scan_mode) = int scan_mode ∷ []
arguments_of (connect mac address_type lo hi timeout latency) =
    ptr mac ∷ int address_type ∷ int lo ∷ int hi ∷ int timeout ∷ int latency ∷ []
arguments_of (get_status connection) = int connection ∷ []
arguments_of (update connection lo hi timeout latency) =
    int connection ∷ int lo ∷ int hi ∷ int latency ∷ int timeout ∷ []
arguments_of (disconnect connection) = int connection ∷ []
arguments_of (read_by_group_type connection first last uuid) =
    int connection ∷ int first ∷ int last ∷ int (length uuid) ∷ ptr uuid ∷ []
arguments_of (find_information connection first last) = int connection ∷ int first ∷ int last ∷ []
arguments_of (read_by_handle connection attribute) = int connection ∷ int attribute ∷ []
arguments_of (write_attribute connection attribute written) =
    int connection ∷ int attribute ∷ int (length written) ∷ ptr written ∷ []

module _ (env : Env) (laws : Laws env.tpl) where
  with_values-dump :
      (f : String) (vs : List Value) (msg : Bytes) (use_values : List Value → M ℕ)
      → env.tpl.dump f vs ≡ some msg
      → Commands.with_values env f msg use_values ≡ use_values vs
  unfolding Commands.with_values
  with_values-dump f vs msg use_values e =
      rw (laws.maps-dump f vs msg e, laws.unpack-dump f vs msg e)

  -- A message that the gateway packed for a request makes the client run the BGLIB command of the
  -- request's index, with the request's values as its arguments.
  pub decode-packed :
      (r : Request) (msg : Bytes)
      → packed env.tpl r ≡ some msg
      → Commands.decode_incoming_tcp_message env msg
        ≡ Commands.ble_cmd (index_of r) (arguments_of r)
  unfolding Commands.decode_incoming_tcp_message Commands.command_case packed index_of format_of
      fields_of arguments_of
  decode-packed get_info msg e = rw (laws.peek-dump _ _ _ msg e)
  decode-packed end_procedure msg e = rw (laws.peek-dump _ _ _ msg e)
  decode-packed get_max_connections msg e = rw (laws.peek-dump _ _ _ msg e)
  decode-packed (scan_parameters _ _ _) msg e =
      rw (laws.peek-dump _ _ _ msg e) (with_values-dump _ _ msg Commands.set_scan_parameters_call e)
  decode-packed (discover _) msg e =
      rw (laws.peek-dump _ _ _ msg e) (with_values-dump _ _ msg Commands.discover_call e)
  decode-packed (connect _ _ _ _ _ _) msg e =
      rw (laws.peek-dump _ _ _ msg e) (with_values-dump _ _ msg Commands.connect_direct_call e)
  decode-packed (get_status _) msg e =
      rw (laws.peek-dump _ _ _ msg e) (with_values-dump _ _ msg Commands.get_status_call e)
  decode-packed (update _ _ _ _ _) msg e =
      rw (laws.peek-dump _ _ _ msg e) (with_values-dump _ _ msg Commands.connection_update_call e)
  decode-packed (disconnect _) msg e =
      rw (laws.peek-dump _ _ _ msg e) (with_values-dump _ _ msg Commands.disconnect_call e)
  decode-packed (read_by_group_type _ _ _ _) msg e =
      rw (laws.peek-dump _ _ _ msg e) (with_values-dump _ _ msg Commands.read_by_group_type_call e)
  decode-packed (find_information _ _ _) msg e =
      rw (laws.peek-dump _ _ _ msg e) (with_values-dump _ _ msg Commands.find_information_call e)
  decode-packed (read_by_handle _ _) msg e =
      rw (laws.peek-dump _ _ _ msg e) (with_values-dump _ _ msg Commands.read_by_handle_call e)
  decode-packed (write_attribute _ _ _) msg e =
      rw (laws.peek-dump _ _ _ msg e) (with_values-dump _ _ msg Commands.attribute_write_call e)
