-- ===== src/Client/Abort/Commands.antt =====
-- The commands of the gateway and `abort_cmd`.
use io_tblegateway.Client.Abort.{
  some, Option, Keeps, Keeps-bind, Keeps-pure, Keeps-undefined, Keeps-from_option, Keeps-if,
  Keeps-ble_cmd,
}
use io_tblegateway.Common.{Option, none, some, ℕ, List, [], ◌∷◌, Bytes}
use Prim.Native.String.{String}
use io_tblegateway.Tpl.{Value, v, c, s, bin}
use io_tblegateway.Client.Process.{Env, M}
use io_tblegateway.Client.Commands

Keeps-with_values :
    (env : Env) (format : String) (message : Bytes) {f : List Value → M ℕ}
    → ((values : List Value) → Keeps (f values))
    → Keeps (Commands.with_values env format message f)
unfolding Commands.with_values
Keeps-with_values env format message h =
    Keeps-if (env.tpl.maps format)
      (Keeps-bind (Keeps-from_option (env.tpl.unpack format message)) h) Keeps-pure

Keeps-set_scan_parameters_call :
    (values : List Value) → Keeps (Commands.set_scan_parameters_call values)
unfolding Commands.set_scan_parameters_call
Keeps-set_scan_parameters_call (v i ∷ v scan_int ∷ v scan_win ∷ c active ∷ []) = Keeps-ble_cmd _ _
Keeps-set_scan_parameters_call _ = Keeps-undefined

Keeps-discover_call : (values : List Value) → Keeps (Commands.discover_call values)
unfolding Commands.discover_call
Keeps-discover_call (v i ∷ v scan_mode ∷ []) = Keeps-ble_cmd _ _
Keeps-discover_call _ = Keeps-undefined

Keeps-connect_direct_call : (values : List Value) → Keeps (Commands.connect_direct_call values)
unfolding Commands.connect_direct_call
Keeps-connect_direct_call
      (v i ∷ s mac ∷ c address_type ∷ v lo ∷ v hi ∷ v timeout ∷ v latency ∷ []) =
    Keeps-ble_cmd _ _
Keeps-connect_direct_call _ = Keeps-undefined

Keeps-get_status_call : (values : List Value) → Keeps (Commands.get_status_call values)
unfolding Commands.get_status_call
Keeps-get_status_call (v i ∷ c connection ∷ []) = Keeps-ble_cmd _ _
Keeps-get_status_call _ = Keeps-undefined

Keeps-disconnect_call : (values : List Value) → Keeps (Commands.disconnect_call values)
unfolding Commands.disconnect_call
Keeps-disconnect_call (v i ∷ c connection ∷ []) = Keeps-ble_cmd _ _
Keeps-disconnect_call _ = Keeps-undefined

Keeps-connection_update_call :
    (values : List Value) → Keeps (Commands.connection_update_call values)
unfolding Commands.connection_update_call
Keeps-connection_update_call (v i ∷ c connection ∷ v lo ∷ v hi ∷ v timeout ∷ v latency ∷ []) =
    Keeps-ble_cmd _ _
Keeps-connection_update_call _ = Keeps-undefined

Keeps-read_by_group_type_call :
    (values : List Value) → Keeps (Commands.read_by_group_type_call values)
unfolding Commands.read_by_group_type_call
Keeps-read_by_group_type_call (v i ∷ c connection ∷ v first ∷ v last ∷ bin uuid ∷ []) =
    Keeps-ble_cmd _ _
Keeps-read_by_group_type_call _ = Keeps-undefined

Keeps-read_by_type_call : (values : List Value) → Keeps (Commands.read_by_type_call values)
unfolding Commands.read_by_type_call
Keeps-read_by_type_call (v i ∷ c connection ∷ v first ∷ v last ∷ bin uuid ∷ []) = Keeps-ble_cmd _ _
Keeps-read_by_type_call _ = Keeps-undefined

Keeps-find_information_call : (values : List Value) → Keeps (Commands.find_information_call values)
unfolding Commands.find_information_call
Keeps-find_information_call (v i ∷ c connection ∷ v first ∷ v last ∷ []) = Keeps-ble_cmd _ _
Keeps-find_information_call _ = Keeps-undefined

Keeps-read_by_handle_call : (values : List Value) → Keeps (Commands.read_by_handle_call values)
unfolding Commands.read_by_handle_call
Keeps-read_by_handle_call (v i ∷ c connection ∷ v attribute ∷ []) = Keeps-ble_cmd _ _
Keeps-read_by_handle_call _ = Keeps-undefined

Keeps-attribute_write_call : (values : List Value) → Keeps (Commands.attribute_write_call values)
unfolding Commands.attribute_write_call
Keeps-attribute_write_call (v i ∷ c connection ∷ v attribute ∷ bin value ∷ []) = Keeps-ble_cmd _ _
Keeps-attribute_write_call _ = Keeps-undefined

ruleset cases = (
  Keeps-if, Keeps-pure, Keeps-ble_cmd, Keeps-with_values, Keeps-set_scan_parameters_call,
  Keeps-discover_call, Keeps-connect_direct_call, Keeps-get_status_call, Keeps-disconnect_call,
  Keeps-connection_update_call, Keeps-read_by_group_type_call, Keeps-read_by_type_call,
  Keeps-find_information_call, Keeps-read_by_handle_call, Keeps-attribute_write_call,
)

pub Keeps-command_case :
    (env : Env) (idx : ℕ) (message : Bytes) → Keeps (Commands.command_case env idx message)
unfolding Commands.command_case
Keeps-command_case env idx message = search cases depth 18 fits 2000

pub Keeps-decode_incoming_tcp_message :
    (env : Env) (message : Bytes) → Keeps (Commands.decode_incoming_tcp_message env message)
unfolding Commands.decode_incoming_tcp_message Commands.decode_peeked
Keeps-decode_incoming_tcp_message env message = peeked (env.tpl.peek_v message)
  where
    peeked : (idx : Option ℕ) → Keeps (Commands.decode_peeked env idx message)
    peeked none = Keeps-pure
    peeked (some idx) = Keeps-command_case env idx message
