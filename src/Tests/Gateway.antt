-- ===== src/Tests/Gateway.antt =====
-- Runs of BLEGatewayApplication/BLE_DRIVER.cpp and BLE_HELPER.cpp.
use io_tblegateway.Common.{ltb, inl, ◌≡◌, refl, true, false, none, some, [], ◌∷◌, arith, Bytes}
use io_tblegateway.Bglib.Indices.{
  ble_rsp_attclient_attribute_write_idx, ble_rsp_connection_disconnect_idx,
  ble_cmd_connection_disconnect_idx, ble_evt_connection_disconnected_idx,
}
use io_tblegateway.Bglib.Send.{int}
use io_tblegateway.Posix.{got, took}
use io_tblegateway.Tpl.{v, c}
use io_tblegateway.Tpl.Toy.{toy, toy-Laws, toy_dump}
use io_tblegateway.Client.Process.{World, Env}
use io_tblegateway.Client.Process
use io_tblegateway.Client.Transport.{htonl_bytes}
use io_tblegateway.Client.Callbacks
use io_tblegateway.Client.Commands
use io_tblegateway.Client.Commands.Requests
use io_tblegateway.Client.Commands.Requests.{Request, packed, index_of, arguments_of, fields_of}
use io_tblegateway.Client.Tcp.{process_message_from_tcpsocket}
use io_tblegateway.Client.Notices.{Notice}
use io_tblegateway.Gateway.Packets.{parsed, parse_advertisement}
use io_tblegateway.Gateway.Packets.Sections.{Spells, parse_advertisement-Spells}
use io_tblegateway.Gateway.Text.{construct_substrings, construct_valid_mac, mac_to_string}
use io_tblegateway.Gateway.Text.Split.{fields, construct_substrings-fields}
use io_tblegateway.Gateway.Text.Hex.{construct_valid_mac-to_string}
use io_tblegateway.Gateway.Driver.{
  new_device, Driver, BleDeviceInfo, AttributeData, ConnectedDeviceInfo, readable, silent, ret,
}
use io_tblegateway.Gateway.Register.Watch.{Quiet, Quiet-post}
use io_tblegateway.Gateway.Events.{got_disconnected}
use io_tblegateway.Gateway.Receive.{data_size}
use io_tblegateway.Gateway.Receive.Devices.{Devices}
use io_tblegateway.Gateway.Receive.Gone.{Gone, disconnected-Gone}
use io_tblegateway.Gateway.Delivery.Framing.{data_size-negative}
use io_tblegateway.Gateway.Delivery.Crossing.{request-crosses}
use io_tblegateway.Gateway.Wait.{wait_for_completion_event}
use io_tblegateway.Gateway.Wait.Ends.{Calm}
use io_tblegateway.Gateway.Wait.Answers.{idle, wait-answered, wait-times_out}
use io_tblegateway.Gateway.Parameters.{ConnectionParameters, check_connection_parameters}
use io_tblegateway.Gateway.Parameters.Limits.{WithinLimits, check_connection-WithinLimits}
use io_tblegateway.Gateway.Commands.{
  attribute, result, send_request, mac_to_connection_handle, same_mac,
}
use io_tblegateway.Gateway.Map
use io_tblegateway.Gateway.Commands.Read.{read_attribute}
use io_tblegateway.Gateway.Commands.Cached.{read_attribute-cached}
use io_tblegateway.Gateway.Commands.Calm.{AtRest}
use io_tblegateway.Gateway.Commands.Calm.Each.{disconnect_from, run, run-Calm}

abbrev pub env : Env
env = record { tpl = toy; garbage = λ n. 7 }

abbrev no_info : BleDeviceInfo
no_info = record {
  d_major = 0;
  d_minor = 0;
  patch = 0;
  build = 0;
  ll_version = 0;
  protocol_version = 0;
  hw = 0;
  max_connections = 0;
}

abbrev fresh : Driver
fresh = record {
  now = 100;
  polls = [];
  tcp_reads = [];
  tcp_sends = [];
  tcp_out = [];
  is_connected = true;
  bled_info = no_info;
  discovered_devices = [];
  connected_devices = [];
  completion_event_register = [];
  frame = none;
  waits = 0;
}

abbrev written : Notice
written = Notice.rsp_attclient_attribute_write 1 0

abbrev written_msg : Bytes
written_msg = 0 ∷ ble_rsp_attclient_attribute_write_idx ∷ 1 ∷ 1 ∷ 0 ∷ 0 ∷ []

abbrev got_written : Driver
got_written = record fresh { tcp_reads = got (htonl_bytes 6) ∷ got written_msg ∷ [] }

abbrev client : World
client = record {
  serial_reads = [];
  serial_writes = [];
  tcp_reads = [];
  tcp_sends = took 4 ∷ took 6 ∷ [];
  serial_out = [];
  tcp_out = [];
  abort_cmd = false;
}

abbrev asking : Request
asking = Request.disconnect 3

abbrev asking_msg : Bytes
asking_msg = 0 ∷ ble_cmd_connection_disconnect_idx ∷ 1 ∷ 3 ∷ []

abbrev sender : Driver
sender = record fresh { tcp_sends = took 4 ∷ took 4 ∷ [] }

abbrev asked : World
asked = record client { tcp_reads = got (htonl_bytes 4) ∷ got asking_msg ∷ [] }

request-crosses_example :
    (send_request env asking sender
      ≡ ret tt (record sender { tcp_sends = []; tcp_out = 0 ∷ 0 ∷ 0 ∷ 4 ∷ asking_msg }))
    × (process_message_from_tcpsocket env asked
        ≡ Process.then_run
            (Commands.ble_cmd ble_cmd_connection_disconnect_idx
              (int 3 ∷ [])
              (record asked { tcp_reads = [] }))
            (λ _. Process.pure 0))
unfolding toy toy_dump htonl_bytes packed index_of arguments_of Requests.format_of fields_of
request-crosses_example =
    request-crosses env asking asking_msg [] [] sender asked toy-Laws refl refl refl (omega arith)
      (omega arith)

abbrev gone_msg : Bytes
gone_msg = 0 ∷ ble_evt_connection_disconnected_idx ∷ 1 ∷ 3 ∷ 0 ∷ 19 ∷ []

-- The end of connection 3 is waited for. The device is dropped after the event is posted.
wait-answered_example :
    wait_for_completion_event env 0x80 3 200 (
      idle (record fresh {
        polls = (103, readable) ∷ [];
        tcp_reads = got (htonl_bytes 6) ∷ got gone_msg ∷ [];
        connected_devices = (3, new_device) ∷ [];
      }))
    ≡ ret 0 (record (idle fresh) { now = 103; polls = []; tcp_reads = []; waits = 1 })
unfolding toy toy_dump Map.erase
wait-answered_example =
    wait-answered env (Notice.evt_connection_disconnected 3 19) gone_msg [] 103 []
      (record fresh { connected_devices = (3, new_device) ∷ [] }) 0x80 3 200 0x80 0 (λ x. x)
      (λ x. record x { connected_devices = Map.erase ltb 3 x.connected_devices }) toy-Laws refl
      (omega arith) (omega arith) (λ x. refl) (λ x. refl) (λ x. refl) refl (omega arith)

wait-times_out_example :
    wait_for_completion_event env 0x200 1 200
      (idle (record fresh { polls = (150, silent) ∷ (300, silent) ∷ [] }))
    ≡ ret 2 (record (idle fresh) { now = 300; polls = []; waits = 1 })
wait-times_out_example =
    wait-times_out env (150 ∷ []) 300 [] fresh 0x200 1 200 refl (omega arith) (omega arith, tt)
      (omega arith)

abbrev temperature : AttributeData
temperature = record {
  timestamp = 30;
  service_uuid = [];
  uuid = 42 ∷ 110 ∷ [];
  connection_handle = 3;
  description = "";
  attribute_type = 0;
  attribute_handle = 17;
  end_handle = 0;
  raw_data = 21 ∷ [];
}

abbrev sensor : ConnectedDeviceInfo
sensor = record {
  mac_address = 6 ∷ 5 ∷ 4 ∷ 3 ∷ 2 ∷ 1 ∷ [];
  connection_handle = 3;
  connection_flags = 5;
  address_type = 1;
  conn_interval = 76;
  timeout = 100;
  slave_latency = 0;
  bonding = 0;
  attribute_map = (17, temperature) ∷ [];
}

abbrev sensor_mac : Bytes
sensor_mac = 1 ∷ 2 ∷ 3 ∷ 4 ∷ 5 ∷ 6 ∷ []

-- Connection 3 is there, and the client answers a request for its end with an error.
abbrev pub paired : Driver
paired = record fresh {
  connected_devices = (3, sensor) ∷ [];
  tcp_sends = took 4 ∷ took 4 ∷ [];
  tcp_reads =
      got (htonl_bytes 6) ∷ got (0 ∷ ble_rsp_connection_disconnect_idx ∷ 1 ∷ 3 ∷ 0 ∷ 390 ∷ []) ∷ [];
  polls = (101, readable) ∷ [];
}

paired-Devices : Devices paired
paired-Devices = ((tt, tt), ((refl, ((tt, tt), (inl (refl, refl), tt))), tt))

pub paired-AtRest : AtRest paired
paired-AtRest = ((refl, refl), paired-Devices)

run-Calm_example : Calm AtRest (run env (disconnect_from sensor_mac) paired)
run-Calm_example = run-Calm env (disconnect_from sensor_mac) paired paired-AtRest

disconnected-Gone_example :
    Gone 3 paired (got_disconnected (v ble_evt_connection_disconnected_idx ∷ c 3 ∷ v 0 ∷ []) paired)
disconnected-Gone_example =
    disconnected-Gone Quiet 3 ble_evt_connection_disconnected_idx 0 paired Quiet-post paired-AtRest

read_attribute-cached_example :
    read_attribute env sensor_mac 17 30 paired
    ≡ ret (result 0 (some 3) "Returning cached values" (attribute 3 17 ∷ [])) paired
unfolding mac_to_connection_handle same_mac Map.find
read_attribute-cached_example =
    read_attribute-cached env sensor_mac 3 17 30 sensor temperature paired paired-Devices refl refl
      refl (omega arith) (omega arith)

-- flags, and a name of two letters
abbrev packet : Bytes
packet = 2 ∷ 1 ∷ 6 ∷ 3 ∷ 9 ∷ 72 ∷ 105 ∷ []

parse_advertisement-Spells_example : Spells packet [] (parse_advertisement packet)
parse_advertisement-Spells_example = parse_advertisement-Spells packet (omega arith)

parses : parse_advertisement packet ≡ parsed ((1, 6 ∷ []) ∷ (9, 72 ∷ 105 ∷ []) ∷ [])
unfolding parse_advertisement Map.put
parses = refl

construct_substrings-fields_example :
    construct_substrings (b'/' ∷ b'a' ∷ b'/' ∷ b'/' ∷ b'b' ∷ []) (b'/' ∷ [])
    ≡ some ((b'a' ∷ []) ∷ (b'b' ∷ []) ∷ [])
unfolding fields
construct_substrings-fields_example =
    construct_substrings-fields (b'/' ∷ b'a' ∷ b'/' ∷ b'/' ∷ b'b' ∷ []) b'/'

construct_valid_mac-to_string_example :
    construct_valid_mac (mac_to_string (6 ∷ 5 ∷ 4 ∷ 3 ∷ 2 ∷ 255 ∷ [])) []
    ≡ some (true, 255 ∷ 2 ∷ 3 ∷ 4 ∷ 5 ∷ 6 ∷ [])
construct_valid_mac-to_string_example =
    construct_valid_mac-to_string 6 5 4 3 2 255
      (omega arith, (omega arith, (omega arith, (omega arith, (omega arith, (omega arith, tt))))))

abbrev short_mac : Bytes
short_mac = b'0' ∷ b'1' ∷ b':' ∷ b'x' ∷ []

abbrev asked_parameters : ConnectionParameters
asked_parameters = record {
  conn_interval_min = 60;
  conn_interval_max = 76;
  timeout = 5;
  slave_latency = 0;
}

check_connection-WithinLimits_example :
    WithinLimits (check_connection_parameters asked_parameters).1
check_connection-WithinLimits_example = check_connection-WithinLimits asked_parameters

-- The parameters that the second check puts in are refused by the first one.
resets_differ :
    (check_connection_parameters (check_connection_parameters asked_parameters).1).0 ≡ false
unfolding check_connection_parameters
resets_differ = refl

data_size-negative_example : data_size 0 (htonl_bytes 200) ≡ 4294967240
data_size-negative_example = data_size-negative 200 (omega arith) (omega arith)
