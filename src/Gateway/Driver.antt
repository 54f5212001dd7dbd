-- ===== src/Gateway/Driver.antt =====
-- The driver object `BLED112` of BLEGatewayApplication/BLE_DRIVER.cpp, with the structures of
-- Headers/BLE_DRIVER.h, and how a call of one of its functions can end.
use io_tblegateway.Common.{ℕ, Bool, Option, List, [], ltb, Bytes}
use Prim.Native.String.{String}
use io_tblegateway.Posix.{ReadOutcome, WriteOutcome}
use io_tblegateway.Gateway.Map.{Map, find}

pub record BleDeviceInfo : Type 0 where
  pub d_major : ℕ
  pub d_minor : ℕ
  pub patch : ℕ
  pub build : ℕ
  pub ll_version : ℕ
  pub protocol_version : ℕ
  pub hw : ℕ
  pub max_connections : ℕ

-- `data` maps the type of a section to its payload.
pub record AdvertisementPacket : Type 0 where
  pub rssi : ℕ
  pub address_type : ℕ
  pub bond : ℕ
  pub data_map : Map ℕ Bytes

pub record AdvertisementData : Type 0 where
  pub mac_address : Bytes
  pub discover_default_packet : AdvertisementPacket
  pub scan_response_packet : AdvertisementPacket

-- A `Uuid` is its bytes in use; `timestamp` is in seconds.
pub record AttributeData : Type 0 where
  pub timestamp : ℕ
  pub service_uuid : Bytes
  pub uuid : Bytes
  pub connection_handle : ℕ
  pub description : String
  pub attribute_type : ℕ
  pub attribute_handle : ℕ
  pub end_handle : ℕ
  pub raw_data : Bytes

pub record ConnectedDeviceInfo : Type 0 where
  pub mac_address : Bytes
  pub connection_handle : ℕ
  pub connection_flags : ℕ
  pub address_type : ℕ
  pub conn_interval : ℕ
  pub timeout : ℕ
  pub slave_latency : ℕ
  pub bonding : ℕ
  pub attribute_map : Map ℕ AttributeData

-- what a map makes for a new key
abbrev new_packet : AdvertisementPacket
new_packet = record { rssi = 0; address_type = 0; bond = 0; data_map = [] }

abbrev pub new_advertisement : AdvertisementData
new_advertisement = record {
  mac_address = [];
  discover_default_packet = new_packet;
  scan_response_packet = new_packet;
}

abbrev pub new_attribute : ℕ → AttributeData
new_attribute now = record {
  timestamp = now;
  service_uuid = [];
  uuid = [];
  connection_handle = 0;
  description = "";
  attribute_type = 0;
  attribute_handle = 0;
  end_handle = 0;
  raw_data = [];
}

abbrev pub new_device : ConnectedDeviceInfo
new_device = record {
  mac_address = [];
  connection_handle = 0;
  connection_flags = 0;
  address_type = 0;
  conn_interval = 0;
  timeout = 0;
  slave_latency = 0;
  bonding = 0;
  attribute_map = [];
}

-- A `ConnectionEventStruct` with the local variable that its `eventHandle` points to.
pub record ConnectionEvent : Type 0 where
  pub event_occurred : Bool
  pub connection_handle : ℕ
  pub error_code : ℕ

-- What `poll` on the socket reports.
pub data Polled : Type 0 where
  readable : Polled
  silent : Polled
  failed : Polled

-- The system calls to come, the bytes sent so far, and the fields of the object. `polls` has the
-- time at which each `poll` returns, and `now` is the time of the last one. A registered event is
-- its flags and the number of the wait whose stack frame the pointer goes to; `frame` is the
-- frame of the wait that is going on.
pub record Driver : Type 0 where
  pub now : ℕ
  pub polls : List (ℕ × Polled)
  pub tcp_reads : List ReadOutcome
  pub tcp_sends : List WriteOutcome
  pub tcp_out : Bytes
  pub is_connected : Bool
  pub bled_info : BleDeviceInfo
  pub discovered_devices : Map Bytes AdvertisementData
  pub connected_devices : Map ℕ ConnectedDeviceInfo
  pub completion_event_register : List (ℕ × ℕ)
  pub frame : Option (ℕ × ConnectionEvent)
  pub waits : ℕ

-- Why a call is undefined: it uses memory that nothing has set, it leaves an array, it goes on with
-- an iterator behind the end of a vector, or it follows a pointer into a stack frame that is gone.
pub data Cause : Type 0 where
  uninitialised : Cause
  outside : Cause
  past_end : Cause
  dangling : Cause

-- A call returns, throws a `BLED112Exception`, waits in a system call, or is undefined.
pub data Out (A : Type 0) : Type 0 where
  ret : A → Driver → Out A
  thrown : Driver → Out A
  blocked : Driver → Out A
  undefined : Cause → Out A

abbrev pub D : Type 0 → Type 0
D A = Driver → Out A

abbrev pub then_run : {A B : Type 0} → Out A → (A → D B) → Out B
then_run (ret a d) f = f a d
then_run (thrown d) f = thrown d
then_run (blocked d) f = blocked d
then_run (undefined cause) f = undefined cause

-- `try { ... } catch (BLED112Exception& e) { ... }`
abbrev pub catch_run : {A : Type 0} → Out A → D A → Out A
catch_run (ret a d) h = ret a d
catch_run (thrown d) h = h d
catch_run (blocked d) h = blocked d
catch_run (undefined cause) h = undefined cause

infixl 5 ◌>>=◌ ◌>>◌
abbrev pub ◌>>=◌ : {A B : Type 0} → D A → (A → D B) → D B
◌>>=◌ m f d = then_run (m d) f

abbrev pub ◌>>◌ : {B : Type 0} → D (Unit {0}) → D B → D B
◌>>◌ m k d = then_run (m d) (λ _. k)

abbrev pub pure : {A : Type 0} → A → D A
pure a d = ret a d

abbrev pub throw : {A : Type 0} → D A
throw d = thrown d

abbrev pub undefined_by : {A : Type 0} → Cause → D A
undefined_by cause d = undefined cause

abbrev pub modify : (Driver → Driver) → D (Unit {0})
modify f d = ret tt (f d)

-- `connectedDevices.count(connectionHandle) > 0`
abbrev pub device_at : ℕ → Driver → Option ConnectedDeviceInfo
device_at handle d = find ltb handle d.connected_devices
