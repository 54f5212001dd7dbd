-- ===== src/Gateway/Events.antt =====
-- The callbacks for the events of the dongle, of BLEGatewayApplication/BLE_DRIVER.cpp.
use io_tblegateway.Common.{
  ℕ, ◌+◌, ◌*◌, bit_and, Option, none, some, List, [], ◌∷◌, ltb, ◌==◌, if◌then◌else◌, Bytes, length,
}
use io_tblegateway.Tpl.{Value, v, c, s, bin, Tpl}
use io_tblegateway.Gateway.Map.{Map, find, put, erase, compare_mac}
use io_tblegateway.Gateway.Packets.{
  byte_at, parse_uuid, Parsed, parsed, throws, overrun, parse_advertisement,
}
use io_tblegateway.Gateway.Driver.{
  Driver, D, ret, outside, ◌>>=◌, ◌>>◌, pure, throw, undefined_by, modify, AdvertisementPacket,
  AdvertisementData, AttributeData, ConnectedDeviceInfo, new_advertisement, new_attribute,
  new_device, device_at,
}
use io_tblegateway.Gateway.CompletionEvents.{
  gatt_procedure_complete_evt, gap_connection_evt, connection_update_evt, connection_disconnect_evt,
  attclient_attribute_found_evt,
}
use io_tblegateway.Gateway.Gatt.{get_gatt_descriptions}
use io_tblegateway.Gateway.Register.{post_completion_event}
use io_tblegateway.Gateway.Responses.{load, other_values}

abbrev pub or_new : {A : Type 0} → A → Option A → A
or_new new none = new
or_new new (some a) = a

-- `connectedDevices[handle]` after `f`; the map makes an entry for a new key
abbrev pub update_device : ℕ → (ConnectedDeviceInfo → ConnectedDeviceInfo) → Driver → Driver
update_device handle f d = record d {
  connected_devices =
      put ltb handle (f (or_new new_device (device_at handle d))) d.connected_devices;
}

abbrev pub attribute_at : ℕ → ℕ → ConnectedDeviceInfo → AttributeData
attribute_at now handle device = or_new (new_attribute now) (find ltb handle device.attribute_map)

-- `attributeMap[handle]` of a connected device after `f`
abbrev pub update_attribute :
    ℕ → ℕ → (AttributeData → AttributeData) → ConnectedDeviceInfo → ConnectedDeviceInfo
update_attribute now handle f device = record device {
  attribute_map = put ltb handle (f (attribute_at now handle device)) device.attribute_map;
}

-- what a callback does if the device is connected
abbrev pub when_connected : ℕ → (Driver → Driver) → D (Unit {0})
when_connected handle f d = elim (device_at handle d) [
  | none ↦ ret tt d
  | some device ↦ ret tt (f d)
]

-- `discoveredDevices[macAddress]` after `f`
abbrev pub update_discovered : Bytes → (AdvertisementData → AdvertisementData) → Driver → Driver
update_discovered mac f d = record d {
  discovered_devices =
      put compare_mac mac (f (or_new new_advertisement (find compare_mac mac d.discovered_devices)))
        d.discovered_devices;
}

-- The map is filled in if the packet has one of the two types; the entry for the address is made
-- in any case.
unfoldable pub got_advertisement : ℕ → Bytes → AdvertisementPacket → D (Unit {0})
got_advertisement packet_type mac packet = do
  modify (update_discovered mac (λ a. record a { mac_address = mac }))
  if packet_type == 0
      then modify (update_discovered mac (λ a. record a { discover_default_packet = packet }))
      else if packet_type == 4
      then modify (update_discovered mac (λ a. record a { scan_response_packet = packet }))
      else throw

abbrev pub parsed_advertisement :
    Parsed → ℕ → Bytes → (Map ℕ Bytes → AdvertisementPacket) → D (Unit {0})
parsed_advertisement (parsed m) packet_type mac packet =
    got_advertisement packet_type mac (packet m)
parsed_advertisement throws packet_type mac packet = throw
parsed_advertisement overrun packet_type mac packet = undefined_by outside

unfoldable pub got_scan_response : List Value → D (Unit {0})
unfolding got_advertisement
got_scan_response
      (v command_idx ∷ s mac ∷ c rssi ∷ c packet_type ∷ c address_type ∷ c bond ∷ bin tb ∷ []) =
    if ltb 60 (length tb)
    then throw
    else parsed_advertisement (parse_advertisement tb) packet_type mac
        (λ m. record { rssi = rssi; address_type = address_type; bond = bond; data_map = m })
got_scan_response _ = other_values

unfoldable pub ble_evt_gap_scan_response : Tpl → Bytes → D (Unit {0})
ble_evt_gap_scan_response t message = do
  vs ← load t "vS(c#)ccccB" message none
  got_scan_response vs

abbrev pub with_status :
    Bytes
    → (handle flags address_type conn_interval timeout latency bonding : ℕ) → ConnectedDeviceInfo
    → ConnectedDeviceInfo
with_status mac handle flags address_type conn_interval timeout latency bonding device =
    record device {
      address_type = address_type;
      bonding = bonding;
      conn_interval = conn_interval;
      connection_flags = flags;
      connection_handle = handle;
      mac_address = mac;
      slave_latency = latency;
      timeout = timeout;
    }

-- The flags are bit 0, connected, and bit 2, completed.
unfoldable pub got_connection_status : List Value → D (Unit {0})
got_connection_status
      (v command_idx
        ∷ s mac
        ∷ c handle
        ∷ c flags
        ∷ c address_type
        ∷ v conn_interval
        ∷ v timeout
        ∷ v latency
        ∷ c bonding
        ∷ []) =
    if bit_and flags 1 == 0 then pure tt else do
      modify (
          update_device handle
            (with_status mac handle flags address_type conn_interval timeout latency bonding))
      if bit_and flags 4 == 0
          then post_completion_event connection_update_evt handle 0
          else post_completion_event gap_connection_evt 0 0
got_connection_status _ = other_values

-- `macAddress` has no value before, but without the flag nothing reads it
unfoldable pub ble_evt_connection_get_status : Tpl → Bytes → D (Unit {0})
ble_evt_connection_get_status t message = do
  vs ←
      load t "vS(c#)cccvvvc" message
        (some (v 0 ∷ s [] ∷ c 0 ∷ c 0 ∷ c 0 ∷ v 0 ∷ v 0 ∷ v 0 ∷ c 0 ∷ []))
  got_connection_status vs

unfoldable pub got_disconnected : List Value → D (Unit {0})
got_disconnected (v command_idx ∷ c connection ∷ v reason ∷ []) = do
  post_completion_event connection_disconnect_evt connection 0
  modify (λ d. record d { connected_devices = erase ltb connection d.connected_devices })
got_disconnected _ = other_values

unfoldable pub ble_evt_connection_disconnect : Tpl → Bytes → D (Unit {0})
ble_evt_connection_disconnect t message = do vs ← load t "vcv" message none; got_disconnected vs

-- `connectedDevices[handle].attributeMap[k]` after `f` at the present time
abbrev pub set_attribute : ℕ → ℕ → (ℕ → AttributeData → AttributeData) → D (Unit {0})
set_attribute handle k f =
    when_connected handle (λ d. update_device handle (update_attribute d.now k (f d.now)) d)

abbrev pub with_service : (handle start last : ℕ) → Bytes → ℕ → AttributeData → AttributeData
with_service handle start last service_uuid now a = record a {
  timestamp = now;
  connection_handle = handle;
  service_uuid = service_uuid;
  uuid = 0x28 ∷ 0x00 ∷ [];
  attribute_handle = start;
  end_handle = last;
  description = get_gatt_descriptions 0x2800;
}

abbrev pub found_service : ℕ → ℕ → ℕ → Option Bytes → D (Unit {0})
found_service handle start last none = throw
found_service handle start last (some service_uuid) =
    set_attribute handle start (with_service handle start last service_uuid)

unfoldable pub got_service : List Value → D (Unit {0})
got_service (v command_idx ∷ c handle ∷ v start ∷ v last ∷ bin tb ∷ []) =
    found_service handle start last (parse_uuid tb)
got_service _ = other_values

unfoldable pub ble_evt_gatt_service_found : Tpl → Bytes → D (Unit {0})
ble_evt_gatt_service_found t message = do vs ← load t "vcvvB" message none; got_service vs

abbrev pub with_value :
    (handle attribute_handle attribute_type : ℕ) → Bytes → ℕ → AttributeData → AttributeData
with_value handle attribute_handle attribute_type raw_data now a = record a {
  timestamp = now;
  connection_handle = handle;
  attribute_handle = attribute_handle;
  attribute_type = attribute_type;
  raw_data = raw_data;
}

unfoldable pub got_attribute_value : List Value → D (Unit {0})
got_attribute_value
      (v command_idx ∷ c handle ∷ v attribute_handle ∷ c attribute_type ∷ bin tb ∷ []) =
    do
      set_attribute handle attribute_handle (with_value handle attribute_handle attribute_type tb)
      post_completion_event attclient_attribute_found_evt handle 0
got_attribute_value _ = other_values

-- If `tpl_map` fails, the event is posted for connection 0 before the exception.
unfoldable pub ble_evt_gatt_attribute_value : Tpl → Bytes → D (Unit {0})
ble_evt_gatt_attribute_value t message =
    if t.maps "vcvcB"
    then load t "vcvcB" message none >>= got_attribute_value
    else post_completion_event attclient_attribute_found_evt 0 1 >> throw

unfoldable pub got_procedure_completed : List Value → D (Unit {0})
got_procedure_completed (v command_idx ∷ c connection ∷ v result ∷ v chrhandle ∷ []) =
    post_completion_event gatt_procedure_complete_evt connection result
got_procedure_completed _ = other_values

unfoldable pub ble_evt_gatt_procedure_completed : Tpl → Bytes → D (Unit {0})
ble_evt_gatt_procedure_completed t message = do
  vs ← load t "vcvv" message none
  got_procedure_completed vs

-- The description is set for a UUID of two bytes only.
abbrev pub described : Bytes → AttributeData → AttributeData
described uuid a =
    if length uuid == 2
    then record a { description = get_gatt_descriptions (byte_at uuid 0 * 256 + byte_at uuid 1) }
    else a

abbrev pub with_info : (handle attribute_handle : ℕ) → Bytes → ℕ → AttributeData → AttributeData
with_info handle attribute_handle uuid now a = record (described uuid a) {
  connection_handle = handle;
  uuid = uuid;
  timestamp = now;
  attribute_handle = attribute_handle;
}

abbrev pub found_info : ℕ → ℕ → Option Bytes → D (Unit {0})
found_info handle attribute_handle none = throw
found_info handle attribute_handle (some uuid) =
    set_attribute handle attribute_handle (with_info handle attribute_handle uuid)

unfoldable pub got_attribute_info : List Value → D (Unit {0})
got_attribute_info (v command_idx ∷ c handle ∷ v attribute_handle ∷ bin tb ∷ []) =
    found_info handle attribute_handle (parse_uuid tb)
got_attribute_info _ = other_values

unfoldable pub ble_evt_gatt_attribute_info_found : Tpl → Bytes → D (Unit {0})
ble_evt_gatt_attribute_info_found t message = do
  vs ← load t "vcvB" message none
  got_attribute_info vs
