-- ===== src/Gateway/Meaning.antt =====
-- What each message of the client is for, in terms of the maps of the driver and of the completion
-- events of BLEGatewayApplication/BLE_DRIVER.cpp, without its callbacks.
pub mod Callbacks
use io_tblegateway.Common.{
  ℕ, ◌+◌, ◌*◌, bit_and, ◌≡◌, ◌∙◌, refl, inl, inr, Option, none, some, [], ◌∷◌, ltb, ◌==◌,
  if◌then◌else◌, Bytes, length, Option-cases, Bool-cases,
}
use io_tblegateway.Client.Notices.{
  Notice, rsp_gap_set_scan_parameters, rsp_system_get_connections, rsp_system_get_info,
  rsp_connection_disconnect, rsp_connection_update, rsp_connection_get_status,
  rsp_attclient_read_by_group_type, rsp_attclient_read_by_type, rsp_attclient_find_information,
  rsp_attclient_read_by_handle, rsp_attclient_attribute_write, rsp_gap_discover,
  rsp_gap_connect_direct, rsp_gap_end_procedure, evt_connection_status, evt_connection_disconnected,
  evt_attclient_procedure_completed, evt_attclient_group_found,
  evt_attclient_find_information_found, evt_attclient_attribute_value, evt_gap_scan_response,
  values_of,
}
use io_tblegateway.Gateway.Map.{find, put, erase, compare_mac}
use io_tblegateway.Gateway.Driver.{
  device_at, Driver, D, ret, outside, ◌>>◌, pure, throw, undefined_by, modify, AdvertisementData,
  AttributeData, ConnectedDeviceInfo, new_advertisement, new_attribute, new_device,
}
use io_tblegateway.Gateway.CompletionEvents.{
  gatt_procedure_complete_evt, gap_connection_rsp_evt, gap_discover_rsp_evt,
  connection_update_rsp_evt, connection_disconnect_rsp_evt, attclient_read_rsp_evt,
  attclient_write_rsp_evt, attclient_readgroup_rsp_evt, attclient_findinfo_rsp_evt,
  attclient_readtype_rsp_evt, gap_endprocedure_rsp_evt, gap_set_scanparameter_rsp_evt,
  sys_get_maxcon_rsp_evt, connection_get_status_rsp_evt, sys_get_info_rsp_evt,
  attclient_attribute_found_evt, gap_connection_evt, connection_update_evt,
  connection_disconnect_evt,
}
use io_tblegateway.Gateway.Gatt.{get_gatt_descriptions}
use io_tblegateway.Gateway.Packets.{
  byte_at, parse_uuid, Parsed, parsed, throws, overrun, parse_advertisement,
}
use io_tblegateway.Gateway.Register.{post_completion_event}
use io_tblegateway.Gateway.Events.{
  when_connected, update_device, described, got_advertisement, parsed_advertisement, or_new,
  got_scan_response, set_attribute, with_service, with_info, found_service, found_info,
}

-- A device is recorded under its handle; `f` has what was known of it.
abbrev device_recorded : ℕ → (ConnectedDeviceInfo → ConnectedDeviceInfo) → Driver → Driver
device_recorded handle f d = record d {
  connected_devices =
      put ltb handle (f (or_new new_device (find ltb handle d.connected_devices)))
        d.connected_devices;
}

-- An attribute is recorded with a device that is connected, and with no other; `f` has the time and
-- what was known of the attribute.
abbrev pub attribute_recorded : ℕ → ℕ → (ℕ → AttributeData → AttributeData) → Driver → Driver
attribute_recorded handle k f d = elim (find ltb handle d.connected_devices) [
  | none ↦ d
  | some device ↦ record d {
    connected_devices =
        put ltb handle
          (record device {
            attribute_map =
                put ltb k (f d.now (or_new (new_attribute d.now) (find ltb k device.attribute_map)))
                  device.attribute_map;
          })
          d.connected_devices;
  }
]

abbrev discovered_recorded : Bytes → (AdvertisementData → AdvertisementData) → Driver → Driver
discovered_recorded mac f d = record d {
  discovered_devices =
      put compare_mac mac (f (or_new new_advertisement (find compare_mac mac d.discovered_devices)))
        d.discovered_devices;
}

abbrev pub service_recorded : (connection first last : ℕ) → Option Bytes → D (Unit {0})
service_recorded connection first last none = throw
service_recorded connection first last (some service) = modify (
    attribute_recorded connection first (λ now a. record {
      timestamp = now;
      service_uuid = service;
      uuid = 0x28 ∷ 0x00 ∷ [];
      connection_handle = connection;
      description = get_gatt_descriptions 0x2800;
      attribute_type = a.attribute_type;
      attribute_handle = first;
      end_handle = last;
      raw_data = a.raw_data;
    }))

abbrev pub info_recorded : (connection chrhandle : ℕ) → Option Bytes → D (Unit {0})
info_recorded connection chrhandle none = throw
info_recorded connection chrhandle (some uuid) = modify (
    attribute_recorded connection chrhandle (λ now a. record {
      timestamp = now;
      service_uuid = a.service_uuid;
      uuid = uuid;
      connection_handle = connection;
      description =
          if length uuid == 2
          then get_gatt_descriptions (byte_at uuid 0 * 256 + byte_at uuid 1)
          else a.description;
      attribute_type = a.attribute_type;
      attribute_handle = chrhandle;
      end_handle = a.end_handle;
      raw_data = a.raw_data;
    }))

abbrev pub scan_recorded :
    (rssi packet_type : ℕ) → Bytes → (address_type bond : ℕ) → Parsed → D (Unit {0})
scan_recorded rssi packet_type sender address_type bond (parsed sections) =
    modify (
      discovered_recorded sender (λ a. record {
        mac_address = sender;
        discover_default_packet = a.discover_default_packet;
        scan_response_packet = a.scan_response_packet;
      }))
    >> (if packet_type == 0
        then modify (
            discovered_recorded sender (λ a. record {
              mac_address = a.mac_address;
              discover_default_packet = record {
                rssi = rssi;
                address_type = address_type;
                bond = bond;
                data_map = sections;
              };
              scan_response_packet = a.scan_response_packet;
            }))
        else if packet_type == 4
        then modify (
            discovered_recorded sender (λ a. record {
              mac_address = a.mac_address;
              discover_default_packet = a.discover_default_packet;
              scan_response_packet = record {
                rssi = rssi;
                address_type = address_type;
                bond = bond;
                data_map = sections;
              };
            }))
        else throw)
scan_recorded rssi packet_type sender address_type bond throws = throw
scan_recorded rssi packet_type sender address_type bond overrun = undefined_by outside

-- A response posts its event, for its connection if it has one, with the result. A status of a
-- connection with flag 0 records the device and posts the event of an update, or with flag 2 that
-- of a new connection; without flag 0 it is for nothing. A device that is gone is posted, and then
-- dropped. What is found of a device is recorded with it if it is connected.
abbrev pub handled : Notice → D (Unit {0})
handled (rsp_gap_set_scan_parameters result) =
    post_completion_event gap_set_scanparameter_rsp_evt 0 result
handled (rsp_system_get_connections maxconn) =
    modify (λ d. record d { bled_info = record d.bled_info { max_connections = maxconn } })
    >> post_completion_event sys_get_maxcon_rsp_evt 0 0
handled (rsp_system_get_info major minor patch build ll_version protocol_version hw) =
    modify (λ d. record d {
      bled_info = record d.bled_info {
        d_major = major;
        d_minor = minor;
        patch = patch;
        build = build;
        ll_version = ll_version;
        protocol_version = protocol_version;
        hw = hw;
      };
    })
    >> post_completion_event sys_get_info_rsp_evt 0 0
handled (rsp_connection_disconnect connection result) =
    post_completion_event connection_disconnect_rsp_evt connection result
handled (rsp_connection_update connection result) =
    post_completion_event connection_update_rsp_evt connection result
handled (rsp_connection_get_status connection) =
    post_completion_event connection_get_status_rsp_evt connection 0
handled (rsp_attclient_read_by_group_type connection result) =
    post_completion_event attclient_readgroup_rsp_evt connection result
handled (rsp_attclient_read_by_type connection result) =
    post_completion_event attclient_readtype_rsp_evt connection result
handled (rsp_attclient_find_information connection result) =
    post_completion_event attclient_findinfo_rsp_evt connection result
handled (rsp_attclient_read_by_handle connection result) =
    post_completion_event attclient_read_rsp_evt connection result
handled (rsp_attclient_attribute_write connection result) =
    post_completion_event attclient_write_rsp_evt connection result
handled (rsp_gap_discover result) = post_completion_event gap_discover_rsp_evt 0 result
handled (rsp_gap_connect_direct result connection_handle) =
    post_completion_event gap_connection_rsp_evt 0 result
handled (rsp_gap_end_procedure result) = post_completion_event gap_endprocedure_rsp_evt 0 result
handled
      (evt_connection_status connection flags address address_type conn_interval timeout latency
        bonding) =
    if bit_and flags 1 == 0
    then pure tt
    else modify (
        device_recorded connection (λ old. record {
          mac_address = address;
          connection_handle = connection;
          connection_flags = flags;
          address_type = address_type;
          conn_interval = conn_interval;
          timeout = timeout;
          slave_latency = latency;
          bonding = bonding;
          attribute_map = old.attribute_map;
        }))
      >> (if bit_and flags 4 == 0
          then post_completion_event connection_update_evt connection 0
          else post_completion_event gap_connection_evt 0 0)
handled (evt_connection_disconnected connection reason) =
    post_completion_event connection_disconnect_evt connection 0
    >> modify (λ d. record d { connected_devices = erase ltb connection d.connected_devices })
handled (evt_attclient_procedure_completed connection result chrhandle) =
    post_completion_event gatt_procedure_complete_evt connection result
handled (evt_attclient_group_found connection first last uuid) =
    service_recorded connection first last (parse_uuid uuid)
handled (evt_attclient_find_information_found connection chrhandle uuid) =
    info_recorded connection chrhandle (parse_uuid uuid)
handled (evt_attclient_attribute_value connection atthandle type value) =
    modify (
      attribute_recorded connection atthandle (λ now a. record {
        timestamp = now;
        service_uuid = a.service_uuid;
        uuid = a.uuid;
        connection_handle = connection;
        description = a.description;
        attribute_type = type;
        attribute_handle = atthandle;
        end_handle = a.end_handle;
        raw_data = value;
      }))
    >> post_completion_event attclient_attribute_found_evt connection 0
handled (evt_gap_scan_response rssi packet_type sender address_type bond adv) =
    if ltb 60 (length adv)
    then throw
    else scan_recorded rssi packet_type sender address_type bond (parse_advertisement adv)
