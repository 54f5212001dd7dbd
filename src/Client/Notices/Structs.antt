-- ===== src/Client/Notices/Structs.antt =====
-- The packed structs of BLEGatewayClient/cmd_def.h in which the dongle's messages arrive.
use io_tblegateway.Common.{ℕ, ◌/◌, ◌%◌, [], ◌∷◌, ◌++◌, Bytes, length}
use io_tblegateway.Client.Notices.{
  Notice, rsp_gap_set_scan_parameters, rsp_system_get_connections, rsp_system_get_info,
  rsp_connection_disconnect, rsp_connection_update, rsp_connection_get_status,
  rsp_attclient_read_by_group_type, rsp_attclient_read_by_type, rsp_attclient_find_information,
  rsp_attclient_read_by_handle, rsp_attclient_attribute_write, rsp_gap_discover,
  rsp_gap_connect_direct, rsp_gap_end_procedure, evt_connection_status, evt_connection_disconnected,
  evt_attclient_procedure_completed, evt_attclient_group_found,
  evt_attclient_find_information_found, evt_attclient_attribute_value, evt_gap_scan_response,
}

-- The bytes of the struct: little-endian numbers, addresses of six bytes, and an array last, as
-- its length and its bytes. `rest` is what the buffer holds behind them.
abbrev le16 : ℕ → Bytes → Bytes
le16 x rest = x % 256 ∷ x / 256 ∷ rest

abbrev pub struct_of : Notice → Bytes → Bytes
struct_of (rsp_gap_set_scan_parameters result) rest = le16 result rest
struct_of (rsp_system_get_connections maxconn) rest = maxconn ∷ rest
struct_of (rsp_system_get_info major minor patch build ll_version protocol_version hw) rest =
    le16 major
      (le16 minor (le16 patch (le16 build (le16 ll_version (protocol_version ∷ hw ∷ rest)))))
struct_of (rsp_connection_disconnect connection result) rest = connection ∷ le16 result rest
struct_of (rsp_connection_update connection result) rest = connection ∷ le16 result rest
struct_of (rsp_connection_get_status connection) rest = connection ∷ rest
struct_of (rsp_attclient_read_by_group_type connection result) rest = connection ∷ le16 result rest
struct_of (rsp_attclient_read_by_type connection result) rest = connection ∷ le16 result rest
struct_of (rsp_attclient_find_information connection result) rest = connection ∷ le16 result rest
struct_of (rsp_attclient_read_by_handle connection result) rest = connection ∷ le16 result rest
struct_of (rsp_attclient_attribute_write connection result) rest = connection ∷ le16 result rest
struct_of (rsp_gap_discover result) rest = le16 result rest
struct_of (rsp_gap_connect_direct result connection_handle) rest =
    le16 result (connection_handle ∷ rest)
struct_of (rsp_gap_end_procedure result) rest = le16 result rest
struct_of
      (evt_connection_status connection flags address address_type conn_interval timeout latency
        bonding)
      rest =
    connection ∷ flags ∷ address
    ++ (address_type ∷ le16 conn_interval (le16 timeout (le16 latency (bonding ∷ rest))))
struct_of (evt_connection_disconnected connection reason) rest = connection ∷ le16 reason rest
struct_of (evt_attclient_procedure_completed connection result chrhandle) rest =
    connection ∷ le16 result (le16 chrhandle rest)
struct_of (evt_attclient_group_found connection first last uuid) rest =
    connection ∷ le16 first (le16 last (length uuid ∷ (uuid ++ rest)))
struct_of (evt_attclient_find_information_found connection chrhandle uuid) rest =
    connection ∷ le16 chrhandle (length uuid ∷ (uuid ++ rest))
struct_of (evt_attclient_attribute_value connection atthandle type value) rest =
    connection ∷ le16 atthandle (type ∷ length value ∷ (value ++ rest))
struct_of (evt_gap_scan_response rssi packet_type sender address_type bond adv) rest =
    rssi ∷ packet_type ∷ sender ++ (address_type ∷ bond ∷ length adv ∷ (adv ++ rest))

-- Addresses have six bytes.
abbrev pub IsAddress : Bytes → Type 0
IsAddress (b0 ∷ b1 ∷ b2 ∷ b3 ∷ b4 ∷ b5 ∷ []) = Unit {0}
IsAddress _ = ⊥

abbrev pub HasAddress : Notice → Type 0
HasAddress
      (evt_connection_status connection flags address address_type conn_interval timeout latency
        bonding) =
    IsAddress address
HasAddress (evt_gap_scan_response rssi packet_type sender address_type bond adv) = IsAddress sender
HasAddress _ = Unit {0}
