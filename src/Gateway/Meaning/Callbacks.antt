-- ===== src/Gateway/Meaning/Callbacks.antt =====
-- The callbacks for events of BLEGatewayApplication/BLE_DRIVER.cpp do what the events are for.
use io_tblegateway.Common.{
  ℕ, ◌≡◌, ◌∙◌, refl, inl, inr, Option, none, some, ltb, ◌==◌, Bytes, length, Option-cases,
  Bool-cases,
}
use io_tblegateway.Client.Notices.{evt_gap_scan_response, values_of}
use io_tblegateway.Gateway.Map.{find}
use io_tblegateway.Gateway.Driver.{device_at, Driver, ret, AttributeData}
use io_tblegateway.Gateway.Packets.{Parsed, parsed, throws, overrun, parse_advertisement}
use io_tblegateway.Gateway.Events.{
  when_connected, update_device, described, got_advertisement, parsed_advertisement, or_new,
  got_scan_response, set_attribute, with_service, with_info, found_service, found_info,
}
use io_tblegateway.Gateway.Meaning.{
  attribute_recorded, service_recorded, info_recorded, scan_recorded, handled,
}

pub set_attribute-recorded :
    (handle k : ℕ) (f : ℕ → AttributeData → AttributeData) (d : Driver)
    → set_attribute handle k f d ≡ ret tt (attribute_recorded handle k f d)
set_attribute-recorded handle k f d = elim (Option-cases (find ltb handle d.connected_devices)) [
  | inl e ↦ rw (e, set_attribute, when_connected, device_at, attribute_recorded) refl
  | inr (device, e) ↦
      rw (e, set_attribute, when_connected, device_at, attribute_recorded)
        (rw (e, update_device, device_at, or_new) refl)
]

pub found_service-recorded :
    (connection first last : ℕ) (o : Option Bytes) (d : Driver)
    → found_service connection first last o d ≡ service_recorded connection first last o d
found_service-recorded connection first last none d = refl
found_service-recorded connection first last (some service) d =
    set_attribute-recorded connection first (with_service connection first last service) d

pub found_info-recorded :
    (connection chrhandle : ℕ) (o : Option Bytes) (d : Driver)
    → found_info connection chrhandle o d ≡ info_recorded connection chrhandle o d
found_info-recorded connection chrhandle none d = refl
found_info-recorded connection chrhandle (some uuid) d = elim (Bool-cases (length uuid == 2)) [
  | inl e ↦
      set_attribute-recorded connection chrhandle (with_info connection chrhandle uuid) d
      ∙ rw (e, with_info, described, info_recorded) refl
  | inr e ↦
      set_attribute-recorded connection chrhandle (with_info connection chrhandle uuid) d
      ∙ rw (e, with_info, described, info_recorded) refl
]

parsed-recorded :
    (rssi packet_type : ℕ) (sender : Bytes) (address_type bond : ℕ) (p : Parsed) (d : Driver)
    → parsed_advertisement p packet_type sender
        (λ m. record { rssi = rssi; address_type = address_type; bond = bond; data_map = m })
        d
      ≡ scan_recorded rssi packet_type sender address_type bond p d
unfolding got_advertisement
parsed-recorded rssi packet_type sender address_type bond (parsed m) d = refl
parsed-recorded rssi packet_type sender address_type bond throws d = refl
parsed-recorded rssi packet_type sender address_type bond overrun d = refl

pub got_scan-recorded :
    (rssi packet_type : ℕ) (sender : Bytes) (address_type bond : ℕ) (adv : Bytes) (d : Driver)
    → got_scan_response
        (values_of (evt_gap_scan_response rssi packet_type sender address_type bond adv))
        d
      ≡ handled (evt_gap_scan_response rssi packet_type sender address_type bond adv) d
unfolding got_scan_response
got_scan-recorded rssi packet_type sender address_type bond adv d =
    elim (Bool-cases (ltb 60 (length adv))) [
      | inl long ↦ rw long refl
      | inr fits ↦
          rw fits
            (parsed-recorded rssi packet_type sender address_type bond (parse_advertisement adv) d)
    ]
