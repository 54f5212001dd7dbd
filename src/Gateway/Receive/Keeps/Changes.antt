-- ===== src/Gateway/Receive/Keeps/Changes.antt =====
-- The event callbacks of BLEGatewayApplication/BLE_DRIVER.cpp keep the register and the maps in order.
use io_tblegateway.Gateway.Events.{
  attribute_at, update_device, update_attribute, update_discovered, when_connected, set_attribute,
  with_status, with_service, with_value, with_info, got_advertisement, parsed_advertisement,
  got_scan_response, ble_evt_gap_scan_response, ble_evt_connection_get_status, got_disconnected,
  ble_evt_connection_disconnect, found_service, got_service, ble_evt_gatt_service_found,
  got_attribute_value, ble_evt_gatt_attribute_value, got_procedure_completed,
  ble_evt_gatt_procedure_completed, described, found_info, got_attribute_info,
  ble_evt_gatt_attribute_info_found,
}
use io_tblegateway.Common.{
  ℕ, bit_and, ◌≡◌, refl, inl, inr, Option, none, some, List, [], ◌∷◌, ltb, ◌==◌, if◌then◌else◌,
  Bool-cases, Bytes, length,
}
use io_tblegateway.Tpl.{Value, v, c, s, bin}
use io_tblegateway.Gateway.Map.{Map}
use io_tblegateway.Gateway.Packets.{
  Parsed, parsed, throws, overrun, parse_uuid, parse_advertisement,
}
use io_tblegateway.Gateway.Driver.{
  Driver, ConnectionEvent, ConnectedDeviceInfo, AttributeData, AdvertisementPacket, D, ret, throw,
  modify, device_at,
}
use io_tblegateway.Gateway.Register.{Register, post_completion_event}
use io_tblegateway.Gateway.Register.Watch.{PostKeeps}
use io_tblegateway.Gateway.Events
use io_tblegateway.Gateway.Receive.Devices.{
  AttributeIn, update_device-Devices, update_attribute-Devices, Devices-erase,
}
use io_tblegateway.Gateway.Receive.Keeps.{Good, Keeps, SoundWith, Good-then, Keeps-if, Sound-post}

module _ (I : Register → Option (ℕ × ConnectionEvent) → Type 0) (keeps : PostKeeps I) where
  abbrev Sound : Driver → Type 0
  Sound = SoundWith I

  abbrev KeepsAll : (List Value → D (Unit {0})) → Type 0
  KeepsAll f = (vs : List Value) → Keeps Sound (f vs)

  Sound-when_connected :
      (handle : ℕ) (f : Driver → Driver)
      → ((d : Driver) (device : ConnectedDeviceInfo)
          → device_at handle d ≡ some device
          → Sound d
          → Sound (f d))
      → Keeps Sound (when_connected handle f)
  Sound-when_connected handle f k d h =
      elim (device_at handle d)
          as (λ o.
            device_at handle d ≡ o
            → Good Sound (elim o [ none ↦ ret tt d | some device ↦ ret tt (f d) ])) [
              | none ↦ λ e. h
              | some device ↦ λ e. k d device e h
            ]
        refl

  Sound-advertisement :
      (packet_type : ℕ) (mac : Bytes) (packet : AdvertisementPacket)
      → Keeps Sound (got_advertisement packet_type mac packet)
  unfolding got_advertisement
  Sound-advertisement packet_type mac packet d h =
      let d1 = update_discovered mac (λ a. record a { mac_address = mac }) d in
      Keeps-if Sound (packet_type == 0)
        (modify (update_discovered mac (λ a. record a { discover_default_packet = packet })))
        (λ d0.
          (if packet_type == 4
              then modify (update_discovered mac (λ a. record a { scan_response_packet = packet }))
              else throw)
            d0)
        (λ d2 h2. h2)
        (Keeps-if Sound (packet_type == 4)
          (modify (update_discovered mac (λ a. record a { scan_response_packet = packet }))) throw
          (λ d2 h2. h2) (λ d2 h2. h2))
        d1 h

  Sound-parsed :
      (r : Parsed) (packet_type : ℕ) (mac : Bytes) (packet : Map ℕ Bytes → AdvertisementPacket)
      → Keeps Sound (parsed_advertisement r packet_type mac packet)
  Sound-parsed (parsed m) packet_type mac packet d h =
      Sound-advertisement packet_type mac (packet m) d h
  Sound-parsed throws packet_type mac packet d h = h
  Sound-parsed overrun packet_type mac packet d h = tt

  pub Sound-scan_response : KeepsAll got_scan_response
  unfolding got_scan_response
  Sound-scan_response (v _ ∷ s mac ∷ c rssi ∷ c packet_type ∷ c address_type ∷ c bond ∷ bin tb ∷ [])
        d h =
      elim (Bool-cases (ltb 60 (length tb))) [
        | inl p ↦ rw p h
        | inr p ↦ rw p (Sound-parsed (parse_advertisement tb) packet_type mac _ d h)
      ]
  Sound-scan_response _ d h = tt

  pub Sound-status : KeepsAll Events.got_connection_status
  unfolding Events.got_connection_status
  Sound-status
        (v _
          ∷ s mac
          ∷ c handle
          ∷ c flags
          ∷ c address_type
          ∷ v conn_interval
          ∷ v timeout
          ∷ v latency
          ∷ c bonding
          ∷ [])
        d h =
      let f = with_status mac handle flags address_type conn_interval timeout latency bonding in
      let ok : Sound (update_device handle f d) =
        (h.0, update_device-Devices handle f d (λ x. refl) (λ x. refl) h.1) in
      elim (Bool-cases (bit_and flags 1 == 0)) [
        | inl p ↦ rw p h
        | inr p ↦ rw p (elim (Bool-cases (bit_and flags 4 == 0)) [
          | inl q ↦ rw q (Sound-post I keeps 0x20 handle 0 (update_device handle f d) ok)
          | inr q ↦ rw q (Sound-post I keeps 2 0 0 (update_device handle f d) ok)
        ])
      ]
  Sound-status _ d h = tt

  pub Sound-disconnected : KeepsAll got_disconnected
  unfolding got_disconnected
  Sound-disconnected (v _ ∷ c connection ∷ v reason ∷ []) d h =
      Good-then Sound (post_completion_event 0x80 connection 0 d) _
        (Sound-post I keeps 0x80 connection 0 d h)
        (λ _ d0 h0. (h0.0, Devices-erase connection d0.connected_devices h0.1))
  Sound-disconnected _ d h = tt

  Sound-set_attribute :
      (handle k : ℕ) (f : ℕ → AttributeData → AttributeData)
      → ((now : ℕ) (a : AttributeData) → AttributeIn handle k (f now a))
      → Keeps Sound (set_attribute handle k f)
  Sound-set_attribute handle k f sets =
      Sound-when_connected handle (λ d. update_device handle (update_attribute d.now k (f d.now)) d)
        (λ d device e h. (
          h.0,
          update_attribute-Devices handle k (f d.now) device d
              (sets d.now (attribute_at d.now k device)) e h.1,
        ))

  Sound-found_service :
      (handle start last : ℕ) (o : Option Bytes) → Keeps Sound (found_service handle start last o)
  Sound-found_service handle start last none d h = h
  Sound-found_service handle start last (some uuid) d h =
      Sound-set_attribute handle start (with_service handle start last uuid)
        (λ now a. inl (refl, refl)) d h

  pub Sound-service : KeepsAll got_service
  unfolding got_service
  Sound-service (v _ ∷ c handle ∷ v start ∷ v last ∷ bin tb ∷ []) d h =
      Sound-found_service handle start last (parse_uuid tb) d h
  Sound-service _ d h = tt

  pub Sound-attribute_value : KeepsAll got_attribute_value
  unfolding got_attribute_value
  Sound-attribute_value (v _ ∷ c handle ∷ v k ∷ c type ∷ bin tb ∷ []) d h =
      Good-then Sound (set_attribute handle k (with_value handle k type tb) d)
        (λ _. post_completion_event 0x40000 handle 0)
        (Sound-set_attribute handle k (with_value handle k type tb) (λ now a. inl (refl, refl)) d h)
        (λ _ d0 h0. Sound-post I keeps 0x40000 handle 0 d0 h0)
  Sound-attribute_value _ d h = tt

  pub Sound-completed : KeepsAll got_procedure_completed
  unfolding got_procedure_completed
  Sound-completed (v _ ∷ c connection ∷ v result ∷ v _ ∷ []) d h =
      Sound-post I keeps 1 connection result d h
  Sound-completed _ d h = tt

  Sound-found_info : (handle k : ℕ) (o : Option Bytes) → Keeps Sound (found_info handle k o)
  Sound-found_info handle k none d h = h
  Sound-found_info handle k (some uuid) d h =
      Sound-set_attribute handle k (with_info handle k uuid) (λ now a. inl (refl, refl)) d h

  pub Sound-info : KeepsAll got_attribute_info
  unfolding got_attribute_info
  Sound-info (v _ ∷ c handle ∷ v k ∷ bin tb ∷ []) d h =
      Sound-found_info handle k (parse_uuid tb) d h
  Sound-info _ d h = tt
