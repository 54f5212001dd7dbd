-- ===== src/Gateway/Receive/Devices.antt =====
-- The maps `connectedDevices` and `attributeMap` of BLEGatewayApplication/BLE_DRIVER.cpp.
use io_tblegateway.Common.{◌⊎◌, inr, subst, ℕ, ◌≡◌, refl, sym, Option, none, some, ltb}
use io_tblegateway.Gateway.Map.{Map, find, put, erase, Sorted, ltb-Order, Sorted-put, Sorted-erase}
use io_tblegateway.Gateway.Map.All.{All, All-find, All-put, All-erase}
use io_tblegateway.Gateway.Driver.{
  Driver, AttributeData, ConnectedDeviceInfo, new_attribute, new_device, device_at,
}
use io_tblegateway.Gateway.Events.{or_new, attribute_at, update_device, update_attribute}

-- An attribute stands under its handle, and names the connection of its device, or it is one that a
-- read has made and that names nothing.
abbrev pub AttributeIn : ℕ → ℕ → AttributeData → Type 0
AttributeIn handle k a =
    ((a.attribute_handle ≡ k) × (a.connection_handle ≡ handle))
    ⊎ ((a.attribute_handle ≡ 0) × (a.connection_handle ≡ 0))

abbrev AttributesIn : ℕ → Map ℕ AttributeData → Type 0
AttributesIn handle m = Sorted ltb m × All (AttributeIn handle) m

-- A device stands under its connection handle, with its own attributes.
abbrev pub DeviceIn : ℕ → ConnectedDeviceInfo → Type 0
DeviceIn handle device =
    (device.connection_handle ≡ handle) × AttributesIn handle device.attribute_map

abbrev DevicesIn : Map ℕ ConnectedDeviceInfo → Type 0
DevicesIn m = Sorted ltb m × All DeviceIn m

abbrev pub Devices : Driver → Type 0
Devices d = DevicesIn d.connected_devices

-- The attributes of a device that is there, or of one that is made.
or_new-AttributesIn :
    (handle : ℕ) (m : Map ℕ ConnectedDeviceInfo) (o : Option ConnectedDeviceInfo)
    → DevicesIn m
    → find ltb handle m ≡ o
    → AttributesIn handle (or_new new_device o).attribute_map
or_new-AttributesIn handle m none ok e = (tt, tt)
or_new-AttributesIn handle m (some device) ok e =
    (All-find ltb-Order DeviceIn handle device m ok.1 e).1

Devices-put :
    (handle : ℕ) (device : ConnectedDeviceInfo) (m : Map ℕ ConnectedDeviceInfo)
    → DevicesIn m
    → DeviceIn handle device
    → DevicesIn (put ltb handle device m)
Devices-put handle device m ok h =
    (Sorted-put ltb-Order handle device m ok.0, All-put ltb-Order DeviceIn handle device m ok.1 h)

pub Devices-erase :
    (handle : ℕ) (m : Map ℕ ConnectedDeviceInfo) → DevicesIn m → DevicesIn (erase ltb handle m)
Devices-erase handle m ok =
    (Sorted-erase ltb-Order handle m ok.0, All-erase ltb-Order DeviceIn handle m ok.1)

-- A change of a device that sets its handle and leaves its attributes.
pub update_device-Devices :
    (handle : ℕ) (f : ConnectedDeviceInfo → ConnectedDeviceInfo) (d : Driver)
    → ((device : ConnectedDeviceInfo) → (f device).connection_handle ≡ handle)
    → ((device : ConnectedDeviceInfo) → (f device).attribute_map ≡ device.attribute_map)
    → Devices d
    → Devices (update_device handle f d)
update_device-Devices handle f d sets leaves ok =
    let old = or_new new_device (device_at handle d) in
    Devices-put handle (f old) d.connected_devices ok (
      sets old,
      subst (AttributesIn handle) (sym (leaves old))
          (or_new-AttributesIn handle d.connected_devices (device_at handle d) ok refl),
    )

-- A change of an attribute of a connected device that leaves it in its place.
pub update_attribute-Devices :
    (handle k : ℕ) (f : AttributeData → AttributeData) (device : ConnectedDeviceInfo) (d : Driver)
    → AttributeIn handle k (f (attribute_at d.now k device))
    → device_at handle d ≡ some device
    → Devices d
    → Devices (update_device handle (update_attribute d.now k f) d)
update_attribute-Devices handle k f device d sets e ok =
    let there = All-find ltb-Order DeviceIn handle device d.connected_devices ok.1 e in
    let new = f (attribute_at d.now k device) in
    subst
      (λ o.
        DevicesIn
          (put ltb handle (update_attribute d.now k f (or_new new_device o)) d.connected_devices))
      (sym e)
      (Devices-put handle (update_attribute d.now k f device) d.connected_devices ok (
        there.0,
        (
          Sorted-put ltb-Order k new device.attribute_map there.1.0,
          All-put ltb-Order (AttributeIn handle) k new device.attribute_map there.1.1 sets,
        ),
      ))

-- The attribute that is there, or one that is made.
attribute_at-AttributeIn :
    (handle now k : ℕ) (m : Map ℕ AttributeData) (o : Option AttributeData)
    → AttributesIn handle m
    → find ltb k m ≡ o
    → AttributeIn handle k (or_new (new_attribute now) o)
attribute_at-AttributeIn handle now k m none ok e = inr (refl, refl)
attribute_at-AttributeIn handle now k m (some a) ok e =
    All-find ltb-Order (AttributeIn handle) k a m ok.1 e

-- `attributeMap[k]` of a connected device makes an entry if there is none.
pub touch-Devices :
    (handle k : ℕ) (device : ConnectedDeviceInfo) (d : Driver)
    → device_at handle d ≡ some device
    → Devices d
    → Devices (update_device handle (update_attribute d.now k (λ a. a)) d)
touch-Devices handle k device d e ok =
    update_attribute-Devices handle k (λ a. a) device d
      (attribute_at-AttributeIn handle d.now k device.attribute_map
        (find ltb k device.attribute_map)
        (All-find ltb-Order DeviceIn handle device d.connected_devices ok.1 e).1 refl)
      e ok
