-- ===== src/Bglib/Lookup/Dispatch.antt =====
-- What `ble_get_msg_hdr` of BLEGatewayClient/cmd_def.c returns for any header.
use io_tblegateway.Common.{
  ℕ, ◌<◌, ◌≡◌, refl, ◌⊎◌, inl, inr, bit_and, true, ◌||◌, arith, ◌==◌, all_below, all_below_sound,
}
use io_tblegateway.Bglib.Types.{Header, ble_msg_type_rsp, ble_msg_type_evt}
use io_tblegateway.Bglib.Classes.{ble_class_rsp_handlers, ble_class_evt_handlers}
use io_tblegateway.Bglib.Lookup.{class_entry, ble_get_msg_hdr}
use io_tblegateway.Bglib.Lookup.Tables.{Found, evt-Found, rsp-Found}

top_bit_table :
    all_below 256
      (λ x. (bit_and x 0x80 == ble_msg_type_evt) || (bit_and x 0x80 == ble_msg_type_rsp))
    ≡ true
unfolding all_below
top_bit_table = refl

-- The type bit of a byte has two values, so one of the first two branches is taken.
top_bit :
    (x : ℕ) → x < 256 → (bit_and x 0x80 ≡ ble_msg_type_evt) ⊎ (bit_and x 0x80 ≡ ble_msg_type_rsp)
top_bit x h = ground (
  arith,
  all_below_sound 256
      (λ (y : ℕ). (bit_and y 0x80 == ble_msg_type_evt) || (bit_and y 0x80 == ble_msg_type_rsp)) x
      top_bit_table h,
)

pub get_msg_hdr-evt :
    (h : Header)
    → bit_and h.type_hilen 0x80 ≡ ble_msg_type_evt
    → ble_get_msg_hdr h ≡ class_entry ble_class_evt_handlers h.cls h.command
unfolding ble_get_msg_hdr
get_msg_hdr-evt h e = ground arith

pub get_msg_hdr-rsp :
    (h : Header)
    → bit_and h.type_hilen 0x80 ≡ ble_msg_type_rsp
    → ble_get_msg_hdr h ≡ class_entry ble_class_rsp_handlers h.cls h.command
unfolding ble_get_msg_hdr
get_msg_hdr-rsp h e = ground arith

-- For a header whose first byte is below 256, `ble_get_msg_hdr` reads inside its tables, and what it
-- returns is null or a row with a handler and the header's class, command and type bit.
pub get_msg_hdr-Found :
    (h : Header)
    → h.type_hilen < 256
    → Found (bit_and h.type_hilen 0x80) h.cls h.command (ble_get_msg_hdr h)
get_msg_hdr-Found h small = elim (top_bit h.type_hilen small) [
  | inl evt ↦ rw (evt, get_msg_hdr-evt h evt) (evt-Found h.cls h.command)
  | inr rsp ↦ rw (rsp, get_msg_hdr-rsp h rsp) (rsp-Found h.cls h.command)
]
