-- ===== src/Bglib/Lookup/Complete.antt =====
-- What `ble_get_msg_hdr` of BLEGatewayClient/cmd_def.c returns for a response or an event of `apis`.
use io_tblegateway.Common.{
  ℕ, ◌+◌, ◌≡◌, refl, arith, ◌-◌, ◌≤◌, ◌<◌, ◌∙◌, bit_and, Bool, true, false, ◌&&◌, Option, none,
  some, List, leb, ◌==◌, if◌then◌else◌, length, get_elem?, all_below, all_below_sound, dec_lt,
}
use io_tblegateway.Bglib.Types.{
  Header, BleMsg, ClassHandlers, ref, ble_msg_type_rsp, ble_msg_type_evt,
}
use io_tblegateway.Bglib.Classes.{ble_class_rsp_handlers, ble_class_evt_handlers}
use io_tblegateway.Bglib.Lookup.{apis, ble_get_msg, class_entry, ble_get_msg_hdr}
use io_tblegateway.Bglib.Lookup.Dispatch.{get_msg_hdr-evt, get_msg_hdr-rsp}

-- The index in `apis` that a class table holds for a class and command, if it holds one.
row_index : Option ClassHandlers → ℕ → Option ℕ
row_index none command = none
row_index (some h) command = if leb h.maxhandlers command then none else get_elem? h.msgs command

class_index : List ClassHandlers → ℕ → ℕ → Option ℕ
unfolding row_index
class_index table cls command =
    if leb (length table) cls then none else row_index (get_elem? table cls) command

class_entry-index :
    (table : List ClassHandlers) (cls command : ℕ) {i : ℕ}
    → class_index table cls command ≡ some i
    → class_entry table cls command ≡ ble_get_msg i
unfolding class_index class_entry
class_entry-index table cls command e = ground arith

points_to : Option ℕ → ℕ → Bool
points_to none i = false
points_to (some j) i = j == i

abbrev pub first_rsp : ℕ
first_rsp = 105

abbrev pub first_evt : ℕ
first_evt = 210

-- the index of the row with no handler
abbrev pub last : ℕ
last = 245

-- Row `i` of the table is of the given kind, and is where its own class and command lead.
leads_back : ℕ → List ClassHandlers → ℕ → Option BleMsg → Bool
unfolding points_to class_index
leads_back kind table i none = false
leads_back kind table i (some m) =
    (bit_and m.hdr.type_hilen 0x80 == kind)
    && points_to (class_index table m.hdr.cls m.hdr.command) i

abbrev leads : ℕ → List ClassHandlers → ℕ → ℕ → Bool
leads kind table first k = leads_back kind table (first + k) (get_elem? apis (first + k))

rsp_lead_back : all_below 105 (leads ble_msg_type_rsp ble_class_rsp_handlers first_rsp) ≡ true
unfolding all_below leads_back ble_class_rsp_handlers apis
rsp_lead_back = refl

evt_lead_back : all_below 35 (leads ble_msg_type_evt ble_class_evt_handlers first_evt) ≡ true
unfolding all_below leads_back ble_class_evt_handlers apis
evt_lead_back = refl

points_to-eq : (o : Option ℕ) (i : ℕ) → points_to o i ≡ true → o ≡ some i
unfolding points_to
points_to-eq none i h = cc
points_to-eq (some j) i h = ground arith

-- A row that its own key leads to is found by any header with that key.
entry-row :
    (kind : ℕ) (table : List ClassHandlers) (i : ℕ) {m : BleMsg}
    → get_elem? apis i ≡ some m
    → leads_back kind table i (get_elem? apis i) ≡ true
    → (bit_and m.hdr.type_hilen 0x80 ≡ kind) × (class_entry table m.hdr.cls m.hdr.command ≡ ref m)
unfolding leads_back ble_get_msg
entry-row kind table i {m} e ok =
    let ok' = rw e at ok in
    (
      ground arith,
      class_entry-index table m.hdr.cls m.hdr.command (points_to-eq _ i (ground arith)) ∙ rw e,
    )

module _ (i : ℕ) {m : BleMsg} (row : get_elem? apis i ≡ some m) where
  rsp_row :
      first_rsp ≤ i
      → i < first_evt
      → (bit_and m.hdr.type_hilen 0x80 ≡ ble_msg_type_rsp)
        × (class_entry ble_class_rsp_handlers m.hdr.cls m.hdr.command ≡ ref m)
  rsp_row lo hi =
      let k = i - first_rsp in
      let e : first_rsp + k ≡ i = omega arith in
      entry-row ble_msg_type_rsp ble_class_rsp_handlers i row (
        rw e at (
          all_below_sound 105 (leads ble_msg_type_rsp ble_class_rsp_handlers first_rsp) k
            rsp_lead_back (omega arith)))

  evt_row :
      first_evt ≤ i
      → i < last
      → (bit_and m.hdr.type_hilen 0x80 ≡ ble_msg_type_evt)
        × (class_entry ble_class_evt_handlers m.hdr.cls m.hdr.command ≡ ref m)
  evt_row lo hi =
      let k = i - first_evt in
      let e : first_evt + k ≡ i = omega arith in
      entry-row ble_msg_type_evt ble_class_evt_handlers i row (
        rw e at (
          all_below_sound 35 (leads ble_msg_type_evt ble_class_evt_handlers first_evt) k
            evt_lead_back (omega arith)))

-- Row `i` of `apis`, a response or an event, is what `ble_get_msg_hdr` returns for every header
-- with the type bit, class and command of that row, whatever length the header states.
pub get_msg_hdr_complete :
    (i : ℕ) {m : BleMsg} (h : Header)
    → get_elem? apis i ≡ some m
    → first_rsp ≤ i
    → i < last
    → bit_and h.type_hilen 0x80 ≡ bit_and m.hdr.type_hilen 0x80
    → h.cls ≡ m.hdr.cls
    → h.command ≡ m.hdr.command
    → ble_get_msg_hdr h ≡ ref m
get_msg_hdr_complete i h row lo hi bit cls command = elim (dec_lt i first_evt) [
  | yes before ↦
      let (kind, found) = rsp_row i row lo before in
      get_msg_hdr-rsp h (bit ∙ kind) ∙ rw (cls, command) found
  | no after ↦
      let (kind, found) = evt_row i row (omega arith) hi in
      get_msg_hdr-evt h (bit ∙ kind) ∙ rw (cls, command) found
]
