-- ===== src/Bglib/Lookup/Tables.antt =====
-- Checks of the class tables by evaluation, and what they say of every lookup.
use io_tblegateway.Common.{
  inr, inl, Bool-cases, ℕ, ◌≡◌, refl, ◌≢◌, bit_and, Bool, true, false, ◌&&◌, Option, none, some,
  List, arith, leb, ◌==◌, length, get_elem?, all_below, all_below_sound,
}
use io_tblegateway.Bglib.Types.{
  BleMsg, ClassHandlers, MsgPtr, null, ref, wild, ble_msg_type_rsp, ble_msg_type_evt,
}
use io_tblegateway.Bglib.Classes.{ble_class_rsp_handlers, ble_class_evt_handlers}
use io_tblegateway.Bglib.Lookup.{apis, ble_get_msg, entry, entry_of, class_entry}

-- The message has the given key and a handler.
abbrev pub Keyed : ℕ → ℕ → ℕ → BleMsg → Type 0
Keyed kind cls command m =
    (bit_and m.hdr.type_hilen 0x80 ≡ kind)
    × (m.hdr.cls ≡ cls)
    × (m.hdr.command ≡ command)
    × (m.handler ≢ none)

-- What a lookup by key may give: no message, or one with that key.
abbrev pub Found : ℕ → ℕ → ℕ → MsgPtr → Type 0
Found kind cls command null = Unit {0}
Found kind cls command (ref m) = Keyed kind cls command m
Found kind cls command wild = ⊥

has_handler : BleMsg → Bool
has_handler m = elim m.handler [ none ↦ false | some h ↦ true ]

keyed : ℕ → ℕ → ℕ → MsgPtr → Bool
unfolding has_handler
keyed kind cls command null = false
keyed kind cls command wild = false
keyed kind cls command (ref m) =
    (bit_and m.hdr.type_hilen 0x80 == kind)
    && (m.hdr.cls == cls && (m.hdr.command == command && has_handler m))

keyed-Found :
    (kind cls command : ℕ) (p : MsgPtr) → keyed kind cls command p ≡ true → Found kind cls command p
unfolding keyed
keyed-Found kind cls command null h = cc
keyed-Found kind cls command wild h = cc
keyed-Found kind cls command (ref m) h = ground arith

-- Every row of the class has its key, and there are as many as the table says.
row_ok : ℕ → ℕ → ClassHandlers → Bool
unfolding keyed ble_get_msg apis
row_ok kind cls h =
    (length h.msgs == h.maxhandlers)
    && all_below h.maxhandlers (λ k. keyed kind cls k (entry (get_elem? h.msgs k)))

ok_at : ℕ → ℕ → Option ClassHandlers → Bool
unfolding row_ok
ok_at kind cls none = false
ok_at kind cls (some h) = row_ok kind cls h

table_ok : ℕ → List ClassHandlers → Bool
unfolding ok_at
table_ok kind table = all_below (length table) (λ cls. ok_at kind cls (get_elem? table cls))

evt_ok : table_ok ble_msg_type_evt ble_class_evt_handlers ≡ true
unfolding table_ok all_below ble_class_evt_handlers
evt_ok = refl

rsp_ok : table_ok ble_msg_type_rsp ble_class_rsp_handlers ≡ true
unfolding table_ok all_below ble_class_rsp_handlers
rsp_ok = refl

row-Found :
    (kind cls command : ℕ) (h : ClassHandlers)
    → row_ok kind cls h ≡ true
    → Found kind cls command (entry_of (some h) command)
unfolding row_ok
row-Found kind cls command h ok = elim (Bool-cases (leb h.maxhandlers command)) [
  | inl large ↦ rw large tt
  | inr small ↦ rw small (
      keyed-Found kind cls command _ (
        all_below_sound h.maxhandlers (λ k. keyed kind cls k (entry (get_elem? h.msgs k))) command
          (ground arith) (ground arith)))
]

entry_of-Found :
    (kind cls command : ℕ) (o : Option ClassHandlers)
    → ok_at kind cls o ≡ true
    → Found kind cls command (entry_of o command)
unfolding ok_at
entry_of-Found kind cls command none ok = cc
entry_of-Found kind cls command (some h) ok = row-Found kind cls command h ok

class_entry-Found :
    (kind cls command : ℕ) (table : List ClassHandlers)
    → table_ok kind table ≡ true
    → Found kind cls command (class_entry table cls command)
unfolding table_ok class_entry
class_entry-Found kind cls command table ok = elim (Bool-cases (leb (length table) cls)) [
  | inl large ↦ rw large tt
  | inr small ↦ rw small (
      entry_of-Found kind cls command _ (
        all_below_sound (length table) (λ k. ok_at kind k (get_elem? table k)) cls ok
          (ground arith)))
]

pub evt-Found :
    (cls command : ℕ)
    → Found ble_msg_type_evt cls command (class_entry ble_class_evt_handlers cls command)
evt-Found cls command = class_entry-Found ble_msg_type_evt cls command _ evt_ok

pub rsp-Found :
    (cls command : ℕ)
    → Found ble_msg_type_rsp cls command (class_entry ble_class_rsp_handlers cls command)
rsp-Found cls command = class_entry-Found ble_msg_type_rsp cls command _ rsp_ok
