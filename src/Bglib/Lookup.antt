-- ===== src/Bglib/Lookup.antt =====
-- How a message is found: `apis`, `ble_get_msg`, `ble_find_msg_hdr` and `ble_get_msg_hdr` of
-- BLEGatewayClient/cmd_def.c.
pub mod Tables
pub mod Dispatch
pub mod Complete
pub mod Find
use io_tblegateway.Common.{
  ℕ, bit_and, Bool, ◌&&◌, Option, none, some, List, [], ◌∷◌, ◌++◌, leb, ◌==◌, if◌then◌else◌, length,
  get_elem?,
}
use io_tblegateway.Bglib.Types.{
  Header, BleMsg, ClassHandlers, MsgPtr, null, ref, wild, ble_msg_type_rsp, ble_msg_type_evt,
}
use io_tblegateway.Bglib.Commands.{apis_cmd}
use io_tblegateway.Bglib.Responses.{apis_rsp}
use io_tblegateway.Bglib.Events.{apis_evt}
use io_tblegateway.Bglib.Classes.{ble_class_rsp_handlers, ble_class_evt_handlers}

-- the last row, which has no handler
abbrev last_row : BleMsg
last_row = record {
  hdr = record { type_hilen = 0; lolen = 0; cls = 0; command = 0 };
  params = 0;
  handler = none;
}

unfoldable pub apis : List BleMsg
unfolding apis_cmd apis_rsp apis_evt
apis = apis_cmd ++ (apis_rsp ++ (apis_evt ++ (last_row ∷ [])))

abbrev pub deref : Option BleMsg → MsgPtr
deref none = wild
deref (some m) = ref m

-- `&apis[idx]`
unfoldable pub ble_get_msg : ℕ → MsgPtr
ble_get_msg idx = deref (get_elem? apis idx)

abbrev same_key : BleMsg → Header → Bool
same_key m hdr =
    bit_and m.hdr.type_hilen 0xf8 == bit_and hdr.type_hilen 0xf8
    && (m.hdr.cls == hdr.cls && m.hdr.command == hdr.command)

-- The loop over the rows; a list that ends before a row with no handler is a wild read.
find_from : List BleMsg → Header → MsgPtr
find_from [] hdr = wild
find_from (m ∷ ms) hdr = elim m.handler [
  | none ↦ null
  | some h ↦ if same_key m hdr then ref m else find_from ms hdr
]

unfoldable pub ble_find_msg_hdr : Header → MsgPtr
unfolding find_from
ble_find_msg_hdr hdr = find_from apis hdr

abbrev pub entry : Option ℕ → MsgPtr
entry none = wild
entry (some i) = ble_get_msg i

abbrev pub entry_of : Option ClassHandlers → ℕ → MsgPtr
entry_of none command = wild
entry_of (some h) command =
    if leb h.maxhandlers command then null else entry (get_elem? h.msgs command)

-- The two tests and the read that `ble_get_msg_hdr` makes in one of its class tables.
unfoldable pub class_entry : List ClassHandlers → ℕ → ℕ → MsgPtr
class_entry table cls command =
    if leb (length table) cls then null else entry_of (get_elem? table cls) command

unfoldable pub ble_get_msg_hdr : Header → MsgPtr
ble_get_msg_hdr hdr =
    if bit_and hdr.type_hilen 0x80 == ble_msg_type_evt
    then class_entry ble_class_evt_handlers hdr.cls hdr.command
    else if bit_and hdr.type_hilen 0x80 == ble_msg_type_rsp
    then class_entry ble_class_rsp_handlers hdr.cls hdr.command
    else ble_find_msg_hdr hdr
