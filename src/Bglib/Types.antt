-- ===== src/Bglib/Types.antt =====
-- The structures and enumerations of BLEGatewayClient/cmd_def.h that the message table uses.
use io_tblegateway.Common.{ℕ, List, Option}
use io_tblegateway.Bglib.Handlers.{Handler}

-- `struct ble_header`: four bytes
pub record Header : Type 0 where
  pub type_hilen : ℕ
  pub lolen : ℕ
  pub cls : ℕ
  pub command : ℕ

-- `struct ble_msg`; the null handler of the last row is `none`
pub record BleMsg : Type 0 where
  pub hdr : Header
  pub params : ℕ
  pub handler : Option Handler

-- `struct ble_class_handler_t`; a null table of messages is `[]`
pub record ClassHandlers : Type 0 where
  pub msgs : List ℕ
  pub maxhandlers : ℕ

-- What a function that returns `const struct ble_msg *` gives: `wild` is a read out of a table.
pub data MsgPtr : Type 0 where
  null : MsgPtr
  ref : BleMsg → MsgPtr
  wild : MsgPtr

abbrev pub ble_dev_type_ble : ℕ
ble_dev_type_ble = 0x00

abbrev pub ble_msg_type_cmd : ℕ
ble_msg_type_cmd = 0x00

abbrev pub ble_msg_type_rsp : ℕ
ble_msg_type_rsp = 0x00

abbrev pub ble_msg_type_evt : ℕ
ble_msg_type_evt = 0x80

-- `enum ble_classes`
abbrev pub cls_system : ℕ
cls_system = 0

abbrev pub cls_flash : ℕ
cls_flash = 1

abbrev pub cls_attributes : ℕ
cls_attributes = 2

abbrev pub cls_connection : ℕ
cls_connection = 3

abbrev pub cls_attclient : ℕ
cls_attclient = 4

abbrev pub cls_sm : ℕ
cls_sm = 5

abbrev pub cls_gap : ℕ
cls_gap = 6

abbrev pub cls_hardware : ℕ
cls_hardware = 7

abbrev pub cls_test : ℕ
cls_test = 8

abbrev pub cls_dfu : ℕ
cls_dfu = 9
