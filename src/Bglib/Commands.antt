-- ===== src/Bglib/Commands.antt =====
-- The commands of the message table `apis` of BLEGatewayClient/cmd_def.c (lines 12 to 116), row by row.
use io_tblegateway.Common.{ℕ, bit_or, List, [], ◌∷◌, some}
use io_tblegateway.Bglib.Handlers.{ble_default}
use io_tblegateway.Bglib.Types.{
  BleMsg, ble_msg_type_cmd, ble_dev_type_ble, cls_system, cls_flash, cls_attributes, cls_connection,
  cls_attclient, cls_sm, cls_gap, cls_hardware, cls_test, cls_dfu,
}

-- lolen, class, command id, parameter nibbles; every command is handled by `ble_default`.
abbrev row : ℕ → ℕ → ℕ → ℕ → BleMsg
row lolen cls command params = record {
  hdr = record {
    type_hilen = bit_or ble_dev_type_ble ble_msg_type_cmd;
    lolen = lolen;
    cls = cls;
    command = command;
  };
  params = params;
  handler = some ble_default;
}

unfoldable pub apis_cmd : List BleMsg
apis_cmd =
    row 0x1 cls_system 0 0x2
    ∷ row 0x0 cls_system 1 0x0
    ∷ row 0x0 cls_system 2 0x0
    ∷ row 0x3 cls_system 3 0x24
    ∷ row 0x2 cls_system 4 0x4
    ∷ row 0x0 cls_system 5 0x0
    ∷ row 0x0 cls_system 6 0x0
    ∷ row 0x5 cls_system 7 0x26
    ∷ row 0x0 cls_system 8 0x0
    ∷ row 0x2 cls_system 9 0x82
    ∷ row 0x7 cls_system 10 0x2a
    ∷ row 0x7 cls_system 11 0x2a
    ∷ row 0x0 cls_system 12 0x0
    ∷ row 0x2 cls_system 13 0x22
    ∷ row 0x3 cls_system 14 0x222
    ∷ row 0x1 cls_system 15 0x8
    ∷ row 0x1 cls_system 16 0x8
    ∷ row 0x1 cls_system 17 0x8
    ∷ row 0x0 cls_flash 0 0x0
    ∷ row 0x0 cls_flash 1 0x0
    ∷ row 0x0 cls_flash 2 0x0
    ∷ row 0x3 cls_flash 3 0x84
    ∷ row 0x2 cls_flash 4 0x4
    ∷ row 0x2 cls_flash 5 0x4
    ∷ row 0x1 cls_flash 6 0x2
    ∷ row 0x5 cls_flash 7 0x86
    ∷ row 0x5 cls_flash 8 0x26
    ∷ row 0x4 cls_attributes 0 0x824
    ∷ row 0x4 cls_attributes 1 0x44
    ∷ row 0x2 cls_attributes 2 0x4
    ∷ row 0x3 cls_attributes 3 0x822
    ∷ row 0x2 cls_attributes 4 0x22
    ∷ row 0x4 cls_attributes 5 0x842
    ∷ row 0x1 cls_connection 0 0x2
    ∷ row 0x1 cls_connection 1 0x2
    ∷ row 0x9 cls_connection 2 0x44442
    ∷ row 0x1 cls_connection 3 0x2
    ∷ row 0x1 cls_connection 4 0x2
    ∷ row 0x2 cls_connection 5 0x82
    ∷ row 0x1 cls_connection 6 0x2
    ∷ row 0x1 cls_connection 7 0x2
    ∷ row 0x2 cls_connection 8 0x82
    ∷ row 0x8 cls_attclient 0 0x84442
    ∷ row 0x6 cls_attclient 1 0x8442
    ∷ row 0x6 cls_attclient 2 0x8442
    ∷ row 0x5 cls_attclient 3 0x442
    ∷ row 0x3 cls_attclient 4 0x42
    ∷ row 0x4 cls_attclient 5 0x842
    ∷ row 0x4 cls_attclient 6 0x842
    ∷ row 0x1 cls_attclient 7 0x2
    ∷ row 0x3 cls_attclient 8 0x42
    ∷ row 0x6 cls_attclient 9 0x8442
    ∷ row 0x2 cls_attclient 10 0x22
    ∷ row 0x2 cls_attclient 11 0x82
    ∷ row 0x2 cls_sm 0 0x22
    ∷ row 0x1 cls_sm 1 0x2
    ∷ row 0x1 cls_sm 2 0x2
    ∷ row 0x3 cls_sm 3 0x222
    ∷ row 0x5 cls_sm 4 0x62
    ∷ row 0x0 cls_sm 5 0x0
    ∷ row 0x1 cls_sm 6 0x8
    ∷ row 0x0 cls_sm 7 0x0
    ∷ row 0x2 cls_gap 0 0x22
    ∷ row 0x2 cls_gap 1 0x22
    ∷ row 0x1 cls_gap 2 0x2
    ∷ row 0xf cls_gap 3 0x44442a
    ∷ row 0x0 cls_gap 4 0x0
    ∷ row 0x8 cls_gap 5 0x4444
    ∷ row 0x3 cls_gap 6 0x222
    ∷ row 0x5 cls_gap 7 0x244
    ∷ row 0x5 cls_gap 8 0x244
    ∷ row 0x2 cls_gap 9 0x82
    ∷ row 0x7 cls_gap 10 0x2a
    ∷ row 0x3 cls_hardware 0 0x222
    ∷ row 0x6 cls_hardware 1 0x226
    ∷ row 0x3 cls_hardware 2 0x222
    ∷ row 0x2 cls_hardware 3 0x22
    ∷ row 0x2 cls_hardware 4 0x22
    ∷ row 0x3 cls_hardware 5 0x222
    ∷ row 0x3 cls_hardware 6 0x222
    ∷ row 0x2 cls_hardware 7 0x22
    ∷ row 0x6 cls_hardware 8 0x222222
    ∷ row 0x2 cls_hardware 9 0x82
    ∷ row 0x3 cls_hardware 10 0x222
    ∷ row 0x3 cls_hardware 11 0x822
    ∷ row 0x1 cls_hardware 12 0x2
    ∷ row 0x5 cls_hardware 13 0x4222
    ∷ row 0x2 cls_hardware 14 0x22
    ∷ row 0x2 cls_hardware 15 0x22
    ∷ row 0x1 cls_hardware 16 0x2
    ∷ row 0x0 cls_hardware 17 0x0
    ∷ row 0x1 cls_hardware 18 0x2
    ∷ row 0x1 cls_hardware 19 0x2
    ∷ row 0x1 cls_hardware 20 0x2
    ∷ row 0x3 cls_test 0 0x222
    ∷ row 0x1 cls_test 1 0x2
    ∷ row 0x0 cls_test 2 0x0
    ∷ row 0x0 cls_test 3 0x0
    ∷ row 0x0 cls_test 4 0x0
    ∷ row 0x1 cls_test 5 0x8
    ∷ row 0x1 cls_test 6 0x2
    ∷ row 0x1 cls_dfu 0 0x2
    ∷ row 0x4 cls_dfu 1 0x6
    ∷ row 0x1 cls_dfu 2 0x8
    ∷ row 0x0 cls_dfu 3 0x0
    ∷ []
