-- ===== src/Tests/Bglib.antt =====
-- Runs of BLEGatewayClient/cmd_def.c.
use io_tblegateway.Common.{◌≡◌, refl, some, List, [], ◌∷◌, arith}
use io_tblegateway.Bglib.Handlers.{ble_default, ble_rsp_connection_get_status}
use io_tblegateway.Bglib.Types.{Header, BleMsg, ref}
use io_tblegateway.Bglib.Lookup.{apis, ble_get_msg_hdr, ble_find_msg_hdr}
use io_tblegateway.Bglib.Lookup.Complete.{get_msg_hdr_complete}
use io_tblegateway.Bglib.Lookup.Find.{First, ble_find_msg_hdr-First}
use io_tblegateway.Bglib.Send.RoundTrip.{Framed, packet_of, send_message-frames}
use io_tblegateway.Bglib.Send.Layout.{kinds, uint16, uint8, uint8array}
use io_tblegateway.Bglib.Send.{
  send_row, put_params, put, kind_of, add_length, Arg, int, ptr, ble_send_message,
}

-- The type byte and the length of a longer message do not matter.
abbrev long_header : Header
long_header = record { type_hilen = 1; lolen = 9; cls = 3; command = 7 }

abbrev get_status_row : BleMsg
get_status_row = record {
  hdr = record { type_hilen = 0; lolen = 1; cls = 3; command = 7 };
  params = 0x2;
  handler = some ble_rsp_connection_get_status;
}

get_msg_hdr_complete_example : ble_get_msg_hdr long_header ≡ ref get_status_row
unfolding apis
get_msg_hdr_complete_example =
    get_msg_hdr_complete 145 long_header refl (omega arith) (omega arith) refl refl refl

-- "attclient_read_by_group_type"
abbrev group_row : BleMsg
group_row = record {
  hdr = record { type_hilen = 0; lolen = 6; cls = 4; command = 1 };
  params = 0x8442;
  handler = some ble_default;
}

abbrev group_args : List Arg
group_args = int 2 ∷ int 1 ∷ int 0xffff ∷ int 2 ∷ ptr (0 ∷ 0x28 ∷ []) ∷ []

send_message-frames_example :
    (ble_send_message 43 group_args ≡ some (packet_of group_row group_args))
    × Framed group_row group_args (packet_of group_row group_args)
unfolding apis kinds kind_of
send_message-frames_example = send_message-frames 43 refl (omega arith) (
    uint8 (omega arith) (
      uint16 (omega arith)
        (uint16 (omega arith) (uint8array {bs = 0 ∷ 0x28 ∷ []} refl (omega arith)))))

group_packet :
    ble_send_message 43 group_args
    ≡ some (record {
      header_length = 10;
      header = 0 ∷ 8 ∷ 4 ∷ 1 ∷ 2 ∷ 1 ∷ 0 ∷ 255 ∷ 255 ∷ 2 ∷ [];
      data_length = 2;
      data_ptr = 0 ∷ 0x28 ∷ [];
    })
unfolding ble_send_message apis send_row put_params put kind_of add_length
group_packet = refl

ble_find_msg_hdr-First_example : First long_header apis (ble_find_msg_hdr long_header)
ble_find_msg_hdr-First_example = ble_find_msg_hdr-First long_header
