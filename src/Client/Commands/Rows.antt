-- ===== src/Client/Commands/Rows.antt =====
-- The rows of `apis` in BLEGatewayClient/cmd_def.c for the commands of the gateway's requests, and
-- the requests whose values fit them.
use io_tblegateway.Common.{◌^◌, ◌<◌, ◌≡◌, refl, some, [], ◌∷◌, arith, Bytes, length, get_elem?}
use io_tblegateway.Bglib.Handlers.{ble_default}
use io_tblegateway.Bglib.Types.{BleMsg}
use io_tblegateway.Bglib.Lookup.{apis}
use io_tblegateway.Bglib.Send.{kind_of}
use io_tblegateway.Bglib.Send.Layout.{kinds, Typed, nil, uint16, uint8, hwaddr, uint8array}
use io_tblegateway.Client.Commands.Requests.{
  Request, get_info, end_procedure, get_max_connections, scan_parameters, discover, connect,
  get_status, update, disconnect, read_by_group_type, find_information, read_by_handle,
  write_attribute, index_of, arguments_of,
}

abbrev IsMac : Bytes → Type 0
IsMac (a ∷ b ∷ c ∷ d ∷ e ∷ f ∷ []) = Unit {0}
IsMac _ = ⊥

-- The values of a request fit the parameters of its command.
abbrev pub IsValid : Request → Type 0
IsValid get_info = Unit {0}
IsValid end_procedure = Unit {0}
IsValid get_max_connections = Unit {0}
IsValid (scan_parameters scan_int scan_win active) =
    (scan_int < 2 ^ 16) × (scan_win < 2 ^ 16) × (active < 256)
IsValid (discover scan_mode) = (scan_mode < 256)
IsValid (connect mac address_type lo hi timeout latency) =
    IsMac mac
    × (address_type < 256)
    × (lo < 2 ^ 16)
    × (hi < 2 ^ 16)
    × (timeout < 2 ^ 16)
    × (latency < 2 ^ 16)
IsValid (get_status connection) = (connection < 256)
IsValid (update connection lo hi timeout latency) =
    (connection < 256) × (lo < 2 ^ 16) × (hi < 2 ^ 16) × (timeout < 2 ^ 16) × (latency < 2 ^ 16)
IsValid (disconnect connection) = (connection < 256)
IsValid (read_by_group_type connection first last uuid) =
    (connection < 256) × (first < 2 ^ 16) × (last < 2 ^ 16) × (length uuid < 256)
IsValid (find_information connection first last) =
    (connection < 256) × (first < 2 ^ 16) × (last < 2 ^ 16)
IsValid (read_by_handle connection attribute) = (connection < 256) × (attribute < 2 ^ 16)
IsValid (write_attribute connection attribute written) =
    (connection < 256) × (attribute < 2 ^ 16) × (length written < 256)

-- the row of the table that a request's command has
unfoldable pub row_of : Request → BleMsg
row_of get_info = record {
  hdr = record { type_hilen = 0; lolen = 0; cls = 0; command = 8 };
  params = 0x0;
  handler = some ble_default;
}
row_of end_procedure = record {
  hdr = record { type_hilen = 0; lolen = 0; cls = 6; command = 4 };
  params = 0x0;
  handler = some ble_default;
}
row_of get_max_connections = record {
  hdr = record { type_hilen = 0; lolen = 0; cls = 0; command = 6 };
  params = 0x0;
  handler = some ble_default;
}
row_of (scan_parameters _ _ _) = record {
  hdr = record { type_hilen = 0; lolen = 5; cls = 6; command = 7 };
  params = 0x244;
  handler = some ble_default;
}
row_of (discover _) = record {
  hdr = record { type_hilen = 0; lolen = 1; cls = 6; command = 2 };
  params = 0x2;
  handler = some ble_default;
}
row_of (connect _ _ _ _ _ _) = record {
  hdr = record { type_hilen = 0; lolen = 15; cls = 6; command = 3 };
  params = 0x44442a;
  handler = some ble_default;
}
row_of (get_status _) = record {
  hdr = record { type_hilen = 0; lolen = 1; cls = 3; command = 7 };
  params = 0x2;
  handler = some ble_default;
}
row_of (update _ _ _ _ _) = record {
  hdr = record { type_hilen = 0; lolen = 9; cls = 3; command = 2 };
  params = 0x44442;
  handler = some ble_default;
}
row_of (disconnect _) = record {
  hdr = record { type_hilen = 0; lolen = 1; cls = 3; command = 0 };
  params = 0x2;
  handler = some ble_default;
}
row_of (read_by_group_type _ _ _ _) = record {
  hdr = record { type_hilen = 0; lolen = 6; cls = 4; command = 1 };
  params = 0x8442;
  handler = some ble_default;
}
row_of (find_information _ _ _) = record {
  hdr = record { type_hilen = 0; lolen = 5; cls = 4; command = 3 };
  params = 0x442;
  handler = some ble_default;
}
row_of (read_by_handle _ _) = record {
  hdr = record { type_hilen = 0; lolen = 3; cls = 4; command = 4 };
  params = 0x42;
  handler = some ble_default;
}
row_of (write_attribute _ _ _) = record {
  hdr = record { type_hilen = 0; lolen = 4; cls = 4; command = 5 };
  params = 0x842;
  handler = some ble_default;
}

pub row_of-apis : (r : Request) → get_elem? apis (index_of r) ≡ some (row_of r)
unfolding apis index_of row_of
row_of-apis get_info = refl
row_of-apis end_procedure = refl
row_of-apis get_max_connections = refl
row_of-apis (scan_parameters _ _ _) = refl
row_of-apis (discover _) = refl
row_of-apis (connect _ _ _ _ _ _) = refl
row_of-apis (get_status _) = refl
row_of-apis (update _ _ _ _ _) = refl
row_of-apis (disconnect _) = refl
row_of-apis (read_by_group_type _ _ _ _) = refl
row_of-apis (find_information _ _ _) = refl
row_of-apis (read_by_handle _ _) = refl
row_of-apis (write_attribute _ _ _) = refl

pub index_of-lt : (r : Request) → index_of r < 105
unfolding index_of
index_of-lt get_info = omega arith
index_of-lt end_procedure = omega arith
index_of-lt get_max_connections = omega arith
index_of-lt (scan_parameters _ _ _) = omega arith
index_of-lt (discover _) = omega arith
index_of-lt (connect _ _ _ _ _ _) = omega arith
index_of-lt (get_status _) = omega arith
index_of-lt (update _ _ _ _ _) = omega arith
index_of-lt (disconnect _) = omega arith
index_of-lt (read_by_group_type _ _ _ _) = omega arith
index_of-lt (find_information _ _ _) = omega arith
index_of-lt (read_by_handle _ _) = omega arith
index_of-lt (write_attribute _ _ _) = omega arith

-- The arguments that the client hands to `ble_send_message` for a valid request are of the kinds
-- that the parameters of the command's row say, in their order and their number.
pub arguments_of-Typed :
    (r : Request) → IsValid r → Typed (kinds 16 (row_of r).params) (arguments_of r)
unfolding row_of arguments_of kinds kind_of
arguments_of-Typed get_info h = nil
arguments_of-Typed end_procedure h = nil
arguments_of-Typed get_max_connections h = nil
arguments_of-Typed (scan_parameters _ _ _) h = uint16 h.0 (uint16 h.1 (uint8 h.2 nil))
arguments_of-Typed (discover _) h = uint8 h nil
arguments_of-Typed (connect (a ∷ b ∷ c ∷ d ∷ e ∷ f ∷ []) _ _ _ _ _) h =
    hwaddr (uint8 h.1 (uint16 h.2 (uint16 h.3 (uint16 h.4 (uint16 h.5 nil)))))
arguments_of-Typed (connect _ _ _ _ _ _) h = absurd h.0
arguments_of-Typed (get_status _) h = uint8 h nil
arguments_of-Typed (update _ _ _ _ _) h =
    uint8 h.0 (uint16 h.1 (uint16 h.2 (uint16 h.4 (uint16 h.3 nil))))
arguments_of-Typed (disconnect _) h = uint8 h nil
arguments_of-Typed (read_by_group_type _ _ _ _) h =
    uint8 h.0 (uint16 h.1 (uint16 h.2 (uint8array refl h.3)))
arguments_of-Typed (find_information _ _ _) h = uint8 h.0 (uint16 h.1 (uint16 h.2 nil))
arguments_of-Typed (read_by_handle _ _) h = uint8 h.0 (uint16 h.1 nil)
arguments_of-Typed (write_attribute _ _ _) h = uint8 h.0 (uint16 h.1 (uint8array refl h.2))
