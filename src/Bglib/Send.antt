-- ===== src/Bglib/Send.antt =====
-- `ble_send_message` of BLEGatewayClient/cmd_def.c: a command and its arguments become a packet.
-- `none` is undefined behaviour: an argument that is missing or of another type than `va_arg`
-- reads, or a pointer to too few bytes.
pub mod Layout
pub mod Rounds
pub mod RoundTrip
use io_tblegateway.Common.{
  ℕ, zero, suc, ◌+◌, ◌/◌, ◌%◌, ◌^◌, bit_or, ◌||◌, Option, none, some, List, [], ◌∷◌, ◌++◌, Bytes,
  ◌==◌, if◌then◌else◌, get_elem?,
}
use io_tblegateway.Bglib.Types.{Header, BleMsg}
use io_tblegateway.Bglib.Lookup.{apis}

-- one variable argument
pub data Arg : Type 0 where
  int : ℕ → Arg
  ptr : Bytes → Arg

-- the packet and the local variables that live across the rounds of the loop
pub record Packet : Type 0 where
  pub header : Header
  pub payload : Bytes
  pub data_len : ℕ
  pub data_ptr : Bytes

-- the cases of the `switch` on a parameter's nibble
pub data Kind : Type 0 where
  uint32 uint16 uint8 uint8array hwaddr uint16array other : Kind

unfoldable pub kind_of : ℕ → Kind
kind_of n =
    if n == 7 || n == 6
    then uint32
    else if n == 5 || n == 4
    then uint16
    else if n == 3 || n == 2
    then uint8
    else if n == 9 || n == 8
    then uint8array
    else if n == 10
    then hwaddr
    else if n == 11
    then uint16array
    else other

-- `*b++` for each of the bytes
abbrev pub append : Packet → Bytes → Packet
append p bs = record p { payload = p.payload ++ bs }

-- `u16=data_len+packet.header.lolen` and what follows; `|=` is on a uint8.
unfoldable pub add_length : Header → ℕ → Header
add_length h data_len =
    let u16 = (data_len + h.lolen) % 2 ^ 16 in
    record h { lolen = u16 % 256; type_hilen = bit_or h.type_hilen (u16 / 256) % 256 }

abbrev pub with_data : Packet → ℕ → Bytes → Packet
with_data p n bs = record p { header = add_length p.header n; data_len = n; data_ptr = bs }

-- One round: the arguments that are left, and the packet.
unfoldable pub put : Kind → List Arg → Packet → Option (List Arg × Packet)
put uint32 (int x ∷ args) p =
    some (args, append p (x % 256 ∷ x / 256 % 256 ∷ x / 65536 % 256 ∷ x / 16777216 % 256 ∷ []))
put uint16 (int x ∷ args) p = some (args, append p (x % 256 ∷ x / 256 % 256 ∷ []))
put uint8 (int x ∷ args) p = some (args, append p (x % 256 ∷ []))
put uint8array (int n ∷ ptr bs ∷ args) p =
    some (args, with_data (append p (n % 2 ^ 16 % 256 ∷ [])) (n % 2 ^ 16) bs)
put hwaddr (ptr (a ∷ b ∷ c ∷ d ∷ e ∷ f ∷ bs) ∷ args) p =
    some (args, append p (a ∷ b ∷ c ∷ d ∷ e ∷ f ∷ []))
put uint16array (int n ∷ ptr bs ∷ args) p =
    some (args, with_data (append p (n % 2 ^ 16 % 256 ∷ n % 2 ^ 16 / 256 ∷ [])) (n % 2 ^ 16) bs)
put other args p = some (args, p)
put _ _ _ = none

-- `while(i) { switch(i&0xF) ...; i=i>>4; }`; a 64-bit word has 16 nibbles, and the
-- last test of the loop takes one more round.
unfoldable pub put_params : ℕ → ℕ → List Arg → Packet → Option Packet
put_params zero i args p = none
put_params (suc fuel) i args p =
    let rest : Option Packet = elim (put (kind_of (i % 16)) args p) [
      | none ↦ none
      | some (args', p') ↦ put_params fuel (i / 16) args' p'
    ] in
    if i == 0 then some p else rest

abbrev pub rounds : ℕ
rounds = 17

-- the arguments of the call of `bglib_output`
pub record Output : Type 0 where
  pub header_length : ℕ
  pub header : Bytes
  pub data_length : ℕ
  pub data_ptr : Bytes

abbrev pub header_bytes : Header → Bytes
header_bytes h = h.type_hilen ∷ h.lolen ∷ h.cls ∷ h.command ∷ []

abbrev pub start : Header → Packet
start h = record { header = h; payload = []; data_len = 0; data_ptr = [] }

-- The packet as memory is its header and the bytes that were written behind it.
abbrev pub output : BleMsg → Packet → Output
output m p = record {
  header_length = (4 + m.hdr.lolen) % 256;
  header = header_bytes p.header ++ p.payload;
  data_length = p.data_len;
  data_ptr = p.data_ptr;
}

abbrev pub deliver : BleMsg → Option Packet → Option Output
deliver m none = none
deliver m (some p) = some (output m p)

unfoldable pub send_row : Option BleMsg → List Arg → Option Output
send_row none args = none
send_row (some m) args = deliver m (put_params rounds m.params args (start m.hdr))

unfoldable pub ble_send_message : ℕ → List Arg → Option Output
ble_send_message msgid args = send_row (get_elem? apis msgid) args
