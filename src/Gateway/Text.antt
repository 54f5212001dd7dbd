-- ===== src/Gateway/Text.antt =====
-- BLEGatewayApplication/BLE_HELPER.cpp: text of requests and replies. A string is the list of its
-- bytes.
pub mod Split
pub mod Hex
use io_tblegateway.Gateway.Packets.{byte_at}
use io_tblegateway.Common.{
  ◌||◌, ℕ, zero, suc, ◌+◌, ◌-◌, ◌*◌, ◌/◌, ◌%◌, ◌^◌, Bool, true, false, not, ◌&&◌, Option, none,
  some, List, [], ◌∷◌, ◌++◌, ltb, leb, ◌==◌, if◌then◌else◌, Bytes, length,
}

-- `str.find(delimiter)` and what stands behind: the text before the first occurrence, and the text
-- after it.
unfoldable pub after_prefix : Bytes → Bytes → Option Bytes
after_prefix [] str = some str
after_prefix (d ∷ ds) [] = none
after_prefix (d ∷ ds) (ch ∷ str) = if d == ch then after_prefix ds str else none

abbrev pub Found : Type 0
Found = Option (Bytes × Bytes)

abbrev pub further : ℕ → Found → Found
further ch none = none
further ch (some (before, behind)) = some (ch ∷ before, behind)

abbrev pub found_or : Option Bytes → Found → Found
found_or none r = r
found_or (some behind) r = some ([], behind)

unfoldable pub find : Bytes → Bytes → Found
unfolding after_prefix
find delimiter [] = found_or (after_prefix delimiter []) none
find delimiter (ch ∷ str) =
    found_or (after_prefix delimiter (ch ∷ str)) (further ch (find delimiter str))

-- `if (!subs.empty()) result.push_back(subs)`
abbrev pub push_nonempty : List Bytes → Bytes → List Bytes
push_nonempty result [] = result
push_nonempty result (ch ∷ subs) = result ++ (ch ∷ subs) ∷ []

-- The loop, for at most `fuel` rounds: `none` is that it does not end by then.
unfoldable pub split_loop : ℕ → Bytes → Bytes → List Bytes → Option (List Bytes)
split_loop zero delimiter str result = none
split_loop (suc fuel) delimiter str result = elim (find delimiter str) [
  | none ↦ some (push_nonempty result str)
  | some p ↦ split_loop fuel delimiter p.1 (push_nonempty result p.0)
]

unfoldable pub construct_substrings : Bytes → Bytes → Option (List Bytes)
unfolding split_loop
construct_substrings str delimiter = split_loop (suc (length str)) delimiter str []

abbrev pub is_digit : ℕ → Bool
is_digit ch = leb b'0' ch && leb ch b'9'

abbrev pub is_xdigit : ℕ → Bool
is_xdigit ch = is_digit ch || (leb b'a' ch && leb ch b'f') || (leb b'A' ch && leb ch b'F')

abbrev pub all_of : (ℕ → Bool) → Bytes → Bool
all_of test [] = true
all_of test (ch ∷ str) = test ch && all_of test str

-- `std::stoi(str, nullptr, 10)` on a text of digits; `none` is that it throws.
unfoldable pub decimal_from : ℕ → Bytes → ℕ
decimal_from value [] = value
decimal_from value (ch ∷ str) = decimal_from (value * 10 + (ch - b'0')) str

unfoldable pub stoi_digits : Bytes → Option ℕ
unfolding decimal_from
stoi_digits [] = none
stoi_digits (ch ∷ str) =
    if ltb (decimal_from 0 (ch ∷ str)) (2 ^ 31) then some (decimal_from 0 (ch ∷ str)) else none

-- `none` is the result false. It sets `i` if it returns true.
unfoldable pub construct_valid_integer : Bytes → Option ℕ
unfolding stoi_digits
construct_valid_integer str = if all_of is_digit str then stoi_digits str else none

unfoldable pub is_valid_integer : Bytes → Bool
is_valid_integer str = all_of is_digit str

-- the value of a hexadecimal digit
abbrev pub digit_value : ℕ → ℕ
digit_value ch = if is_digit ch then ch - b'0' else if leb b'a' ch then ch - 87 else ch - 55

abbrev is_space : ℕ → Bool
is_space ch = ch == 32 || (leb 9 ch && leb ch 13)

-- `(uint8_t) std::stoi(byte, nullptr, 16)` on two characters: blanks, a sign and "0x" are skipped,
-- and what follows the digits is left. `none` is that it throws.
unfoldable pub stoi_pair : ℕ → ℕ → Option ℕ
stoi_pair x y =
    if is_xdigit x
    then some (if is_xdigit y then digit_value x * 16 + digit_value y else digit_value x)
    else if is_xdigit y
    then if is_space x || x == b'+'
      then some (digit_value y)
      else if x == b'-'
      then some ((256 - digit_value y) % 256)
      else none
    else none

-- The loop over the parts of a MAC address, and the vector that it fills.
unfoldable pub push_bytes : List Bytes → Bytes → Bool × Bytes
push_bytes [] mac = (true, mac)
push_bytes ((x ∷ y ∷ []) ∷ parts) mac =
    if all_of is_xdigit (x ∷ y ∷ [])
    then elim (stoi_pair x y) [ none ↦ (false, mac) | some b ↦ push_bytes parts (mac ++ b ∷ []) ]
    else (false, mac)
push_bytes (_ ∷ parts) mac = (false, mac)

abbrev pub colon : Bytes
colon = b':' ∷ []

-- `none` is that the splitting loop does not end.
unfoldable pub construct_valid_mac : Bytes → Bytes → Option (Bool × Bytes)
construct_valid_mac str mac = elim (construct_substrings str colon) [
  | none ↦ none
  | some parts ↦ some (if length parts == 6 then push_bytes parts mac else (false, mac))
]

unfoldable pub all_pairs : List Bytes → Bool
all_pairs [] = true
all_pairs (byte ∷ parts) =
    let rest = all_pairs parts in
    if not (length byte == 2) || not (all_of is_xdigit byte) then false else rest

unfoldable pub is_valid_mac : Bytes → Option Bool
is_valid_mac str = elim (construct_substrings str colon) [
  | none ↦ none
  | some parts ↦ some (if length parts == 6 then all_pairs parts else false)
]

-- `std::setfill('0') << std::setw(2) << std::hex`
abbrev pub hex_digit : ℕ → ℕ
hex_digit n = if ltb n 10 then b'0' + n else 87 + n

abbrev pub hex2 : ℕ → Bytes
hex2 b = hex_digit (b / 16) ∷ hex_digit (b % 16) ∷ []

-- the loop from index `n - 1` down
unfoldable print_mac : ℕ → Bytes → Bytes
print_mac zero addr = []
print_mac (suc n) addr =
    hex2 (byte_at addr n) ++ ((if ltb 0 n then colon else []) ++ print_mac n addr)

unfoldable pub mac_to_string : Bytes → Bytes
unfolding print_mac
mac_to_string addr = print_mac 6 addr

-- The loop over pairs, on a text of even length.
unfoldable pub hex_pairs : Bytes → Bytes
hex_pairs (x ∷ y ∷ str) = elim (stoi_pair x y) [ none ↦ hex_pairs str | some b ↦ b ∷ hex_pairs str ]
hex_pairs _ = []

unfoldable pub hex_str_to_hex_buf : Bytes → Bytes
unfolding hex_pairs
hex_str_to_hex_buf str = hex_pairs (if length str % 2 == 0 then str else b'0' ∷ str)
