-- ===== src/Gateway/Text/Hex.antt =====
-- MAC addresses and hexadecimal text of BLEGatewayApplication/BLE_HELPER.cpp.
use mathlib.Core.Option
use io_tblegateway.Common.{
  ℕ, ◌+◌, ◌*◌, ◌/◌, ◌%◌, ◌<◌, ◌≡◌, refl, ap, ◌∙◌, inl, inr, true, false, none, some, List, [], ◌∷◌,
  ◌++◌, append-nil, append_assoc, arith, ◌==◌, if◌then◌else◌, Bool-cases, Bytes, length,
}
use io_tblegateway.Gateway.Text.{
  is_xdigit, digit_value, stoi_pair, push_bytes, colon, construct_substrings, construct_valid_mac,
  all_pairs, is_valid_mac, hex_digit, hex2, mac_to_string, hex_pairs, hex_str_to_hex_buf,
}
use io_tblegateway.Gateway.Text.Split.{fields, construct_substrings-fields}

abbrev IsByte : ℕ → Type 0
IsByte b = b < 256

abbrev AreBytes : Bytes → Type 0
AreBytes [] = Unit {0}
AreBytes (b ∷ bs) = IsByte b × AreBytes bs

digit_of : (n : ℕ) → n < 16 → (digit_value (hex_digit n) ≡ n) × (is_xdigit (hex_digit n) ≡ true)
digit_of n lt = (ground arith, ground arith)

not_colon : (n : ℕ) → (b':' == hex_digit n) ≡ false
not_colon n = ground arith

stoi_pair-hex2 : (b : ℕ) → IsByte b → stoi_pair (hex_digit (b / 16)) (hex_digit (b % 16)) ≡ some b
unfolding stoi_pair
stoi_pair-hex2 b lt =
    let high = digit_of (b / 16) (omega arith) in
    let low = digit_of (b % 16) (omega arith) in
    rw (high.0, high.1, low.0, low.1) (ap (λ n. some n) (omega arith))

pub hex_text : Bytes → Bytes
hex_text [] = []
hex_text (b ∷ bs) = hex2 b ++ hex_text bs

hex_pairs-pair :
    (x y b : ℕ) (str : Bytes) → stoi_pair x y ≡ some b → hex_pairs (x ∷ y ∷ str) ≡ b ∷ hex_pairs str
unfolding hex_pairs
hex_pairs-pair x y b str e =
    ap (λ o. elim o [ none ↦ hex_pairs str | some k ↦ k ∷ hex_pairs str ]) e

hex_pairs-text : (bs : Bytes) → AreBytes bs → hex_pairs (hex_text bs) ≡ bs
unfolding hex_text
hex_pairs-text [] h = unfold hex_pairs in refl
hex_pairs-text (b ∷ bs) h =
    hex_pairs-pair (hex_digit (b / 16)) (hex_digit (b % 16)) b (hex_text bs) (stoi_pair-hex2 b h.0)
    ∙ ap (λ rest. b ∷ rest) (hex_pairs-text bs h.1)

even-text : (bs : Bytes) → length (hex_text bs) % 2 ≡ 0
unfolding hex_text
even-text [] = refl
even-text (b ∷ bs) = omega (arith, even-text bs)

-- Bytes that are printed as pairs of hexadecimal digits read back as the bytes.
pub hex_buf-text : (bs : Bytes) → AreBytes bs → hex_str_to_hex_buf (hex_text bs) ≡ bs
unfolding hex_str_to_hex_buf
hex_buf-text bs h = rw (even-text bs, hex_pairs-text bs h)

-- The parts of a printed address.
fields-hex2 :
    (b : ℕ) (cur str : Bytes) → fields b':' cur (hex2 b ++ str) ≡ fields b':' (cur ++ hex2 b) str
unfolding fields
fields-hex2 b cur str = rw (
  not_colon (b / 16),
  not_colon (b % 16),
  append_assoc cur (hex_digit (b / 16) ∷ []) (hex_digit (b % 16) ∷ []),
)

fields-colon :
    (b : ℕ) (str : Bytes) → fields b':' [] (hex2 b ++ (colon ++ str)) ≡ hex2 b ∷ fields b':' [] str
unfolding fields
fields-colon b str = fields-hex2 b [] (colon ++ str)

fields_last : (b : ℕ) → fields b':' [] (hex2 b ++ []) ≡ hex2 b ∷ []
unfolding fields
fields_last b = fields-hex2 b [] []

push_bytes-hex2 :
    (b : ℕ) (parts : List Bytes) (mac : Bytes)
    → IsByte b
    → push_bytes (hex2 b ∷ parts) mac ≡ push_bytes parts (mac ++ b ∷ [])
unfolding push_bytes
push_bytes-hex2 b parts mac lt =
    rw
      (
        (digit_of (b / 16) (omega arith)).1,
        (digit_of (b % 16) (omega arith)).1,
        stoi_pair-hex2 b lt,
      )
      refl

-- the text of an address without its first part
abbrev after_colon : List ℕ → Bytes
after_colon [] = []
after_colon (b ∷ bs) = colon ++ (hex2 b ++ after_colon bs)

parts_of : List ℕ → List Bytes
parts_of [] = []
parts_of (b ∷ bs) = hex2 b ∷ parts_of bs

fields_address :
    (b : ℕ) (bs : Bytes) → fields b':' [] (hex2 b ++ after_colon bs) ≡ hex2 b ∷ parts_of bs
unfolding parts_of
fields_address b [] = fields_last b
fields_address b (x ∷ bs) =
    fields-colon b (hex2 x ++ after_colon bs) ∙ ap (λ ps. hex2 b ∷ ps) (fields_address x bs)

substrings_address :
    (b : ℕ) (bs : Bytes)
    → construct_substrings (hex2 b ++ after_colon bs) colon ≡ some (hex2 b ∷ parts_of bs)
substrings_address b bs =
    construct_substrings-fields (hex2 b ++ after_colon bs) b':'
    ∙ ap (λ ps. some ps) (fields_address b bs)

push_bytes-parts : (bs mac : Bytes) → AreBytes bs → push_bytes (parts_of bs) mac ≡ (true, mac ++ bs)
unfolding parts_of
push_bytes-parts [] mac h = unfold push_bytes in rw append-nil refl
push_bytes-parts (b ∷ bs) mac h =
    push_bytes-hex2 b (parts_of bs) mac h.0
    ∙ push_bytes-parts bs (mac ++ b ∷ []) h.1
    ∙ ap (λ r. (true, r)) (append_assoc mac (b ∷ []) bs)

construct-parts :
    (str : Bytes) (parts : List Bytes) (mac : Bytes)
    → construct_substrings str colon ≡ some parts
    → length parts ≡ 6
    → construct_valid_mac str mac ≡ some (push_bytes parts mac)
unfolding construct_valid_mac
construct-parts str parts mac e six =
    ap
      (λ o. elim o [
        | none ↦ none
        | some ps ↦ some (if length ps == 6 then push_bytes ps mac else (false, mac))
      ])
      e
    ∙ ap (λ n. some (if n == 6 then push_bytes parts mac else (false, mac))) six

-- Reading a printed address gives its bytes in the reverse order of `bd_addr`, as the driver's
-- commands turn them round once more.
pub construct_valid_mac-to_string :
    (b0 b1 b2 b3 b4 b5 : ℕ)
    → AreBytes (b5 ∷ b4 ∷ b3 ∷ b2 ∷ b1 ∷ b0 ∷ [])
    → construct_valid_mac (mac_to_string (b0 ∷ b1 ∷ b2 ∷ b3 ∷ b4 ∷ b5 ∷ [])) []
      ≡ some (true, b5 ∷ b4 ∷ b3 ∷ b2 ∷ b1 ∷ b0 ∷ [])
unfolding mac_to_string parts_of
construct_valid_mac-to_string b0 b1 b2 b3 b4 b5 h =
    construct-parts (mac_to_string (b0 ∷ b1 ∷ b2 ∷ b3 ∷ b4 ∷ b5 ∷ []))
      (parts_of (b5 ∷ b4 ∷ b3 ∷ b2 ∷ b1 ∷ b0 ∷ [])) []
      (substrings_address b5 (b4 ∷ b3 ∷ b2 ∷ b1 ∷ b0 ∷ [])) refl
    ∙ ap (λ r. some r) (push_bytes-parts (b5 ∷ b4 ∷ b3 ∷ b2 ∷ b1 ∷ b0 ∷ []) [] h)

stoi_pair_xdigits :
    (x y : ℕ)
    → is_xdigit x ≡ true
    → is_xdigit y ≡ true
    → stoi_pair x y ≡ some (digit_value x * 16 + digit_value y)
unfolding stoi_pair
stoi_pair_xdigits x y p q = rw (p, q) refl

pairs_agree : (parts : List Bytes) (mac : Bytes) → all_pairs parts ≡ (push_bytes parts mac).0
unfolding all_pairs push_bytes
pairs_agree [] mac = refl
pairs_agree ([] ∷ parts) mac = refl
pairs_agree ((x ∷ []) ∷ parts) mac = refl
pairs_agree ((x ∷ y ∷ []) ∷ parts) mac = elim (Bool-cases (is_xdigit x)) [
  | inl p ↦ elim (Bool-cases (is_xdigit y)) [
    | inl q ↦
        rw (p, q, stoi_pair_xdigits x y p q)
          (pairs_agree parts (mac ++ (digit_value x * 16 + digit_value y) ∷ []))
    | inr q ↦ rw (p, q) refl
  ]
  | inr p ↦ rw p refl
]
pairs_agree ((x ∷ y ∷ z ∷ str) ∷ parts) mac = ground arith

-- `IsValidMAC` and `ConstructValidMAC` accept the same texts.
pub is_valid_mac-construct :
    (str mac : Bytes) → is_valid_mac str ≡ Option.map (λ r. r.0) (construct_valid_mac str mac)
unfolding is_valid_mac construct_valid_mac
is_valid_mac-construct str mac =
    elim (construct_substrings str colon)
      as (λ o.
        elim o [
          | none ↦ none
          | some parts ↦ some (if length parts == 6 then all_pairs parts else false)
        ]
        ≡ Option.map (λ r. r.0)
            (elim o [
              | none ↦ none
              | some parts ↦ some (if length parts == 6 then push_bytes parts mac else (false, mac))
            ])) [
              | none ↦ refl
              | some parts ↦ elim (Bool-cases (length parts == 6)) [
                | inl p ↦ rw p (ap (λ r. some r) (pairs_agree parts mac))
                | inr p ↦ rw p refl
              ]
            ]
