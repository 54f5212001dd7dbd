-- ===== src/Gateway/Web/Ready.antt =====
-- What BLEGatewayApplication/HTTP_HELPER.cpp leaves in the parameters of a request.
use io_tblegateway.Common.{
  ap, ℕ, ◌≡◌, refl, ◌⊎◌, inl, inr, Bool, false, Option, none, some, List, [], ◌∷◌, ◌&&◌, arith,
  ◌==◌, if◌then◌else◌, Bool-cases, Bytes, length,
}
use Prim.Native.String.{String}
use io_tblegateway.Gateway.Text.{
  construct_substrings, is_valid_integer, is_valid_mac, all_pairs, stoi_digits,
}
use io_tblegateway.Gateway.Text.Split.{fields, construct_substrings-fields}
use io_tblegateway.Gateway.Web.Params.{text, iequals, to_string, Params, get, set}
use io_tblegateway.Gateway.Web.Keys.{
  command_key, http_code, cmd_error, cmd_options, cmd_discovered, cmd_connected, cmd_gw_overview,
  cmd_dongle_overview,
}
use io_tblegateway.Gateway.Web.Uri.{
  http_get, http_put, http_delete, http_options, discovered_devices, connected_devices,
  other_method, only_get, device_method, attribute_method, bad_request, two_parts, three_parts,
  by_parts, parse_uri, get_options, discover_options, device_options, attribute_options,
  not_a_device, not_an_attribute, invalid_syntax,
}
use io_tblegateway.Gateway.Web.Reply.{code_number}

abbrev pub Coded : Params → Type 0
Coded ps = (n : ℕ) × (code_number (get http_code ps) ≡ some n)

-- The command is a number, and it comes with a status code if it needs no driver.
abbrev pub Ready : Params → Type 0
Ready ps =
    (id : ℕ) × (stoi_digits (get command_key ps) ≡ some id)
    × ((id ≡ cmd_error) ⊎ (id ≡ cmd_options) → Coded ps)

abbrev pub ReadyIn : Option Params → Type 0
ReadyIn none = ⊥
ReadyIn (some ps) = Ready ps

Ready-if : (b : Bool) (x y : Params) → Ready x → Ready y → Ready (if b then x else y)
Ready-if b x y h k = elim (Bool-cases b) [ inl e ↦ rw e h | inr e ↦ rw e k ]

other_method-Ready :
    (described allowed : String) (request_method : Bytes) (result : Params)
    → Ready (other_method described allowed request_method result)
unfolding text get other_method stoi_digits
other_method-Ready described allowed request_method result =
    Ready-if (iequals request_method http_options) _ _ (10, refl, λ f. (3, refl))
      (9, refl, λ f. (18, refl))

only_get-Ready :
    (id : ℕ) (described : String) (request_method : Bytes) (result : Params)
    → Ready (set command_key (to_string id) result)
    → Ready (only_get id described request_method result)
unfolding text only_get
only_get-Ready id described request_method result h =
    Ready-if (iequals request_method http_get) _ _ h
      (other_method-Ready described "GET, OPTIONS" request_method result)

device_method-Ready :
    (uri_command request_method : Bytes) (result : Params)
    → Ready (device_method uri_command request_method result)
unfolding text get stoi_digits device_method
device_method-Ready uri_command request_method result =
    Ready-if (iequals request_method http_get) _ _ (2, refl, λ f. ground arith)
      (Ready-if (iequals request_method http_put) _ _ (5, refl, λ f. ground arith)
        (Ready-if (iequals request_method http_delete) _ _ (6, refl, λ f. ground arith)
          (other_method-Ready device_options "GET, PUT, DELETE, OPTIONS" request_method result)))

attribute_method-Ready :
    (uri_command attribute_id request_method : Bytes) (result : Params)
    → Ready (attribute_method uri_command attribute_id request_method result)
unfolding text get stoi_digits attribute_method
attribute_method-Ready uri_command attribute_id request_method result =
    Ready-if (iequals request_method http_get) _ _ (8, refl, λ f. ground arith)
      (Ready-if (iequals request_method http_put) _ _ (7, refl, λ f. ground arith)
        (other_method-Ready attribute_options "GET, PUT, OPTIONS" request_method result))

bad_request-Ready :
    (request_uri : Bytes) (message : String) (result : Params)
    → Ready (bad_request request_uri message result)
unfolding text get stoi_digits
bad_request-Ready request_uri message result = (9, refl, λ f. (13, refl))

-- Splitting ends, and so does the test of an address.
pub split-Done :
    (str : Bytes) (d : ℕ) → (parts : List Bytes) × (construct_substrings str (d ∷ []) ≡ some parts)
split-Done str d = (fields d [] str, construct_substrings-fields str d)

valid_mac-Done : (str : Bytes) → (valid : Bool) × (is_valid_mac str ≡ some valid)
unfolding is_valid_mac
valid_mac-Done str =
    let r = split-Done str b':' in
    (
      (if length r.0 == 6 then all_pairs r.0 else false),
      ap
          (λ o. elim o [
            | none ↦ none
            | some parts ↦ some (if length parts == 6 then all_pairs parts else false)
          ])
          r.1,
    )

two_parts-Ready :
    (request_uri uri_command request_method : Bytes) (result : Params)
    → ReadyIn (two_parts request_uri uri_command request_method result)
unfolding text get stoi_digits two_parts
two_parts-Ready request_uri uri_command request_method result =
    elim (Bool-cases (iequals uri_command discovered_devices)) [
      | inl e ↦ rw e (
          only_get-Ready cmd_discovered discover_options request_method result
            (4, refl, λ f. ground arith))
      | inr e ↦ rw e (elim (Bool-cases (iequals uri_command connected_devices)) [
        | inl g ↦ rw g (
            only_get-Ready cmd_connected get_options request_method result
              (3, refl, λ f. ground arith))
        | inr g ↦
            let r = valid_mac-Done uri_command in
            rw (g, r.1)
              (Ready-if r.0 _ _ (device_method-Ready uri_command request_method result)
                (bad_request-Ready request_uri not_a_device result))
      ])
    ]

three_parts-Ready :
    (request_uri uri_command attribute_id request_method : Bytes) (result : Params)
    → ReadyIn (three_parts request_uri uri_command attribute_id request_method result)
unfolding three_parts
three_parts-Ready request_uri uri_command attribute_id request_method result =
    let r = valid_mac-Done uri_command in
    rw (r.1, three_parts, ReadyIn)
      (Ready-if (r.0 && is_valid_integer attribute_id) _ _
        (attribute_method-Ready uri_command attribute_id request_method result)
        (bad_request-Ready request_uri not_an_attribute result))

by_parts-Ready :
    (request_uri request_method : Bytes) (parts : List Bytes) (result : Params)
    → ReadyIn (by_parts request_uri request_method parts result)
unfolding text get stoi_digits by_parts
by_parts-Ready request_uri request_method [] result =
    only_get-Ready cmd_gw_overview get_options request_method result (0, refl, λ f. ground arith)
by_parts-Ready request_uri request_method (dongle ∷ []) result =
    only_get-Ready cmd_dongle_overview get_options request_method result
      (1, refl, λ f. ground arith)
by_parts-Ready request_uri request_method (dongle ∷ uri_command ∷ []) result =
    two_parts-Ready request_uri uri_command request_method result
by_parts-Ready request_uri request_method (dongle ∷ uri_command ∷ attribute_id ∷ []) result =
    three_parts-Ready request_uri uri_command attribute_id request_method result
by_parts-Ready request_uri request_method (a ∷ b ∷ k ∷ d ∷ parts) result =
    bad_request-Ready request_uri invalid_syntax result

pub parse_uri-Ready :
    (request_uri request_method : Bytes) (result : Params)
    → ReadyIn (parse_uri request_uri request_method result)
unfolding parse_uri
parse_uri-Ready request_uri request_method result =
    let r = split-Done request_uri b'/' in
    rw (r.1, three_parts, ReadyIn) (by_parts-Ready request_uri request_method r.0 result)
