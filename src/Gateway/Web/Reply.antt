-- ===== src/Gateway/Web/Reply.antt =====
-- The replies of BLEGatewayApplication/HTTP_HELPER.cpp. A reply is the values that are printed in
-- it, without the date and the layout of its text.
use io_tblegateway.Common.{
  ◌||◌, ℕ, Bool, Option, none, some, List, [], ◌∷◌, ◌++◌, ◌==◌, if◌then◌else◌, Bytes,
}
use Prim.Native.String.{String}
use io_tblegateway.Gateway.Text.{stoi_digits}
use io_tblegateway.Gateway.Commands.{Shown}
use io_tblegateway.Gateway.Web.Params.{text, iequals, Params, get}
use io_tblegateway.Gateway.Web.Keys.{
  http_body_string, http_statuscode, http_code, accepted_mime, html_content_type, json_content_type,
  appwc_content_type, http_200_ok, http_202_accepted, http_400_bad_req, http_404_not_found,
  http_405_m_not_a, http_406_not_acc, http_500_int_s_error, http_501_not_impl, http_502_bad_gateway,
}

-- `status` is the line behind "Status: ", `allow` the one behind "Allow: ". The lines are those of
-- the table at the start of the body, and the structures are printed behind it.
pub record Reply : Type 0 where
  pub status : Bytes
  pub allow : Option Bytes
  pub content_type : Bytes
  pub lines : List (Bytes × Bytes)
  pub data_list : List Shown

abbrev non_empty : Bytes → Bytes → Bytes
non_empty default [] = default
non_empty default (ch ∷ str) = ch ∷ str

abbrev type_of : Params → Bytes
type_of parameters = non_empty html_content_type (get accepted_mime parameters)

abbrev is_json : Bytes → Bool
is_json type = iequals type json_content_type || iequals type appwc_content_type

-- `PostHTTPStructData`, and `PostHTTPVectorData` up to what is printed behind the table
unfoldable pub post_http_struct_data : List Shown → Params → Reply
unfolding text get iequals
post_http_struct_data data_list parameters = record {
  status = non_empty (text "200 OK") (get http_statuscode parameters);
  allow = none;
  content_type = type_of parameters;
  lines = (text "STATUS", get http_body_string parameters) ∷ [];
  data_list = data_list;
}

-- `CreateHTTPErrorBody`
abbrev error_lines : Bool → Bytes → Bytes → List (Bytes × Bytes)
error_lines json code [] = []
error_lines json code (ch ∷ message) =
    ((if json then code else code ++ text ": "), ch ∷ message) ∷ []

abbrev message_reply : Params → String → String → Option Bytes → Reply
message_reply parameters code status allow = record {
  status = text status;
  allow = allow;
  content_type = type_of parameters;
  lines = error_lines (is_json (type_of parameters)) (text code) (get http_body_string parameters);
  data_list = [];
}

-- The `switch` of `PostHTTPMessage`.
unfoldable pub message_case : Params → ℕ → Reply
unfolding text get iequals
message_case parameters code =
    if code == http_200_ok
    then message_reply parameters "200" "200 OK" none
    else if code == http_202_accepted
    then message_reply parameters "202" "202 Accepted" none
    else if code == http_400_bad_req
    then message_reply parameters "400" "400 Bad Request" none
    else if code == http_404_not_found
    then message_reply parameters "404" "404 Not Found" none
    else if code == http_405_m_not_a
    then message_reply parameters "405" "405 Method Not Allowed"
        (some (get http_body_string parameters))
    else if code == http_406_not_acc
    then message_reply parameters "406" "406 Not Acceptable" none
    else if code == http_500_int_s_error
    then message_reply parameters "500" "500 Internal Server Error" none
    else if code == http_501_not_impl
    then message_reply parameters "501" "501 Not Implemented" none
    else if code == http_502_bad_gateway
    then message_reply parameters "502" "502 Bad Gateway" none
    else message_reply parameters "500" "500 Internal Server Error" none

-- The code is empty or was printed from a number; `none` is an exception of `std::stoi`.
abbrev pub code_number : Bytes → Option ℕ
code_number [] = some http_500_int_s_error
code_number (ch ∷ str) = stoi_digits (ch ∷ str)

unfoldable pub post_http_message : Params → Option Reply
unfolding text get message_case stoi_digits
post_http_message parameters = elim (code_number (get http_code parameters)) [
  | none ↦ none
  | some code ↦ some (message_case parameters code)
]
