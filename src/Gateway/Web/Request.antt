-- ===== src/Gateway/Web/Request.antt =====
-- `ProcessHTTPRequest` of BLEGatewayApplication/HTTP_HELPER.cpp.
use io_tblegateway.Common.{Option, none, some, List, [], ◌∷◌, Bytes}
use io_tblegateway.Gateway.Text.{construct_substrings}
use io_tblegateway.Gateway.Web.Params.{text, to_string, ◌>>=◌, Params, set}
use io_tblegateway.Gateway.Web.Keys.{
  command_key, http_body_string, http_code, cmd_error, http_400_bad_req,
}
use io_tblegateway.Gateway.Web.Uri.{parse_uri}
use io_tblegateway.Gateway.Web.Query.{parse_query_string}
use io_tblegateway.Gateway.Web.Accept.{Floats, parse_accept_header}

-- What `FCGX_GetParam` gives for the four variables that are read; a missing one reads as the empty
-- text.
pub record Request : Type 0 where
  pub request_uri : Bytes
  pub query_string : Bytes
  pub request_method : Bytes
  pub http_accept : Bytes

-- `ParseURI(uri.at(0), ...)`; `none` is the exception of `at`, too, which nothing catches.
abbrev pub first_part : List Bytes → Bytes → Params → Option Params
first_part [] request_method result = none
first_part (path ∷ uri) request_method result = parse_uri path request_method result

-- The path without its query, and the parameters of the query.
unfoldable pub parse_path : Bytes → Bytes → Bytes → Params → Option Params
parse_path request_uri [] request_method result = parse_uri request_uri request_method result
parse_path request_uri (ch ∷ query) request_method result = do
  parameters ← parse_query_string (ch ∷ query) result
  uri ← construct_substrings request_uri (b'?' ∷ [])
  first_part uri request_method parameters

abbrev pub no_uri : Params → Params
no_uri result =
    set http_body_string (text ": Could not be parsed")
      (set http_code (to_string http_400_bad_req) (set command_key (to_string cmd_error) result))

unfoldable pub process_http_request : Floats → Request → Params → Option Params
unfolding text parse_path
process_http_request fl wr result = elim wr.request_uri [
  | [] ↦ some (no_uri result)
  | ch ∷ uri ↦ do
    parsed ← parse_path (ch ∷ uri) wr.query_string wr.request_method result
    parse_accept_header fl wr.http_accept parsed
]
