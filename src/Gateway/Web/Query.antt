-- ===== src/Gateway/Web/Query.antt =====
-- `ParseQueryString` of BLEGatewayApplication/HTTP_HELPER.cpp. `none` is a loop that does not end.
use io_tblegateway.Common.{Option, none, some, List, [], ◌∷◌, Bytes}
use io_tblegateway.Gateway.Text.{construct_substrings}
use io_tblegateway.Gateway.Web.Params.{to_upper, Params, set}

-- A part with a name and a value; others are left out.
unfoldable pub put_values : List Bytes → Params → Params
put_values (name ∷ value ∷ []) result = set (to_upper name) value result
put_values _ result = result

unfoldable pub put_parameters : List Bytes → Params → Option Params
unfolding put_values
put_parameters [] result = some result
put_parameters (p ∷ parameters) result = elim (construct_substrings p (b'=' ∷ [])) [
  | none ↦ none
  | some values ↦ put_parameters parameters (put_values values result)
]

unfoldable pub parse_query_string : Bytes → Params → Option Params
unfolding put_parameters
parse_query_string query_string result = elim (construct_substrings query_string (b'&' ∷ [])) [
  | none ↦ none
  | some parameters ↦ put_parameters parameters result
]
