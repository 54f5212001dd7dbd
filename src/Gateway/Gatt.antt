-- ===== src/Gateway/Gatt.antt =====
-- `GetGATTDescriptions` of BLEGatewayApplication/GATT_SPECIFICATIONS.cpp.
mod First
mod Second
use io_tblegateway.Common.{ℕ, List, [], ◌∷◌, ◌++◌, ◌==◌, if◌then◌else◌}
use Prim.Native.String.{String}
use io_tblegateway.Gateway.Gatt.First.{first_descriptions}
use io_tblegateway.Gateway.Gatt.Second.{second_descriptions}

-- The value of the case for a code, or that of `default`.
unfoldable pub case_of : ℕ → List (ℕ × String) → String → String
case_of code [] default = default
case_of code (row ∷ rows) default = if code == row.0 then row.1 else case_of code rows default

unfoldable pub get_gatt_descriptions : ℕ → String
unfolding case_of
get_gatt_descriptions code = case_of code (first_descriptions ++ second_descriptions) ""
