-- ===== src/Gateway/Parameters.antt =====
-- The checks of parameters of BLEGatewayApplication/BLE_DRIVER.cpp. Intervals are in units of 1.25
-- ms, the timeout in units of 10 ms.
pub mod Limits
use io_tblegateway.Common.{◌||◌, ℕ, ◌+◌, ◌-◌, ◌*◌, Bool, not, ◌&&◌, ltb, leb, if◌then◌else◌}

pub record ConnectionParameters : Type 0 where
  pub conn_interval_min : ℕ
  pub conn_interval_max : ℕ
  pub timeout : ℕ
  pub slave_latency : ℕ

-- `connIntervalMax - 0x10 < connIntervalMin` is a comparison of `int`; products with 1.25 are exact,
-- and both sides are taken four times.
abbrev pub bad_interval : ConnectionParameters → Bool
bad_interval p =
    ltb p.conn_interval_min 6
    || ltb 3200 p.conn_interval_max
    || ltb p.conn_interval_max (p.conn_interval_min + 0x10)

abbrev pub bad_timeout : ConnectionParameters → Bool
bad_timeout p =
    ltb p.timeout 10 || ltb 3200 p.timeout || ltb (p.timeout * 40) (p.conn_interval_max * 5)

abbrev pub bad_latency : ConnectionParameters → Bool
bad_latency p =
    ltb 500 p.slave_latency || ltb (p.timeout * 40) (p.slave_latency * p.conn_interval_max * 5)

-- The three resets, in their order.
abbrev pub reset_interval : ConnectionParameters → ConnectionParameters
reset_interval p =
    if bad_interval p
    then record p { conn_interval_max = 0x4c; conn_interval_min = 0x4c - 0x10 }
    else p

abbrev pub reset_timeout : ConnectionParameters → ConnectionParameters
reset_timeout p =
    if bad_timeout p
    then record p { timeout = 0x64; conn_interval_max = 0x4c; conn_interval_min = 0x4c }
    else p

abbrev pub reset_latency : ConnectionParameters → ConnectionParameters
reset_latency p =
    if bad_latency p
    then record {
      timeout = 0x64;
      conn_interval_max = 0x4c;
      conn_interval_min = 0x4c;
      slave_latency = 0;
    }
    else p

unfoldable pub check_connection_parameters : ConnectionParameters → Bool × ConnectionParameters
check_connection_parameters p =
    let a = reset_interval p in
    let b = reset_timeout a in
    (not (bad_interval p || (bad_timeout a || bad_latency b)), reset_latency b)

pub record DiscoverParameters : Type 0 where
  pub discover_mode : ℕ
  pub scan_interval : ℕ
  pub scan_window : ℕ

abbrev pub good_scan : DiscoverParameters → Bool
good_scan p =
    leb 0x4 p.scan_interval
    && (leb p.scan_interval 0x4000 && (leb 0x4 p.scan_window && leb p.scan_window p.scan_interval))

unfoldable pub check_discover_parameters : DiscoverParameters → Bool × DiscoverParameters
check_discover_parameters p =
    let a = if good_scan p then p else record p { scan_interval = 0x4B; scan_window = 0x32 } in
    let b = if leb a.discover_mode 3 then a else record a { discover_mode = 1 } in
    (good_scan p && leb a.discover_mode 3, b)
