-- ===== src/Gateway/Parameters/Limits.antt =====
-- What the checked parameters of BLEGatewayApplication/BLE_DRIVER.cpp satisfy.
use io_tblegateway.Common.{
  ◌+◌, ◌⊎◌, ◌*◌, ◌≤◌, ◌≡◌, refl, ◌∙◌, inl, inr, Bool, true, false, not, ◌||◌, arith, leb,
  Bool-cases,
}
use io_tblegateway.Gateway.Parameters.{
  ConnectionParameters, bad_interval, bad_timeout, bad_latency, reset_interval, reset_timeout,
  reset_latency, check_connection_parameters, DiscoverParameters, good_scan,
  check_discover_parameters,
}

abbrev IntervalOk : ConnectionParameters → Type 0
IntervalOk p =
    (6 ≤ p.conn_interval_min)
    × (p.conn_interval_min ≤ p.conn_interval_max)
    × (p.conn_interval_max ≤ 3200)

abbrev TimeoutOk : ConnectionParameters → Type 0
TimeoutOk p = (10 ≤ p.timeout) × (p.timeout ≤ 3200) × (p.conn_interval_max * 5 ≤ p.timeout * 40)

abbrev LatencyOk : ConnectionParameters → Type 0
LatencyOk p = (p.slave_latency ≤ 500) × (p.slave_latency * p.conn_interval_max * 5 ≤ p.timeout * 40)

-- the limits of each parameter, and of the latency and the interval to the timeout
abbrev WithinBounds : ConnectionParameters → Type 0
WithinBounds p = IntervalOk p × TimeoutOk p × LatencyOk p

-- The interval's bounds are 0x10 apart, as the first test wants them, or both are 0x4c, which it
-- refuses.
abbrev GapOrReset : ConnectionParameters → Type 0
GapOrReset p =
    (p.conn_interval_min + 0x10 ≤ p.conn_interval_max)
    ⊎ ((p.conn_interval_min ≡ 0x4c) × (p.conn_interval_max ≡ 0x4c) × (p.timeout ≡ 0x64))

abbrev pub WithinLimits : ConnectionParameters → Type 0
WithinLimits p = WithinBounds p × GapOrReset p

reset-IntervalOk : (p : ConnectionParameters) → IntervalOk (reset_interval p)
reset-IntervalOk p = elim (Bool-cases (bad_interval p)) [
  | inl e ↦ rw e (omega arith, omega arith, omega arith)
  | inr e ↦ rw e (ground arith, ground arith, ground arith)
]

reset-gap :
    (p : ConnectionParameters)
    → (reset_interval p).conn_interval_min + 0x10 ≤ (reset_interval p).conn_interval_max
reset-gap p = elim (Bool-cases (bad_interval p)) [
  | inl e ↦ rw e (omega arith)
  | inr e ↦ rw e (ground arith)
]

reset-TimeoutOk :
    (p : ConnectionParameters)
    → IntervalOk p
    → p.conn_interval_min + 0x10 ≤ p.conn_interval_max
    → IntervalOk (reset_timeout p) × TimeoutOk (reset_timeout p) × GapOrReset (reset_timeout p)
reset-TimeoutOk p ok gap = elim (Bool-cases (bad_timeout p)) [
  | inl e ↦ rw e (
    (omega arith, omega arith, omega arith),
    (omega arith, omega arith, omega arith),
    inr (refl, refl, refl),
  )
  | inr e ↦ rw e (ok, (ground arith, ground arith, ground arith), inl gap)
]

reset-LatencyOk :
    (p : ConnectionParameters)
    → IntervalOk p
    → TimeoutOk p
    → GapOrReset p
    → WithinLimits (reset_latency p)
reset-LatencyOk p ok time gap = elim (Bool-cases (bad_latency p)) [
  | inl e ↦ rw e (
    (
      (omega arith, omega arith, omega arith),
      (omega arith, omega arith, omega arith),
      (omega arith, omega arith),
    ),
    inr (refl, refl, refl),
  )
  | inr e ↦ rw e ((ok, time, (ground arith, ground arith)), gap)
]

-- Whatever parameters a connection is asked for with, those that are used are within the limits:
-- the interval from 6 to 3200 with its bounds in order, the timeout from 10 to 3200 and not below
-- the longest interval, the latency at most 500 and, times that interval, not above the timeout.
-- The bounds of the interval are 0x10 apart, which the first test asks for, or both are 0x4c with
-- the timeout 0x64, after a reset that this test would refuse.
pub check_connection-WithinLimits :
    (p : ConnectionParameters) → WithinLimits (check_connection_parameters p).1
unfolding check_connection_parameters
check_connection-WithinLimits p =
    let a = reset_interval p in
    let ok = reset-TimeoutOk a (reset-IntervalOk p) (reset-gap p) in
    reset-LatencyOk (reset_timeout a) ok.0 ok.1 ok.2

none_bad : (x y z : Bool) → not (x || (y || z)) ≡ true → (x ≡ false) × (y ≡ false) × (z ≡ false)
none_bad x y z h = (ground arith, ground arith, ground arith)

-- Parameters that are found to be correct are left as they are.
check_connection-kept :
    (p : ConnectionParameters)
    → (check_connection_parameters p).0 ≡ true
    → (check_connection_parameters p).1 ≡ p
unfolding check_connection_parameters
check_connection-kept p h =
    let a = reset_interval p in
    let good = none_bad (bad_interval p) (bad_timeout a) (bad_latency (reset_timeout a)) h in
    let same_a : a ≡ p = rw good.0 refl in
    let same_b : reset_timeout a ≡ a = rw good.1 refl in
    let same_e : reset_latency (reset_timeout a) ≡ reset_timeout a = rw good.2 refl in
    same_e ∙ same_b ∙ same_a

abbrev ScanLimits : DiscoverParameters → Type 0
ScanLimits p =
    (p.discover_mode ≤ 3)
    × (4 ≤ p.scan_window)
    × (p.scan_window ≤ p.scan_interval)
    × (p.scan_interval ≤ 0x4000)

-- The parameters that a discovery uses are within the limits of BGAPI.
check_discover-ScanLimits : (p : DiscoverParameters) → ScanLimits (check_discover_parameters p).1
unfolding check_discover_parameters
check_discover-ScanLimits p = elim (Bool-cases (good_scan p)) [
  | inl e ↦ rw e (elim (Bool-cases (leb p.discover_mode 3)) [
    | inl f ↦ rw f (ground arith, ground arith, ground arith, ground arith)
    | inr f ↦ rw f (omega arith, ground arith, ground arith, ground arith)
  ])
  | inr e ↦ rw e (elim (Bool-cases (leb p.discover_mode 3)) [
    | inl f ↦ rw f (ground arith, omega arith, omega arith, omega arith)
    | inr f ↦ rw f (omega arith, omega arith, omega arith, omega arith)
  ])
]
