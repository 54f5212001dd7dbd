-- ===== src/Daemon/Map/Signals.antt =====
-- A signal between `fork` and the entry of the new child in BLEGatewayDaemon/ble_daemon.c.
use io_tblegateway.Common.{
  ℕ, zero, suc, ◌≡◌, refl, ap, ◌≢◌, false, Option, some, List, [], ◌∷◌, map, arith, ◌==◌,
  if◌then◌else◌, Bytes,
}
use io_tblegateway.Daemon.Map.{NodeToPid, record_child, free, child_exit_handler}

-- A signal for another child than the new one may come before or after the new entry is written,
-- wherever that is: the entries are the same in the end.
pub record_child-child_exit_handler :
    (i pID pid : ℕ) (devnode : Option Bytes) (map : List NodeToPid)
    → pID ≢ pid
    → record_child i pID devnode (child_exit_handler (some pid) map)
      ≡ child_exit_handler (some pid) (record_child i pID devnode map)
unfolding record_child child_exit_handler
record_child-child_exit_handler i pID pid devnode [] other = refl
record_child-child_exit_handler zero pID pid devnode (s ∷ map) other =
    let differs : (pID == pid) ≡ false = ground arith in rw differs refl
record_child-child_exit_handler (suc i) pID pid devnode (s ∷ map) other =
    ap (λ rest. (if s.pid == pid then free s else s) ∷ rest)
      (record_child-child_exit_handler i pID pid devnode map other)
