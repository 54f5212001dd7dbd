-- ===== src/Daemon/Events.antt =====
-- One event of udev in the loop of `main` of BLEGatewayDaemon/ble_daemon.c. libudev and `fork` are
-- parameters: the device that is received, and the id that `fork` returns, `none` for an error.
pub mod Changes
pub mod Clients
use io_tblegateway.Common.{
  ℕ, Bool, false, ◌&&◌, Option, none, some, List, [], ◌∷◌, map, ltb, if◌then◌else◌, Bytes,
}
use io_tblegateway.Daemon.Map.{
  max_device_nr, NodeToPid, same_string, next_free, record_child, remove_node,
}

-- the part of the command line that the parent uses
pub record Args : Type 0 where
  pub vendor_id : Bytes
  pub product_id : Bytes

-- What udev tells of a device; strings may be NULL. `usb_device` has the ids of its parent.
pub record Device : Type 0 where
  pub action : Option Bytes
  pub devnode : Option Bytes
  pub usb_device : Option (Option Bytes × Option Bytes)

-- The daemon's side of an event: the entries after it, the child that was forked, and the ids
-- killed; or the daemon's exit; or undefined behaviour. What the child does is not said: `execv`
-- gets an array without a NULL at its end, and may read anything behind it.
pub data Outcome : Type 0 where
  goes_on : List NodeToPid → Option ℕ → List ℕ → Outcome
  exits : ℕ → Outcome
  undefined : Outcome

-- `s != NULL && strcmp(s, t) == 0`
unfoldable pub is_string : Option Bytes → Bytes → Bool
unfolding same_string
is_string none t = false
is_string (some s) t = same_string s t

-- "add" and "remove"
abbrev pub add : Bytes
add = 97 ∷ 100 ∷ 100 ∷ []

abbrev pub remove : Bytes
remove = 114 ∷ 101 ∷ 109 ∷ 111 ∷ 118 ∷ 101 ∷ []

-- the parent's branches
unfoldable pub after_fork : Option Bytes → ℕ → Option ℕ → List NodeToPid → Outcome
after_fork devnode i none map = goes_on map none []
after_fork devnode i (some pID) map = goes_on (record_child i pID devnode map) (some pID) []

unfoldable pub start_client : Option Bytes → Option ℕ → List NodeToPid → Outcome
unfolding after_fork
start_client devnode pID map =
    let i = next_free map in
    if ltb i max_device_nr then after_fork devnode i pID map else goes_on map none []

unfoldable pub on_add :
    Args → Device → Option (Option Bytes × Option Bytes) → Option ℕ → List NodeToPid → Outcome
unfolding is_string start_client
on_add args dev none pID map = exits 1
on_add args dev (some (v_id, p_id)) pID map =
    if is_string v_id args.vendor_id && is_string p_id args.product_id
    then start_client dev.devnode pID map
    else goes_on map none []

abbrev pub after_remove : Option (List NodeToPid × List ℕ) → Outcome
after_remove none = undefined
after_remove (some (map, killed)) = goes_on map none killed

unfoldable pub on_device : Args → Option Device → Option ℕ → List NodeToPid → Outcome
unfolding on_add is_string
on_device args none pID map = goes_on map none []
on_device args (some dev) pID map =
    if is_string dev.action add
    then on_add args dev dev.usb_device pID map
    else if is_string dev.action remove
    then after_remove (remove_node dev.devnode map)
    else goes_on map none []
