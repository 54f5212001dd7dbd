-- ===== src/Daemon/Map.antt =====
-- The global `map` of BLEGatewayDaemon/ble_daemon.c and the loops over it.
pub mod Live
pub mod Signals
use io_tblegateway.Common.{
  ℕ, zero, suc, Bool, true, false, ◌&&◌, Option, none, some, List, [], ◌∷◌, map, ◌==◌,
  if◌then◌else◌, Bytes,
}

-- `MAX_DEVICE_NR`
abbrev pub max_device_nr : ℕ
max_device_nr = 20

-- `NodeToPid`: `key` is a C string or NULL, `used` is only ever 0 or 1.
pub record NodeToPid : Type 0 where
  pub key : Option Bytes
  pub pid : ℕ
  pub used : Bool

-- the entries as a global starts
unfoldable pub cleared : ℕ → List NodeToPid
cleared zero = []
cleared (suc n) = record { key = none; pid = 0; used = false } ∷ cleared n

-- `strcmp(a, b) == 0`
unfoldable pub same_string : Bytes → Bytes → Bool
same_string [] [] = true
same_string [] (y ∷ ys) = false
same_string (x ∷ xs) [] = false
same_string (x ∷ xs) (y ∷ ys) = (x == y) && same_string xs ys

-- `while (map[i].used && i < MAX_DEVICE_NR) i++;` over the entries. When all are used, the loop
-- also reads the entry behind the last one, whose value changes nothing: `i` is then the bound.
unfoldable pub next_free : List NodeToPid → ℕ
next_free [] = 0
next_free (s ∷ map) = let i = next_free map in if s.used then suc i else 0

-- `map[i].used = 1; map[i].pid = pID; map[i].key = node;`
unfoldable pub record_child : ℕ → ℕ → Option Bytes → List NodeToPid → List NodeToPid
record_child i pID devnode [] = []
record_child zero pID devnode (s ∷ map) = record { key = devnode; pid = pID; used = true } ∷ map
record_child (suc i) pID devnode (s ∷ map) = s ∷ record_child i pID devnode map

unfoldable pub free : NodeToPid → NodeToPid
free s = record s { used = false }

-- the loop of `child_exit_handler`, for what `wait3` returns: -1 is the id of no entry
unfoldable pub child_exit_handler : Option ℕ → List NodeToPid → List NodeToPid
unfolding free
child_exit_handler none map = map
child_exit_handler (some pid) [] = []
child_exit_handler (some pid) (s ∷ map) =
    let rest = child_exit_handler (some pid) map in (if s.pid == pid then free s else s) ∷ rest

-- The test of the loop for "remove": `strcmp` of NULL is undefined.
unfoldable pub is_at : Option Bytes → Bool → Option Bytes → Option Bool
unfolding same_string
is_at none used devnode = some false
is_at (some n) false devnode = some false
is_at (some n) true none = none
is_at (some n) true (some m) = some (same_string n m)

unfoldable pub remove_entry : NodeToPid → Bool → List NodeToPid × List ℕ → List NodeToPid × List ℕ
unfolding free
remove_entry s true (map, killed) = (free s ∷ map, s.pid ∷ killed)
remove_entry s false (map, killed) = (s ∷ map, killed)

abbrev pub after_test :
    NodeToPid → Option Bool → Option (List NodeToPid × List ℕ) → Option (List NodeToPid × List ℕ)
after_test s (some hit) (some rest) = some (remove_entry s hit rest)
after_test s none rest = none
after_test s (some hit) none = none

-- the loop for "remove": the entries after it, and the ids that `kill` was called with
unfoldable pub remove_node : Option Bytes → List NodeToPid → Option (List NodeToPid × List ℕ)
remove_node devnode [] = some ([], [])
remove_node devnode (s ∷ map) = after_test s (is_at s.key s.used devnode) (remove_node devnode map)
