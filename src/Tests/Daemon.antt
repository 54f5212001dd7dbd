-- ===== src/Tests/Daemon.antt =====
-- Runs of BLEGatewayDaemon/ble_daemon.c.
use io_tblegateway.Common.{ℕ, zero, suc, ◌≡◌, refl, true, none, some, List, [], ◌∷◌, arith, Bytes}
use io_tblegateway.Daemon.Map.{
  is_at, remove_entry, max_device_nr, NodeToPid, cleared, next_free, record_child,
  child_exit_handler, remove_node,
}
use io_tblegateway.Daemon.Map.Live.{
  live, without, selected, has_pid, at_node, live-child_exit_handler,
}
use io_tblegateway.Daemon.Map.Signals.{record_child-child_exit_handler}
use io_tblegateway.Daemon.Events.{Args, Device, goes_on, add, remove, on_device}
use io_tblegateway.Daemon.Events.Clients.{Started, add-client, remove-clients}
use io_tblegateway.Daemon.Processes.{System, Step, Reach, AllMember}
use io_tblegateway.Daemon.Processes.Owned.{Inv, Reach-Inv, kills-own}

-- "2458", "0001"
abbrev args : Args
args = record { vendor_id = 50 ∷ 52 ∷ 53 ∷ 56 ∷ []; product_id = 48 ∷ 48 ∷ 48 ∷ 49 ∷ [] }

-- "/0"
abbrev node : Bytes
node = 47 ∷ 48 ∷ []

abbrev plugged : Device
plugged = record {
  action = some add;
  devnode = some node;
  usb_device = some (some args.vendor_id, some args.product_id);
}

abbrev pulled : Device
pulled = record { action = some remove; devnode = some node; usb_device = none }

abbrev busy : ℕ → NodeToPid
busy pid = record { key = some node; pid = pid; used = true }

abbrev full : ℕ → List NodeToPid
full zero = []
full (suc n) = busy n ∷ full n

abbrev one : List NodeToPid
unfolding cleared
one = busy 31 ∷ cleared 19

add-client_example : Started args plugged 77 one
unfolding live cleared
add-client_example = add-client (record { action = refl; ids = refl }) 77 one refl (omega arith)

remove-clients_example :
    (map' : List NodeToPid) × (on_device args (some pulled) none one
      ≡ goes_on map' none (selected (at_node node) (live one)))
    × (live map' ≡ without (at_node node) (live one))
remove-clients_example = remove-clients args none one (record { action = refl; devnode = refl })

remove_kills : selected (at_node node) (live one) ≡ 31 ∷ []
unfolding selected at_node live cleared
remove_kills = refl

live-child_exit_handler_example :
    live (child_exit_handler (some 31) one) ≡ without (has_pid 31) (live one)
live-child_exit_handler_example = live-child_exit_handler 31 one

abbrev empty : System
empty = record { map = cleared max_device_nr; children = [] }

abbrev started : System
unfolding cleared
started = record { map = one; children = 31 ∷ [] }

reached : Reach args started
unfolding cleared on_device next_free record_child
reached = Reach.steps Reach.starts (Step.event (some plugged) (some 31) refl)

Reach-Inv_example : Inv started
Reach-Inv_example = Reach-Inv reached

kills-own_example : AllMember (31 ∷ []) (31 ∷ [])
unfolding on_device remove_node cleared is_at remove_entry
kills-own_example = kills-own (some pulled) none reached refl

record_child-child_exit_handler_example :
    record_child 1 77 (some node) (child_exit_handler (some 31) one)
    ≡ child_exit_handler (some 31) (record_child 1 77 (some node) one)
record_child-child_exit_handler_example =
    record_child-child_exit_handler 1 77 31 (some node) one (λ e. absurd (omega arith))
