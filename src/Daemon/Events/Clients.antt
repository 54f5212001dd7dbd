-- ===== src/Daemon/Events/Clients.antt =====
-- What "add" and "remove" of a dongle do to the clients that count as running.
use io_tblegateway.Common.{
  ℕ, ◌<◌, ◌≡◌, refl, sym, ◌∙◌, true, false, Option, none, some, List, [], ◌∷◌, ◌++◌, map, arith,
  ltb, Bytes, length,
}
use io_tblegateway.Daemon.Map.{max_device_nr, NodeToPid, same_string, next_free, record_child}
use io_tblegateway.Daemon.Map.Live.{
  next_free-full, next_free-room, live-record_child, Client, live, without, selected, at_node,
  remove_node-Removed, same_string_iff,
}
use io_tblegateway.Daemon.Events.{
  Args, Device, goes_on, add, remove, is_string, on_device, start_client, on_add, after_fork,
}

-- a dongle that the daemon was started for is plugged in, or is pulled out
pub record Adds (args : Args) (dev : Device) : Type 0 where
  pub action : dev.action ≡ some add
  pub ids : dev.usb_device ≡ some (some args.vendor_id, some args.product_id)

pub record Removes (dev : Device) (node : Bytes) : Type 0 where
  pub action : dev.action ≡ some remove
  pub devnode : dev.devnode ≡ some node

-- The child is forked, and its client is put between those that run.
pub record Started (args : Args) (dev : Device) (pID : ℕ) (map : List NodeToPid) : Type 0 where
  pub after : List NodeToPid
  pub front : List Client
  pub back : List Client
  pub ends : on_device args (some dev) (some pID) map ≡ goes_on after (some pID) []
  pub free : after ≡ record_child (next_free map) pID dev.devnode map
  pub before : live map ≡ front ++ back
  pub grown : live after ≡ front ++ ((dev.devnode, pID) ∷ back)

same_self : (a : Bytes) → same_string a a ≡ true
same_self a = (same_string_iff a a).1 refl

module _ {args : Args} {dev : Device} (h : Adds args dev) where
  on_device-add :
      (pID : Option ℕ) (map : List NodeToPid)
      → on_device args (some dev) pID map ≡ start_client dev.devnode pID map
  unfolding on_device is_string on_add
  on_device-add pID map =
      rw (h.action, h.ids, same_self args.vendor_id, same_self args.product_id) refl

  -- A dongle that the daemon was started for is plugged in, `fork` succeeds and `map` has its 20
  -- entries, not all in use: the daemon records the child with the device's node, in the first free
  -- entry, as one more client that runs. All others stay, in their order, and none is killed.
  pub add-client :
      (pID : ℕ) (map : List NodeToPid)
      → length map ≡ max_device_nr
      → length (live map) < max_device_nr
      → Started args dev pID map
  unfolding start_client after_fork
  add-client pID map size room =
      let at : next_free map < length map = next_free-room map (rw size room) in
      let (front, back, before, after) = live-record_child pID dev.devnode map at in
      let small : ltb (next_free map) max_device_nr ≡ true = ground (arith, size) in
      record {
        after = record_child (next_free map) pID dev.devnode map;
        front = front;
        back = back;
        ends = on_device-add (some pID) map ∙ rw small refl;
        free = refl;
        before = before;
        grown = after;
      }

  -- A dongle is plugged in while `map` has its 20 entries and every one is in use: no client is
  -- started, and nothing changes, whatever `fork` would return.
  pub add-full :
      (pID : Option ℕ) (map : List NodeToPid)
      → length map ≡ max_device_nr
      → length (live map) ≡ max_device_nr
      → on_device args (some dev) pID map ≡ goes_on map none []
  unfolding start_client
  add-full pID map size full =
      let at : next_free map ≡ length map = (next_free-full map).1 (full ∙ sym size) in
      let big : ltb (next_free map) max_device_nr ≡ false = ground (arith, size) in
      on_device-add pID map ∙ rw big refl

-- "remove" of a device with a node kills the clients of that node, and no others, and counts just
-- those as gone.
pub remove-clients :
    (args : Args) (pID : Option ℕ) (map : List NodeToPid) {dev : Device} {node : Bytes}
    → Removes dev node
    → (map' : List NodeToPid) × (on_device args (some dev) pID map
        ≡ goes_on map' none (selected (at_node node) (live map)))
      × (live map' ≡ without (at_node node) (live map))
unfolding on_device is_string
remove-clients args pID map {dev} {node} h =
    let r = remove_node-Removed node map in
    (r.after, rw (h.action, h.devnode, r.kills) refl, r.stays)
