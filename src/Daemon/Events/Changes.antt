-- ===== src/Daemon/Events/Changes.antt =====
-- What an event of udev does to the entries and to the clients that count as running.
use io_tblegateway.Common.{
  ℕ, ◌<◌, ◌≡◌, refl, ◌⊎◌, inl, inr, Bool, true, false, ◌&&◌, Option, none, some, List, [], ◌∷◌, map,
  arith, ltb, Bool-cases, Bytes,
}
use io_tblegateway.Daemon.Map.{
  max_device_nr, NodeToPid, next_free, record_child, is_at, remove_entry, after_test, remove_node,
}
use io_tblegateway.Daemon.Map.Live.{live, selected, at_node, Removed, remove_node-Removed}
use io_tblegateway.Daemon.Events.{
  Args, Device, Outcome, goes_on, exits, undefined, after_remove, add, remove, is_string, on_device,
  start_client, on_add, after_fork,
}

-- The ways in which the daemon's handling of an event can end.
pub data Ends (args : Args) (map : List NodeToPid) : Outcome → Type 0 where
  same : Ends args map (goes_on map none [])
  recorded :
      (devnode : Option Bytes) (pID : ℕ)
      → next_free map < max_device_nr
      → Ends args map (goes_on (record_child (next_free map) pID devnode map) (some pID) [])
  removed :
      (node : Bytes) (r : Removed node map)
      → Ends args map (goes_on r.after none (selected (at_node node) (live map)))
  no_parent : Ends args map (exits 1)
  no_node : remove_node none map ≡ none → Ends args map undefined

abbrev NullResult : List NodeToPid → Option (List NodeToPid × List ℕ) → Type 0
NullResult map r = (r ≡ none) ⊎ (r ≡ some (map, []))

null-head :
    (key : Option Bytes) (pid : ℕ) (used : Bool) (map : List NodeToPid)
    (r : Option (List NodeToPid × List ℕ))
    → NullResult map r
    → let s : NodeToPid = record { key = key; pid = pid; used = used } in
      NullResult (s ∷ map) (after_test s (is_at key used none) r)
unfolding is_at remove_entry
null-head (some n) pid true map r h = inl refl
null-head (some n) pid false map r (inl e) = inl (rw e refl)
null-head (some n) pid false map r (inr e) = inr (rw e refl)
null-head none pid used map r (inl e) = inl (rw e refl)
null-head none pid used map r (inr e) = inr (rw e refl)

-- "remove" of a device without a node does nothing, or compares with NULL.
remove-null : (map : List NodeToPid) → NullResult map (remove_node none map)
unfolding remove_node
remove-null [] = inr refl
remove-null (s ∷ map) = null-head s.key s.pid s.used map _ (remove-null map)

module _ (args : Args) (map : List NodeToPid) where
  after_fork-Ends :
      (devnode : Option Bytes) (pID : Option ℕ)
      → next_free map < max_device_nr
      → Ends args map (after_fork devnode (next_free map) pID map)
  unfolding after_fork
  after_fork-Ends devnode none h = same
  after_fork-Ends devnode (some pID) h = recorded devnode pID h

  start_client-Ends :
      (devnode : Option Bytes) (pID : Option ℕ) → Ends args map (start_client devnode pID map)
  unfolding start_client
  start_client-Ends devnode pID = elim (Bool-cases (ltb (next_free map) max_device_nr)) [
    | inl room ↦ rw room (after_fork-Ends devnode pID (ground arith))
    | inr full ↦ rw full same
  ]

  on_add-Ends :
      (dev : Device) (usb : Option (Option Bytes × Option Bytes)) (pID : Option ℕ)
      → Ends args map (on_add args dev usb pID map)
  unfolding on_add
  on_add-Ends dev none pID = no_parent
  on_add-Ends dev (some (v_id, p_id)) pID =
      elim (Bool-cases (is_string v_id args.vendor_id && is_string p_id args.product_id)) [
        | inl ours ↦ rw ours (start_client-Ends dev.devnode pID)
        | inr other ↦ rw other same
      ]

  remove-Ends : (devnode : Option Bytes) → Ends args map (after_remove (remove_node devnode map))
  remove-Ends (some node) = let r = remove_node-Removed node map in rw r.kills (removed node r)
  remove-Ends none = elim (remove-null map) [
    | inl faults ↦ rw faults (no_node faults)
    | inr idle ↦ rw idle (same)
  ]

  -- Whatever the device and the result of `fork`, the entries are unchanged, or the first free one
  -- records the child, or the loop for "remove" has run; or the daemon exits for a device without
  -- a parent, or compares with a NULL node.
  pub on_device-Ends :
      (dev : Option Device) (pID : Option ℕ) → Ends args map (on_device args dev pID map)
  unfolding on_device
  on_device-Ends none pID = same
  on_device-Ends (some dev) pID = elim (Bool-cases (is_string dev.action add)) [
    | inl adds ↦ rw adds (on_add-Ends dev dev.usb_device pID)
    | inr not_add ↦ elim (Bool-cases (is_string dev.action remove)) [
      | inl removes ↦ rw (not_add, removes) (remove-Ends dev.devnode)
      | inr neither ↦ rw (not_add, neither) same
    ]
  ]
