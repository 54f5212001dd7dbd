-- ===== src/Daemon/Processes/Owned.antt =====
-- The daemon's entries and its children over any run.
use io_tblegateway.Common.{subst, ℕ, ◌≡◌, ◌∙◌, Option, List, ◌∷◌, ◌++◌, map, arith, length}
use io_tblegateway.Daemon.Map.{max_device_nr, NodeToPid, next_free, child_exit_handler}
use io_tblegateway.Daemon.Map.Live.{
  live, at_node, live-cleared, length-cleared, live-record_child, length-record_child,
  length-child_exit_handler, live-child_exit_handler,
}
use io_tblegateway.Daemon.Events.{Args, Device, Outcome, goes_on, on_device}
use io_tblegateway.Daemon.Events.Changes.{Ends, on_device-Ends}
use io_tblegateway.Daemon.Processes.{
  System, spawned, Step, Reach, Own, AllMember, Own-spawned, Own-without, Own-reap, Own-insert,
  AllMember-selected, member,
}

pub record Inv (s : System) : Type 0 where
  pub size : length s.map ≡ max_device_nr
  pub own : Own s.children (live s.map)

-- How a state with the invariant may go on.
abbrev Kept : System → Outcome → Type 0
Kept s (goes_on map start killed) =
    Inv (record { map = map; children = spawned start s.children }) × AllMember s.children killed
Kept s (Outcome.exits status) = Unit
Kept s Outcome.undefined = Unit

Ends-Kept : {args : Args} (s : System) (o : Outcome) → Inv s → Ends args s.map o → Kept s o
unfolding AllMember member
Ends-Kept s o inv Ends.same = (record { size = inv.size; own = inv.own }, tt)
Ends-Kept s o inv (Ends.recorded devnode pID room) =
    let (front, back, before, after) = live-record_child pID devnode s.map (rw inv.size room) in
    let own : Own (pID ∷ s.children) (front ++ back) =
      Own-spawned pID s.children _ (subst (Own s.children) before inv.own) in
    (
      record {
        size = length-record_child (next_free s.map) pID devnode s.map ∙ inv.size;
        own = rw after (Own-insert (pID ∷ s.children) front back (devnode, pID) own (ground arith));
      },
      tt,
    )
Ends-Kept s o inv (Ends.removed node r) = (
  record {
    size = r.size ∙ inv.size;
    own = rw r.stays (Own-without (at_node node) s.children (live s.map) inv.own);
  },
  AllMember-selected (at_node node) s.children (live s.map) inv.own,
)
Ends-Kept s o inv Ends.no_parent = tt
Ends-Kept s o inv (Ends.no_node e) = tt

on_device-Kept :
    (args : Args) (s : System) (dev : Option Device) (pID : Option ℕ)
    → Inv s
    → Kept s (on_device args dev pID s.map)
on_device-Kept args s dev pID inv =
    Ends-Kept s (on_device args dev pID s.map) inv (on_device-Ends args s.map dev pID)

Step-Inv : {args : Args} {s t : System} → Step args s t → Inv s → Inv t
unfolding child_exit_handler
Step-Inv {args} {s} (Step.event dev pID e) inv =
    (subst (Kept s) e (on_device-Kept args s dev pID inv)).0
Step-Inv {args} {s} (Step.sigchld pid) inv = record {
  size = length-child_exit_handler pid s.map ∙ inv.size;
  own = rw (live-child_exit_handler pid s.map) (Own-reap pid s.children (live s.map) inv.own);
}
Step-Inv Step.no_child inv = record { size = inv.size; own = inv.own }

-- In every state that events and signals lead to, in any order, where no signal comes between
-- `fork` and the new entry, `map` has its 20 entries, and each client that it counts as running is
-- a child of the daemon that `wait3` has not reaped.
pub Reach-Inv : {args : Args} {s : System} → Reach args s → Inv s
unfolding Own
Reach-Inv Reach.starts = record {
  size = length-cleared max_device_nr;
  own = rw (live-cleared max_device_nr) tt;
}
Reach-Inv (Reach.steps r step) = Step-Inv step (Reach-Inv r)

-- An event that the daemon handles in a reachable state makes it send SIGKILL only to children of
-- its own that `wait3` has not reaped, where no signal comes while an event is handled: neither
-- between `fork` and the new entry, nor between the test of an entry and `kill`.
pub kills-own :
    {args : Args} {s : System} {map : List NodeToPid} {start : Option ℕ} {killed : List ℕ}
    (dev : Option Device) (pID : Option ℕ)
    → Reach args s
    → on_device args dev pID s.map ≡ goes_on map start killed
    → AllMember s.children killed
kills-own {args} {s} dev pID r e =
    (subst (Kept s) e (on_device-Kept args s dev pID (Reach-Inv r))).1
