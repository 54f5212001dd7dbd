-- ===== src/Daemon/Processes.antt =====
-- The daemon of BLEGatewayDaemon/ble_daemon.c and its children: events of udev and SIGCHLD in any
-- order, where no signal comes while the daemon handles an event. The program does not block the
-- signal: it may come between `fork` and the entry that records the child, or between the test of
-- an entry and `kill`, and such runs are not among these.
pub mod Owned
use io_tblegateway.Common.{
  ℕ, ◌≡◌, inl, inr, Bool, true, false, ◌||◌, Option, none, some, List, [], ◌∷◌, ◌++◌, arith, ◌==◌,
  if◌then◌else◌, Bool-cases, Bytes, length,
}
use io_tblegateway.Daemon.Map.{max_device_nr, NodeToPid, cleared, child_exit_handler}
use io_tblegateway.Daemon.Map.Live.{Client, live, without, selected, has_pid}
use io_tblegateway.Daemon.Events.{Args, Device, goes_on, on_device}

unfoldable pub member : ℕ → List ℕ → Bool
member pid [] = false
member pid (c ∷ children) = (c == pid) || member pid children

unfoldable pub reap : ℕ → List ℕ → List ℕ
reap pid [] = []
reap pid (c ∷ children) = let rest = reap pid children in if c == pid then rest else c ∷ rest

-- The children are those that were forked and that `wait3` has not reaped yet.
pub record System : Type 0 where
  pub map : List NodeToPid
  pub children : List ℕ

abbrev pub spawned : Option ℕ → List ℕ → List ℕ
spawned none children = children
spawned (some pid) children = pid ∷ children

-- An event is one step, and a signal comes before or after it. `kill` is no step of a child: it stays one until it is reaped.
pub data Step (args : Args) : System → System → Type 0 where
  event :
      {s : System} {map : List NodeToPid} {start : Option ℕ} {killed : List ℕ} (dev : Option Device)
      (pID : Option ℕ)
      → on_device args dev pID s.map ≡ goes_on map start killed
      → Step args s (record { map = map; children = spawned start s.children })
  sigchld :
      {s : System} (pid : ℕ)
      → Step args s
          (record { map = child_exit_handler (some pid) s.map; children = reap pid s.children })
  no_child : {s : System} → Step args s (record s { map = child_exit_handler none s.map })

pub data Reach (args : Args) : System → Type 0 where
  starts : Reach args (record { map = cleared max_device_nr; children = [] })
  steps : {s t : System} → Reach args s → Step args s t → Reach args t

-- Every client that the entries count as running is a child that was not reaped.
unfoldable pub Own : List ℕ → List Client → Type 0
Own children [] = Unit
Own children (x ∷ xs) = (member x.1 children ≡ true) × Own children xs

unfoldable pub AllMember : List ℕ → List ℕ → Type 0
AllMember children [] = Unit
AllMember children (k ∷ ks) = (member k children ≡ true) × AllMember children ks

pub Own-spawned : (pid : ℕ) (cs : List ℕ) (xs : List Client) → Own cs xs → Own (pid ∷ cs) xs
unfolding Own member
Own-spawned pid cs [] h = tt
Own-spawned pid cs (x ∷ xs) (h, hs) = (ground arith, Own-spawned pid cs xs hs)

pub Own-without :
    (p : Client → Bool) (cs : List ℕ) (xs : List Client) → Own cs xs → Own cs (without p xs)
unfolding Own without
Own-without p cs [] h = tt
Own-without p cs (x ∷ xs) (h, hs) = elim (Bool-cases (p x)) [
  | inl out ↦ rw out (Own-without p cs xs hs)
  | inr stays ↦ rw stays (h, Own-without p cs xs hs)
]

member-reap :
    (pid q : ℕ) (cs : List ℕ)
    → (q == pid) ≡ false
    → member q cs ≡ true
    → member q (reap pid cs) ≡ true
unfolding member reap
member-reap pid q [] e h = h
member-reap pid q (c ∷ cs) e h = ground (arith, member-reap pid q cs)

pub Own-reap :
    (pid : ℕ) (cs : List ℕ) (xs : List Client)
    → Own cs xs
    → Own (reap pid cs) (without (has_pid pid) xs)
unfolding Own without has_pid
Own-reap pid cs [] h = tt
Own-reap pid cs (x ∷ xs) (h, hs) = elim (Bool-cases (x.1 == pid)) [
  | inl out ↦ rw out (Own-reap pid cs xs hs)
  | inr stays ↦ rw stays (member-reap pid x.1 cs stays h, Own-reap pid cs xs hs)
]

pub Own-insert :
    (cs : List ℕ) (front back : List Client) (x : Client)
    → Own cs (front ++ back)
    → member x.1 cs ≡ true
    → Own cs (front ++ (x ∷ back))
unfolding Own
Own-insert cs [] back x h m = (m, h)
Own-insert cs (y ∷ front) back x (h, hs) m = (h, Own-insert cs front back x hs m)

pub AllMember-selected :
    (p : Client → Bool) (cs : List ℕ) (xs : List Client) → Own cs xs → AllMember cs (selected p xs)
unfolding Own AllMember selected
AllMember-selected p cs [] h = tt
AllMember-selected p cs (x ∷ xs) (h, hs) = elim (Bool-cases (p x)) [
  | inl out ↦ rw out (h, AllMember-selected p cs xs hs)
  | inr stays ↦ rw stays (AllMember-selected p cs xs hs)
]
