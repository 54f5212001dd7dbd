-- ===== src/Daemon/Map/Live.antt =====
-- What the loops over `map` do to the clients that the daemon counts as running.
use io_tblegateway.Common.{
  ℕ, zero, suc, ◌≤◌, ◌<◌, ◌≡◌, refl, ap, ◌↔◌, inl, inr, Bool, true, false, Option, none, some, List,
  [], ◌∷◌, ◌++◌, map, arith, ◌==◌, if◌then◌else◌, Bool-cases, Bytes, length,
}
use io_tblegateway.Daemon.Map.{
  NodeToPid, cleared, same_string, next_free, record_child, free, child_exit_handler, is_at,
  remove_entry, remove_node,
}

abbrev pub Client : Type 0
Client = Option Bytes × ℕ

-- the device and the process id of each entry in use, in the order of the entries
unfoldable pub live : List NodeToPid → List Client
live [] = []
live (s ∷ map) = let rest = live map in if s.used then (s.key, s.pid) ∷ rest else rest

-- the clients that a test does not select
unfoldable pub without : (Client → Bool) → List Client → List Client
without p [] = []
without p (x ∷ xs) = let rest = without p xs in if p x then rest else x ∷ rest

unfoldable pub selected : (Client → Bool) → List Client → List ℕ
selected p [] = []
selected p (x ∷ xs) = let rest = selected p xs in if p x then x.1 ∷ rest else rest

unfoldable pub has_pid : ℕ → Client → Bool
has_pid pid x = x.1 == pid

unfoldable pub at_node : Bytes → Client → Bool
unfolding same_string
at_node node (none, pid) = false
at_node node (some n, pid) = same_string n node

pub live-cleared : (n : ℕ) → live (cleared n) ≡ []
unfolding live cleared
live-cleared zero = refl
live-cleared (suc n) = live-cleared n

pub length-live : (map : List NodeToPid) → length (live map) ≤ length map
unfolding live
length-live [] = omega arith
length-live (s ∷ map) = ground (arith, length-live map)

next_free_le : (map : List NodeToPid) → next_free map ≤ length map
unfolding next_free
next_free_le [] = omega arith
next_free_le (s ∷ map) = ground (arith, next_free_le map)

-- The next_free stops at the bound just if every entry is in use.
pub next_free-full :
    (map : List NodeToPid) → (next_free map ≡ length map) ↔ (length (live map) ≡ length map)
unfolding next_free live
next_free-full [] = (λ _. refl, λ _. refl)
next_free-full (s ∷ map) = ground (arith, next_free-full map, length-live map)

pub length-record_child :
    (i pid : ℕ) (devnode : Option Bytes) (map : List NodeToPid)
    → length (record_child i pid devnode map) ≡ length map
unfolding record_child
length-record_child i pid devnode [] = refl
length-record_child zero pid devnode (s ∷ map) = refl
length-record_child (suc i) pid devnode (s ∷ map) =
    omega (arith, length-record_child i pid devnode map)

pub next_free-room :
    (map : List NodeToPid) → length (live map) < length map → next_free map < length map
next_free-room map h = ground (arith, next_free-full map, next_free_le map)

pub live-record_at :
    (i pid : ℕ) (devnode : Option Bytes) (map : List NodeToPid)
    → i < length map
    → (front : List Client) × (back : List Client) × (live (record_child i pid devnode map)
        ≡ front ++ ((devnode, pid) ∷ back))
unfolding live record_child
live-record_at i pid devnode [] h = absurd (omega arith)
live-record_at zero pid devnode (s ∷ xs) h = ([], live xs, refl)
live-record_at (suc i) pid devnode (s ∷ xs) h =
    let (front, back, e) = live-record_at i pid devnode xs (omega arith) in
    elim (Bool-cases s.used) [
      | inl busy ↦ ((s.key, s.pid) ∷ front, back, rw (busy, e) refl)
      | inr idle ↦ (front, back, rw (idle, e) refl)
    ]

-- Recording a child in the entry that the next_free found adds it to the clients, between those of
-- the entries before it and those of the entries behind it, and frees or changes none.
pub live-record_child :
    (pid : ℕ) (devnode : Option Bytes) (map : List NodeToPid)
    → next_free map < length map
    → (front : List Client) × (back : List Client) × (live map ≡ front ++ back)
      × (live (record_child (next_free map) pid devnode map) ≡ front ++ ((devnode, pid) ∷ back))
unfolding next_free live record_child
live-record_child pid devnode [] h = absurd (omega arith)
live-record_child pid devnode (s ∷ xs) h = elim (Bool-cases s.used) [
  | inl busy ↦
      let later : next_free xs < length xs = ground arith in
      let (front, back, before, after) = live-record_child pid devnode xs later in
      ((s.key, s.pid) ∷ front, back, rw (busy, before) refl, rw (busy, after) refl)
  | inr idle ↦ ([], live xs, rw idle refl, rw idle refl)
]

-- When `wait3` returns a child, the clients with its process id, and no others, no longer count
-- as running; the rest keep their order.
pub live-child_exit_handler :
    (pid : ℕ) (map : List NodeToPid)
    → live (child_exit_handler (some pid) map) ≡ without (has_pid pid) (live map)
unfolding live child_exit_handler without has_pid free
live-child_exit_handler pid [] = refl
live-child_exit_handler pid (s ∷ map) = ground (arith, live-child_exit_handler pid map)

pub length-child_exit_handler :
    (pid : ℕ) (map : List NodeToPid) → length (child_exit_handler (some pid) map) ≡ length map
unfolding child_exit_handler
length-child_exit_handler pid [] = refl
length-child_exit_handler pid (s ∷ map) = ap suc (length-child_exit_handler pid map)

pub length-cleared : (n : ℕ) → length (cleared n) ≡ n
unfolding cleared
length-cleared zero = refl
length-cleared (suc n) = ap suc (length-cleared n)

pub record Removed (node : Bytes) (map : List NodeToPid) : Type 0 where
  pub after : List NodeToPid
  pub kills : remove_node (some node) map ≡ some (after, selected (at_node node) (live map))
  pub stays : live after ≡ without (at_node node) (live map)
  pub size : length after ≡ length map

abbrev entry : Option Bytes → ℕ → Bool → NodeToPid
entry key pid used = record { key = key; pid = pid; used = used }

remove-head :
    {node : Bytes} {map : List NodeToPid} (key : Option Bytes) (pid : ℕ) (used : Bool)
    → Removed node map
    → Removed node (entry key pid used ∷ map)
unfolding remove_node live without selected at_node is_at remove_entry free
remove-head none pid false r = record {
  after = entry none pid false ∷ r.after;
  kills = rw r.kills refl;
  stays = r.stays;
  size = ap suc r.size;
}
remove-head (some n) pid false r = record {
  after = entry (some n) pid false ∷ r.after;
  kills = rw r.kills refl;
  stays = r.stays;
  size = ap suc r.size;
}
remove-head none pid true r = record {
  after = entry none pid true ∷ r.after;
  kills = rw r.kills refl;
  stays = ap (λ xs. (none, pid) ∷ xs) r.stays;
  size = ap suc r.size;
}
remove-head {node} (some n) pid true r = elim (Bool-cases (same_string n node)) [
  | inl here ↦ record {
    after = entry (some n) pid false ∷ r.after;
    kills = rw (r.kills, here) refl;
    stays = rw here r.stays;
    size = ap suc r.size;
  }
  | inr there ↦ record {
    after = entry (some n) pid true ∷ r.after;
    kills = rw (r.kills, there) refl;
    stays = rw there (ap (λ xs. (some n, pid) ∷ xs) r.stays);
    size = ap suc r.size;
  }
]

-- "remove" never fails for a device that has a node: it kills just the clients of that node, in
-- the order of the entries, and leaves the others running.
pub remove_node-Removed : (node : Bytes) (map : List NodeToPid) → Removed node map
unfolding remove_node live selected without
remove_node-Removed node [] = record { after = []; kills = refl; stays = refl; size = refl }
remove_node-Removed node (s ∷ map) = remove-head s.key s.pid s.used (remove_node-Removed node map)

pub same_string_iff : (a b : Bytes) → (same_string a b ≡ true) ↔ (a ≡ b)
unfolding same_string
same_string_iff [] [] = (λ _. refl, λ _. refl)
same_string_iff [] (y ∷ ys) = ground arith
same_string_iff (x ∷ xs) [] = ground arith
same_string_iff (x ∷ xs) (y ∷ ys) = ground (arith, same_string_iff xs ys)
