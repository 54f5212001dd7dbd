-- ===== src/Gateway/Web/Workers.antt =====
-- The threads of BLEGatewayApplication/BLE_GATEWAY.cpp: the server thread, the worker thread of each
-- dongle with its queue, and the thread that accepts requests. Requests are numbered in the order
-- in which they are accepted.
use io_tblegateway.Common.{
  ℕ, zero, suc, Bool, true, false, ◌≡◌, ◌&&◌, ◌||◌, Option, none, some, List, [], ◌∷◌, ◌++◌, ◌==◌,
  if◌then◌else◌, Bytes,
}
use io_tblegateway.Gateway.Text.{construct_substrings, construct_valid_integer}
use io_tblegateway.Gateway.Web.Uri.{slash}

-- Where a worker thread stands: at the test of its loop, in `ExecuteWorkRequest`, in the loop that
-- empties its queue, or at its end.
pub data Phase : Type 0 where
  polling : Phase
  working : (request : ℕ) → Phase
  draining : Phase
  closed : Phase

pub record Worker : Type 0 where
  pub bid : ℕ
  pub work_queue : List ℕ
  pub phase : Phase

-- The numbers of the requests that `FCGX_Finish_r` was called for are `finished`. A request of
-- `pushing` stands between the two uses of the map in `PushToWorkerQueue`, with the number of its
-- dongle. A request is `lost` if its push came too late for the queue.
pub record System : Type 0 where
  pub workers : List Worker
  pub next_bid : ℕ
  pub accepted : ℕ
  pub pushing : List (ℕ × ℕ)
  pub lost : List ℕ
  pub finished : List ℕ

abbrev pub begun : System
begun = record { workers = []; next_bid = 0; accepted = 0; pushing = []; lost = []; finished = [] }

-- A worker is in the map `workers` until it leaves its loop.
abbrev pub is_registered : Phase → Bool
is_registered polling = true
is_registered (working request) = true
is_registered draining = false
is_registered closed = false

-- `workers.count(bid) > 0`
unfoldable pub counts : ℕ → List Worker → Bool
counts bid [] = false
counts bid (w ∷ ws) = (w.bid == bid && is_registered w.phase) || counts bid ws

-- The push of a request: the queue of its worker has it, or refuses it, or is not there any more.
pub data Pushed : Type 0 where
  queued : List Worker → Pushed
  refused : Pushed
  gone : Pushed

abbrev pub put_before : Worker → Pushed → Pushed
put_before w (queued ws) = queued (w ∷ ws)
put_before w refused = refused
put_before w gone = gone

-- Whether a push reaches a queue that is still read. No lock is taken, so that the worker may have
-- left the map since `count`. Then `workers[bid]` makes an entry with a null pointer, unless it
-- was evaluated before (`early`); and once the loop that empties the queue has ended nothing reads
-- the queue, and it is destroyed.
abbrev pub is_read : Bool → Phase → Bool
is_read early polling = true
is_read early (working request) = true
is_read early draining = early
is_read early closed = false

-- `workers[bid].workQueue->push(wr)`, where the queue takes one more if `takes`; no two workers have
-- one number
unfoldable pub push_to_worker_queue : Bool → Bool → ℕ → ℕ → List Worker → Pushed
push_to_worker_queue early takes bid wr [] = gone
push_to_worker_queue early takes bid wr (w ∷ ws) =
    let rest = put_before w (push_to_worker_queue early takes bid wr ws) in
    if w.bid == bid && is_read early w.phase
    then if takes then queued (record w { work_queue = w.work_queue ++ wr ∷ [] } ∷ ws) else refused
    else rest

-- The dongle that the path of a request names; `none` is a path without one, or with another text
-- in its place.
abbrev pub first_number : List Bytes → Option ℕ
first_number [] = none
first_number (part ∷ parts) = construct_valid_integer part

abbrev pub dongle_in : Option (List Bytes) → Option ℕ
dongle_in none = none
dongle_in (some parts) = first_number parts

abbrev pub finish : ℕ → System → System
finish wr s = record s { finished = wr ∷ s.finished }

-- A request that the queue refuses is answered at once.
abbrev pub pushed : ℕ → Pushed → System → System
pushed wr (queued ws) s = record s { workers = ws }
pushed wr refused s = finish wr s
pushed wr gone s = record s { lost = wr ∷ s.lost }

-- A request that names no worker of the map is answered at once.
abbrev pub sent_to : ℕ → Option ℕ → System → System
sent_to wr none s = finish wr s
sent_to wr (some bid) s =
    if counts bid s.workers then record s { pushing = (wr, bid) ∷ s.pushing } else finish wr s

-- one round of the loop of `FCGIWorker`, up to the push
unfoldable pub fcgi_worker : Bytes → System → System
unfolding counts
fcgi_worker uri s =
    sent_to s.accepted (dongle_in (construct_substrings uri slash))
      (record s { accepted = suc s.accepted })

-- a new connection of `ServerThread`
unfoldable pub add_ble_worker : System → System
add_ble_worker s = record s {
  workers = s.workers ++ record { bid = s.next_bid; work_queue = []; phase = polling } ∷ [];
  next_bid = suc s.next_bid;
}

-- The next part of `BLEWorker`, and the request that it finishes; `stops` is that the condition of
-- its loop fails.
unfoldable pub ble_worker : Bool → Phase → List ℕ → (Phase × List ℕ) × List ℕ
ble_worker stops polling [] = ((if stops then draining else polling, []), [])
ble_worker stops polling (wr ∷ queue) =
    if stops then ((draining, wr ∷ queue), []) else ((working wr, queue), [])
ble_worker stops (working wr) queue = ((polling, queue), wr ∷ [])
ble_worker stops draining [] = ((closed, []), [])
ble_worker stops draining (wr ∷ queue) = ((draining, queue), wr ∷ [])
ble_worker stops closed queue = ((closed, queue), [])

abbrev pub after : Worker → (Phase × List ℕ) × List ℕ → Worker
after w r = record w { phase = r.0.0; work_queue = r.0.1 }

-- A turn of the worker at a place of the list.
unfoldable pub turn : Bool → ℕ → List Worker → List Worker × List ℕ
unfolding ble_worker
turn stops i [] = ([], [])
turn stops zero (w ∷ ws) = let r = ble_worker stops w.phase w.work_queue in (after w r ∷ ws, r.1)
turn stops (suc i) (w ∷ ws) = let r = turn stops i ws in (w ∷ r.0, r.1)

abbrev pub turned : List Worker × List ℕ → System → System
turned r s = record s { workers = r.0; finished = r.1 ++ s.finished }

-- The interleavings of the threads. There are several threads that accept requests, and any of their
-- pushes may be the next. The operations on `std::map` itself are steps.
pub data Step : System → System → Type 0 where
  connects : (s : System) → Step s (add_ble_worker s)
  requests : (uri : Bytes) (s : System) → Step s (fcgi_worker uri s)
  pushes :
      (early takes : Bool) (wr bid : ℕ) (front back : List (ℕ × ℕ)) (s : System)
      → s.pushing ≡ front ++ (wr, bid) ∷ back
      → Step s (
          pushed wr
            (push_to_worker_queue early takes bid wr s.workers)
            (record s { pushing = front ++ back }))
  works : (stops : Bool) (i : ℕ) (s : System) → Step s (turned (turn stops i s.workers) s)

pub data Reach : System → Type 0 where
  start : Reach begun
  more : {s t : System} → Reach s → Step s t → Reach t
