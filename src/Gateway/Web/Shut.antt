-- ===== src/Gateway/Web/Shut.antt =====
-- How the worker threads of BLEGatewayApplication/BLE_GATEWAY.cpp end.
use io_tblegateway.Common.{
  ◌&&◌, ℕ, zero, suc, ◌+◌, ◌<◌, ◌≡◌, refl, ap, inl, inr, Bool-cases, Bool, true, false, Option,
  none, some, List, [], ◌∷◌, ◌++◌, arith, ◌==◌, if◌then◌else◌,
}
use io_tblegateway.Gateway.Text.{construct_substrings}
use io_tblegateway.Gateway.Web.Uri.{slash}
use io_tblegateway.Gateway.Web.Workers.{
  Phase, polling, working, draining, closed, Worker, System, put_before, counts, Pushed, queued,
  refused, gone, is_read, pushes, push_to_worker_queue, dongle_in, pushed, sent_to, fcgi_worker,
  add_ble_worker, ble_worker, turn, connects, requests, works, Reach, start, more,
}
use io_tblegateway.Gateway.Web.Once.{waiting, count, in_phase, held, Reach-Once}

-- A worker at its end has nothing in its queue.
abbrev EmptyIn : Phase → List ℕ → Type 0
EmptyIn closed (wr ∷ queue) = ⊥
EmptyIn _ _ = Unit {0}

abbrev Emptied : List Worker → Type 0
Emptied [] = Unit {0}
Emptied (w ∷ ws) = EmptyIn w.phase w.work_queue × Emptied ws

abbrev EmptiedIn : Pushed → Type 0
EmptiedIn (queued ws) = Emptied ws
EmptiedIn refused = Unit {0}
EmptiedIn gone = Unit {0}

EmptiedIn-put_before :
    (w : Worker) (o : Pushed)
    → EmptyIn w.phase w.work_queue
    → EmptiedIn o
    → EmptiedIn (put_before w o)
EmptiedIn-put_before w (queued ws) h k = (h, k)
EmptiedIn-put_before w refused h k = tt
EmptiedIn-put_before w gone h k = tt

-- A queue that is still read may have anything in it.
read-EmptyIn :
    (early : Bool) (phase : Phase) (queue : List ℕ)
    → is_read early phase ≡ true
    → EmptyIn phase queue
read-EmptyIn early polling queue e = tt
read-EmptyIn early (working wr) queue e = tt
read-EmptyIn early draining queue e = tt
read-EmptyIn early closed queue e = absurd (ground arith)

chosen-EmptiedIn :
    (same read takes : Bool) (here : List Worker) (rest : Pushed)
    → (read ≡ true → Emptied here)
    → EmptiedIn rest
    → EmptiedIn (if same && read then if takes then queued here else refused else rest)
chosen-EmptiedIn true true true here rest h k = h refl
chosen-EmptiedIn true true false here rest h k = tt
chosen-EmptiedIn true false takes here rest h k = k
chosen-EmptiedIn false read takes here rest h k = k

push-EmptiedIn :
    (early takes : Bool) (bid wr : ℕ) (ws : List Worker)
    → Emptied ws
    → EmptiedIn (push_to_worker_queue early takes bid wr ws)
unfolding push_to_worker_queue
push-EmptiedIn early takes bid wr [] h = tt
push-EmptiedIn early takes bid wr (w ∷ ws) h =
    chosen-EmptiedIn (w.bid == bid) (is_read early w.phase) takes
      (record w { work_queue = w.work_queue ++ wr ∷ [] } ∷ ws)
      (put_before w (push_to_worker_queue early takes bid wr ws))
      (λ e. (read-EmptyIn early w.phase (w.work_queue ++ wr ∷ []) e, h.1))
      (EmptiedIn-put_before w (push_to_worker_queue early takes bid wr ws) h.0
        (push-EmptiedIn early takes bid wr ws h.1))

round-EmptyIn :
    (stops : Bool) (phase : Phase) (queue : List ℕ)
    → EmptyIn phase queue
    → EmptyIn (ble_worker stops phase queue).0.0 (ble_worker stops phase queue).0.1
unfolding ble_worker
round-EmptyIn true polling [] h = tt
round-EmptyIn false polling [] h = tt
round-EmptyIn true polling (wr ∷ queue) h = tt
round-EmptyIn false polling (wr ∷ queue) h = tt
round-EmptyIn stops (working wr) queue h = tt
round-EmptyIn stops draining [] h = tt
round-EmptyIn stops draining (wr ∷ queue) h = tt
round-EmptyIn stops closed queue h = h

turn-Emptied : (stops : Bool) (i : ℕ) (ws : List Worker) → Emptied ws → Emptied (turn stops i ws).0
unfolding turn
turn-Emptied stops i [] h = tt
turn-Emptied stops zero (w ∷ ws) h = (round-EmptyIn stops w.phase w.work_queue h.0, h.1)
turn-Emptied stops (suc i) (w ∷ ws) h = (h.0, turn-Emptied stops i ws h.1)

added-Emptied :
    (w : Worker) (ws : List Worker)
    → Emptied ws
    → EmptyIn w.phase w.work_queue
    → Emptied (ws ++ w ∷ [])
added-Emptied w [] h k = (k, tt)
added-Emptied w (x ∷ ws) h k = (h.0, added-Emptied w ws h.1 k)

sent-Emptied :
    (wr : ℕ) (o : Option ℕ) (s : System) → Emptied s.workers → Emptied (sent_to wr o s).workers
sent-Emptied wr none s h = h
sent-Emptied wr (some bid) s h = elim (Bool-cases (counts bid s.workers)) [
  | inl e ↦ rw e h
  | inr e ↦ rw e h
]

pushed-Emptied :
    (wr : ℕ) (o : Pushed) (s : System)
    → Emptied s.workers
    → EmptiedIn o
    → Emptied (pushed wr o s).workers
pushed-Emptied wr (queued ws) s h k = k
pushed-Emptied wr refused s h k = h
pushed-Emptied wr gone s h k = h

Reach-Emptied : (s : System) → Reach s → Emptied s.workers
unfolding fcgi_worker add_ble_worker
Reach-Emptied s start = tt
Reach-Emptied s (more {s = u} reach (connects _)) =
    added-Emptied _ u.workers (Reach-Emptied u reach) tt
Reach-Emptied s (more {s = u} reach (requests uri _)) =
    sent-Emptied u.accepted (dongle_in (construct_substrings uri slash)) _ (Reach-Emptied u reach)
Reach-Emptied s (more {s = u} reach (pushes early takes wr bid front back _ e)) =
    pushed-Emptied wr (push_to_worker_queue early takes bid wr u.workers)
      (record u { pushing = front ++ back }) (Reach-Emptied u reach)
      (push-EmptiedIn early takes bid wr u.workers (Reach-Emptied u reach))
Reach-Emptied s (more {s = u} reach (works stops i _)) =
    turn-Emptied stops i u.workers (Reach-Emptied u reach)

abbrev pub is_closed : Phase → Bool
is_closed closed = true
is_closed _ = false

abbrev pub AllClosed : List Worker → Type 0
AllClosed [] = Unit {0}
AllClosed (w ∷ ws) = (is_closed w.phase ≡ true) × AllClosed ws

ended-held :
    (r : ℕ) (phase : Phase) (queue : List ℕ)
    → EmptyIn phase queue
    → is_closed phase ≡ true
    → count r queue + in_phase r phase ≡ 0
ended-held r polling queue h e = absurd (ground arith)
ended-held r (working wr) queue h e = absurd (ground arith)
ended-held r draining queue h e = absurd (ground arith)
ended-held r closed [] h e = omega arith
ended-held r closed (wr ∷ queue) h e = elim h [ ]

closed-held : (r : ℕ) (ws : List Worker) → Emptied ws → AllClosed ws → held r ws ≡ 0
closed-held r [] h k = refl
closed-held r (w ∷ ws) h k =
    omega (arith, ended-held r w.phase w.work_queue h.0 k.0, closed-held r ws h.1 k.1)

-- When all worker threads have ended and no push is under way, every request that was accepted has
-- been finished once and is not lost, or it is lost and never finished.
pub closed-finished :
    (s : System) (r : ℕ)
    → Reach s
    → AllClosed s.workers
    → s.pushing ≡ []
    → r < s.accepted
    → count r s.finished + count r s.lost ≡ 1
closed-finished s r reach ends none_waits lt = ground (
  arith,
  Reach-Once s reach r,
  ap (waiting r) none_waits,
  closed-held r s.workers (Reach-Emptied s reach) ends,
)
