-- ===== src/Gateway/Web/Once.antt =====
-- The threads of BLEGatewayApplication/BLE_GATEWAY.cpp finish a request once.
use io_tblegateway.Common.{
  ◌&&◌, subst, inl, inr, Bool-cases, ap, ℕ, zero, suc, ◌+◌, ◌≡◌, refl, Bool, true, false, Option,
  none, some, List, [], ◌∷◌, ◌++◌, arith, ltb, ◌==◌, if◌then◌else◌,
}
use io_tblegateway.Gateway.Text.{construct_substrings}
use io_tblegateway.Gateway.Web.Uri.{slash}
use io_tblegateway.Gateway.Web.Workers.{
  Phase, polling, working, draining, closed, Worker, System, counts, Pushed, queued, refused, gone,
  put_before, is_read, pushes, push_to_worker_queue, dongle_in, pushed, sent_to, fcgi_worker,
  add_ble_worker, ble_worker, turn, Step, connects, requests, works, Reach, start, more,
}

abbrev pub one : ℕ → ℕ → ℕ
one r x = if x == r then 1 else 0

abbrev pub count : ℕ → List ℕ → ℕ
count r [] = 0
count r (x ∷ xs) = one r x + count r xs

count-append : (r : ℕ) (xs ys : List ℕ) → count r (xs ++ ys) ≡ count r xs + count r ys
count-append r [] ys = omega arith
count-append r (x ∷ xs) ys = omega (arith, count-append r xs ys)

abbrev pub in_phase : ℕ → Phase → ℕ
in_phase r (working x) = one r x
in_phase r _ = 0

-- how often the workers have a request, in a queue or at work
abbrev pub held : ℕ → List Worker → ℕ
held r [] = 0
held r (w ∷ ws) = count r w.work_queue + in_phase r w.phase + held r ws

-- how often a push of it is under way
abbrev pub waiting : ℕ → List (ℕ × ℕ) → ℕ
waiting r [] = 0
waiting r ((x, bid) ∷ ps) = one r x + waiting r ps

waiting-insert :
    (r x bid : ℕ) (front back : List (ℕ × ℕ))
    → waiting r (front ++ (x, bid) ∷ back) ≡ waiting r (front ++ back) + one r x
waiting-insert r x bid [] back = omega arith
waiting-insert r x bid (p ∷ front) back = omega (arith, waiting-insert r x bid front back)

-- what holds of every list that a push makes
abbrev Holding : ℕ → ℕ → Pushed → Type 0
Holding r n (queued ts) = held r ts ≡ n
Holding r n refused = Unit {0}
Holding r n gone = Unit {0}

Holding-if :
    (r n : ℕ) (b : Bool) (o p : Pushed)
    → Holding r n o
    → Holding r n p
    → Holding r n (if b then o else p)
Holding-if r n true o p h k = h
Holding-if r n false o p h k = k

Holding-put_before :
    (r n : ℕ) (w : Worker) (o : Pushed)
    → Holding r n o
    → Holding r (count r w.work_queue + in_phase r w.phase + n) (put_before w o)
Holding-put_before r n w (queued ts) h = omega (arith, h)
Holding-put_before r n w refused h = tt
Holding-put_before r n w gone h = tt

push-Holding :
    (r : ℕ) (early takes : Bool) (bid wr : ℕ) (ws : List Worker)
    → Holding r (held r ws + one r wr) (push_to_worker_queue early takes bid wr ws)
unfolding push_to_worker_queue
push-Holding r early takes bid wr [] = tt
push-Holding r early takes bid wr (w ∷ ws) =
    let n = held r (w ∷ ws) + one r wr in
    let here : List Worker = record w { work_queue = w.work_queue ++ wr ∷ [] } ∷ ws in
    let rest = push_to_worker_queue early takes bid wr ws in
    Holding-if r n (w.bid == bid && is_read early w.phase) (if takes then queued here else refused)
      (put_before w rest)
      (Holding-if r n takes (queued here) refused
        (omega (arith, count-append r w.work_queue (wr ∷ []))) tt)
      (subst (λ m. Holding r m (put_before w rest)) (omega arith)
        (Holding-put_before r (held r ws + one r wr) w rest (push-Holding r early takes bid wr ws)))

round-held :
    (r : ℕ) (stops : Bool) (phase : Phase) (queue : List ℕ)
    → count r (ble_worker stops phase queue).0.1
        + in_phase r (ble_worker stops phase queue).0.0
        + count r (ble_worker stops phase queue).1
      ≡ count r queue + in_phase r phase
unfolding ble_worker
round-held r stops polling [] = ground arith
round-held r stops polling (wr ∷ queue) = ground arith
round-held r stops (working wr) queue = ground arith
round-held r stops draining [] = refl
round-held r stops draining (wr ∷ queue) = ground arith
round-held r stops closed queue = omega arith

turn-held :
    (r : ℕ) (stops : Bool) (i : ℕ) (ws : List Worker)
    → held r (turn stops i ws).0 + count r (turn stops i ws).1 ≡ held r ws
unfolding turn
turn-held r stops i [] = refl
turn-held r stops (suc i) (w ∷ ws) = omega (arith, turn-held r stops i ws)
turn-held r stops zero (w ∷ ws) = omega (arith, round-held r stops w.phase w.work_queue)

added-held :
    (r : ℕ) (w : Worker) (ws : List Worker) → held r (ws ++ w ∷ []) ≡ held r ws + held r (w ∷ [])
added-held r w [] = omega arith
added-held r w (x ∷ ws) = omega (arith, added-held r w ws)

-- how often a request is somewhere
abbrev pub places : ℕ → System → ℕ
places r s = held r s.workers + waiting r s.pushing + count r s.finished + count r s.lost

abbrev pub Once : System → Type 0
Once s = (r : ℕ) → places r s ≡ (if ltb r s.accepted then 1 else 0)

pushed-places :
    (r wr : ℕ) (o : Pushed) (s : System)
    → Holding r (held r s.workers + one r wr) o
    → places r (pushed wr o s) ≡ places r s + one r wr
pushed-places r wr (queued ws) s h = omega (arith, h)
pushed-places r wr refused s h = omega arith
pushed-places r wr gone s h = omega arith

accepted-pushed : (wr : ℕ) (o : Pushed) (s : System) → (pushed wr o s).accepted ≡ s.accepted
accepted-pushed wr (queued ws) s = refl
accepted-pushed wr refused s = refl
accepted-pushed wr gone s = refl

sent-places :
    (r wr : ℕ) (o : Option ℕ) (s : System) → places r (sent_to wr o s) ≡ places r s + one r wr
sent-places r wr none s = omega arith
sent-places r wr (some bid) s = elim (Bool-cases (counts bid s.workers)) [
  | inl e ↦ rw e (omega arith)
  | inr e ↦ rw e (omega arith)
]

step-Once : {s t : System} → Step s t → Once s → Once t
unfolding fcgi_worker add_ble_worker
step-Once (connects s) h r = omega (arith, h r, added-held r _ s.workers)
step-Once (requests uri s) h r = ground (
  arith,
  sent-places r s.accepted (dongle_in (construct_substrings uri slash))
      (record s { accepted = suc s.accepted }),
  h r,
)
step-Once (pushes early takes wr bid front back s e) h r =
    let o = push_to_worker_queue early takes bid wr s.workers in
    let s' : System = record s { pushing = front ++ back } in
    rw (accepted-pushed wr o s') (
      omega (
        arith,
        pushed-places r wr o s' (push-Holding r early takes bid wr s.workers),
        waiting-insert r wr bid front back,
        ap (waiting r) e,
        h r,
      ))
step-Once (works stops i s) h r = omega (
  arith,
  turn-held r stops i s.workers,
  count-append r (turn stops i s.workers).1 s.finished,
  h r,
)

-- In every interleaving of the threads, in which the look-up of a worker and the push on its queue
-- are two steps, a request that has been accepted is in one place: in a push that is under way, in
-- the queue of a worker, at work, finished, or lost in a push that came too late; and other requests
-- are nowhere.
pub Reach-Once : (s : System) → Reach s → Once s
Reach-Once s start r = ground arith
Reach-Once s (more {s = u} reach step) r = step-Once step (Reach-Once u reach) r
