-- ===== src/Gateway/Web/Lost.antt =====
-- When a push of BLEGatewayApplication/BLE_GATEWAY.cpp comes too late for the queue of its worker.
use io_tblegateway.Common.{
  ℕ, ◌+◌, ◌<◌, ◌≡◌, refl, inl, inr, Bool, true, false, Option, none, some, List, [], ◌∷◌, ◌++◌,
  ◌&&◌, ◌||◌, arith, ◌==◌, if◌then◌else◌, Bool-cases, subst,
}
use io_tblegateway.Gateway.Text.{construct_substrings}
use io_tblegateway.Gateway.Web.Uri.{slash}
use io_tblegateway.Gateway.Web.Workers.{
  Phase, polling, working, draining, closed, Worker, System, is_registered, counts, Pushed, queued,
  refused, gone, put_before, is_read, push_to_worker_queue, dongle_in, pushed, sent_to, fcgi_worker,
  add_ble_worker, Step, connects, requests, pushes, works,
}
use io_tblegateway.Gateway.Web.Once.{count}

-- A push of the request is under way, and its worker is not in the map.
pub record Late (r : ℕ) (s : System) : Type 0 where
  pub bid : ℕ
  pub front : List (ℕ × ℕ)
  pub back : List (ℕ × ℕ)
  pub under_way : s.pushing ≡ front ++ (r, bid) ∷ back
  pub left : counts bid s.workers ≡ false

abbrev Arrives : Pushed → Type 0
Arrives (queued ws) = Unit {0}
Arrives refused = Unit {0}
Arrives gone = ⊥

Arrives-put_before : (w : Worker) (o : Pushed) → Arrives o → Arrives (put_before w o)
Arrives-put_before w (queued ws) h = tt
Arrives-put_before w refused h = tt
Arrives-put_before w gone h = elim h [ ]

Arrives-chosen :
    (same registered read takes other : Bool) (here : List Worker) (rest : Pushed)
    → (registered ≡ true → read ≡ true)
    → (other ≡ true → Arrives rest)
    → ((same && registered) || other) ≡ true
    → Arrives (if same && read then if takes then queued here else refused else rest)
Arrives-chosen true registered true true other here rest h k e = tt
Arrives-chosen true registered true false other here rest h k e = tt
Arrives-chosen true true false takes other here rest h k e = absurd (ground (arith, h refl))
Arrives-chosen true false false takes other here rest h k e = k e
Arrives-chosen false registered read takes other here rest h k e = k e

registered-read :
    (early : Bool) (phase : Phase) → is_registered phase ≡ true → is_read early phase ≡ true
registered-read early polling e = refl
registered-read early (working request) e = refl
registered-read early draining e = absurd (ground arith)
registered-read early closed e = absurd (ground arith)

-- While the worker is in the map its queue gets the request, or refuses it.
push-Arrives :
    (early takes : Bool) (bid wr : ℕ) (ws : List Worker)
    → counts bid ws ≡ true
    → Arrives (push_to_worker_queue early takes bid wr ws)
unfolding push_to_worker_queue counts
push-Arrives early takes bid wr [] e = absurd (ground arith)
push-Arrives early takes bid wr (w ∷ ws) e =
    Arrives-chosen (w.bid == bid) (is_registered w.phase) (is_read early w.phase) takes
      (counts bid ws) (record w { work_queue = w.work_queue ++ wr ∷ [] } ∷ ws)
      (put_before w (push_to_worker_queue early takes bid wr ws)) (registered-read early w.phase)
      (λ h.
        Arrives-put_before w (push_to_worker_queue early takes bid wr ws)
          (push-Arrives early takes bid wr ws h))
      e

sent-lost : (wr : ℕ) (o : Option ℕ) (s : System) → (sent_to wr o s).lost ≡ s.lost
sent-lost wr none s = refl
sent-lost wr (some bid) s = elim (Bool-cases (counts bid s.workers)) [
  | inl e ↦ rw e refl
  | inr e ↦ rw e refl
]

module _ (r wr bid : ℕ) (front back : List (ℕ × ℕ)) (s : System) where
  pushed-Late :
      (o : Pushed)
      → s.pushing ≡ front ++ (wr, bid) ∷ back
      → (counts bid s.workers ≡ true → Arrives o)
      → count r s.lost < count r (pushed wr o (record s { pushing = front ++ back })).lost
      → Late r s
  pushed-Late (queued ws) e h lt = absurd (omega arith)
  pushed-Late refused e h lt = absurd (omega arith)
  pushed-Late gone e h lt = elim (Bool-cases (counts bid s.workers)) [
    | inl there ↦ absurd (h there)
    | inr left ↦ record {
      bid = bid;
      front = front;
      back = back;
      under_way = subst (λ x. s.pushing ≡ front ++ (x, bid) ∷ back) (ground arith) e;
      left = left;
    }
  ]

-- A step of the threads makes a request lost only if a push of it is under way and its worker is not
-- in the map any more.
pub step-lost : {s t : System} (r : ℕ) → Step s t → count r s.lost < count r t.lost → Late r s
unfolding fcgi_worker add_ble_worker
step-lost r (connects s) lt = absurd (omega arith)
step-lost r (requests uri s) lt = absurd (
    ground (
      arith,
      sent-lost s.accepted (dongle_in (construct_substrings uri slash))
          (record s { accepted = s.accepted + 1 }),
    ))
step-lost r (pushes early takes wr bid front back s e) lt =
    pushed-Late r wr bid front back s (push_to_worker_queue early takes bid wr s.workers) e
      (push-Arrives early takes bid wr s.workers) lt
step-lost r (works stops i s) lt = absurd (omega arith)
