-- ===== src/Gateway/Register/Watch.antt =====
-- The register of BLEGatewayApplication/BLE_DRIVER.cpp while one wait is going on.
use io_tblegateway.Common.{
  ℕ, bit_and, ◌≡◌, refl, inl, inr, Bool, true, false, Option, none, some, [], ◌∷◌, arith, ◌==◌,
  Bool-cases, length,
}
use io_tblegateway.Gateway.Driver.{ConnectionEvent}
use io_tblegateway.Gateway.Register.{Register, Posted, posted, fails, post_loop}

abbrev pub event : Bool → ℕ → ℕ → ConnectionEvent
event occurred ch code = record {
  event_occurred = occurred;
  connection_handle = ch;
  error_code = code;
}

-- A wait for `ce` on connection `ch`, with its frame `es`: it is registered and nothing has come,
-- or it has been released with a code, and is not registered.
pub data Watching (ce ch es : ℕ) : Register → Option (ℕ × ConnectionEvent) → Type 0 where
  pending : (code : ℕ) → Watching ce ch es ((ce, es) ∷ []) (some (es, event false ch code))
  released : (code : ℕ) → Watching ce ch es [] (some (es, event true ch code))

-- What holds of the register after a post that is defined, as every post has to be.
abbrev pub After : (Register → Option (ℕ × ConnectionEvent) → Type 0) → Posted → Type 0
After I (posted es frame) = I es frame
After I (fails cause) = ⊥

abbrev pub PostKeeps : (Register → Option (ℕ × ConnectionEvent) → Type 0) → Type 0
PostKeeps I =
    (ce ch code : ℕ) (es : Register) (frame : Option (ℕ × ConnectionEvent))
    → I es frame
    → After I (post_loop ce ch code (length es) 0 es frame)

self_eq : (n : ℕ) → (n == n) ≡ true
self_eq n = ground arith

pub Watching-post : (ce ch es : ℕ) → PostKeeps (Watching ce ch es)
unfolding post_loop
Watching-post ce ch es flags handle code _ _ (pending was) =
    elim (Bool-cases (bit_and ce flags == 0)) [
      | inl p ↦ rw p (pending was)
      | inr p ↦
          rw (p, self_eq es)
            (elim (Bool-cases (ch == handle)) [
              | inl q ↦ rw q (released code)
              | inr q ↦ rw q (pending was)
            ])
    ]
Watching-post ce ch es flags handle code _ _ (released was) = released was

-- Nothing is registered.
abbrev pub Quiet : Register → Option (ℕ × ConnectionEvent) → Type 0
Quiet es frame = (es ≡ []) × (frame ≡ none)

pub Quiet-post : PostKeeps Quiet
unfolding post_loop
Quiet-post ce ch code [] frame q = q
Quiet-post ce ch code (e ∷ es) frame q = absurd (ground (arith, q.0))

-- The flags and the connection of a post release the wait that is going on with the code.
pub post-releases :
    (ce ch es flags code was : ℕ)
    → (bit_and ce flags == 0) ≡ false
    → post_loop flags ch code 1 0 ((ce, es) ∷ []) (some (es, event false ch was))
      ≡ posted [] (some (es, event true ch code))
unfolding post_loop
post-releases ce ch es flags code was h = rw (h, self_eq es, self_eq ch) refl
