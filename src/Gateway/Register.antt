-- ===== src/Gateway/Register.antt =====
-- The register of completion events of BLEGatewayApplication/BLE_DRIVER.cpp.
pub mod Watch
use io_tblegateway.Common.{
  ℕ, zero, suc, ◌+◌, bit_and, true, Option, none, some, List, [], ◌∷◌, ◌++◌, ◌==◌, if◌then◌else◌,
  length, get_elem?,
}
use io_tblegateway.Gateway.Driver.{
  Driver, ConnectionEvent, D, Out, ret, undefined, Cause, past_end, dangling,
}

abbrev pub Register : Type 0
Register = List (ℕ × ℕ)

unfoldable pub register_for_completion_event : ℕ → ℕ → D (Unit {0})
register_for_completion_event ce es d =
    ret tt (record d { completion_event_register = d.completion_event_register ++ (ce, es) ∷ [] })

-- `completionEventRegister.erase(completionEventRegister.begin() + i)`
abbrev pub erase_at : ℕ → Register → Register
erase_at i [] = []
erase_at zero (e ∷ es) = es
erase_at (suc i) (e ∷ es) = e ∷ erase_at i es

pub data Posted : Type 0 where
  posted : Register → Option (ℕ × ConnectionEvent) → Posted
  fails : Cause → Posted

-- The struct that the pointer goes to, if its frame is there.
abbrev pub frame_of : ℕ → Option (ℕ × ConnectionEvent) → Option ConnectionEvent
frame_of es none = none
frame_of es (some (p, e)) = if p == es then some e else none

-- The loop over the vector is one over its memory, as the erasing leaves the iterators where they
-- are: `left` more rounds from index `i`.
unfoldable pub post_loop : ℕ → ℕ → ℕ → ℕ → ℕ → Register → Option (ℕ × ConnectionEvent) → Posted
post_loop ce ch code zero i es frame = posted es frame
post_loop ce ch code (suc left) i es frame = elim (get_elem? es i) [
  | none ↦ fails past_end
  | some e ↦
      if bit_and e.0 ce == 0
      then post_loop ce ch code left (i + 1) es frame
      else elim (frame_of e.1 frame) [
        | none ↦ fails dangling
        | some event ↦
            if event.connection_handle == ch
            then post_loop ce ch code left (i + 1) (erase_at i es)
                (some (e.1, record event { event_occurred = true; error_code = code }))
            else post_loop ce ch code left (i + 1) es frame
      ]
]

abbrev pub finish_post : Driver → Posted → Out (Unit {0})
finish_post d (posted es frame) =
    ret tt (record d { completion_event_register = es; frame = frame })
finish_post d (fails cause) = undefined cause

unfoldable pub post_completion_event : ℕ → ℕ → ℕ → D (Unit {0})
post_completion_event ce ch code d =
    let es = d.completion_event_register in
    finish_post d (post_loop ce ch code (length es) 0 es d.frame)
