-- ===== src/Gateway/Receive/Gone.antt =====
-- What the message that a device has disconnected does in BLEGatewayApplication/BLE_DRIVER.cpp.
use io_tblegateway.Common.{ℕ, ◌≡◌, ◌≢◌, Option, none, [], ◌∷◌, ltb, length}
use io_tblegateway.Tpl.{v, c}
use io_tblegateway.Gateway.Map.{erase, ltb-Order, find-erase, find-erase_other}
use io_tblegateway.Gateway.Driver.{
  Driver, ConnectionEvent, Out, ret, thrown, blocked, undefined, then_run, modify, device_at,
}
use io_tblegateway.Gateway.Register.{
  Register, Posted, posted, fails, post_loop, finish_post, post_completion_event,
}
use io_tblegateway.Gateway.Register.Watch.{After, PostKeeps}
use io_tblegateway.Gateway.Events.{got_disconnected}
use io_tblegateway.Gateway.Receive.Keeps.{SoundWith}

-- The device is gone, and the others are as they were.
abbrev pub Gone : ℕ → Driver → Out (Unit {0}) → Type 0
Gone handle d (ret _ after) =
    (device_at handle after ≡ none)
    × ((other : ℕ) → other ≢ handle → device_at other after ≡ device_at other d)
Gone handle d (thrown after) = ⊥
Gone handle d (blocked after) = ⊥
Gone handle d (undefined cause) = ⊥

-- After the message that a device has disconnected, no connected device has its handle, and the
-- other devices are as they were, whichever wait is registered.
pub disconnected-Gone :
    (I : Register → Option (ℕ × ConnectionEvent) → Type 0) (handle idx reason : ℕ) (d : Driver)
    → PostKeeps I
    → SoundWith I d
    → Gone handle d (got_disconnected (v idx ∷ c handle ∷ v reason ∷ []) d)
unfolding got_disconnected post_completion_event
disconnected-Gone I handle idx reason d keeps h =
    let es = d.completion_event_register in
    erased (post_loop 0x80 handle 0 (length es) 0 es d.frame) (keeps 0x80 handle 0 es d.frame h.0)
  where
    erased :
        (r : Posted)
        → After I r
        → Gone handle d (
            then_run (finish_post d r) (λ _.
              modify (λ x. record x { connected_devices = erase ltb handle x.connected_devices })))
    erased (posted reg frame) a = (
      find-erase ltb-Order handle d.connected_devices h.1.0,
      λ other ne. find-erase_other ltb-Order other handle d.connected_devices h.1.0 ne,
    )
    erased (fails cause) a = elim a [ ]
