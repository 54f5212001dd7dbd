-- ===== src/Bglib/Lookup/Find.antt =====
-- `ble_find_msg_hdr` of BLEGatewayClient/cmd_def.c against the search that it stands for.
use io_tblegateway.Common.{
  subst, ◌≡◌, refl, sym, ap, ◌∙◌, ◌≢◌, inl, inr, Bool, true, false, Option, none, some, List, [],
  ◌∷◌, ◌++◌, arith, if◌then◌else◌, Bool-cases, Option-cases,
}
use io_tblegateway.Bglib.Handlers.{Handler}
use io_tblegateway.Bglib.Types.{Header, BleMsg, MsgPtr, null, ref}
use io_tblegateway.Bglib.Lookup.{apis, same_key, find_from, ble_find_msg_hdr}

-- the rows of a stretch of the table have a handler, and another key than the header
abbrev pub Passed : Header → List BleMsg → Type 0
Passed hdr [] = Unit
Passed hdr (m ∷ ms) = (m.handler ≢ none) × (same_key m hdr ≡ false) × Passed hdr ms

-- What a search from the start of the rows gives: the first row with the header's key, or null at
-- the row without a handler.
pub data First (hdr : Header) (rows : List BleMsg) : MsgPtr → Type 0 where
  hit :
      (front : List BleMsg) (m : BleMsg) (back : List BleMsg)
      → rows ≡ front ++ (m ∷ back)
      → Passed hdr front
      → same_key m hdr ≡ true
      → First hdr rows (ref m)
  miss :
      (front : List BleMsg) (m : BleMsg) (back : List BleMsg)
      → rows ≡ front ++ (m ∷ back)
      → Passed hdr front
      → m.handler ≡ none
      → First hdr rows null

-- the table has a last row
ended : List BleMsg → Bool
ended [] = false
ended (m ∷ ms) = elim m.handler [ none ↦ true | some h ↦ ended ms ]

First-next :
    {hdr : Header} {m : BleMsg} {ms : List BleMsg} {p : MsgPtr}
    → m.handler ≢ none
    → same_key m hdr ≡ false
    → First hdr ms p
    → First hdr (m ∷ ms) p
First-next {m = m} some_handler other (hit front r back split passed same) =
    hit (m ∷ front) r back (ap (λ rows. m ∷ rows) split) (some_handler, other, passed) same
First-next {m = m} some_handler other (miss front r back split passed bare) =
    miss (m ∷ front) r back (ap (λ rows. m ∷ rows) split) (some_handler, other, passed) bare

find_from-First :
    (rows : List BleMsg) (hdr : Header) → ended rows ≡ true → First hdr rows (find_from rows hdr)
unfolding find_from ended
find_from-First [] hdr e = ground arith
find_from-First (m ∷ ms) hdr e =
    let at_row : Option Handler → MsgPtr =
      λ o. elim o [ none ↦ null | some h ↦ if same_key m hdr then ref m else find_from ms hdr ] in
    let ends : Option Handler → Bool = λ o. elim o [ none ↦ true | some h ↦ ended ms ] in
    elim (Option-cases m.handler) [
      | inl bare ↦ subst (First hdr (m ∷ ms)) (sym (ap at_row bare)) (miss [] m ms refl tt bare)
      | inr (h, handled) ↦
          subst (First hdr (m ∷ ms)) (sym (ap at_row handled)) (elim (Bool-cases (same_key m hdr)) [
            | inl same ↦ rw same (hit [] m ms refl tt same)
            | inr other ↦
                rw other (
                  First-next (cc handled) other
                    (find_from-First ms hdr (sym (ap ends handled) ∙ e)))
          ])
    ]

apis_ended : ended apis ≡ true
unfolding ended apis
apis_ended = refl

-- For every header `ble_find_msg_hdr` reads no row behind the last, and returns the first row with
-- the header's type, class and command, or null if there is none.
pub ble_find_msg_hdr-First : (hdr : Header) → First hdr apis (ble_find_msg_hdr hdr)
unfolding ble_find_msg_hdr
ble_find_msg_hdr-First hdr = find_from-First apis hdr apis_ended
