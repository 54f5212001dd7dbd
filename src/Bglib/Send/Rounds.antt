-- ===== src/Bglib/Send/Rounds.antt =====
-- The loop of `ble_send_message` ends, and leaves the packet that the kinds of its parameters give.
use io_tblegateway.Common.{
  ℕ, zero, suc, ◌/◌, ◌%◌, ◌^◌, ◌<◌, ◌≡◌, ◌∙◌, inl, inr, Option, none, some, List, [], ◌∷◌, ◌++◌,
  append-nil, append_assoc, arith, ◌==◌, Bool-cases, Option-cases, Bytes, length,
}
use native.Mathlib.Nat.{pow-suc}
use io_tblegateway.Bglib.Send.{Arg, Packet, Kind, kind_of, append, with_data, put, put_params}
use io_tblegateway.Bglib.Send.Layout.{
  kinds, Typed, nil, uint32, uint16, uint8, hwaddr, uint8array, fixed, array,
}

-- the loop over the kinds
pub put_all : List Kind → List Arg → Packet → Option Packet
put_all [] args p = some p
put_all (k ∷ ks) args p = elim (put k args p) [
  | none ↦ none
  | some (args', p') ↦ put_all ks args' p'
]

-- The loop over the nibbles ends, and is the loop over the kinds.
pub put_params-kinds :
    (fuel i : ℕ) (args : List Arg) (p : Packet)
    → i < 16 ^ fuel
    → put_params (suc fuel) i args p ≡ put_all (kinds fuel i) args p
unfolding put_params put_all kinds
put_params-kinds zero i args p h = ground arith
put_params-kinds (suc fuel) i args p h = elim (Bool-cases (i == 0)) [
  | inl done ↦ rw done
  | inr more ↦ elim (Option-cases (put (kind_of (i % 16)) args p)) [
    | inl e ↦ ground arith
    | inr ((args', p'), e) ↦
        let low : i / 16 < 16 ^ fuel = omega (arith, pow-suc 16 fuel) in
        ground (arith, put_params-kinds fuel (i / 16) args' p' low)
  ]
]

unfoldable pub finish : Option Bytes → Packet → Packet
finish none p = p
finish (some bs) p = with_data p (length bs) bs

unfoldable pub final : List Kind → List Arg → Packet → Packet
unfolding finish
final ks args p = append (finish (array ks args) p) (fixed ks args)

-- Bytes that are written before the rest come first.
final-append :
    (p : Packet) (bs : Bytes) (ks : List Kind) (args : List Arg)
    → some (final ks args (append p bs))
      ≡ some (append (finish (array ks args) p) (bs ++ fixed ks args))
unfolding final finish
final-append p bs ks args = elim (Option-cases (array ks args)) [
  | inl e ↦ rw (e, append_assoc)
  | inr (data_bytes, e) ↦ rw (e, append_assoc)
]

pub put_all-final :
    {ks : List Kind} {args : List Arg} (p : Packet)
    → Typed ks args
    → put_all ks args p ≡ some (final ks args p)
unfolding put_all final put fixed array
put_all-final p nil = rw append-nil
put_all-final p (uint32 {x} {ks} {args} h t) =
    let bs : Bytes = x % 256 ∷ x / 256 % 256 ∷ x / 65536 % 256 ∷ x / 16777216 % 256 ∷ [] in
    put_all-final (append p bs) t ∙ final-append p bs ks args
put_all-final p (uint16 {x} {ks} {args} h t) =
    let bs : Bytes = x % 256 ∷ x / 256 % 256 ∷ [] in
    put_all-final (append p bs) t ∙ final-append p bs ks args
put_all-final p (uint8 {x} {ks} {args} h t) =
    let bs : Bytes = x % 256 ∷ [] in put_all-final (append p bs) t ∙ final-append p bs ks args
put_all-final p (hwaddr {a} {b} {c} {d} {e} {f} {ks} {args} t) =
    let bs : Bytes = a ∷ b ∷ c ∷ d ∷ e ∷ f ∷ [] in
    put_all-final (append p bs) t ∙ final-append p bs ks args
put_all-final p (uint8array {bs} {n} e h) =
    let whole : n % 2 ^ 16 ≡ n = omega arith in
    let low : n % 256 ≡ n = omega arith in rw (whole, low, e)
