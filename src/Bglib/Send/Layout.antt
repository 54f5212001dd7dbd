-- ===== src/Bglib/Send/Layout.antt =====
-- What each kind of parameter puts on the wire, written without the loop of `ble_send_message`,
-- and how a receiver reads it back.
use io_tblegateway.Common.{
  ℕ, zero, suc, ◌+◌, ◌*◌, ◌/◌, ◌%◌, ◌^◌, ◌<◌, ◌≡◌, refl, ap, Option, none, some, List, [], ◌∷◌,
  ◌++◌, arith, ◌==◌, if◌then◌else◌, Bytes, length,
}
use io_tblegateway.Bglib.Send.{Arg, int, ptr, Kind, kind_of}

-- The kinds of the parameters, first one first, of a word of nibbles.
unfoldable pub kinds : ℕ → ℕ → List Kind
kinds zero i = []
kinds (suc fuel) i =
    let rest = kind_of (i % 16) ∷ kinds fuel (i / 16) in if i == 0 then [] else rest

-- Arguments that fit their kinds; an array is the last parameter, as in every command.
pub data Typed : List Kind → List Arg → Type 0 where
  nil : Typed [] []
  uint32 :
      {x : ℕ} {ks : List Kind} {args : List Arg}
      → x < 2 ^ 32
      → Typed ks args
      → Typed (Kind.uint32 ∷ ks) (int x ∷ args)
  uint16 :
      {x : ℕ} {ks : List Kind} {args : List Arg}
      → x < 2 ^ 16
      → Typed ks args
      → Typed (Kind.uint16 ∷ ks) (int x ∷ args)
  uint8 :
      {x : ℕ} {ks : List Kind} {args : List Arg}
      → x < 256
      → Typed ks args
      → Typed (Kind.uint8 ∷ ks) (int x ∷ args)
  hwaddr :
      {a b c d e f : ℕ} {ks : List Kind} {args : List Arg}
      → Typed ks args
      → Typed (Kind.hwaddr ∷ ks) (ptr (a ∷ b ∷ c ∷ d ∷ e ∷ f ∷ []) ∷ args)
  uint8array :
      {bs : Bytes} {n : ℕ}
      → n ≡ length bs
      → n < 256
      → Typed (Kind.uint8array ∷ []) (int n ∷ ptr bs ∷ [])

-- The bytes in the packet's payload: fixed fields, and the length byte of an array.
unfoldable pub fixed : List Kind → List Arg → Bytes
fixed (Kind.uint32 ∷ ks) (int x ∷ args) =
    x % 256 ∷ x / 256 % 256 ∷ x / 65536 % 256 ∷ x / 16777216 % 256 ∷ fixed ks args
fixed (Kind.uint16 ∷ ks) (int x ∷ args) = x % 256 ∷ x / 256 % 256 ∷ fixed ks args
fixed (Kind.uint8 ∷ ks) (int x ∷ args) = x % 256 ∷ fixed ks args
fixed (Kind.hwaddr ∷ ks) (ptr bs ∷ args) = bs ++ fixed ks args
fixed (Kind.uint8array ∷ ks) (int n ∷ args) = n ∷ []
fixed _ _ = []

-- The bytes that follow the packet: those of the array, if there is one.
unfoldable pub array : List Kind → List Arg → Option Bytes
array (Kind.uint32 ∷ ks) (a ∷ args) = array ks args
array (Kind.uint16 ∷ ks) (a ∷ args) = array ks args
array (Kind.uint8 ∷ ks) (a ∷ args) = array ks args
array (Kind.hwaddr ∷ ks) (a ∷ args) = array ks args
array (Kind.uint8array ∷ ks) (a ∷ ptr bs ∷ args) = some bs
array _ _ = none

-- the bytes that a list of kinds takes in the payload
unfoldable pub size : List Kind → ℕ
size [] = 0
size (Kind.uint32 ∷ ks) = 4 + size ks
size (Kind.uint16 ∷ ks) = 2 + size ks
size (Kind.uint8 ∷ ks) = 1 + size ks
size (Kind.hwaddr ∷ ks) = 6 + size ks
size (Kind.uint8array ∷ ks) = 1 + size ks
size (Kind.uint16array ∷ ks) = 2 + size ks
size (Kind.other ∷ ks) = size ks

abbrev prepend : Arg → Option (List Arg) → Option (List Arg)
prepend a none = none
prepend a (some args) = some (a ∷ args)

-- The receiver: little-endian fields, and an array as its length and that many bytes, which end
-- the packet.
unfoldable pub parse : List Kind → Bytes → Option (List Arg)
parse [] [] = some []
parse (Kind.uint32 ∷ ks) (a ∷ b ∷ c ∷ d ∷ bs) =
    prepend (int (a + 256 * b + 65536 * c + 16777216 * d)) (parse ks bs)
parse (Kind.uint16 ∷ ks) (a ∷ b ∷ bs) = prepend (int (a + 256 * b)) (parse ks bs)
parse (Kind.uint8 ∷ ks) (a ∷ bs) = prepend (int a) (parse ks bs)
parse (Kind.hwaddr ∷ ks) (a ∷ b ∷ c ∷ d ∷ e ∷ f ∷ bs) =
    prepend (ptr (a ∷ b ∷ c ∷ d ∷ e ∷ f ∷ [])) (parse ks bs)
parse (Kind.uint8array ∷ []) (n ∷ bs) = if n == length bs then some (int n ∷ ptr bs ∷ []) else none
parse _ _ = none

abbrev pub bytes_of : Option Bytes → Bytes
bytes_of none = []
bytes_of (some bs) = bs

-- A receiver that knows the kinds reads back the arguments from the two pieces.
pub parse-fixed :
    {ks : List Kind} {args : List Arg}
    → Typed ks args
    → parse ks (fixed ks args ++ bytes_of (array ks args)) ≡ some args
unfolding parse fixed array
parse-fixed nil = refl
parse-fixed (uint32 {x} {args = r} h t) =
    rw (parse-fixed t) (ap (λ k. some (int k ∷ r)) (omega arith))
parse-fixed (uint16 {x} {args = r} h t) =
    rw (parse-fixed t) (ap (λ k. some (int k ∷ r)) (omega arith))
parse-fixed (uint8 {x} {args = r} h t) =
    rw (parse-fixed t) (ap (λ k. some (int k ∷ r)) (omega arith))
parse-fixed (hwaddr t) = rw (parse-fixed t)
parse-fixed (uint8array {bs} {n} e h) = ground arith

pub length-fixed :
    {ks : List Kind} {args : List Arg} → Typed ks args → length (fixed ks args) ≡ size ks
unfolding fixed size
length-fixed nil = refl
length-fixed (uint32 h t) = omega (arith, length-fixed t)
length-fixed (uint16 h t) = omega (arith, length-fixed t)
length-fixed (uint8 h t) = omega (arith, length-fixed t)
length-fixed (hwaddr t) = omega (arith, length-fixed t)
length-fixed (uint8array e h) = refl
