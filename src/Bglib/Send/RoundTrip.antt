-- ===== src/Bglib/Send/RoundTrip.antt =====
-- What `ble_send_message` hands to `bglib_output`, for every command and all arguments that fit.
use io_tblegateway.Common.{
  ℕ, ◌+◌, ◌*◌, ◌/◌, ◌%◌, ◌^◌, ◌<◌, bit_or, ◌≡◌, refl, ap, ◌∙◌, inl, inr, Bool, true, false, ◌&&◌,
  Option, none, some, List, ◌++◌, arith, ltb, ◌==◌, ==_iff, Option-cases, all_below,
  all_below_sound, Bytes, length, get_elem?,
}
use io_tblegateway.Bglib.Types.{Header, BleMsg}
use io_tblegateway.Bglib.Lookup.{apis}
use io_tblegateway.Bglib.Send.{
  Arg, Kind, kind_of, add_length, Output, header_bytes, start, output, deliver, send_row,
  ble_send_message,
}
use io_tblegateway.Bglib.Send.Layout.{
  kinds, Typed, nil, uint32, uint16, uint8, hwaddr, uint8array, fixed, array, size, parse,
  parse-fixed, length-fixed,
}
use io_tblegateway.Bglib.Send.Rounds.{put_params-kinds, put_all-final, finish, final}

-- the length that a header states, of 11 bits
abbrev pub stated_length : Header → ℕ
stated_length h = h.type_hilen % 8 * 256 + h.lolen

bit_or_table : all_below 256 (λ x. bit_or 0 x == x) ≡ true
unfolding all_below
bit_or_table = refl

bit_or-zero : (x : ℕ) → x < 256 → bit_or 0 x ≡ x
bit_or-zero x h = (==_iff _ x).0 (all_below_sound 256 (λ y. bit_or 0 y == y) x bit_or_table h)

add_length-stated :
    (h : Header) (n : ℕ)
    → h.type_hilen ≡ 0
    → h.lolen < 256
    → n < 256
    → stated_length (add_length h n) ≡ n + h.lolen
unfolding add_length
add_length-stated h n top low small =
    let carry : (n + h.lolen) % 2 ^ 16 / 256 < 256 = omega arith in
    rw (top, bit_or-zero _ carry) (omega arith)

-- What a row of the table must satisfy: no more than 16 nibbles, and a length that is the size of
-- the fixed fields.
row_fits : Option BleMsg → Bool
row_fits none = false
row_fits (some m) =
    ltb m.params (2 ^ 32) && (size (kinds 16 m.params) == m.hdr.lolen && ltb m.hdr.lolen 252)

rows_fit : all_below 245 (λ i. row_fits (get_elem? apis i)) ≡ true
unfolding all_below row_fits apis size kinds kind_of
rows_fit = refl

-- In each row of the table, of a command, a response or an event, the length of the header is the
-- sum of the sizes of the parameters that the row's nibbles name, an array counting with its
-- length only.
pub lolen_size :
    (i : ℕ) {m : BleMsg}
    → get_elem? apis i ≡ some m
    → i < 245
    → m.hdr.lolen ≡ size (kinds 16 m.params)
unfolding row_fits
lolen_size i {m} row lt =
    let fits = all_below_sound 245 (λ k. row_fits (get_elem? apis k)) i rows_fit lt in
    let fits' : row_fits (some m) ≡ true = rw row at fits in ground arith

-- Rows of commands have no type bits.
untyped : Option BleMsg → Bool
untyped none = false
untyped (some m) = m.hdr.type_hilen == 0

commands_untyped : all_below 105 (λ i. untyped (get_elem? apis i)) ≡ true
unfolding all_below untyped apis
commands_untyped = refl

array-lt :
    {ks : List Kind} {args : List Arg} {bs : Bytes}
    → Typed ks args
    → array ks args ≡ some bs
    → length bs < 256
unfolding array
array-lt nil e = cc
array-lt (uint32 h t) e = array-lt t e
array-lt (uint16 h t) e = array-lt t e
array-lt (uint8 h t) e = array-lt t e
array-lt (hwaddr t) e = array-lt t e
array-lt (uint8array {bs} same h) e = ground arith

-- What one call of `bglib_output` must be given for a command `m` with arguments `args`.
pub record Framed (m : BleMsg) (args : List Arg) (out : Output) : Type 0 where
  pub header : Header
  pub payload : Bytes
  pub packet : out.header ≡ header_bytes header ++ payload
  pub whole : out.header_length ≡ length out.header
  pub data_whole : out.data_length ≡ length out.data_ptr
  pub cls : header.cls ≡ m.hdr.cls
  pub command : header.command ≡ m.hdr.command
  pub stated : stated_length header ≡ length payload + out.data_length
  pub received : parse (kinds 16 m.params) (payload ++ out.data_ptr) ≡ some args

-- the packet of a command
unfoldable pub packet_of : BleMsg → List Arg → Output
packet_of m args = output m (final (kinds 16 m.params) args (start m.hdr))

module _ (m : BleMsg) {args : List Arg} (t : Typed (kinds 16 m.params) args)
    (top : m.hdr.type_hilen ≡ 0) (fits : row_fits (some m) ≡ true) where
  send_row-sent : send_row (some m) args ≡ some (packet_of m args)
  unfolding send_row row_fits packet_of
  send_row-sent = ap (deliver m) (
      put_params-kinds 16 m.params args (start m.hdr) (ground arith)
      ∙ put_all-final (start m.hdr) t)

  sent-Framed : Framed m args (packet_of m args)
  unfolding packet_of final finish row_fits add_length
  sent-Framed = elim (Option-cases (array (kinds 16 m.params) args)) [
    | inl e ↦ record {
      header = m.hdr;
      payload = fixed (kinds 16 m.params) args;
      packet = rw e;
      whole = rw e (ground (arith, length-fixed t));
      data_whole = rw e;
      cls = refl;
      command = refl;
      stated = rw e (ground (arith, length-fixed t));
      received = rw e (rw e at (parse-fixed t));
    }
    | inr (bs, e) ↦ record {
      header = add_length m.hdr (length bs);
      payload = fixed (kinds 16 m.params) args;
      packet = rw e;
      whole = rw e (ground (arith, length-fixed t));
      data_whole = rw e;
      cls = refl;
      command = refl;
      stated =
          rw e (ground (arith, length-fixed t, add_length-stated m.hdr (length bs), array-lt t e));
      received = rw e (rw e at (parse-fixed t));
    }
  ]

-- For every command of the table and all arguments that fit its parameters `ble_send_message`
-- returns, and calls `bglib_output` with a packet that is as long as the length passed along, with
-- all of the array if there is one, and with a header that names the command and states the
-- length of what follows it; a receiver that knows the parameters' kinds reads back the arguments.
pub send_message-frames :
    (msgid : ℕ) {m : BleMsg} {args : List Arg}
    → get_elem? apis msgid ≡ some m
    → msgid < 105
    → Typed (kinds 16 m.params) args
    → (ble_send_message msgid args ≡ some (packet_of m args)) × Framed m args (packet_of m args)
unfolding ble_send_message untyped
send_message-frames msgid {m} {args} row small t =
    let fits =
      all_below_sound 245 (λ i. row_fits (get_elem? apis i)) msgid rows_fit (omega arith) in
    let top = all_below_sound 105 (λ i. untyped (get_elem? apis i)) msgid commands_untyped small in
    let top' : m.hdr.type_hilen ≡ 0 = ground arith in
    let fits' = rw row at fits in
    (rw row (send_row-sent m t top' fits'), sent-Framed m t top' fits')
