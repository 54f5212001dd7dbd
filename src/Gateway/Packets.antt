-- ===== src/Gateway/Packets.antt =====
-- What BLEGatewayApplication/BLE_DRIVER.cpp reads out of the payload of an event: `ParseUUID` and
-- `ParseBGAPIAdvertisementPacket`.
pub mod Sections
pub mod Uuids
use io_tblegateway.Common.{
  ℕ, zero, suc, ◌+◌, ◌-◌, ◌&&◌, Option, none, some, [], ◌∷◌, ltb, leb, ◌==◌, if◌then◌else◌, Bytes,
  length, take, drop,
}
use io_tblegateway.Gateway.Map.{Map, put}

-- A byte behind the last one reads as 0, and no function here reads one.
abbrev pub byte_at : Bytes → ℕ → ℕ
byte_at [] i = 0
byte_at (b ∷ bs) zero = b
byte_at (b ∷ bs) (suc i) = byte_at bs i

-- The loop from the last byte of the first `n` down to the first one.
unfoldable copy_back : ℕ → Bytes → Bytes
copy_back zero raw = []
copy_back (suc n) raw = byte_at raw n ∷ copy_back n raw

-- A `Uuid` is the `length` bytes of its `addr` that are set. `none` is the exception.
unfoldable pub parse_uuid : Bytes → Option Bytes
unfolding copy_back
parse_uuid raw =
    if leb (length raw) 16 && ltb 0 (length raw) then some (copy_back (length raw) raw) else none

-- How the parser of advertisements ends: with the map, with an exception, or outside of `data` in
-- an `AdvertisementPayload`.
pub data Parsed : Type 0 where
  parsed : Map ℕ Bytes → Parsed
  throws : Parsed
  overrun : Parsed

-- The loop at index `i`, for at most `fuel` rounds.
unfoldable parse_from : ℕ → Bytes → ℕ → Map ℕ Bytes → Parsed
parse_from zero raw i m = overrun
parse_from (suc fuel) raw i m =
    let len = byte_at raw i in
    let type = byte_at raw (i + 1) in
    let data_array = take (len - 1) (drop (i + 2) raw) in
    let rest = parse_from fuel raw (i + len + 1) (put ltb type data_array m) in
    if ltb i (length raw)
    then if leb (length raw) (i + len)
      then throws
      else if len == 0
      then throws
      else if ltb 60 (len - 1)
      then overrun
      else rest
    else parsed m

unfoldable pub parse_advertisement : Bytes → Parsed
unfolding parse_from
parse_advertisement raw = parse_from (suc (length raw)) raw 0 []
