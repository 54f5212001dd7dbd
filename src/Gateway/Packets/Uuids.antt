-- ===== src/Gateway/Packets/Uuids.antt =====
-- `ParseUUID` of BLEGatewayApplication/BLE_DRIVER.cpp.
use mathlib.Core.List.{reverse, reverse-cons, reverse-reverse}
use io_tblegateway.Common.{
  ℕ, zero, suc, ◌≤◌, ◌≡◌, refl, sym, ap, ◌∙◌, some, [], ◌∷◌, ◌++◌, arith, Bytes, length,
  length-append,
}
use io_tblegateway.Gateway.Packets.{byte_at, copy_back, parse_uuid}

copy_back-cons : (n x : ℕ) (xs : Bytes) → copy_back (suc n) (x ∷ xs) ≡ copy_back n xs ++ x ∷ []
unfolding copy_back
copy_back-cons zero x xs = refl
copy_back-cons (suc n) x xs = ap (λ bs. byte_at xs n ∷ bs) (copy_back-cons n x xs)

copy_back-reverse : (raw : Bytes) → copy_back (length raw) raw ≡ reverse raw
copy_back-reverse [] = unfold copy_back in refl
copy_back-reverse (x ∷ xs) =
    copy_back-cons (length xs) x xs
    ∙ ap (λ bs. bs ++ x ∷ []) (copy_back-reverse xs)
    ∙ sym (reverse-cons x xs)

length-reverse : (raw : Bytes) → length (reverse raw) ≡ length raw
length-reverse [] = refl
length-reverse (x ∷ xs) =
    rw (reverse-cons x xs) (omega (arith, length-append (reverse xs) (x ∷ []), length-reverse xs))

parse_uuid-reverse :
    (raw : Bytes) → 1 ≤ length raw → length raw ≤ 16 → parse_uuid raw ≡ some (reverse raw)
unfolding parse_uuid
parse_uuid-reverse raw low high = rw (copy_back-reverse raw) (ground arith)

parse_uuid-sized :
    (raw uuid : Bytes) → parse_uuid raw ≡ some uuid → (1 ≤ length raw) × (length raw ≤ 16)
unfolding parse_uuid
parse_uuid-sized raw uuid h = ground arith

-- Reading a UUID that was read gives the bytes that were received: `ParseUUID` turns the order of
-- the bytes round and loses none, whatever it accepts.
parse_uuid_twice : (raw uuid : Bytes) → parse_uuid raw ≡ some uuid → parse_uuid uuid ≡ some raw
parse_uuid_twice raw uuid h =
    let sized = parse_uuid-sized raw uuid h in
    let turned : uuid ≡ reverse raw = cc (h, parse_uuid-reverse raw sized.0 sized.1) in
    ap parse_uuid turned
    ∙ parse_uuid-reverse (reverse raw) (omega (arith, sized.0, length-reverse raw))
        (omega (arith, sized.1, length-reverse raw))
    ∙ ap (λ bs. some bs) (reverse-reverse raw)
