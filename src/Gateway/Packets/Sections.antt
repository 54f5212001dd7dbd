-- ===== src/Gateway/Packets/Sections.antt =====
-- The packets that the parsers of BLEGatewayApplication/BLE_DRIVER.cpp accept.
use io_tblegateway.Common.{
  subst, ℕ, zero, suc, ◌+◌, ◌-◌, ◌≤◌, ◌<◌, ◌≡◌, refl, sym, ap, ◌∙◌, ◌≢◌, List, [], ◌∷◌, ◌++◌, arith,
  dec_lt, ltb, ◌==◌, if◌then◌else◌, Bytes, length, take, drop, length-append, length-take,
  length-drop, take-append, drop-append,
}
use io_tblegateway.Gateway.Packets.{
  parse_advertisement, byte_at, Parsed, parsed, throws, overrun, parse_from,
}
use native.Mathlib.Numerals.{unary_clauses}
use io_tblegateway.Gateway.Map.{Map, put}

-- The sections of an advertisement, each a type and its data, and their bytes: a length that
-- counts the type, the type, the data.
abbrev Section : Type 0
Section = ℕ × Bytes

unfoldable pub encode : List Section → Bytes
encode [] = []
encode (x ∷ xs) = suc (length x.1) ∷ x.0 ∷ x.1 ++ encode xs

-- later sections replace earlier ones of their type
unfoldable pub put_all : Map ℕ Bytes → List Section → Map ℕ Bytes
put_all m [] = m
put_all m (x ∷ xs) = put_all (put ltb x.0 x.1 m) xs

-- The parser on the bytes that are left.
suffix : ℕ → Bytes → Map ℕ Bytes → Parsed
suffix zero raw m = overrun
suffix (suc fuel) [] m = parsed m
suffix (suc fuel) (len ∷ r) m =
    let rest = suffix fuel (drop len r) (put ltb (byte_at r 0) (take (len - 1) (drop 1 r)) m) in
    if ltb (length r) len
    then throws
    else if len == 0
    then throws
    else if ltb 60 (len - 1)
    then overrun
    else rest

suc_add : (i j : ℕ) → suc i + j ≡ suc (i + j)
suc_add i j = omega arith

drop-drop : (i j : ℕ) (xs : Bytes) → drop j (drop i xs) ≡ drop (i + j) xs
drop-drop zero j xs = ap (λ k. drop k xs) (omega arith)
drop-drop (suc i) zero [] = simp unary_clauses
drop-drop (suc i) (suc j) [] = simp unary_clauses
drop-drop (suc i) j (x ∷ xs) = rw (drop-drop i j xs, suc_add i j)

byte_at-drop : (i j : ℕ) (xs : Bytes) → byte_at (drop i xs) j ≡ byte_at xs (i + j)
byte_at-drop zero j xs = ap (byte_at xs) (omega arith)
byte_at-drop (suc i) j [] = refl
byte_at-drop (suc i) j (x ∷ xs) = rw (byte_at-drop i j xs, suc_add i j)

-- The byte after next of the whole packet is the next one of what is left.
drop_at :
    (raw r : Bytes) (i len k j : ℕ) → len ∷ r ≡ drop i raw → j ≡ i + suc k → drop k r ≡ drop j raw
drop_at raw r i len k j e h =
    ap (drop (suc k)) e ∙ drop-drop i (suc k) raw ∙ ap (λ n. drop n raw) (sym h)

byte_at-dropped :
    (raw r : Bytes) (i len : ℕ) → len ∷ r ≡ drop i raw → byte_at raw (i + 1) ≡ byte_at r 0
byte_at-dropped raw r i len e = sym (ap (λ bs. byte_at bs 1) e ∙ byte_at-drop i 1 raw)

head_at_drop : (raw r : Bytes) (i len : ℕ) → len ∷ r ≡ drop i raw → byte_at raw i ≡ len
head_at_drop raw r i len e =
    sym (ap (λ bs. byte_at bs 0) e ∙ byte_at-drop i 0 raw ∙ ap (byte_at raw) (omega arith))

suffix-step :
    (fuel : ℕ) (raw : Bytes) (i : ℕ) (m : Map ℕ Bytes) (bs : Bytes)
    → bs ≡ drop i raw
    → ((j : ℕ) (n : Map ℕ Bytes) → parse_from fuel raw j n ≡ suffix fuel (drop j raw) n)
    → parse_from (suc fuel) raw i m ≡ suffix (suc fuel) bs m
unfolding parse_from suffix
suffix-step fuel raw i m [] e ih = ground (arith, length-drop i raw, ap length e)
suffix-step fuel raw i m (len ∷ r) e ih =
    rw
      (
        head_at_drop raw r i len e,
        byte_at-dropped raw r i len e,
        ih,
        drop_at raw r i len 1 (i + 2) e (omega arith),
        drop_at raw r i len len (i + len + 1) e (omega arith),
      )
      (ground (arith, length-drop i raw, ap length e))

parse_from-suffix :
    (fuel : ℕ) (raw : Bytes) (i : ℕ) (m : Map ℕ Bytes)
    → parse_from fuel raw i m ≡ suffix fuel (drop i raw) m
parse_from-suffix zero raw i m = unfold parse_from suffix in refl
parse_from-suffix (suc fuel) raw i m =
    suffix-step fuel raw i m (drop i raw) refl (parse_from-suffix fuel raw)

-- The sections that fit in `data`.
abbrev Fits : List Section → Type 0
Fits [] = Unit {0}
Fits (x ∷ xs) = (length x.1 ≤ 60) × Fits xs

sub_one : (n : ℕ) → suc n - 1 ≡ n
sub_one n = omega arith

suffix-encode :
    (xs : List Section) (fuel : ℕ) (m : Map ℕ Bytes)
    → Fits xs
    → length (encode xs) < fuel
    → suffix fuel (encode xs) m ≡ parsed (put_all m xs)
unfolding suffix encode put_all
suffix-encode [] (suc fuel) m fits lt = refl
suffix-encode (x ∷ xs) (suc fuel) m fits lt =
    rw (sub_one (length x.1), take-append x.1 (encode xs), drop-append x.1 (encode xs))
      (ground (
        arith,
        fits.0,
        length-append x.1 (encode xs),
        suffix-encode xs fuel (put ltb x.0 x.1 m) fits.1,
      ))
suffix-encode xs zero m fits lt = absurd (omega arith)

-- An advertisement made of sections is parsed into the map of its sections, in which a later
-- section replaces an earlier one of its type, if no data is longer than the array for it.
parse_advertisement-encode :
    (xs : List Section) → Fits xs → parse_advertisement (encode xs) ≡ parsed (put_all [] xs)
unfolding parse_advertisement
parse_advertisement-encode xs fits =
    parse_from-suffix (suc (length (encode xs))) (encode xs) 0 []
    ∙ suffix-encode xs (suc (length (encode xs))) [] fits (omega arith)

-- What the outcome says of the bytes: a map is that of sections that spell them.
abbrev pub Spells : Bytes → Map ℕ Bytes → Parsed → Type 0
Spells raw m (parsed n) = (xs : List Section) × (raw ≡ encode xs) × (n ≡ put_all m xs)
Spells raw m throws = (xs : List Section) → raw ≢ encode xs
Spells raw m overrun = ⊥

take-drop : (k : ℕ) (r : Bytes) → take k r ++ drop k r ≡ r
take-drop zero r = refl
take-drop (suc k) [] = refl
take-drop (suc k) (b ∷ r) = ap (λ bs. b ∷ bs) (take-drop k r)

-- a first section and what follows it
split_first :
    (k t : ℕ) (r : Bytes) (x : Section) (xs : List Section)
    → suc k ∷ t ∷ r ≡ encode (x ∷ xs)
    → (k ≤ length r) × (drop k r ≡ encode xs)
unfolding encode
split_first k t r x xs e =
    let same : k ≡ length x.1 = omega (arith, ap (λ bs. byte_at bs 0) e) in
    let tail : r ≡ x.1 ++ encode xs = ap (drop 2) e in
    (
      omega (arith, same, ap length tail, length-append x.1 (encode xs)),
      ap (drop k) tail ∙ ap (λ n. drop n (x.1 ++ encode xs)) same ∙ drop-append x.1 (encode xs),
    )

not_first :
    (k t : ℕ) (r : Bytes)
    → ((x : Section) (xs : List Section) → suc k ∷ t ∷ r ≡ encode (x ∷ xs) → ⊥)
    → (xs : List Section) → suc k ∷ t ∷ r ≢ encode xs
unfolding encode
not_first k t r no_first [] e = ground arith
not_first k t r no_first (x ∷ xs) e = no_first x xs e

zero_Spells : (r : Bytes) (xs : List Section) → zero ∷ r ≢ encode xs
unfolding encode
zero_Spells r [] e = ground arith
zero_Spells r (x ∷ xs) e = ground arith

single_Spells : (k : ℕ) (xs : List Section) → suc k ∷ [] ≢ encode xs
unfolding encode
single_Spells k [] e = ground arith
single_Spells k (x ∷ xs) e = ground arith

short_Spells :
    (k t : ℕ) (r : Bytes) → length r < k → (xs : List Section) → suc k ∷ t ∷ r ≢ encode xs
short_Spells k t r lt = not_first k t r (λ x xs e. omega (arith, (split_first k t r x xs e).0))

Spells-cons :
    (k t : ℕ) (r : Bytes) (m : Map ℕ Bytes) (out : Parsed)
    → k ≤ length r
    → Spells (drop k r) (put ltb t (take k r) m) out
    → Spells (suc k ∷ t ∷ r) m out
unfolding encode put_all
Spells-cons k t r m (parsed n) le (xs, e, same) = (
  (t, take k r) ∷ xs,
  rw (sym e, take-drop k r) (ap (λ j. suc j ∷ t ∷ r) (omega (arith, length-take k r))),
  same,
)
Spells-cons k t r m throws le no_sections =
    not_first k t r (λ x xs e. no_sections xs (split_first k t r x xs e).1)
Spells-cons k t r m overrun le no_sections = elim no_sections [ ]

suffix_short :
    (fuel k t : ℕ) (r : Bytes) (m : Map ℕ Bytes)
    → length r < k
    → suffix (suc fuel) (suc k ∷ t ∷ r) m ≡ throws
unfolding suffix
suffix_short fuel k t r m lt = ground arith

suffix-zero : (fuel : ℕ) (r : Bytes) (m : Map ℕ Bytes) → suffix (suc fuel) (zero ∷ r) m ≡ throws
unfolding suffix
suffix-zero fuel r m = ground arith

suffix_single : (fuel k : ℕ) (m : Map ℕ Bytes) → suffix (suc fuel) (suc k ∷ []) m ≡ throws
unfolding suffix
suffix_single fuel k m = ground arith

suffix_first :
    (fuel k t : ℕ) (r : Bytes) (m : Map ℕ Bytes)
    → k ≤ length r
    → k ≤ 60
    → suffix (suc fuel) (suc k ∷ t ∷ r) m ≡ suffix fuel (drop k r) (put ltb t (take k r) m)
unfolding suffix
suffix_first fuel k t r m le small = rw (sub_one k) (ground arith)

suffix-Spells :
    (fuel : ℕ) (bs : Bytes) (m : Map ℕ Bytes)
    → length bs < fuel
    → length bs ≤ 60
    → Spells bs m (suffix fuel bs m)
suffix-Spells (suc fuel) [] m lt small = unfold suffix encode put_all in ([], refl, refl)
suffix-Spells (suc fuel) (zero ∷ r) m lt small =
    subst (Spells (zero ∷ r) m) (sym (suffix-zero fuel r m)) (zero_Spells r)
suffix-Spells (suc fuel) (suc k ∷ []) m lt small =
    subst (Spells (suc k ∷ []) m) (sym (suffix_single fuel k m)) (single_Spells k)
suffix-Spells (suc fuel) (suc k ∷ t ∷ r) m lt small = elim (dec_lt (length r) k) [
  | yes short ↦
      subst (Spells (suc k ∷ t ∷ r) m) (sym (suffix_short fuel k t r m short))
        (short_Spells k t r short)
  | no long ↦
      subst (Spells (suc k ∷ t ∷ r) m) (sym (suffix_first fuel k t r m (omega arith) (omega arith)))
        (Spells-cons k t r m (suffix fuel (drop k r) (put ltb t (take k r) m)) (omega arith) (
          suffix-Spells fuel (drop k r) (put ltb t (take k r) m) (omega (arith, length-drop k r))
            (omega (arith, length-drop k r))))
]
suffix-Spells zero bs m lt small = absurd (omega arith)

-- On at most 60 bytes the parser stays inside its arrays. It returns a map only if the bytes are
-- those of sections, of which it is the map, and throws only if they are not.
pub parse_advertisement-Spells :
    (raw : Bytes) → length raw ≤ 60 → Spells raw [] (parse_advertisement raw)
unfolding parse_advertisement
parse_advertisement-Spells raw small =
    subst (Spells raw []) (sym (parse_from-suffix (suc (length raw)) raw 0 []))
      (suffix-Spells (suc (length raw)) raw [] (omega arith) small)
