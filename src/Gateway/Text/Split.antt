-- ===== src/Gateway/Text/Split.antt =====
-- `ConstructSubstrings` of BLEGatewayApplication/BLE_HELPER.cpp.
use io_tblegateway.Common.{
  ℕ, zero, suc, ◌+◌, ◌≤◌, ◌<◌, ◌≡◌, refl, sym, ap, ◌∙◌, ◌≢◌, inl, inr, Option, none, some, List, [],
  ◌∷◌, ◌++◌, append-nil, append_assoc, arith, ◌==◌, if◌then◌else◌, Bool-cases, Bytes, length,
}
use io_tblegateway.Gateway.Text.{
  after_prefix, Found, further, found_or, find, push_nonempty, split_loop, construct_substrings,
}

-- The parts of a text between the occurrences of a byte, without the empty ones; `cur` is the part
-- that has been read.
unfoldable pub fields : ℕ → Bytes → Bytes → List Bytes
fields d cur [] = push_nonempty [] cur
fields d cur (ch ∷ str) =
    if d == ch then push_nonempty [] cur ++ fields d [] str else fields d (cur ++ ch ∷ []) str

push_nonempty_after :
    (result : List Bytes) (subs : Bytes)
    → push_nonempty result subs ≡ result ++ push_nonempty [] subs
push_nonempty_after result [] = sym (append-nil result)
push_nonempty_after result (ch ∷ subs) = refl

-- What is found is shorter by the delimiter.
abbrev Short : Bytes → ℕ → Option Bytes → Type 0
Short ds n none = Unit {0}
Short ds n (some behind) = length behind + length ds ≤ n

abbrev Shorter : Bytes → ℕ → Found → Type 0
Shorter ds n none = Unit {0}
Shorter ds n (some p) = length p.1 + length ds ≤ n

after_prefix-Short : (ds str : Bytes) → Short ds (length str) (after_prefix ds str)
unfolding after_prefix
after_prefix-Short [] str = omega arith
after_prefix-Short (d ∷ ds) [] = tt
after_prefix-Short (d ∷ ds) (ch ∷ str) = elim (Bool-cases (d == ch)) [
  | inl p ↦ rw p (longer ds (length str) (after_prefix ds str) (after_prefix-Short ds str))
  | inr p ↦ rw p tt
]
  where
    longer : (ds : Bytes) (n : ℕ) (o : Option Bytes) → Short ds n o → Short (d ∷ ds) (suc n) o
    longer ds n none h = tt
    longer ds n (some behind) h = omega arith

found_or-Shorter :
    (ds : Bytes) (n : ℕ) (o : Option Bytes) (f : Found)
    → Short ds n o
    → Shorter ds n f
    → Shorter ds n (found_or o f)
found_or-Shorter ds n none f h k = k
found_or-Shorter ds n (some behind) f h k = h

further-Shorter :
    (ds : Bytes) (n ch : ℕ) (f : Found) → Shorter ds n f → Shorter ds (suc n) (further ch f)
further-Shorter ds n ch none h = tt
further-Shorter ds n ch (some p) h = omega arith

find-Shorter : (ds str : Bytes) → Shorter ds (length str) (find ds str)
unfolding find
find-Shorter ds [] = found_or-Shorter ds 0 (after_prefix ds []) none (after_prefix-Short ds []) tt
find-Shorter ds (ch ∷ str) =
    found_or-Shorter ds (suc (length str)) (after_prefix ds (ch ∷ str)) (further ch (find ds str))
      (after_prefix-Short ds (ch ∷ str))
      (further-Shorter ds (length str) ch (find ds str) (find-Shorter ds str))

-- The loop ends for a delimiter that is not empty.
split_loop-Ends :
    (fuel d : ℕ) (ds str : Bytes) (result : List Bytes)
    → length str < fuel
    → split_loop fuel (d ∷ ds) str result ≢ none
unfolding split_loop
split_loop-Ends (suc fuel) d ds str result lt =
    elim (find (d ∷ ds) str)
        as (λ f.
          Shorter (d ∷ ds) (length str) f
          → elim f [
            | none ↦ some (push_nonempty result str)
            | some p ↦ split_loop fuel (d ∷ ds) p.1 (push_nonempty result p.0)
          ]
            ≢ none) [
              | none ↦ λ h e. ground arith
              | some p ↦ λ h. split_loop-Ends fuel d ds p.1 (push_nonempty result p.0) (omega arith)
            ]
      (find-Shorter (d ∷ ds) str)
split_loop-Ends zero d ds str result lt = absurd (omega arith)

abbrev fields_found : ℕ → Bytes → Bytes → Found → List Bytes
fields_found d cur str none = push_nonempty [] (cur ++ str)
fields_found d cur str (some p) = push_nonempty [] (cur ++ p.0) ++ fields d [] p.1

fields_found-further :
    (d ch : ℕ) (cur str : Bytes) (f : Found)
    → fields_found d (cur ++ ch ∷ []) str f ≡ fields_found d cur (ch ∷ str) (further ch f)
fields_found-further d ch cur str none = ap (push_nonempty []) (append_assoc cur (ch ∷ []) str)
fields_found-further d ch cur str (some p) =
    ap (λ bs. push_nonempty [] bs ++ fields d [] p.1) (append_assoc cur (ch ∷ []) p.0)

fields-find :
    (d : ℕ) (cur str : Bytes) → fields d cur str ≡ fields_found d cur str (find (d ∷ []) str)
unfolding fields find after_prefix
fields-find d cur [] = ap (push_nonempty []) (sym (append-nil cur))
fields-find d cur (ch ∷ str) = elim (Bool-cases (d == ch)) [
  | inl p ↦ rw (p, append-nil cur)
  | inr p ↦
      rw p
        (fields-find d (cur ++ ch ∷ []) str ∙ fields_found-further d ch cur str (find (d ∷ []) str))
]

split_loop-fields :
    (fuel d : ℕ) (str : Bytes) (result : List Bytes)
    → length str < fuel
    → split_loop fuel (d ∷ []) str result ≡ some (result ++ fields d [] str)
unfolding split_loop
split_loop-fields (suc fuel) d str result lt =
    elim (find (d ∷ []) str)
        as (λ f.
          Shorter (d ∷ []) (length str) f
          → fields d [] str ≡ fields_found d [] str f
          → elim f [
            | none ↦ some (push_nonempty result str)
            | some p ↦ split_loop fuel (d ∷ []) p.1 (push_nonempty result p.0)
          ]
            ≡ some (result ++ fields d [] str)) [
              | none ↦ λ h e. rw (e, push_nonempty_after result str)
              | some p ↦ λ h e. rw (
                e,
                split_loop-fields fuel d p.1 (push_nonempty result p.0) (omega arith),
                push_nonempty_after result p.0,
                append_assoc,
              )
            ]
      (find-Shorter (d ∷ []) str) (fields-find d [] str)
split_loop-fields zero d str result lt = absurd (omega arith)

-- Splitting at one byte gives the parts between its occurrences, in order, without the empty
-- ones, and ends for every text.
pub construct_substrings-fields :
    (str : Bytes) (d : ℕ) → construct_substrings str (d ∷ []) ≡ some (fields d [] str)
unfolding construct_substrings
construct_substrings-fields str d = split_loop-fields (suc (length str)) d str [] (omega arith)

-- Splitting ends for every delimiter that is not empty.
construct_substrings-Ends :
    (str : Bytes) (d : ℕ) (ds : Bytes) → construct_substrings str (d ∷ ds) ≢ none
unfolding construct_substrings
construct_substrings-Ends str d ds = split_loop-Ends (suc (length str)) d ds str [] (omega arith)

-- With an empty delimiter the loop goes on for ever.
split_loop_empty :
    (fuel : ℕ) (str : Bytes) (result : List Bytes) → split_loop fuel [] str result ≡ none
unfolding split_loop find after_prefix
split_loop_empty zero str result = refl
split_loop_empty (suc fuel) [] result = split_loop_empty fuel [] result
split_loop_empty (suc fuel) (ch ∷ str) result = split_loop_empty fuel (ch ∷ str) result
