-- ===== src/Gateway/Map.antt =====
-- `std::map`, which BLEGatewayApplication/BLE_DRIVER.cpp uses for its devices and attributes: the
-- entries in the order of their keys. A key is found if neither key is before the other.
pub mod All
use io_tblegateway.Common.{
  ◌≡◌, refl, ◌≢◌, inl, inr, Bool, true, false, Option, none, some, List, [], ◌∷◌, arith, ltb,
  if◌then◌else◌, Bool-cases, Bytes,
}

abbrev pub Map : Type 0 → Type 0 → Type 0
Map K V = List (K × V)

-- A strict order of which unrelated keys are equal.
pub record Order {K : Type 0} (lt : K → K → Bool) : Type 0 where
  pub lt_irrefl : (a : K) → lt a a ≡ false
  pub lt_trans : (a b c : K) → lt a b ≡ true → lt b c ≡ true → lt a c ≡ true
  pub lt_total : (a b : K) → lt a b ≡ false → lt b a ≡ false → a ≡ b

module _ {K V : Type 0} (lt : K → K → Bool) where
  unfoldable pub find : K → Map K V → Option V
  find k [] = none
  find k (e ∷ m) = if lt k e.0 then find k m else if lt e.0 k then find k m else some e.1

  -- `m[k] = v`
  unfoldable pub put : K → V → Map K V → Map K V
  put k v [] = (k, v) ∷ []
  put k v (e ∷ m) =
      if lt k e.0 then (k, v) ∷ e ∷ m else if lt e.0 k then e ∷ put k v m else (e.0, v) ∷ m

  unfoldable pub erase : K → Map K V → Map K V
  erase k [] = []
  erase k (e ∷ m) = if lt k e.0 then e ∷ m else if lt e.0 k then e ∷ erase k m else m

  abbrev pub Above : K → Map K V → Type 0
  Above k [] = Unit {0}
  Above k (e ∷ m) = (lt k e.0 ≡ true) × Above k m

  abbrev pub Sorted : Map K V → Type 0
  Sorted [] = Unit {0}
  Sorted (e ∷ m) = Above e.0 m × Sorted m

module _ {K V : Type 0} {lt : K → K → Bool} (order : Order lt) where
  find-put : (k : K) (a : V) (m : Map K V) → find lt k (put lt k a m) ≡ some a
  unfolding find put
  find-put k a [] = rw (order.lt_irrefl k)
  find-put k a (e ∷ m) = ground (arith, order.lt_irrefl k, find-put k a m)

  find-put_other : (j k : K) (a : V) (m : Map K V) → j ≢ k → find lt j (put lt k a m) ≡ find lt j m
  unfolding find put
  find-put_other j k a [] h = ground (arith, order.lt_total j k)
  find-put_other j k a (e ∷ m) h =
      ground (arith, order.lt_total j k, order.lt_total k e.0, find-put_other j k a m h)

  pub find-Above : (j k : K) (m : Map K V) → Above lt k m → lt j k ≡ true → find lt j m ≡ none
  unfolding find
  find-Above j k [] up h = refl
  find-Above j k (e ∷ m) up h =
      ground (arith, up.0, order.lt_trans j k e.0, find-Above j k m up.1 h)

  pub find_at_Above : (k : K) (m : Map K V) → Above lt k m → find lt k m ≡ none
  unfolding find
  find_at_Above k [] up = refl
  find_at_Above k (e ∷ m) up = ground (arith, up.0, find_at_Above k m up.1)

  pub find-erase : (k : K) (m : Map K V) → Sorted lt m → find lt k (erase lt k m) ≡ none
  unfolding find erase
  find-erase k [] up = refl
  find-erase k (e ∷ m) up = ground (
    arith,
    find-erase k m up.1,
    order.lt_total k e.0,
    find_at_Above e.0 m up.0,
    find-Above k e.0 m up.0,
  )

  pub find-erase_other :
      (j k : K) (m : Map K V) → Sorted lt m → j ≢ k → find lt j (erase lt k m) ≡ find lt j m
  unfolding find erase
  find-erase_other j k [] up h = refl
  find-erase_other j k (e ∷ m) up h =
      ground (arith, find-erase_other j k m up.1 h, order.lt_total j k, order.lt_total k e.0)

  Above-put :
      (b k : K) (a : V) (m : Map K V) → Above lt b m → lt b k ≡ true → Above lt b (put lt k a m)
  unfolding put
  Above-put b k a [] up h = (h, tt)
  Above-put b k a (e ∷ m) up h = elim (Bool-cases (lt k e.0)) [
    | inl p ↦ rw p (h, up)
    | inr p ↦ rw p (elim (Bool-cases (lt e.0 k)) [
      | inl q ↦ rw q (up.0, Above-put b k a m up.1 h)
      | inr q ↦ rw q (up.0, up.1)
    ])
  ]

  Above-weaken : (b k : K) (m : Map K V) → Above lt k m → lt b k ≡ true → Above lt b m
  Above-weaken b k [] up h = tt
  Above-weaken b k (e ∷ m) up h = (order.lt_trans b k e.0 h up.0, Above-weaken b k m up.1 h)

  pub Sorted-put : (k : K) (a : V) (m : Map K V) → Sorted lt m → Sorted lt (put lt k a m)
  unfolding put
  Sorted-put k a [] up = (tt, tt)
  Sorted-put k a (e ∷ m) up = elim (Bool-cases (lt k e.0)) [
    | inl p ↦ rw p ((p, Above-weaken k e.0 m up.0 p), up)
    | inr p ↦ rw p (elim (Bool-cases (lt e.0 k)) [
      | inl q ↦ rw q (Above-put e.0 k a m up.0 q, Sorted-put k a m up.1)
      | inr q ↦ rw q (up.0, up.1)
    ])
  ]

  Above-erase : (b k : K) (m : Map K V) → Above lt b m → Above lt b (erase lt k m)
  unfolding erase
  Above-erase b k [] up = tt
  Above-erase b k (e ∷ m) up = elim (Bool-cases (lt k e.0)) [
    | inl p ↦ rw p (up.0, up.1)
    | inr p ↦ rw p (elim (Bool-cases (lt e.0 k)) [
      | inl q ↦ rw q (up.0, Above-erase b k m up.1)
      | inr q ↦ rw q up.1
    ])
  ]

  pub Sorted-erase : (k : K) (m : Map K V) → Sorted lt m → Sorted lt (erase lt k m)
  unfolding erase
  Sorted-erase k [] up = tt
  Sorted-erase k (e ∷ m) up = elim (Bool-cases (lt k e.0)) [
    | inl p ↦ rw p (up.0, up.1)
    | inr p ↦ rw p (elim (Bool-cases (lt e.0 k)) [
      | inl q ↦ rw q (Above-erase e.0 k m up.0, Sorted-erase k m up.1)
      | inr q ↦ rw q up.1
    ])
  ]

-- Numbers as keys.
pub ltb-Order : Order ltb
ltb-Order = record {
  lt_irrefl = λ a. ground arith;
  lt_trans = λ a b d p q. ground arith;
  lt_total = λ a b p q. ground arith;
}

-- `CompareMAC`: the first bytes that differ decide. Addresses have the same length.
unfoldable pub compare_mac : Bytes → Bytes → Bool
compare_mac [] [] = false
compare_mac [] (b ∷ ys) = true
compare_mac (a ∷ xs) [] = false
compare_mac (a ∷ xs) (b ∷ ys) =
    if ltb a b then true else if ltb b a then false else compare_mac xs ys

irrefl-compare_mac : (a : Bytes) → compare_mac a a ≡ false
unfolding compare_mac
irrefl-compare_mac [] = refl
irrefl-compare_mac (a ∷ xs) = ground (arith, irrefl-compare_mac xs)

trans-compare_mac :
    (a b d : Bytes) → compare_mac a b ≡ true → compare_mac b d ≡ true → compare_mac a d ≡ true
unfolding compare_mac
trans-compare_mac [] (b ∷ ys) (d ∷ zs) p q = refl
trans-compare_mac (a ∷ xs) (b ∷ ys) (d ∷ zs) p q = ground (arith, trans-compare_mac xs ys zs)
trans-compare_mac [] [] [] p q = p
trans-compare_mac [] [] (d ∷ zs) p q = refl
trans-compare_mac [] (b ∷ ys) [] p q = q
trans-compare_mac (a ∷ xs) [] d p q = ground arith
trans-compare_mac (a ∷ xs) (b ∷ ys) [] p q = ground arith

total-compare_mac : (a b : Bytes) → compare_mac a b ≡ false → compare_mac b a ≡ false → a ≡ b
unfolding compare_mac
total-compare_mac [] [] p q = refl
total-compare_mac [] (b ∷ ys) p q = ground arith
total-compare_mac (a ∷ xs) [] p q = ground arith
total-compare_mac (a ∷ xs) (b ∷ ys) p q = ground (arith, total-compare_mac xs ys)

compare_mac-Order : Order compare_mac
compare_mac-Order = record {
  lt_irrefl = irrefl-compare_mac;
  lt_trans = trans-compare_mac;
  lt_total = total-compare_mac;
}
