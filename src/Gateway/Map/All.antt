-- ===== src/Gateway/Map/All.antt =====
-- What holds of every entry of a `std::map`.
use io_tblegateway.Common.{subst, ◌≡◌, sym, inl, inr, Bool, some, [], ◌∷◌, arith, Bool-cases}
use io_tblegateway.Gateway.Map.{Map, Order, find, put, erase}

module _ {K V : Type 0} where
  abbrev pub All : (K → V → Type 0) → Map K V → Type 0
  All q [] = Unit {0}
  All q (e ∷ m) = q e.0 e.1 × All q m

module _ {K V : Type 0} {lt : K → K → Bool} (order : Order lt) (q : K → V → Type 0) where
  pub All-find : (k : K) (a : V) (m : Map K V) → All q m → find lt k m ≡ some a → q k a
  unfolding find
  All-find k a [] all e = absurd (ground arith)
  All-find k a (x ∷ m) all e = elim (Bool-cases (lt k x.0)) [
    | inl p ↦ All-find k a m all.1 (ground arith)
    | inr p ↦ elim (Bool-cases (lt x.0 k)) [
      | inl r ↦ All-find k a m all.1 (ground arith)
      | inr r ↦
          let same : x.1 ≡ a = ground arith in
          subst (λ b. q k b) same (subst (λ j. q j x.1) (sym (order.lt_total k x.0 p r)) all.0)
    ]
  ]

  pub All-put : (k : K) (a : V) (m : Map K V) → All q m → q k a → All q (put lt k a m)
  unfolding put
  All-put k a [] all h = (h, tt)
  All-put k a (x ∷ m) all h = elim (Bool-cases (lt k x.0)) [
    | inl p ↦ rw p (h, all)
    | inr p ↦ rw p (elim (Bool-cases (lt x.0 k)) [
      | inl r ↦ rw r (all.0, All-put k a m all.1 h)
      | inr r ↦ rw r (subst (λ j. q j a) (order.lt_total k x.0 p r) h, all.1)
    ])
  ]

  pub All-erase : (k : K) (m : Map K V) → All q m → All q (erase lt k m)
  unfolding erase
  All-erase k [] all = tt
  All-erase k (x ∷ m) all = elim (Bool-cases (lt k x.0)) [
    | inl p ↦ rw p all
    | inr p ↦ rw p (elim (Bool-cases (lt x.0 k)) [
      | inl r ↦ rw r (all.0, All-erase k m all.1)
      | inr r ↦ rw r all.1
    ])
  ]
