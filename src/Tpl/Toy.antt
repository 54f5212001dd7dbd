-- ===== src/Tpl/Toy.antt =====
-- A small serialiser that meets the laws of the interface to tpl: a tag for each value, and a
-- mark before each byte of an array.
use io_tblegateway.Common.{ℕ, zero, suc, ◌≡◌, refl, true, Option, none, some, List, [], ◌∷◌, Bytes}
use io_tblegateway.Tpl.{Value, v, c, s, bin, Tpl, Laws}

unfoldable pub marked : Bytes → Bytes → Bytes
marked [] rest = 0 ∷ rest
marked (b ∷ bs) rest = 1 ∷ b ∷ marked bs rest

unfoldable pub toy_dump : List Value → Bytes
unfolding marked
toy_dump [] = []
toy_dump (v x ∷ vs) = 0 ∷ x ∷ toy_dump vs
toy_dump (c x ∷ vs) = 1 ∷ x ∷ toy_dump vs
toy_dump (s bs ∷ vs) = 2 ∷ marked bs (toy_dump vs)
toy_dump (bin bs ∷ vs) = 3 ∷ marked bs (toy_dump vs)

abbrev add : Value → Option (List Value) → Option (List Value)
add a none = none
add a (some vs) = some (a ∷ vs)

-- The second function collects an array, in reverse, and knows which kind it is.
mutual
  toy_parse : Bytes → Option (List Value)
  toy_parse [] = some []
  toy_parse (zero ∷ x ∷ r) = add (v x) (toy_parse r)
  toy_parse (suc zero ∷ x ∷ r) = add (c x) (toy_parse r)
  toy_parse (suc (suc zero) ∷ r) = toy_array (λ bs. s bs) r
  toy_parse (suc (suc (suc k)) ∷ r) = toy_array (λ bs. bin bs) r
  toy_parse _ = none

  toy_array : (Bytes → Value) → Bytes → Option (List Value)
  toy_array f [] = none
  toy_array f (zero ∷ r) = add (f []) (toy_parse r)
  toy_array f (suc k ∷ b ∷ r) = toy_array (λ bs. f (b ∷ bs)) r
  toy_array f (suc k ∷ []) = none

toy_peek : Bytes → Option ℕ
toy_peek (zero ∷ x ∷ r) = some x
toy_peek _ = none

toy_array-marked :
    (f : Bytes → Value) (bs rest : Bytes)
    → toy_array f (marked bs rest) ≡ add (f bs) (toy_parse rest)
unfolding toy_array toy_parse marked
toy_array-marked f [] rest = refl
toy_array-marked f (b ∷ bs) rest = toy_array-marked (λ r. f (b ∷ r)) bs rest

toy_parse-dump : (vs : List Value) → toy_parse (toy_dump vs) ≡ some vs
unfolding toy_parse toy_dump
toy_parse-dump [] = refl
toy_parse-dump (v x ∷ vs) = rw (toy_parse-dump vs)
toy_parse-dump (c x ∷ vs) = rw (toy_parse-dump vs)
toy_parse-dump (s bs ∷ vs) = rw (toy_array-marked (λ r. s r) bs (toy_dump vs), toy_parse-dump vs)
toy_parse-dump (bin bs ∷ vs) =
    rw (toy_array-marked (λ r. bin r) bs (toy_dump vs), toy_parse-dump vs)

unfoldable pub toy : Tpl
unfolding toy_dump toy_parse toy_peek
toy = record {
  dump = λ f vs. some (toy_dump vs);
  maps = λ f. true;
  unpack = λ f b. toy_parse b;
  peek_v = toy_peek;
}

pub toy-Laws : Laws toy
unfolding toy toy_dump toy_parse toy_peek
toy-Laws = record {
  maps-dump = λ f vs b e. refl;
  unpack-dump = λ f vs b e. cc (toy_parse-dump vs);
  peek-dump = λ f x vs b e. cc;
}
