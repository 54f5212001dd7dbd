-- ===== src/Tpl.antt =====
-- The serialisation library tpl, which the client and the gateway call and do not implement: an
-- interface, and the documented behaviour that the theorems use as laws.
pub mod Toy
use io_tblegateway.Common.{ℕ, ◌≡◌, Bool, true, Option, some, List, ◌∷◌, Bytes}
use Prim.Native.String.{String}

-- What one format character stands for: `v` a uint16, `c` a byte, `S(c#)` an array of bytes, and
-- `B` a buffer with its size.
pub data Value : Type 0 where
  v : ℕ → Value
  c : ℕ → Value
  s : Bytes → Value
  bin : Bytes → Value

pub record Tpl : Type 0 where
  -- `tpl_map`, `tpl_pack` and `tpl_dump`; `none` if `tpl_map` returns NULL
  pub dump : String → List Value → Option Bytes
  -- whether `tpl_map` returns a node
  pub maps : String → Bool
  -- `tpl_load` and `tpl_unpack`; `none` if they leave the variables as they were
  pub unpack : String → Bytes → Option (List Value)
  -- `tpl_peek` with the format "v"; `none` if it returns NULL
  pub peek_v : Bytes → Option ℕ

-- What was packed with a format is unpacked with it, and a leading `v` can be peeked at.
pub record Laws (t : Tpl) : Type 0 where
  pub maps-dump :
      (f : String) (vs : List Value) (b : Bytes) → t.dump f vs ≡ some b → t.maps f ≡ true
  pub unpack-dump :
      (f : String) (vs : List Value) (b : Bytes) → t.dump f vs ≡ some b → t.unpack f b ≡ some vs
  pub peek-dump :
      (f : String) (x : ℕ) (vs : List Value) (b : Bytes)
      → t.dump f (v x ∷ vs) ≡ some b
      → t.peek_v b ≡ some x
