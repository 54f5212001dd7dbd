-- ===== src/Gateway/Web/Params.antt =====
-- The map of request parameters of BLEGatewayApplication/HTTP_HELPER.cpp, with its keys and numbers
-- of Headers/HTTP_HELPER.h.
use io_tblegateway.Common.{
  Option, none, some, ℕ, ◌+◌, ◌-◌, ◌/◌, ◌%◌, Bool, true, false, ◌&&◌, List, [], ◌∷◌, ltb, leb, ◌==◌,
  if◌then◌else◌, Bytes,
}
use Prim.Native.String.{String}
use Prim.Native.Char.{code}

-- The bytes of a literal of the source.
unfoldable pub text : String → Bytes
text String.[] = []
text (String.◌∷◌ ch str) = code ch ∷ text str

unfoldable pub same_text : Bytes → Bytes → Bool
same_text [] [] = true
same_text (a ∷ xs) (b ∷ ys) = if a == b then same_text xs ys else false
same_text _ _ = false

-- `boost::to_upper`
abbrev pub upper : ℕ → ℕ
upper ch = if leb b'a' ch && leb ch b'z' then ch - 32 else ch

unfoldable pub to_upper : Bytes → Bytes
to_upper [] = []
to_upper (ch ∷ str) = upper ch ∷ to_upper str

-- `boost::iequals`
unfoldable pub iequals : Bytes → Bytes → Bool
unfolding same_text to_upper
iequals xs ys = same_text (to_upper xs) (to_upper ys)

-- `std::to_string` of a number below 100
abbrev pub to_string : ℕ → Bytes
to_string n = if ltb n 10 then (b'0' + n) ∷ [] else (b'0' + n / 10) ∷ (b'0' + n % 10) ∷ []

-- The newest entry of a key is its value. A key without a value reads as the empty text.
abbrev pub Params : Type 0
Params = List (Bytes × Bytes)

unfoldable pub get : Bytes → Params → Bytes
unfolding same_text
get key [] = []
get key (e ∷ result) = if same_text e.0 key then e.1 else get key result

abbrev pub set : Bytes → Bytes → Params → Params
set key value result = (key, value) ∷ result

-- For the functions of this component `none` is a loop that does not end or an exception.
infixl 5 ◌>>=◌
abbrev pub ◌>>=◌ : {A B : Type 0} → Option A → (A → Option B) → Option B
◌>>=◌ none f = none
◌>>=◌ (some a) f = f a
