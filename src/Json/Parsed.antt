-- ===== src/Json/Parsed.antt =====
-- What the methods of `JsonParser` in src/json.cpp return: a value with the text from `startIndex` on,
-- or a `JsonParseError`. `startIndex` only grows, so the text that remains stands for it.
use co_uring_web.Prelude.{Bytes}

pub data Parsed {ℓ} (A : Type ℓ) : Type ℓ where
  parsed : A → Bytes → Parsed A
  refused : Parsed A
  -- The model's own end of a loop; Terminates rules it out.
  out_of_fuel : Parsed A

infixl 5 ◌>>=◌
abbrev pub ◌>>=◌ {ℓ κ} : {A : Type ℓ} {B : Type κ} → Parsed A → (A × Bytes → Parsed B) → Parsed B
parsed a rest >>= f = f (a, rest)
refused >>= f = refused
out_of_fuel >>= f = out_of_fuel
