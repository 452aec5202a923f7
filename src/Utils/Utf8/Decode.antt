-- ===== src/Utils/Utf8/Decode.antt =====
-- The bytes of `fromUnicode` stand for its code point.
use co_uring_web.Prelude.{
  ℕ, ◌+◌, ◌-◌, ◌*◌, ◌<◌, ◌≤◌, some, [], ◌∷◌, Bytes, ltb, if◌then◌else◌, length, All, ◌≡◌,
}
use co_uring_web.Utils.Utf8.{from_unicode}

-- How many bytes follow a first byte.
abbrev pub followers : ℕ → ℕ
followers c =
    if ltb c 0x80
    then 0
    else if ltb c 0xe0
    then 1
    else if ltb c 0xf0
    then 2
    else if ltb c 0xf8
    then 3
    else if ltb c 0xfc
    then 4
    else 5

-- The part of the number that a first byte holds.
abbrev pub first_part : ℕ → ℕ
first_part c =
    if ltb c 0x80
    then c
    else if ltb c 0xe0
    then c - 0xc0
    else if ltb c 0xf0
    then c - 0xe0
    else if ltb c 0xf8
    then c - 0xf0
    else if ltb c 0xfc
    then c - 0xf8
    else c - 0xfc

abbrev pub add_parts : ℕ → Bytes → ℕ
add_parts n [] = n
add_parts n (c ∷ cs) = add_parts (n * 64 + (c - 0x80)) cs

-- A byte that follows has the bits 10 in front.
abbrev pub IsFollower : ℕ → Type 0
IsFollower c = (0x80 ≤ c) × (c < 0xc0)

-- `c` and `cs` are a well-formed sequence of bytes for `u`.
pub record Encodes (u c : ℕ) (cs : Bytes) : Type 0 where
  pub count : length cs ≡ followers c
  pub following : All IsFollower cs
  pub number : add_parts (first_part c) cs ≡ u
  pub byte : c < 256

abbrev Written : ℕ → Type 0
Written u = (c : ℕ) × (cs : Bytes) × (from_unicode u ≡ some (c ∷ cs)) × Encodes u c cs
