-- ===== src/Utils/Hash.antt =====
-- `stringHash` and `stringHashConstexpr` of include/utils.h, and `getContentType` of src/http.cpp,
-- which switches over a hash.
pub mod Laws
mod Tests
use co_uring_web.Prelude.{
  ℕ, ◌+◌, ◌-◌, ◌*◌, ◌%◌, ◌^◌, List, [], ◌∷◌, Bytes, codes, ltb, ◌==◌, if◌then◌else◌,
}

abbrev pub u64_mod : ℕ
u64_mod = 2 ^ 64

-- `m`
abbrev pub hash_mod : ℕ
hash_mod = 1000000009

-- `i - 'a' + 1`, an int, which is negative for a char below 'a' - 1, as the 64-bit number that it
-- becomes in the product. A char is signed: a byte from 128 on is negative.
abbrev pub letter_value : ℕ → ℕ
letter_value c =
    if ltb c 128 then (c + (u64_mod - 96)) % u64_mod else (c + (u64_mod - 352)) % u64_mod

-- The loop, with its two variables, and the returned value behind it.
pub hash_from : ℕ → ℕ → Bytes → ℕ
hash_from power hash [] = (hash % hash_mod + hash_mod) % u64_mod % hash_mod
hash_from power hash (c ∷ str) =
    hash_from (power * 31 % u64_mod % hash_mod)
      ((hash + letter_value c * power % u64_mod) % u64_mod % hash_mod) str

pub string_hash : Bytes → ℕ
string_hash str = hash_from 1 0 str

pub string_hash_constexpr : Bytes → ℕ
string_hash_constexpr str = hash_from 1 0 str

-- The switch. Its `default` branch returns an empty view.
pub get_content_type : Bytes → Bytes
get_content_type file_ext =
    let hash = string_hash file_ext in
    if hash == string_hash_constexpr (codes "jpg")
    then codes "image/jpeg"
    else if hash == string_hash_constexpr (codes "jpeg")
    then codes "image/jpeg"
    else if hash == string_hash_constexpr (codes "png")
    then codes "image/png"
    else if hash == string_hash_constexpr (codes "gif")
    then codes "image/gif"
    else if hash == string_hash_constexpr (codes "htm")
    then codes "text/html"
    else if hash == string_hash_constexpr (codes "html")
    then codes "text/html"
    else if hash == string_hash_constexpr (codes "js")
    then codes "application/javascript"
    else if hash == string_hash_constexpr (codes "css")
    then codes "text/css"
    else if hash == string_hash_constexpr (codes "txt")
    then codes "text/plain"
    else []
