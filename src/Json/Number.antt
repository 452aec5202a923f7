-- ===== src/Json/Number.antt =====
-- Numbers: `parseNum` and `dumpNum` of src/json.cpp. `ss >> num` and `ss << num` are the stream
-- operators of the standard library: of an integer they are written out here, and of a double they are
-- parameters.
use co_uring_web.Prelude.{
  ℕ, zero, suc, ◌+◌, ◌-◌, ◌*◌, ◌^◌, Bool, false, Option, none, some, [], ◌∷◌, Bytes, ◌==◌, ltb, leb,
  ◌&&◌, ◌||◌, if◌then◌else◌,
}
use co_uring_web.Prelude.Int.{ℤ, pos, negsuc}
use co_uring_web.Utils.Decimal.{to_string}
use co_uring_web.Json.{JsonObj, json_integer, json_double}
use co_uring_web.Json.Parsed.{Parsed, parsed, refused}

abbrev pub is_digit : ℕ → Bool
is_digit c = leb b'0' c && leb c b'9'

-- The characters that make the number a double.
abbrev pub is_double_char : ℕ → Bool
is_double_char c = c == b'.' || c == b'e' || c == b'E'

-- The characters that `getNum` collects.
abbrev pub is_number_char : ℕ → Bool
is_number_char c = is_digit c || is_double_char c || c == b'-' || c == b'+'

-- `getNum`: the collected text and the rest. At the end of the text it throws.
unfoldable pub get_num : Bytes → Option (Bytes × Bytes)
get_num [] = none
get_num (c ∷ rest) =
    let later = get_num rest in
    if is_number_char c
    then elim later [ none ↦ none | some (num, rest') ↦ some (c ∷ num, rest') ]
    else some ([], c ∷ rest)

abbrev pub any_double_char : Bytes → Bool
any_double_char [] = false
any_double_char (c ∷ num) = is_double_char c || any_double_char num

-- The number of the leading digits.
abbrev pub digits_value : ℕ → Bytes → ℕ
digits_value n [] = n
digits_value n (c ∷ text) =
    let later = digits_value (n * 10 + (c - b'0')) text in if is_digit c then later else n

-- -n, where it is not below the least value of int64_t, and else that.
abbrev pub minus : ℕ → ℤ
minus zero = pos 0
minus (suc n) = if ltb n (2 ^ 63) then negsuc n else negsuc (2 ^ 63 - 1)

-- n, where it is not above the greatest value of int64_t, and else that.
abbrev pub plus : ℕ → ℤ
plus n = if ltb n (2 ^ 63) then pos n else pos (2 ^ 63 - 1)

-- `ss >> num` for an int64_t.
unfoldable pub read_int64 : Bytes → ℤ
read_int64 [] = pos 0
read_int64 (c ∷ text) =
    if c == b'-'
    then minus (digits_value 0 text)
    else if c == b'+'
    then plus (digits_value 0 text)
    else plus (digits_value 0 (c ∷ text))

-- `ss << num` for an int64_t.
abbrev pub write_int64 : ℤ → Bytes
write_int64 (pos n) = to_string n
write_int64 (negsuc n) = b'-' ∷ to_string (suc n)

module _ {D : Type 0} (read_double : Bytes → D) where
  -- What follows `getNum`.
  abbrev pub collected : Option (Bytes × Bytes) → Parsed (JsonObj D)
  collected none = refused
  collected (some (num, rest)) =
      parsed
        (if any_double_char num
          then json_double (read_double num)
          else json_integer (read_int64 num))
        rest

  unfoldable pub parse_num : Bytes → Parsed (JsonObj D)
  parse_num view = collected (get_num view)
