-- ===== src/Json/Text.antt =====
-- Strings: `parseString`, `parseBool` and `dumpString` of src/json.cpp.
use co_uring_web.Prelude.{
  ℕ, zero, suc, ◌+◌, ◌-◌, ◌*◌, ◌^◌, bit_or, Bool, true, false, Option, none, some, [], ◌∷◌, ◌++◌,
  Bytes, codes, length, take, drop, bytes_eq, ◌==◌, leb, ◌&&◌, if◌then◌else◌,
}
use co_uring_web.Utils.Utf8.{from_unicode}
use co_uring_web.Json.Parsed.{Parsed, parsed, refused, out_of_fuel}

-- The value of a hexadecimal digit.
abbrev pub hex_digit : ℕ → Option ℕ
hex_digit c =
    if leb b'0' c && leb c b'9'
    then some (c - b'0')
    else if leb b'a' c && leb c b'f'
    then some (c - b'a' + 10)
    else if leb b'A' c && leb c b'F'
    then some (c - b'A' + 10)
    else none

-- The loop of `unicodeToWchar`, with `left` digits to come.
unfoldable pub to_wchar : ℕ → ℕ → Bytes → Option ℕ
to_wchar zero res text = some res
to_wchar (suc left) res [] = none
to_wchar (suc left) res (c ∷ text) = elim (hex_digit c) [
  | none ↦ none
  | some digit ↦ to_wchar left (bit_or res (digit * 2 ^ (4 * left))) text
]

-- The bytes that are pushed for \u. `fromUnicode` has a branch for every number of four digits.
abbrev pub utf8_of : ℕ → Bytes
utf8_of u = elim (from_unicode u) [ none ↦ [] | some bytes ↦ bytes ]

-- The escapes of one letter.
abbrev pub escaped : ℕ → Option ℕ
escaped c =
    if c == b'"'
    then some b'"'
    else if c == b'\\'
    then some b'\\'
    else if c == b'/'
    then some b'/'
    else if c == b'b'
    then some 8
    else if c == b'f'
    then some 12
    else if c == b'n'
    then some 10
    else if c == b'r'
    then some 13
    else if c == b't'
    then some 9
    else none

-- What stands behind a backslash: the bytes that are pushed and the rest of the text.
unfoldable pub escape : Bytes → Option (Bytes × Bytes)
escape [] = none
escape (c ∷ rest) =
    if leb (length (c ∷ rest)) 2 then none else if leb c 31 then none else elim (escaped c) [
      | some byte ↦ some (byte ∷ [], rest)
      | none ↦
          if c == b'u'
          then if leb (length (c ∷ rest)) 6
            then none
            else elim (to_wchar 4 0 rest) [ none ↦ none | some u ↦ some (utf8_of u, drop 4 rest) ]
          else none
    ]

-- What follows an escape, for which the loop goes on as `later`.
abbrev pub pushed : Option (Bytes × Bytes) → (Bytes → Bytes → Parsed Bytes) → Parsed Bytes
pushed none later = refused
pushed (some (bytes, rest)) later = later bytes rest

-- The loop `getString`, on fuel. A text with no closing quote ends it too.
unfoldable pub string_loop : ℕ → Bytes → Bytes → Parsed Bytes
string_loop zero s rest = out_of_fuel
string_loop (suc fuel) s [] = parsed s []
string_loop (suc fuel) s (c ∷ rest) =
    let later = string_loop fuel (s ++ c ∷ []) rest in
    let behind = pushed (escape rest) (λ bytes rest'. string_loop fuel (s ++ bytes) rest') in
    if leb c 31
    then refused
    else if c == b'\\'
    then behind
    else if c == b'"'
    then parsed s rest
    else later

-- The text begins with the quote.
unfoldable pub parse_string : Bytes → Parsed Bytes
parse_string view =
    if leb (length view) 3 then refused else string_loop (suc (length view)) [] (drop 1 view)

unfoldable pub parse_bool : Bytes → Parsed Bool
parse_bool view =
    if leb (length view) 4
    then refused
    else if bytes_eq (take 4 view) (codes "true")
    then parsed true (drop 4 view)
    else if leb 6 (length view) && bytes_eq (take 5 view) (codes "false")
    then parsed false (drop 5 view)
    else refused

-- One round of the loop of `dumpString`.
abbrev pub dump_char : ℕ → Bytes
dump_char c =
    if c == b'"'
    then codes "\\\""
    else if c == b'\\'
    then codes "\\\\"
    else if c == 8
    then codes "\\b"
    else if c == 12
    then codes "\\f"
    else if c == 10
    then codes "\\n"
    else if c == 13
    then codes "\\r"
    else if c == 9
    then codes "\\t"
    else c ∷ []

abbrev pub dump_chars : Bytes → Bytes
dump_chars [] = []
dump_chars (c ∷ view) = dump_char c ++ dump_chars view

abbrev pub dump_string : Bytes → Bytes
dump_string view = b'"' ∷ (dump_chars view ++ b'"' ∷ [])

abbrev pub dump_bool : Bool → Bytes
dump_bool true = codes "true"
dump_bool false = codes "false"
