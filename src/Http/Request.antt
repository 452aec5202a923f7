-- ===== src/Http/Request.antt =====
-- `HttpRequest` of include/http.h, and `HttpRequest::fromRawData` of src/http.cpp.
-- The parser's place is the rest of the text from `index` on. The index never passes the end: it
-- moves by one after `at(index)` has succeeded, and by the length of a text found there. So
-- `raw.at(index)` throws exactly at the empty rest, and `raw.substr(index, n)` is `take n rest`.
-- Both exceptions that the function throws and catches give an empty optional: `none`.
pub mod Scan
pub mod Grammar
pub mod Accept
pub mod Sound
pub mod Headers
pub mod Url
pub mod Fields
mod Tests
use co_uring_web.Prelude.{
  ℕ, zero, suc, ◌+◌, Bool, true, false, Option, none, some, List, [], ◌∷◌, ◌++◌, Bytes, codes,
  length, take, drop, bytes_eq, ◌==◌, ltb, if◌then◌else◌,
}
use co_uring_web.Prelude.Options.{◌>>=◌}
use co_uring_web.Prelude.OrdMap.{Map, insert, insert_or_assign, find}
use co_uring_web.Prelude.Keys.{bytes_key}
use co_uring_web.Http.{HttpMethod, get, post, head, put, patch, delete, HttpVersion, v9, v10, v11}

pub record HttpRequest : Type 0 where
  pub url : Bytes
  pub headers : Map Bytes Bytes
  pub body : Bytes
  pub method : HttpMethod
  pub version : HttpVersion

-- `getUrl`. `front()` of an empty string is undefined behaviour: `none`.
pub get_url : HttpRequest → Option Bytes
get_url r = if bytes_eq r.url (codes "/") then some (codes "index.html") else without_slash r.url
  where
    without_slash : Bytes → Option Bytes
    without_slash [] = none
    without_slash (c ∷ rest) = if c == b'/' then some rest else some (c ∷ rest)

pub set_header : HttpRequest → Bytes → Bytes → HttpRequest
set_header r key value = record r { headers = insert_or_assign key value r.headers }

pub get_header_value : HttpRequest → Bytes → Bytes
get_header_value r key = elim (find key r.headers) [ none ↦ [] | some value ↦ value ]

-- `raw.substr(index, n) == text`, for a text of length n
unfoldable pub is_at : Bytes → Bytes → Bool
is_at text rest = bytes_eq (take (length text) rest) text

-- The switch over the first character.
pub parse_method : Bytes → Option (HttpMethod × Bytes)
parse_method [] = none
parse_method (c ∷ cs) =
    let raw = c ∷ cs in
    if c == b'G'
    then if is_at (codes "GET") raw then some (get, drop 3 raw) else none
    else if c == b'P'
    then if is_at (codes "POST") raw
      then some (post, drop 4 raw)
      else if is_at (codes "PUT") raw
      then some (put, drop 3 raw)
      else if is_at (codes "PATCH") raw
      then some (patch, drop 5 raw)
      else none
    else if c == b'D'
    then if is_at (codes "DELETE") raw then some (delete, drop 6 raw) else none
    else if c == b'H'
    then if is_at (codes "HEAD") raw then some (head, drop 4 raw) else none
    else none

pub expect_space : Bytes → Option Bytes
expect_space [] = none
expect_space (c ∷ rest) = if c == b' ' then some rest else none

-- `while (raw.at(index) != stop) index++`: the bytes passed over, and the rest from `stop` on.
pub read_until : ℕ → Bytes → Option (Bytes × Bytes)
read_until stop [] = none
read_until stop (c ∷ rest) =
    let later = (do (passed, rest') ← read_until stop rest; some (c ∷ passed, rest')) in
    if c == stop then some ([], c ∷ rest) else later

-- `while (raw.at(index) == ' ') index++`
pub skip_spaces : Bytes → Option Bytes
skip_spaces [] = none
skip_spaces (c ∷ rest) =
    let later = skip_spaces rest in if c == b' ' then later else some (c ∷ rest)

-- Leave out a text that must stand here.
pub expect : Bytes → Bytes → Option Bytes
expect text rest = if is_at text rest then some (drop (length text) rest) else none

pub parse_version : Bytes → Option (HttpVersion × Bytes)
parse_version rest =
    if is_at (codes "0.9") rest
    then some (v9, drop 3 rest)
    else if is_at (codes "1.0") rest
    then some (v10, drop 3 rest)
    else if is_at (codes "1.1") rest
    then some (v11, drop 3 rest)
    else none

abbrev pub crlf : Bytes
crlf = b'\r' ∷ b'\n' ∷ []

-- One round of the header loop: key, value and the rest behind the line.
pub header_line : Bytes → Option (Bytes × Bytes × Bytes)
header_line rest = do
  (key, rest) ← read_until b':' rest
  rest ← skip_spaces (drop 1 rest)
  (value, rest) ← read_until b'\r' rest
  rest ← expect crlf rest
  some (key, value, rest)

-- The header loop, on fuel; a key that is there keeps its value. A round shortens the rest.
pub header_loop : ℕ → Map Bytes Bytes → Bytes → Option (Map Bytes Bytes × Bytes)
header_loop zero headers rest = none
header_loop (suc fuel) headers rest = elim (is_at crlf rest) [
  | true ↦ some (headers, drop 2 rest)
  | false ↦ elim (header_line rest) [
    | none ↦ none
    | some (key, value, rest') ↦ header_loop fuel (insert key value headers) rest'
  ]
]

-- `if (index < raw.size() - 1) body_ = raw.substr(index, raw.size() - index)`
pub body_of : Bytes → Bytes
body_of rest = if ltb 1 (length rest) then rest else []

unfoldable pub from_raw_data : Bytes → Option HttpRequest
unfolding parse_method expect_space read_until skip_spaces expect parse_version header_line
    header_loop body_of
from_raw_data raw = do
  (method, rest) ← parse_method raw
  rest ← expect_space rest
  (url, rest) ← read_until b' ' rest
  rest ← expect (codes "HTTP/") (drop 1 rest)
  (version, rest) ← parse_version rest
  rest ← expect crlf rest
  (headers, rest) ← header_loop (suc (length rest)) [] rest
  some (record {
    url = url;
    headers = headers;
    body = body_of rest;
    method = method;
    version = version;
  })
