-- ===== src/Http/Request/Accept.antt =====
-- `fromRawData` accepts every message of the grammar, and reads the request that it stands for.
use co_uring_web.Prelude.{
  ℕ, zero, suc, ◌≤◌, ◌<◌, true, false, some, List, [], ◌∷◌, ◌++◌, Bytes, codes, length, drop,
  bytes_eq, ◌≡◌, refl, ◌∙◌, arith, replicate, All, length-append,
}
use co_uring_web.Prelude.OrdMap.{Map, insert}
use co_uring_web.Prelude.Keys.{bytes_key}
use co_uring_web.Http.{
  HttpMethod, method_nothing, get, post, head, put, patch, delete, HttpVersion, version_nothing, v9,
  v10, v11,
}
use co_uring_web.Http.Request.{
  is_at, crlf, parse_method, parse_version, header_line, header_loop, body_of, from_raw_data,
}
use co_uring_web.Http.Request.Scan.{
  starts_solid, is_at-append, expect-append, read_until-append, skip_spaces-append,
}
use co_uring_web.Http.Request.Grammar.{
  Field, Message, method_text, version_text, render_field, render_fields, render, IsField,
  IsKnownMethod, IsKnownVersion, IsMessage, add_fields, kept, request_of,
}

parse_method-append :
    (method : HttpMethod) (rest : Bytes)
    → IsKnownMethod method
    → parse_method (method_text method ++ rest) ≡ some (method, rest)
unfolding parse_method is_at bytes_eq
parse_method-append get rest h = refl
parse_method-append post rest h = refl
parse_method-append head rest h = refl
parse_method-append put rest h = refl
parse_method-append patch rest h = refl
parse_method-append delete rest h = refl
parse_method-append method_nothing rest h = absurd h

parse_version-append :
    (version : HttpVersion) (rest : Bytes)
    → IsKnownVersion version
    → parse_version (version_text version ++ rest) ≡ some (version, rest)
unfolding parse_version is_at bytes_eq
parse_version-append v9 rest h = refl
parse_version-append v10 rest h = refl
parse_version-append v11 rest h = refl
parse_version-append version_nothing rest h = absurd h

solid-append :
    (value rest : Bytes)
    → starts_solid (value ++ b'\r' ∷ []) ≡ true
    → starts_solid (value ++ b'\r' ∷ rest) ≡ true
solid-append [] rest h = refl
solid-append (c ∷ value) rest h = h

header_line-render :
    (f : Field) (rest : Bytes)
    → IsField f
    → header_line (render_field f rest) ≡ some (f.name, f.value, rest)
unfolding header_line
header_line-render f rest h =
    let line_end = b'\r' ∷ b'\n' ∷ rest in
    rw (
      read_until-append b':' f.name (replicate f.blanks b' ' ++ (f.value ++ line_end))
          h.name_absent,
      skip_spaces-append f.blanks (f.value ++ line_end)
          (solid-append f.value (b'\n' ∷ rest) h.value_solid),
      read_until-append b'\r' f.value (b'\n' ∷ rest) h.value_absent,
      expect-append crlf rest,
    )

not_end-append :
    (name rest : Bytes) → is_at crlf name ≡ false → is_at crlf (name ++ b':' ∷ rest) ≡ false
unfolding is_at bytes_eq
not_end-append [] rest h = refl
not_end-append (c ∷ []) [] h = ground arith
not_end-append (c ∷ []) (d ∷ rest) h = ground arith
not_end-append (c ∷ d ∷ name) rest h = h

length-fields :
    (fields : List Field) (rest : Bytes) → length fields ≤ length (render_fields fields rest)
length-fields [] rest = omega arith
length-fields (f ∷ fields) rest = omega (arith, length-fields fields rest, length-append {0})

pub header_loop_end :
    (fuel : ℕ) (headers : Map Bytes Bytes) (rest : Bytes)
    → is_at crlf rest ≡ true
    → header_loop (suc fuel) headers rest ≡ some (headers, drop 2 rest)
unfolding header_loop
header_loop_end fuel headers rest e = ground arith

pub header_loop_line :
    (fuel : ℕ) (headers : Map Bytes Bytes) (rest key value rest' : Bytes)
    → is_at crlf rest ≡ false
    → header_line rest ≡ some (key, value, rest')
    → header_loop (suc fuel) headers rest ≡ header_loop fuel (insert key value headers) rest'
unfolding header_loop
header_loop_line fuel headers rest key value rest' e h = ground arith

header_loop-render :
    (fuel : ℕ) (fields : List Field) (headers : Map Bytes Bytes) (body : Bytes)
    → length fields < fuel
    → All IsField fields
    → header_loop fuel headers (render_fields fields body) ≡ some (add_fields headers fields, body)
header_loop-render zero fields headers body l h = absurd (omega arith)
header_loop-render (suc fuel) [] headers body l h =
    header_loop_end fuel headers (crlf ++ body) (is_at-append crlf body)
header_loop-render (suc fuel) (f ∷ fields) headers body l h =
    let rest = render_fields fields body in
    let behind = replicate f.blanks b' ' ++ (f.value ++ (b'\r' ∷ b'\n' ∷ rest)) in
    header_loop_line fuel headers (render_field f rest) f.name f.value rest
      (not_end-append f.name behind h.0.name_not_end) (header_line-render f rest h.0)
    ∙ header_loop-render fuel fields (insert f.name f.value headers) body (omega arith) h.1

pub body_of-kept : (body : Bytes) → body_of body ≡ kept body
unfolding body_of
body_of-kept [] = refl
body_of-kept (c ∷ []) = refl
body_of-kept (c ∷ d ∷ body) = ground arith

-- Every message of the grammar is accepted, and read as the request that it stands for.
pub from_raw_data-render :
    (m : Message) → IsMessage m → from_raw_data (render m) ≡ some (request_of m)
unfolding from_raw_data render request_of
from_raw_data-render m h =
    let fields = render_fields m.fields m.body in
    let line = version_text m.version ++ (b'\r' ∷ b'\n' ∷ fields) in
    rw (
      parse_method-append m.method (b' ' ∷ (m.url ++ (b' ' ∷ (codes "HTTP/" ++ line))))
          h.known_method,
      read_until-append b' ' m.url (codes "HTTP/" ++ line) h.url_absent,
      expect-append (codes "HTTP/") line,
      parse_version-append m.version (b'\r' ∷ b'\n' ∷ fields) h.known_version,
      expect-append crlf fields,
      header_loop-render (suc (length fields)) m.fields [] m.body
          (omega (arith, length-fields m.fields m.body)) h.all_fields,
      body_of-kept m.body,
    )
