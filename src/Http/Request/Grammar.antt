-- ===== src/Http/Request/Grammar.antt =====
-- The requests that `fromRawData` accepts, as a grammar: the parts of a message, their text, and the
-- request that they stand for.
use co_uring_web.Prelude.{ℕ, true, false, List, [], ◌∷◌, ◌++◌, Bytes, codes, ◌≡◌, replicate, All}
use co_uring_web.Prelude.OrdMap.{Map, insert}
use co_uring_web.Prelude.Keys.{bytes_key}
use co_uring_web.Http.{
  HttpMethod, method_nothing, get, post, head, put, patch, delete, HttpVersion, version_nothing, v9,
  v10, v11,
}
use co_uring_web.Http.Request.{HttpRequest, is_at, crlf}
use co_uring_web.Http.Request.Scan.{absent, starts_solid}

-- A header line, with the number of spaces between the colon and the value.
pub record Field : Type 0 where
  pub name : Bytes
  pub blanks : ℕ
  pub value : Bytes

pub record Message : Type 0 where
  pub method : HttpMethod
  pub url : Bytes
  pub version : HttpVersion
  pub fields : List Field
  pub body : Bytes

abbrev pub method_text : HttpMethod → Bytes
method_text get = codes "GET"
method_text post = codes "POST"
method_text head = codes "HEAD"
method_text put = codes "PUT"
method_text patch = codes "PATCH"
method_text delete = codes "DELETE"
method_text method_nothing = []

abbrev pub version_text : HttpVersion → Bytes
version_text v9 = codes "0.9"
version_text v10 = codes "1.0"
version_text v11 = codes "1.1"
version_text version_nothing = []

-- The text of a header line before `rest`.
abbrev pub render_field : Field → Bytes → Bytes
render_field f rest =
    f.name ++ (b':' ∷ (replicate f.blanks b' ' ++ (f.value ++ (b'\r' ∷ b'\n' ∷ rest))))

abbrev pub render_fields : List Field → Bytes → Bytes
render_fields [] rest = b'\r' ∷ b'\n' ∷ rest
render_fields (f ∷ fields) rest = render_field f (render_fields fields rest)

unfoldable pub render : Message → Bytes
render m =
    method_text m.method
    ++ (b' '
        ∷ (m.url
            ++ (b' '
                ∷ (codes "HTTP/"
                    ++ (version_text m.version
                        ++ (b'\r' ∷ b'\n' ∷ render_fields m.fields m.body))))))

-- The name holds no colon and does not begin with a line end; the value holds no carriage return
-- and does not begin with a space.
pub record IsField (f : Field) : Type 0 where
  pub name_absent : absent b':' f.name ≡ true
  pub name_not_end : is_at crlf f.name ≡ false
  pub value_absent : absent b'\r' f.value ≡ true
  pub value_solid : starts_solid (f.value ++ b'\r' ∷ []) ≡ true

abbrev pub IsKnownMethod : HttpMethod → Type 0
IsKnownMethod method_nothing = ⊥
IsKnownMethod _ = Unit

abbrev pub IsKnownVersion : HttpVersion → Type 0
IsKnownVersion version_nothing = ⊥
IsKnownVersion _ = Unit

pub record IsMessage (m : Message) : Type 0 where
  pub known_method : IsKnownMethod m.method
  pub url_absent : absent b' ' m.url ≡ true
  pub known_version : IsKnownVersion m.version
  pub all_fields : All IsField m.fields

-- Of two lines with one name the first counts.
abbrev pub add_fields : Map Bytes Bytes → List Field → Map Bytes Bytes
add_fields headers [] = headers
add_fields headers (f ∷ fields) = add_fields (insert f.name f.value headers) fields

-- A body of a single byte is dropped.
abbrev pub kept : Bytes → Bytes
kept [] = []
kept (c ∷ []) = []
kept (c ∷ d ∷ body) = c ∷ d ∷ body

unfoldable pub request_of : Message → HttpRequest
request_of m = record {
  url = m.url;
  headers = add_fields [] m.fields;
  body = kept m.body;
  method = m.method;
  version = m.version;
}
