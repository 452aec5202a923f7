-- ===== src/Http/Request/Sound.antt =====
-- `fromRawData` accepts only the messages of the grammar.
use co_uring_web.Prelude.{
  ℕ, zero, suc, true, false, Option, none, some, List, [], ◌∷◌, ◌++◌, Bytes, codes, length, drop,
  bytes_eq, ◌≡◌, refl, sym, ◌∙◌, ap, arith, replicate, Bool-cases, Option-cases, inl, inr, All,
}
use co_uring_web.Prelude.Options.{>>=-elim}
use co_uring_web.Prelude.OrdMap.{Map, insert}
use co_uring_web.Prelude.Keys.{bytes_key}
use co_uring_web.Http.{HttpMethod, HttpVersion}
use co_uring_web.Http.Request.{
  HttpRequest, is_at, expect_space, read_until, skip_spaces, expect, crlf, parse_method,
  parse_version, header_line, header_loop, from_raw_data,
}
use co_uring_web.Http.Request.Scan.{
  starts_solid, is_at-eq, expect-eq, expect_space-eq, read_until-eq, skip_spaces-eq,
}
use co_uring_web.Http.Request.Grammar.{
  Field, Message, method_text, version_text, render_field, render_fields, render, IsField,
  IsKnownMethod, IsKnownVersion, IsMessage, add_fields, request_of,
}
use co_uring_web.Http.Request.Accept.{body_of-kept, header_loop_end, header_loop_line}

parse_method-eq :
    (raw : Bytes) {method : HttpMethod} {rest : Bytes}
    → parse_method raw ≡ some (method, rest)
    → (raw ≡ method_text method ++ rest) × IsKnownMethod method
unfolding parse_method
parse_method-eq [] h = absurd (ground arith)
parse_method-eq (c ∷ cs) {method} {rest} h = ground (
  arith,
  is_at-eq (codes "GET") (c ∷ cs),
  is_at-eq (codes "POST") (c ∷ cs),
  is_at-eq (codes "PUT") (c ∷ cs),
  is_at-eq (codes "PATCH") (c ∷ cs),
  is_at-eq (codes "DELETE") (c ∷ cs),
  is_at-eq (codes "HEAD") (c ∷ cs),
)

parse_version-eq :
    (raw : Bytes) {version : HttpVersion} {rest : Bytes}
    → parse_version raw ≡ some (version, rest)
    → (raw ≡ version_text version ++ rest) × IsKnownVersion version
unfolding parse_version
parse_version-eq raw h =
    ground
      (arith, is_at-eq (codes "0.9") raw, is_at-eq (codes "1.0") raw, is_at-eq (codes "1.1") raw)

not_end_of-append :
    (name rest : Bytes) → is_at crlf (name ++ b':' ∷ rest) ≡ false → is_at crlf name ≡ false
unfolding is_at bytes_eq
not_end_of-append [] rest h = refl
not_end_of-append (c ∷ []) [] h = ground arith
not_end_of-append (c ∷ []) (d ∷ rest) h = ground arith
not_end_of-append (c ∷ d ∷ name) rest h = h

solid_of-append :
    (value rest : Bytes)
    → starts_solid (value ++ b'\r' ∷ rest) ≡ true
    → starts_solid (value ++ b'\r' ∷ []) ≡ true
solid_of-append [] rest h = refl
solid_of-append (c ∷ value) rest h = h

-- The four steps of a header line, put together.
header_line_parts :
    (rest key r1 r2 value r3 rest' : Bytes)
    → read_until b':' rest ≡ some (key, r1)
    → skip_spaces (drop 1 r1) ≡ some r2
    → read_until b'\r' r2 ≡ some (value, r3)
    → expect crlf r3 ≡ some rest'
    → is_at crlf rest ≡ false
    → (n : ℕ) × (rest ≡ render_field (record { name = key; blanks = n; value = value }) rest')
      × IsField (record { name = key; blanks = n; value = value })
header_line_parts rest key r1 r2 value r3 rest' m1 m2 m3 m4 e =
    let (a, a_absent, _) = read_until-eq b':' rest m1 in
    let (n, b, solid) = skip_spaces-eq (drop 1 r1) m2 in
    let (c, c_absent, c_rest) = read_until-eq b'\r' r2 m3 in
    let ending : b'\r' ∷ drop 1 r3 ≡ b'\r' ∷ b'\n' ∷ rest' = sym c_rest ∙ expect-eq crlf r3 m4 in
    let whole : rest ≡ key ++ (b':' ∷ (replicate n b' ' ++ (value ++ (b'\r' ∷ b'\n' ∷ rest')))) =
      a
      ∙ ap (λ l. key ++ b':' ∷ l)
          (b ∙ ap (λ l. replicate n b' ' ++ l) (c ∙ ap (λ l. value ++ l) ending)) in
    (
      n,
      whole,
      record {
        name_absent = a_absent;
        name_not_end = not_end_of-append key (drop 1 r1) (rw a at e);
        value_absent = c_absent;
        value_solid = solid_of-append value (drop 1 r3) (rw c at solid);
      },
    )

header_line-eq :
    (rest : Bytes) {key value rest' : Bytes}
    → header_line rest ≡ some (key, value, rest')
    → is_at crlf rest ≡ false
    → (n : ℕ) × (rest ≡ render_field (record { name = key; blanks = n; value = value }) rest')
      × IsField (record { name = key; blanks = n; value = value })
unfolding header_line
header_line-eq rest {key} {value} {rest'} h e = >>=-elim (read_until b':' rest) _ h λ p m1 h1.
    >>=-elim (skip_spaces (drop 1 p.1)) _ h1 λ r2 m2 h2.
      >>=-elim (read_until b'\r' r2) _ h2 λ q m3 h3. >>=-elim (expect crlf q.1) _ h3 λ r m4 h4.
        let named : some (p.0, p.1) ≡ some (key, p.1) = ground arith in
        let valued : some (q.0, q.1) ≡ some (value, q.1) = ground arith in
        let behind : r ≡ rest' = ground arith in
        header_line_parts rest key p.1 r2 value q.1 rest' (m1 ∙ named) m2 (m3 ∙ valued)
          (m4 ∙ ap some behind) e

header_loop_stop :
    (fuel : ℕ) (headers : Map Bytes Bytes) (rest : Bytes)
    → is_at crlf rest ≡ false
    → header_line rest ≡ none
    → header_loop (suc fuel) headers rest ≡ none
unfolding header_loop
header_loop_stop fuel headers rest e f = ground arith

header_loop-eq :
    (fuel : ℕ) (headers : Map Bytes Bytes) (rest : Bytes) {headers' : Map Bytes Bytes}
    {rest' : Bytes}
    → header_loop fuel headers rest ≡ some (headers', rest')
    → (fields : List Field) × (rest ≡ render_fields fields rest')
      × (headers' ≡ add_fields headers fields)
      × All IsField fields
header_loop-eq zero headers rest h = unfold header_loop in absurd (ground arith)
header_loop-eq (suc fuel) headers rest {headers'} {rest'} h = elim (Bool-cases (is_at crlf rest)) [
  | inl e ↦
      let done : ◌≡◌ {A = Option (Map Bytes Bytes × Bytes)} (some (headers, drop 2 rest))
          (some (headers', rest')) =
        sym (header_loop_end fuel headers rest e) ∙ h in
      ([], ground (arith, is_at-eq crlf rest e), ground arith, tt)
  | inr e ↦ elim (Option-cases (header_line rest)) [
    | inl f ↦ absurd (cc (h, header_loop_stop fuel headers rest e f))
    | inr ((key, value, r), f) ↦
        let (n, a, ok_field) = header_line-eq rest f e in
        let (fields, b, c, ok_fields) =
          header_loop-eq fuel (insert key value headers) r
            (sym (header_loop_line fuel headers rest key value r e f) ∙ h) in
        let first : Field = record { name = key; blanks = n; value = value } in
        (first ∷ fields, a ∙ ap (render_field first) b, c, (ok_field, ok_fields))
  ]
]

-- What `fromRawData` accepts is the text of a message of the grammar, and the result is the request
-- that the message stands for.
pub from_raw_data-eq :
    (raw : Bytes) {r : HttpRequest}
    → from_raw_data raw ≡ some r
    → (m : Message) × IsMessage m × (raw ≡ render m) × (r ≡ request_of m)
unfolding from_raw_data render request_of
from_raw_data-eq raw {r} h = >>=-elim (parse_method raw) _ h λ a m1 h1.
    >>=-elim (expect_space a.1) _ h1 λ b m2 h2. >>=-elim (read_until b' ' b) _ h2 λ c m3 h3.
      >>=-elim (expect (codes "HTTP/") (drop 1 c.1)) _ h3 λ d m4 h4.
        >>=-elim (parse_version d) _ h4 λ e m5 h5. >>=-elim (expect crlf e.1) _ h5 λ f m6 h6.
          >>=-elim (header_loop (suc (length f)) [] f) _ h6 λ g m7 h7.
            let (w1, k1) = parse_method-eq raw m1 in
            let w2 = expect_space-eq a.1 m2 in
            let (w3, k3, _) = read_until-eq b' ' b m3 in
            let w4 = expect-eq (codes "HTTP/") (drop 1 c.1) m4 in
            let (w5, k5) = parse_version-eq d m5 in
            let w6 = expect-eq crlf e.1 m6 in
            let (fields, w7, k7, all) = header_loop-eq (suc (length f)) [] f m7 in
            (
              record { method = a.0; url = c.0; version = e.0; fields = fields; body = g.1 },
              record { known_method = k1; url_absent = k3; known_version = k5; all_fields = all },
              w1
                  ∙ ap (λ l. method_text a.0 ++ l)
                      (w2
                        ∙ ap (λ l. b' ' ∷ l)
                            (w3
                              ∙ ap (λ l. c.0 ++ b' ' ∷ l)
                                  (w4
                                    ∙ ap (λ l. codes "HTTP/" ++ l)
                                        (w5
                                          ∙ ap (λ l. version_text e.0 ++ l)
                                              (w6 ∙ ap (λ l. crlf ++ l) w7))))),
              ground (arith, h7, k7, body_of-kept g.1),
            )
