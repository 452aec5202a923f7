-- ===== src/Http/Response/Convert.antt =====
-- The two conversions of a response write the message of Render, and the computed size is exact.
use co_uring_web.Prelude.{
  ltb, false, ℕ, ◌+◌, ◌≤◌, [], ◌∷◌, ◌++◌, Bytes, length, drop, replicate, ◌≡◌, refl, arith,
  length-append, append_assoc, append-nil, ◌∙◌, ap, codes, drop-all, length-drop, length-replicate,
  true, ◌≢◌, ==_self,
}
use co_uring_web.Prelude.OrdMap.{Map}
use co_uring_web.Utils.Decimal.{to_string, to_string_three}
use co_uring_web.Http.{HttpVersion, version_nothing, v9, v10, v11}
use co_uring_web.Http.Status.{get_status_text, has_text, has_text_bounds, get_status_text_iff}
use co_uring_web.Http.Response.{
  HttpResponse, crlf, headers_size, write_version, write_headers, write_head, write_rest,
  write_start, status_digits, write_status, to_raw_data, to_raw_data_without_body,
  get_raw_data_size_without_body,
}
use co_uring_web.Http.Response.Buffer.{Outcome, ok, ◌>>◌, Writer, copy, put_at, put_raw, guard}
use co_uring_web.Http.Response.Render.{
  Writes, copy-Writes, put_at-Writes, put_raw-Writes, then-Writes, write_headers-Writes,
  write_version-Writes, IsPlaced, version_text, render_headers, render_head,
}

status_digits-eq : (code : ℕ) → has_text code ≡ true → status_digits code ≡ to_string code
status_digits-eq code h = let b = has_text_bounds code h in rw (to_string_three code b.0 b.1)

status_digits_three : (code : ℕ) → has_text code ≡ true → length (status_digits code) ≡ 3
status_digits_three code h =
    let b = has_text_bounds code h in
    ap length (status_digits-eq code h) ∙ rw (to_string_three code b.0 b.1) refl

write_status-Writes :
    (code : ℕ) → length (status_digits code) ≡ 3 → Writes (write_status code) (status_digits code)
unfolding write_status
write_status-Writes code d before pad h =
    let enough : ltb (length (status_digits code)) 3 ≡ false = ground (arith, d) in
    rw enough (copy-Writes (status_digits code) before pad h)

status_text-ne-nil : (code : ℕ) → has_text code ≡ true → get_status_text code ≢ []
status_text-ne-nil code h e = cc (h, (get_status_text_iff code).0 e)

guard-Writes :
    (t s : Bytes) (g : Writer → Outcome Writer)
    → t ≢ []
    → Writes g s
    → Writes (λ w. guard t w >> g w) s
guard-Writes [] s g h k = absurd (h refl)
guard-Writes (c ∷ t) s g h k = k

render_head_parts :
    (r : HttpResponse)
    → has_text r.status_code ≡ true
    → render_head r
      ≡ codes "HTTP/"
        ++ (version_text r.version ++ (b' ' ∷ (status_digits r.status_code ++ b' ' ∷ [])))
        ++ (get_status_text r.status_code ++ (b'\r' ∷ b'\n' ∷ (render_headers r.headers ++ crlf)))
unfolding render_head
render_head_parts r h = rw (status_digits-eq r.status_code h) (simp append_assoc)

module _ (at : ℕ → Writer → Outcome Writer) (at-Writes : (c : ℕ) → Writes (at c) (c ∷ [])) where
  write_rest-Writes :
      (r : HttpResponse)
      → Writes
          (write_rest at r)
          (get_status_text r.status_code ++ (b'\r' ∷ b'\n' ∷ (render_headers r.headers ++ crlf)))
  unfolding write_rest
  write_rest-Writes r =
      then-Writes (copy (get_status_text r.status_code)) _ (get_status_text r.status_code) _
        (copy-Writes (get_status_text r.status_code))
        (then-Writes (copy crlf) _ crlf _ (copy-Writes crlf) (
          then-Writes (write_headers at r.headers) _ (render_headers r.headers) _
            (write_headers-Writes at at-Writes r.headers)
            (then-Writes (at b'\r') (at b'\n') (b'\r' ∷ []) (b'\n' ∷ []) (at-Writes b'\r')
              (at-Writes b'\n'))))

  pub write_start-Writes :
      (r : HttpResponse)
      → IsPlaced r.version
      → length (status_digits r.status_code) ≡ 3
      → Writes (write_start at r) (
          codes "HTTP/"
          ++ (version_text r.version ++ (b' ' ∷ (status_digits r.status_code ++ b' ' ∷ []))))
  unfolding write_start
  write_start-Writes r p d =
      then-Writes (copy (codes "HTTP/")) _ (codes "HTTP/") _ (copy-Writes (codes "HTTP/")) (
        then-Writes (write_version r.version) _ (version_text r.version) _
          (write_version-Writes at at-Writes r.version p)
          (then-Writes (at b' ') _ (b' ' ∷ []) _ (at-Writes b' ') (
            then-Writes (write_status r.status_code) (at b' ') (status_digits r.status_code)
              (b' ' ∷ []) (write_status-Writes r.status_code d) (at-Writes b' '))))

  write_head-Writes :
      (r : HttpResponse)
      → IsPlaced r.version
      → has_text r.status_code ≡ true
      → Writes (write_head at r) (render_head r)
  unfolding write_head
  write_head-Writes r p h = rw (render_head_parts r h) (
      then-Writes (write_start at r)
        (λ w. guard (get_status_text r.status_code) w >> write_rest at r w) _ _
        (write_start-Writes r p (status_digits_three r.status_code h))
        (guard-Writes (get_status_text r.status_code) _ (write_rest at r)
          (status_text-ne-nil r.status_code h) (write_rest-Writes r)))

pub headers_size-render :
    (headers : Map Bytes Bytes) (n : ℕ)
    → headers_size headers n ≡ n + length (render_headers headers)
unfolding headers_size
headers_size-render [] n = omega arith
headers_size-render ((key, value) ∷ headers) n = omega (
  arith,
  headers_size-render headers (n + (length key + 1 + 1 + length value + 2)),
  length-append key (b':' ∷ b' ' ∷ (value ++ (b'\r' ∷ b'\n' ∷ render_headers headers))),
  length-append value (b'\r' ∷ b'\n' ∷ render_headers headers),
)

pub length-version_text :
    (version : HttpVersion) → IsPlaced version → length (version_text version) ≡ 3
length-version_text v10 p = refl
length-version_text v11 p = refl
length-version_text v9 p = absurd p
length-version_text version_nothing p = absurd p

length-to_string : (code : ℕ) → has_text code ≡ true → length (to_string code) ≡ 3
length-to_string code h = let b = has_text_bounds code h in rw (to_string_three code b.0 b.1)

-- The computed size is the length of everything before the body.
pub get_raw_data_size_without_body-eq :
    (r : HttpResponse)
    → IsPlaced r.version
    → has_text r.status_code ≡ true
    → get_raw_data_size_without_body r ≡ length (render_head r)
unfolding get_raw_data_size_without_body render_head
get_raw_data_size_without_body-eq r p h = omega (
  arith,
  headers_size-render r.headers (13 + length (get_status_text r.status_code) + 2),
  length-append {0},
  length-version_text r.version p,
  length-to_string r.status_code h,
)

-- `toRawData` of a response with a known status and version 1.0 or 1.1 throws nothing, writes nothing
-- out of range, and returns the message: status line, header lines, an empty line and the body.
pub to_raw_data-eq :
    (r : HttpResponse)
    → IsPlaced r.version
    → has_text r.status_code ≡ true
    → to_raw_data r ≡ ok (render_head r ++ r.body)
unfolding to_raw_data get_raw_data_size_without_body
to_raw_data-eq r p h =
    let pad = replicate (get_raw_data_size_without_body r + length r.body) 0 in
    let size : length pad ≡ length (render_head r) + length r.body =
      length-replicate _ 0
      ∙ ap (λ n. n + length r.body) (get_raw_data_size_without_body-eq r p h) in
    let head = write_head-Writes put_at put_at-Writes r p h [] pad (omega (arith, size)) in
    let left = drop (length (render_head r)) pad in
    let body =
      copy-Writes r.body (render_head r) left
        (omega (arith, size, length-drop (length (render_head r)) pad)) in
    let none_left : drop (length r.body) left ≡ [] =
      drop-all (length r.body) left
        (omega (arith, size, length-drop (length (render_head r)) pad)) in
    rw (head, body, none_left, append-nil, ==_self)

-- `toRawDataWithoutBody` of a response with a known status and version 1.0 or 1.1 fills the first bytes
-- of a buffer that is large enough with the status line and the headers, and leaves the others as they are.
pub to_raw_data_without_body-eq :
    (r : HttpResponse) (buffer : Bytes)
    → IsPlaced r.version
    → has_text r.status_code ≡ true
    → get_raw_data_size_without_body r ≤ length buffer
    → to_raw_data_without_body r buffer
      ≡ ok (render_head r ++ drop (get_raw_data_size_without_body r) buffer)
unfolding to_raw_data_without_body
to_raw_data_without_body-eq r buffer p h room =
    let size = get_raw_data_size_without_body-eq r p h in
    rw (write_head-Writes put_raw put_raw-Writes r p h [] buffer (omega (arith, size)), size)
