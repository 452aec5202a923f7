-- ===== src/Http/Response/Errors.antt =====
-- The responses that `toRawData` refuses.
use co_uring_web.Prelude.{
  ℕ, zero, suc, ◌<◌, ◌%◌, ◌/◌, ltb, ◌+◌, ◌≤◌, [], ◌∷◌, ◌++◌, Bytes, length, replicate, ◌≡◌, arith,
  length-append, codes, length-take, length-replicate, ◌⊎◌, inl, inr, false,
}
use co_uring_web.Utils.Decimal.{to_string, digits_of}
use co_uring_web.Http.{version_nothing}
use co_uring_web.Http.Status.{get_status_text, has_text, get_status_text_iff}
use co_uring_web.Http.Response.{
  HttpResponse, write_start, status_digits, to_raw_data, get_raw_data_size_without_body,
}
use co_uring_web.Http.Response.Buffer.{ok, put_at}
use co_uring_web.Http.Response.Render.{copy-Writes, put_at-Writes, IsPlaced, version_text}
use co_uring_web.Http.Response.Convert.{
  headers_size-render, length-version_text, write_start-Writes,
}

size_large : (r : HttpResponse) → 13 ≤ get_raw_data_size_without_body r
unfolding get_raw_data_size_without_body
size_large r =
    omega (arith, headers_size-render r.headers (13 + length (get_status_text r.status_code) + 2))

no_version : (r : HttpResponse) → r.version ≡ version_nothing → to_raw_data r ≡ ok []
unfolding to_raw_data get_raw_data_size_without_body write_start
no_version r e =
    let pad : Bytes = replicate (get_raw_data_size_without_body r + length r.body) 0 in
    let size : length pad ≡ get_raw_data_size_without_body r + length r.body =
      length-replicate (get_raw_data_size_without_body r + length r.body) 0 in
    let room : 5 ≤ length pad = omega (arith, size, size_large r) in
    rw (copy-Writes (codes "HTTP/") [] pad room, e)

digits_of_longer : (fuel n : ℕ) (acc : Bytes) → length acc < length (digits_of (suc fuel) n acc)
unfolding digits_of
digits_of_longer zero n acc = ground arith
digits_of_longer (suc fuel) n acc =
    ground (arith, digits_of_longer fuel (n / 10) ((48 + n % 10) ∷ acc))

length-status_digits : (code : ℕ) → 10 ≤ code → length (status_digits code) ≡ 3
unfolding to_string digits_of
length-status_digits code h =
    let two : (ltb code 10) ≡ false = ground (arith, h) in
    let longer : 1 < length (to_string code) =
      rw two (digits_of_longer 18 (code / 10) ((48 + code % 10) ∷ [])) in
    omega (
      arith,
      longer,
      length-take 3 (to_string code ++ 0 ∷ []),
      length-append (to_string code) (0 ∷ []),
    )

abbrev start_text : HttpResponse → Bytes
start_text r =
    codes "HTTP/" ++ (version_text r.version ++ (b' ' ∷ (status_digits r.status_code ++ b' ' ∷ [])))

no_text :
    (r : HttpResponse)
    → IsPlaced r.version
    → 10 ≤ r.status_code
    → has_text r.status_code ≡ false
    → to_raw_data r ≡ ok []
unfolding to_raw_data get_raw_data_size_without_body
no_text r p d e =
    let pad : Bytes = replicate (get_raw_data_size_without_body r + length r.body) 0 in
    let size : length pad ≡ get_raw_data_size_without_body r + length r.body =
      length-replicate (get_raw_data_size_without_body r + length r.body) 0 in
    let room : length (start_text r) ≤ length pad = omega (
      arith,
      size,
      size_large r,
      length-append {0},
      length-version_text r.version p,
      length-status_digits r.status_code d,
    ) in
    rw (
      write_start-Writes put_at put_at-Writes r p (length-status_digits r.status_code d) [] pad
          room,
      (get_status_text_iff r.status_code).1 e,
    )

-- `toRawData` returns the empty string, after an exception, for a response with no version, and for one of
-- version 1.0 or 1.1 whose status has no text and at least two digits.
pub to_raw_data_unknown :
    (r : HttpResponse)
    → (r.version ≡ version_nothing)
      ⊎ (IsPlaced r.version × (10 ≤ r.status_code) × (has_text r.status_code ≡ false))
    → to_raw_data r ≡ ok []
to_raw_data_unknown r (inl e) = no_version r e
to_raw_data_unknown r (inr (p, d, e)) = no_text r p d e
