-- ===== src/Http/Response.antt =====
-- `HttpResponse` of include/http.h, and its conversion to bytes in src/http.cpp.
pub mod Buffer
pub mod Render
pub mod Convert
pub mod Errors
pub mod Headers
pub mod Fields
mod Tests
use co_uring_web.Prelude.{
  ltb, ℕ, ◌+◌, Option, none, some, List, [], ◌∷◌, ◌++◌, Bytes, codes, length, take, replicate, ◌==◌,
  if◌then◌else◌,
}
use co_uring_web.Prelude.OrdMap.{Map, insert_or_assign, find}
use co_uring_web.Prelude.Keys.{bytes_key}
use co_uring_web.Utils.Decimal.{to_string}
use co_uring_web.Http.{HttpVersion, version_nothing, v9, v10, v11}
use co_uring_web.Http.Status.{get_status_text}
use co_uring_web.Http.Response.Buffer.{
  Outcome, ok, thrown, fault, ◌>>=◌, Writer, copy, copy_front, put_at, put_raw, guard, ◌>>◌,
}

pub record HttpResponse : Type 0 where
  pub version : HttpVersion
  pub status_code : ℕ
  pub headers : Map Bytes Bytes
  pub body : Bytes

-- The constructor's default arguments.
abbrev pub default_response : HttpResponse
default_response = record { version = v10; status_code = 200; headers = []; body = [] }

unfoldable pub set_header : HttpResponse → Bytes → Bytes → HttpResponse
set_header r key value = record r { headers = insert_or_assign key value r.headers }

unfoldable pub get_header_value : HttpResponse → Bytes → Bytes
get_header_value r key = elim (find key r.headers) [ none ↦ [] | some value ↦ value ]

-- The loop over the headers in both length computations.
pub headers_size : Map Bytes Bytes → ℕ → ℕ
headers_size [] size = size
headers_size ((key, value) ∷ headers) size =
    headers_size headers (size + (length key + 1 + 1 + length value + 2))

unfoldable pub get_raw_data_size_without_body : HttpResponse → ℕ
unfolding headers_size
get_raw_data_size_without_body r =
    headers_size r.headers (13 + length (get_status_text r.status_code) + 2) + 2

abbrev pub crlf : Bytes
crlf = b'\r' ∷ b'\n' ∷ []

-- The switch over the version. The branch of V9 copies to the start of the buffer.
pub write_version : HttpVersion → Writer → Outcome Writer
write_version version_nothing w = thrown w.buffer
write_version v10 w = copy (codes "1.0") w
write_version v11 w = copy (codes "1.1") w
write_version v9 w = copy_front (codes "0.9") w

-- What `memcpy` takes of `to_string(statusCode_)`, with the zero byte behind the digits.
abbrev pub status_digits : ℕ → Bytes
status_digits code = take 3 (to_string code ++ 0 ∷ [])

-- A copy of three bytes, which are more than a code of one digit has.
unfoldable pub write_status : ℕ → Writer → Outcome Writer
write_status code w =
    if ltb (length (status_digits code)) 3 then fault else copy (status_digits code) w

-- `at` is the write of one byte, which the two callers spell differently.
pub write_headers : (ℕ → Writer → Outcome Writer) → Map Bytes Bytes → Writer → Outcome Writer
write_headers at [] w = ok w
write_headers at ((key, value) ∷ headers) w = do
  w ← copy key w
  w ← at b':' w
  w ← at b' ' w
  w ← copy value w
  w ← at b'\r' w
  w ← at b'\n' w
  write_headers at headers w

-- From the status text to the empty line.
pub write_rest : (ℕ → Writer → Outcome Writer) → HttpResponse → Writer → Outcome Writer
unfolding write_headers
write_rest at r w = do
  w ← copy (get_status_text r.status_code) w
  w ← copy crlf w
  w ← write_headers at r.headers w
  w ← at b'\r' w
  at b'\n' w

-- Up to the space behind the status code.
pub write_start : (ℕ → Writer → Outcome Writer) → HttpResponse → Writer → Outcome Writer
unfolding write_version
write_start at r w = do
  w ← copy (codes "HTTP/") w
  w ← write_version r.version w
  w ← at b' ' w
  w ← write_status r.status_code w
  at b' ' w

-- Everything before the body.
pub write_head : (ℕ → Writer → Outcome Writer) → HttpResponse → Writer → Outcome Writer
unfolding write_start write_rest
write_head at r w = do
  w ← write_start at r w
  guard (get_status_text r.status_code) w
  write_rest at r w

-- The check that the whole buffer was written.
finish : Writer → Outcome Bytes
finish w = if w.index == length w.buffer then ok w.buffer else thrown w.buffer

-- An exception is logged, and an empty string is returned.
catch : Outcome Bytes → Outcome Bytes
catch (ok b) = ok b
catch (thrown b) = ok []
catch fault = fault

unfoldable pub to_raw_data : HttpResponse → Outcome Bytes
unfolding write_head finish catch headers_size
to_raw_data r =
    let size =
      headers_size r.headers (13 + length (get_status_text r.status_code) + 2)
      + 2
      + length r.body in
    catch (do
      w ← write_head put_at r (record { buffer = replicate size 0; index = 0 })
      w ← copy r.body w
      finish w)

-- An exception leaves the buffer as it is.
left_in_buffer : Outcome Writer → Outcome Bytes
left_in_buffer (ok w) = ok w.buffer
left_in_buffer (thrown b) = ok b
left_in_buffer fault = fault

-- The buffer behind `buffer` after the call.
unfoldable pub to_raw_data_without_body : HttpResponse → Bytes → Outcome Bytes
unfolding write_head left_in_buffer
to_raw_data_without_body r buffer =
    left_in_buffer (write_head put_raw r (record { buffer = buffer; index = 0 }))
