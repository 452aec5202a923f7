-- ===== src/Http/Response/Fields.antt =====
-- The setters and getters of one field of HttpResponse, and its assignments. The overload of a setter for
-- an rvalue, which swaps, sets the same field to the same value.
use co_uring_web.Prelude.{ℕ, Bytes}
use co_uring_web.Prelude.OrdMap.{Map}
use co_uring_web.Http.{HttpVersion}
use co_uring_web.Http.Response.{HttpResponse}

abbrev pub set_version : HttpResponse → HttpVersion → HttpResponse
set_version r version = record r { version = version }

abbrev pub get_version : HttpResponse → HttpVersion
get_version r = r.version

abbrev pub set_status_code : HttpResponse → ℕ → HttpResponse
set_status_code r status_code = record r { status_code = status_code }

abbrev pub get_status_code : HttpResponse → ℕ
get_status_code r = r.status_code

abbrev pub set_headers : HttpResponse → Map Bytes Bytes → HttpResponse
set_headers r headers = record r { headers = headers }

abbrev pub get_headers : HttpResponse → Map Bytes Bytes
get_headers r = r.headers

abbrev pub set_body : HttpResponse → Bytes → HttpResponse
set_body r body = record r { body = body }

abbrev pub get_body : HttpResponse → Bytes
get_body r = r.body

-- `operator=` of another response.
abbrev pub copy_assign : HttpResponse → HttpResponse → HttpResponse
copy_assign r other = record r {
  version = other.version;
  status_code = other.status_code;
  headers = other.headers;
  body = other.body;
}

-- `operator=` of an rvalue: this response, and what is left in the other.
abbrev pub move_assign : HttpResponse → HttpResponse → HttpResponse × HttpResponse
move_assign r other = (copy_assign r other, record other { headers = r.headers; body = r.body })
