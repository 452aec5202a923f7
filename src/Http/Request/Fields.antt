-- ===== src/Http/Request/Fields.antt =====
-- The setters and getters of one field of HttpRequest. The overload for an rvalue, which swaps, sets the
-- same field to the same value.
use co_uring_web.Prelude.{Bytes}
use co_uring_web.Prelude.OrdMap.{Map}
use co_uring_web.Http.{HttpMethod}
use co_uring_web.Http.Request.{HttpRequest}

abbrev pub set_url : HttpRequest → Bytes → HttpRequest
set_url r url = record r { url = url }

abbrev pub get_method : HttpRequest → HttpMethod
get_method r = r.method

abbrev pub set_method : HttpRequest → HttpMethod → HttpRequest
set_method r method = record r { method = method }

abbrev pub get_body : HttpRequest → Bytes
get_body r = r.body

abbrev pub set_body : HttpRequest → Bytes → HttpRequest
set_body r body = record r { body = body }

abbrev pub get_headers : HttpRequest → Map Bytes Bytes
get_headers r = r.headers

abbrev pub set_headers : HttpRequest → Map Bytes Bytes → HttpRequest
set_headers r headers = record r { headers = headers }
