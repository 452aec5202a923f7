-- ===== src/Http/Response/Headers.antt =====
-- `setHeader` and `getHeaderValue` of HttpResponse.
use co_uring_web.Prelude.{Bytes, bytes_eq, if◌then◌else◌, ◌≡◌, arith}
use co_uring_web.Prelude.OrdMap.{find-insert_or_assign}
use co_uring_web.Prelude.Keys.{bytes_key}
use co_uring_web.Http.Response.{HttpResponse, set_header, get_header_value}

-- After `setHeader` a response has the new value at the key, and at any other key what it had.
pub response_header_lem :
    (r : HttpResponse) (key value k : Bytes)
    → get_header_value (set_header r key value) k
      ≡ (if bytes_eq key k then value else get_header_value r k)
unfolding set_header get_header_value
response_header_lem r key value k = ground (arith, find-insert_or_assign k key value r.headers)
