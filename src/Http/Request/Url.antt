-- ===== src/Http/Request/Url.antt =====
-- `getUrl` of HttpRequest.
use co_uring_web.Prelude.{◌∷◌, ℕ, Bytes, bytes_eq, some, ◌≡◌, arith}
use co_uring_web.Http.Request.{HttpRequest, get_url}

-- A URL of a slash and more stands for what is behind the slash.
pub get_url_slash :
    (r : HttpRequest) (c : ℕ) (rest : Bytes) → r.url ≡ b'/' ∷ c ∷ rest → get_url r ≡ some (c ∷ rest)
unfolding get_url bytes_eq
get_url_slash r c rest h = ground (arith, h)
