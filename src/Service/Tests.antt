-- ===== src/Service/Tests.antt =====
-- A kernel with one file.
use co_uring_web.Prelude.{
  inr, ℕ, ◌+◌, ◌^◌, ◌<◌, some, [], ◌∷◌, Bytes, codes, length, ◌≡◌, ◌⊎◌, refl, arith, bytes_eq,
}
use co_uring_web.Prelude.OrdMap.{insert_or_assign}
use co_uring_web.Prelude.Keys.{bytes_key, bytes_lt}
use co_uring_web.Utils.Decimal.{to_string, digits_of}
use co_uring_web.Http.{get, v10}
use co_uring_web.Http.Request.{get_url}
use co_uring_web.Http.Request.Grammar.{Message, IsMessage, render, request_of}
use co_uring_web.Http.Request.Url.{get_url_slash}
use co_uring_web.Http.Status.{get_status_text}
use co_uring_web.Http.Response.{set_header, get_raw_data_size_without_body}
use co_uring_web.Http.Response.Render.{render_head}
use co_uring_web.Service.{
  received, Kernel, served, undefined, dropped, send_file, send_sized, int_to_string, response_to,
  send_opened, static_web_http,
}
use co_uring_web.Service.Answer.{file_message, static_web_http-file, static_web_http_escapes}
use co_uring_web.Service.Ledger.{with_ledger, static_web_http_settles}

abbrev message : Message
message = record { method = get; url = codes "/a"; version = v10; fields = []; body = [] }

message-IsMessage : IsMessage message
message-IsMessage = record {
  known_method = tt;
  url_absent = refl;
  known_version = tt;
  all_fields = tt;
}

abbrev outside : Message
outside = record message { url = codes "//b" }

outside-IsMessage : IsMessage outside
outside-IsMessage = record {
  known_method = tt;
  url_absent = refl;
  known_version = tt;
  all_fields = tt;
}

abbrev content : Bytes
content = codes "hello"

-- The state counts the calls.
abbrev kernel : Message → Kernel ℕ
kernel m = record {
  async_read = λ w fd size timeout. (received (render m), w + 1);
  async_write = λ w fd bytes timeout. w + 1;
  open_file = λ w path. (some 7, w + 1);
  fstat = λ w fd. (some 5, w + 1);
  read = λ w fd size. (some content, w + 1);
  close = λ w fd. w + 1;
}

message-get_url : get_url (request_of message) ≡ some (codes "a")
unfolding request_of
message-get_url = get_url_slash (request_of message) b'a' [] refl

small_message : length (file_message [] content) < 2 ^ 31
unfolding response_to set_header insert_or_assign bytes_lt bytes_eq to_string render_head
    get_status_text
small_message = omega arith

static_web_http-file_example :
    static_web_http (kernel message) (codes "/srv") 3 0
    ≡ served
        ((kernel message).close ((kernel message).async_write 5 3 (file_message [] content) 0) 3)
static_web_http-file_example =
    static_web_http-file (kernel message) (codes "/srv") 3 message (codes "a") [] content 7 0 1 2 3
      4 message-IsMessage message-get_url (inr ((refl, tt), refl)) refl refl refl refl small_message

static_web_http_escapes_example :
    static_web_http (kernel outside) (codes "/srv") 3 0
    ≡ send_opened (kernel outside) 3 (codes "/b") ((kernel outside).open_file 1 (codes "/b"))
static_web_http_escapes_example =
    static_web_http_escapes (kernel outside) (codes "/srv") 3 outside (codes "b") 0 1
      outside-IsMessage refl refl

static_web_http_settles_example :
    (static_web_http (with_ledger (kernel message)) (codes "/srv") 3 (0, some (3 ∷ [])) ≡ undefined)
    ⊎ ((w' : ℕ) × (static_web_http
            (with_ledger (kernel message))
            (codes "/srv")
            3
            (0, some (3 ∷ []))
          ≡ served (w', some [])))
static_web_http_settles_example =
    static_web_http_settles (kernel message) (codes "/srv") 3 (λ w fd. omega arith) 0

-- A file of 2 ^ 31 bytes: an exception leaves the file and the connection open.
large_file :
    send_file (with_ledger (kernel message)) 3 7 (codes "a") (some (2 ^ 31), (0, some (7 ∷ 3 ∷ [])))
    ≡ dropped (0, some (7 ∷ 3 ∷ []))
unfolding send_file send_sized response_to int_to_string set_header insert_or_assign bytes_lt
    bytes_eq to_string digits_of get_raw_data_size_without_body get_status_text
large_file = refl
