-- ===== src/Service/Answer.antt =====
-- What is sent for a file.
use co_uring_web.Prelude.OrdMap.{insert_or_assign}
use co_uring_web.Prelude.Keys.{bytes_lt}
use co_uring_web.Prelude.{
  All, codes, sym, bytes_eq, ◌==◌, ◌⊎◌, inl, inr, append_assoc, ℕ, zero, suc, ◌+◌, ◌-◌, ◌^◌, ◌≤◌,
  ◌<◌, true, false, Option, none, some, [], ◌∷◌, ◌++◌, Bytes, length, replicate, drop, leb, ◌≡◌,
  refl, ap, ◌∙◌, arith, length-append, length-replicate, append-nil,
}
use co_uring_web.Utils.Decimal.{to_string, digits_of}
use co_uring_web.Utils.Hash.{get_content_type}
use co_uring_web.Http.{v10}
use co_uring_web.Http.Status.{get_status_text, has_text}
use co_uring_web.Http.Request.{HttpRequest, from_raw_data, get_url}
use co_uring_web.Http.Request.Grammar.{Message, IsMessage, render, request_of}
use co_uring_web.Http.Request.Url.{get_url_slash}
use co_uring_web.Http.Request.Accept.{from_raw_data-render}
use co_uring_web.Http.Response.{
  HttpResponse, default_response, set_header, get_raw_data_size_without_body,
}
use co_uring_web.Http.Response.Render.{IsPlaced, render_head, copy-Writes}
use co_uring_web.Http.Response.Convert.{
  get_raw_data_size_without_body-eq, to_raw_data_without_body-eq,
}
use co_uring_web.Http.Response.Buffer.{ok}
use co_uring_web.Service.{
  received, Kernel, served, read_buffer_size, path_append, c_string, extension, with_type,
  with_extension, response_to, response_bytes, send, send_sized, send_file, to_int, is_negative,
  int_to_string, server_string, send_opened, respond, parsed_request, after_read, static_web_http,
}

-- The response has the version and the status of the default.
abbrev IsDefault : HttpResponse → Type 0
IsDefault r = (r.version ≡ v10) × (r.status_code ≡ 200)

with_extension-IsDefault :
    (ext : Option Bytes) (r : HttpResponse) → IsDefault r → IsDefault (with_extension ext r)
unfolding set_header
with_extension-IsDefault none r h = h
with_extension-IsDefault (some ext) r h = typed (get_content_type ext)
  where
    typed : (t : Bytes) → IsDefault (with_type t r)
    typed [] = h
    typed (c ∷ t) = h

response_to-IsDefault : (url : Bytes) (n : ℕ) → IsDefault (response_to url n)
unfolding response_to set_header
response_to-IsDefault url n = with_extension-IsDefault (extension url) default_response (refl, refl)

response_to-IsPlaced : (url : Bytes) (n : ℕ) → IsPlaced (response_to url n).version
response_to-IsPlaced url n = rw (response_to-IsDefault url n).0 tt

response_to-has_text : (url : Bytes) (n : ℕ) → has_text (response_to url n).status_code ≡ true
unfolding has_text
response_to-has_text url n = rw (response_to-IsDefault url n).1 refl

drop-replicate : (m n a : ℕ) → drop m (replicate n a) ≡ replicate (n - m) a
drop-replicate zero n a = ground arith
drop-replicate (suc m) zero a = ground arith
drop-replicate (suc m) (suc n) a = ground (arith, drop-replicate m n a)

-- Where the file has become shorter, zero bytes stand in place of what is missing.
response_bytes-eq :
    (r : HttpResponse) (n : ℕ) (content : Bytes)
    → IsPlaced r.version
    → has_text r.status_code ≡ true
    → length content ≤ n
    → response_bytes r n content ≡ ok (render_head r ++ content ++ replicate (n - length content) 0)
unfolding response_bytes
response_bytes-eq r n content p h l =
    let size = get_raw_data_size_without_body-eq r p h in
    let k = get_raw_data_size_without_body r in
    let pad : Bytes = replicate (k + n) 0 in
    let head =
      to_raw_data_without_body-eq r pad p h (omega (arith, length-replicate {A = ℕ} (k + n) 0)) in
    let left : drop k pad ≡ replicate n 0 =
      drop-replicate k (k + n) 0 ∙ ap (λ m. replicate m 0) (omega arith) in
    let body =
      copy-Writes content (render_head r) (replicate n 0)
        (omega (arith, l, length-replicate {A = ℕ} n 0)) in
    rw (head ∙ ap (λ (b : Bytes). ok (render_head r ++ b)) left, response_bytes)
      (rw (size, body)
        (ap (λ (b : Bytes). ok (render_head r ++ content ++ b))
          (drop-replicate (length content) n 0)))

-- What stands behind the last dot of a URL has this content type; a URL without a dot has none.
abbrev pub HasType : Bytes → Bytes → Type 0
HasType url content_type =
    ((base : Bytes) × (ext : Bytes) × (url ≡ base ++ b'.' ∷ ext)
      × All (λ c. (c == b'.') ≡ false) ext
      × (get_content_type ext ≡ content_type))
    ⊎ (All (λ c. (c == b'.') ≡ false) url × (content_type ≡ []))

abbrev pub type_line : Bytes → Bytes
type_line [] = []
type_line (c ∷ content_type) = codes "Content-Type: " ++ (c ∷ content_type) ++ codes "\r\n"

-- The head of the message for a file of so many bytes, and the message.
abbrev pub file_head : Bytes → ℕ → Bytes
file_head content_type n =
    codes "HTTP/1.0 200 OK\r\nContent-Length: "
    ++ to_string n
    ++ codes "\r\n"
    ++ type_line content_type
    ++ codes "server: co_uring_httpd/0.1\r\n\r\n"

abbrev pub file_message : Bytes → Bytes → Bytes
file_message content_type content = file_head content_type (length content) ++ content

no_extension : (url : Bytes) → All (λ c. (c == b'.') ≡ false) url → extension url ≡ none
no_extension [] h = refl
no_extension (c ∷ url) (e, h) = rw (no_extension url h) (rw e refl)

last_extension :
    (base ext : Bytes)
    → All (λ c. (c == b'.') ≡ false) ext
    → extension (base ++ b'.' ∷ ext) ≡ some ext
last_extension [] ext h = rw (no_extension ext h) refl
last_extension (c ∷ base) ext h = rw (last_extension base ext h) refl

with_extension-HasType :
    (url content_type : Bytes) (r : HttpResponse)
    → HasType url content_type
    → with_extension (extension url) r ≡ with_type content_type r
with_extension-HasType url content_type r (inl (base, ext, e, h, t)) =
    ap (λ u. with_extension (extension u) r) e
    ∙ ap (λ o. with_extension o r) (last_extension base ext h)
    ∙ ap (λ y. with_type y r) t
with_extension-HasType url content_type r (inr (h, t)) =
    ap (λ o. with_extension o r) (no_extension url h) ∙ ap (λ y. with_type y r) (sym t)

ok_digits : to_string 200 ≡ codes "200"
unfolding to_string digits_of
ok_digits = refl

-- The response with this content type and length.
abbrev typed_response : Bytes → ℕ → HttpResponse
typed_response content_type n =
    set_header (set_header (with_type content_type default_response) (codes "server") server_string)
      (codes "Content-Length") (int_to_string n)

response_to-HasType :
    (url content_type : Bytes) (n : ℕ)
    → HasType url content_type
    → response_to url n ≡ typed_response content_type n
unfolding response_to
response_to-HasType url content_type n h =
    ap
      (λ r.
        set_header (set_header r (codes "server") server_string) (codes "Content-Length")
          (int_to_string n))
      (with_extension-HasType url content_type default_response h)

render_head-typed_response :
    (content_type : Bytes) (n : ℕ)
    → render_head (typed_response content_type n)
      ≡ codes "HTTP/1.0 200 OK\r\nContent-Length: "
        ++ int_to_string n
        ++ codes "\r\n"
        ++ type_line content_type
        ++ codes "server: co_uring_httpd/0.1\r\n\r\n"
unfolding render_head set_header insert_or_assign bytes_lt bytes_eq get_status_text
render_head-typed_response [] n = rw ok_digits (simp append_assoc)
render_head-typed_response (c ∷ content_type) n = rw ok_digits (simp append_assoc)

int_to_string-small : (n : ℕ) → n < 2 ^ 31 → int_to_string n ≡ to_string n
unfolding int_to_string
int_to_string-small n l = let e : leb (2 ^ 31) n ≡ false = ground (arith, l) in rw e refl

head_and_content :
    (url content_type content : Bytes)
    → HasType url content_type
    → length content < 2 ^ 31
    → render_head (response_to url (length content)) ++ content ≡ file_message content_type content
head_and_content url content_type content h l =
    ap (λ r. render_head r ++ content) (response_to-HasType url content_type (length content) h)
    ∙ ap (λ b. b ++ content) (render_head-typed_response content_type (length content))
    ∙ rw (int_to_string-small (length content) l) (simp append_assoc)

response_bytes-whole :
    (url content_type content : Bytes)
    → HasType url content_type
    → length content < 2 ^ 31
    → response_bytes (response_to url (length content)) (length content) content
      ≡ ok (file_message content_type content)
response_bytes-whole url content_type content h l =
    let n = length content in
    let none_missing : n - n ≡ 0 = omega arith in
    response_bytes-eq (response_to url n) n content (response_to-IsPlaced url n)
      (response_to-has_text url n) (omega arith)
    ∙ ap (λ (k : ℕ). ok (render_head (response_to url n) ++ content ++ replicate k 0)) none_missing
    ∙ ap ok (append-nil (render_head (response_to url n) ++ content))
    ∙ ap ok (head_and_content url content_type content h l)

path_append_root : (dir path : Bytes) → path_append dir (b'/' ∷ path) ≡ b'/' ∷ path
unfolding path_append
path_append_root [] path = refl
path_append_root (c ∷ dir) path = refl

from_raw_data_nil : from_raw_data [] ≡ none
unfolding from_raw_data
from_raw_data_nil = refl

module _ {W : Type 0} (kernel : Kernel W) (http_dir : Bytes) (conn_fd : ℕ) where
  after_read-received :
      (raw : Bytes) (w : W) (r : HttpRequest)
      → from_raw_data raw ≡ some r
      → after_read kernel http_dir conn_fd (received raw, w)
        ≡ respond kernel http_dir conn_fd (get_url r) w
  unfolding after_read parsed_request
  after_read-received [] w r h = absurd (cc (h, from_raw_data_nil))
  after_read-received (c ∷ raw) w r h = rw (h, after_read) refl

  send_file-eq :
      (fd : ℕ) (url content_type content : Bytes) (w3 w4 : W)
      → HasType url content_type
      → kernel.read w3 fd (length content) ≡ (some content, w4)
      → length (file_message content_type content) < 2 ^ 31
      → send_file kernel conn_fd fd url (some (length content), w3)
        ≡ served (
            kernel.close
              (kernel.async_write
                (kernel.close w4 fd)
                conn_fd
                (file_message content_type content)
                0)
              conn_fd)
  unfolding send_file send_sized send
  send_file-eq fd url content_type content w3 w4 h e l =
      let n = length content in
      let r = response_to url n in
      let shorter : n < 2 ^ 31 =
        omega (arith, l, length-append (file_head content_type n) content) in
      let same : to_int n ≡ n = omega (arith, shorter) in
      let size =
        get_raw_data_size_without_body-eq r (response_to-IsPlaced url n)
          (response_to-has_text url n) in
      let whole =
        ap (λ (b : Bytes). length b) (head_and_content url content_type content h shorter) in
      let no_error : (n == 2 ^ 32 - 1) ≡ false = ground (arith, shorter) in
      let positive : is_negative n ≡ false = ground (arith, shorter) in
      let small : leb (2 ^ 31) (get_raw_data_size_without_body r + n) ≡ false =
        ground (arith, size, l, whole, length-append (render_head r) content) in
      rw (same, no_error)
        (rw (positive, send_sized)
          (rw (small, e) (rw (response_bytes-whole url content_type content h shorter, send) refl)))

  -- A request for a file that can be read whole is answered by a message of status 200 with the length and the
  -- content of the file, and with the content type of what stands behind the last dot of the URL, if there is
  -- one. The file and the connection are closed. The message has less than 2 ^ 31 bytes.
  pub static_web_http-file :
      (m : Message) (url content_type content : Bytes) (fd : ℕ) (w w1 w2 w3 w4 : W)
      → IsMessage m
      → get_url (request_of m) ≡ some url
      → HasType url content_type
      → kernel.async_read w conn_fd read_buffer_size 0 ≡ (received (render m), w1)
      → kernel.open_file w1 (c_string (path_append http_dir url)) ≡ (some fd, w2)
      → kernel.fstat w2 fd ≡ (some (length content), w3)
      → kernel.read w3 fd (length content) ≡ (some content, w4)
      → length (file_message content_type content) < 2 ^ 31
      → static_web_http kernel http_dir conn_fd w
        ≡ served (
            kernel.close
              (kernel.async_write
                (kernel.close w4 fd)
                conn_fd
                (file_message content_type content)
                0)
              conn_fd)
  unfolding static_web_http respond send_opened
  static_web_http-file m url content_type content fd w w1 w2 w3 w4 h u t e1 e2 e3 e4 l =
      ap (after_read kernel http_dir conn_fd) e1
      ∙ after_read-received (render m) w1 (request_of m) (from_raw_data-render m h)
      ∙ ap (λ o. respond kernel http_dir conn_fd o w1) u
      ∙ ap (send_opened kernel conn_fd url) e2
      ∙ ap (send_file kernel conn_fd fd url) e3
      ∙ send_file-eq fd url content_type content w3 w4 t e4 l

  -- For a URL with two slashes in front, the file that is opened is the path behind the first of them,
  -- whatever the served directory is.
  pub static_web_http_escapes :
      (m : Message) (path : Bytes) (w w1 : W)
      → IsMessage m
      → m.url ≡ b'/' ∷ b'/' ∷ path
      → kernel.async_read w conn_fd read_buffer_size 0 ≡ (received (render m), w1)
      → static_web_http kernel http_dir conn_fd w
        ≡ send_opened kernel conn_fd (b'/' ∷ path) (kernel.open_file w1 (c_string (b'/' ∷ path)))
  unfolding static_web_http respond
  static_web_http_escapes m path w w1 h u e =
      ap (after_read kernel http_dir conn_fd) e
      ∙ after_read-received (render m) w1 (request_of m) (from_raw_data-render m h)
      ∙ ap (λ o. respond kernel http_dir conn_fd o w1)
          (get_url_slash (request_of m) b'/' path (unfold request_of in u))
      ∙ ap
          (λ (p : Bytes).
            send_opened kernel conn_fd (b'/' ∷ path) (kernel.open_file w1 (c_string p)))
          (path_append_root http_dir path)
