-- ===== src/Service.antt =====
-- `static_web_http` of include/http.h. A coroutine is a function on the state of the world, which other
-- coroutines may change while it waits: that is in what the kernel makes of `async_read` and
-- `async_write`, the two calls that it is suspended in. What is only written to the log is left out.
pub mod Answer
pub mod Ledger
mod Tests
use co_uring_web.Prelude.{
  ℕ, zero, suc, ◌+◌, ◌-◌, ◌%◌, ◌^◌, ltb, Bool, true, false, Option, none, some, List, [], ◌∷◌, ◌++◌,
  Bytes, codes, length, replicate, leb, ◌==◌, if◌then◌else◌,
}
use co_uring_web.Utils.Decimal.{to_string}
use co_uring_web.Utils.Hash.{get_content_type}
use co_uring_web.Http.Request.{HttpRequest, from_raw_data, get_url}
use co_uring_web.Http.Response.{
  HttpResponse, default_response, set_header, get_raw_data_size_without_body,
  to_raw_data_without_body,
}
use co_uring_web.Http.Response.Buffer.{Outcome, ok, thrown, fault, Writer, copy}

-- What `retCode` says of a read: some bytes, or a number that is not positive.
pub data Received : Type 0 where
  received : Bytes → Received
  nothing : Received

-- The calls, over the states `W`. `async_read` takes a file descriptor, the size of the buffer and the
-- timeout, `async_write` the bytes and the timeout. `fstat` gives the size of the file, and `read` at most
-- as many bytes as are asked for.
pub record Kernel (W : Type 0) : Type 0 where
  pub async_read : W → ℕ → ℕ → ℕ → Received × W
  pub async_write : W → ℕ → Bytes → ℕ → W
  pub open_file : W → Bytes → Option ℕ × W
  pub fstat : W → ℕ → Option ℕ × W
  pub read : W → ℕ → ℕ → Option Bytes × W
  pub close : W → ℕ → W

-- `undefined` is undefined behaviour, and `dropped` an exception, which the promise swallows.
pub data Served (W : Type 0) : Type 0 where
  served : W → Served W
  dropped : W → Served W
  undefined : Served W

abbrev pub read_buffer_size : ℕ
read_buffer_size = 8192

abbrev pub server_string : Bytes
server_string = codes "co_uring_httpd/0.1"

-- `content404`, with the zero byte that `sizeof` counts.
abbrev pub content404 : Bytes
content404 =
    codes "HTTP/1.0 404 Not Found"
    ++ (b'\r'
        ∷ b'\n'
        ∷ (codes "Content-type: text/html"
            ++ (b'\r'
                ∷ b'\n'
                ∷ b'\r'
                ∷ b'\n'
                ∷ (codes
                      "<html><head><title>co_uring_httpd: Not Found</title></head><body><h1>Not Found (404)</h1><p>Your client is asking for an object that was not found on this server.</p></body></html>"
                    ++ 0 ∷ []))))

abbrev pub ends_with_slash : Bytes → Bool
ends_with_slash [] = false
ends_with_slash (c ∷ []) = c == b'/'
ends_with_slash (c ∷ d ∷ path) = ends_with_slash (d ∷ path)

-- `dir / url` of std::filesystem: a path from the root replaces `dir`.
unfoldable pub path_append : Bytes → Bytes → Bytes
path_append [] url = url
path_append dir [] = if ends_with_slash dir then dir else (dir ++ b'/' ∷ [])
path_append dir (c ∷ url) =
    if c == b'/'
    then c ∷ url
    else if ends_with_slash dir
    then dir ++ c ∷ url
    else dir ++ (b'/' ∷ c ∷ url)

-- `c_str()`, as the kernel reads it.
abbrev pub c_string : Bytes → Bytes
c_string [] = []
c_string (c ∷ path) = let rest = c_string path in if c == 0 then [] else c ∷ rest

-- `find_last_of('.')` and `substr`: what stands behind the last dot.
abbrev pub extension : Bytes → Option Bytes
extension [] = none
extension (c ∷ url) = elim (extension url) [
  | some ext ↦ some ext
  | none ↦ if c == b'.' then some url else none
]

-- `setHeader("Content-Type", …)`, unless the type is empty.
abbrev pub with_type : Bytes → HttpResponse → HttpResponse
with_type [] r = r
with_type (c ∷ content_type) r = set_header r (codes "Content-Type") (c ∷ content_type)

abbrev pub with_extension : Option Bytes → HttpResponse → HttpResponse
with_extension none r = r
with_extension (some ext) r = with_type (get_content_type ext) r

-- An int is given by its 32 bits: what `getFileSizeByFd` returns of a size.
abbrev pub to_int : ℕ → ℕ
to_int st_size = st_size % 2 ^ 32

abbrev pub is_negative : ℕ → Bool
is_negative n = leb (2 ^ 31) n

-- `to_string` of an int.
unfoldable pub int_to_string : ℕ → Bytes
int_to_string n = if is_negative n then b'-' ∷ to_string (2 ^ 32 - n) else to_string n

-- The response to a request for `url`, for a file of so many bytes.
unfoldable pub response_to : Bytes → ℕ → HttpResponse
response_to url file_size =
    set_header
      (set_header (with_extension (extension url) default_response) (codes "server") server_string)
      (codes "Content-Length") (int_to_string file_size)

-- The two conversions into a buffer of zeros: the head, and then what was read of the file.
unfoldable pub response_bytes : HttpResponse → ℕ → Bytes → Outcome Bytes
response_bytes r file_size content =
    let headers_size = get_raw_data_size_without_body r in
    elim (to_raw_data_without_body r (replicate (headers_size + file_size) 0)) [
      | ok buffer ↦ elim (copy content (record { buffer = buffer; index = headers_size })) [
        | ok w ↦ ok w.buffer
        | thrown b ↦ thrown b
        | fault ↦ fault
      ]
      | thrown b ↦ thrown b
      | fault ↦ fault
    ]

module _ {W : Type 0} (kernel : Kernel W) where
  -- The branches that answer with `content404`.
  abbrev pub answer_404 : ℕ → W → Served W
  answer_404 fd w = served (kernel.close (kernel.async_write w fd content404 0) fd)

  -- Behind the `read` of the file, with the bytes of the response.
  abbrev pub sent : ℕ → ℕ → W → Outcome Bytes → Served W
  sent conn_fd fd w (ok bytes) =
      served (kernel.close (kernel.async_write (kernel.close w fd) conn_fd bytes 0) conn_fd)
  sent conn_fd fd w _ = undefined

  -- From the `read` of the file on.
  unfoldable pub send : ℕ → ℕ → Bytes → ℕ → Option Bytes × W → Served W
  send conn_fd fd url file_size (none, w) = answer_404 conn_fd (kernel.close w fd)
  send conn_fd fd url file_size (some content, w) =
      sent conn_fd fd w (response_bytes (response_to url file_size) file_size content)

  -- From the sum of the two sizes on. A sum below 0 makes `make_unique` throw, and a negative size with a
  -- larger head a buffer that is too small for the head; a sum that is too large for an int is undefined.
  unfoldable pub send_sized : ℕ → ℕ → Bytes → ℕ → W → Served W
  send_sized conn_fd fd url file_size w =
      let headers_size = get_raw_data_size_without_body (response_to url file_size) in
      if is_negative file_size
      then (if ltb headers_size (2 ^ 32 - file_size) then dropped w else undefined)
      else if leb (2 ^ 31) (headers_size + file_size)
      then undefined
      else send conn_fd fd url file_size (kernel.read w fd file_size)

  -- From `getFileSizeByFd` on; its -1 is also that of a size with these 32 bits.
  unfoldable pub send_file : ℕ → ℕ → Bytes → Option ℕ × W → Served W
  send_file conn_fd fd url (none, w) = answer_404 conn_fd (kernel.close w fd)
  send_file conn_fd fd url (some st_size, w) =
      if to_int st_size == 2 ^ 32 - 1
      then answer_404 conn_fd (kernel.close w fd)
      else send_sized conn_fd fd url (to_int st_size) w

  -- From `open` on.
  unfoldable pub send_opened : ℕ → Bytes → Option ℕ × W → Served W
  send_opened conn_fd url (none, w) = answer_404 conn_fd w
  send_opened conn_fd url (some fd, w) = send_file conn_fd fd url (kernel.fstat w fd)

  -- From `getUrl` on.
  unfoldable pub respond : Bytes → ℕ → Option Bytes → W → Served W
  respond http_dir conn_fd none w = undefined
  respond http_dir conn_fd (some url) w =
      send_opened conn_fd url (kernel.open_file w (c_string (path_append http_dir url)))

  unfoldable pub parsed_request : Bytes → ℕ → Option HttpRequest → W → Served W
  parsed_request http_dir conn_fd none w = served (kernel.close w conn_fd)
  parsed_request http_dir conn_fd (some r) w = respond http_dir conn_fd (get_url r) w

  -- From `fromRawData` on. A count of 0 is not positive.
  unfoldable pub after_read : Bytes → ℕ → Received × W → Served W
  after_read http_dir conn_fd (nothing, w) = served (kernel.close w conn_fd)
  after_read http_dir conn_fd (received [], w) = served (kernel.close w conn_fd)
  after_read http_dir conn_fd (received (c ∷ raw), w) =
      parsed_request http_dir conn_fd (from_raw_data (c ∷ raw)) w

  unfoldable pub static_web_http : Bytes → ℕ → W → Served W
  static_web_http http_dir conn_fd w =
      after_read http_dir conn_fd (kernel.async_read w conn_fd read_buffer_size 0)
