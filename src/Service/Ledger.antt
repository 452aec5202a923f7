-- ===== src/Service/Ledger.antt =====
-- Which file descriptors are open: what a run does with them.
use co_uring_web.Prelude.{
  ℕ, arith, false, ◌+◌, ◌^◌, ◌-◌, ◌<◌, ◌==◌, Option, none, some, List, [], ◌∷◌, Bytes, leb,
  if◌then◌else◌, ◌≡◌, ◌⊎◌, inl, inr, refl, ==_self, Bool-cases,
}
use co_uring_web.Prelude.Options.{◌>>=◌}
use co_uring_web.Http.Request.{HttpRequest, from_raw_data, get_url}
use co_uring_web.Http.Response.{get_raw_data_size_without_body}
use co_uring_web.Http.Response.Buffer.{Outcome, ok, thrown, fault}
use co_uring_web.Service.{
  Received, received, nothing, Kernel, Served, served, undefined, read_buffer_size, path_append,
  c_string, response_to, response_bytes, answer_404, sent, send, send_sized, send_file, to_int,
  is_negative, send_opened, respond, parsed_request, after_read, static_web_http,
}

-- The open descriptors, or `none` once a descriptor was used or closed that was not open.
abbrev pub Open : Type 0
Open = Option (List ℕ)

abbrev pub without : ℕ → List ℕ → Open
without fd [] = none
without fd (x ∷ fds) = if x == fd then some fds else (without fd fds >>= λ rest. some (x ∷ rest))

abbrev pub uses : ℕ → Open → Open
uses fd open_fds = open_fds >>= λ fds. without fd fds >>= λ rest. some fds

abbrev pub opens : Option ℕ → Open → Open
opens none open_fds = open_fds
opens (some fd) open_fds = open_fds >>= λ fds. some (fd ∷ fds)

abbrev pub closes : ℕ → Open → Open
closes fd open_fds = open_fds >>= without fd

-- The kernel with a ledger of the open descriptors.
abbrev pub with_ledger : {W : Type 0} → Kernel W → Kernel (W × Open)
with_ledger kernel = record {
  async_read = λ (w, fds) fd size timeout.
      let (r, w') = kernel.async_read w fd size timeout in (r, (w', uses fd fds));
  async_write = λ (w, fds) fd bytes timeout. (kernel.async_write w fd bytes timeout, uses fd fds);
  open_file = λ (w, fds) path. let (fd, w') = kernel.open_file w path in (fd, (w', opens fd fds));
  fstat = λ (w, fds) fd. let (size, w') = kernel.fstat w fd in (size, (w', uses fd fds));
  read = λ (w, fds) fd size. let (bytes, w') = kernel.read w fd size in (bytes, (w', uses fd fds));
  close = λ (w, fds) fd. (kernel.close w fd, closes fd fds);
}

-- A size that an int holds, or none.
abbrev pub IsSmall : Option ℕ → Type 0
IsSmall none = Unit
IsSmall (some st_size) = st_size < 2 ^ 31

module _ {W : Type 0} (kernel : Kernel W) (http_dir : Bytes) (conn_fd : ℕ)
    (small : (w : W) (fd : ℕ) → IsSmall (kernel.fstat w fd).0) where
  -- Nothing is open any more, and no descriptor was used or closed that was not open.
  abbrev IsSettled : Served (W × Open) → Type 0
  IsSettled s = (s ≡ undefined) ⊎ ((w : W) × (s ≡ served (w, some [])))

  answer_404-IsSettled :
      (w : W) → IsSettled (answer_404 (with_ledger kernel) conn_fd (w, some (conn_fd ∷ [])))
  answer_404-IsSettled w = rw (==_self conn_fd) (rw (==_self conn_fd) (inr (_, refl)))

  sent-IsSettled :
      (fd : ℕ) (w : W) (bytes : Outcome Bytes)
      → IsSettled (sent (with_ledger kernel) conn_fd fd (w, some (fd ∷ conn_fd ∷ [])) bytes)
  sent-IsSettled fd w (ok bytes) =
      rw (==_self fd, ==_self conn_fd) (rw (==_self conn_fd) (inr (_, refl)))
  sent-IsSettled fd w (thrown b) = inl refl
  sent-IsSettled fd w fault = inl refl

  send-IsSettled :
      (fd : ℕ) (url : Bytes) (file_size : ℕ) (content : Option Bytes) (w : W)
      → IsSettled (
          send
            (with_ledger kernel)
            conn_fd
            fd
            url
            file_size
            (content, (w, some (fd ∷ conn_fd ∷ []))))
  unfolding send
  send-IsSettled fd url file_size none w =
      rw (==_self fd) (answer_404-IsSettled (kernel.close w fd))
  send-IsSettled fd url file_size (some content) w =
      sent-IsSettled fd w (response_bytes (response_to url file_size) file_size content)

  send_sized-IsSettled :
      (fd : ℕ) (url : Bytes) (file_size : ℕ) (w : W)
      → is_negative file_size ≡ false
      → IsSettled
          (send_sized (with_ledger kernel) conn_fd fd url file_size (w, some (fd ∷ conn_fd ∷ [])))
  unfolding send_sized
  send_sized-IsSettled fd url file_size w positive =
      let large =
        leb (2 ^ 31) (get_raw_data_size_without_body (response_to url file_size) + file_size) in
      let bytes = kernel.read w fd file_size in
      rw positive (elim (Bool-cases large) [
        | inl e ↦ rw e (inl refl)
        | inr e ↦ rw (e, ==_self fd) (send-IsSettled fd url file_size bytes.0 bytes.1)
      ])

  send_file-IsSettled :
      (fd : ℕ) (url : Bytes) (size : Option ℕ) (w : W)
      → IsSmall size
      → IsSettled
          (send_file (with_ledger kernel) conn_fd fd url (size, (w, some (fd ∷ conn_fd ∷ []))))
  unfolding send_file
  send_file-IsSettled fd url none w l = rw (==_self fd) (answer_404-IsSettled (kernel.close w fd))
  send_file-IsSettled fd url (some size) w l =
      let no_error : (to_int size == 2 ^ 32 - 1) ≡ false = ground (arith, l) in
      let positive : is_negative (to_int size) ≡ false = ground (arith, l) in
      rw no_error (send_sized-IsSettled fd url (to_int size) w positive)

  send_opened-IsSettled :
      (url : Bytes) (fd : Option ℕ) (w : W)
      → IsSettled
          (send_opened (with_ledger kernel) conn_fd url (fd, (w, opens fd (some (conn_fd ∷ [])))))
  unfolding send_opened
  send_opened-IsSettled url none w = answer_404-IsSettled w
  send_opened-IsSettled url (some fd) w =
      let size = kernel.fstat w fd in
      rw (==_self fd) (send_file-IsSettled fd url size.0 size.1 (small w fd))

  respond-IsSettled :
      (url : Option Bytes) (w : W)
      → IsSettled (respond (with_ledger kernel) http_dir conn_fd url (w, some (conn_fd ∷ [])))
  unfolding respond
  respond-IsSettled none w = inl refl
  respond-IsSettled (some url) w =
      let fd = kernel.open_file w (c_string (path_append http_dir url)) in
      send_opened-IsSettled url fd.0 fd.1

  after_read-IsSettled :
      (r : Received) (w : W)
      → IsSettled (after_read (with_ledger kernel) http_dir conn_fd (r, (w, some (conn_fd ∷ []))))
  unfolding after_read
  after_read-IsSettled nothing w = rw (==_self conn_fd) (inr (_, refl))
  after_read-IsSettled (received []) w = rw (==_self conn_fd) (inr (_, refl))
  after_read-IsSettled (received (c ∷ raw)) w = requested (from_raw_data (c ∷ raw))
    where
      requested :
          (r : Option HttpRequest)
          → IsSettled
              (parsed_request (with_ledger kernel) http_dir conn_fd r (w, some (conn_fd ∷ [])))
      requested none = unfold parsed_request in rw (==_self conn_fd) (inr (_, refl))
      requested (some r) = unfold parsed_request in respond-IsSettled (get_url r) w

  -- If no file has 2 ^ 31 bytes or more, then whatever the kernel answers, a run whose behaviour is defined
  -- uses only descriptors that are open, closes none that is not, and leaves none open: neither the connection
  -- nor a file.
  pub static_web_http_settles :
      (w : W)
      → (static_web_http (with_ledger kernel) http_dir conn_fd (w, some (conn_fd ∷ [])) ≡ undefined)
        ⊎ ((w' : W) × (static_web_http
                (with_ledger kernel)
                http_dir
                conn_fd
                (w, some (conn_fd ∷ []))
              ≡ served (w', some [])))
  unfolding static_web_http
  static_web_http_settles w =
      let request = kernel.async_read w conn_fd read_buffer_size 0 in
      rw (==_self conn_fd) (after_read-IsSettled request.0 request.1)
