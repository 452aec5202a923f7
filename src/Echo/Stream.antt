-- ===== src/Echo/Stream.antt =====
-- What is received is what is written.
use co_uring_web.Prelude.{
  ℕ, zero, suc, [], ◌∷◌, ◌++◌, Bytes, some, append-nil, ◌≡◌, refl, ◌⊎◌, inl, inr, ==_self,
}
use co_uring_web.Service.{Received, received, nothing, Kernel}
use co_uring_web.Service.Ledger.{Open, with_ledger}
use co_uring_web.Echo.{Echoed, ended, goes_on, buffer_size, echo_timeout, echo_round, echo}

-- The bytes that were received, and those that were written.
abbrev pub Transcript : Type 0
Transcript = Bytes × Bytes

abbrev pub received_bytes : Received → Bytes
received_bytes (received bytes) = bytes
received_bytes nothing = []

-- The kernel with a transcript of what is received and written, by any connection.
abbrev pub with_transcript : {W : Type 0} → Kernel W → Kernel (W × Transcript)
with_transcript kernel = record {
  async_read = λ (w, t) fd size timeout.
      let (r, w') = kernel.async_read w fd size timeout in
      (r, (w', (t.0 ++ received_bytes r, t.1)));
  async_write =
      λ (w, t) fd bytes timeout. (kernel.async_write w fd bytes timeout, (t.0, t.1 ++ bytes));
  open_file = λ (w, t) path. let (fd, w') = kernel.open_file w path in (fd, (w', t));
  fstat = λ (w, t) fd. let (size, w') = kernel.fstat w fd in (size, (w', t));
  read = λ (w, t) fd size. let (bytes, w') = kernel.read w fd size in (bytes, (w', t));
  close = λ (w, t) fd. (kernel.close w fd, t);
}

abbrev pub EchoState : Type 0 → Type 0
EchoState W = (W × Transcript) × Open

module _ {W : Type 0} (kernel : Kernel W) (conn_fd : ℕ) where
  abbrev pub echoing : W → Bytes → Open → EchoState W
  echoing w bytes fds = ((w, (bytes, bytes)), fds)

  -- What was written is what was received, and the connection is open or, at the end, closed.
  abbrev pub Repeats : Echoed (EchoState W) → Type 0
  Repeats e =
      ((w : W) × (bytes : Bytes) × (e ≡ goes_on (echoing w bytes (some (conn_fd ∷ [])))))
      ⊎ ((w : W) × (bytes : Bytes) × (e ≡ ended (echoing w bytes (some []))))

  echo_round-Repeats :
      (later : EchoState W → Echoed (EchoState W))
      → ((w : W) (bytes : Bytes) → Repeats (later (echoing w bytes (some (conn_fd ∷ [])))))
      → (r : Received) (w : W) (bytes : Bytes)
      → Repeats (
          echo_round
            (with_ledger (with_transcript kernel))
            conn_fd
            later
            (r, ((w, (bytes ++ received_bytes r, bytes)), some (conn_fd ∷ []))))
  unfolding echo_round
  echo_round-Repeats later ih nothing w bytes =
      rw (==_self conn_fd, append-nil bytes) (inr (kernel.close w conn_fd, bytes, refl))
  echo_round-Repeats later ih (received []) w bytes =
      rw (==_self conn_fd, append-nil bytes) (inr (kernel.close w conn_fd, bytes, refl))
  echo_round-Repeats later ih (received (c ∷ cs)) w bytes =
      rw (==_self conn_fd)
        (ih (kernel.async_write w conn_fd (c ∷ cs) echo_timeout) (bytes ++ c ∷ cs))

  -- After any number of rounds, the bytes that were handed over to be written are the bytes that were
  -- received, in their order. A connection that is all that is open is still open or, if the coroutine has
  -- ended, closed.
  pub echo-Repeats :
      (rounds : ℕ) (w : W) (bytes : Bytes)
      → Repeats (
          echo
            (with_ledger (with_transcript kernel))
            conn_fd
            rounds
            (echoing w bytes (some (conn_fd ∷ []))))
  unfolding echo
  echo-Repeats zero w bytes = inl (w, bytes, refl)
  echo-Repeats (suc rounds) w bytes =
      let r = kernel.async_read w conn_fd buffer_size echo_timeout in
      rw (==_self conn_fd) (
        echo_round-Repeats (echo (with_ledger (with_transcript kernel)) conn_fd rounds)
          (echo-Repeats rounds) r.0 r.1 bytes)
