-- ===== src/Server/Dispatch.antt =====
-- Where `run` puts a connection.
use co_uring_web.Prelude.{
  ℕ, zero, suc, ◌+◌, ◌-◌, ◌/◌, ◌%◌, ◌<◌, true, Option, some, List, [], ◌∷◌, ◌++◌, length, ◌≡◌, inl,
  inr, refl, sym, ap, ◌∙◌, arith,
}
use native.Mathlib.Nat.{
  div-add-mod, mod-lt, mod-eq_of_lt, add-zero, add-mod-mod, mul-add-mod_self_left,
}
use co_uring_web.Timer.{u64_mod}
use co_uring_web.LockfreeQueue.{Queue, u32_mod, update, push}
use co_uring_web.LockfreeQueue.Sequential.{Holds, push_lem}
use co_uring_web.Server.{TcpServer, dispatch}

-- How far it is from `index` to a queue.
distance : (n index j : ℕ) → j < n → (index + (j + (n - index % n)) % n) % n ≡ j
distance n index j h =
    let inside : index % n < n = mod-lt index (omega (arith, h)) in
    add-mod-mod index (j + (n - index % n)) n
    ∙ ap (λ m. m % n) (omega (arith, div-add-mod index n, inside))
    ∙ mul-add-mod_self_left n (index / n + 1) j
    ∙ mod-eq_of_lt h

module _ {ℓ} {T : Type ℓ} where
  -- The queues hold what is `held`, and no counter comes to its end.
  abbrev pub AllHold : TcpServer T → (ℕ → List T) → Type ℓ
  AllHold s held =
      (i : ℕ)
      → i < s.thread_count
      → Holds (s.queues i) (held i) × ((s.queues i).write_index + 1 < u32_mod)

  -- The connection stands at the end of one queue, and the other queues are as before.
  abbrev pub Dispatched : TcpServer T → (ℕ → List T) → T → Option (TcpServer T) → Type ℓ
  Dispatched s held conn o =
      (i : ℕ) × (s' : TcpServer T) × (o ≡ some s')
      × (i < s.thread_count)
      × Holds (s'.queues i) (held i ++ conn ∷ [])
      × (s'.queues ≡ update s.queues i (s'.queues i))

  update_same : (f : ℕ → Queue T) (i : ℕ) (q : Queue T) → update f i q i ≡ q
  update_same f i q = ground arith

  -- The first queue has room.
  dispatch_here :
      (fuel : ℕ) (s : TcpServer T) (conn : T) (held : ℕ → List T)
      → s.index % s.thread_count < s.thread_count
      → (push (s.queues (s.index % s.thread_count)) conn).0 ≡ true
      → Holds
          (push (s.queues (s.index % s.thread_count)) conn).1
          (held (s.index % s.thread_count) ++ conn ∷ [])
      → Dispatched s held conn (dispatch (suc fuel) s conn)
  unfolding dispatch
  dispatch_here fuel s conn held inside e h =
      let i = s.index % s.thread_count in
      let queue = (push (s.queues i) conn).1 in
      let same = update_same s.queues i queue in
      (
        i,
        record s { queues = update s.queues i queue; index = (s.index + 1) % u64_mod },
        rw (e, dispatch) refl,
        inside,
        rw same h,
        ap (update s.queues i) (sym same),
      )

  -- It is the queue `d` places on that has room.
  dispatch_within :
      (fuel d : ℕ) (s : TcpServer T) (conn : T) (held : ℕ → List T)
      → 0 < s.thread_count
      → AllHold s held
      → d < fuel
      → s.index + fuel < u64_mod
      → (j : ℕ) → (s.index + d) % s.thread_count ≡ j
      → length (held j) + 1 < (s.queues j).capicity
      → Dispatched s held conn (dispatch fuel s conn)
  unfolding dispatch
  dispatch_within zero d s conn held n h l k j at room = absurd (omega arith)
  dispatch_within (suc fuel) zero s conn held n h l k j at room =
      let i = s.index % s.thread_count in
      let inside : i < s.thread_count = mod-lt s.index n in
      let here : i ≡ j = ap (λ m. m % s.thread_count) (sym (add-zero s.index)) ∙ at in
      elim (push_lem (s.queues i) (held i) conn (h i inside).0 (h i inside).1) [
        | inl (full, e) ↦
            let fits : length (held i) + 1 < (s.queues i).capicity = rw here room in
            absurd (omega (arith, full, fits))
        | inr (fits, e, held') ↦ dispatch_here fuel s conn held inside e held'
      ]
  dispatch_within (suc fuel) (suc d) s conn held n h l k j at room =
      let i = s.index % s.thread_count in
      let inside : i < s.thread_count = mod-lt s.index n in
      let next : (s.index + 1) % u64_mod ≡ s.index + 1 = mod-eq_of_lt (omega arith) in
      let on : (s.index + 1) % u64_mod + d ≡ s.index + suc d = omega (arith, next) in
      let later =
        dispatch_within fuel d (record s { index = (s.index + 1) % u64_mod }) conn held n h
          (omega arith) (omega (arith, next)) j (ap (λ m. m % s.thread_count) on ∙ at) room in
      elim (push_lem (s.queues i) (held i) conn (h i inside).0 (h i inside).1) [
        | inl (full, e) ↦ rw (ap (λ p. p.0) e, dispatch) later
        | inr (fits, e, held') ↦ dispatch_here fuel s conn held inside e held'
      ]

  -- If the queue of some worker has room, no counter is near its end and no worker takes from a
  -- queue meanwhile, a connection is in the queue of a worker after at most as many tries as there
  -- are workers, and the other queues are as before.
  pub dispatch_finds_room :
      (s : TcpServer T) (conn : T) (held : ℕ → List T)
      → AllHold s held
      → s.index + s.thread_count < u64_mod
      → (j : ℕ) → j < s.thread_count
      → length (held j) + 1 < (s.queues j).capicity
      → Dispatched s held conn (dispatch s.thread_count s conn)
  dispatch_finds_room s conn held h k j l room =
      dispatch_within s.thread_count
        ((j + (s.thread_count - s.index % s.thread_count)) % s.thread_count) s conn held
        (omega arith) h (mod-lt _ (omega arith)) k j (distance s.thread_count s.index j l) room
