-- ===== src/Epoll/Events.antt =====
-- What `poll` hands out, and what it keeps.
use co_uring_web.Prelude.{
  ℕ, zero, suc, ◌+◌, ◌%◌, some, List, [], ◌∷◌, ◌++◌, ◌==◌, length, length-append, append-nil,
  append_assoc, ◌≡◌, refl, sym, ap, ◌∙◌, arith, Bool-cases, Option-cases, inl, inr, ◌⊎◌,
}
use co_uring_web.Prelude.OrdMap.{Map, find, erase, IsSorted, IsSorted-erase}
use co_uring_web.Prelude.Keys.{nat_key}
use co_uring_web.Timer.{u32_mod}
use co_uring_web.Uring.Pending.{length-erase}
use co_uring_web.Epoll.{
  IoResult, transferred, again, failed, EpollEvent, Kernel, EpollScheduler, State, Outcome, done,
  assertion_failed, out_of_fuel, ◌>>=◌, minus_one, left, with_code,
}
use co_uring_web.Epoll.Poll.{
  end_read, read_ready, end_write, refused_for_now, write_ready, in_event, out_event, event, events,
  hand_out, poll,
}

-- `more` handles follow those of `s`, as many as requests have left the map.
abbrev pub Moved : EpollScheduler → List ℕ → Map ℕ ℕ → Type 0
Moved s handles m =
    (more : List ℕ) × (handles ≡ s.completed_handle_addrs ++ more)
    × (length more + length m ≡ length s.io_index2req)

-- A step moves requests from the map to the handles.
abbrev Moves : EpollScheduler → EpollScheduler → Type 0
Moves s s' = Moved s s'.completed_handle_addrs s'.io_index2req × IsSorted s'.io_index2req

Moves-refl : (s : EpollScheduler) → IsSorted s.io_index2req → Moves s s
Moves-refl s sorted = (([], sym (append-nil s.completed_handle_addrs), omega arith), sorted)

Moves-trans : (s t u : EpollScheduler) → Moves s t → Moves t u → Moves s u
Moves-trans s t u ((more, e, l), h) ((more', e', l'), h') = (
  (
    more ++ more',
    e' ∙ ap (λ handles. handles ++ more') e ∙ append_assoc s.completed_handle_addrs more more',
    omega (arith, l, l', length-append more more'),
  ),
  h',
)

-- So does an outcome, if there is one.
abbrev MovesTo : {W : Type 0} → EpollScheduler → Outcome (State W) → Type 0
MovesTo s (done s') = Moves s s'.scheduler
MovesTo s assertion_failed = Unit
MovesTo s out_of_fuel = ⊥

module _ {W : Type 0} (kernel : Kernel W) where
  Moves-release :
      (s t : State W) (id address context : ℕ)
      → IsSorted s.scheduler.io_index2req
      → find id s.scheduler.io_index2req ≡ some address
      → t.scheduler.io_index2req ≡ erase id s.scheduler.io_index2req
      → t.scheduler.completed_handle_addrs ≡ s.scheduler.completed_handle_addrs ++ context ∷ []
      → Moves s.scheduler t.scheduler
  Moves-release s t id address context sorted f e g = (
    (
      context ∷ [],
      g,
      omega (arith, ap length e, length-erase id s.scheduler.io_index2req sorted f),
    ),
    rw e (IsSorted-erase id s.scheduler.io_index2req sorted),
  )

  read_ready-MovesTo :
      (s : State W) (id address : ℕ) (result : IoResult)
      → IsSorted s.scheduler.io_index2req
      → find id s.scheduler.io_index2req ≡ some address
      → MovesTo s.scheduler (read_ready kernel s id address result)
  unfolding read_ready
  read_ready-MovesTo s id address (transferred n) sorted f =
      Moves-release s (end_read kernel s id address n) id address _ sorted f refl refl
  read_ready-MovesTo s id address failed sorted f =
      Moves-release s (end_read kernel s id address minus_one) id address _ sorted f refl refl
  read_ready-MovesTo s id address again sorted f = tt

  refused_for_now-MovesTo :
      (s : State W) (result : IoResult)
      → IsSorted s.scheduler.io_index2req
      → MovesTo s.scheduler (refused_for_now kernel s result)
  refused_for_now-MovesTo s again sorted = Moves-refl s.scheduler sorted
  refused_for_now-MovesTo s (transferred n) sorted = tt
  refused_for_now-MovesTo s failed sorted = tt

  write_ready-MovesTo :
      (s : State W) (id address : ℕ) (result : IoResult)
      → IsSorted s.scheduler.io_index2req
      → find id s.scheduler.io_index2req ≡ some address
      → MovesTo s.scheduler (write_ready kernel s id address result)
  unfolding write_ready
  write_ready-MovesTo s id address again sorted f = tt
  write_ready-MovesTo s id address failed sorted f =
      Moves-release s (end_write kernel s id address minus_one) id address _ sorted f refl refl
  write_ready-MovesTo s id address (transferred zero) sorted f =
      Moves-release s (end_write kernel s id address 0) id address _ sorted f refl refl
  write_ready-MovesTo s id address (transferred (suc n)) sorted f =
      let code = ((s.memory address).ret_code + suc n) % u32_mod in
      let s' = with_code s address code in
      let req = s'.memory address in
      let result = kernel.write s'.world req.fd (req.data_address + code) (left req) in
      elim (Bool-cases (code == req.size)) [
        | inl e ↦
            rw (e, write_ready)
              (Moves-release s (end_write kernel s id address code) id address _ sorted f refl refl)
        | inr e ↦
            rw (e, write_ready)
              (refused_for_now-MovesTo (record s' { world = result.1 }) result.0 sorted)
      ]

  in_event-MovesTo :
      (s : State W) (id : ℕ)
      → IsSorted s.scheduler.io_index2req
      → MovesTo s.scheduler (in_event kernel s id)
  unfolding in_event
  in_event-MovesTo s id sorted = elim (Option-cases (find id s.scheduler.io_index2req)) [
    | inl e ↦ rw (e, in_event) (Moves-refl s.scheduler sorted)
    | inr (address, e) ↦
        let req = s.memory address in
        let result = kernel.read s.world req.fd req.data_address req.capicaty in
        rw (e, in_event)
          (read_ready-MovesTo (record s { world = result.1 }) id address result.0 sorted e)
  ]

  out_event-MovesTo :
      (s : State W) (id : ℕ)
      → IsSorted s.scheduler.io_index2req
      → MovesTo s.scheduler (out_event kernel s id)
  unfolding out_event
  out_event-MovesTo s id sorted = elim (Option-cases (find id s.scheduler.io_index2req)) [
    | inl e ↦ rw (e, out_event) (Moves-refl s.scheduler sorted)
    | inr (address, e) ↦
        let req = s.memory address in
        let result = kernel.write s.world req.fd (req.data_address + req.ret_code) (left req) in
        rw (e, out_event)
          (write_ready-MovesTo (record s { world = result.1 }) id address result.0 sorted e)
  ]

  event-MovesTo :
      (s : State W) (e : EpollEvent)
      → IsSorted s.scheduler.io_index2req
      → MovesTo s.scheduler (event kernel s e)
  unfolding event
  event-MovesTo s e sorted = elim (Bool-cases e.has_in) [
    | inl i ↦ rw (i, event) (in_event-MovesTo s e.id sorted)
    | inr i ↦ elim (Bool-cases e.has_out) [
      | inl o ↦ rw (i, o, event) (out_event-MovesTo s e.id sorted)
      | inr o ↦ rw (i, o, event) tt
    ]
  ]

  MovesTo->>= :
      (s : EpollScheduler) (o : Outcome (State W)) (f : State W → Outcome (State W))
      → MovesTo s o
      → ((t : State W) → IsSorted t.scheduler.io_index2req → MovesTo t.scheduler (f t))
      → MovesTo s (o >>= f)
  MovesTo->>= s assertion_failed f h k = tt
  MovesTo->>= s out_of_fuel f h k = absurd h
  MovesTo->>= s (done t) f h k = after (f t) (k t h.1)
    where
      after : (o : Outcome (State W)) → MovesTo t.scheduler o → MovesTo s o
      after (done u) g = Moves-trans s t.scheduler u.scheduler h g
      after assertion_failed g = tt
      after out_of_fuel g = absurd g

  events-MovesTo :
      (es : List EpollEvent) (s : State W)
      → IsSorted s.scheduler.io_index2req
      → MovesTo s.scheduler (events kernel es s)
  unfolding events
  events-MovesTo [] s sorted = Moves-refl s.scheduler sorted
  events-MovesTo (e ∷ es) s sorted =
      MovesTo->>= s.scheduler (event kernel s e) (events kernel es) (event-MovesTo s e sorted)
        (λ t h. events-MovesTo es t h)

  hand_out-Moved :
      (now : ℕ) (s : EpollScheduler) (ready : List ℕ) (o : Outcome (State W))
      → MovesTo s o
      → ((o >>= λ t. done (hand_out kernel now t ready)) ≡ assertion_failed)
        ⊎ ((s' : State W) × (handles : List ℕ) × ((o >>= λ t. done (hand_out kernel now t ready))
              ≡ done (s', handles))
            × Moved s handles s'.scheduler.io_index2req)
  unfolding hand_out
  hand_out-Moved now s ready (done t) h =
      inr ((hand_out kernel now t ready).0, t.scheduler.completed_handle_addrs, refl, h.0)
  hand_out-Moved now s ready assertion_failed h = inl refl
  hand_out-Moved now s ready out_of_fuel h = absurd h

  -- If the map is in order, poll stops at a failed assertion or comes to an end. Then it hands out
  -- the handles that waited, in their order, and behind them as many as requests have left the map.
  pub poll_hands_out :
      (now : ℕ) (s : State W) (ready : List ℕ)
      → IsSorted s.scheduler.io_index2req
      → (poll kernel now s ready ≡ assertion_failed)
        ⊎ ((s' : State W) × (handles : List ℕ) × (poll kernel now s ready ≡ done (s', handles))
            × Moved s.scheduler handles s'.scheduler.io_index2req)
  unfolding poll hand_out
  poll_hands_out now s ready sorted =
      let waited = kernel.epoll_wait s.world in
      let s0 = record s { world = waited.1 } in
      hand_out-Moved now s.scheduler ready (events kernel waited.0 s0)
        (events-MovesTo waited.0 s0 sorted)
