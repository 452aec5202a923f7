-- ===== src/Epoll/Poll.antt =====
-- `EpollScheduler::poll` of src/core.cpp.
use co_uring_web.Prelude.{
  ℕ, zero, suc, ◌+◌, ◌%◌, true, false, none, some, List, [], ◌∷◌, ◌++◌, ◌==◌,
}
use co_uring_web.Prelude.OrdMap.{find}
use co_uring_web.Prelude.Keys.{nat_key}
use co_uring_web.Timer.{u32_mod, pop_expired}
use co_uring_web.Uring.{Memory, set_ret_code}
use co_uring_web.Epoll.{
  IoResult, transferred, again, failed, EpollEvent, Kernel, EpollScheduler, State, Outcome, done,
  assertion_failed, ◌>>=◌, minus_one, left, with_code, push_context, release,
}

module _ {W : Type 0} (kernel : Kernel W) where
  -- EPOLLIN, behind the `read`. `end_read` is what the three branches have in common.
  abbrev pub end_read : State W → ℕ → ℕ → ℕ → State W
  end_read s id address code =
      let s' = with_code s address code in
      push_context
        (release (record s' { world = kernel.epoll_del s'.world (s'.memory address).fd }) id
          address)
        address

  unfoldable pub read_ready : State W → ℕ → ℕ → IoResult → Outcome (State W)
  read_ready s id address (transferred n) = done (end_read s id address n)
  read_ready s id address failed = done (end_read s id address minus_one)
  read_ready s id address again = assertion_failed

  -- EPOLLOUT, likewise, where the request is done.
  abbrev pub end_write : State W → ℕ → ℕ → ℕ → State W
  end_write s id address code =
      let s' = push_context (release (with_code s address code) id address) address in
      record s' { world = kernel.epoll_del s'.world (s'.memory address).fd }

  -- The second `write`, behind a part: it must be refused for now.
  abbrev pub refused_for_now : State W → IoResult → Outcome (State W)
  refused_for_now s again = done s
  refused_for_now s _ = assertion_failed

  unfoldable pub write_ready : State W → ℕ → ℕ → IoResult → Outcome (State W)
  write_ready s id address again = assertion_failed
  write_ready s id address failed = done (end_write s id address minus_one)
  write_ready s id address (transferred zero) = done (end_write s id address 0)
  write_ready s id address (transferred (suc n)) =
      let code = ((s.memory address).ret_code + suc n) % u32_mod in
      let s' = with_code s address code in
      let req = s'.memory address in
      let (result, world) = kernel.write s'.world req.fd (req.data_address + code) (left req) in
      elim (code == req.size) [
        | true ↦ done (end_write s id address code)
        | false ↦ refused_for_now (record s' { world = world }) result
      ]

  -- A request whose number is no longer known is passed over.
  unfoldable pub in_event : State W → ℕ → Outcome (State W)
  in_event s id = elim (find id s.scheduler.io_index2req) [
    | none ↦ done s
    | some address ↦
        let req = s.memory address in
        let (result, world) = kernel.read s.world req.fd req.data_address req.capicaty in
        read_ready (record s { world = world }) id address result
  ]

  unfoldable pub out_event : State W → ℕ → Outcome (State W)
  out_event s id = elim (find id s.scheduler.io_index2req) [
    | none ↦ done s
    | some address ↦
        let req = s.memory address in
        let (result, world) =
          kernel.write s.world req.fd (req.data_address + req.ret_code) (left req) in
        write_ready (record s { world = world }) id address result
  ]

  unfoldable pub event : State W → EpollEvent → Outcome (State W)
  event s e = elim e.has_in [
    | true ↦ in_event s e.id
    | false ↦ elim e.has_out [ true ↦ out_event s e.id | false ↦ assertion_failed ]
  ]

  unfoldable pub events : List EpollEvent → State W → Outcome (State W)
  events [] s = done s
  events (e ∷ es) s = event s e >>= λ s'. events es s'

  -- The loop over the expired numbers, with the `readyHandleAddrs` of the caller. An entry stays in the
  -- map.
  unfoldable pub expire_each : List ℕ → Memory → EpollScheduler → List ℕ → Memory × List ℕ
  expire_each [] memory s ready = (memory, ready)
  expire_each (id ∷ ids) memory s ready = elim (find id s.io_index2req) [
    | none ↦ expire_each ids memory s ready
    | some address ↦
        expire_each ids (set_ret_code memory address minus_one) s
          (ready ++ (memory address).context ∷ [])
  ]

  -- Behind the events: the timers, and `swap(readyHandleAddrs, completedHandleAddrs_)`.
  unfoldable pub hand_out : ℕ → State W → List ℕ → State W × List ℕ
  hand_out now s ready =
      let popped = pop_expired now s.scheduler.timer_queue [] in
      let expired = expire_each popped.0 s.memory s.scheduler ready in
      (
        record s {
          memory = expired.0;
          scheduler = record (s.scheduler) {
            timer_queue = popped.1;
            completed_handle_addrs = expired.1;
          };
        },
        s.scheduler.completed_handle_addrs,
      )

  unfoldable pub poll : ℕ → State W → List ℕ → Outcome (State W × List ℕ)
  poll now s ready =
      let (es, world) = kernel.epoll_wait s.world in
      events es (record s { world = world }) >>= λ s'. done (hand_out now s' ready)
