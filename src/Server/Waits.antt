-- ===== src/Server/Waits.antt =====
-- `Scheduler` over `EpollScheduler`: a coroutine that awaits a request.
use co_uring_web.Prelude.{
  ℕ, ◌^◌, ◌<◌, ◌==◌, false, Option, none, some, [], ◌∷◌, ◌++◌, ◌≡◌, ◌⊎◌, inl, inr, ap, ◌∙◌, arith,
}
use co_uring_web.Prelude.OrdMap.{insert}
use co_uring_web.Prelude.Keys.{nat_key}
use co_uring_web.Uring.{IoRequestOp, op_read, op_write}
use co_uring_web.LockfreeQueue.{update}
use co_uring_web.Epoll.{
  Kernel, EpollScheduler, State, Outcome, done, assertion_failed, out_of_fuel, handle_read,
  handle_write,
}
use co_uring_web.Epoll.Poll.{poll}
use co_uring_web.Epoll.Handlers.{IsHandled, WritesAtMost, handle_read_returns, handle_write_returns}
use co_uring_web.Server.{SchedulerImpl, async_read, async_write}

abbrev pub returned {ℓ} : {A : Type ℓ} → Outcome A → Option A
returned (done a) = some a
returned assertion_failed = none
returned out_of_fuel = none

abbrev pub epoll_impl : {W : Type 0} → Kernel W → SchedulerImpl (State W)
epoll_impl kernel = record {
  request = λ s address. s.memory address;
  set_request = λ s address req. record s { memory = update s.memory address req };
  handle_read = λ now s address. returned (handle_read kernel now s address);
  handle_write = λ now s address. returned (handle_write kernel now s address);
  poll = λ now s. returned (poll kernel now s []);
}

-- The handle is ready, or its request is pending, or both.
abbrev pub IsWaiting : EpollScheduler → EpollScheduler → ℕ → ℕ → Type 0
IsWaiting s s' address handle =
    ((s'.io_index2req ≡ s.io_index2req)
      × (s'.completed_handle_addrs ≡ s.completed_handle_addrs ++ handle ∷ []))
    ⊎ ((s'.io_index2req ≡ insert s.io_index address s.io_index2req)
        × ((s'.completed_handle_addrs ≡ s.completed_handle_addrs)
            ⊎ (s'.completed_handle_addrs ≡ s.completed_handle_addrs ++ handle ∷ [])))

module _ {W : Type 0} (kernel : Kernel W) (now : ℕ) (s : State W) (address handle : ℕ) where
  -- The request is as the awaiter has set it.
  abbrev awaited : IoRequestOp → State W
  awaited op = record s {
    memory = update s.memory address (record (s.memory address) { context = handle; op = op });
  }

  awaited-eq :
      (op : IoRequestOp)
      → (awaited op).memory address ≡ record (s.memory address) { context = handle; op = op }
  awaited-eq op = ground arith

  context_set :
      (op : IoRequestOp)
      → s.scheduler.completed_handle_addrs ++ ((awaited op).memory address).context ∷ []
        ≡ s.scheduler.completed_handle_addrs ++ handle ∷ []
  context_set op =
      ap (λ req. s.scheduler.completed_handle_addrs ++ req.context ∷ []) (awaited-eq op)

  IsHandled-IsWaiting :
      (op : IoRequestOp) (s' : State W)
      → IsHandled (awaited op) s' address
      → IsWaiting s.scheduler s'.scheduler address handle
  IsHandled-IsWaiting op s' (inl (e, g)) = inl (e, g ∙ context_set op)
  IsHandled-IsWaiting op s' (inr (e, inl g)) = inr (e, inl g)
  IsHandled-IsWaiting op s' (inr (e, inr g)) = inr (e, inr (g ∙ context_set op))

  -- A coroutine that awaits a read has its handle ready then, or its request pending, or both.
  pub async_read_waits :
      (s' : State W) × (async_read (epoll_impl kernel) now s address handle ≡ some s')
      × IsWaiting s.scheduler s'.scheduler address handle
  unfolding async_read
  async_read_waits =
      let (s', e, h) =
        handle_read_returns kernel now address (awaited op_read)
          (ap (λ req. req.op) (awaited-eq op_read)) in
      (s', ap returned e, IsHandled-IsWaiting op_read s' h)

  -- A coroutine that awaits a write of at least one byte and less than 2 ^ 31 has its handle ready then,
  -- or its request pending, or both, if the kernel takes no more bytes than it is given.
  pub async_write_waits :
      WritesAtMost kernel
      → 0 < (s.memory address).size
      → (s.memory address).size < 2 ^ 31
      → (s' : State W) × (async_write (epoll_impl kernel) now s address handle ≡ some s')
        × IsWaiting s.scheduler s'.scheduler address handle
  unfolding async_write
  async_write_waits b l m =
      let filled : ((s.memory address).size == 0) ≡ false = ground (arith, l) in
      let size : ((awaited op_write).memory address).size ≡ (s.memory address).size =
        ap (λ req. req.size) (awaited-eq op_write) in
      let (s', e, h) =
        handle_write_returns kernel now address (awaited op_write) b
          (ap (λ req. req.op) (awaited-eq op_write)) (omega (arith, size, m)) in
      (s', rw (filled, async_write) (ap returned e), IsHandled-IsWaiting op_write s' h)
