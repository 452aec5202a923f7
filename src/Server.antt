-- ===== src/Server.antt =====
-- `TcpServer::run`, and `Scheduler` with its loop, of include/core.h. A thread that accepts connections
-- pushes them to the queues of the workers; each worker runs a `Scheduler`. The scheduler below it is the
-- template parameter `SchedulerImpl`, here an interface. The coroutines are parameters.
pub mod Dispatch
pub mod Rounds
pub mod Waits
pub mod Timeouts
mod Tests
use co_uring_web.Prelude.{
  ℕ, zero, suc, ◌+◌, ◌-◌, ◌%◌, ◌^◌, Bool, true, false, Option, none, some, List, [], ◌∷◌, ◌++◌,
  ◌==◌,
}
use co_uring_web.Prelude.Options.{◌>>=◌}
use co_uring_web.Timer.{u64_mod}
use co_uring_web.Uring.{IoRequestOp, op_read, op_write, IoRequest}
use co_uring_web.LockfreeQueue.{Queue, u32_mod, update, push, pop}

-- Of `TcpServer`, what `run` works with; `index` is its local variable.
pub record TcpServer {ℓ} (T : Type ℓ) : Type ℓ where
  pub queues : ℕ → Queue T
  pub thread_count : ℕ
  pub index : ℕ

module _ {ℓ} {T : Type ℓ} where
  -- The inner loop of `run`, and the step behind it, for one connection. No worker takes from a queue
  -- in between. Where the fuel runs out, it is `none`.
  unfoldable pub dispatch : ℕ → TcpServer T → T → Option (TcpServer T)
  dispatch zero s conn = none
  dispatch (suc fuel) s conn =
      let i = s.index % s.thread_count in
      let pushed = push (s.queues i) conn in
      let next = (s.index + 1) % u64_mod in
      let later = dispatch fuel (record s { index = next }) conn in
      elim pushed.0 [
        | true ↦ some (record s { queues = update s.queues i pushed.1; index = next })
        | false ↦ later
      ]

-- What `Scheduler` asks of a `SchedulerImpl` with states `S`. A request is known by its address, and a
-- failed assertion is `none`. `poll` is given the time; its list of handles is empty before.
pub record SchedulerImpl (S : Type 0) : Type 0 where
  pub request : S → ℕ → IoRequest
  pub set_request : S → ℕ → IoRequest → S
  pub handle_read : ℕ → S → ℕ → Option S
  pub handle_write : ℕ → S → ℕ → Option S
  pub poll : ℕ → S → Option (S × List ℕ)

module _ {S : Type 0} (impl : SchedulerImpl S) where
  -- `asyncRead` and the `await_suspend` of what it returns, for a coroutine with the address `handle`.
  unfoldable pub async_read : ℕ → S → ℕ → ℕ → Option S
  async_read now s address handle =
      let req = record (impl.request s address) { context = handle; op = op_read } in
      impl.handle_read now (impl.set_request s address req) address

  -- Likewise. A request of no bytes aborts the program.
  unfoldable pub async_write : ℕ → S → ℕ → ℕ → Option S
  async_write now s address handle =
      let req = record (impl.request s address) { context = handle; op = op_write } in
      elim ((impl.request s address).size == 0) [
        | true ↦ none
        | false ↦ impl.handle_write now (impl.set_request s address req) address
      ]

  module _ {ℓ} {T : Type ℓ} (func : T → S → Option S) (resume : ℕ → S → Option S) where
    -- The loop over `pop`, with the number of rounds. `func` runs the coroutine of a connection up to its
    -- first suspension.
    unfoldable pub drain : ℕ → Queue T → S → Option (Queue T × S)
    drain zero q s = none
    drain (suc fuel) q s =
        let popped = pop q in
        elim popped.0 [
          | none ↦ some (popped.1, s)
          | some conn ↦ func conn s >>= λ s'. drain fuel popped.1 s'
        ]

    -- The loop over the ready handles.
    unfoldable pub resume_each : List ℕ → S → Option S
    resume_each [] s = some s
    resume_each (handle ∷ handles) s = resume handle s >>= λ s'. resume_each handles s'

    -- A round of `loop`. The queue has at most as many elements as it has slots.
    unfoldable pub round : ℕ → Queue T → S → Option (Queue T × S)
    round now q s = drain (suc q.capicity) q s >>= λ (q', s').
        impl.poll now s' >>= λ (s'', handles). resume_each handles s'' >>= λ s'''. some (q', s''')
