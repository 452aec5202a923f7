-- ===== src/LockfreeQueue/Threads/Tests.antt =====
-- Short schedules.
use co_uring_web.Prelude.{ℕ, ◌<◌, List, [], ◌∷◌, ◌++◌, ◌≡◌, refl, arith, length}
use co_uring_web.LockfreeQueue.{create}
use co_uring_web.LockfreeQueue.Threads.{
  System, Action, call_push, producer, consumer, start, begin_push, push_step, pop_step, step, run,
}
use co_uring_web.LockfreeQueue.Threads.Fifo.{run_fifo}
use co_uring_web.LockfreeQueue.Threads.Solo.{push_schedule}

abbrev memory : ℕ → ℕ
memory i = 0

-- Two consumers read the same element, and one of them takes it.
abbrev race : List (Action ℕ)
race =
    call_push 5
    ∷ producer
    ∷ producer
    ∷ producer
    ∷ consumer 0
    ∷ consumer 1
    ∷ consumer 0
    ∷ consumer 1
    ∷ consumer 0
    ∷ consumer 1
    ∷ consumer 1
    ∷ consumer 0
    ∷ []

race-run : (run (start 3 memory) race).popped ≡ 5 ∷ []
unfolding run start step begin_push push_step pop_step create
race-run = refl

run_fifo_example :
    (rest : List ℕ) × ((run (start 3 memory) race).pushed
      ≡ (run (start 3 memory) race).popped ++ rest)
    × (length rest < 3)
run_fifo_example =
    run_fifo 3 memory race (omega arith)
      (unfold run start step begin_push push_step pop_step create in omega arith)

abbrev with_five : System ℕ
with_five = run (start 3 memory) (push_schedule 5)
