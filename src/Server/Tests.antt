-- ===== src/Server/Tests.antt =====
-- A server of two workers, and a scheduler over the small kernel.
use co_uring_web.Prelude.{
  ℕ, ◌+◌, leb, if◌then◌else◌, Option, some, true, Bool-cases, inl, inr, List, [], ◌∷◌, ◌≡◌, arith,
  refl, ◌<◌,
}
use co_uring_web.Prelude.Options.{◌>>=◌}
use co_uring_web.LockfreeQueue.{Queue, create, push}
use co_uring_web.LockfreeQueue.Sequential.{Holds, create-Holds, push_lem}
use co_uring_web.Uring.{op_read, IoRequest}
use co_uring_web.Epoll
use co_uring_web.Epoll.{Kernel, State, again, transferred}
use co_uring_web.Epoll.Handlers.{WritesAtMost}
use co_uring_web.Server.{TcpServer, dispatch, async_read, round}
use co_uring_web.Server.Dispatch.{AllHold, Dispatched, dispatch_finds_room}
use co_uring_web.Server.Rounds.{one_by_one, round_serves_each}
use co_uring_web.Timer.Expiry.{count}
use co_uring_web.Uring
use co_uring_web.Uring.{Polled}
use co_uring_web.Uring.Runs.{Reaches, starts}
use co_uring_web.Uring.Follows.{here}
use co_uring_web.Server.Timeouts.{UringState, Harvest, uring_impl, awaiting, async_read_expires}
use co_uring_web.Server.Waits.{epoll_impl}

abbrev memory : ℕ → ℕ
memory i = 0

-- The queue 1 has room, the queue 0 has none.
abbrev two_workers : TcpServer ℕ
two_workers = record {
  queues = λ i. if leb i 0 then create 1 memory else create 3 memory;
  thread_count = 2;
  index = 0;
}

abbrev nothing : ℕ → List ℕ
nothing i = []

two_workers-AllHold : AllHold two_workers nothing
unfolding create
two_workers-AllHold i l = elim (Bool-cases (leb i 0)) [
  | inl e ↦ rw e (create-Holds 1 memory (omega arith), omega arith)
  | inr e ↦ rw e (create-Holds 3 memory (omega arith), omega arith)
]

dispatch_finds_room_example : Dispatched two_workers nothing 7 (dispatch 2 two_workers 7)
dispatch_finds_room_example =
    dispatch_finds_room two_workers 7 nothing two_workers-AllHold (omega arith) 1 (omega arith)
      (unfold create in omega arith)

-- No byte is there to read, and four bytes at most are written at once.
abbrev kernel : Kernel ℕ
kernel = record {
  set_nonblocking = λ w fd. w;
  read = λ w fd address len. (again, w);
  write = λ w fd address len. (transferred (if leb len 4 then len else 4), w + 1);
  epoll_add = λ w fd interest id. (true, w);
  epoll_del = λ w fd. w;
  epoll_wait = λ w. ([], w);
}

kernel-WritesAtMost : WritesAtMost kernel
kernel-WritesAtMost w fd address len = ground arith

abbrev request : IoRequest
request = record {
  data_address = 0;
  capicaty = 10;
  size = 10;
  fd = 5;
  ret_code = 0;
  context = 0;
  op = op_read;
  timeout = 0;
}

abbrev at_start : State ℕ
at_start = record { world = 0; memory = λ address. request; scheduler = Epoll.create }

-- The coroutine of a connection first reads, and has the connection's number for its handle; one that is
-- resumed ends.
abbrev reads_first : ℕ → State ℕ → Option (State ℕ)
reads_first conn s = async_read (epoll_impl kernel) 0 s 9 conn

abbrev ends : ℕ → State ℕ → Option (State ℕ)
ends handle s = some s

abbrev one_waits : Queue ℕ
one_waits = (push (create 3 memory) 5).1

one_waits-Holds : Holds one_waits (5 ∷ [])
unfolding create
one_waits-Holds =
    elim (push_lem (create 3 memory) [] 5 (create-Holds 3 memory (omega arith)) (omega arith)) [
      | inl (e, _) ↦ absurd (omega arith)
      | inr (_, _, h) ↦ h
    ]

round_serves_each_example :
    (q' : Queue ℕ) × Holds q' []
    × (round (epoll_impl kernel) reads_first ends 0 one_waits at_start ≡ (
        one_by_one reads_first (5 ∷ []) at_start >>= λ s1.
        (epoll_impl kernel).poll 0 s1 >>= λ (s2, handles).
        one_by_one ends handles s2 >>= λ s3. some (q', s3)))
round_serves_each_example =
    round_serves_each (epoll_impl kernel) reads_first ends 0 one_waits at_start (5 ∷ [])
      one_waits-Holds

-- A read with a timeout of 3 ms, and no completion.
abbrev nothing_done : Harvest ℕ
nothing_done w s = ([], w)

abbrev with_timeout : UringState ℕ
with_timeout = record {
  memory = λ address. record request { timeout = 3 };
  scheduler = Uring.create;
  world = 0;
}

abbrev started :
    Reaches 0 (record { memory = with_timeout.memory; scheduler = Uring.create; ready = [] })
started = starts with_timeout.memory

abbrev read_entered : Polled
read_entered =
    awaiting nothing_done 100 103 with_timeout 9 77 (omega arith) (omega arith) 0 [] started
      (omega arith) refl op_read 0

async_read_expires_example :
    (s' : UringState ℕ) × (handles : List ℕ) × (async_read
        (uring_impl nothing_done)
        100
        with_timeout
        9
        77
      ≡ some
          (record { memory = read_entered.memory; scheduler = read_entered.scheduler; world = 0 }))
    × ((uring_impl nothing_done).poll 103
          (record { memory = read_entered.memory; scheduler = read_entered.scheduler; world = 0 })
        ≡ some (s', handles))
    × (0 < count 77 handles)
async_read_expires_example =
    async_read_expires nothing_done 100 103 with_timeout 9 77 (omega arith) (omega arith) 0 []
      started (omega arith) refl 0 [] read_entered 0 (omega arith) here tt
