-- ===== src/Epoll/Tests.antt =====
-- A small kernel, whose state counts the calls of `write`.
use co_uring_web.Prelude.{
  ℕ, ◌+◌, leb, if◌then◌else◌, true, false, List, [], ◌∷◌, ◌++◌, ◌≡◌, ◌⊎◌, refl, arith,
}
use co_uring_web.Prelude.Keys.{nat_key}
use co_uring_web.Timer.{empty, add, pop_expired}
use co_uring_web.Uring.{op_read, op_write, IoRequest, Memory}
use co_uring_web.Epoll.{
  transferred, again, Kernel, create, State, done, assertion_failed, handle_write,
}
use co_uring_web.Epoll.Poll.{poll}
use co_uring_web.Epoll.Handlers.{IsHandled, WritesAtMost, handle_write_returns}
use co_uring_web.Epoll.Events.{Moved, poll_hands_out}
use co_uring_web.Epoll.Expired.{contexts, poll_keeps_expired}

-- No byte is there to read, and four bytes at most are written at once. Nothing happens.
abbrev kernel : Kernel ℕ
kernel = record {
  set_nonblocking = λ w fd. w;
  read = λ w fd address len. (again, w);
  write = λ w fd address len. (transferred (if leb len 4 then len else 4), w + 1);
  epoll_add = λ w fd interest id. (true, w);
  epoll_del = λ w fd. w;
  epoll_wait = λ w. ([], w);
}

abbrev reader : IoRequest
reader = record {
  data_address = 0;
  capicaty = 10;
  size = 10;
  fd = 5;
  ret_code = 0;
  context = 77;
  op = op_read;
  timeout = 0;
}

abbrev reads : Memory
reads address = reader

abbrev writes : Memory
writes address = record reader { op = op_write }

abbrev at_start : Memory → State ℕ
at_start memory = record { world = 0; memory = memory; scheduler = create }

kernel-WritesAtMost : WritesAtMost kernel
kernel-WritesAtMost w fd address len = ground arith

handle_write_returns_example :
    (s' : State ℕ) × (handle_write kernel 0 (at_start writes) 9 ≡ done s')
    × IsHandled (at_start writes) s' 9
handle_write_returns_example =
    handle_write_returns kernel 0 9 (at_start writes) kernel-WritesAtMost refl (omega arith)

-- One request pending, and one handle that waits.
abbrev pending : State ℕ
pending = record {
  world = 0;
  memory = reads;
  scheduler = record {
    io_index = 2;
    io_index2req = (1, 9) ∷ [];
    completed_handle_addrs = 33 ∷ [];
    timer_queue = empty;
  };
}

-- The request is readable, and a byte is there.
abbrev readable : Kernel ℕ
readable = record kernel {
  read = λ w fd address len. (transferred 1, w);
  epoll_wait = λ w. (record { has_in = true; has_out = false; id = 1 } ∷ [], w);
}

poll_hands_out_example :
    (poll readable 0 pending [] ≡ assertion_failed)
    ⊎ ((s' : State ℕ) × (handles : List ℕ) × (poll readable 0 pending [] ≡ done (s', handles))
        × Moved pending.scheduler handles s'.scheduler.io_index2req)
poll_hands_out_example = poll_hands_out readable 0 pending [] (tt, tt)

-- The time of the request is over.
abbrev expiring : State ℕ
expiring = record pending {
  scheduler = record (pending.scheduler) { timer_queue = (add empty 1 3).1 };
}

poll_keeps_expired_example :
    (s' : State ℕ) × (poll kernel 5 expiring [] ≡ done (s', 33 ∷ []))
    × (s'.scheduler.io_index2req ≡ (1, 9) ∷ [])
    × (s'.scheduler.completed_handle_addrs
        ≡ [] ++ contexts (pop_expired 5 (add empty 1 3).1 []).0 reads ((1, 9) ∷ []))
poll_keeps_expired_example = poll_keeps_expired kernel 5 expiring [] 0 refl
