-- ===== src/Uring/Tests.antt =====
-- Small schedulers.
use co_uring_web.Prelude.{arith, ◌<◌, true, List, [], ◌∷◌, none, some, ◌≡◌, refl}
use co_uring_web.Prelude.OrdMap.{insert, find}
use co_uring_web.Prelude.Keys.{nat_key}
use co_uring_web.Timer.{empty, add}
use co_uring_web.Timer.Inv.{IsValid, empty-IsValid, add-IsValid}
use co_uring_web.Timer.Expiry.{count, deadline, is_expired}
use co_uring_web.Uring.{op_read, IoRequest, Memory, Cqe, complete_each, Polled, poll}
use co_uring_web.Prelude.OrdMap.{IsSorted}
use co_uring_web.Uring.{create, handle_read, enter, UringScheduler}
use co_uring_web.Uring.Timeouts.{IsReady}
use co_uring_web.Uring.Runs.{starts, reads, Reaches-IsReady}
use co_uring_web.Uring.Deadlines.{poll_expires}
use co_uring_web.Uring.Pending.{known, poll_returns}

abbrev request : IoRequest
request = record {
  data_address = 0;
  capicaty = 10;
  size = 0;
  fd = 5;
  ret_code = 0;
  context = 77;
  op = op_read;
  timeout = 0;
}

abbrev memory : Memory
memory address = request

-- One pending request, at address 9.
abbrev pending : Polled
pending = record {
  memory = memory;
  scheduler = record {
    io_index = 2;
    io_index2req = (1, 9) ∷ [];
    submitted = [];
    timer_queue = empty;
  };
  ready = [];
}

abbrev done : List Cqe
done = record { user_data = 1; res = 3 } ∷ []

done_found : find 1 pending.scheduler.io_index2req ≡ some 9
unfolding find
done_found = refl

poll_returns_example : (p' : Polled) × (poll 0 done pending ≡ some p') × (known p' ≡ 1)
poll_returns_example = poll_returns 0 done pending (tt, tt) ((9, done_found), tt)

-- A completion of a request that is not pending any more keeps `poll` in its loop.
abbrev late : List Cqe
late = record { user_data = 4; res = 3 } ∷ []

poll-late : poll 0 late pending ≡ none
unfolding poll complete_each find
poll-late = refl

-- The time of the request is over.
abbrev expiring : Polled
expiring = record pending {
  scheduler = record (pending.scheduler) { timer_queue = (add empty 1 3).1 };
}

expiring-IsValid : IsValid (add empty 1 3).1
unfolding find
expiring-IsValid = add-IsValid empty 1 3 empty-IsValid refl

expiring_deadline : is_expired 5 (deadline 1 (add empty 1 3).1) ≡ true
unfolding add find insert
expiring_deadline = refl

poll_expires_example :
    (p' : Polled) × (poll 5 [] expiring ≡ some p')
    × (find 1 p'.scheduler.io_index2req ≡ none)
    × (0 < count 77 p'.ready)
poll_expires_example =
    poll_expires 5 [] expiring 1 9 expiring-IsValid tt done_found expiring_deadline

-- A read, and a poll that finds nothing.
abbrev one_read : UringScheduler
one_read = enter 100 create 9 request 10

one_read_entered : handle_read 100 memory create 9 ≡ some one_read
unfolding handle_read
one_read_entered = refl

abbrev read_state : Polled
read_state = record { memory = memory; scheduler = one_read; ready = [] }

Reaches-IsReady_example : IsSorted read_state.scheduler.io_index2req × IsReady read_state.scheduler
Reaches-IsReady_example =
    Reaches-IsReady 1 read_state (reads 100 9 (starts memory) one_read_entered) (omega arith)
