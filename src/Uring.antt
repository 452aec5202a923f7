-- ===== src/Uring.antt =====
-- `UringScheduler` of include/core.h and src/core.cpp. A request is known by its address in
-- `memory`. The kernel's side of io_uring is outside: what is submitted to it is a list, and `poll`
-- is given the completions that `io_uring_wait_cqe_timeout` finds, in their order, before it fails
-- or times out. The submission queue is taken to have room.
pub mod Pending
pub mod Handlers
pub mod Deadlines
pub mod Timeouts
pub mod Runs
pub mod Waiting
pub mod Follows
mod Tests
use co_uring_web.Prelude.{
  ℕ, ◌+◌, ◌-◌, ◌%◌, ◌^◌, Bool, true, false, Option, none, some, List, [], ◌∷◌, ◌++◌, ◌==◌, ltb,
  ◌&&◌, if◌then◌else◌,
}
use co_uring_web.Prelude.OrdMap.{Map, find, insert, erase}
use co_uring_web.Prelude.Keys.{nat_key}
use co_uring_web.Timer.{TimerQueue, u32_mod, u64_mod, empty, add, remove, pop_expired}

pub data IoRequestOp : Type 0 where
  op_read op_write : IoRequestOp

-- The int fields are given by their 32 bits.
pub record IoRequest : Type 0 where
  pub data_address : ℕ
  pub capicaty : ℕ
  pub size : ℕ
  pub fd : ℕ
  pub ret_code : ℕ
  pub context : ℕ
  pub op : IoRequestOp
  pub timeout : ℕ

abbrev pub Memory : Type 0
Memory = ℕ → IoRequest

-- `req->retCode = code`
abbrev pub set_ret_code : Memory → ℕ → ℕ → Memory
set_ret_code memory address code a =
    if a == address then record (memory address) { ret_code = code } else memory a

-- An entry of the submission queue.
pub record Sqe : Type 0 where
  pub op : IoRequestOp
  pub fd : ℕ
  pub data_address : ℕ
  pub len : ℕ
  pub user_data : ℕ

-- An entry of the completion queue.
pub record Cqe : Type 0 where
  pub user_data : ℕ
  pub res : ℕ

pub record UringScheduler : Type 0 where
  pub io_index : ℕ
  pub io_index2req : Map ℕ ℕ
  pub submitted : List Sqe
  pub timer_queue : TimerQueue

abbrev pub create : UringScheduler
create = record { io_index = 1; io_index2req = []; submitted = []; timer_queue = empty }

-- `operator=(UringScheduler&&)`, for two objects: this one, and what is left in the other, whose timer
-- queue is moved from and so is given.
abbrev pub move_assign :
    UringScheduler → UringScheduler → TimerQueue → UringScheduler × UringScheduler
move_assign s other moved_from = (
  record s {
    io_index = other.io_index;
    io_index2req = other.io_index2req;
    submitted = other.submitted;
    timer_queue = other.timer_queue;
  },
  record other { io_index2req = s.io_index2req; timer_queue = moved_from },
)

-- `req.timeout > 0`, for an int
abbrev pub has_timeout : IoRequest → Bool
has_timeout req = ltb 0 req.timeout && ltb req.timeout (2 ^ 31)

-- What both handlers do with their entry of the submission queue.
pub enter : ℕ → UringScheduler → ℕ → IoRequest → ℕ → UringScheduler
enter now s address req len = record {
  io_index = (s.io_index + 1) % u64_mod;
  io_index2req = insert s.io_index address s.io_index2req;
  submitted =
      s.submitted
      ++ record {
        op = req.op;
        fd = req.fd;
        data_address = req.data_address;
        len = len;
        user_data = s.io_index;
      }
        ∷ [];
  timer_queue =
      if has_timeout req
      then (add s.timer_queue s.io_index (now + req.timeout)).1
      else s.timer_queue;
}

-- A failed assertion is `none`.
pub handle_read : ℕ → Memory → UringScheduler → ℕ → Option UringScheduler
handle_read now memory s address =
    let req = memory address in
    elim req.op [
      | op_read ↦ some (enter now s address req ((req.capicaty + (u32_mod - req.size)) % u32_mod))
      | op_write ↦ none
    ]

pub handle_write : ℕ → Memory → UringScheduler → ℕ → Option UringScheduler
handle_write now memory s address =
    let req = memory address in
    elim req.op [ op_read ↦ none | op_write ↦ some (enter now s address req req.size) ]

-- What a round of `poll` leaves: the requests, the scheduler and the handles to go on with.
pub record Polled : Type 0 where
  pub memory : Memory
  pub scheduler : UringScheduler
  pub ready : List ℕ

-- The branch for a completion whose number is known.
pub complete : Polled → Cqe → ℕ → Polled
complete p cqe address = record {
  memory = set_ret_code p.memory address cqe.res;
  scheduler = record (p.scheduler) {
    io_index2req = erase cqe.user_data p.scheduler.io_index2req;
    timer_queue =
        if has_timeout (p.memory address)
        then (remove p.scheduler.timer_queue cqe.user_data).1
        else p.scheduler.timer_queue;
  };
  ready = p.ready ++ (p.memory address).context ∷ [];
}

-- The loop over completions. An unknown number is not marked as seen, so the loop meets it again and
-- again: `none`.
pub complete_each : List Cqe → Polled → Option Polled
complete_each [] p = some p
complete_each (cqe ∷ cqes) p = elim (cqe.user_data == 0) [
  | true ↦ some p
  | false ↦ elim (find cqe.user_data p.scheduler.io_index2req) [
    | none ↦ none
    | some address ↦ complete_each cqes (complete p cqe address)
  ]
]

-- The branch for an expired number that is known; the return code is -1.
pub expire : Polled → ℕ → ℕ → Polled
expire p key address = record {
  memory = set_ret_code p.memory address (u32_mod - 1);
  scheduler = record (p.scheduler) { io_index2req = erase key p.scheduler.io_index2req };
  ready = p.ready ++ (p.memory address).context ∷ [];
}

-- The loop over the expired numbers.
pub expire_requests : List ℕ → Polled → Polled
expire_requests [] p = p
expire_requests (key ∷ keys) p = elim (find key p.scheduler.io_index2req) [
  | none ↦ expire_requests keys p
  | some address ↦ expire_requests keys (expire p key address)
]

pub expire_timers : ℕ → Polled → Polled
expire_timers now p =
    let (expireds, timers) = pop_expired now p.scheduler.timer_queue [] in
    expire_requests expireds
      (record p { scheduler = record (p.scheduler) { timer_queue = timers } })

pub poll : ℕ → List Cqe → Polled → Option Polled
poll now cqes p = elim (complete_each cqes p) [
  | none ↦ none
  | some p' ↦ some (expire_timers now p')
]
