-- ===== src/Epoll.antt =====
-- `EpollScheduler` of include/core.h and src/core.cpp. The kernel is a parameter, a record of the calls
-- that the scheduler makes over a state of its own. A request is known by its address in `memory`.
pub mod Poll
pub mod Handlers
pub mod Events
pub mod Expired
mod Tests
use co_uring_web.Prelude.{
  ℕ, zero, suc, ◌+◌, ◌-◌, ◌%◌, ◌^◌, Bool, true, false, Option, none, some, List, [], ◌∷◌, ◌++◌,
  ◌==◌, ltb, ◌&&◌, if◌then◌else◌,
}
use co_uring_web.Prelude.OrdMap.{Map, find, insert, erase}
use co_uring_web.Prelude.Keys.{nat_key}
use co_uring_web.Timer.{TimerQueue, u32_mod, u64_mod, empty, add, remove, pop_expired}
use co_uring_web.Uring.{
  IoRequestOp, op_read, op_write, IoRequest, Memory, set_ret_code, has_timeout,
}

-- What `read` and `write` return: a count, or -1 with errno EAGAIN, or -1 with another errno. A count
-- is below 2 ^ 31.
pub data IoResult : Type 0 where
  transferred : ℕ → IoResult
  again failed : IoResult

-- The flag that is asked for with EPOLLET.
pub data Interest : Type 0 where
  epoll_in epoll_out : Interest

pub record EpollEvent : Type 0 where
  pub has_in : Bool
  pub has_out : Bool
  pub id : ℕ

-- The calls take a file descriptor, and the address and the length of a buffer, or what `epoll_ctl` is
-- to watch and the number to report. `epoll_add` is true where `epoll_ctl` succeeds.
pub record Kernel (W : Type 0) : Type 0 where
  pub set_nonblocking : W → ℕ → W
  pub read : W → ℕ → ℕ → ℕ → IoResult × W
  pub write : W → ℕ → ℕ → ℕ → IoResult × W
  pub epoll_add : W → ℕ → Interest → ℕ → Bool × W
  pub epoll_del : W → ℕ → W
  pub epoll_wait : W → List EpollEvent × W

pub record EpollScheduler : Type 0 where
  pub io_index : ℕ
  pub io_index2req : Map ℕ ℕ
  pub completed_handle_addrs : List ℕ
  pub timer_queue : TimerQueue

abbrev pub create : EpollScheduler
create = record {
  io_index = 0;
  io_index2req = [];
  completed_handle_addrs = [];
  timer_queue = empty;
}

-- `operator=(EpollScheduler&&)`, for two objects: this one, and what is left in the other, whose timer
-- queue is moved from and so is given.
abbrev pub move_assign :
    EpollScheduler → EpollScheduler → TimerQueue → EpollScheduler × EpollScheduler
move_assign s other moved_from = (
  record s {
    io_index = other.io_index;
    io_index2req = other.io_index2req;
    completed_handle_addrs = other.completed_handle_addrs;
    timer_queue = other.timer_queue;
  },
  record other {
    io_index2req = s.io_index2req;
    completed_handle_addrs = s.completed_handle_addrs;
    timer_queue = moved_from;
  },
)

pub record State (W : Type 0) : Type 0 where
  pub world : W
  pub memory : Memory
  pub scheduler : EpollScheduler

-- A failed assertion ends the program. The fuel of the loop of `handle_write` is the model's own.
pub data Outcome {ℓ} (A : Type ℓ) : Type ℓ where
  done : A → Outcome A
  assertion_failed : Outcome A
  out_of_fuel : Outcome A

infixl 5 ◌>>=◌
abbrev pub ◌>>=◌ {ℓ κ} : {A : Type ℓ} {B : Type κ} → Outcome A → (A → Outcome B) → Outcome B
done a >>= f = f a
assertion_failed >>= f = assertion_failed
out_of_fuel >>= f = out_of_fuel

-- -1, as 32 bits
abbrev pub minus_one : ℕ
minus_one = u32_mod - 1

-- `req.size - req.retCode`, in 32 bits
abbrev pub left : IoRequest → ℕ
left req = (req.size + (u32_mod - req.ret_code)) % u32_mod

module _ {W : Type 0} where
  -- `req.retCode = code`
  abbrev pub with_code : State W → ℕ → ℕ → State W
  with_code s address code = record s { memory = set_ret_code s.memory address code }

  -- `completedHandleAddrs_.push_back(req.context)`
  abbrev pub push_context : State W → ℕ → State W
  push_context s address = record s {
    scheduler = record (s.scheduler) {
      completed_handle_addrs =
          s.scheduler.completed_handle_addrs ++ (s.memory address).context ∷ [];
    };
  }

  -- Both.
  abbrev pub complete : State W → ℕ → ℕ → State W
  complete s address code = push_context (with_code s address code) address

  -- `ioIndex2req_.insert({ioIndex_++, &req})`
  abbrev pub register : State W → ℕ → State W
  register s address = record s {
    scheduler = record (s.scheduler) {
      io_index = (s.scheduler.io_index + 1) % u64_mod;
      io_index2req = insert s.scheduler.io_index address s.scheduler.io_index2req;
    };
  }

  -- `if (req.timeout > 0) timerQueue_.add(id, now + req.timeout)`
  abbrev pub add_timeout : ℕ → State W → ℕ → ℕ → State W
  add_timeout now s id address =
      let req = s.memory address in
      record s {
        scheduler = record (s.scheduler) {
          timer_queue =
              if has_timeout req
              then (add s.scheduler.timer_queue id (now + req.timeout)).1
              else s.scheduler.timer_queue;
        };
      }

  -- What both loops of `poll` do with a request that is done.
  abbrev pub release : State W → ℕ → ℕ → State W
  release s id address = record s {
    scheduler = record (s.scheduler) {
      io_index2req = erase id s.scheduler.io_index2req;
      timer_queue =
          if has_timeout (s.memory address)
          then (remove s.scheduler.timer_queue id).1
          else s.scheduler.timer_queue;
    };
  }

module _ {W : Type 0} (kernel : Kernel W) where
  -- `handleRead`, from the branch of EAGAIN on.
  unfoldable pub watch_read : ℕ → State W → ℕ → State W
  watch_read now s address =
      let id = s.scheduler.io_index in
      let (added, world) = kernel.epoll_add s.world (s.memory address).fd epoll_in id in
      let s' = record (register s address) { world = world } in
      elim added [ false ↦ complete s' address minus_one | true ↦ add_timeout now s' id address ]

  -- `handleWrite`, from the label `uncompleted` on. It is `id` that `epoll_ctl` is called with.
  unfoldable pub watch_write : ℕ → State W → ℕ → State W
  watch_write now s address =
      let id = s.scheduler.io_index in
      let (added, world) = kernel.epoll_add s.world id epoll_out id in
      let s' = record (register s address) { world = world } in
      elim added [ false ↦ push_context s' address | true ↦ add_timeout now s' id address ]

  unfoldable pub read_first : ℕ → State W → ℕ → IoResult → State W
  read_first now s address (transferred n) = complete s address n
  read_first now s address failed = complete s address minus_one
  read_first now s address again = watch_read now s address

  unfoldable pub handle_read : ℕ → State W → ℕ → Outcome (State W)
  handle_read now s address =
      let req = s.memory address in
      let world = kernel.set_nonblocking s.world req.fd in
      let (result, world') = kernel.read world req.fd req.data_address req.capicaty in
      elim req.op [
        | op_write ↦ assertion_failed
        | op_read ↦
            done (read_first now (with_code (record s { world = world' }) address 0) address result)
      ]

  -- A round of the loop of `handleWrite`, behind its `write`. The loop goes on as `later`.
  unfoldable pub written_more :
      ℕ → (State W → Outcome (State W)) → State W → ℕ → IoResult → Outcome (State W)
  written_more now later s address again = done (watch_write now s address)
  written_more now later s address failed = done (complete s address minus_one)
  written_more now later s address (transferred zero) = done (complete s address 0)
  written_more now later s address (transferred (suc n)) =
      let code = ((s.memory address).ret_code + suc n) % u32_mod in
      let s' = with_code s address code in
      elim (code == (s.memory address).size) [
        | true ↦ done (push_context s' address)
        | false ↦ later s'
      ]

  unfoldable pub write_loop : ℕ → ℕ → ℕ → State W → Outcome (State W)
  write_loop now address zero s = out_of_fuel
  write_loop now address (suc fuel) s =
      let req = s.memory address in
      let (result, world) =
        kernel.write s.world req.fd (req.data_address + req.ret_code) (left req) in
      written_more now (write_loop now address fuel) (record s { world = world }) address result

  -- `handleWrite`, behind its first `write`.
  unfoldable pub write_first : ℕ → State W → ℕ → IoResult → Outcome (State W)
  write_first now s address again = done (watch_write now s address)
  write_first now s address failed = done (complete s address minus_one)
  write_first now s address (transferred zero) = done (complete s address 0)
  write_first now s address (transferred (suc n)) = elim ((s.memory address).size == suc n) [
    | true ↦ done (complete s address (suc n))
    | false ↦ write_loop now address (s.memory address).size (with_code s address (suc n))
  ]

  unfoldable pub handle_write : ℕ → State W → ℕ → Outcome (State W)
  handle_write now s address =
      let req = s.memory address in
      let world = kernel.set_nonblocking s.world req.fd in
      let (result, world') = kernel.write world req.fd req.data_address req.size in
      elim req.op [
        | op_read ↦ assertion_failed
        | op_write ↦
            write_first now (with_code (record s { world = world' }) address 0) address result
      ]
