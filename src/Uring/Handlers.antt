-- ===== src/Uring/Handlers.antt =====
-- A handler makes its request pending under a new number.
use co_uring_web.Prelude.{ℕ, ◌+◌, ◌-◌, ◌%◌, none, some, ◌==◌, if◌then◌else◌, ◌≡◌, arith}
use co_uring_web.Prelude.OrdMap.{find, find-insert_new}
use co_uring_web.Prelude.Keys.{nat_key}
use co_uring_web.Timer.{u32_mod}
use co_uring_web.Uring.{op_read, op_write, Memory, UringScheduler, enter, handle_read, handle_write}

-- `handleRead` of a read request adds the request at the next number, if that is free, and keeps the
-- others.
pub handle_read_lem :
    (now : ℕ) (memory : Memory) (s : UringScheduler) (address k : ℕ)
    → (memory address).op ≡ op_read
    → find s.io_index s.io_index2req ≡ none
    → (s' : UringScheduler) × (handle_read now memory s address ≡ some s')
      × (find k s'.io_index2req ≡ (if s.io_index == k then some address else find k s.io_index2req))
unfolding handle_read enter
handle_read_lem now memory s address k r f = (
  enter now s address (memory address)
      (((memory address).capicaty + (u32_mod - (memory address).size)) % u32_mod),
  ground arith,
  find-insert_new k s.io_index address s.io_index2req f,
)

-- `handleWrite` of a write request adds the request at the next number, if that is free, and keeps
-- the others.
pub handle_write_lem :
    (now : ℕ) (memory : Memory) (s : UringScheduler) (address k : ℕ)
    → (memory address).op ≡ op_write
    → find s.io_index s.io_index2req ≡ none
    → (s' : UringScheduler) × (handle_write now memory s address ≡ some s')
      × (find k s'.io_index2req ≡ (if s.io_index == k then some address else find k s.io_index2req))
unfolding handle_write enter
handle_write_lem now memory s address k r f = (
  enter now s address (memory address) (memory address).size,
  ground arith,
  find-insert_new k s.io_index address s.io_index2req f,
)
