-- ===== src/Uring/Timeouts.antt =====
-- A handler gives its request a deadline.
use co_uring_web.Prelude.{
  ℕ, ◌+◌, ◌-◌, ◌%◌, ◌^◌, ◌<◌, true, none, some, ◌≡◌, refl, ◌∙◌, arith, ==_self,
}
use co_uring_web.Prelude.OrdMap.{find, find-insert_new}
use co_uring_web.Prelude.Keys.{nat_key}
use co_uring_web.Timer.{u32_mod}
use co_uring_web.Timer.Inv.{IsValid, IsYoung, add-IsValid, fresh_of_IsYoung}
use co_uring_web.Timer.Expiry.{deadline}
use co_uring_web.Timer.Remaining.{deadline-add}
use co_uring_web.Uring.{
  IoRequest, op_read, op_write, Memory, UringScheduler, has_timeout, enter, handle_read,
  handle_write,
}

-- The request with this number lies at `address`, and this is its deadline.
pub record IsPendingUntil (id address time : ℕ) (s : UringScheduler) : Type 0 where
  pub found : find id s.io_index2req ≡ some address
  pub valid : IsValid s.timer_queue
  pub timed : deadline id s.timer_queue ≡ some (time % u32_mod)

-- The next number is free, and the timer queue is in order.
pub record IsReady (s : UringScheduler) : Type 0 where
  pub free_request : find s.io_index s.io_index2req ≡ none
  pub free_timer : deadline s.io_index s.timer_queue ≡ none
  pub valid : IsValid s.timer_queue
  pub young : IsYoung s.timer_queue

module _ (now : ℕ) (s : UringScheduler) (address : ℕ) (req : IoRequest) (positive : 0 < req.timeout)
    (int : req.timeout < 2 ^ 31) (ready : IsReady s) where
  pub enter-IsPendingUntil :
      (len : ℕ)
      → IsPendingUntil s.io_index address (now + req.timeout) (enter now s address req len)
  unfolding enter
  enter-IsPendingUntil len =
      let time = now + req.timeout in
      let timed : has_timeout req ≡ true = ground (arith, positive, int) in
      rw timed (record {
        found =
            find-insert_new s.io_index s.io_index address s.io_index2req ready.free_request
            ∙ rw (==_self s.io_index) refl;
        valid =
            add-IsValid s.timer_queue s.io_index time ready.valid
              (fresh_of_IsYoung s.timer_queue time ready.valid ready.young);
        timed =
            ground (arith, deadline-add s.timer_queue s.io_index time s.io_index, ready.free_timer);
      })

-- The length that `handleRead` asks for.
abbrev pub read_len : IoRequest → ℕ
read_len req = (req.capicaty + (u32_mod - req.size)) % u32_mod

pub handle_read-enter :
    (now : ℕ) (memory : Memory) (s : UringScheduler) (address : ℕ)
    → (memory address).op ≡ op_read
    → handle_read now memory s address
      ≡ some (enter now s address (memory address) (read_len (memory address)))
unfolding handle_read
handle_read-enter now memory s address r = ground (arith, r)

pub handle_write-enter :
    (now : ℕ) (memory : Memory) (s : UringScheduler) (address : ℕ)
    → (memory address).op ≡ op_write
    → handle_write now memory s address
      ≡ some (enter now s address (memory address) (memory address).size)
unfolding handle_write
handle_write-enter now memory s address r = ground (arith, r)
