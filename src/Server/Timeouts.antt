-- ===== src/Server/Timeouts.antt =====
-- `Scheduler` over `UringScheduler`: a coroutine that awaits a request with a timeout.
use co_uring_web.Prelude.{
  ℕ, ◌+◌, ◌%◌, ◌/◌, ◌^◌, ◌<◌, ◌≤◌, ◌==◌, true, false, Option, none, some, List, [], ◌++◌, ◌≡◌, ap,
  ◌∙◌, arith, inl, inr,
}
use co_uring_web.Prelude.Options.{◌>>=◌}
use co_uring_web.Timer.{u32_mod}
use co_uring_web.Timer.Expiry.{count, deadline, is_expired}
use co_uring_web.LockfreeQueue.{update}
use co_uring_web.Uring.{
  IoRequestOp, op_read, op_write, IoRequest, Memory, UringScheduler, Cqe, Polled, enter,
  expire_timers, handle_read, handle_write, poll,
}
use co_uring_web.Uring.Pending.{AllPending, complete_each_returns, poll_of_complete_each}
use co_uring_web.Uring.Deadlines.{IsDue, count-append, poll_expires}
use co_uring_web.Uring.Runs.{Reaches, sets, reads, writes, Reaches-IsNumbered, Reaches-IsReady}
use co_uring_web.Uring.Timeouts.{
  read_len, enter-IsPendingUntil, handle_read-enter, handle_write-enter,
}
use co_uring_web.Uring.Follows.{Follows, Follows-IsDue}
use co_uring_web.Server.{SchedulerImpl, async_read, async_write}

pub record UringState (W : Type 0) : Type 0 where
  pub memory : Memory
  pub scheduler : UringScheduler
  pub world : W

-- `harvest` gives the completions that `poll` finds.
abbrev pub Harvest : Type 0 → Type 0
Harvest W = W → UringScheduler → List Cqe × W

-- `poll` for a list of handles that is empty before.
abbrev pub polled : {W : Type 0} → W → Option Polled → Option (UringState W × List ℕ)
polled world none = none
polled world (some p) =
    some (record { memory = p.memory; scheduler = p.scheduler; world = world }, p.ready)

abbrev pub uring_impl : {W : Type 0} → Harvest W → SchedulerImpl (UringState W)
uring_impl harvest = record {
  request = λ s address. s.memory address;
  set_request = λ s address req. record s { memory = update s.memory address req };
  handle_read = λ now s address.
      handle_read now s.memory s.scheduler address >>= λ s'. some (record s { scheduler = s' });
  handle_write = λ now s address.
      handle_write now s.memory s.scheduler address >>= λ s'. some (record s { scheduler = s' });
  poll = λ now s.
      let (cqes, world) = harvest s.world s.scheduler in
      polled world
        (poll now cqes (record { memory = s.memory; scheduler = s.scheduler; ready = [] }));
}

-- A poll when the time of a request is over, behind any run that follows the request.
expires_after :
    {W : Type 0} (harvest : Harvest W) (later id address handle time m : ℕ) (start : Polled)
    → Reaches m start
    → id ≤ m
    → IsDue id address handle (some (time % u32_mod)) start
    → time ≤ later
    → time / u32_mod ≡ later / u32_mod
    → (k : ℕ) (handed : List ℕ) (q : Polled) (w : W) → m + k < u32_mod
    → Follows address handle start k handed q
    → AllPending (harvest w q.scheduler).0 q.scheduler.io_index2req
    → (s' : UringState W) × (handles : List ℕ) × ((uring_impl harvest).poll later
          (record { memory = q.memory; scheduler = q.scheduler; world = w })
        ≡ some (s', handles))
      × (0 < count handle (handed ++ handles))
expires_after harvest later id address handle time m start r b d over period k handed q w few f
      pending =
    let (cqes, world) = harvest w q.scheduler in
    let p : Polled = record { memory = q.memory; scheduler = q.scheduler; ready = [] } in
    let result : Polled → UringState _ =
      λ p'. record { memory = p'.memory; scheduler = p'.scheduler; world = world } in
    elim (Follows-IsDue id address handle (some (time % u32_mod)) m start r b d few f) [
      | inr c ↦
          let (p1, e) = complete_each_returns cqes p pending in
          let p' = expire_timers later p1 in
          (
            result p',
            p'.ready,
            ap (polled world) (poll_of_complete_each later cqes p p1 e),
            omega (arith, c, count-append handle handed p'.ready),
          )
      | inl h ↦
          let expired : is_expired later (deadline id q.scheduler.timer_queue) ≡ true =
            ap (is_expired later) h.timed ∙ ground (arith, over, period) in
          let (p', e, gone, listed) =
            poll_expires later cqes p id address h.valid pending h.waits.found expired in
          let own = ap (λ j. count j p'.ready) h.waits.resumes in
          (
            result p',
            p'.ready,
            ap (polled world) e,
            omega (arith, listed, own, count-append handle handed p'.ready),
          )
    ]

module _ {W : Type 0} (harvest : Harvest W) (now later : ℕ) (s : UringState W) (address handle : ℕ)
    (positive : 0 < (s.memory address).timeout) (int : (s.memory address).timeout < 2 ^ 31) (n : ℕ)
    (left : List ℕ)
    (reached : Reaches n (record { memory = s.memory; scheduler = s.scheduler; ready = left }))
    (over : now + (s.memory address).timeout ≤ later)
    (period : (now + (s.memory address).timeout) / u32_mod ≡ later / u32_mod) where
  -- The request is as the awaiter has set it.
  abbrev pub awaited : IoRequestOp → IoRequest
  awaited op = record (s.memory address) { context = handle; op = op }

  abbrev pub awaited_memory : IoRequestOp → Memory
  awaited_memory op = update s.memory address (awaited op)

  awaited-eq : (op : IoRequestOp) → awaited_memory op address ≡ awaited op
  awaited-eq op = ground arith

  -- The state behind the call, with the request entered for so many bytes.
  abbrev pub awaiting : IoRequestOp → ℕ → Polled
  awaiting op len = record {
    memory = awaited_memory op;
    scheduler = enter now s.scheduler address (awaited op) len;
    ready = left;
  }

  abbrev pub awaiting_state : IoRequestOp → ℕ → UringState W
  awaiting_state op len = record {
    memory = awaited_memory op;
    scheduler = enter now s.scheduler address (awaited op) len;
    world = s.world;
  }

  awaiting-IsDue :
      (op : IoRequestOp) (len : ℕ)
      → n < u32_mod
      → IsDue s.scheduler.io_index address handle
          (some ((now + (s.memory address).timeout) % u32_mod))
          (awaiting op len)
  awaiting-IsDue op len few =
      let ready =
        (Reaches-IsReady n (record { memory = s.memory; scheduler = s.scheduler; ready = left })
          reached few).1 in
      let h = enter-IsPendingUntil now s.scheduler address (awaited op) positive int ready len in
      record {
        waits = record { found = h.found; resumes = ap (λ r. r.context) (awaited-eq op) };
        valid = h.valid;
        timed = h.timed;
      }

  number : n < u32_mod → s.scheduler.io_index ≡ n + 1
  number few = (Reaches-IsNumbered reached few).next

  read_entered :
      handle_read now (awaited_memory op_read) s.scheduler address
      ≡ some (enter now s.scheduler address (awaited op_read) (read_len (awaited op_read)))
  read_entered =
      handle_read-enter now (awaited_memory op_read) s.scheduler address
        (ap (λ r. r.op) (awaited-eq op_read))
      ∙ ap (λ r. some (enter now s.scheduler address r (read_len r))) (awaited-eq op_read)

  write_entered :
      handle_write now (awaited_memory op_write) s.scheduler address
      ≡ some (enter now s.scheduler address (awaited op_write) (awaited op_write).size)
  write_entered =
      handle_write-enter now (awaited_memory op_write) s.scheduler address
        (ap (λ r. r.op) (awaited-eq op_write))
      ∙ ap (λ (r : IoRequest). some (enter now s.scheduler address r (r.size)))
          (awaited-eq op_write)

  -- In a state that a new scheduler comes to, a coroutine awaits a read with a timeout. Behind it comes any run
  -- of requests of other coroutines and of polls that come to an end, in which the awaited request keeps its
  -- handle, and then a poll when the timeout is over, which finds only completions of pending requests. Then
  -- asyncRead has entered the request, the poll comes to an end, and the coroutine has been handed out by it
  -- or by one before it. There are less than 2 ^ 32 requests in all, and the deadline and the last poll lie in
  -- one period of 2 ^ 32 milliseconds.
  pub async_read_expires :
      (k : ℕ) (handed : List ℕ) (q : Polled) (w : W)
      → n + 1 + k < u32_mod
      → Follows address handle (awaiting op_read (read_len (s.memory address))) k handed q
      → AllPending (harvest w q.scheduler).0 q.scheduler.io_index2req
      → (s' : UringState W) × (handles : List ℕ) × (async_read
            (uring_impl harvest)
            now
            s
            address
            handle
          ≡ some (awaiting_state op_read (read_len (s.memory address))))
        × ((uring_impl harvest).poll later
              (record { memory = q.memory; scheduler = q.scheduler; world = w })
            ≡ some (s', handles))
        × (0 < count handle (handed ++ handles))
  unfolding async_read
  async_read_expires k handed q w few f pending =
      let small : n < u32_mod = omega (arith, few) in
      let start = reads now address (sets (awaited_memory op_read) reached) read_entered in
      let (s', handles, g, l) =
        expires_after harvest later s.scheduler.io_index address handle
          (now + (s.memory address).timeout) (n + 1)
          (awaiting op_read (read_len (s.memory address))) start (omega (arith, number small))
          (awaiting-IsDue op_read (read_len (s.memory address)) small) over period k handed q w few
          f pending in
      (
        s',
        handles,
        ap
            (λ o. o >>= λ s1.
              some (record { memory = awaited_memory op_read; scheduler = s1; world = s.world }))
            read_entered,
        g,
        l,
      )

  -- The same of a write of at least one byte.
  pub async_write_expires :
      (k : ℕ) (handed : List ℕ) (q : Polled) (w : W)
      → 0 < (s.memory address).size
      → n + 1 + k < u32_mod
      → Follows address handle (awaiting op_write (s.memory address).size) k handed q
      → AllPending (harvest w q.scheduler).0 q.scheduler.io_index2req
      → (s' : UringState W) × (handles : List ℕ) × (async_write
            (uring_impl harvest)
            now
            s
            address
            handle
          ≡ some (awaiting_state op_write (s.memory address).size))
        × ((uring_impl harvest).poll later
              (record { memory = q.memory; scheduler = q.scheduler; world = w })
            ≡ some (s', handles))
        × (0 < count handle (handed ++ handles))
  unfolding async_write
  async_write_expires k handed q w filled few f pending =
      let small : n < u32_mod = omega (arith, few) in
      let some_bytes : ((s.memory address).size == 0) ≡ false = ground (arith, filled) in
      let start = writes now address (sets (awaited_memory op_write) reached) write_entered in
      let (s', handles, g, l) =
        expires_after harvest later s.scheduler.io_index address handle
          (now + (s.memory address).timeout) (n + 1) (awaiting op_write (s.memory address).size)
          start (omega (arith, number small))
          (awaiting-IsDue op_write (s.memory address).size small) over period k handed q w few f
          pending in
      (
        s',
        handles,
        rw (some_bytes, async_write)
            (ap
              (λ o. o >>= λ s1.
                some (record { memory = awaited_memory op_write; scheduler = s1; world = s.world }))
              write_entered),
        g,
        l,
      )
