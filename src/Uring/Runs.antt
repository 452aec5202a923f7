-- ===== src/Uring/Runs.antt =====
-- Every state that a UringScheduler can come to.
use co_uring_web.Prelude.{
  ℕ, ◌+◌, ◌-◌, ◌%◌, ◌<◌, ◌==◌, none, some, List, [], ◌∷◌, if◌then◌else◌, ◌≡◌, refl, sym, ◌∙◌, arith,
  Bool-cases, Option-cases, inl, inr,
}
use mathlib.Core.Option.{some-injective}
use mathlib.Core.Path.{subst}
use co_uring_web.Prelude.OrdMap.{
  Map, find, erase, find-insert_new, find-erase, IsSorted, IsSorted-insert, IsSorted-erase,
}
use co_uring_web.Prelude.Keys.{nat_key}
use co_uring_web.Timer.{TimerQueue, u32_mod, add, remove, pop_expired}
use co_uring_web.Timer.Timely.{
  IsTimely, empty-IsTimely, add-IsTimely, remove-IsTimely, pop_expired-IsTimely,
}
use co_uring_web.Uring.{
  IoRequestOp, op_read, op_write, IoRequest, Memory, UringScheduler, create, has_timeout, enter,
  handle_read, handle_write, Cqe, Polled, complete, complete_each, expire, expire_requests,
  expire_timers, poll,
}
use co_uring_web.Uring.Pending.{
  complete_each_stop, complete_each_step, complete_each_unknown, expire_requests_absent,
  expire_requests_step,
}
use co_uring_web.Uring.Timeouts.{IsReady}

-- The states after `n` requests: a coroutine may change the requests between two calls, and `poll` is given
-- a list of handles that is empty before.
pub data Reaches : ℕ → Polled → Type 0 where
  starts :
      (memory : Memory) → Reaches 0 (record { memory = memory; scheduler = create; ready = [] })
  sets :
      {n : ℕ} {p : Polled} (memory : Memory)
      → Reaches n p
      → Reaches n (record p { memory = memory })
  reads :
      {n : ℕ} {p : Polled} {s : UringScheduler} (now address : ℕ)
      → Reaches n p
      → handle_read now p.memory p.scheduler address ≡ some s
      → Reaches (n + 1) (record p { scheduler = s })
  writes :
      {n : ℕ} {p : Polled} {s : UringScheduler} (now address : ℕ)
      → Reaches n p
      → handle_write now p.memory p.scheduler address ≡ some s
      → Reaches (n + 1) (record p { scheduler = s })
  polls :
      {n : ℕ} {p q : Polled} (now : ℕ) (cqes : List Cqe)
      → Reaches n p
      → poll now cqes (record p { ready = [] }) ≡ some q
      → Reaches n q

pub record IsNumbered (n : ℕ) (s : UringScheduler) : Type 0 where
  pub next : s.io_index ≡ n + 1
  pub sorted : IsSorted s.io_index2req
  pub free : (k : ℕ) → n < k → find k s.io_index2req ≡ none
  pub timely : IsTimely n s.timer_queue

create-IsNumbered : IsNumbered 0 create
unfolding find
create-IsNumbered = record { next = refl; sorted = tt; free = λ k l. refl; timely = empty-IsTimely }

raised : (n : ℕ) (t : TimerQueue) → IsTimely n t → IsTimely (n + 1) t
raised n t h = record {
  valid = h.valid;
  young = h.young;
  few = omega (arith, h.few);
  free = λ k l. h.free k (omega (arith, l));
}

enter_timers :
    (n now : ℕ) (s : UringScheduler) (req : IoRequest)
    → n + 1 < u32_mod
    → IsNumbered n s
    → IsTimely (n + 1) (
        if has_timeout req
        then (add s.timer_queue s.io_index (now + req.timeout)).1
        else s.timer_queue)
enter_timers n now s req m h = elim (Bool-cases (has_timeout req)) [
  | inl e ↦ rw (e, h.next) (add-IsTimely n (now + req.timeout) s.timer_queue m h.timely)
  | inr e ↦ rw e (raised n s.timer_queue h.timely)
]

pub enter-IsNumbered :
    (n now : ℕ) (s : UringScheduler) (address : ℕ) (req : IoRequest) (len : ℕ)
    → n + 1 < u32_mod
    → IsNumbered n s
    → IsNumbered (n + 1) (enter now s address req len)
unfolding enter
enter-IsNumbered n now s address req len m h =
    let empty_slot = h.free s.io_index (omega (arith, h.next)) in
    record {
      next = omega (arith, h.next, m);
      sorted = IsSorted-insert s.io_index address s.io_index2req h.sorted;
      free = λ k l.
          find-insert_new k s.io_index address s.io_index2req empty_slot
          ∙ ground (arith, h.next, l, h.free k (omega (arith, l)));
      timely = enter_timers n now s req m h;
    }

complete_timers :
    (n : ℕ) (p : Polled) (cqe : Cqe) (address : ℕ)
    → IsNumbered n p.scheduler
    → IsTimely n (
        if has_timeout (p.memory address)
        then (remove p.scheduler.timer_queue cqe.user_data).1
        else p.scheduler.timer_queue)
complete_timers n p cqe address h = elim (Bool-cases (has_timeout (p.memory address))) [
  | inl e ↦ rw e (remove-IsTimely n cqe.user_data p.scheduler.timer_queue h.timely)
  | inr e ↦ rw e h.timely
]

erased_free :
    (n j : ℕ) (m : Map ℕ ℕ)
    → ((k : ℕ) → n < k → find k m ≡ none)
    → (k : ℕ) → n < k
    → find k (erase j m) ≡ none
erased_free n j m h k l = find-erase k j m ∙ ground (arith, h k l)

complete-IsNumbered :
    (n : ℕ) (p : Polled) (cqe : Cqe) (address : ℕ)
    → IsNumbered n p.scheduler
    → IsNumbered n (complete p cqe address).scheduler
unfolding complete
complete-IsNumbered n p cqe address h = record {
  next = h.next;
  sorted = IsSorted-erase cqe.user_data p.scheduler.io_index2req h.sorted;
  free = erased_free n cqe.user_data p.scheduler.io_index2req h.free;
  timely = complete_timers n p cqe address h;
}

expire-IsNumbered :
    (n : ℕ) (p : Polled) (key address : ℕ)
    → IsNumbered n p.scheduler
    → IsNumbered n (expire p key address).scheduler
unfolding expire
expire-IsNumbered n p key address h = record {
  next = h.next;
  sorted = IsSorted-erase key p.scheduler.io_index2req h.sorted;
  free = erased_free n key p.scheduler.io_index2req h.free;
  timely = h.timely;
}

complete_each-IsNumbered :
    (n : ℕ) (cqes : List Cqe) (p q : Polled)
    → complete_each cqes p ≡ some q
    → IsNumbered n p.scheduler
    → IsNumbered n q.scheduler
unfolding complete_each
complete_each-IsNumbered n [] p q e h =
    subst (λ (r : Polled). IsNumbered n r.scheduler) (some-injective p q e) h
complete_each-IsNumbered n (cqe ∷ cqes) p q e h = elim (Bool-cases (cqe.user_data == 0)) [
  | inl z ↦
      subst (λ (r : Polled). IsNumbered n r.scheduler)
        (some-injective p q (sym (complete_each_stop cqe cqes p z) ∙ e)) h
  | inr z ↦ elim (Option-cases (find cqe.user_data p.scheduler.io_index2req)) [
    | inl f ↦ absurd (cc (e, complete_each_unknown cqe cqes p z f))
    | inr (address, f) ↦
        complete_each-IsNumbered n cqes (complete p cqe address) q
          (sym (complete_each_step cqe cqes p address z f) ∙ e)
          (complete-IsNumbered n p cqe address h)
  ]
]

expire_requests-IsNumbered :
    (n : ℕ) (keys : List ℕ) (p : Polled)
    → IsNumbered n p.scheduler
    → IsNumbered n (expire_requests keys p).scheduler
unfolding expire_requests
expire_requests-IsNumbered n [] p h = h
expire_requests-IsNumbered n (key ∷ keys) p h =
    elim (Option-cases (find key p.scheduler.io_index2req)) [
      | inl f ↦ rw (expire_requests_absent key keys p f) (expire_requests-IsNumbered n keys p h)
      | inr (address, f) ↦ rw (expire_requests_step key keys p address f) (
          expire_requests-IsNumbered n keys (expire p key address)
            (expire-IsNumbered n p key address h))
    ]

expire_timers-IsNumbered :
    (n now : ℕ) (p : Polled)
    → IsNumbered n p.scheduler
    → IsNumbered n (expire_timers now p).scheduler
unfolding expire_timers
expire_timers-IsNumbered n now p h =
    let popped = pop_expired now p.scheduler.timer_queue [] in
    expire_requests-IsNumbered n popped.0
      (record p { scheduler = record (p.scheduler) { timer_queue = popped.1 } })
      (record {
        next = h.next;
        sorted = h.sorted;
        free = h.free;
        timely = pop_expired-IsTimely n now p.scheduler.timer_queue h.timely;
      })

poll-IsNumbered :
    (n now : ℕ) (cqes : List Cqe) (p q : Polled)
    → poll now cqes p ≡ some q
    → IsNumbered n p.scheduler
    → IsNumbered n q.scheduler
unfolding poll
poll-IsNumbered n now cqes p q e h = elim (Option-cases (complete_each cqes p)) [
  | inl f ↦ absurd (ground (arith, e, f))
  | inr (r, f) ↦
      subst (λ (t : Polled). IsNumbered n t.scheduler)
        (some-injective (expire_timers now r) q (ground (arith, e, f)))
        (expire_timers-IsNumbered n now r (complete_each-IsNumbered n cqes p r f h))
]

pub only_for_read :
    (op : IoRequestOp) (s s' : UringScheduler)
    → (elim op [ op_read ↦ some s | op_write ↦ none ]) ≡ some s'
    → s ≡ s'
only_for_read op_read s s' e = some-injective s s' e
only_for_read op_write s s' e = absurd (cc e)

pub only_for_write :
    (op : IoRequestOp) (s s' : UringScheduler)
    → (elim op [ op_read ↦ none | op_write ↦ some s ]) ≡ some s'
    → s ≡ s'
only_for_write op_read s s' e = absurd (cc e)
only_for_write op_write s s' e = some-injective s s' e

handle_read-IsNumbered :
    (n now : ℕ) (memory : Memory) (s s' : UringScheduler) (address : ℕ)
    → handle_read now memory s address ≡ some s'
    → n + 1 < u32_mod
    → IsNumbered n s
    → IsNumbered (n + 1) s'
unfolding handle_read
handle_read-IsNumbered n now memory s s' address e m h =
    let len = ((memory address).capicaty + (u32_mod - (memory address).size)) % u32_mod in
    subst (IsNumbered (n + 1))
      (only_for_read (memory address).op (enter now s address (memory address) len) s' e)
      (enter-IsNumbered n now s address (memory address) len m h)

handle_write-IsNumbered :
    (n now : ℕ) (memory : Memory) (s s' : UringScheduler) (address : ℕ)
    → handle_write now memory s address ≡ some s'
    → n + 1 < u32_mod
    → IsNumbered n s
    → IsNumbered (n + 1) s'
unfolding handle_write
handle_write-IsNumbered n now memory s s' address e m h =
    let len = (memory address).size in
    subst (IsNumbered (n + 1))
      (only_for_write (memory address).op (enter now s address (memory address) len) s' e)
      (enter-IsNumbered n now s address (memory address) len m h)

pub Reaches-IsNumbered : {n : ℕ} {p : Polled} → Reaches n p → n < u32_mod → IsNumbered n p.scheduler
Reaches-IsNumbered (starts memory) l = create-IsNumbered
Reaches-IsNumbered (sets memory r) l = Reaches-IsNumbered r l
Reaches-IsNumbered (reads {n} {p} {s} now address r e) l =
    handle_read-IsNumbered n now p.memory p.scheduler s address e l
      (Reaches-IsNumbered r (omega (arith, l)))
Reaches-IsNumbered (writes {n} {p} {s} now address r e) l =
    handle_write-IsNumbered n now p.memory p.scheduler s address e l
      (Reaches-IsNumbered r (omega (arith, l)))
Reaches-IsNumbered (polls {n} {p} {q} now cqes r e) l =
    poll-IsNumbered n now cqes (record p { ready = [] }) q e (Reaches-IsNumbered r l)

-- In every state that a new scheduler comes to with less than 2 ^ 32 requests, the map of pending requests is
-- in order, the next number is free, and the timer queue has its two maps in step.
pub Reaches-IsReady :
    (n : ℕ) (p : Polled)
    → Reaches n p
    → n < u32_mod
    → IsSorted p.scheduler.io_index2req × IsReady p.scheduler
Reaches-IsReady n p r l =
    let h = Reaches-IsNumbered r l in
    (
      h.sorted,
      record {
        free_request = h.free p.scheduler.io_index (omega (arith, h.next));
        free_timer = h.timely.free p.scheduler.io_index (omega (arith, h.next));
        valid = h.timely.valid;
        young = h.timely.young;
      },
    )
