-- ===== src/Uring/Follows.antt =====
-- What follows a request: any run of calls, with the handles that are handed out.
use co_uring_web.Prelude.{
  ℕ, ◌+◌, ◌-◌, ◌%◌, ◌<◌, ◌≤◌, ◌==◌, false, Option, some, List, [], ◌++◌, if◌then◌else◌, ◌≡◌, ◌⊎◌,
  inl, inr, ◌∙◌, arith, Bool-cases,
}
use mathlib.Core.Path.{subst}
use co_uring_web.Prelude.OrdMap.{find-insert_new}
use co_uring_web.Prelude.Keys.{nat_key}
use co_uring_web.Timer.{u32_mod, add}
use co_uring_web.Timer.Expiry.{count, deadline}
use co_uring_web.Timer.Remaining.{deadline-add}
use co_uring_web.Uring.{
  IoRequest, Memory, UringScheduler, has_timeout, enter, handle_read, handle_write, Cqe, Polled,
  poll,
}
use co_uring_web.Uring.Runs.{
  Reaches, sets, reads, writes, polls, IsNumbered, enter-IsNumbered, Reaches-IsNumbered,
  only_for_read, only_for_write,
}
use co_uring_web.Uring.Deadlines.{IsDue, count-append}
use co_uring_web.Uring.Waiting.{poll-IsDueOrReady}

-- The states that a run of `n` requests and any polls comes to from `start`, with all handles that it hands
-- out. Between two calls the requests may change, but the one at `address` keeps its handle.
pub data Follows (address handle : ℕ) (start : Polled) : ℕ → List ℕ → Polled → Type 0 where
  here : Follows address handle start 0 [] start
  sets_next :
      {n : ℕ} {handed : List ℕ} {p : Polled} (memory : Memory)
      → Follows address handle start n handed p
      → (memory address).context ≡ handle
      → Follows address handle start n handed (record p { memory = memory })
  reads_next :
      {n : ℕ} {handed : List ℕ} {p : Polled} {s : UringScheduler} (now a : ℕ)
      → Follows address handle start n handed p
      → handle_read now p.memory p.scheduler a ≡ some s
      → Follows address handle start (n + 1) handed (record p { scheduler = s })
  writes_next :
      {n : ℕ} {handed : List ℕ} {p : Polled} {s : UringScheduler} (now a : ℕ)
      → Follows address handle start n handed p
      → handle_write now p.memory p.scheduler a ≡ some s
      → Follows address handle start (n + 1) handed (record p { scheduler = s })
  polls_next :
      {n : ℕ} {handed : List ℕ} {p q : Polled} (now : ℕ) (cqes : List Cqe)
      → Follows address handle start n handed p
      → poll now cqes (record p { ready = [] }) ≡ some q
      → Follows address handle start n (handed ++ q.ready) q

module _ (id address handle : ℕ) (time : Option ℕ) where
  enter_timed :
      (now : ℕ) (s : UringScheduler) (req : IoRequest)
      → (s.io_index == id) ≡ false
      → deadline id s.timer_queue ≡ time
      → deadline id (
          if has_timeout req
          then (add s.timer_queue s.io_index (now + req.timeout)).1
          else s.timer_queue)
        ≡ time
  enter_timed now s req other e = elim (Bool-cases (has_timeout req)) [
    | inl t ↦ rw t (
        (deadline-add s.timer_queue s.io_index (now + req.timeout) id).1 ∙ ground (arith, other, e))
    | inr t ↦ rw t e
  ]

  -- Another request.
  enter-IsDue :
      (m now a len : ℕ) (req : IoRequest) (p : Polled)
      → IsNumbered m p.scheduler
      → id ≤ m
      → m + 1 < u32_mod
      → IsDue id address handle time p
      → IsDue id address handle time (record p { scheduler = enter now p.scheduler a req len })
  enter-IsDue m now a len req p h l small d =
      let other : (p.scheduler.io_index == id) ≡ false = ground (arith, h.next, l) in
      let next = enter-IsNumbered m now p.scheduler a req len small h in
      record {
        waits = record {
          found =
              unfold enter in
              find-insert_new id p.scheduler.io_index a p.scheduler.io_index2req
                (h.free p.scheduler.io_index (omega (arith, h.next)))
              ∙ rw other d.waits.found;
          resumes = d.waits.resumes;
        };
        valid = next.timely.valid;
        timed = unfold enter in enter_timed now p.scheduler req other d.timed;
      }

pub Follows-Reaches :
    {address handle m : ℕ} {start : Polled} {n : ℕ} {p : Polled} {handed : List ℕ}
    → Reaches m start
    → Follows address handle start n handed p
    → Reaches (m + n) p
Follows-Reaches {m = m} {start = start} r here = subst (λ k. Reaches k start) (omega arith) r
Follows-Reaches r (sets_next memory f e) = sets memory (Follows-Reaches r f)
Follows-Reaches {m = m} r (reads_next {n} {handed} {p} {s} now a f e) =
    subst (λ k. Reaches k (record p { scheduler = s })) (omega arith)
      (reads now a (Follows-Reaches r f) e)
Follows-Reaches {m = m} r (writes_next {n} {handed} {p} {s} now a f e) =
    subst (λ k. Reaches k (record p { scheduler = s })) (omega arith)
      (writes now a (Follows-Reaches r f) e)
Follows-Reaches r (polls_next now cqes f e) = polls now cqes (Follows-Reaches r f) e

module _ (id address handle : ℕ) (time : Option ℕ) (m : ℕ) (start : Polled)
    (reached : Reaches m start) (before : id ≤ m) (due : IsDue id address handle time start) where
  handed_more : (handed more : List ℕ) → 0 < count handle handed → 0 < count handle (handed ++ more)
  handed_more handed more l = omega (arith, l, count-append handle handed more)

  handed_last : (handed more : List ℕ) → 0 < count handle more → 0 < count handle (handed ++ more)
  handed_last handed more l = omega (arith, l, count-append handle handed more)

  cleared :
      (p : Polled)
      → IsDue id address handle time p
      → IsDue id address handle time (record p { ready = [] })
  cleared p d = record {
    waits = record { found = d.waits.found; resumes = d.waits.resumes };
    valid = d.valid;
    timed = d.timed;
  }

  Follows-IsNumbered :
      {n : ℕ} {handed : List ℕ} {p : Polled}
      → m + n < u32_mod
      → Follows address handle start n handed p
      → IsNumbered (m + n) p.scheduler
  Follows-IsNumbered l f = Reaches-IsNumbered (Follows-Reaches reached f) l

  -- The request stays pending with its deadline until its handle is handed out.
  pub Follows-IsDue :
      {n : ℕ} {handed : List ℕ} {p : Polled}
      → m + n < u32_mod
      → Follows address handle start n handed p
      → IsDue id address handle time p ⊎ (0 < count handle handed)
  Follows-IsDue l here = inl due
  Follows-IsDue l (sets_next memory f e) = elim (Follows-IsDue l f) [
    | inr c ↦ inr c
    | inl d ↦ inl (record {
      waits = record { found = d.waits.found; resumes = e };
      valid = d.valid;
      timed = d.timed;
    })
  ]
  Follows-IsDue l (reads_next {n} {handed} {p} {s} now a f e) =
      let few : m + n < u32_mod = omega (arith, l) in
      let len = ((p.memory a).capicaty + (u32_mod - (p.memory a).size)) % u32_mod in
      let entered =
        only_for_read (p.memory a).op (enter now p.scheduler a (p.memory a) len) s
          (unfold handle_read in e) in
      elim (Follows-IsDue few f) [
        | inr c ↦ inr c
        | inl d ↦ inl (
            subst (λ t. IsDue id address handle time (record p { scheduler = t })) entered
              (enter-IsDue id address handle time (m + n) now a len (p.memory a) p
                (Follows-IsNumbered few f) (omega (arith, before)) (omega (arith, l)) d))
      ]
  Follows-IsDue l (writes_next {n} {handed} {p} {s} now a f e) =
      let few : m + n < u32_mod = omega (arith, l) in
      let len = (p.memory a).size in
      let entered =
        only_for_write (p.memory a).op (enter now p.scheduler a (p.memory a) len) s
          (unfold handle_write in e) in
      elim (Follows-IsDue few f) [
        | inr c ↦ inr c
        | inl d ↦ inl (
            subst (λ t. IsDue id address handle time (record p { scheduler = t })) entered
              (enter-IsDue id address handle time (m + n) now a len (p.memory a) p
                (Follows-IsNumbered few f) (omega (arith, before)) (omega (arith, l)) d))
      ]
  Follows-IsDue l (polls_next {n} {handed} {p} {q} now cqes f e) = elim (Follows-IsDue l f) [
    | inr c ↦ inr (handed_more handed q.ready c)
    | inl d ↦
        elim (poll-IsDueOrReady id address handle time now cqes (record p { ready = [] }) q e
          (inl (cleared p d))) [
            | inl d' ↦ inl d'
            | inr r ↦ inr (handed_last handed q.ready r.listed)
          ]
  ]
