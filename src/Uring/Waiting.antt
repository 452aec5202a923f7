-- ===== src/Uring/Waiting.antt =====
-- A request with a deadline, through any run of calls.
use co_uring_web.Prelude.{
  ℕ, ◌==◌, false, Option, some, List, [], ◌∷◌, ◌≡◌, ◌⊎◌, inl, inr, sym, ap, ◌∙◌, arith, Bool-cases,
  Option-cases,
}
use mathlib.Core.Option.{some-injective}
use mathlib.Core.Path.{subst}
use co_uring_web.Prelude.OrdMap.{find}
use co_uring_web.Prelude.Keys.{nat_key}
use co_uring_web.Timer.{pop_expired}
use co_uring_web.Timer.Expiry.{is_expired}
use co_uring_web.Timer.Remaining.{deadline-pop_expired, pop_expired-IsValid}
use co_uring_web.Uring.{
  Cqe, Polled, complete, complete_each, expire, expire_requests, expire_timers, poll,
}
use co_uring_web.Uring.Pending.{
  complete_each_stop, complete_each_step, complete_each_unknown, expire_requests_absent,
  expire_requests_step,
}
use co_uring_web.Uring.Deadlines.{
  IsReady, Taken-step, IsReady-stays, expire-Taken, IsDue, complete-Taken, complete-IsDue,
  expire_timers-IsReady,
}

module _ (id address handle : ℕ) (time : Option ℕ) where
  -- The request is pending with its deadline, or its handle is ready.
  abbrev pub IsDueOrReady : Polled → Type 0
  IsDueOrReady p = IsDue id address handle time p ⊎ IsReady id address handle p

  complete-IsDueOrReady :
      (p : Polled) (cqe : Cqe) (a : ℕ)
      → find cqe.user_data p.scheduler.io_index2req ≡ some a
      → IsDueOrReady p
      → IsDueOrReady (complete p cqe a)
  complete-IsDueOrReady p cqe a f (inl d) = complete-IsDue id address handle time p cqe a f d
  complete-IsDueOrReady p cqe a f (inr r) = inr (
      IsReady-stays id address handle p (complete p cqe a) cqe.user_data a
        (complete-Taken id address handle p cqe a) r)

  complete_each-IsDueOrReady :
      (cqes : List Cqe) (p q : Polled)
      → complete_each cqes p ≡ some q
      → IsDueOrReady p
      → IsDueOrReady q
  unfolding complete_each
  complete_each-IsDueOrReady [] p q e s = subst IsDueOrReady (some-injective p q e) s
  complete_each-IsDueOrReady (cqe ∷ cqes) p q e s = elim (Bool-cases (cqe.user_data == 0)) [
    | inl z ↦ subst IsDueOrReady (some-injective p q (sym (complete_each_stop cqe cqes p z) ∙ e)) s
    | inr z ↦ elim (Option-cases (find cqe.user_data p.scheduler.io_index2req)) [
      | inl f ↦ absurd (cc (e, complete_each_unknown cqe cqes p z f))
      | inr (a, f) ↦
          complete_each-IsDueOrReady cqes (complete p cqe a) q
            (sym (complete_each_step cqe cqes p a z f) ∙ e) (complete-IsDueOrReady p cqe a f s)
    ]
  ]

  expire-IsDueOrReady :
      (p : Polled) (key a : ℕ)
      → find key p.scheduler.io_index2req ≡ some a
      → IsDueOrReady p
      → IsDueOrReady (expire p key a)
  expire-IsDueOrReady p key a f (inr r) = inr (
      IsReady-stays id address handle p (expire p key a) key a
        (expire-Taken id address handle p key a) r)
  expire-IsDueOrReady p key a f (inl d) =
      elim (Taken-step id address handle p (expire p key a) key a
        (expire-Taken id address handle p key a) f d.waits) [
          | inr r ↦ inr r
          | inl (other, w) ↦ inl (record {
            waits = w;
            valid = unfold expire in d.valid;
            timed = unfold expire in d.timed;
          })
        ]

  expire_requests-IsDueOrReady :
      (keys : List ℕ) (p : Polled) → IsDueOrReady p → IsDueOrReady (expire_requests keys p)
  unfolding expire_requests
  expire_requests-IsDueOrReady [] p s = s
  expire_requests-IsDueOrReady (key ∷ keys) p s =
      elim (Option-cases (find key p.scheduler.io_index2req)) [
        | inl f ↦ rw (expire_requests_absent key keys p f) (expire_requests-IsDueOrReady keys p s)
        | inr (a, f) ↦
            rw (expire_requests_step key keys p a f)
              (expire_requests-IsDueOrReady keys (expire p key a) (expire-IsDueOrReady p key a f s))
      ]

  popped-IsDueOrReady :
      (now : ℕ) (p : Polled)
      → is_expired now time ≡ false
      → IsDueOrReady p
      → IsDueOrReady (record p {
        scheduler = record (p.scheduler) {
          timer_queue = (pop_expired now p.scheduler.timer_queue []).1;
        };
      })
  popped-IsDueOrReady now p early (inr r) = inr (record { gone = r.gone; listed = r.listed })
  popped-IsDueOrReady now p early (inl d) = inl (record {
    waits = record { found = d.waits.found; resumes = d.waits.resumes };
    valid = pop_expired-IsValid p.scheduler.timer_queue now d.valid;
    timed =
        deadline-pop_expired p.scheduler.timer_queue now id d.valid
        ∙ ground (arith, ap (is_expired now) d.timed ∙ early)
        ∙ d.timed;
  })

  expire_timers-IsDueOrReady :
      (now : ℕ) (p : Polled) → IsDueOrReady p → IsDueOrReady (expire_timers now p)
  unfolding expire_timers
  expire_timers-IsDueOrReady now p s = elim (Bool-cases (is_expired now time)) [
    | inl over ↦ inr (expire_timers-IsReady id address handle time now p over s)
    | inr early ↦
        let popped = pop_expired now p.scheduler.timer_queue [] in
        expire_requests-IsDueOrReady popped.0
          (record p { scheduler = record (p.scheduler) { timer_queue = popped.1 } })
          (popped-IsDueOrReady now p early s)
  ]

  pub poll-IsDueOrReady :
      (now : ℕ) (cqes : List Cqe) (p q : Polled)
      → poll now cqes p ≡ some q
      → IsDueOrReady p
      → IsDueOrReady q
  unfolding poll
  poll-IsDueOrReady now cqes p q e s = elim (Option-cases (complete_each cqes p)) [
    | inl f ↦ absurd (ground (arith, e, f))
    | inr (r, f) ↦
        subst IsDueOrReady (some-injective (expire_timers now r) q (ground (arith, e, f)))
          (expire_timers-IsDueOrReady now r (complete_each-IsDueOrReady cqes p r f s))
  ]
