-- ===== src/Uring/Deadlines.antt =====
-- A request whose time is over is not pending behind `poll`.
use co_uring_web.Prelude.{
  Option, ℕ, ◌+◌, ◌<◌, ◌==◌, true, false, none, some, List, [], ◌∷◌, ◌++◌, ◌≡◌, ◌⊎◌, inl, inr, refl,
  sym, ap, ◌∙◌, arith, Bool-cases, Option-cases, ==_iff,
}
use mathlib.Core.Option.{some-injective}
use co_uring_web.Prelude.OrdMap.{find, erase, find-erase}
use co_uring_web.Prelude.Keys.{nat_key}
use co_uring_web.Timer.{pop_expired}
use co_uring_web.Timer.Inv.{IsValid, remove-IsValid}
use co_uring_web.Timer.Expiry.{count, deadline, is_expired, count-pop_expired}
use co_uring_web.Timer.Remaining.{deadline-remove}
use co_uring_web.Uring.{
  Memory, set_ret_code, has_timeout, Cqe, Polled, complete, complete_each, expire, expire_requests,
  expire_timers, poll,
}
use co_uring_web.Uring.Pending.{
  AllPending, complete_each_stop, complete_each_step, expire_requests_absent, expire_requests_step,
  poll_of_complete_each,
}

pub count-append : (j : ℕ) (xs ys : List ℕ) → count j (xs ++ ys) ≡ count j xs + count j ys
count-append j [] ys = omega arith
count-append j (x ∷ xs) ys = omega (arith, count-append j xs ys)

set_ret_code-context :
    (memory : Memory) (a code b : ℕ) → (set_ret_code memory a code b).context ≡ (memory b).context
set_ret_code-context memory a code b = ground arith

-- The request `id` lies at `address`, and its handle is `handle`.
module _ (id address handle : ℕ) where
  pub record Waits (p : Polled) : Type 0 where
    pub found : find id p.scheduler.io_index2req ≡ some address
    pub resumes : (p.memory address).context ≡ handle

  pub record IsReady (p : Polled) : Type 0 where
    pub gone : find id p.scheduler.io_index2req ≡ none
    pub listed : 0 < count handle p.ready

  -- A request `a` with the number `key` is taken out of the map, and its handle is made ready.
  pub Taken : Polled → Polled → ℕ → ℕ → Type 0
  Taken p q key a =
      (q.scheduler.io_index2req ≡ erase key p.scheduler.io_index2req)
      × (q.ready ≡ p.ready ++ (p.memory a).context ∷ [])
      × ((b : ℕ) → (q.memory b).context ≡ (p.memory b).context)

  pub IsReady-stays : (p q : Polled) (key a : ℕ) → Taken p q key a → IsReady p → IsReady q
  unfolding Taken
  IsReady-stays p q key a (m, r, c) h = record {
    gone = ap (find id) m ∙ find-erase id key p.scheduler.io_index2req ∙ ground (arith, h.gone);
    listed = omega (
      arith,
      h.listed,
      ap (count handle) r,
      count-append handle p.ready ((p.memory a).context ∷ []),
    );
  }

  pub Taken-step :
      (p q : Polled) (key a : ℕ)
      → Taken p q key a
      → find key p.scheduler.io_index2req ≡ some a
      → Waits p
      → ((key == id) ≡ false × Waits q) ⊎ IsReady q
  unfolding Taken
  Taken-step p q key a (m, r, c) f h =
      let behind = ap (find id) m ∙ find-erase id key p.scheduler.io_index2req in
      elim (Bool-cases (key == id)) [
        | inr e ↦ inl (
          e,
          record { found = behind ∙ ground (arith, e, h.found); resumes = c address ∙ h.resumes },
        )
        | inl e ↦
            let same : find key p.scheduler.io_index2req ≡ find id p.scheduler.io_index2req =
              ap (λ k. find k p.scheduler.io_index2req) ((==_iff key id).0 e) in
            let its_own : a ≡ address = some-injective a address (sym f ∙ same ∙ h.found) in
            let its_handle : (p.memory a).context ≡ handle =
              ap (λ b. (p.memory b).context) its_own ∙ h.resumes in
            inr (record {
              gone = behind ∙ ground (arith, e);
              listed = ground (
                arith,
                its_handle,
                ap (count handle) r,
                count-append handle p.ready ((p.memory a).context ∷ []),
              );
            })
      ]

  pub complete-Taken : (p : Polled) (cqe : Cqe) (a : ℕ) → Taken p (complete p cqe a) cqe.user_data a
  unfolding complete Taken
  complete-Taken p cqe a = (refl, refl, λ b. set_ret_code-context p.memory a cqe.res b)

  pub expire-Taken : (p : Polled) (key a : ℕ) → Taken p (expire p key a) key a
  unfolding expire Taken
  expire-Taken p key a = (refl, refl, λ b. set_ret_code-context p.memory a _ b)

  module _ (time : Option ℕ) where
    pub record IsDue (p : Polled) : Type 0 where
      pub waits : Waits p
      pub valid : IsValid p.scheduler.timer_queue
      pub timed : deadline id p.scheduler.timer_queue ≡ time

    complete_timers :
        (p : Polled) (cqe : Cqe) (a : ℕ)
        → (cqe.user_data == id) ≡ false
        → IsDue p
        → let t = (complete p cqe a).scheduler.timer_queue in IsValid t × (deadline id t ≡ time)
    unfolding complete
    complete_timers p cqe a e h = elim (Bool-cases (has_timeout (p.memory a))) [
      | inr n ↦ rw n (h.valid, h.timed)
      | inl n ↦ rw n (
        remove-IsValid p.scheduler.timer_queue cqe.user_data h.valid,
        (deadline-remove p.scheduler.timer_queue cqe.user_data id h.valid).1
            ∙ ground (arith, e)
            ∙ h.timed,
      )
    ]

    pub complete-IsDue :
        (p : Polled) (cqe : Cqe) (a : ℕ)
        → find cqe.user_data p.scheduler.io_index2req ≡ some a
        → IsDue p
        → IsDue (complete p cqe a) ⊎ IsReady (complete p cqe a)
    complete-IsDue p cqe a f h =
        elim (Taken-step p (complete p cqe a) cqe.user_data a (complete-Taken p cqe a) f h.waits) [
          | inr r ↦ inr r
          | inl (e, w) ↦
              let (valid, timed) = complete_timers p cqe a e h in
              inl (record { waits = w; valid = valid; timed = timed })
        ]

    -- The loop over completions.
    pub complete_each-IsDue :
        (cqes : List Cqe) (p : Polled)
        → AllPending cqes p.scheduler.io_index2req
        → IsDue p ⊎ IsReady p
        → (q : Polled) × (complete_each cqes p ≡ some q) × (IsDue q ⊎ IsReady q)
    complete_each-IsDue [] p h s = (p, unfold complete_each in refl, s)
    complete_each-IsDue (cqe ∷ cqes) p ((a, f), h) s =
        let next : IsDue (complete p cqe a) ⊎ IsReady (complete p cqe a) = elim s [
          | inl d ↦ complete-IsDue p cqe a f d
          | inr r ↦
              inr (IsReady-stays p (complete p cqe a) cqe.user_data a (complete-Taken p cqe a) r)
        ] in
        let (q, g, s') = complete_each-IsDue cqes (complete p cqe a) (unfold complete in h) next in
        elim (Bool-cases (cqe.user_data == 0)) [
          | inl e ↦ (p, complete_each_stop cqe cqes p e, s)
          | inr e ↦ (q, complete_each_step cqe cqes p a e f ∙ g, s')
        ]

    -- A round of the loop over the expired numbers.
    Expires : List ℕ → Polled → Type 0
    Expires keys p = (Waits p × (0 < count id keys)) ⊎ IsReady p

    passed_over :
        (key : ℕ) (keys : List ℕ) (p : Polled)
        → find key p.scheduler.io_index2req ≡ none
        → Expires (key ∷ keys) p
        → Expires keys p
    unfolding Expires
    passed_over key keys p e (inr r) = inr r
    passed_over key keys p e (inl (w, l)) = elim (Bool-cases (key == id)) [
      | inl same ↦
          absurd
            (cc (e, w.found, ap (λ k. find k p.scheduler.io_index2req) ((==_iff key id).0 same)))
      | inr other ↦ inl (w, ground (arith, l, other))
    ]

    Expires-step :
        (key : ℕ) (keys : List ℕ) (p : Polled) (a : ℕ)
        → find key p.scheduler.io_index2req ≡ some a
        → Expires (key ∷ keys) p
        → Expires keys (expire p key a)
    unfolding Expires
    Expires-step key keys p a f (inr r) =
        inr (IsReady-stays p (expire p key a) key a (expire-Taken p key a) r)
    Expires-step key keys p a f (inl (w, l)) =
        elim (Taken-step p (expire p key a) key a (expire-Taken p key a) f w) [
          | inr r ↦ inr r
          | inl (other, w') ↦ inl (w', ground (arith, l, other))
        ]

    expire_requests-IsReady :
        (keys : List ℕ) (p : Polled) → Expires keys p → IsReady (expire_requests keys p)
    unfolding Expires
    expire_requests-IsReady [] p (inl (w, l)) = absurd (omega arith)
    expire_requests-IsReady [] p (inr r) = unfold expire_requests in r
    expire_requests-IsReady (key ∷ keys) p s =
        elim (Option-cases (find key p.scheduler.io_index2req)) [
          | inl e ↦
              rw (expire_requests_absent key keys p e)
                (expire_requests-IsReady keys p (passed_over key keys p e s))
          | inr (a, e) ↦
              rw (expire_requests_step key keys p a e)
                (expire_requests-IsReady keys (expire p key a) (Expires-step key keys p a e s))
        ]

    pub expire_timers-IsReady :
        (now : ℕ) (p : Polled)
        → is_expired now time ≡ true
        → IsDue p ⊎ IsReady p
        → IsReady (expire_timers now p)
    unfolding expire_timers Expires
    expire_timers-IsReady now p over s =
        let popped = pop_expired now p.scheduler.timer_queue [] in
        let p0 = record p { scheduler = record (p.scheduler) { timer_queue = popped.1 } } in
        expire_requests-IsReady popped.0 p0 (elim s [
          | inr r ↦ inr (record { gone = r.gone; listed = r.listed })
          | inl d ↦ inl (
            record { found = d.waits.found; resumes = d.waits.resumes },
            ground (
              arith,
              count-pop_expired p.scheduler.timer_queue now id d.valid,
              ap (is_expired now) d.timed ∙ over,
            ),
          )
        ])

-- If each completion is that of a pending request and the timer queue has its two maps in step, then a pending
-- request whose deadline, which has 32 bits, is not above the low 32 bits of the clock is behind poll no longer
-- pending, and its handle is ready.
pub poll_expires :
    (now : ℕ) (cqes : List Cqe) (p : Polled) (id address : ℕ)
    → IsValid p.scheduler.timer_queue
    → AllPending cqes p.scheduler.io_index2req
    → find id p.scheduler.io_index2req ≡ some address
    → is_expired now (deadline id p.scheduler.timer_queue) ≡ true
    → (p' : Polled) × (poll now cqes p ≡ some p')
      × (find id p'.scheduler.io_index2req ≡ none)
      × (0 < count (p.memory address).context p'.ready)
poll_expires now cqes p id address v h f e =
    let handle = (p.memory address).context in
    let time = deadline id p.scheduler.timer_queue in
    let due : IsDue id address handle time p = record {
      waits = record { found = f; resumes = refl };
      valid = v;
      timed = refl;
    } in
    let (q, g, s) = complete_each-IsDue id address handle time cqes p h (inl due) in
    let r = expire_timers-IsReady id address handle time now q e s in
    (expire_timers now q, poll_of_complete_each now cqes p q g, r.gone, r.listed)
