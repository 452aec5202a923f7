-- ===== src/Uring/Pending.antt =====
-- What `poll` makes ready is no longer pending.
use co_uring_web.Prelude.{
  ℕ, ◌+◌, ◌==◌, true, false, none, some, List, [], ◌∷◌, length, length-append, ◌≡◌, refl, sym, ◌∙◌,
  arith, Bool-cases, Option-cases, inl, inr,
}
use mathlib.Core.Option.{some-injective}
use co_uring_web.Prelude.OrdMap.{Map, find, erase, IsSorted, find-Above, IsSorted-erase}
use co_uring_web.Prelude.Keys.{nat_key}
use co_uring_web.Timer.{pop_expired}
use co_uring_web.Uring.{
  Cqe, Polled, complete, complete_each, expire, expire_requests, expire_timers, poll,
}

erase-absent : (k : ℕ) (m : Map ℕ ℕ) → find k m ≡ none → length (erase k m) ≡ length m
unfolding find erase
erase-absent k [] h = refl
erase-absent k ((j, w) ∷ m) h = ground (arith, erase-absent k m)

pub length-erase :
    (k : ℕ) (m : Map ℕ ℕ) {v : ℕ}
    → IsSorted m
    → find k m ≡ some v
    → length (erase k m) + 1 ≡ length m
unfolding find erase
length-erase k [] s h = absurd (cc h)
length-erase k ((j, w) ∷ m) {v} s h =
    ground (arith, length-erase k m {v = v} s.1, erase-absent k m, find-Above j m s.0)

-- The requests that wait for a completion, and those that are ready.
abbrev pub known : Polled → ℕ
known p = length p.ready + length p.scheduler.io_index2req

pub complete_each_stop :
    (cqe : Cqe) (cqes : List Cqe) (p : Polled)
    → (cqe.user_data == 0) ≡ true
    → complete_each (cqe ∷ cqes) p ≡ some p
unfolding complete_each
complete_each_stop cqe cqes p e = ground arith

pub complete_each_unknown :
    (cqe : Cqe) (cqes : List Cqe) (p : Polled)
    → (cqe.user_data == 0) ≡ false
    → find cqe.user_data p.scheduler.io_index2req ≡ none
    → complete_each (cqe ∷ cqes) p ≡ none
unfolding complete_each
complete_each_unknown cqe cqes p e f = ground arith

pub complete_each_step :
    (cqe : Cqe) (cqes : List Cqe) (p : Polled) (address : ℕ)
    → (cqe.user_data == 0) ≡ false
    → find cqe.user_data p.scheduler.io_index2req ≡ some address
    → complete_each (cqe ∷ cqes) p ≡ complete_each cqes (complete p cqe address)
unfolding complete_each
complete_each_step cqe cqes p address e f = ground arith

known-complete :
    (p : Polled) (cqe : Cqe) (address : ℕ)
    → IsSorted p.scheduler.io_index2req
    → find cqe.user_data p.scheduler.io_index2req ≡ some address
    → (known (complete p cqe address) ≡ known p)
      × IsSorted (complete p cqe address).scheduler.io_index2req
unfolding complete
known-complete p cqe address s f = (
  omega (
    arith,
    length-erase cqe.user_data p.scheduler.io_index2req s f,
    length-append p.ready ((p.memory address).context ∷ []),
  ),
  IsSorted-erase cqe.user_data p.scheduler.io_index2req s,
)

known-complete_each :
    (cqes : List Cqe) (p : Polled) {p' : Polled}
    → IsSorted p.scheduler.io_index2req
    → complete_each cqes p ≡ some p'
    → (known p' ≡ known p) × IsSorted p'.scheduler.io_index2req
known-complete_each [] p {p'} s h =
    let e : p ≡ p' = unfold complete_each in some-injective p p' h in rw (sym e) (refl, s)
known-complete_each (cqe ∷ cqes) p {p'} s h = elim (Bool-cases (cqe.user_data == 0)) [
  | inl e ↦
      let e : p ≡ p' = some-injective p p' (sym (complete_each_stop cqe cqes p e) ∙ h) in
      rw (sym e) (refl, s)
  | inr e ↦ elim (Option-cases (find cqe.user_data p.scheduler.io_index2req)) [
    | inl f ↦ absurd (cc (h, complete_each_unknown cqe cqes p e f))
    | inr (address, f) ↦
        let (same, sorted) = known-complete p cqe address s f in
        let (same', sorted') =
          known-complete_each cqes (complete p cqe address) sorted
            (sym (complete_each_step cqe cqes p address e f) ∙ h) in
        (same' ∙ same, sorted')
  ]
]

known-expire :
    (p : Polled) (key address : ℕ)
    → IsSorted p.scheduler.io_index2req
    → find key p.scheduler.io_index2req ≡ some address
    → (known (expire p key address) ≡ known p)
      × IsSorted (expire p key address).scheduler.io_index2req
unfolding expire
known-expire p key address s f = (
  omega (
    arith,
    length-erase key p.scheduler.io_index2req s f,
    length-append p.ready ((p.memory address).context ∷ []),
  ),
  IsSorted-erase key p.scheduler.io_index2req s,
)

pub expire_requests_absent :
    (key : ℕ) (keys : List ℕ) (p : Polled)
    → find key p.scheduler.io_index2req ≡ none
    → expire_requests (key ∷ keys) p ≡ expire_requests keys p
unfolding expire_requests
expire_requests_absent key keys p f = ground arith

pub expire_requests_step :
    (key : ℕ) (keys : List ℕ) (p : Polled) (address : ℕ)
    → find key p.scheduler.io_index2req ≡ some address
    → expire_requests (key ∷ keys) p ≡ expire_requests keys (expire p key address)
unfolding expire_requests
expire_requests_step key keys p address f = ground arith

known-expire_requests :
    (keys : List ℕ) (p : Polled)
    → IsSorted p.scheduler.io_index2req
    → (known (expire_requests keys p) ≡ known p)
      × IsSorted (expire_requests keys p).scheduler.io_index2req
known-expire_requests [] p s = unfold expire_requests in (refl, s)
known-expire_requests (key ∷ keys) p s = elim (Option-cases (find key p.scheduler.io_index2req)) [
  | inl f ↦ rw (expire_requests_absent key keys p f) (known-expire_requests keys p s)
  | inr (address, f) ↦
      let (same, sorted) = known-expire p key address s f in
      let (same', sorted') = known-expire_requests keys (expire p key address) sorted in
      rw (expire_requests_step key keys p address f) (same' ∙ same, sorted')
]

poll_parts :
    (now : ℕ) (cqes : List Cqe) (p : Polled) {p' : Polled}
    → poll now cqes p ≡ some p'
    → (q : Polled) × (complete_each cqes p ≡ some q) × (expire_timers now q ≡ p')
unfolding poll
poll_parts now cqes p {p'} h = elim (Option-cases (complete_each cqes p)) [
  | inl e ↦ absurd (ground (arith, e))
  | inr (q, e) ↦ (q, e, ground (arith, e))
]

-- When `poll` comes to an end, the number of ready handles has grown by as much as the map of pending
-- requests has shrunk, and the map is sorted.
pub known-poll :
    (now : ℕ) (cqes : List Cqe) (p : Polled) {p' : Polled}
    → IsSorted p.scheduler.io_index2req
    → poll now cqes p ≡ some p'
    → (known p' ≡ known p) × IsSorted p'.scheduler.io_index2req
unfolding expire_timers
known-poll now cqes p {p'} s h =
    let (q, e, t) = poll_parts now cqes p h in
    let (same, sorted) = known-complete_each cqes p s e in
    let (expireds, timers) = pop_expired now q.scheduler.timer_queue [] in
    let (same', sorted') =
      known-expire_requests expireds
        (record q { scheduler = record (q.scheduler) { timer_queue = timers } }) sorted in
    rw (sym t) (same' ∙ same, sorted')

-- Each completion is that of a request that is pending when its turn comes.
abbrev pub AllPending : List Cqe → Map ℕ ℕ → Type 0
AllPending [] m = Unit
AllPending (cqe ∷ cqes) m =
    ((address : ℕ) × (find cqe.user_data m ≡ some address))
    × AllPending cqes (erase cqe.user_data m)

pub complete_each_returns :
    (cqes : List Cqe) (p : Polled)
    → AllPending cqes p.scheduler.io_index2req
    → (q : Polled) × (complete_each cqes p ≡ some q)
complete_each_returns [] p h = (p, unfold complete_each in refl)
complete_each_returns (cqe ∷ cqes) p ((address, f), h) = elim (Bool-cases (cqe.user_data == 0)) [
  | inl e ↦ (p, complete_each_stop cqe cqes p e)
  | inr e ↦
      let (q, g) = complete_each_returns cqes (complete p cqe address) (unfold complete in h) in
      (q, complete_each_step cqe cqes p address e f ∙ g)
]

pub poll_of_complete_each :
    (now : ℕ) (cqes : List Cqe) (p q : Polled)
    → complete_each cqes p ≡ some q
    → poll now cqes p ≡ some (expire_timers now q)
unfolding poll
poll_of_complete_each now cqes p q e = ground (arith, e)

-- If the map of pending requests is in order and each completion is that of a pending request, `poll` comes
-- to an end; then the number of ready handles has grown by as much as the map has shrunk.
pub poll_returns :
    (now : ℕ) (cqes : List Cqe) (p : Polled)
    → IsSorted p.scheduler.io_index2req
    → AllPending cqes p.scheduler.io_index2req
    → (p' : Polled) × (poll now cqes p ≡ some p') × (known p' ≡ known p)
poll_returns now cqes p s h =
    let (q, e) = complete_each_returns cqes p h in
    let returned = poll_of_complete_each now cqes p q e in
    (expire_timers now q, returned, (known-poll now cqes p s returned).0)
