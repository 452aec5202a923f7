-- ===== src/Epoll/Expired.antt =====
-- The requests whose time is over.
use co_uring_web.Prelude.{
  ℕ, Option, none, some, List, [], ◌∷◌, ◌++◌, append-nil, append_assoc, ◌≡◌, refl, sym, ap, ◌∙◌,
  arith, Option-cases, inl, inr,
}
use co_uring_web.Prelude.OrdMap.{Map, find}
use co_uring_web.Prelude.Keys.{nat_key}
use co_uring_web.Timer.{pop_expired}
use co_uring_web.Uring.{Memory, set_ret_code}
use co_uring_web.Epoll.{Kernel, EpollScheduler, State, done, minus_one}
use co_uring_web.Epoll.Poll.{events, expire_each, hand_out, poll}

-- The handles of the requests that are pending under the given numbers.
abbrev pub listed : Option ℕ → Memory → List ℕ → List ℕ
listed none memory handles = handles
listed (some address) memory handles = (memory address).context ∷ handles

abbrev pub contexts : List ℕ → Memory → Map ℕ ℕ → List ℕ
contexts [] memory m = []
contexts (id ∷ ids) memory m = listed (find id m) memory (contexts ids memory m)

listed-set_ret_code :
    (o : Option ℕ) (memory : Memory) (address code : ℕ) (handles : List ℕ)
    → listed o (set_ret_code memory address code) handles ≡ listed o memory handles
listed-set_ret_code none memory address code handles = refl
listed-set_ret_code (some a) memory address code handles = ap (λ c. c ∷ handles) (ground arith)

contexts-set_ret_code :
    (ids : List ℕ) (memory : Memory) (m : Map ℕ ℕ) (address code : ℕ)
    → contexts ids (set_ret_code memory address code) m ≡ contexts ids memory m
contexts-set_ret_code [] memory m address code = refl
contexts-set_ret_code (id ∷ ids) memory m address code =
    listed-set_ret_code (find id m) memory address code
      (contexts ids (set_ret_code memory address code) m)
    ∙ ap (listed (find id m) memory) (contexts-set_ret_code ids memory m address code)

module _ {W : Type 0} (kernel : Kernel W) where
  expire_each-contexts :
      (ids : List ℕ) (memory : Memory) (s : EpollScheduler) (ready : List ℕ)
      → (expire_each kernel ids memory s ready).1 ≡ ready ++ contexts ids memory s.io_index2req
  unfolding expire_each
  expire_each-contexts [] memory s ready = sym (append-nil ready)
  expire_each-contexts (id ∷ ids) memory s ready = elim (Option-cases (find id s.io_index2req)) [
    | inl e ↦ rw (e, expire_each) (expire_each-contexts ids memory s ready)
    | inr (address, e) ↦
        let handle = (memory address).context in
        let later = set_ret_code memory address minus_one in
        rw (e, expire_each)
          (expire_each-contexts ids later s (ready ++ handle ∷ [])
            ∙ append_assoc ready (handle ∷ []) (contexts ids later s.io_index2req)
            ∙ ap (λ handles. ready ++ handle ∷ handles)
                (contexts-set_ret_code ids memory s.io_index2req address minus_one))
  ]

  -- Without events poll hands out the handles that waited, and leaves the map as it is. The handles of
  -- the requests whose time is over wait behind `ready` for the next call.
  pub poll_keeps_expired :
      (now : ℕ) (s : State W) (ready : List ℕ) (world : W)
      → kernel.epoll_wait s.world ≡ ([], world)
      → (s' : State W) × (poll kernel now s ready ≡ done (s', s.scheduler.completed_handle_addrs))
        × (s'.scheduler.io_index2req ≡ s.scheduler.io_index2req)
        × (s'.scheduler.completed_handle_addrs
            ≡ ready
              ++ contexts
                  (pop_expired now s.scheduler.timer_queue []).0
                  s.memory
                  s.scheduler.io_index2req)
  unfolding poll events hand_out
  poll_keeps_expired now s ready world e =
      let s0 = record s { world = world } in
      (
        (hand_out kernel now s0 ready).0,
        rw e refl,
        refl,
        expire_each-contexts (pop_expired now s.scheduler.timer_queue []).0 s.memory s.scheduler
            ready,
      )
