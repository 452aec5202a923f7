-- ===== src/LockfreeQueue/Threads/Fifo.antt =====
-- Under every schedule the consumers together receive the pushed elements in order, each once.
use co_uring_web.Prelude.{
  ℕ, ◌+◌, ◌<◌, ◌≤◌, List, [], ◌∷◌, ◌++◌, ◌≡◌, refl, sym, arith, length, length-append, ◌∙◌, drop,
  take-append-drop, length-drop,
}
use co_uring_web.LockfreeQueue.{create, u32_mod}
use co_uring_web.LockfreeQueue.Threads.{
  Producer, resting, written, Consumer, copied, System, Action, call_push, producer, consumer,
  start, begin_push, push_step, pop_step, step, run,
}
use co_uring_web.LockfreeQueue.Threads.Inv.{Inv, start-Inv}
use co_uring_web.LockfreeQueue.Threads.Push.{begin_push-Inv, push_step-Inv}
use co_uring_web.LockfreeQueue.Threads.Pop.{pop_step-Inv}

module _ {ℓ} {T : Type ℓ} where
  step-Inv : (s : System T) (a : Action T) → Inv s → length s.pushed + 1 < u32_mod → Inv (step s a)
  unfolding step
  step-Inv s (call_push v) h small = begin_push-Inv s v s.producer h
  step-Inv s producer h small = push_step-Inv s s.producer h h.index_inv h.slot_inv small
  step-Inv s (consumer c) h small =
      pop_step-Inv s c (s.consumers c) h (h.count_inv c) (h.copy_inv c)

  length-begin_push :
      (s : System T) (v : T) (p : Producer T) → length s.pushed ≤ length (begin_push s v p).pushed
  unfolding begin_push
  length-begin_push s v resting = omega arith
  length-begin_push s v _ = omega arith

  length-push_step :
      (s : System T) (p : Producer T) → length s.pushed ≤ length (push_step s p).pushed
  unfolding push_step
  length-push_step s (written v w) = omega (arith, length-append s.pushed (v ∷ []))
  length-push_step s _ = omega arith

  length-pop_step :
      (s : System T) (c : ℕ) (state : Consumer T)
      → length s.pushed ≤ length (pop_step s c state).pushed
  unfolding pop_step
  length-pop_step s c (copied r v) = ground arith
  length-pop_step s c _ = omega arith

  length-step : (s : System T) (a : Action T) → length s.pushed ≤ length (step s a).pushed
  unfolding step
  length-step s (call_push v) = length-begin_push s v s.producer
  length-step s producer = length-push_step s s.producer
  length-step s (consumer c) = length-pop_step s c (s.consumers c)

  length-run : (s : System T) (l : List (Action T)) → length s.pushed ≤ length (run s l).pushed
  unfolding run
  length-run s [] = omega arith
  length-run s (a ∷ l) = omega (arith, length-step s a, length-run (step s a) l)

  capicity-step : (s : System T) (a : Action T) → (step s a).queue.capicity ≡ s.queue.capicity
  unfolding step
  capicity-step s (call_push v) = of_begin s.producer
    where
      of_begin : (p : Producer T) → (begin_push s v p).queue.capicity ≡ s.queue.capicity
      of_begin resting = refl
      of_begin _ = refl
  capicity-step s producer = of_push s.producer
    where
      of_push : (p : Producer T) → (push_step s p).queue.capicity ≡ s.queue.capicity
      of_push resting = refl
      of_push _ = refl
  capicity-step s (consumer c) = of_pop (s.consumers c)
    where
      of_pop : (state : Consumer T) → (pop_step s c state).queue.capicity ≡ s.queue.capicity
      of_pop (copied r v) = ground arith
      of_pop _ = refl

  capicity-run : (s : System T) (l : List (Action T)) → (run s l).queue.capicity ≡ s.queue.capicity
  unfolding run
  capicity-run s [] = refl
  capicity-run s (a ∷ l) = capicity-run (step s a) l ∙ capicity-step s a

  capicity-start : (n : ℕ) (memory : ℕ → T) → (start n memory).queue.capicity ≡ n
  unfolding start create
  capicity-start n memory = refl

  pub run-Inv :
      (s : System T) (l : List (Action T))
      → Inv s
      → length (run s l).pushed + 1 < u32_mod
      → Inv (run s l)
  unfolding run
  run-Inv s [] h small = h
  run-Inv s (a ∷ l) h small =
      run-Inv (step s a) l
        (step-Inv s a h (omega (arith, length-step s a, length-run (step s a) l))) small

  -- Under every schedule, as long as the counters do not wrap, the elements that consumers have
  -- taken are the first of those pushed, in order, and fewer than the capacity are outstanding.
  pub run_fifo :
      (n : ℕ) (memory : ℕ → T) (l : List (Action T))
      → 0 < n
      → length (run (start n memory) l).pushed + 1 < u32_mod
      → (rest : List T) × ((run (start n memory) l).pushed
          ≡ (run (start n memory) l).popped ++ rest)
        × (length rest < n)
  run_fifo n memory l pos small =
      let s = run (start n memory) l in
      let h = (run-Inv (start n memory) l (start-Inv n memory pos) small).core in
      (
        drop s.queue.read_index s.pushed,
        rw h.in_front (sym (take-append-drop s.queue.read_index s.pushed)),
        omega (
          arith,
          capicity-run (start n memory) l ∙ capicity-start n memory,
          h.room,
          h.write_is,
          length-drop s.queue.read_index s.pushed,
        ),
      )
