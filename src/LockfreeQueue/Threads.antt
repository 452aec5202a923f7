-- ===== src/LockfreeQueue/Threads.antt =====
-- One producer and any number of consumers on a `LockfreeQueue`. A step is one atomic load, store
-- or `compare_exchange`, or the copy of one element, in sequentially consistent order; a schedule
-- is any sequence of steps. `pushed` and `popped` record the elements of the completed calls, and
-- nothing reads them.
pub mod Inv
pub mod Push
pub mod Pop
pub mod Fifo
pub mod Solo
mod Tests
use co_uring_web.Prelude.{ℕ, ◌+◌, ◌%◌, Bool, true, false, List, [], ◌∷◌, ◌++◌, ◌==◌, if◌then◌else◌}
use co_uring_web.LockfreeQueue.{Queue, create, u32_mod, update, count2index, is_full}

-- Where a thread is in its call, with its local variables.
pub data Producer {ℓ} (T : Type ℓ) : Type ℓ where
  -- outside `push`
  resting : Producer T
  -- `currentWriteIndex` is loaded
  loaded : T → ℕ → Producer T
  -- the queue was found not to be full
  checked : T → ℕ → Producer T
  -- the element is written to its slot
  written : T → ℕ → Producer T

pub data Consumer {ℓ} (T : Type ℓ) : Type ℓ where
  -- outside `pop`, or at the start of a round
  waiting : Consumer T
  -- `currentReadIndex` is loaded
  started : ℕ → Consumer T
  -- the queue was found not to be empty
  nonempty : ℕ → Consumer T
  -- `data` holds a copy of the slot
  copied : ℕ → T → Consumer T

pub record System {ℓ} (T : Type ℓ) : Type ℓ where
  pub queue : Queue T
  pub producer : Producer T
  pub consumers : ℕ → Consumer T
  pub pushed : List T
  pub popped : List T

pub data Action {ℓ} (T : Type ℓ) : Type ℓ where
  -- the producer calls `push`, if it is resting
  call_push : T → Action T
  -- the producer goes on with its call
  producer : Action T
  -- the consumer of this number goes on, or calls `pop`
  consumer : ℕ → Action T

module _ {ℓ} {T : Type ℓ} where
  pub start : ℕ → (ℕ → T) → System T
  start capicity memory = record {
    queue = create capicity memory;
    producer = resting;
    consumers = λ _. waiting;
    pushed = [];
    popped = [];
  }

  pub begin_push : System T → T → Producer T → System T
  begin_push s value resting = record s { producer = loaded value s.queue.write_index }
  begin_push s value _ = s

  -- The steps of `push`, behind its first load.
  pub push_step : System T → Producer T → System T
  push_step s resting = s
  push_step s (loaded value w) = record s {
    producer = if is_full s.queue w then resting else checked value w;
  }
  push_step s (checked value w) = record s {
    queue = record (s.queue) { slots = update s.queue.slots (count2index s.queue w) value };
    producer = written value w;
  }
  push_step s (written value w) = record s {
    queue = record (s.queue) { write_index = (s.queue.write_index + 1) % u32_mod };
    producer = resting;
    pushed = s.pushed ++ value ∷ [];
  }

  abbrev pub set_consumer : System T → ℕ → Consumer T → System T
  set_consumer s c state = record s { consumers = update s.consumers c state }

  -- The steps of a round of `pop`.
  pub pop_step : System T → ℕ → Consumer T → System T
  pop_step s c waiting = set_consumer s c (started s.queue.read_index)
  pop_step s c (started r) =
      set_consumer s c (if r == s.queue.write_index then waiting else nonempty r)
  pop_step s c (nonempty r) = set_consumer s c (copied r (s.queue.slots (count2index s.queue r)))
  pop_step s c (copied r value) =
      if s.queue.read_index == r
      then record s {
        queue = record (s.queue) { read_index = (r + 1) % u32_mod };
        consumers = update s.consumers c waiting;
        popped = s.popped ++ value ∷ [];
      }
      else set_consumer s c waiting

  pub step : System T → Action T → System T
  unfolding begin_push push_step pop_step
  step s (call_push value) = begin_push s value s.producer
  step s producer = push_step s s.producer
  step s (consumer c) = pop_step s c (s.consumers c)

  pub run : System T → List (Action T) → System T
  run s [] = s
  run s (a ∷ schedule) = run (step s a) schedule
