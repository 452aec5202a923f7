-- ===== src/LockfreeQueue/Threads/Inv.antt =====
-- The invariant of the queue under every schedule, and that each step of the producer keeps it.
use co_uring_web.Prelude.{
  ℕ, ◌+◌, ◌<◌, ◌≤◌, List, some, ◌==◌, ◌≡◌, refl, arith, length, get_elem?, Bool-cases, inl, inr,
  take,
}
use co_uring_web.LockfreeQueue.{Queue, create, u32_mod, update, count2index}
use co_uring_web.LockfreeQueue.Threads.{
  Producer, resting, loaded, checked, written, Consumer, waiting, started, nonempty, copied, System,
  start, set_consumer,
}

module _ {ℓ} {T : Type ℓ} where
  -- What the producer knows in each state of its call.
  abbrev pub IndexInv : Queue T → Producer T → Type 0
  IndexInv q resting = Unit
  IndexInv q (loaded v w) = w ≡ q.write_index
  IndexInv q (checked v w) = (w ≡ q.write_index) × (w + 1 < q.read_index + q.capicity)
  IndexInv q (written v w) = (w ≡ q.write_index) × (w + 1 < q.read_index + q.capicity)

  abbrev pub SlotInv : Queue T → Producer T → Type ℓ
  SlotInv q (written v w) = q.slots (count2index q w) ≡ v
  SlotInv q _ = Unit

  -- What a consumer knows in each state of its round.
  abbrev pub CountInv : Queue T → Consumer T → Type 0
  CountInv q waiting = Unit
  CountInv q (started r) = r ≤ q.read_index
  CountInv q (nonempty r) = (r ≤ q.read_index) × (r < q.write_index)
  CountInv q (copied r v) = (r ≤ q.read_index) × (r < q.write_index)

  -- A copy is right if no other consumer has come first.
  abbrev pub CopyInv : Queue T → List T → Consumer T → Type ℓ
  CopyInv q pushed (copied r v) = r ≡ q.read_index → get_elem? pushed r ≡ some v
  CopyInv q pushed _ = Unit

  pub record QueueInv (q : Queue T) (pushed popped : List T) : Type ℓ where
    pub write_is : q.write_index ≡ length pushed
    pub read_is : q.read_index ≡ length popped
    pub read_le : q.read_index ≤ q.write_index
    pub room : q.write_index < q.read_index + q.capicity
    pub no_wrap : q.write_index < u32_mod
    pub in_front : popped ≡ take q.read_index pushed
    pub stored :
        (j : ℕ)
        → q.read_index ≤ j
        → j < q.write_index
        → get_elem? pushed j ≡ some (q.slots (count2index q j))

  pub record Inv (s : System T) : Type ℓ where
    pub core : QueueInv s.queue s.pushed s.popped
    pub index_inv : IndexInv s.queue s.producer
    pub slot_inv : SlotInv s.queue s.producer
    pub count_inv : (c : ℕ) → CountInv s.queue (s.consumers c)
    pub copy_inv : (c : ℕ) → CopyInv s.queue s.pushed (s.consumers c)

  pub at_update {κ} :
      (c d : ℕ) (P : Consumer T → Type κ) (f : ℕ → Consumer T) {state : Consumer T}
      → P state
      → P (f d)
      → P (update f c state d)
  at_update c d P f h k = elim (Bool-cases (c == d)) [ inl e ↦ rw e h | inr e ↦ rw e k ]

  pub start-Inv : (n : ℕ) (memory : ℕ → T) → 0 < n → Inv (start n memory)
  unfolding start create
  start-Inv n memory h = record {
    core = record {
      write_is = refl;
      read_is = refl;
      read_le = omega arith;
      room = omega arith;
      no_wrap = omega arith;
      in_front = refl;
      stored = λ j l k. absurd (omega arith);
    };
    index_inv = tt;
    slot_inv = tt;
    count_inv = λ c. tt;
    copy_inv = λ c. tt;
  }

  -- A step that only moves the producer on.
  pub with_producer :
      (s : System T) (p : Producer T)
      → Inv s
      → IndexInv s.queue p
      → SlotInv s.queue p
      → Inv (record s { producer = p })
  with_producer s p h i l = record {
    core = h.core;
    index_inv = i;
    slot_inv = l;
    count_inv = h.count_inv;
    copy_inv = h.copy_inv;
  }

  -- A step that only moves one consumer on.
  pub set_consumer-Inv :
      (s : System T) (c : ℕ) (state : Consumer T)
      → Inv s
      → CountInv s.queue state
      → CopyInv s.queue s.pushed state
      → Inv (set_consumer s c state)
  set_consumer-Inv s c state h n l = record {
    core = h.core;
    index_inv = h.index_inv;
    slot_inv = h.slot_inv;
    count_inv = λ d. at_update c d (CountInv s.queue) s.consumers n (h.count_inv d);
    copy_inv = λ d. at_update c d (CopyInv s.queue s.pushed) s.consumers l (h.copy_inv d);
  }

  -- Counters that only grow keep what a consumer knows of them.
  pub same_counts :
      (q q' : Queue T) (c : Consumer T)
      → q.read_index ≤ q'.read_index
      → q.write_index ≤ q'.write_index
      → CountInv q c
      → CountInv q' c
  same_counts q q' waiting r w h = tt
  same_counts q q' (started i) r w h = omega arith
  same_counts q q' (nonempty i) r w h = omega arith
  same_counts q q' (copied i v) r w h = omega arith
