-- ===== src/LockfreeQueue/Threads/Pop.antt =====
-- Each step of a consumer keeps the invariant of the concurrent queue.
use co_uring_web.Prelude.{
  ℕ, suc, ◌+◌, ◌%◌, ◌<◌, ◌≤◌, List, [], ◌∷◌, ◌++◌, some, ◌==◌, ◌≡◌, refl, sym, ap, arith, get_elem?,
  length-append, Bool-cases, inl, inr, ==_iff, ◌∙◌, take-suc,
}
use co_uring_web.LockfreeQueue.{Queue, u32_mod, update, count2index}
use co_uring_web.LockfreeQueue.Threads.{
  Producer, resting, loaded, checked, written, Consumer, waiting, started, nonempty, copied, System,
  pop_step,
}
use co_uring_web.LockfreeQueue.Threads.Inv.{
  IndexInv, SlotInv, CountInv, CopyInv, QueueInv, Inv, set_consumer-Inv, same_counts, at_update,
}

module _ {ℓ} {T : Type ℓ} where
  taken :
      (q : Queue T) (pushed popped : List T) (v : T)
      → QueueInv q pushed popped
      → q.read_index < q.write_index
      → get_elem? pushed q.read_index ≡ some v
      → QueueInv (record q { read_index = (q.read_index + 1) % u32_mod }) pushed (popped ++ v ∷ [])
  taken q pushed popped v h k e =
      let next : (q.read_index + 1) % u32_mod ≡ suc q.read_index = omega (arith, h.no_wrap) in
      record {
        write_is = h.write_is;
        read_is = omega (arith, h.read_is, length-append popped (v ∷ []));
        read_le = omega arith;
        room = omega (arith, h.room);
        no_wrap = h.no_wrap;
        in_front =
            rw next (ap (λ l. l ++ v ∷ []) h.in_front ∙ sym (take-suc q.read_index pushed e));
        stored = λ j l m. h.stored j (omega arith) m;
      }

  -- Once the read counter has moved on, every copy in progress is out of date.
  late_copy :
      (q q' : Queue T) (pushed : List T) (c : Consumer T)
      → q.read_index < q'.read_index
      → CountInv q c
      → CopyInv q' pushed c
  late_copy q q' pushed (copied i v) l k = λ e. absurd (omega arith)
  late_copy q q' pushed _ l k = tt

  -- With a lower read counter the producer's room only grows.
  same_index :
      (q q' : Queue T) (p : Producer T)
      → q.read_index ≤ q'.read_index
      → q.write_index ≡ q'.write_index
      → q.capicity ≡ q'.capicity
      → IndexInv q p
      → IndexInv q' p
  same_index q q' resting r w c h = tt
  same_index q q' (loaded v i) r w c h = omega arith
  same_index q q' (checked v i) r w c h = omega arith
  same_index q q' (written v i) r w c h = omega arith

  same_slot :
      (q : Queue T) (r : ℕ) (p : Producer T) → SlotInv q p → SlotInv (record q { read_index = r }) p
  same_slot q r (written v i) h = h
  same_slot q r _ h = tt

  pop_win-Inv :
      (s : System T) (c : ℕ) (v : T)
      → Inv s
      → s.queue.read_index < s.queue.write_index
      → get_elem? s.pushed s.queue.read_index ≡ some v
      → Inv (record s {
        queue = record (s.queue) { read_index = (s.queue.read_index + 1) % u32_mod };
        consumers = update s.consumers c waiting;
        popped = s.popped ++ v ∷ [];
      })
  pop_win-Inv s c v h k e =
      let q' = record (s.queue) { read_index = (s.queue.read_index + 1) % u32_mod } in
      let grows : s.queue.read_index < q'.read_index = omega (arith, h.core.no_wrap) in
      record {
        core = taken s.queue s.pushed s.popped v h.core k e;
        index_inv = same_index s.queue q' s.producer (omega arith) refl refl h.index_inv;
        slot_inv = same_slot s.queue q'.read_index s.producer h.slot_inv;
        count_inv = λ d.
            at_update c d (CountInv q') s.consumers tt
              (same_counts s.queue q' (s.consumers d) (omega arith) (omega arith) (h.count_inv d));
        copy_inv = λ d.
            at_update c d (CopyInv q' s.pushed) s.consumers tt
              (late_copy s.queue q' s.pushed (s.consumers d) grows (h.count_inv d));
      }

  -- Each step of a consumer keeps the invariant.
  pub pop_step-Inv :
      (s : System T) (c : ℕ) (state : Consumer T)
      → Inv s
      → CountInv s.queue state
      → CopyInv s.queue s.pushed state
      → Inv (pop_step s c state)
  unfolding pop_step
  pop_step-Inv s c waiting h k l =
      set_consumer-Inv s c (started s.queue.read_index) h (omega arith) tt
  pop_step-Inv s c (started r) h k l = elim (Bool-cases (r == s.queue.write_index)) [
    | inl e ↦ rw e (set_consumer-Inv s c waiting h tt tt)
    | inr e ↦ rw e (set_consumer-Inv s c (nonempty r) h (ground (arith, h.core.read_le)) tt)
  ]
  pop_step-Inv s c (nonempty r) h k l =
      set_consumer-Inv s c (copied r (s.queue.slots (count2index s.queue r))) h k
        (λ e. h.core.stored r (omega arith) k.1)
  pop_step-Inv s c (copied r v) h k l = elim (Bool-cases (s.queue.read_index == r)) [
    | inl e ↦
        let same : s.queue.read_index ≡ r = (==_iff s.queue.read_index r).0 e in
        rw (e, ← same) (pop_win-Inv s c v h (omega arith) (rw same (l (sym same))))
    | inr e ↦ rw e (set_consumer-Inv s c waiting h tt tt)
  ]
