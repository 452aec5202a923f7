-- ===== src/LockfreeQueue/Threads/Push.antt =====
-- Each step of the producer keeps the invariant of the concurrent queue.
use co_uring_web.Prelude.{
  ℕ, ◌+◌, ◌%◌, ◌<◌, false, List, [], ◌∷◌, ◌++◌, some, ◌≡◌, refl, sym, ap, arith, length,
  length-append, dec_lt, Bool-cases, inl, inr, ◌∙◌, get_elem?-append_left, get_elem?-append_length,
  take-append_left,
}
use native.Mathlib.Nat.{mod-eq_of_lt, add-mod_right}
use co_uring_web.LockfreeQueue.{Queue, u32_mod, update, count2index, is_full}
use co_uring_web.LockfreeQueue.Sequential.{mod-ne_of_near}
use co_uring_web.LockfreeQueue.Threads.{
  Producer, resting, loaded, checked, written, Consumer, copied, System, begin_push, push_step,
}
use co_uring_web.LockfreeQueue.Threads.Inv.{
  IndexInv, SlotInv, CountInv, CopyInv, QueueInv, Inv, with_producer, same_counts,
}

module _ {ℓ} {T : Type ℓ} where
  pub begin_push-Inv : (s : System T) (v : T) (p : Producer T) → Inv s → Inv (begin_push s v p)
  unfolding begin_push
  begin_push-Inv s v resting h = with_producer s (loaded v s.queue.write_index) h refl tt
  begin_push-Inv s v _ h = h

  -- The test against a read counter that is at most the present one leaves room for the element.
  room_of_not_full :
      (q : Queue T) (pushed popped : List T)
      → QueueInv q pushed popped
      → q.write_index + 1 < u32_mod
      → is_full q q.write_index ≡ false
      → q.write_index + 1 < q.read_index + q.capicity
  room_of_not_full q pushed popped h small f =
      elim (dec_lt (q.write_index + 1) (q.read_index + q.capicity)) [
        | yes p ↦ p
        | no p ↦
            let round : q.write_index + 1 ≡ q.read_index + q.capicity = omega (arith, h.room) in
            absurd
              (ground (arith, mod-eq_of_lt small, round, add-mod_right q.read_index q.capicity))
      ]

  push_check-Inv :
      (s : System T) (v : T) (w : ℕ)
      → Inv s
      → w ≡ s.queue.write_index
      → length s.pushed + 1 < u32_mod
      → Inv (push_step s (loaded v w))
  unfolding push_step
  push_check-Inv s v w h e small = elim (Bool-cases (is_full s.queue w)) [
    | inl f ↦ rw f (with_producer s resting h tt tt)
    | inr f ↦ rw f (
        with_producer s (checked v w) h
          (
            e,
            rw e (
                room_of_not_full s.queue s.pushed s.popped h.core (omega (arith, h.core.write_is))
                  (rw e at f)),
          )
          tt)
  ]

  stored-update :
      (q : Queue T) (pushed popped : List T) (v : T) (w : ℕ)
      → QueueInv q pushed popped
      → w ≡ q.write_index
      → QueueInv (record q { slots = update q.slots (count2index q w) v }) pushed popped
  stored-update q pushed popped v w h e = record {
    write_is = h.write_is;
    read_is = h.read_is;
    read_le = h.read_le;
    room = h.room;
    no_wrap = h.no_wrap;
    in_front = h.in_front;
    stored =
        λ j l k. ground (arith, h.stored j l k, mod-ne_of_near q.capicity j w, h.room, h.read_le);
  }

  slots_copy :
      (q q' : Queue T) (pushed : List T) (c : Consumer T)
      → q.read_index ≡ q'.read_index
      → CopyInv q pushed c
      → CopyInv q' pushed c
  slots_copy q q' pushed (copied i v) e h = λ f. h (f ∙ sym e)
  slots_copy q q' pushed _ e h = tt

  push_store-Inv :
      (s : System T) (v : T) (w : ℕ)
      → Inv s
      → (w ≡ s.queue.write_index) × (w + 1 < s.queue.read_index + s.queue.capicity)
      → Inv (push_step s (checked v w))
  unfolding push_step
  push_store-Inv s v w h e =
      let q' = record (s.queue) { slots = update s.queue.slots (count2index s.queue w) v } in
      record {
        core = stored-update s.queue s.pushed s.popped v w h.core e.0;
        index_inv = e;
        slot_inv = ground arith;
        count_inv =
            λ c. same_counts s.queue q' (s.consumers c) (omega arith) (omega arith) (h.count_inv c);
        copy_inv = λ c. slots_copy s.queue q' s.pushed (s.consumers c) refl (h.copy_inv c);
      }

  published :
      (q : Queue T) (pushed popped : List T) (v : T)
      → QueueInv q pushed popped
      → q.write_index + 1 < q.read_index + q.capicity
      → q.slots (count2index q q.write_index) ≡ v
      → q.write_index + 1 < u32_mod
      → QueueInv
          (record q { write_index = (q.write_index + 1) % u32_mod })
          (pushed ++ v ∷ [])
          popped
  published q pushed popped v h room slot small = record {
    write_is = omega (arith, h.write_is, length-append pushed (v ∷ []));
    read_is = h.read_is;
    read_le = omega (arith, h.read_le);
    room = omega arith;
    no_wrap = omega arith;
    in_front =
        h.in_front
        ∙ sym
            (take-append_left q.read_index pushed (v ∷ []) (omega (arith, h.read_le, h.write_is)));
    stored = λ j l k. elim (dec_lt j q.write_index) [
      | yes p ↦ get_elem?-append_left pushed (v ∷ []) j (omega (arith, h.write_is)) ∙ h.stored j l p
      | no p ↦
          let last : j ≡ q.write_index = omega arith in
          rw last (rw (h.write_is, get_elem?-append_length) (ap some (rw h.write_is at (sym slot))))
    ];
  }

  longer_copy :
      (q q' : Queue T) (pushed : List T) (v : T) (c : Consumer T)
      → q.read_index ≡ q'.read_index
      → q.write_index ≡ length pushed
      → CountInv q c
      → CopyInv q pushed c
      → CopyInv q' (pushed ++ v ∷ []) c
  longer_copy q q' pushed v (copied i d) e n k h =
      λ f. get_elem?-append_left pushed (v ∷ []) i (omega arith) ∙ h (f ∙ sym e)
  longer_copy q q' pushed v _ e n k h = tt

  push_publish-Inv :
      (s : System T) (v : T) (w : ℕ)
      → Inv s
      → (w ≡ s.queue.write_index) × (w + 1 < s.queue.read_index + s.queue.capicity)
      → s.queue.slots (count2index s.queue w) ≡ v
      → length s.pushed + 1 < u32_mod
      → Inv (push_step s (written v w))
  unfolding push_step
  push_publish-Inv s v w h e slot small =
      let q' = record (s.queue) { write_index = (s.queue.write_index + 1) % u32_mod } in
      record {
        core =
            published s.queue s.pushed s.popped v h.core (omega arith) (rw e.0 at slot)
              (omega (arith, h.core.write_is));
        index_inv = tt;
        slot_inv = tt;
        count_inv = λ c.
            same_counts s.queue q' (s.consumers c) (omega arith) (omega (arith, h.core.write_is))
              (h.count_inv c);
        copy_inv = λ c.
            longer_copy s.queue q' s.pushed v (s.consumers c) refl h.core.write_is (h.count_inv c)
              (h.copy_inv c);
      }

  -- Each step of the producer keeps the invariant, short of the wrap of the counters.
  pub push_step-Inv :
      (s : System T) (p : Producer T)
      → Inv s
      → IndexInv s.queue p
      → SlotInv s.queue p
      → length s.pushed + 1 < u32_mod
      → Inv (push_step s p)
  push_step-Inv s resting h i l small = unfold push_step in h
  push_step-Inv s (loaded v w) h i l small = push_check-Inv s v w h i small
  push_step-Inv s (checked v w) h i l small = push_store-Inv s v w h i
  push_step-Inv s (written v w) h i l small = push_publish-Inv s v w h i l small
