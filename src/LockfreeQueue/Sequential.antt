-- ===== src/LockfreeQueue/Sequential.antt =====
-- The queue called from one thread, beside the list of its elements.
use co_uring_web.Prelude.{
  ℕ, suc, ◌+◌, ◌/◌, ◌%◌, ◌<◌, true, false, List, [], ◌∷◌, ◌++◌, some, ◌==◌, ◌≡◌, ◌≢◌, refl, arith,
  length, get_elem?, length-append, get_elem?-append_left, get_elem?-append_length, drop, ◌∙◌,
  dec_lt, Bool-cases, ◌⊎◌, inl, inr, ==_iff,
}
use mathlib.Core.List.{head?}
use native.Mathlib.Nat.{mod-eq_of_lt, div-add-mod, add-mod_right, add-zero}
use co_uring_web.LockfreeQueue.{Queue, create, u32_mod, update, count2index, is_full, push, pop}

-- Counts less than one capacity apart have different slots.
pub mod-ne_of_near : (n j w : ℕ) → j < w → w < j + n → j % n ≢ w % n
mod-ne_of_near n j w h k e = elim (dec_lt (j / n) (w / n)) [
  | yes p ↦ grind (arith, div-add-mod j n, div-add-mod w n)
  | no p ↦ grind (arith, div-add-mod j n, div-add-mod w n)
]

module _ {ℓ} {T : Type ℓ} where
  -- The elements `xs` lie in the slots from the read counter to the write counter.
  pub record Holds (q : Queue T) (xs : List T) : Type ℓ where
    pub count : q.read_index + length xs ≡ q.write_index
    pub room : length xs < q.capicity
    pub no_wrap : q.write_index < u32_mod
    pub stored :
        (i : ℕ) → i < length xs → get_elem? xs i ≡ some (q.slots (count2index q (q.read_index + i)))

  pub create-Holds : (n : ℕ) (memory : ℕ → T) → 0 < n → Holds (create n memory) []
  unfolding create
  create-Holds n memory h = record {
    count = refl;
    room = h;
    no_wrap = omega arith;
    stored = λ i k. absurd (omega arith);
  }

  -- The test of `push` is exact while the counters do not wrap.
  pub is_full_iff :
      (q : Queue T) (xs : List T)
      → Holds q xs
      → q.write_index + 1 < u32_mod
      → is_full q q.write_index ≡ (length xs + 1 == q.capicity)
  is_full_iff q xs h small =
      let next : (q.write_index + 1) % u32_mod ≡ q.write_index + 1 = mod-eq_of_lt small in
      elim (Bool-cases (length xs + 1 == q.capicity)) [
        | inl e ↦
            let round : q.write_index + 1 ≡ q.read_index + q.capicity =
              omega (arith, h.count, (==_iff (length xs + 1) q.capicity).0 e) in
            ground (arith, next, round, add-mod_right q.read_index q.capicity)
        | inr e ↦ ground (
          arith,
          next,
          h.count,
          h.room,
          mod-ne_of_near q.capicity q.read_index (q.write_index + 1),
        )
      ]

  stored-update :
      (q : Queue T) (xs : List T) (v : T)
      → Holds q xs
      → (i : ℕ) → i < length (xs ++ v ∷ [])
      → get_elem? (xs ++ v ∷ []) i
        ≡ some (update q.slots (q.write_index % q.capicity) v ((q.read_index + i) % q.capicity))
  stored-update q xs v h i k = elim (dec_lt i (length xs)) [
    | yes p ↦ ground (
      arith,
      get_elem?-append_left xs (v ∷ []) i p,
      h.stored i p,
      h.count,
      h.room,
      mod-ne_of_near q.capicity (q.read_index + i) q.write_index,
    )
    | no p ↦
        let last : i ≡ length xs = omega (arith, length-append xs (v ∷ [])) in
        rw last (ground (arith, h.count, get_elem?-append_length xs v))
  ]

  -- On a queue whose counters have not wrapped and whose write counter is below 2 ^ 32 - 1, `push` fails
  -- exactly when one slot is free, with no effect; otherwise it adds the element at the end.
  pub push_lem :
      (q : Queue T) (xs : List T) (v : T)
      → Holds q xs
      → q.write_index + 1 < u32_mod
      → ((length xs + 1 ≡ q.capicity) × (push q v ≡ (false, q)))
        ⊎ ((length xs + 1 < q.capicity) × ((push q v).0 ≡ true) × Holds (push q v).1 (xs ++ v ∷ []))
  unfolding push
  push_lem q xs v h small = elim (Bool-cases (length xs + 1 == q.capicity)) [
    | inl e ↦
        rw (is_full_iff q xs h small ∙ e) (inl ((==_iff (length xs + 1) q.capicity).0 e, refl))
    | inr e ↦ rw (is_full_iff q xs h small ∙ e) (
        inr (
          fits e,
          refl,
          record {
            count = omega (arith, h.count, length-append xs (v ∷ []));
            room = omega (arith, fits e, length-append xs (v ∷ []));
            no_wrap = omega arith;
            stored = stored-update q xs v h;
          },
        ))
  ]
    where
      fits : (length xs + 1 == q.capicity) ≡ false → length xs + 1 < q.capicity
      fits e = ground (arith, h.room)

  -- On a queue whose counters have not wrapped, `pop` fails exactly where there is no element, and
  -- otherwise takes the oldest one.
  pub pop_lem :
      (q : Queue T) (xs : List T)
      → Holds q xs
      → ((pop q).0 ≡ head? xs) × Holds (pop q).1 (drop 1 xs)
  unfolding pop
  pop_lem q [] h =
      let e : q.read_index ≡ q.write_index = omega (arith, h.count) in
      rw ((==_iff q.read_index q.write_index).1 e) (refl, h)
  pop_lem q (x ∷ xs) h =
      let ne : (q.read_index == q.write_index) ≡ false = ground (arith, h.count) in
      rw ne (
        ground (arith, h.stored 0, add-zero q.read_index),
        record {
          count = omega (arith, h.count, h.no_wrap);
          room = omega (arith, h.room);
          no_wrap = h.no_wrap;
          stored = λ i k.
              let step : (q.read_index + 1) % u32_mod + i ≡ q.read_index + suc i =
                omega (arith, h.count, h.no_wrap) in
              rw step (h.stored (suc i) (omega arith));
        },
      )
