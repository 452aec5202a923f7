-- ===== src/Logger/Rotate/Loop.antt =====
-- The loop over the numbers moves each log file to the next number.
use co_uring_web.Prelude.{
  ℕ, ◌+◌, ◌-◌, ◌^◌, ◌<◌, ◌≤◌, true, false, none, some, List, [], ◌∷◌, Bytes, All, leb, ◌==◌,
  if◌then◌else◌, ◌≡◌, refl, sym, ap, ◌∙◌, arith, Bool-cases, inl, inr, ==_self,
}
use co_uring_web.Prelude.OrdMap.{Map}
use co_uring_web.Logger.Rotate.{shift, shift_each}
use co_uring_web.Logger.Rotate.Shift.{
  IsDown, All-weaken, file_at, file_at_same, shift_missing, file_at-shift, log-shift, Covers,
  HasShifted, absent, count-above,
}

-- The numbers of files: above 0, and below the last int.
abbrev pub AreNums : List ℕ → Type 0
AreNums = All (λ k. (0 < k) × (k + 1 < 2 ^ 31))

module _ (file_name : Bytes) where
  -- A round for the number `p + 1`, which is the highest, and then the loop below it.
  module _ (b p n : ℕ) (nums : List ℕ) (files : Map Bytes ℕ) (is_next : n ≡ p + 1)
      (small : b + 1 < 2 ^ 31) (in_bound : n ≤ b) (below : All (λ k. k ≤ n) nums)
      (covers : Covers file_name b (n ∷ nums) files)
      (free : file_at file_name (b + 1) files ≡ none) where
    abbrev next : Map Bytes ℕ
    next = shift file_name n files

    above : (k : ℕ) → n < k → k ≤ b + 1 → file_at file_name k files ≡ none
    above k l m =
        absent file_name b files (n ∷ nums) covers free k (omega (arith, l)) m
          (ground (arith, l, count-above file_name k n nums below l))

    moves :
        (k : ℕ)
        → k < 2 ^ 31
        → file_at file_name k next ≡ (
            if (n + 1) == k
            then file_at file_name n files
            else if n == k
            then none
            else file_at file_name k files)
    moves k l =
        file_at-shift file_name k n files l (omega (arith, small, in_bound))
          (above (n + 1) (omega arith) (omega (arith, in_bound)))

    stays :
        (k : ℕ)
        → k < 2 ^ 31
        → ((n + 1) == k) ≡ false
        → (n == k) ≡ false
        → file_at file_name k next ≡ file_at file_name k files
    stays k l i j = moves k l ∙ rw (i, j) refl

    next-Covers : Covers file_name p nums next
    next-Covers k l m =
        let same =
          stays k (omega (arith, is_next, m, small, in_bound)) (ground (arith, is_next, m))
            (ground (arith, is_next, m)) in
        elim (covers k l (omega (arith, is_next, m, in_bound))) [
          | inl a ↦ inl (same ∙ a)
          | inr c ↦ inr (ground (arith, is_next, c, m))
        ]

    next_free : file_at file_name (p + 1) next ≡ none
    next_free =
        let same : (n == (p + 1)) ≡ true = ground (arith, is_next) in
        let i : ((n + 1) == n) ≡ false = ground arith in
        file_at_same file_name n (p + 1) next same
        ∙ moves n (omega (arith, small, in_bound))
        ∙ rw (i, ==_self n) refl

    moves_on :
        (files' : Map Bytes ℕ)
        → HasShifted file_name p next files'
        → (k : ℕ) → 0 < k
        → k ≤ b
        → file_at file_name (k + 1) files' ≡ file_at file_name k files
    moves_on files' h k l m = elim (Bool-cases (leb k p)) [
      | inl i ↦
          let low : k ≤ p = ground (arith, i) in
          h.moved k l low
          ∙ stays k (omega (arith, m, small)) (ground (arith, is_next, low))
              (ground (arith, is_next, low))
      | inr i ↦
          let high : p < k = ground (arith, i) in
          let behind = h.others (k + 1) (omega (arith, is_next, high)) (omega (arith, m, small)) in
          elim (Bool-cases (n == k)) [
            | inl j ↦
                let same : ((n + 1) == (k + 1)) ≡ true = ground (arith, j) in
                behind
                ∙ moves (k + 1) (omega (arith, m, small))
                ∙ rw same (sym (file_at_same file_name n k files j))
            | inr j ↦
                let higher : n < k = ground (arith, is_next, high, j) in
                behind
                ∙ stays (k + 1) (omega (arith, m, small)) (ground (arith, j))
                    (ground (arith, higher))
                ∙ above (k + 1) (omega (arith, higher)) (omega (arith, m))
                ∙ sym (above k higher (omega (arith, m)))
          ]
    ]

    next-HasShifted :
        (files' : Map Bytes ℕ)
        → HasShifted file_name p next files'
        → HasShifted file_name b files files'
    next-HasShifted files' h = record {
      moved = moves_on files' h;
      first = h.first;
      others = λ k l m.
          h.others k (omega (arith, is_next, l, in_bound)) m
          ∙ stays k m (ground (arith, l, in_bound)) (ground (arith, l, in_bound));
      log = h.log ∙ log-shift file_name n files;
    }

  missing_round :
      (b n : ℕ) (nums : List ℕ) (files : Map Bytes ℕ)
      → ((b + 1) == n) ≡ true
      → Covers file_name b (n ∷ nums) files
      → Covers file_name b nums files
  missing_round b n nums files i c k l m = elim (c k l m) [
    | inl a ↦ inl a
    | inr h ↦ inr (ground (arith, i, h, m))
  ]

  -- The whole loop.
  pub shift_each-HasShifted :
      (nums : List ℕ) (b : ℕ) (files : Map Bytes ℕ)
      → b + 1 < 2 ^ 31
      → IsDown nums
      → AreNums nums
      → All (λ k. k ≤ b + 1) nums
      → Covers file_name b nums files
      → file_at file_name (b + 1) files ≡ none
      → (files' : Map Bytes ℕ) × (shift_each file_name nums files ≡ some files')
        × HasShifted file_name b files files'
  unfolding shift_each
  shift_each-HasShifted [] b files s d a l c e =
      let gone = absent file_name b files [] c e in
      (
        files,
        refl,
        record {
          moved = λ k i j.
              gone (k + 1) (omega arith) (omega (arith, j)) refl
              ∙ sym (gone k i (omega (arith, j)) refl);
          first = gone 1 (omega arith) (omega arith) refl;
          others = λ k i j. refl;
          log = refl;
        },
      )
  shift_each-HasShifted (n ∷ nums) b files s (below, d) ((z, t), a) (m, l) c e =
      let go : ((n + 1) == 2 ^ 31) ≡ false = ground (arith, t) in
      elim (Bool-cases ((b + 1) == n)) [
        | inl i ↦
            let missing =
              shift_missing file_name n files (file_at_same file_name (b + 1) n files i ∙ e) in
            let (files', g, h) =
              shift_each-HasShifted nums b files s d a l (missing_round b n nums files i c) e in
            (files', rw go (ap (shift_each file_name nums) missing ∙ g), h)
        | inr i ↦
            let is_next : n ≡ n - 1 + 1 = omega (arith, z) in
            let in_bound : n ≤ b = ground (arith, i, m) in
            let to_p : All (λ k. k ≤ n - 1 + 1) nums =
              All-weaken n (n - 1 + 1) nums (omega (arith, z)) below in
            let (files', g, h) =
              shift_each-HasShifted nums (n - 1) (shift file_name n files)
                (omega (arith, s, in_bound)) d a to_p
                (next-Covers b (n - 1) n nums files is_next s in_bound below c e)
                (next_free b (n - 1) n nums files is_next s in_bound below c e) in
            (
              files',
              rw go g,
              next-HasShifted b (n - 1) n nums files is_next s in_bound below c e files' h,
            )
      ]
