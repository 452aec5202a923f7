-- ===== src/Logger/Rotate/Moves.antt =====
-- Which numbers the loop over the directory finds, and what the loop over them does.
use co_uring_web.Prelude.{
  ℕ, ◌-◌, ◌^◌, ◌<◌, ◌≤◌, true, none, some, List, [], ◌∷◌, Bytes, All, ltb, bytes_eq, bytes_eq→eq,
  ◌≡◌, ◌⊎◌, refl, sym, ap, ◌∙◌, arith, Bool-cases, Option-cases, inl, inr,
}
use mathlib.Core.Option.{some-injective}
use co_uring_web.Prelude.Options.{◌>>=◌}
use co_uring_web.Prelude.OrdMap.{Map, find}
use co_uring_web.Prelude.Keys.{bytes_key}
use co_uring_web.Timer.Expiry.{count}
use co_uring_web.Logger.Rotate.{
  numbered, Num, number, no_number, undefined, get_num, push_num, collect, sort, shift_each,
}
use co_uring_web.Logger.Rotate.Names.{is_plain, get_num-numbered}
use co_uring_web.Logger.Rotate.Shift.{
  sort-IsDown, All-sort, All-weaken, count-sort, file_at, Covers, HasShifted,
}
use co_uring_web.Logger.Rotate.Loop.{AreNums, shift_each-HasShifted}

push_num-adds :
    (nums all : List ℕ) (k : ℕ) → push_num (number k) nums ≡ some all → 0 < k → all ≡ k ∷ nums
push_num-adds nums all k h l =
    let e : ltb 0 k ≡ true = ground (arith, l) in
    sym (some-injective (k ∷ nums) all (sym (rw (e, push_num) refl) ∙ h))

push_num-grows :
    (v : Num) (nums all : List ℕ) (k : ℕ) → push_num v nums ≡ some all → count k nums ≤ count k all
push_num-grows (number n) nums all k h = elim (Bool-cases (ltb 0 n)) [
  | inl e ↦
      let same = push_num-adds nums all n h (ground (arith, e)) in omega (arith, ap (count k) same)
  | inr e ↦ omega (arith, ap (count k) (some-injective nums all (sym (rw (e, push_num) refl) ∙ h)))
]
push_num-grows no_number nums all k h = omega (arith, ap (count k) (some-injective nums all h))
push_num-grows undefined nums all k h = absurd (cc h)

-- Behind a loop that comes to an end: the round for the first entry.
collect-cons :
    (file_name name : Bytes) (f : ℕ) (files : Map Bytes ℕ) (all : List ℕ)
    → collect file_name ((name, f) ∷ files) ≡ some all
    → (nums : List ℕ) × (collect file_name files ≡ some nums)
      × (push_num (get_num file_name name) nums ≡ some all)
collect-cons file_name name f files all h = elim (Option-cases (collect file_name files)) [
  | inl e ↦ absurd (cc (h, e))
  | inr (nums, e) ↦ (nums, e, sym (ap (λ o. o >>= push_num (get_num file_name name)) e) ∙ h)
]

-- Each log file is among the numbers.
collect-count :
    (file_name : Bytes) (files : Map Bytes ℕ) (all : List ℕ) (k : ℕ)
    → is_plain file_name ≡ true
    → collect file_name files ≡ some all
    → 0 < k
    → k < 2 ^ 31
    → (file_at file_name k files ≡ none) ⊎ (0 < count k all)
unfolding find
collect-count file_name [] all k p h l m = inl refl
collect-count file_name ((name, f) ∷ files) all k p h l m =
    let (nums, e, g) = collect-cons file_name name f files all h in
    elim (Bool-cases (bytes_eq name (numbered file_name k))) [
      | inl i ↦
          let v =
            ap (get_num file_name) (bytes_eq→eq name (numbered file_name k) i)
            ∙ get_num-numbered file_name k p l m in
          let same = push_num-adds nums all k (sym (ap (λ n. push_num n nums) v) ∙ g) l in
          inr (ground (arith, ap (count k) same))
      | inr i ↦ elim (collect-count file_name files nums k p e l m) [
        | inl a ↦ inl (rw i a)
        | inr c ↦ inr (omega (arith, c, push_num-grows (get_num file_name name) nums all k g))
      ]
    ]

push_num-above_zero :
    (v : Num) (nums all : List ℕ) → push_num v nums ≡ some all → count 0 nums ≡ 0 → count 0 all ≡ 0
push_num-above_zero (number n) nums all h z = elim (Bool-cases (ltb 0 n)) [
  | inl e ↦
      let l : 0 < n = ground (arith, e) in
      ap (count 0) (push_num-adds nums all n h l) ∙ ground (arith, l, z)
  | inr e ↦ ap (count 0) (sym (some-injective nums all (sym (rw (e, push_num) refl) ∙ h))) ∙ z
]
push_num-above_zero no_number nums all h z = ap (count 0) (sym (some-injective nums all h)) ∙ z
push_num-above_zero undefined nums all h z = absurd (cc h)

collect-above_zero :
    (file_name : Bytes) (files : Map Bytes ℕ) (all : List ℕ)
    → collect file_name files ≡ some all
    → count 0 all ≡ 0
collect-above_zero file_name [] all h = ap (count 0) (sym (some-injective [] all h))
collect-above_zero file_name ((name, f) ∷ files) all h =
    let (nums, e, g) = collect-cons file_name name f files all h in
    push_num-above_zero (get_num file_name name) nums all g
      (collect-above_zero file_name files nums e)

-- No number is the last int.
abbrev pub AreBelow : List ℕ → Type 0
AreBelow = All (λ k. k ≤ 2 ^ 31 - 2)

AreBelow-AreNums : (nums : List ℕ) → AreBelow nums → count 0 nums ≡ 0 → AreNums nums
AreBelow-AreNums [] h z = tt
AreBelow-AreNums (n ∷ nums) (l, h) z =
    ((ground (arith, z), omega (arith, l)), AreBelow-AreNums nums h (ground (arith, z)))

count-AreBelow : (nums : List ℕ) → AreBelow nums → count (2 ^ 31 - 1) nums ≡ 0
count-AreBelow [] h = refl
count-AreBelow (n ∷ nums) (l, h) = ground (arith, l, count-AreBelow nums h)

module _ (file_name : Bytes) (files : Map Bytes ℕ) (nums : List ℕ) (p : is_plain file_name ≡ true)
    (h : collect file_name files ≡ some nums) (below : AreBelow nums) where
  sorted_nums : AreNums (sort nums)
  sorted_nums =
      AreBelow-AreNums (sort nums) (All-sort (2 ^ 31 - 2) nums below)
        (count-sort 0 nums ∙ collect-above_zero file_name files nums h)

  sorted-Covers : Covers file_name (2 ^ 31 - 2) (sort nums) files
  sorted-Covers k l m = elim (collect-count file_name files nums k p h l (omega (arith, m))) [
    | inl a ↦ inl a
    | inr c ↦ inr (omega (arith, c, count-sort k nums))
  ]

  last_free : file_at file_name (2 ^ 31 - 1) files ≡ none
  last_free =
      elim (collect-count file_name files nums (2 ^ 31 - 1) p h (omega arith) (omega arith)) [
        | inl a ↦ a
        | inr c ↦ absurd (omega (arith, c, count-AreBelow nums below))
      ]

  -- The loop over the numbers of a directory.
  pub shifted :
      (files' : Map Bytes ℕ) × (shift_each file_name (sort nums) files ≡ some files')
      × HasShifted file_name (2 ^ 31 - 2) files files'
  shifted =
      shift_each-HasShifted file_name (sort nums) (2 ^ 31 - 2) files (omega arith)
        (sort-IsDown nums) sorted_nums
        (All-weaken (2 ^ 31 - 2) (2 ^ 31 - 1) (sort nums) (omega arith)
          (All-sort (2 ^ 31 - 2) nums below))
        sorted-Covers last_free
