-- ===== src/Logger/Rotate/Shift.antt =====
-- What the loop over the numbers does to the directory.
use co_uring_web.Prelude.{
  ℕ, ◌+◌, ◌^◌, ◌<◌, ◌≤◌, true, Option, none, some, List, [], ◌∷◌, Bytes, All, leb, ◌==◌, bytes_eq,
  if◌then◌else◌, ◌≡◌, ◌⊎◌, refl, sym, ap, ap₂, ◌∙◌, arith, Bool-cases, Option-cases, inl, inr,
  ==_iff,
}
use co_uring_web.Prelude.OrdMap.{Map, find, erase, find-erase, find-insert_or_assign}
use co_uring_web.Prelude.Keys.{bytes_key}
use co_uring_web.Timer.Expiry.{count}
use co_uring_web.Logger.Rotate.{log_name, numbered, insert_down, sort, rename, shift}
use co_uring_web.Logger.Rotate.Names.{numbered-eq, log_name-numbered}

-- In the order of `greater`.
abbrev pub IsDown : List ℕ → Type 0
IsDown [] = Unit
IsDown (n ∷ nums) = All (λ k. k ≤ n) nums × IsDown nums

All-insert_down :
    (b n : ℕ) (nums : List ℕ)
    → n ≤ b
    → All (λ k. k ≤ b) nums
    → All (λ k. k ≤ b) (insert_down n nums)
All-insert_down b n [] l h = (l, tt)
All-insert_down b n (k ∷ nums) l (m, h) = elim (Bool-cases (leb k n)) [
  | inl e ↦ rw e (l, (m, h))
  | inr e ↦ rw e (m, All-insert_down b n nums l h)
]

pub All-weaken : (b c : ℕ) (nums : List ℕ) → b ≤ c → All (λ k. k ≤ b) nums → All (λ k. k ≤ c) nums
All-weaken b c [] l h = tt
All-weaken b c (k ∷ nums) l (m, h) = (omega (arith, l, m), All-weaken b c nums l h)

insert_down-IsDown : (n : ℕ) (nums : List ℕ) → IsDown nums → IsDown (insert_down n nums)
insert_down-IsDown n [] h = (tt, tt)
insert_down-IsDown n (k ∷ nums) (a, h) = elim (Bool-cases (leb k n)) [
  | inl e ↦ let l : k ≤ n = ground (arith, e) in rw e ((l, All-weaken k n nums l a), (a, h))
  | inr e ↦ rw e (All-insert_down k n nums (ground (arith, e)) a, insert_down-IsDown n nums h)
]

pub sort-IsDown : (nums : List ℕ) → IsDown (sort nums)
sort-IsDown [] = tt
sort-IsDown (n ∷ nums) = insert_down-IsDown n (sort nums) (sort-IsDown nums)

pub All-sort : (b : ℕ) (nums : List ℕ) → All (λ k. k ≤ b) nums → All (λ k. k ≤ b) (sort nums)
All-sort b [] h = tt
All-sort b (n ∷ nums) (l, h) = All-insert_down b n (sort nums) l (All-sort b nums h)

count-insert_down : (j n : ℕ) (nums : List ℕ) → count j (insert_down n nums) ≡ count j (n ∷ nums)
count-insert_down j n [] = refl
count-insert_down j n (k ∷ nums) = ground (arith, count-insert_down j n nums)

pub count-sort : (j : ℕ) (nums : List ℕ) → count j (sort nums) ≡ count j nums
count-sort j [] = refl
count-sort j (n ∷ nums) = ground (arith, count-insert_down j n (sort nums), count-sort j nums)

module _ (file_name : Bytes) where
  -- The file with a number, or the log itself.
  abbrev pub file_at : ℕ → Map Bytes ℕ → Option ℕ
  file_at k files = find (numbered file_name k) files

  find-shift :
      (x : Bytes) (n f : ℕ) (files : Map Bytes ℕ)
      → file_at n files ≡ some f
      → find x (shift file_name n files) ≡ (
          if bytes_eq (numbered file_name (n + 1)) x
          then some f
          else if bytes_eq (numbered file_name n) x
          then none
          else find x files)
  unfolding rename
  find-shift x n f files e =
      rw (e, shift)
        (find-insert_or_assign x (numbered file_name (n + 1)) f (erase (numbered file_name n) files)
          ∙ ap (λ o. if bytes_eq (numbered file_name (n + 1)) x then some f else o)
              (find-erase x (numbered file_name n) files))

  pub shift_missing :
      (n : ℕ) (files : Map Bytes ℕ) → file_at n files ≡ none → shift file_name n files ≡ files
  unfolding rename
  shift_missing n files e = rw (e, shift) refl

  pub file_at_same :
      (j k : ℕ) (files : Map Bytes ℕ) → (j == k) ≡ true → file_at k files ≡ file_at j files
  file_at_same j k files e = ap (λ i. file_at i files) (sym ((==_iff j k).0 e))

  -- The file moves to the next number, which is free.
  pub file_at-shift :
      (k n : ℕ) (files : Map Bytes ℕ)
      → k < 2 ^ 31
      → n + 1 < 2 ^ 31
      → file_at (n + 1) files ≡ none
      → file_at k (shift file_name n files)
        ≡ (if (n + 1) == k then file_at n files else if n == k then none else file_at k files)
  file_at-shift k n files l m e = elim (Option-cases (file_at n files)) [
    | inl a ↦ ap (file_at k) (shift_missing n files a) ∙ elim (Bool-cases ((n + 1) == k)) [
      | inl i ↦ file_at_same (n + 1) k files i ∙ e ∙ rw (i, a) refl
      | inr i ↦ elim (Bool-cases (n == k)) [
        | inl j ↦ file_at_same n k files j ∙ a ∙ rw (i, j) refl
        | inr j ↦ rw (i, j) refl
      ]
    ]
    | inr (f, a) ↦
        find-shift (numbered file_name k) n f files a
        ∙ ap₂ (λ c d. if c then some f else if d then none else file_at k files)
            (numbered-eq file_name (n + 1) k m l) (numbered-eq file_name n k (omega (arith, m)) l)
        ∙ ap (λ o. if (n + 1) == k then o else if n == k then none else file_at k files) (sym a)
  ]

  pub log-shift :
      (n : ℕ) (files : Map Bytes ℕ)
      → find (log_name file_name) (shift file_name n files) ≡ find (log_name file_name) files
  log-shift n files = elim (Option-cases (file_at n files)) [
    | inl a ↦ ap (find (log_name file_name)) (shift_missing n files a)
    | inr (f, a) ↦
        find-shift (log_name file_name) n f files a
        ∙ rw (log_name-numbered file_name (n + 1), log_name-numbered file_name n) refl
  ]

  -- Each number up to `b` with a file is in the list.
  abbrev pub Covers : ℕ → List ℕ → Map Bytes ℕ → Type 0
  Covers b nums files = (k : ℕ) → 0 < k → k ≤ b → (file_at k files ≡ none) ⊎ (0 < count k nums)

  -- Every file up to `b` has moved by one, and no other has.
  pub record HasShifted (b : ℕ) (files files' : Map Bytes ℕ) : Type 0 where
    pub moved : (k : ℕ) → 0 < k → k ≤ b → file_at (k + 1) files' ≡ file_at k files
    pub first : file_at 1 files' ≡ none
    pub others : (k : ℕ) → b + 1 < k → k < 2 ^ 31 → file_at k files' ≡ file_at k files
    pub log : find (log_name file_name) files' ≡ find (log_name file_name) files

  pub absent :
      (b : ℕ) (files : Map Bytes ℕ) (nums : List ℕ)
      → Covers b nums files
      → file_at (b + 1) files ≡ none
      → (k : ℕ) → 0 < k
      → k ≤ b + 1
      → count k nums ≡ 0
      → file_at k files ≡ none
  absent b files nums c e k l m z = elim (Bool-cases ((b + 1) == k)) [
    | inl i ↦ file_at_same (b + 1) k files i ∙ e
    | inr i ↦ elim (c k l (ground (arith, m, i))) [
      | inl a ↦ a
      | inr h ↦ absurd (omega (arith, h, z))
    ]
  ]

  pub count-above : (k n : ℕ) (nums : List ℕ) → All (λ j. j ≤ n) nums → n < k → count k nums ≡ 0
  count-above k n [] h l = refl
  count-above k n (j ∷ nums) (m, h) l = ground (arith, m, l, count-above k n nums h l)
