-- ===== src/Logger/Rotate.antt =====
-- `GlobalLoggerManager` of include/logger.h and src/logger.cpp: the rotation of the log files. The output
-- directory is a map from the names of its files, none of which holds a slash, to the numbers of the files
-- themselves, and a descriptor is the number of its file. A rename fails only where the file is missing,
-- and neither open nor dup2 fails.
pub mod Names
pub mod Shift
pub mod Loop
pub mod Moves
pub mod Rolling
mod Tests
use co_uring_web.Prelude.{
  ℕ, zero, suc, ◌+◌, ◌-◌, ◌^◌, Bool, true, false, Option, none, some, List, [], ◌∷◌, ◌++◌, Bytes,
  codes, length, leb, ltb, ◌==◌, ◌||◌, ◌&&◌, bytes_eq, if◌then◌else◌,
}
use co_uring_web.Prelude.Options.{◌>>=◌}
use co_uring_web.Prelude.OrdMap.{Map, find, erase, insert_or_assign}
use co_uring_web.Prelude.Keys.{bytes_key}
use co_uring_web.Utils.Decimal.{to_string, value}
use co_uring_web.Utils.Split.{split_to_views, split_to_views_char}

-- `fileName_ + '.' + outputFileExtensionName`
abbrev pub log_name : Bytes → Bytes
log_name file_name = file_name ++ codes ".log"

-- The same with a number behind it.
abbrev pub numbered : Bytes → ℕ → Bytes
numbered file_name num = file_name ++ (codes ".log." ++ to_string num)

abbrev pub digit_char : ℕ → Bool
digit_char c = leb 48 c && leb c 57

abbrev pub leading_digits : Bytes → Bytes
leading_digits [] = []
leading_digits (c ∷ text) = let rest = leading_digits text in if digit_char c then c ∷ rest else []

abbrev pub in_range : Bytes → Option ℕ
in_range [] = none
in_range (c ∷ digits) =
    if leb (2 ^ 31) (value (c ∷ digits)) then none else some (value (c ∷ digits))

-- `stoi`: `none` is an exception, or the number behind a minus sign, which is not above 0 either.
pub stoi : Bytes → Option ℕ
stoi [] = none
stoi (c ∷ text) =
    let rest = stoi text in
    if c == b' ' || (leb 9 c && leb c 13)
    then rest
    else if c == b'-'
    then none
    else if c == b'+'
    then in_range (leading_digits text)
    else in_range (leading_digits (c ∷ text))

-- What `getNum` returns: a number, or -1. `back()` of an empty vector is `undefined`.
pub data Num : Type 0 where
  number : ℕ → Num
  no_number : Num
  undefined : Num

abbrev pub to_num : Option ℕ → Num
to_num none = no_number
to_num (some n) = number n

-- From the split by a dot on.
abbrev pub last_num : List Bytes → Num
last_num [] = undefined
last_num (piece ∷ []) = to_num (stoi piece)
last_num (piece ∷ next ∷ pieces) = last_num (next ∷ pieces)

-- From `splited.size() == 2` on.
abbrev pub second_num : List Bytes → Num
second_num (piece ∷ back ∷ []) = last_num (split_to_views_char back b'.' none)
second_num _ = no_number

unfoldable pub get_num : Bytes → Bytes → Num
get_num file_name p_name =
    if bytes_eq p_name (log_name file_name)
    then no_number
    else second_num (split_to_views p_name file_name none)

abbrev pub push_num : Num → List ℕ → Option (List ℕ)
push_num (number n) nums = if ltb 0 n then some (n ∷ nums) else some nums
push_num no_number nums = some nums
push_num undefined nums = none

-- The loop over the directory.
abbrev pub collect : Bytes → Map Bytes ℕ → Option (List ℕ)
collect file_name [] = some []
collect file_name ((name, f) ∷ files) =
    collect file_name files >>= push_num (get_num file_name name)

-- `sort` with `greater`
abbrev pub insert_down : ℕ → List ℕ → List ℕ
insert_down n [] = n ∷ []
insert_down n (k ∷ nums) =
    let rest = insert_down n nums in if leb k n then n ∷ k ∷ nums else k ∷ rest

abbrev pub sort : List ℕ → List ℕ
sort [] = []
sort (n ∷ nums) = insert_down n (sort nums)

-- `fs::rename`, `none` being the exception.
unfoldable pub rename : Bytes → Bytes → Map Bytes ℕ → Option (Map Bytes ℕ)
rename old_name new_name files = elim (find old_name files) [
  | none ↦ none
  | some f ↦ some (insert_or_assign new_name f (erase old_name files))
]

-- A round of the loop over the numbers, which catches the exception.
abbrev pub shift : Bytes → ℕ → Map Bytes ℕ → Map Bytes ℕ
shift file_name num files =
    elim (rename (numbered file_name num) (numbered file_name (num + 1)) files) [
      | none ↦ files
      | some renamed ↦ renamed
    ]

-- The loop; `num + 1` overflows at the last int.
unfoldable pub shift_each : Bytes → List ℕ → Map Bytes ℕ → Option (Map Bytes ℕ)
shift_each file_name [] files = some files
shift_each file_name (num ∷ nums) files =
    let rest = shift_each file_name nums (shift file_name num files) in
    if num + 1 == 2 ^ 31 then none else rest

-- The directory, the file of `loggerFileFd_`, and the number of the next file that is made.
pub record Output : Type 0 where
  pub files : Map Bytes ℕ
  pub logger_file : ℕ
  pub next_file : ℕ

-- `open` with O_CREAT, and `dup2`.
abbrev pub reopen : Bytes → Output → Output
reopen name o = elim (find name (o.files)) [
  | some f ↦ record o { logger_file = f }
  | none ↦ record {
    files = insert_or_assign name (o.next_file) (o.files);
    logger_file = o.next_file;
    next_file = o.next_file + 1;
  }
]

-- `thrown` is the exception of the last rename.
pub data Rotated : Type 0 where
  rotated : Output → Rotated
  thrown : Output → Rotated
  undefined_behaviour : Rotated

-- From the last rename on.
abbrev pub rename_log : Bytes → Output → Rotated
rename_log file_name o =
    elim (rename (log_name file_name) (log_name file_name ++ codes ".1") (o.files)) [
      | none ↦ thrown o
      | some files ↦ rotated (reopen (log_name file_name) (record o { files = files }))
    ]

unfoldable pub rotate : Bytes → Output → Rotated
rotate file_name o =
    elim (collect file_name (o.files) >>= λ nums. shift_each file_name (sort nums) (o.files)) [
      | none ↦ undefined_behaviour
      | some files ↦ rename_log file_name (record o { files = files })
    ]

-- `singleFileSizeLimit`
abbrev pub single_file_size_limit : ℕ
single_file_size_limit = 2 ^ 30

abbrev pub check_need_rotate : ℕ → Bool
check_need_rotate st_size = if leb st_size 0 then false else leb single_file_size_limit st_size

-- A round of the logger's thread, for the size of the log, and what `init` does last.
unfoldable pub rotate_if_needed : Bytes → ℕ → Output → Rotated
rotate_if_needed file_name st_size o =
    if check_need_rotate st_size then rotate file_name o else rotated o

-- `init`, with the sizes of the files.
unfoldable pub init : Bytes → (ℕ → ℕ) → Output → Rotated
init file_name st_size o =
    let opened = reopen (log_name file_name) o in
    rotate_if_needed file_name (st_size (opened.logger_file)) opened
