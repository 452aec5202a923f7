-- ===== src/Logger/Rotate/Rolling.antt =====
-- A whole rotation.
use co_uring_web.Prelude.{
  ℕ, ◌+◌, ◌^◌, ◌<◌, true, false, none, some, List, Bytes, ◌==◌, bytes_eq, bytes_eq_self,
  if◌then◌else◌, ◌≡◌, refl, ap, ◌∙◌, arith,
}
use co_uring_web.Prelude.OrdMap.{
  Map, find, erase, insert_or_assign, find-erase, find-insert_or_assign,
}
use co_uring_web.Prelude.Keys.{bytes_key}
use co_uring_web.Logger.Rotate.{
  log_name, numbered, collect, rename, Output, reopen, rotated, rename_log, rotate,
}
use co_uring_web.Logger.Rotate.Names.{
  is_plain, numbered-eq, log_name-numbered, numbered-log_name, log_name-first,
}
use co_uring_web.Logger.Rotate.Shift.{file_at}
use co_uring_web.Logger.Rotate.Moves.{AreBelow, shifted}

module _ (file_name : Bytes) (files : Map Bytes ℕ) (f fresh : ℕ) where
  -- The directory behind the last rename, and behind `open`.
  abbrev renamed : Map Bytes ℕ
  renamed = insert_or_assign (numbered file_name 1) f (erase (log_name file_name) files)

  abbrev reopened : Map Bytes ℕ
  reopened = insert_or_assign (log_name file_name) fresh renamed

  find-renamed :
      (x : Bytes)
      → find x renamed ≡ (
          if bytes_eq (numbered file_name 1) x
          then some f
          else if bytes_eq (log_name file_name) x
          then none
          else find x files)
  find-renamed x =
      find-insert_or_assign x (numbered file_name 1) f (erase (log_name file_name) files)
      ∙ ap (λ o. if bytes_eq (numbered file_name 1) x then some f else o)
          (find-erase x (log_name file_name) files)

  renamed_log : find (log_name file_name) renamed ≡ none
  renamed_log =
      find-renamed (log_name file_name)
      ∙ rw (log_name-numbered file_name 1, bytes_eq_self (log_name file_name)) refl

  file_at-reopened :
      (k : ℕ)
      → k < 2 ^ 31
      → file_at file_name k reopened ≡ (if 1 == k then some f else file_at file_name k files)
  file_at-reopened k l =
      find-insert_or_assign (numbered file_name k) (log_name file_name) fresh renamed
      ∙ rw (numbered-log_name file_name k) (
          find-renamed (numbered file_name k)
          ∙ rw (numbered-eq file_name 1 k (omega arith) l, numbered-log_name file_name k) refl)

  log-reopened : find (log_name file_name) reopened ≡ some fresh
  log-reopened =
      find-insert_or_assign (log_name file_name) (log_name file_name) fresh renamed
      ∙ rw (bytes_eq_self (log_name file_name)) refl

rename_log-eq :
    (file_name : Bytes) (o : Output) (f : ℕ)
    → find (log_name file_name) (o.files) ≡ some f
    → rename_log file_name o
      ≡ rotated (record {
        files = reopened file_name (o.files) f (o.next_file);
        logger_file = o.next_file;
        next_file = o.next_file + 1;
      })
unfolding rename
rename_log-eq file_name o f e =
    rw (e, log_name-first file_name, rename_log)
      (rw (renamed_log file_name (o.files) f (o.next_file), reopen) refl)

-- With a plain file name, with a log file, and where getNum can read every name and reads no number that is
-- the last int, rotate comes to its end: the file of every number has the next number, the log has the number
-- 1, and the log and the descriptor are a new file.
pub rotate_moves :
    (file_name : Bytes) (o : Output) (nums : List ℕ) (f k : ℕ)
    → is_plain file_name ≡ true
    → collect file_name (o.files) ≡ some nums
    → AreBelow nums
    → find (log_name file_name) (o.files) ≡ some f
    → 0 < k
    → k + 1 < 2 ^ 31
    → (o' : Output) × (rotate file_name o ≡ rotated o')
      × (find (numbered file_name (k + 1)) (o'.files) ≡ find (numbered file_name k) (o.files))
      × (find (numbered file_name 1) (o'.files) ≡ some f)
      × (find (log_name file_name) (o'.files) ≡ some (o.next_file))
      × (o'.logger_file ≡ o.next_file)
unfolding rotate
rotate_moves file_name o nums f k p c b e l m =
    let (files', g, h) = shifted file_name (o.files) nums p c b in
    let same = file_at-reopened file_name files' f (o.next_file) (k + 1) m in
    let other : (1 == (k + 1)) ≡ false = ground (arith, l) in
    (
      record {
        files = reopened file_name files' f (o.next_file);
        logger_file = o.next_file;
        next_file = o.next_file + 1;
      },
      rw (c, rotate) (rw g (rename_log-eq file_name (record o { files = files' }) f (h.log ∙ e))),
      same ∙ rw other (h.moved k l (omega (arith, m))),
      file_at-reopened file_name files' f (o.next_file) 1 (omega arith),
      log-reopened file_name files' f (o.next_file),
      refl,
    )
