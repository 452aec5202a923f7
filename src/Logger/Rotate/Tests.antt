-- ===== src/Logger/Rotate/Tests.antt =====
-- A directory with a log, two older files and another file.
use co_uring_web.Prelude.{some, [], ◌∷◌, Bytes, codes, ◌≡◌, refl, arith, bytes_eq}
use co_uring_web.Prelude.OrdMap.{insert_or_assign, erase, find}
use co_uring_web.Prelude.Keys.{bytes_key, bytes_lt}
use co_uring_web.Utils.Split.{split_to_views, split_to_views_char, split_text, split_char}
use co_uring_web.Logger.Rotate.{
  rename, shift_each, log_name, numbered, stoi, get_num, no_number, undefined, collect, Output,
  rotated, rotate,
}
use co_uring_web.Logger.Rotate.Rolling.{rotate_moves}

abbrev web : Bytes
web = codes "web"

abbrev output : Output
output = record {
  files = (codes "web.log", 10) ∷ (codes "web.log.1", 11) ∷ (codes "web.log.2", 12) ∷ [];
  logger_file = 10;
  next_file = 20;
}

output_nums : collect web (output.files) ≡ some (1 ∷ 2 ∷ [])
unfolding get_num split_to_views split_to_views_char split_text split_char bytes_eq stoi
output_nums = refl

output_log : find (log_name web) (output.files) ≡ some 10
unfolding find bytes_eq
output_log = refl

rotate_moves_example :
    (o' : Output) × (rotate web output ≡ rotated o')
    × (find (numbered web 3) (o'.files) ≡ find (numbered web 2) (output.files))
    × (find (numbered web 1) (o'.files) ≡ some 10)
    × (find (log_name web) (o'.files) ≡ some 20)
    × (o'.logger_file ≡ 20)
rotate_moves_example =
    rotate_moves web output (1 ∷ 2 ∷ []) 10 2 refl output_nums (omega arith, (omega arith, tt))
      output_log (omega arith) (omega arith)

-- The numbers that `getNum` reads.
gz_num : get_num web (codes "web.log.3.gz") ≡ no_number
unfolding get_num split_to_views split_to_views_char split_text split_char bytes_eq stoi
gz_num = refl

-- A name that ends in the file name: `back()` of an empty vector.
web_num : get_num web (codes "old_web") ≡ undefined
unfolding get_num split_to_views split_to_views_char split_text split_char bytes_eq stoi
web_num = refl

-- The file name occurs in ".log" a second time, so the number is not found.
log_num : get_num (codes "log") (codes "log.log.1") ≡ no_number
unfolding get_num split_to_views split_to_views_char split_text split_char bytes_eq stoi
log_num = refl

-- So the file with the number 1 is overwritten.
log_lost :
    rotate (codes "log") (record {
      files = (codes "log.log", 10) ∷ (codes "log.log.1", 11) ∷ [];
      logger_file = 10;
      next_file = 20;
    })
    ≡ rotated (record {
      files = (codes "log.log", 20) ∷ (codes "log.log.1", 10) ∷ [];
      logger_file = 20;
      next_file = 21;
    })
unfolding rotate shift_each rename find insert_or_assign erase bytes_lt get_num split_to_views
    split_to_views_char split_text split_char bytes_eq stoi
log_lost = refl
