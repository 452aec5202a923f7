-- ===== src/Logger/Line.antt =====
-- Lines that fit, and lines that do not.
use co_uring_web.Prelude.{
  ℕ, zero, suc, ◌+◌, ◌-◌, ◌≤◌, ◌<◌, true, false, List, [], ◌∷◌, ◌++◌, Bytes, length, take, drop,
  leb, ltb, ◌==◌, ◌≡◌, refl, sym, ap, ◌∙◌, arith, length-append, append_assoc, append-nil,
  length-drop, length-take, take-length-append, set-append,
}
use co_uring_web.Http.Response.Buffer.{Outcome, ok, fault, ◌>>=◌, Writer, copy}
use co_uring_web.Http.Response.Render.{filled, copy-Writes, put_raw-Writes}
use co_uring_web.Logger.{
  log_info_max_size, room, build_view, printed, build_num, build_char, format, Item, view, num,
  character, build, build_each, end_line, line,
}

-- What an item adds to the line.
abbrev pub text_of : Item → Bytes
text_of (view s) = s
text_of (num s) = s
text_of (character c) = c ∷ []

abbrev pub texts : List Item → Bytes
texts [] = []
texts (i ∷ is) = text_of i ++ texts is

-- `f` adds `text` to what is written, if that leaves a byte.
abbrev Adds : (Writer → Outcome Writer) → Bytes → Type 0
Adds f text =
    (before pad : Bytes)
    → length before + length pad ≡ 512
    → length text < length pad
    → (pad' : Bytes) × (f (filled before pad) ≡ ok (filled (before ++ text) pad'))
      × (length before + length text + length pad' ≡ 512)

room_filled :
    (before pad : Bytes) → length before + length pad ≡ 512 → room (filled before pad) ≡ length pad
room_filled before pad h = ground arith

build_view-Adds : (s : Bytes) → Adds (build_view s) s
unfolding build_view
build_view-Adds s before pad h l =
    let enough : leb (length s + 1) (room (filled before pad)) ≡ true =
      ground (arith, room_filled before pad h) in
    (
      drop (length s) pad,
      rw enough (copy-Writes s before pad (omega arith)),
      omega (arith, length-drop (length s) pad),
    )

build_char-Adds : (c : ℕ) → Adds (build_char c) (c ∷ [])
unfolding build_char
build_char-Adds c before pad h l =
    let enough : ltb (length before) log_info_max_size ≡ true = ground arith in
    (
      drop 1 pad,
      rw enough (put_raw-Writes c before pad (omega arith)),
      omega (arith, length-drop 1 pad),
    )

take_whole : (n : ℕ) (s : Bytes) → length s ≤ n → take n s ≡ s
take_whole zero [] h = refl
take_whole (suc n) [] h = refl
take_whole zero (c ∷ s) h = absurd (omega arith)
take_whole (suc n) (c ∷ s) h = ap (◌∷◌ c) (take_whole n s (omega (arith, h)))

pub printed_whole : (n : ℕ) (s : Bytes) → length s < n → printed n s ≡ s ++ 0 ∷ []
printed_whole n s h =
    let some_room : (n == 0) ≡ false = ground (arith, h) in
    rw (some_room, take_whole (n - 1) s (omega (arith, h))) refl

build_num-Adds : (s : Bytes) → Adds (build_num s) s
unfolding build_num
build_num-Adds s before pad h l =
    let with_nul = s ++ 0 ∷ [] in
    let rest = drop (length with_nul) pad in
    let size = length-append s (0 ∷ []) in
    let whole : printed (room (filled before pad)) s ≡ with_nul =
      printed_whole (room (filled before pad)) s (omega (arith, room_filled before pad h, l)) in
    let same : (before ++ with_nul) ++ rest ≡ (before ++ s) ++ 0 ∷ rest =
      ap (λ (b : Bytes). b ++ rest) (sym (append_assoc before s (0 ∷ [])))
      ∙ append_assoc (before ++ s) (0 ∷ []) rest in
    (
      0 ∷ rest,
      ap
            (λ (b : Bytes). copy b (filled before pad) >>= λ w'.
              ok (record w' { index = length before + length s }))
            whole
          ∙ rw (copy-Writes with_nul before pad (omega (arith, size, l))) (
              ap (λ (b : Bytes). ok (record { buffer = b; index = length before + length s })) same
              ∙ ap (λ (n : ℕ). ok (record { buffer = (before ++ s) ++ 0 ∷ rest; index = n }))
                  (sym (length-append before s))),
      omega (arith, size, h, l, length-drop (length with_nul) pad),
    )

build-Adds : (i : Item) → Adds (build i) (text_of i)
build-Adds (view s) = build_view-Adds s
build-Adds (num s) = build_num-Adds s
build-Adds (character c) = build_char-Adds c

build_each-Adds : (is : List Item) → Adds (build_each is) (texts is)
unfolding build_each
build_each-Adds [] before pad h l =
    (pad, ap (λ (b : Bytes). ok (filled b pad)) (sym (append-nil before)), omega arith)
build_each-Adds (i ∷ is) before pad h l =
    let split = length-append (text_of i) (texts is) in
    let (pad1, e, k) = build-Adds i before pad h (omega (arith, split)) in
    let joined = length-append before (text_of i) in
    let (pad2, e', k') =
      build_each-Adds is (before ++ text_of i) pad1 (omega (arith, k, joined))
        (omega (arith, split, k)) in
    (
      pad2,
      rw e (
          e' ∙ ap (λ (b : Bytes). ok (filled b pad2)) (append_assoc before (text_of i) (texts is))),
      omega (arith, k', split, joined),
    )

end_line-eq :
    (before pad : Bytes)
    → length before + length pad ≡ 512
    → 0 < length pad
    → end_line (filled before pad) ≡ ok (before ++ 10 ∷ [])
unfolding end_line
end_line-eq before pad h l =
    let inside : leb (length before + 1) (length (before ++ pad)) ≡ true =
      ground (arith, length-append before pad, h, l) in
    let short : leb (length before) (log_info_max_size - 1) ≡ true = ground (arith, h, l) in
    let count = length-append before (10 ∷ []) in
    rw (inside, short)
      (ap (λ (b : Bytes). ok (take (length before + 1) b))
          (set-append before 10 pad l ∙ sym (append_assoc before (10 ∷ []) (drop 1 pad)))
        ∙ ap (λ n. ok (take n ((before ++ 10 ∷ []) ++ drop 1 pad))) (sym count)
        ∙ ap (λ (b : Bytes). ok b) (take-length-append (before ++ 10 ∷ []) (drop 1 pad)))

-- A line whose head and items have together less than 512 bytes is written whole, with a line feed behind
-- it.
pub line-eq :
    (memory head : Bytes) (is : List Item)
    → length memory ≡ 512
    → length (head ++ texts is) < 512
    → line memory head is ≡ ok ((head ++ texts is) ++ 10 ∷ [])
unfolding line format
line-eq memory head is m l =
    let split = length-append head (texts is) in
    let (pad, e, k) =
      build_num-Adds head [] memory (omega (arith, m)) (omega (arith, m, l, split)) in
    let (pad2, e2, k2) =
      build_each-Adds is head pad (omega (arith, k)) (omega (arith, k, l, split)) in
    rw e (
      rw e2 (
        end_line-eq (head ++ texts is) pad2 (omega (arith, split, k2))
          (omega (arith, split, k2, l))))

-- Behind a head of less than 512 bytes, a text that leaves no byte free makes the destructor read behind the buffer.
pub line-fault :
    (memory head s : Bytes)
    → length memory ≡ 512
    → length head < 512
    → 512 ≤ length (head ++ s)
    → line memory head (view s ∷ []) ≡ fault
unfolding line format build_each build_view end_line
line-fault memory head s m h l =
    let (pad, e, k) = build_num-Adds head [] memory (omega (arith, m)) (omega (arith, m, h)) in
    let space = room_filled head pad (omega (arith, k)) in
    let long : leb (length s + 1) (room (filled head pad)) ≡ false =
      ground (arith, space, l, k, length-append head s) in
    let part = take (length pad) s in
    let rest = drop (length part) pad in
    let size : length part ≡ length pad =
      omega (arith, length-take (length pad) s, l, k, length-append head s) in
    let full : length ((head ++ part) ++ rest) ≡ 512 = omega (
      arith,
      length-append (head ++ part) rest,
      length-append head part,
      size,
      length-drop (length part) pad,
      k,
    ) in
    let behind : leb 513 (length ((head ++ part) ++ rest)) ≡ false = ground (arith, full) in
    rw e (rw (long, space) (rw (copy-Writes part head pad (omega (arith, size))) (rw behind refl)))
