-- ===== src/Utils/Address/Dotted.antt =====
-- The text of an address fits its buffer.
use co_uring_web.Prelude.{
  ℕ, ◌+◌, ◌-◌, ◌*◌, ◌<◌, ◌≤◌, List, [], ◌∷◌, ◌++◌, Bytes, All, length, take, drop, replicate, ◌≡◌,
  refl, sym, ap, ◌∙◌, arith, length-append, length-drop, append_assoc, append-nil,
  take-length-append,
}
use co_uring_web.Utils.Decimal.{to_string, digits_of}
use co_uring_web.Http.Response.Buffer.{ok, ◌>>=◌, copy, put_raw}
use co_uring_web.Http.Response.Render.{filled, copy-Writes, put_raw-Writes}
use co_uring_web.Logger.{printed}
use co_uring_web.Logger.Line.{printed_whole}
use co_uring_web.Utils.Address.{address_size, write_octet, write_octets, end_address, addr2str}

length-to_string : (n : ℕ) → n < 256 → length (to_string n) ≤ 3
unfolding to_string digits_of
length-to_string n h = ground arith

-- Each number with a dot behind it.
abbrev pub dotted : List ℕ → Bytes
dotted [] = []
dotted (c ∷ addr) = to_string c ++ b'.' ∷ dotted addr

write_octet-eq :
    (c : ℕ) (before pad : Bytes)
    → c < 256
    → length before + length pad ≡ 16
    → 4 ≤ length pad
    → write_octet c (filled before pad)
      ≡ ok (
          filled ((before ++ to_string c) ++ b'.' ∷ []) (drop (length (to_string c ++ 0 ∷ [])) pad))
unfolding write_octet
write_octet-eq c before pad small h l =
    let s = to_string c in
    let short = length-to_string c small in
    let with_nul = s ++ 0 ∷ [] in
    let rest = drop (length with_nul) pad in
    let size = length-append s (0 ∷ []) in
    let whole : printed (address_size - length before) s ≡ with_nul =
      printed_whole (address_size - length before) s (omega (arith, h, l, short)) in
    let same : (before ++ with_nul) ++ rest ≡ (before ++ s) ++ 0 ∷ rest =
      ap (λ (b : Bytes). b ++ rest) (sym (append_assoc before s (0 ∷ [])))
      ∙ append_assoc (before ++ s) (0 ∷ []) rest in
    ap
      (λ (b : Bytes). copy b (filled before pad) >>= λ w'.
        put_raw b'.' (record w' { index = length before + length s }))
      whole
    ∙ rw (copy-Writes with_nul before pad (omega (arith, size, l, short))) (
        ap (λ (b : Bytes). put_raw b'.' (record { buffer = b; index = length before + length s }))
          same
        ∙ ap (λ (n : ℕ). put_raw b'.' (record { buffer = (before ++ s) ++ 0 ∷ rest; index = n }))
            (sym (length-append before s))
        ∙ put_raw-Writes b'.' (before ++ s) (0 ∷ rest) (omega arith))

write_octets-eq :
    (addr : List ℕ) (before pad : Bytes)
    → All (λ c. c < 256) addr
    → length before + length pad ≡ 16
    → length addr * 4 ≤ length pad
    → (pad' : Bytes) × (write_octets addr (filled before pad)
        ≡ ok (filled (before ++ dotted addr) pad'))
      × (length before + length (dotted addr) + length pad' ≡ 16)
unfolding write_octets
write_octets-eq [] before pad small h l =
    (pad, ap (λ (b : Bytes). ok (filled b pad)) (sym (append-nil before)), omega (arith, h))
write_octets-eq (c ∷ addr) before pad (m, small) h l =
    let s = to_string c in
    let short = length-to_string c m in
    let before1 = (before ++ s) ++ b'.' ∷ [] in
    let pad1 = drop (length (s ++ 0 ∷ [])) pad in
    let size = length-append s (0 ∷ []) in
    let front = length-append (before ++ s) (b'.' ∷ []) in
    let front' = length-append before s in
    let left = length-drop (length (s ++ 0 ∷ [])) pad in
    let (pad', e, k) =
      write_octets-eq addr before1 pad1 small
        (omega (arith, h, l, size, front, front', left, short))
        (omega (arith, l, size, left, short)) in
    let same : before1 ++ dotted addr ≡ before ++ dotted (c ∷ addr) =
      append_assoc (before ++ s) (b'.' ∷ []) (dotted addr)
      ∙ append_assoc before s (b'.' ∷ dotted addr) in
    (
      pad',
      ap (λ o. o >>= write_octets addr) (write_octet-eq c before pad m h (omega (arith, l)))
          ∙ e
          ∙ ap (λ (b : Bytes). ok (filled b pad')) same,
      omega (arith, k, front, front', length-append s (b'.' ∷ dotted addr)),
    )

-- The numbers with dots between them.
abbrev pub joined : ℕ → List ℕ → Bytes
joined c [] = to_string c
joined c (d ∷ addr) = to_string c ++ b'.' ∷ joined d addr

dotted-joined : (c : ℕ) (addr : List ℕ) → dotted (c ∷ addr) ≡ joined c addr ++ b'.' ∷ []
dotted-joined c [] = refl
dotted-joined c (d ∷ addr) =
    ap (λ (b : Bytes). to_string c ++ b'.' ∷ b) (dotted-joined d addr)
    ∙ sym (append_assoc (to_string c) (b'.' ∷ joined d addr) (b'.' ∷ []))

end_address-eq : (body pad : Bytes) → end_address (filled (body ++ b'.' ∷ []) pad) ≡ ok body
unfolding end_address
end_address-eq body pad =
    let buffer : (body ++ b'.' ∷ []) ++ pad ≡ body ++ b'.' ∷ pad =
      append_assoc body (b'.' ∷ []) pad in
    let index : length (body ++ b'.' ∷ []) - 1 ≡ length body =
      omega (arith, length-append body (b'.' ∷ [])) in
    let front : take (length body) ((body ++ 0 ∷ []) ++ pad) ≡ body =
      ap (take (length body)) (append_assoc body (0 ∷ []) pad)
      ∙ take-length-append body (0 ∷ pad) in
    rw (index, buffer) (rw (put_raw-Writes 0 body (b'.' ∷ pad) (omega arith)) (ap ok front))

-- Four numbers below 256 are written with dots between them, and nothing outside the buffer of 16 bytes is
-- written.
pub addr2str-joined :
    (a b c d : ℕ)
    → a < 256
    → b < 256
    → c < 256
    → d < 256
    → addr2str (a ∷ b ∷ c ∷ d ∷ []) ≡ ok (joined a (b ∷ c ∷ d ∷ []))
unfolding addr2str
addr2str-joined a b c d ka kb kc kd =
    let (pad, e, k) =
      write_octets-eq (a ∷ b ∷ c ∷ d ∷ []) [] (replicate 16 0) (ka, (kb, (kc, (kd, tt))))
        (omega arith) (omega arith) in
    ap (λ o. o >>= end_address) e
    ∙ ap (λ (t : Bytes). end_address (filled t pad)) (dotted-joined a (b ∷ c ∷ d ∷ []))
    ∙ end_address-eq (joined a (b ∷ c ∷ d ∷ [])) pad
