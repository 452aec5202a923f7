-- ===== src/Http/Response/Render.antt =====
-- What the two conversions of a response write, against the layout of an HTTP message.
use co_uring_web.Prelude.{
  ℕ, ◌+◌, ◌≤◌, [], ◌∷◌, ◌++◌, Bytes, length, drop, ◌≡◌, refl, arith, length-append, append_assoc,
  append-nil, set, sym, ◌∙◌, ap, ap₂, codes, take-length-append, drop-append, drop-drop, set-append,
  length-drop,
}
use co_uring_web.Prelude.OrdMap.{Map}
use co_uring_web.Utils.Decimal.{to_string}
use co_uring_web.Http.{HttpVersion, version_nothing, v9, v10, v11}
use co_uring_web.Http.Status.{get_status_text}
use co_uring_web.Http.Response.{HttpResponse, crlf, write_version, write_headers}
use co_uring_web.Http.Response.Buffer.{Outcome, ok, ◌>>=◌, Writer, overlay, copy, put_at, put_raw}

-- A buffer whose first part is written.
abbrev pub filled : Bytes → Bytes → Writer
filled before pad = record { buffer = before ++ pad; index = length before }

-- `f` writes `text` at the index, wherever there is room for it.
abbrev pub Writes : (Writer → Outcome Writer) → Bytes → Type 0
Writes f text =
    (before pad : Bytes)
    → length text ≤ length pad
    → f (filled before pad) ≡ ok (filled (before ++ text) (drop (length text) pad))

overlay-append :
    (before src pad : Bytes)
    → overlay (length before) src (before ++ pad) ≡ before ++ src ++ drop (length src) pad
overlay-append before src pad =
    ap₂ (λ (a b : Bytes). a ++ (src ++ b)) (take-length-append before pad)
      (drop-append before pad (length src))
    ∙ sym (append_assoc before src (drop (length src) pad))

pub copy-Writes : (src : Bytes) → Writes (copy src) src
unfolding copy
copy-Writes src before pad h =
    ground
      (arith, overlay-append before src pad, length-append before src, length-append before pad)

set_filled :
    (c : ℕ) (before pad : Bytes)
    → 1 ≤ length pad
    → set (before ++ pad) (length before) c ≡ before ++ c ∷ [] ++ drop 1 pad
set_filled c before pad h =
    set-append before c pad h ∙ sym (append_assoc before (c ∷ []) (drop 1 pad))

pub put_at-Writes : (c : ℕ) → Writes (put_at c) (c ∷ [])
unfolding put_at
put_at-Writes c before pad h =
    ground (arith, set_filled c before pad, length-append before (c ∷ []), length-append before pad)

pub put_raw-Writes : (c : ℕ) → Writes (put_raw c) (c ∷ [])
unfolding put_raw
put_raw-Writes c before pad h =
    ground (arith, set_filled c before pad, length-append before (c ∷ []), length-append before pad)

filled-append :
    (before s t pad : Bytes)
    → filled (before ++ s ++ t) (drop (length t) (drop (length s) pad))
      ≡ filled (before ++ (s ++ t)) (drop (length (s ++ t)) pad)
filled-append before s t pad =
    ap₂ filled (append_assoc before s t)
      (drop-drop (length s) (length t) pad ∙ ap (λ n. drop n pad) (sym (length-append s t)))

pub then-Writes :
    (f g : Writer → Outcome Writer) (s t : Bytes)
    → Writes f s
    → Writes g t
    → Writes (λ w. f w >>= g) (s ++ t)
then-Writes f g s t hf hg before pad h =
    let room : length s + length t ≤ length pad = omega (arith, length-append s t) in
    rw (hf before pad (omega arith)) (
      hg (before ++ s) (drop (length s) pad) (omega (arith, length-drop (length s) pad))
      ∙ ap ok (filled-append before s t pad))

-- The layout of the message.
abbrev pub version_text : HttpVersion → Bytes
version_text v10 = codes "1.0"
version_text v11 = codes "1.1"
version_text v9 = codes "0.9"
version_text version_nothing = []

abbrev pub render_headers : Map Bytes Bytes → Bytes
render_headers [] = []
render_headers ((key, value) ∷ headers) =
    key ++ (b':' ∷ b' ' ∷ (value ++ (b'\r' ∷ b'\n' ∷ render_headers headers)))

unfoldable pub render_head : HttpResponse → Bytes
render_head r =
    codes "HTTP/"
    ++ (version_text r.version
        ++ (b' '
            ∷ (to_string r.status_code
                ++ (b' '
                    ∷ (get_status_text r.status_code
                        ++ (b'\r' ∷ b'\n' ∷ (render_headers r.headers ++ crlf)))))))

-- The versions whose text is copied behind "HTTP/".
abbrev pub IsPlaced : HttpVersion → Type 0
IsPlaced v10 = Unit
IsPlaced v11 = Unit
IsPlaced _ = ⊥

module _ (at : ℕ → Writer → Outcome Writer) (at-Writes : (c : ℕ) → Writes (at c) (c ∷ [])) where
  pub write_headers-Writes :
      (headers : Map Bytes Bytes) → Writes (write_headers at headers) (render_headers headers)
  unfolding write_headers
  write_headers-Writes [] = λ before pad h. ap ok (ap₂ filled (sym (append-nil before)) refl)
  write_headers-Writes ((key, value) ∷ headers) = then-Writes (copy key) _ key _ (copy-Writes key) (
      then-Writes (at b':') _ (b':' ∷ []) _ (at-Writes b':') (
        then-Writes (at b' ') _ (b' ' ∷ []) _ (at-Writes b' ') (
          then-Writes (copy value) _ value _ (copy-Writes value) (
            then-Writes (at b'\r') _ (b'\r' ∷ []) _ (at-Writes b'\r') (
              then-Writes (at b'\n') _ (b'\n' ∷ []) _ (at-Writes b'\n')
                (write_headers-Writes headers))))))

  -- The switch over the version, for the two versions that it writes in place.
  pub write_version-Writes :
      (version : HttpVersion)
      → IsPlaced version
      → Writes (write_version version) (version_text version)
  unfolding write_version
  write_version-Writes version_nothing p = absurd p
  write_version-Writes v9 p = absurd p
  write_version-Writes v10 p = copy-Writes (codes "1.0")
  write_version-Writes v11 p = copy-Writes (codes "1.1")
