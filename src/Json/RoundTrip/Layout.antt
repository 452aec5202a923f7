-- ===== src/Json/RoundTrip/Layout.antt =====
-- The layout round values: new lines, brackets, braces and keys.
use co_uring_web.Prelude.{
  ℕ, zero, suc, ◌≤◌, ◌<◌, Bool, false, [], ◌∷◌, ◌++◌, Bytes, length, drop, replicate, leb, ◌≡◌,
  refl, ap, ◌∙◌, arith, length-append, append_assoc,
}
use co_uring_web.Json.{json_array, json_map, Items, no_items, Entries, no_entries}
use co_uring_web.Json.Parsed.{parsed}
use co_uring_web.Json.Text.{dump_string}
use co_uring_web.Json.Parse.{
  open_array, close_array, open_map, close_map, colon, label, ParseState, key_start, key_end,
  value_start, value_end, push_back, assign, array_round, map_round, parse_items, parse_entries,
}
use co_uring_web.Json.RoundTrip.Strings.{IsText}
use co_uring_web.Json.RoundTrip.Rounds.{
  items_blank, entries_blank, items_blanks, entries_blanks, ItemsReach, EntriesReach, items_round,
  entries_round,
}
use co_uring_web.Json.RoundTrip.Scalars.{entries_key}

pub regroup_end : (l n : Bytes) (c : ℕ) (t : Bytes) → (l ++ (n ++ c ∷ [])) ++ t ≡ l ++ (n ++ c ∷ t)
regroup_end l n c t = append_assoc l (n ++ c ∷ []) t ∙ ap (λ x. l ++ x) (append_assoc n (c ∷ []) t)

pub regroup_item : (a b c d e : Bytes) → (a ++ (b ++ (c ++ d))) ++ e ≡ a ++ (b ++ (c ++ (d ++ e)))
regroup_item a b c d e =
    append_assoc a (b ++ (c ++ d)) e
    ∙ ap (λ x. a ++ x) (append_assoc b (c ++ d) e ∙ ap (λ x. b ++ x) (append_assoc c d e))

pub regroup_entry :
    (a b c d e f g : Bytes)
    → (a ++ (b ++ (c ++ (d ++ (e ++ f))))) ++ g ≡ a ++ (b ++ (c ++ (d ++ (e ++ (f ++ g)))))
regroup_entry a b c d e f g =
    append_assoc a (b ++ (c ++ (d ++ (e ++ f)))) g
    ∙ ap (λ x. a ++ x)
        (append_assoc b (c ++ (d ++ (e ++ f))) g ∙ ap (λ x. b ++ x) (regroup_item c d e f g))

module _ {D : Type 0} (read_double : Bytes → D) where
  pub items_new_line :
      (n fuel : ℕ) (vec : Items D) (b : Bool) (view : Bytes)
      → length (10 ∷ (replicate n b' ' ++ view)) < fuel
      → ItemsReach read_double fuel vec b (10 ∷ (replicate n b' ' ++ view)) vec view
  items_new_line n zero vec b view l = absurd (omega arith)
  items_new_line n (suc fuel) vec b view l =
      let (fuel', b', l', e) = items_blanks read_double n fuel vec b view (omega arith) in
      (
        fuel',
        b',
        l',
        items_blank read_double fuel vec b 10 (replicate n b' ' ++ view) (unfold label in refl) ∙ e,
      )

  pub entries_new_line :
      (n fuel : ℕ) (m : Entries D) (state : ParseState) (str view : Bytes)
      → length (10 ∷ (replicate n b' ' ++ view)) < fuel
      → EntriesReach read_double fuel m state str (10 ∷ (replicate n b' ' ++ view)) m state str view
  entries_new_line n zero m state str view l = absurd (omega arith)
  entries_new_line n (suc fuel) m state str view l =
      let (fuel', l', e) = entries_blanks read_double n fuel m state str view (omega arith) in
      (
        fuel',
        l',
        entries_blank read_double fuel m state str 10 (replicate n b' ' ++ view)
              (unfold label in refl)
            ∙ e,
      )

  items_bracket :
      (fuel : ℕ) (vec : Items D) (b : Bool) (tail : Bytes)
      → 0 < fuel
      → parse_items read_double fuel vec b (b']' ∷ tail) ≡ parsed vec tail
  unfolding array_round label
  items_bracket zero vec b tail l = absurd (omega arith)
  items_bracket (suc fuel) vec b tail l =
      items_round read_double fuel vec b b']' tail close_array refl

  entries_brace :
      (fuel : ℕ) (m : Entries D) (str tail : Bytes)
      → 0 < fuel
      → parse_entries read_double fuel m value_end str (b'}' ∷ tail) ≡ parsed m tail
  unfolding map_round label
  entries_brace zero m str tail l = absurd (omega arith)
  entries_brace (suc fuel) m str tail l =
      entries_round read_double fuel m value_end str b'}' tail close_map refl

  -- The end of an array, behind a new line.
  pub items_close :
      (n fuel : ℕ) (vec : Items D) (b : Bool) (tail : Bytes)
      → length (replicate n b' ' ++ b']' ∷ tail) < fuel
      → parse_items read_double fuel vec b (replicate n b' ' ++ b']' ∷ tail) ≡ parsed vec tail
  items_close n fuel vec b tail l =
      let (fuel', b', l', e) = items_blanks read_double n fuel vec b (b']' ∷ tail) l in
      e ∙ items_bracket fuel' vec b' tail (omega (arith, l'))

  pub entries_close :
      (n fuel : ℕ) (m : Entries D) (str tail : Bytes)
      → length (replicate n b' ' ++ b'}' ∷ tail) < fuel
      → parse_entries read_double fuel m value_end str (replicate n b' ' ++ b'}' ∷ tail)
        ≡ parsed m tail
  entries_close n fuel m str tail l =
      let (fuel', l', e) = entries_blanks read_double n fuel m value_end str (b'}' ∷ tail) l in
      e ∙ entries_brace fuel' m str tail (omega (arith, l'))

  pub items_empty :
      (fuel : ℕ) (tail : Bytes)
      → 0 < fuel
      → parse_items read_double fuel no_items false (b']' ∷ tail) ≡ parsed no_items tail
  items_empty fuel tail l = items_bracket fuel no_items false tail l

  colon_round :
      (fuel : ℕ) (m : Entries D) (k rest : Bytes)
      → parse_entries read_double (suc fuel) m key_end k (b':' ∷ rest)
        ≡ parse_entries read_double fuel m value_start k rest
  unfolding map_round label
  colon_round fuel m k rest = entries_round read_double fuel m key_end k b':' rest colon refl

  -- A key with its colon.
  key_colon :
      (fuel : ℕ) (m : Entries D) (str k view : Bytes)
      → IsText k
      → length (dump_string k ++ (b' ' ∷ b':' ∷ b' ' ∷ view)) < fuel
      → EntriesReach read_double fuel m key_start str
          (dump_string k ++ (b' ' ∷ b':' ∷ b' ' ∷ view))
          m
          value_start
          k
          view
  key_colon (suc (suc (suc (suc fuel)))) m str k view t l = (
    fuel,
    omega (arith, length-append (dump_string k) (b' ' ∷ b':' ∷ b' ' ∷ view)),
    entries_key read_double (suc (suc (suc fuel))) m str k (b' ' ∷ b':' ∷ b' ' ∷ view) t
          (omega arith)
        ∙ entries_blank read_double (suc (suc fuel)) m key_end k b' ' (b':' ∷ b' ' ∷ view)
            (unfold label in refl)
        ∙ colon_round (suc fuel) m k (b' ' ∷ view)
        ∙ entries_blank read_double fuel m value_start k b' ' view (unfold label in refl),
  )
  key_colon zero m str k view t l = absurd (omega arith)
  key_colon (suc zero) m str k view t l =
      absurd (omega (arith, length-append (dump_string k) (b' ' ∷ b':' ∷ b' ' ∷ view)))
  key_colon (suc (suc zero)) m str k view t l =
      absurd (omega (arith, length-append (dump_string k) (b' ' ∷ b':' ∷ b' ' ∷ view)))
  key_colon (suc (suc (suc zero))) m str k view t l =
      absurd (omega (arith, length-append (dump_string k) (b' ' ∷ b':' ∷ b' ' ∷ view)))

  pub entries_field :
      (n fuel : ℕ) (m : Entries D) (str k view : Bytes)
      → IsText k
      → length (10 ∷ (replicate n b' ' ++ (dump_string k ++ (b' ' ∷ b':' ∷ b' ' ∷ view)))) < fuel
      → EntriesReach read_double fuel m key_start str
          (10 ∷ (replicate n b' ' ++ (dump_string k ++ (b' ' ∷ b':' ∷ b' ' ∷ view))))
          m
          value_start
          k
          view
  entries_field n fuel m str k view t l =
      let (f1, l1, e1) =
        entries_new_line n fuel m key_start str (dump_string k ++ (b' ' ∷ b':' ∷ b' ' ∷ view)) l in
      let (f2, l2, e2) = key_colon f1 m str k view t l1 in (f2, l2, e1 ∙ e2)

  -- An array or a map in an array, and in a map. Behind an array in an array one byte is skipped.
  pub items_array :
      (fuel : ℕ) (vec : Items D) (b : Bool) (inner : Bytes) (xs : Items D) (behind : Bytes)
      → 1 ≤ length inner
      → parse_items read_double fuel no_items false inner ≡ parsed xs behind
      → parse_items read_double (suc fuel) vec b (b'[' ∷ inner)
        ≡ parse_items read_double fuel (push_back vec (json_array xs)) false (drop 1 behind)
  unfolding array_round label
  items_array fuel vec b inner xs behind l e =
      let long : leb (length (b'[' ∷ inner)) 1 ≡ false = ground arith in
      items_round read_double fuel vec b b'[' inner open_array refl ∙ rw long (rw e refl)

  pub items_map :
      (fuel : ℕ) (vec : Items D) (b : Bool) (inner : Bytes) (m : Entries D) (behind : Bytes)
      → 1 ≤ length inner
      → parse_entries read_double fuel no_entries key_start [] inner ≡ parsed m behind
      → parse_items read_double (suc fuel) vec b (b'{' ∷ inner)
        ≡ parse_items read_double fuel (push_back vec (json_map m)) false behind
  unfolding array_round label
  items_map fuel vec b inner m behind l e =
      let long : leb (length (b'{' ∷ inner)) 1 ≡ false = ground arith in
      items_round read_double fuel vec b b'{' inner open_map refl ∙ rw long (rw e refl)

  pub entries_array :
      (fuel : ℕ) (m : Entries D) (str inner : Bytes) (xs : Items D) (behind : Bytes)
      → 1 ≤ length inner
      → parse_items read_double fuel no_items false inner ≡ parsed xs behind
      → parse_entries read_double (suc fuel) m value_start str (b'[' ∷ inner)
        ≡ parse_entries read_double fuel (assign str (json_array xs) m) value_end [] behind
  unfolding map_round label
  entries_array fuel m str inner xs behind l e =
      let long : leb (length (b'[' ∷ inner)) 1 ≡ false = ground arith in
      entries_round read_double fuel m value_start str b'[' inner open_array refl
      ∙ rw long (rw e refl)

  pub entries_map :
      (fuel : ℕ) (m : Entries D) (str inner : Bytes) (n : Entries D) (behind : Bytes)
      → 1 ≤ length inner
      → parse_entries read_double fuel no_entries key_start [] inner ≡ parsed n behind
      → parse_entries read_double (suc fuel) m value_start str (b'{' ∷ inner)
        ≡ parse_entries read_double fuel (assign str (json_map n) m) value_end [] behind
  unfolding map_round label
  entries_map fuel m str inner n behind l e =
      let long : leb (length (b'{' ∷ inner)) 1 ≡ false = ground arith in
      entries_round read_double fuel m value_start str b'{' inner open_map refl
      ∙ rw long (rw e refl)
