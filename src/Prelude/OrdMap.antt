-- ===== src/Prelude/OrdMap.antt =====
-- `std::map` as a list of its entries in the order of the keys, over any key type with a strict
-- order. (`std::unordered_map` is modelled by it too: the program never iterates over one.)
use co_uring_web.Prelude.Tests.{if◌then◌else◌}
use mathlib.Core.Path.{◌≡◌, refl}
use mathlib.Core.Logic.{◌↔◌}
use mathlib.Core.Bool.{Bool, true, false}
use mathlib.Core.Option.{Option, none, some}
use mathlib.Core.List.{List, [], ◌∷◌}
use native.Mathlib.Omega.{arith}

-- What the map asks of its keys: `std::less`, and the equality that it induces.
pub record Key {ℓ} (K : Type ℓ) : Type ℓ where
  pub ltk : K → K → Bool
  pub eqk : K → K → Bool
  pub eqk_iff : (a b : K) → (eqk a b ≡ true) ↔ (a ≡ b)
  pub ltk_trans : (a b c : K) → ltk a b ≡ true → ltk b c ≡ true → ltk a c ≡ true
  pub ltk_irrefl : (a : K) → ltk a a ≡ false
  pub ltk_total : (a b : K) → ltk a b ≡ false → eqk a b ≡ false → ltk b a ≡ true

abbrev pub Map {ℓ κ} : Type ℓ → Type κ → Type (ℓ ⊔ κ)
Map K V = List (K × V)

module _ {ℓ κ} {K : Type ℓ} {V : Type κ} ⦃o : Key K⦄ where
  unfoldable pub find : K → Map K V → Option V
  find k [] = none
  find k ((j, v) ∷ m) = if o.eqk j k then some v else find k m

  -- `insert`: a key that is there keeps its value.
  unfoldable pub insert : K → V → Map K V → Map K V
  insert k v [] = (k, v) ∷ []
  insert k v ((j, w) ∷ m) =
      if o.ltk k j
      then (k, v) ∷ (j, w) ∷ m
      else if o.eqk j k
      then (j, w) ∷ m
      else (j, w) ∷ insert k v m

  unfoldable pub insert_or_assign : K → V → Map K V → Map K V
  insert_or_assign k v [] = (k, v) ∷ []
  insert_or_assign k v ((j, w) ∷ m) =
      if o.ltk k j
      then (k, v) ∷ (j, w) ∷ m
      else if o.eqk j k
      then (j, v) ∷ m
      else (j, w) ∷ insert_or_assign k v m

  unfoldable pub erase : K → Map K V → Map K V
  erase k [] = []
  erase k ((j, w) ∷ m) = let rest = erase k m in if o.eqk j k then rest else (j, w) ∷ rest

  -- The order of the entries, which also makes the keys distinct.
  abbrev pub Above : K → Map K V → Type (ℓ ⊔ κ)
  Above k [] = Unit
  Above k ((j, w) ∷ m) = (o.ltk k j ≡ true) × Above k m

  abbrev pub IsSorted : Map K V → Type (ℓ ⊔ κ)
  IsSorted [] = Unit
  IsSorted ((j, w) ∷ m) = Above j m × IsSorted m

module _ {ℓ κ} {K : Type ℓ} {V : Type κ} ⦃o : Key K⦄ where
  pub find-erase :
      (j k : K) (m : Map K V) → find j (erase k m) ≡ (if o.eqk k j then none else find j m)
  unfolding find erase
  find-erase j k [] = ground arith
  find-erase j k ((i, w) ∷ m) =
      ground (arith, find-erase j k m, o.eqk_iff i k, o.eqk_iff i j, o.eqk_iff k j)

  pub find-insert_or_assign :
      (j k : K) (v : V) (m : Map K V)
      → find j (insert_or_assign k v m) ≡ (if o.eqk k j then some v else find j m)
  unfolding find insert_or_assign
  find-insert_or_assign j k v [] = refl
  find-insert_or_assign j k v ((i, w) ∷ m) =
      ground (arith, find-insert_or_assign j k v m, o.eqk_iff i k, o.eqk_iff i j, o.eqk_iff k j)

  pub find-insert_new :
      (j k : K) (v : V) (m : Map K V)
      → find k m ≡ none
      → find j (insert k v m) ≡ (if o.eqk k j then some v else find j m)
  unfolding find insert
  find-insert_new j k v [] h = refl
  find-insert_new j k v ((i, w) ∷ m) h =
      ground (arith, find-insert_new j k v m, o.eqk_iff i k, o.eqk_iff i j, o.eqk_iff k j)

  Above-trans : (a b : K) (m : Map K V) → o.ltk a b ≡ true → Above b m → Above a m
  Above-trans a b [] h s = tt
  Above-trans a b ((j, w) ∷ m) h s = (o.ltk_trans a b j h s.0, Above-trans a b m h s.1)

  pub find-Above : (k : K) (m : Map K V) → Above k m → find k m ≡ none
  unfolding find
  find-Above k [] s = refl
  find-Above k ((j, w) ∷ m) s = ground (arith, find-Above k m s.1, o.eqk_iff j k, o.ltk_irrefl k)

  Above-insert :
      (a k : K) (v : V) (m : Map K V) → o.ltk a k ≡ true → Above a m → Above a (insert k v m)
  unfolding insert
  Above-insert a k v [] h s = (h, tt)
  Above-insert a k v ((j, w) ∷ m) h s = ground (arith, Above-insert a k v m)

  pub IsSorted-insert : (k : K) (v : V) (m : Map K V) → IsSorted m → IsSorted (insert k v m)
  unfolding insert
  IsSorted-insert k v [] s = (tt, tt)
  IsSorted-insert k v ((j, w) ∷ m) s = ground (
    arith,
    IsSorted-insert k v m,
    Above-insert j k v m,
    o.ltk_total k j,
    o.eqk_iff j k,
    o.eqk_iff k j,
    Above-trans k j m,
  )

  Above-insert_or_assign :
      (a k : K) (v : V) (m : Map K V)
      → o.ltk a k ≡ true
      → Above a m
      → Above a (insert_or_assign k v m)
  unfolding insert_or_assign
  Above-insert_or_assign a k v [] h s = (h, tt)
  Above-insert_or_assign a k v ((j, w) ∷ m) h s = ground (arith, Above-insert_or_assign a k v m)

  pub IsSorted-insert_or_assign :
      (k : K) (v : V) (m : Map K V) → IsSorted m → IsSorted (insert_or_assign k v m)
  unfolding insert_or_assign
  IsSorted-insert_or_assign k v [] s = (tt, tt)
  IsSorted-insert_or_assign k v ((j, w) ∷ m) s = ground (
    arith,
    IsSorted-insert_or_assign k v m,
    Above-insert_or_assign j k v m,
    o.ltk_total k j,
    o.eqk_iff j k,
    o.eqk_iff k j,
    Above-trans k j m,
  )

  Above-erase : (a k : K) (m : Map K V) → Above a m → Above a (erase k m)
  unfolding erase
  Above-erase a k [] s = tt
  Above-erase a k ((j, w) ∷ m) s = ground (arith, Above-erase a k m)

  pub IsSorted-erase : (k : K) (m : Map K V) → IsSorted m → IsSorted (erase k m)
  unfolding erase
  IsSorted-erase k [] s = tt
  IsSorted-erase k ((j, w) ∷ m) s = ground (arith, IsSorted-erase k m, Above-erase j k m)
