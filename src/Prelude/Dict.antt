-- ===== src/Prelude/Dict.antt =====
-- `std::unordered_map` as an association list without order: find, operator[] =, emplace, erase.
use mathlib.Core.Path.{◌≡◌, refl}
use mathlib.Core.List.{List, [], ◌∷◌, ◌++◌}
use mathlib.Core.Option.{Option, none, some}
use native.Mathlib.Omega.{arith}
use mid_napi.Prelude.Tests.{if◌then◌else◌}
use mid_napi.Prelude.Keys.{Eq, ◌≟◌}

module _ {ℓ κ} {K : Type ℓ} {V : Type κ} ⦃e : Eq K⦄ where
  abbrev pub lookup : K → List (K × V) → Option V
  lookup k [] = none
  lookup k ((j, v) ∷ m) = if j ≟ k then some v else lookup k m

  -- `m[k] = v`
  abbrev pub insert : K → V → List (K × V) → List (K × V)
  insert k v [] = (k, v) ∷ []
  insert k v ((j, w) ∷ m) = if j ≟ k then (j, v) ∷ m else (j, w) ∷ insert k v m

  -- `m.emplace(k, v)`: an entry that is there stays.
  abbrev pub emplace : K → V → List (K × V) → List (K × V)
  emplace k v [] = (k, v) ∷ []
  emplace k v ((j, w) ∷ m) = if j ≟ k then (j, w) ∷ m else (j, w) ∷ emplace k v m

  -- `m.erase(k)`
  abbrev pub erase : K → List (K × V) → List (K × V)
  erase k [] = []
  erase k ((j, w) ∷ m) = if j ≟ k then erase k m else (j, w) ∷ erase k m

  -- `m.erase(it)` at the entry that `find(k)` returned.
  abbrev pub remove : K → List (K × V) → List (K × V)
  remove k [] = []
  remove k ((j, w) ∷ m) = if j ≟ k then m else (j, w) ∷ remove k m

  pub lookup-insert :
      (k j : K) (v : V) (m : List (K × V))
      → lookup j (insert k v m) ≡ (if k ≟ j then some v else lookup j m)
  lookup-insert k j v [] = refl
  lookup-insert k j v ((i, w) ∷ m) =
      ground (arith, e.beq_iff k j, e.beq_iff i k, e.beq_iff i j, lookup-insert k j v m)

  pub lookup-erase :
      (k j : K) (m : List (K × V)) → lookup j (erase k m) ≡ (if k ≟ j then none else lookup j m)
  lookup-erase k j [] = ground arith
  lookup-erase k j ((i, w) ∷ m) =
      ground (arith, e.beq_iff k j, e.beq_iff i k, e.beq_iff i j, lookup-erase k j m)

  pub emplace-append :
      (k : K) (v : V) (m : List (K × V)) → lookup k m ≡ none → emplace k v m ≡ m ++ (k, v) ∷ []
  emplace-append k v [] h = refl
  emplace-append k v ((i, w) ∷ m) h = ground (arith, emplace-append k v m)

  pub emplace_present :
      (k : K) (v : V) {w : V} (m : List (K × V)) → lookup k m ≡ some w → emplace k v m ≡ m
  emplace_present k v [] h = cc
  emplace_present k v {w} ((i, u) ∷ m) h = ground (arith, emplace_present k v {w = w} m)

  pub lookup-emplace :
      (k : K) (v : V) (m : List (K × V)) → lookup k m ≡ none → lookup k (emplace k v m) ≡ some v
  lookup-emplace k v [] h = ground (arith, e.beq_iff k k)
  lookup-emplace k v ((i, w) ∷ m) h = ground (arith, lookup-emplace k v m)

  pub remove-emplace :
      (k : K) (v : V) (m : List (K × V)) → lookup k m ≡ none → remove k (emplace k v m) ≡ m
  remove-emplace k v [] h = ground (arith, e.beq_iff k k)
  remove-emplace k v ((i, w) ∷ m) h = ground (arith, remove-emplace k v m)
