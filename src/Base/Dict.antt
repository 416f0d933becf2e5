-- ===== src/Base/Dict.antt =====
-- `std::unordered_map` as an association list. The order of a real map is not specified: the
-- theorems hold for the entries in any order.
use config_monitor.Base.Logic.{if◌then◌else◌}
use config_monitor.Base.Keys.{Eq, ◌==◌}
use mathlib.Core.Path.{◌≡◌, refl}
use mathlib.Core.Option.{Option, none, some}
use mathlib.Core.List.{List, [], ◌∷◌}
use native.Mathlib.Omega.{arith}

abbrev pub Dict {ℓ κ} : Type ℓ → Type κ → Type (ℓ ⊔ κ)
Dict K V = List (K × V)

unfoldable pub keys {ℓ κ} : {K : Type ℓ} {V : Type κ} → Dict K V → List K
keys [] = []
keys ((k, v) ∷ d) = k ∷ keys d

module _ {ℓ κ} {K : Type ℓ} {V : Type κ} ⦃e : Eq K⦄ where
  unfoldable pub lookup : K → Dict K V → Option V
  lookup k [] = none
  lookup k ((j, v) ∷ d) = if k == j then some v else lookup k d

  -- `d[k] = v`
  unfoldable pub assign : K → V → Dict K V → Dict K V
  assign k v [] = (k, v) ∷ []
  assign k v ((j, w) ∷ d) = if k == j then (k, v) ∷ d else (j, w) ∷ assign k v d

  -- `d.emplace(k, v)`: an entry that is there stays.
  unfoldable pub emplace : K → V → Dict K V → Dict K V
  emplace k v [] = (k, v) ∷ []
  emplace k v ((j, w) ∷ d) = if k == j then (j, w) ∷ d else (j, w) ∷ emplace k v d

  -- `d.erase(k)`
  unfoldable pub erase : K → Dict K V → Dict K V
  erase k [] = []
  erase k ((j, w) ∷ d) = let rest = erase k d in if k == j then rest else (j, w) ∷ rest

  pub lookup-assign :
      (j k : K) (v : V) (d : Dict K V)
      → lookup j (assign k v d) ≡ (if j == k then some v else lookup j d)
  unfolding assign lookup
  lookup-assign j k v [] = refl
  lookup-assign j k v (_ ∷ d) = ground (arith, lookup-assign j k v d)

  pub lookup-emplace :
      (j k : K) (v : V) (d : Dict K V)
      → lookup j (emplace k v d)
        ≡ elim (lookup j d) [ some w ↦ some w | none ↦ if j == k then some v else none ]
  unfolding emplace lookup
  lookup-emplace j k v [] = refl
  lookup-emplace j k v (_ ∷ d) = ground (arith, lookup-emplace j k v d)

  pub lookup-erase :
      (j k : K) (d : Dict K V) → lookup j (erase k d) ≡ (if j == k then none else lookup j d)
  unfolding erase lookup
  lookup-erase j k [] = ground arith
  lookup-erase j k (_ ∷ d) = ground (arith, lookup-erase j k d)

  -- Every key stands once.
  abbrev pub NodupKeys : Dict K V → Type κ
  NodupKeys [] = Unit
  NodupKeys ((k, _) ∷ d) = (lookup k d ≡ none) × NodupKeys d

  pub assign-NodupKeys : (k : K) (v : V) (d : Dict K V) → NodupKeys d → NodupKeys (assign k v d)
  unfolding assign lookup
  assign-NodupKeys k v [] u = (refl, tt)
  assign-NodupKeys k v ((j, _) ∷ d) (fresh, u) =
      ground (arith, assign-NodupKeys k v d u, lookup-assign j k v d)

  pub emplace-NodupKeys : (k : K) (v : V) (d : Dict K V) → NodupKeys d → NodupKeys (emplace k v d)
  unfolding emplace lookup
  emplace-NodupKeys k v [] u = (refl, tt)
  emplace-NodupKeys k v ((j, _) ∷ d) (fresh, u) =
      ground (arith, emplace-NodupKeys k v d u, lookup-emplace j k v d)

  pub erase-NodupKeys : (k : K) (d : Dict K V) → NodupKeys d → NodupKeys (erase k d)
  unfolding erase lookup
  erase-NodupKeys k [] u = tt
  erase-NodupKeys k ((j, _) ∷ d) (fresh, u) =
      ground (arith, erase-NodupKeys k d u, lookup-erase j k d)

  pub lookup-cons :
      (j k : K) (v : V) (d : Dict K V)
      → lookup j ((k, v) ∷ d) ≡ (if j == k then some v else lookup j d)
  unfolding lookup
  lookup-cons j k v d = refl

  pub lookup-nil : (j : K) → lookup j [] ≡ none
  unfolding lookup
  lookup-nil j = refl
