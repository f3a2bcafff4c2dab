-- ===== src/Base/Dict.antt =====
-- Go maps as association lists. The order of the entries is not part of any statement.
use mathlib.Core.Path.{◌≡◌, refl}
use mathlib.Core.Bool.{Bool, true, false}
use mathlib.Core.Option.{Option, none, some}
use mathlib.Core.List.{List, [], ◌∷◌}
use native.Mathlib.Omega.{arith}
use mathlib.Core.Path.{subst}
use mathlib.Core.Logic.{inl, inr}
use kubelb_ce.Base.Tests.{Bool-cases, Eq, ◌==◌, if◌then◌else◌}

abbrev pub Dict {ℓ κ} : Type ℓ → Type κ → Type (ℓ ⊔ κ)
Dict K V = List (K × V)

unfoldable pub has_value {ℓ} : {A : Type ℓ} → Option A → Bool
has_value none = false
has_value (some a) = true

module _ {ℓ κ} {K : Type ℓ} {V : Type κ} ⦃e : Eq K⦄ where
  -- `v, ok := d[k]`
  unfoldable pub lookup : K → Dict K V → Option V
  lookup k [] = none
  lookup k ((j, v) ∷ d) = if k == j then some v else lookup k d

  -- `_, ok := d[k]`
  unfoldable pub has : K → Dict K V → Bool
  unfolding has_value
  has k d = has_value (lookup k d)

  -- `d[k] = v`
  unfoldable pub insert : K → V → Dict K V → Dict K V
  insert k v [] = (k, v) ∷ []
  insert k v ((j, w) ∷ d) = if k == j then (k, v) ∷ d else (j, w) ∷ insert k v d

  -- `delete(d, k)`
  unfoldable pub erase : K → Dict K V → Dict K V
  erase k [] = []
  erase k ((j, w) ∷ d) = let rest = erase k d in if k == j then rest else (j, w) ∷ rest

  pub lookup-nil : (k : K) → lookup k [] ≡ none
  unfolding lookup
  lookup-nil k = refl

  pub lookup-cons :
      (j k : K) (v : V) (d : Dict K V)
      → lookup j ((k, v) ∷ d) ≡ (if j == k then some v else lookup j d)
  unfolding lookup
  lookup-cons j k v d = refl

  pub lookup-insert :
      (j k : K) (v : V) (d : Dict K V)
      → lookup j (insert k v d) ≡ (if j == k then some v else lookup j d)
  unfolding insert lookup
  lookup-insert j k v [] = refl
  lookup-insert j k v (_ ∷ d) = ground (arith, lookup-insert j k v d)

  pub lookup-erase :
      (j k : K) (d : Dict K V) → lookup j (erase k d) ≡ (if j == k then none else lookup j d)
  unfolding erase lookup
  lookup-erase j k [] = ground arith
  lookup-erase j k (_ ∷ d) = ground (arith, lookup-erase j k d)

  pub has-eq-true : (k : K) (d : Dict K V) → has k d ≡ true → (v : V) × (lookup k d ≡ some v)
  unfolding has
  has-eq-true k d h = ground arith

  pub has-eq-false : (k : K) (d : Dict K V) → has k d ≡ false → lookup k d ≡ none
  unfolding has
  has-eq-false k d h = ground arith

  pub has_of_lookup : (k : K) (d : Dict K V) {v : V} → lookup k d ≡ some v → has k d ≡ true
  unfolding has
  has_of_lookup k d h = ground arith

  pub has_of_none : (k : K) (d : Dict K V) → lookup k d ≡ none → has k d ≡ false
  unfolding has
  has_of_none k d h = ground arith

  -- Writing what is there changes nothing.
  pub insert-lookup_self : (k : K) (d : Dict K V) {v : V} → lookup k d ≡ some v → insert k v d ≡ d
  unfolding insert lookup
  insert-lookup_self k [] h = absurd (cc)
  insert-lookup_self k ((j, w) ∷ d) {v} h = ground (arith, insert-lookup_self k d {v = v})

  -- No key is listed twice, as in any Go map.
  abbrev pub NodupKeys : Dict K V → Type κ
  NodupKeys [] = Unit
  NodupKeys ((k, _) ∷ d) = (lookup k d ≡ none) × NodupKeys d

  pub insert-NodupKeys : (k : K) (v : V) (d : Dict K V) → NodupKeys d → NodupKeys (insert k v d)
  unfolding insert
  insert-NodupKeys k v [] _ = (lookup-nil k, tt)
  insert-NodupKeys k v ((j, _) ∷ d) (fresh, u) =
      ground (arith, insert-NodupKeys k v d u, lookup-insert j k v d)

  pub erase-NodupKeys : (k : K) (d : Dict K V) → NodupKeys d → NodupKeys (erase k d)
  unfolding erase
  erase-NodupKeys k [] _ = tt
  erase-NodupKeys k ((j, _) ∷ d) (fresh, u) =
      ground (arith, erase-NodupKeys k d u, lookup-erase j k d)

  -- A predicate of all values.
  abbrev pub AllValues {ν} : (V → Type ν) → Dict K V → Type ν
  AllValues P [] = Unit
  AllValues P ((_, v) ∷ d) = P v × AllValues P d

  pub insert-AllValues {ν} :
      (P : V → Type ν) (k : K) (v : V) (d : Dict K V)
      → P v
      → AllValues P d
      → AllValues P (insert k v d)
  unfolding insert
  insert-AllValues P k v [] p h = (p, tt)
  insert-AllValues P k v ((j, w) ∷ d) p (pw, h) = elim (Bool-cases (k == j)) [
    | inl same ↦ rw same (p, h)
    | inr other ↦ rw other (pw, insert-AllValues P k v d p h)
  ]

  pub erase-AllValues {ν} :
      (P : V → Type ν) (k : K) (d : Dict K V) → AllValues P d → AllValues P (erase k d)
  unfolding erase
  erase-AllValues P k [] h = tt
  erase-AllValues P k ((j, w) ∷ d) (pw, h) = elim (Bool-cases (k == j)) [
    | inl same ↦ rw same (erase-AllValues P k d h)
    | inr other ↦ rw other (pw, erase-AllValues P k d h)
  ]

  pub lookup-AllValues {ν} :
      (P : V → Type ν) (k : K) (d : Dict K V) {v : V} → AllValues P d → lookup k d ≡ some v → P v
  unfolding lookup
  lookup-AllValues P k [] h e = absurd (cc)
  lookup-AllValues P k ((j, w) ∷ d) (pw, h) e = elim (Bool-cases (k == j)) [
    | inl same ↦ subst P (cc (rw same at e)) pw
    | inr other ↦ lookup-AllValues P k d h (rw other at e)
  ]

pub ruleset dict_laws = (lookup-nil, lookup-cons, lookup-insert, lookup-erase)
