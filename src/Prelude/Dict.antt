-- ===== src/Prelude/Dict.antt =====
-- A Go map as an association list with one entry for each key, the first written first. Go leaves
-- the order of iteration open; the list fixes one.
use mathlib.Core.Path.{◌≡◌, refl}
use mathlib.Core.Bool.{true}
use mathlib.Core.Logic.{◌⊎◌, ◌↔◌}
use mathlib.Core.Option.{Option, none, some}
use mathlib.Core.List.{List, [], ◌∷◌, foldl}
use native.Mathlib.Omega.{arith}
use l4way.Prelude.Tests.{Eq, ◌==◌, if◌then◌else◌, is_some}
use l4way.Prelude.Lists.{In}

module _ {ℓ κ} {K : Type ℓ} {V : Type κ} ⦃e : Eq K⦄ where
  -- m[k]
  unfoldable pub lookup : K → List (K × V) → Option V
  lookup key [] = none
  lookup key ((other, value) ∷ rest) = if other == key then some value else lookup key rest

  -- m[k] = v
  unfoldable pub insert : K → V → List (K × V) → List (K × V)
  insert key value [] = (key, value) ∷ []
  insert key value ((other, old) ∷ rest) =
      if other == key then (key, value) ∷ rest else (other, old) ∷ insert key value rest

  unfoldable pub keys : List (K × V) → List K
  keys [] = []
  keys ((j, _) ∷ m) = j ∷ keys m

  unfoldable pub of_pairs : List (K × V) → List (K × V)
  unfolding insert
  of_pairs = foldl (λ m p. insert p.0 p.1 m) []

  pub lookup-insert :
      (new key : K) (value : V) (m : List (K × V))
      → lookup key (insert new value m) ≡ (if new == key then some value else lookup key m)
  unfolding lookup insert
  lookup-insert new key value [] = refl
  lookup-insert new key value ((other, old) ∷ rest) = ground (
    arith,
    e.beq_iff other new,
    e.beq_iff other key,
    e.beq_iff new key,
    lookup-insert new key value rest,
  )

module _ {κ} {K : Type 0} {V : Type κ} ⦃e : Eq K⦄ where
  pub mem_keys-insert :
      (k j : K) (v : V) (m : List (K × V)) → In j (keys (insert k v m)) ↔ ((j ≡ k) ⊎ In j (keys m))
  unfolding keys insert
  mem_keys-insert k j v [] = ground arith
  mem_keys-insert k j v ((i, w) ∷ m) = ground (arith, e.beq_iff i k, mem_keys-insert k j v m)

  -- The keys are those with a value.
  pub In-keys : (k : K) (m : List (K × V)) → In k (keys m) ↔ (is_some (lookup k m) ≡ true)
  unfolding keys lookup
  In-keys k [] = ground arith
  In-keys k ((i, w) ∷ m) = ground (arith, e.beq_iff i k, In-keys k m)
