-- ===== src/Prelude/Distinct.antt =====
-- Lists without a repeated element, as a loop with a set of the elements seen tells them.
use mathlib.Core.Path.{◌≡◌, refl}
use mathlib.Core.Logic.{◌≢◌}
use mathlib.Core.Bool.{false}
use mathlib.Core.List.{List, [], ◌∷◌, ◌++◌, map}
use native.Mathlib.Omega.{arith}
use l4way.Prelude.Tests.{Eq, ◌==◌}
use l4way.Prelude.Lists.{All, any}

module _ {A : Type 0} where
  -- No element is one of those seen, or of those before it.
  abbrev pub Fresh : List A → List A → Type 0
  Fresh seen [] = Unit
  Fresh seen (x ∷ xs) = All (λ y. y ≢ x) seen × Fresh (x ∷ seen) xs

  -- The elements seen after the list was.
  abbrev pub push : List A → List A → List A
  push [] seen = seen
  push (x ∷ xs) seen = push xs (x ∷ seen)

  pub Fresh-append :
      (xs ys seen : List A) → Fresh seen xs → Fresh (push xs seen) ys → Fresh seen (xs ++ ys)
  Fresh-append [] ys seen h k = k
  Fresh-append (x ∷ xs) ys seen h k = (h.0, Fresh-append xs ys (x ∷ seen) h.1 k)

module _ {A : Type 0} ⦃e : Eq A⦄ where
  pub none-equal : (x : A) (seen : List A) → any (λ y. y == x) seen ≡ false → All (λ y. y ≢ x) seen
  none-equal x [] h = tt
  none-equal x (y ∷ seen) h = (λ q. ground (arith, e.beq_iff y x), none-equal x seen (ground arith))

module _ {ℓ} {A : Type ℓ} where
  pub cons_not_nil : {x : A} {xs : List A} → ¬ (x ∷ xs ≡ [])
  cons_not_nil e = cc

  pub append-eq-nil : (xs ys : List A) → xs ++ ys ≡ [] → (xs ≡ []) × (ys ≡ [])
  append-eq-nil [] ys h = (refl, h)
  append-eq-nil (x ∷ xs) ys h = cc

pub map-eq-nil {ℓ κ} : {A : Type ℓ} {B : Type κ} (f : A → B) (xs : List A) → map f xs ≡ [] → xs ≡ []
map-eq-nil f [] h = refl
map-eq-nil f (x ∷ xs) h = cc
