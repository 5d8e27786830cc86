-- ===== src/Prelude/Sort.antt =====
-- `sort.Slice(xs, less)`. Go leaves the order of equal elements open; here it is the given one.
use mathlib.Core.Path.{◌≡◌, refl}
use mathlib.Core.Logic.{◌⊎◌, ◌↔◌, inl, inr}
use mathlib.Core.Bool.{Bool, true, false}
use Prim.Native.Nat.{suc}
use mathlib.Core.List.{List, [], ◌∷◌, map, Perm}
use mathlib.Core.List.Perm
use native.Mathlib.Omega.{arith}
use l4way.Prelude.Tests.{if◌then◌else◌, Bool-cases}
use l4way.Prelude.Lists.{In, All, length}

module _ {ℓ} {A : Type ℓ} where
  unfoldable pub place : (A → A → Bool) → A → List A → List A
  place less x [] = x ∷ []
  place less x (y ∷ ys) = if less y x then y ∷ place less x ys else x ∷ y ∷ ys

  unfoldable pub sort_by : (A → A → Bool) → List A → List A
  unfolding place
  sort_by less [] = []
  sort_by less (x ∷ xs) = place less x (sort_by less xs)

  -- No element is before one that stands in front of it.
  abbrev pub Sorted : (A → A → Bool) → List A → Type ℓ
  Sorted less [] = Unit
  Sorted less (x ∷ xs) = All (λ y. less y x ≡ false) xs × Sorted less xs

-- What `sort.Slice` asks of `less`.
pub record IsOrder {ℓ} {A : Type ℓ} (less : A → A → Bool) : Type ℓ where
  pub asymm : (a b : A) → less a b ≡ true → less b a ≡ false
  pub trans : (a b c : A) → less b a ≡ false → less c b ≡ false → less c a ≡ false

module _ {A : Type 0} (less : A → A → Bool) where
  In-place : (x y : A) (ys : List A) → In x (place less y ys) ↔ ((x ≡ y) ⊎ In x ys)
  unfolding place
  In-place x y [] = ground arith
  In-place x y (z ∷ ys) = ground (arith, In-place x y ys)

  -- Sorting keeps the elements.
  pub In-sort_by : (x : A) (xs : List A) → In x (sort_by less xs) ↔ In x xs
  unfolding sort_by
  In-sort_by x [] = ground arith
  In-sort_by x (y ∷ xs) = ground (arith, In-place x y (sort_by less xs), In-sort_by x xs)

module _ {A : Type 0} (less : A → A → Bool) where
  place-All : (P : A → Type 0) (x : A) (ys : List A) → P x → All P ys → All P (place less x ys)
  unfolding place
  place-All P x [] px h = (px, tt)
  place-All P x (y ∷ ys) px h = elim (Bool-cases (less y x)) [
    | inl t ↦ rw t (h.0, place-All P x ys px h.1)
    | inr f ↦ rw f (px, h)
  ]

module _ {A : Type 0} {less : A → A → Bool} (o : IsOrder less) where
  All-trans :
      (x y : A) (ys : List A)
      → less y x ≡ false
      → All (λ z. less z y ≡ false) ys
      → All (λ z. less z x ≡ false) ys
  All-trans x y [] e h = tt
  All-trans x y (z ∷ ys) e h = (o.trans x y z e h.0, All-trans x y ys e h.1)

  place-Sorted : (x : A) (ys : List A) → Sorted less ys → Sorted less (place less x ys)
  unfolding place
  place-Sorted x [] h = (tt, tt)
  place-Sorted x (y ∷ ys) h = elim (Bool-cases (less y x)) [
    | inl t ↦
        rw t
          (place-All less (λ z. less z y ≡ false) x ys (o.asymm y x t) h.0, place-Sorted x ys h.1)
    | inr f ↦ rw f ((f, All-trans x y ys f h.0), h)
  ]

  pub sort_by-Sorted : (xs : List A) → Sorted less (sort_by less xs)
  unfolding sort_by
  sort_by-Sorted [] = tt
  sort_by-Sorted (x ∷ xs) = place-Sorted x (sort_by less xs) (sort_by-Sorted xs)

module _ {A : Type 0} (less : A → A → Bool) where
  pub All-sort_by : (P : A → Type 0) (xs : List A) → All P xs → All P (sort_by less xs)
  unfolding sort_by
  All-sort_by P [] h = tt
  All-sort_by P (x ∷ xs) h = place-All less P x (sort_by less xs) h.0 (All-sort_by P xs h.1)

  place_front : (x : A) (ys : List A) → All (λ y. less y x ≡ false) ys → place less x ys ≡ x ∷ ys
  unfolding place
  place_front x [] h = refl
  place_front x (y ∷ ys) h = rw h.0

  pub sort_by_of_Sorted : (xs : List A) → Sorted less xs → sort_by less xs ≡ xs
  unfolding sort_by
  sort_by_of_Sorted [] h = refl
  sort_by_of_Sorted (x ∷ xs) h = rw (sort_by_of_Sorted xs h.1) (place_front x xs h.0)

map_fixed : {A : Type 0} (f : A → A) (xs : List A) → All (λ x. f x ≡ x) xs → map f xs ≡ xs
map_fixed f [] h = refl
map_fixed f (x ∷ xs) h = cc (h.0, map_fixed f xs h.1)

All-map_idem :
    {A : Type 0} (f : A → A) (xs : List A)
    → ((x : A) → f (f x) ≡ f x)
    → All (λ x. f x ≡ x) (map f xs)
All-map_idem f [] h = tt
All-map_idem f (x ∷ xs) h = (h x, All-map_idem f xs h)

-- Normalising the elements and sorting, done twice, is the same as done once.
pub sort_map_idem :
    {A : Type 0} {less : A → A → Bool} (o : IsOrder less) (f : A → A) (xs : List A)
    → ((x : A) → f (f x) ≡ f x)
    → sort_by less (map f (sort_by less (map f xs))) ≡ sort_by less (map f xs)
sort_map_idem {less = less} o f xs h =
    rw (map_fixed f (sort_by less (map f xs)) (All-sort_by less _ (map f xs) (All-map_idem f xs h)))
      (sort_by_of_Sorted less _ (sort_by-Sorted o (map f xs)))

module _ {A : Type 0} (less : A → A → Bool) where
  place-perm : (x : A) (ys : List A) → Perm (place less x ys) (x ∷ ys)
  unfolding place
  place-perm x [] = Perm.refl (x ∷ [])
  place-perm x (y ∷ ys) = elim (Bool-cases (less y x)) [
    | inl t ↦ rw t (Perm.trans (Perm.cons y (place-perm x ys)) (Perm.swap x y ys))
    | inr f ↦ rw f (Perm.refl (x ∷ y ∷ ys))
  ]

  -- Sorting loses and repeats nothing.
  pub sort_by-perm : (xs : List A) → Perm (sort_by less xs) xs
  unfolding sort_by
  sort_by-perm [] = Perm.refl []
  sort_by-perm (x ∷ xs) =
      Perm.trans (place-perm x (sort_by less xs)) (Perm.cons x (sort_by-perm xs))

  length-place : (x : A) (ys : List A) → length (place less x ys) ≡ suc (length ys)
  unfolding place
  length-place x [] = refl
  length-place x (y ∷ ys) = ground (arith, length-place x ys)

  pub length-sort_by : (xs : List A) → length (sort_by less xs) ≡ length xs
  unfolding sort_by
  length-sort_by [] = refl
  length-sort_by (x ∷ xs) = omega (arith, length-place x (sort_by less xs), length-sort_by xs)
