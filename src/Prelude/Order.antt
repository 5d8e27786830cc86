-- ===== src/Prelude/Order.antt =====
-- The order of texts is a strict total order.
use Prim.Native.Nat.{ℕ}
use Prim.Native.Char.{Char, code}
use Prim.Native.String.{String}
use Prim.Native.String.compare as cmp
use mathlib.Core.Path.{◌≡◌, refl}
use mathlib.Core.Bool.{true, false}
use native.Mathlib.Omega.{arith}
use text.Mathlib.TextEquality.{Char-path}
use l4way.Prelude.Tests.{str_lt, ltb, eqb, if◌then◌else◌, ◌==◌, string_eq, nat_eq}
use l4way.Prelude.Sort.{IsOrder}

-- The clauses of the comparison, as equations.
lt-nil-cons : (d : Char) (t : String) → str_lt String.[] (String.◌∷◌ d t) ≡ true
lt-nil-cons d t = rw (cmp.nil-cons d t, str_lt)

lt-cons-nil : (c : Char) (s : String) → str_lt (String.◌∷◌ c s) String.[] ≡ false
lt-cons-nil c s = rw (cmp.cons-nil c s, str_lt)

lt-nil-nil : str_lt String.[] String.[] ≡ false
lt-nil-nil = refl

lt-cons-cons :
    (c d : Char) (s t : String)
    → str_lt (String.◌∷◌ c s) (String.◌∷◌ d t) ≡ (
        if ltb (code c) (code d) then true else if eqb (code c) (code d) then str_lt s t else false)
lt-cons-cons c d s t = rw (cmp.cons-cons c d s t, str_lt) (ground arith)

str_lt_irrefl : (s : String) → str_lt s s ≡ false
str_lt_irrefl String.[] = refl
str_lt_irrefl (String.◌∷◌ c s) = ground (arith, lt-cons-cons c c s s, str_lt_irrefl s)

str_lt-asymm : (s t : String) → str_lt s t ≡ true → str_lt t s ≡ false
str_lt-asymm String.[] String.[] h = refl
str_lt-asymm String.[] (String.◌∷◌ d t) h = lt-cons-nil d t
str_lt-asymm (String.◌∷◌ c s) String.[] h = ground (arith, lt-cons-nil c s)
str_lt-asymm (String.◌∷◌ c s) (String.◌∷◌ d t) h =
    ground (arith, lt-cons-cons c d s t, lt-cons-cons d c t s, str_lt-asymm s t)

str_lt_trans : (a b c : String) → str_lt b a ≡ false → str_lt c b ≡ false → str_lt c a ≡ false
str_lt_trans String.[] b String.[] h k = refl
str_lt_trans (String.◌∷◌ x a) String.[] c h k = ground (arith, lt-nil-cons x a)
str_lt_trans String.[] (String.◌∷◌ y b) (String.◌∷◌ z c) h k = lt-cons-nil z c
str_lt_trans String.[] String.[] (String.◌∷◌ z c) h k = lt-cons-nil z c
str_lt_trans (String.◌∷◌ x a) (String.◌∷◌ y b) String.[] h k = ground (arith, lt-nil-cons y b)
str_lt_trans (String.◌∷◌ x a) (String.◌∷◌ y b) (String.◌∷◌ z c) h k =
    ground
      (arith, lt-cons-cons y x b a, lt-cons-cons z y c b, lt-cons-cons z x c a, str_lt_trans a b c)

-- Two texts of which neither is before the other are equal.
pub str_lt-total : (s t : String) → str_lt s t ≡ false → str_lt t s ≡ false → s ≡ t
str_lt-total String.[] String.[] h k = refl
str_lt-total String.[] (String.◌∷◌ d t) h k = ground (arith, lt-nil-cons d t)
str_lt-total (String.◌∷◌ c s) String.[] h k = ground (arith, lt-nil-cons c s)
str_lt-total (String.◌∷◌ c s) (String.◌∷◌ d t) h k =
    let (e, p, q) = parts in cc (Char-path c d e, str_lt-total s t p q)
  where
    parts : (code c ≡ code d) × (str_lt s t ≡ false) × (str_lt t s ≡ false)
    parts = ground (arith, lt-cons-cons c d s t, lt-cons-cons d c t s)

pub by_string {ℓ} : {A : Type ℓ} (key : A → String) → IsOrder (λ x y. str_lt (key x) (key y))
by_string key = record {
  asymm = λ x y. str_lt-asymm (key x) (key y);
  trans = λ x y z. str_lt_trans (key x) (key y) (key z);
}

-- By one text, and then by another.
pub by_two_strings {ℓ} :
    {A : Type ℓ} (k j : A → String)
    → IsOrder (λ x y. if k x == k y then str_lt (j x) (j y) else str_lt (k x) (k y))
by_two_strings k j = record {
  asymm = λ x y.
      let fact = str_lt-asymm (k x) (k y) in
      let next = str_lt-asymm (j x) (j y) in
      ground (arith, string_eq.beq_iff (k x) (k y), string_eq.beq_iff (k y) (k x));
  trans = λ x y z. ground (
    arith,
    string_eq.beq_iff (k x) (k y),
    string_eq.beq_iff (k y) (k x),
    string_eq.beq_iff (k z) (k y),
    string_eq.beq_iff (k z) (k x),
    string_eq.beq_iff (k y) (k z),
    str_lt-asymm (k x) (k y),
    str_lt-asymm (k y) (k z),
    str_lt_trans (k x) (k y) (k z),
    str_lt_trans (j x) (j y) (j z),
    str_lt_trans (k y) (k z) (k x),
    str_lt_trans (k z) (k x) (k y),
    str_lt-total (k y) (k z),
    str_lt-total (k x) (k z),
    str_lt-total (k x) (k y),
  );
}

-- By a number, and then by a text.
pub by_nat_then_string {ℓ} :
    {A : Type ℓ} (n : A → ℕ) (j : A → String)
    → IsOrder (λ x y. if n x == n y then str_lt (j x) (j y) else ltb (n x) (n y))
by_nat_then_string n j = record {
  asymm = λ x y. ground (arith, str_lt-asymm (j x) (j y));
  trans = λ x y z. ground (arith, str_lt_trans (j x) (j y) (j z));
}
