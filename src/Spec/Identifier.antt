-- ===== src/Spec/Identifier.antt =====
-- internal/spec/validate.go: the two patterns of identifiers.
use Prim.Native.Char.{Char, code}
use l4way.Prelude.{ℕ, zero, suc, String, Bool, true, false, ◌&&◌, ◌||◌, leb, eqb}

abbrev in_range : ℕ → ℕ → Char → Bool
in_range low high c = leb low (code c) && leb (code c) high

abbrev is_alphanumeric : Char → Bool
is_alphanumeric c = in_range 65 90 c || in_range 97 122 c || in_range 48 57 c

-- One of `_`, `.`, `:` and `-`.
abbrev is_mark : Char → Bool
is_mark c = eqb (code c) 95 || eqb (code c) 46 || eqb (code c) 58 || eqb (code c) 45

-- At most `n` characters of the second class.
abbrev matches_rest : ℕ → String → Bool
matches_rest n String.[] = true
matches_rest zero (String.◌∷◌ c cs) = false
matches_rest (suc n) (String.◌∷◌ c cs) = (is_alphanumeric c || is_mark c) && matches_rest n cs

-- spec.ValidateIdentifier: the pattern `^[A-Za-z0-9][A-Za-z0-9_.:-]{0,127}$`.
unfoldable pub valid_identifier : String → Bool
valid_identifier String.[] = false
valid_identifier (String.◌∷◌ c cs) = is_alphanumeric c && matches_rest 127 cs

-- The pattern `^[A-Za-z0-9_.:-]{1,15}$`.
unfoldable pub valid_interface : String → Bool
valid_interface String.[] = false
valid_interface (String.◌∷◌ c cs) = matches_rest 15 (String.◌∷◌ c cs)
