-- ===== src/Iam/Canonical.antt =====
-- internal/controller/iam/policy.go: the canonical form of a policy.
use l4way.Prelude.{
  ◌≡◌, ◌↔◌, inl, inr, String, Bool, true, false, List, [], ◌∷◌, map, ltb, ◌==◌, string_eq, nat_eq,
  if◌then◌else◌, In, All, Result, ok, err, arith, Bool-cases, str_lt,
}
use l4way.Prelude.Sort.{sort_by, Sorted, sort_by-Sorted, In-sort_by}
use l4way.Prelude.Order.{str_lt-total, by_string}
use l4way.Net.{PrefixText, Prefix}
use l4way.Spec.{protocol_text}
use l4way.Iam.{Policy, PortRange, NetText, PolicyError}
use l4way.Iam.Validate.{parse_prefixes}

-- The loop of `uniqueSorted` after the value `last` has been written.
unfoldable pub unique_after : String → List String → List String
unique_after last [] = []
unique_after last (v ∷ vs) =
    let same = unique_after last vs in
    let next = unique_after v vs in if v == last then same else v ∷ next

unfoldable pub unique : List String → List String
unfolding unique_after
unique [] = []
unique (v ∷ vs) = v ∷ unique_after v vs

-- uniqueSorted
unfoldable pub unique_sorted : List String → List String
unfolding unique
unique_sorted values = unique (sort_by str_lt values)

abbrev pub range_less : PortRange → PortRange → Bool
range_less a b = if a.start == b.start then ltb a.end b.end else ltb a.start b.start

module _ ⦃net : NetText⦄ ⦃names : PrefixText⦄ where
  abbrev pub texts_or : List String → Result PolicyError (List Prefix) → List String
  texts_or values (err e) = values
  texts_or values (ok prefixes) = sort_by str_lt (map (λ p. names.text p) prefixes)

  -- canonicalCIDRs
  unfoldable pub canonical_cidrs : List String → List String
  canonical_cidrs values = texts_or values (parse_prefixes ⦃net = net⦄ [] values)

  -- CanonicalizePolicy
  unfoldable pub canonicalize_policy : Policy → Policy
  unfolding unique_sorted canonical_cidrs
  canonicalize_policy p = record p {
    allowed_ingress_nodes = unique_sorted p.allowed_ingress_nodes;
    allowed_exit_nodes = unique_sorted p.allowed_exit_nodes;
    allowed_listen_ips = unique_sorted p.allowed_listen_ips;
    allowed_target_cidrs = canonical_cidrs p.allowed_target_cidrs;
    denied_target_cidrs = canonical_cidrs p.denied_target_cidrs;
    allowed_port_ranges = sort_by range_less p.allowed_port_ranges;
    allowed_protocols =
        sort_by (λ a b. str_lt (protocol_text a) (protocol_text b)) p.allowed_protocols;
  }

-- Each value is before all that follow it.
abbrev pub Ascending : List String → Type 0
Ascending [] = Unit
Ascending (x ∷ xs) = All (λ y. str_lt x y ≡ true) xs × Ascending xs

not_before : (x y : String) → str_lt y x ≡ false → y == x ≡ false → str_lt x y ≡ true
not_before x y h n = elim (Bool-cases (str_lt x y)) [
  | inl t ↦ t
  | inr f ↦ absurd (cc ((string_eq.beq_iff y x).1 (str_lt-total y x h f), n))
]

In-unique_after :
    (last x : String) (xs : List String) → In x (last ∷ unique_after last xs) ↔ In x (last ∷ xs)
unfolding unique_after
In-unique_after last x [] = (λ h. h, λ h. h)
In-unique_after last x (v ∷ vs) =
    ground (arith, string_eq.beq_iff v last, In-unique_after last x vs, In-unique_after v x vs)

before_trans : (x y z : String) → str_lt x y ≡ true → str_lt y z ≡ true → str_lt x z ≡ true
before_trans x y z h k =
    let order = by_string (λ (s : String). s) in
    elim (Bool-cases (str_lt x z)) [
      | inl t ↦ t
      | inr f ↦ absurd (cc (order.trans y z x (order.asymm y z k) f, h))
    ]

All-before :
    (x y : String) (zs : List String)
    → str_lt x y ≡ true
    → All (λ z. str_lt y z ≡ true) zs
    → All (λ z. str_lt x z ≡ true) zs
All-before x y [] h a = tt
All-before x y (z ∷ zs) h a = (before_trans x y z h a.0, All-before x y zs h a.1)

unique_after-Ascending :
    (last : String) (xs : List String)
    → All (λ y. str_lt y last ≡ false) xs
    → Sorted str_lt xs
    → Ascending (last ∷ unique_after last xs)
unfolding unique_after
unique_after-Ascending last [] h s = (tt, tt)
unique_after-Ascending last (v ∷ vs) h s = elim (Bool-cases (v == last)) [
  | inl t ↦ rw t (unique_after-Ascending last vs h.1 s.1)
  | inr f ↦
      let rest = unique_after-Ascending v vs s.0 s.1 in
      let first = not_before last v h.0 f in rw f ((first, All-before last v _ first rest.0), rest)
]

unique-Ascending : (xs : List String) → Sorted str_lt xs → Ascending (unique xs)
unfolding unique
unique-Ascending [] s = tt
unique-Ascending (x ∷ xs) s = unique_after-Ascending x xs s.0 s.1

In-unique : (x : String) (xs : List String) → In x (unique xs) ↔ In x xs
unfolding unique
In-unique x [] = (λ h. h, λ h. h)
In-unique x (y ∷ ys) = In-unique_after y x ys

-- The canonical list has the values of the given one, each once, in ascending order.
pub unique_sorted_lem :
    (xs : List String)
    → Ascending (unique_sorted xs) × ((x : String) → In x (unique_sorted xs) ↔ In x xs)
unfolding unique_sorted
unique_sorted_lem xs = (
  unique-Ascending (sort_by str_lt xs) (sort_by-Sorted (by_string (λ (s : String). s)) xs),
  λ x. (
    λ h. (In-sort_by str_lt x xs).0 ((In-unique x (sort_by str_lt xs)).0 h),
    λ h. (In-unique x (sort_by str_lt xs)).1 ((In-sort_by str_lt x xs).1 h),
  ),
)
