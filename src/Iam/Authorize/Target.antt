-- ===== src/Iam/Authorize/Target.antt =====
-- The targets that a tenant's policy authorises (internal/controller/iam/policy.go).
use l4way.Prelude.{
  ◌≡◌, ◌↔◌, ap, inl, inr, Bool, true, false, not, List, [], any-In, any-of-In, In, ok, ◌>>◌, arith,
  Bool-cases,
}
use l4way.Net.{Addr, Prefix, contains_addr, is4}
use l4way.Iam.{Policy, NetText, Reason, forbid_if}
use l4way.Iam.Validate.{parse_prefixes}
use l4way.Iam.Authorize.{protected_target_cidrs, or_nil, in_any, authorize_target}

-- An error in the list of allowed networks allows none of them.
pub record IsReachable ⦃net : NetText⦄ (p : Policy) (address : Addr) : Type 0 where
  pub ipv4 : is4 address ≡ true
  pub unprotected : (c : Prefix) → In c protected_target_cidrs → contains_addr c address ≡ false
  pub undenied :
      (c : Prefix)
      → In c (or_nil (parse_prefixes ⦃net = net⦄ [] p.denied_target_cidrs))
      → contains_addr c address ≡ false
  pub allowed :
      (c : Prefix) × In c (or_nil (parse_prefixes ⦃net = net⦄ [] p.allowed_target_cidrs))
      × (contains_addr c address ≡ true)

outside :
    (cs : List Prefix) (a : Addr)
    → in_any cs a ≡ false
    → (c : Prefix) → In c cs
    → contains_addr c a ≡ false
outside cs a h c m = elim (Bool-cases (contains_addr c a)) [
  | inl t ↦ absurd (cc (any-of-In (λ p. contains_addr p a) c cs m t, h))
  | inr f ↦ f
]

inside :
    (cs : List Prefix) (a : Addr)
    → ((c : Prefix) → In c cs → contains_addr c a ≡ false)
    → in_any cs a ≡ false
inside cs a h = elim (Bool-cases (in_any cs a)) [
  | inl t ↦ let (c, m, q) = any-In (λ p. contains_addr p a) cs t in absurd (cc (h c m, q))
  | inr f ↦ f
]

gates :
    (b c d e : Bool) (p q r s : Reason)
    → ((forbid_if b p >> forbid_if c q >> forbid_if d r >> forbid_if e s) ≡ ok tt)
      ↔ ((b ≡ false) × (c ≡ false) × (d ≡ false) × (e ≡ false))
gates b c d e p q r s = ground arith

-- A target is authorised exactly when it is an IPv4 address in no protected network, in no network the
-- policy denies, and in one that it allows; a list of networks that does not parse holds none.
pub authorize_target_lem :
    ⦃net : NetText⦄ (p : Policy) (address : Addr)
    → (authorize_target ⦃net = net⦄ p address ≡ ok tt) ↔ IsReachable ⦃net = net⦄ p address
unfolding authorize_target
authorize_target_lem ⦃net⦄ p address =
    let denied = or_nil (parse_prefixes ⦃net = net⦄ [] p.denied_target_cidrs) in
    let allowed = or_nil (parse_prefixes ⦃net = net⦄ [] p.allowed_target_cidrs) in
    let gate =
      gates (not (is4 address)) (in_any protected_target_cidrs address) (in_any denied address)
        (not (in_any allowed address)) _ _ _ _ in
    (
      λ h.
          let (a, b, c, d) = gate.0 h in
          record {
            ipv4 = ground arith;
            unprotected = outside protected_target_cidrs address b;
            undenied = outside denied address c;
            allowed = any-In (λ q. contains_addr q address) allowed (ground arith);
          },
      λ r.
          let (c, m, q) = r.allowed in
          let found = any-of-In (λ k. contains_addr k address) c allowed m q in
          gate.1 (
            ap not r.ipv4,
            inside protected_target_cidrs address r.unprotected,
            inside denied address r.undenied,
            ap not found,
          ),
    )
