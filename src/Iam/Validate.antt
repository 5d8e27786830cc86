-- ===== src/Iam/Validate.antt =====
-- internal/controller/iam/policy.go: the checks of a policy.
use l4way.Prelude.{
  ℕ, ◌^◌, ◌-◌, String, Bool, true, false, not, ◌&&◌, ◌||◌, List, [], ◌∷◌, ltb, ◌==◌, string_eq,
  nat_eq, any, Result, ok, err, ◌>>=◌, ◌>>◌, reject_if, Option, none, some,
}
use l4way.Spec.Identifier.{valid_identifier}
use l4way.Net.{Addr, addr_eq, prefix_eq, Prefix, masked, is4, is_unspecified, is_multicast}
use l4way.Spec.{Protocol, tcp, udp, protocol_eq}
use l4way.Iam.{
  Policy, PortRange, NetText, PolicyError, Checked, contains, invalid_tenant_id,
  no_resource_version, too_many_forwards, exceeds_integer_range, invalid_node, duplicate_node,
  invalid_listen_ip, duplicate_listen_ip, invalid_port_range, unsupported_protocol,
  duplicate_protocol, invalid_cidr, duplicate_cidr,
}

-- validateIdentifiers, with the identifiers seen.
unfoldable pub validate_identifiers : List String → List String → Checked
validate_identifiers seen [] = ok tt
validate_identifiers seen (v ∷ vs) =
    reject_if (not (valid_identifier v)) invalid_node
    >> reject_if (contains seen v) duplicate_node
    >> validate_identifiers (v ∷ seen) vs

abbrev pub usable_listen_ip : Addr → Bool
usable_listen_ip a = is4 a && not (is_unspecified a) && not (is_multicast a)

abbrev pub required : {A : Type 0} → Option A → PolicyError → Result PolicyError A
required none e = err e
required (some a) e = ok a

module _ ⦃net : NetText⦄ where
  -- validateListenIPs, with the addresses seen.
  unfoldable pub validate_listen_ips : List Addr → List String → Checked
  validate_listen_ips seen [] = ok tt
  validate_listen_ips seen (v ∷ vs) = required (net.parse_addr v) invalid_listen_ip >>= λ a.
      reject_if (not (usable_listen_ip a)) invalid_listen_ip
      >> reject_if (contains seen a) duplicate_listen_ip
      >> validate_listen_ips (a ∷ seen) vs

  -- parsePrefixes, with the prefixes seen.
  unfoldable pub parse_prefixes : List Prefix → List String → Result PolicyError (List Prefix)
  parse_prefixes seen [] = ok []
  parse_prefixes seen (v ∷ vs) = required (net.parse_prefix v) invalid_cidr >>= λ p.
      reject_if (not (is4 p.addr)) invalid_cidr
      >> reject_if (contains seen (masked p)) duplicate_cidr
      >> (parse_prefixes (masked p ∷ seen) vs >>= λ ps. ok (masked p ∷ ps))

abbrev bad_range : PortRange → Bool
bad_range r = r.start == 0 || r.end == 0 || ltb r.end r.start

abbrev is_transport : Protocol → Bool
is_transport tcp = true
is_transport udp = true
is_transport _ = false

-- The loop of `Validate` over the protocols, with those seen.
unfoldable pub validate_protocols : List Protocol → List Protocol → Checked
validate_protocols seen [] = ok tt
validate_protocols seen (p ∷ ps) =
    reject_if (not (is_transport p)) unsupported_protocol
    >> reject_if (contains seen p) duplicate_protocol
    >> validate_protocols (p ∷ seen) ps

abbrev pub max_int64 : ℕ
max_int64 = 2 ^ 63 - 1

-- The checks of `Validate` on single values, and those on lists.
abbrev pub validate_values : Policy → Checked
validate_values p =
    reject_if (not (valid_identifier p.tenant_id)) invalid_tenant_id
    >> reject_if (p.resource_version == 0) no_resource_version
    >> reject_if (ltb 1000000 p.max_forwards) too_many_forwards
    >> reject_if
        (ltb max_int64 p.ingress_rate_limit_bps
          || ltb max_int64 p.egress_rate_limit_bps
          || ltb max_int64 p.traffic_quota_bytes)
        exceeds_integer_range

module _ ⦃net : NetText⦄ where
  abbrev pub validate_lists : Policy → Checked
  validate_lists p =
      validate_identifiers [] p.allowed_ingress_nodes
      >> validate_identifiers [] p.allowed_exit_nodes
      >> validate_listen_ips ⦃net = net⦄ [] p.allowed_listen_ips
      >> reject_if (any bad_range p.allowed_port_ranges) invalid_port_range
      >> validate_protocols [] p.allowed_protocols
      >> (parse_prefixes ⦃net = net⦄ [] p.allowed_target_cidrs >>= λ _. ok tt)
      >> (parse_prefixes ⦃net = net⦄ [] p.denied_target_cidrs >>= λ _. ok tt)

  -- Policy.Validate. The code walks over the two lists of nodes in any order.
  unfoldable pub validate : Policy → Checked
  validate p = validate_values p >> validate_lists p
