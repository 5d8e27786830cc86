-- ===== src/Spec/Canonical.antt =====
-- internal/spec/canonical.go: the form of a desired state that is hashed, compared and published.
use l4way.Prelude.{◌-◌, Bool, Option, none, some, map, ltb, if◌then◌else◌, str_lt, ◌==◌, string_eq}
use l4way.Prelude.Sort.{sort_by}
use l4way.Net.{Prefix, PrefixText, unmap, is4in6, bits, is_valid_prefix, prefix_from, masked}
use l4way.Spec.{
  Protocol, protocol_text, Endpoint, GreSpec, FabricLinkSpec, UserPolicySpec, ProtocolBlockPolicy,
  blocks_any, HealthCheckSpec, ForwardSpec, DesiredState,
}
use mathlib.Core.Option

-- canonicalInterfacePrefix. A length below 96 becomes negative there, which `PrefixFrom` refuses.
unfoldable pub canonical_interface_prefix : Prefix → Prefix
canonical_interface_prefix p =
    if is_valid_prefix p
    then (if is4in6 p.addr
        then (if ltb (bits p) 96
            then record { addr = unmap p.addr; bits_plus_one = 0 }
            else prefix_from (unmap p.addr) (bits p - 96))
        else prefix_from (unmap p.addr) (bits p))
    else p

-- canonicalPrefix
unfoldable pub canonical_prefix : Prefix → Prefix
canonical_prefix p = if is_valid_prefix p then masked (canonical_interface_prefix p) else p

unfoldable pub canonical_blocks : Option ProtocolBlockPolicy → Option ProtocolBlockPolicy
canonical_blocks none = none
canonical_blocks (some policy) = if blocks_any policy then some policy else none

unfoldable pub canonical_endpoint : Endpoint → Endpoint
canonical_endpoint e = record e { address = unmap e.address; hostname = "" }

unfoldable pub canonical_gre : GreSpec → GreSpec
canonical_gre gre = record gre {
  underlay_local = unmap gre.underlay_local;
  underlay_remote = unmap gre.underlay_remote;
}

unfoldable pub canonical_link : FabricLinkSpec → FabricLinkSpec
canonical_link link = record link {
  local_address = canonical_interface_prefix link.local_address;
  peer_address = unmap link.peer_address;
  gre = Option.map canonical_gre link.gre;
}

unfoldable pub canonical_check : HealthCheckSpec → HealthCheckSpec
canonical_check check = record check { endpoint = canonical_endpoint check.endpoint }

abbrev pub protocol_less : Protocol → Protocol → Bool
protocol_less p q = str_lt (protocol_text p) (protocol_text q)

unfoldable pub canonical_forward : ForwardSpec → ForwardSpec
canonical_forward f = record f {
  protocols = sort_by protocol_less f.protocols;
  listen = canonical_endpoint f.listen;
  target = canonical_endpoint f.target;
  service_vip = Option.map unmap f.service_vip;
  snat = record f.snat { address = Option.map unmap f.snat.address };
}

-- By pool, then by backend.
abbrev pub check_less : HealthCheckSpec → HealthCheckSpec → Bool
check_less a b =
    if a.pool_id == b.pool_id then str_lt a.backend_id b.backend_id else str_lt a.pool_id b.pool_id

abbrev pub link_less : FabricLinkSpec → FabricLinkSpec → Bool
link_less a b = str_lt a.id b.id

abbrev pub policy_less : UserPolicySpec → UserPolicySpec → Bool
policy_less a b = str_lt a.user_id b.user_id

abbrev pub forward_less : ForwardSpec → ForwardSpec → Bool
forward_less a b = str_lt a.id b.id

module _ ⦃names : PrefixText⦄ where
  abbrev pub prefix_less : Prefix → Prefix → Bool
  prefix_less p q = str_lt (names.text p) (names.text q)

  -- DesiredState.Canonical
  unfoldable pub canonical : DesiredState → DesiredState
  canonical s = record s {
    protocol_blocks = canonical_blocks s.protocol_blocks;
    service_cidrs = sort_by prefix_less (map canonical_prefix s.service_cidrs);
    fabric_links = sort_by link_less (map canonical_link s.fabric_links);
    health_checks = sort_by check_less (map canonical_check s.health_checks);
    user_policies = sort_by policy_less s.user_policies;
    forwards = sort_by forward_less (map canonical_forward s.forwards);
  }
