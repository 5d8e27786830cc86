-- ===== src/Spec/Checksum.antt =====
-- The canonical form (internal/spec/canonical.go) is its own canonical form.
mod Prefixes
use Prefixes.{unmap-unmap, canonical_interface_prefix_idem, canonical_prefix_idem}
use l4way.Prelude.{◌≡◌, refl, ap, Bool, true, false, Option, none, some, List, map, arith}
use l4way.Prelude.Order.{by_string, by_two_strings}
use l4way.Prelude.Sort.{sort_by, sort_by-Sorted, sort_by_of_Sorted, sort_map_idem}
use l4way.Net.{Prefix, PrefixText, Addr, unmap}
use l4way.Spec.{
  Endpoint, GreSpec, FabricLinkSpec, HealthCheckSpec, ForwardSpec, DesiredState,
  ProtocolBlockPolicy, UserPolicySpec, protocol_text,
}
use l4way.Spec.Canonical.{
  canonical_prefix, canonical_interface_prefix, canonical_blocks, canonical_endpoint, canonical_gre,
  canonical_link, canonical_check, canonical_forward, canonical, protocol_less, policy_less,
}
use mathlib.Core.Option

canonical_blocks_idem :
    (o : Option ProtocolBlockPolicy) → canonical_blocks (canonical_blocks o) ≡ canonical_blocks o
unfolding canonical_blocks
canonical_blocks_idem o = ground arith

canonical_endpoint_idem :
    (e : Endpoint) → canonical_endpoint (canonical_endpoint e) ≡ canonical_endpoint e
unfolding canonical_endpoint
canonical_endpoint_idem e = rw (unmap-unmap e.address)

map_idem :
    {A : Type 0} (f : A → A)
    → ((a : A) → f (f a) ≡ f a)
    → (o : Option A) → Option.map f (Option.map f o) ≡ Option.map f o
map_idem f h none = refl
map_idem f h (some a) = ap some (h a)

canonical_gre_idem : (g : GreSpec) → canonical_gre (canonical_gre g) ≡ canonical_gre g
unfolding canonical_gre
canonical_gre_idem g = rw (unmap-unmap g.underlay_local) (rw (unmap-unmap g.underlay_remote))

canonical_link_idem : (l : FabricLinkSpec) → canonical_link (canonical_link l) ≡ canonical_link l
unfolding canonical_link
canonical_link_idem l = cc (
  canonical_interface_prefix_idem l.local_address,
  unmap-unmap l.peer_address,
  map_idem canonical_gre canonical_gre_idem l.gre,
)

canonical_check_idem :
    (c : HealthCheckSpec) → canonical_check (canonical_check c) ≡ canonical_check c
unfolding canonical_check
canonical_check_idem c = rw (canonical_endpoint_idem c.endpoint)

canonical_forward_idem :
    (f : ForwardSpec) → canonical_forward (canonical_forward f) ≡ canonical_forward f
unfolding canonical_forward
canonical_forward_idem f = cc (
  sort_by_of_Sorted protocol_less _ (sort_by-Sorted (by_string protocol_text) f.protocols),
  canonical_endpoint_idem f.listen,
  canonical_endpoint_idem f.target,
  map_idem unmap unmap-unmap f.service_vip,
  map_idem unmap unmap-unmap f.snat.address,
)

-- The canonical form of a canonical form is that form itself, whatever the text form of prefixes.
pub canonical-canonical :
    (names : PrefixText) (s : DesiredState)
    → canonical ⦃names = names⦄ (canonical ⦃names = names⦄ s) ≡ canonical ⦃names = names⦄ s
unfolding canonical
canonical-canonical names s = cc (
  canonical_blocks_idem s.protocol_blocks,
  sort_map_idem (by_string names.text) canonical_prefix s.service_cidrs canonical_prefix_idem,
  sort_map_idem (by_string (λ (l : FabricLinkSpec). l.id)) canonical_link s.fabric_links
      canonical_link_idem,
  sort_map_idem
      (by_two_strings (λ (c : HealthCheckSpec). c.pool_id) (λ (c : HealthCheckSpec). c.backend_id))
      canonical_check s.health_checks canonical_check_idem,
  sort_by_of_Sorted policy_less _
      (sort_by-Sorted (by_string (λ (p : UserPolicySpec). p.user_id)) s.user_policies),
  sort_map_idem (by_string (λ (f : ForwardSpec). f.id)) canonical_forward s.forwards
      canonical_forward_idem,
)
