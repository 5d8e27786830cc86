-- ===== src/Tests/Iam.antt =====
-- A tenant with one node, one address and one network of targets.
use l4way.Prelude.{
  ◌≤◌, ◌≡◌, ◌≢◌, ◌↔◌, refl, some, none, [], ◌∷◌, String, ◌==◌, string_eq, nat_eq, if◌then◌else◌, ok,
  false, In,
}
use l4way.Net.{Addr, v4, prefix_from, masked, contains_addr}
use l4way.Spec.{
  ForwardSpec, RateLimitSpec, TrafficQuotaSpec, UserPolicySpec, tcp, direct, active, masquerade,
  pause,
}
use l4way.Iam.{Policy, NetText, contains, port_allowed}
use l4way.Iam.Validate.{
  validate, validate_identifiers, validate_listen_ips, validate_protocols, parse_prefixes,
}
use l4way.Spec.Identifier.{valid_identifier}
use l4way.Iam.Authorize.{authorize_forward, authorize_target, protected_target_cidrs}
use l4way.Iam.Authorize.Limits.{IsWithinPolicy, authorize_forward-IsWithinPolicy}
use l4way.Iam.Authorize.Target.{IsReachable, authorize_target_lem}
use l4way.Iam.Canonical.{Ascending, unique_sorted, unique_sorted_lem}
use l4way.Iam.DataPlane.{burst_bytes, data_plane_policy}
use l4way.Iam.DataPlane.Burst.{
  IsTenantPolicy, data_plane_policy-IsTenantPolicy, authorize_forward-within_tenant,
}

abbrev listen_addr : Addr
listen_addr = v4 167772161

abbrev target_addr : Addr
target_addr = v4 3221226000

-- The texts that the policy below has.
abbrev net : NetText
net = record {
  parse_addr = λ s. if s == "10.0.0.1" then some listen_addr else none;
  parse_prefix = λ s.
      if s == "192.0.2.0/24"
      then some (record { addr = v4 3221225984; bits_plus_one = 25 })
      else none;
  addr_text = λ a. "10.0.0.1";
}

abbrev policy : Policy
policy = record {
  tenant_id = "tenant";
  allowed_ingress_nodes = "near" ∷ [];
  allowed_exit_nodes = [];
  allowed_listen_ips = "10.0.0.1" ∷ [];
  allowed_port_ranges = record { start = 400; end = 500 } ∷ [];
  allowed_protocols = tcp ∷ [];
  allow_via_exit = false;
  max_forwards = 3;
  ingress_rate_limit_bps = 8000000;
  egress_rate_limit_bps = 0;
  traffic_quota_bytes = 1000;
  allowed_target_cidrs = "192.0.2.0/24" ∷ [];
  denied_target_cidrs = [];
  resource_version = 2;
  created_at = 1;
  updated_at = 1;
}

abbrev rate : RateLimitSpec
rate = record { ingress_bits_per_second = 4000000; egress_bits_per_second = 9; burst_bytes = 70000 }

abbrev quota : TrafficQuotaSpec
quota = record { bytes = 900; policy = pause }

abbrev forward : ForwardSpec
forward = record {
  id = "web";
  user_id = "tenant";
  protocols = tcp ∷ [];
  ingress_node_id = "near";
  exit_node_id = "";
  listen = record { address = listen_addr; hostname = ""; port = 443 };
  target = record { address = target_addr; hostname = ""; port = 443 };
  service_vip = none;
  fabric_link_id = "";
  path_mode = direct;
  snat = record { mode = masquerade; address = none };
  traffic_class_id = 0;
  rate_limit = some rate;
  traffic_quota = some quota;
  expires_at = some 50;
  drain_deadline = none;
  lifecycle = active;
  resource_version = 1;
}

abbrev whole : RateLimitSpec
whole = record {
  ingress_bits_per_second = 8000000;
  egress_bits_per_second = 0;
  burst_bytes = 100000;
}

abbrev tenant_policy : UserPolicySpec
tenant_policy = record {
  user_id = "tenant";
  traffic_class_id = 0;
  rate_limit = some whole;
  traffic_quota = some (record { bytes = 1000; policy = pause });
  resource_version = 2;
}

authorized : authorize_forward ⦃net = net⦄ policy forward 1 (some 60) 40 ≡ ok tt
unfolding authorize_forward authorize_target protected_target_cidrs validate valid_identifier
    validate_identifiers validate_listen_ips validate_protocols parse_prefixes contains port_allowed
    prefix_from masked contains_addr
authorized = refl

granted : data_plane_policy ⦃net = net⦄ policy ≡ ok (some tenant_policy)
unfolding data_plane_policy burst_bytes validate valid_identifier validate_identifiers
    validate_listen_ips validate_protocols parse_prefixes contains masked
granted = refl

authorize_forward-IsWithinPolicy_example : IsWithinPolicy ⦃net = net⦄ policy forward 1 (some 60) 40
authorize_forward-IsWithinPolicy_example =
    authorize_forward-IsWithinPolicy ⦃net = net⦄ policy forward 1 (some 60) 40 authorized

authorize_target_lem_example :
    (authorize_target ⦃net = net⦄ policy target_addr ≡ ok tt)
    ↔ IsReachable ⦃net = net⦄ policy target_addr
authorize_target_lem_example = authorize_target_lem ⦃net = net⦄ policy target_addr

data_plane_policy-IsTenantPolicy_example : IsTenantPolicy policy tenant_policy
data_plane_policy-IsTenantPolicy_example =
    data_plane_policy-IsTenantPolicy ⦃net = net⦄ policy (some tenant_policy) granted

authorize_forward-within_tenant_example :
    (tenant_policy.user_id ≡ forward.user_id)
    × ((w part : RateLimitSpec)
        → tenant_policy.rate_limit ≡ some w
        → forward.rate_limit ≡ some part
        → (w.ingress_bits_per_second ≢ 0 → part.ingress_bits_per_second ≤ w.ingress_bits_per_second)
          × (w.egress_bits_per_second ≢ 0 → part.egress_bits_per_second ≤ w.egress_bits_per_second))
    × ((w part : TrafficQuotaSpec)
        → tenant_policy.traffic_quota ≡ some w
        → forward.traffic_quota ≡ some part
        → w.bytes ≢ 0
        → part.bytes ≤ w.bytes)
authorize_forward-within_tenant_example =
    authorize_forward-within_tenant ⦃net = net⦄ policy tenant_policy forward 1 (some 60) 40
      authorized granted

unique_sorted_lem_example :
    Ascending (unique_sorted ("b" ∷ "a" ∷ "b" ∷ []))
    × ((x : String) → In x (unique_sorted ("b" ∷ "a" ∷ "b" ∷ [])) ↔ In x ("b" ∷ "a" ∷ "b" ∷ []))
unique_sorted_lem_example = unique_sorted_lem ("b" ∷ "a" ∷ "b" ∷ [])
