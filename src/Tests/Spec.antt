-- ===== src/Tests/Spec.antt =====
-- A forward with a deadline, and the canonical form of a state.
use l4way.Prelude.{◌≡◌, refl, some, none, List, [], ◌∷◌, ◌==◌, nat_eq, if◌then◌else◌}
use l4way.Net.{v4, PrefixText, prefix_from}
use l4way.Spec.{ForwardSpec, DesiredState, Endpoint, tcp, udp, direct, active, paused, masquerade}
use l4way.Spec.Canonical.{canonical}
use l4way.Spec.Checksum.{canonical-canonical}
use l4way.Spec.Deadlines.{effective_lifecycle}

abbrev pub endpoint_at : Endpoint
endpoint_at = record { address = v4 167772161; hostname = ""; port = 443 }

abbrev pub web : ForwardSpec
web = record {
  id = "web";
  user_id = "tenant";
  protocols = udp ∷ tcp ∷ [];
  ingress_node_id = "near";
  exit_node_id = "";
  listen = endpoint_at;
  target = endpoint_at;
  service_vip = none;
  fabric_link_id = "";
  path_mode = direct;
  snat = record { mode = masquerade; address = none };
  traffic_class_id = 0;
  rate_limit = none;
  traffic_quota = none;
  expires_at = some 50;
  drain_deadline = none;
  lifecycle = active;
  resource_version = 1;
}

before_expiry : effective_lifecycle web 49 ≡ active
unfolding effective_lifecycle
before_expiry = refl

at_expiry : effective_lifecycle web 50 ≡ paused
unfolding effective_lifecycle
at_expiry = refl

abbrev pub state_with : List ForwardSpec → DesiredState
state_with forwards = record {
  schema_version = 5;
  node_id = "near";
  generation = 1;
  management_domain = "";
  service_cidrs = prefix_from (v4 167772161) 8 ∷ [];
  fabric_links = [];
  health_checks = [];
  user_policies = [];
  protocol_blocks = none;
  forwards = forwards;
}

-- One text for each length is enough for these states.
abbrev pub texts : PrefixText
texts = record { text = λ p. if p.bits_plus_one == 9 then "10.0.0.0/8" else "other" }

canonical-canonical_example :
    canonical ⦃names = texts⦄ (canonical ⦃names = texts⦄ (state_with (web ∷ [])))
    ≡ canonical ⦃names = texts⦄ (state_with (web ∷ []))
canonical-canonical_example = canonical-canonical texts (state_with (web ∷ []))
