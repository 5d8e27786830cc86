-- ===== src/Tests/Validate.antt =====
-- A state with a forward by way of an exit, a batch of traffic, and what a state needs of an agent.
use l4way.Prelude.{
  ◌≡◌, refl, String, some, none, List, [], ◌∷◌, true, false, ok, All, map, Fresh, ℕ, ◌+◌,
}
use l4way.Net.{v4, prefix_from}
use l4way.Spec.{
  ForwardSpec, FabricLinkSpec, DesiredState, Endpoint, tcp, udp, via_exit, active, masquerade,
  direct_l3, upload, download,
}
use l4way.Spec.Validate.{PeerText}
use l4way.Spec.Validate.State.{validate}
use l4way.Spec.Validate.State.Valid.{listeners_of}
use l4way.Spec.Validate.State.Forwarding.{IsServed, validate-Fresh}
use l4way.Usage.{Batch, Delta, key_of, validate_batch}
use l4way.Usage.Distinct.{IsSound, validate_batch-Fresh}
use l4way.Control.{default_capabilities, required_capabilities, missing_capabilities}
use l4way.Control.Covered.{missing-default}
use l4way.Tests.Spec.{web, state_with}

abbrev pub no_peers : PeerText
no_peers = record {
  decode_key = λ _. none;
  is_public_key = λ _. true;
  has_shared_secret = λ _. true;
  split_host_port = λ _. none;
  parse_port = λ _. none;
  parse_host = λ _. none;
}

-- 172.16.0.0/16 holds the service addresses, and 192.168.9.0/24 the two ends of the link.
abbrev far_link : FabricLinkSpec
far_link = record {
  id = "far-link";
  peer_node_id = "far";
  transport = direct_l3;
  interface = "eth1";
  local_address = prefix_from (v4 3232237825) 24;
  peer_address = v4 3232237826;
  mtu = 1500;
  routing_id = 7;
  trusted = true;
  wire_guard = none;
  gre = none;
  resource_version = 1;
}

abbrev crossing : ForwardSpec
crossing = record web {
  id = "crossing";
  exit_node_id = "far";
  listen = record { address = v4 3221225985; hostname = ""; port = 8443 };
  target = record { address = v4 3221225986; hostname = ""; port = 443 };
  service_vip = some (v4 2886729729);
  fabric_link_id = "far-link";
  path_mode = via_exit;
}

abbrev pub linked : DesiredState
linked = record (state_with (crossing ∷ [])) {
  service_cidrs = prefix_from (v4 2886729728) 16 ∷ [];
  fabric_links = far_link ∷ [];
}

linked_valid : validate ⦃peers = no_peers⦄ linked ≡ []
unfolding validate l4way.Spec.Validate.State.check_head l4way.Spec.Identifier.valid_identifier
    prefix_from l4way.Net.unmap l4way.Net.masked l4way.Spec.Canonical.canonical_interface_prefix
    l4way.Spec.Validate.State.check_versions l4way.Prelude.lookup
    l4way.Spec.Identifier.valid_interface l4way.Spec.Validate.validate_interface_prefix
    l4way.Net.contains_addr l4way.Spec.Validate.validate_ipv4 l4way.Spec.Validate.validate_endpoint
    l4way.Spec.Validate.Forwards.listen_key l4way.Prelude.insert
    l4way.Spec.Validate.Forwards.check_lifecycle l4way.Spec.Validate.Forwards.check_snat
    l4way.Spec.Validate.Forwards.check_deadlines l4way.Spec.Validate.validate_rate_limit
    l4way.Spec.Validate.validate_quota l4way.Spec.Validate.Forwards.check_overlaps
linked_valid = refl

validate-Fresh_example :
    Fresh [] (listeners_of "near" (crossing ∷ []))
    × All (λ f. f.path_mode ≡ via_exit → IsServed ⦃peers = no_peers⦄ linked f) (crossing ∷ [])
validate-Fresh_example = validate-Fresh ⦃peers = no_peers⦄ linked linked_valid

abbrev pub epoch : String
epoch = "0123456789abcdef0123456789abcdef0123456789abcdef0123456789abcdef"

abbrev traffic : Batch
traffic = record {
  node_id = "near";
  epoch = epoch;
  sequence = 4;
  generation = 2;
  observed_at = 90;
  deltas =
      record {
        forward_id = "web";
        protocol = tcp;
        direction = upload;
        resource_version = 1;
        packets = 2;
        bytes = 90;
        reset = false;
      }
      ∷ record {
        forward_id = "web";
        protocol = tcp;
        direction = download;
        resource_version = 1;
        packets = 2;
        bytes = 800;
        reset = false;
      }
      ∷ [];
}

traffic_valid : validate_batch traffic ≡ ok tt
unfolding validate_batch l4way.Spec.Identifier.valid_identifier l4way.Usage.valid_checksum
traffic_valid = refl

validate_batch-Fresh_example : All IsSound traffic.deltas × Fresh [] (map key_of traffic.deltas)
validate_batch-Fresh_example = validate_batch-Fresh traffic traffic_valid

missing-default_example :
    missing_capabilities (λ _. "1") default_capabilities (required_capabilities linked) ≡ []
missing-default_example = missing-default (λ _. "1") linked
