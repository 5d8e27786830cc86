-- ===== src/Tests/Cluster.antt =====
-- Two nodes with a carrier between them, and a forward via the second.
use l4way.Prelude.{
  ◌+◌, ◌≤◌, ◌≡◌, ◌≢◌, refl, inl, inr, String, true, Option, some, none, List, [], ◌∷◌, ok, In,
  lookup, insert, of_pairs, arith, string_eq,
}
use l4way.Prelude.Sort.{sort_by, place}
use l4way.Net.{v4, Addr, unmap}
use l4way.Spec.{via_exit, tcp, gre, masquerade, active}
use l4way.Health.{healthy}
use l4way.Cluster.{
  NodeRole, ingress, exit, prefer_distinct, NodeSelector, Node, NodeRuntime, FabricLink, Backend,
  BackendPool, Forward, Plan, Schedule, AlertCode, HealthPolicy, HealthObservation,
}
use l4way.Cluster.Backends.{
  find_backend, prefer, preferred_backend, verdict, choose_observed, choose_backend,
}
use l4way.Cluster.Backends.Choice.{
  IsPreferred, preferred_backend-IsPreferred, Serves, choose_observed-Serves,
}
use l4way.Cluster.Capacity.{
  no_usage, fits, consume, effective_reservation, add_usage, IsWithin, IsCapacity,
  add_usage-IsWithin,
}
use l4way.Cluster.Fabric.{find_link, reciprocal_link, match_link, first_match, matching_links}
use l4way.Cluster.Fabric.Reciprocal.{AreReciprocal, matching_links-AreReciprocal}
use l4way.Cluster.Nodes.{
  Request, node_has_role, selector_matches, supports_fabric, policies_requirements, required,
  supports, find_node, previous, joins, usable, eligible, node_less, pick, choose_node,
}
use l4way.Cluster.Nodes.Eligible.{IsFit, choose_node-IsFit, choose_node_total}
use l4way.Cluster.Place.{
  Inputs, prior_of, place_ingress, place_exit, place_backend, place_via_exit, place_forward,
  place_all, near_request, place as place_run,
}
use l4way.Cluster.Place.Overcommit.{
  AreNodes, committed, one, ingress_bits, egress_bits, place_within_capacity,
}
use l4way.Cluster.Place.Paths.{ArePlaced, place-ArePlaced}

abbrev near_addr : Addr
near_addr = v4 2886729729

abbrev far_addr : Addr
far_addr = v4 2886729730

abbrev link_to : String → String → Addr → Addr → FabricLink
link_to id peer local_addr peer_addr = record {
  id = id;
  peer_node_id = peer;
  transport = gre;
  interface = "gre1";
  local_address = record { addr = local_addr; bits_plus_one = 31 };
  peer_address = peer_addr;
  mtu = 1476;
  routing_id = 7;
  trusted = true;
  wire_guard = none;
  gre = none;
  resource_version = 1;
}

abbrev out_link : FabricLink
out_link = link_to "out" "far" near_addr far_addr

abbrev in_link : FabricLink
in_link = link_to "in" "near" far_addr near_addr

abbrev node_with : String → NodeRole → String → FabricLink → Node
node_with id role domain link = record {
  id = id;
  enabled = true;
  roles = role ∷ [];
  labels = [];
  listen_ips = [];
  failure_domain = domain;
  capacity = record { max_forwards = 2; ingress_bits_per_second = 100; egress_bits_per_second = 0 };
  fabric_links = link ∷ [];
  protocol_blocks = none;
}

abbrev near : Node
near = node_with "near" ingress "east" out_link

abbrev far : Node
far = node_with "far" exit "west" in_link

abbrev backend : Backend
backend = record {
  id = "one";
  target = record { address = v4 16; hostname = ""; port = 80 };
  probe_endpoint = none;
  priority = 0;
  resource_version = 1;
}

abbrev pool : BackendPool
pool = record { id = "pool"; backends = backend ∷ []; health = none; resource_version = 1 }

abbrev any_node : NodeSelector
any_node = record { node_ids = []; match_labels = [] }

abbrev forward : Forward
forward = record {
  id = "web";
  user_id = "tenant";
  protocols = tcp ∷ [];
  listen = record { address = near_addr; hostname = ""; port = 443 };
  path_mode = via_exit;
  ingress = any_node;
  exit = some any_node;
  failure_domain_policy = prefer_distinct;
  backend_pool_id = "pool";
  snat = record { mode = masquerade; address = none };
  reservation = record { ingress_bits_per_second = 40; egress_bits_per_second = 5 };
  rate_limit = none;
  traffic_quota = none;
  expires_at = none;
  drain_deadline = none;
  lifecycle = active;
  resource_version = 1;
}

abbrev plan : Plan
plan = record {
  schema_version = 1;
  id = "plan";
  revision = 1;
  node_offline_after_seconds = 30;
  rollout = none;
  service_cidrs = [];
  nodes = far ∷ near ∷ [];
  user_policies = [];
  backend_pools = pool ∷ [];
  forwards = forward ∷ [];
}

abbrev runtime_of : String → NodeRuntime
runtime_of id = record {
  id = id;
  available = true;
  last_seen = 1;
  capabilities =
      ("nft.via-exit", 1)
      ∷ ("fabric.policy-routing", 1)
      ∷ ("fabric.mss-clamp", 1)
      ∷ ("fabric.gre", 1)
      ∷ [];
  wire_guard_public_key = "";
}

abbrev runtimes : List (String × NodeRuntime)
runtimes = ("near", runtime_of "near") ∷ ("far", runtime_of "far") ∷ []

abbrev inputs : Inputs
inputs = record {
  plan = plan;
  runtimes = runtimes;
  observations = λ k. none;
  previous = [];
  now = 5;
}

abbrev schedule : Schedule
schedule = record {
  placements =
      record {
        forward_id = "web";
        ingress_id = "near";
        exit_id = "far";
        backend_id = "one";
        target = backend.target;
        path_mode = via_exit;
        fabric_in_id = "out";
        fabric_out_id = "in";
      }
      ∷ [];
  alerts = [];
}

linked : matching_links near far ≡ some (out_link, in_link)
unfolding matching_links first_match match_link reciprocal_link find_link unmap sort_by place
linked = refl

matching_links-AreReciprocal_example : AreReciprocal near far out_link in_link
matching_links-AreReciprocal_example = matching_links-AreReciprocal near far out_link in_link linked

placed : place_run inputs ≡ ok schedule
unfolding place_run place_all place_forward place_via_exit place_exit place_ingress place_backend
    prior_of choose_node pick previous find_node eligible usable joins supports required
    policies_requirements supports_fabric selector_matches node_has_role node_less matching_links
    first_match match_link reciprocal_link find_link unmap sort_by place lookup insert of_pairs
    choose_backend preferred_backend prefer find_backend fits consume effective_reservation
placed = refl

nodes_apart : (a b : Node) → In a plan.nodes → In b plan.nodes → a.id ≡ b.id → a ≡ b
nodes_apart a b (inl p) (inl q) e = cc (p, q)
nodes_apart a b (inl p) (inr (inl q)) e = cc (p, q, e)
nodes_apart a b (inr (inl p)) (inl q) e = cc (p, q, e)
nodes_apart a b (inr (inl p)) (inr (inl q)) e = cc (p, q)
nodes_apart a b (inl p) (inr (inr x)) e = absurd x
nodes_apart a b (inr (inl p)) (inr (inr x)) e = absurd x
nodes_apart a b (inr (inr x)) _ e = absurd x

small : IsCapacity near.capacity
small = record { forwards = omega arith; ingress = omega arith; egress = omega arith }

nodes_small : (a : Node) → In a plan.nodes → IsCapacity a.capacity
nodes_small a (inl p) = rw p small
nodes_small a (inr (inl p)) = rw p small
nodes_small a (inr (inr x)) = absurd x

nodes_fine : AreNodes plan.nodes
nodes_fine = record { unique = nodes_apart; sized = nodes_small }

place_within_capacity_example :
    (committed one "near" plan.forwards schedule.placements ≤ 2)
    × (near.capacity.ingress_bits_per_second ≢ 0
        → committed ingress_bits "near" plan.forwards schedule.placements ≤ 100)
    × (near.capacity.egress_bits_per_second ≢ 0
        → committed egress_bits "near" plan.forwards schedule.placements ≤ 0)
place_within_capacity_example =
    place_within_capacity inputs nodes_fine schedule placed near (inr (inl refl))

place-ArePlaced_example : ArePlaced inputs plan.forwards schedule.placements
place-ArePlaced_example = place-ArePlaced inputs schedule placed

abbrev request : Request
request = near_request inputs forward

chosen : choose_node runtimes [] request plan.nodes ≡ some near
unfolding choose_node pick previous find_node eligible usable joins supports required
    policies_requirements supports_fabric selector_matches node_has_role node_less sort_by place
    lookup insert of_pairs fits effective_reservation prior_of
chosen = refl

near_eligible : eligible runtimes [] request near ≡ true
unfolding eligible usable supports required policies_requirements selector_matches node_has_role
    lookup insert of_pairs fits effective_reservation prior_of
near_eligible = refl

choose_node-IsFit_example : In near plan.nodes × IsFit runtimes [] request near
choose_node-IsFit_example = choose_node-IsFit runtimes [] request plan.nodes near chosen

choose_node_total_example :
    (node : Node) × (choose_node runtimes [] request plan.nodes ≡ some node)
    × (request.previous_id ≢ "" → near.id ≡ request.previous_id → node.id ≡ near.id)
choose_node_total_example =
    choose_node_total runtimes [] request plan.nodes near (inr (inl refl)) near_eligible

used_fits : fits near no_usage forward.reservation ≡ true
unfolding fits
used_fits = refl

unused : IsWithin near.capacity no_usage
unused = record { forwards = omega arith; ingress = λ n. omega arith; egress = λ n. omega arith }

add_usage-IsWithin_example :
    IsWithin near.capacity (add_usage no_usage forward.reservation)
    × ((add_usage no_usage forward.reservation).forwards ≡ 0 + 1)
    × (near.capacity.ingress_bits_per_second ≢ 0
        → (add_usage no_usage forward.reservation).ingress ≡ 0 + 40)
    × (near.capacity.egress_bits_per_second ≢ 0
        → (add_usage no_usage forward.reservation).egress ≡ 0 + 5)
add_usage-IsWithin_example =
    add_usage-IsWithin near no_usage forward.reservation small unused used_fits

preferred : preferred_backend (backend ∷ []) "two" ≡ some backend
unfolding preferred_backend prefer find_backend sort_by place
preferred = refl

preferred_backend-IsPreferred_example : IsPreferred (backend ∷ []) "two" backend
preferred_backend-IsPreferred_example =
    preferred_backend-IsPreferred (backend ∷ []) "two" backend preferred

abbrev observe : Backend → Option HealthObservation
observe b = some (record { status = healthy; resource_version = 1; observed_at = 3 })

abbrev policy : HealthPolicy
policy = record {
  interval_seconds = 5;
  timeout_milliseconds = 200;
  failure_threshold = 2;
  success_threshold = 1;
  stale_after_seconds = 15;
}

choose_observed-Serves_example :
    (b : Backend) × (alert : Option AlertCode) × (choose_observed observe policy 5 (backend ∷ []) ""
      ≡ (some b, alert))
    × In b (backend ∷ [])
    × Serves (λ c. verdict policy 5 c (observe c)) (backend ∷ []) "" b alert
choose_observed-Serves_example =
    choose_observed-Serves observe policy 5 (backend ∷ []) "" (λ e. cc e)
