-- ===== src/Cluster/Place.antt =====
-- internal/cluster/scheduler.go: `Place` on a plan that is valid and canonical, which is what the
-- loop over the forwards is given. The observations of health are a function of their key.
pub mod Overcommit
pub mod Paths
pub mod Steps
use l4way.Prelude.{
  ℕ, String, Bool, true, false, ◌&&◌, Option, none, some, List, [], ◌∷◌, ◌++◌, if◌then◌else◌, ◌==◌,
  string_eq, lookup, insert, of_pairs, get_or_default, map, Result, ok, err, ◌>>=◌, ◌>>◌,
}
use l4way.Net.{invalid}
use l4way.Spec.{PathMode, is_via_exit, Endpoint}
use l4way.Cluster.{
  Node, NodeRuntime, NodeRole, ingress, exit, NodeSelector, Plan, Forward, FabricLink, Backend,
  BackendPool, HealthKey, HealthObservation, Placement, Alert, AlertCode, Schedule,
}
use l4way.Cluster.Backends.{choose_backend}
use l4way.Cluster.Capacity.{Usages, consume, effective_reservation}
use l4way.Cluster.Fabric.{matching_links}
use l4way.Cluster.Nodes.{Request, choose_node}

-- `ErrNoPlacement` with its cause, and the panics: a missing exit selector, an empty pool.
pub data PlaceError : Type 0 where
  no_ingress no_exit no_fabric : String → PlaceError
  nil_exit_selector empty_pool : PlaceError

abbrev pub no_pool : BackendPool
no_pool = record { id = ""; backends = []; health = none; resource_version = 0 }

abbrev pub no_placement : Placement
no_placement = record {
  forward_id = "";
  ingress_id = "";
  exit_id = "";
  backend_id = "";
  target = record { address = invalid; hostname = ""; port = 0 };
  path_mode = PathMode.other "";
  fabric_in_id = "";
  fabric_out_id = "";
}

-- previousByForward[id]
unfoldable pub prior_of : List Placement → String → Placement
prior_of previous id =
    get_or_default no_placement
      (lookup id (of_pairs (map (λ (p : Placement). (p.forward_id, p)) previous)))

abbrev pub or_fail {ℓ} : {A : Type ℓ} → Option A → PlaceError → Result PlaceError A
or_fail none e = err e
or_fail (some a) e = ok a

-- The exit of a forward, with the identifiers of the two links.
pub record ExitSide : Type 0 where
  pub node : Node
  pub fabric_in : String
  pub fabric_out : String

-- What the run looks at and does not change.
pub record Inputs : Type 0 where
  pub plan : Plan
  pub runtimes : List (String × NodeRuntime)
  pub observations : HealthKey → Option HealthObservation
  pub previous : List Placement
  pub now : ℕ

module _ (inputs : Inputs) where
  abbrev pub pool_of : Forward → BackendPool
  pool_of forward = get_or_default no_pool (
      lookup forward.backend_pool_id
        (of_pairs (map (λ (p : BackendPool). (p.id, p)) inputs.plan.backend_pools)))

  abbrev pub request_for : Forward → NodeRole → NodeSelector → Option Node → String → Request
  request_for forward role selector opposite previous_id = record {
    plan = inputs.plan;
    forward = forward;
    role = role;
    selector = selector;
    opposite = opposite;
    previous_id = previous_id;
    pool = pool_of forward;
  }

  abbrev pub near_request : Forward → Request
  near_request forward =
      request_for forward ingress forward.ingress none
        (prior_of inputs.previous forward.id).ingress_id

  abbrev pub far_request : Forward → NodeSelector → Node → Request
  far_request forward selector near =
      request_for forward exit selector (some near) (prior_of inputs.previous forward.id).exit_id

  unfoldable pub place_ingress : Usages → Forward → Result PlaceError Node
  place_ingress usages forward =
      or_fail (choose_node inputs.runtimes usages (near_request forward) inputs.plan.nodes)
        (no_ingress forward.id)

  -- The part under `forward.PathMode == spec.PathViaExit`.
  unfoldable pub place_exit : Usages → Forward → Node → Result PlaceError ExitSide
  place_exit usages forward near = do
    selector ← or_fail forward.exit nil_exit_selector
    far ←
        or_fail
          (choose_node inputs.runtimes usages (far_request forward selector near) inputs.plan.nodes)
          (no_exit forward.id)
    links ← or_fail (matching_links near far) (no_fabric forward.id)
    ok (record { node = far; fabric_in = links.0.id; fabric_out = links.1.id })

  unfoldable pub place_backend : Forward → String → Result PlaceError (Backend × Option AlertCode)
  place_backend forward probe_node_id =
      let choice =
        choose_backend (pool_of forward) probe_node_id
          (prior_of inputs.previous forward.id).backend_id inputs.observations inputs.now in
      do backend ← or_fail choice.0 empty_pool; ok (backend, choice.1)

  abbrev pub alert_of : Forward → Option AlertCode → List Alert
  alert_of forward none = []
  alert_of forward (some code) =
      record { code = code; forward_id = forward.id; pool_id = (pool_of forward).id } ∷ []

  pub record Step : Type 0 where
    pub usages : Usages
    pub placement : Placement
    pub alerts : List Alert

  unfoldable pub place_direct : Usages → Forward → Node → Result PlaceError Step
  place_direct usages forward near = do
    choice ← place_backend forward near.id
    ok (record {
      usages = consume usages near (effective_reservation forward);
      placement = record {
        forward_id = forward.id;
        ingress_id = near.id;
        exit_id = "";
        backend_id = choice.0.id;
        target = choice.0.target;
        path_mode = forward.path_mode;
        fabric_in_id = "";
        fabric_out_id = "";
      };
      alerts = alert_of forward choice.1;
    })

  unfoldable pub place_via_exit : Usages → Forward → Node → Result PlaceError Step
  place_via_exit usages forward near = do
    far ← place_exit usages forward near
    choice ← place_backend forward far.node.id
    ok (record {
      usages =
          consume (consume usages far.node (effective_reservation forward)) near
            (effective_reservation forward);
      placement = record {
        forward_id = forward.id;
        ingress_id = near.id;
        exit_id = far.node.id;
        backend_id = choice.0.id;
        target = choice.0.target;
        path_mode = forward.path_mode;
        fabric_in_id = far.fabric_in;
        fabric_out_id = far.fabric_out;
      };
      alerts = alert_of forward choice.1;
    })

  -- The body of the loop over the forwards.
  unfoldable pub place_forward : Usages → Forward → Result PlaceError Step
  place_forward usages forward = do
    near ← place_ingress usages forward
    if is_via_exit forward.path_mode
        then place_via_exit usages forward near
        else place_direct usages forward near

  unfoldable pub place_all : Usages → List Forward → Result PlaceError (Usages × Schedule)
  place_all usages [] = ok (usages, record { placements = []; alerts = [] })
  place_all usages (forward ∷ forwards) = do
    step ← place_forward usages forward
    rest ← place_all step.usages forwards
    ok (
      rest.0,
      record {
        placements = step.placement ∷ rest.1.placements;
        alerts = step.alerts ++ rest.1.alerts;
      },
    )

  -- Place
  unfoldable pub place : Result PlaceError Schedule
  unfolding place_all
  place = do result ← place_all [] inputs.plan.forwards; ok result.1
