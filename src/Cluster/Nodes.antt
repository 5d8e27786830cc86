-- ===== src/Cluster/Nodes.antt =====
-- internal/cluster/scheduler.go: the choice of a node for one end of a forward.
pub mod Eligible
use l4way.Prelude.{
  ℕ, ◌*◌, String, Bool, true, false, ◌&&◌, ◌||◌, not, Option, none, some, List, [], ◌∷◌, ◌++◌, ltb,
  leb, ◌==◌, nat_eq, string_eq, if◌then◌else◌, str_lt, any, all, keep, lookup, get_or_default,
  is_some, map, Result, ok, err,
}
use l4way.Prelude.Sort.{sort_by}
use l4way.Spec.{
  PathMode, is_direct, is_via_exit, Lifecycle, draining, force_deleting, SnatMode, static,
  FabricTransport, wire_guard, direct_l3, gre, UserPolicySpec,
}
use l4way.Cluster.{
  NodeRole, ingress, exit, FailureDomainPolicy, distinct, prefer_distinct, unset, NodeSelector,
  Node, NodeCapacity, BackendPool, Forward, Plan, NodeRuntime, Reservation,
}
use l4way.Cluster.Capacity.{Usages, usage_of, fits, effective_reservation}
use l4way.Cluster.Fabric.{matching_links}

abbrev pub role_eqb : NodeRole → NodeRole → Bool
role_eqb ingress ingress = true
role_eqb exit exit = true
role_eqb (NodeRole.other s) (NodeRole.other t) = s == t
role_eqb _ _ = false

-- nodeHasRole
unfoldable pub node_has_role : Node → NodeRole → Bool
node_has_role node role = any (λ candidate. role_eqb candidate role) node.roles

-- selectorMatches. A label that a node lacks reads as the empty string.
unfoldable pub selector_matches : NodeSelector → Node → Bool
selector_matches selector node =
    (elim selector.node_ids [ [] ↦ true | x ∷ xs ↦ any (λ id. id == node.id) (x ∷ xs) ])
    && all (λ p. get_or_default "" (lookup p.0 node.labels) == p.1) selector.match_labels

abbrev pub capability : NodeRuntime → String → ℕ
capability runtime name = get_or_default 0 (lookup name runtime.capabilities)

-- supportsFabric
unfoldable pub supports_fabric : NodeRuntime → FabricTransport → Bool
supports_fabric runtime transport =
    not (ltb (capability runtime "fabric.policy-routing") 1)
    && not (ltb (capability runtime "fabric.mss-clamp") 1)
    && (elim transport [
      | wire_guard ↦
          leb 1 (capability runtime "fabric.wireguard") && not (runtime.wire_guard_public_key == "")
      | direct_l3 ↦ leb 1 (capability runtime "fabric.direct-l3")
      | gre ↦ leb 1 (capability runtime "fabric.gre")
      | FabricTransport.other s ↦ false
    ])

abbrev pub is_ingress : NodeRole → Bool
is_ingress ingress = true
is_ingress _ = false

abbrev pub is_exit : NodeRole → Bool
is_exit exit = true
is_exit _ = false

abbrev pub is_static : SnatMode → Bool
is_static static = true
is_static _ = false

abbrev pub is_draining : Lifecycle → Bool
is_draining draining = true
is_draining _ = false

abbrev pub is_force_deleting : Lifecycle → Bool
is_force_deleting force_deleting = true
is_force_deleting _ = false

abbrev pub Requirement : Type 0
Requirement = String × ℕ

abbrev pub require_if : Bool → List Requirement → List Requirement
require_if b reqs = if b then reqs else []

abbrev pub policy_requirements : String → UserPolicySpec → List Requirement
policy_requirements user_id policy =
    if policy.user_id == user_id
    then require_if (is_some policy.rate_limit) (("tc.rate-limit", 1) ∷ [])
      ++ require_if (is_some policy.traffic_quota)
          (("usage.l3", 1) ∷ ("nft.directional-counters", 1) ∷ [])
    else []

unfoldable pub policies_requirements : String → List UserPolicySpec → List Requirement
policies_requirements user_id [] = []
policies_requirements user_id (policy ∷ policies) =
    policy_requirements user_id policy ++ policies_requirements user_id policies

-- The map `required` of `supports`. It is only read key by key, and writes one version to a name.
unfoldable pub required : Plan → Forward → NodeRole → BackendPool → List Requirement
unfolding policies_requirements
required plan forward role pool =
    (if is_direct forward.path_mode
      then ("nft.direct", 2) ∷ []
      else ("nft.via-exit", 1) ∷ ("fabric.policy-routing", 1) ∷ ("fabric.mss-clamp", 1) ∷ [])
    ++ require_if (is_ingress role && is_some forward.rate_limit) (("tc.rate-limit", 1) ∷ [])
    ++ require_if (is_ingress role && is_some forward.traffic_quota)
        (("usage.l3", 1) ∷ ("nft.directional-counters", 1) ∷ [])
    ++ require_if (is_static forward.snat.mode) (("nft.static-snat", 1) ∷ [])
    ++ require_if (is_some forward.expires_at || is_some forward.drain_deadline)
        (("policy.local-deadline", 1) ∷ [])
    ++ require_if (is_draining forward.lifecycle) (("nft.drain", 1) ∷ [])
    ++ require_if (is_force_deleting forward.lifecycle) (("nft.force-delete", 1) ∷ [])
    ++ (if is_ingress role then policies_requirements forward.user_id plan.user_policies else [])
    ++ require_if
        (is_some pool.health
          && (is_direct forward.path_mode && is_ingress role
              || is_via_exit forward.path_mode && is_exit role))
        (("health.tcp-connect", 1) ∷ [])

-- supports
unfoldable pub supports : NodeRuntime → Plan → Forward → NodeRole → BackendPool → Bool
unfolding required
supports runtime plan forward role pool =
    all (λ r. not (ltb (capability runtime r.0) r.1)) (required plan forward role pool)

-- effectiveFailurePolicy
abbrev pub effective_failure_policy : FailureDomainPolicy → FailureDomainPolicy
effective_failure_policy unset = distinct
effective_failure_policy p = p

abbrev pub wants_distinct : FailureDomainPolicy → Bool
wants_distinct distinct = true
wants_distinct _ = false

abbrev pub prefers_distinct : FailureDomainPolicy → Bool
prefers_distinct prefer_distinct = true
prefers_distinct _ = false

unfoldable pub find_node : String → List Node → Option Node
find_node id [] = none
find_node id (node ∷ nodes) = if node.id == id then some node else find_node id nodes

-- The candidate that took this end before.
unfoldable pub previous : String → List Node → Option Node
unfolding find_node
previous previous_id candidates =
    if previous_id == "" then none else find_node previous_id candidates

-- `candidates[0]`, if there is one.
abbrev pub head? : List Node → Option Node
head? [] = none
head? (node ∷ _) = some node

-- What one call of `chooseNode` is given, but for the maps that the whole run shares. `opposite` is
-- the node at the other end, which the source looks up by `oppositeID`.
pub record Request : Type 0 where
  pub plan : Plan
  pub forward : Forward
  pub role : NodeRole
  pub selector : NodeSelector
  pub opposite : Option Node
  pub previous_id : String
  pub pool : BackendPool

abbrev pub is_opposite : Option Node → Node → Bool
is_opposite none node = false
is_opposite (some o) node = node.id == o.id

module _ (runtimes : List (String × NodeRuntime)) (usages : Usages) where
  -- The tests against the node at the other end.
  unfoldable pub joins : Request → Node → NodeRuntime → Node → Bool
  unfolding supports_fabric
  joins request node runtime opposite = elim (matching_links opposite node) [
    | none ↦ false
    | some (first, second) ↦
        (elim (lookup opposite.id runtimes) [
          | none ↦ false
          | some r ↦ supports_fabric r first.transport
        ])
        && supports_fabric runtime second.transport
        && not (
            wants_distinct (effective_failure_policy request.forward.failure_domain_policy)
            && node.failure_domain == opposite.failure_domain)
  ]

  -- The tests that a run-time record is there for.
  unfoldable pub usable : Request → Node → NodeRuntime → Bool
  usable request node runtime =
      runtime.available
      && supports runtime request.plan request.forward request.role request.pool
      && (elim request.opposite [
        | none ↦ true
        | some opposite ↦ joins request node runtime opposite
      ])

  -- The loop of `chooseNode` on one node: false is `continue`.
  unfoldable pub eligible : Request → Node → Bool
  eligible request node =
      not (is_opposite request.opposite node)
      && node.enabled
      && node_has_role node request.role
      && selector_matches request.selector node
      && fits node (usage_of usages node.id) (effective_reservation request.forward)
      && (elim (lookup node.id runtimes) [
        | none ↦ false
        | some runtime ↦ usable request node runtime
      ])

  -- The comparison by load: cross products of `uint32` numbers, which a `uint64` holds.
  abbrev pub load_less : Node → Node → Bool
  load_less a b =
      let left = (usage_of usages a.id).forwards * b.capacity.max_forwards in
      let right = (usage_of usages b.id).forwards * a.capacity.max_forwards in
      if left == right then str_lt a.id b.id else ltb left right

  -- The `less` of `sort.Slice` in `chooseNode`.
  unfoldable pub node_less : Request → Node → Node → Bool
  node_less request a b = elim request.opposite [
    | none ↦ load_less a b
    | some opposite ↦
        let a_distinct = not (a.failure_domain == opposite.failure_domain) in
        let b_distinct = not (b.failure_domain == opposite.failure_domain) in
        if prefers_distinct (effective_failure_policy request.forward.failure_domain_policy)
          && not (if a_distinct then b_distinct else not b_distinct)
        then a_distinct
        else load_less a b
  ]

  -- What `chooseNode` does with the candidates.
  unfoldable pub pick : Request → List Node → Option Node
  pick request candidates = elim (previous request.previous_id candidates) [
    | some node ↦ some node
    | none ↦ head? (sort_by (node_less request) candidates)
  ]

  -- chooseNode: `none` is the error that every node was rejected.
  unfoldable pub choose_node : Request → List Node → Option Node
  unfolding pick
  choose_node request nodes = pick request (keep (eligible request) nodes)
