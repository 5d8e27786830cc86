-- ===== src/Cluster/Nodes/Eligible.antt =====
-- What the node that `chooseNode` of internal/cluster/scheduler.go returns is fit for.
use l4way.Prelude.{
  ◌≡◌, ◌≢◌, ◌∙◌, sym, inl, inr, subst, String, true, false, Option, none, some, List, [], ◌∷◌,
  string_eq, In, In-keep, arith, Option-cases, keep, lookup,
}
use l4way.Prelude.Sort.{sort_by, In-sort_by}
use l4way.Cluster.{Node, NodeRuntime, FabricLink}
use l4way.Cluster.Capacity.{Usages, usage_of, fits, effective_reservation}
use l4way.Cluster.Fabric.{matching_links}
use l4way.Cluster.Nodes.{
  Request, previous, usable, head?, eligible, joins, supports, node_has_role, selector_matches,
  supports_fabric, effective_failure_policy, wants_distinct, find_node, pick, choose_node,
  node_less, is_opposite,
}

some-ne-none : {A : Type 0} {a : A} → ◌≢◌ {A = Option A} (some a) none
some-ne-none h = cc

module _ (runtimes : List (String × NodeRuntime)) (usages : Usages) (request : Request) where
  -- The node is apart from the one at the other end, joined to it by a fabric that both support, and
  -- in another failure domain if the forward demands that.
  pub record Joins (node : Node) (runtime : NodeRuntime) (opposite : Node) : Type 0 where
    pub first : FabricLink
    pub second : FabricLink
    pub linked : matching_links opposite node ≡ some (first, second)
    pub far : NodeRuntime
    pub far_known : lookup opposite.id runtimes ≡ some far
    pub far_supported : supports_fabric far first.transport ≡ true
    pub supported : supports_fabric runtime second.transport ≡ true
    pub apart : node.id ≢ opposite.id
    pub domains :
        wants_distinct (effective_failure_policy request.forward.failure_domain_policy) ≡ true
        → node.failure_domain ≢ opposite.failure_domain

  -- All that a node needs to take its end of the forward.
  pub record IsFit (node : Node) : Type 0 where
    pub enabled : node.enabled ≡ true
    pub role : node_has_role node request.role ≡ true
    pub selected : selector_matches request.selector node ≡ true
    pub room : fits node (usage_of usages node.id) (effective_reservation request.forward) ≡ true
    pub runtime : NodeRuntime
    pub known : lookup node.id runtimes ≡ some runtime
    pub available : runtime.available ≡ true
    pub capable : supports runtime request.plan request.forward request.role request.pool ≡ true
    pub joined : (opposite : Node) → request.opposite ≡ some opposite → Joins node runtime opposite

  far_parts :
      (opposite : Node) (link : FabricLink)
      → (elim (lookup opposite.id runtimes) [
        | none ↦ false
        | some r ↦ supports_fabric r link.transport
      ])
        ≡ true
      → (far : NodeRuntime) × (lookup opposite.id runtimes ≡ some far)
        × (supports_fabric far link.transport ≡ true)
  far_parts opposite link h = elim (Option-cases (lookup opposite.id runtimes)) [
    | inl e ↦ absurd (cc (rw e at h))
    | inr (far, e) ↦ (far, e, rw e at h)
  ]

  joins-Joins :
      (node : Node) (runtime : NodeRuntime) (opposite : Node)
      → node.id ≢ opposite.id
      → joins runtimes usages request node runtime opposite ≡ true
      → Joins node runtime opposite
  unfolding joins
  joins-Joins node runtime opposite apart h = elim (Option-cases (matching_links opposite node)) [
    | inl e ↦ absurd (ground arith)
    | inr ((first, second), e) ↦
        let (far, far_known, far_supported) = far_parts opposite first (ground arith) in
        record {
          first = first;
          second = second;
          linked = e;
          far = far;
          far_known = far_known;
          far_supported = far_supported;
          supported = ground arith;
          apart = apart;
          domains = ground (arith, string_eq.beq_iff node.failure_domain opposite.failure_domain);
        }
  ]

  usable_parts :
      (node : Node) (runtime : NodeRuntime)
      → usable runtimes usages request node runtime ≡ true
      → (runtime.available ≡ true)
        × (supports runtime request.plan request.forward request.role request.pool ≡ true)
        × ((opposite : Node)
            → request.opposite ≡ some opposite
            → joins runtimes usages request node runtime opposite ≡ true)
  unfolding usable
  usable_parts node runtime h = (ground arith, ground arith, λ o e. ground arith)

  eligible_parts :
      (node : Node)
      → eligible runtimes usages request node ≡ true
      → (is_opposite request.opposite node ≡ false)
        × (node.enabled ≡ true)
        × (node_has_role node request.role ≡ true)
        × (selector_matches request.selector node ≡ true)
        × (fits node (usage_of usages node.id) (effective_reservation request.forward) ≡ true)
        × (runtime : NodeRuntime) × (lookup node.id runtimes ≡ some runtime)
        × (usable runtimes usages request node runtime ≡ true)
  unfolding eligible
  eligible_parts node h = elim (Option-cases (lookup node.id runtimes)) [
    | inl e ↦ absurd (ground arith)
    | inr (runtime, e) ↦ (
      ground arith,
      ground arith,
      ground arith,
      ground arith,
      ground arith,
      runtime,
      e,
      ground arith,
    )
  ]

  apart_of :
      (node opposite : Node)
      → is_opposite request.opposite node ≡ false
      → request.opposite ≡ some opposite
      → node.id ≢ opposite.id
  apart_of node opposite h e = ground (arith, string_eq.beq_iff node.id opposite.id)

  eligible-IsFit : (node : Node) → eligible runtimes usages request node ≡ true → IsFit node
  eligible-IsFit node h =
      let (apart, enabled, role, selected, room, runtime, known, u) = eligible_parts node h in
      let (available, capable, joined) = usable_parts node runtime u in
      record {
        enabled = enabled;
        role = role;
        selected = selected;
        room = room;
        runtime = runtime;
        known = known;
        available = available;
        capable = capable;
        joined = λ opposite o.
            joins-Joins node runtime opposite (apart_of node opposite apart o) (joined opposite o);
      }

  find_node_sound :
      (id : String) (nodes : List Node) (node : Node)
      → find_node id nodes ≡ some node
      → In node nodes × (node.id ≡ id)
  unfolding find_node
  find_node_sound id [] node h = cc
  find_node_sound id (n ∷ nodes) node h =
      ground (arith, string_eq.beq_iff n.id id, find_node_sound id nodes node)

  find_node-none :
      (id : String) (nodes : List Node) (node : Node)
      → find_node id nodes ≡ none
      → In node nodes
      → node.id ≢ id
  unfolding find_node
  find_node-none id [] node h m = absurd m
  find_node-none id (n ∷ nodes) node h m =
      ground (arith, string_eq.beq_iff n.id id, find_node-none id nodes node)

  head?-In : (nodes : List Node) (node : Node) → head? nodes ≡ some node → In node nodes
  head?-In [] node h = cc
  head?-In (n ∷ nodes) node h = ground arith

  head?-none : (nodes : List Node) (node : Node) → head? nodes ≡ none → In node nodes → ⊥
  head?-none [] node h m = m
  head?-none (n ∷ nodes) node h m = cc

  previous_sound :
      (id : String) (nodes : List Node) (node : Node)
      → previous id nodes ≡ some node
      → In node nodes × (node.id ≡ id)
  unfolding previous
  previous_sound id nodes node h = ground (arith, find_node_sound id nodes node)

  previous_none :
      (id : String) (nodes : List Node) (node : Node)
      → previous id nodes ≡ none
      → id ≢ ""
      → In node nodes
      → node.id ≢ id
  unfolding previous
  previous_none id nodes node h n m =
      ground (arith, string_eq.beq_iff id "", find_node-none id nodes node)

  pick_sound :
      (candidates : List Node) (node : Node)
      → pick runtimes usages request candidates ≡ some node
      → In node candidates
        × ((c : Node)
            → In c candidates
            → request.previous_id ≢ ""
            → c.id ≡ request.previous_id
            → node.id ≡ request.previous_id)
  pick_sound candidates node h = elim (Option-cases (previous request.previous_id candidates)) [
    | inl e ↦
        let m =
          head?-In (sort_by (node_less runtimes usages request) candidates) node
            (unfold pick in rw (e, pick) at h) in
        (
          (In-sort_by (node_less runtimes usages request) node candidates).0 m,
          λ c i n same. absurd (previous_none request.previous_id candidates c e n i same),
        )
    | inr (n, e) ↦
        let (m, same) = previous_sound request.previous_id candidates n e in
        let p : n ≡ node = unfold pick in cc (rw (e, pick) at h) in
        (
          subst (λ (x : Node). In x candidates) p m,
          λ c i _ _. subst (λ (x : Node). x.id ≡ request.previous_id) p same,
        )
  ]

  pick-none :
      (candidates : List Node) (c : Node)
      → In c candidates
      → pick runtimes usages request candidates ≢ none
  pick-none candidates c m h = elim (Option-cases (previous request.previous_id candidates)) [
    | inl e ↦
        head?-none (sort_by (node_less runtimes usages request) candidates) c
          (unfold pick in rw (e, pick) at h)
          ((In-sort_by (node_less runtimes usages request) c candidates).1 m)
    | inr (n, e) ↦ some-ne-none {a = n} (unfold pick in rw (e, pick) at h)
  ]

  -- A node that is chosen is one of the nodes, and is fit for its end of the forward.
  pub choose_node-IsFit :
      (nodes : List Node) (node : Node)
      → choose_node runtimes usages request nodes ≡ some node
      → In node nodes × IsFit node
  unfolding choose_node
  choose_node-IsFit nodes node h =
      let m = (pick_sound (keep (eligible runtimes usages request) nodes) node h).0 in
      let (i, e) = (In-keep (eligible runtimes usages request) node nodes).0 m in
      (i, eligible-IsFit node e)

  -- A node is chosen whenever some node is eligible, and the node that took this end before is kept
  -- whenever it is eligible.
  pub choose_node_total :
      (nodes : List Node) (c : Node)
      → In c nodes
      → eligible runtimes usages request c ≡ true
      → (node : Node) × (choose_node runtimes usages request nodes ≡ some node)
        × (request.previous_id ≢ "" → c.id ≡ request.previous_id → node.id ≡ c.id)
  unfolding choose_node
  choose_node_total nodes c m e =
      let i = (In-keep (eligible runtimes usages request) c nodes).1 (m, e) in
      elim (Option-cases (choose_node runtimes usages request nodes)) [
        | inl missing ↦
            absurd (pick-none (keep (eligible runtimes usages request) nodes) c i missing)
        | inr (node, found) ↦
            (node, found, λ n same. (pick_sound _ node found).1 c i n same ∙ sym same)
      ]
