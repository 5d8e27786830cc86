-- ===== src/Cluster/Place/Steps.antt =====
-- The parts of a step of `Place` (internal/cluster/scheduler.go) that succeeds.
use l4way.Prelude.{
  ◌≡◌, refl, subst, Bool, true, false, Option, none, some, if◌then◌else◌, In, ok, >>=-eq-ok,
  ok-injective,
}
use l4way.Spec.{is_via_exit}
use l4way.Cluster.{Node, NodeSelector, Forward, FabricLink}
use l4way.Cluster.Capacity.{Usages, consume, effective_reservation}
use l4way.Cluster.Fabric.{matching_links}
use l4way.Cluster.Nodes.{choose_node}
use l4way.Cluster.Nodes.Eligible.{choose_node-IsFit, IsFit}
use l4way.Cluster.Place.{
  Inputs, Step, ExitSide, near_request, far_request, nil_exit_selector, no_exit, no_fabric,
  PlaceError, or_fail, place_ingress, place_exit, place_backend, place_direct, place_via_exit,
  place_forward,
}

or_fail-eq-ok :
    {A : Type 0} (o : Option A) (e : PlaceError) (a : A) → or_fail o e ≡ ok a → o ≡ some a
or_fail-eq-ok none e a h = cc
or_fail-eq-ok (some x) e a h = cc

module _ (inputs : Inputs) (usages : Usages) (forward : Forward) where
  pub place_ingress_parts :
      (near : Node)
      → place_ingress inputs usages forward ≡ ok near
      → In near inputs.plan.nodes × IsFit inputs.runtimes usages (near_request inputs forward) near
  unfolding place_ingress
  place_ingress_parts near h =
      choose_node-IsFit inputs.runtimes usages _ inputs.plan.nodes near (or_fail-eq-ok _ _ near h)

  -- The exit side of a placed forward.
  pub record IsExitOf (near : Node) (far : ExitSide) : Type 0 where
    pub selector : NodeSelector
    pub selected : forward.exit ≡ some selector
    pub listed : In far.node inputs.plan.nodes
    pub fit : IsFit inputs.runtimes usages (far_request inputs forward selector near) far.node
    pub first : FabricLink
    pub second : FabricLink
    pub linked : matching_links near far.node ≡ some (first, second)
    pub in_id : far.fabric_in ≡ first.id
    pub out_id : far.fabric_out ≡ second.id

  pub place_exit_parts :
      (near : Node) (far : ExitSide)
      → place_exit inputs usages forward near ≡ ok far
      → IsExitOf near far
  unfolding place_exit
  place_exit_parts near far h =
      let (selector, p, k) = >>=-eq-ok (or_fail forward.exit nil_exit_selector) _ h in
      let far_node =
        choose_node inputs.runtimes usages (far_request inputs forward selector near)
          inputs.plan.nodes in
      let (node, q, l) = >>=-eq-ok (or_fail far_node (no_exit forward.id)) _ k in
      let (links, r, e) =
        >>=-eq-ok (or_fail (matching_links near node) (no_fabric forward.id)) _ l in
      let (listed, fit) =
        choose_node-IsFit inputs.runtimes usages _ inputs.plan.nodes node
          (or_fail-eq-ok _ _ node q) in
      subst (IsExitOf near) (ok-injective e) (record {
        selector = selector;
        selected = or_fail-eq-ok _ _ selector p;
        listed = listed;
        fit = fit;
        first = links.0;
        second = links.1;
        linked = or_fail-eq-ok _ _ links r;
        in_id = refl;
        out_id = refl;
      })

  -- A step that succeeds consumes on the ingress, and before it on the exit if there is one.
  pub data IsStep (step : Step inputs) : Type 0 where
    direct :
        (near : Node)
        → place_ingress inputs usages forward ≡ ok near
        → is_via_exit step.placement.path_mode ≡ false
        → (step.placement.forward_id ≡ forward.id) × (step.placement.path_mode ≡ forward.path_mode)
        → step.placement.ingress_id ≡ near.id
        → step.usages ≡ consume usages near (effective_reservation forward)
        → IsStep step
    via_exit :
        (near : Node) (far : ExitSide)
        → place_ingress inputs usages forward ≡ ok near
        → place_exit inputs usages forward near ≡ ok far
        → is_via_exit step.placement.path_mode ≡ true
        → (step.placement.forward_id ≡ forward.id) × (step.placement.path_mode ≡ forward.path_mode)
        → step.placement.ingress_id ≡ near.id
        → step.placement.exit_id ≡ far.node.id
        → (step.placement.fabric_in_id ≡ far.fabric_in)
          × (step.placement.fabric_out_id ≡ far.fabric_out)
        → step.usages
          ≡ consume
              (consume usages far.node (effective_reservation forward))
              near
              (effective_reservation forward)
        → IsStep step

  place_via_exit_parts :
      (near : Node) (step : Step inputs)
      → place_ingress inputs usages forward ≡ ok near
      → is_via_exit forward.path_mode ≡ true
      → place_via_exit inputs usages forward near ≡ ok step
      → IsStep step
  unfolding place_via_exit
  place_via_exit_parts near step p via h =
      let (far, q, l) = >>=-eq-ok (place_exit inputs usages forward near) _ h in
      let (choice, r, e) = >>=-eq-ok (place_backend inputs forward far.node.id) _ l in
      subst IsStep (ok-injective e)
        (IsStep.via_exit near far p q via (refl, refl) refl refl (refl, refl) refl)

  place_direct_parts :
      (near : Node) (step : Step inputs)
      → place_ingress inputs usages forward ≡ ok near
      → is_via_exit forward.path_mode ≡ false
      → place_direct inputs usages forward near ≡ ok step
      → IsStep step
  unfolding place_direct
  place_direct_parts near step p via h =
      let (choice, r, e) = >>=-eq-ok (place_backend inputs forward near.id) _ h in
      subst IsStep (ok-injective e) (IsStep.direct near p via (refl, refl) refl refl)

  branch :
      (near : Node) (step : Step inputs) (b : Bool)
      → place_ingress inputs usages forward ≡ ok near
      → is_via_exit forward.path_mode ≡ b
      → (if b
          then place_via_exit inputs usages forward near
          else place_direct inputs usages forward near)
        ≡ ok step
      → IsStep step
  branch near step true p e h = place_via_exit_parts near step p e h
  branch near step false p e h = place_direct_parts near step p e h

  pub place_forward_parts :
      (step : Step inputs) → place_forward inputs usages forward ≡ ok step → IsStep step
  unfolding place_forward
  place_forward_parts step h =
      let (near, p, k) = >>=-eq-ok (place_ingress inputs usages forward) _ h in
      branch near step (is_via_exit forward.path_mode) p refl k
