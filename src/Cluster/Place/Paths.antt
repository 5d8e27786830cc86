-- ===== src/Cluster/Place/Paths.antt =====
-- The paths that `Place` of internal/cluster/scheduler.go lays out.
use l4way.Prelude.{
  ◌≡◌, ◌≢◌, refl, sym, subst, ◌∙◌, inl, inr, ◌⊎◌, String, true, false, some, List, [], ◌∷◌, In, ok,
  >>=-eq-ok, ok-injective, lookup, string_eq,
}
use l4way.Spec.{is_via_exit}
use l4way.Cluster.{
  Plan, BackendPool, Node, NodeRole, ingress, exit, NodeRuntime, Forward, FabricLink, Placement,
  Schedule,
}
use l4way.Cluster.Capacity.{Usages}
use l4way.Cluster.Fabric.Reciprocal.{AreReciprocal, matching_links-AreReciprocal}
use l4way.Cluster.Nodes.{Request, node_has_role, supports}
use l4way.Cluster.Nodes.Eligible.{IsFit}
use l4way.Cluster.Place.{Inputs, Step, pool_of, place_forward, place_all, place}
use l4way.Cluster.Place.Steps.{IsStep, place_ingress_parts, place_exit_parts, place_forward_parts}

module _ (inputs : Inputs) where
  -- The node of the plan that takes one end of a forward: enabled, of the role, alive, and with the
  -- capabilities that the forward needs there.
  pub record IsEnd (forward : Forward) (role : NodeRole) (id : String) (node : Node) : Type 0 where
    pub listed : In node inputs.plan.nodes
    pub named : id ≡ node.id
    pub enabled : node.enabled ≡ true
    pub has_role : node_has_role node role ≡ true
    pub runtime : NodeRuntime
    pub known : lookup node.id inputs.runtimes ≡ some runtime
    pub available : runtime.available ≡ true
    pub capable : supports runtime inputs.plan forward role (pool_of inputs forward) ≡ true

  pub record IsDirect (forward : Forward) (p : Placement) : Type 0 where
    pub mode : is_via_exit forward.path_mode ≡ false
    pub near : Node
    pub near_end : IsEnd forward ingress p.ingress_id near

  pub record IsVia (forward : Forward) (p : Placement) : Type 0 where
    pub mode : is_via_exit forward.path_mode ≡ true
    pub near : Node
    pub far : Node
    pub near_end : IsEnd forward ingress p.ingress_id near
    pub far_end : IsEnd forward exit p.exit_id far
    pub apart : p.exit_id ≢ p.ingress_id
    pub link_in : FabricLink
    pub link_out : FabricLink
    pub joined : AreReciprocal near far link_in link_out
    pub in_id : p.fabric_in_id ≡ link_in.id
    pub out_id : p.fabric_out_id ≡ link_out.id

  -- A placement of a forward.
  abbrev pub IsPlaced : Forward → Placement → Type 0
  IsPlaced f p = (p.forward_id ≡ f.id) × (p.path_mode ≡ f.path_mode) × (IsDirect f p ⊎ IsVia f p)

  -- The placements are those of the forwards, one for each, in their order.
  abbrev pub ArePlaced : List Forward → List Placement → Type 0
  ArePlaced [] [] = Unit
  ArePlaced (f ∷ fs) (p ∷ ps) = IsPlaced f p × ArePlaced fs ps
  ArePlaced _ _ = ⊥

  IsFit-IsEnd :
      (usages : Usages) (request : Request) (id : String) (node : Node)
      → request.plan ≡ inputs.plan
      → request.pool ≡ pool_of inputs request.forward
      → In node inputs.plan.nodes
      → id ≡ node.id
      → IsFit inputs.runtimes usages request node
      → IsEnd request.forward request.role id node
  IsFit-IsEnd usages request id node plan pool i e fit = record {
    listed = i;
    named = e;
    enabled = fit.enabled;
    has_role = fit.role;
    runtime = fit.runtime;
    known = fit.known;
    available = fit.available;
    capable =
        subst
          (λ (x : Plan).
            supports fit.runtime x request.forward request.role (pool_of inputs request.forward)
            ≡ true)
          plan
          (subst
            (λ (x : BackendPool).
              supports fit.runtime request.plan request.forward request.role x ≡ true)
            pool fit.capable);
  }

  step-IsPlaced :
      (usages : Usages) (f : Forward) (step : Step inputs)
      → IsStep inputs usages f step
      → IsPlaced f step.placement
  step-IsPlaced usages f step (IsStep.direct near p via same ing u) =
      let (i, fit) = place_ingress_parts inputs usages f near p in
      (
        same.0,
        same.1,
        inl (record {
          mode = rw (← same.1) via;
          near = near;
          near_end = IsFit-IsEnd usages _ step.placement.ingress_id near refl refl i ing fit;
        }),
      )
  step-IsPlaced usages f step (IsStep.via_exit near far p q via same ing ex links u) =
      let (i, fit) = place_ingress_parts inputs usages f near p in
      let side = place_exit_parts inputs usages f near far q in
      (
        same.0,
        same.1,
        inr (record {
          mode = rw (← same.1) via;
          near = near;
          far = far.node;
          near_end = IsFit-IsEnd usages _ step.placement.ingress_id near refl refl i ing fit;
          far_end =
              IsFit-IsEnd usages _ step.placement.exit_id far.node refl refl side.listed ex
                side.fit;
          apart = λ e. (side.fit.joined near refl).apart (sym ex ∙ e ∙ ing);
          link_in = side.first;
          link_out = side.second;
          joined = matching_links-AreReciprocal near far.node side.first side.second side.linked;
          in_id = links.0 ∙ side.in_id;
          out_id = links.1 ∙ side.out_id;
        }),
      )

  place_all-ArePlaced :
      (fs : List Forward) (usages : Usages) (r : Usages × Schedule)
      → place_all inputs usages fs ≡ ok r
      → ArePlaced fs r.1.placements
  unfolding place_all
  place_all-ArePlaced [] usages r h =
      subst (λ (x : Usages × Schedule). ArePlaced [] x.1.placements) (ok-injective h) tt
  place_all-ArePlaced (f ∷ fs) usages r h =
      let (step, p, l) = >>=-eq-ok (place_forward inputs usages f) _ h in
      let (rest, q, e) = >>=-eq-ok (place_all inputs step.usages fs) _ l in
      subst (λ (x : Usages × Schedule). ArePlaced (f ∷ fs) x.1.placements) (ok-injective e)
        (
          step-IsPlaced usages f step (place_forward_parts inputs usages f step p),
          place_all-ArePlaced fs step.usages rest q,
        )

  -- Where `Place` succeeds, every forward has its placement, in the order of the forwards: its ingress
  -- is a node of the plan that is fit for it, and a forward via an exit has besides another such node
  -- as its exit, with the two ends of one carrier between the two.
  pub place-ArePlaced :
      (result : Schedule)
      → place inputs ≡ ok result
      → ArePlaced inputs.plan.forwards result.placements
  unfolding place
  place-ArePlaced result h =
      let (r, p, e) = >>=-eq-ok (place_all inputs [] inputs.plan.forwards) _ h in
      subst (λ (x : Schedule). ArePlaced inputs.plan.forwards x.placements) (ok-injective e)
        (place_all-ArePlaced inputs.plan.forwards [] r p)
