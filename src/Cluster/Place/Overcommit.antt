-- ===== src/Cluster/Place/Overcommit.antt =====
-- `Place` of internal/cluster/scheduler.go commits no node beyond its capacity.
use l4way.Prelude.{
  ℕ, ◌+◌, ◌≤◌, ◌≡◌, ◌≢◌, refl, sym, ap, subst, ◌∙◌, inl, inr, String, Bool, true, false, ◌&&◌, ◌||◌,
  List, [], ◌∷◌, if◌then◌else◌, ◌==◌, string_eq, In, arith, Bool-cases, ok, >>=-eq-ok, ok-injective,
  lookup, lookup-insert, get_or_default,
}
use l4way.Spec.{is_via_exit}
use l4way.Cluster.{Node, NodeCapacity, Forward, Placement, Reservation, Schedule}
use l4way.Cluster.Capacity.{
  Usages, NodeUsage, no_usage, usage_of, consume, effective_reservation, add_usage, fits, IsWithin,
  IsCapacity, add_usage-IsWithin,
}
use l4way.Cluster.Place.{Inputs, Step, place_forward, place_all, place}
use l4way.Cluster.Place.Steps.{IsStep, place_ingress_parts, place_exit_parts, place_forward_parts}

-- The placement puts an end on the node.
abbrev pub occupies : String → Placement → Bool
occupies id p = p.ingress_id == id || is_via_exit p.path_mode && p.exit_id == id

abbrev pub share : Bool → ℕ → ℕ
share b n = if b then n else 0

-- What the forwards that are placed on a node come to, by a measure of a forward.
unfoldable pub committed : (Forward → ℕ) → String → List Forward → List Placement → ℕ
committed measure id [] ps = 0
committed measure id (f ∷ fs) [] = 0
committed measure id (f ∷ fs) (p ∷ ps) =
    share (occupies id p) (measure f) + committed measure id fs ps

abbrev pub one : Forward → ℕ
one f = 1

abbrev pub ingress_bits : Forward → ℕ
ingress_bits f = (effective_reservation f).ingress_bits_per_second

abbrev pub egress_bits : Forward → ℕ
egress_bits f = (effective_reservation f).egress_bits_per_second

-- `after` is `before` with so much more; what has no limit is not compared.
pub record Grows (c : NodeCapacity) (before after : NodeUsage) (k i e : ℕ) : Type 0 where
  pub forwards : after.forwards ≡ before.forwards + k
  pub ingress : c.ingress_bits_per_second ≢ 0 → after.ingress ≡ before.ingress + i
  pub egress : c.egress_bits_per_second ≢ 0 → after.egress ≡ before.egress + e

Grows-share :
    (c : NodeCapacity) (u v x : NodeUsage) (a b : Bool) (i e : ℕ)
    → (a ≡ true → b ≡ true → ⊥)
    → Grows c u v (share a 1) (share a i) (share a e)
    → Grows c v x (share b 1) (share b i) (share b e)
    → Grows c u x (share (b || a) 1) (share (b || a) i) (share (b || a) e)
Grows-share c u v x true true i e apart g h = absurd (apart refl refl)
Grows-share c u v x true false i e apart g h = record {
  forwards = omega (arith, g.forwards, h.forwards);
  ingress = λ n. omega (arith, g.ingress n, h.ingress n);
  egress = λ n. omega (arith, g.egress n, h.egress n);
}
Grows-share c u v x false true i e apart g h = record {
  forwards = omega (arith, g.forwards, h.forwards);
  ingress = λ n. omega (arith, g.ingress n, h.ingress n);
  egress = λ n. omega (arith, g.egress n, h.egress n);
}
Grows-share c u v x false false i e apart g h = record {
  forwards = omega (arith, g.forwards, h.forwards);
  ingress = λ n. omega (arith, g.ingress n, h.ingress n);
  egress = λ n. omega (arith, g.egress n, h.egress n);
}

usage_of-consume :
    (usages : Usages) (m : Node) (r : Reservation) (id : String)
    → usage_of (consume usages m r) id
      ≡ (if m.id == id then add_usage (usage_of usages m.id) r else usage_of usages id)
unfolding consume
usage_of-consume usages m r id =
    ap (get_or_default no_usage) (lookup-insert m.id id (add_usage (usage_of usages m.id) r) usages)
    ∙ ground arith

-- The nodes have identifiers of their own, and machine integers for capacities.
pub record AreNodes (nodes : List Node) : Type 0 where
  pub unique : (a b : Node) → In a nodes → In b nodes → a.id ≡ b.id → a ≡ b
  pub sized : (a : Node) → In a nodes → IsCapacity a.capacity

module _ (inputs : Inputs) (k : AreNodes inputs.plan.nodes) where
  abbrev AllWithin : Usages → Type 0
  AllWithin usages =
      (n : Node) → In n inputs.plan.nodes → IsWithin n.capacity (usage_of usages n.id)

  -- What consuming for one chosen node does to every node.
  consume-IsWithin :
      (usages : Usages) (m : Node) (r : Reservation)
      → AllWithin usages
      → In m inputs.plan.nodes
      → fits m (usage_of usages m.id) r ≡ true
      → (n : Node) → In n inputs.plan.nodes
      → IsWithin n.capacity (usage_of (consume usages m r) n.id)
        × Grows n.capacity
            (usage_of usages n.id)
            (usage_of (consume usages m r) n.id)
            (share (m.id == n.id) 1)
            (share (m.id == n.id) r.ingress_bits_per_second)
            (share (m.id == n.id) r.egress_bits_per_second)
  consume-IsWithin usages m r w i f n j = elim (Bool-cases (m.id == n.id)) [
    | inl t ↦
        let same : m ≡ n = k.unique m n i j ((string_eq.beq_iff m.id n.id).0 t) in
        let (within, p, q, s) =
          add_usage-IsWithin m (usage_of usages m.id) r (k.sized m i) (w m i) f in
        rw (usage_of-consume usages m r n.id) (
          rw t (
            subst
              (λ (x : Node).
                IsWithin x.capacity (add_usage (usage_of usages m.id) r)
                × Grows x.capacity (usage_of usages x.id) (add_usage (usage_of usages m.id) r) 1
                    r.ingress_bits_per_second r.egress_bits_per_second)
              same (within, record { forwards = p; ingress = q; egress = s })))
    | inr g ↦ rw (usage_of-consume usages m r n.id) (
        rw g (
          w n j,
          record { forwards = omega arith; ingress = λ _. omega arith; egress = λ _. omega arith },
        ))
  ]

  -- What a step does to a node that it occupies, or does not.
  abbrev Moves : Usages → Forward → Node → Usages → Bool → Type 0
  Moves usages f n after b =
      IsWithin n.capacity (usage_of after n.id)
      × Grows n.capacity (usage_of usages n.id) (usage_of after n.id) (share b 1)
          (share b (ingress_bits f)) (share b (egress_bits f))

  consume_two :
      (usages : Usages) (f : Forward) (near far : Node)
      → AllWithin usages
      → In near inputs.plan.nodes
      → In far inputs.plan.nodes
      → fits near (usage_of usages near.id) (effective_reservation f) ≡ true
      → fits far (usage_of usages far.id) (effective_reservation f) ≡ true
      → far.id ≢ near.id
      → (n : Node) → In n inputs.plan.nodes
      → Moves usages f n
          (consume (consume usages far (effective_reservation f)) near (effective_reservation f))
          (near.id == n.id || far.id == n.id)
  consume_two usages f near far w i j p q apart n m =
      let r = effective_reservation f in
      let first = consume-IsWithin usages far r w j q in
      let still : fits near (usage_of (consume usages far r) near.id) r ≡ true =
        rw (usage_of-consume usages far r near.id)
          (ground (arith, string_eq.beq_iff far.id near.id)) in
      let (within, g) =
        consume-IsWithin (consume usages far r) near r (λ x l. (first x l).0) i still n m in
      (
        within,
        Grows-share n.capacity _ _ _ (far.id == n.id) (near.id == n.id) _ _
            (λ a b.
              apart
                ((string_eq.beq_iff far.id n.id).0 a ∙ sym ((string_eq.beq_iff near.id n.id).0 b)))
            (first n m).1 g,
      )

  step-Moves :
      (usages : Usages) (f : Forward) (step : Step inputs)
      → AllWithin usages
      → IsStep inputs usages f step
      → (n : Node) → In n inputs.plan.nodes
      → Moves usages f n step.usages (occupies n.id step.placement)
  step-Moves usages f step w (IsStep.direct near p via same ing u) n j =
      let (i, fit) = place_ingress_parts inputs usages f near p in
      subst (λ (b : Bool). Moves usages f n step.usages b) (ground arith)
        (subst (λ (x : Usages). Moves usages f n x (near.id == n.id)) (sym u)
          (consume-IsWithin usages near (effective_reservation f) w i fit.room n j))
  step-Moves usages f step w (IsStep.via_exit near far p q via same ing ex links u) n j =
      let (i, fit) = place_ingress_parts inputs usages f near p in
      let side = place_exit_parts inputs usages f near far q in
      let both =
        consume_two usages f near far.node w i side.listed fit.room side.fit.room
          (side.fit.joined near refl).apart n j in
      subst (λ (b : Bool). Moves usages f n step.usages b) (ground arith)
        (subst (λ (x : Usages). Moves usages f n x (near.id == n.id || far.node.id == n.id)) (sym u)
          both)

  place_all-Grows :
      (fs : List Forward) (usages : Usages) (r : Usages × Schedule)
      → AllWithin usages
      → place_all inputs usages fs ≡ ok r
      → (n : Node) → In n inputs.plan.nodes
      → IsWithin n.capacity (usage_of r.0 n.id)
        × Grows n.capacity
            (usage_of usages n.id)
            (usage_of r.0 n.id)
            (committed one n.id fs r.1.placements)
            (committed ingress_bits n.id fs r.1.placements)
            (committed egress_bits n.id fs r.1.placements)
  unfolding place_all committed
  place_all-Grows [] usages r w h n j =
      subst
        (λ (x : Usages × Schedule).
          IsWithin n.capacity (usage_of x.0 n.id)
          × Grows n.capacity (usage_of usages n.id) (usage_of x.0 n.id) 0 0 0)
        (ok-injective h)
        (
          w n j,
          record { forwards = omega arith; ingress = λ _. omega arith; egress = λ _. omega arith },
        )
  place_all-Grows (f ∷ fs) usages r w h n j =
      let (step, p, l) = >>=-eq-ok (place_forward inputs usages f) _ h in
      let (rest, q, e) = >>=-eq-ok (place_all inputs step.usages fs) _ l in
      let moves = step-Moves usages f step w (place_forward_parts inputs usages f step p) in
      let (within, g) = place_all-Grows fs step.usages rest (λ x i. (moves x i).0) q n j in
      let m = (moves n j).1 in
      subst
        (λ (x : Usages × Schedule).
          IsWithin n.capacity (usage_of x.0 n.id)
          × Grows n.capacity (usage_of usages n.id) (usage_of x.0 n.id)
              (committed one n.id (f ∷ fs) x.1.placements)
              (committed ingress_bits n.id (f ∷ fs) x.1.placements)
              (committed egress_bits n.id (f ∷ fs) x.1.placements))
        (ok-injective e)
        (
          within,
          record {
            forwards = omega (arith, g.forwards, m.forwards);
            ingress = λ c. omega (arith, g.ingress c, m.ingress c);
            egress = λ c. omega (arith, g.egress c, m.egress c);
          },
        )

  -- Where `Place` succeeds on nodes with identifiers of their own, the forwards with an end on a node
  -- are at most as many as its capacity allows, and what they reserve in each direction is at most
  -- its capacity in that direction, where the node has a limit there.
  pub place_within_capacity :
      (result : Schedule)
      → place inputs ≡ ok result
      → (n : Node) → In n inputs.plan.nodes
      → (committed one n.id inputs.plan.forwards result.placements ≤ n.capacity.max_forwards)
        × (n.capacity.ingress_bits_per_second ≢ 0
            → committed ingress_bits n.id inputs.plan.forwards result.placements
              ≤ n.capacity.ingress_bits_per_second)
        × (n.capacity.egress_bits_per_second ≢ 0
            → committed egress_bits n.id inputs.plan.forwards result.placements
              ≤ n.capacity.egress_bits_per_second)
  unfolding place lookup
  place_within_capacity result h n j =
      let (r, p, e) = >>=-eq-ok (place_all inputs [] inputs.plan.forwards) _ h in
      let fresh : AllWithin [] = λ x i. record {
        forwards = omega arith;
        ingress = λ _. omega arith;
        egress = λ _. omega arith;
      } in
      let (within, g) = place_all-Grows inputs.plan.forwards [] r fresh p n j in
      subst
        (λ (x : Schedule).
          (committed one n.id inputs.plan.forwards x.placements ≤ n.capacity.max_forwards)
          × (n.capacity.ingress_bits_per_second ≢ 0
              → committed ingress_bits n.id inputs.plan.forwards x.placements
                ≤ n.capacity.ingress_bits_per_second)
          × (n.capacity.egress_bits_per_second ≢ 0
              → committed egress_bits n.id inputs.plan.forwards x.placements
                ≤ n.capacity.egress_bits_per_second))
        (ok-injective e)
        (
          omega (arith, g.forwards, within.forwards),
          λ c. omega (arith, g.ingress c, within.ingress c),
          λ c. omega (arith, g.egress c, within.egress c),
        )
