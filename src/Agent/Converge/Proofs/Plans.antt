-- ===== src/Agent/Converge/Proofs/Plans.antt =====
-- What `converge` plans (internal/agent/reconciler.go), and what it may leave in the file.
use l4way.Prelude.{
  ℕ, ◌≡◌, ◌⊎◌, inl, inr, refl, ◌∙◌, String, false, ◌||◌, string_eq, Bool-cases, Option, none, some,
  List, Result, ok, err,
}
use l4way.Agent.{Snapshot, StateRecord}
use l4way.Agent.Exec.{Failure, told, lift}
use l4way.Agent.Exec.Keeps.{Keeps, Keeps-lift, Keeps-bind}
use l4way.Agent.Exec.Leads.{Returned, Yields, Yields-lift, Yields-bind, anything}
use l4way.Agent.Machine.{Machine, TrafficControl, Fabric}
use l4way.Agent.Machine.Durable.{IsReported, OnFile, History, applied_of, pending_of}
use l4way.Agent.Demand.{desired_has_rate_limit, desired_has_fabric}
use l4way.Agent.Converge.{
  Outcome, Plan, traffic_target, with_traffic, previous_fabric, fabric_plan, with_fabric, make_plan,
  snapshot_is,
}

-- A snapshot with the state and the checksum of another one.
pub record Version (s t : Snapshot) : Type 0 where
  pub desired : t.desired ≡ s.desired
  pub checksum : t.checksum ≡ s.checksum

abbrev pub HasSum : String → Option Snapshot → Type 0
HasSum sum none = ⊥
HasSum sum (some s) = s.checksum ≡ sum

-- The target is applied, nothing is pending, and the outcome tells its checksum.
pub record Settled (sum : String) (o : Outcome) (rs : List StateRecord) : Type 0 where
  pub history : History rs
  pub applied : HasSum sum (applied_of rs)
  pub pending : pending_of rs ≡ none
  pub told : o.checksum ≡ sum

-- What was applied still is; or the target is, with nothing pending, and the write of the record that
-- says so reported an error.
pub record Unsettled {K T F : Type 0} (machine : Machine K T F) (r : StateRecord) (sum : String)
    (rs : List StateRecord) : Type 0 where
  pub history : History rs
  pub applied :
      (applied_of rs ≡ r.applied)
      ⊎ (HasSum sum (applied_of rs) × (pending_of rs ≡ none) × IsReported machine rs)

module _ {K T F : Type 0} (machine : Machine K T F) where
  traffic_target-Version :
      (s : Snapshot) (tc : TrafficControl K T) (p : Result String T)
      → Returned (λ (q : Snapshot × Option T). Version s q.0) (traffic_target machine s tc p)
  traffic_target-Version s tc (ok p) = record { desired = refl; checksum = refl }
  traffic_target-Version s tc (err text) = tt

  with_traffic-Version :
      (s : Snapshot) (o : Option (TrafficControl K T))
      → Returned (λ (q : Snapshot × Option T). Version s q.0) (with_traffic machine s o)
  with_traffic-Version s none = elim (Bool-cases (desired_has_rate_limit s.desired)) [
    | inl e ↦ rw e tt
    | inr e ↦ rw e (record { desired = refl; checksum = refl })
  ]
  with_traffic-Version s (some tc) = traffic_target-Version s tc (tc.compile s.desired s.checksum)

  fabric_plan-Version :
      (s : Snapshot) (tc : Option T) (f : Fabric K F) (p : Result String F) (q : Result Failure F)
      → Returned (λ (plan : Plan T F). Version s plan.target) (fabric_plan machine s tc f p q)
  fabric_plan-Version s tc f (err text) q = tt
  fabric_plan-Version s tc f (ok p) (err e) = tt
  fabric_plan-Version s tc f (ok p) (ok q) = record { desired = refl; checksum = refl }

  with_fabric-Version :
      (a : Option Snapshot) (s : Snapshot) (tc : Option T) (o : Option (Fabric K F))
      → Returned (λ (plan : Plan T F). Version s plan.target) (with_fabric machine a s tc o)
  with_fabric-Version a s tc none =
      elim (Bool-cases
        (desired_has_fabric s.desired || snapshot_is a (λ t. desired_has_fabric t.desired))) [
          | inl e ↦ rw e tt
          | inr e ↦ rw e (record { desired = refl; checksum = refl })
        ]
  with_fabric-Version a s tc (some f) =
      fabric_plan-Version s tc f (f.compile s.desired s.checksum) (previous_fabric machine f a)

  Version-after :
      (s t : Snapshot)
      → Version s t
      → (o : Option T) (a : Option Snapshot)
      → Returned
          (λ (plan : Plan T F). Version s plan.target)
          (with_fabric machine a t o machine.fabric)
  Version-after s t v o a =
      go (with_fabric machine a t o machine.fabric) (with_fabric-Version a t o machine.fabric)
    where
      go :
          (p : Result Failure (Plan T F))
          → Returned (λ (plan : Plan T F). Version t plan.target) p
          → Returned (λ (plan : Plan T F). Version s plan.target) p
      go (ok plan) w = record {
        desired = w.desired ∙ v.desired;
        checksum = w.checksum ∙ v.checksum;
      }
      go (err e) w = tt

  pub make_plan-Yields :
      (r : StateRecord) (s : Snapshot) (now : ℕ)
      → Yields (make_plan machine r s now) (λ (plan : Plan T F). Version s plan.target)
  unfolding make_plan
  make_plan-Yields r s now =
      Yields-bind (lift (told "" (machine.compile_at s.desired s.checksum false now))) _ anything
        (λ p _.
          let t = record s { program_checksum = p.program_checksum } in
          Yields-bind (lift (with_traffic machine t machine.traffic)) _
            (Yields-lift _ (with_traffic-Version t machine.traffic))
            (λ q v. Yields-lift _ (
              Version-after s q.0 (record { desired = v.desired; checksum = v.checksum }) q.1
                r.applied)))

  pub make_plan-Keeps :
      (S : List StateRecord → Type 0) (r : StateRecord) (s : Snapshot) (now : ℕ)
      → Keeps (OnFile S) (make_plan machine r s now)
  unfolding make_plan
  make_plan-Keeps S r s now =
      Keeps-bind _ _ (Keeps-lift (told "" (machine.compile_at s.desired s.checksum false now)))
        (λ p.
          Keeps-bind _ _
            (Keeps-lift (
              with_traffic machine (record s { program_checksum = p.program_checksum })
                machine.traffic))
            (λ q. Keeps-lift (with_fabric machine r.applied q.0 q.1 machine.fabric)))
