-- ===== src/Agent/Converge/Proofs.antt =====
-- What `converge` leaves in the file (internal/agent/reconciler.go): the parts that leave it alone.
pub mod Plans
pub mod Ends
pub mod Outcomes
pub mod Restored
pub mod Rollbacks
use l4way.Prelude.{
  ℕ, String, Bool, true, false, Option, none, some, List, [], ◌∷◌, Result, ok, err, if◌then◌else◌,
}
use l4way.Spec.{DesiredState, ForwardSpec}
use l4way.Agent.{Snapshot, StateRecord}
use l4way.Agent.Exec.{Exec, Failure, pure, handle, ◌>>=◌, ◌>>◌}
use l4way.Agent.Exec.Keeps.{Keeps, keeps_rules}
use l4way.Agent.Machine.{Machine, World, Call, TrafficControl, Fabric, InstalledState, NftProgram}
use l4way.Agent.Machine.Durable.{OnFile, call-Keeps, read_clock-Keeps}
use l4way.Agent.Converge.{
  Plan, Drift, tc_is_current, fabric_is_current, measure_drift, verified_if, make_plan, done,
}
use l4way.Agent.Converge.Change.{
  check_tc, check_fabric, preflight, prepare_links, apply_limits, cleanup_links, verify_tc,
  verify_fabric, install, delete_flows,
}
use l4way.Agent.Converge.Rollback.{
  tried, prepared, prepare_fabric, apply_nft, apply_nft_program, apply_tc_program, apply_tc,
  clean_fabric, rollback_dataplane, with_rollback_of,
}

module _ {K T F : Type 0} (machine : Machine K T F) (S : List StateRecord → Type 0) where
  tried-Keeps : (words : String) (f : Call K (Unit {0})) → Keeps (OnFile S) (tried machine words f)
  unfolding tried
  tried-Keeps words f = record { at = λ w h. record { file = h.file } }

  ruleset steps = (keeps_rules, call-Keeps, read_clock-Keeps, tried-Keeps)

  verified_if-Keeps :
      (b : Bool) (f : Call K (Unit {0})) → Keeps (OnFile S) (verified_if machine b f)
  verified_if-Keeps true f = search steps
  verified_if-Keeps false f = search steps

  tc_is_current-Keeps :
      (r : StateRecord) (s : Snapshot) (o : Option (TrafficControl K T)) (p : Option T)
      → Keeps (OnFile S) (tc_is_current machine r s o p)
  tc_is_current-Keeps r s (some tc) (some p) = search (steps, verified_if-Keeps)
  tc_is_current-Keeps r s none p = search steps
  tc_is_current-Keeps r s (some tc) none = search steps

  fabric_is_current-Keeps :
      (r : StateRecord) (s : Snapshot) (o : Option (Fabric K F)) (p : Option (F × F))
      → Keeps (OnFile S) (fabric_is_current machine r s o p)
  fabric_is_current-Keeps r s (some f) (some (q, p)) = search (steps, verified_if-Keeps)
  fabric_is_current-Keeps r s none p = search steps
  fabric_is_current-Keeps r s (some f) none = search steps

  pub measure_drift-Keeps :
      (r : StateRecord) (plan : Plan T F) (i : InstalledState)
      → Keeps (OnFile S) (measure_drift machine r plan i)
  unfolding measure_drift
  measure_drift-Keeps r plan i = search (steps, tc_is_current-Keeps, fabric_is_current-Keeps)

  check_tc-Keeps :
      (d : Drift) (o : Option (TrafficControl K T)) (p : Option T)
      → Keeps (OnFile S) (check_tc machine d o p)
  check_tc-Keeps d (some tc) (some p) = search steps
  check_tc-Keeps d none p = search steps
  check_tc-Keeps d (some tc) none = search steps

  check_fabric-Keeps :
      (d : Drift) (o : Option (Fabric K F)) (p : Option (F × F))
      → Keeps (OnFile S) (check_fabric machine d o p)
  check_fabric-Keeps d (some f) (some (q, p)) = search steps
  check_fabric-Keeps d none p = search steps
  check_fabric-Keeps d (some f) none = search steps

  pub preflight-Keeps :
      (plan : Plan T F) (d : Drift) (script : String)
      → Keeps (OnFile S) (preflight machine plan d script)
  unfolding preflight
  preflight-Keeps plan d script = search (steps, check_tc-Keeps, check_fabric-Keeps)

  prepare_links-Keeps :
      (d : Drift) (o : Option (Fabric K F)) (p : Option (F × F))
      → Keeps (OnFile S) (prepare_links machine d o p)
  prepare_links-Keeps d (some f) (some (q, p)) = search steps
  prepare_links-Keeps d none p = search steps
  prepare_links-Keeps d (some f) none = search steps

  apply_limits-Keeps :
      (d : Drift) (o : Option (TrafficControl K T)) (p : Option T)
      → Keeps (OnFile S) (apply_limits machine d o p)
  apply_limits-Keeps d (some tc) (some p) = search steps
  apply_limits-Keeps d none p = search steps
  apply_limits-Keeps d (some tc) none = search steps

  cleanup_links-Keeps :
      (d : Drift) (o : Option (Fabric K F)) (p : Option (F × F))
      → Keeps (OnFile S) (cleanup_links machine d o p)
  cleanup_links-Keeps d (some f) (some (q, p)) = search steps
  cleanup_links-Keeps d none p = search steps
  cleanup_links-Keeps d (some f) none = search steps

  verify_tc-Keeps :
      (o : Option (TrafficControl K T)) (p : Option T) → Keeps (OnFile S) (verify_tc machine o p)
  verify_tc-Keeps (some tc) (some p) = search steps
  verify_tc-Keeps none p = search steps
  verify_tc-Keeps (some tc) none = search steps

  verify_fabric-Keeps :
      (o : Option (Fabric K F)) (p : Option (F × F)) → Keeps (OnFile S) (verify_fabric machine o p)
  verify_fabric-Keeps (some f) (some (q, p)) = search steps
  verify_fabric-Keeps none p = search steps
  verify_fabric-Keeps (some f) none = search steps

  install-Keeps :
      (plan : Plan T F) (d : Drift) (script : String)
      → Keeps (OnFile S) (install machine plan d script)
  unfolding install
  install-Keeps plan d script =
      search
        (
          steps, prepare_links-Keeps, apply_limits-Keeps, cleanup_links-Keeps, verify_tc-Keeps,
          verify_fabric-Keeps,
        )
        depth 12

  prepared-Keeps : (f : Fabric K F) (p : Result String F) → Keeps (OnFile S) (prepared machine f p)
  prepared-Keeps f (ok p) = search steps
  prepared-Keeps f (err text) = search steps

  prepare_fabric-Keeps :
      (o : Option (Fabric K F)) (target goal : DesiredState) (sum : String)
      → Keeps (OnFile S) (prepare_fabric machine o target goal sum)
  prepare_fabric-Keeps none target goal sum = search steps
  prepare_fabric-Keeps (some f) target goal sum = search (steps, prepared-Keeps)

  apply_nft_program-Keeps :
      (p : Result String NftProgram) → Keeps (OnFile S) (apply_nft_program machine p)
  apply_nft_program-Keeps (ok p) = search steps
  apply_nft_program-Keeps (err text) = search steps

  apply_nft-Keeps : (now : ℕ) (o : Option Snapshot) → Keeps (OnFile S) (apply_nft machine now o)
  apply_nft-Keeps now none = search steps
  apply_nft-Keeps now (some s) = search (steps, apply_nft_program-Keeps)

  apply_tc_program-Keeps :
      (tc : TrafficControl K T) (p : Result String T)
      → Keeps (OnFile S) (apply_tc_program machine tc p)
  apply_tc_program-Keeps tc (ok p) = search steps
  apply_tc_program-Keeps tc (err text) = search steps

  apply_tc-Keeps :
      (o : Option (TrafficControl K T)) (goal : DesiredState) (sum : String)
      → Keeps (OnFile S) (apply_tc machine o goal sum)
  apply_tc-Keeps none goal sum = search steps
  apply_tc-Keeps (some tc) goal sum = search (steps, apply_tc_program-Keeps)

  clean_fabric-Keeps :
      (o : Option (Fabric K F)) (target goal : DesiredState) (sum : String)
      → Keeps (OnFile S) (clean_fabric machine o target goal sum)
  clean_fabric-Keeps none target goal sum = search steps
  clean_fabric-Keeps (some f) target goal sum = search steps

  pub rollback_dataplane-Keeps :
      (r : StateRecord) (target : DesiredState) (now : ℕ)
      → Keeps (OnFile S) (rollback_dataplane machine r target now)
  unfolding rollback_dataplane
  rollback_dataplane-Keeps r target now =
      search (steps, prepare_fabric-Keeps, apply_nft-Keeps, apply_tc-Keeps, clean_fabric-Keeps)

  -- An installation, rolled back or not, leaves the file alone.
  pub rolled_back-Keeps :
      (r : StateRecord) (target : DesiredState) (now : ℕ) (plan : Plan T F) (d : Drift)
      (script : String)
      → Keeps
          (OnFile S)
          (handle (install machine plan d script) (with_rollback_of machine r target now))
  unfolding with_rollback_of
  rolled_back-Keeps r target now plan d script =
      search (steps, install-Keeps, rollback_dataplane-Keeps)

  delete_flows-Keeps :
      (o : Option (String → List ForwardSpec → Call K ℕ)) (desired : DesiredState)
      → Keeps (OnFile S) (delete_flows machine o desired)
  delete_flows-Keeps none desired = search steps
  delete_flows-Keeps (some delete) desired = search steps

  pub deleted-Keeps :
      (b : Bool) (desired : DesiredState)
      → Keeps (OnFile S) (if b then delete_flows machine machine.conntrack desired else pure 0)
  deleted-Keeps b desired = search (steps, delete_flows-Keeps)
