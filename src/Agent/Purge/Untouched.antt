-- ===== src/Agent/Purge/Untouched.antt =====
-- A purge (internal/agent/reconciler.go) does not change the file.
use l4way.Prelude.{◌≡◌, refl, String, Bool, Option, none, some, List}
use l4way.Spec.{DesiredState}
use l4way.Agent.{Snapshot, StateRecord}
use l4way.Agent.Exec.{Failure}
use l4way.Agent.Exec.Keeps.{Keeps, keeps_rules}
use l4way.Agent.Machine.{Machine, World, TrafficControl, Fabric}
use l4way.Agent.Machine.Durable.{OnFile, load-Keeps, call-Keeps, read_clock-Keeps}
use l4way.Agent.Converge.Proofs.{rollback_dataplane-Keeps}
use l4way.Agent.Purge.{
  purge_tc, purge_fabric, prepare_empty, restore_after, remove_tc, remove_fabric, verify_tc_removal,
  verify_fabric_removal, remove_table, remove_limits, finish_purge, purge,
}

module _ {K T F : Type 0} (machine : Machine K T F) (S : List StateRecord → Type 0) where
  ruleset parts = (keeps_rules, call-Keeps, read_clock-Keeps, load-Keeps)

  purge_tc-Keeps :
      (clean : DesiredState) (sum : String) (o : Option (TrafficControl K T))
      → Keeps (OnFile S) (purge_tc machine clean sum o)
  purge_tc-Keeps clean sum none = search parts
  purge_tc-Keeps clean sum (some tc) = search parts

  purge_fabric-Keeps :
      (clean : DesiredState) (sum : String) (a : Option Snapshot) (o : Option (Fabric K F))
      → Keeps (OnFile S) (purge_fabric machine clean sum a o)
  purge_fabric-Keeps clean sum a none = search parts
  purge_fabric-Keeps clean sum a (some f) = search parts

  prepare_empty-Keeps :
      (o : Option (Fabric K F × F × F)) → Keeps (OnFile S) (prepare_empty machine o)
  prepare_empty-Keeps none = search parts
  prepare_empty-Keeps (some (f, p, q)) = search parts

  restore_after-Keeps :
      {A : Type 0} (r : StateRecord) (clean : DesiredState) (b : Bool) (e : Failure)
      → Keeps (OnFile S) (restore_after machine {A = A} r clean b e)
  unfolding restore_after
  restore_after-Keeps r clean b e = search (parts, rollback_dataplane-Keeps)

  remove_tc-Keeps : (o : Option (TrafficControl K T × T)) → Keeps (OnFile S) (remove_tc machine o)
  remove_tc-Keeps none = search parts
  remove_tc-Keeps (some (tc, p)) = search parts

  remove_fabric-Keeps :
      (o : Option (Fabric K F × F × F)) → Keeps (OnFile S) (remove_fabric machine o)
  remove_fabric-Keeps none = search parts
  remove_fabric-Keeps (some (f, p, q)) = search parts

  verify_tc_removal-Keeps :
      (o : Option (TrafficControl K T × T)) → Keeps (OnFile S) (verify_tc_removal machine o)
  verify_tc_removal-Keeps none = search parts
  verify_tc_removal-Keeps (some (tc, p)) = search parts

  verify_fabric_removal-Keeps :
      (o : Option (Fabric K F × F × F)) → Keeps (OnFile S) (verify_fabric_removal machine o)
  verify_fabric_removal-Keeps none = search parts
  verify_fabric_removal-Keeps (some (f, p, q)) = search parts

  remove_table-Keeps :
      (r : StateRecord) (clean : DesiredState) (present mutated : Bool)
      → Keeps (OnFile S) (remove_table machine r clean present mutated)
  unfolding remove_table
  remove_table-Keeps r clean present mutated = search (parts, restore_after-Keeps)

  remove_limits-Keeps :
      (r : StateRecord) (clean : DesiredState) (o : Option (TrafficControl K T × T))
      (mutated : Bool)
      → Keeps (OnFile S) (remove_limits machine r clean o mutated)
  unfolding remove_limits
  remove_limits-Keeps r clean o mutated = search (parts, restore_after-Keeps, remove_tc-Keeps)

  finish_purge-Keeps :
      (tc : Option (TrafficControl K T × T)) (f : Option (Fabric K F × F × F))
      → Keeps (OnFile S) (finish_purge machine tc f)
  unfolding finish_purge
  finish_purge-Keeps tc f =
      search (parts, remove_fabric-Keeps, verify_tc_removal-Keeps, verify_fabric_removal-Keeps)
        depth 8

  pub purge-Keeps : (node_id : String) → Keeps (OnFile S) (purge machine node_id)
  unfolding purge
  purge-Keeps node_id =
      search
        (
          parts, purge_tc-Keeps, purge_fabric-Keeps, prepare_empty-Keeps, remove_table-Keeps,
          remove_limits-Keeps, finish_purge-Keeps, restore_after-Keeps,
        )
        depth 16

-- A purge, whether it succeeds or fails, leaves the durable record as it was.
pub purge-saved :
    {K T F : Type 0} (machine : Machine K T F) (node_id : String) (w : World K)
    → (purge machine node_id w).1.saved ≡ w.saved
purge-saved machine node_id w =
    ((purge-Keeps machine (λ rs. rs ≡ w.saved) node_id).at w (record { file = refl })).file
