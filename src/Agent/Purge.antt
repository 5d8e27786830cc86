-- ===== src/Agent/Purge.antt =====
-- internal/agent/reconciler.go: `Purge`, which removes what the agent owns in the kernel.
pub mod Untouched
use l4way.Prelude.{
  ℕ, String, Bool, true, false, not, ◌&&◌, ◌||◌, Option, none, some, List, [], ◌∷◌, ◌==◌, string_eq,
  if◌then◌else◌, Result, ok, err, is_some,
}
use l4way.Spec.{DesiredState, ForwardSpec, current_schema_version}
use l4way.Spec.Identifier.{valid_identifier}
use l4way.Agent.{Snapshot, StateRecord, checksum}
use l4way.Agent.Exec.{
  Exec, Failure, node_identity, foreign_table, message, with_rollback, told, pure, raise, lift,
  handle, stop_if, ◌>>=◌, ◌>>◌,
}
use l4way.Agent.Machine.{Machine, World, Call, TrafficControl, Fabric, call, read_clock, load}
use l4way.Agent.Converge.{snapshot_is, done}
use l4way.Agent.Converge.Rollback.{rollback_dataplane, joined}

abbrev pub has_forwards : List ForwardSpec → Bool
has_forwards [] = false
has_forwards (_ ∷ _) = true

-- The empty state, of the version and the generation that are applied.
abbrev pub clean_state : String → ℕ → ℕ → DesiredState
clean_state node_id version generation = record {
  schema_version = version;
  node_id = node_id;
  generation = generation;
  management_domain = "";
  service_cidrs = [];
  fabric_links = [];
  health_checks = [];
  user_policies = [];
  protocol_blocks = none;
  forwards = [];
}

unfoldable pub purge_goal : String → Option Snapshot → Result Failure DesiredState
purge_goal node_id none = ok (clean_state node_id current_schema_version 1)
purge_goal node_id (some applied) =
    if not (applied.desired.node_id == node_id)
    then err node_identity
    else ok (clean_state node_id applied.desired.schema_version applied.desired.generation)

-- The tests of the record, and the state to reach.
unfoldable pub purge_request : String → StateRecord → Result Failure DesiredState
unfolding purge_goal
purge_request node_id r =
    if is_some r.pending
    then err (message "cannot purge while a desired state is pending")
    else if snapshot_is r.applied (λ s. has_forwards s.desired.forwards)
    then err (message "cannot purge while forwards are still applied")
    else purge_goal node_id r.applied

module _ {K T F : Type 0} (machine : Machine K T F) where
  abbrev pub purge_tc :
      DesiredState
      → String
      → Option (TrafficControl K T)
      → Exec (World K) (Option (TrafficControl K T × T))
  purge_tc clean sum none = pure none
  purge_tc clean sum (some tc) = do
    program ← lift (told "compile tc purge program: " (tc.compile clean sum))
    call machine "preflight tc purge program: " (tc.check program)
    pure (some (tc, program))

  abbrev pub applied_program : Fabric K F → Option Snapshot → Result Failure F
  applied_program fabric none = ok fabric.zero_program
  applied_program fabric (some applied) =
      told "compile applied fabric before purge: " (fabric.compile applied.desired applied.checksum)

  abbrev pub purge_fabric :
      DesiredState
      → String
      → Option Snapshot
      → Option (Fabric K F)
      → Exec (World K) (Option (Fabric K F × F × F))
  purge_fabric clean sum applied none = pure none
  purge_fabric clean sum applied (some fabric) = do
    program ← lift (told "compile fabric purge program: " (fabric.compile clean sum))
    previous ← lift (applied_program fabric applied)
    call machine "preflight fabric purge program: " (fabric.check previous program)
    pure (some (fabric, previous, program))

  abbrev pub prepare_empty : Option (Fabric K F × F × F) → Exec (World K) Bool
  prepare_empty none = pure false
  prepare_empty (some (fabric, previous, program)) = do
    call machine "prepare empty fabric before purge: " (fabric.prepare program)
    pure true

  -- The error is returned as it is until something was changed.
  unfoldable pub restore_after :
      {A : Type 0} → StateRecord → DesiredState → Bool → Failure → Exec (World K) A
  unfolding rollback_dataplane read_clock ◌>>=◌
  restore_after r clean mutated e =
      if mutated
      then (do
        now ← read_clock machine
        texts ← rollback_dataplane machine r clean now
        raise (joined e texts))
      else raise e

  abbrev pub remove_tc : Option (TrafficControl K T × T) → Exec (World K) (Unit {0})
  remove_tc none = done
  remove_tc (some (tc, program)) = call machine "remove Flux tc state: " (tc.apply program)

  abbrev pub remove_fabric : Option (Fabric K F × F × F) → Exec (World K) (Unit {0})
  remove_fabric none = done
  remove_fabric (some (fabric, previous, program)) =
      call machine "remove Flux fabric state: " (fabric.cleanup previous program)

  abbrev pub verify_tc_removal : Option (TrafficControl K T × T) → Exec (World K) (Unit {0})
  verify_tc_removal none = done
  verify_tc_removal (some (tc, program)) =
      call machine "verify Flux tc removal: " (tc.verify program)

  abbrev pub verify_fabric_removal : Option (Fabric K F × F × F) → Exec (World K) (Unit {0})
  verify_fabric_removal none = done
  verify_fabric_removal (some (fabric, previous, program)) =
      call machine "verify Flux fabric removal: " (fabric.verify program)

  -- The removal of the table, with what was changed before it.
  unfoldable pub remove_table : StateRecord → DesiredState → Bool → Bool → Exec (World K) Bool
  unfolding restore_after handle call ◌>>=◌
  remove_table r clean present mutated =
      if present
      then (handle
            (call machine "remove Flux nft table: " (machine.apply "delete table inet flux\n"))
            (restore_after r clean mutated)
          >> pure true)
      else pure mutated

  unfoldable pub remove_limits :
      StateRecord → DesiredState → Option (TrafficControl K T × T) → Bool → Exec (World K) Bool
  unfolding restore_after handle call ◌>>=◌
  remove_limits r clean tc mutated =
      handle (remove_tc tc) (restore_after r clean mutated) >> pure (mutated || is_some tc)

  -- The steps after these, with one rollback for all.
  unfoldable pub finish_purge :
      Option (TrafficControl K T × T) → Option (Fabric K F × F × F) → Exec (World K) (Unit {0})
  unfolding call ◌>>=◌
  finish_purge tc fabric = do
    remove_fabric fabric
    found ← call machine "verify Flux nft removal: " machine.inspect
    stop_if found.exists (message "verify Flux nft removal: table inet flux still exists")
    verify_tc_removal tc
    verify_fabric_removal fabric

  unfoldable pub purge : String → Exec (World K) (Unit {0})
  unfolding load purge_request remove_table remove_limits finish_purge handle call ◌>>=◌
  purge node_id = do
    stop_if (not (valid_identifier node_id)) (message "node_id is invalid")
    r ← load machine
    clean ← lift (purge_request node_id r)
    sum ← lift (told "calculate purge checksum: " (checksum machine.codec clean))
    tc ← purge_tc clean sum machine.traffic
    fabric ← purge_fabric clean sum r.applied machine.fabric
    installed ← call machine "" machine.inspect
    stop_if (installed.exists && not installed.managed) foreign_table
    prepared ← prepare_empty fabric
    changed ← remove_table r clean installed.exists prepared
    mutated ← remove_limits r clean tc changed
    handle (finish_purge tc fabric) (restore_after r clean mutated)
