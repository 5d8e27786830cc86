-- ===== src/Agent/Converge/Change.antt =====
-- internal/agent/reconciler.go: the part of `converge` that changes the kernel and the record.
use l4way.Prelude.{
  ℕ, String, Bool, not, ◌&&◌, Option, none, some, List, ◌==◌, string_eq, nat_eq, if◌then◌else◌,
}
use l4way.Spec.{DesiredState, ForwardSpec}
use l4way.Agent.{Snapshot, StateRecord}
use l4way.Agent.Exec.{
  Exec, message, before_replacement, is_usage_unavailable, told, pure, raise, lift, handle, stop_if,
  ◌>>=◌, ◌>>◌,
}
use l4way.Agent.Machine.{
  Machine, World, Call, TrafficControl, Fabric, InstalledState, call, read_clock, save,
}
use l4way.Agent.Demand.{explicit_force_deletes}
use l4way.Agent.Outbox.{collect_usage_locked}
use l4way.Agent.Converge.Rollback.{with_rollback_of}
use l4way.Agent.Converge.{
  Drift, Outcome, Plan, accept_installed, all_current, changed_outcome, cleaned, done, is_installed,
  is_recorded, make_plan, measure_drift, needs_cleanup, outcome_of, snapshot_copy, snapshot_is,
}

module _ {K T F : Type 0} (machine : Machine K T F) where
  -- Everything is as wanted: the record is brought up to date when it is not.
  unfoldable pub settle : StateRecord → Snapshot → Exec (World K) (Unit {0})
  unfolding save
  settle r target =
      if is_recorded r target
      then done
      else save machine (record r { applied = some (snapshot_copy machine target); pending = none })

  abbrev pub check_tc : Drift → Option (TrafficControl K T) → Option T → Exec (World K) (Unit {0})
  check_tc drift (some tc) (some program) =
      if drift.tc_current then done else call machine "" (tc.check program)
  check_tc drift _ _ = done

  abbrev pub check_fabric : Drift → Option (Fabric K F) → Option (F × F) → Exec (World K) (Unit {0})
  check_fabric drift (some fabric) (some (previous, program)) =
      if drift.fabric_current then done else call machine "" (fabric.check previous program)
  check_fabric drift _ _ = done

  -- The checks before anything is changed.
  unfoldable pub preflight : Plan T F → Drift → String → Exec (World K) (Unit {0})
  unfolding call ◌>>=◌
  preflight plan drift script = do
    if drift.nft_current then done else call machine "" (machine.check script)
    check_tc drift machine.traffic plan.tc_program
    check_fabric drift machine.fabric plan.fabric_programs

  -- The counters of a program that is replaced are collected first.
  unfoldable pub collect_before : StateRecord → Snapshot → ℕ → Exec (World K) StateRecord
  unfolding collect_usage_locked handle
  collect_before r target now =
      if snapshot_is r.applied (λ s. not (s.program_checksum == target.program_checksum))
      then handle (collect_usage_locked machine r now)
          (λ e. if is_usage_unavailable e then pure r else raise (before_replacement e))
      else pure r

  abbrev pub prepare_links :
      Drift → Option (Fabric K F) → Option (F × F) → Exec (World K) (Unit {0})
  prepare_links drift (some fabric) (some (previous, program)) =
      if drift.fabric_current
      then done
      else call machine "prepare fabric before nft commit: " (fabric.prepare program)
  prepare_links drift _ _ = done

  abbrev pub apply_limits :
      Drift → Option (TrafficControl K T) → Option T → Exec (World K) (Unit {0})
  apply_limits drift (some tc) (some program) =
      if drift.tc_current
      then done
      else call machine "apply tc program after nft commit: " (tc.apply program)
  apply_limits drift _ _ = done

  abbrev pub cleanup_links :
      Drift → Option (Fabric K F) → Option (F × F) → Exec (World K) (Unit {0})
  cleanup_links drift (some fabric) (some (previous, program)) =
      if drift.fabric_current
      then done
      else call machine "cleanup superseded fabric resources: " (fabric.cleanup previous program)
  cleanup_links drift _ _ = done

  abbrev pub verify_tc : Option (TrafficControl K T) → Option T → Exec (World K) (Unit {0})
  verify_tc (some tc) (some program) =
      call machine "verify applied tc program: " (tc.verify program)
  verify_tc _ _ = done

  abbrev pub verify_fabric : Option (Fabric K F) → Option (F × F) → Exec (World K) (Unit {0})
  verify_fabric (some fabric) (some (previous, program)) =
      call machine "verify applied fabric program: " (fabric.verify program)
  verify_fabric _ _ = done

  -- The part whose failure is rolled back.
  unfoldable pub install : Plan T F → Drift → String → Exec (World K) (Unit {0})
  unfolding call ◌>>=◌
  install plan drift script = do
    prepare_links drift machine.fabric plan.fabric_programs
    if drift.nft_current
        then done
        else call machine "apply nft program after fabric prepare: " (machine.apply script)
    apply_limits drift machine.traffic plan.tc_program
    cleanup_links drift machine.fabric plan.fabric_programs
    found ← call machine "verify applied nft generation: " machine.inspect
    stop_if (not (found.exists && is_installed plan.target found))
        (message "verify applied nft generation")
    verify_tc machine.traffic plan.tc_program
    verify_fabric machine.fabric plan.fabric_programs

  abbrev pub delete_flows :
      Option (String → List ForwardSpec → Call K ℕ) → DesiredState → Exec (World K) ℕ
  delete_flows none desired =
      raise (message "force deletion requested but conntrack cleaner is not configured")
  delete_flows (some delete) desired =
      call machine "" (delete desired.node_id (explicit_force_deletes desired))

  -- The part after the checks: the pending record, the change, and the applied record.
  unfoldable pub commit :
      StateRecord → Plan T F → Drift → String → ℕ → Bool → Exec (World K) Outcome
  unfolding install with_rollback_of handle save call ◌>>=◌
  commit r plan drift script now recovering = do
    let pending = record r { pending = some (snapshot_copy machine plan.target) }
    save machine pending
    handle (install plan drift script) (with_rollback_of machine pending plan.target.desired now)
    deleted ←
        (if needs_cleanup plan.target
          then delete_flows machine.conntrack plan.target.desired
          else pure 0)
    save machine
        (record r { applied = some (snapshot_copy machine (cleaned plan.target)); pending = none })
    pure (changed_outcome plan drift recovering deleted)

  -- The part of `converge` for a kernel that is not as wanted.
  unfoldable pub replace :
      StateRecord → Plan T F → Drift → InstalledState → ℕ → Bool → Exec (World K) Outcome
  unfolding preflight collect_before commit
  replace r plan drift installed now recovering = do
    program ←
        lift (
          told ""
            (machine.compile_at plan.target.desired plan.target.checksum installed.exists now))
    preflight plan drift program.script
    counted ← collect_before r plan.target now
    commit counted plan drift program.script now recovering

  unfoldable pub converge : StateRecord → Snapshot → Bool → Bool → Exec (World K) Outcome
  unfolding make_plan measure_drift settle replace read_clock
  converge r target recovering enforce = do
    now ← read_clock machine
    plan ← make_plan machine r target now
    installed ← call machine "" machine.inspect
    lift (accept_installed r plan.target enforce installed)
    drift ← measure_drift machine r plan installed
    if all_current drift && not (needs_cleanup plan.target)
        then (settle r plan.target >> pure (outcome_of plan.target recovering))
        else replace r plan drift installed now recovering
