-- ===== src/Agent/Converge.antt =====
-- internal/agent/reconciler.go: `converge`, which brings the kernel to a snapshot and the durable record
-- with it. The partial result that goes with an error is left out.
pub mod Rollback
pub mod Change
pub mod Proofs
use l4way.Prelude.{
  ℕ, String, Bool, true, false, not, ◌&&◌, ◌||◌, Option, none, some, List, [], ◌∷◌, ltb, ◌==◌,
  string_eq, nat_eq, if◌then◌else◌, Result, ok, err, is_some,
}
use l4way.Spec.{DesiredState, ForwardSpec}
use l4way.Spec.Canonical.{canonical}
use l4way.Agent.{Snapshot, StateRecord, Codec}
use l4way.Agent.Exec.{
  Exec, Failure, generation_conflict, foreign_table, kernel_ahead, traffic_control_unavailable,
  fabric_unavailable, message, before_replacement, is_usage_unavailable, told, pure, raise, lift,
  handle, stop_if, ◌>>=◌, ◌>>◌,
}
use l4way.Agent.Machine.{
  Machine, World, Call, TrafficControl, Fabric, InstalledState, NftProgram, call, read_clock, save,
}
use l4way.Agent.Demand.{desired_has_rate_limit, desired_has_fabric, explicit_force_deletes}
use l4way.Agent.Outbox.{collect_usage_locked}

-- Result
pub record Outcome : Type 0 where
  pub generation : ℕ
  pub checksum : String
  pub program_checksum : String
  pub tc_checksum : String
  pub fabric_checksum : String
  pub changed : Bool
  pub recovered : Bool
  pub conntrack_deleted : ℕ

abbrev pub no_outcome : Outcome
no_outcome = record {
  generation = 0;
  checksum = "";
  program_checksum = "";
  tc_checksum = "";
  fabric_checksum = "";
  changed = false;
  recovered = false;
  conntrack_deleted = 0;
}

-- A test of a snapshot that may be missing.
abbrev pub snapshot_is : Option Snapshot → (Snapshot → Bool) → Bool
snapshot_is none test = false
snapshot_is (some s) test = test s

-- What is wanted: the snapshot with its checksums, and the programs of the backends that are there.
pub record Plan (T F : Type 0) : Type 0 where
  pub target : Snapshot
  pub tc_program : Option T
  pub fabric_programs : Option (F × F)

-- What already is as wanted.
pub record Drift : Type 0 where
  pub nft_current : Bool
  pub tc_current : Bool
  pub fabric_current : Bool

abbrev pub all_current : Drift → Bool
all_current d = d.nft_current && d.tc_current && d.fabric_current

-- The conditions on the table that is installed.
unfoldable pub accept_installed :
    StateRecord → Snapshot → Bool → InstalledState → Result Failure (Unit {0})
accept_installed r target enforce installed =
    if installed.exists && not installed.managed
    then err foreign_table
    else if installed.managed && ltb target.desired.generation installed.generation
    then err kernel_ahead
    else if enforce
        && installed.managed
        && installed.generation == target.desired.generation
        && not (installed.desired_checksum == target.checksum)
        && not (
            snapshot_is r.applied (λ s. s.checksum == target.checksum)
            || snapshot_is r.pending (λ s. s.checksum == target.checksum))
    then err generation_conflict
    else ok tt

unfoldable pub is_installed : Snapshot → InstalledState → Bool
is_installed target installed =
    installed.managed
    && installed.generation == target.desired.generation
    && installed.desired_checksum == target.checksum
    && installed.program_checksum == target.program_checksum

unfoldable pub is_recorded : StateRecord → Snapshot → Bool
is_recorded r target =
    not (is_some r.pending)
    && snapshot_is r.applied (λ s.
      s.checksum == target.checksum
      && s.program_checksum == target.program_checksum
      && s.tc_checksum == target.tc_checksum
      && s.fabric_checksum == target.fabric_checksum)

abbrev pub needs_cleanup : Snapshot → Bool
needs_cleanup target = elim (explicit_force_deletes target.desired) [
  | [] ↦ false
  | f ∷ fs ↦ not target.force_cleanup_complete
]

abbrev pub outcome_of : Snapshot → Bool → Outcome
outcome_of target recovering = record {
  generation = target.desired.generation;
  checksum = target.checksum;
  program_checksum = target.program_checksum;
  tc_checksum = target.tc_checksum;
  fabric_checksum = target.fabric_checksum;
  changed = false;
  recovered = recovering;
  conntrack_deleted = 0;
}

abbrev pub cleaned : Snapshot → Snapshot
cleaned target =
    if needs_cleanup target then record target { force_cleanup_complete = true } else target

abbrev pub changed_outcome : {T F : Type 0} → Plan T F → Drift → Bool → ℕ → Outcome
changed_outcome plan drift recovering deleted = record (outcome_of plan.target recovering) {
  changed = not (all_current drift) || needs_cleanup plan.target;
  conntrack_deleted = deleted;
}

abbrev pub done : {W : Type 0} → Exec W (Unit {0})
done = pure tt

module _ {K T F : Type 0} (machine : Machine K T F) where
  -- snapshotCopy
  abbrev pub snapshot_copy : Snapshot → Snapshot
  snapshot_copy s = record s { desired = canonical ⦃names = machine.codec.names⦄ s.desired }

  abbrev pub traffic_target :
      Snapshot → TrafficControl K T → Result String T → Result Failure (Snapshot × Option T)
  traffic_target target tc (ok program) =
      ok (record target { tc_checksum = tc.sum program }, some program)
  traffic_target target tc (err text) = err (message text)

  abbrev pub with_traffic :
      Snapshot → Option (TrafficControl K T) → Result Failure (Snapshot × Option T)
  with_traffic target none =
      if desired_has_rate_limit target.desired
      then err traffic_control_unavailable
      else ok (target, none)
  with_traffic target (some tc) =
      traffic_target target tc (tc.compile target.desired target.checksum)

  -- The program of the applied snapshot, the zero program when there is none.
  abbrev pub previous_fabric : Fabric K F → Option Snapshot → Result Failure F
  previous_fabric fabric none = ok fabric.zero_program
  previous_fabric fabric (some applied) =
      told "compile applied fabric program: " (fabric.compile applied.desired applied.checksum)

  abbrev pub fabric_plan :
      Snapshot
      → Option T
      → Fabric K F
      → Result String F
      → Result Failure F
      → Result Failure (Plan T F)
  fabric_plan target tc fabric (err text) _ = err (message text)
  fabric_plan target tc fabric (ok program) (err e) = err e
  fabric_plan target tc fabric (ok program) (ok previous) = ok (record {
    target = record target { fabric_checksum = fabric.sum program };
    tc_program = tc;
    fabric_programs = some (previous, program);
  })

  abbrev pub with_fabric :
      Option Snapshot → Snapshot → Option T → Option (Fabric K F) → Result Failure (Plan T F)
  with_fabric applied target tc none =
      if desired_has_fabric target.desired
        || snapshot_is applied (λ s. desired_has_fabric s.desired)
      then err fabric_unavailable
      else ok (record { target = target; tc_program = tc; fabric_programs = none })
  with_fabric applied target tc (some fabric) =
      fabric_plan target tc fabric (fabric.compile target.desired target.checksum)
        (previous_fabric fabric applied)

  -- The part of `converge` that compiles.
  unfoldable pub make_plan : StateRecord → Snapshot → ℕ → Exec (World K) (Plan T F)
  unfolding ◌>>=◌
  make_plan r target now = do
    program ← lift (told "" (machine.compile_at target.desired target.checksum false now))
    with_tc ← lift (
        with_traffic (record target { program_checksum = program.program_checksum })
          machine.traffic)
    lift (with_fabric r.applied with_tc.0 with_tc.1 machine.fabric)

  -- `verify(…) == nil`, when the record has the checksum and not otherwise.
  abbrev pub verified_if : Bool → Call K (Unit {0}) → Exec (World K) Bool
  verified_if false verify = pure false
  verified_if true verify = handle (call machine "" verify >> pure true) (λ _. pure false)

  abbrev pub tc_is_current :
      StateRecord → Snapshot → Option (TrafficControl K T) → Option T → Exec (World K) Bool
  tc_is_current r target (some tc) (some program) =
      verified_if
        (snapshot_is r.applied (λ s.
          s.desired.generation == target.desired.generation && s.tc_checksum == target.tc_checksum))
        (tc.verify program)
  tc_is_current r target _ _ = pure true

  abbrev pub fabric_is_current :
      StateRecord → Snapshot → Option (Fabric K F) → Option (F × F) → Exec (World K) Bool
  fabric_is_current r target (some fabric) (some (previous, program)) =
      verified_if (snapshot_is r.applied (λ s. s.fabric_checksum == target.fabric_checksum))
        (fabric.verify program)
  fabric_is_current r target _ _ = pure true

  unfoldable pub measure_drift : StateRecord → Plan T F → InstalledState → Exec (World K) Drift
  unfolding handle call ◌>>=◌
  measure_drift r plan installed = do
    tc ← tc_is_current r plan.target machine.traffic plan.tc_program
    fabric ← fabric_is_current r plan.target machine.fabric plan.fabric_programs
    pure (record {
      nft_current = is_installed plan.target installed;
      tc_current = tc;
      fabric_current = fabric;
    })
