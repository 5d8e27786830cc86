-- ===== src/Agent/Reconciler.antt =====
-- internal/agent/reconciler.go: the entry points that bring the kernel to a snapshot.
pub mod Proofs
use l4way.Prelude.{
  ℕ, String, Bool, true, false, not, ◌&&◌, Option, none, some, List, [], ◌∷◌, ltb, ◌==◌, string_eq,
  nat_eq, if◌then◌else◌, Result, ok, err, reject_if, ◌>>◌ as both,
}
use l4way.Spec.{DesiredState}
use l4way.Spec.Canonical.{canonical}
use l4way.Spec.Validate.State.{Issue}
use l4way.Agent.{Snapshot, StateRecord, checksum, issues}
use l4way.Agent.Exec.{
  Exec, Failure, stale_generation, generation_conflict, node_identity, invalid_state, told, pure,
  raise, lift, stop_if, ◌>>=◌, ◌>>◌,
}
use l4way.Agent.Machine.{Machine, World, read_clock, load}
use l4way.Agent.Converge.{Outcome, no_outcome, snapshot_is}
use l4way.Agent.Converge.Change.{converge}

abbrev pub expected_node : Option Snapshot → Option Snapshot → String
expected_node (some applied) pending = applied.desired.node_id
expected_node none (some pending) = pending.desired.node_id
expected_node none none = ""

-- A generation against a snapshot of the record.
abbrev pub check_generation : Option Snapshot → ℕ → String → Result Failure (Unit {0})
check_generation none generation sum = ok tt
check_generation (some s) generation sum =
    if ltb generation s.desired.generation
    then err stale_generation
    else reject_if (generation == s.desired.generation && not (sum == s.checksum))
        generation_conflict

-- validateIncomingGeneration
unfoldable pub validate_incoming_generation :
    StateRecord → String → ℕ → String → Result Failure (Unit {0})
validate_incoming_generation r node_id generation sum =
    let expected = expected_node r.applied r.pending in
    both (reject_if (not (expected == "") && not (node_id == expected)) node_identity)
      (both (check_generation r.applied generation sum) (check_generation r.pending generation sum))

abbrev pub is_version : DesiredState → String → Snapshot → Bool
is_version desired sum s = s.desired.generation == desired.generation && s.checksum == sum

abbrev pub fresh_snapshot : DesiredState → String → ℕ → Snapshot
fresh_snapshot desired sum now = record {
  desired = desired;
  checksum = sum;
  program_checksum = "";
  tc_checksum = "";
  fabric_checksum = "";
  force_cleanup_complete = false;
  prepared_at = now;
}

abbrev pub known_or : Option Snapshot → DesiredState → String → Snapshot → Snapshot
known_or none desired sum other = other
known_or (some s) desired sum other = if is_version desired sum s then s else other

-- The snapshot of the record that is this version of the desired state, or a new one.
unfoldable pub target_of : StateRecord → DesiredState → String → ℕ → Snapshot
target_of r desired sum now =
    known_or r.pending desired sum (known_or r.applied desired sum (fresh_snapshot desired sum now))

abbrev pub reject_state : {W : Type 0} → List Issue → Exec W (Unit {0})
reject_state [] = pure tt
reject_state (i ∷ is) = raise (invalid_state (i ∷ is))

module _ {K T F : Type 0} (machine : Machine K T F) where
  -- Reconciler.Apply, whose body is applyLocked.
  unfoldable pub apply_locked : DesiredState → Exec (World K) Outcome
  unfolding validate_incoming_generation target_of load read_clock converge ◌>>=◌
  apply_locked wanted = do
    reject_state (issues machine.codec wanted)
    let desired = canonical ⦃names = machine.codec.names⦄ wanted
    sum ← lift (told "calculate desired checksum: " (checksum machine.codec desired))
    r ← load machine
    lift (validate_incoming_generation r desired.node_id desired.generation sum)
    now ← read_clock machine
    converge machine r (target_of r desired sum now) false true

  abbrev pub recover_from : StateRecord → Option Snapshot → Option Snapshot → Exec (World K) Outcome
  recover_from r _ (some pending) = converge machine r pending true false
  recover_from r (some applied) none = converge machine r applied true false
  recover_from r none none = pure (record no_outcome { recovered = true })

  unfoldable pub recover : Exec (World K) Outcome
  unfolding load converge ◌>>=◌
  recover = do
    r ← load machine
    outcome ← recover_from r r.applied r.pending
    pure (record outcome { recovered = true })

  abbrev pub audit_from : StateRecord → Option Snapshot → Option Snapshot → Exec (World K) Outcome
  audit_from r _ (some pending) = converge machine r pending false false
  audit_from r (some applied) none = converge machine r applied false false
  audit_from r none none = pure no_outcome

  unfoldable pub audit : Exec (World K) Outcome
  unfolding load converge ◌>>=◌
  audit = do r ← load machine; audit_from r r.applied r.pending

  abbrev pub kept_outcome : Snapshot → String → Outcome
  kept_outcome s program_checksum = record no_outcome {
    generation = s.desired.generation;
    checksum = s.checksum;
    program_checksum = program_checksum;
    tc_checksum = s.tc_checksum;
    fabric_checksum = s.fabric_checksum;
  }

  abbrev pub refresh_from : StateRecord → Option Snapshot → Option Snapshot → Exec (World K) Outcome
  refresh_from r _ (some pending) = converge machine r pending false false
  refresh_from r none none = pure no_outcome
  refresh_from r (some applied) none = do
    now ← read_clock machine
    let expected = machine.program_checksum_at applied.desired applied.checksum now
    if applied.program_checksum == expected
        then pure (kept_outcome applied expected)
        else converge machine r applied false false

  unfoldable pub refresh : Exec (World K) Outcome
  unfolding load read_clock converge ◌>>=◌
  refresh = do r ← load machine; refresh_from r r.applied r.pending
