-- ===== src/Agent.antt =====
-- internal/agent/store.go: the durable record of an agent, and what makes one valid.
pub mod Exec
pub mod Machine
pub mod Demand
pub mod Outbox
pub mod Converge
pub mod Reconciler
pub mod Purge
use l4way.Prelude.{
  ℕ, String, Bool, true, false, not, ◌&&◌, ◌||◌, Option, none, some, List, [], ◌∷◌, ltb, ◌==◌,
  string_eq, nat_eq, if◌then◌else◌, Result, ok, err, ◌>>=◌, ◌>>◌, reject_if, length,
}
use l4way.Net.{PrefixText}
use l4way.Spec.{DesiredState}
use l4way.Spec.Canonical.{canonical}
use l4way.Spec.Validate.{PeerText}
use l4way.Spec.Validate.State.{Issue, validate}
use l4way.Meter.{State}
use l4way.Usage.{Batch, BatchError, validate_batch, valid_checksum}

abbrev pub state_record_version : ℕ
state_record_version = 3

abbrev pub max_usage_outbox : ℕ
max_usage_outbox = 10000

pub record Snapshot : Type 0 where
  pub desired : DesiredState
  pub checksum : String
  pub program_checksum : String
  pub tc_checksum : String
  pub fabric_checksum : String
  pub force_cleanup_complete : Bool
  pub prepared_at : ℕ

pub record StateRecord : Type 0 where
  pub version : ℕ
  pub applied : Option Snapshot
  pub pending : Option Snapshot
  pub meter : State
  pub usage_outbox : List Batch

-- EmptyStateRecord
abbrev pub empty_state_record : StateRecord
empty_state_record = record {
  version = state_record_version;
  applied = none;
  pending = none;
  meter = record { epoch = ""; sequence = 0; values = [] };
  usage_outbox = [];
}

pub data RecordError : Type 0 where
  bad_record_version older_pending other_node pending_conflict long_outbox not_increasing :
      RecordError
  bad_desired : List Issue → RecordError
  no_checksum : String → RecordError
  checksum_mismatch not_prepared bad_program_checksum bad_tc_checksum bad_fabric_checksum :
      RecordError
  bad_batch : BatchError → RecordError

-- What the checks of a desired state take from outside: the texts of prefixes, keys and addresses, and
-- `encoding/json` with `crypto/sha256` on a canonical state.
pub record Codec : Type 0 where
  pub names : PrefixText
  pub peers : PeerText
  pub digest : DesiredState → Result String String

-- validStateChecksum
abbrev pub valid_state_checksum : String → Bool
valid_state_checksum value = valid_checksum value

abbrev pub bad_optional : String → Bool
bad_optional value = not (value == "") && not (valid_state_checksum value)

abbrev pub checksum_error : {A : Type 0} → Result String A → Result RecordError A
checksum_error (ok a) = ok a
checksum_error (err text) = err (no_checksum text)

abbrev pub reject_issues : List Issue → Result RecordError (Unit {0})
reject_issues [] = ok tt
reject_issues (i ∷ is) = err (bad_desired (i ∷ is))

-- The pending snapshot against the applied one.
unfoldable pub check_order : Option Snapshot → Option Snapshot → Result RecordError (Unit {0})
check_order (some applied) (some pending) = do
  reject_if (ltb pending.desired.generation applied.desired.generation) older_pending
  reject_if (not (pending.desired.node_id == applied.desired.node_id)) other_node
  reject_if
      (pending.desired.generation == applied.desired.generation
        && not (pending.checksum == applied.checksum))
      pending_conflict
check_order _ _ = ok tt

abbrev pub batch_error : {A : Type 0} → Result BatchError A → Result RecordError A
batch_error (ok a) = ok a
batch_error (err e) = err (bad_batch e)

-- The loop over the outbox after its first batch.
unfoldable pub check_after : ℕ → List Batch → Result RecordError (Unit {0})
check_after previous [] = ok tt
check_after previous (batch ∷ batches) = do
  batch_error (validate_batch batch)
  reject_if (not (ltb previous batch.sequence)) not_increasing
  check_after batch.sequence batches

unfoldable pub check_outbox : List Batch → Result RecordError (Unit {0})
unfolding check_after
check_outbox [] = ok tt
check_outbox (batch ∷ batches) = do
  batch_error (validate_batch batch)
  check_after batch.sequence batches

module _ (codec : Codec) where
  -- DesiredState.Checksum
  unfoldable pub checksum : DesiredState → Result String String
  checksum desired = codec.digest (canonical ⦃names = codec.names⦄ desired)

  -- DesiredState.Validate
  abbrev pub issues : DesiredState → List Issue
  issues desired = validate ⦃peers = codec.peers⦄ desired

  -- validateSnapshot
  unfoldable pub validate_snapshot : Option Snapshot → Result RecordError (Unit {0})
  unfolding checksum
  validate_snapshot none = ok tt
  validate_snapshot (some snapshot) = do
    reject_issues (issues snapshot.desired)
    sum ← checksum_error (checksum snapshot.desired)
    reject_if (not (sum == snapshot.checksum)) checksum_mismatch
    reject_if (snapshot.prepared_at == 0) not_prepared
    reject_if (bad_optional snapshot.program_checksum) bad_program_checksum
    reject_if (bad_optional snapshot.tc_checksum) bad_tc_checksum
    reject_if (bad_optional snapshot.fabric_checksum) bad_fabric_checksum

  -- StateRecord.Validate
  unfoldable pub validate_record : StateRecord → Result RecordError (Unit {0})
  unfolding validate_snapshot check_order check_outbox
  validate_record r = do
    reject_if (ltb r.version 1 || ltb state_record_version r.version) bad_record_version
    validate_snapshot r.applied
    validate_snapshot r.pending
    check_order r.applied r.pending
    reject_if (ltb max_usage_outbox (length r.usage_outbox)) long_outbox
    check_outbox r.usage_outbox
