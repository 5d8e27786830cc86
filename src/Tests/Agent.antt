-- ===== src/Tests/Agent.antt =====
-- An agent on a host whose table is either absent or the wanted one.
use l4way.Prelude.{
  ◌≡◌, ◌⊎◌, ◌↔◌, refl, ℕ, ◌+◌, ◌*◌, length, ◌^◌, String, Bool, true, false, Option, none, some,
  List, [], ◌∷◌, ok, err, arith, inr,
}
use l4way.Spec.{DesiredState, tcp, upload}
use l4way.Meter.{Sample, State}
use l4way.Meter
use l4way.Usage.{Batch}
use l4way.Agent.{
  Codec, StateRecord, Snapshot, empty_state_record, check_outbox, max_usage_outbox, validate_record,
}
use l4way.Agent.Exec.{fabric_unavailable}
use l4way.Agent.Machine.{
  Machine, World, InstalledState, NftProgram, CounterBinding, committed, save,
}
use l4way.Agent.Machine.Durable.{History, Later, applied_of}
use l4way.Agent.Outbox.{counted_record}
use l4way.Agent.Outbox.Numbered.{IsSound, counted_record-IsSound}
use l4way.Agent.Converge.{Outcome}
use l4way.Agent.Reconciler.{
  apply_locked, recover, audit, refresh, validate_incoming_generation, expected_node,
}
use l4way.Agent.Reconciler.Proofs.{Follows, validate_incoming_generation_lem}
use l4way.Agent.Reconciler.Proofs.Entry.{
  Applied, Refused, apply_locked-Applied, apply_locked-Refused,
}
use l4way.Agent.Reconciler.Proofs.Resume.{LeavesQuiet, recover-audit-refresh}
use l4way.Agent.Reconciler.Proofs.Steps.{applying, after, here, there, whole}
use l4way.Agent.Reconciler.Proofs.Monotone.{Run-Later}
use l4way.Agent.Purge.{purge}
use l4way.Agent.Purge.Untouched.{purge-saved}
use l4way.Tests.Spec.{web, state_with, texts}
use l4way.Tests.Validate.{no_peers, linked, epoch}

abbrev codec : Codec
codec = record { names = texts; peers = no_peers; digest = λ _. ok epoch }

abbrev installed : Bool → InstalledState
installed true = record {
  exists = true;
  managed = true;
  generation = 1;
  desired_checksum = epoch;
  program_checksum = epoch;
}
installed false = record {
  exists = false;
  managed = false;
  generation = 0;
  desired_checksum = "";
  program_checksum = "";
}

abbrev pub machine : Machine Bool Unit Unit
machine = record {
  codec = codec;
  compile_at = λ desired sum present now.
      ok (record { program_checksum = epoch; script = "table"; counters = [] });
  program_checksum_at = λ desired sum now. epoch;
  inspect = λ k. (ok (installed k), k);
  check = λ script k. (ok tt, k);
  apply = λ script k. (ok tt, true);
  counters = none;
  traffic = none;
  fabric = none;
  conntrack = none;
  clock = λ k. (9, k);
  open_file = λ k. (ok tt, k);
  file_size = λ r. 64 * length r.usage_outbox;
  write_file = λ r k. (committed, k);
}

abbrev pub first : World Bool
first = record { kernel = false; saved = [] }

abbrev plain : DesiredState
plain = record (state_with (web ∷ [])) { service_cidrs = [] }

abbrev plain_outcome : Outcome
plain_outcome = record {
  generation = 1;
  checksum = epoch;
  program_checksum = epoch;
  tc_checksum = "";
  fabric_checksum = "";
  changed = true;
  recovered = false;
  conntrack_deleted = 0;
}

Run-Later_example :
    let w = after machine (applying plain) first in
    History w.saved × Later none (applied_of w.saved)
Run-Later_example = Run-Later machine (there (here first) (whole (applying plain) first)) tt

purge-saved_example : (purge machine "near" first).1.saved ≡ []
purge-saved_example = purge-saved machine "near" first

recover-audit-refresh_example :
    LeavesQuiet machine (recover machine) first
    × LeavesQuiet machine (audit machine) first
    × LeavesQuiet machine (refresh machine) first
recover-audit-refresh_example = recover-audit-refresh machine first tt

applied_plain : (apply_locked machine plain first).0 ≡ ok plain_outcome
unfolding apply_locked l4way.Spec.Validate.State.validate l4way.Spec.Validate.State.check_head
    l4way.Spec.Identifier.valid_identifier l4way.Spec.Validate.State.check_versions
    l4way.Spec.Validate.validate_endpoint l4way.Net.unmap l4way.Spec.Validate.Forwards.listen_key
    l4way.Spec.Validate.Forwards.check_lifecycle l4way.Spec.Validate.Forwards.check_snat
    l4way.Spec.Validate.validate_rate_limit l4way.Spec.Validate.validate_quota
    l4way.Spec.Validate.Forwards.check_overlaps l4way.Spec.Validate.Forwards.check_deadlines
    l4way.Agent.checksum l4way.Agent.Demand.desired_has_rate_limit l4way.Spec.Canonical.canonical
    l4way.Prelude.Sort.sort_by l4way.Spec.Canonical.canonical_forward
    l4way.Spec.Canonical.canonical_endpoint l4way.Spec.Canonical.canonical_blocks
    l4way.Prelude.lookup l4way.Prelude.insert l4way.Agent.Demand.desired_has_fabric
    l4way.Agent.Demand.explicit_force_deletes l4way.Agent.Converge.accept_installed
    l4way.Agent.Converge.is_installed l4way.Agent.Converge.is_recorded l4way.Agent.Machine.save
    l4way.Agent.validate_record l4way.Usage.valid_checksum l4way.Spec.Canonical.canonical_prefix
    l4way.Spec.Canonical.canonical_link
applied_plain = refl

apply_locked-Applied_example :
    Applied codec plain plain_outcome (apply_locked machine plain first).1.saved
apply_locked-Applied_example =
    apply_locked-Applied machine plain first plain_outcome tt applied_plain

refused_linked : (apply_locked machine linked first).0 ≡ err fabric_unavailable
unfolding apply_locked l4way.Spec.Validate.State.validate l4way.Spec.Validate.State.check_head
    l4way.Spec.Identifier.valid_identifier l4way.Spec.Validate.State.check_versions
    l4way.Spec.Validate.validate_endpoint l4way.Net.unmap l4way.Spec.Validate.Forwards.listen_key
    l4way.Spec.Validate.Forwards.check_lifecycle l4way.Spec.Validate.Forwards.check_snat
    l4way.Spec.Validate.validate_rate_limit l4way.Spec.Validate.validate_quota
    l4way.Spec.Validate.Forwards.check_overlaps l4way.Spec.Validate.Forwards.check_deadlines
    l4way.Agent.checksum l4way.Agent.Demand.desired_has_rate_limit l4way.Spec.Canonical.canonical
    l4way.Prelude.Sort.sort_by l4way.Spec.Canonical.canonical_forward
    l4way.Spec.Canonical.canonical_endpoint l4way.Spec.Canonical.canonical_blocks
    l4way.Prelude.lookup l4way.Prelude.insert l4way.Agent.Demand.desired_has_fabric
    l4way.Agent.Demand.explicit_force_deletes l4way.Agent.Converge.accept_installed
    l4way.Agent.Converge.is_installed l4way.Agent.Converge.is_recorded l4way.Agent.Machine.save
    l4way.Agent.validate_record l4way.Usage.valid_checksum l4way.Spec.Canonical.canonical_prefix
    l4way.Spec.Canonical.canonical_link l4way.Net.prefix_from l4way.Net.masked
    l4way.Spec.Canonical.canonical_interface_prefix l4way.Spec.Identifier.valid_interface
    l4way.Spec.Validate.validate_interface_prefix l4way.Net.contains_addr
    l4way.Spec.Validate.validate_ipv4
refused_linked = refl

apply_locked-Refused_example :
    Refused machine linked none (apply_locked machine linked first).1.saved
apply_locked-Refused_example =
    apply_locked-Refused machine linked first fabric_unavailable tt refused_linked

abbrev pub snapshot : Snapshot
snapshot = record {
  desired = plain;
  checksum = epoch;
  program_checksum = epoch;
  tc_checksum = "";
  fabric_checksum = "";
  force_cleanup_complete = false;
  prepared_at = 9;
}

abbrev pub recorded : StateRecord
recorded = record empty_state_record { applied = some snapshot }

validate_incoming_generation_lem_example :
    (validate_incoming_generation recorded "near" 3 epoch ≡ ok tt) ↔ (
      ((expected_node (some snapshot) none ≡ "") ⊎ ("near" ≡ expected_node (some snapshot) none))
      × Follows (some snapshot) 3 epoch
      × Follows none 3 epoch)
validate_incoming_generation_lem_example = validate_incoming_generation_lem recorded "near" 3 epoch

abbrev samples : List Sample
samples = record { name = "up"; packets = 3; bytes = 70 } ∷ []

abbrev bindings : List (String × CounterBinding)
bindings =
    (
      "up",
      record {
        name = "up";
        forward_id = "web";
        protocol = tcp;
        direction = upload;
        resource_version = 1;
      },
    )
    ∷ []

abbrev meter_after : State
meter_after = record {
  epoch = epoch;
  sequence = 1;
  values = ("up", record { packets = 3; bytes = 70 }) ∷ [];
}

abbrev counted : Meter.Batch
counted = record {
  epoch = epoch;
  sequence = 1;
  deltas = record { name = "up"; packets = 3; bytes = 70; reset = true } ∷ [];
}

abbrev recorded_after : StateRecord
recorded_after = record recorded {
  meter = meter_after;
  usage_outbox =
      record {
        node_id = "near";
        epoch = epoch;
        sequence = 1;
        generation = 1;
        observed_at = 9;
        deltas =
            record {
              forward_id = "web";
              protocol = tcp;
              direction = upload;
              resource_version = 1;
              packets = 3;
              bytes = 70;
              reset = true;
            }
            ∷ [];
      }
      ∷ [];
}

observed : Meter.observe recorded.meter epoch samples ≡ ok (meter_after, counted)
unfolding Meter.observe l4way.Meter.collect l4way.Prelude.lookup l4way.Prelude.insert
    l4way.Prelude.Sort.sort_by
observed = refl

counted_once :
    counted_record recorded snapshot bindings 9 (meter_after, counted) ≡ ok recorded_after
unfolding counted_record l4way.Usage.validate_batch l4way.Spec.Identifier.valid_identifier
    l4way.Usage.valid_checksum l4way.Prelude.lookup
counted_once = refl

checked_empty : check_outbox recorded.usage_outbox ≡ ok tt
unfolding check_outbox
checked_empty = refl

counted_record-IsSound_example : IsSound max_usage_outbox 1 recorded_after.usage_outbox
counted_record-IsSound_example =
    counted_record-IsSound recorded recorded_after snapshot bindings 9 epoch samples meter_after
      counted (record { numbered = (tt, tt); checked = checked_empty; bounded = omega arith })
      (omega arith) (omega arith) observed counted_once
