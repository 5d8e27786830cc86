-- ===== src/Agent/Outbox.antt =====
-- internal/agent/reconciler.go: the counted traffic of an agent, from the counters to the outbox.
pub mod Keeps
pub mod Acked
pub mod Numbered
use l4way.Prelude.{
  ℕ, String, Bool, true, false, not, ◌&&◌, ◌||◌, Option, none, some, List, [], ◌∷◌, ◌++◌, ltb, leb,
  ◌==◌, string_eq, nat_eq, if◌then◌else◌, Result, ok, err, any, map, length, is_some, lookup,
  insert,
}
use l4way.Prelude.Sort.{sort_by}
use l4way.Spec.{DesiredState, Protocol, TrafficDirection}
use l4way.Meter.{Sample, State, MeterError, new_tracker, observe, is_nonzero}
use l4way.Meter
use l4way.Usage.{BatchError, Delta, Batch, validate_batch}
use l4way.Agent.{Snapshot, StateRecord, max_usage_outbox}
use l4way.Agent.Exec.{
  Exec, Failure, usage_unavailable, usage_outbox_full, invalid_meter, invalid_batch, message, told,
  pure, raise, lift, stop_if, ◌>>=◌, ◌>>◌,
}
use l4way.Agent.Machine.{
  Machine, World, Call, CounterBinding, RawCounter, NftProgram, call, read_clock, load, save,
}

-- The map of the bindings by name.
abbrev pub bindings_of :
    List CounterBinding → List (String × CounterBinding) → List (String × CounterBinding)
bindings_of [] bindings = bindings
bindings_of (b ∷ bs) bindings = bindings_of bs (insert b.name b bindings)

-- The counters that the program binds.
unfoldable pub samples_of : List (String × CounterBinding) → List RawCounter → List Sample
samples_of bindings [] = []
samples_of bindings (c ∷ cs) =
    let rest = samples_of bindings cs in
    if is_some (lookup c.name bindings)
    then record { name = c.name; packets = c.packets; bytes = c.bytes } ∷ rest
    else rest

abbrev pub bound_delta : Meter.Delta → Option CounterBinding → Delta
bound_delta d none = record {
  forward_id = "";
  protocol = Protocol.other "";
  direction = TrafficDirection.other "";
  resource_version = 0;
  packets = d.packets;
  bytes = d.bytes;
  reset = d.reset;
}
bound_delta d (some b) = record {
  forward_id = b.forward_id;
  protocol = b.protocol;
  direction = b.direction;
  resource_version = b.resource_version;
  packets = d.packets;
  bytes = d.bytes;
  reset = d.reset;
}

unfoldable pub usage_batch : Snapshot → Meter.Batch → List (String × CounterBinding) → ℕ → Batch
usage_batch applied counted bindings observed_at = record {
  node_id = applied.desired.node_id;
  epoch = counted.epoch;
  sequence = counted.sequence;
  generation = applied.desired.generation;
  observed_at = observed_at;
  deltas = map (λ d. bound_delta d (lookup d.name bindings)) counted.deltas;
}

abbrev pub no_bindings : List (String × CounterBinding) → Bool
no_bindings [] = true
no_bindings (_ ∷ _) = false

abbrev pub no_samples : List Sample → Bool
no_samples [] = true
no_samples (_ ∷ _) = false

abbrev pub metered : {A : Type 0} → Result MeterError A → Result Failure A
metered (ok a) = ok a
metered (err e) = err (invalid_meter e)

abbrev pub with_batch :
    StateRecord → State → Batch → Result BatchError (Unit {0}) → Result Failure StateRecord
with_batch r meter batch (ok _) =
    ok (record r { meter = meter; usage_outbox = r.usage_outbox ++ (batch ∷ []) })
with_batch r meter batch (err e) = err (invalid_batch e)

-- The record after the counters were observed.
unfoldable pub counted_record :
    StateRecord
    → Snapshot
    → List (String × CounterBinding)
    → ℕ
    → State × Meter.Batch
    → Result Failure StateRecord
unfolding usage_batch
counted_record r applied bindings observed_at (meter, counted) =
    let batch = usage_batch applied counted bindings observed_at in
    if any is_nonzero counted.deltas
    then with_batch r meter batch (validate_batch batch)
    else ok (record r { meter = meter })

abbrev pub epoch_of : Snapshot → NftProgram → String
epoch_of applied program =
    if applied.program_checksum == "" then program.program_checksum else applied.program_checksum

module _ {K T F : Type 0} (machine : Machine K T F) where
  -- The part of collectUsageLocked after the counters were read.
  unfoldable pub count_samples :
      StateRecord → Snapshot → NftProgram → ℕ → List RawCounter → Exec (World K) StateRecord
  unfolding samples_of counted_record save ◌>>=◌
  count_samples r applied program observed_at raw =
      let bindings = bindings_of program.counters [] in
      let samples = samples_of bindings raw in
      if no_bindings bindings
      then pure r
      else if no_samples samples
      then raise (message "nft returned no counters for the applied program")
      else do
        meter ← lift (metered (new_tracker r.meter))
        seen ← lift (metered (observe meter (epoch_of applied program) samples))
        next ← lift (counted_record r applied bindings observed_at seen)
        save machine next
        pure next

  abbrev pub collect_applied :
      StateRecord
      → ℕ
      → Option Snapshot
      → Option (Call K (List RawCounter))
      → Exec (World K) StateRecord
  collect_applied r observed_at none reader = pure r
  collect_applied r observed_at (some applied) none = raise usage_unavailable
  collect_applied r observed_at (some applied) (some read) =
      if leb max_usage_outbox (length r.usage_outbox) then raise usage_outbox_full else do
        program ←
            lift (told "" (machine.compile_at applied.desired applied.checksum true observed_at))
        raw ← call machine "" read
        count_samples r applied program observed_at raw

  -- collectUsageLocked, with the record that it leaves behind its pointer.
  unfoldable pub collect_usage_locked : StateRecord → ℕ → Exec (World K) StateRecord
  unfolding count_samples call
  collect_usage_locked r observed_at = collect_applied r observed_at r.applied machine.counters

  -- cloneUsageBatches
  unfoldable pub clone_usage_batches : List Batch → List Batch
  clone_usage_batches batches = sort_by (λ a b. ltb a.sequence b.sequence) batches

  unfoldable pub collect_usage : Exec (World K) (List Batch)
  unfolding collect_usage_locked clone_usage_batches load read_clock
  collect_usage = do
    r ← load machine
    now ← read_clock machine
    next ← collect_usage_locked r now
    pure (clone_usage_batches next.usage_outbox)

  unfoldable pub pending_usage : Exec (World K) (List Batch)
  unfolding load clone_usage_batches
  pending_usage = do r ← load machine; pure (clone_usage_batches r.usage_outbox)

-- The batches after the first one with the epoch and the number.
abbrev pub after_batch : String → ℕ → List Batch → Option (List Batch)
after_batch epoch sequence [] = none
after_batch epoch sequence (b ∷ bs) =
    if b.epoch == epoch && b.sequence == sequence then some bs else after_batch epoch sequence bs

module _ {K T F : Type 0} (machine : Machine K T F) where
  abbrev pub drop_acked : StateRecord → Option (List Batch) → Exec (World K) (Unit {0})
  drop_acked r none = pure tt
  drop_acked r (some rest) = save machine (record r { usage_outbox = rest })

  -- AckUsage
  unfoldable pub ack_usage : String → ℕ → Exec (World K) (Unit {0})
  unfolding load save ◌>>=◌
  ack_usage epoch sequence = do
    r ← load machine
    drop_acked r (after_batch epoch sequence r.usage_outbox)
