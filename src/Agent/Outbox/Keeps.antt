-- ===== src/Agent/Outbox/Keeps.antt =====
-- Collecting traffic (internal/agent/reconciler.go) leaves the snapshots of the record alone.
use l4way.Prelude.{
  ℕ, ◌≡◌, refl, sym, ◌∙◌, String, true, Bool-cases, Option, none, some, List, [], ◌∷◌, Result, ok,
  err, any, leb, length, inl, inr, subst,
}
use l4way.Meter.{State, is_nonzero, new_tracker, observe}
use l4way.Meter
use l4way.Usage.{Batch, BatchError}
use l4way.Agent.{Snapshot, StateRecord, max_usage_outbox}
use l4way.Agent.Exec.{usage_unavailable, usage_outbox_full, message, told, pure, lift}
use l4way.Agent.Exec.Keeps.{Keeps, Keeps-pure, Keeps-raise, Keeps-lift, Keeps-if, Keeps-bind}
use l4way.Agent.Exec.Leads.{
  Returned, Yields, Leads-pure, Leads-step, Keeps-of-Leads, Yields-lift, Yields-pure, Yields-raise,
  Yields-if, Yields-bind, anything,
}
use l4way.Agent.Machine.{Machine, Call, CounterBinding, RawCounter, NftProgram, save, call}
use l4way.Agent.Machine.Durable.{
  OnFile, History, Later, Later-refl, applied_of, pending_of, stamped, save-Leads, call-Keeps,
}
use l4way.Agent.Outbox.{
  bindings_of, samples_of, no_bindings, no_samples, metered, epoch_of, with_batch, counted_record,
  usage_batch, count_samples, collect_applied, collect_usage_locked,
}

-- A record with the snapshots of another one.
pub record Alike (r s : StateRecord) : Type 0 where
  pub applied : s.applied ≡ r.applied
  pub pending : s.pending ≡ r.pending

-- The file before a change of the snapshots of `r`.
pub record Before (r : StateRecord) (rs : List StateRecord) : Type 0 where
  pub history : History rs
  pub applied : applied_of rs ≡ r.applied
  pub pending : pending_of rs ≡ r.pending

-- One more record with the same snapshots.
Before-stamped :
    (r s : StateRecord)
    → Alike r s
    → (rs : List StateRecord) → Before r rs
    → Before r (stamped s ∷ rs)
Before-stamped r s a rs b = record {
  history = (
    subst (Later (applied_of rs)) (b.applied ∙ sym a.applied) (Later-refl (applied_of rs)),
    b.history,
  );
  applied = a.applied;
  pending = a.pending;
}

with_batch-Alike :
    (r : StateRecord) (meter : State) (batch : Batch) (v : Result BatchError (Unit {0}))
    → Returned (Alike r) (with_batch r meter batch v)
with_batch-Alike r meter batch (ok u) = record { applied = refl; pending = refl }
with_batch-Alike r meter batch (err e) = tt

counted_record-Alike :
    (r : StateRecord) (s : Snapshot) (bindings : List (String × CounterBinding)) (t : ℕ)
    (seen : State × Meter.Batch)
    → Returned (Alike r) (counted_record r s bindings t seen)
unfolding counted_record
counted_record-Alike r s bindings t (meter, counted) =
    elim (Bool-cases (any is_nonzero counted.deltas)) [
      | inl e ↦ rw e (with_batch-Alike r meter (usage_batch s counted bindings t) _)
      | inr e ↦ rw e (record { applied = refl; pending = refl })
    ]

module _ {K T F : Type 0} (machine : Machine K T F) where
  pub save-Keeps-Before :
      (r s : StateRecord) → Alike r s → Keeps (OnFile {K = K} (Before r)) (save machine s)
  save-Keeps-Before r s a = Keeps-of-Leads (
      save-Leads machine s (λ rs h. h) (λ rs h _. Before-stamped r s a rs h) (Before-stamped r s a))

  count_samples-Keeps :
      (r : StateRecord) (s : Snapshot) (p : NftProgram) (t : ℕ) (raw : List RawCounter)
      → Keeps (OnFile (Before r)) (count_samples machine r s p t raw)
  unfolding count_samples
  count_samples-Keeps r s p t raw =
      let bindings = bindings_of p.counters [] in
      let samples = samples_of bindings raw in
      Keeps-if (no_bindings bindings) _ _ (Keeps-pure r) (
        Keeps-if (no_samples samples) _ _
          (Keeps-raise (message "nft returned no counters for the applied program"))
          (Keeps-bind _ _ (Keeps-lift (metered (new_tracker r.meter))) (λ meter.
            Keeps-bind _ _ (Keeps-lift (metered (observe meter (epoch_of s p) samples))) (λ seen.
              Keeps-of-Leads (
                Leads-step (λ w h. h) (lift (counted_record r s bindings t seen)) _ (Keeps-lift _)
                  (Yields-lift _ (counted_record-Alike r s bindings t seen))
                  (λ next a.
                    Leads-step (λ w h. h) (save machine next) (λ _. pure next)
                      (save-Keeps-Before r next a) anything
                      (λ _ _. Leads-pure next (λ w h. h))))))))

  count_samples-Yields :
      (r : StateRecord) (s : Snapshot) (p : NftProgram) (t : ℕ) (raw : List RawCounter)
      → Yields (count_samples machine r s p t raw) (Alike r)
  unfolding count_samples
  count_samples-Yields r s p t raw =
      let bindings = bindings_of p.counters [] in
      let samples = samples_of bindings raw in
      Yields-if (no_bindings bindings) (Yields-pure r (record { applied = refl; pending = refl })) (
        Yields-if (no_samples samples)
          (Yields-raise (message "nft returned no counters for the applied program"))
          (Yields-bind (lift (metered (new_tracker r.meter))) _ anything (λ meter _.
            Yields-bind (lift (metered (observe meter (epoch_of s p) samples))) _ anything
              (λ seen _.
                Yields-bind (lift (counted_record r s bindings t seen)) _
                  (Yields-lift _ (counted_record-Alike r s bindings t seen))
                  (λ next a.
                    Yields-bind (save machine next) (λ _. pure next) anything
                      (λ _ _. Yields-pure next a))))))

  collect_applied-Keeps :
      (r : StateRecord) (t : ℕ) (o : Option Snapshot) (reader : Option (Call K (List RawCounter)))
      → Keeps (OnFile (Before r)) (collect_applied machine r t o reader)
  collect_applied-Keeps r t none reader = Keeps-pure r
  collect_applied-Keeps r t (some s) none = Keeps-raise usage_unavailable
  collect_applied-Keeps r t (some s) (some read) =
      Keeps-if (leb max_usage_outbox (length r.usage_outbox)) _ _ (Keeps-raise usage_outbox_full) (
        Keeps-bind _ _ (Keeps-lift _) (λ p.
          Keeps-bind _ _ (call-Keeps machine "" read) (λ raw. count_samples-Keeps r s p t raw)))

  collect_applied-Yields :
      (r : StateRecord) (t : ℕ) (o : Option Snapshot) (reader : Option (Call K (List RawCounter)))
      → Yields (collect_applied machine r t o reader) (Alike r)
  collect_applied-Yields r t none reader = Yields-pure r (record { applied = refl; pending = refl })
  collect_applied-Yields r t (some s) none = Yields-raise usage_unavailable
  collect_applied-Yields r t (some s) (some read) =
      Yields-if (leb max_usage_outbox (length r.usage_outbox)) (Yields-raise usage_outbox_full) (
        Yields-bind (lift (told "" (machine.compile_at s.desired s.checksum true t))) _ anything
          (λ p _.
            Yields-bind (call machine "" read) _ anything
              (λ raw _. count_samples-Yields r s p t raw)))

  pub collect-Keeps :
      (r : StateRecord) (t : ℕ) → Keeps (OnFile (Before r)) (collect_usage_locked machine r t)
  unfolding collect_usage_locked
  collect-Keeps r t = collect_applied-Keeps r t r.applied machine.counters

  pub collect-Yields :
      (r : StateRecord) (t : ℕ) → Yields (collect_usage_locked machine r t) (Alike r)
  unfolding collect_usage_locked
  collect-Yields r t = collect_applied-Yields r t r.applied machine.counters
