-- ===== src/Agent/Reconciler/Proofs/Grows.antt =====
-- Every operation of an agent only adds records to those that its file held (internal/agent).
use l4way.Prelude.{ℕ, String, Bool, string_eq, Option, none, some, List, [], ◌∷◌}
use l4way.Spec.{DesiredState}
use l4way.Spec.Validate.State.{Issue}
use l4way.Usage.{Batch}
use l4way.Agent.{Snapshot, StateRecord}
use l4way.Agent.Exec.Keeps.{Keeps, Keeps-pure, Keeps-raise, keeps_rules}
use l4way.Agent.Exec.Leads.{Keeps-of-Leads}
use l4way.Agent.Machine.{Machine, Call, RawCounter, NftProgram, InstalledState, save}
use l4way.Agent.Machine.Durable.{OnFile, save-Leads, load-Keeps, call-Keeps, read_clock-Keeps}
use l4way.Agent.Outbox.{
  count_samples, collect_applied, collect_usage_locked, collect_usage, pending_usage, drop_acked,
  ack_usage,
}
use l4way.Agent.Converge.{Plan, Drift}
use l4way.Agent.Converge.Change.{settle, collect_before, commit, replace, converge}
use l4way.Agent.Converge.Proofs.{
  measure_drift-Keeps, preflight-Keeps, rolled_back-Keeps, deleted-Keeps,
}
use l4way.Agent.Converge.Proofs.Plans.{make_plan-Keeps}
use l4way.Agent.Reconciler.{
  reject_state, apply_locked, recover_from, recover, audit_from, audit, refresh_from, refresh,
}

module _ {K T F : Type 0} (machine : Machine K T F) (S : List StateRecord → Type 0)
    (closed : (r : StateRecord) (rs : List StateRecord) → S rs → S (r ∷ rs)) where
  save-Keeps : (r : StateRecord) → Keeps (OnFile S) (save machine r)
  save-Keeps r =
      Keeps-of-Leads (save-Leads machine r (λ rs h. h) (λ rs h _. closed _ rs h) (closed _))

  ruleset growth = (keeps_rules, call-Keeps, read_clock-Keeps, load-Keeps, save-Keeps)

  count_samples-Keeps :
      (r : StateRecord) (s : Snapshot) (p : NftProgram) (t : ℕ) (raw : List RawCounter)
      → Keeps (OnFile S) (count_samples machine r s p t raw)
  unfolding count_samples
  count_samples-Keeps r s p t raw = search growth depth 8

  collect_applied-Keeps :
      (r : StateRecord) (t : ℕ) (o : Option Snapshot) (reader : Option (Call K (List RawCounter)))
      → Keeps (OnFile S) (collect_applied machine r t o reader)
  collect_applied-Keeps r t none reader = search growth
  collect_applied-Keeps r t (some s) none = search growth
  collect_applied-Keeps r t (some s) (some read) = search (growth, count_samples-Keeps)

  collect-Keeps : (r : StateRecord) (t : ℕ) → Keeps (OnFile S) (collect_usage_locked machine r t)
  unfolding collect_usage_locked
  collect-Keeps r t = collect_applied-Keeps r t r.applied machine.counters

  pub collect_usage-Keeps : Keeps (OnFile S) (collect_usage machine)
  unfolding collect_usage
  collect_usage-Keeps = search (growth, collect-Keeps)

  pub pending_usage-Keeps : Keeps (OnFile S) (pending_usage machine)
  unfolding pending_usage
  pending_usage-Keeps = search growth

  drop_acked-Keeps :
      (r : StateRecord) (o : Option (List Batch)) → Keeps (OnFile S) (drop_acked machine r o)
  drop_acked-Keeps r none = search growth
  drop_acked-Keeps r (some rest) = search growth

  pub ack_usage-Keeps : (epoch : String) (n : ℕ) → Keeps (OnFile S) (ack_usage machine epoch n)
  unfolding ack_usage
  ack_usage-Keeps epoch n = search (growth, drop_acked-Keeps)

  settle-Keeps : (r : StateRecord) (s : Snapshot) → Keeps (OnFile S) (settle machine r s)
  unfolding settle
  settle-Keeps r s = search growth

  collect_before-Keeps :
      (r : StateRecord) (s : Snapshot) (t : ℕ) → Keeps (OnFile S) (collect_before machine r s t)
  unfolding collect_before
  collect_before-Keeps r s t = search (growth, collect-Keeps)

  commit-Keeps :
      (r : StateRecord) (plan : Plan T F) (d : Drift) (script : String) (now : ℕ) (b : Bool)
      → Keeps (OnFile S) (commit machine r plan d script now b)
  unfolding commit
  commit-Keeps r plan d script now b = search (growth, rolled_back-Keeps, deleted-Keeps) depth 8

  replace-Keeps :
      (r : StateRecord) (plan : Plan T F) (d : Drift) (i : InstalledState) (now : ℕ) (b : Bool)
      → Keeps (OnFile S) (replace machine r plan d i now b)
  unfolding replace
  replace-Keeps r plan d i now b =
      search (growth, preflight-Keeps, collect_before-Keeps, commit-Keeps) depth 8

  converge-Keeps :
      (r : StateRecord) (s : Snapshot) (recovering enforce : Bool)
      → Keeps (OnFile S) (converge machine r s recovering enforce)
  unfolding converge
  converge-Keeps r s recovering enforce =
      search (growth, make_plan-Keeps, measure_drift-Keeps, settle-Keeps, replace-Keeps) depth 10

  reject_state-Keeps : (is : List Issue) → Keeps (OnFile {K = K} S) (reject_state is)
  reject_state-Keeps [] = Keeps-pure tt
  reject_state-Keeps (i ∷ is) = Keeps-raise _

  pub apply_locked-Keeps : (wanted : DesiredState) → Keeps (OnFile S) (apply_locked machine wanted)
  unfolding apply_locked
  apply_locked-Keeps wanted = search (growth, reject_state-Keeps, converge-Keeps) depth 8

  recover_from-Keeps :
      (r : StateRecord) (a p : Option Snapshot) → Keeps (OnFile S) (recover_from machine r a p)
  recover_from-Keeps r a (some s) = search converge-Keeps
  recover_from-Keeps r (some s) none = search converge-Keeps
  recover_from-Keeps r none none = search growth

  pub recover-Keeps : Keeps (OnFile S) (recover machine)
  unfolding recover
  recover-Keeps = search (growth, recover_from-Keeps)

  audit_from-Keeps :
      (r : StateRecord) (a p : Option Snapshot) → Keeps (OnFile S) (audit_from machine r a p)
  audit_from-Keeps r a (some s) = search converge-Keeps
  audit_from-Keeps r (some s) none = search converge-Keeps
  audit_from-Keeps r none none = search growth

  pub audit-Keeps : Keeps (OnFile S) (audit machine)
  unfolding audit
  audit-Keeps = search (growth, audit_from-Keeps)

  refresh_from-Keeps :
      (r : StateRecord) (a p : Option Snapshot) → Keeps (OnFile S) (refresh_from machine r a p)
  refresh_from-Keeps r a (some s) = search converge-Keeps
  refresh_from-Keeps r none none = search growth
  refresh_from-Keeps r (some s) none = search (growth, converge-Keeps)

  pub refresh-Keeps : Keeps (OnFile S) (refresh machine)
  unfolding refresh
  refresh-Keeps = search (growth, refresh_from-Keeps)
