-- ===== src/Agent/Converge/Proofs/Ends.antt =====
-- Where `converge` ends (internal/agent/reconciler.go), for the file.
use l4way.Prelude.{
  ℕ, ◌≡◌, inl, inr, refl, sym, ◌∙◌, subst, String, Bool, not, ◌==◌, string_eq, Bool-cases, Option,
  none, some, List, ◌∷◌, if◌then◌else◌,
}
use l4way.Spec.Canonical.{canonical}
use l4way.Agent.{Snapshot, StateRecord}
use l4way.Agent.Exec.{before_replacement, is_usage_unavailable, told, pure, lift, handle}
use l4way.Agent.Exec.Keeps.{Keeps, Keeps-pure, Keeps-raise, Keeps-lift, Keeps-if, Keeps-handle}
use l4way.Agent.Exec.Leads.{
  Yields, Leads, Leads-pure, Leads-step, Leads-bind, Leads-map, Yields-pure, Yields-raise,
  Yields-if, Yields-handle, anything,
}
use l4way.Agent.Machine.{Machine, World, InstalledState, save}
use l4way.Agent.Machine.Durable.{
  OnFile, History, Later, Later-refl, applied_of, stamped, save-Leads,
}
use l4way.Agent.Outbox.Keeps.{Alike, Before, collect-Keeps, collect-Yields}
use l4way.Agent.Converge.{
  Outcome, Plan, Drift, snapshot_copy, cleaned, needs_cleanup, snapshot_is, changed_outcome,
}
use l4way.Agent.Converge.Change.{collect_before, install, commit, replace, preflight, delete_flows}
use l4way.Agent.Converge.Rollback.{with_rollback_of}
use l4way.Agent.Converge.Proofs.{preflight-Keeps, rolled_back-Keeps, deleted-Keeps}
use l4way.Agent.Converge.Proofs.Plans.{Settled, Unsettled}

-- The file while the change is under way.
record Middle (r : StateRecord) (rs : List StateRecord) : Type 0 where
  history : History rs
  applied : applied_of rs ≡ r.applied

pub Before-Unsettled :
    {K T F : Type 0} (machine : Machine K T F) (r : StateRecord) (sum : String)
    (rs : List StateRecord)
    → Before r rs
    → Unsettled machine r sum rs
Before-Unsettled machine r sum rs b = record { history = b.history; applied = inl b.applied }

Middle-Unsettled :
    {K T F : Type 0} (machine : Machine K T F) (r : StateRecord) (sum : String)
    (rs : List StateRecord)
    → Middle r rs
    → Unsettled machine r sum rs
Middle-Unsettled machine r sum rs m = record { history = m.history; applied = inl m.applied }

pub on :
    {K : Type 0} {P Q : List StateRecord → Type 0}
    → ((rs : List StateRecord) → P rs → Q rs)
    → (w : World K) → OnFile P w
    → OnFile Q w
on f w h = record { file = f w.saved h.file }

module _ {K T F : Type 0} (machine : Machine K T F) where
  -- The record while the target is pending.
  abbrev with_pending : StateRecord → Snapshot → StateRecord
  with_pending r s = record r { pending = some (snapshot_copy machine s) }

  abbrev pub with_applied : StateRecord → Snapshot → StateRecord
  with_applied r s = record r { applied = some (snapshot_copy machine s); pending = none }

  pending-Middle :
      (r : StateRecord) (s : Snapshot) (rs : List StateRecord)
      → Before r rs
      → Middle r (stamped (with_pending r s) ∷ rs)
  pending-Middle r s rs b = record {
    history = (subst (Later (applied_of rs)) b.applied (Later-refl (applied_of rs)), b.history);
    applied = refl;
  }

  -- The copy has the generation and the checksum of the target.
  Later-copy :
      (o : Option Snapshot) (s : Snapshot)
      → Later o (some s)
      → Later o (some (snapshot_copy machine (cleaned s)))
  unfolding canonical
  Later-copy none s l = tt
  Later-copy (some a) s l = elim (Bool-cases (needs_cleanup s)) [ inl e ↦ rw e l | inr e ↦ rw e l ]

  sum-copy : (s : Snapshot) → (snapshot_copy machine (cleaned s)).checksum ≡ s.checksum
  sum-copy s = elim (Bool-cases (needs_cleanup s)) [ inl e ↦ rw e refl | inr e ↦ rw e refl ]

  final-Settled :
      (r : StateRecord) (s : Snapshot) (o : Outcome) (rs : List StateRecord)
      → Later r.applied (some s)
      → o.checksum ≡ s.checksum
      → Middle r rs
      → Settled s.checksum o (stamped (with_applied r (cleaned s)) ∷ rs)
  final-Settled r s o rs l t m = record {
    history = (
      subst (λ a. Later a (some (snapshot_copy machine (cleaned s)))) (sym m.applied)
          (Later-copy r.applied s l),
      m.history,
    );
    applied = sum-copy s;
    pending = refl;
    told = t;
  }

  commit-Leads :
      (r : StateRecord) (plan : Plan T F) (d : Drift) (script : String) (now : ℕ) (b : Bool)
      → Later r.applied (some plan.target)
      → let sum = plan.target.checksum in
        Leads
          (OnFile (Before r))
          (commit machine r plan d script now b)
          (λ o. OnFile (Settled sum o))
          (OnFile (Unsettled machine r sum))
  unfolding commit
  commit-Leads r plan d script now b l =
      let sum = plan.target.checksum in
      let pending = with_pending r plan.target in
      let final = with_applied r (cleaned plan.target) in
      let end = on (Middle-Unsettled machine r sum) in
      Leads-bind (save machine pending) _
        (save-Leads machine pending (Before-Unsettled machine r sum)
          (λ rs h _. Middle-Unsettled machine r sum _ (pending-Middle r plan.target rs h))
          (pending-Middle r plan.target))
        (λ _.
          Leads-step end
            (handle (install machine plan d script)
              (with_rollback_of machine pending plan.target.desired now))
            _ (rolled_back-Keeps machine (Middle r) pending plan.target.desired now plan d script)
            anything
            (λ _ _.
              Leads-step end
                (if needs_cleanup plan.target
                  then delete_flows machine machine.conntrack plan.target.desired
                  else pure 0)
                _ (deleted-Keeps machine (Middle r) (needs_cleanup plan.target) plan.target.desired)
                anything
                (λ deleted _.
                  let o = changed_outcome plan d b deleted in
                  Leads-bind (save machine final) (λ _. pure o)
                    (save-Leads machine final (Middle-Unsettled machine r sum)
                      (λ rs h x.
                        let s = final-Settled r plan.target o rs l refl h in
                        record { history = s.history; applied = inr (s.applied, s.pending, x) })
                      (λ rs h. final-Settled r plan.target o rs l refl h))
                    (λ _. Leads-pure o (λ w h. h)))))

  collect_before-Keeps :
      (r : StateRecord) (s : Snapshot) (now : ℕ)
      → Keeps (OnFile (Before r)) (collect_before machine r s now)
  unfolding collect_before
  collect_before-Keeps r s now =
      Keeps-if (snapshot_is r.applied (λ a. not (a.program_checksum == s.program_checksum))) _ _
        (Keeps-handle _ _ (collect-Keeps machine r now) (λ e.
          Keeps-if (is_usage_unavailable e) _ _ (Keeps-pure r)
            (Keeps-raise (before_replacement e))))
        (Keeps-pure r)

  collect_before-Yields :
      (r : StateRecord) (s : Snapshot) (now : ℕ) → Yields (collect_before machine r s now) (Alike r)
  unfolding collect_before
  collect_before-Yields r s now =
      let same : Alike r r = record { applied = refl; pending = refl } in
      Yields-if (snapshot_is r.applied (λ a. not (a.program_checksum == s.program_checksum)))
        (Yields-handle (collect-Yields machine r now) (λ e.
          Yields-if (is_usage_unavailable e) (Yields-pure r same)
            (Yields-raise (before_replacement e))))
        (Yields-pure r same)

  -- The same for a record with the snapshots of `r`.
  commit-Leads-Alike :
      (r s : StateRecord) (plan : Plan T F) (d : Drift) (script : String) (now : ℕ) (b : Bool)
      → Alike r s
      → Later r.applied (some plan.target)
      → let sum = plan.target.checksum in
        Leads
          (OnFile (Before r))
          (commit machine s plan d script now b)
          (λ o. OnFile (Settled sum o))
          (OnFile (Unsettled machine r sum))
  commit-Leads-Alike r s plan d script now b a l =
      let sum = plan.target.checksum in
      Leads-map
        (on (λ rs h. record {
          history = h.history;
          applied = h.applied ∙ sym a.applied;
          pending = h.pending ∙ sym a.pending;
        }))
        (λ o w h. h)
        (on (λ rs h. record {
          history = h.history;
          applied = elim h.applied [ inl x ↦ inl (x ∙ a.applied) | inr x ↦ inr x ];
        }))
        (commit-Leads s plan d script now b
          (subst (λ x. Later x (some plan.target)) (sym a.applied) l))

  pub replace-Leads :
      (r : StateRecord) (plan : Plan T F) (d : Drift) (i : InstalledState) (now : ℕ) (b : Bool)
      → Later r.applied (some plan.target)
      → let sum = plan.target.checksum in
        Leads
          (OnFile (Before r))
          (replace machine r plan d i now b)
          (λ o. OnFile (Settled sum o))
          (OnFile (Unsettled machine r sum))
  unfolding replace
  replace-Leads r plan d i now b l =
      let e = on (Before-Unsettled machine r plan.target.checksum) in
      Leads-step e
        (lift (told "" (machine.compile_at plan.target.desired plan.target.checksum i.exists now)))
        _ (Keeps-lift _) anything
        (λ p _.
          Leads-step e (preflight machine plan d p.script) _
            (preflight-Keeps machine (Before r) plan d p.script) anything
            (λ _ _.
              Leads-step e (collect_before machine r plan.target now) _
                (collect_before-Keeps r plan.target now) (collect_before-Yields r plan.target now)
                (λ s a. commit-Leads-Alike r s plan d p.script now b a l)))
