-- ===== src/Agent/Converge/Proofs/Outcomes.antt =====
-- What `converge` (internal/agent/reconciler.go) leaves in the file, as a whole.
use l4way.Prelude.{
  ◌≡◌, inr, refl, sym, subst, arith, Bool, true, not, ◌&&◌, ◌==◌, string_eq, Option, none, some,
  List, ◌∷◌, is_some, ◌∙◌,
}
use l4way.Spec.Canonical.{canonical}
use l4way.Agent.{Snapshot, StateRecord}
use l4way.Agent.Exec.{Exec, lift}
use l4way.Agent.Exec.Keeps.{Keeps-lift}
use l4way.Agent.Exec.Leads.{Leads, Leads-pure, Leads-if, Leads-step, Leads-bind, anything}
use l4way.Agent.Machine.{Machine, World, call, read_clock, save}
use l4way.Agent.Machine.Durable.{OnFile, Later, stamped, save-Leads, call-Keeps, read_clock-Keeps}
use l4way.Agent.Outbox.Keeps.{Before}
use l4way.Agent.Converge.{
  Outcome, make_plan, snapshot_copy, needs_cleanup, snapshot_is, is_recorded, accept_installed,
  all_current, measure_drift, outcome_of, done,
}
use l4way.Agent.Converge.Change.{settle, converge}
use l4way.Agent.Converge.Proofs.{measure_drift-Keeps}
use l4way.Agent.Converge.Proofs.Plans.{
  Version, HasSum, Settled, Unsettled, make_plan-Yields, make_plan-Keeps,
}
use l4way.Agent.Converge.Proofs.Ends.{on, Before-Unsettled, with_applied, replace-Leads}

recorded_parts :
    (p a : Option Snapshot) (s : Snapshot)
    → (not (is_some p)
        && snapshot_is a (λ t.
          t.checksum == s.checksum
          && t.program_checksum == s.program_checksum
          && t.tc_checksum == s.tc_checksum
          && t.fabric_checksum == s.fabric_checksum))
      ≡ true
    → (p ≡ none) × HasSum s.checksum a
recorded_parts none (some t) s h = ground (arith, string_eq.beq_iff t.checksum s.checksum)
recorded_parts none none s h = cc
recorded_parts (some t) a s h = cc

module _ {K T F : Type 0} (machine : Machine K T F) where
  recorded-Settled :
      (r : StateRecord) (s : Snapshot) (o : Outcome) (rs : List StateRecord)
      → is_recorded r s ≡ true
      → o.checksum ≡ s.checksum
      → Before r rs
      → Settled s.checksum o rs
  unfolding is_recorded
  recorded-Settled r s o rs h t b =
      let (p, a) = recorded_parts r.pending r.applied s h in
      record {
        history = b.history;
        applied = subst (HasSum s.checksum) (sym b.applied) a;
        pending = b.pending ∙ p;
        told = t;
      }

  saved-Settled :
      (r : StateRecord) (s : Snapshot) (o : Outcome) (rs : List StateRecord)
      → Later r.applied (some s)
      → o.checksum ≡ s.checksum
      → Before r rs
      → Settled s.checksum o (stamped (with_applied machine r s) ∷ rs)
  saved-Settled r s o rs l t b = record {
    history = (
      subst (λ a. Later a (some (snapshot_copy machine s))) (sym b.applied) (copied r.applied l),
      b.history,
    );
    applied = refl;
    pending = refl;
    told = t;
  }
    where
      copied : (a : Option Snapshot) → Later a (some s) → Later a (some (snapshot_copy machine s))
      copied none l = tt
      copied (some a) l = unfold canonical in l

  settle-Leads :
      (r : StateRecord) (s : Snapshot) (o : Outcome)
      → Later r.applied (some s)
      → o.checksum ≡ s.checksum
      → Leads
          (OnFile (Before r))
          (settle machine r s)
          (λ _. OnFile (Settled s.checksum o))
          (OnFile (Unsettled machine r s.checksum))
  unfolding settle
  settle-Leads r s o l t =
      Leads-if (is_recorded r s) done (save machine (with_applied machine r s))
        (λ h. Leads-pure tt (on (λ rs b. recorded-Settled r s o rs h t b)))
        (λ h.
          save-Leads machine (with_applied machine r s) (Before-Unsettled machine r s.checksum)
            (λ rs b x.
              let e = saved-Settled r s o rs l t b in
              record { history = e.history; applied = inr (e.applied, e.pending, x) })
            (λ rs b. saved-Settled r s o rs l t b))

  -- The plan's target is a version of the target.
  planned :
      (r : StateRecord) (s t : Snapshot) (m : Exec (World K) Outcome)
      → Version s t
      → (Later r.applied (some t)
          → Leads
              (OnFile (Before r))
              m
              (λ o. OnFile (Settled t.checksum o))
              (OnFile (Unsettled machine r t.checksum)))
      → Later r.applied (some s)
      → Leads
          (OnFile (Before r))
          m
          (λ o. OnFile (Settled s.checksum o))
          (OnFile (Unsettled machine r s.checksum))
  planned r s t m v lead l =
      subst
        (λ sum.
          Leads (OnFile (Before r)) m (λ o. OnFile (Settled sum o))
            (OnFile (Unsettled machine r sum)))
        v.checksum (lead (moved r.applied l))
    where
      moved : (a : Option Snapshot) → Later a (some s) → Later a (some t)
      moved none l = tt
      moved (some a) l = rw (v.desired, v.checksum) l

  pub converge-Leads :
      (r : StateRecord) (s : Snapshot) (recovering enforce : Bool)
      → Later r.applied (some s)
      → Leads
          (OnFile (Before r))
          (converge machine r s recovering enforce)
          (λ o. OnFile (Settled s.checksum o))
          (OnFile (Unsettled machine r s.checksum))
  unfolding converge
  converge-Leads r s recovering enforce l =
      let e = on (Before-Unsettled machine r s.checksum) in
      Leads-step e (read_clock machine) _ (read_clock-Keeps machine) anything (λ now _.
        Leads-step e (make_plan machine r s now) _ (make_plan-Keeps machine (Before r) r s now)
          (make_plan-Yields machine r s now)
          (λ plan v.
            Leads-step e (call machine "" machine.inspect) _ (call-Keeps machine "" machine.inspect)
              anything
              (λ i _.
                Leads-step e (lift (accept_installed r plan.target enforce i)) _ (Keeps-lift _)
                  anything
                  (λ _ _.
                    Leads-step e (measure_drift machine r plan i) _
                      (measure_drift-Keeps machine (Before r) r plan i) anything
                      (λ d _.
                        planned r s plan.target _ v
                          (λ k.
                            Leads-if (all_current d && not (needs_cleanup plan.target)) _ _
                              (λ _.
                                Leads-bind (settle machine r plan.target) _
                                  (settle-Leads r plan.target (outcome_of plan.target recovering) k
                                    refl)
                                  (λ _. Leads-pure (outcome_of plan.target recovering) (λ w h. h)))
                              (λ _. replace-Leads machine r plan d i now recovering k))
                          l)))))
