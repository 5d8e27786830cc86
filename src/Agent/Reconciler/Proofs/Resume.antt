-- ===== src/Agent/Reconciler/Proofs/Resume.antt =====
-- What recovery, audit and refresh leave in the file (internal/agent/reconciler.go).
use l4way.Prelude.{
  ◌≡◌, refl, sym, subst, Bool, true, false, ◌==◌, string_eq, Option, none, some, ok,
}
use l4way.Agent.{Snapshot, StateRecord, check_order}
use l4way.Agent.Exec.{Exec}
use l4way.Agent.Exec.Leads.{
  Ended, Leads, Leads-pure, Leads-if, Leads-step, Leads-bind, Leads-map, anything,
}
use l4way.Agent.Machine.{Machine, World, read_clock}
use l4way.Agent.Machine.Durable.{OnFile, History, Later, Later-refl, applied_of, read_clock-Keeps}
use l4way.Agent.Outbox.Keeps.{Before}
use l4way.Agent.Converge.{Outcome}
use l4way.Agent.Converge.Change.{converge}
use l4way.Agent.Converge.Proofs.Ends.{on}
use l4way.Agent.Reconciler.{recover_from, recover, audit_from, audit, refresh_from, refresh}
use l4way.Agent.Reconciler.Proofs.{Later-of-order}
use l4way.Agent.Reconciler.Proofs.Entry.{Start, Quiet, resumed, Before-Quiet, entered}

-- A method that leaves the file quiet, or with its generations in order.
abbrev pub Resumes : {K A : Type 0} → StateRecord → Exec (World K) A → Type 0
Resumes r m = Leads (OnFile (Before r)) m (λ _. OnFile Quiet) (OnFile History)

module _ {K T F : Type 0} (machine : Machine K T F) where
  order_at :
      (r : StateRecord) (a p : Option Snapshot)
      → r.applied ≡ a
      → r.pending ≡ p
      → check_order r.applied r.pending ≡ ok tt
      → check_order a p ≡ ok tt
  order_at r a p ea ep h =
      subst (λ x. check_order x p ≡ ok tt) ea (subst (λ x. check_order r.applied x ≡ ok tt) ep h)

  at_pending :
      (r : StateRecord) (a : Option Snapshot) (s : Snapshot) (b : Bool)
      → r.applied ≡ a
      → check_order a (some s) ≡ ok tt
      → Resumes r (converge machine r s b false)
  at_pending r a s b ea h =
      resumed machine r s b (subst (λ x. Later x (some s)) (sym ea) (Later-of-order a s h))

  at_applied :
      (r : StateRecord) (s : Snapshot) (b : Bool)
      → r.applied ≡ some s
      → Resumes r (converge machine r s b false)
  at_applied r s b ea =
      resumed machine r s b (subst (λ x. Later x (some s)) (sym ea) (Later-refl (some s)))

  recover_from-Resumes :
      (r : StateRecord) (a p : Option Snapshot)
      → r.applied ≡ a
      → r.pending ≡ p
      → check_order a p ≡ ok tt
      → Resumes r (recover_from machine r a p)
  recover_from-Resumes r a (some s) ea ep h = at_pending r a s true ea h
  recover_from-Resumes r (some s) none ea ep h = at_applied r s true ea
  recover_from-Resumes r none none ea ep h = Leads-pure _ (Before-Quiet machine r ep)

  audit_from-Resumes :
      (r : StateRecord) (a p : Option Snapshot)
      → r.applied ≡ a
      → r.pending ≡ p
      → check_order a p ≡ ok tt
      → Resumes r (audit_from machine r a p)
  audit_from-Resumes r a (some s) ea ep h = at_pending r a s false ea h
  audit_from-Resumes r (some s) none ea ep h = at_applied r s false ea
  audit_from-Resumes r none none ea ep h = Leads-pure _ (Before-Quiet machine r ep)

  refresh_from-Resumes :
      (r : StateRecord) (a p : Option Snapshot)
      → r.applied ≡ a
      → r.pending ≡ p
      → check_order a p ≡ ok tt
      → Resumes r (refresh_from machine r a p)
  refresh_from-Resumes r a (some s) ea ep h = at_pending r a s false ea h
  refresh_from-Resumes r none none ea ep h = Leads-pure _ (Before-Quiet machine r ep)
  refresh_from-Resumes r (some s) none ea ep h =
      Leads-step (on (λ rs (b : Before r rs). b.history)) (read_clock machine) _
        (read_clock-Keeps machine) anything
        (λ now _.
          Leads-if (s.program_checksum == machine.program_checksum_at s.desired s.checksum now) _ _
            (λ _. Leads-pure _ (Before-Quiet machine r ep)) (λ _. at_applied r s false ea))

  -- What an entry point that resumes leaves: with a result the file is quiet, and without one its
  -- generations are in order.
  abbrev pub LeavesQuiet : Exec (World K) Outcome → World K → Type 0
  LeavesQuiet m w = Ended (λ _ (w : World K). Quiet w.saved) (λ w. History w.saved) (m w).0 (m w).1

  left_at :
      (m : Exec (World K) Outcome)
      → ((a : Option Snapshot) → Leads (OnFile (Start a)) m (λ _. OnFile Quiet) (OnFile History))
      → (w : World K) → History w.saved
      → LeavesQuiet m w
  left_at m lead w h =
      (Leads-map {P' = λ x. Start (applied_of w.saved) x.saved}
          {Q' = λ _ (w : World K). Quiet w.saved} {E' = λ (w : World K). History w.saved}
          (λ x start. record { file = start }) (λ o x q. q.file) (λ x e. e.file)
          (lead (applied_of w.saved))).at
        w (record { history = h; applied = refl })

  pub recover-Leads :
      (a : Option Snapshot)
      → Leads (OnFile (Start a)) (recover machine) (λ _. OnFile Quiet) (OnFile History)
  unfolding recover
  recover-Leads a =
      entered machine _
        (λ r h.
          Leads-bind (recover_from machine r r.applied r.pending) _
            (recover_from-Resumes r r.applied r.pending refl refl h) (λ o. Leads-pure _ (λ w q. q)))
        a

  pub audit-Leads :
      (a : Option Snapshot)
      → Leads (OnFile (Start a)) (audit machine) (λ _. OnFile Quiet) (OnFile History)
  unfolding audit
  audit-Leads a = entered machine _ (λ r h. audit_from-Resumes r r.applied r.pending refl refl h) a

  pub refresh-Leads :
      (a : Option Snapshot)
      → Leads (OnFile (Start a)) (refresh machine) (λ _. OnFile Quiet) (OnFile History)
  unfolding refresh
  refresh-Leads a =
      entered machine _ (λ r h. refresh_from-Resumes r r.applied r.pending refl refl h) a

  -- Recovery, audit and refresh, when they return, leave nothing pending; whether they return or fail, the
  -- file went through generations in order, as it did before.
  pub recover-audit-refresh :
      (w : World K)
      → History w.saved
      → LeavesQuiet (recover machine) w
        × LeavesQuiet (audit machine) w
        × LeavesQuiet (refresh machine) w
  recover-audit-refresh w h = (
    left_at (recover machine) recover-Leads w h,
    left_at (audit machine) audit-Leads w h,
    left_at (refresh machine) refresh-Leads w h,
  )
