-- ===== src/Agent/Converge/Proofs/Rollbacks.antt =====
-- How a failed installation ends (internal/agent/reconciler.go): rolled back, or with the errors of that.
use l4way.Prelude.{
  ℕ, ◌≡◌, ◌≢◌, ◌⊎◌, inl, inr, refl, String, true, false, some, List, [], ◌∷◌, ◌++◌, ◌==◌, string_eq,
  Bool-cases, append-eq-nil, Result, ok, err,
}
use l4way.Spec.{DesiredState}
use l4way.Agent.{Snapshot, StateRecord}
use l4way.Agent.Exec.{Failure, with_rollback, raise, handle, handle_with, continue, ◌>>=◌}
use l4way.Agent.Exec.Leads.{Ended, Leads, Leads-pure, Leads-bind}
use l4way.Agent.Machine.{Machine, World}
use l4way.Agent.Converge.{Plan, Drift}
use l4way.Agent.Converge.Change.{install}
use l4way.Agent.Converge.Rollback.{
  joined, rollback_goal, prepare_fabric, apply_nft, apply_tc, clean_fabric, rollback_dataplane,
  with_rollback_of,
}
use l4way.Agent.Converge.Proofs.Restored.{
  Restores, OnHost, Never, IsCompiled, IsBack, prepare_fabric-Leads, nft_program-Leads,
  apply_tc-Leads, clean_fabric-Leads,
}

not_empty : (s : String) → s ≢ "" → (s == "") ≡ false
not_empty s n = elim (Bool-cases (s == "")) [
  | inl t ↦ absurd (n ((string_eq.beq_iff s "").0 t))
  | inr f ↦ f
]

module _ {K T F : Type 0} (machine : Machine K T F) (good : Snapshot) (now : ℕ)
    (Nft Tc Links : K → Type 0) (does : Restores machine good now Nft Tc Links) where
  rollback_dataplane-Leads :
      (r : StateRecord) (target : DesiredState)
      → r.applied ≡ some good
      → (good.checksum == "") ≡ false
      → Leads
          (OnHost (λ _. Unit))
          (rollback_dataplane machine r target now)
          (λ t. OnHost (λ k. t ≡ [] → IsBack machine good now Nft Tc Links does k))
          Never
  unfolding rollback_dataplane rollback_goal
  rollback_dataplane-Leads r target e n = rw e (
      Leads-bind (prepare_fabric machine machine.fabric target good.desired good.checksum) _
        (prepare_fabric-Leads machine good now Nft Tc Links does machine.fabric target n)
        (λ a.
          Leads-bind (apply_nft machine now (some good)) _
            (nft_program-Leads machine good now Nft Tc Links does
              (a ≡ [] → IsCompiled machine good now Nft Tc Links does machine.fabric)
              (machine.compile_at good.desired good.checksum true now) refl)
            (λ b.
              Leads-bind (apply_tc machine machine.traffic good.desired good.checksum) _
                (apply_tc-Leads machine good now Nft Tc Links does
                  (a ≡ [] → IsCompiled machine good now Nft Tc Links does machine.fabric) (b ≡ [])
                  machine.traffic refl n)
                (λ c.
                  Leads-bind (clean_fabric machine machine.fabric target good.desired good.checksum)
                    _
                    (clean_fabric-Leads machine good now Nft Tc Links does (a ≡ []) (b ≡ [])
                      (c ≡ []) machine.fabric target refl n)
                    (λ d. Leads-pure _ (λ w h. record {
                      host = λ all.
                          let (abc, t) = append-eq-nil (a ++ b ++ c) d all in
                          let (ab, z) = append-eq-nil (a ++ b) c abc in
                          let (x, y) = append-eq-nil a b ab in
                          let (stage, links) = h.host in (stage.1 y, stage.2 z, links x t);
                    }))))))

  -- How it ends, from the result of the installation and the host after it.
  Ends : Result Failure (Unit {0}) → Failure → K → Type 0
  Ends x e k =
      (cause : Failure) × (x ≡ err cause)
      × (((e ≡ cause) × IsBack machine good now Nft Tc Links does k)
          ⊎ ((text : String) × (texts : List String) × (e ≡ with_rollback cause (text ∷ texts))))

  gathered :
      (cause e : Failure) (x : Result Failure (List String)) (w : World K)
      → Ended (λ t. OnHost (λ k. t ≡ [] → IsBack machine good now Nft Tc Links does k)) Never x w
      → let s = continue x (λ texts. raise {A = Unit {0}} (joined cause texts)) w in
        s.0 ≡ err e → Ends (err cause) e s.1.kernel
  unfolding raise Ends
  gathered cause e (err y) w h same = absurd h
  gathered cause e (ok []) w h same = (cause, refl, inl (cc, h.host refl))
  gathered cause e (ok (t ∷ ts)) w h same = (cause, refl, inr (t, ts, cc))

  handled :
      (r : StateRecord) (target : DesiredState)
      → r.applied ≡ some good
      → good.checksum ≢ ""
      → (x : Result Failure (Unit {0})) (e : Failure) (w : World K)
      → let s = handle_with x (with_rollback_of machine r target now) w in
        s.0 ≡ err e → Ends x e s.1.kernel
  unfolding with_rollback_of ◌>>=◌
  handled r target a n (ok u) e w same = cc
  handled r target a n (err cause) e w same =
      gathered cause e (rollback_dataplane machine r target now w).0
        (rollback_dataplane machine r target now w).1
        ((rollback_dataplane-Leads r target a (not_empty good.checksum n)).at w
          (record { host = tt }))
        same

  -- Where the backends do what they report, an installation that fails when a snapshot with a checksum is
  -- applied leaves the host back at that snapshot, in nftables, tc and the fabric, and fails with its own
  -- error; or it fails with its own error and the errors of the rollback, of which there is at least one.
  pub install-IsBack :
      (r : StateRecord) (plan : Plan T F) (d : Drift) (script : String) (target : DesiredState)
      (w : World K) (e : Failure)
      → r.applied ≡ some good
      → good.checksum ≢ ""
      → (handle (install machine plan d script) (with_rollback_of machine r target now) w).0 ≡ err e
      → (cause : Failure) × ((install machine plan d script w).0 ≡ err cause)
        × (((e ≡ cause)
              × IsBack machine good now Nft Tc Links does
                  (handle
                    (install machine plan d script)
                    (with_rollback_of machine r target now)
                    w).1.kernel)
            ⊎ ((text : String) × (texts : List String) × (e ≡ with_rollback cause (text ∷ texts))))
  unfolding handle Ends
  install-IsBack r plan d script target w e a n same =
      handled r target a n (install machine plan d script w).0 e (install machine plan d script w).1
        same
