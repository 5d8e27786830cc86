-- ===== src/Agent/Converge/Proofs/Restored.antt =====
-- What the rollback of internal/agent/reconciler.go brings back on the host.
use l4way.Prelude.{
  ℕ, ◌≡◌, refl, String, true, false, Option, none, some, List, [], ◌==◌, string_eq, append-eq-nil,
  cons_not_nil, Result, ok, err,
}
use l4way.Spec.{DesiredState}
use l4way.Agent.{Snapshot, checksum}
use l4way.Agent.Exec.Leads.{Leads, Leads-pure, Leads-bind}
use l4way.Agent.Machine.{Machine, World, Call, TrafficControl, Fabric, NftProgram}
use l4way.Agent.Converge.Rollback.{
  text_if_bad, tried, target_program, program_or_zero, prepared, prepare_fabric, apply_nft_program,
  apply_tc_program, apply_tc, clean_fabric,
}

-- What the backends do, for a snapshot to return to: a call that reports no error did what it is for, and
-- the calls for tc and the fabric leave alone what the ones before them brought about.
pub record Restores {K T F : Type 0} (machine : Machine K T F) (good : Snapshot) (now : ℕ)
    (Nft Tc Links : K → Type 0) : Type 0 where
  pub nft :
      (p : NftProgram) (k : K)
      → machine.compile_at good.desired good.checksum true now ≡ ok p
      → (machine.apply p.script k).0 ≡ ok tt
      → Nft (machine.apply p.script k).1
  pub tc :
      (t : TrafficControl K T) (p : T) (k : K)
      → machine.traffic ≡ some t
      → t.compile good.desired good.checksum ≡ ok p
      → (t.apply p k).0 ≡ ok tt
      → Tc (t.apply p k).1
  pub links :
      (f : Fabric K F) (p : F) (k : K)
      → machine.fabric ≡ some f
      → f.compile good.desired good.checksum ≡ ok p
      → (f.verify p k).0 ≡ ok tt
      → Links (f.verify p k).1
  pub tc_apart :
      (t : TrafficControl K T) (p : T) (k : K)
      → machine.traffic ≡ some t
      → Nft k
      → Nft (t.apply p k).1
  pub cleanup_apart :
      (f : Fabric K F) (p q : F) (k : K)
      → machine.fabric ≡ some f
      → (Nft k → Nft (f.cleanup p q k).1) × (Tc k → Tc (f.cleanup p q k).1)
  pub verify_apart :
      (f : Fabric K F) (p : F) (k : K)
      → machine.fabric ≡ some f
      → (Nft k → Nft (f.verify p k).1) × (Tc k → Tc (f.verify p k).1)

pub record OnHost {K : Type 0} (P : K → Type 0) (w : World K) : Type 0 where
  pub host : P w.kernel

-- A method that does not fail.
abbrev pub Never : {K : Type 0} → World K → Type 0
Never w = ⊥

abbrev pub IfPresent : {A : Type 0} → Option A → Type 0 → Type 0
IfPresent none X = Unit
IfPresent (some a) X = X

silent : (words : String) (r : Result String (Unit {0})) → text_if_bad words r ≡ [] → r ≡ ok tt
silent words (ok u) h = refl
silent words (err text) h = absurd (cons_not_nil h)

module _ {K T F : Type 0} (machine : Machine K T F) where
  tried-Leads :
      {P : K → Type 0} {Q : List String → K → Type 0} (words : String) (f : Call K (Unit {0}))
      → ((k : K) → P k → Q (text_if_bad words (f k).0) (f k).1)
      → Leads (OnHost P) (tried machine words f) (λ t. OnHost (Q t)) Never
  unfolding tried
  tried-Leads words f h = record { at = λ w p. record { host = h w.kernel p.host } }

module _ {K T F : Type 0} (machine : Machine K T F) (good : Snapshot) (now : ℕ)
    (Nft Tc Links : K → Type 0) (does : Restores machine good now Nft Tc Links) where
  abbrev pub IsCompiled : Option (Fabric K F) → Type 0
  IsCompiled none = Unit
  IsCompiled (some f) = (p : F) × (f.compile good.desired good.checksum ≡ ok p)

  -- The host is back at the snapshot, in all that the reconciler drives.
  abbrev pub IsBack : K → Type 0
  IsBack k = Nft k × IfPresent machine.traffic (Tc k) × IfPresent machine.fabric (Links k)

  prepared-Leads :
      (f : Fabric K F) (c : Result String F)
      → f.compile good.desired good.checksum ≡ c
      → Leads
          (OnHost (λ _. Unit))
          (prepared machine f c)
          (λ t. OnHost (λ _. t ≡ [] → IsCompiled (some f)))
          Never
  prepared-Leads f (ok p) e =
      tried-Leads machine "prepare fabric rollback: " (f.prepare p) (λ k _ _. (p, e))
  prepared-Leads f (err text) e =
      Leads-pure _ (λ w h. record { host = λ n. absurd (cons_not_nil n) })

  pub prepare_fabric-Leads :
      (o : Option (Fabric K F)) (target : DesiredState)
      → (good.checksum == "") ≡ false
      → Leads
          (OnHost (λ _. Unit))
          (prepare_fabric machine o target good.desired good.checksum)
          (λ t. OnHost (λ _. t ≡ [] → IsCompiled o))
          Never
  prepare_fabric-Leads none target n = Leads-pure [] (λ w h. record { host = λ e. tt })
  prepare_fabric-Leads (some f) target n = rw n (
      Leads-bind (prepared machine f (f.compile good.desired good.checksum)) _
        (prepared-Leads f (f.compile good.desired good.checksum) refl)
        (λ texts. Leads-pure _ (λ w h. record { host = λ e. h.host (append-eq-nil _ texts e).1 })))

  pub nft_program-Leads :
      (C : Type 0) (c : Result String NftProgram)
      → machine.compile_at good.desired good.checksum true now ≡ c
      → Leads
          (OnHost (λ _. C))
          (apply_nft_program machine c)
          (λ t. OnHost (λ k. C × (t ≡ [] → Nft k)))
          Never
  nft_program-Leads C (ok p) e =
      tried-Leads machine "apply nft rollback: " (machine.apply p.script)
        (λ k h. (h, λ n. does.nft p k e (silent _ _ n)))
  nft_program-Leads C (err text) e =
      Leads-pure _ (λ w h. record { host = (h.host, λ n. absurd (cons_not_nil n)) })

  tc_program-Leads :
      (C B : Type 0) (t : TrafficControl K T) (c : Result String T)
      → machine.traffic ≡ some t
      → t.compile good.desired good.checksum ≡ c
      → Leads
          (OnHost (λ k. C × (B → Nft k)))
          (apply_tc_program machine t c)
          (λ x. OnHost (λ k. C × (B → Nft k) × (x ≡ [] → Tc k)))
          Never
  tc_program-Leads C B t (ok p) s e =
      tried-Leads machine "apply tc rollback: " (t.apply p)
        (λ k h. (h.0, λ b. does.tc_apart t p k s (h.1 b), λ n. does.tc t p k s e (silent _ _ n)))
  tc_program-Leads C B t (err text) s e =
      Leads-pure _ (λ w h. record { host = (h.host.0, h.host.1, λ n. absurd (cons_not_nil n)) })

  pub apply_tc-Leads :
      (C B : Type 0) (o : Option (TrafficControl K T))
      → machine.traffic ≡ o
      → (good.checksum == "") ≡ false
      → Leads
          (OnHost (λ k. C × (B → Nft k)))
          (apply_tc machine o good.desired good.checksum)
          (λ x. OnHost (λ k. C × (B → Nft k) × (x ≡ [] → IfPresent o (Tc k))))
          Never
  apply_tc-Leads C B none s n =
      Leads-pure [] (λ w h. record { host = (h.host.0, h.host.1, λ _. tt) })
  apply_tc-Leads C B (some t) s n =
      rw n (tc_program-Leads C B t (t.compile good.desired good.checksum) s refl)

  program_of :
      (f : Fabric K F)
      → IsCompiled (some f)
      → (p : F) × (f.compile good.desired good.checksum ≡ ok p)
        × (program_or_zero machine f (f.compile good.desired good.checksum) ≡ p)
  program_of f (p, e) = (p, e, rw e refl)

  linked :
      (f : Fabric K F) (k : K)
      → machine.fabric ≡ some f
      → IsCompiled (some f)
      → let q = program_or_zero machine f (f.compile good.desired good.checksum) in
        (f.verify q k).0 ≡ ok tt → Links (f.verify q k).1
  linked f k s c = let (p, e, same) = program_of f c in rw same (does.links f p k s e)

  abbrev pub Stage : Type 0 → Type 0 → Type 0 → Option (Fabric K F) → K → Type 0
  Stage A B D o k = (A → IsCompiled o) × (B → Nft k) × (D → IfPresent machine.traffic (Tc k))

  kept_tc :
      {k l : K} (o : Option (TrafficControl K T))
      → (Tc k → Tc l)
      → IfPresent o (Tc k)
      → IfPresent o (Tc l)
  kept_tc none f h = tt
  kept_tc (some t) f h = f h

  pub clean_fabric-Leads :
      (A B D : Type 0) (o : Option (Fabric K F)) (target : DesiredState)
      → machine.fabric ≡ o
      → (good.checksum == "") ≡ false
      → Leads
          (OnHost (Stage A B D o))
          (clean_fabric machine o target good.desired good.checksum)
          (λ x. OnHost (λ k. Stage A B D o k × (A → x ≡ [] → IfPresent o (Links k))))
          Never
  clean_fabric-Leads A B D none target s n =
      Leads-pure [] (λ w h. record { host = (h.host, λ _ _. tt) })
  clean_fabric-Leads A B D (some f) target s n =
      let q = program_or_zero machine f (f.compile good.desired good.checksum) in
      let old = (target_program machine f target (checksum machine.codec target)).0 in
      rw n (
        Leads-bind (tried machine "cleanup fabric rollback: " (f.cleanup old q)) _
          (tried-Leads machine {Q = λ _. Stage A B D (some f)} "cleanup fabric rollback: "
            (f.cleanup old q)
            (λ k h.
              let (x, y) = does.cleanup_apart f old q k s in
              (h.0, λ b. x (h.1 b), λ d. kept_tc machine.traffic y (h.2 d))))
          (λ cleaned.
            Leads-bind (tried machine "verify fabric rollback: " (f.verify q)) _
              (tried-Leads machine {Q = λ v k. Stage A B D (some f) k × (A → v ≡ [] → Links k)}
                "verify fabric rollback: " (f.verify q)
                (λ k h.
                  let (x, y) = does.verify_apart f q k s in
                  (
                    (h.0, λ b. x (h.1 b), λ d. kept_tc machine.traffic y (h.2 d)),
                    λ a v. linked f k s (h.0 a) (silent _ _ v),
                  )))
              (λ verified. Leads-pure _ (λ w h. record {
                host = (h.host.0, λ a e. h.host.1 a (append-eq-nil cleaned verified e).1);
              }))))
