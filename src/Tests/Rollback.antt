-- ===== src/Tests/Rollback.antt =====
-- An installation that fails on a host that takes only one script.
use l4way.Prelude.{
  ◌≡◌, ◌⊎◌, refl, String, true, false, Bool, none, List, ◌∷◌, ◌==◌, string_eq, Result, ok, err,
}
use l4way.Agent.Exec.{Failure, message, with_rollback, handle}
use l4way.Agent.Machine.{Machine}
use l4way.Agent.Converge.{Plan, Drift}
use l4way.Agent.Converge.Change.{install}
use l4way.Agent.Converge.Rollback.{with_rollback_of}
use l4way.Agent.Converge.Proofs.Restored.{Restores, IsBack}
use l4way.Agent.Converge.Proofs.Rollbacks.{install-IsBack}
use l4way.Tests.Agent.{machine, first, snapshot, recorded}

-- The table holds the last known good program after `true`.
abbrev taken : Bool → Result String (Unit {0}) × Bool
taken true = (ok tt, true)
taken false = (err "busy", false)

abbrev picky : Machine Bool Unit Unit
picky = record machine { apply = λ script k. taken (script == "table") }

abbrev IsGood : Bool → Type 0
IsGood k = k ≡ true

abbrev Anything : Bool → Type 0
Anything k = Unit

restores : Restores picky snapshot 9 IsGood Anything Anything
restores = record {
  nft = λ p k e h. good (p.script == "table") h;
  tc = λ t p k s e h. tt;
  links = λ f p k s e h. tt;
  tc_apart = λ t p k s h. cc;
  cleanup_apart = λ f p q k s. cc;
  verify_apart = λ f p k s. cc;
}
  where
    good : (b : Bool) → (taken b).0 ≡ ok tt → IsGood (taken b).1
    good true h = refl
    good false h = cc

abbrev plan : Plan Unit Unit
plan = record { target = snapshot; tc_program = none; fabric_programs = none }

abbrev drift : Drift
drift = record { nft_current = false; tc_current = true; fabric_current = true }

abbrev cause : Failure
cause = message "apply nft program after fabric prepare: busy"

fails :
    (handle
      (install picky plan drift "next")
      (with_rollback_of picky recorded snapshot.desired 9)
      first).0
    ≡ err cause
unfolding install with_rollback_of l4way.Agent.Exec.handle
    l4way.Agent.Converge.Rollback.rollback_goal
fails = refl

install-IsBack_example :
    (why : Failure) × ((install picky plan drift "next" first).0 ≡ err why)
    × (((cause ≡ why)
          × IsBack picky snapshot 9 IsGood Anything Anything restores
              (handle
                (install picky plan drift "next")
                (with_rollback_of picky recorded snapshot.desired 9)
                first).1.kernel)
        ⊎ ((text : String) × (texts : List String) × (cause ≡ with_rollback why (text ∷ texts))))
install-IsBack_example =
    install-IsBack picky snapshot 9 IsGood Anything Anything restores recorded plan drift "next"
      snapshot.desired first cause refl (λ e. cc e) fails
