-- ===== src/Agent/Converge/Rollback.antt =====
-- internal/agent/reconciler.go: the return to the last known good snapshot. Every step is tried, and the
-- texts of the errors are gathered.
use Prim.Native.String.{◌++◌ as append}
use l4way.Prelude.{
  ℕ, String, true, Option, none, some, List, [], ◌∷◌, ◌++◌, ◌==◌, string_eq, if◌then◌else◌, Result,
  ok, err,
}
use l4way.Spec.{DesiredState}
use l4way.Agent.{Snapshot, StateRecord, checksum}
use l4way.Agent.Exec.{Exec, Failure, with_rollback, pure, raise, ◌>>=◌}
use l4way.Agent.Machine.{Machine, World, Call, TrafficControl, Fabric, NftProgram}

abbrev pub text_if_bad : {A : Type 0} → String → Result String A → List String
text_if_bad words (ok _) = []
text_if_bad words (err text) = append words text ∷ []

abbrev pub joined : Failure → List String → Failure
joined e [] = e
joined e (text ∷ texts) = with_rollback e (text ∷ texts)

module _ {K T F : Type 0} (machine : Machine K T F) where
  -- A call whose error is added to the others.
  unfoldable pub tried : String → Call K (Unit {0}) → Exec (World K) (List String)
  tried words f w = let (r, k) = f w.kernel in (ok (text_if_bad words r), record w { kernel = k })

  abbrev pub emptied : DesiredState → DesiredState
  emptied desired = record desired {
    forwards = [];
    user_policies = [];
    fabric_links = [];
    service_cidrs = [];
  }

  abbrev pub empty_goal : DesiredState → Result String String → DesiredState × String × List String
  empty_goal desired (ok sum) = (desired, sum, [])
  empty_goal desired (err text) = (desired, "", append "checksum empty rollback: " text ∷ [])

  -- What is returned to, its checksum, which stays empty when it cannot be taken, and the errors.
  unfoldable pub rollback_goal :
      Option Snapshot → DesiredState → DesiredState × String × List String
  rollback_goal (some applied) target = (applied.desired, applied.checksum, [])
  rollback_goal none target = empty_goal (emptied target) (checksum machine.codec (emptied target))

  abbrev pub program_or_zero : Fabric K F → Result String F → F
  program_or_zero fabric (ok program) = program
  program_or_zero fabric (err _) = fabric.zero_program

  -- The program of the target, and the errors on the way to it.
  abbrev pub target_program : Fabric K F → DesiredState → Result String String → F × List String
  target_program fabric target (err text) =
      (fabric.zero_program, append "checksum target fabric rollback: " text ∷ [])
  target_program fabric target (ok sum) =
      let compiled = fabric.compile target sum in
      (program_or_zero fabric compiled, text_if_bad "compile target fabric rollback: " compiled)

  abbrev pub prepared : Fabric K F → Result String F → Exec (World K) (List String)
  prepared fabric (ok program) = tried "prepare fabric rollback: " (fabric.prepare program)
  prepared fabric (err text) = pure (append "compile applied fabric rollback: " text ∷ [])

  abbrev pub prepare_fabric :
      Option (Fabric K F) → DesiredState → DesiredState → String → Exec (World K) (List String)
  prepare_fabric none target goal sum = pure []
  prepare_fabric (some fabric) target goal sum = if sum == "" then pure [] else do
    texts ← prepared fabric (fabric.compile goal sum)
    pure ((target_program fabric target (checksum machine.codec target)).1 ++ texts)

  abbrev pub apply_nft_program : Result String NftProgram → Exec (World K) (List String)
  apply_nft_program (ok program) = tried "apply nft rollback: " (machine.apply program.script)
  apply_nft_program (err text) = pure (append "compile nft rollback: " text ∷ [])

  abbrev pub apply_nft : ℕ → Option Snapshot → Exec (World K) (List String)
  apply_nft now none =
      tried "remove first-generation nft table: " (machine.apply "delete table inet flux\n")
  apply_nft now (some applied) =
      apply_nft_program (machine.compile_at applied.desired applied.checksum true now)

  abbrev pub apply_tc_program : TrafficControl K T → Result String T → Exec (World K) (List String)
  apply_tc_program tc (ok program) = tried "apply tc rollback: " (tc.apply program)
  apply_tc_program tc (err text) = pure (append "compile tc rollback: " text ∷ [])

  abbrev pub apply_tc :
      Option (TrafficControl K T) → DesiredState → String → Exec (World K) (List String)
  apply_tc none goal sum = pure []
  apply_tc (some tc) goal sum =
      if sum == ""
      then pure ("tc rollback checksum is unavailable" ∷ [])
      else apply_tc_program tc (tc.compile goal sum)

  abbrev pub clean_fabric :
      Option (Fabric K F) → DesiredState → DesiredState → String → Exec (World K) (List String)
  clean_fabric none target goal sum = pure []
  clean_fabric (some fabric) target goal sum = if sum == "" then pure [] else do
    let program = program_or_zero fabric (fabric.compile goal sum)
    let superseded = (target_program fabric target (checksum machine.codec target)).0
    cleaned ← tried "cleanup fabric rollback: " (fabric.cleanup superseded program)
    verified ← tried "verify fabric rollback: " (fabric.verify program)
    pure (cleaned ++ verified)

  -- rollbackDataplane: the errors, none of which stops it.
  unfoldable pub rollback_dataplane : StateRecord → DesiredState → ℕ → Exec (World K) (List String)
  unfolding tried ◌>>=◌
  rollback_dataplane r target now = do
    let (goal, sum, texts) = rollback_goal r.applied target
    a ← prepare_fabric machine.fabric target goal sum
    b ← apply_nft now r.applied
    c ← apply_tc machine.traffic goal sum
    d ← clean_fabric machine.fabric target goal sum
    pure (texts ++ a ++ b ++ c ++ d)

  -- withRollback
  unfoldable pub with_rollback_of :
      {A : Type 0} → StateRecord → DesiredState → ℕ → Failure → Exec (World K) A
  unfolding rollback_dataplane
  with_rollback_of r target now e = do
    texts ← rollback_dataplane r target now
    raise (joined e texts)
