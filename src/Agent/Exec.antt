-- ===== src/Agent/Exec.antt =====
-- The errors of an agent, and its methods: what a method wrote before it failed stays written, so the
-- state comes back beside an error too.
pub mod Keeps
pub mod Leads
use Prim.Native.String.{◌++◌ as append}
use l4way.Prelude.{String, Bool, true, false, List, Result, ok, err}
use l4way.Spec.Validate.State.{Issue}
use l4way.Meter.{MeterError}
use l4way.Usage.{BatchError}
use l4way.Agent.{RecordError}

-- The values that some messages quote are left out.
pub data Failure : Type 0 where
  stale_generation generation_conflict node_identity foreign_table kernel_ahead : Failure
  traffic_control_unavailable usage_unavailable usage_outbox_full fabric_unavailable : Failure
  invalid_state : List Issue → Failure
  invalid_record : RecordError → Failure
  invalid_meter : MeterError → Failure
  invalid_batch : BatchError → Failure
  message : String → Failure
  -- A failure before the dataplane is replaced, and one with the errors of the rollback after it.
  before_replacement : Failure → Failure
  with_rollback : Failure → List String → Failure

-- errors.Is(err, ErrUsageUnavailable)
abbrev pub is_usage_unavailable : Failure → Bool
is_usage_unavailable usage_unavailable = true
is_usage_unavailable (before_replacement e) = is_usage_unavailable e
is_usage_unavailable (with_rollback e texts) = is_usage_unavailable e
is_usage_unavailable _ = false

abbrev pub Exec : Type 0 → Type 0 → Type 0
Exec W A = W → Result Failure A × W

module _ {W A : Type 0} where
  unfoldable pub pure : A → Exec W A
  pure a w = (ok a, w)

  unfoldable pub raise : Failure → Exec W A
  raise e w = (err e, w)

  unfoldable pub lift : Result Failure A → Exec W A
  lift r w = (r, w)

  -- What is done with the error of a call, and what the call wrote is kept.
  abbrev pub handle_with : Result Failure A → (Failure → Exec W A) → Exec W A
  handle_with (ok a) h w = (ok a, w)
  handle_with (err e) h w = h e w

  unfoldable pub handle : Exec W A → (Failure → Exec W A) → Exec W A
  handle m h w = let (r, w') = m w in handle_with r h w'

module _ {W A B : Type 0} where
  abbrev pub continue : Result Failure A → (A → Exec W B) → Exec W B
  continue (ok a) f w = f a w
  continue (err e) f w = (err e, w)

  infixl 10 ◌>>=◌ ◌>>◌
  -- Opening this opens `pure`, `raise` and `lift` too.
  unfoldable pub ◌>>=◌ : Exec W A → (A → Exec W B) → Exec W B
  unfolding pure raise lift
  ◌>>=◌ m f w = let (r, w') = m w in continue r f w'

  abbrev pub ◌>>◌ : Exec W A → Exec W B → Exec W B
  m >> n = m >>= λ _. n

-- An error of another package, behind the words that the agent puts before it.
abbrev pub told {ℓ} : {A : Type ℓ} → String → Result String A → Result Failure A
told words (ok a) = ok a
told words (err text) = err (message (append words text))

-- `if bad { return err }`
abbrev pub stop_if : {W : Type 0} → Bool → Failure → Exec W (Unit {0})
stop_if true e = raise e
stop_if false e = pure tt
