-- ===== src/Agent/Reconciler/Proofs/Steps.antt =====
-- An agent over time (internal/agent): its operations in any order, on a host that changes under it, with
-- a crash at any write.
use l4way.Prelude.{ℕ, ◌≡◌, String, List, ◌++◌}
use l4way.Spec.{DesiredState}
use l4way.Agent.{StateRecord}
use l4way.Agent.Machine.{Machine, World}
use l4way.Agent.Outbox.{collect_usage, ack_usage}
use l4way.Agent.Reconciler.{apply_locked, recover, audit, refresh}
use l4way.Agent.Purge.{purge}

pub data Operation : Type 0 where
  applying : DesiredState → Operation
  recovering auditing refreshing collecting : Operation
  acking : String → ℕ → Operation
  purging : String → Operation

module _ {K T F : Type 0} (machine : Machine K T F) where
  -- The world after an operation, which may have failed.
  abbrev pub after : Operation → World K → World K
  after (applying wanted) w = (apply_locked machine wanted w).1
  after recovering w = (recover machine w).1
  after auditing w = (audit machine w).1
  after refreshing w = (refresh machine w).1
  after collecting w = (collect_usage machine w).1
  after (acking epoch n) w = (ack_usage machine epoch n w).1
  after (purging node_id) w = (purge machine node_id w).1

  -- One step: a whole operation, a change of the host by others, or an operation that is cut off when
  -- only the older ones of its records were written.
  pub data Step : World K → World K → Type 0 where
    whole : (op : Operation) (w : World K) → Step w (after op w)
    host : (k : K) (w : World K) → Step w (record w { kernel = k })
    crash :
        (op : Operation) (w : World K) (k : K) (lost written : List StateRecord)
        → (after op w).saved ≡ lost ++ (written ++ w.saved)
        → Step w (record { kernel = k; saved = written ++ w.saved })

  pub data Run : World K → World K → Type 0 where
    here : (w : World K) → Run w w
    there : {u v w : World K} → Run u v → Step v w → Run u w
