-- ===== src/Agent/Reconciler/Proofs/Entry.antt =====
-- What the entry points of a reconciler leave in the file (internal/agent/reconciler.go).
use l4way.Prelude.{
  ◌≡◌, ◌⊎◌, inl, inr, refl, sym, ◌∙◌, subst, String, Bool, true, false, string_eq, Option, none,
  some, List, [], ◌∷◌, Result, ok, err,
}
use l4way.Spec.{DesiredState}
use l4way.Spec.Canonical.{canonical}
use l4way.Spec.Validate.State.{Issue}
use l4way.Agent.{Codec, Snapshot, StateRecord, check_order, checksum, issues}
use l4way.Agent.Exec.{Exec, Failure, told, lift, ◌>>=◌}
use l4way.Agent.Exec.Keeps.{Keeps, Keeps-pure, Keeps-raise, Keeps-lift}
use l4way.Agent.Exec.Leads.{
  Returned, Ended, Leads, Leads-step, Leads-bind, Leads-map, Yields-lift, anything, facts,
}
use l4way.Agent.Machine.{Machine, World, read_clock, load}
use l4way.Agent.Machine.Durable.{
  IsReported, OnFile, History, Later, applied_of, pending_of, load-Leads, read_clock-Keeps,
}
use l4way.Agent.Outbox.Keeps.{Before}
use l4way.Agent.Converge.{Outcome}
use l4way.Agent.Converge.Change.{converge}
use l4way.Agent.Converge.Proofs.Plans.{HasSum, Settled}
use l4way.Agent.Converge.Proofs.Ends.{on}
use l4way.Agent.Converge.Proofs.Outcomes.{converge-Leads}
use l4way.Agent.Reconciler.{validate_incoming_generation, target_of, reject_state, apply_locked}
use l4way.Agent.Reconciler.Proofs.{
  validate_incoming_generation_lem, target_of-Carries, Later-of-Carries,
}

-- The file at the start of a call, with what is applied.
pub record Start (a : Option Snapshot) (rs : List StateRecord) : Type 0 where
  pub history : History rs
  pub applied : applied_of rs ≡ a

pub record AsRead (a : Option Snapshot) (r : StateRecord) : Type 0 where
  pub same : r.applied ≡ a
  pub order : check_order r.applied r.pending ≡ ok tt

-- The sum is the checksum of the canonical form of a state.
abbrev pub IsSum : Codec → DesiredState → String → Type 0
IsSum codec wanted sum = checksum codec (canonical ⦃names = codec.names⦄ wanted) ≡ ok sum

-- The state is applied and nothing is pending.
pub record Applied (codec : Codec) (wanted : DesiredState) (o : Outcome) (rs : List StateRecord)
    : Type 0 where
  pub settled : Settled o.checksum o rs
  pub sum : IsSum codec wanted o.checksum

-- The wanted state is applied and nothing is pending, in a record whose write reported an error.
pub record AppliedUnreported {K T F : Type 0} (machine : Machine K T F) (wanted : DesiredState)
    (rs : List StateRecord) : Type 0 where
  pub sum : String
  pub is_sum : IsSum machine.codec wanted sum
  pub applied : HasSum sum (applied_of rs)
  pub pending : pending_of rs ≡ none
  pub reported : IsReported machine rs

-- What was applied still is, or the wanted state is although its write reported an error.
pub record Refused {K T F : Type 0} (machine : Machine K T F) (wanted : DesiredState)
    (a : Option Snapshot) (rs : List StateRecord) : Type 0 where
  pub history : History rs
  pub applied : (applied_of rs ≡ a) ⊎ AppliedUnreported machine wanted rs

-- Nothing is pending.
pub record Quiet (rs : List StateRecord) : Type 0 where
  pub history : History rs
  pub pending : pending_of rs ≡ none

told-ok : (words : String) (r : Result String String) → Returned (λ sum. r ≡ ok sum) (told words r)
told-ok words (ok sum) = refl
told-ok words (err text) = tt

self_equal : (r : Result Failure (Unit {0})) → Returned (λ _. r ≡ ok tt) r
self_equal (ok u) = refl
self_equal (err e) = tt

module _ {K T F : Type 0} (machine : Machine K T F) where
  reject_state-Keeps : (P : World K → Type 0) (is : List Issue) → Keeps P (reject_state is)
  reject_state-Keeps P [] = Keeps-pure tt
  reject_state-Keeps P (i ∷ is) = Keeps-raise _

  pub read-Leads :
      (a : Option Snapshot)
      → Leads
          (OnFile (Start a))
          (load machine)
          (λ r w. AsRead a r × OnFile (Before r) w)
          (OnFile (Start a))
  read-Leads a =
      Leads-map (λ w h. h)
        (λ r w h.
          let (s, l) = h.file in
          (
            record { same = sym l.applied ∙ s.applied; order = l.order },
            record {
              file = record { history = s.history; applied = l.applied; pending = l.pending };
            },
          ))
        (λ w h. h) (load-Leads machine (Start a))

  pub apply_locked-Leads :
      (wanted : DesiredState) (a : Option Snapshot)
      → Leads
          (OnFile (Start a))
          (apply_locked machine wanted)
          (λ o. OnFile (Applied machine.codec wanted o))
          (OnFile (Refused machine wanted a))
  unfolding apply_locked
  apply_locked-Leads wanted a =
      let desired = canonical ⦃names = machine.codec.names⦄ wanted in
      let s = on (λ rs (h : Start a rs). record { history = h.history; applied = inl h.applied }) in
      Leads-step s (reject_state (issues machine.codec wanted)) _
        (reject_state-Keeps _ (issues machine.codec wanted)) anything
        (λ _ _.
          Leads-step s (lift (told "calculate desired checksum: " (checksum machine.codec desired)))
            _ (Keeps-lift _) (Yields-lift _ (told-ok _ (checksum machine.codec desired)))
            (λ sum is_sum.
              Leads-bind (load machine) _ (Leads-map (λ w h. h) (λ r w h. h) s (read-Leads a)) (λ r.
                facts (λ fact.
                  let e = on (λ rs (h : Before r rs). record {
                    history = h.history;
                    applied = inl (h.applied ∙ fact.same);
                  }) in
                  let check =
                    validate_incoming_generation r desired.node_id desired.generation sum in
                  Leads-step e (lift check) _ (Keeps-lift _) (Yields-lift _ (self_equal check))
                    (λ _ passed.
                      Leads-step e (read_clock machine) _ (read_clock-Keeps machine) anything
                        (λ now _.
                          let carried = target_of-Carries r desired sum now in
                          let follows =
                            (validate_incoming_generation_lem r desired.node_id desired.generation
                                sum).0
                              passed in
                          Leads-map (λ w h. h)
                            (λ o. on (λ rs h.
                              let same = h.told ∙ carried.checksum_is in
                              record {
                                settled = record {
                                  history = h.history;
                                  applied =
                                      subst (λ x. HasSum x (applied_of rs)) (sym h.told) h.applied;
                                  pending = h.pending;
                                  told = refl;
                                };
                                sum = subst (λ x. IsSum machine.codec wanted x) (sym same) is_sum;
                              }))
                            (on (λ rs h. record {
                              history = h.history;
                              applied = elim h.applied [
                                | inl x ↦ inl (x ∙ fact.same)
                                | inr (x, p, t) ↦ inr (record {
                                  sum = sum;
                                  is_sum = is_sum;
                                  applied =
                                      subst (λ y. HasSum y (applied_of rs)) carried.checksum_is x;
                                  pending = p;
                                  reported = t;
                                })
                              ];
                            }))
                            (converge-Leads machine r (target_of r desired sum now) false true (
                              Later-of-Carries r.applied desired.generation sum _ follows.1
                                carried))))))))

  -- A call of `Apply` that returns leaves the wanted state applied, by its checksum, and nothing pending,
  -- in a file that went through generations in order, as it did before the call.
  pub apply_locked-Applied :
      (wanted : DesiredState) (w : World K) (o : Outcome)
      → History w.saved
      → (apply_locked machine wanted w).0 ≡ ok o
      → Applied machine.codec wanted o (apply_locked machine wanted w).1.saved
  apply_locked-Applied wanted w o h e =
      let ended =
        (apply_locked-Leads wanted (applied_of w.saved)).at w
          (record { file = record { history = h; applied = refl } }) in
      (subst
        (λ r.
          Ended (λ o. OnFile (Applied machine.codec wanted o))
            (OnFile (Refused machine wanted (applied_of w.saved))) r
            (apply_locked machine wanted w).1)
        e ended).file

  -- A call of `Apply` that fails leaves what was applied, in a file that went through generations in
  -- order. The wanted state is applied instead only where the write of the record that says so put it in
  -- place and yet reported an error; then nothing is pending.
  pub apply_locked-Refused :
      (wanted : DesiredState) (w : World K) (e : Failure)
      → History w.saved
      → (apply_locked machine wanted w).0 ≡ err e
      → Refused machine wanted (applied_of w.saved) (apply_locked machine wanted w).1.saved
  apply_locked-Refused wanted w e h failed =
      let ended =
        (apply_locked-Leads wanted (applied_of w.saved)).at w
          (record { file = record { history = h; applied = refl } }) in
      (subst
        (λ r.
          Ended (λ o. OnFile (Applied machine.codec wanted o))
            (OnFile (Refused machine wanted (applied_of w.saved))) r
            (apply_locked machine wanted w).1)
        failed ended).file

  -- From a snapshot that may follow the applied one, to a quiet file.
  pub resumed :
      (r : StateRecord) (s : Snapshot) (recovering : Bool)
      → Later r.applied (some s)
      → Leads
          (OnFile (Before r))
          (converge machine r s recovering false)
          (λ _. OnFile Quiet)
          (OnFile History)
  resumed r s recovering l =
      Leads-map (λ w h. h) (λ o. on (λ rs h. record { history = h.history; pending = h.pending }))
        (on (λ rs h. h.history)) (converge-Leads machine r s recovering false l)

  pub Before-Quiet :
      (r : StateRecord) → r.pending ≡ none → (w : World K) → OnFile (Before r) w → OnFile Quiet w
  Before-Quiet r e = on (λ rs h. record { history = h.history; pending = h.pending ∙ e })

  -- An entry point that reads the record, and resumes from the snapshots in it.
  pub entered :
      (resume : StateRecord → Exec (World K) Outcome)
      → ((r : StateRecord)
          → check_order r.applied r.pending ≡ ok tt
          → Leads (OnFile (Before r)) (resume r) (λ _. OnFile Quiet) (OnFile History))
      → (a : Option Snapshot)
      → Leads (OnFile (Start a)) (load machine >>= resume) (λ _. OnFile Quiet) (OnFile History)
  entered resume lead a =
      Leads-bind (load machine) resume
        (Leads-map (λ w h. h) (λ r w h. h) (on (λ rs (h : Start a rs). h.history)) (read-Leads a))
        (λ r. facts (λ fact. lead r fact.order))
