-- ===== src/Agent/Reconciler/Proofs/Monotone.antt =====
-- What an agent applied, over time (internal/agent): generations never go back.
use l4way.Prelude.{
  ℕ, ◌≡◌, refl, sym, subst, ap, arith, String, Option, none, some, List, [], ◌∷◌, ◌++◌, Result, ok,
  err,
}
use l4way.Usage.{Batch}
use l4way.Agent.{Snapshot, StateRecord}
use l4way.Agent.Exec.{Exec, Failure, ◌>>=◌}
use l4way.Agent.Exec.Keeps.{Keeps, Keeps-bind, Keeps-pure}
use l4way.Agent.Exec.Leads.{Ended, Leads, Leads-bind, Leads-map, Leads-of-Keeps, anything, facts}
use l4way.Agent.Machine.{Machine, World, load}
use l4way.Agent.Machine.Durable.{OnFile, History, Later, Later-refl, applied_of, read_clock-Keeps}
use l4way.Agent.Outbox.{collect_usage, clone_usage_batches, drop_acked, ack_usage, after_batch}
use l4way.Agent.Outbox.Keeps.{Before, collect-Keeps, save-Keeps-Before}
use l4way.Agent.Converge.Proofs.Ends.{on}
use l4way.Agent.Purge.Untouched.{purge-Keeps}
use l4way.Agent.Reconciler.Proofs.Entry.{Start, read-Leads, apply_locked-Leads}
use l4way.Agent.Reconciler.Proofs.Resume.{recover-Leads, audit-Leads, refresh-Leads}
use l4way.Agent.Reconciler.Proofs.Grows.{
  apply_locked-Keeps, recover-Keeps, audit-Keeps, refresh-Keeps, collect_usage-Keeps,
  ack_usage-Keeps,
}
use l4way.Agent.Reconciler.Proofs.Steps.{
  Operation, applying, recovering, auditing, refreshing, collecting, acking, purging, after, Step,
  whole, host, crash, Run, here, there,
}

Later-trans : (a b c : Option Snapshot) → Later a b → Later b c → Later a c
Later-trans none b c p q = tt
Later-trans (some a) none c p q = absurd p
Later-trans (some a) (some b) none p q = absurd q
Later-trans (some a) (some b) (some c) p q = ground arith

-- The records that are added come later.
History-Later :
    (new base : List StateRecord)
    → History (new ++ base)
    → Later (applied_of base) (applied_of (new ++ base))
History-Later [] base h = Later-refl (applied_of base)
History-Later (r ∷ new) base h =
    Later-trans (applied_of base) (applied_of (new ++ base)) r.applied (History-Later new base h.1)
      h.0

History-drop : (lost rs : List StateRecord) → History (lost ++ rs) → History rs
History-drop [] rs h = h
History-drop (r ∷ lost) rs h = History-drop lost rs h.1

-- The file holds the records of the base, and perhaps newer ones.
record Grown (base rs : List StateRecord) : Type 0 where
  new : List StateRecord
  split : rs ≡ new ++ base

grow :
    (base : List StateRecord) (r : StateRecord) (rs : List StateRecord)
    → Grown base rs
    → Grown base (r ∷ rs)
grow base r rs g = record { new = r ∷ g.new; split = ap (λ (x : List StateRecord). r ∷ x) g.split }

module _ {K T F : Type 0} (machine : Machine K T F) where
  -- A method that reads the record and keeps its snapshots.
  reading-Keeps :
      {A : Type 0} (a : Option Snapshot) (m : StateRecord → Exec (World K) A)
      → ((r : StateRecord) → Keeps (OnFile (Before r)) (m r))
      → Leads (OnFile (Start a)) (load machine >>= m) (λ _. OnFile History) (OnFile History)
  reading-Keeps a m k =
      Leads-bind (load machine) m
        (Leads-map (λ w h. h) (λ r w h. h) (on (λ rs (h : Start a rs). h.history))
          (read-Leads machine a))
        (λ r. facts (λ fact.
          Leads-of-Keeps (k r) anything (on (λ rs (h : Before r rs). h.history))
            (λ x w _. on (λ rs (h : Before r rs). h.history) w)))

  collect_usage-History :
      (a : Option Snapshot)
      → Leads (OnFile (Start a)) (collect_usage machine) (λ _. OnFile History) (OnFile History)
  unfolding collect_usage
  collect_usage-History a = reading-Keeps a _ (λ r.
      Keeps-bind _ _ (read_clock-Keeps machine) (λ now.
        Keeps-bind _ _ (collect-Keeps machine r now)
          (λ next. Keeps-pure (clone_usage_batches machine next.usage_outbox))))

  drop_acked-Keeps :
      (r : StateRecord) (o : Option (List Batch))
      → Keeps (OnFile (Before r)) (drop_acked machine r o)
  drop_acked-Keeps r none = Keeps-pure tt
  drop_acked-Keeps r (some rest) =
      save-Keeps-Before machine r _ (record { applied = refl; pending = refl })

  ack_usage-History :
      (epoch : String) (n : ℕ) (a : Option Snapshot)
      → Leads (OnFile (Start a)) (ack_usage machine epoch n) (λ _. OnFile History) (OnFile History)
  unfolding ack_usage
  ack_usage-History epoch n a =
      reading-Keeps a _ (λ r. drop_acked-Keeps r (after_batch epoch n r.usage_outbox))

  -- A method that leaves the generations in order either way.
  orderly :
      {A : Type 0} {Q : A → List StateRecord → Type 0} {E : List StateRecord → Type 0}
      {m : Exec (World K) A} (w : World K)
      → History w.saved
      → ((x : A) (rs : List StateRecord) → Q x rs → History rs)
      → ((rs : List StateRecord) → E rs → History rs)
      → Leads (OnFile (Start (applied_of w.saved))) m (λ x. OnFile (Q x)) (OnFile E)
      → History (m w).1.saved
  orderly {m = m} w h q e lead = same (m w).0 (m w).1 (
      (Leads-map (λ x p. p) (λ x. on (q x)) (on e) lead).at w
        (record { file = record { history = h; applied = refl } }))
    where
      same :
          {A : Type 0} (r : Result Failure A) (w : World K)
          → Ended (λ _. OnFile History) (OnFile History) r w
          → History w.saved
      same (ok x) w h = h.file
      same (err x) w h = h.file

  after-History :
      (op : Operation) (w : World K) → History w.saved → History (after machine op w).saved
  after-History (applying wanted) w h =
      orderly w h (λ o rs x. x.settled.history) (λ rs x. x.history)
        (apply_locked-Leads machine wanted (applied_of w.saved))
  after-History recovering w h =
      orderly w h (λ o rs x. x.history) (λ rs x. x) (recover-Leads machine (applied_of w.saved))
  after-History auditing w h =
      orderly w h (λ o rs x. x.history) (λ rs x. x) (audit-Leads machine (applied_of w.saved))
  after-History refreshing w h =
      orderly w h (λ o rs x. x.history) (λ rs x. x) (refresh-Leads machine (applied_of w.saved))
  after-History collecting w h =
      orderly w h (λ o rs x. x) (λ rs x. x) (collect_usage-History (applied_of w.saved))
  after-History (acking epoch n) w h =
      orderly w h (λ o rs x. x) (λ rs x. x) (ack_usage-History epoch n (applied_of w.saved))
  after-History (purging node_id) w h =
      ((purge-Keeps machine History node_id).at w (record { file = h })).file

  after-Grown : (op : Operation) (w : World K) → Grown w.saved (after machine op w).saved
  after-Grown op w = (kept op).file
    where
      start : OnFile {K = K} (Grown w.saved) w
      start = record { file = record { new = []; split = refl } }

      kept : (op : Operation) → OnFile (Grown w.saved) (after machine op w)
      kept (applying wanted) =
          (apply_locked-Keeps machine (Grown w.saved) (grow w.saved) wanted).at w start
      kept recovering = (recover-Keeps machine (Grown w.saved) (grow w.saved)).at w start
      kept auditing = (audit-Keeps machine (Grown w.saved) (grow w.saved)).at w start
      kept refreshing = (refresh-Keeps machine (Grown w.saved) (grow w.saved)).at w start
      kept collecting = (collect_usage-Keeps machine (Grown w.saved) (grow w.saved)).at w start
      kept (acking epoch n) =
          (ack_usage-Keeps machine (Grown w.saved) (grow w.saved) epoch n).at w start
      kept (purging node_id) = (purge-Keeps machine (Grown w.saved) node_id).at w start

  -- One step keeps the order, and does not go back.
  Step-Later :
      {v w : World K}
      → Step machine v w
      → History v.saved
      → History w.saved × Later (applied_of v.saved) (applied_of w.saved)
  Step-Later (whole op v) h =
      let g = after-Grown op v in
      let k = after-History op v h in
      (
        k,
        subst (λ rs. Later (applied_of v.saved) (applied_of rs)) (sym g.split)
            (History-Later g.new v.saved (subst History g.split k)),
      )
  Step-Later (host k v) h = (h, Later-refl (applied_of v.saved))
  Step-Later (crash op v k lost written e) h =
      let kept = History-drop lost (written ++ v.saved) (subst History e (after-History op v h)) in
      (kept, History-Later written v.saved kept)

  -- From a file with its generations in order, whatever operations run, whatever they meet and wherever they
  -- are cut off, the generation that is applied never goes back, and no generation is applied with two
  -- checksums.
  pub Run-Later :
      {v w : World K}
      → Run machine v w
      → History v.saved
      → History w.saved × Later (applied_of v.saved) (applied_of w.saved)
  Run-Later (here v) h = (h, Later-refl (applied_of v.saved))
  Run-Later (there {u = u} {v = v} {w = w} run step) h =
      let (k, l) = Run-Later run h in
      let (k', l') = Step-Later step k in
      (k', Later-trans (applied_of u.saved) (applied_of v.saved) (applied_of w.saved) l l')
