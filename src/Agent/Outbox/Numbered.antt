-- ===== src/Agent/Outbox/Numbered.antt =====
-- The numbers of the batches in an outbox (internal/agent/reconciler.go).
use l4way.Prelude.{
  ℕ, ◌+◌, ◌%◌, ◌^◌, ◌≤◌, ◌<◌, ◌≡◌, arith, String, Bool-cases, inl, inr, List, [], ◌∷◌, ◌++◌, any,
  All, length, length-append, ltb, not, true, refl, then_ok, reject_if, Result, ok, err,
  ok-injective, subst, sym,
}
use l4way.Meter.{Sample, State, observe, is_nonzero}
use l4way.Meter
use l4way.Meter.Accounting.{observe_numbers}
use l4way.Usage.{Batch, BatchError, validate_batch}
use l4way.Agent.{
  Snapshot, StateRecord, max_usage_outbox, check_outbox, check_after, batch_error, not_increasing,
}
use l4way.Agent.Machine.{CounterBinding}
use l4way.Agent.Outbox.{usage_batch, with_batch, counted_record}

abbrev pub Increasing : List Batch → Type 0
Increasing [] = Unit
Increasing (b ∷ bs) = All (λ c. b.sequence < c.sequence) bs × Increasing bs

-- The batches are numbered in increasing order, up to a bound.
abbrev pub IsNumbered : ℕ → List Batch → Type 0
IsNumbered bound bs = All (λ b. b.sequence ≤ bound) bs × Increasing bs

All-below :
    (m n : ℕ) (bs : List Batch)
    → m ≤ n
    → All (λ b. b.sequence ≤ m) bs
    → All (λ b. b.sequence ≤ n) bs
All-below m n [] le h = tt
All-below m n (b ∷ bs) le h = (omega (arith, h.0), All-below m n bs le h.1)

All-snoc :
    (P : Batch → Type 0) (bs : List Batch) (b : Batch) → All P bs → P b → All P (bs ++ (b ∷ []))
All-snoc P [] b h p = (p, tt)
All-snoc P (c ∷ bs) b h p = (h.0, All-snoc P bs b h.1 p)

Increasing-snoc :
    (m : ℕ) (bs : List Batch) (b : Batch)
    → All (λ c. c.sequence ≤ m) bs
    → m < b.sequence
    → Increasing bs
    → Increasing (bs ++ (b ∷ []))
Increasing-snoc m [] b h lt i = (tt, tt)
Increasing-snoc m (c ∷ bs) b h lt i = (
  All-snoc (λ d. c.sequence < d.sequence) bs b i.0 (omega (arith, h.0)),
  Increasing-snoc m bs b h.1 lt i.1,
)

ltb_lt : (m n : ℕ) → m < n → ltb m n ≡ true
ltb_lt m n h = ground arith

-- The next number is one more, short of 64 bits.
step_of : (n m : ℕ) → n + 1 < 2 ^ 64 → m ≡ (n + 1) % 2 ^ 64 → m ≡ n + 1
step_of n m lt e = omega arith

-- The outbox as the record needs it: numbered up to the number of the meter, short of its limit, and such
-- that the check of a record finds nothing wrong with it.
pub record IsSound (limit bound : ℕ) (bs : List Batch) : Type 0 where
  pub numbered : IsNumbered bound bs
  pub checked : check_outbox bs ≡ ok tt
  pub bounded : length bs ≤ limit

check_after-snoc :
    (p m : ℕ) (bs : List Batch) (b : Batch)
    → check_after p bs ≡ ok tt
    → All (λ c. c.sequence ≤ m) bs
    → p ≤ m
    → m < b.sequence
    → validate_batch b ≡ ok tt
    → check_after p (bs ++ (b ∷ [])) ≡ ok tt
unfolding check_after
check_after-snoc p m [] b h a le lt v = rw (v, ltb_lt p b.sequence (omega arith)) refl
check_after-snoc p m (c ∷ bs) b h a le lt v =
    let (valid, rest) = then_ok (batch_error (validate_batch c)) _ h in
    let (above, after) =
      then_ok (reject_if (not (ltb p c.sequence)) not_increasing) (check_after c.sequence bs)
        rest in
    rw (valid, above) (check_after-snoc c.sequence m bs b after a.1 a.0 lt v)

check_outbox-snoc :
    (m : ℕ) (bs : List Batch) (b : Batch)
    → check_outbox bs ≡ ok tt
    → All (λ c. c.sequence ≤ m) bs
    → m < b.sequence
    → validate_batch b ≡ ok tt
    → check_outbox (bs ++ (b ∷ [])) ≡ ok tt
unfolding check_outbox check_after
check_outbox-snoc m [] b h a lt v = rw v refl
check_outbox-snoc m (c ∷ bs) b h a lt v =
    let (valid, rest) = then_ok (batch_error (validate_batch c)) (check_after c.sequence bs) h in
    rw valid (check_after-snoc c.sequence m bs b rest a.1 a.0 lt v)

with_batch-IsSound :
    (r next : StateRecord) (meter : State) (b : Batch) (v : Result BatchError (Unit {0}))
    → validate_batch b ≡ v
    → IsSound max_usage_outbox r.meter.sequence r.usage_outbox
    → length r.usage_outbox < max_usage_outbox
    → b.sequence ≡ r.meter.sequence + 1
    → meter.sequence ≡ r.meter.sequence + 1
    → with_batch r meter b v ≡ ok next
    → IsSound max_usage_outbox next.meter.sequence next.usage_outbox
with_batch-IsSound r next meter b (err e) valid h room p q k = cc
with_batch-IsSound r next meter b (ok tt) valid h room p q k =
    subst (λ (s : StateRecord). IsSound max_usage_outbox s.meter.sequence s.usage_outbox)
      (ok-injective k)
      (record {
        numbered = (
          All-snoc (λ c. c.sequence ≤ meter.sequence) r.usage_outbox b
              (All-below r.meter.sequence meter.sequence r.usage_outbox (omega arith) h.numbered.0)
              (omega arith),
          Increasing-snoc r.meter.sequence r.usage_outbox b h.numbered.0 (omega arith) h.numbered.1,
        );
        checked =
            check_outbox-snoc r.meter.sequence r.usage_outbox b h.checked h.numbered.0 (omega arith)
              valid;
        bounded = omega (arith, length-append r.usage_outbox (b ∷ []));
      })

-- Counting adds to an outbox that is not full a batch that the check of a record accepts, with a number
-- above the others and up to that of the meter, as long as that number fits in 64 bits; so the record
-- that is then saved is not refused for its outbox.
pub counted_record-IsSound :
    (r next : StateRecord) (s : Snapshot) (bindings : List (String × CounterBinding)) (t : ℕ)
    (epoch : String) (samples : List Sample) (meter : State) (counted : Meter.Batch)
    → IsSound max_usage_outbox r.meter.sequence r.usage_outbox
    → length r.usage_outbox < max_usage_outbox
    → r.meter.sequence + 1 < 2 ^ 64
    → observe r.meter epoch samples ≡ ok (meter, counted)
    → counted_record r s bindings t (meter, counted) ≡ ok next
    → IsSound max_usage_outbox next.meter.sequence next.usage_outbox
unfolding counted_record usage_batch
counted_record-IsSound r next s bindings t epoch samples meter counted h room lt o k =
    elim (Bool-cases (any is_nonzero counted.deltas)) [
      | inl e ↦
          let (p, q) = rw e at (observe_numbers r.meter epoch samples meter counted o) in
          let n = step_of r.meter.sequence counted.sequence lt p in
          with_batch-IsSound r next meter _ _ refl h room n (omega arith) (rw e at k)
      | inr e ↦
          let (p, q) = rw e at (observe_numbers r.meter epoch samples meter counted o) in
          subst (λ (s : StateRecord). IsSound max_usage_outbox s.meter.sequence s.usage_outbox)
            (ok-injective (rw e at k))
            (subst (λ n. IsSound max_usage_outbox n r.usage_outbox) (sym q) h)
    ]
