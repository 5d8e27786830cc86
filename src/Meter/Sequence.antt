-- ===== src/Meter/Sequence.antt =====
-- When a batch of `Observe` (internal/meter/tracker.go) takes a number.
use l4way.Prelude.{
  ◌+◌, ◌%◌, ◌^◌, ◌≡◌, ◌≢◌, ◌⊎◌, inl, inr, refl, true, false, not, String, List, arith, any, any-In,
  any-of-In, In, In-map, In-keys, Bool, Option, some, nat_eq, ok, ◌==◌, string_eq, lookup, keys,
  str_lt, Bool-cases, Option-cases, subst,
}
use l4way.Prelude.Sort.{sort_by, In-sort_by}
use l4way.Meter.{Sample, Value, State, Delta, Batch, delta_of, deltas_of, observe, is_nonzero}
use l4way.Meter.Accounting.{
  Accounts, counter, delta_of-Accounts, observe_parts, observe_numbers, advance_fields,
}

-- No traffic of the counter is new: it is what it was in the same epoch, or nothing was counted.
abbrev pub Still : State → String → State → String → Type 0
Still before epoch after name =
    (((counter after name).packets ≡ 0) × ((counter after name).bytes ≡ 0))
    ⊎ ((before.epoch ≡ epoch)
        × ((counter before name).packets ≡ (counter after name).packets)
        × ((counter before name).bytes ≡ (counter after name).bytes))

zero-Still :
    (s : State) (epoch : String) (after : State) (d : Delta)
    → is_nonzero d ≡ false
    → Accounts s epoch after d
    → Still s epoch after d.name
zero-Still s epoch after d z (inl h) = inl (ground arith, ground arith)
zero-Still s epoch after d z (inr h) = inr (h.1, ground arith, ground arith)

delta_of-name :
    (changed : Bool) (name : String) (value previous : Option Value)
    → (delta_of changed name value previous).name ≡ name
unfolding delta_of
delta_of-name changed name value previous = ground arith

-- The delta of a counter that was sampled is one of the deltas.
sampled :
    (s : State) (epoch : String) (values : List (String × Value)) (name : String) (v : Value)
    → lookup name values ≡ some v
    → In
        (delta_of (not (s.epoch == epoch)) name (lookup name values) (lookup name s.values))
        (deltas_of s epoch values)
unfolding deltas_of
sampled s epoch values name v e =
    (In-map _ _ (sort_by str_lt (keys values))).1
      (name, (In-sort_by str_lt name (keys values)).1 ((In-keys name values).1 (rw e refl)), refl)

quiet-Still :
    (s : State) (epoch : String) (after : State)
    → any is_nonzero (deltas_of s epoch after.values) ≡ false
    → (name : String) → Still s epoch after name
quiet-Still s epoch after h name = elim (Option-cases (lookup name after.values)) [
  | inl e ↦ inl (rw e refl, rw e refl)
  | inr (v, e) ↦
      let d =
        delta_of (not (s.epoch == epoch)) name (lookup name after.values) (lookup name s.values) in
      let m = sampled s epoch after.values name v e in
      let z : is_nonzero d ≡ false = ground (arith, any-of-In is_nonzero d _ m) in
      subst (Still s epoch after)
        (delta_of-name (not (s.epoch == epoch)) name (lookup name after.values)
          (lookup name s.values))
        (zero-Still s epoch after d z (delta_of-Accounts s epoch after name))
]

-- Either the batch takes the next sequence number, which the tracker keeps, and it has a delta with packets
-- or with bytes; or it takes number 0, the tracker keeps its number, and no counter has new traffic. So
-- no traffic is left out of the numbered batches, and none of those is empty.
pub observe-sequence :
    (s : State) (epoch : String) (samples : List Sample) (s' : State) (b : Batch)
    → observe s epoch samples ≡ ok (s', b)
    → ((b.sequence ≡ (s.sequence + 1) % 2 ^ 64)
        × (s'.sequence ≡ b.sequence)
        × ((d : Delta) × In d b.deltas × ((d.packets ≢ 0) ⊎ (d.bytes ≢ 0))))
      ⊎ ((b.sequence ≡ 0) × (s'.sequence ≡ s.sequence) × ((name : String) → Still s epoch s' name))
observe-sequence s epoch samples s' b h =
    let (current, t, q, e) = observe_parts s epoch samples (s', b) h in
    let f = advance_fields s epoch current (deltas_of s epoch current) in
    let values : s'.values ≡ current = cc (e, f.0) in
    let deltas : b.deltas ≡ deltas_of s epoch s'.values = cc (e, f.2, values) in
    let numbers = observe_numbers s epoch samples s' b h in
    elim (Bool-cases (any is_nonzero b.deltas)) [
      | inl y ↦
          let (p, r) = rw y at numbers in
          let (d, m, z) = any-In is_nonzero b.deltas y in inl (p, r, (d, m, moved d z))
      | inr n ↦ let (p, r) = rw n at numbers in inr (p, r, quiet-Still s epoch s' (rw deltas at n))
    ]
  where
    moved : (d : Delta) → is_nonzero d ≡ true → (d.packets ≢ 0) ⊎ (d.bytes ≢ 0)
    moved d z = elim (Bool-cases (d.packets == 0)) [
      | inl p ↦ inr (λ q. ground arith)
      | inr p ↦ inl (λ q. ground arith)
    ]
