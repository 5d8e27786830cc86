-- ===== src/Meter/Accounting.antt =====
-- What the deltas of a batch add up to.
use l4way.Prelude.{
  ◌+◌, ◌%◌, ◌^◌, ◌≡◌, refl, ◌⊎◌, inl, inr, true, false, String, List, [], ◌∷◌, map, arith, All, any,
  ok, string_eq, ◌==◌, not, lookup, keys, get_or_default, >>=-eq-ok, str_lt, Bool-cases, reject_if,
  if◌then◌else◌, subst, ok-injective,
}
use l4way.Prelude.Sort.{sort_by}
use l4way.Meter.{
  Sample, Value, no_value, State, Delta, Batch, delta_of, deltas_of, advance, collect, observe,
  is_nonzero, empty_epoch,
}

-- The counter of a name that a state holds.
abbrev pub counter : State → String → Value
counter s name = get_or_default no_value (lookup name s.values)

-- A delta restates the counter that `after` holds, or it is what the counter gained.
abbrev pub Accounts : State → String → State → Delta → Type 0
Accounts before epoch after d =
    ((d.reset ≡ true)
      × (d.packets ≡ (counter after d.name).packets)
      × (d.bytes ≡ (counter after d.name).bytes))
    ⊎ ((d.reset ≡ false)
        × (before.epoch ≡ epoch)
        × ((counter before d.name).packets + d.packets ≡ (counter after d.name).packets)
        × ((counter before d.name).bytes + d.bytes ≡ (counter after d.name).bytes))

pub delta_of-Accounts :
    (s : State) (epoch : String) (after : State) (name : String)
    → Accounts s epoch after
        (delta_of (not (s.epoch == epoch)) name (lookup name after.values) (lookup name s.values))
unfolding delta_of
delta_of-Accounts s epoch after name = ground (arith, string_eq.beq_iff s.epoch epoch)

map-Accounts :
    (s : State) (epoch : String) (after : State) (names : List String)
    → All (Accounts s epoch after) (
        map
          (λ name.
            delta_of
              (not (s.epoch == epoch))
              name
              (lookup name after.values)
              (lookup name s.values))
          names)
map-Accounts s epoch after [] = tt
map-Accounts s epoch after (n ∷ ns) =
    (delta_of-Accounts s epoch after n, map-Accounts s epoch after ns)

-- A successful call is `advance` on the collected samples.
pub observe_parts :
    (s : State) (epoch : String) (samples : List Sample) (r : State × Batch)
    → observe s epoch samples ≡ ok r
    → (current : List (String × Value)) × ((epoch == "") ≡ false)
      × (collect [] samples ≡ ok current)
      × (advance s epoch current (deltas_of s epoch current) ≡ r)
unfolding observe
observe_parts s epoch samples r h =
    let (t, p, k) = >>=-eq-ok (reject_if (epoch == "") empty_epoch) _ h in
    let (current, q, e) = >>=-eq-ok (collect [] samples) _ k in
    (current, ground arith, q, ok-injective e)

pub observe_of_parts :
    (s : State) (epoch : String) (samples : List Sample) (current : List (String × Value))
    → (epoch == "") ≡ false
    → collect [] samples ≡ ok current
    → observe s epoch samples ≡ ok (advance s epoch current (deltas_of s epoch current))
unfolding observe
observe_of_parts s epoch samples current t q = rw (t, q)

pub advance_fields :
    (s : State) (epoch : String) (current : List (String × Value)) (deltas : List Delta)
    → let r = advance s epoch current deltas in
      (r.0.values ≡ current) × (r.0.epoch ≡ epoch) × (r.1.deltas ≡ deltas)
unfolding advance
advance_fields s epoch current deltas = ground arith

deltas_of-Accounts :
    (s : State) (epoch : String) (after : State)
    → All (Accounts s epoch after) (deltas_of s epoch after.values)
unfolding deltas_of
deltas_of-Accounts s epoch after = map-Accounts s epoch after (sort_by str_lt (keys after.values))

-- Every delta of a batch either is marked as a reset and carries the whole counter, or is the exact
-- gain of its counter since the last call, which was made in the same epoch.
pub observe-Accounts :
    (s : State) (epoch : String) (samples : List Sample) (s' : State) (b : Batch)
    → observe s epoch samples ≡ ok (s', b)
    → All (Accounts s epoch s') b.deltas
observe-Accounts s epoch samples s' b h =
    let (current, t, q, e) = observe_parts s epoch samples (s', b) h in
    let f = advance_fields s epoch current (deltas_of s epoch current) in
    let values : s'.values ≡ current = cc (e, f.0) in
    let deltas : b.deltas ≡ deltas_of s epoch current = cc (e, f.2) in
    rw (deltas, ← values) (deltas_of-Accounts s epoch s')

advance-sequence :
    (s : State) (epoch : String) (current : List (String × Value)) (deltas : List Delta)
    → let r = advance s epoch current deltas in
      if any is_nonzero r.1.deltas
      then (r.1.sequence ≡ (s.sequence + 1) % 2 ^ 64) × (r.0.sequence ≡ r.1.sequence)
      else (r.1.sequence ≡ 0) × (r.0.sequence ≡ s.sequence)
unfolding advance
advance-sequence s epoch current deltas = elim (Bool-cases (any is_nonzero deltas)) [
  | inl t ↦ rw t (rw t (refl, refl))
  | inr f ↦ rw f (rw f (refl, refl))
]

-- A batch with a delta that is not zero takes the next sequence number, and any other batch takes
-- number 0 and leaves the sequence of the tracker alone.
pub observe_numbers :
    (s : State) (epoch : String) (samples : List Sample) (s' : State) (b : Batch)
    → observe s epoch samples ≡ ok (s', b)
    → if any is_nonzero b.deltas
      then (b.sequence ≡ (s.sequence + 1) % 2 ^ 64) × (s'.sequence ≡ b.sequence)
      else (b.sequence ≡ 0) × (s'.sequence ≡ s.sequence)
observe_numbers s epoch samples s' b h =
    let (current, t, q, e) = observe_parts s epoch samples (s', b) h in
    subst
      (λ (r : State × Batch).
        if any is_nonzero r.1.deltas
        then (r.1.sequence ≡ (s.sequence + 1) % 2 ^ 64) × (r.0.sequence ≡ r.1.sequence)
        else (r.1.sequence ≡ 0) × (r.0.sequence ≡ s.sequence))
      e (advance-sequence s epoch current (deltas_of s epoch current))
