-- ===== src/Tests/Meter.antt =====
-- A second call of the tracker, with a counter that has grown and a new one.
use l4way.Prelude.{
  ◌≡◌, ◌≢◌, ◌⊎◌, String, In, refl, ◌+◌, ◌%◌, ◌^◌, true, false, List, [], ◌∷◌, ok, All, lookup,
  insert, keys,
}
use l4way.Prelude.Sort.{sort_by, place}
use l4way.Meter.{Delta, Sample, State, Batch, collect, delta_of, deltas_of, advance, observe}
use l4way.Meter.Accounting.{Accounts, observe-Accounts}
use l4way.Meter.Sequence.{Still, observe-sequence}
use l4way.Meter.Idempotence.{IsZero, observe-observe}

abbrev before : State
before = record {
  epoch = "boot";
  sequence = 4;
  values = ("web", record { packets = 1; bytes = 10 }) ∷ [];
}

abbrev samples : List Sample
samples =
    record { name = "web"; packets = 3; bytes = 40 }
    ∷ record { name = "dns"; packets = 1; bytes = 7 }
    ∷ []

abbrev after : State
after = record {
  epoch = "boot";
  sequence = 5;
  values =
      ("web", record { packets = 3; bytes = 40 }) ∷ ("dns", record { packets = 1; bytes = 7 }) ∷ [];
}

abbrev batch : Batch
batch = record {
  epoch = "boot";
  sequence = 5;
  deltas =
      record { name = "dns"; packets = 1; bytes = 7; reset = true }
      ∷ record { name = "web"; packets = 2; bytes = 30; reset = false }
      ∷ [];
}

observed : observe before "boot" samples ≡ ok (after, batch)
unfolding observe collect deltas_of delta_of advance insert lookup keys sort_by place
observed = refl

observe-Accounts_example : All (Accounts before "boot" after) batch.deltas
observe-Accounts_example = observe-Accounts before "boot" samples after batch observed

observe-sequence_example :
    ((batch.sequence ≡ (before.sequence + 1) % 2 ^ 64)
      × (after.sequence ≡ batch.sequence)
      × ((d : Delta) × In d batch.deltas × ((d.packets ≢ 0) ⊎ (d.bytes ≢ 0))))
    ⊎ ((batch.sequence ≡ 0)
        × (after.sequence ≡ before.sequence)
        × ((name : String) → Still before "boot" after name))
observe-sequence_example = observe-sequence before "boot" samples after batch observed

observe-observe_example :
    (again : Batch) × (observe after "boot" samples ≡ ok (after, again))
    × (again.sequence ≡ 0)
    × All IsZero again.deltas
observe-observe_example = observe-observe before "boot" samples after batch observed
