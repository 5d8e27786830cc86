-- ===== src/Meter.antt =====
-- internal/meter/tracker.go: the tracker that turns counter samples into deltas. A `uint64` is a
-- number below 2 ^ 64, and an error leaves the tracker as it was.
pub mod Accounting
pub mod Idempotence
pub mod Sequence
use l4way.Prelude.{
  ℕ, ◌+◌, ◌-◌, ◌%◌, ◌^◌, String, Bool, true, false, not, ◌&&◌, ◌||◌, Option, none, some, List, [],
  ◌∷◌, map, ltb, ◌==◌, Eq, string_eq, nat_eq, if◌then◌else◌, Result, ok, err, ◌>>=◌, ◌>>◌,
  reject_if, is_some, get_or_default, any, str_lt, lookup, insert, keys,
}
use l4way.Prelude.Sort.{sort_by}

pub record Sample : Type 0 where
  pub name : String
  pub packets : ℕ
  pub bytes : ℕ

pub record Value : Type 0 where
  pub packets : ℕ
  pub bytes : ℕ

abbrev pub no_value : Value
no_value = record { packets = 0; bytes = 0 }

pub record State : Type 0 where
  pub epoch : String
  pub sequence : ℕ
  pub values : List (String × Value)

pub record Delta : Type 0 where
  pub name : String
  pub packets : ℕ
  pub bytes : ℕ
  pub reset : Bool

pub record Batch : Type 0 where
  pub epoch : String
  pub sequence : ℕ
  pub deltas : List Delta

pub data MeterError : Type 0 where
  sequence_without_epoch empty_epoch empty_name : MeterError
  duplicate_sample : String → MeterError

-- NewTracker: the tracker is its state.
unfoldable pub new_tracker : State → Result MeterError State
new_tracker state =
    if ltb 0 state.sequence && state.epoch == "" then err sequence_without_epoch else ok state

-- The loop that fills `current`.
unfoldable pub collect :
    List (String × Value) → List Sample → Result MeterError (List (String × Value))
collect current [] = ok current
collect current (sample ∷ samples) =
    let rest =
      collect
        (insert sample.name (record { packets = sample.packets; bytes = sample.bytes }) current)
        samples in
    if sample.name == ""
    then err empty_name
    else if is_some (lookup sample.name current)
    then err (duplicate_sample sample.name)
    else rest

-- The body of the loop over the sorted names, on the two readings of the map.
unfoldable pub delta_of : Bool → String → Option Value → Option Value → Delta
delta_of epoch_changed name value previous =
    let v = get_or_default no_value value in
    let p = get_or_default no_value previous in
    let reset =
      epoch_changed || not (is_some previous) || ltb v.packets p.packets || ltb v.bytes p.bytes in
    if reset
    then record { name = name; packets = v.packets; bytes = v.bytes; reset = true }
    else record {
      name = name;
      packets = v.packets - p.packets;
      bytes = v.bytes - p.bytes;
      reset = false;
    }

unfoldable pub deltas_of : State → String → List (String × Value) → List Delta
unfolding delta_of keys
deltas_of state epoch current =
    map
      (λ name.
        delta_of (not (state.epoch == epoch)) name (lookup name current) (lookup name state.values))
      (sort_by str_lt (keys current))

abbrev pub is_nonzero : Delta → Bool
is_nonzero d = not (d.packets == 0) || not (d.bytes == 0)

-- What happens to the state once the deltas are known.
unfoldable pub advance : State → String → List (String × Value) → List Delta → State × Batch
advance state epoch current deltas =
    let moved = record state { epoch = epoch; values = current } in
    let next = (state.sequence + 1) % 2 ^ 64 in
    if any is_nonzero deltas
    then (
      record moved { sequence = next },
      record { epoch = epoch; sequence = next; deltas = deltas },
    )
    else (moved, record { epoch = epoch; sequence = 0; deltas = deltas })

unfoldable pub observe : State → String → List Sample → Result MeterError (State × Batch)
unfolding deltas_of advance
observe state epoch samples = do
  reject_if (epoch == "") empty_epoch
  current ← collect [] samples
  ok (advance state epoch current (deltas_of state epoch current))
