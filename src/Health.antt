-- ===== src/Health.antt =====
-- internal/health/engine.go: active probes with node-local hysteresis. The engine's state is its map
-- of probe states. The goroutines that probe the due checks, with the deadline of each, are outside
-- of the model: `gather` stands for them, and returns the outcomes in the order of their arrival.
pub mod Hysteresis
pub mod Schedule
use l4way.Prelude.{
  ℕ, ◌+◌, ◌*◌, String, Bool, true, false, ◌||◌, not, Option, none, some, List, [], ◌∷◌, ◌++◌, map,
  ltb, leb, eqb, ◌==◌, Eq, nat_eq, string_eq, pair_eq, if◌then◌else◌, get_or_default, any, keep,
  str_lt, lookup, insert, is_some,
}
use Prim.Native.String.{len, slice}
use l4way.Prelude.Sort.{sort_by}
use l4way.Net.{second}
use l4way.Spec.{HealthCheckSpec, DesiredState}

-- `unset` is the empty string of a new probe state.
pub data Status : Type 0 where
  unset unknown healthy unhealthy : Status

pub record Report : Type 0 where
  pub node_id : String
  pub generation : ℕ
  pub pool_id : String
  pub backend_id : String
  pub resource_version : ℕ
  pub status : Status
  pub latency : ℕ
  pub error : Option String
  pub observed_at : ℕ

pub record ProbeState : Type 0 where
  pub last_attempt : ℕ
  pub status : Status
  pub consecutive_success : ℕ
  pub consecutive_failure : ℕ
  pub resource_version : ℕ

-- What a missing key reads as.
abbrev pub no_probe : ProbeState
no_probe = record {
  last_attempt = 0;
  status = unset;
  consecutive_success = 0;
  consecutive_failure = 0;
  resource_version = 0;
}

abbrev pub ProbeKey : Type 0
ProbeKey = String × String

abbrev pub States : Type 0
States = List (ProbeKey × ProbeState)

abbrev pub key_of : HealthCheckSpec → ProbeKey
key_of check = (check.pool_id, check.backend_id)

abbrev pub state_at : ProbeKey → States → ProbeState
state_at key states = get_or_default no_probe (lookup key states)

-- `state.lastAttempt.IsZero() || !now.Before(state.lastAttempt.Add(interval))`
abbrev pub is_due : HealthCheckSpec → ProbeState → ℕ → Bool
is_due check state now =
    state.last_attempt == 0 || leb (state.last_attempt + check.interval_seconds * second) now

-- The state of a check whose resource has changed starts anew.
unfoldable pub refresh : HealthCheckSpec → States → States
refresh check states =
    if (state_at (key_of check) states).resource_version == check.resource_version
    then states
    else insert (key_of check) (record no_probe { resource_version = check.resource_version })
        states

-- The loop over `desired.HealthChecks`: the states, and the checks that are due.
unfoldable pub collect_due : ℕ → List HealthCheckSpec → States → States × List HealthCheckSpec
unfolding refresh
collect_due now [] states = (states, [])
collect_due now (check ∷ checks) states =
    let fresh = refresh check states in
    let (states', due) = collect_due now checks fresh in
    (states', if is_due check (state_at (key_of check) fresh) now then check ∷ due else due)

-- `delete(e.states, key)` for the keys that no check has.
unfoldable pub drop_inactive : List HealthCheckSpec → States → States
drop_inactive checks = keep (λ p. any (λ check. key_of check == p.0) checks)

pub record Outcome : Type 0 where
  pub check : HealthCheckSpec
  pub latency : ℕ
  pub error : Option String

-- `if state.status == "" { state.status = StatusUnknown }`
abbrev pub known : Status → Status
known unset = unknown
known s = s

abbrev pub raise : ℕ → ℕ → ℕ
raise n threshold = if ltb n threshold then n + 1 else n

-- The hysteresis of one attempt.
unfoldable pub attempt : HealthCheckSpec → ℕ → Bool → ProbeState → ProbeState
attempt check now true state =
    let n = raise state.consecutive_success check.success_threshold in
    record {
      last_attempt = now;
      status = known (if leb check.success_threshold n then healthy else state.status);
      consecutive_success = n;
      consecutive_failure = 0;
      resource_version = check.resource_version;
    }
attempt check now false state =
    let n = raise state.consecutive_failure check.failure_threshold in
    record {
      last_attempt = now;
      status = known (if leb check.failure_threshold n then unhealthy else state.status);
      consecutive_success = 0;
      consecutive_failure = n;
      resource_version = check.resource_version;
    }

-- The bytes of a text up to a limit. Go cuts inside of a character of several bytes, which no text
-- of the model can hold: there the character is dropped.
abbrev pub truncate : String → ℕ → String
truncate value limit = if leb (len value) limit then value else slice value 0 limit

-- The body of the loop over the outcomes, with the report that it appends.
unfoldable pub absorb : DesiredState → ℕ → Outcome → States → States × Report
unfolding attempt
absorb desired now outcome states =
    let check = outcome.check in
    let state = attempt check now (not (is_some outcome.error)) (state_at (key_of check) states) in
    (
      insert (key_of check) state states,
      record {
        node_id = desired.node_id;
        generation = desired.generation;
        pool_id = check.pool_id;
        backend_id = check.backend_id;
        resource_version = check.resource_version;
        status = state.status;
        latency = outcome.latency;
        error = elim outcome.error [ none ↦ none | some e ↦ some (truncate e 512) ];
        observed_at = now;
      },
    )

unfoldable pub absorb_all : DesiredState → ℕ → List Outcome → States → States × List Report
unfolding absorb
absorb_all desired now [] states = (states, [])
absorb_all desired now (outcome ∷ outcomes) states =
    let (states', report) = absorb desired now outcome states in
    let (states'', reports) = absorb_all desired now outcomes states' in
    (states'', report ∷ reports)

-- By pool, then by backend.
abbrev pub report_less : Report → Report → Bool
report_less a b =
    if a.pool_id == b.pool_id then str_lt a.backend_id b.backend_id else str_lt a.pool_id b.pool_id

-- Engine.RunDue
unfoldable pub run_due :
    (List HealthCheckSpec → List Outcome) → DesiredState → ℕ → States → States × List Report
unfolding collect_due drop_inactive absorb_all
run_due gather desired now states =
    let (refreshed, due) = collect_due now desired.health_checks states in
    let (states', reports) =
      absorb_all desired now (gather due) (drop_inactive desired.health_checks refreshed) in
    (states', sort_by report_less reports)
