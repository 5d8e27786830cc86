-- ===== src/Cluster/Backends.antt =====
-- internal/cluster/scheduler.go: the choice of a backend for a forward. The observations of health
-- are a function of their key. `candidates[0]` of an empty pool panics: `none`.
pub mod Choice
use l4way.Prelude.{
  ℕ, ◌+◌, ◌-◌, ◌*◌, String, Bool, true, false, ◌&&◌, ◌||◌, not, Option, none, some, List, [], ◌∷◌,
  ltb, leb, eqb, ◌==◌, nat_eq, string_eq, if◌then◌else◌, str_lt, keep,
}
use l4way.Prelude.Sort.{sort_by}
use l4way.Net.{second, minute}
use l4way.Health.{Status, unknown, healthy}
use l4way.Cluster.{
  Backend, BackendPool, HealthPolicy, HealthKey, HealthObservation, AlertCode,
  backend_health_unknown, backend_pool_exhausted,
}

abbrev pub backend_less : Backend → Backend → Bool
backend_less a b = if a.priority == b.priority then str_lt a.id b.id else ltb a.priority b.priority

-- The first backend with a test.
unfoldable pub find_backend : (Backend → Bool) → List Backend → Option Backend
find_backend p [] = none
find_backend p (b ∷ bs) = if p b then some b else find_backend p bs

-- backendByID
unfoldable pub backend_by_id : List Backend → String → Option Backend
unfolding find_backend
backend_by_id backends id = find_backend (λ b. b.id == id) backends

-- The loop over the sorted candidates: the previous backend if it is of the least priority.
unfoldable pub prefer : String → List Backend → Option Backend
unfolding find_backend
prefer previous_id [] = none
prefer previous_id (first ∷ rest) =
    elim (find_backend (λ b. b.priority == first.priority && b.id == previous_id) (first ∷ rest)) [
      | none ↦ some first
      | some b ↦ some b
    ]

-- preferredBackend
unfoldable pub preferred_backend : List Backend → String → Option Backend
unfolding prefer
preferred_backend backends previous_id = prefer previous_id (sort_by backend_less backends)

-- The previous backend where it is one of these, or else the preferred one.
unfoldable pub retain : List Backend → String → Option Backend
unfolding backend_by_id preferred_backend
retain backends previous_id = elim (backend_by_id backends previous_id) [
  | some b ↦ some b
  | none ↦ preferred_backend backends ""
]

abbrev pub is_healthy : Status → Bool
is_healthy healthy = true
is_healthy _ = false

abbrev pub is_unknown : Status → Bool
is_unknown unknown = true
is_unknown _ = false

-- An observation of this version of the backend, not from the future by more than five minutes, and
-- not older than the policy allows.
unfoldable pub is_fresh : HealthPolicy → ℕ → Backend → Option HealthObservation → Bool
is_fresh policy now backend none = false
is_fresh policy now backend (some o) =
    o.resource_version == backend.resource_version
    && not (o.observed_at == 0)
    && leb o.observed_at (now + 5 * minute)
    && leb (now - o.observed_at) (policy.stale_after_seconds * second)

pub data Verdict : Type 0 where
  up uncertain down : Verdict

abbrev verdict_of : Bool → Status → Verdict
verdict_of fresh status =
    if not fresh || is_unknown status then uncertain else if is_healthy status then up else down

-- The body of the loop over `pool.Backends`.
unfoldable pub verdict : HealthPolicy → ℕ → Backend → Option HealthObservation → Verdict
unfolding is_fresh
verdict policy now backend none = uncertain
verdict policy now backend (some o) = verdict_of (is_fresh policy now backend (some o)) o.status

abbrev pub is_up : Verdict → Bool
is_up up = true
is_up _ = false

abbrev pub is_uncertain : Verdict → Bool
is_uncertain uncertain = true
is_uncertain _ = false

abbrev pub Choice : Type 0
Choice = Option Backend × Option AlertCode

module _ (observe : Backend → Option HealthObservation) (policy : HealthPolicy) (now : ℕ) where
  abbrev pub with_verdict : (Verdict → Bool) → List Backend → List Backend
  with_verdict p = keep (λ b. p (verdict policy now b (observe b)))

  -- What follows the loop, on the lists that it has filled.
  unfoldable pub choose_among : List Backend → List Backend → List Backend → String → Choice
  unfolding retain
  choose_among backends [] [] previous_id =
      (retain backends previous_id, some backend_pool_exhausted)
  choose_among backends [] (u ∷ us) previous_id =
      (retain (u ∷ us) previous_id, some backend_health_unknown)
  choose_among backends (h ∷ hs) unknowns previous_id =
      (preferred_backend (h ∷ hs) previous_id, none)

  unfoldable pub choose_observed : List Backend → String → Choice
  unfolding choose_among
  choose_observed backends previous_id =
      choose_among backends (with_verdict is_up backends) (with_verdict is_uncertain backends)
        previous_id

-- chooseBackend
unfoldable pub choose_backend :
    BackendPool → String → String → (HealthKey → Option HealthObservation) → ℕ → Choice
unfolding choose_observed
choose_backend pool node_id previous_id observations now = elim pool.health [
  | none ↦ (preferred_backend pool.backends previous_id, none)
  | some policy ↦
      choose_observed
        (λ b. observations (record { node_id = node_id; pool_id = pool.id; backend_id = b.id }))
        policy now pool.backends previous_id
]
