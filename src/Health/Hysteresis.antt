-- ===== src/Health/Hysteresis.antt =====
-- The hysteresis of internal/health/engine.go against the history of the attempts.
use l4way.Prelude.{
  ℕ, suc, ◌≡◌, refl, Bool, true, false, not, List, [], ◌∷◌, leb, if◌then◌else◌, arith, ◌&&◌,
}
use l4way.Spec.{HealthCheckSpec}
use l4way.Health.{Status, unknown, healthy, unhealthy, ProbeState, attempt, no_probe, known}

-- How many attempts at the front of a history, the newest first, had the outcome `b`.
abbrev pub streak : Bool → List Bool → ℕ
streak b [] = 0
streak true (true ∷ h) = suc (streak true h)
streak true (false ∷ h) = 0
streak false (true ∷ h) = 0
streak false (false ∷ h) = suc (streak false h)

-- The status that a history calls for: the newest moment at which one of the two streaks had reached
-- its threshold decides.
unfoldable pub verdict : ℕ → ℕ → List Bool → Status
verdict up down [] = unknown
verdict up down (o ∷ h) =
    if o && leb up (streak true (o ∷ h))
    then healthy
    else if not o && leb down (streak false (o ∷ h))
    then unhealthy
    else verdict up down h

-- The attempts of a history, the oldest made first, on a new probe state.
unfoldable pub replay : HealthCheckSpec → ℕ → List Bool → ProbeState
replay check now [] = record no_probe { resource_version = check.resource_version }
replay check now (o ∷ h) = attempt check now o (replay check now h)

streak_counts :
    (check : HealthCheckSpec) (now : ℕ) (h : List Bool)
    → let s = replay check now h in
      (s.consecutive_success ≡ (
        if leb (streak true h) check.success_threshold
        then streak true h
        else check.success_threshold))
      × (s.consecutive_failure ≡ (
          if leb (streak false h) check.failure_threshold
          then streak false h
          else check.failure_threshold))
unfolding replay attempt
streak_counts check now [] = ground arith
streak_counts check now (true ∷ h) = ground (arith, streak_counts check now h)
streak_counts check now (false ∷ h) = ground (arith, streak_counts check now h)

-- The status that the engine keeps, after any attempts on a new probe, is the verdict of the
-- history: healthy or unhealthy since the newest moment at which the last attempts in a row that
-- succeeded, or that failed, had reached their threshold, and unknown where there was none.
pub replay-verdict :
    (check : HealthCheckSpec) (now : ℕ) (h : List Bool)
    → known (replay check now h).status ≡ verdict check.success_threshold check.failure_threshold h
unfolding replay verdict attempt
replay-verdict check now [] = refl
replay-verdict check now (true ∷ h) =
    ground (arith, replay-verdict check now h, streak_counts check now h)
replay-verdict check now (false ∷ h) =
    ground (arith, replay-verdict check now h, streak_counts check now h)
