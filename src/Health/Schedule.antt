-- ===== src/Health/Schedule.antt =====
-- Which probe states a round of internal/health/engine.go leaves, and what it reports.
use l4way.Prelude.{
  ℕ, ◌≡◌, sym, inl, inr, List, [], ◌∷◌, In, All, any, any-In, All-In, All-of-In, keys,
  mem_keys-insert, pair_eq, pair_iff, ◌==◌, Bool-cases,
}
use l4way.Spec.{HealthCheckSpec, DesiredState}
use l4way.Health.{
  ProbeKey, States, Outcome, key_of, collect_due, drop_inactive, absorb, absorb_all, run_due,
  is_due, refresh, state_at,
}

-- The key is that of one of the checks.
abbrev pub IsActive : List HealthCheckSpec → ProbeKey → Type 0
IsActive checks key = (check : HealthCheckSpec) × In check checks × (key_of check ≡ key)

In-collect_due :
    (now : ℕ) (checks : List HealthCheckSpec) (states : States) (check : HealthCheckSpec)
    → In check (collect_due now checks states).1
    → In check checks
unfolding collect_due
In-collect_due now [] states check m = m
In-collect_due now (c ∷ checks) states check m =
    let rest = In-collect_due now checks (refresh c states) check in
    elim (Bool-cases (is_due c (state_at (key_of c) (refresh c states)) now)) [
      | inl due ↦ elim (rw due at m) [ inl e ↦ inl e | inr h ↦ inr (rest h) ]
      | inr not_due ↦ inr (rest (rw not_due at m))
    ]

keys-drop_inactive :
    (checks : List HealthCheckSpec) (states : States) (key : ProbeKey)
    → In key (keys (drop_inactive checks states))
    → IsActive checks key
unfolding drop_inactive keys
keys-drop_inactive checks [] key m = absurd m
keys-drop_inactive checks ((k, s) ∷ states) key m =
    elim (Bool-cases (any (λ check. key_of check == k) checks)) [
      | inl t ↦ elim (rw t at m) [
        | inl e ↦ let (c, i, q) = any-In _ checks t in (c, i, rw e ((pair_iff (key_of c) k).0 q))
        | inr h ↦ keys-drop_inactive checks states key h
      ]
      | inr f ↦ keys-drop_inactive checks states key (rw f at m)
    ]

keys-absorb_all :
    (desired : DesiredState) (now : ℕ) (checks : List HealthCheckSpec) (outcomes : List Outcome)
    (states : States)
    → All (λ o. In o.check checks) outcomes
    → ((key : ProbeKey) → In key (keys states) → IsActive checks key)
    → (key : ProbeKey) → In key (keys (absorb_all desired now outcomes states).0)
    → IsActive checks key
unfolding absorb_all
keys-absorb_all desired now checks [] states h k = k
keys-absorb_all desired now checks (o ∷ outcomes) states h k =
    keys-absorb_all desired now checks outcomes (absorb desired now o states).0 h.1 λ key m.
      elim ((mem_keys-insert (key_of o.check) key _ states).0 m) [
        | inl e ↦ (o.check, h.0, sym e)
        | inr i ↦ k key i
      ]

-- After a round no probe state is left but those of the checks of the desired state, where the
-- outcomes that arrive are of checks that were due.
pub run_due-IsActive :
    (gather : List HealthCheckSpec → List Outcome) (desired : DesiredState) (now : ℕ)
    (states : States)
    → ((due : List HealthCheckSpec) → All (λ o. In o.check due) (gather due))
    → All (IsActive desired.health_checks) (keys (run_due gather desired now states).0)
unfolding run_due
run_due-IsActive gather desired now states asked =
    let checks = desired.health_checks in
    let due = (collect_due now checks states).1 in
    All-of-In _ _ (
      keys-absorb_all desired now checks (gather due) _
        (All-of-In _ _
          (λ o m. In-collect_due now checks states o.check (All-In _ o _ (asked due) m)))
        (keys-drop_inactive checks (collect_due now checks states).0))
