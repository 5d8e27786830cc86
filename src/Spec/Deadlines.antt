-- ===== src/Spec/Deadlines.antt =====
-- What a deadline does to the lifecycle of a forward (internal/spec/types.go).
use l4way.Prelude.{ℕ, Bool, true, false, ◌&&◌, Option, none, some, leb, if◌then◌else◌}
use l4way.Spec.{Lifecycle, paused, draining, ForwardSpec}

-- `deadline != nil && !now.Before(*deadline)`
abbrev pub reached : Option ℕ → ℕ → Bool
reached none now = false
reached (some deadline) now = leb deadline now

abbrev pub is_draining : Lifecycle → Bool
is_draining draining = true
is_draining _ = false

-- ForwardSpec.EffectiveLifecycle
unfoldable pub effective_lifecycle : ForwardSpec → ℕ → Lifecycle
effective_lifecycle f now =
    if reached f.expires_at now
    then paused
    else if is_draining f.lifecycle && reached f.drain_deadline now
    then paused
    else f.lifecycle
