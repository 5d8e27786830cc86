-- ===== src/Tests/Health.antt =====
-- A check that fails twice after a success.
use l4way.Prelude.{
  ◌≡◌, refl, true, false, inl, inr, List, [], ◌∷◌, none, All, In, map, keys, pair_eq,
}
use l4way.Net.{v4}
use l4way.Spec.{HealthCheckSpec, DesiredState, tcp}
use l4way.Health.{Outcome, run_due, known}
use l4way.Health.Hysteresis.{verdict, replay, replay-verdict}
use l4way.Health.Schedule.{IsActive, run_due-IsActive}

abbrev check : HealthCheckSpec
check = record {
  pool_id = "pool";
  backend_id = "one";
  endpoint = record { address = v4 16; hostname = ""; port = 80 };
  protocol = tcp;
  interval_seconds = 5;
  timeout_milliseconds = 200;
  failure_threshold = 2;
  success_threshold = 1;
  resource_version = 3;
}

replay-verdict_example :
    known (replay check 9 (false ∷ false ∷ true ∷ [])).status
    ≡ verdict 1 2 (false ∷ false ∷ true ∷ [])
replay-verdict_example = replay-verdict check 9 (false ∷ false ∷ true ∷ [])

abbrev desired : DesiredState
desired = record {
  schema_version = 5;
  node_id = "node";
  generation = 1;
  management_domain = "";
  service_cidrs = [];
  fabric_links = [];
  health_checks = check ∷ [];
  user_policies = [];
  protocol_blocks = none;
  forwards = [];
}

-- Every probe succeeds.
abbrev succeed : List HealthCheckSpec → List Outcome
succeed = map (λ (c : HealthCheckSpec). record { check = c; latency = 4; error = none })

succeed_asked :
    (due rest : List HealthCheckSpec)
    → ((c : HealthCheckSpec) → In c rest → In c due)
    → All (λ (o : Outcome). In o.check due) (succeed rest)
succeed_asked due [] h = tt
succeed_asked due (c ∷ cs) h = (h c (inl refl), succeed_asked due cs (λ x m. h x (inr m)))

run_due-IsActive_example :
    All (IsActive desired.health_checks) (keys (run_due succeed desired 100 []).0)
run_due-IsActive_example =
    run_due-IsActive succeed desired 100 [] (λ due. succeed_asked due due (λ c m. m))
