-- ===== src/Spec/Validate/Checks.antt =====
-- internal/spec/validate.go: the loops of `Validate` over the health checks and the user policies.
use l4way.Prelude.{
  ℕ, ◌*◌, String, not, ◌&&◌, ◌||◌, List, [], ◌∷◌, ◌++◌, ltb, ◌==◌, string_eq, pair_eq, nat_eq,
  if◌then◌else◌, any, is_some,
}
use l4way.Net.{unmap, Prefix, contains_addr}
use l4way.Spec.{tcp, HealthCheckSpec, UserPolicySpec, protocol_eq}
use l4way.Spec.Identifier.{valid_identifier}
use l4way.Spec.Validate.{
  issue_if, within, each_overlap, validate_endpoint, validate_rate_limit, validate_quota,
}

unfoldable pub check_pair :
    HealthCheckSpec → List (String × String) → List String × List (String × String)
check_pair check seen =
    if any (λ k. k == (check.pool_id, check.backend_id)) seen
    then (" duplicates a pool/backend probe" ∷ [], seen)
    else ([], (check.pool_id, check.backend_id) ∷ seen)

-- The bound on the timeout, whose product fits in 32 bits, is tried when the range is right.
unfoldable pub check_timing : HealthCheckSpec → List String
check_timing check =
    issue_if (ltb check.interval_seconds 1 || ltb 300 check.interval_seconds)
      ".interval_seconds must be between 1 and 300"
    ++ (if ltb check.timeout_milliseconds 100 || ltb 30000 check.timeout_milliseconds
        then ".timeout_milliseconds must be between 100 and 30000" ∷ []
        else issue_if
            (not (check.interval_seconds == 0)
              && ltb (check.interval_seconds * 1000) check.timeout_milliseconds)
            ".timeout_milliseconds must not exceed interval_seconds")
    ++ issue_if (ltb check.failure_threshold 1 || ltb 10 check.failure_threshold)
        ".failure_threshold must be between 1 and 10"
    ++ issue_if (ltb check.success_threshold 1 || ltb 10 check.success_threshold)
        ".success_threshold must be between 1 and 10"

unfoldable pub check_health :
    List Prefix → HealthCheckSpec → List (String × String) → List String × List (String × String)
unfolding check_pair check_timing
check_health services check seen =
    let (duplicates, seen') = check_pair check seen in
    (
      issue_if (not (valid_identifier check.pool_id)) ".pool_id is invalid"
          ++ issue_if (not (valid_identifier check.backend_id)) ".backend_id is invalid"
          ++ duplicates
          ++ within ".endpoint" (validate_endpoint check.endpoint)
          ++ issue_if (not (check.protocol == tcp)) ".protocol must be tcp"
          ++ check_timing check
          ++ issue_if (check.resource_version == 0) ".resource_version must be greater than zero"
          ++ each_overlap (λ p. contains_addr p (unmap check.endpoint.address))
              ".endpoint.address overlaps service_cidrs" services,
      seen',
    )

unfoldable pub check_healths :
    List Prefix
    → List HealthCheckSpec
    → List (String × String)
    → List String × List (String × String)
unfolding check_health
check_healths services [] seen = ([], seen)
check_healths services (check ∷ checks) seen =
    let (issues, seen') = check_health services check seen in
    let (rest, final) = check_healths services checks seen' in (issues ++ rest, final)

-- A traffic class has one owner among the policies and the forwards; 1 and 65535 are reserved.
unfoldable pub check_class : ℕ → List ℕ → List String × List ℕ
check_class class owners =
    if class == 0
    then ([], owners)
    else if class == 1 || class == 65535
    then (".traffic_class_id is reserved" ∷ [], owners)
    else if any (λ c. c == class) owners
    then (".traffic_class_id conflicts with another owner" ∷ [], owners)
    else ([], class ∷ owners)

unfoldable pub check_id : String → String → List String → List String × List String
check_id field id seen =
    if not (valid_identifier id)
    then (within field (" is invalid" ∷ []), seen)
    else if any (λ s. s == id) seen
    then (within field (" is duplicated" ∷ []), seen)
    else ([], id ∷ seen)

pub record PolicyOwners : Type 0 where
  pub users : List String
  pub classes : List ℕ

unfoldable pub check_policy : UserPolicySpec → PolicyOwners → List String × PolicyOwners
unfolding check_id check_class
check_policy policy owners =
    let (a, users) = check_id ".user_id" policy.user_id owners.users in
    let (b, classes) = check_class policy.traffic_class_id owners.classes in
    (
      a
          ++ issue_if (policy.resource_version == 0) ".resource_version must be greater than zero"
          ++ issue_if (not (is_some policy.rate_limit) && not (is_some policy.traffic_quota))
              " must set rate_limit or traffic_quota"
          ++ within ".rate_limit" (validate_rate_limit policy.rate_limit)
          ++ within ".traffic_quota" (validate_quota policy.traffic_quota)
          ++ b,
      record { users = users; classes = classes },
    )

unfoldable pub check_policies : List UserPolicySpec → PolicyOwners → List String × PolicyOwners
unfolding check_policy
check_policies [] owners = ([], owners)
check_policies (policy ∷ policies) owners =
    let (issues, owners') = check_policy policy owners in
    let (rest, final) = check_policies policies owners' in (issues ++ rest, final)
