-- ===== src/Agent/Demand.antt =====
-- internal/agent/reconciler.go: what a desired state asks of the subsystems.
use l4way.Prelude.{
  String, Bool, true, false, ◌&&◌, ◌||◌, Option, none, some, List, [], ◌∷◌, ◌==◌, string_eq, any,
  keep, is_some, lookup, insert,
}
use l4way.Spec.{DesiredState, ForwardSpec, UserPolicySpec, FabricLinkSpec, is_via_exit}
use l4way.Spec.Validate.Forwards.{is_force_deleting}

-- The map of the policies by user.
abbrev pub users_of :
    List UserPolicySpec → List (String × UserPolicySpec) → List (String × UserPolicySpec)
users_of [] users = users
users_of (p ∷ ps) users = users_of ps (insert p.user_id p users)

-- `users[id].RateLimit != nil`, where a missing user has the zero policy.
abbrev pub is_limited : Option UserPolicySpec → Bool
is_limited none = false
is_limited (some policy) = is_some policy.rate_limit

-- desiredHasRateLimit
unfoldable pub desired_has_rate_limit : DesiredState → Bool
desired_has_rate_limit desired =
    let users = users_of desired.user_policies [] in
    any
      (λ f.
        f.ingress_node_id == desired.node_id
        && (is_some f.rate_limit || is_limited (lookup f.user_id users)))
      desired.forwards

abbrev pub has_links : List FabricLinkSpec → Bool
has_links [] = false
has_links (_ ∷ _) = true

-- desiredHasFabric
unfoldable pub desired_has_fabric : DesiredState → Bool
desired_has_fabric desired =
    has_links desired.fabric_links || any (λ f. is_via_exit f.path_mode) desired.forwards

-- explicitForceDeletes
unfoldable pub explicit_force_deletes : DesiredState → List ForwardSpec
explicit_force_deletes desired = keep (λ f. is_force_deleting f.lifecycle) desired.forwards
