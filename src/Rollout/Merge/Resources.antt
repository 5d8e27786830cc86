-- ===== src/Rollout/Merge/Resources.antt =====
-- What a conservative stage state holds (internal/cluster/rollout.go).
use l4way.Prelude.{
  ◌≡◌, ◌↔◌, String, List, ◌++◌, map, Eq, some, In, In-map, Bool, string_eq, pair_eq,
}
use l4way.Prelude.Sort.{sort_by, In-sort_by}
use l4way.Net.{PrefixText, Prefix, masked}
use l4way.Spec.{DesiredState, FabricLinkSpec, HealthCheckSpec, UserPolicySpec}
use l4way.Spec.Canonical.{
  canonical, canonical_link, canonical_check, canonical_prefix, prefix_less, link_less, check_less,
  policy_less,
}
use l4way.Rollout.Merge.{
  merge_by, merge_by_lem, last_with, merge_service_cidrs, merge_fabric_links, merge_health_checks,
  merge_user_policies, with_conservative_resources,
}

-- The elements of a canonical merge.
In-merged :
    {K A B : Type 0} ⦃e : Eq K⦄ (key : A → K) (less : B → B → Bool) (f : A → B)
    (current final : List A) (y : B)
    → In y (sort_by less (map f (merge_by ⦃e = e⦄ key current final)))
      ↔ ((x : A) × (last_with ⦃e = e⦄ key (key x) (current ++ final) ≡ some x) × (y ≡ f x))
In-merged ⦃e = e⦄ key less f current final y =
    let merged = merge_by ⦃e = e⦄ key current final in
    (
      λ h.
          let (x, m, q) = (In-map f y merged).0 ((In-sort_by less y (map f merged)).0 h) in
          (x, (merge_by_lem ⦃e = e⦄ key x current final).0 m, q),
      λ (x, m, q).
          (In-sort_by less y (map f merged)).1
            ((In-map f y merged).1 (x, (merge_by_lem ⦃e = e⦄ key x current final).1 m, q)),
    )

-- The service networks, links, checks and policies of a conservative stage state are exactly those of
-- the state and of the final state, in canonical form; where several have the same key, the last one
-- of the final state is taken, or the last one of the state where the final state has none.
pub with_conservative_resources_lem :
    ⦃names : PrefixText⦄ (state final : DesiredState)
    → ((p : Prefix)
        → In p (with_conservative_resources state final).service_cidrs ↔ (
            (x : Prefix) × (last_with
                (λ (q : Prefix). names.text q)
                (names.text x)
                (map masked state.service_cidrs ++ map masked final.service_cidrs)
              ≡ some x)
            × (p ≡ canonical_prefix x)))
      × ((l : FabricLinkSpec)
          → In l (with_conservative_resources state final).fabric_links ↔ (
              (x : FabricLinkSpec) × (last_with
                  (λ (k : FabricLinkSpec). k.id)
                  x.id
                  (state.fabric_links ++ final.fabric_links)
                ≡ some x)
              × (l ≡ canonical_link x)))
      × ((c : HealthCheckSpec)
          → In c (with_conservative_resources state final).health_checks ↔ (
              (x : HealthCheckSpec) × (last_with {K = String × String}
                  (λ (k : HealthCheckSpec). (k.pool_id, k.backend_id))
                  (x.pool_id, x.backend_id)
                  (state.health_checks ++ final.health_checks)
                ≡ some x)
              × (c ≡ canonical_check x)))
      × ((u : UserPolicySpec)
          → In u (with_conservative_resources state final).user_policies ↔ (
              last_with
                (λ (k : UserPolicySpec). k.user_id)
                u.user_id
                (state.user_policies ++ final.user_policies)
              ≡ some u))
unfolding with_conservative_resources canonical merge_service_cidrs merge_fabric_links
    merge_health_checks merge_user_policies
with_conservative_resources_lem ⦃names⦄ state final = (
  λ p.
      In-merged (λ (q : Prefix). names.text q) (prefix_less ⦃names = names⦄) canonical_prefix
        (map masked state.service_cidrs) (map masked final.service_cidrs) p,
  λ l.
      In-merged (λ (k : FabricLinkSpec). k.id) link_less canonical_link state.fabric_links
        final.fabric_links l,
  λ c.
      In-merged {K = String × String} (λ (k : HealthCheckSpec). (k.pool_id, k.backend_id))
        check_less canonical_check state.health_checks final.health_checks c,
  λ u. (
    λ h.
        (merge_by_lem (λ (k : UserPolicySpec). k.user_id) u state.user_policies
            final.user_policies).0
          ((In-sort_by policy_less u
              (merge_user_policies state.user_policies final.user_policies)).0
            h),
    λ h.
        (In-sort_by policy_less u (merge_user_policies state.user_policies final.user_policies)).1 (
          (merge_by_lem (λ (k : UserPolicySpec). k.user_id) u state.user_policies
              final.user_policies).1
            h),
  ),
)
