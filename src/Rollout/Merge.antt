-- ===== src/Rollout/Merge.antt =====
-- internal/cluster/rollout.go: the resources of a stage are those of the state and of the final
-- state together (`withConservativeResources`). The order of iteration of a Go map is fixed; the
-- canonical form of the result sorts them anyway.
pub mod Resources
use l4way.Prelude.{
  ℕ, ◌≡◌, ◌↔◌, refl, sym, ap, ◌∙◌, subst, inl, inr, String, Bool, true, false, ◌||◌, Option, none,
  some, List, [], ◌∷◌, ◌++◌, map, ltb, ◌==◌, string_eq, nat_eq, pair_eq, Eq, if◌then◌else◌, In,
  lookup, insert, lookup-insert, arith, Bool-cases,
}
use l4way.Prelude.Sort.{In-sort_by}
use l4way.Net.{Prefix, masked, PrefixText}
use l4way.Spec.{
  FabricLinkSpec, HealthCheckSpec, UserPolicySpec, ProtocolBlockPolicy, DesiredState, blocks_any,
  current_schema_version,
}
use l4way.Spec.Canonical.{
  canonical, canonical_link, canonical_check, canonical_prefix, prefix_less, link_less, check_less,
  policy_less,
}

module _ {K A : Type 0} ⦃e : Eq K⦄ (key : A → K) where
  -- One of the loops `for _, x := range xs { merged[key(x)] = x }`.
  unfoldable put_all : List A → List (K × A) → List (K × A)
  put_all [] merged = merged
  put_all (x ∷ xs) merged = put_all xs (insert (key x) x merged)

  unfoldable values : List (K × A) → List A
  values [] = []
  values ((_, v) ∷ m) = v ∷ values m

  -- The common body of the four merges.
  unfoldable pub merge_by : List A → List A → List A
  unfolding put_all values
  merge_by current final = values (put_all final (put_all current []))

  abbrev pub or_else : Option A → Option A → Option A
  or_else none b = b
  or_else (some a) b = some a

  -- The last element with a key.
  abbrev pub last_with : K → List A → Option A
  last_with k [] = none
  last_with k (x ∷ xs) = or_else (last_with k xs) (if key x == k then some x else none)

  -- Each entry stands under its own key, and no key occurs twice.
  Keyed : List (K × A) → Type 0
  Keyed [] = Unit
  Keyed ((k, v) ∷ m) = (key v ≡ k) × (lookup k m ≡ none) × Keyed m

  insert-Keyed : (x : A) (m : List (K × A)) → Keyed m → Keyed (insert (key x) x m)
  unfolding insert Keyed lookup
  insert-Keyed x [] h = (refl, refl, tt)
  insert-Keyed x ((j, w) ∷ m) h = elim (Bool-cases (j == key x)) [
    | inl t ↦ rw t (refl, subst (λ i. lookup i m ≡ none) ((e.beq_iff j (key x)).0 t) h.1, h.2)
    | inr f ↦ rw f (
      h.0,
      ground (arith, lookup-insert (key x) j x m, e.beq_iff (key x) j, e.beq_iff j (key x), h.1),
      insert-Keyed x m h.2,
    )
  ]

  put_all-Keyed : (xs : List A) (m : List (K × A)) → Keyed m → Keyed (put_all xs m)
  unfolding put_all
  put_all-Keyed [] m h = h
  put_all-Keyed (x ∷ xs) m h = put_all-Keyed xs (insert (key x) x m) (insert-Keyed x m h)

  In-values : (x : A) (m : List (K × A)) → Keyed m → In x (values m) ↔ (lookup (key x) m ≡ some x)
  unfolding values lookup Keyed
  In-values x [] h = ground arith
  In-values x ((j, w) ∷ m) h =
      let rest = In-values x m h.2 in
      (
        λ s. elim s [
          | inl q ↦ rw ((e.beq_iff j (key x)).1 (sym (ap key q ∙ h.0))) (ap some (sym q))
          | inr r ↦ elim (Bool-cases (j == key x)) [
            | inl t ↦ absurd (cc (rest.0 r, h.1, (e.beq_iff j (key x)).0 t))
            | inr f ↦ rw f (rest.0 r)
          ]
        ],
        λ q. elim (Bool-cases (j == key x)) [
          | inl t ↦ inl (cc (rw t at q))
          | inr f ↦ inr (rest.1 (rw f at q))
        ],
      )

  hop :
      (o : Option A) (b : Bool) (x : A) (p : Option A)
      → or_else o (if b then some x else p) ≡ or_else (or_else o (if b then some x else none)) p
  hop none true x p = refl
  hop none false x p = refl
  hop (some y) b x p = refl

  or_else-none : (o : Option A) → o ≡ or_else o none
  or_else-none none = refl
  or_else-none (some y) = refl

  or_else_assoc : (o p q : Option A) → or_else (or_else o p) q ≡ or_else o (or_else p q)
  or_else_assoc none p q = refl
  or_else_assoc (some y) p q = refl

  lookup-put_all :
      (k : K) (xs : List A) (m : List (K × A))
      → lookup k (put_all xs m) ≡ or_else (last_with k xs) (lookup k m)
  unfolding put_all
  lookup-put_all k [] m = refl
  lookup-put_all k (x ∷ xs) m =
      lookup-put_all k xs (insert (key x) x m)
      ∙ rw (lookup-insert (key x) k x m) (hop (last_with k xs) (key x == k) x (lookup k m))

  last_with-append :
      (k : K) (xs ys : List A) → last_with k (xs ++ ys) ≡ or_else (last_with k ys) (last_with k xs)
  last_with-append k [] ys = or_else-none (last_with k ys)
  last_with-append k (x ∷ xs) ys =
      ap (λ o. or_else o (if key x == k then some x else none)) (last_with-append k xs ys)
      ∙ or_else_assoc (last_with k ys) (last_with k xs) (if key x == k then some x else none)

  looked :
      (k : K) (current final : List A)
      → lookup k (put_all final (put_all current [])) ≡ last_with k (current ++ final)
  unfolding lookup
  looked k current final =
      lookup-put_all k final (put_all current [])
      ∙ ap (or_else (last_with k final))
          (lookup-put_all k current [] ∙ sym (or_else-none (last_with k current)))
      ∙ sym (last_with-append k current final)

  -- The merge holds exactly the last element of each key.
  pub merge_by_lem :
      (x : A) (current final : List A)
      → In x (merge_by current final) ↔ (last_with (key x) (current ++ final) ≡ some x)
  unfolding merge_by Keyed
  merge_by_lem x current final =
      let shape = put_all-Keyed final (put_all current []) (put_all-Keyed current [] tt) in
      subst (λ o. In x (values (put_all final (put_all current []))) ↔ (o ≡ some x))
        (looked (key x) current final) (In-values x (put_all final (put_all current [])) shape)

module _ ⦃names : PrefixText⦄ where
  -- mergeServiceCIDRs
  unfoldable pub merge_service_cidrs : List Prefix → List Prefix → List Prefix
  merge_service_cidrs current final =
      merge_by (λ p. names.text p) (map masked current) (map masked final)

-- mergeFabricLinks
unfoldable pub merge_fabric_links : List FabricLinkSpec → List FabricLinkSpec → List FabricLinkSpec
merge_fabric_links = merge_by (λ l. l.id)

-- mergeHealthChecks: the key is the two identifiers with a zero byte between them, which none has.
unfoldable pub merge_health_checks :
    List HealthCheckSpec → List HealthCheckSpec → List HealthCheckSpec
merge_health_checks = merge_by {K = String × String} (λ c. (c.pool_id, c.backend_id))

-- mergeUserPolicies
unfoldable pub merge_user_policies : List UserPolicySpec → List UserPolicySpec → List UserPolicySpec
merge_user_policies = merge_by (λ p. p.user_id)

abbrev pub final_blocks : Option ProtocolBlockPolicy → Option ProtocolBlockPolicy
final_blocks none = none
final_blocks (some p) = if blocks_any p then some p else none

abbrev pub raised_version : ℕ → ℕ → ℕ
raised_version current final =
    let v = if ltb current final then final else current in
    if v == 0 then current_schema_version else v

module _ ⦃names : PrefixText⦄ where
  -- withConservativeResources
  unfoldable pub with_conservative_resources : DesiredState → DesiredState → DesiredState
  with_conservative_resources state final = canonical ⦃names = names⦄ (record state {
    schema_version = raised_version state.schema_version final.schema_version;
    management_domain =
        if state.management_domain == "" then final.management_domain else state.management_domain;
    service_cidrs = merge_service_cidrs ⦃names = names⦄ state.service_cidrs final.service_cidrs;
    fabric_links = merge_fabric_links state.fabric_links final.fabric_links;
    health_checks = merge_health_checks state.health_checks final.health_checks;
    user_policies = merge_user_policies state.user_policies final.user_policies;
    protocol_blocks = final_blocks final.protocol_blocks;
  })
