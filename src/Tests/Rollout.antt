-- ===== src/Tests/Rollout.antt =====
-- A node that gains a forward.
use l4way.Prelude.{
  ◌≡◌, ◌↔◌, refl, inl, inr, String, true, not, ◌&&◌, ◌||◌, some, none, ok, [], ◌∷◌, ◌++◌, map,
  is_some, lookup, In, if◌then◌else◌, string_eq, pair_eq, holds_iff,
}
use mathlib.Core.List.{Perm}
use l4way.Net.{v4, Prefix, masked}
use l4way.Spec.{
  ForwardSpec, DesiredState, FabricLinkSpec, HealthCheckSpec, UserPolicySpec, gre,
  FabricLinkSpec-discrete, is_via_exit,
}
use l4way.Spec.Canonical.{canonical_link, canonical_check, canonical_prefix}
use l4way.Rollout.Canary.{select_canary, select_canary-perm, FirstWave, select_canary-FirstWave}
use l4way.Rollout.Forwards.{upsert_forward, remove_forward, with_id, upsert_forward_lem}
use l4way.Rollout.Merge.{with_conservative_resources, last_with}
use l4way.Rollout.Merge.Resources.{with_conservative_resources_lem}
use l4way.Rollout.States.{
  StateMap, state_of, next_state, desired_states_equal, canonical_stage_state, changed_states,
  lookup-changed_states, locations, last_forward, forward_ids, dedupe,
}
use l4way.Rollout.Transitions.{
  validate_role_transitions, validate_forward_roles, forward_node_role, placement_from_locations,
  validate_fabric_transitions, validate_node_links, before_link,
}
use l4way.Rollout.Transitions.Safe.{
  SameEnds, AreOneForward, validate_role_transitions_lem, validate_fabric_transitions_lem,
}
use l4way.Tests.Spec.{web, state_with, texts}

abbrev link : FabricLinkSpec
link = record {
  id = "link";
  peer_node_id = "far";
  transport = gre;
  interface = "gre1";
  local_address = record { addr = v4 2886729729; bits_plus_one = 31 };
  peer_address = v4 2886729730;
  mtu = 1476;
  routing_id = 7;
  trusted = true;
  wire_guard = none;
  gre = none;
  resource_version = 1;
}

abbrev carried : ForwardSpec
carried = record web { fabric_link_id = "link" }

abbrev state : DesiredState
state = record (state_with (carried ∷ [])) { fabric_links = link ∷ [] }

abbrev current : StateMap
current = ("near", state) ∷ []

abbrev final : StateMap
final = ("near", state) ∷ ("far", state_with []) ∷ []

roles_kept : validate_role_transitions current final ≡ ok tt
unfolding validate_role_transitions validate_forward_roles forward_node_role
    placement_from_locations locations last_forward forward_ids dedupe lookup
roles_kept = refl

links_kept : validate_fabric_transitions current final ≡ ok tt
unfolding validate_fabric_transitions validate_node_links before_link lookup
links_kept = rw ((holds_iff (FabricLinkSpec-discrete link link)).1 refl) refl

is_located : In ("near", carried) (locations "web" current)
unfolding locations last_forward
is_located = inl refl

one_link :
    (a b : FabricLinkSpec) → In a state.fabric_links → In b state.fabric_links → a.id ≡ b.id → a ≡ b
one_link a b (inl p) (inl q) e = cc (p, q)
one_link a b (inl p) (inr x) e = absurd x
one_link a b (inr x) q e = absurd x

listed : In link (state_of final "near").fabric_links
unfolding lookup
listed = inl refl

is_user : In carried (state.forwards ++ (state_of final "near").forwards)
is_user = inl refl

validate_role_transitions_lem_example :
    ((after : ForwardSpec)
      → lookup "near" (locations "web" final) ≡ some after
      → SameEnds "near" carried after)
    × (AreOneForward (locations "web" current)
        → AreOneForward (locations "web" final)
        → (other : String) (after : ForwardSpec) → In (other, after) (locations "web" final)
        → is_via_exit carried.path_mode ≡ true
        → is_via_exit after.path_mode ≡ true
        → carried.exit_node_id ≡ after.exit_node_id
        → carried.ingress_node_id ≡ after.ingress_node_id)
validate_role_transitions_lem_example =
    validate_role_transitions_lem current final roles_kept "web" "near" carried is_located

validate_fabric_transitions_lem_example : link ≡ link
validate_fabric_transitions_lem_example =
    validate_fabric_transitions_lem current final links_kept "near" state (inl refl) one_link link
      link carried (inl refl) listed refl is_user refl (λ e. cc e)

lookup-changed_states_example : lookup "far" (changed_states ⦃names = texts⦄ current final) ≡ (
    if (is_some (lookup "far" current) || is_some (lookup "far" final))
      && not (
          desired_states_equal ⦃names = texts⦄
            (state_of current "far")
            (next_state ⦃names = texts⦄ final "far"))
    then some (canonical_stage_state ⦃names = texts⦄ (next_state ⦃names = texts⦄ final "far") "far")
    else none)
lookup-changed_states_example = lookup-changed_states ⦃names = texts⦄ current final "far"

with_conservative_resources_lem_example :
    ((p : Prefix)
      → In p (with_conservative_resources ⦃names = texts⦄ (state_with []) state).service_cidrs ↔ (
          (x : Prefix) × (last_with
              (λ (q : Prefix). texts.text q)
              (texts.text x)
              (map masked (state_with []).service_cidrs ++ map masked state.service_cidrs)
            ≡ some x)
          × (p ≡ canonical_prefix x)))
    × ((l : FabricLinkSpec)
        → In l (with_conservative_resources ⦃names = texts⦄ (state_with []) state).fabric_links ↔ (
            (x : FabricLinkSpec) × (last_with
                (λ (k : FabricLinkSpec). k.id)
                x.id
                ((state_with []).fabric_links ++ state.fabric_links)
              ≡ some x)
            × (l ≡ canonical_link x)))
    × ((c : HealthCheckSpec)
        → In c (with_conservative_resources ⦃names = texts⦄ (state_with []) state).health_checks ↔ (
            (x : HealthCheckSpec) × (last_with {K = String × String}
                (λ (k : HealthCheckSpec). (k.pool_id, k.backend_id))
                (x.pool_id, x.backend_id)
                ((state_with []).health_checks ++ state.health_checks)
              ≡ some x)
            × (c ≡ canonical_check x)))
    × ((u : UserPolicySpec)
        → In u (with_conservative_resources ⦃names = texts⦄ (state_with []) state).user_policies ↔ (
            last_with
              (λ (k : UserPolicySpec). k.user_id)
              u.user_id
              ((state_with []).user_policies ++ state.user_policies)
            ≡ some u))
with_conservative_resources_lem_example =
    with_conservative_resources_lem ⦃names = texts⦄ (state_with []) state

upsert_forward_lem_example :
    (with_id "web" (upsert_forward (web ∷ []) carried) ≡ carried ∷ [])
    × (remove_forward (upsert_forward (web ∷ []) carried) "web" ≡ remove_forward (web ∷ []) "web")
    × (with_id "web" (remove_forward (web ∷ []) "web") ≡ [])
upsert_forward_lem_example = upsert_forward_lem (web ∷ []) carried

-- The identity stands for the hash.
select_canary-perm_example :
    let r = select_canary (λ s. s) "plan" ("c" ∷ "a" ∷ "b" ∷ []) 50 in
    Perm (r.0 ++ r.1) ("c" ∷ "a" ∷ "b" ∷ [])
select_canary-perm_example = select_canary-perm (λ s. s) "plan" ("c" ∷ "a" ∷ "b" ∷ []) 50

select_canary-FirstWave_example :
    FirstWave
      (λ s. s)
      ("c" ∷ "a" ∷ "b" ∷ [])
      50
      (select_canary (λ s. s) "plan" ("c" ∷ "a" ∷ "b" ∷ []) 50)
select_canary-FirstWave_example = select_canary-FirstWave (λ s. s) "plan" ("c" ∷ "a" ∷ "b" ∷ []) 50
