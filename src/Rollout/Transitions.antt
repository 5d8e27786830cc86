-- ===== src/Rollout/Transitions.antt =====
-- internal/cluster/rollout.go: the changes that a rollout refuses, since no order of stages makes
-- them safe. The first one found is the error.
pub mod Safe
use l4way.Prelude.{
  ℕ, ◌≡◌, ◌↔◌, refl, ap, ◌∙◌, sym, inl, inr, ◌⊎◌, String, Bool, true, false, not, ◌&&◌, ◌||◌,
  Option, none, some, List, [], ◌∷◌, ◌++◌, map, ◌==◌, string_eq, any, In, In-append, lookup, holds,
  Result, ok, err, ◌>>=◌, ◌>>◌, reject_if, >>=-eq-ok, arith, Bool-cases, Option-cases,
  if◌then◌else◌, any-of-In,
}
use l4way.Spec.{ForwardSpec, DesiredState, FabricLinkSpec, FabricLinkSpec-discrete, is_via_exit}
use l4way.Rollout.States.{StateMap, state_of, locations, forward_ids, dedupe, last_forward}

pub data Role : Type 0 where
  ingress exit unassigned : Role

-- forwardNodeRole
unfoldable pub forward_node_role : ForwardSpec → String → Role
forward_node_role forward node_id =
    if node_id == forward.ingress_node_id
    then ingress
    else if is_via_exit forward.path_mode && node_id == forward.exit_node_id
    then exit
    else unassigned

abbrev pub role_eqb : Role → Role → Bool
role_eqb ingress ingress = true
role_eqb exit exit = true
role_eqb unassigned unassigned = true
role_eqb _ _ = false

pub role_eqb-eq : (a b : Role) → role_eqb a b ≡ true → a ≡ b
role_eqb-eq a b h = ground arith

pub record Placement : Type 0 where
  pub ingress_node : String
  pub exit_node : String
  pub via : Bool

-- placementFromLocations: any one of the nodes, here the first.
unfoldable pub placement_from_locations : List (String × ForwardSpec) → Placement
placement_from_locations [] = record { ingress_node = ""; exit_node = ""; via = false }
placement_from_locations ((_, forward) ∷ _) = record {
  ingress_node = forward.ingress_node_id;
  exit_node = forward.exit_node_id;
  via = is_via_exit forward.path_mode;
}

pub data UnsafeRollout : Type 0 where
  role_changes : String → String → UnsafeRollout
  ingress_changes : String → String → UnsafeRollout
  link_changes : String → String → UnsafeRollout

abbrev pub Check : Type 0
Check = Result UnsafeRollout (Unit {0})

-- A loop that returns the first error.
abbrev pub each : {A : Type 0} → (A → Check) → List A → Check
each f [] = ok tt
each f (x ∷ xs) = f x >> each f xs

abbrev pub changes_role : String → ForwardSpec → Option ForwardSpec → Bool
changes_role node_id before none = false
changes_role node_id before (some after) =
    not (role_eqb (forward_node_role before node_id) (forward_node_role after node_id))

abbrev pub moves_ingress : Placement → Placement → Bool
moves_ingress before after =
    before.via
    && after.via
    && before.exit_node == after.exit_node
    && not (before.ingress_node == after.ingress_node)

-- The body of the loop over the forwards.
unfoldable pub validate_forward_roles : StateMap → StateMap → String → Check
validate_forward_roles current final id =
    let before = locations id current in
    let after = locations id final in
    each (λ p. reject_if (changes_role p.0 p.1 (lookup p.0 after)) (role_changes id p.0)) before
    >> reject_if (moves_ingress (placement_from_locations before) (placement_from_locations after))
        (ingress_changes id (placement_from_locations before).exit_node)

-- validateRoleTransitions
unfoldable pub validate_role_transitions : StateMap → StateMap → Check
validate_role_transitions current final =
    each (validate_forward_roles current final) (dedupe (forward_ids current))

-- used[id]
abbrev pub carries : String → List ForwardSpec → Bool
carries id = any (λ f. not (f.fabric_link_id == "") && f.fabric_link_id == id)

-- beforeLinks[id]: the last link with the identifier.
unfoldable pub before_link : String → List FabricLinkSpec → Option FabricLinkSpec
before_link id [] = none
before_link id (l ∷ ls) = elim (before_link id ls) [
  | some k ↦ some k
  | none ↦ if l.id == id then some l else none
]

abbrev pub changes_link : Option FabricLinkSpec → FabricLinkSpec → Bool
changes_link none link = false
changes_link (some previous) link = not (holds (FabricLinkSpec-discrete previous link))

-- The body of the loop over the nodes.
unfoldable pub validate_node_links : StateMap → (String × DesiredState) → Check
validate_node_links final (node_id, before) =
    let after = state_of final node_id in
    each
      (λ (link : FabricLinkSpec).
        reject_if
          (changes_link (before_link link.id before.fabric_links) link
            && carries link.id (before.forwards ++ after.forwards))
          (link_changes node_id link.id))
      after.fabric_links

-- validateFabricTransitions
unfoldable pub validate_fabric_transitions : StateMap → StateMap → Check
validate_fabric_transitions current final = each (validate_node_links final) current
