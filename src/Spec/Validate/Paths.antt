-- ===== src/Spec/Validate/Paths.antt =====
-- internal/spec/validate.go: the checks of the path of a forward, in the loop of `Validate` over the
-- forwards.
use l4way.Prelude.{
  ℕ, String, Bool, false, not, ◌&&◌, Option, none, some, List, [], ◌∷◌, ◌++◌, ltb, ◌==◌, string_eq,
  nat_eq, if◌then◌else◌, any, lookup, insert, is_some,
}
use l4way.Net.{Addr, addr_eq, unmap, Prefix, contains_addr}
use l4way.Spec.{protocol_eq, PathMode, direct, via_exit, FabricLinkSpec, ForwardSpec}
use l4way.Spec.Identifier.{valid_identifier}
use l4way.Spec.Validate.{issue_if, within, validate_ipv4}

unfoldable pub check_direct : String → ForwardSpec → List String
check_direct node_id forward =
    issue_if (not (forward.exit_node_id == "")) ".exit_node_id must be empty for direct path"
    ++ issue_if (is_some forward.service_vip) ".service_vip must be empty for direct path"
    ++ issue_if (not (forward.fabric_link_id == "")) ".fabric_link_id must be empty for direct path"
    ++ issue_if (not (forward.ingress_node_id == node_id))
        " direct path is not assigned to this node"

abbrev pub other_owner : Option String → String → Bool
other_owner none id = false
other_owner (some owner) id = not (owner == id)

unfoldable pub check_vip :
    List Prefix → String → Option Addr → List (Addr × String) → List String × List (Addr × String)
check_vip services id none vips = (".service_vip is required for via_exit path" ∷ [], vips)
check_vip services id (some address) vips =
    let vip = unmap address in
    let sound =
      within ".service_vip" (validate_ipv4 address)
      ++ issue_if (not (any (λ p. contains_addr p vip) services))
          ".service_vip is outside service_cidrs" in
    if other_owner (lookup vip vips) id
    then (sound ++ (".service_vip conflicts with another forward" ∷ []), vips)
    else (sound, insert vip id vips)

abbrev pub expected_peer : String → ForwardSpec → String
expected_peer node_id forward =
    if node_id == forward.exit_node_id then forward.ingress_node_id else forward.exit_node_id

abbrev pub peer_issues : Option FabricLinkSpec → String → List String
peer_issues none expected = ".fabric_link_id does not exist" ∷ []
peer_issues (some link) expected =
    issue_if (not (link.peer_node_id == expected))
      ".fabric_link_id peer does not match the opposite node"

unfoldable pub check_fabric_link :
    String → List (String × FabricLinkSpec) → ForwardSpec → List String
check_fabric_link node_id links forward =
    if not (valid_identifier forward.fabric_link_id)
    then ".fabric_link_id is required for via_exit path" ∷ []
    else peer_issues (lookup forward.fabric_link_id links) (expected_peer node_id forward)

unfoldable pub check_via_exit :
    ℕ
    → String
    → List Prefix
    → List (String × FabricLinkSpec)
    → ForwardSpec
    → List (Addr × String)
    → List String × List (Addr × String)
unfolding check_vip check_fabric_link
check_via_exit version node_id services links forward vips =
    let (vip_issues, vips') = check_vip services forward.id forward.service_vip vips in
    (
      issue_if (ltb version 3) " via_exit path requires schema_version 3"
          ++ issue_if (not (valid_identifier forward.exit_node_id))
              ".exit_node_id is required for via_exit path"
          ++ issue_if (forward.exit_node_id == forward.ingress_node_id)
              ".exit_node_id must differ from ingress_node_id"
          ++ issue_if
              (not (node_id == forward.ingress_node_id) && not (node_id == forward.exit_node_id))
              " via_exit path is not assigned to this node"
          ++ vip_issues
          ++ check_fabric_link node_id links forward,
      vips',
    )

unfoldable pub check_path :
    ℕ
    → String
    → List Prefix
    → List (String × FabricLinkSpec)
    → ForwardSpec
    → List (Addr × String)
    → List String × List (Addr × String)
unfolding check_direct check_via_exit
check_path version node_id services links forward vips = elim forward.path_mode [
  | direct ↦ (check_direct node_id forward, vips)
  | via_exit ↦ check_via_exit version node_id services links forward vips
  | PathMode.other _ ↦ (".path_mode is unsupported" ∷ [], vips)
]
