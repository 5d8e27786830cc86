-- ===== src/Spec/Validate/Links.antt =====
-- internal/spec/validate.go: the loop of `Validate` over the fabric links, with the maps that it keeps.
use l4way.Prelude.{
  ℕ, String, Bool, true, false, not, ◌&&◌, ◌||◌, Option, none, some, List, [], ◌∷◌, ◌++◌, ltb, ◌==◌,
  string_eq, nat_eq, if◌then◌else◌, any, lookup, insert, is_some,
}
use l4way.Net.{Addr, addr_eq, is_valid_addr, unmap, Prefix, is_valid_prefix, masked, contains_addr}
use l4way.Spec.{
  FabricTransport, wire_guard, direct_l3, gre, FabricLinkSpec, WireGuardPeerSpec, GreSpec,
}
use l4way.Spec.Identifier.{valid_identifier, valid_interface}
use l4way.Spec.Validate.{
  issue_if, within, each_overlap, validate_ipv4, validate_interface_prefix, prefixes_overlap,
  PeerText, validate_wire_guard, validate_gre,
}

-- The names of the owners, which only the messages quote, are left out.
pub record LinkOwners : Type 0 where
  pub links : List (String × FabricLinkSpec)
  pub routes : List ℕ
  pub interfaces : List (String × FabricTransport)
  pub locals : List (Addr × (FabricTransport × String))

abbrev pub no_owners : LinkOwners
no_owners = record { links = []; routes = []; interfaces = []; locals = [] }

abbrev pub is_direct_l3 : FabricTransport → Bool
is_direct_l3 direct_l3 = true
is_direct_l3 _ = false

unfoldable pub check_link_id :
    FabricLinkSpec → List (String × FabricLinkSpec) → List String × List (String × FabricLinkSpec)
check_link_id link links =
    if not (valid_identifier link.id)
    then (".id is invalid" ∷ [], links)
    else if is_some (lookup link.id links)
    then (".id is duplicated" ∷ [], links)
    else ([], insert link.id link links)

abbrev pub foreign_interface : Option FabricTransport → FabricLinkSpec → Bool
foreign_interface none link = false
foreign_interface (some owner) link = not (is_direct_l3 owner) || not (is_direct_l3 link.transport)

unfoldable pub check_interface :
    FabricLinkSpec → List (String × FabricTransport) → List String × List (String × FabricTransport)
check_interface link owners =
    if not (valid_interface link.interface)
    then (".interface is invalid" ∷ [], owners)
    else if foreign_interface (lookup link.interface owners) link
    then (".interface conflicts with another managed fabric" ∷ [], owners)
    else ([], insert link.interface link.transport owners)

abbrev pub foreign_local : Option (FabricTransport × String) → FabricLinkSpec → Bool
foreign_local none link = false
foreign_local (some (transport, device)) link =
    not (is_direct_l3 transport)
    || not (is_direct_l3 link.transport)
    || not (device == link.interface)

abbrev pub own_local :
    FabricLinkSpec
    → List (Addr × (FabricTransport × String))
    → List String × List (Addr × (FabricTransport × String))
own_local link owners =
    let local = unmap link.local_address.addr in
    if foreign_local (lookup local owners) link
    then (".local_address conflicts with another link" ∷ [], owners)
    else ([], insert local (link.transport, link.interface) owners)

unfoldable pub check_local_address :
    List Prefix
    → FabricLinkSpec
    → List (Addr × (FabricTransport × String))
    → List String × List (Addr × (FabricTransport × String))
check_local_address services link owners = elim (validate_interface_prefix link.local_address) [
  | x ∷ xs ↦ (within ".local_address" (x ∷ xs), owners)
  | [] ↦
      let (conflicts, owners') = own_local link owners in
      (
        conflicts
            ++ each_overlap (prefixes_overlap (masked link.local_address))
                ".local_address overlaps service_cidrs" services,
        owners',
      )
]

unfoldable pub check_peer_address : List Prefix → FabricLinkSpec → List String
check_peer_address services link =
    let peer = unmap link.peer_address in
    if is_valid_prefix link.local_address && is_valid_addr link.peer_address
    then issue_if
        (not (contains_addr (masked link.local_address) peer)
          || peer == unmap link.local_address.addr)
        ".peer_address must be a different address inside local_address prefix"
      ++ each_overlap (λ p. contains_addr p peer) ".peer_address overlaps service_cidrs" services
    else []

unfoldable pub check_routing_id : FabricLinkSpec → List ℕ → List String × List ℕ
check_routing_id link routes =
    if link.routing_id == 0 || link.routing_id == 65535
    then (".routing_id is reserved" ∷ [], routes)
    else if any (λ r. r == link.routing_id) routes
    then (".routing_id conflicts with another link" ∷ [], routes)
    else ([], link.routing_id ∷ routes)

module _ ⦃peers : PeerText⦄ where
  abbrev pub wire_guard_issues : Option WireGuardPeerSpec → List String
  wire_guard_issues none = ".wireguard is required" ∷ []
  wire_guard_issues (some peer) = within ".wireguard" (validate_wire_guard ⦃peers = peers⦄ peer)

  abbrev pub gre_issues : Option GreSpec → List String
  gre_issues none = ".gre is required" ∷ []
  gre_issues (some g) = within ".gre" (validate_gre g)

  unfoldable pub check_transport : FabricLinkSpec → List String
  check_transport link = elim link.transport [
    | wire_guard ↦
        wire_guard_issues link.wire_guard
        ++ issue_if (is_some link.gre) ".gre must be empty for wireguard"
    | direct_l3 ↦
        issue_if (not link.trusted) " direct_l3 requires trusted=true"
        ++ issue_if (is_some link.wire_guard || is_some link.gre)
            " direct_l3 must not contain wireguard or gre settings"
    | gre ↦
        issue_if (not link.trusted) " gre requires trusted=true"
        ++ gre_issues link.gre
        ++ issue_if (is_some link.wire_guard) ".wireguard must be empty for gre"
    | FabricTransport.other _ ↦ ".transport is unsupported" ∷ []
  ]

  -- The body of the loop.
  unfoldable pub check_link :
      String → List Prefix → FabricLinkSpec → LinkOwners → List String × LinkOwners
  unfolding check_link_id check_interface check_local_address check_peer_address check_routing_id
      check_transport
  check_link node_id services link owners =
      let (a, links) = check_link_id link owners.links in
      let (b, interfaces) = check_interface link owners.interfaces in
      let (c, locals) = check_local_address services link owners.locals in
      let (d, routes) = check_routing_id link owners.routes in
      (
        a
            ++ issue_if (not (valid_identifier link.peer_node_id) || link.peer_node_id == node_id)
                ".peer_node_id is invalid or refers to this node"
            ++ b
            ++ c
            ++ within ".peer_address" (validate_ipv4 link.peer_address)
            ++ check_peer_address services link
            ++ issue_if (ltb link.mtu 1280 || ltb 9000 link.mtu)
                ".mtu must be between 1280 and 9000"
            ++ d
            ++ issue_if (link.resource_version == 0) ".resource_version must be greater than zero"
            ++ check_transport link,
        record { links = links; routes = routes; interfaces = interfaces; locals = locals },
      )

  unfoldable pub check_links :
      String → List Prefix → List FabricLinkSpec → LinkOwners → List String × LinkOwners
  unfolding check_link
  check_links node_id services [] owners = ([], owners)
  check_links node_id services (link ∷ links) owners =
      let (issues, owners') = check_link node_id services link owners in
      let (rest, final) = check_links node_id services links owners' in (issues ++ rest, final)
