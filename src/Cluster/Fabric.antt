-- ===== src/Cluster/Fabric.antt =====
-- internal/cluster/scheduler.go: the pair of links that joins two nodes.
pub mod Reciprocal
use l4way.Prelude.{
  String, Bool, true, false, ◌&&◌, Option, none, some, List, [], ◌∷◌, ◌==◌, string_eq,
  if◌then◌else◌, str_lt,
}
use l4way.Prelude.Sort.{sort_by}
use l4way.Net.{unmap, addr_eqb}
use l4way.Spec.{FabricTransport, transport_eqb}
use l4way.Cluster.{FabricLink, Node}

abbrev pub link_less : FabricLink → FabricLink → Bool
link_less a b = str_lt a.id b.id

unfoldable pub find_link : String → FabricTransport → List FabricLink → Option FabricLink
find_link peer_id transport [] = none
find_link peer_id transport (link ∷ links) =
    if link.peer_node_id == peer_id && transport_eqb link.transport transport
    then some link
    else find_link peer_id transport links

-- reciprocalLink
unfoldable pub reciprocal_link : Node → String → FabricTransport → Option FabricLink
unfolding find_link
reciprocal_link node peer_id transport =
    find_link peer_id transport (sort_by link_less node.fabric_links)

-- Each link has the other's local address as its peer.
abbrev pub addresses_meet : FabricLink → FabricLink → Bool
addresses_meet a b =
    addr_eqb (unmap a.peer_address) (unmap b.local_address.addr)
    && addr_eqb (unmap b.peer_address) (unmap a.local_address.addr)

-- The body of the loop of `matchingLinks` on one link of the first node.
unfoldable pub match_link : Node → Node → FabricLink → Option (FabricLink × FabricLink)
unfolding reciprocal_link
match_link first second link =
    if link.peer_node_id == second.id
    then elim (reciprocal_link second first.id link.transport) [
      | none ↦ none
      | some back ↦ if addresses_meet link back then some (link, back) else none
    ]
    else none

unfoldable pub first_match : Node → Node → List FabricLink → Option (FabricLink × FabricLink)
unfolding match_link
first_match first second [] = none
first_match first second (link ∷ links) =
    let rest = first_match first second links in
    elim (match_link first second link) [ none ↦ rest | some pair ↦ some pair ]

-- matchingLinks
unfoldable pub matching_links : Node → Node → Option (FabricLink × FabricLink)
unfolding first_match
matching_links first second = first_match first second (sort_by link_less first.fabric_links)
