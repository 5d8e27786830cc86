-- ===== src/Cluster/Fabric/Reciprocal.antt =====
-- What a match of internal/cluster/scheduler.go guarantees of the two links.
use l4way.Prelude.{
  ◌≡◌, ◌∙◌, sym, refl, subst, inl, inr, String, some, List, [], ◌∷◌, string_eq, In, arith,
  Option-cases,
}
use l4way.Prelude.Sort.{sort_by, In-sort_by}
use l4way.Net.{unmap, addr_eqb_iff}
use l4way.Spec.{FabricTransport, transport_eqb_iff}
use l4way.Cluster.{FabricLink, Node}
use l4way.Cluster.Fabric.{
  link_less, find_link, reciprocal_link, match_link, first_match, matching_links,
}

-- Two links, one of each node, that are the two ends of one carrier.
pub record AreReciprocal (first second : Node) (a b : FabricLink) : Type 0 where
  pub outward : In a first.fabric_links
  pub back : In b second.fabric_links
  pub to_second : a.peer_node_id ≡ second.id
  pub to_first : b.peer_node_id ≡ first.id
  pub same_transport : a.transport ≡ b.transport
  pub meets_second : unmap a.peer_address ≡ unmap b.local_address.addr
  pub meets_first : unmap b.peer_address ≡ unmap a.local_address.addr

find_link_sound :
    (peer : String) (t : FabricTransport) (links : List FabricLink) (l : FabricLink)
    → find_link peer t links ≡ some l
    → In l links × (l.peer_node_id ≡ peer) × (l.transport ≡ t)
unfolding find_link
find_link_sound peer t [] l h = cc
find_link_sound peer t (x ∷ links) l h = ground (
  arith,
  string_eq.beq_iff x.peer_node_id peer,
  transport_eqb_iff x.transport t,
  find_link_sound peer t links l,
)

reciprocal_link_sound :
    (node : Node) (peer : String) (t : FabricTransport) (l : FabricLink)
    → reciprocal_link node peer t ≡ some l
    → In l node.fabric_links × (l.peer_node_id ≡ peer) × (l.transport ≡ t)
unfolding reciprocal_link
reciprocal_link_sound node peer t l h =
    let (m, p, q) = find_link_sound peer t (sort_by link_less node.fabric_links) l h in
    ((In-sort_by link_less l node.fabric_links).0 m, p, q)

match_link_parts :
    (first second : Node) (l a b : FabricLink)
    → match_link first second l ≡ some (a, b)
    → (l ≡ a)
      × (l.peer_node_id ≡ second.id)
      × (reciprocal_link second first.id l.transport ≡ some b)
      × (unmap l.peer_address ≡ unmap b.local_address.addr)
      × (unmap b.peer_address ≡ unmap l.local_address.addr)
unfolding match_link
match_link_parts first second l a b h =
    elim (Option-cases (reciprocal_link second first.id l.transport)) [
      | inl e ↦ ground arith
      | inr (back, e) ↦ ground (
        arith,
        string_eq.beq_iff l.peer_node_id second.id,
        addr_eqb_iff (unmap l.peer_address) (unmap back.local_address.addr),
        addr_eqb_iff (unmap back.peer_address) (unmap l.local_address.addr),
      )
    ]

match_link_sound :
    (first second : Node) (l a b : FabricLink)
    → In l first.fabric_links
    → match_link first second l ≡ some (a, b)
    → AreReciprocal first second a b
match_link_sound first second l a b m h =
    let (e, to, found, meets, met) = match_link_parts first second l a b h in
    let (back, to_first, same) = reciprocal_link_sound second first.id l.transport b found in
    subst (λ (x : FabricLink). AreReciprocal first second x b) e
      (record {
        outward = m;
        back = back;
        to_second = to;
        to_first = to_first;
        same_transport = sym same;
        meets_second = meets;
        meets_first = met;
      })

first_match_sound :
    (first second : Node) (links : List FabricLink) (a b : FabricLink)
    → ((l : FabricLink) → In l links → In l first.fabric_links)
    → first_match first second links ≡ some (a, b)
    → AreReciprocal first second a b
unfolding first_match
first_match_sound first second [] a b k h = cc
first_match_sound first second (l ∷ links) a b k h =
    elim (Option-cases (match_link first second l)) [
      | inl e ↦
          first_match_sound first second links a b (λ x m. k x (inr m)) (rw (e, first_match) at h)
      | inr (p, e) ↦
          match_link_sound first second l a b (k l (inl refl)) (e ∙ (rw (e, first_match) at h))
    ]

-- The links that are found for two nodes are the two ends of one carrier: a link of each node to the
-- other, of one transport, each with the other's local address as its peer.
pub matching_links-AreReciprocal :
    (first second : Node) (a b : FabricLink)
    → matching_links first second ≡ some (a, b)
    → AreReciprocal first second a b
unfolding matching_links
matching_links-AreReciprocal first second a b h =
    first_match_sound first second (sort_by link_less first.fabric_links) a b
      (λ l. (In-sort_by link_less l first.fabric_links).0) h
