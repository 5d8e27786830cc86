-- ===== src/Spec/Validate/State/Forwarding.antt =====
-- The forwards of a valid desired state (internal/spec/validate.go).
use l4way.Prelude.{
  ℕ, ◌≡◌, ◌⊎◌, inl, inr, refl, sym, ap, ◌∙◌, subst, String, true, not, ◌==◌, string_eq, Bool-cases,
  Option, none, some, some-injective, is_some, List, [], ◌∷◌, ◌++◌, any, All, In, In-append, any-In,
  All-In, All-of-In, lookup, lookup-insert, Fresh, append-eq-nil, cons_not_nil, map-eq-nil, arith,
}
use l4way.Net.{Addr, addr_eq, unmap, Prefix, contains_addr}
use l4way.Spec.{via_exit, FabricLinkSpec, ForwardSpec, DesiredState}
use l4way.Spec.Canonical.{canonical_prefix}
use l4way.Spec.Identifier.{valid_identifier}
use l4way.Spec.Validate.{issue_if, within, validate_ipv4, validate_ipv4_prefix, PeerText}
use l4way.Spec.Validate.Links.{LinkOwners, no_owners, check_link_id, check_link, check_links}
use l4way.Spec.Validate.Checks.{check_policies}
use l4way.Spec.Validate.Forwards.{ForwardOwners, check_forwards}
use l4way.Spec.Validate.Paths.{
  check_vip, other_owner, expected_peer, peer_issues, check_fabric_link, check_via_exit, check_path,
}
use l4way.Spec.Validate.State.{validate, issues_at, keep_service, check_services, forward}
use l4way.Spec.Validate.State.Valid.{issue_if-eq-nil, listeners_of, check_forwards-Fresh}

-- The service address of a forward lies in a service prefix, and its link goes to the opposite node.
record Crosses (node_id : String) (services : List Prefix) (links : List (String × FabricLinkSpec))
    (f : ForwardSpec) : Type 0 where
  vip : Addr
  vip_is : f.service_vip ≡ some vip
  inside : any (λ p. contains_addr p (unmap vip)) services ≡ true
  link : FabricLinkSpec
  link_is : lookup f.fabric_link_id links ≡ some link
  opposite : link.peer_node_id ≡ expected_peer node_id f

abbrev sound : List Prefix → Addr → List String
sound services vip =
    within ".service_vip" (validate_ipv4 vip)
    ++ issue_if (not (any (λ p. contains_addr p (unmap vip)) services))
        ".service_vip is outside service_cidrs"

check_vip-eq-nil :
    (services : List Prefix) (id : String) (o : Option Addr) (vips : List (Addr × String))
    → (check_vip services id o vips).0 ≡ []
    → (vip : Addr) × (o ≡ some vip) × (any (λ p. contains_addr p (unmap vip)) services ≡ true)
unfolding check_vip
check_vip-eq-nil services id none vips h = cc
check_vip-eq-nil services id (some vip) vips h =
    elim (Bool-cases (other_owner (lookup (unmap vip) vips) id)) [
      | inl t ↦ absurd (cons_not_nil (append-eq-nil (sound services vip) _ (rw t at h)).1)
      | inr g ↦
          let (_, e) = append-eq-nil (within ".service_vip" (validate_ipv4 vip)) _ (rw g at h) in
          (vip, refl, ground (arith, issue_if-eq-nil _ _ e))
    ]

peer_issues-eq-nil :
    (o : Option FabricLinkSpec) (expected : String)
    → peer_issues o expected ≡ []
    → (link : FabricLinkSpec) × (o ≡ some link) × (link.peer_node_id ≡ expected)
peer_issues-eq-nil none expected h = cc
peer_issues-eq-nil (some link) expected h =
    let e = issue_if-eq-nil (not (link.peer_node_id == expected)) _ h in
    (link, refl, ground (arith, string_eq.beq_iff link.peer_node_id expected))

check_fabric_link-eq-nil :
    (node_id : String) (links : List (String × FabricLinkSpec)) (f : ForwardSpec)
    → check_fabric_link node_id links f ≡ []
    → (link : FabricLinkSpec) × (lookup f.fabric_link_id links ≡ some link)
      × (link.peer_node_id ≡ expected_peer node_id f)
unfolding check_fabric_link
check_fabric_link-eq-nil node_id links f h =
    elim (Bool-cases (not (valid_identifier f.fabric_link_id))) [
      | inl t ↦ absurd (cons_not_nil (rw t at h))
      | inr g ↦ peer_issues-eq-nil (lookup f.fabric_link_id links) _ (rw g at h)
    ]

check_path-Crosses :
    (version : ℕ) (node_id : String) (services : List Prefix)
    (links : List (String × FabricLinkSpec)) (f : ForwardSpec) (vips : List (Addr × String))
    → (check_path version node_id services links f vips).0 ≡ []
    → f.path_mode ≡ via_exit
    → Crosses node_id services links f
unfolding check_path check_via_exit
check_path-Crosses version node_id services links f vips h e =
    let (front, link_part) = append-eq-nil _ (check_fabric_link node_id links f) (rw e at h) in
    let (_, vip_part) = append-eq-nil _ (check_vip services f.id f.service_vip vips).0 front in
    let (vip, vip_is, inside) = check_vip-eq-nil services f.id f.service_vip vips vip_part in
    let (link, link_is, opposite) = check_fabric_link-eq-nil node_id links f link_part in
    record {
      vip = vip;
      vip_is = vip_is;
      inside = inside;
      link = link;
      link_is = link_is;
      opposite = opposite;
    }

keep_service-In :
    (p q : Prefix) (services : List Prefix) (v : List String)
    → In p (keep_service q services v).1
    → In p services ⊎ (p ≡ canonical_prefix q)
keep_service-In p q services (x ∷ xs) h = inl h
keep_service-In p q services [] h = ground (arith, In-append p services (canonical_prefix q ∷ []))

-- The prefixes that the loop keeps are canonical forms of those given.
check_services-In :
    (p : Prefix) (ps services : List Prefix)
    → In p (check_services ps services).1
    → In p services ⊎ ((q : Prefix) × In q ps × (p ≡ canonical_prefix q))
unfolding check_services
check_services-In p [] services h = inl h
check_services-In p (q ∷ ps) services h =
    elim (check_services-In p ps (keep_service q services (validate_ipv4_prefix q)).1 h) [
      | inr (r, m, e) ↦ inr (r, inr m, e)
      | inl m ↦ elim (keep_service-In p q services (validate_ipv4_prefix q) m) [
        | inl n ↦ inl n
        | inr e ↦ inr (q, inl refl, e)
      ]
    ]

check_link_id-lookup :
    (link : FabricLinkSpec) (owners : List (String × FabricLinkSpec)) (key : String)
    (found : FabricLinkSpec)
    → lookup key (check_link_id link owners).1 ≡ some found
    → (lookup key owners ≡ some found) ⊎ ((found ≡ link) × (link.id ≡ key))
unfolding check_link_id
check_link_id-lookup link owners key found h = elim (Bool-cases (not (valid_identifier link.id))) [
  | inl t ↦ inl (rw t at h)
  | inr f ↦ elim (Bool-cases (is_some (lookup link.id owners))) [
    | inl t ↦ inl (rw (f, t) at h)
    | inr g ↦
        let k = lookup-insert link.id key link owners in
        elim (Bool-cases (link.id == key)) [
          | inl t ↦ inr (
            some-injective (sym (rw (f, g) at h) ∙ k ∙ rw t refl),
            ground (arith, string_eq.beq_iff link.id key),
          )
          | inr u ↦ inl (sym (k ∙ rw u refl) ∙ (rw (f, g) at h))
        ]
  ]
]

module _ ⦃peers : PeerText⦄ where
  -- The links that the loop keeps are those given, under their identifiers.
  check_links-lookup :
      (node_id : String) (services : List Prefix) (links : List FabricLinkSpec)
      (owners : LinkOwners) (key : String) (found : FabricLinkSpec)
      → lookup key (check_links ⦃peers = peers⦄ node_id services links owners).1.links ≡ some found
      → (lookup key owners.links ≡ some found) ⊎ (In found links × (found.id ≡ key))
  unfolding check_links check_link
  check_links-lookup node_id services [] owners key found h = inl h
  check_links-lookup node_id services (link ∷ links) owners key found h =
      elim (check_links-lookup node_id services links
        (check_link ⦃peers = peers⦄ node_id services link owners).1 key found h) [
          | inr m ↦ inr (inr m.0, m.1)
          | inl m ↦ elim (check_link_id-lookup link owners.links key found m) [
            | inl n ↦ inl n
            | inr n ↦ inr (inl n.0, ap (λ (l : FabricLinkSpec). l.id) n.0 ∙ n.1)
          ]
        ]

  -- A forward by way of an exit is served: its service address lies in a service prefix of the state, and its
  -- link is one of the state's, to the node at the other end of the forward.
  pub record IsServed (s : DesiredState) (f : ForwardSpec) : Type 0 where
    pub vip : Addr
    pub vip_is : f.service_vip ≡ some vip
    pub prefix : Prefix
    pub prefix_is : In prefix s.service_cidrs
    pub inside : contains_addr (canonical_prefix prefix) (unmap vip) ≡ true
    pub link : FabricLinkSpec
    pub link_is : In link s.fabric_links
    pub named : link.id ≡ f.fabric_link_id
    pub opposite : link.peer_node_id ≡ expected_peer s.node_id f

  served :
      (s : DesiredState) (f : ForwardSpec)
      → let services = (check_services s.service_cidrs []).1 in
        Crosses s.node_id services
          (check_links ⦃peers = peers⦄ s.node_id services s.fabric_links no_owners).1.links
          f
        → IsServed s f
  unfolding lookup
  served s f c =
      let services = (check_services s.service_cidrs []).1 in
      let (p, m, inside) = any-In (λ p. contains_addr p (unmap c.vip)) services c.inside in
      elim (check_services-In p s.service_cidrs [] m) [
        | inl x ↦ absurd x
        | inr (q, given, e) ↦
            elim (check_links-lookup s.node_id services s.fabric_links no_owners f.fabric_link_id
              c.link c.link_is) [
                | inl x ↦ cc
                | inr n ↦ record {
                  vip = c.vip;
                  vip_is = c.vip_is;
                  prefix = q;
                  prefix_is = given;
                  inside = subst (λ p. contains_addr p (unmap c.vip) ≡ true) e inside;
                  link = c.link;
                  link_is = n.0;
                  named = n.1;
                  opposite = c.opposite;
                }
              ]
      ]

  -- In a valid state no two forwards, and no two protocols of one, listen on the same address, protocol and
  -- port, and every forward by way of an exit is served.
  pub validate-Fresh :
      (s : DesiredState)
      → validate ⦃peers = peers⦄ s ≡ []
      → Fresh [] (listeners_of s.node_id s.forwards)
        × All (λ f. f.path_mode ≡ via_exit → IsServed s f) s.forwards
  unfolding validate
  validate-Fresh s h =
      let services = (check_services s.service_cidrs []).1 in
      let links =
        (check_links ⦃peers = peers⦄ s.node_id services s.fabric_links no_owners).1.links in
      let classes =
        (check_policies s.user_policies (record { users = []; classes = [] })).1.classes in
      let owners : ForwardOwners = record {
        ids = [];
        classes = classes;
        listeners = [];
        vips = [];
      } in
      let issues = (check_forwards s.schema_version s.node_id services links s.forwards owners).0 in
      let (_, last) = append-eq-nil _ (issues_at forward issues) h in
      let (fresh, paths) =
        check_forwards-Fresh s.schema_version s.node_id services links s.forwards owners
          (map-eq-nil _ issues last) in
      (
        fresh,
        All-of-In (λ f. f.path_mode ≡ via_exit → IsServed s f) s.forwards
            (λ f m e.
              let (vips, path) = All-In _ f s.forwards paths m in
              served s f
                (check_path-Crosses s.schema_version s.node_id services links f vips path e)),
      )
