-- ===== src/Spec/Validate/Forwards.antt =====
-- internal/spec/validate.go: the loop of `Validate` over the forwards, with the maps that it keeps. An
-- instant is a number that is 0 for the zero time.
use l4way.Prelude.{
  ℕ, String, Bool, true, false, not, ◌&&◌, ◌||◌, Option, none, some, List, [], ◌∷◌, ◌++◌, ◌==◌,
  string_eq, Eq, ◌≡◌, ◌↔◌, arith, nat_eq, if◌then◌else◌, any, is_some, map,
}
use l4way.Net.{Addr, addr_eq, unmap, Prefix, contains_addr}
use l4way.Spec.{
  Protocol, tcp, udp, protocol_eq, is_via_exit, Lifecycle, force_deleting, SnatMode, masquerade,
  static, FabricLinkSpec, ForwardSpec, SnatSpec,
}
use l4way.Spec.Deadlines.{is_draining}
use l4way.Spec.Identifier.{valid_identifier}
use l4way.Spec.Validate.{
  issue_if, within, validate_ipv4, validate_endpoint, validate_rate_limit, validate_quota,
}
use l4way.Spec.Validate.Paths.{check_path}
use l4way.Spec.Validate.Checks.{check_id, check_class}

pub record ListenKey : Type 0 where
  pub address : Addr
  pub protocol : Protocol
  pub port : ℕ

abbrev pub listen_eqb : ListenKey → ListenKey → Bool
listen_eqb a b = a.address == b.address && a.protocol == b.protocol && a.port == b.port

pub listen_eqb_iff : (a b : ListenKey) → (listen_eqb a b ≡ true) ↔ (a ≡ b)
listen_eqb_iff a b =
    let record { address = x; protocol = p; port = n } = a in
    let record { address = y; protocol = q; port = m } = b in
    ground (arith, addr_eq.beq_iff x y, protocol_eq.beq_iff p q)

instance abbrev pub listen_eq : Eq ListenKey
listen_eq = record { beq = listen_eqb; beq_iff = listen_eqb_iff }

-- The owner of a listener, which only the message quotes, is left out.
pub record ForwardOwners : Type 0 where
  pub ids : List String
  pub classes : List ℕ
  pub listeners : List ListenKey
  pub vips : List (Addr × String)

abbrev pub moved_key : Option Addr → Protocol → ForwardSpec → ListenKey
moved_key none protocol forward = record {
  address = unmap forward.listen.address;
  protocol = protocol;
  port = forward.listen.port;
}
moved_key (some vip) protocol forward = record {
  address = unmap vip;
  protocol = protocol;
  port = forward.target.port;
}

-- What a forward listens on at a node: at its exit that is the service address and the target's port.
unfoldable pub listen_key : String → ForwardSpec → Protocol → ListenKey
listen_key node_id forward protocol =
    if is_via_exit forward.path_mode && node_id == forward.exit_node_id
    then moved_key forward.service_vip protocol forward
    else record {
      address = unmap forward.listen.address;
      protocol = protocol;
      port = forward.listen.port;
    }

-- One turn of the loop over the protocols, with the protocols seen and the listeners claimed.
unfoldable pub check_protocol :
    ListenKey → List Protocol → List ListenKey → List String × (List Protocol × List ListenKey)
check_protocol key seen listeners =
    if not (key.protocol == tcp) && not (key.protocol == udp)
    then (".protocols contains unsupported value" ∷ [], (seen, listeners))
    else if any (λ s. s == key.protocol) seen
    then (".protocols contains duplicate" ∷ [], (seen, listeners))
    else if any (λ l. l == key) listeners
    then (" listener conflicts with another forward" ∷ [], (key.protocol ∷ seen, listeners))
    else ([], (key.protocol ∷ seen, key ∷ listeners))

unfoldable pub check_protocols :
    List ListenKey → List Protocol → List ListenKey → List String × List ListenKey
unfolding check_protocol
check_protocols [] seen listeners = ([], listeners)
check_protocols (key ∷ wanted) seen listeners =
    let (issues, next) = check_protocol key seen listeners in
    let (rest, final) = check_protocols wanted next.0 next.1 in (issues ++ rest, final)

unfoldable pub check_lifecycle : Lifecycle → List String
check_lifecycle (Lifecycle.other _) = ".lifecycle is unsupported" ∷ []
check_lifecycle _ = []

abbrev pub static_issues : Option Addr → List String
static_issues none = ".snat.address is required for static mode" ∷ []
static_issues (some address) = within ".snat.address" (validate_ipv4 address)

unfoldable pub check_snat : SnatSpec → List String
check_snat snat = elim snat.mode [
  | masquerade ↦ issue_if (is_some snat.address) ".snat.address must be empty for masquerade"
  | static ↦ static_issues snat.address
  | SnatMode.other _ ↦ ".snat.mode is unsupported" ∷ []
]

abbrev pub translates_into : Option Addr → Prefix → Bool
translates_into none p = false
translates_into (some address) p = contains_addr p (unmap address)

unfoldable pub check_overlaps : List Prefix → ForwardSpec → List String
check_overlaps [] forward = []
check_overlaps (p ∷ services) forward =
    issue_if (contains_addr p (unmap forward.listen.address))
      ".listen.address overlaps service_cidrs"
    ++ issue_if (contains_addr p (unmap forward.target.address))
        ".target.address overlaps service_cidrs"
    ++ issue_if (translates_into forward.snat.address p) ".snat.address overlaps service_cidrs"
    ++ check_overlaps services forward

abbrev pub is_zero : Option ℕ → Bool
is_zero none = false
is_zero (some t) = t == 0

unfoldable pub check_deadlines : ForwardSpec → List String
check_deadlines forward =
    issue_if (is_zero forward.expires_at) ".expires_at must not be zero"
    ++ (if is_draining forward.lifecycle
        then issue_if (not (is_some forward.drain_deadline) || is_zero forward.drain_deadline)
            ".drain_deadline is required while draining"
        else issue_if (is_some forward.drain_deadline)
            ".drain_deadline is only valid while draining")

abbrev pub is_force_deleting : Lifecycle → Bool
is_force_deleting force_deleting = true
is_force_deleting _ = false

abbrev pub uses_version_two : ForwardSpec → Bool
uses_version_two forward =
    not (forward.traffic_class_id == 0)
    || is_some forward.rate_limit
    || is_some forward.traffic_quota
    || is_some forward.expires_at
    || is_some forward.drain_deadline
    || is_force_deleting forward.lifecycle

abbrev pub no_protocols : List Protocol → Bool
no_protocols [] = true
no_protocols (_ ∷ _) = false

module _ (version : ℕ) (node_id : String) (services : List Prefix)
    (links : List (String × FabricLinkSpec)) where
  -- The body of the loop.
  unfoldable pub check_forward : ForwardSpec → ForwardOwners → List String × ForwardOwners
  unfolding check_protocols check_path
  check_forward forward owners =
      let (a, ids) = check_id ".id" forward.id owners.ids in
      let (b, classes) = check_class forward.traffic_class_id owners.classes in
      let (c, listeners) =
        check_protocols (map (listen_key node_id forward) forward.protocols) [] owners.listeners in
      let (d, vips) = check_path version node_id services links forward owners.vips in
      (
        a
            ++ issue_if (not (valid_identifier forward.user_id)) ".user_id is invalid"
            ++ issue_if (not (valid_identifier forward.ingress_node_id))
                ".ingress_node_id is invalid"
            ++ issue_if (forward.resource_version == 0)
                ".resource_version must be greater than zero"
            ++ b
            ++ within ".listen" (validate_endpoint forward.listen)
            ++ within ".target" (validate_endpoint forward.target)
            ++ issue_if (no_protocols forward.protocols) ".protocols must not be empty"
            ++ c
            ++ d
            ++ check_lifecycle forward.lifecycle
            ++ check_snat forward.snat
            ++ within ".rate_limit" (validate_rate_limit forward.rate_limit)
            ++ within ".traffic_quota" (validate_quota forward.traffic_quota)
            ++ check_overlaps services forward
            ++ check_deadlines forward
            ++ issue_if (version == 1 && uses_version_two forward)
                " uses fields that require schema_version 2",
        record { ids = ids; classes = classes; listeners = listeners; vips = vips },
      )

  unfoldable pub check_forwards : List ForwardSpec → ForwardOwners → List String × ForwardOwners
  unfolding check_forward
  check_forwards [] owners = ([], owners)
  check_forwards (forward ∷ forwards) owners =
      let (issues, owners') = check_forward forward owners in
      let (rest, final) = check_forwards forwards owners' in (issues ++ rest, final)
