-- ===== src/Spec/Validate/State.antt =====
-- internal/spec/validate.go: `DesiredState.Validate`.
pub mod Valid
pub mod Forwarding
use l4way.Prelude.{
  ℕ, String, Bool, true, false, not, ◌&&◌, ◌||◌, Option, none, some, List, [], ◌∷◌, ◌++◌, ltb, ◌==◌,
  string_eq, nat_eq, if◌then◌else◌, length, map,
}
use l4way.Net.{Prefix}
use l4way.Spec.{DesiredState, supported_schema_version, ProtocolBlockPolicy, blocks_any}
use l4way.Spec.Canonical.{canonical_prefix}
use l4way.Spec.Identifier.{valid_identifier}
use l4way.Spec.Validate.{issue_if, each_overlap, validate_ipv4_prefix, prefixes_overlap, PeerText}
use l4way.Spec.Validate.Links.{LinkOwners, no_owners, check_links}
use l4way.Spec.Validate.Checks.{PolicyOwners, check_healths, check_policies}
use l4way.Spec.Validate.Forwards.{ForwardOwners, check_forwards}

-- Where an issue is. The code writes the place into the text, with an index that is left out here.
pub data Place : Type 0 where
  state service_cidr fabric_link health_check user_policy forward : Place

pub record Issue : Type 0 where
  pub place : Place
  pub what : String

abbrev pub issues_at : Place → List String → List Issue
issues_at place issues = map (λ what. record { place = place; what = what }) issues

abbrev pub max_forwards : ℕ
max_forwards = 100000

abbrev pub max_fabric_links : ℕ
max_fabric_links = 1024

abbrev pub max_service_cidrs : ℕ
max_service_cidrs = 256

abbrev pub max_health_checks : ℕ
max_health_checks = 4096

-- The part before the loops.
unfoldable pub check_head : DesiredState → List String
check_head s =
    issue_if (not (supported_schema_version s.schema_version)) "schema_version is not supported"
    ++ issue_if (not (valid_identifier s.node_id)) "node_id is invalid"
    ++ issue_if (s.generation == 0) "generation must be greater than zero"
    ++ (if s.management_domain == ""
        then []
        else issue_if (ltb s.schema_version 4) "management_domain requires schema_version 4"
          ++ issue_if (not (valid_identifier s.management_domain)) "management_domain is invalid")
    ++ issue_if (ltb max_forwards (length s.forwards)) "forwards exceeds its limit"
    ++ issue_if (ltb max_fabric_links (length s.fabric_links)) "fabric_links exceeds its limit"
    ++ issue_if (ltb max_service_cidrs (length s.service_cidrs)) "service_cidrs exceeds its limit"
    ++ issue_if (ltb max_health_checks (length s.health_checks)) "health_checks exceeds its limit"

-- The body of the loop over the service prefixes: a prefix with an issue of its own is passed over.
abbrev pub keep_service : Prefix → List Prefix → List String → List String × List Prefix
keep_service p services (x ∷ xs) = (x ∷ xs, services)
keep_service p services [] = (
  each_overlap (prefixes_overlap (canonical_prefix p)) " overlaps service_cidrs" services,
  services ++ (canonical_prefix p ∷ []),
)

-- The loop, which keeps the canonical form of the others.
unfoldable pub check_services : List Prefix → List Prefix → List String × List Prefix
unfolding validate_ipv4_prefix prefixes_overlap canonical_prefix
check_services [] services = ([], services)
check_services (p ∷ ps) services =
    let (issues, services') = keep_service p services (validate_ipv4_prefix p) in
    let (rest, final) = check_services ps services' in (issues ++ rest, final)

abbrev pub is_empty {ℓ} : {A : Type ℓ} → List A → Bool
is_empty [] = true
is_empty (_ ∷ _) = false

abbrev pub blocks : Option ProtocolBlockPolicy → Bool
blocks none = false
blocks (some policy) = blocks_any policy

unfoldable pub check_versions : DesiredState → List String
check_versions s =
    issue_if
      (ltb s.schema_version 3 && (not (is_empty s.service_cidrs) || not (is_empty s.fabric_links)))
      "service_cidrs and fabric_links require schema_version 3"
    ++ issue_if (ltb s.schema_version 4 && not (is_empty s.health_checks))
        "health_checks requires schema_version 4"
    ++ issue_if (ltb s.schema_version 5 && blocks s.protocol_blocks)
        "protocol_blocks requires schema_version 5"

module _ ⦃peers : PeerText⦄ where
  -- DesiredState.Validate: the error is nil when there are no issues.
  unfoldable pub validate : DesiredState → List Issue
  unfolding check_services check_links check_healths check_policies check_forwards
  validate s =
      let (a, services) = check_services s.service_cidrs [] in
      let (b, links) = check_links ⦃peers = peers⦄ s.node_id services s.fabric_links no_owners in
      let (c, _) = check_healths services s.health_checks [] in
      let (d, policies) = check_policies s.user_policies (record { users = []; classes = [] }) in
      let (e, _) =
        check_forwards s.schema_version s.node_id services links.links s.forwards
          (record { ids = []; classes = policies.classes; listeners = []; vips = [] }) in
      issues_at state (check_head s)
      ++ issues_at service_cidr a
      ++ issues_at state (check_versions s)
      ++ issues_at fabric_link b
      ++ issues_at health_check c
      ++ issues_at user_policy d
      ++ issues_at state (
          issue_if (s.schema_version == 1 && not (is_empty s.user_policies))
            "user_policies requires schema_version 2")
      ++ issues_at forward e
