-- ===== src/Control.antt =====
-- internal/control/protocol.go: what an agent can do, and what a desired state needs of it. The names are
-- the agreement between the two sides, so they are written out.
pub mod Covered
use Prim.Native.String.{◌++◌ as append}
use l4way.Prelude.{
  ℕ, String, Bool, true, false, not, ◌&&◌, ◌||◌, Option, none, some, List, [], ◌∷◌, ltb, leb, ◌==◌,
  string_eq, nat_eq, if◌then◌else◌, Result, ok, err, ◌>>=◌, ◌>>◌, reject_if, any, map, is_some,
  lookup, insert, str_lt, get_or_default,
}
use l4way.Prelude.Sort.{sort_by}
use l4way.Spec.{
  DesiredState, ForwardSpec, UserPolicySpec, FabricLinkSpec, FabricTransport, wire_guard, direct_l3,
  gre, PathMode, direct, via_exit, SnatMode, static, Lifecycle, ProtocolBlockPolicy,
}
use l4way.Spec.Deadlines.{is_draining}
use l4way.Spec.Identifier.{valid_identifier}
use l4way.Spec.Validate.State.{blocks, is_empty}
use l4way.Spec.Validate.Forwards.{is_force_deleting}

pub record Capability : Type 0 where
  pub name : String
  pub version : ℕ

abbrev pub capability : String → ℕ → Option Capability
capability name version = some (record { name = name; version = version })

-- DefaultCapabilities
unfoldable pub default_capabilities : List (Option Capability)
default_capabilities =
    capability "nft.direct" 2
    ∷ capability "nft.via-exit" 1
    ∷ capability "nft.static-snat" 1
    ∷ capability "nft.directional-counters" 1
    ∷ capability "nft.drain" 1
    ∷ capability "nft.force-delete" 1
    ∷ capability "policy.local-deadline" 1
    ∷ capability "tc.rate-limit" 1
    ∷ capability "usage.l3" 1
    ∷ capability "fabric.policy-routing" 1
    ∷ capability "fabric.wireguard" 1
    ∷ capability "fabric.direct-l3" 1
    ∷ capability "fabric.gre" 1
    ∷ capability "fabric.mss-clamp" 1
    ∷ capability "health.tcp-connect" 1
    ∷ capability "nft.protocol-block" 1
    ∷ capability "diagnostics.tcp-connect" 1
    ∷ capability "agent.maintenance" 1
    ∷ []

abbrev pub Versions : Type 0
Versions = List (String × ℕ)

-- `if needed { required[name] = version }`
unfoldable pub require_if : Bool → String → ℕ → Versions → Versions
require_if needed name version required = if needed then insert name version required else required

abbrev pub is_static : SnatMode → Bool
is_static static = true
is_static _ = false

abbrev pub require_path : ℕ → PathMode → Versions → Versions
require_path schema direct required =
    require_if true "nft.direct" (if leb 2 schema then 2 else 1) required
require_path schema via_exit required = require_if true "nft.via-exit" 1 required
require_path schema (PathMode.other _) required = required

-- The body of the loop over the forwards.
unfoldable pub require_forward : DesiredState → ForwardSpec → Versions → Versions
unfolding require_if
require_forward desired f required =
    let is_ingress = f.ingress_node_id == desired.node_id in
    let a = require_path desired.schema_version f.path_mode required in
    let b = require_if (is_static f.snat.mode) "nft.static-snat" 1 a in
    let c = require_if (is_ingress && is_some f.rate_limit) "tc.rate-limit" 1 b in
    let d = require_if (is_ingress && is_some f.traffic_quota) "usage.l3" 1 c in
    let e = require_if (is_ingress && is_some f.traffic_quota) "nft.directional-counters" 1 d in
    let g =
      require_if (is_some f.expires_at || is_some f.drain_deadline) "policy.local-deadline" 1 e in
    let h = require_if (is_draining f.lifecycle) "nft.drain" 1 g in
    require_if (is_force_deleting f.lifecycle) "nft.force-delete" 1 h

unfoldable pub require_forwards : DesiredState → List ForwardSpec → Versions → Versions
unfolding require_forward
require_forwards desired [] required = required
require_forwards desired (f ∷ fs) required =
    require_forwards desired fs (require_forward desired f required)

-- The users of the forwards that enter at the node.
abbrev pub used_at_ingress : DesiredState → String → Bool
used_at_ingress desired user =
    any (λ f. f.ingress_node_id == desired.node_id && f.user_id == user) desired.forwards

unfoldable pub require_policies : DesiredState → List UserPolicySpec → Versions → Versions
unfolding require_if
require_policies desired [] required = required
require_policies desired (p ∷ ps) required =
    let used = used_at_ingress desired p.user_id in
    let a = require_if (used && is_some p.rate_limit) "tc.rate-limit" 1 required in
    let b = require_if (used && is_some p.traffic_quota) "usage.l3" 1 a in
    require_policies desired ps
      (require_if (used && is_some p.traffic_quota) "nft.directional-counters" 1 b)

abbrev pub require_transport : FabricTransport → Versions → Versions
require_transport wire_guard required = require_if true "fabric.wireguard" 1 required
require_transport direct_l3 required = require_if true "fabric.direct-l3" 1 required
require_transport gre required = require_if true "fabric.gre" 1 required
require_transport (FabricTransport.other _) required = required

unfoldable pub require_links : List FabricLinkSpec → Versions → Versions
unfolding require_if
require_links [] required = required
require_links (link ∷ links) required =
    let a = require_if true "fabric.policy-routing" 1 required in
    let b = require_if true "fabric.mss-clamp" 1 a in
    require_links links (require_transport link.transport b)

-- The map of the versions, once it is filled.
unfoldable pub required_versions : DesiredState → Versions
unfolding require_forwards require_policies require_links require_if
required_versions desired =
    let a = require_if (blocks desired.protocol_blocks) "nft.protocol-block" 1 [] in
    let b = require_forwards desired desired.forwards a in
    let c = require_policies desired desired.user_policies b in
    let d = require_links desired.fabric_links c in
    require_if (not (is_empty desired.health_checks)) "health.tcp-connect" 1 d

-- RequiredCapabilities
unfoldable pub required_capabilities : DesiredState → List (Option Capability)
unfolding required_versions
required_capabilities desired =
    map (λ p. capability p.0 p.1) (sort_by (λ p q. str_lt p.0 q.0) (required_versions desired))

pub data CapabilityError : Type 0 where
  nil_capability bad_name no_version repeated : CapabilityError

-- ValidateCapabilities, with the names seen.
unfoldable pub validate_capabilities :
    List (Option Capability) → List String → Result CapabilityError (Unit {0})
validate_capabilities [] seen = ok tt
validate_capabilities (none ∷ cs) seen = err nil_capability
validate_capabilities (some c ∷ cs) seen = do
  reject_if (not (valid_identifier c.name)) bad_name
  reject_if (c.version == 0) no_version
  reject_if (any (λ n. n == c.name) seen) repeated
  validate_capabilities cs (c.name ∷ seen)

-- The loop that fills `available`, where a missing name has version 0.
unfoldable pub available : List (Option Capability) → Versions → Versions
available [] versions = versions
available (none ∷ cs) versions = available cs versions
available (some c ∷ cs) versions = available cs (
    if ltb (get_or_default 0 (lookup c.name versions)) c.version
    then insert c.name c.version versions
    else versions)

abbrev pub lacks : Versions → Option Capability → Bool
lacks versions none = true
lacks versions (some c) = ltb (get_or_default 0 (lookup c.name versions)) c.version

module _ (decimal : ℕ → String) where
  abbrev pub capability_text : Option Capability → String
  capability_text none = "<nil>"
  capability_text (some c) = append c.name (append "@" (decimal c.version))

  abbrev pub lacking : Versions → List (Option Capability) → List String
  lacking versions [] = []
  lacking versions (c ∷ cs) =
      if lacks versions c then capability_text c ∷ lacking versions cs else lacking versions cs

  -- MissingCapabilities
  unfoldable pub missing_capabilities :
      List (Option Capability) → List (Option Capability) → List String
  unfolding available
  missing_capabilities supported required =
      sort_by str_lt (lacking (available supported []) required)
