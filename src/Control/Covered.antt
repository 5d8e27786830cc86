-- ===== src/Control/Covered.antt =====
-- An agent of the current version lacks nothing (internal/control/protocol.go).
use l4way.Prelude.{
  ℕ, ◌≡◌, refl, ap, String, Bool, true, false, Bool-cases, inl, inr, not, ◌&&◌, ◌||◌, ◌==◌,
  string_eq, List, [], ◌∷◌, map, leb, ltb, All, lookup, insert, is_some, get_or_default, str_lt,
}
use l4way.Prelude.Sort.{sort_by, All-sort_by}
use l4way.Spec.{
  DesiredState, ForwardSpec, UserPolicySpec, FabricLinkSpec, FabricTransport, PathMode, direct,
  via_exit, wire_guard, direct_l3, gre,
}
use l4way.Spec.Deadlines.{is_draining}
use l4way.Spec.Validate.State.{blocks, is_empty}
use l4way.Spec.Validate.Forwards.{is_force_deleting}
use l4way.Control.{
  capability, default_capabilities, Versions, require_if, is_static, require_path, require_forward,
  require_forwards, used_at_ingress, require_policies, require_transport, require_links,
  required_versions, required_capabilities, available, lacking, missing_capabilities,
}

abbrev offered : Versions
offered = available default_capabilities []

-- A version that the defaults offer.
abbrev IsOffered : String × ℕ → Type 0
IsOffered p = ltb (get_or_default 0 (lookup p.0 offered)) p.1 ≡ false

insert-All :
    (name : String) (v : ℕ) (m : Versions)
    → IsOffered (name, v)
    → All IsOffered m
    → All IsOffered (insert name v m)
unfolding insert
insert-All name v [] o h = (o, tt)
insert-All name v ((n, w) ∷ m) o h = elim (Bool-cases (n == name)) [
  | inl t ↦ rw t (o, h.1)
  | inr f ↦ rw f (h.0, insert-All name v m o h.1)
]

require_if-All :
    (b : Bool) (name : String) (v : ℕ) (m : Versions)
    → IsOffered (name, v)
    → All IsOffered m
    → All IsOffered (require_if b name v m)
unfolding require_if
require_if-All true name v m o h = insert-All name v m o h
require_if-All false name v m o h = h

direct_two : IsOffered ("nft.direct", 2)
unfolding default_capabilities available lookup insert
direct_two = refl

direct_one : IsOffered ("nft.direct", 1)
unfolding default_capabilities available lookup insert
direct_one = refl

via_exit_one : IsOffered ("nft.via-exit", 1)
unfolding default_capabilities available lookup insert
via_exit_one = refl

static_snat : IsOffered ("nft.static-snat", 1)
unfolding default_capabilities available lookup insert
static_snat = refl

rate_limit_one : IsOffered ("tc.rate-limit", 1)
unfolding default_capabilities available lookup insert
rate_limit_one = refl

usage_one : IsOffered ("usage.l3", 1)
unfolding default_capabilities available lookup insert
usage_one = refl

counters_one : IsOffered ("nft.directional-counters", 1)
unfolding default_capabilities available lookup insert
counters_one = refl

deadline_one : IsOffered ("policy.local-deadline", 1)
unfolding default_capabilities available lookup insert
deadline_one = refl

drain_one : IsOffered ("nft.drain", 1)
unfolding default_capabilities available lookup insert
drain_one = refl

force_delete_one : IsOffered ("nft.force-delete", 1)
unfolding default_capabilities available lookup insert
force_delete_one = refl

routing_one : IsOffered ("fabric.policy-routing", 1)
unfolding default_capabilities available lookup insert
routing_one = refl

clamp_one : IsOffered ("fabric.mss-clamp", 1)
unfolding default_capabilities available lookup insert
clamp_one = refl

wireguard_one : IsOffered ("fabric.wireguard", 1)
unfolding default_capabilities available lookup insert
wireguard_one = refl

direct_l3_one : IsOffered ("fabric.direct-l3", 1)
unfolding default_capabilities available lookup insert
direct_l3_one = refl

gre_one : IsOffered ("fabric.gre", 1)
unfolding default_capabilities available lookup insert
gre_one = refl

block_one : IsOffered ("nft.protocol-block", 1)
unfolding default_capabilities available lookup insert
block_one = refl

connect_one : IsOffered ("health.tcp-connect", 1)
unfolding default_capabilities available lookup insert
connect_one = refl

require_path-All :
    (schema : ℕ) (p : PathMode) (m : Versions)
    → All IsOffered m
    → All IsOffered (require_path schema p m)
require_path-All schema direct m h = elim (Bool-cases (leb 2 schema)) [
  | inl t ↦ rw t (require_if-All true "nft.direct" 2 m direct_two h)
  | inr f ↦ rw f (require_if-All true "nft.direct" 1 m direct_one h)
]
require_path-All schema via_exit m h = require_if-All true "nft.via-exit" 1 m via_exit_one h
require_path-All schema (PathMode.other t) m h = h

require_forward-All :
    (d : DesiredState) (f : ForwardSpec) (m : Versions)
    → All IsOffered m
    → All IsOffered (require_forward d f m)
unfolding require_forward
require_forward-All d f m h =
    let is_ingress = f.ingress_node_id == d.node_id in
    require_if-All (is_force_deleting f.lifecycle) _ 1 _ force_delete_one (
      require_if-All (is_draining f.lifecycle) _ 1 _ drain_one (
        require_if-All (is_some f.expires_at || is_some f.drain_deadline) _ 1 _ deadline_one (
          require_if-All (is_ingress && is_some f.traffic_quota) _ 1 _ counters_one (
            require_if-All (is_ingress && is_some f.traffic_quota) _ 1 _ usage_one (
              require_if-All (is_ingress && is_some f.rate_limit) _ 1 _ rate_limit_one (
                require_if-All (is_static f.snat.mode) _ 1 _ static_snat
                  (require_path-All d.schema_version f.path_mode m h)))))))

require_forwards-All :
    (d : DesiredState) (fs : List ForwardSpec) (m : Versions)
    → All IsOffered m
    → All IsOffered (require_forwards d fs m)
unfolding require_forwards
require_forwards-All d [] m h = h
require_forwards-All d (f ∷ fs) m h = require_forwards-All d fs _ (require_forward-All d f m h)

require_policies-All :
    (d : DesiredState) (ps : List UserPolicySpec) (m : Versions)
    → All IsOffered m
    → All IsOffered (require_policies d ps m)
unfolding require_policies
require_policies-All d [] m h = h
require_policies-All d (p ∷ ps) m h =
    let used = used_at_ingress d p.user_id in
    require_policies-All d ps _ (
      require_if-All (used && is_some p.traffic_quota) _ 1 _ counters_one (
        require_if-All (used && is_some p.traffic_quota) _ 1 _ usage_one
          (require_if-All (used && is_some p.rate_limit) _ 1 m rate_limit_one h)))

require_transport-All :
    (t : FabricTransport) (m : Versions) → All IsOffered m → All IsOffered (require_transport t m)
require_transport-All wire_guard m h = require_if-All true _ 1 m wireguard_one h
require_transport-All direct_l3 m h = require_if-All true _ 1 m direct_l3_one h
require_transport-All gre m h = require_if-All true _ 1 m gre_one h
require_transport-All (FabricTransport.other t) m h = h

require_links-All :
    (ls : List FabricLinkSpec) (m : Versions) → All IsOffered m → All IsOffered (require_links ls m)
unfolding require_links
require_links-All [] m h = h
require_links-All (l ∷ ls) m h = require_links-All ls _ (
    require_transport-All l.transport _
      (require_if-All true _ 1 _ clamp_one (require_if-All true _ 1 m routing_one h)))

required_versions-All : (d : DesiredState) → All IsOffered (required_versions d)
unfolding required_versions
required_versions-All d = require_if-All (not (is_empty d.health_checks)) _ 1 _ connect_one (
    require_links-All d.fabric_links _ (
      require_policies-All d d.user_policies _ (
        require_forwards-All d d.forwards _
          (require_if-All (blocks d.protocol_blocks) _ 1 [] block_one tt))))

lacking-offered :
    (decimal : ℕ → String) (m : Versions)
    → All IsOffered m
    → lacking decimal offered (map (λ p. capability p.0 p.1) m) ≡ []
lacking-offered decimal [] h = refl
lacking-offered decimal (p ∷ m) h = rw h.0 (lacking-offered decimal m h.1)

-- Whatever a desired state needs, an agent with the default capabilities lacks none of it.
pub missing-default :
    (decimal : ℕ → String) (d : DesiredState)
    → missing_capabilities decimal default_capabilities (required_capabilities d) ≡ []
unfolding missing_capabilities required_capabilities sort_by
missing-default decimal d = ap (sort_by str_lt) (
    lacking-offered decimal _ (
      All-sort_by (λ p q. str_lt p.0 q.0) IsOffered (required_versions d)
        (required_versions-All d)))
