-- ===== src/Spec.antt =====
-- internal/spec/types.go: the desired state of a node. A string type keeps the values that have no
-- constant of their own as `other`.
pub mod Canonical
pub mod Checksum
pub mod Deadlines
pub mod Identifier
pub mod Validate
use l4way.Prelude.{
  Eq, ℕ, String, Bool, true, false, ◌&&◌, ◌||◌, not, Option, none, some, List, leb, ltb, eqb,
  if◌then◌else◌, string_discrete, ◌≡◌, ◌↔◌, refl, arith, string_eq, ◌==◌, is_some, any, ◌∷◌, [],
}
use l4way.Net.{Addr, Addr-discrete, Prefix, Prefix-discrete}
use native.Mathlib.Decide.{ℕ_discrete}

abbrev pub current_schema_version : ℕ
current_schema_version = 5

abbrev pub supported_schema_version : ℕ → Bool
supported_schema_version v = eqb v 1 || eqb v 2 || eqb v 3 || eqb v 4 || eqb v 5

abbrev pub supported_schema_versions : List ℕ
supported_schema_versions = 1 ∷ 2 ∷ 3 ∷ 4 ∷ 5 ∷ []

pub data Protocol : Type 0 where
  tcp udp : Protocol
  other : String → Protocol

pub data PathMode : Type 0 where
  direct via_exit : PathMode
  other : String → PathMode

pub data Lifecycle : Type 0 where
  active paused draining force_deleting : Lifecycle
  other : String → Lifecycle

pub data TrafficDirection : Type 0 where
  upload download : TrafficDirection
  other : String → TrafficDirection

pub data SnatMode : Type 0 where
  masquerade static : SnatMode
  other : String → SnatMode

pub data QuotaPolicy : Type 0 where
  pause : QuotaPolicy
  other : String → QuotaPolicy

pub data FabricTransport : Type 0 where
  wire_guard direct_l3 gre : FabricTransport
  other : String → FabricTransport

-- The text of each constant, which orders protocols.
abbrev pub protocol_text : Protocol → String
protocol_text tcp = "tcp"
protocol_text udp = "udp"
protocol_text (Protocol.other s) = s

abbrev pub protocol_eqb : Protocol → Protocol → Bool
protocol_eqb tcp tcp = true
protocol_eqb udp udp = true
protocol_eqb (Protocol.other s) (Protocol.other t) = s == t
protocol_eqb _ _ = false

pub protocol_eqb_iff : (a b : Protocol) → (protocol_eqb a b ≡ true) ↔ (a ≡ b)
protocol_eqb_iff tcp tcp = (λ h. refl, λ h. refl)
protocol_eqb_iff udp udp = (λ h. refl, λ h. refl)
protocol_eqb_iff (Protocol.other s) (Protocol.other t) = ground (arith, string_eq.beq_iff s t)
protocol_eqb_iff a b = ground arith

instance abbrev pub protocol_eq : Eq Protocol
protocol_eq = record { beq = protocol_eqb; beq_iff = protocol_eqb_iff }

abbrev pub transport_eqb : FabricTransport → FabricTransport → Bool
transport_eqb wire_guard wire_guard = true
transport_eqb direct_l3 direct_l3 = true
transport_eqb gre gre = true
transport_eqb (FabricTransport.other s) (FabricTransport.other t) = s == t
transport_eqb _ _ = false

pub transport_eqb_iff : (a b : FabricTransport) → (transport_eqb a b ≡ true) ↔ (a ≡ b)
transport_eqb_iff wire_guard wire_guard = (λ h. refl, λ h. refl)
transport_eqb_iff (FabricTransport.other s) (FabricTransport.other t) =
    ground (arith, string_eq.beq_iff s t)
transport_eqb_iff a b = ground arith

abbrev pub is_via_exit : PathMode → Bool
is_via_exit via_exit = true
is_via_exit _ = false

abbrev pub is_direct : PathMode → Bool
is_direct direct = true
is_direct _ = false

pub record Endpoint : Type 0 where
  pub address : Addr
  pub hostname : String
  pub port : ℕ

pub record SnatSpec : Type 0 where
  pub mode : SnatMode
  pub address : Option Addr

pub record RateLimitSpec : Type 0 where
  pub ingress_bits_per_second : ℕ
  pub egress_bits_per_second : ℕ
  pub burst_bytes : ℕ

pub record TrafficQuotaSpec : Type 0 where
  pub bytes : ℕ
  pub policy : QuotaPolicy

pub record WireGuardPeerSpec : Type 0 where
  pub peer_public_key : String
  pub endpoint : String
  pub listen_port : ℕ
  pub persistent_keepalive_seconds : ℕ

pub record GreSpec : Type 0 where
  pub underlay_local : Addr
  pub underlay_remote : Addr
  pub key : ℕ

pub record FabricLinkSpec : Type 0 where
  pub id : String
  pub peer_node_id : String
  pub transport : FabricTransport
  pub interface : String
  pub local_address : Prefix
  pub peer_address : Addr
  pub mtu : ℕ
  pub routing_id : ℕ
  pub trusted : Bool
  pub wire_guard : Option WireGuardPeerSpec
  pub gre : Option GreSpec
  pub resource_version : ℕ

pub record UserPolicySpec : Type 0 where
  pub user_id : String
  pub traffic_class_id : ℕ
  pub rate_limit : Option RateLimitSpec
  pub traffic_quota : Option TrafficQuotaSpec
  pub resource_version : ℕ

pub record ProtocolBlockPolicy : Type 0 where
  pub http : Bool
  pub https : Bool
  pub socks : Bool
  pub tls : Bool

-- ProtocolBlockPolicy.Any
abbrev pub blocks_any : ProtocolBlockPolicy → Bool
blocks_any p = p.http || p.https || p.socks || p.tls

pub record HealthCheckSpec : Type 0 where
  pub pool_id : String
  pub backend_id : String
  pub endpoint : Endpoint
  pub protocol : Protocol
  pub interval_seconds : ℕ
  pub timeout_milliseconds : ℕ
  pub failure_threshold : ℕ
  pub success_threshold : ℕ
  pub resource_version : ℕ

pub record ForwardSpec : Type 0 where
  pub id : String
  pub user_id : String
  pub protocols : List Protocol
  pub ingress_node_id : String
  pub exit_node_id : String
  pub listen : Endpoint
  pub target : Endpoint
  pub service_vip : Option Addr
  pub fabric_link_id : String
  pub path_mode : PathMode
  pub snat : SnatSpec
  pub traffic_class_id : ℕ
  pub rate_limit : Option RateLimitSpec
  pub traffic_quota : Option TrafficQuotaSpec
  pub expires_at : Option ℕ
  pub drain_deadline : Option ℕ
  pub lifecycle : Lifecycle
  pub resource_version : ℕ

pub record DesiredState : Type 0 where
  pub schema_version : ℕ
  pub node_id : String
  pub generation : ℕ
  pub management_domain : String
  pub service_cidrs : List Prefix
  pub fabric_links : List FabricLinkSpec
  pub health_checks : List HealthCheckSpec
  pub user_policies : List UserPolicySpec
  pub protocol_blocks : Option ProtocolBlockPolicy
  pub forwards : List ForwardSpec

-- `reflect.DeepEqual` on the parts of a desired state.
pub FabricLinkSpec-discrete : Discrete FabricLinkSpec
FabricLinkSpec-discrete = hlevel (ℕ_discrete, string_discrete, Addr-discrete, Prefix-discrete)

pub ForwardSpec-discrete : Discrete ForwardSpec
ForwardSpec-discrete = hlevel (ℕ_discrete, string_discrete, Addr-discrete)

pub DesiredState-discrete : Discrete DesiredState
DesiredState-discrete = hlevel (
  ℕ_discrete, string_discrete, Addr-discrete, Prefix-discrete, FabricLinkSpec-discrete,
  ForwardSpec-discrete,
)
