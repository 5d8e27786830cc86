-- ===== src/Cluster.antt =====
-- internal/cluster/types.go: the plan of a cluster, what is known of its nodes and backends at run
-- time, and the placements. Go maps are association lists.
pub mod Backends
pub mod Capacity
pub mod Fabric
pub mod Nodes
pub mod Place
use l4way.Prelude.{ℕ, String, Bool, Option, none, some, List, eqb, if◌then◌else◌}
use l4way.Net.{Addr, Prefix}
use l4way.Spec.{
  Protocol, PathMode, Lifecycle, SnatSpec, Endpoint, RateLimitSpec, TrafficQuotaSpec,
  ProtocolBlockPolicy, UserPolicySpec, FabricTransport, GreSpec,
}
use l4way.Health.{Status}

pub data NodeRole : Type 0 where
  ingress exit : NodeRole
  other : String → NodeRole

pub data FailureDomainPolicy : Type 0 where
  distinct prefer_distinct any_domain unset : FailureDomainPolicy
  other : String → FailureDomainPolicy

-- `Capacity` of types.go.
pub record NodeCapacity : Type 0 where
  pub max_forwards : ℕ
  pub ingress_bits_per_second : ℕ
  pub egress_bits_per_second : ℕ

pub record Reservation : Type 0 where
  pub ingress_bits_per_second : ℕ
  pub egress_bits_per_second : ℕ

pub record RolloutStrategy : Type 0 where
  pub canary_percent : ℕ
  pub bake_seconds : ℕ

-- EffectiveCanaryPercent
abbrev pub effective_canary_percent : RolloutStrategy → ℕ
effective_canary_percent s = if eqb s.canary_percent 0 then 100 else s.canary_percent

pub record NodeSelector : Type 0 where
  pub node_ids : List String
  pub match_labels : List (String × String)

pub record WireGuardLink : Type 0 where
  pub endpoint : String
  pub listen_port : ℕ
  pub persistent_keepalive_seconds : ℕ

pub record FabricLink : Type 0 where
  pub id : String
  pub peer_node_id : String
  pub transport : FabricTransport
  pub interface : String
  pub local_address : Prefix
  pub peer_address : Addr
  pub mtu : ℕ
  pub routing_id : ℕ
  pub trusted : Bool
  pub wire_guard : Option WireGuardLink
  pub gre : Option GreSpec
  pub resource_version : ℕ

pub record Node : Type 0 where
  pub id : String
  pub enabled : Bool
  pub roles : List NodeRole
  pub labels : List (String × String)
  pub listen_ips : List Addr
  pub failure_domain : String
  pub capacity : NodeCapacity
  pub fabric_links : List FabricLink
  pub protocol_blocks : Option ProtocolBlockPolicy

pub record HealthPolicy : Type 0 where
  pub interval_seconds : ℕ
  pub timeout_milliseconds : ℕ
  pub failure_threshold : ℕ
  pub success_threshold : ℕ
  pub stale_after_seconds : ℕ

pub record Backend : Type 0 where
  pub id : String
  pub target : Endpoint
  pub probe_endpoint : Option Endpoint
  pub priority : ℕ
  pub resource_version : ℕ

pub record BackendPool : Type 0 where
  pub id : String
  pub backends : List Backend
  pub health : Option HealthPolicy
  pub resource_version : ℕ

pub record Forward : Type 0 where
  pub id : String
  pub user_id : String
  pub protocols : List Protocol
  pub listen : Endpoint
  pub path_mode : PathMode
  pub ingress : NodeSelector
  pub exit : Option NodeSelector
  pub failure_domain_policy : FailureDomainPolicy
  pub backend_pool_id : String
  pub snat : SnatSpec
  pub reservation : Reservation
  pub rate_limit : Option RateLimitSpec
  pub traffic_quota : Option TrafficQuotaSpec
  pub expires_at : Option ℕ
  pub drain_deadline : Option ℕ
  pub lifecycle : Lifecycle
  pub resource_version : ℕ

pub record Plan : Type 0 where
  pub schema_version : ℕ
  pub id : String
  pub revision : ℕ
  pub node_offline_after_seconds : ℕ
  pub rollout : Option RolloutStrategy
  pub service_cidrs : List Prefix
  pub nodes : List Node
  pub user_policies : List UserPolicySpec
  pub backend_pools : List BackendPool
  pub forwards : List Forward

pub record NodeRuntime : Type 0 where
  pub id : String
  pub available : Bool
  pub last_seen : ℕ
  pub capabilities : List (String × ℕ)
  pub wire_guard_public_key : String

pub record HealthKey : Type 0 where
  pub node_id : String
  pub pool_id : String
  pub backend_id : String

pub record HealthObservation : Type 0 where
  pub status : Status
  pub resource_version : ℕ
  pub observed_at : ℕ

pub record Placement : Type 0 where
  pub forward_id : String
  pub ingress_id : String
  pub exit_id : String
  pub backend_id : String
  pub target : Endpoint
  pub path_mode : PathMode
  pub fabric_in_id : String
  pub fabric_out_id : String

pub data AlertCode : Type 0 where
  backend_health_unknown backend_pool_exhausted : AlertCode

pub record Alert : Type 0 where
  pub code : AlertCode
  pub forward_id : String
  pub pool_id : String

-- `Result` of types.go.
pub record Schedule : Type 0 where
  pub placements : List Placement
  pub alerts : List Alert
