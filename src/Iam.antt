-- ===== src/Iam.antt =====
-- internal/controller/iam: the network policy of a tenant (types.go and policy.go). What the package
-- takes from `net/netip` to read and print addresses is a parameter.
pub mod Authorize
pub mod Canonical
pub mod DataPlane
pub mod Validate
use Prim.Native.Char.{Char, code}
use l4way.Prelude.{
  ℕ, zero, suc, ◌^◌, ◌-◌, String, Bool, true, false, not, ◌&&◌, ◌||◌, Option, none, some, List, [],
  ◌∷◌, ◌≡◌, refl, ltb, leb, eqb, ◌==◌, string_eq, nat_eq, if◌then◌else◌, any, all, length, Result,
  ok, err, ◌>>=◌, ◌>>◌, reject_if, Eq, holds, arith, eq_of_discrete, ◌↔◌,
}
use l4way.Net.{
  Addr, addr_eqb, addr_eqb_iff, Prefix, Prefix-discrete, masked, is4, is_unspecified, is_multicast,
}
use l4way.Spec.{Protocol, tcp, udp, protocol_text}

pub data Status : Type 0 where
  active disabled : Status
  other : String → Status

abbrev pub is_active : Status → Bool
is_active active = true
is_active _ = false

pub data Role : Type 0 where
  owner tenant : Role
  other : String → Role

pub record Account : Type 0 where
  pub id : String
  pub tenant_id : String
  pub username : String
  pub display_name : String
  pub role : Role
  pub status : Status
  pub password_hash : String
  pub failed_login_count : ℕ
  pub locked_until : Option ℕ
  pub expires_at : Option ℕ
  pub resource_version : ℕ
  pub last_login_at : Option ℕ
  pub created_at : ℕ
  pub updated_at : ℕ

-- `t != nil && !now.Before(*t)`
abbrev pub passed : Option ℕ → ℕ → Bool
passed none now = false
passed (some t) now = not (ltb now t)

-- `t != nil && now.Before(*t)`
abbrev pub ahead : Option ℕ → ℕ → Bool
ahead none now = false
ahead (some t) now = ltb now t

-- Account.Available: is the error nil?
unfoldable pub available : Account → ℕ → Bool
available a now =
    if not (is_active a.status)
    then false
    else if passed a.expires_at now
    then false
    else if ahead a.locked_until now
    then false
    else true

pub record PortRange : Type 0 where
  pub start : ℕ
  pub end : ℕ

pub record Policy : Type 0 where
  pub tenant_id : String
  pub allowed_ingress_nodes : List String
  pub allowed_exit_nodes : List String
  pub allowed_listen_ips : List String
  pub allowed_port_ranges : List PortRange
  pub allowed_protocols : List Protocol
  pub allow_via_exit : Bool
  pub max_forwards : ℕ
  pub ingress_rate_limit_bps : ℕ
  pub egress_rate_limit_bps : ℕ
  pub traffic_quota_bytes : ℕ
  pub allowed_target_cidrs : List String
  pub denied_target_cidrs : List String
  pub resource_version : ℕ
  pub created_at : ℕ
  pub updated_at : ℕ

-- EmptyPolicy
unfoldable pub empty_policy : String → Policy
empty_policy tenant_id = record {
  tenant_id = tenant_id;
  allowed_ingress_nodes = [];
  allowed_exit_nodes = [];
  allowed_listen_ips = [];
  allowed_port_ranges = [];
  allowed_protocols = [];
  allow_via_exit = false;
  max_forwards = 0;
  ingress_rate_limit_bps = 0;
  egress_rate_limit_bps = 0;
  traffic_quota_bytes = 0;
  allowed_target_cidrs = [];
  denied_target_cidrs = [];
  resource_version = 1;
  created_at = 0;
  updated_at = 0;
}

-- netip.ParseAddr, netip.ParsePrefix and Addr.String.
pub record NetText : Type 0 where
  pub parse_addr : String → Option Addr
  pub parse_prefix : String → Option Prefix
  pub addr_text : Addr → String

pub data Reason : Type 0 where
  wrong_tenant limit_reached ingress_not_assigned cross_node_not_allowed exit_not_assigned
        unsupported_path_mode :
      Reason
  listen_ip_not_assigned port_outside_ranges no_protocol protocol_not_assigned target_not_ipv4
        protected_target :
      Reason
  denied_target target_outside_networks upload_rate_exceeded download_rate_exceeded quota_exceeded :
      Reason
  expiry_in_past tenant_expired expiry_after_tenant : Reason

pub data PolicyError : Type 0 where
  invalid_tenant_id no_resource_version too_many_forwards exceeds_integer_range : PolicyError
  invalid_node duplicate_node invalid_listen_ip duplicate_listen_ip invalid_port_range : PolicyError
  unsupported_protocol duplicate_protocol invalid_cidr duplicate_cidr : PolicyError
  forbidden : Reason → PolicyError

abbrev pub Checked : Type 0
Checked = Result PolicyError (Unit {0})

-- `if bad { return violation(reason) }`
abbrev pub forbid_if : Bool → Reason → Checked
forbid_if bad reason = reject_if bad (forbidden reason)

module _ {A : Type 0} ⦃e : Eq A⦄ where
  -- contains, protocolAllowed, and seen[candidate].
  unfoldable pub contains : List A → A → Bool
  contains values candidate = any (λ v. v == candidate) values

-- portAllowed
unfoldable pub port_allowed : List PortRange → ℕ → Bool
port_allowed ranges port =
    if port == 0 then false else any (λ r. leb r.start port && leb port r.end) ranges
