-- ===== src/Spec/Validate.antt =====
-- internal/spec/validate.go: the checks of single values. A check returns its issues, as the part of
-- the message that follows the name of the field; the values that some messages quote are left out.
pub mod Checks
pub mod Forwards
pub mod Links
pub mod Paths
pub mod State
use Prim.Native.String.{◌++◌ as append}
use l4way.Prelude.{
  ℕ, ◌-◌, String, Bool, true, false, not, ◌&&◌, ◌||◌, Option, none, some, List, [], ◌∷◌, ◌++◌, map,
  leb, ltb, ◌==◌, string_eq, nat_eq, if◌then◌else◌, any, all, length,
}
use l4way.Net.{
  Addr, addr_eq, is_valid_addr, is4, is4in6, unmap, is_unspecified, is_multicast, Prefix,
  is_valid_prefix, bits, contains_addr,
}
use l4way.Spec.{
  Endpoint, RateLimitSpec, TrafficQuotaSpec, QuotaPolicy, pause, WireGuardPeerSpec, GreSpec,
}
use l4way.Spec.Canonical.{canonical_prefix}

-- `if bad { issues = append(issues, message) }`
abbrev pub issue_if : Bool → String → List String
issue_if bad message = if bad then message ∷ [] else []

-- The issues of a part of a value.
abbrev pub within : String → List String → List String
within name issues = map (append name) issues

-- One issue for each of the prefixes with the test.
abbrev pub each_overlap : (Prefix → Bool) → String → List Prefix → List String
each_overlap bad message [] = []
each_overlap bad message (p ∷ ps) = issue_if (bad p) message ++ each_overlap bad message ps

-- validateRateLimit
unfoldable pub validate_rate_limit : Option RateLimitSpec → List String
validate_rate_limit none = []
validate_rate_limit (some limit) =
    issue_if (limit.ingress_bits_per_second == 0 && limit.egress_bits_per_second == 0)
      " must set at least one direction"
    ++ issue_if (limit.burst_bytes == 0) ".burst_bytes must be greater than zero"

abbrev pub is_pause : QuotaPolicy → Bool
is_pause pause = true
is_pause _ = false

-- validateQuota
unfoldable pub validate_quota : Option TrafficQuotaSpec → List String
validate_quota none = []
validate_quota (some quota) =
    issue_if (quota.bytes == 0) ".bytes must be greater than zero"
    ++ issue_if (not (is_pause quota.policy)) ".policy is unsupported"

-- validateIPv4
unfoldable pub validate_ipv4 : Addr → List String
validate_ipv4 address =
    if not (is_valid_addr address)
    then " is invalid" ∷ []
    else if not (is4 (unmap address))
    then " must be IPv4" ∷ []
    else if is_unspecified (unmap address)
    then " must be a concrete address" ∷ []
    else issue_if (is_multicast (unmap address)) " must not be multicast"

-- validateEndpoint
unfoldable pub validate_endpoint : Endpoint → List String
unfolding validate_ipv4
validate_endpoint endpoint =
    within ".address" (validate_ipv4 endpoint.address)
    ++ issue_if (not (endpoint.hostname == ""))
        ".hostname must be resolved by Controller before publication"
    ++ issue_if (endpoint.port == 0) ".port must be greater than zero"

-- validateIPv4Prefix
unfoldable pub validate_ipv4_prefix : Prefix → List String
validate_ipv4_prefix prefix =
    if not (is_valid_prefix prefix)
    then " is invalid" ∷ []
    else if not (is4 (unmap prefix.addr))
    then " must be IPv4" ∷ []
    else if is_unspecified (unmap prefix.addr) || is_multicast (unmap prefix.addr)
    then " must be a concrete unicast prefix" ∷ []
    else issue_if (not (unmap prefix.addr == (canonical_prefix prefix).addr))
        " must be network-masked"

abbrev pub bits4 : Prefix → ℕ
bits4 prefix = if is4in6 prefix.addr then bits prefix - 96 else bits prefix

-- validateIPv4InterfacePrefix. A length below 0 is 0 here, and refused like it.
unfoldable pub validate_interface_prefix : Prefix → List String
validate_interface_prefix prefix =
    if not (is_valid_prefix prefix)
    then " is invalid" ∷ []
    else if not (is4 (unmap prefix.addr))
    then " must be IPv4" ∷ []
    else if is_unspecified (unmap prefix.addr) || is_multicast (unmap prefix.addr)
    then " must use a concrete unicast address" ∷ []
    else issue_if (ltb (bits4 prefix) 1 || ltb 32 (bits4 prefix)) " prefix length is invalid"

-- prefixesOverlap
unfoldable pub prefixes_overlap : Prefix → Prefix → Bool
prefixes_overlap first second =
    if not (is_valid_prefix first) || not (is_valid_prefix second)
    then false
    else contains_addr (canonical_prefix first) (canonical_prefix second).addr
      || contains_addr (canonical_prefix second) (canonical_prefix first).addr

-- What the checks take from `encoding/base64`, `crypto/ecdh`, `net`, `strconv` and `net/netip`.
pub record PeerText : Type 0 where
  pub decode_key : String → Option (List ℕ)
  pub is_public_key : List ℕ → Bool
  pub has_shared_secret : List ℕ → Bool
  pub split_host_port : String → Option (String × String)
  pub parse_port : String → Option ℕ
  pub parse_host : String → Option Addr

module _ ⦃peers : PeerText⦄ where
  -- ValidateWireGuardPublicKey: is the error nil? The private key of the probe is a constant.
  unfoldable pub valid_public_key : String → Bool
  valid_public_key encoded = elim (peers.decode_key encoded) [
    | none ↦ false
    | some key ↦
        length key == 32
        && not (all (λ b. b == 0) key)
        && peers.is_public_key key
        && peers.has_shared_secret key
  ]

  abbrev pub bad_port : Option ℕ → Bool
  bad_port none = true
  bad_port (some port) = port == 0

  -- The last two tests are on the address before `Unmap`, as in the code.
  abbrev pub bad_host : Option Addr → Bool
  bad_host none = true
  bad_host (some address) =
      not (is4 (unmap address)) || is_unspecified address || is_multicast address

  abbrev pub endpoint_issues : Option (String × String) → List String
  endpoint_issues none = ".endpoint must be host:port" ∷ []
  endpoint_issues (some (host, port_text)) =
      if host == ""
      then ".endpoint must be host:port" ∷ []
      else issue_if (bad_port (peers.parse_port port_text)) ".endpoint port is invalid"
        ++ issue_if (bad_host (peers.parse_host host))
            ".endpoint host must be a concrete IPv4 address"

  -- validateWireGuard
  unfoldable pub validate_wire_guard : WireGuardPeerSpec → List String
  validate_wire_guard peer =
      issue_if (not (valid_public_key peer.peer_public_key)) ".peer_public_key is not a key"
      ++ endpoint_issues (peers.split_host_port peer.endpoint)
      ++ issue_if (peer.listen_port == 0) ".listen_port must be greater than zero"
      ++ issue_if (ltb 3600 peer.persistent_keepalive_seconds)
          ".persistent_keepalive_seconds must not exceed 3600"

-- validateGRE
unfoldable pub validate_gre : GreSpec → List String
validate_gre gre =
    within ".underlay_local" (validate_ipv4 gre.underlay_local)
    ++ within ".underlay_remote" (validate_ipv4 gre.underlay_remote)
    ++ issue_if
        (is_valid_addr gre.underlay_local
          && is_valid_addr gre.underlay_remote
          && unmap gre.underlay_local == unmap gre.underlay_remote)
        " underlay endpoints must differ"
    ++ issue_if (gre.key == 0) ".key must be greater than zero"
