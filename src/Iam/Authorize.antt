-- ===== src/Iam/Authorize.antt =====
-- internal/controller/iam/policy.go: what a tenant may forward, and to which targets.
pub mod Limits
pub mod Target
use l4way.Prelude.{
  ℕ, ◌+◌, ◌*◌, ◌^◌, String, Bool, true, false, not, ◌&&◌, ◌||◌, Option, none, some, List, [], ◌∷◌,
  ltb, leb, ◌==◌, string_eq, nat_eq, if◌then◌else◌, any, all, is_some, Result, ok, err, ◌>>=◌, ◌>>◌,
  reject_if,
}
use l4way.Net.{Addr, v4, Prefix, prefix_from, contains_addr, is4}
use l4way.Spec.{
  ForwardSpec, PathMode, via_exit, direct, Protocol, RateLimitSpec, TrafficQuotaSpec, is_direct,
}
use l4way.Iam.{
  Policy, NetText, Reason, wrong_tenant, limit_reached, ingress_not_assigned,
  cross_node_not_allowed, exit_not_assigned, unsupported_path_mode, listen_ip_not_assigned,
  port_outside_ranges, no_protocol, protocol_not_assigned, target_not_ipv4, protected_target,
  denied_target, target_outside_networks, upload_rate_exceeded, download_rate_exceeded,
  quota_exceeded, expiry_in_past, tenant_expired, expiry_after_tenant, PolicyError, Checked,
  forbid_if, contains, port_allowed, passed,
}
use l4way.Spec.{protocol_eq}
use l4way.Iam.Validate.{parse_prefixes, validate}

abbrev pub ipv4 : ℕ → ℕ → Prefix
ipv4 first_octet length_in_bits = prefix_from (v4 (first_octet * 2 ^ 24)) length_in_bits

-- protectedTargetCIDRs
unfoldable pub protected_target_cidrs : List Prefix
unfolding prefix_from
protected_target_cidrs =
    ipv4 0 8
    ∷ ipv4 127 8
    ∷ prefix_from (v4 (169 * 2 ^ 24 + 254 * 2 ^ 16)) 16
    ∷ ipv4 224 4
    ∷ ipv4 240 4
    ∷ []

-- The first result of `parsePrefixes` where the error is dropped.
abbrev pub or_nil {ℓ} : {A : Type ℓ} → Result PolicyError (List A) → List A
or_nil (ok xs) = xs
or_nil (err e) = []

-- One of the loops over prefixes.
abbrev pub in_any : List Prefix → Addr → Bool
in_any prefixes address = any (λ p. contains_addr p address) prefixes

module _ ⦃net : NetText⦄ where
  -- Policy.AuthorizeTarget
  unfoldable pub authorize_target : Policy → Addr → Checked
  authorize_target p address =
      forbid_if (not (is4 address)) target_not_ipv4
      >> forbid_if (in_any protected_target_cidrs address) protected_target
      >> forbid_if (in_any (or_nil (parse_prefixes ⦃net = net⦄ [] p.denied_target_cidrs)) address)
          denied_target
      >> forbid_if
          (not (in_any (or_nil (parse_prefixes ⦃net = net⦄ [] p.allowed_target_cidrs)) address))
          target_outside_networks

-- The steps of `AuthorizeForward`.
abbrev pub authorize_path : Policy → PathMode → String → Checked
authorize_path p via_exit exit_node_id =
    forbid_if (not p.allow_via_exit) cross_node_not_allowed
    >> forbid_if (exit_node_id == "" || not (contains p.allowed_exit_nodes exit_node_id))
        exit_not_assigned
authorize_path p direct exit_node_id = ok tt
authorize_path p (PathMode.other _) exit_node_id = forbid_if true unsupported_path_mode

abbrev pub authorize_protocols : Policy → List Protocol → Checked
authorize_protocols p [] = ok tt
authorize_protocols p (protocol ∷ protocols) =
    forbid_if (not (contains p.allowed_protocols protocol)) protocol_not_assigned
    >> authorize_protocols p protocols

abbrev pub exceeds : ℕ → ℕ → Bool
exceeds wanted limit = ltb 0 limit && ltb limit wanted

abbrev pub authorize_rate : Policy → Option RateLimitSpec → Checked
authorize_rate p none = ok tt
authorize_rate p (some r) =
    forbid_if (exceeds r.ingress_bits_per_second p.ingress_rate_limit_bps) upload_rate_exceeded
    >> forbid_if (exceeds r.egress_bits_per_second p.egress_rate_limit_bps) download_rate_exceeded

abbrev pub over_quota : Policy → Option TrafficQuotaSpec → Bool
over_quota p none = false
over_quota p (some q) = exceeds q.bytes p.traffic_quota_bytes

abbrev pub outlives : Option ℕ → ℕ → Bool
outlives none tenant = true
outlives (some t) tenant = ltb tenant t

abbrev pub authorize_expiry : Option ℕ → Option ℕ → ℕ → Checked
authorize_expiry expires none now = ok tt
authorize_expiry expires (some tenant) now =
    forbid_if (not (ltb now tenant)) tenant_expired
    >> forbid_if (outlives expires tenant) expiry_after_tenant

abbrev pub is_empty {ℓ} : {A : Type ℓ} → List A → Bool
is_empty [] = true
is_empty (x ∷ xs) = false

module _ ⦃net : NetText⦄ where
  -- Policy.AuthorizeForward
  unfoldable pub authorize_forward : Policy → ForwardSpec → ℕ → Option ℕ → ℕ → Checked
  unfolding authorize_target
  authorize_forward p f current_forward_count tenant_expires_at now =
      validate ⦃net = net⦄ p
      >> forbid_if (not (f.user_id == p.tenant_id)) wrong_tenant
      >> forbid_if (p.max_forwards == 0 || leb p.max_forwards current_forward_count) limit_reached
      >> forbid_if (not (contains p.allowed_ingress_nodes f.ingress_node_id)) ingress_not_assigned
      >> authorize_path p f.path_mode f.exit_node_id
      >> forbid_if
          (not (is4 f.listen.address)
            || not (contains p.allowed_listen_ips (net.addr_text f.listen.address)))
          listen_ip_not_assigned
      >> forbid_if (not (port_allowed p.allowed_port_ranges f.listen.port)) port_outside_ranges
      >> forbid_if (is_empty f.protocols) no_protocol
      >> authorize_protocols p f.protocols
      >> authorize_target ⦃net = net⦄ p f.target.address
      >> authorize_rate p f.rate_limit
      >> forbid_if (over_quota p f.traffic_quota) quota_exceeded
      >> forbid_if (passed f.expires_at now) expiry_in_past
      >> authorize_expiry f.expires_at tenant_expires_at now
