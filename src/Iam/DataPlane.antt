-- ===== src/Iam/DataPlane.antt =====
-- internal/controller/iam/policy.go: the limits of a tenant as the policy that its nodes apply.
pub mod Burst
use l4way.Prelude.{
  ℕ, suc, ◌+◌, ◌*◌, ◌/◌, ◌%◌, ◌^◌, ◌≤◌, ◌<◌, ◌≡◌, ◌≢◌, ◌↔◌, refl, ap, ◌∙◌, inl, inr, ◌⊎◌, Bool,
  true, false, not, ◌&&◌, ◌||◌, Option, none, some, ltb, ◌==◌, nat_eq, if◌then◌else◌, Result, ok,
  err, ◌>>=◌, ◌>>◌, >>=-eq-ok, ok-injective, arith, Bool-cases, subst, reject_if,
}
use l4way.Spec.{RateLimitSpec, TrafficQuotaSpec, UserPolicySpec, pause, ForwardSpec}
use l4way.Iam.{Policy, NetText, PolicyError}
use l4way.Iam.Validate.{validate}

abbrev pub minimum_burst : ℕ
minimum_burst = 64 * 1024

-- `rate / 80`, rounded up, in `uint64`.
abbrev pub eightieth : ℕ → ℕ
eightieth rate = if rate % 80 == 0 then rate / 80 else (rate / 80 + 1) % 2 ^ 64

abbrev pub fastest : ℕ → ℕ → ℕ
fastest ingress egress = if ltb ingress egress then egress else ingress

-- The bytes of a tenth of a second at the faster of the two rates.
unfoldable pub burst_bytes : Policy → ℕ
burst_bytes p =
    let burst = eightieth (fastest p.ingress_rate_limit_bps p.egress_rate_limit_bps) in
    if ltb burst minimum_burst then minimum_burst else burst

abbrev pub rate_limit_of : Policy → Option RateLimitSpec
rate_limit_of p =
    if ltb 0 p.ingress_rate_limit_bps || ltb 0 p.egress_rate_limit_bps
    then some (record {
      ingress_bits_per_second = p.ingress_rate_limit_bps;
      egress_bits_per_second = p.egress_rate_limit_bps;
      burst_bytes = burst_bytes p;
    })
    else none

abbrev pub traffic_quota_of : Policy → Option TrafficQuotaSpec
traffic_quota_of p =
    if ltb 0 p.traffic_quota_bytes
    then some (record { bytes = p.traffic_quota_bytes; policy = pause })
    else none

abbrev pub user_policy :
    Policy → Option RateLimitSpec → Option TrafficQuotaSpec → Option UserPolicySpec
user_policy p none none = none
user_policy p rate quota = some (record {
  user_id = p.tenant_id;
  traffic_class_id = 0;
  rate_limit = rate;
  traffic_quota = quota;
  resource_version = p.resource_version;
})

module _ ⦃net : NetText⦄ where
  -- Policy.DataPlanePolicy
  unfoldable pub data_plane_policy : Policy → Result PolicyError (Option UserPolicySpec)
  unfolding burst_bytes
  data_plane_policy p =
      validate ⦃net = net⦄ p >> ok (user_policy p (rate_limit_of p) (traffic_quota_of p))
