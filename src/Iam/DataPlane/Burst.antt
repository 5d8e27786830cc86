-- ===== src/Iam/DataPlane/Burst.antt =====
-- How the limits of a tenant's nodes relate to those of its forwards (internal/controller/iam/policy.go).
use l4way.Prelude.{
  then_ok, some-injective, ℕ, ◌*◌, ◌%◌, ◌^◌, ◌≤◌, ◌<◌, ◌≡◌, ◌≢◌, refl, ◌∙◌, sym, inl, inr, ◌||◌,
  Option, none, some, ltb, ◌==◌, nat_eq, if◌then◌else◌, ok, >>=-eq-ok, ok-injective, arith,
  Bool-cases, subst, reject_if,
}
use l4way.Spec.{RateLimitSpec, TrafficQuotaSpec, UserPolicySpec, pause, ForwardSpec}
use l4way.Iam.{Policy, NetText, Checked, exceeds_integer_range}
use l4way.Iam.Validate.{validate, validate_values, validate_lists, max_int64}
use l4way.Iam.Authorize.{authorize_forward}
use l4way.Iam.Authorize.Limits.{authorize_forward-IsWithinPolicy}
use l4way.Iam.DataPlane.{
  burst_bytes, minimum_burst, eightieth, fastest, rate_limit_of, traffic_quota_of, user_policy,
  data_plane_policy,
}

in_range :
    (i e q : ℕ)
    → ◌≡◌ {A = Checked}
        (reject_if (ltb max_int64 i || ltb max_int64 e || ltb max_int64 q) exceeds_integer_range)
        (ok tt)
    → (i ≤ max_int64) × (e ≤ max_int64)
in_range i e q h = ground arith

rates_fit :
    ⦃net : NetText⦄ (p : Policy)
    → validate ⦃net = net⦄ p ≡ ok tt
    → (p.ingress_rate_limit_bps ≤ max_int64) × (p.egress_rate_limit_bps ≤ max_int64)
unfolding validate
rates_fit ⦃net⦄ p h =
    let (values, _) = then_ok (validate_values p) (validate_lists ⦃net = net⦄ p) h in
    in_range p.ingress_rate_limit_bps p.egress_rate_limit_bps p.traffic_quota_bytes
      (then_ok _ _ values).1

eightieth_lem :
    (rate : ℕ) → rate ≤ max_int64 → (rate ≤ 80 * eightieth rate) × (eightieth rate < 2 ^ 64)
eightieth_lem rate h = elim (Bool-cases (rate % 80 == 0)) [
  | inl t ↦ rw t (omega (arith, (nat_eq.beq_iff (rate % 80) 0).0 t), omega arith)
  | inr f ↦ rw f (omega arith, omega arith)
]

fastest_lem :
    (i e : ℕ)
    → i ≤ max_int64
    → e ≤ max_int64
    → (i ≤ fastest i e) × (e ≤ fastest i e) × (fastest i e ≤ max_int64)
fastest_lem i e h k = ground arith

-- What the burst is for: a tenth of a second at either rate, and never below the minimum.
pub record IsBurst (p : Policy) (burst : ℕ) : Type 0 where
  pub minimum : minimum_burst ≤ burst
  pub ingress : p.ingress_rate_limit_bps ≤ 80 * burst
  pub egress : p.egress_rate_limit_bps ≤ 80 * burst
  pub fits : burst < 2 ^ 64

raised : ℕ → ℕ
raised b = if ltb b minimum_burst then minimum_burst else b

raised_lem :
    (b n : ℕ)
    → n ≤ 80 * b
    → b < 2 ^ 64
    → (minimum_burst ≤ raised b) × (n ≤ 80 * raised b) × (raised b < 2 ^ 64)
unfolding raised
raised_lem b n h k = ground arith

burst_lem :
    (p : Policy)
    → (p.ingress_rate_limit_bps ≤ max_int64) × (p.egress_rate_limit_bps ≤ max_int64)
    → IsBurst p (burst_bytes p)
unfolding burst_bytes raised
burst_lem p (i, e) =
    let (fi, fe, fm) = fastest_lem p.ingress_rate_limit_bps p.egress_rate_limit_bps i e in
    let (up, small) = eightieth_lem (fastest p.ingress_rate_limit_bps p.egress_rate_limit_bps) fm in
    let (m, l, b) =
      raised_lem (eightieth (fastest p.ingress_rate_limit_bps p.egress_rate_limit_bps)) _ up
        small in
    record { minimum = m; ingress = omega (arith, fi, l); egress = omega (arith, fe, l); fits = b }

valid_unit :
    ⦃net : NetText⦄ (p : Policy) (u : Unit {0})
    → validate ⦃net = net⦄ p ≡ ok u
    → validate ⦃net = net⦄ p ≡ ok tt
valid_unit ⦃net⦄ p tt h = h

-- No rate limit stands for two rates of 0, which limit nothing.
abbrev pub RateOf : Policy → Option RateLimitSpec → Type 0
RateOf p none = (p.ingress_rate_limit_bps ≡ 0) × (p.egress_rate_limit_bps ≡ 0)
RateOf p (some r) =
    (r.ingress_bits_per_second ≡ p.ingress_rate_limit_bps)
    × (r.egress_bits_per_second ≡ p.egress_rate_limit_bps)
    × IsBurst p r.burst_bytes

abbrev pub QuotaOf : Policy → Option TrafficQuotaSpec → Type 0
QuotaOf p none = p.traffic_quota_bytes ≡ 0
QuotaOf p (some q) = (q.bytes ≡ p.traffic_quota_bytes) × (q.policy ≡ pause)

-- The policy of a tenant with a limit.
pub record IsTenantPolicy (p : Policy) (u : UserPolicySpec) : Type 0 where
  pub tenant : u.user_id ≡ p.tenant_id
  pub rate : RateOf p u.rate_limit
  pub quota : QuotaOf p u.traffic_quota
  pub version : u.resource_version ≡ p.resource_version

-- What the nodes get: nothing only from a tenant without limits.
abbrev pub Grants : Policy → Option UserPolicySpec → Type 0
Grants p none =
    (p.ingress_rate_limit_bps ≡ 0) × (p.egress_rate_limit_bps ≡ 0) × (p.traffic_quota_bytes ≡ 0)
Grants p (some u) = IsTenantPolicy p u

rate_limit_of-RateOf : (p : Policy) → IsBurst p (burst_bytes p) → RateOf p (rate_limit_of p)
rate_limit_of-RateOf p h =
    elim (Bool-cases (ltb 0 p.ingress_rate_limit_bps || ltb 0 p.egress_rate_limit_bps)) [
      | inl t ↦ rw t (refl, refl, h)
      | inr f ↦ rw f (ground arith, ground arith)
    ]

traffic_quota_of-QuotaOf : (p : Policy) → QuotaOf p (traffic_quota_of p)
traffic_quota_of-QuotaOf p = elim (Bool-cases (ltb 0 p.traffic_quota_bytes)) [
  | inl t ↦ rw t (refl, refl)
  | inr f ↦ rw f (ground arith)
]

user_policy-Grants :
    (p : Policy) (rate : Option RateLimitSpec) (quota : Option TrafficQuotaSpec)
    → RateOf p rate
    → QuotaOf p quota
    → Grants p (user_policy p rate quota)
user_policy-Grants p none none r q = (r.0, r.1, q)
user_policy-Grants p (some x) quota r q = record {
  tenant = refl;
  rate = r;
  quota = q;
  version = refl;
}
user_policy-Grants p none (some y) r q = record {
  tenant = refl;
  rate = r;
  quota = q;
  version = refl;
}

-- The policy that the nodes get is that of the tenant: with both rates whenever one of them is not 0, and
-- then with a burst of at least 64 KiB that holds a tenth of a second at either rate and fits 64 bits;
-- with the quota, which pauses, whenever it is not 0; and there is none only if the tenant has no limit.
pub data_plane_policy-IsTenantPolicy :
    ⦃net : NetText⦄ (p : Policy) (o : Option UserPolicySpec)
    → data_plane_policy ⦃net = net⦄ p ≡ ok o
    → Grants p o
unfolding data_plane_policy
data_plane_policy-IsTenantPolicy ⦃net⦄ p o h =
    let (_, valid, result) = >>=-eq-ok (validate ⦃net = net⦄ p) _ h in
    let burst = burst_lem p (rates_fit ⦃net = net⦄ p (valid_unit ⦃net = net⦄ p _ valid)) in
    subst (Grants p) (ok-injective result) (
      user_policy-Grants p (rate_limit_of p) (traffic_quota_of p) (rate_limit_of-RateOf p burst)
        (traffic_quota_of-QuotaOf p))

rate_at :
    (p : Policy) (o : Option RateLimitSpec) (r : RateLimitSpec)
    → RateOf p o
    → o ≡ some r
    → (r.ingress_bits_per_second ≡ p.ingress_rate_limit_bps)
      × (r.egress_bits_per_second ≡ p.egress_rate_limit_bps)
rate_at p none r h e = cc
rate_at p (some s) r h e =
    let same = some-injective e in
    (
      subst (λ (x : RateLimitSpec). x.ingress_bits_per_second ≡ p.ingress_rate_limit_bps) same h.0,
      subst (λ (x : RateLimitSpec). x.egress_bits_per_second ≡ p.egress_rate_limit_bps) same h.1,
    )

quota_at :
    (p : Policy) (o : Option TrafficQuotaSpec) (q : TrafficQuotaSpec)
    → QuotaOf p o
    → o ≡ some q
    → q.bytes ≡ p.traffic_quota_bytes
quota_at p none q h e = cc
quota_at p (some s) q h e =
    subst (λ (x : TrafficQuotaSpec). x.bytes ≡ p.traffic_quota_bytes) (some-injective e) h.0

-- An authorised forward asks for no more than the nodes of its tenant grant the tenant as a whole,
-- where they limit a rate or a quota.
pub authorize_forward-within_tenant :
    ⦃net : NetText⦄ (p : Policy) (u : UserPolicySpec) (f : ForwardSpec) (count : ℕ)
    (tenant : Option ℕ) (now : ℕ)
    → authorize_forward ⦃net = net⦄ p f count tenant now ≡ ok tt
    → data_plane_policy ⦃net = net⦄ p ≡ ok (some u)
    → (u.user_id ≡ f.user_id)
      × ((whole part : RateLimitSpec)
          → u.rate_limit ≡ some whole
          → f.rate_limit ≡ some part
          → (whole.ingress_bits_per_second ≢ 0
              → part.ingress_bits_per_second ≤ whole.ingress_bits_per_second)
            × (whole.egress_bits_per_second ≢ 0
                → part.egress_bits_per_second ≤ whole.egress_bits_per_second))
      × ((whole part : TrafficQuotaSpec)
          → u.traffic_quota ≡ some whole
          → f.traffic_quota ≡ some part
          → whole.bytes ≢ 0
          → part.bytes ≤ whole.bytes)
authorize_forward-within_tenant ⦃net⦄ p u f count tenant now a d =
    let within = authorize_forward-IsWithinPolicy ⦃net = net⦄ p f count tenant now a in
    let of_tenant = data_plane_policy-IsTenantPolicy ⦃net = net⦄ p (some u) d in
    (
      of_tenant.tenant ∙ sym within.owner,
      λ whole part w q.
          let (i, o) = rate_at p u.rate_limit whole of_tenant.rate w in
          (
            λ n.
                subst (λ x. part.ingress_bits_per_second ≤ x) (sym i)
                  (within.upload part q (λ z. n (i ∙ z))),
            λ n.
                subst (λ x. part.egress_bits_per_second ≤ x) (sym o)
                  (within.download part q (λ z. n (o ∙ z))),
          ),
      λ whole part w q n.
          let b = quota_at p u.traffic_quota whole of_tenant.quota w in
          subst (λ x. part.bytes ≤ x) (sym b) (within.quota part q (λ z. n (b ∙ z))),
    )
