-- ===== src/Iam/Authorize/Limits.antt =====
-- The limits that an authorised forward respects (internal/controller/iam/policy.go).
use l4way.Prelude.{
  then_ok, some-injective, ℕ, ◌≤◌, ◌<◌, ◌≡◌, ◌≢◌, refl, ap, ◌∙◌, inl, inr, ◌⊎◌, String, Bool, true,
  false, not, ◌&&◌, ◌||◌, Option, none, some, List, [], ◌∷◌, ltb, leb, ◌==◌, string_eq, nat_eq,
  any-In, In, ok, ◌>>◌, arith, subst, Eq,
}
use l4way.Net.{is4}
use l4way.Spec.{ForwardSpec, PathMode, via_exit, direct, Protocol, RateLimitSpec, TrafficQuotaSpec}
use l4way.Iam.{
  Policy, NetText, Reason, Checked, forbid_if, contains, port_allowed, PortRange, passed,
}
use l4way.Spec.{protocol_eq}
use l4way.Iam.Validate.{validate}
use l4way.Iam.Authorize.{
  authorize_target, authorize_path, authorize_protocols, exceeds, authorize_rate, over_quota,
  authorize_expiry, is_empty, authorize_forward,
}
use l4way.Iam.Authorize.Target.{IsReachable, authorize_target_lem}

pub IsPathAllowed : Policy → PathMode → String → Type 0
IsPathAllowed p mode exit_node_id =
    (mode ≡ direct)
    ⊎ ((mode ≡ via_exit)
        × (p.allow_via_exit ≡ true)
        × (exit_node_id ≢ "")
        × In exit_node_id p.allowed_exit_nodes)

-- What a policy limits, of a forward that is added to `count` others at the time `now`.
pub record IsWithinPolicy ⦃net : NetText⦄ (p : Policy) (f : ForwardSpec) (count : ℕ)
    (tenant : Option ℕ) (now : ℕ) : Type 0 where
  pub owner : f.user_id ≡ p.tenant_id
  pub room : count < p.max_forwards
  pub ingress : In f.ingress_node_id p.allowed_ingress_nodes
  pub path : IsPathAllowed p f.path_mode f.exit_node_id
  pub listen_ipv4 : is4 f.listen.address ≡ true
  pub listen : In (net.addr_text f.listen.address) p.allowed_listen_ips
  pub port :
      (r : PortRange) × In r p.allowed_port_ranges
      × (r.start ≤ f.listen.port)
      × (f.listen.port ≤ r.end)
  pub protocols : (q : Protocol) → In q f.protocols → In q p.allowed_protocols
  pub target : IsReachable ⦃net = net⦄ p f.target.address
  pub upload :
      (r : RateLimitSpec)
      → f.rate_limit ≡ some r
      → p.ingress_rate_limit_bps ≢ 0
      → r.ingress_bits_per_second ≤ p.ingress_rate_limit_bps
  pub download :
      (r : RateLimitSpec)
      → f.rate_limit ≡ some r
      → p.egress_rate_limit_bps ≢ 0
      → r.egress_bits_per_second ≤ p.egress_rate_limit_bps
  pub quota :
      (q : TrafficQuotaSpec)
      → f.traffic_quota ≡ some q
      → p.traffic_quota_bytes ≢ 0
      → q.bytes ≤ p.traffic_quota_bytes
  pub expiry : (t : ℕ) → f.expires_at ≡ some t → now < t
  pub within_tenant : (d : ℕ) → tenant ≡ some d → (t : ℕ) × (f.expires_at ≡ some t) × (t ≤ d)

module _ {A : Type 0} ⦃e : Eq A⦄ where
  contains-In : (xs : List A) (x : A) → contains xs x ≡ true → In x xs
  unfolding contains
  contains-In [] x h = cc
  contains-In (y ∷ ys) x h = ground (arith, e.beq_iff y x, contains-In ys x)

passes :
    (b : Bool) (r : Reason) (k : Checked) → (forbid_if b r >> k) ≡ ok tt → (b ≡ false) × (k ≡ ok tt)
passes true r k h = cc
passes false r k h = (refl, h)

passes_last : (b : Bool) (r : Reason) → forbid_if b r ≡ ok tt → b ≡ false
passes_last true r h = cc
passes_last false r h = refl

then_forbid :
    (m : Checked) (b : Bool) (r : Reason) → (m >> forbid_if b r) ≡ ok tt → (m ≡ ok tt) × (b ≡ false)
then_forbid m b r h =
    let (first, last) = then_ok m (forbid_if b r) h in (first, passes_last b r last)

path_lem :
    (p : Policy) (m : PathMode) (n : String) → authorize_path p m n ≡ ok tt → IsPathAllowed p m n
unfolding IsPathAllowed
path_lem p direct n h = inl refl
path_lem p (PathMode.other s) n h = cc
path_lem p via_exit n h =
    let (a, rest) = passes (not p.allow_via_exit) _ _ h in
    let b : n == "" || not (contains p.allowed_exit_nodes n) ≡ false = passes_last _ _ rest in
    inr (
      refl,
      ground arith,
      ground (arith, string_eq.beq_iff n ""),
      contains-In p.allowed_exit_nodes n (ground arith),
    )

port_lem :
    (rs : List PortRange) (port : ℕ)
    → port_allowed rs port ≡ true
    → (r : PortRange) × In r rs × (r.start ≤ port) × (port ≤ r.end)
unfolding port_allowed
port_lem rs port h =
    let (r, m, q) =
      any-In (λ (r : PortRange). leb r.start port && leb port r.end) rs (ground arith) in
    (r, m, ground arith, ground arith)

protocols_lem :
    (p : Policy) (qs : List Protocol)
    → authorize_protocols p qs ≡ ok tt
    → (q : Protocol) → In q qs
    → In q p.allowed_protocols
protocols_lem p [] h q m = absurd m
protocols_lem p (x ∷ xs) h q m =
    let (first, rest) = passes (not (contains p.allowed_protocols x)) _ _ h in
    elim m [
      | inl e ↦
          contains-In p.allowed_protocols q (ap (contains p.allowed_protocols) e ∙ ground arith)
      | inr r ↦ protocols_lem p xs rest q r
    ]

exceeds_lem : (wanted limit : ℕ) → exceeds wanted limit ≡ false → limit ≢ 0 → wanted ≤ limit
exceeds_lem wanted limit h n = ground arith

rate_lem :
    (p : Policy) (o : Option RateLimitSpec)
    → authorize_rate p o ≡ ok tt
    → (r : RateLimitSpec) → o ≡ some r
    → (p.ingress_rate_limit_bps ≢ 0 → r.ingress_bits_per_second ≤ p.ingress_rate_limit_bps)
      × (p.egress_rate_limit_bps ≢ 0 → r.egress_bits_per_second ≤ p.egress_rate_limit_bps)
rate_lem p none h r e = cc
rate_lem p (some s) h r e =
    let (up, rest) = passes _ _ _ h in
    let down = passes_last _ _ rest in
    subst
      (λ (x : RateLimitSpec).
        (p.ingress_rate_limit_bps ≢ 0 → x.ingress_bits_per_second ≤ p.ingress_rate_limit_bps)
        × (p.egress_rate_limit_bps ≢ 0 → x.egress_bits_per_second ≤ p.egress_rate_limit_bps))
      (some-injective e)
      (exceeds_lem s.ingress_bits_per_second _ up, exceeds_lem s.egress_bits_per_second _ down)

quota_lem :
    (p : Policy) (o : Option TrafficQuotaSpec)
    → over_quota p o ≡ false
    → (q : TrafficQuotaSpec) → o ≡ some q
    → p.traffic_quota_bytes ≢ 0
    → q.bytes ≤ p.traffic_quota_bytes
quota_lem p none h q e n = cc
quota_lem p (some s) h q e n =
    subst (λ (x : TrafficQuotaSpec). x.bytes ≤ p.traffic_quota_bytes) (some-injective e)
      (exceeds_lem s.bytes p.traffic_quota_bytes h n)

expiry_lem : (o : Option ℕ) (now : ℕ) → passed o now ≡ false → (t : ℕ) → o ≡ some t → now < t
expiry_lem none now h t e = cc
expiry_lem (some s) now h t e = subst (λ x. now < x) (some-injective e) (ground arith)

true-is-not-false : ¬ (true ≡ false)
true-is-not-false e = cc e

tenant_lem :
    (o tenant : Option ℕ) (now : ℕ)
    → authorize_expiry o tenant now ≡ ok tt
    → (d : ℕ) → tenant ≡ some d
    → (t : ℕ) × (o ≡ some t) × (t ≤ d)
tenant_lem o none now h d e = cc
tenant_lem none (some c) now h d e =
    absurd (true-is-not-false (passes_last true _ (passes _ _ _ h).1))
tenant_lem (some t) (some c) now h d e =
    let late : ltb c t ≡ false = passes_last _ _ (passes _ _ _ h).1 in
    (t, refl, subst (λ x. t ≤ x) (some-injective e) (ground arith))

-- What the policy authorises respects every limit of the policy, where a limit of 0 on a rate or a
-- quota is none: the tenant, the number of forwards, the assigned nodes, addresses, ports and
-- protocols, the target, the rates, the quota and the expiry, also that of the tenant.
pub authorize_forward-IsWithinPolicy :
    ⦃net : NetText⦄ (p : Policy) (f : ForwardSpec) (count : ℕ) (tenant : Option ℕ) (now : ℕ)
    → authorize_forward ⦃net = net⦄ p f count tenant now ≡ ok tt
    → IsWithinPolicy ⦃net = net⦄ p f count tenant now
unfolding authorize_forward
authorize_forward-IsWithinPolicy ⦃net⦄ p f count tenant now h =
    let (h1, tenant_expiry) = then_ok _ (authorize_expiry f.expires_at tenant now) h in
    let (h2, expiry) = then_forbid _ (passed f.expires_at now) _ h1 in
    let (h3, quota) = then_forbid _ (over_quota p f.traffic_quota) _ h2 in
    let (h4, rate) = then_ok _ (authorize_rate p f.rate_limit) h3 in
    let (h5, target) = then_ok _ (authorize_target ⦃net = net⦄ p f.target.address) h4 in
    let (h6, protocols) = then_ok _ (authorize_protocols p f.protocols) h5 in
    let (h7, _) = then_forbid _ (is_empty f.protocols) _ h6 in
    let (h8, port) = then_forbid _ (not (port_allowed p.allowed_port_ranges f.listen.port)) _ h7 in
    let listen_text = net.addr_text f.listen.address in
    let (h9, listen) =
      then_forbid _ (not (is4 f.listen.address) || not (contains p.allowed_listen_ips listen_text))
        _ h8 in
    let (h10, path) = then_ok _ (authorize_path p f.path_mode f.exit_node_id) h9 in
    let (h11, ingress) =
      then_forbid _ (not (contains p.allowed_ingress_nodes f.ingress_node_id)) _ h10 in
    let (h12, room) = then_forbid _ (p.max_forwards == 0 || leb p.max_forwards count) _ h11 in
    let (_, owner) = then_forbid (validate ⦃net = net⦄ p) (not (f.user_id == p.tenant_id)) _ h12 in
    record {
      owner = (string_eq.beq_iff f.user_id p.tenant_id).0 (ground arith);
      room = ground arith;
      ingress = contains-In p.allowed_ingress_nodes f.ingress_node_id (ground arith);
      path = path_lem p f.path_mode f.exit_node_id path;
      listen_ipv4 = ground arith;
      listen = contains-In p.allowed_listen_ips (net.addr_text f.listen.address) (ground arith);
      port = port_lem p.allowed_port_ranges f.listen.port (ground arith);
      protocols = protocols_lem p f.protocols protocols;
      target = (authorize_target_lem ⦃net = net⦄ p f.target.address).0 target;
      upload = λ r e. (rate_lem p f.rate_limit rate r e).0;
      download = λ r e. (rate_lem p f.rate_limit rate r e).1;
      quota = quota_lem p f.traffic_quota quota;
      expiry = expiry_lem f.expires_at now expiry;
      within_tenant = tenant_lem f.expires_at tenant now tenant_expiry;
    }
