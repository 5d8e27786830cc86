-- ===== src/Spec/Validate/State/Valid.antt =====
-- What a valid desired state satisfies (internal/spec/validate.go).
use l4way.Prelude.{
  ℕ, ◌≡◌, ◌≢◌, inl, inr, refl, ap, ◌∙◌, subst, String, Bool, true, false, not, ◌&&◌, ◌==◌,
  string_eq, nat_eq, Bool-cases, List, [], ◌∷◌, ◌++◌, map, any, All, Fresh, Fresh-append, push,
  none-equal, append-eq-nil, cons_not_nil,
}
use l4way.Net.{Addr, addr_eq, Prefix}
use l4way.Spec.{Protocol, tcp, udp, protocol_eq, FabricLinkSpec, ForwardSpec}
use l4way.Spec.Validate.{issue_if, within, validate_rate_limit, validate_quota}
use l4way.Spec.Validate.Forwards.{
  ListenKey, listen_eq, ForwardOwners, listen_key, check_protocol, check_protocols, check_forward,
  check_forwards, check_lifecycle, check_snat, check_overlaps, check_deadlines, uses_version_two,
}
use l4way.Spec.Validate.Paths.{check_path}

pub issue_if-eq-nil : (b : Bool) (message : String) → issue_if b message ≡ [] → b ≡ false
issue_if-eq-nil true message h = cc
issue_if-eq-nil false message h = refl

check_protocol-eq-nil :
    (key : ListenKey) (seen : List Protocol) (listeners : List ListenKey)
    → (check_protocol key seen listeners).0 ≡ []
    → All (λ l. l ≢ key) listeners × ((check_protocol key seen listeners).1.1 ≡ key ∷ listeners)
unfolding check_protocol
check_protocol-eq-nil key seen listeners h =
    elim (Bool-cases (not (key.protocol == tcp) && not (key.protocol == udp))) [
      | inl t ↦ absurd (cons_not_nil (rw t at h))
      | inr f ↦ elim (Bool-cases (any (λ s. s == key.protocol) seen)) [
        | inl t ↦ absurd (cons_not_nil (rw (f, t) at h))
        | inr g ↦ elim (Bool-cases (any (λ l. l == key) listeners)) [
          | inl t ↦ absurd (cons_not_nil (rw (f, g, t) at h))
          | inr k ↦ (none-equal key listeners k, rw (f, g, k) refl)
        ]
      ]
    ]

-- The loop over the protocols claims every key, or tells of one that is claimed.
check_protocols-Fresh :
    (wanted : List ListenKey) (seen : List Protocol) (listeners : List ListenKey)
    → (check_protocols wanted seen listeners).0 ≡ []
    → Fresh listeners wanted × ((check_protocols wanted seen listeners).1 ≡ push wanted listeners)
unfolding check_protocols
check_protocols-Fresh [] seen listeners h = (tt, refl)
check_protocols-Fresh (key ∷ wanted) seen listeners h =
    let step = check_protocol key seen listeners in
    let (first, rest) = append-eq-nil step.0 _ h in
    let (free, next) = check_protocol-eq-nil key seen listeners first in
    let (fresh, final) = check_protocols-Fresh wanted step.1.0 step.1.1 rest in
    ((free, subst (λ l. Fresh l wanted) next fresh), final ∙ ap (push wanted) next)

-- What the forwards of a node listen on.
abbrev pub listeners_of : String → List ForwardSpec → List ListenKey
listeners_of node_id [] = []
listeners_of node_id (f ∷ fs) = map (listen_key node_id f) f.protocols ++ listeners_of node_id fs

module _ (version : ℕ) (node_id : String) (services : List Prefix)
    (links : List (String × FabricLinkSpec)) where
  -- The parts of the loop's body that are about listeners and paths have no issues when it has none.
  check_forward-eq-nil :
      (f : ForwardSpec) (owners : ForwardOwners)
      → (check_forward version node_id services links f owners).0 ≡ []
      → ((check_protocols (map (listen_key node_id f) f.protocols) [] owners.listeners).0 ≡ [])
        × ((check_path version node_id services links f owners.vips).0 ≡ [])
  unfolding check_forward
  check_forward-eq-nil f owners h =
      let a = append-eq-nil _ (issue_if (version == 1 && uses_version_two f) _) h in
      let b = append-eq-nil _ (check_deadlines f) a.0 in
      let c = append-eq-nil _ (check_overlaps services f) b.0 in
      let d = append-eq-nil _ (within ".traffic_quota" (validate_quota f.traffic_quota)) c.0 in
      let e = append-eq-nil _ (within ".rate_limit" (validate_rate_limit f.rate_limit)) d.0 in
      let g = append-eq-nil _ (check_snat f.snat) e.0 in
      let i = append-eq-nil _ (check_lifecycle f.lifecycle) g.0 in
      let j = append-eq-nil _ (check_path version node_id services links f owners.vips).0 i.0 in
      let k =
        append-eq-nil _
          (check_protocols (map (listen_key node_id f) f.protocols) [] owners.listeners).0 j.0 in
      (k.1, j.1)

  -- The loop over the forwards claims the listeners of all of them, and finds every path sound.
  pub check_forwards-Fresh :
      (fs : List ForwardSpec) (owners : ForwardOwners)
      → (check_forwards version node_id services links fs owners).0 ≡ []
      → Fresh owners.listeners (listeners_of node_id fs)
        × All
            (λ f.
              (vips : List (Addr × String)) × ((check_path version node_id services links f vips).0
                ≡ []))
            fs
  unfolding check_forwards
  check_forwards-Fresh [] owners h = (tt, tt)
  check_forwards-Fresh (f ∷ fs) owners h =
      let step = check_forward version node_id services links f owners in
      let (first, rest) =
        append-eq-nil step.0 (check_forwards version node_id services links fs step.1).0 h in
      let (listening, path) = check_forward-eq-nil f owners first in
      let (fresh, next) =
        check_protocols-Fresh (map (listen_key node_id f) f.protocols) [] owners.listeners
          listening in
      let (others, paths) = check_forwards-Fresh fs step.1 rest in
      (
        Fresh-append (map (listen_key node_id f) f.protocols) (listeners_of node_id fs)
            owners.listeners fresh
            (subst (λ l. Fresh l (listeners_of node_id fs)) (claimed f owners ∙ next) others),
        ((owners.vips, path), paths),
      )
    where
      claimed :
          (f : ForwardSpec) (owners : ForwardOwners)
          → (check_forward version node_id services links f owners).1.listeners
            ≡ (check_protocols (map (listen_key node_id f) f.protocols) [] owners.listeners).1
      claimed f owners = unfold check_forward in refl
