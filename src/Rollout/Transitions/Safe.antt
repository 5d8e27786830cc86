-- ===== src/Rollout/Transitions/Safe.antt =====
-- What the checks of a rollout rule out (internal/cluster/rollout.go).
use l4way.Prelude.{
  some-injective, ◌≡◌, ◌≢◌, ◌↔◌, refl, ap, ◌∙◌, sym, inl, inr, String, Bool, true, false, not, ◌&&◌,
  some, List, [], ◌∷◌, ◌++◌, map, ◌==◌, string_eq, any, In, In-append, lookup, holds_iff, ok,
  reject_if, >>=-eq-ok, arith, Bool-cases, Option-cases, any-of-In, subst, any-In,
}
use l4way.Spec.{ForwardSpec, DesiredState, FabricLinkSpec, FabricLinkSpec-discrete, is_via_exit}
use l4way.Rollout.States.{StateMap, state_of, locations, forward_ids, dedupe, last_forward}
use l4way.Rollout.Transitions.{
  Check, each, ingress, exit, Placement, forward_node_role, role_eqb-eq, changes_role,
  moves_ingress, placement_from_locations, validate_forward_roles, validate_role_transitions,
  carries, before_link, changes_link, validate_node_links, validate_fabric_transitions,
  role_changes, link_changes,
}

each-ok :
    {A : Type 0} (f : A → Check) (xs : List A) → each f xs ≡ ok tt → (x : A) → In x xs → f x ≡ ok tt
each-ok f [] h x m = absurd m
each-ok f (y ∷ ys) h x m =
    let (_, first, rest) = >>=-eq-ok (f y) (λ _. each f ys) h in
    elim m [ inl q ↦ ap f q ∙ cc first | inr r ↦ each-ok f ys rest x r ]

not-rejected : {E : Type 0} (b : Bool) (e : E) → reject_if b e ≡ ok tt → b ≡ false
not-rejected true e h = cc
not-rejected false e h = refl

In-dedupe : (id : String) (ids : List String) → In id ids → In id (dedupe ids)
unfolding dedupe
In-dedupe id [] m = m
In-dedupe id (j ∷ ids) m = elim (Bool-cases (any (λ k. k == j) (dedupe ids))) [
  | inl t ↦ rw t (elim m [
    | inl q ↦
        let (k, k_in, same) = any-In (λ k. k == j) (dedupe ids) t in
        subst (λ i. In i (dedupe ids)) ((string_eq.beq_iff k j).0 same ∙ sym q) k_in
    | inr r ↦ In-dedupe id ids r
  ])
  | inr f ↦ rw f (elim m [ inl q ↦ inl q | inr r ↦ inr (In-dedupe id ids r) ])
]

last_forward-id :
    (id : String) (fs : List ForwardSpec) (f : ForwardSpec)
    → last_forward id fs ≡ some f
    → In id (map (λ (g : ForwardSpec). g.id) fs)
unfolding last_forward
last_forward-id id [] f h = cc
last_forward-id id (g ∷ gs) f h = elim (Option-cases (last_forward id gs)) [
  | inl e ↦ elim (Bool-cases (g.id == id)) [
    | inl t ↦ inl (sym ((string_eq.beq_iff g.id id).0 t))
    | inr n ↦ absurd (cc (rw (e, n) at h))
  ]
  | inr (k, e) ↦ inr (last_forward-id id gs k e)
]

In-locations :
    (id : String) (states : StateMap) (node : String) (f : ForwardSpec)
    → In (node, f) (locations id states)
    → In id (forward_ids states)
unfolding locations forward_ids
In-locations id [] node f m = absurd m
In-locations id ((n, state) ∷ states) node f m =
    (In-append id (map (λ (g : ForwardSpec). g.id) state.forwards) (forward_ids states)).1
      (elim (Option-cases (last_forward id state.forwards)) [
        | inl e ↦ inr (In-locations id states node f (rw (e, In) at m))
        | inr (k, e) ↦ inl (last_forward-id id state.forwards k e)
      ])

role_at_ingress :
    (f : ForwardSpec) (node : String)
    → (forward_node_role f node ≡ ingress) ↔ (node ≡ f.ingress_node_id)
unfolding forward_node_role
role_at_ingress f node =
    ground (arith, string_eq.beq_iff node f.ingress_node_id, string_eq.beq_iff node f.exit_node_id)

role_at_exit :
    (f : ForwardSpec) (node : String)
    → node ≢ f.ingress_node_id
    → (forward_node_role f node ≡ exit)
      ↔ ((is_via_exit f.path_mode ≡ true) × (node ≡ f.exit_node_id))
unfolding forward_node_role
role_at_exit f node n =
    ground (arith, string_eq.beq_iff node f.ingress_node_id, string_eq.beq_iff node f.exit_node_id)

-- The node is the ingress of both forwards or of neither, and then the exit of both or of neither.
pub record SameEnds (node : String) (before after : ForwardSpec) : Type 0 where
  pub ingresses : (node ≡ before.ingress_node_id) ↔ (node ≡ after.ingress_node_id)
  pub exits :
      node ≢ before.ingress_node_id
      → ((is_via_exit before.path_mode ≡ true) × (node ≡ before.exit_node_id))
        ↔ ((is_via_exit after.path_mode ≡ true) × (node ≡ after.exit_node_id))

kept_role :
    (before after : ForwardSpec) (node : String)
    → changes_role node before (some after) ≡ false
    → forward_node_role before node ≡ forward_node_role after node
kept_role before after node h =
    role_eqb-eq (forward_node_role before node) (forward_node_role after node) (ground arith)

role-SameEnds :
    (before after : ForwardSpec) (node : String)
    → forward_node_role before node ≡ forward_node_role after node
    → SameEnds node before after
role-SameEnds before after node e =
    let (b, b') = role_at_ingress before node in
    let (a, a') = role_at_ingress after node in
    record {
      ingresses = (λ x. a (sym e ∙ b' x), λ x. b (e ∙ a' x));
      exits = λ n.
          let (c, c') = role_at_exit before node n in
          let (d, d') = role_at_exit after node (λ x. n (b (e ∙ a' x))) in
          (λ x. d (sym e ∙ c' x), λ x. c (e ∙ d' x));
    }

-- The copies of a forward have the same ends, as those of a compiled plan have.
pub AreOneForward : List (String × ForwardSpec) → Type 0
AreOneForward copies =
    (m n : String) (f g : ForwardSpec)
    → In (m, f) copies
    → In (n, g) copies
    → (f.ingress_node_id ≡ g.ingress_node_id)
      × (f.exit_node_id ≡ g.exit_node_id)
      × (f.path_mode ≡ g.path_mode)

-- The placement is that of any copy.
placement-of :
    (copies : List (String × ForwardSpec)) (node : String) (f : ForwardSpec)
    → AreOneForward copies
    → In (node, f) copies
    → let p = placement_from_locations copies in
      (p.ingress_node ≡ f.ingress_node_id)
      × (p.exit_node ≡ f.exit_node_id)
      × (p.via ≡ is_via_exit f.path_mode)
unfolding placement_from_locations AreOneForward
placement-of [] node f one m = absurd m
placement-of ((k, g) ∷ copies) node f one m =
    let (i, e, p) = one k node g f (inl refl) m in (i, e, ap is_via_exit p)

same_ingress :
    (p q : Placement)
    → moves_ingress p q ≡ false
    → p.via ≡ true
    → q.via ≡ true
    → p.exit_node ≡ q.exit_node
    → p.ingress_node ≡ q.ingress_node
same_ingress p q h v w e = ground (
  arith,
  string_eq.beq_iff p.exit_node q.exit_node,
  string_eq.beq_iff p.ingress_node q.ingress_node,
)

-- Where the check passes, a node that holds a forward before and after is its ingress in both or in
-- neither, and otherwise its exit in both or in neither. Where the copies of the forward agree on its ends,
-- before and after, and it is on a path via the same exit before and after, its ingress is the same.
pub validate_role_transitions_lem :
    (current final : StateMap)
    → validate_role_transitions current final ≡ ok tt
    → (id node : String) (before : ForwardSpec) → In (node, before) (locations id current)
    → ((after : ForwardSpec)
        → lookup node (locations id final) ≡ some after
        → SameEnds node before after)
      × (AreOneForward (locations id current)
          → AreOneForward (locations id final)
          → (other : String) (after : ForwardSpec) → In (other, after) (locations id final)
          → is_via_exit before.path_mode ≡ true
          → is_via_exit after.path_mode ≡ true
          → before.exit_node_id ≡ after.exit_node_id
          → before.ingress_node_id ≡ after.ingress_node_id)
unfolding validate_role_transitions validate_forward_roles
validate_role_transitions_lem current final h id node before m =
    let listed = In-dedupe id (forward_ids current) (In-locations id current node before m) in
    let checked =
      each-ok (validate_forward_roles current final) (dedupe (forward_ids current)) h id listed in
    let roles : String × ForwardSpec → Check = λ p.
      reject_if (changes_role p.0 p.1 (lookup p.0 (locations id final))) (role_changes id p.0) in
    let (_, nodes, placement) = >>=-eq-ok (each roles (locations id current)) _ checked in
    let kept = not-rejected _ _ (each-ok roles (locations id current) nodes (node, before) m) in
    (
      λ after e. role-SameEnds before after node (kept_role before after node (rw e at kept)),
      λ one two other after n v w e.
          let (i, x, p) = placement-of (locations id current) node before one m in
          let (j, y, q) = placement-of (locations id final) other after two n in
          sym i
          ∙ same_ingress (placement_from_locations (locations id current))
              (placement_from_locations (locations id final)) (not-rejected _ _ placement) (p ∙ v)
              (q ∙ w) (x ∙ e ∙ sym y)
          ∙ j,
    )

carried :
    (f : ForwardSpec) (id : String)
    → f.fabric_link_id ≡ id
    → id ≢ ""
    → not (f.fabric_link_id == "") && f.fabric_link_id == id ≡ true
carried f id q n =
    ground (arith, string_eq.beq_iff f.fabric_link_id "", string_eq.beq_iff f.fabric_link_id id)

unchanged : (a b : FabricLinkSpec) → changes_link (some a) b && true ≡ false → a ≡ b
unchanged a b h = (holds_iff (FabricLinkSpec-discrete a b)).0 (ground arith)

before_link_sound :
    (id : String) (ls : List FabricLinkSpec) (q : FabricLinkSpec)
    → before_link id ls ≡ some q
    → In q ls × (q.id ≡ id)
unfolding before_link
before_link_sound id [] q h = cc
before_link_sound id (l ∷ ls) q h = elim (Option-cases (before_link id ls)) [
  | inr (k, e) ↦
      let (m, p) = before_link_sound id ls q (e ∙ (rw (e, before_link) at h)) in (inr m, p)
  | inl e ↦ elim (Bool-cases (l.id == id)) [
    | inl t ↦
        let same : l ≡ q = some-injective (rw (e, t, before_link) at h) in
        (
          inl (sym same),
          ap (λ (k : FabricLinkSpec). k.id) (sym same) ∙ (string_eq.beq_iff l.id id).0 t,
        )
    | inr f ↦ absurd (cc (rw (e, f, before_link) at h))
  ]
]

before_link_found :
    (id : String) (ls : List FabricLinkSpec) (p : FabricLinkSpec)
    → In p ls
    → p.id ≡ id
    → (q : FabricLinkSpec) × (before_link id ls ≡ some q)
unfolding before_link
before_link_found id [] p m h = absurd m
before_link_found id (l ∷ ls) p m h = elim (Option-cases (before_link id ls)) [
  | inr (k, e) ↦ (k, rw e refl)
  | inl e ↦ elim m [
    | inl same ↦ (
      l,
      rw (e, (string_eq.beq_iff l.id id).1 (ap (λ (k : FabricLinkSpec). k.id) (sym same) ∙ h)) refl,
    )
    | inr rest ↦ let (k, found) = before_link_found id ls p rest h in absurd (cc (found, e))
  ]
]

-- Where the check passes and the links of a node have identifiers of their own, a link that a forward
-- uses, before or after, is the same after as the one of its identifier before.
pub validate_fabric_transitions_lem :
    (current final : StateMap)
    → validate_fabric_transitions current final ≡ ok tt
    → (node : String) (before : DesiredState) → In (node, before) current
    → ((a b : FabricLinkSpec)
        → In a before.fabric_links
        → In b before.fabric_links
        → a.id ≡ b.id
        → a ≡ b)
    → (previous link : FabricLinkSpec) (user : ForwardSpec) → In previous before.fabric_links
    → In link (state_of final node).fabric_links
    → previous.id ≡ link.id
    → In user (before.forwards ++ (state_of final node).forwards)
    → user.fabric_link_id ≡ link.id
    → link.id ≢ ""
    → previous ≡ link
unfolding validate_fabric_transitions validate_node_links
validate_fabric_transitions_lem current final h node before m unique previous link user listed l
      same u q n =
    let change : FabricLinkSpec → Check = λ k.
      reject_if
        (changes_link (before_link k.id before.fabric_links) k
          && carries k.id (before.forwards ++ (state_of final node).forwards))
        (link_changes node k.id) in
    let checked = each-ok (validate_node_links final) current h (node, before) m in
    let kept =
      not-rejected _ _ (each-ok change (state_of final node).fabric_links checked link l) in
    let used : carries link.id (before.forwards ++ (state_of final node).forwards) ≡ true =
      any-of-In _ user _ u (carried user link.id q n) in
    let (found, e) = before_link_found link.id before.fabric_links previous listed same in
    let (found_in, found_id) = before_link_sound link.id before.fabric_links found e in
    unique previous found listed found_in (same ∙ sym found_id)
    ∙ unchanged found link (rw (e, used) at kept)
