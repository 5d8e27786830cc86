-- ===== src/Rollout/States.antt =====
-- internal/cluster/rollout.go: maps from nodes to desired states, and what changes between two.
use l4way.Prelude.{
  ◌≡◌, refl, ◌∙◌, sym, inl, inr, String, Bool, false, not, ◌&&◌, ◌||◌, Option, none, some, List, [],
  ◌∷◌, ◌++◌, map, subst, ◌==◌, string_eq, nat_eq, if◌then◌else◌, get_or_default, is_some, any, all,
  keep, lookup, insert, lookup-insert, keys, arith, Bool-cases, holds, str_lt, length,
}
use l4way.Prelude.Sort.{sort_by}
use l4way.Net.{PrefixText}
use l4way.Spec.{
  ForwardSpec, UserPolicySpec, DesiredState, DesiredState-discrete, ForwardSpec-discrete,
  current_schema_version,
}
use l4way.Spec.Canonical.{canonical}

abbrev pub StateMap : Type 0
StateMap = List (String × DesiredState)

-- What a missing key reads as.
abbrev pub zero_state : DesiredState
zero_state = record {
  schema_version = 0;
  node_id = "";
  generation = 0;
  management_domain = "";
  service_cidrs = [];
  fabric_links = [];
  health_checks = [];
  user_policies = [];
  protocol_blocks = none;
  forwards = [];
}

abbrev pub state_of : StateMap → String → DesiredState
state_of states id = get_or_default zero_state (lookup id states)

-- emptyStageState
abbrev pub empty_stage_state : String → DesiredState
empty_stage_state node_id = record zero_state {
  schema_version = current_schema_version;
  node_id = node_id;
  generation = 1;
}

module _ ⦃names : PrefixText⦄ where
  -- canonicalStageState
  unfoldable pub canonical_stage_state : DesiredState → String → DesiredState
  canonical_stage_state state node_id = canonical ⦃names = names⦄ (record state {
    node_id = node_id;
    generation = 1;
    schema_version =
        if state.schema_version == 0 then current_schema_version else state.schema_version;
  })

  -- cloneStateMap
  unfoldable pub clone_state_map : StateMap → StateMap
  clone_state_map [] = []
  clone_state_map ((id, state) ∷ states) =
      (id, canonical_stage_state state id) ∷ clone_state_map states

  -- The two loops of `completeStateMap`.
  unfoldable pub with_empty : StateMap → StateMap → StateMap
  with_empty [] result = result
  with_empty ((id, _) ∷ states) result = with_empty states (insert id (empty_stage_state id) result)

  unfoldable pub with_states : StateMap → StateMap → StateMap
  with_states [] result = result
  with_states ((id, state) ∷ states) result =
      with_states states (insert id (canonical_stage_state state id) result)

  -- completeStateMap
  unfoldable pub complete_state_map : StateMap → StateMap → StateMap
  unfolding with_empty with_states
  complete_state_map primary secondary = with_states primary (with_empty secondary [])

  -- The closure `normalize` of `desiredStatesEqual`.
  unfoldable pub normalize : DesiredState → DesiredState
  normalize state =
      let s = canonical_stage_state state state.node_id in
      record s {
        user_policies =
            map (λ (p : UserPolicySpec). record p { traffic_class_id = 0 }) s.user_policies;
        forwards = map (λ (f : ForwardSpec). record f { traffic_class_id = 0 }) s.forwards;
      }

  -- desiredStatesEqual
  unfoldable pub desired_states_equal : DesiredState → DesiredState → Bool
  desired_states_equal left right = holds (DesiredState-discrete (normalize left) (normalize right))

  abbrev pub next_state : StateMap → String → DesiredState
  next_state next id = get_or_default (empty_stage_state id) (lookup id next)

  -- The loop of `changedStates` over the identifiers of both maps.
  unfoldable pub changed_among : StateMap → StateMap → List String → StateMap
  changed_among current next [] = []
  changed_among current next (id ∷ ids) =
      let rest = changed_among current next ids in
      if desired_states_equal (state_of current id) (next_state next id)
      then rest
      else insert id (canonical_stage_state (next_state next id) id) rest

  -- changedStates
  unfoldable pub changed_states : StateMap → StateMap → StateMap
  unfolding changed_among
  changed_states current next = changed_among current next (keys current ++ keys next)

  step_here :
      (same : String → Bool) (value : String → DesiredState) (rest : StateMap) (found : Bool)
      (id : String)
      → lookup id rest ≡ (if found && not (same id) then some (value id) else none)
      → lookup id (if same id then rest else insert id (value id) rest)
        ≡ (if ((id == id) || found) && not (same id) then some (value id) else none)
  step_here same value rest found id h =
      ground (arith, string_eq.beq_iff id id, lookup-insert id id (value id) rest, h)

  step :
      (same : String → Bool) (value : String → DesiredState) (rest : StateMap) (found : Bool)
      (id j : String)
      → lookup id rest ≡ (if found && not (same id) then some (value id) else none)
      → lookup id (if same j then rest else insert j (value j) rest)
        ≡ (if ((j == id) || found) && not (same id) then some (value id) else none)
  step same value rest found id j h = elim (Bool-cases (j == id)) [
    | inl t ↦
        subst
          (λ i.
            lookup id (if same i then rest else insert i (value i) rest)
            ≡ (if ((i == id) || found) && not (same id) then some (value id) else none))
          (sym ((string_eq.beq_iff j id).0 t)) (step_here same value rest found id h)
    | inr f ↦ elim (Bool-cases (same j)) [
      | inl t ↦ rw (t, f) h
      | inr n ↦ rw (n, f) (rw (lookup-insert j id (value j) rest, f) h)
    ]
  ]

  lookup-changed_among :
      (current next : StateMap) (ids : List String) (id : String)
      → lookup id (changed_among current next ids) ≡ (
          if any (λ j. j == id) ids
            && not (desired_states_equal (state_of current id) (next_state next id))
          then some (canonical_stage_state (next_state next id) id)
          else none)
  unfolding changed_among lookup
  lookup-changed_among current next [] id = refl
  lookup-changed_among current next (j ∷ ids) id =
      step (λ i. desired_states_equal (state_of current i) (next_state next i))
        (λ i. canonical_stage_state (next_state next i) i) (changed_among current next ids)
        (any (λ i. i == id) ids) id j (lookup-changed_among current next ids id)

  any_key : (id : String) (m : StateMap) → any (λ j. j == id) (keys m) ≡ is_some (lookup id m)
  unfolding keys lookup
  any_key id [] = refl
  any_key id ((j, v) ∷ m) = elim (Bool-cases (j == id)) [
    | inl t ↦ rw t
    | inr f ↦ rw f (any_key id m)
  ]

  any-append :
      (id : String) (xs ys : List String)
      → any (λ j. j == id) (xs ++ ys) ≡ (any (λ j. j == id) xs || any (λ j. j == id) ys)
  any-append id [] ys = refl
  any-append id (x ∷ xs) ys = elim (Bool-cases (x == id)) [
    | inl t ↦ rw t
    | inr f ↦ rw f (any-append id xs ys)
  ]

  any-keys :
      (id : String) (current next : StateMap)
      → any (λ j. j == id) (keys current ++ keys next)
        ≡ (is_some (lookup id current) || is_some (lookup id next))
  any-keys id current next =
      any-append id (keys current) (keys next) ∙ rw (any_key id current, any_key id next)

  -- The stage holds exactly the nodes of either map whose state changes, each with the canonical form
  -- of its next state, which is the empty one where the node is left out.
  pub lookup-changed_states :
      (current next : StateMap) (id : String)
      → lookup id (changed_states current next) ≡ (
          if (is_some (lookup id current) || is_some (lookup id next))
            && not (desired_states_equal (state_of current id) (next_state next id))
          then some (canonical_stage_state (next_state next id) id)
          else none)
  unfolding changed_states
  lookup-changed_states current next id =
      rw
        (lookup-changed_among current next (keys current ++ keys next) id, any-keys id current next)

-- The last forward of the list with an identifier.
unfoldable pub last_forward : String → List ForwardSpec → Option ForwardSpec
last_forward id [] = none
last_forward id (f ∷ fs) = elim (last_forward id fs) [
  | some g ↦ some g
  | none ↦ if f.id == id then some f else none
]

-- indexForwards(states)[id]: the nodes that hold the forward.
unfoldable pub locations : String → StateMap → List (String × ForwardSpec)
unfolding last_forward
locations id [] = []
locations id ((node_id, state) ∷ states) = elim (last_forward id state.forwards) [
  | none ↦ locations id states
  | some f ↦ (node_id, f) ∷ locations id states
]

-- The keys of `indexForwards(states)`.
unfoldable pub forward_ids : StateMap → List String
forward_ids [] = []
forward_ids ((_, state) ∷ states) =
    map (λ (f : ForwardSpec). f.id) state.forwards ++ forward_ids states

abbrev pub unclassed : ForwardSpec → ForwardSpec
unclassed f = record f { traffic_class_id = 0 }

abbrev pub same_forward : ForwardSpec → Option ForwardSpec → Bool
same_forward f none = false
same_forward f (some g) = holds (ForwardSpec-discrete (unclassed f) (unclassed g))

-- forwardLocationsEqual
unfoldable pub forward_locations_equal :
    List (String × ForwardSpec) → List (String × ForwardSpec) → Bool
forward_locations_equal left right =
    length left == length right && all (λ p. same_forward p.1 (lookup p.0 right)) left

-- Each identifier once.
unfoldable pub dedupe : List String → List String
dedupe [] = []
dedupe (id ∷ ids) = let rest = dedupe ids in if any (λ j. j == id) rest then rest else id ∷ rest

-- changedForwardIDs
unfoldable pub changed_forward_ids : StateMap → StateMap → List String
unfolding locations forward_ids forward_locations_equal dedupe
changed_forward_ids current final = sort_by str_lt (
    keep (λ id. not (forward_locations_equal (locations id current) (locations id final)))
      (dedupe (forward_ids current ++ forward_ids final)))
