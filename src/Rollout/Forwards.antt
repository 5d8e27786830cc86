-- ===== src/Rollout/Forwards.antt =====
-- internal/cluster/rollout.go: replacing and removing a forward in the list of a node.
use l4way.Prelude.{
  ◌≡◌, refl, ap, inl, inr, String, Bool, true, false, List, [], ◌∷◌, ◌==◌, string_eq, if◌then◌else◌,
  Bool-cases, keep, not,
}
use l4way.Spec.{ForwardSpec}

-- The loop of `upsertForward`, with its flag `replaced`, and what follows it.
unfoldable pub upsert_loop : Bool → List ForwardSpec → ForwardSpec → List ForwardSpec
upsert_loop true [] target = []
upsert_loop false [] target = target ∷ []
upsert_loop replaced (forward ∷ forwards) target =
    let first = upsert_loop true forwards target in
    let rest = upsert_loop replaced forwards target in
    if forward.id == target.id then (if replaced then first else target ∷ first) else forward ∷ rest

-- upsertForward
unfoldable pub upsert_forward : List ForwardSpec → ForwardSpec → List ForwardSpec
unfolding upsert_loop
upsert_forward = upsert_loop false

-- removeForward
unfoldable pub remove_forward : List ForwardSpec → String → List ForwardSpec
remove_forward forwards id = keep (λ f. not (f.id == id)) forwards

-- The forwards with an identifier.
abbrev pub with_id : String → List ForwardSpec → List ForwardSpec
with_id id = keep (λ f. f.id == id)

loop-with_id :
    (b : Bool) (fs : List ForwardSpec) (t : ForwardSpec)
    → with_id t.id (upsert_loop b fs t) ≡ (if b then [] else t ∷ [])
unfolding upsert_loop
loop-with_id true [] t = refl
loop-with_id false [] t = rw ((string_eq.beq_iff t.id t.id).1 refl)
loop-with_id true (f ∷ fs) t = elim (Bool-cases (f.id == t.id)) [
  | inl e ↦ rw e (loop-with_id true fs t)
  | inr n ↦ rw n (rw n (loop-with_id true fs t))
]
loop-with_id false (f ∷ fs) t = elim (Bool-cases (f.id == t.id)) [
  | inl e ↦ rw e (
      rw ((string_eq.beq_iff t.id t.id).1 refl)
        (ap (λ (l : List ForwardSpec). t ∷ l) (loop-with_id true fs t)))
  | inr n ↦ rw n (rw n (loop-with_id false fs t))
]

loop-remove :
    (b : Bool) (fs : List ForwardSpec) (t : ForwardSpec)
    → remove_forward (upsert_loop b fs t) t.id ≡ remove_forward fs t.id
unfolding upsert_loop remove_forward
loop-remove true [] t = refl
loop-remove false [] t = rw ((string_eq.beq_iff t.id t.id).1 refl)
loop-remove true (f ∷ fs) t = elim (Bool-cases (f.id == t.id)) [
  | inl e ↦ rw e (loop-remove true fs t)
  | inr n ↦ rw n (rw n (ap (λ (l : List ForwardSpec). f ∷ l) (loop-remove true fs t)))
]
loop-remove false (f ∷ fs) t = elim (Bool-cases (f.id == t.id)) [
  | inl e ↦ rw e (rw ((string_eq.beq_iff t.id t.id).1 refl) (loop-remove true fs t))
  | inr n ↦ rw n (rw n (ap (λ (l : List ForwardSpec). f ∷ l) (loop-remove false fs t)))
]

none_left : (fs : List ForwardSpec) (id : String) → with_id id (remove_forward fs id) ≡ []
unfolding remove_forward
none_left [] id = refl
none_left (f ∷ fs) id = elim (Bool-cases (f.id == id)) [
  | inl e ↦ rw e (none_left fs id)
  | inr n ↦ rw n (rw n (none_left fs id))
]

-- After an upsert the forward stands in the list exactly once, as given, and the others are those of
-- before in their order; and removing it then is the same as removing it at once.
pub upsert_forward_lem :
    (fs : List ForwardSpec) (t : ForwardSpec)
    → (with_id t.id (upsert_forward fs t) ≡ t ∷ [])
      × (remove_forward (upsert_forward fs t) t.id ≡ remove_forward fs t.id)
      × (with_id t.id (remove_forward fs t.id) ≡ [])
unfolding upsert_forward
upsert_forward_lem fs t = (loop-with_id false fs t, loop-remove false fs t, none_left fs t.id)
