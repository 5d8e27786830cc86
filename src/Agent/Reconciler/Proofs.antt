-- ===== src/Agent/Reconciler/Proofs.antt =====
-- What an incoming generation must satisfy, and what it leads to (internal/agent/reconciler.go).
pub mod Entry
pub mod Resume
pub mod Grows
pub mod Steps
pub mod Monotone
use l4way.Prelude.{
  ℕ, ◌≡◌, ◌⊎◌, ◌↔◌, ◌<◌, inl, inr, refl, sym, subst, arith, String, Bool, true, false, not, ◌&&◌,
  ◌==◌, string_eq, nat_eq, ltb, Bool-cases, Option, none, some, Result, ok, err, then_ok, reject_if,
  reject_if-ok, if◌then◌else◌, ◌>>◌ as both,
}
use l4way.Spec.{DesiredState}
use l4way.Agent.{Snapshot, StateRecord, check_order, older_pending, other_node, pending_conflict}
use l4way.Agent.Exec.{Failure, node_identity, generation_conflict, stale_generation}
use l4way.Agent.Machine.Durable.{Later}
use l4way.Agent.Reconciler.{
  expected_node, check_generation, validate_incoming_generation, is_version, fresh_snapshot,
  known_or, target_of,
}

-- A generation with its checksum may follow a snapshot.
abbrev pub Follows : Option Snapshot → ℕ → String → Type 0
Follows none generation sum = Unit
Follows (some s) generation sum =
    (s.desired.generation < generation) ⊎ ((s.desired.generation ≡ generation) × (s.checksum ≡ sum))

check_generation_iff :
    (o : Option Snapshot) (generation : ℕ) (sum : String)
    → (check_generation o generation sum ≡ ok tt) ↔ Follows o generation sum
check_generation_iff none generation sum = (λ h. tt, λ h. refl)
check_generation_iff (some s) generation sum = ground (arith, string_eq.beq_iff sum s.checksum)

both_iff : (m k : Result Failure (Unit {0})) → (both m k ≡ ok tt) ↔ ((m ≡ ok tt) × (k ≡ ok tt))
both_iff m k = (then_ok m k, λ h. rw h.0 h.1)

reject_if_iff : (b : Bool) (e : Failure) → (reject_if b e ≡ ok tt) ↔ (b ≡ false)
reject_if_iff true e = (λ h. cc, λ h. cc)
reject_if_iff false e = (λ h. refl, λ h. refl)

-- A state is admitted exactly when no other node's state is recorded, and its generation is later than
-- the applied one and the pending one, or is theirs with the same checksum.
pub validate_incoming_generation_lem :
    (r : StateRecord) (node_id : String) (generation : ℕ) (sum : String)
    → (validate_incoming_generation r node_id generation sum ≡ ok tt) ↔ (
        ((expected_node r.applied r.pending ≡ "") ⊎ (node_id ≡ expected_node r.applied r.pending))
        × Follows r.applied generation sum
        × Follows r.pending generation sum)
unfolding validate_incoming_generation
validate_incoming_generation_lem r node_id generation sum =
    let expected = expected_node r.applied r.pending in
    let node = reject_if_iff (not (expected == "") && not (node_id == expected)) node_identity in
    let applied = check_generation_iff r.applied generation sum in
    let pending = check_generation_iff r.pending generation sum in
    let outer =
      both_iff (reject_if (not (expected == "") && not (node_id == expected)) node_identity) (
        both (check_generation r.applied generation sum)
          (check_generation r.pending generation sum)) in
    let inner =
      both_iff (check_generation r.applied generation sum)
        (check_generation r.pending generation sum) in
    (
      λ h.
          let (a, rest) = outer.0 h in
          let (b, c) = inner.0 rest in (same_node expected (node.0 a), applied.0 b, pending.0 c),
      λ h. outer.1 (node.1 (no_other expected h.0), inner.1 (applied.1 h.1, pending.1 h.2)),
    )
  where
    same_node :
        (expected : String)
        → (not (expected == "") && not (node_id == expected)) ≡ false
        → (expected ≡ "") ⊎ (node_id ≡ expected)
    same_node expected h =
        ground (arith, string_eq.beq_iff expected "", string_eq.beq_iff node_id expected)

    no_other :
        (expected : String)
        → (expected ≡ "") ⊎ (node_id ≡ expected)
        → (not (expected == "") && not (node_id == expected)) ≡ false
    no_other expected h =
        ground (arith, string_eq.beq_iff expected "", string_eq.beq_iff node_id expected)

-- A snapshot of a generation with its checksum.
pub record Carries (generation : ℕ) (sum : String) (s : Snapshot) : Type 0 where
  pub generation_is : s.desired.generation ≡ generation
  pub checksum_is : s.checksum ≡ sum

known_or-Carries :
    (o : Option Snapshot) (desired : DesiredState) (sum : String) (other : Snapshot)
    → Carries desired.generation sum other
    → Carries desired.generation sum (known_or o desired sum other)
known_or-Carries none desired sum other c = c
known_or-Carries (some s) desired sum other c = elim (Bool-cases (is_version desired sum s)) [
  | inl t ↦ rw t (record {
    generation_is = ground arith;
    checksum_is = ground (arith, string_eq.beq_iff s.checksum sum);
  })
  | inr f ↦ rw f c
]

-- The target is the version that was asked for, wherever it comes from.
pub target_of-Carries :
    (r : StateRecord) (desired : DesiredState) (sum : String) (now : ℕ)
    → Carries desired.generation sum (target_of r desired sum now)
unfolding target_of
target_of-Carries r desired sum now = known_or-Carries r.pending desired sum _ (
    known_or-Carries r.applied desired sum (fresh_snapshot desired sum now)
      (record { generation_is = refl; checksum_is = refl }))

pub Later-of-Carries :
    (o : Option Snapshot) (generation : ℕ) (sum : String) (s : Snapshot)
    → Follows o generation sum
    → Carries generation sum s
    → Later o (some s)
Later-of-Carries none generation sum s f c = tt
Later-of-Carries (some a) generation sum s f c = rw (c.generation_is, c.checksum_is) f

-- The pending snapshot of a valid record may follow the applied one.
pub Later-of-order :
    (a : Option Snapshot) (s : Snapshot) → check_order a (some s) ≡ ok tt → Later a (some s)
unfolding check_order
Later-of-order none s h = tt
Later-of-order (some a) s h =
    let (first, rest) =
      then_ok (reject_if (ltb s.desired.generation a.desired.generation) older_pending) _ h in
    let (_, last) =
      then_ok (reject_if (not (s.desired.node_id == a.desired.node_id)) other_node) _ rest in
    let p = reject_if-ok _ older_pending first in
    let q = reject_if-ok _ pending_conflict last in
    ground (arith, string_eq.beq_iff s.checksum a.checksum)
