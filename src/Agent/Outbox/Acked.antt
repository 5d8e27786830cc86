-- ===== src/Agent/Outbox/Acked.antt =====
-- What an acknowledgement drops, and what a saved record reads as (internal/agent).
use l4way.Prelude.{
  ℕ, ◌≡◌, ap, String, ◌&&◌, ◌==◌, string_eq, nat_eq, Bool-cases, inl, inr, some, some-injective,
  List, [], ◌∷◌, ◌++◌, All, arith,
}
use l4way.Usage.{Batch}
use l4way.Agent.Outbox.{after_batch}

-- The batch has the epoch and the number.
abbrev pub Matches : String → ℕ → Batch → Type 0
Matches epoch n b = (b.epoch ≡ epoch) × (b.sequence ≡ n)

-- An acknowledgement drops the first batch with its epoch and number and those before it, and no more:
-- those that stay are the batches after it, in their order.
pub after_batch_lem :
    (epoch : String) (n : ℕ) (bs rest : List Batch)
    → after_batch epoch n bs ≡ some rest
    → (dropped : List Batch) × (b : Batch) × Matches epoch n b
      × All (λ c. ¬ (Matches epoch n c)) dropped
      × (bs ≡ dropped ++ (b ∷ rest))
after_batch_lem epoch n [] rest h = cc
after_batch_lem epoch n (b ∷ bs) rest h = elim (Bool-cases (b.epoch == epoch && b.sequence == n)) [
  | inl t ↦ (
    [],
    b,
    (ground (arith, string_eq.beq_iff b.epoch epoch), ground arith),
    tt,
    ap (λ (l : List Batch). b ∷ l) (some-injective (rw t at h)),
  )
  | inr f ↦
      let (dropped, c, m, others, e) = after_batch_lem epoch n bs rest (rw f at h) in
      (
        b ∷ dropped,
        c,
        m,
        (λ x. ground (arith, string_eq.beq_iff b.epoch epoch), others),
        ap (λ (l : List Batch). b ∷ l) e,
      )
]
