-- ===== src/Rollout/Canary.antt =====
-- internal/cluster/rollout.go: which forwards are published first. SHA-256 is the parameter `digest`.
use Prim.Native.String.{◌++◌ as append}
use l4way.Prelude.{
  ℕ, ◌+◌, ◌*◌, ◌/◌, ◌≤◌, ◌<◌, ◌≡◌, refl, inl, inr, ◌⊎◌, String, Bool, ◌||◌, List, [], ◌++◌, ltb,
  leb, ◌==◌, string_eq, if◌then◌else◌, str_lt, length, take, drop, take-append-drop, length-take,
  arith, Bool-cases,
}
use l4way.Prelude.Sort.{sort_by, Sorted, sort_by-Sorted, sort_by-perm, length-sort_by}
use l4way.Prelude.Order.{by_string}
use mathlib.Core.List.{Perm}
use mathlib.Core.List.Perm

module _ (digest : String → String) where
  -- The hash of a forward, and the order of the candidates by hash and identifier.
  abbrev pub hash_of : String → String → String
  hash_of plan_id id = digest (append plan_id (append "\0" id))

  abbrev pub candidate_less : String → String → String → Bool
  candidate_less plan_id a b =
      if hash_of plan_id a == hash_of plan_id b
      then str_lt a b
      else str_lt (hash_of plan_id a) (hash_of plan_id b)

  -- `(len(candidates) * percent + 99) / 100`
  abbrev pub canary_count : ℕ → ℕ → ℕ
  canary_count n percent = (n * percent + 99) / 100

  -- selectCanary
  unfoldable pub select_canary : String → List String → ℕ → List String × List String
  select_canary plan_id ids percent =
      let candidates = sort_by (candidate_less plan_id) ids in
      let count = canary_count (length ids) percent in
      if leb 100 percent || ltb (length ids) 2
      then ([], ids)
      else if leb count 0 || leb (length ids) count
      then ([], ids)
      else (sort_by str_lt (take count candidates), sort_by str_lt (drop count candidates))

  -- The first wave and the rest are the changed forwards, each in one of the two as often as it is
  -- given.
  pub select_canary-perm :
      (plan_id : String) (ids : List String) (percent : ℕ)
      → let r = select_canary plan_id ids percent in Perm (r.0 ++ r.1) ids
  unfolding select_canary
  select_canary-perm plan_id ids percent =
      elim (Bool-cases (leb 100 percent || ltb (length ids) 2)) [
        | inl t ↦ rw t (Perm.refl ids)
        | inr f ↦ rw f (elim (Bool-cases (leb count 0 || leb (length ids) count)) [
          | inl t ↦ rw t (Perm.refl ids)
          | inr g ↦ rw g (
              Perm.trans
                (Perm.append (sort_by-perm str_lt (take count candidates))
                  (sort_by-perm str_lt (drop count candidates)))
                (rw (take-append-drop count candidates)
                  (sort_by-perm (candidate_less plan_id) ids)))
        ])
      ]
    where
      candidates : List String
      candidates = sort_by (candidate_less plan_id) ids

      count : ℕ
      count = canary_count (length ids) percent

  -- What a first wave that is not empty promises.
  pub record IsShare (ids : List String) (percent : ℕ) (canary rest : List String) : Type 0 where
    pub at_least : length ids * percent ≤ 100 * length canary
    pub rounded_up : 100 * length canary < length ids * percent + 100
    pub some_remain : length canary < length ids
    pub canary_sorted : Sorted str_lt canary
    pub rest_sorted : Sorted str_lt rest

  abbrev pub FirstWave : List String → ℕ → List String × List String → Type 0
  FirstWave ids percent r = ((r.0 ≡ []) × (r.1 ≡ ids)) ⊎ IsShare ids percent r.0 r.1

  share :
      (plan_id : String) (ids : List String) (percent count : ℕ)
      → count ≡ canary_count (length ids) percent
      → count < length ids
      → IsShare ids percent
          (sort_by str_lt (take count (sort_by (candidate_less plan_id) ids)))
          (sort_by str_lt (drop count (sort_by (candidate_less plan_id) ids)))
  share plan_id ids percent count e less =
      let candidates = sort_by (candidate_less plan_id) ids in
      let size : length (sort_by str_lt (take count candidates)) ≡ count = omega (
        arith,
        length-sort_by str_lt (take count candidates),
        length-take count candidates,
        length-sort_by (candidate_less plan_id) ids,
      ) in
      record {
        at_least = rw size (omega arith);
        rounded_up = rw size (omega arith);
        some_remain = rw size less;
        canary_sorted = sort_by-Sorted (by_string (λ (s : String). s)) (take count candidates);
        rest_sorted = sort_by-Sorted (by_string (λ (s : String). s)) (drop count candidates);
      }

  -- The first wave is empty and the rest is all, or it is the percentage of the forwards rounded up,
  -- some remain for the rest, and both are sorted.
  pub select_canary-FirstWave :
      (plan_id : String) (ids : List String) (percent : ℕ)
      → FirstWave ids percent (select_canary plan_id ids percent)
  unfolding select_canary
  select_canary-FirstWave plan_id ids percent =
      elim (Bool-cases (leb 100 percent || ltb (length ids) 2)) [
        | inl t ↦ rw t (inl (refl, refl))
        | inr f ↦ rw f (elim (Bool-cases (leb count 0 || leb (length ids) count)) [
          | inl t ↦ rw t (inl (refl, refl))
          | inr g ↦ rw g (inr (share plan_id ids percent count refl (ground arith)))
        ])
      ]
    where
      count : ℕ
      count = canary_count (length ids) percent
