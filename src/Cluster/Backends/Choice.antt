-- ===== src/Cluster/Backends/Choice.antt =====
-- Which backend `chooseBackend` of internal/cluster/scheduler.go takes.
use l4way.Prelude.{
  ℕ, ◌≡◌, ◌≢◌, refl, sym, subst, inl, inr, ◌⊎◌, String, Bool, true, false, ◌&&◌, Option, none, some,
  List, [], ◌∷◌, ltb, ◌==◌, nat_eq, string_eq, keep, In, In-keep, All, All-In, arith, Bool-cases,
  Option-cases, ◌↔◌,
}
use l4way.Prelude.Sort.{sort_by, Sorted, sort_by-Sorted, In-sort_by}
use l4way.Prelude.Order.{by_nat_then_string}
use l4way.Cluster.{
  Backend, HealthPolicy, HealthObservation, AlertCode, backend_health_unknown,
  backend_pool_exhausted,
}
use l4way.Cluster.Backends.{
  Verdict, up, uncertain, down, verdict, is_up, is_uncertain, with_verdict, find_backend,
  backend_by_id, prefer, preferred_backend, retain, backend_less, choose_among, choose_observed,
}

find_backend_sound :
    (p : Backend → Bool) (bs : List Backend) (b : Backend)
    → find_backend p bs ≡ some b
    → In b bs × (p b ≡ true)
unfolding find_backend
find_backend_sound p [] b h = cc
find_backend_sound p (x ∷ bs) b h = elim (Bool-cases (p x)) [
  | inl t ↦ let e : x ≡ b = cc (rw t at h) in (inl (sym e), subst (λ y. p y ≡ true) e t)
  | inr f ↦ let (m, q) = find_backend_sound p bs b (rw f at h) in (inr m, q)
]

find_backend-none :
    (p : Backend → Bool) (bs : List Backend)
    → find_backend p bs ≡ none
    → (b : Backend) → In b bs
    → p b ≡ false
unfolding find_backend
find_backend-none p [] h b m = absurd m
find_backend-none p (x ∷ bs) h b m = elim (Bool-cases (p x)) [
  | inl t ↦ cc (rw t at h)
  | inr f ↦ elim m [ inl e ↦ rw e f | inr i ↦ find_backend-none p bs (rw f at h) b i ]
]

-- The backend is one of the list, none is of a lower priority, and it is the previous one if that is
-- of the same priority.
pub record IsPreferred (backends : List Backend) (previous_id : String) (b : Backend) : Type 0 where
  pub listed : In b backends
  pub least : (c : Backend) → In c backends → ltb c.priority b.priority ≡ false
  pub sticky :
      (c : Backend)
      → In c backends
      → c.id ≡ previous_id
      → c.priority ≡ b.priority
      → b.id ≡ previous_id

-- The test of the loop over the sorted candidates.
abbrev matches : ℕ → String → Backend → Bool
matches priority prev b = b.priority == priority && b.id == prev

matches_iff :
    (priority : ℕ) (prev : String) (b : Backend)
    → (matches priority prev b ≡ true) ↔ ((b.priority ≡ priority) × (b.id ≡ prev))
matches_iff priority prev b = ground (arith, string_eq.beq_iff b.id prev)

first-least :
    (first : Backend) (rest : List Backend) (c : Backend)
    → All (λ y. backend_less y first ≡ false) rest
    → In c (first ∷ rest)
    → ltb c.priority first.priority ≡ false
first-least first rest c h (inl e) = rw e (ground arith)
first-least first rest c h (inr m) = ground (arith, All-In _ c rest h m)

prefer-IsPreferred :
    (prev : String) (backends : List Backend) (b : Backend)
    → Sorted backend_less backends
    → prefer prev backends ≡ some b
    → IsPreferred backends prev b
unfolding prefer
prefer-IsPreferred prev [] b s h = cc
prefer-IsPreferred prev (first ∷ rest) b s h =
    elim (Option-cases (find_backend (matches first.priority prev) (first ∷ rest))) [
      | inl missing ↦
          let e : first ≡ b = cc (rw (missing, prefer) at h) in
          subst (IsPreferred (first ∷ rest) prev) e (record {
            listed = inl refl;
            least = λ c i. first-least first rest c s.0 i;
            sticky = λ c i same p. cc (
              find_backend-none (matches first.priority prev) (first ∷ rest) missing c i,
              (matches_iff first.priority prev c).1 (p, same),
            );
          })
      | inr (x, found) ↦
          let e : x ≡ b = cc (rw (found, prefer) at h) in
          let (m, q) = find_backend_sound (matches first.priority prev) (first ∷ rest) x found in
          let (p, same) = (matches_iff first.priority prev x).0 q in
          subst (IsPreferred (first ∷ rest) prev) e (record {
            listed = m;
            least = λ c i. rw p (first-least first rest c s.0 i);
            sticky = λ c i _ _. same;
          })
    ]

-- A backend that `preferredBackend` returns is one of the list, of the least priority number in it, and
-- the previous one where a backend of that identifier has that priority.
pub preferred_backend-IsPreferred :
    (backends : List Backend) (prev : String) (b : Backend)
    → preferred_backend backends prev ≡ some b
    → IsPreferred backends prev b
unfolding preferred_backend
preferred_backend-IsPreferred backends prev b h =
    let sorted =
      sort_by-Sorted (by_nat_then_string (λ (b : Backend). b.priority) (λ (b : Backend). b.id))
        backends in
    let p = prefer-IsPreferred prev (sort_by backend_less backends) b sorted h in
    record {
      listed = (In-sort_by backend_less b backends).0 p.listed;
      least = λ c i. p.least c ((In-sort_by backend_less c backends).1 i);
      sticky = λ c i. p.sticky c ((In-sort_by backend_less c backends).1 i);
    }

prefer_total :
    (prev : String) (backends : List Backend) (c : Backend)
    → In c backends
    → (b : Backend) × (prefer prev backends ≡ some b)
unfolding prefer
prefer_total prev [] c m = absurd m
prefer_total prev (first ∷ rest) c m =
    elim (Option-cases (find_backend (matches first.priority prev) (first ∷ rest))) [
      | inl missing ↦ (first, rw (missing, prefer))
      | inr (x, found) ↦ (x, rw (found, prefer))
    ]

preferred_backend_total :
    (backends : List Backend) (prev : String) (c : Backend)
    → In c backends
    → (b : Backend) × (preferred_backend backends prev ≡ some b)
unfolding preferred_backend
preferred_backend_total backends prev c m =
    prefer_total prev (sort_by backend_less backends) c ((In-sort_by backend_less c backends).1 m)

pub record IsRetained (backends : List Backend) (previous_id : String) (b : Backend) : Type 0 where
  pub listed : In b backends
  pub sticky : (c : Backend) → In c backends → c.id ≡ previous_id → b.id ≡ previous_id

retain-IsRetained :
    (backends : List Backend) (prev : String) (b : Backend)
    → retain backends prev ≡ some b
    → IsRetained backends prev b
unfolding backend_by_id
retain-IsRetained backends prev b h = elim (Option-cases (backend_by_id backends prev)) [
  | inl missing ↦ record {
    listed =
        (preferred_backend-IsPreferred backends "" b
          (unfold retain in rw (missing, retain) at h)).listed;
    sticky = λ c i same.
        cc (find_backend-none _ backends missing c i, (string_eq.beq_iff c.id prev).1 same);
  }
  | inr (x, found) ↦
      let e : x ≡ b = unfold retain in cc (rw (found, retain) at h) in
      let (m, q) = find_backend_sound _ backends x found in
      record {
        listed = subst (λ (y : Backend). In y backends) e m;
        sticky =
            λ c i same. subst (λ (y : Backend). y.id ≡ prev) e ((string_eq.beq_iff x.id prev).0 q);
      }
]

retain_total :
    (backends : List Backend) (prev : String) (c : Backend)
    → In c backends
    → (b : Backend) × (retain backends prev ≡ some b)
unfolding retain
retain_total backends prev c m = elim (Option-cases (backend_by_id backends prev)) [
  | inl missing ↦
      let (b, e) = preferred_backend_total backends "" c m in (b, rw (missing, retain) e)
  | inr (x, found) ↦ (x, rw (found, retain))
]

-- What the observations allow: a preferred one of the backends that are up, and no alert; where none
-- is up, one whose health is unknown, the previous one if it is such, and the alert that says so;
-- where all are down, any, the previous one if it is in the pool, and the alert of an exhausted pool.
abbrev pub Serves :
    (Backend → Verdict) → List Backend → String → Backend → Option AlertCode → Type 0
Serves v backends prev b alert =
    ((v b ≡ up) × (alert ≡ none) × IsPreferred (keep (λ c. is_up (v c)) backends) prev b)
    ⊎ ((v b ≡ uncertain)
        × (alert ≡ some backend_health_unknown)
        × ((c : Backend) → In c backends → v c ≢ up)
        × IsRetained (keep (λ c. is_uncertain (v c)) backends) prev b)
    ⊎ ((alert ≡ some backend_pool_exhausted)
        × ((c : Backend) → In c backends → v c ≡ down)
        × IsRetained backends prev b)

module _ (observe : Backend → Option HealthObservation) (policy : HealthPolicy) (now : ℕ) where
  abbrev pub seen : Backend → Verdict
  seen b = verdict policy now b (observe b)

  none_kept :
      (p : Verdict → Bool) (b : Backend) (bs : List Backend)
      → with_verdict observe policy now p bs ≡ []
      → In b bs
      → p (seen b) ≡ false
  none_kept p b bs e m = elim (Bool-cases (p (seen b))) [
    | inl t ↦ absurd (subst (In b) e ((In-keep (λ c. p (seen c)) b bs).1 (m, t)))
    | inr f ↦ f
  ]

  choose_among-Serves :
      (ups unknowns backends : List Backend) (prev : String) (b : Backend)
      (alert : Option AlertCode)
      → with_verdict observe policy now is_up backends ≡ ups
      → with_verdict observe policy now is_uncertain backends ≡ unknowns
      → choose_among observe policy now backends ups unknowns prev ≡ (some b, alert)
      → Serves seen backends prev b alert
  unfolding choose_among
  choose_among-Serves (u ∷ us) unknowns backends prev b alert eu ek h =
      let p = preferred_backend-IsPreferred (u ∷ us) prev b (cc h) in
      let q = subst (λ (l : List Backend). IsPreferred l prev b) (sym eu) p in
      let (m, t) = (In-keep (λ c. is_up (seen c)) b backends).0 q.listed in
      inl (ground arith, cc h, q)
  choose_among-Serves [] (k ∷ ks) backends prev b alert eu ek h =
      let p = retain-IsRetained (k ∷ ks) prev b (cc h) in
      let q = subst (λ (l : List Backend). IsRetained l prev b) (sym ek) p in
      let (m, t) = (In-keep (λ c. is_uncertain (seen c)) b backends).0 q.listed in
      inr (inl (ground arith, cc h, λ c i e. ground (arith, none_kept is_up c backends eu i), q))
  choose_among-Serves [] [] backends prev b alert eu ek h = inr (
      inr (
        cc h,
        λ c i.
            ground (arith, none_kept is_up c backends eu i, none_kept is_uncertain c backends ek i),
        retain-IsRetained backends prev b (cc h),
      ))

  choose_among_total :
      (ups unknowns backends : List Backend) (prev : String) (c : Backend)
      → In c backends
      → (b : Backend) × (alert : Option AlertCode) × (choose_among observe policy now backends ups
            unknowns prev
          ≡ (some b, alert))
  unfolding choose_among
  choose_among_total (u ∷ us) unknowns backends prev c m =
      let (b, e) = preferred_backend_total (u ∷ us) prev u (inl refl) in (b, none, rw e)
  choose_among_total [] (k ∷ ks) backends prev c m =
      let (b, e) = retain_total (k ∷ ks) prev k (inl refl) in (b, some backend_health_unknown, rw e)
  choose_among_total [] [] backends prev c m =
      let (b, e) = retain_total backends prev c m in (b, some backend_pool_exhausted, rw e)

  Serves-In :
      (backends : List Backend) (prev : String) (b : Backend) (alert : Option AlertCode)
      → Serves seen backends prev b alert
      → In b backends
  Serves-In backends prev b alert (inl h) =
      ((In-keep (λ c. is_up (seen c)) b backends).0 h.2.listed).0
  Serves-In backends prev b alert (inr (inl h)) =
      ((In-keep (λ c. is_uncertain (seen c)) b backends).0 h.3.listed).0
  Serves-In backends prev b alert (inr (inr h)) = h.2.listed

  -- `chooseBackend` on a pool with a health policy always finds a backend, if the pool has one, and
  -- the one that it finds is of the pool and is served as the observations allow.
  pub choose_observed-Serves :
      (backends : List Backend) (prev : String)
      → backends ≢ []
      → (b : Backend) × (alert : Option AlertCode) × (choose_observed observe policy now backends
            prev
          ≡ (some b, alert))
        × In b backends
        × Serves seen backends prev b alert
  unfolding choose_observed
  choose_observed-Serves [] prev h = absurd (h refl)
  choose_observed-Serves (c ∷ cs) prev h =
      let ups = with_verdict observe policy now is_up (c ∷ cs) in
      let unknowns = with_verdict observe policy now is_uncertain (c ∷ cs) in
      let (b, alert, e) = choose_among_total ups unknowns (c ∷ cs) prev c (inl refl) in
      let s = choose_among-Serves ups unknowns (c ∷ cs) prev b alert refl refl e in
      (b, alert, e, Serves-In (c ∷ cs) prev b alert s, s)
