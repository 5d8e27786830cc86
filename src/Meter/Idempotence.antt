-- ===== src/Meter/Idempotence.antt =====
-- Sampling again: a second call on the same samples reports nothing.
use l4way.Prelude.{
  ◌≡◌, ap, ◌∙◌, refl, true, false, String, Option, List, [], ◌∷◌, map, arith, All, any, All-of-In,
  ok, string_eq, lookup, keys, is_some, In-keys, str_lt,
}
use l4way.Prelude.Sort.{sort_by, In-sort_by}
use l4way.Meter.{
  Sample, Value, State, Delta, Batch, delta_of, deltas_of, advance, observe, is_nonzero,
}
use l4way.Meter.Accounting.{observe_parts, observe_of_parts, advance_fields}

abbrev pub IsZero : Delta → Type 0
IsZero d = (d.packets ≡ 0) × (d.bytes ≡ 0)

delta_of-same :
    (name : String) (v : Option Value) → is_some v ≡ true → IsZero (delta_of false name v v)
unfolding delta_of
delta_of-same name v h = ground arith

map-same :
    (current : List (String × Value)) (names : List String)
    → All (λ n. is_some (lookup n current) ≡ true) names
    → All IsZero (map (λ n. delta_of false n (lookup n current) (lookup n current)) names)
map-same current [] h = tt
map-same current (n ∷ ns) h = (delta_of-same n (lookup n current) h.0, map-same current ns h.1)

any-IsZero : (ds : List Delta) → All IsZero ds → any is_nonzero ds ≡ false
any-IsZero [] h = refl
any-IsZero (d ∷ ds) h = ground (arith, any-IsZero ds h.1)

deltas_of-same :
    (s : State) (epoch : String) → s.epoch ≡ epoch → All IsZero (deltas_of s epoch s.values)
unfolding deltas_of
deltas_of-same s epoch e = rw ((string_eq.beq_iff s.epoch epoch).1 e) (
    map-same s.values (sort_by str_lt (keys s.values))
      (All-of-In _ _ (λ n m. (In-keys n s.values).0 ((In-sort_by str_lt n _).0 m))))

advance-same :
    (s : State) (epoch : String) (ds : List Delta)
    → s.epoch ≡ epoch
    → All IsZero ds
    → advance s epoch s.values ds ≡ (s, record { epoch = epoch; sequence = 0; deltas = ds })
unfolding advance
advance-same s epoch ds e z = rw (any-IsZero ds z) (ground arith)

-- Where a call succeeds, the same call made again succeeds too, leaves the tracker as it is, takes
-- no sequence number and reports zero for every counter.
pub observe-observe :
    (s : State) (epoch : String) (samples : List Sample) (s' : State) (b : Batch)
    → observe s epoch samples ≡ ok (s', b)
    → (again : Batch) × (observe s' epoch samples ≡ ok (s', again))
      × (again.sequence ≡ 0)
      × All IsZero again.deltas
observe-observe s epoch samples s' b h =
    let (current, t, q, e) = observe_parts s epoch samples (s', b) h in
    let f = advance_fields s epoch current (deltas_of s epoch current) in
    let values : s'.values ≡ current = cc (e, f.0) in
    let same : s'.epoch ≡ epoch = cc (e, f.1) in
    let zero = deltas_of-same s' epoch same in
    (
      record { epoch = epoch; sequence = 0; deltas = deltas_of s' epoch s'.values },
      observe_of_parts s' epoch samples s'.values t (rw values q)
          ∙ ap ok (advance-same s' epoch (deltas_of s' epoch s'.values) same zero),
      refl,
      zero,
    )
