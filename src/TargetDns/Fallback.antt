-- ===== src/TargetDns/Fallback.antt =====
-- What the cache of internal/targetdns/resolver.go keeps in service.
use l4way.Prelude.{
  some-injective, ℕ, ◌+◌, ◌*◌, ◌/◌, ◌<◌, ◌≤◌, ◌⊎◌, ◌≡◌, refl, ap, ◌∙◌, sym, inl, inr, String, true,
  ◌&&◌, Option, none, some, ltb, ◌==◌, string_eq, lookup, lookup-insert, Result, ok, err, arith,
  Bool-cases, Option-cases, subst,
}
use l4way.Net.{Addr, unmap, is4, is_valid_addr, second}
use l4way.TargetDns.{
  ResolveError, CacheEntry, Cache, Answer, with_entry, last_known, degrade, retry_after, settle,
  resolve, not_ipv4,
}

-- Every address of the cache is an IPv4 address.
abbrev pub IsIpv4Cache : Cache → Type 0
IsIpv4Cache cache =
    (h : String) (e : CacheEntry) → lookup h cache.entries ≡ some e → is4 e.address ≡ true

abbrev Good : Cache × Answer → Type 0
Good r = IsIpv4Cache r.0 × (is4 r.1.0 ≡ true)

with_entry-IsIpv4Cache :
    (cache : Cache) (hostname : String) (a : Addr) (until : ℕ)
    → IsIpv4Cache cache
    → is4 a ≡ true
    → IsIpv4Cache (with_entry cache hostname a until)
with_entry-IsIpv4Cache cache hostname a until k h name e found =
    elim (Bool-cases (hostname == name)) [
      | inl t ↦
          let same : record { address = a; refresh_after = until } ≡ e = some-injective (
            rw
              (
                lookup-insert hostname name (record { address = a; refresh_after = until })
                    cache.entries,
                t,
              )
              at found) in
          ap (λ (x : CacheEntry). is4 x.address) (sym same) ∙ h
      | inr f ↦ k name e (
          rw
            (
              lookup-insert hostname name (record { address = a; refresh_after = until })
                  cache.entries,
              f,
            )
            at found)
    ]

last_known-is4 :
    (cache : Cache) (hostname : String) (fallback : Addr)
    → IsIpv4Cache cache
    → is4 (unmap fallback) ≡ true
    → is4 (last_known (lookup hostname cache.entries) fallback) ≡ true
last_known-is4 cache hostname fallback k h = elim (Option-cases (lookup hostname cache.entries)) [
  | inl e ↦ rw e h
  | inr (x, e) ↦ elim (Bool-cases (is_valid_addr x.address)) [
    | inl t ↦ rw (e, t) (k hostname x e)
    | inr f ↦ rw (e, f) h
  ]
]

degrade-Good :
    (cache : Cache) (now : ℕ) (hostname : String) (fallback : Addr) (error : ResolveError)
    → IsIpv4Cache cache
    → is4 (unmap fallback) ≡ true
    → Good (degrade cache now hostname fallback error)
degrade-Good cache now hostname fallback error k h =
    let fine = last_known-is4 cache hostname fallback k h in
    (with_entry-IsIpv4Cache cache hostname _ _ k fine, fine)

settle-Good :
    (cache : Cache) (now : ℕ) (answer : Result ResolveError Addr) (hostname : String)
    (fallback : Addr)
    → IsIpv4Cache cache
    → is4 (unmap fallback) ≡ true
    → Good (settle cache now answer hostname fallback)
unfolding settle
settle-Good cache now (err e) hostname fallback k h = degrade-Good cache now hostname fallback e k h
settle-Good cache now (ok a) hostname fallback k h =
    elim (Bool-cases (is_valid_addr a && is4 (unmap a))) [
      | inl t ↦
          let fine : is4 (unmap a) ≡ true = ground arith in
          rw t (with_entry-IsIpv4Cache cache hostname (unmap a) (now + cache.refresh) k fine, fine)
      | inr f ↦ rw f (degrade-Good cache now hostname fallback not_ipv4 k h)
    ]

-- Whatever the resolver answers, `Resolve` answers with an IPv4 address and keeps the addresses of the
-- cache IPv4, where those of the cache and the fallback are.
pub resolve-IsIpv4Cache :
    (cache : Cache) (now : ℕ) (answer : Result ResolveError Addr) (hostname : String)
    (fallback : Addr)
    → IsIpv4Cache cache
    → is4 (unmap fallback) ≡ true
    → let r = resolve cache now answer hostname fallback in IsIpv4Cache r.0 × (is4 r.1.0 ≡ true)
unfolding resolve
resolve-IsIpv4Cache cache now answer hostname fallback k h =
    elim (Option-cases (lookup hostname cache.entries)) [
      | inl e ↦ rw (e, resolve) (settle-Good cache now answer hostname fallback k h)
      | inr (x, e) ↦ elim (Bool-cases (ltb now x.refresh_after)) [
        | inl t ↦ rw (e, t, resolve) (k, k hostname x e)
        | inr f ↦ rw (e, f, resolve) (settle-Good cache now answer hostname fallback k h)
      ]
    ]

-- How long an entry stands that the resolver did not give: a quarter of the time that one stands that it
-- gave, but 15 seconds where that is more, or nothing.
pub record IsRetry (refresh wait : ℕ) : Type 0 where
  pub positive : 0 < wait
  pub bounded : wait ≤ 15 * second
  pub quarter : 4 ≤ refresh → refresh < 4 * (15 * second + 1) → wait ≡ refresh / 4
  pub full : (refresh < 4) ⊎ (4 * (15 * second + 1) ≤ refresh) → wait ≡ 15 * second

retry_after-IsRetry : (refresh : ℕ) → IsRetry refresh (retry_after refresh)
unfolding retry_after
retry_after-IsRetry refresh = record {
  positive = ground arith;
  bounded = ground arith;
  quarter = λ h k. ground arith;
  full = λ h. ground arith;
}

-- The entry was in force.
abbrev IsInForce : ℕ → Option CacheEntry → Type 0
IsInForce now none = ⊥
IsInForce now (some old) = now < old.refresh_after

-- How long the new entry stands: an entry in force as long as before, an answer of the resolver for the
-- time of the cache, and an address that stays in service without one until the lookup is tried again.
abbrev pub Lasts : Cache → ℕ → Option CacheEntry → CacheEntry → Option ResolveError → Type 0
Lasts cache now old entry none =
    (IsInForce now old × (old ≡ some entry))
    ⊎ ((¬ IsInForce now old) × (entry.refresh_after ≡ now + cache.refresh))
Lasts cache now old entry (some e) =
    (¬ IsInForce now old)
    × ((wait : ℕ) × IsRetry cache.refresh wait × (entry.refresh_after ≡ now + wait))

-- The answer is the address that the cache then holds for the name.
abbrev IsStored : Cache → ℕ → String → Cache × Answer → Type 0
IsStored cache now hostname r =
    (entry : CacheEntry) × (lookup hostname r.0.entries ≡ some entry)
    × (entry.address ≡ r.1.0)
    × Lasts cache now (lookup hostname cache.entries) entry r.1.1

stored :
    (cache : Cache) (now : ℕ) (hostname : String) (a : Addr) (until : ℕ) (e : Option ResolveError)
    → Lasts cache now
        (lookup hostname cache.entries)
        (record { address = a; refresh_after = until })
        e
    → IsStored cache now hostname (with_entry cache hostname a until, (a, e))
stored cache now hostname a until e l =
    let entry : CacheEntry = record { address = a; refresh_after = until } in
    (
      entry,
      lookup-insert hostname hostname entry cache.entries
          ∙ rw ((string_eq.beq_iff hostname hostname).1 refl) refl,
      refl,
      l,
    )

degrade-IsStored :
    (cache : Cache) (now : ℕ) (hostname : String) (fallback : Addr) (e : ResolveError)
    → ¬ IsInForce now (lookup hostname cache.entries)
    → IsStored cache now hostname (degrade cache now hostname fallback e)
degrade-IsStored cache now hostname fallback e n =
    stored cache now hostname _ _ (some e)
      (n, (retry_after cache.refresh, retry_after-IsRetry cache.refresh, refl))

settle-IsStored :
    (cache : Cache) (now : ℕ) (answer : Result ResolveError Addr) (hostname : String)
    (fallback : Addr)
    → ¬ IsInForce now (lookup hostname cache.entries)
    → IsStored cache now hostname (settle cache now answer hostname fallback)
unfolding settle
settle-IsStored cache now (err e) hostname fallback n =
    degrade-IsStored cache now hostname fallback e n
settle-IsStored cache now (ok a) hostname fallback n =
    elim (Bool-cases (is_valid_addr a && is4 (unmap a))) [
      | inl t ↦
          rw t (stored cache now hostname (unmap a) (now + cache.refresh) none (inr (n, refl)))
      | inr f ↦ rw f (degrade-IsStored cache now hostname fallback not_ipv4 n)
    ]

resolve-IsStored :
    (cache : Cache) (now : ℕ) (answer : Result ResolveError Addr) (hostname : String)
    (fallback : Addr)
    → IsStored cache now hostname (resolve cache now answer hostname fallback)
unfolding resolve
resolve-IsStored cache now answer hostname fallback =
    elim (Option-cases (lookup hostname cache.entries)) [
      | inl e ↦
          let n : ¬ IsInForce now (lookup hostname cache.entries) = rw e (λ h. h) in
          rw (e, resolve) (rw e at (settle-IsStored cache now answer hostname fallback n))
      | inr (x, e) ↦ elim (Bool-cases (ltb now x.refresh_after)) [
        | inl t ↦ rw (e, t, resolve) (x, e, refl, inl (ground arith, refl))
        | inr f ↦
            let n : ¬ IsInForce now (lookup hostname cache.entries) = rw e (λ h. ground arith) in
            rw (e, f, resolve) (rw e at (settle-IsStored cache now answer hostname fallback n))
      ]
    ]

resolve-cached :
    (cache : Cache) (now : ℕ) (answer : Result ResolveError Addr) (hostname : String)
    (fallback : Addr) (entry : CacheEntry)
    → lookup hostname cache.entries ≡ some entry
    → ltb now entry.refresh_after ≡ true
    → resolve cache now answer hostname fallback ≡ (cache, (entry.address, none))
unfolding resolve
resolve-cached cache now answer hostname fallback entry e t = rw (e, t, resolve) refl

-- What a call answers is kept in the cache: an entry in force as it was, an answer of the resolver for the
-- time of the cache, and what stays in service without one for a quarter of it, 15 seconds at most. Until
-- then any further call for the name gives the same address with no error and changes nothing, whatever
-- the resolver says.
pub resolve-resolve :
    (cache : Cache) (now : ℕ) (answer : Result ResolveError Addr) (hostname : String)
    (fallback : Addr)
    → let r = resolve cache now answer hostname fallback in
      (entry : CacheEntry) × (lookup hostname r.0.entries ≡ some entry)
      × Lasts cache now (lookup hostname cache.entries) entry r.1.1
      × ((later : ℕ) (other : Result ResolveError Addr) (spare : Addr)
          → later < entry.refresh_after
          → resolve r.0 later other hostname spare ≡ (r.0, (r.1.0, none)))
resolve-resolve cache now answer hostname fallback =
    let r = resolve cache now answer hostname fallback in
    let (entry, found, same, lasts) = resolve-IsStored cache now answer hostname fallback in
    (
      entry,
      found,
      lasts,
      λ later other spare t.
          subst (λ (a : Addr). resolve r.0 later other hostname spare ≡ (r.0, (a, none))) same
            (resolve-cached r.0 later other hostname spare entry found (ground arith)),
    )
