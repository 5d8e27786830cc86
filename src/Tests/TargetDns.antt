-- ===== src/Tests/TargetDns.antt =====
-- A resolver that fails after an answer.
use l4way.Prelude.{
  some-injective, ℕ, ◌<◌, ◌≡◌, refl, true, none, some, [], ◌∷◌, err, Result, lookup, string_eq,
  ◌==◌, Bool-cases, inl, inr, ap, sym,
}
use l4way.Net.{Addr, v4, is4, unmap}
use l4way.TargetDns.{ResolveError, no_usable_address, CacheEntry, Cache, resolve}
use l4way.TargetDns.Fallback.{IsIpv4Cache, Lasts, resolve-IsIpv4Cache, resolve-resolve}

abbrev cache : Cache
cache = record {
  entries = ("web", record { address = v4 16; refresh_after = 50 }) ∷ [];
  refresh = 60;
  timeout = 3;
}

cache_fine : IsIpv4Cache cache
unfolding lookup
cache_fine h e found = elim (Bool-cases ("web" == h)) [
  | inl t ↦
      let same : record { address = v4 16; refresh_after = 50 } ≡ e =
        some-injective (rw t at found) in
      ap (λ (x : CacheEntry). is4 x.address) (sym same)
  | inr f ↦ absurd (cc (rw f at found))
]

spare_fine : is4 (unmap (v4 9)) ≡ true
unfolding unmap
spare_fine = refl

resolve-IsIpv4Cache_example :
    let r = resolve cache 70 (err no_usable_address) "web" (v4 9) in
    IsIpv4Cache r.0 × (is4 r.1.0 ≡ true)
resolve-IsIpv4Cache_example =
    resolve-IsIpv4Cache cache 70 (err no_usable_address) "web" (v4 9) cache_fine spare_fine

resolve-resolve_example :
    let r = resolve cache 70 (err no_usable_address) "web" (v4 9) in
    (entry : CacheEntry) × (lookup "web" r.0.entries ≡ some entry)
    × Lasts cache 70 (lookup "web" cache.entries) entry r.1.1
    × ((later : ℕ) (other : Result ResolveError Addr) (spare : Addr)
        → later < entry.refresh_after
        → resolve r.0 later other "web" spare ≡ (r.0, (r.1.0, none)))
resolve-resolve_example = resolve-resolve cache 70 (err no_usable_address) "web" (v4 9)
