-- ===== src/TargetDns.antt =====
-- internal/targetdns/resolver.go: the cache of resolved targets. The clock and the answer of the
-- resolver are arguments of a call; a call runs without another one in between.
pub mod Fallback
use l4way.Prelude.{
  ℕ, ◌+◌, ◌*◌, ◌/◌, String, Bool, true, false, not, ◌&&◌, ◌||◌, Option, none, some, List, [], ◌∷◌,
  ltb, ◌==◌, nat_eq, string_eq, if◌then◌else◌, map, keep, lookup, insert, Result, ok, err,
}
use l4way.Prelude.Sort.{sort_by}
use l4way.Net.{
  Addr, unmap, is4, is_valid_addr, is_unspecified, is_multicast, addr_less, second, minute,
}

pub data ResolveError : Type 0 where
  resolver_failed : String → ResolveError
  no_usable_address not_ipv4 : ResolveError

abbrev pub usable_target : Addr → Bool
usable_target a = is_valid_addr a && is4 a && not (is_unspecified a) && not (is_multicast a)

abbrev pub first_or : List Addr → Result ResolveError Addr
first_or [] = err no_usable_address
first_or (a ∷ _) = ok a

-- LookupIPv4, on the answer of `net.DefaultResolver`.
unfoldable pub lookup_ipv4 : Result String (List Addr) → Result ResolveError Addr
lookup_ipv4 (err e) = err (resolver_failed e)
lookup_ipv4 (ok addresses) = first_or (sort_by addr_less (keep usable_target (map unmap addresses)))

pub record CacheEntry : Type 0 where
  pub address : Addr
  pub refresh_after : ℕ

abbrev pub Entries : Type 0
Entries = List (String × CacheEntry)

pub record Cache : Type 0 where
  pub entries : Entries
  pub refresh : ℕ
  pub timeout : ℕ

-- NewCache. A duration that is not positive is 0 here.
unfoldable pub new_cache : ℕ → ℕ → Cache
new_cache refresh timeout = record {
  entries = [];
  refresh = if refresh == 0 then minute else refresh;
  timeout = if timeout == 0 then 3 * second else timeout;
}

-- The address and the error of `Resolve`.
abbrev pub Answer : Type 0
Answer = Addr × Option ResolveError

abbrev pub with_entry : Cache → String → Addr → ℕ → Cache
with_entry cache hostname address until = record cache {
  entries = insert hostname (record { address = address; refresh_after = until }) cache.entries;
}

-- What stays in service when the resolver has no answer.
abbrev pub last_known : Option CacheEntry → Addr → Addr
last_known none fallback = unmap fallback
last_known (some entry) fallback =
    if is_valid_addr entry.address then entry.address else unmap fallback

unfoldable pub retry_after : ℕ → ℕ
retry_after refresh =
    if refresh / 4 == 0 || ltb (15 * second) (refresh / 4) then 15 * second else refresh / 4

abbrev pub degrade : Cache → ℕ → String → Addr → ResolveError → Cache × Answer
degrade cache now hostname fallback e =
    let address = last_known (lookup hostname cache.entries) fallback in
    (with_entry cache hostname address (now + retry_after cache.refresh), (address, some e))

-- What follows the call of the resolver.
unfoldable pub settle : Cache → ℕ → Result ResolveError Addr → String → Addr → Cache × Answer
unfolding retry_after
settle cache now (err e) hostname fallback = degrade cache now hostname fallback e
settle cache now (ok a) hostname fallback =
    if is_valid_addr a && is4 (unmap a)
    then (with_entry cache hostname (unmap a) (now + cache.refresh), (unmap a, none))
    else degrade cache now hostname fallback not_ipv4

abbrev pub serving : Option CacheEntry → ℕ → Option Addr
serving none now = none
serving (some entry) now = if ltb now entry.refresh_after then some entry.address else none

-- Cache.Resolve
unfoldable pub resolve : Cache → ℕ → Result ResolveError Addr → String → Addr → Cache × Answer
unfolding settle
resolve cache now answer hostname fallback = elim (serving (lookup hostname cache.entries) now) [
  | some address ↦ (cache, (address, none))
  | none ↦ settle cache now answer hostname fallback
]
