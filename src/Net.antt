-- ===== src/Net.antt =====
-- What the program uses of Go's package `net/netip`, and of time. An address is a number; a zone is
-- kept for IPv6. A time is a number of nanoseconds, 0 for the zero `time.Time`.
use l4way.Prelude.{
  Eq, eq_of_discrete, ℕ, ◌+◌, ◌-◌, ◌*◌, ◌/◌, ◌%◌, ◌^◌, String, Bool, true, false, ◌&&◌, ◌||◌, ltb,
  leb, eqb, ◌==◌, string_eq, nat_eq, if◌then◌else◌, str_lt, string_discrete, ◌≡◌, ◌↔◌, refl, arith,
}
use native.Mathlib.Decide.{ℕ_discrete}

pub data Addr : Type 0 where
  invalid : Addr
  v4 : ℕ → Addr
  v6 : ℕ → String → Addr

pub Addr-discrete : Discrete Addr
Addr-discrete = hlevel (ℕ_discrete, string_discrete)

-- `==` on addresses.
abbrev pub addr_eqb : Addr → Addr → Bool
addr_eqb invalid invalid = true
addr_eqb (v4 m) (v4 n) = eqb m n
addr_eqb (v6 m y) (v6 n z) = eqb m n && y == z
addr_eqb _ _ = false

pub addr_eqb_iff : (a b : Addr) → (addr_eqb a b ≡ true) ↔ (a ≡ b)
addr_eqb_iff invalid invalid = (λ h. refl, λ h. refl)
addr_eqb_iff (v4 m) (v4 n) = ground arith
addr_eqb_iff (v6 m y) (v6 n z) = ground (arith, string_eq.beq_iff y z)
addr_eqb_iff a b = ground arith

abbrev pub is_valid_addr : Addr → Bool
is_valid_addr invalid = false
is_valid_addr _ = true

abbrev pub is4 : Addr → Bool
is4 (v4 n) = true
is4 _ = false

abbrev pub is4in6 : Addr → Bool
is4in6 (v6 n z) = eqb (n / 2 ^ 32) 0xffff
is4in6 _ = false

-- Addr.Unmap
unfoldable pub unmap : Addr → Addr
unmap invalid = invalid
unmap (v4 n) = v4 n
unmap (v6 n z) = if eqb (n / 2 ^ 32) 0xffff then v4 (n % 2 ^ 32) else v6 n z

abbrev pub is_unspecified : Addr → Bool
is_unspecified (v4 n) = eqb n 0
is_unspecified (v6 n z) = eqb n 0 && z == ""
is_unspecified invalid = false

-- An IPv4 address that is written as an IPv6 one is judged as IPv4.
abbrev pub is_multicast : Addr → Bool
is_multicast (v4 n) = eqb (n / 2 ^ 28) 0xe
is_multicast (v6 n z) =
    if eqb (n / 2 ^ 32) 0xffff then eqb (n % 2 ^ 32 / 2 ^ 28) 0xe else eqb (n / 2 ^ 120) 0xff
is_multicast invalid = false

abbrev pub bit_len : Addr → ℕ
bit_len invalid = 0
bit_len (v4 n) = 32
bit_len (v6 n z) = 128

-- Addr.Less: by length, then by value, then by zone.
unfoldable pub addr_less : Addr → Addr → Bool
addr_less invalid invalid = false
addr_less invalid _ = true
addr_less (v4 m) (v4 n) = ltb m n
addr_less (v4 m) (v6 n z) = true
addr_less (v6 m y) (v6 n z) = ltb m n || m == n && str_lt y z
addr_less _ _ = false

-- An invalid prefix has no length.
pub record Prefix : Type 0 where
  pub addr : Addr
  pub bits_plus_one : ℕ

pub Prefix-discrete : Discrete Prefix
Prefix-discrete = hlevel (ℕ_discrete, Addr-discrete)

abbrev pub is_valid_prefix : Prefix → Bool
is_valid_prefix p = ltb 0 p.bits_plus_one

abbrev pub bits : Prefix → ℕ
bits p = p.bits_plus_one - 1

abbrev pub without_zone : Addr → Addr
without_zone (v6 n z) = v6 n ""
without_zone a = a

-- PrefixFrom
unfoldable pub prefix_from : Addr → ℕ → Prefix
prefix_from a b =
    if is_valid_addr a && leb b (bit_len a)
    then record { addr = without_zone a; bits_plus_one = b + 1 }
    else record { addr = without_zone a; bits_plus_one = 0 }

-- The address with all but its first `b` bits cleared.
abbrev pub clear_host : ℕ → ℕ → ℕ → ℕ
clear_host w b n = n / 2 ^ (w - b) * 2 ^ (w - b)

abbrev pub mask_addr : ℕ → Addr → Addr
mask_addr b invalid = invalid
mask_addr b (v4 n) = v4 (clear_host 32 b n)
mask_addr b (v6 n z) = v6 (clear_host 128 b n) z

-- Prefix.Masked
unfoldable pub masked : Prefix → Prefix
masked p =
    if is_valid_prefix p
    then record p { addr = mask_addr (bits p) p.addr }
    else record { addr = invalid; bits_plus_one = 0 }

abbrev pub same_net : ℕ → Addr → Addr → Bool
same_net b (v4 m) (v4 n) = eqb (m / 2 ^ (32 - b)) (n / 2 ^ (32 - b))
same_net b (v6 m y) (v6 n z) = eqb (m / 2 ^ (128 - b)) (n / 2 ^ (128 - b)) && z == ""
same_net b _ _ = false

-- Prefix.Contains
unfoldable pub contains_addr : Prefix → Addr → Bool
contains_addr p a = is_valid_prefix p && same_net (bits p) p.addr a

instance abbrev pub addr_eq : Eq Addr
addr_eq = record { beq = addr_eqb; beq_iff = addr_eqb_iff }

instance abbrev pub prefix_eq : Eq Prefix
prefix_eq = eq_of_discrete Prefix-discrete

-- The text form of a prefix, by which the program sorts.
pub record PrefixText : Type 0 where
  pub text : Prefix → String

abbrev pub second : ℕ
second = 1000000000

abbrev pub minute : ℕ
minute = 60000000000
