-- ===== src/Spec/Checksum/Prefixes.antt =====
-- Normalising an address or a prefix twice (internal/spec/canonical.go).
use l4way.Prelude.{
  ℕ, zero, suc, ◌+◌, ◌-◌, ◌*◌, ◌/◌, ◌^◌, ◌≤◌, ◌<◌, ◌≡◌, ◌≢◌, inl, inr, refl, ap, sym, subst, ◌∙◌,
  arith, Bool-cases,
}
use l4way.Net.{
  Addr, invalid, v4, v6, Prefix, unmap, bits, prefix_from, masked, mask_addr, is_valid_prefix,
}
use l4way.Spec.Canonical.{canonical_prefix, canonical_interface_prefix}
use native.Mathlib.Nat.{mul-div_cancel, div-div-eq-div-mul, pow-suc, zero-add, suc-add}
use native.Mathlib.Decide.{dec_le}

pub unmap-unmap : (a : Addr) → unmap (unmap a) ≡ unmap a
unfolding unmap
unmap-unmap invalid = refl
unmap-unmap (v4 n) = refl
unmap-unmap (v6 n z) = ground arith

pub canonical_interface_prefix_idem :
    (p : Prefix)
    → canonical_interface_prefix (canonical_interface_prefix p) ≡ canonical_interface_prefix p
unfolding canonical_interface_prefix prefix_from unmap
canonical_interface_prefix_idem p = ground arith

clear_clear : (m n : ℕ) → n / m * m / m * m ≡ n / m * m
clear_clear zero n = omega arith
clear_clear (suc m) n = rw (mul-div_cancel (n / suc m) {n = suc m} (omega arith))

pow-add : (a b : ℕ) → 2 ^ (a + b) ≡ 2 ^ a * 2 ^ b
pow-add zero b = rw zero-add (omega arith)
pow-add (suc a) b =
    rw (suc-add, pow-suc, pow-suc) (omega (arith, ap (λ (t : ℕ). t * 2) (pow-add a b)))

pow-pos : (a : ℕ) → 0 < 2 ^ a
pow-pos zero = omega arith
pow-pos (suc a) = rw pow-suc (omega (arith, pow-pos a))

-- Clearing below the bit that a division drops does not change the quotient.
div-clear : (p q n : ℕ) → 0 < p → n / p * p / (p * q) ≡ n / (p * q)
div-clear p q n h =
    rw (← div-div-eq-div-mul (n / p * p) p q)
      (rw (mul-div_cancel (n / p) {n = p} h, div-div-eq-div-mul n p q))

clear_low : (s n : ℕ) → s ≤ 32 → n / 2 ^ s * 2 ^ s / 2 ^ 32 ≡ n / 2 ^ 32
clear_low s n le =
    subst (λ (m : ℕ). n / 2 ^ s * 2 ^ s / m ≡ n / m)
      (sym (pow-add s (32 - s)) ∙ ap (λ (t : ℕ). 2 ^ t) {y = 32} (omega arith))
      (div-clear (2 ^ s) (2 ^ (32 - s)) n (pow-pos s))

clear_high : (t n : ℕ) → n / 2 ^ (33 + t) * 2 ^ (33 + t) / 2 ^ 32 ≢ 0xffff
clear_high t n = rw (pow-add 33 t) (high (n / (2 ^ 33 * 2 ^ t)) (2 ^ t))
  where
    high : (k q : ℕ) → k * (2 ^ 33 * q) / 2 ^ 32 ≢ 0xffff
    high k q = omega arith

clear_host-4in6 : (s n : ℕ) → n / 2 ^ 32 ≢ 0xffff → n / 2 ^ s * 2 ^ s / 2 ^ 32 ≢ 0xffff
clear_host-4in6 s n h = elim (dec_le s 32) [
  | yes le ↦ rw (clear_low s n le) h
  | no gt ↦
      subst (λ (u : ℕ). n / 2 ^ u * 2 ^ u / 2 ^ 32 ≢ 0xffff) (omega arith) (clear_high (s - 33) n)
]

-- Masking keeps a prefix in normal form.
masked-normal :
    (a : Addr) (k : ℕ)
    → let p : Prefix = record { addr = a; bits_plus_one = k } in
      canonical_interface_prefix p ≡ p → canonical_interface_prefix (masked p) ≡ masked p
unfolding canonical_interface_prefix prefix_from masked unmap
masked-normal invalid k h = ground arith
masked-normal (v4 n) k h = ground arith
masked-normal (v6 n z) k h = ground (arith, clear_host-4in6 (128 - (k - 1)) n)

mask_addr_idem : (b : ℕ) (a : Addr) → mask_addr b (mask_addr b a) ≡ mask_addr b a
mask_addr_idem b invalid = refl
mask_addr_idem b (v4 n) = ap v4 (clear_clear (2 ^ (32 - b)) n)
mask_addr_idem b (v6 n z) = ap (λ (m : ℕ). v6 m z) (clear_clear (2 ^ (128 - b)) n)

masked-masked : (p : Prefix) → masked (masked p) ≡ masked p
unfolding masked
masked-masked p = elim (Bool-cases (is_valid_prefix p)) [
  | inl t ↦ rw t (rw t (rw (mask_addr_idem (bits p) p.addr)))
  | inr f ↦ rw f
]

pub canonical_prefix_idem :
    (p : Prefix) → canonical_prefix (canonical_prefix p) ≡ canonical_prefix p
unfolding canonical_prefix
canonical_prefix_idem p =
    let q = canonical_interface_prefix p in
    let n = masked-normal q.addr q.bits_plus_one (canonical_interface_prefix_idem p) in
    ground (arith, masked-masked q)
