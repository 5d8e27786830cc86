-- ===== src/Usage.antt =====
-- internal/usage/types.go: the batches of counted traffic that an agent reports. An instant is a number
-- that is 0 for the zero time.
pub mod Distinct
use Prim.Native.Char.{Char, code}
use l4way.Prelude.{
  ℕ, zero, suc, String, Bool, true, false, not, ◌&&◌, ◌||◌, List, [], ◌∷◌, ltb, ◌==◌, Eq, ◌≡◌, ◌↔◌,
  arith, refl, string_eq, nat_eq, if◌then◌else◌, Result, ok, err, ◌>>=◌, ◌>>◌, reject_if, any,
}
use l4way.Spec.{Protocol, tcp, udp, protocol_eq, TrafficDirection, upload, download}
use l4way.Spec.Identifier.{valid_identifier}

abbrev pub direction_eqb : TrafficDirection → TrafficDirection → Bool
direction_eqb upload upload = true
direction_eqb download download = true
direction_eqb (TrafficDirection.other s) (TrafficDirection.other t) = s == t
direction_eqb _ _ = false

pub direction_eqb_iff : (a b : TrafficDirection) → (direction_eqb a b ≡ true) ↔ (a ≡ b)
direction_eqb_iff upload upload = (λ h. refl, λ h. refl)
direction_eqb_iff download download = (λ h. refl, λ h. refl)
direction_eqb_iff (TrafficDirection.other s) (TrafficDirection.other t) =
    ground (arith, string_eq.beq_iff s t)
direction_eqb_iff a b = ground arith

instance abbrev pub direction_eq : Eq TrafficDirection
direction_eq = record { beq = direction_eqb; beq_iff = direction_eqb_iff }

pub record Delta : Type 0 where
  pub forward_id : String
  pub protocol : Protocol
  pub direction : TrafficDirection
  pub resource_version : ℕ
  pub packets : ℕ
  pub bytes : ℕ
  pub reset : Bool

pub record Batch : Type 0 where
  pub node_id : String
  pub epoch : String
  pub sequence : ℕ
  pub generation : ℕ
  pub observed_at : ℕ
  pub deltas : List Delta

pub data BatchError : Type 0 where
  bad_node_id bad_header bad_forward_id bad_protocol bad_direction bad_version duplicated :
      BatchError

-- Exactly so many characters, and each is a hexadecimal digit in lower case.
abbrev pub hex_digits : ℕ → String → Bool
hex_digits zero String.[] = true
hex_digits zero (String.◌∷◌ c cs) = false
hex_digits (suc n) String.[] = false
hex_digits (suc n) (String.◌∷◌ c cs) =
    not (ltb (code c) 48 || (ltb 57 (code c) && ltb (code c) 97) || ltb 102 (code c))
    && hex_digits n cs

-- validChecksum
unfoldable pub valid_checksum : String → Bool
valid_checksum value = hex_digits 64 value

-- What the text of the key is made of. The parts hold no `/` when they are tried.
pub record Key : Type 0 where
  pub forward_id : String
  pub protocol : Protocol
  pub direction : TrafficDirection
  pub resource_version : ℕ

abbrev pub key_of : Delta → Key
key_of d = record {
  forward_id = d.forward_id;
  protocol = d.protocol;
  direction = d.direction;
  resource_version = d.resource_version;
}

abbrev pub key_eqb : Key → Key → Bool
key_eqb a b =
    a.forward_id == b.forward_id
    && a.protocol == b.protocol
    && a.direction == b.direction
    && a.resource_version == b.resource_version

pub key_eqb_iff : (a b : Key) → (key_eqb a b ≡ true) ↔ (a ≡ b)
key_eqb_iff a b =
    let record { forward_id = i; protocol = p; direction = d; resource_version = n } = a in
    let record { forward_id = j; protocol = q; direction = e; resource_version = m } = b in
    ground (arith, string_eq.beq_iff i j, protocol_eq.beq_iff p q, direction_eqb_iff d e)

instance abbrev pub key_eq : Eq Key
key_eq = record { beq = key_eqb; beq_iff = key_eqb_iff }

-- The body of the loop over the deltas.
unfoldable pub check_delta : Delta → List Key → Result BatchError (Unit {0})
check_delta d seen = do
  reject_if (not (valid_identifier d.forward_id)) bad_forward_id
  reject_if (not (d.protocol == tcp) && not (d.protocol == udp)) bad_protocol
  reject_if (not (d.direction == upload) && not (d.direction == download)) bad_direction
  reject_if (d.resource_version == 0) bad_version
  reject_if (any (λ k. k == key_of d) seen) duplicated

unfoldable pub check_deltas : List Delta → List Key → Result BatchError (Unit {0})
unfolding check_delta
check_deltas [] seen = ok tt
check_deltas (d ∷ ds) seen = do check_delta d seen; check_deltas ds (key_of d ∷ seen)

-- Batch.Validate
unfoldable pub validate_batch : Batch → Result BatchError (Unit {0})
unfolding check_deltas
validate_batch b = do
  reject_if (not (valid_identifier b.node_id)) bad_node_id
  reject_if
      (not (valid_checksum b.epoch) || b.sequence == 0 || b.generation == 0 || b.observed_at == 0)
      bad_header
  check_deltas b.deltas []
