-- ===== src/Usage/Distinct.antt =====
-- What an accepted batch satisfies (internal/usage/types.go).
use l4way.Prelude.{
  ◌≡◌, ◌≢◌, ◌⊎◌, arith, true, not, ◌&&◌, ◌||◌, ◌==◌, string_eq, nat_eq, List, [], ◌∷◌, All, ok,
  then_ok, reject_if, reject_if-ok, map, Fresh, none-equal,
}
use l4way.Spec.{tcp, udp, protocol_eq, upload, download}
use l4way.Spec.Identifier.{valid_identifier}
use l4way.Usage.{
  Delta, Batch, Key, key_of, key_eq, direction_eq, bad_node_id, bad_header, bad_forward_id,
  bad_protocol, bad_direction, bad_version, duplicated, check_delta, check_deltas, validate_batch,
  valid_checksum,
}

-- A delta is of a known protocol, a known direction and a version that is set.
abbrev pub IsSound : Delta → Type 0
IsSound d =
    (valid_identifier d.forward_id ≡ true)
    × ((d.protocol ≡ tcp) ⊎ (d.protocol ≡ udp))
    × ((d.direction ≡ upload) ⊎ (d.direction ≡ download))
    × (d.resource_version ≢ 0)

check_delta-parts :
    (d : Delta) (seen : List Key)
    → check_delta d seen ≡ ok tt
    → IsSound d × All (λ k. k ≢ key_of d) seen
unfolding check_delta
check_delta-parts d seen h =
    let (a, h1) = then_ok (reject_if (not (valid_identifier d.forward_id)) bad_forward_id) _ h in
    let (b, h2) =
      then_ok (reject_if (not (d.protocol == tcp) && not (d.protocol == udp)) bad_protocol) _ h1 in
    let (c, h3) =
      then_ok
        (reject_if (not (d.direction == upload) && not (d.direction == download)) bad_direction) _
        h2 in
    let (e, f) = then_ok (reject_if (d.resource_version == 0) bad_version) _ h3 in
    let identifier = reject_if-ok _ bad_forward_id a in
    let protocol = reject_if-ok _ bad_protocol b in
    let direction = reject_if-ok _ bad_direction c in
    let version = reject_if-ok _ bad_version e in
    (
      (
        ground arith,
        ground (arith, protocol_eq.beq_iff d.protocol tcp, protocol_eq.beq_iff d.protocol udp),
        ground (
          arith,
          direction_eq.beq_iff d.direction upload,
          direction_eq.beq_iff d.direction download,
        ),
        λ z. ground arith,
      ),
      none-equal ⦃e = key_eq⦄ (key_of d) seen (reject_if-ok _ duplicated f),
    )

check_deltas-Fresh :
    (ds : List Delta) (seen : List Key)
    → check_deltas ds seen ≡ ok tt
    → All IsSound ds × Fresh seen (map key_of ds)
unfolding check_deltas
check_deltas-Fresh [] seen h = (tt, tt)
check_deltas-Fresh (d ∷ ds) seen h =
    let (first, rest) = then_ok (check_delta d seen) _ h in
    let (s, f) = check_delta-parts d seen first in
    let (ss, fs) = check_deltas-Fresh ds (key_of d ∷ seen) rest in ((s, ss), (f, fs))

-- The deltas of an accepted batch are sound, and no two of them count the same traffic: the same forward,
-- protocol, direction and version.
pub validate_batch-Fresh :
    (b : Batch) → validate_batch b ≡ ok tt → All IsSound b.deltas × Fresh [] (map key_of b.deltas)
unfolding validate_batch
validate_batch-Fresh b h =
    let (_, rest) = then_ok (reject_if (not (valid_identifier b.node_id)) bad_node_id) _ h in
    let (_, deltas) =
      then_ok
        (reject_if
          (not (valid_checksum b.epoch)
            || b.sequence == 0
            || b.generation == 0
            || b.observed_at == 0)
          bad_header)
        _ rest in
    check_deltas-Fresh b.deltas [] deltas
