-- ===== src/Cluster/Capacity.antt =====
-- internal/cluster/scheduler.go: what a forward reserves, and what a node has left. A `uint64` and a
-- `uint32` wrap.
use l4way.Prelude.{
  ℕ, ◌+◌, ◌-◌, ◌%◌, ◌^◌, ◌≤◌, ◌<◌, ◌≡◌, ◌≢◌, Bool, true, ◌&&◌, not, none, some, List, String, ltb,
  leb, if◌then◌else◌, ◌==◌, nat_eq, string_eq, lookup, insert, get_or_default, arith,
}
use l4way.Cluster.{NodeCapacity, Reservation, Node, Forward}

pub record NodeUsage : Type 0 where
  pub forwards : ℕ
  pub ingress : ℕ
  pub egress : ℕ

abbrev pub no_usage : NodeUsage
no_usage = record { forwards = 0; ingress = 0; egress = 0 }

abbrev pub Usages : Type 0
Usages = List (String × NodeUsage)

-- usage[id], which is zero for a missing key.
abbrev pub usage_of : Usages → String → NodeUsage
usage_of usages id = get_or_default no_usage (lookup id usages)

abbrev pub add_u64 : ℕ → ℕ → ℕ
add_u64 a b = (a + b) % 2 ^ 64

abbrev pub sub_u64 : ℕ → ℕ → ℕ
sub_u64 a b = (a + 2 ^ 64 - b) % 2 ^ 64

-- One of the two tests of `fits` on bits per second: 0 is no limit.
abbrev pub has_room : ℕ → ℕ → ℕ → Bool
has_room capacity current wanted =
    not (not (capacity == 0) && ltb (sub_u64 capacity current) wanted)

-- fits
unfoldable pub fits : Node → NodeUsage → Reservation → Bool
fits node current reservation =
    not (leb node.capacity.max_forwards current.forwards)
    && has_room node.capacity.ingress_bits_per_second current.ingress
        reservation.ingress_bits_per_second
    && has_room node.capacity.egress_bits_per_second current.egress
        reservation.egress_bits_per_second

abbrev pub add_usage : NodeUsage → Reservation → NodeUsage
add_usage current reservation = record {
  forwards = (current.forwards + 1) % 2 ^ 32;
  ingress = add_u64 current.ingress reservation.ingress_bits_per_second;
  egress = add_u64 current.egress reservation.egress_bits_per_second;
}

-- consume
unfoldable pub consume : Usages → Node → Reservation → Usages
consume usages node reservation =
    insert node.id (add_usage (usage_of usages node.id) reservation) usages

abbrev pub or_limit : ℕ → ℕ → ℕ
or_limit reserved limit = if reserved == 0 then limit else reserved

-- effectiveReservation
unfoldable pub effective_reservation : Forward → Reservation
effective_reservation forward = elim forward.rate_limit [
  | none ↦ forward.reservation
  | some limit ↦ record {
    ingress_bits_per_second =
        or_limit forward.reservation.ingress_bits_per_second limit.ingress_bits_per_second;
    egress_bits_per_second =
        or_limit forward.reservation.egress_bits_per_second limit.egress_bits_per_second;
  }
]

-- A usage that the capacity allows.
pub record IsWithin (c : NodeCapacity) (u : NodeUsage) : Type 0 where
  pub forwards : u.forwards ≤ c.max_forwards
  pub ingress : c.ingress_bits_per_second ≢ 0 → u.ingress ≤ c.ingress_bits_per_second
  pub egress : c.egress_bits_per_second ≢ 0 → u.egress ≤ c.egress_bits_per_second

-- The fields of a capacity are machine integers.
pub record IsCapacity (c : NodeCapacity) : Type 0 where
  pub forwards : c.max_forwards < 2 ^ 32
  pub ingress : c.ingress_bits_per_second < 2 ^ 64
  pub egress : c.egress_bits_per_second < 2 ^ 64

has_room_lem :
    (capacity current wanted : ℕ)
    → capacity < 2 ^ 64
    → has_room capacity current wanted ≡ true
    → (capacity ≢ 0 → current ≤ capacity)
    → capacity ≢ 0
    → (current + wanted ≤ capacity) × (add_u64 current wanted ≡ current + wanted)
has_room_lem capacity current wanted c h w n =
    let le = w n in let room : current + wanted ≤ capacity = ground arith in (room, omega arith)

fits_parts :
    (node : Node) (u : NodeUsage) (r : Reservation)
    → fits node u r ≡ true
    → (u.forwards < node.capacity.max_forwards)
      × (has_room node.capacity.ingress_bits_per_second u.ingress r.ingress_bits_per_second ≡ true)
      × (has_room node.capacity.egress_bits_per_second u.egress r.egress_bits_per_second ≡ true)
unfolding fits
fits_parts node u r h = ground arith

-- What `fits` has admitted keeps the usage within the capacity, and no sum wraps where the capacity
-- has a limit.
pub add_usage-IsWithin :
    (node : Node) (u : NodeUsage) (r : Reservation)
    → IsCapacity node.capacity
    → IsWithin node.capacity u
    → fits node u r ≡ true
    → IsWithin node.capacity (add_usage u r)
      × ((add_usage u r).forwards ≡ u.forwards + 1)
      × (node.capacity.ingress_bits_per_second ≢ 0
          → (add_usage u r).ingress ≡ u.ingress + r.ingress_bits_per_second)
      × (node.capacity.egress_bits_per_second ≢ 0
          → (add_usage u r).egress ≡ u.egress + r.egress_bits_per_second)
add_usage-IsWithin node u r c w h =
    let (f, i, e) = fits_parts node u r h in
    let ingress = has_room_lem _ u.ingress r.ingress_bits_per_second c.ingress i w.ingress in
    let egress = has_room_lem _ u.egress r.egress_bits_per_second c.egress e w.egress in
    let forwards : (u.forwards + 1) % 2 ^ 32 ≡ u.forwards + 1 = omega (arith, c.forwards) in
    (
      record {
        forwards = omega (arith, forwards);
        ingress = λ n. omega (arith, (ingress n).0, (ingress n).1);
        egress = λ n. omega (arith, (egress n).0, (egress n).1);
      },
      forwards,
      λ n. (ingress n).1,
      λ n. (egress n).1,
    )
