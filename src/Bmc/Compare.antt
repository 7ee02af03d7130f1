-- ===== src/Bmc/Compare.antt =====
-- `bmcDataSetComparison` of PTPWRd/bmc.c, and the `memcmp` that it calls.
pub mod Laws
use ptp_noposix.Prelude.{
  ℕ, ◌+◌, ◌%◌, List, [], ◌∷◌, ltb, ◌==◌, ◌&&◌, if◌then◌else◌, compare, Ordering,
}
use ptp_noposix.Prelude.Int.{ℤ}
use ptp_noposix.Datatypes.{ClockIdentity, octets, MsgHeader, MsgAnnounce}
use ptp_noposix.Constants.{
  a_better_by_topology_then_b, a_better_then_b, b_better_then_a, b_better_by_topology_then_a,
  a_equals_b, dsc_error,
}

-- The sign of `memcmp` over two arrays of one length.
unfoldable pub memcmp : List ℕ → List ℕ → Ordering
memcmp [] _ = Ordering.eq
memcmp (x ∷ xs) [] = Ordering.eq
memcmp (x ∷ xs) (y ∷ ys) = elim (compare x y) [
  | Ordering.lt ↦ Ordering.lt
  | Ordering.eq ↦ memcmp xs ys
  | Ordering.gt ↦ Ordering.gt
]

abbrev pub memcmp_identity : ClockIdentity → ClockIdentity → Ordering
memcmp_identity a b = memcmp (octets a) (octets b)

-- `memcmp(&x, &y, 1)`: the first octet in memory, which is the lowest one of a wider word.
abbrev pub memcmp_1 : ℕ → ℕ → Ordering
memcmp_1 x y = compare (x % 256) (y % 256)

-- The ladder `comp < 0`, `comp > 0`, else.
abbrev pub by_comp : Ordering → ℤ
by_comp Ordering.lt = a_better_then_b
by_comp Ordering.eq = dsc_error
by_comp Ordering.gt = b_better_then_a

-- One side of the comparison: a header, an announce message, a reception port number.
pub record DataSet : Type 0 where
  pub header : MsgHeader
  pub announce : MsgAnnounce
  pub reception_port_number : ℕ

-- The branch for the same grandmaster (Fig 28). `receiver` is the clock identity of the port.
unfoldable pub compare_topology : DataSet → DataSet → ClockIdentity → ℤ
compare_topology a b receiver =
    let steps_a = a.announce.steps_removed in
    let steps_b = b.announce.steps_removed in
    let sender_a = a.header.source_port_identity.clock_identity in
    let sender_b = b.header.source_port_identity.clock_identity in
    if ltb (steps_b + 1) steps_a
    then b_better_then_a
    else if ltb (steps_a + 1) steps_b
    then a_better_then_b
    else if ltb steps_b steps_a
    then elim (memcmp_identity sender_a receiver) [
      | Ordering.eq ↦ a_equals_b
      | Ordering.gt ↦ b_better_then_a
      | Ordering.lt ↦ b_better_by_topology_then_a
    ]
    else if ltb steps_a steps_b
    then elim (memcmp_identity sender_b receiver) [
      | Ordering.eq ↦ a_equals_b
      | Ordering.gt ↦ a_better_then_b
      | Ordering.lt ↦ a_better_by_topology_then_b
    ]
    else elim (memcmp_identity sender_a sender_b) [
      | Ordering.eq ↦
          if ltb a.reception_port_number b.reception_port_number
          then a_better_by_topology_then_b
          else if ltb b.reception_port_number a.reception_port_number
          then b_better_by_topology_then_a
          else a_equals_b
      | Ordering.lt ↦ a_better_by_topology_then_b
      | Ordering.gt ↦ b_better_by_topology_then_a
    ]

-- The branch for different grandmasters (Fig 27).
unfoldable pub compare_quality : MsgAnnounce → MsgAnnounce → ℤ
compare_quality a b =
    let qa = a.grandmaster_clock_quality in
    let qb = b.grandmaster_clock_quality in
    if a.grandmaster_priority1 == b.grandmaster_priority1
    then if qa.clock_class == qb.clock_class
      then if qa.clock_accuracy == qb.clock_accuracy
        then if qa.offset_scaled_log_variance == qb.offset_scaled_log_variance
          then if a.grandmaster_priority2 == b.grandmaster_priority2
            then by_comp (memcmp_identity a.grandmaster_identity b.grandmaster_identity)
            else by_comp (memcmp_1 a.grandmaster_priority2 b.grandmaster_priority2)
          else by_comp (memcmp_1 qa.offset_scaled_log_variance qb.offset_scaled_log_variance)
        else by_comp (memcmp_1 qa.clock_accuracy qb.clock_accuracy)
      else by_comp (memcmp_1 qa.clock_class qb.clock_class)
    else by_comp (memcmp_1 a.grandmaster_priority1 b.grandmaster_priority1)

unfoldable pub bmc_data_set_comparison : DataSet → DataSet → ClockIdentity → ℤ
bmc_data_set_comparison a b receiver =
    if a.reception_port_number == 0 && b.reception_port_number == 0
    then dsc_error
    else if b.reception_port_number == 0
    then a_better_then_b
    else if a.reception_port_number == 0
    then b_better_then_a
    else elim (memcmp_identity a.announce.grandmaster_identity b.announce.grandmaster_identity) [
      | Ordering.eq ↦ compare_topology a b receiver
      | _ ↦ compare_quality a.announce b.announce
    ]
