-- ===== src/Bmc/Compare/Laws.antt =====
-- The data set comparison as an order.
use ptp_noposix.Prelude.{
  ℕ, ◌/◌, ◌%◌, ◌<◌, ◌≡◌, ◌≢◌, refl, sym, ◌⊎◌, inl, inr, ◌∙◌, ap, List, [], ◌∷◌, arith, ◌==◌,
  if◌then◌else◌, compare, Ordering,
}
use ptp_noposix.Prelude.Int.{ℤ, neg}
use ptp_noposix.Datatypes.{ClockIdentity, octets, MsgAnnounce}
use ptp_noposix.Constants.{dsc_error}
use ptp_noposix.Bmc.Compare.{
  memcmp, memcmp_identity, memcmp_1, by_comp, DataSet, compare_topology, compare_quality,
  bmc_data_set_comparison,
}

abbrev pub opposite : Ordering → Ordering
opposite Ordering.lt = Ordering.gt
opposite Ordering.eq = Ordering.eq
opposite Ordering.gt = Ordering.lt

compare-opposite : (x y : ℕ) → compare y x ≡ opposite (compare x y)
compare-opposite x y = ground arith

pub memcmp-opposite : (xs ys : List ℕ) → memcmp ys xs ≡ opposite (memcmp xs ys)
unfolding memcmp
memcmp-opposite [] [] = refl
memcmp-opposite [] (y ∷ ys) = refl
memcmp-opposite (x ∷ xs) [] = refl
memcmp-opposite (x ∷ xs) (y ∷ ys) = ground (arith, memcmp-opposite xs ys)

Ordering-cases : (o : Ordering) → (o ≡ Ordering.eq) ⊎ ((o ≡ Ordering.lt) ⊎ (o ≡ Ordering.gt))
Ordering-cases Ordering.lt = inr (inl refl)
Ordering-cases Ordering.eq = inl refl
Ordering-cases Ordering.gt = inr (inr refl)

pub memcmp_refl : (xs : List ℕ) → memcmp xs xs ≡ Ordering.eq
unfolding memcmp
memcmp_refl [] = refl
memcmp_refl (x ∷ xs) = ground (arith, memcmp_refl xs)

-- Two clock identities that compare equal are the same.
pub memcmp_identity-eq : (a b : ClockIdentity) → memcmp_identity a b ≡ Ordering.eq → a ≡ b
unfolding memcmp
memcmp_identity-eq a b h = ground arith

topology_opposite :
    (a b : DataSet) (r : ClockIdentity) → compare_topology b a r ≡ neg (compare_topology a b r)
unfolding compare_topology neg
topology_opposite a b r = ground (
  arith,
  memcmp-opposite (octets a.header.source_port_identity.clock_identity)
      (octets b.header.source_port_identity.clock_identity),
)

by_comp-opposite : (o : Ordering) → by_comp (opposite o) ≡ neg (by_comp o)
unfolding neg
by_comp-opposite Ordering.lt = refl
by_comp-opposite Ordering.eq = refl
by_comp-opposite Ordering.gt = refl

-- One rung of the ladder: the sides may be exchanged where they may be on the rungs below.
rung_opposite :
    (x y : ℕ) (u v : ℤ)
    → v ≡ neg u
    → (if y == x then v else by_comp (memcmp_1 y x))
      ≡ neg (if x == y then u else by_comp (memcmp_1 x y))
unfolding neg
rung_opposite x y u v e = ground arith

quality_opposite : (a b : MsgAnnounce) → compare_quality b a ≡ neg (compare_quality a b)
unfolding compare_quality
quality_opposite a b =
    let qa = a.grandmaster_clock_quality in
    let qb = b.grandmaster_clock_quality in
    rung_opposite a.grandmaster_priority1 b.grandmaster_priority1 _ _ (
      rung_opposite qa.clock_class qb.clock_class _ _ (
        rung_opposite qa.clock_accuracy qb.clock_accuracy _ _ (
          rung_opposite qa.offset_scaled_log_variance qb.offset_scaled_log_variance _ _ (
            rung_opposite a.grandmaster_priority2 b.grandmaster_priority2 _ _ (
              ap by_comp
                (memcmp-opposite (octets a.grandmaster_identity) (octets b.grandmaster_identity))
              ∙ by_comp-opposite
                  (memcmp_identity a.grandmaster_identity b.grandmaster_identity))))))

-- Exchanging the two data sets negates the answer of the comparison: "A better" becomes "B better",
-- by topology or not, and "equal" or "error" stays.
pub comparison_opposite :
    (a b : DataSet) (r : ClockIdentity)
    → bmc_data_set_comparison b a r ≡ neg (bmc_data_set_comparison a b r)
unfolding bmc_data_set_comparison neg
comparison_opposite a b r = ground (
  arith,
  memcmp-opposite (octets a.announce.grandmaster_identity) (octets b.announce.grandmaster_identity),
  topology_opposite a b r,
  quality_opposite a.announce b.announce,
)

-- The attributes in the order in which they count.
abbrev pub key : MsgAnnounce → List ℕ
key a =
    a.grandmaster_priority1
    ∷ a.grandmaster_clock_quality.clock_class
    ∷ a.grandmaster_clock_quality.clock_accuracy
    ∷ a.grandmaster_clock_quality.offset_scaled_log_variance
    ∷ a.grandmaster_priority2
    ∷ octets a.grandmaster_identity

-- The attributes of one octet are octets.
abbrev pub HasOctets : MsgAnnounce → Type 0
HasOctets a =
    (a.grandmaster_priority1 < 256)
    × (a.grandmaster_clock_quality.clock_class < 256)
    × (a.grandmaster_clock_quality.clock_accuracy < 256)
    × (a.grandmaster_priority2 < 256)

rung_key :
    (x y : ℕ) (xs ys : List ℕ) {u : ℤ}
    → x / 256 ≡ y / 256
    → u ≡ by_comp (memcmp xs ys)
    → (if x == y then u else by_comp (memcmp_1 x y)) ≡ by_comp (memcmp (x ∷ xs) (y ∷ ys))
unfolding memcmp
rung_key x y xs ys h e = ground arith

quality-key :
    (a b : MsgAnnounce)
    → HasOctets a
    → HasOctets b
    → a.grandmaster_clock_quality.offset_scaled_log_variance / 256
      ≡ b.grandmaster_clock_quality.offset_scaled_log_variance / 256
    → compare_quality a b ≡ by_comp (memcmp (key a) (key b))
unfolding compare_quality
quality-key a b ha hb hv =
    rung_key a.grandmaster_priority1 b.grandmaster_priority1 _ _ (omega arith) (
      rung_key _ _ _ _ (omega arith) (
        rung_key _ _ _ _ (omega arith) (rung_key _ _ _ _ hv (rung_key _ _ _ _ (omega arith) refl))))

memcmp_tail :
    (x y : ℕ) (xs ys : List ℕ) → memcmp (x ∷ xs) (y ∷ ys) ≡ Ordering.eq → memcmp xs ys ≡ Ordering.eq
unfolding memcmp
memcmp_tail x y xs ys h = ground arith

pub key_differs :
    (a b : MsgAnnounce)
    → a.grandmaster_identity ≢ b.grandmaster_identity
    → memcmp (key a) (key b) ≢ Ordering.eq
key_differs a b ne e = ne (
    memcmp_identity-eq _ _ (
      memcmp_tail _ _ _ _
        (memcmp_tail _ _ _ _ (memcmp_tail _ _ _ _ (memcmp_tail _ _ _ _ (memcmp_tail _ _ _ _ e))))))

by_comp-error : (o : Ordering) → by_comp o ≡ dsc_error → o ≡ Ordering.eq
by_comp-error Ordering.lt h = absurd (cc h)
by_comp-error Ordering.eq h = refl
by_comp-error Ordering.gt h = absurd (ground arith)

comparison_differs :
    (a b : DataSet) (r : ClockIdentity)
    → a.reception_port_number ≢ 0
    → b.reception_port_number ≢ 0
    → a.announce.grandmaster_identity ≢ b.announce.grandmaster_identity
    → bmc_data_set_comparison a b r ≡ compare_quality a.announce b.announce
unfolding bmc_data_set_comparison
comparison_differs a b r pa pb ne = elim (Ordering-cases (memcmp_identity ia ib)) [
  | inl e ↦ absurd (ne (memcmp_identity-eq ia ib e))
  | inr d ↦ ground arith
]
  where
    ia : ClockIdentity
    ia = a.announce.grandmaster_identity

    ib : ClockIdentity
    ib = b.announce.grandmaster_identity

-- For two received data sets of different grandmasters, with octets in their one-octet attributes
-- and variances that agree in the upper octet, the comparison answers as the lexicographic order on
-- priority1, class, accuracy, variance, priority2 and identity does, and never "equal" or "error".
pub comparison-key :
    (a b : DataSet) (r : ClockIdentity)
    → a.reception_port_number ≢ 0
    → b.reception_port_number ≢ 0
    → a.announce.grandmaster_identity ≢ b.announce.grandmaster_identity
    → HasOctets a.announce
    → HasOctets b.announce
    → a.announce.grandmaster_clock_quality.offset_scaled_log_variance / 256
      ≡ b.announce.grandmaster_clock_quality.offset_scaled_log_variance / 256
    → (bmc_data_set_comparison a b r ≡ by_comp (memcmp (key a.announce) (key b.announce)))
      × (bmc_data_set_comparison a b r ≢ dsc_error)
comparison-key a b r pa pb ne ha hb hv =
    let e = comparison_differs a b r pa pb ne ∙ quality-key a.announce b.announce ha hb hv in
    (e, λ z. key_differs a.announce b.announce ne (by_comp-error _ (sym e ∙ z)))

variance_rung :
    (a b : MsgAnnounce)
    → a.grandmaster_priority1 ≡ b.grandmaster_priority1
    → a.grandmaster_clock_quality.clock_class ≡ b.grandmaster_clock_quality.clock_class
    → a.grandmaster_clock_quality.clock_accuracy ≡ b.grandmaster_clock_quality.clock_accuracy
    → a.grandmaster_clock_quality.offset_scaled_log_variance
      ≢ b.grandmaster_clock_quality.offset_scaled_log_variance
    → compare_quality a b
      ≡ by_comp (
          memcmp_1 a.grandmaster_clock_quality.offset_scaled_log_variance
            b.grandmaster_clock_quality.offset_scaled_log_variance)
unfolding compare_quality
variance_rung a b e1 e2 e3 nv = ground arith

-- For two received data sets of different grandmasters that agree in priority1, class and accuracy
-- and differ in variance, the comparison answers by the lowest octets of the variances only: equal
-- ones give an error, and other ones decide, whatever the upper octets are.
pub comparison-variance :
    (a b : DataSet) (r : ClockIdentity)
    → a.reception_port_number ≢ 0
    → b.reception_port_number ≢ 0
    → a.announce.grandmaster_identity ≢ b.announce.grandmaster_identity
    → a.announce.grandmaster_priority1 ≡ b.announce.grandmaster_priority1
    → a.announce.grandmaster_clock_quality.clock_class
      ≡ b.announce.grandmaster_clock_quality.clock_class
    → a.announce.grandmaster_clock_quality.clock_accuracy
      ≡ b.announce.grandmaster_clock_quality.clock_accuracy
    → a.announce.grandmaster_clock_quality.offset_scaled_log_variance
      ≢ b.announce.grandmaster_clock_quality.offset_scaled_log_variance
    → bmc_data_set_comparison a b r
      ≡ by_comp (
          compare
            (a.announce.grandmaster_clock_quality.offset_scaled_log_variance % 256)
            (b.announce.grandmaster_clock_quality.offset_scaled_log_variance % 256))
comparison-variance a b r pa pb ne e1 e2 e3 nv =
    comparison_differs a b r pa pb ne ∙ variance_rung a.announce b.announce e1 e2 e3 nv
