-- ===== src/Bmc/Best/Laws.antt =====
-- The choice among foreign masters as the choice of a minimum.
use mathlib.Core.Path.{subst}
use ptp_noposix.Prelude.{
  ℕ, zero, suc, ◌+◌, ◌-◌, ◌/◌, ◌<◌, ◌≡◌, ◌≢◌, refl, sym, ap, ◌∙◌, ◌⊎◌, inl, inr, List, [], ◌∷◌,
  length, true, false, if◌then◌else◌, Bool-cases, u8, Ordering, arith,
}
use ptp_noposix.Prelude.Int.{pos, ltb_ℤ}
use ptp_noposix.Datatypes.{ClockIdentity, ForeignMasterRecord, PtpPortDs}
use ptp_noposix.Bmc.Compare.{memcmp, by_comp}
use ptp_noposix.Bmc.Compare.Laws.{
  key, HasOctets, comparison-key, key_differs, memcmp-opposite, memcmp_refl,
}
use ptp_noposix.Bmc.Decision.{data_set}
use ptp_noposix.Bmc.Best.{record_at, is_better, er_best_from, er_best}

-- Bytes in an order where the first difference counts; `xs` does not come after `ys`.
abbrev pub NotAfter : List ℕ → List ℕ → Type 0
NotAfter xs ys = memcmp xs ys ≢ Ordering.gt

memcmp_trans :
    (xs ys zs : List ℕ)
    → length xs ≡ length ys
    → length ys ≡ length zs
    → NotAfter xs ys
    → NotAfter ys zs
    → NotAfter xs zs
unfolding memcmp
memcmp_trans [] ys zs e f p q = ground arith
memcmp_trans (x ∷ xs) [] zs e f p q = absurd (omega arith)
memcmp_trans (x ∷ xs) (y ∷ ys) [] e f p q = absurd (omega arith)
memcmp_trans (x ∷ xs) (y ∷ ys) (z ∷ zs) e f p q =
    ground (arith, memcmp_trans xs ys zs (omega arith) (omega arith))

-- The records below `n` have been received, differ in their grandmasters, and their variances agree
-- in the upper octet.
abbrev pub IsComparable : List ForeignMasterRecord → ℕ → Type 0
IsComparable table n =
    ((j : ℕ)
      → j < n
      → ((record_at table j).reception_port_number ≢ 0) × HasOctets (record_at table j).announce)
    × ((j k : ℕ)
        → j < n
        → k < n
        → j ≢ k
        → ((record_at table j).announce.grandmaster_identity
            ≢ (record_at table k).announce.grandmaster_identity)
          × ((record_at table j).announce.grandmaster_clock_quality.offset_scaled_log_variance / 256
              ≡ (record_at table k).announce.grandmaster_clock_quality.offset_scaled_log_variance
                / 256))

abbrev pub key_at : List ForeignMasterRecord → ℕ → List ℕ
key_at table j = key (record_at table j).announce

by_comp_negative : (o : Ordering) → ltb_ℤ (by_comp o) (pos 0) ≡ true → o ≡ Ordering.lt
by_comp_negative o h = ground arith

by_comp_positive : (o : Ordering) → ltb_ℤ (by_comp o) (pos 0) ≡ false → o ≢ Ordering.lt
by_comp_positive o h = ground arith

is_better_key :
    (r : ClockIdentity) (table : List ForeignMasterRecord) (n j k : ℕ)
    → IsComparable table n
    → j < n
    → k < n
    → j ≢ k
    → is_better r (record_at table j) (record_at table k)
      ≡ ltb_ℤ (by_comp (memcmp (key_at table j) (key_at table k))) (pos 0)
is_better_key r table n j k (ok, apart) hj hk ne =
    let (pj, oj) = ok j hj in
    let (pk, ok2) = ok k hk in
    let (nej, v) = apart j k hj hk ne in
    let (e, other) =
      comparison-key (data_set (record_at table j)) (data_set (record_at table k)) r pj pk nej oj
        ok2 v in
    ap (λ c. ltb_ℤ c (pos 0)) e

abbrev pub next_best : ClockIdentity → List ForeignMasterRecord → ℕ → ℕ → ℕ
next_best r table i best =
    if is_better r (record_at table i) (record_at table best) then i else best

next_best-key :
    (r : ClockIdentity) (table : List ForeignMasterRecord) (n i best : ℕ)
    → IsComparable table n
    → best < i
    → i < n
    → ((next_best r table i best ≡ i) × (memcmp (key_at table i) (key_at table best) ≡ Ordering.lt))
      ⊎ ((next_best r table i best ≡ best)
          × (memcmp (key_at table i) (key_at table best) ≢ Ordering.lt))
next_best-key r table n i best c hb hi =
    let e = is_better_key r table n i best c hi (omega arith) (omega arith) in
    elim (Bool-cases (is_better r (record_at table i) (record_at table best))) [
      | inl t ↦ inl (
        ap (λ b. if b then i else best) t,
        by_comp_negative (memcmp (key_at table i) (key_at table best)) (sym e ∙ t),
      )
      | inr f ↦ inr (
        ap (λ b. if b then i else best) f,
        by_comp_positive (memcmp (key_at table i) (key_at table best)) (sym e ∙ f),
      )
    ]

NotAfter-lt : (xs ys : List ℕ) → memcmp xs ys ≡ Ordering.lt → NotAfter xs ys
NotAfter-lt xs ys h = ground arith

NotAfter-opposite : (xs ys : List ℕ) → memcmp ys xs ≢ Ordering.lt → NotAfter xs ys
NotAfter-opposite xs ys h = ground (arith, memcmp-opposite xs ys)

NotAfter-refl : (xs : List ℕ) → NotAfter xs xs
NotAfter-refl xs = ground (arith, memcmp_refl xs)

-- The best of the records below `i`.
abbrev pub IsBest : List ForeignMasterRecord → (i best : ℕ) → Type 0
IsBest table i best = (best < i) × ((j : ℕ) → j < i → NotAfter (key_at table best) (key_at table j))

next_best-IsBest :
    (r : ClockIdentity) (table : List ForeignMasterRecord) (n i best : ℕ)
    → IsComparable table n
    → i < n
    → IsBest table i best
    → IsBest table (suc i) (next_best r table i best)
next_best-IsBest r table n i best c hi (hb, low) = elim (next_best-key r table n i best c hb hi) [
  | inl (e, lt) ↦ subst (IsBest table (suc i)) (sym e) (
    omega arith,
    λ j hj. elim (split j hj) [
      | inl same ↦
          subst (λ k. NotAfter (key_at table i) (key_at table k)) (sym same) (NotAfter-refl _)
      | inr less ↦
          memcmp_trans (key_at table i) (key_at table best) (key_at table j) refl refl
            (NotAfter-lt (key_at table i) (key_at table best) lt) (low j less)
    ],
  )
  | inr (e, nlt) ↦ subst (IsBest table (suc i)) (sym e) (
    omega arith,
    λ j hj. elim (split j hj) [
      | inl same ↦
          subst (λ k. NotAfter (key_at table best) (key_at table k)) (sym same)
            (NotAfter-opposite (key_at table best) (key_at table i) nlt)
      | inr less ↦ low j less
    ],
  )
]
  where
    split : (j : ℕ) → j < suc i → (j ≡ i) ⊎ (j < i)
    split j h = ground arith

er_best_from-IsBest :
    (r : ClockIdentity) (table : List ForeignMasterRecord) (n todo i best : ℕ)
    → IsComparable table n
    → i + todo ≡ n
    → IsBest table i best
    → IsBest table n (er_best_from r table todo i best)
unfolding er_best_from
er_best_from-IsBest r table n zero i best c h b =
    subst (λ k. IsBest table k best) (let e : i ≡ n = omega arith in e) b
er_best_from-IsBest r table n (suc todo) i best c h b =
    er_best_from-IsBest r table n todo (suc i) (next_best r table i best) c (omega arith)
      (next_best-IsBest r table n i best c (omega arith) b)

not_eq_gt : (o : Ordering) → o ≢ Ordering.gt → o ≢ Ordering.eq → o ≡ Ordering.lt
not_eq_gt o h g = ground arith

best_index : List ForeignMasterRecord → PtpPortDs → ℕ
best_index table port =
    er_best_from port.port_identity.clock_identity table (port.number_foreign_records - 1) 1 0

er_best_nonempty :
    (table : List ForeignMasterRecord) (port : PtpPortDs)
    → 0 < port.number_foreign_records
    → er_best table port
      ≡ (u8 (best_index table port), record port { foreign_record_best = best_index table port })
unfolding er_best best_index
er_best_nonempty table port h = ground arith

best_index-IsBest :
    (table : List ForeignMasterRecord) (port : PtpPortDs)
    → 0 < port.number_foreign_records
    → IsComparable table port.number_foreign_records
    → IsBest table port.number_foreign_records (best_index table port)
unfolding best_index
best_index-IsBest table port h c =
    er_best_from-IsBest port.port_identity.clock_identity table port.number_foreign_records
      (port.number_foreign_records - 1) 1 0 c (omega arith)
      (
        omega arith,
        λ j hj.
            subst (λ k. NotAfter (key_at table 0) (key_at table k))
              (let e : 0 ≡ j = omega arith in e) (NotAfter-refl (key_at table 0)),
      )

strict :
    (table : List ForeignMasterRecord) (n best j : ℕ)
    → IsComparable table n
    → IsBest table n best
    → j < n
    → j ≢ best
    → memcmp (key_at table best) (key_at table j) ≡ Ordering.lt
strict table n best j (ok, apart) (hb, low) hj ne =
    not_eq_gt (memcmp (key_at table best) (key_at table j)) (low j hj) (
      key_differs (record_at table best).announce (record_at table j).announce
        (apart best j hb hj (λ e. ne (sym e))).0)

abbrev pub Remembers : ℕ → ℕ × PtpPortDs → Type 0
Remembers best (answer, port) = (port.foreign_record_best ≡ best) × (answer ≡ u8 best)

remembered :
    (table : List ForeignMasterRecord) (port : PtpPortDs)
    → 0 < port.number_foreign_records
    → Remembers (best_index table port) (er_best table port)
remembered table port h =
    subst (Remembers (best_index table port)) (sym (er_best_nonempty table port h)) (refl, refl)

-- ErBest remembers the index of one of the counted records of the port and answers it as an octet,
-- and the record there comes strictly before every other counted record in the lexicographic order
-- on priority1, class, accuracy, variance, priority2 and grandmaster identity; provided that the
-- counted records were received on a port, their one-octet attributes are octets, their
-- grandmasters differ and their variances agree in the upper octet.
pub er_best-key :
    (table : List ForeignMasterRecord) (port : PtpPortDs) (j : ℕ)
    → IsComparable table port.number_foreign_records
    → j < port.number_foreign_records
    → let best = (er_best table port).1.foreign_record_best in
      (best < port.number_foreign_records)
      × ((er_best table port).0 ≡ u8 best)
      × ((j ≡ best) ⊎ (memcmp (key_at table best) (key_at table j) ≡ Ordering.lt))
er_best-key table port j c hj =
    let (e, answer) = remembered table port (omega arith) in
    let b = best_index-IsBest table port (omega arith) c in
    subst
      (λ best.
        (best < port.number_foreign_records)
        × ((er_best table port).0 ≡ u8 best)
        × ((j ≡ best) ⊎ (memcmp (key_at table best) (key_at table j) ≡ Ordering.lt)))
      (sym e)
      (
        b.0,
        answer,
        elim (same_or_not j (best_index table port)) [
          | inl same ↦ inl same
          | inr ne ↦
              inr (strict table port.number_foreign_records (best_index table port) j c b hj ne)
        ],
      )
  where
    same_or_not : (a b : ℕ) → (a ≡ b) ⊎ (a ≢ b)
    same_or_not a b = ground arith
