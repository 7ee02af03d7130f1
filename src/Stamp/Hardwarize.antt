-- ===== src/Stamp/Hardwarize.antt =====
-- The four adjustments of `ts_hardwarize`.
use native.Mathlib.Nat.{mod-lt, mod-le}
use ptp_noposix.Prelude.{
  ℕ, ◌+◌, ◌*◌, ◌/◌, ◌%◌, ◌^◌, ◌<◌, ◌≤◌, ◌≡◌, ◌∙◌, refl, arith, if_intro, ◌&&◌, not,
}
use ptp_noposix.Prelude.Int.{
  pos, negsuc, ◌+ℤ◌, ◌-ℤ◌, scale, rem, i32, i64, ltb_ℤ, leb_ℤ, eqb_ℤ, neg, pos_part, neg_part,
  eq_of_parts, rem_parts, scale_parts, add_32, add_64, sub_32, sub_64, i32_parts, one_part,
}
use ptp_noposix.Stamp.{WrStamp, picos, align, lift, shorten, absorb, ts_hardwarize}
use ptp_noposix.Stamp.Laws.{IsBounded, picos_parts}

-- The bounds, with room for a number of adjustments.
record Within (adjusted : ℕ) (ts : WrStamp) : Type 0 where
  sec_pos : pos_part ts.sec < 2 ^ 61 + adjusted
  sec_neg : neg_part ts.sec < 2 ^ 61 + adjusted
  nsec_pos : pos_part ts.nsec ≤ 1000000000
  nsec_neg : neg_part ts.nsec ≤ 1000000000
  phase_pos : pos_part ts.phase < 2 ^ 30 + adjusted * 2000000
  phase_neg : neg_part ts.phase < 2 ^ 30 + adjusted * 2000000

-- An adjustment keeps the time, and stays in the bounds.
abbrev Keeps : ℕ → WrStamp → WrStamp → Type 0
Keeps adjusted ts result = (picos result ≡ picos ts) × Within (adjusted + 1) result

module _ (n : ℕ) (few : n < 10) (ts : WrStamp) (h : Within n ts) where
  Keeps-same : Keeps n ts ts
  Keeps-same = (
    refl,
    record {
      sec_pos = omega arith;
      sec_neg = omega arith;
      nsec_pos = omega arith;
      nsec_neg = omega arith;
      phase_pos = omega arith;
      phase_neg = omega arith;
    },
  )

  lift-Keeps : Keeps n ts (lift ts)
  unfolding lift
  lift-Keeps =
      if_intro (Keeps n ts) (ltb_ℤ ts.nsec (pos 0)) _ _
        (λ t.
          let negative : pos_part ts.nsec < neg_part ts.nsec = ground (arith, t) in
          let nsec_is =
            add_32 ts.nsec (pos 1000000000) (omega (arith, one_part ts.nsec)) (omega arith) in
          let sec_is = sub_64 ts.sec (pos 1) (omega arith) (omega arith) in
          let nsec = i32 (ts.nsec +ℤ pos 1000000000) in
          let sec = i64 (ts.sec -ℤ pos 1) in
          (
            eq_of_parts _ _
                (omega (arith, picos_parts ts, picos_parts (record ts { nsec = nsec; sec = sec }))),
            record {
              sec_pos = omega arith;
              sec_neg = omega arith;
              nsec_pos = omega (arith, one_part ts.nsec, one_part nsec);
              nsec_neg = omega (arith, one_part ts.nsec, one_part nsec);
              phase_pos = omega arith;
              phase_neg = omega arith;
            },
          ))
        (λ _. Keeps-same)

  shorten-Keeps : Keeps n ts (shorten ts)
  unfolding shorten
  shorten-Keeps =
      if_intro (Keeps n ts) (eqb_ℤ ts.sec (negsuc 0) && ltb_ℤ (pos 0) ts.nsec) _ _
        (λ t.
          let positive : neg_part ts.nsec < pos_part ts.nsec = ground (arith, t) in
          let nsec_is =
            sub_32 ts.nsec (pos 1000000000) (omega arith) (omega (arith, one_part ts.nsec)) in
          let sec_is = add_64 ts.sec (pos 1) (omega arith) (omega arith) in
          let nsec = i32 (ts.nsec -ℤ pos 1000000000) in
          let sec = i64 (ts.sec +ℤ pos 1) in
          (
            eq_of_parts _ _
                (omega (arith, picos_parts ts, picos_parts (record ts { nsec = nsec; sec = sec }))),
            record {
              sec_pos = omega arith;
              sec_neg = omega arith;
              nsec_pos = omega (arith, one_part ts.nsec, one_part nsec);
              nsec_neg = omega (arith, one_part ts.nsec, one_part nsec);
              phase_pos = omega arith;
              phase_neg = omega arith;
            },
          ))
        (λ _. Keeps-same)

  module _ (q : ℕ) (q_pos : 0 < q) (q_small : q < 2000) where
    align-Keeps : Keeps n ts (align q ts)
    unfolding align
    align-Keeps =
        if_intro (Keeps n ts) (ltb_ℤ (pos 0) ts.nsec && not (eqb_ℤ (rem ts.nsec q) (pos 0))) _ _
          (λ t.
            let positive : neg_part ts.nsec < pos_part ts.nsec = ground (arith, t) in
            let extra = rem ts.nsec q in
            let extra_is = rem_parts ts.nsec q in
            let extra_small : pos_part ts.nsec % q < q = mod-lt (pos_part ts.nsec) q_pos in
            let extra_le : pos_part ts.nsec % q ≤ pos_part ts.nsec = mod-le (pos_part ts.nsec) q in
            let no_neg : neg_part ts.nsec % q ≡ 0 = ground (arith, one_part ts.nsec) in
            let scaled = scale_parts 1000 extra in
            let scaled_fits = i32_parts (scale 1000 extra) (omega arith) in
            let nsec_is = sub_32 ts.nsec extra (omega arith) (omega (arith, one_part ts.nsec)) in
            let phase_is = add_32 ts.phase (i32 (scale 1000 extra)) (omega arith) (omega arith) in
            let nsec = i32 (ts.nsec -ℤ extra) in
            let phase = i32 (ts.phase +ℤ i32 (scale 1000 extra)) in
            (
              eq_of_parts _ _ (
                  omega (
                    arith,
                    picos_parts ts,
                    picos_parts (record ts { nsec = nsec; phase = phase }),
                  )),
              record {
                sec_pos = omega arith;
                sec_neg = omega arith;
                nsec_pos = omega (arith, one_part ts.nsec, one_part nsec);
                nsec_neg = omega (arith, one_part ts.nsec, one_part nsec);
                phase_pos = omega arith;
                phase_neg = omega arith;
              },
            ))
          (λ _. Keeps-same)

    absorb-Keeps : Keeps n ts (absorb q ts)
    unfolding absorb
    absorb-Keeps =
        if_intro (Keeps n ts)
          (ltb_ℤ ts.nsec (pos 0) && leb_ℤ (neg (pos q)) ts.nsec && eqb_ℤ ts.sec (pos 0)) _ _
          (λ t.
            let negative : pos_part ts.nsec < neg_part ts.nsec = ground (arith, t) in
            let fits = i32_parts (pos (q * 1000)) (omega arith) in
            let nsec_is = add_32 ts.nsec (pos q) (omega (arith, one_part ts.nsec)) (omega arith) in
            let phase_is = sub_32 ts.phase (i32 (pos (q * 1000))) (omega arith) (omega arith) in
            let nsec = i32 (ts.nsec +ℤ pos q) in
            let phase = i32 (ts.phase -ℤ i32 (pos (q * 1000))) in
            (
              eq_of_parts _ _ (
                  omega (
                    arith,
                    picos_parts ts,
                    picos_parts (record ts { nsec = nsec; phase = phase }),
                  )),
              record {
                sec_pos = omega arith;
                sec_neg = omega arith;
                nsec_pos = omega (arith, one_part ts.nsec, one_part nsec);
                nsec_neg = omega (arith, one_part ts.nsec, one_part nsec);
                phase_pos = omega arith;
                phase_neg = omega arith;
              },
            ))
          (λ _. Keeps-same)

-- Moving the nanoseconds of a time stamp that are no whole clock cycles into its phase keeps its
-- number of picoseconds, on every branch, if the seconds are below 2^61, the nanoseconds at most a
-- billion and the phase below 2^30 in size, and the clock period is positive and below a million
-- picoseconds.
pub picos-ts_hardwarize :
    (ts : WrStamp) (clock_period_ps : ℕ)
    → IsBounded ts
    → 0 < clock_period_ps
    → clock_period_ps < 1000000
    → picos (ts_hardwarize ts clock_period_ps) ≡ picos ts
unfolding ts_hardwarize
picos-ts_hardwarize ts clock_period_ps h positive small =
    let q = (clock_period_ps + 999) / 1000 in
    let q_pos : 0 < q = omega arith in
    let q_small : q < 2000 = omega arith in
    let start : Within 0 ts = record {
      sec_pos = omega arith;
      sec_neg = omega arith;
      nsec_pos = omega arith;
      nsec_neg = omega arith;
      phase_pos = omega arith;
      phase_neg = omega arith;
    } in
    let aligned = align-Keeps 0 (omega arith) ts start q q_pos q_small in
    let lifted = lift-Keeps 1 (omega arith) (align q ts) (aligned.1) in
    let shortened = shorten-Keeps 2 (omega arith) (lift (align q ts)) (lifted.1) in
    let absorbed =
      absorb-Keeps 3 (omega arith) (shorten (lift (align q ts))) (shortened.1) q q_pos q_small in
    absorbed.0 ∙ shortened.0 ∙ lifted.0 ∙ aligned.0
