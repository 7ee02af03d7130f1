-- ===== src/Stamp/Laws.antt =====
-- What the arithmetic on time stamps computes, in picoseconds.
use ptp_noposix.Prelude.{◌+◌, ◌*◌, ◌^◌, ◌<◌, ◌≤◌, ◌≡◌, arith}
use ptp_noposix.Prelude.Int.{
  ℤ, ◌+ℤ◌, ◌-ℤ◌, quot, rem, i32, i64, pos_part, neg_part, eq_of_parts, balance, -ℤ_parts,
  quot_parts, rem_parts, scale_parts, add_32, add_64, sub_32, sub_64, i32_parts, +ℤ_balance,
  -ℤ_balance, one_part,
}
use ptp_noposix.Stamp.{WrStamp, trillion, picos, picos_to_ts, carry_all, borrow_all, ts_add, ts_sub}
use ptp_noposix.Stamp.Loops.{IsRest, carry_all_lem, borrow_all_lem}

-- Far enough from the ends of the fields that nothing wraps: 2^61 seconds, one second of
-- nanoseconds, and 2^30 picoseconds.
pub record IsBounded (ts : WrStamp) : Type 0 where
  pub sec_pos : pos_part ts.sec < 2 ^ 61
  pub sec_neg : neg_part ts.sec < 2 ^ 61
  pub nsec_pos : pos_part ts.nsec ≤ 1000000000
  pub nsec_neg : neg_part ts.nsec ≤ 1000000000
  pub phase_pos : pos_part ts.phase < 2 ^ 30
  pub phase_neg : neg_part ts.phase < 2 ^ 30

pub picos_parts :
    (ts : WrStamp)
    → pos_part (picos ts) + neg_part ts.sec * trillion + neg_part ts.nsec * 1000 + neg_part ts.phase
      ≡ neg_part (picos ts)
        + pos_part ts.sec * trillion
        + pos_part ts.nsec * 1000
        + pos_part ts.phase
unfolding picos
picos_parts ts = omega (balance, scale_parts trillion ts.sec, scale_parts 1000 ts.nsec)

module _ (a b : WrStamp) (ha : IsBounded a) (hb : IsBounded b) where
  abbrev phase_sum : ℤ
  phase_sum = i32 (a.phase +ℤ b.phase)

  abbrev carried_phase : ℤ × ℤ
  carried_phase = carry_all 1000 phase_sum

  abbrev nsec_sum : ℤ
  nsec_sum = i32 (carried_phase.1 +ℤ i32 (a.nsec +ℤ b.nsec))

  abbrev carried_nsec : ℤ × ℤ
  carried_nsec = carry_all 1000000000 nsec_sum

  -- The sum of two time stamps is exact in picoseconds, with fields of either sign, if the seconds
  -- are below 2^61, the nanoseconds at most a billion and the phases below 2^30 in size.
  pub picos-ts_add : picos (ts_add a b) ≡ picos a +ℤ picos b
  unfolding ts_add
  picos-ts_add =
      let phase = carry_all_lem 1000 (λ n. omega arith) phase_sum in
      let nsec = carry_all_lem 1000000000 (λ n. omega arith) nsec_sum in
      let phase_is = add_32 a.phase b.phase (omega arith) (omega arith) in
      let nsec_is = add_32 a.nsec b.nsec (omega arith) (omega arith) in
      let sec_is = add_64 a.sec b.sec (omega arith) (omega arith) in
      let whole_nsec_is =
        add_32 (carried_phase.1) (i32 (a.nsec +ℤ b.nsec))
          (omega (arith, one_part (carried_phase.1))) (omega (arith, one_part (carried_phase.1))) in
      let whole_sec_is =
        add_64 (carried_nsec.1) (i64 (a.sec +ℤ b.sec))
          (omega (arith, one_part (carried_nsec.1), one_part (carried_phase.1)))
          (omega (arith, one_part (carried_nsec.1), one_part (carried_phase.1))) in
      eq_of_parts _ _ (
        omega (
          arith,
          picos_parts a,
          picos_parts b,
          picos_parts (ts_add a b),
          +ℤ_balance (picos a) (picos b),
        ))

-- What the hardware gives: nanoseconds within a second, and a phase within a nanosecond.
pub record IsCanonical (ts : WrStamp) : Type 0 where
  pub sec_pos : pos_part ts.sec < 2 ^ 61
  pub sec_neg : neg_part ts.sec < 2 ^ 61
  pub nsec : IsRest 1000000000 ts.nsec
  pub phase : IsRest 1000 ts.phase

module _ (a b : WrStamp) (ha : IsCanonical a) (hb : IsCanonical b) where
  abbrev phase_gap : ℤ
  phase_gap = i32 (a.phase -ℤ b.phase)

  abbrev borrowed_phase : ℤ × ℤ
  borrowed_phase = borrow_all 1000 phase_gap

  abbrev nsec_gap : ℤ
  nsec_gap = i32 (borrowed_phase.1 +ℤ i32 (a.nsec -ℤ b.nsec))

  abbrev borrowed_nsec : ℤ × ℤ
  borrowed_nsec = borrow_all 1000000000 nsec_gap

  -- The difference of two time stamps with nanoseconds within a second, a phase within a nanosecond
  -- and less than 2^61 seconds: its loops end, so that its phase and its nanoseconds are in these
  -- ranges again, and in picoseconds it is exactly the difference.
  pub picos-ts_sub :
      (picos (ts_sub a b) ≡ picos a -ℤ picos b)
      × IsRest 1000 ((ts_sub a b).phase)
      × IsRest 1000000000 ((ts_sub a b).nsec)
  unfolding ts_sub
  picos-ts_sub =
      let phase_is = sub_32 a.phase b.phase (omega arith) (omega arith) in
      let phase =
        borrow_all_lem 1000 (λ n. omega arith) phase_gap (omega (arith, one_part phase_gap)) in
      let nsec_is = sub_32 a.nsec b.nsec (omega arith) (omega arith) in
      let sec_is = sub_64 a.sec b.sec (omega arith) (omega arith) in
      let whole_nsec_is =
        add_32 (borrowed_phase.1) (i32 (a.nsec -ℤ b.nsec))
          (omega (arith, one_part (borrowed_phase.1)))
          (omega (arith, one_part (borrowed_phase.1))) in
      let nsec =
        borrow_all_lem 1000000000 (λ n. omega arith) nsec_gap
          (omega (arith, one_part nsec_gap, one_part (borrowed_phase.1))) in
      let whole_sec_is =
        add_64 (borrowed_nsec.1) (i64 (a.sec -ℤ b.sec))
          (omega (arith, one_part (borrowed_nsec.1), one_part (borrowed_phase.1)))
          (omega (arith, one_part (borrowed_nsec.1), one_part (borrowed_phase.1))) in
      (
        eq_of_parts _ _ (
            omega (
              arith,
              picos_parts a,
              picos_parts b,
              picos_parts (ts_sub a b),
              -ℤ_balance (picos a) (picos b),
            )),
        phase.1,
        nsec.1,
      )

-- The conversion to a time stamp and back.
module _ (p : ℤ) where
  abbrev phase_of : ℤ
  phase_of = rem p 1000

  abbrev nanoseconds_of : ℤ
  nanoseconds_of = quot (p -ℤ phase_of) 1000

  abbrev nsec_of : ℤ
  nsec_of = rem nanoseconds_of 1000000000

  -- A number of picoseconds, of either sign, is split into a time stamp that has this number of
  -- picoseconds again.
  pub picos-picos_to_ts : picos (picos_to_ts p) ≡ p
  unfolding picos_to_ts
  picos-picos_to_ts =
      let phase = rem_parts p 1000 in
      let phase_fits = i32_parts phase_of (omega arith) in
      let whole = -ℤ_parts p phase_of in
      let nanoseconds = quot_parts (p -ℤ phase_of) 1000 in
      let nsec = rem_parts nanoseconds_of 1000000000 in
      let nsec_fits = i32_parts nsec_of (omega arith) in
      let seconds_whole = -ℤ_parts nanoseconds_of nsec_of in
      let seconds = quot_parts (nanoseconds_of -ℤ nsec_of) 1000000000 in
      eq_of_parts _ _ (omega (arith, picos_parts (picos_to_ts p), one_part p))
