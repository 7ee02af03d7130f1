-- ===== src/Tests/Servos.antt =====
-- Runs of the servo and of the arithmetic on time stamps.
use ptp_noposix.Prelude.{ℕ, ◌≡◌, refl, [], ◌∷◌, true, false, some, arith}
use ptp_noposix.Prelude.Int.{pos, negsuc, ◌+ℤ◌, ◌-ℤ◌, ◌*ℤ◌, asr, i32, i64, pattern64}
use ptp_noposix.Time.{TimeInternal}
use ptp_noposix.Stamp.{WrStamp, picos, picos_to_ts, borrow, ts_add, ts_sub, ts_hardwarize}
use ptp_noposix.Stamp.Loops.{IsRest}
use ptp_noposix.Stamp.Laws.{IsBounded, IsCanonical, picos-ts_add, picos-ts_sub, picos-picos_to_ts}
use ptp_noposix.Stamp.Hardwarize.{picos-ts_hardwarize}
use ptp_noposix.Servo.{ServoState, Servo}
use ptp_noposix.Servo.Update.{Answers, delay_ms_fix, wr_servo_update}
use ptp_noposix.Servo.Delay.{excess, delay_ms_fix_lem}
use ptp_noposix.Servo.Laws.{
  init, sync, delay, update, perform_all, IsSafe, untracked, is_tracking, perform_all-IsSafe,
}
use ptp_noposix.Servo.Tracking.{update-tracking}
use ptp_noposix.Tests.Samples.{zero_servo, port_of_number}

abbrev stamp_of : (sec nsec phase : ℕ) → WrStamp
stamp_of sec nsec phase = record {
  sec = pos sec;
  nsec = pos nsec;
  phase = pos phase;
  correct = pos 1;
}

early : IsCanonical (stamp_of 5 999999999 900)
early = record {
  sec_pos = omega arith;
  sec_neg = omega arith;
  nsec = omega arith;
  phase = omega arith;
}

late : IsCanonical (stamp_of 9 100 950)
late = record {
  sec_pos = omega arith;
  sec_neg = omega arith;
  nsec = omega arith;
  phase = omega arith;
}

bounded : IsBounded (stamp_of 5 999999999 900)
bounded = record {
  sec_pos = omega arith;
  sec_neg = omega arith;
  nsec_pos = omega arith;
  nsec_neg = omega arith;
  phase_pos = omega arith;
  phase_neg = omega arith;
}

-- The loops of the subtraction, with a borrow in both fields.
ts_sub-borrow :
    ts_sub (stamp_of 9 100 100) (stamp_of 5 200 900)
    ≡ record { sec = pos 3; nsec = pos 999999899; phase = pos 200; correct = pos 0 }
unfolding ts_sub borrow i32 i64 ◌+ℤ◌ ◌-ℤ◌
ts_sub-borrow = refl

picos-ts_sub_example :
    (picos (ts_sub (stamp_of 9 100 950) (stamp_of 5 999999999 900))
      ≡ picos (stamp_of 9 100 950) -ℤ picos (stamp_of 5 999999999 900))
    × IsRest 1000 ((ts_sub (stamp_of 9 100 950) (stamp_of 5 999999999 900)).phase)
    × IsRest 1000000000 ((ts_sub (stamp_of 9 100 950) (stamp_of 5 999999999 900)).nsec)
picos-ts_sub_example = picos-ts_sub (stamp_of 9 100 950) (stamp_of 5 999999999 900) late early

picos-ts_add_example :
    picos (ts_add (stamp_of 5 999999999 900) (stamp_of 5 999999999 900))
    ≡ picos (stamp_of 5 999999999 900) +ℤ picos (stamp_of 5 999999999 900)
picos-ts_add_example =
    picos-ts_add (stamp_of 5 999999999 900) (stamp_of 5 999999999 900) bounded bounded

picos-picos_to_ts_example : picos (picos_to_ts (negsuc 1234567)) ≡ negsuc 1234567
picos-picos_to_ts_example = picos-picos_to_ts (negsuc 1234567)

picos-ts_hardwarize_example :
    picos (ts_hardwarize (stamp_of 5 999999999 900) 8000) ≡ picos (stamp_of 5 999999999 900)
picos-ts_hardwarize_example =
    picos-ts_hardwarize (stamp_of 5 999999999 900) 8000 bounded (omega arith) (omega arith)

-- A round trip that is shorter than the fixed delays.
delay_ms_fix_lem_example :
    delay_ms_fix (pos 1000) (pattern64 (pos 1200)) (pos 5) (pos 300) (pos 300) (pos 0)
    ≡ pattern64 (
        asr ((pos 1000 -ℤ pos 1200) *ℤ pos 5) 40
        +ℤ (asr (pos 1000 -ℤ pos 1200) 1 +ℤ excess (pos 1000 -ℤ pos 1200))
        +ℤ pos 300
        +ℤ pos 300
        +ℤ pos 0)
unfolding ◌-ℤ◌ ◌*ℤ◌
delay_ms_fix_lem_example =
    delay_ms_fix_lem (pos 1000) (pos 1200) (pos 5) (pos 300) (pos 300) (pos 0) (omega arith)
      (omega arith)

abbrev time_of : (seconds nanoseconds : ℕ) → TimeInternal
time_of seconds nanoseconds = record {
  seconds = pos seconds;
  nanoseconds = pos nanoseconds;
  phase = pos 0;
  correct = pos 1;
}

abbrev ready : Answers
ready = record { tics = 100; pll_ready = true; adjust_in_progress = false }

perform_all-IsSafe_example : IsSafe (
    perform_all
      (init (some (pos 0, 8000)) (port_of_number 1)
        ∷ sync (time_of 10 0) (time_of 10 500)
        ∷ delay (stamp_of 10 800 0) (time_of 10 1300) (pos 0)
        ∷ update ready
        ∷ [])
      zero_servo)
perform_all-IsSafe_example =
    perform_all-IsSafe
      (init (some (pos 0, 8000)) (port_of_number 1)
        ∷ sync (time_of 10 0) (time_of 10 500)
        ∷ delay (stamp_of 10 800 0) (time_of 10 1300) (pos 0)
        ∷ update ready
        ∷ [])
      zero_servo (untracked refl)

-- The servo tracks, and the clock is suddenly two seconds off.
abbrev tracking_servo : Servo
tracking_servo = record zero_servo {
  got_sync = true;
  tracking_enabled = true;
  s = record (zero_servo.s) {
    state = ServoState.track_phase;
    clock_period_ps = 8000;
    t1 = stamp_of 12 0 0;
    t2 = stamp_of 10 500 0;
    t3 = stamp_of 10 800 0;
    t4 = stamp_of 12 1300 0;
  };
}

update-tracking_example : is_tracking (wr_servo_update ready tracking_servo) ≡ true
update-tracking_example = update-tracking ready tracking_servo refl refl
