-- ===== src/Tests/Clocks.antt =====
-- Runs of the timers and of the time arithmetic.
use ptp_noposix.Prelude.{◌*◌, ◌+◌, ◌≤◌, ◌≡◌, refl, inl, inr, [], ◌∷◌, ◌^◌, arith}
use ptp_noposix.Prelude.Int.{pos, negsuc, quot, ◌+ℤ◌}
use ptp_noposix.Time.{
  TimeInternal, Integer64, add_time, integer64_to_internal_time, from_internal_time,
}
use ptp_noposix.Time.Laws.{total, IsNormal, total-add_time}
use ptp_noposix.Time.Fixed.{value, total-integer64_to_internal_time, from_internal_time-negative}
use ptp_noposix.Timer.{polls}
use ptp_noposix.Timer.Laws.{armed, polls_rate}
use ptp_noposix.Datatypes.Empty.{empty_timestamp}

polls_rate_example : polls (armed 5 10) (15 ∷ 16 ∷ 40 ∷ []) * 10 + 5 ≤ 40
polls_rate_example =
    polls_rate 10 40 5 15 (15 ∷ 16 ∷ 40 ∷ []) (omega arith) (omega arith) (omega arith)
      (omega arith) (omega arith, (omega arith, (omega arith, omega arith)))

abbrev one_and_half : TimeInternal
one_and_half = record {
  seconds = pos 1;
  nanoseconds = pos 500000000;
  phase = pos 0;
  correct = pos 0;
}

abbrev minus_third : TimeInternal
minus_third = record {
  seconds = pos 0;
  nanoseconds = negsuc 299999999;
  phase = pos 0;
  correct = pos 0;
}

abbrev mixed : TimeInternal
mixed = record { seconds = pos 2; nanoseconds = negsuc 299999999; phase = pos 0; correct = pos 0 }

one_and_half-IsNormal : IsNormal one_and_half
one_and_half-IsNormal = record {
  pos_small = omega arith;
  neg_small = omega arith;
  signs = inl (refl, refl);
}

minus_third-IsNormal : IsNormal minus_third
minus_third-IsNormal = record {
  pos_small = omega arith;
  neg_small = omega arith;
  signs = inr (refl, refl);
}

total-add_time_example :
    IsNormal (add_time mixed one_and_half minus_third)
    × (total (add_time mixed one_and_half minus_third) ≡ total one_and_half +ℤ total minus_third)
unfolding ◌+ℤ◌
total-add_time_example =
    total-add_time mixed one_and_half minus_third one_and_half-IsNormal minus_third-IsNormal
      (omega arith, omega arith)

abbrev sample_word : Integer64
sample_word = record { lsb = 65536; msb = pos 3 }

total-integer64_to_internal_time_example :
    IsNormal (integer64_to_internal_time sample_word mixed)
    × (total (integer64_to_internal_time sample_word mixed) ≡ quot (value sample_word) (2 ^ 16))
total-integer64_to_internal_time_example =
    total-integer64_to_internal_time sample_word mixed (omega arith, (omega arith, omega arith))
      (λ e. omega arith)

abbrev last_second : TimeInternal
last_second = record {
  seconds = pos 2147483647;
  nanoseconds = pos 5;
  phase = pos 0;
  correct = pos 0;
}

from_internal_time-negative_example : from_internal_time mixed empty_timestamp ≡ empty_timestamp
from_internal_time-negative_example =
    from_internal_time-negative mixed empty_timestamp (inr (omega arith))
