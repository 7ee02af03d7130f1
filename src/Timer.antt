-- ===== src/Timer.antt =====
-- PTPWRd/dep/timer.c. The current time in milliseconds, `ptpd_netif_get_msec_tics()`, is an
-- argument. The name of a timer, which is only printed, is left out. `pow_2` is that of ptpd.h.
pub mod Laws
use ptp_noposix.Prelude.{
  ℕ, suc, List, [], ◌∷◌, not, ◌+◌, ◌*◌, ◌%◌, ◌^◌, Bool, true, false, ◌&&◌, ltb, leb, ◌!=◌,
  if◌then◌else◌, u64,
}
use ptp_noposix.Prelude.Int.{ℤ, pos, negsuc, pattern64}

pub record IntervalTimer : Type 0 where
  pub t_start : ℕ  -- unsigned long long
  pub interval : ℤ  -- int

unfoldable pub timer_init : IntervalTimer → IntervalTimer
timer_init itimer = record itimer { interval = pos 0 }

unfoldable pub timer_start : ℕ → IntervalTimer → ℤ → IntervalTimer
timer_start tics itimer interval = record { t_start = tics; interval = interval }

unfoldable pub timer_stop : IntervalTimer → IntervalTimer
timer_stop itimer = record itimer { interval = pos 0 }

abbrev is_zero : ℤ → Bool
is_zero (pos n) = ltb n 1
is_zero (negsuc n) = false

-- The answer, and the timer that a positive answer restarts.
unfoldable pub timer_expired : ℕ → IntervalTimer → IntervalTimer × Bool
timer_expired tics itimer =
    let t_expire = u64 (itimer.t_start + pattern64 itimer.interval) in
    if not (is_zero itimer.interval) && leb t_expire tics
    then (record itimer { t_start = if ltb t_expire tics then tics else t_expire }, true)
    else (itimer, false)

-- A sequence of polls at the given times, and the number of positive answers.
unfoldable pub polls : IntervalTimer → List ℕ → ℕ
polls t [] = 0
polls t (tics ∷ rest) =
    let (t', fired) = timer_expired tics t in let n = polls t' rest in if fired then suc n else n

-- `pow_2`: 1 << exp for an exponent that an `int` can be shifted by. (C leaves others open.)
abbrev pub pow_2 : ℕ → ℕ
pow_2 exp = 2 ^ exp
