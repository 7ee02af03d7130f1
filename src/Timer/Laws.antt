-- ===== src/Timer/Laws.antt =====
-- When a timer expires.
use ptp_noposix.Prelude.{
  ℕ, suc, List, [], ◌∷◌, ◌+◌, ◌*◌, ◌^◌, ◌≤◌, ◌<◌, ◌≡◌, refl, true, false, arith, leb, if◌then◌else◌,
}
use ptp_noposix.Prelude.Int.{pos}
use native.Mathlib.Decide.{dec_le}
use ptp_noposix.Timer.{IntervalTimer, timer_init, timer_start, timer_stop, timer_expired, polls}

abbrev pub armed : ℕ → ℕ → IntervalTimer
armed start n = record { t_start = start; interval = pos n }

-- A timer started at some time with a positive interval answers yes exactly when the interval has
-- passed at the time of the poll, and is then armed again from the moment of the poll; before that
-- it is left as it was; provided that the time of expiry does not wrap the 64-bit counter.
timer_expired-timer_start :
    (t0 n tics : ℕ) (itimer : IntervalTimer)
    → 0 < n
    → n < 2 ^ 31
    → t0 + n < 2 ^ 64
    → timer_expired tics (timer_start t0 itimer (pos n))
      ≡ (if leb (t0 + n) tics then (armed tics n, true) else (armed t0 n, false))
unfolding timer_expired timer_start
timer_expired-timer_start t0 n tics itimer hn hi ht = ground arith

-- A stopped timer, and one that is only initialised, never expires and is not changed by polling.
timer_expired-timer_stop :
    (tics : ℕ) (itimer : IntervalTimer)
    → (timer_expired tics (timer_stop itimer) ≡ (timer_stop itimer, false))
      × (timer_expired tics (timer_init itimer) ≡ (timer_init itimer, false))
unfolding timer_expired timer_stop timer_init
timer_expired-timer_stop tics itimer = (ground arith, ground arith)

module _ (t : IntervalTimer) (n : ℕ) (e : t.interval ≡ pos n) (hn : 0 < n) (hi : n < 2 ^ 31) where
  fires :
      (tics : ℕ)
      → t.t_start + n ≤ tics
      → tics < 2 ^ 64
      → timer_expired tics t ≡ (record { t_start = tics; interval = pos n }, true)
  unfolding timer_expired
  fires tics past fits = ground arith

  waits :
      (tics : ℕ) → tics < t.t_start + n → t.t_start + n < 2 ^ 64 → timer_expired tics t ≡ (t, false)
  unfolding timer_expired
  waits tics soon fits = ground arith

-- A timer that is polled after its expiry, however late, answers yes, then no at any poll less than
-- an interval later, and yes at a poll one interval later, as long as the times stay below the wrap
-- of the 64-bit counter.
timer_expired_rearms :
    (t : IntervalTimer) (n tics later : ℕ)
    → t.interval ≡ pos n
    → 0 < n
    → n < 2 ^ 31
    → t.t_start + n ≤ tics
    → later < tics + n
    → tics + n < 2 ^ 64
    → ((timer_expired tics t).1 ≡ true)
      × ((timer_expired later (timer_expired tics t).0).1 ≡ false)
      × ((timer_expired (tics + n) (timer_expired tics t).0).1 ≡ true)
timer_expired_rearms t n tics later e hn hi past soon fits =
    rw
      (
        fires t n e hn hi tics past (omega arith),
        waits (armed tics n) n refl hn hi later soon fits,
        fires (armed tics n) n refl hn hi (tics + n) (omega arith) fits,
      )
      (refl, refl, refl)

-- The times of the polls never go back, and stay below the wrap of the counter.
abbrev pub Increasing : ℕ → ℕ → List ℕ → Type 0
Increasing from end [] = from ≤ end
Increasing from end (x ∷ xs) = (from ≤ x) × Increasing x end xs

Increasing-end : (from end : ℕ) (ts : List ℕ) → Increasing from end ts → from ≤ end
Increasing-end from end [] h = h
Increasing-end from end (x ∷ xs) h = omega (arith, Increasing-end x end xs h.1)

polls_fired :
    (t : IntervalTimer) (tics : ℕ) (rest : List ℕ) {u : IntervalTimer}
    → timer_expired tics t ≡ (u, true)
    → polls t (tics ∷ rest) ≡ suc (polls u rest)
unfolding polls
polls_fired t tics rest e = rw (e)

polls_waited :
    (t : IntervalTimer) (tics : ℕ) (rest : List ℕ) {u : IntervalTimer}
    → timer_expired tics t ≡ (u, false)
    → polls t (tics ∷ rest) ≡ polls u rest
unfolding polls
polls_waited t tics rest e = rw (e)

-- Polled at any times that do not decrease, a timer that is armed with a positive interval does not
-- fire more often than its interval fits into the time since it was armed, as long as the times
-- stay below the wrap of the 64-bit counter.
pub polls_rate :
    (n end start from : ℕ) (ts : List ℕ)
    → 0 < n
    → n < 2 ^ 31
    → end + n < 2 ^ 64
    → start ≤ from
    → Increasing from end ts
    → polls (armed start n) ts * n + start ≤ end
unfolding polls
polls_rate n end start from [] hn hi he le inc = omega arith
polls_rate n end start from (x ∷ xs) hn hi he le inc = elim (dec_le (start + n) x) [
  | yes past ↦
      let ih = polls_rate n end x x xs hn hi he (omega arith) inc.1 in
      let bound = Increasing-end x end xs inc.1 in
      rw
        (polls_fired (armed start n) x xs (fires (armed start n) n refl hn hi x past (omega arith)))
        (grind (arith, ih))
  | no soon ↦
      let ih = polls_rate n end start x xs hn hi he (omega arith) inc.1 in
      let bound = Increasing-end x end xs inc.1 in
      rw
        (polls_waited (armed start n) x xs
          (waits (armed start n) n refl hn hi x (omega arith) (omega arith)))
        ih
]
