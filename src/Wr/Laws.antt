-- ===== src/Wr/Laws.antt =====
-- The timers of the link setup: which of them run, and what a repetition counts.
use mathlib.Core.Path.{subst}
use ptp_noposix.Prelude.{
  ℕ, zero, suc, [], ◌∷◌, ◌+◌, ◌<◌, ◌≡◌, ◌≢◌, refl, sym, ap, ◌∙◌, ◌⊎◌, inl, inr, List, get_or, set,
  length, length-set, get_or-set_self, ◌==◌, u8, Bool, true, false, if◌then◌else◌, Bool-cases,
  arith,
}
use ptp_noposix.Prelude.Int.{pos}
use ptp_noposix.Timer.{IntervalTimer, timer_start, timer_stop}
use ptp_noposix.Constants.{WrState, wrs_index, wr_timer_array_size}
use ptp_noposix.Datatypes.{PtpPortDs}
use ptp_noposix.Datatypes.Empty.{empty_interval_timer}
use ptp_noposix.Wr.{main_state, is_idle, timer_at, wr_timetout_manage}

-- The main state of every state of the link setup is the idle state or has an index within the
-- array of timers, and is its own main state.
main_state-wrs_index :
    (s : WrState)
    → ((main_state s ≡ WrState.idle) ⊎ (wrs_index (main_state s) < wr_timer_array_size))
      × (main_state (main_state s) ≡ main_state s)
unfolding main_state
main_state-wrs_index s = ground arith

-- No timer runs but that of the given state.
abbrev pub OnlyRuns : WrState → List IntervalTimer → Type 0
OnlyRuns s timers = (j : ℕ) → j ≢ wrs_index s → (timer_at timers j).interval ≡ pos 0

-- What is read after a write: the old entry elsewhere, or behind the end; else the new one.
written_timer :
    (timers : List IntervalTimer) (i : ℕ) (t : IntervalTimer) (j : ℕ)
    → ((timer_at (set timers i t) j ≡ timer_at timers j)
        × ((j ≢ i) ⊎ (timer_at timers j ≡ empty_interval_timer)))
      ⊎ ((j ≡ i) × (timer_at (set timers i t) j ≡ t))
written_timer [] i t j = inl (refl, inr refl)
written_timer (x ∷ xs) zero t zero = inr (refl, refl)
written_timer (x ∷ xs) zero t (suc j) = inl (refl, inl (λ e. omega (arith, e)))
written_timer (x ∷ xs) (suc i) t zero = inl (refl, inl (λ e. omega (arith, e)))
written_timer (x ∷ xs) (suc i) t (suc j) = elim (written_timer xs i t j) [
  | inl (e, inl ne) ↦ inl (e, inl (λ s. ne (omega (arith, s))))
  | inl (e, inr d) ↦ inl (e, inr d)
  | inr (s, e) ↦ inr (omega (arith, s), e)
]

-- Stopping the timer of the state stops all.
stop_all :
    (timers : List IntervalTimer) (s : WrState) (j : ℕ)
    → OnlyRuns s timers
    → (timer_at (set timers (wrs_index s) (timer_stop (timer_at timers (wrs_index s)))) j).interval
      ≡ pos 0
unfolding timer_stop
stop_all timers s j only =
    elim (written_timer timers (wrs_index s) (timer_stop (timer_at timers (wrs_index s))) j) [
      | inl (e, inl ne) ↦ ap (λ t. t.interval) e ∙ only j ne
      | inl (e, inr d) ↦ ap (λ t. t.interval) (e ∙ d)
      | inr (s, e) ↦ ap (λ t. t.interval) e
    ]

-- Writing the timer of a state where none runs.
start_one :
    (timers : List IntervalTimer) (s : WrState) (t : IntervalTimer)
    → ((j : ℕ) → (timer_at timers j).interval ≡ pos 0)
    → OnlyRuns s (set timers (wrs_index s) t)
start_one timers s t none j ne = elim (written_timer timers (wrs_index s) t j) [
  | inl (e, other) ↦ ap (λ t. t.interval) e ∙ none j
  | inr (same, e) ↦ absurd (ne same)
]

abbrev after_exit : Bool → WrState → List IntervalTimer → List IntervalTimer
after_exit idle s timers =
    if idle then timers else set timers (wrs_index s) (timer_stop (timer_at timers (wrs_index s)))

abbrev after_entry : ℕ → Bool → WrState → PtpPortDs → List IntervalTimer → List IntervalTimer
after_entry tics idle s port timers =
    if idle
    then timers
    else set timers (wrs_index s) (
        timer_start tics (timer_at timers (wrs_index s))
          (get_or port.wr_timeouts (wrs_index s) (pos 0)))

idle_index : (s : WrState) → is_idle s ≡ true → wrs_index s ≡ 9
idle_index s h = ground arith

same_or_not : (a b : ℕ) → (a ≡ b) ⊎ (a ≢ b)
same_or_not a b = ground arith

behind_end :
    (timers : List IntervalTimer) (j : ℕ)
    → length timers < j
    → timer_at timers j ≡ empty_interval_timer
behind_end [] j h = refl
behind_end (x ∷ xs) zero h = absurd (omega arith)
behind_end (x ∷ xs) (suc j) h = behind_end xs j (omega arith)

none_runs :
    (s : WrState) (port : PtpPortDs) (j : ℕ)
    → length port.wr_timers ≡ wr_timer_array_size
    → OnlyRuns s port.wr_timers
    → (timer_at (after_exit (is_idle s) s port.wr_timers) j).interval ≡ pos 0
none_runs s port j len only = elim (Bool-cases (is_idle s)) [
  | inl t ↦
      subst (λ b. (timer_at (after_exit b s port.wr_timers) j).interval ≡ pos 0) (sym t)
        (elim (same_or_not j (wrs_index s)) [
          | inl same ↦
              ap (λ u. u.interval)
                (behind_end port.wr_timers j (omega (arith, len, same, idle_index s t)))
          | inr ne ↦ only j ne
        ])
  | inr f ↦
      subst (λ b. (timer_at (after_exit b s port.wr_timers) j).interval ≡ pos 0) (sym f)
        (stop_all port.wr_timers s j only)
]

-- If, of the timers of the link setup, at most that of the state that is left runs, then after the
-- change of state at most that of the state that is entered runs, and none at all if this is the
-- idle state.
pub wr_timetout_manage-OnlyRuns :
    (tics : ℕ) (entering exiting : WrState) (port : PtpPortDs)
    → length port.wr_timers ≡ wr_timer_array_size
    → OnlyRuns exiting port.wr_timers
    → OnlyRuns entering (wr_timetout_manage tics entering exiting port).wr_timers
unfolding wr_timetout_manage
wr_timetout_manage-OnlyRuns tics entering exiting port len only =
    elim (Bool-cases (is_idle entering)) [
      | inl t ↦
          subst (λ b. OnlyRuns entering (after_entry tics b entering port left)) (sym t)
            (λ j ne. none_runs exiting port j len only)
      | inr f ↦
          subst (λ b. OnlyRuns entering (after_entry tics b entering port left)) (sym f)
            (start_one left entering _ (λ j. none_runs exiting port j len only))
    ]
  where
    left : List IntervalTimer
    left = after_exit (is_idle exiting) exiting port.wr_timers

exit_length :
    (idle : Bool) (s : WrState) (timers : List IntervalTimer)
    → length (after_exit idle s timers) ≡ length timers
exit_length true s timers = refl
exit_length false s timers = length-set timers (wrs_index s) _

-- On entering a main state other than the idle one, in a port with all its timers, the timer of the
-- state is started at the current time with the timeout of the state, all timers are still there,
-- and the count of repetitions is one more (in an octet) if the state is entered again, and 0
-- otherwise.
wr_timetout_manage-wr_timeouts :
    (tics : ℕ) (entering exiting : WrState) (port : PtpPortDs)
    → length port.wr_timers ≡ wr_timer_array_size
    → wrs_index entering < wr_timer_array_size
    → let left = wr_timetout_manage tics entering exiting port in
      (timer_at left.wr_timers (wrs_index entering) ≡ record {
        t_start = tics;
        interval = get_or port.wr_timeouts (wrs_index entering) (pos 0);
      })
      × (length left.wr_timers ≡ wr_timer_array_size)
      × (left.current_wr_state_cnt ≡ (
          if wrs_index entering == wrs_index exiting
          then u8 (port.current_wr_state_cnt + 1)
          else 0))
unfolding wr_timetout_manage timer_start
wr_timetout_manage-wr_timeouts tics entering exiting port len small =
    elim (Bool-cases (is_idle entering)) [
      | inl t ↦ absurd (omega (arith, small, idle_index entering t))
      | inr f ↦ (
        ap (λ b. timer_at (after_entry tics b entering port left) (wrs_index entering)) f
            ∙ get_or-set_self left (wrs_index entering) _ empty_interval_timer
                (omega (arith, kept, len, small)),
        ap (λ b. length (after_entry tics b entering port left)) f
            ∙ length-set left (wrs_index entering) _
            ∙ kept
            ∙ len,
        refl,
      )
    ]
  where
    left : List IntervalTimer
    left = after_exit (is_idle exiting) exiting port.wr_timers

    kept : length left ≡ length port.wr_timers
    kept = exit_length (is_idle exiting) exiting port.wr_timers
