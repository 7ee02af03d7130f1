-- ===== src/Servo/Laws.antt =====
-- The states of the servo and the timing output over any sequence of its operations.
use ptp_noposix.Prelude.{
  ℕ, List, [], ◌∷◌, ◌++◌, ◌≡◌, ◌⊎◌, inl, inr, Bool, true, false, Option, some, none, refl, ap, sym,
  ◌∙◌, arith, if_intro, leb, ◌&&◌,
}
use ptp_noposix.Prelude.Int.{ℤ, pos, ltb_ℤ, eqb_ℤ, i32, i64, ◌+ℤ◌, ◌-ℤ◌}
use ptp_noposix.Time.{TimeInternal}
use ptp_noposix.Stamp.{WrStamp, ts_to_picos}
use ptp_noposix.Datatypes.{PtpPortDs}
use ptp_noposix.Servo.{
  ServoState, HardwareCall, enable_timing_output, adjust_counters, adjust_phase, Servo,
  WrServoState, call, wr_servo_enable_tracking, wr_servo_reset, wr_servo_init,
  wr_servo_man_adjust_phase, wr_servo_got_sync, wr_servo_got_delay,
}
use ptp_noposix.Servo.Update.{
  Answers, measure, check_lock, advance_from, wait_stable, judge_offset, abs, stability_threshold,
  all_correct, track, await, wr_servo_update, enter, is_off,
}

-- The operations of the file, as the protocol calls them.
pub data Operation : Type 0 where
  init : Option (ℤ × ℕ) → PtpPortDs → Operation
  reset : Operation
  track_with : Bool → Operation
  adjust_by : ℤ → Operation
  sync : TimeInternal → TimeInternal → Operation
  delay : WrStamp → TimeInternal → ℤ → Operation
  update : Answers → Operation

unfoldable pub perform : Operation → Servo → Servo
unfolding wr_servo_init wr_servo_reset wr_servo_enable_tracking wr_servo_man_adjust_phase
    wr_servo_got_sync wr_servo_got_delay
perform (init calibration port) g = (wr_servo_init calibration port g).0
perform reset g = wr_servo_reset g
perform (track_with enable) g = wr_servo_enable_tracking enable g
perform (adjust_by phase) g = (wr_servo_man_adjust_phase phase g).0
perform (sync t1 t2) g = wr_servo_got_sync t1 t2 g
perform (delay t3 t4 cf) g = wr_servo_got_delay t3 t4 cf g
perform (update a) g = wr_servo_update a g

unfoldable pub perform_all : List Operation → Servo → Servo
perform_all [] g = g
perform_all (o ∷ rest) g = perform_all rest (perform o g)

-- The servo tracks the phase, or waits for an adjustment to do so.
abbrev pub tracks : ServoState → ServoState → Bool
tracks ServoState.track_phase next = true
tracks ServoState.wait_sync_idle ServoState.track_phase = true
tracks _ next = false

abbrev pub is_tracking : Servo → Bool
is_tracking g = tracks g.s.state g.s.next_state

-- The state of the timing output after some calls.
unfoldable pub output_after : Bool → List HardwareCall → Bool
output_after on [] = on
output_after on (enable_timing_output b ∷ rest) = output_after b rest
output_after on (adjust_counters sec nsec ∷ rest) = output_after on rest
output_after on (adjust_phase setpoint ∷ rest) = output_after on rest

output_after-++ :
    (on : Bool) (xs ys : List HardwareCall)
    → output_after on (xs ++ ys) ≡ output_after (output_after on xs) ys
unfolding output_after
output_after-++ on [] ys = refl
output_after-++ on (enable_timing_output b ∷ xs) ys = output_after-++ b xs ys
output_after-++ on (adjust_counters sec nsec ∷ xs) ys = output_after-++ on xs ys
output_after-++ on (adjust_phase setpoint ∷ xs) ys = output_after-++ on xs ys

abbrev pub output_on : Servo → Bool
output_on g = output_after false g.calls

-- While the servo tracks, the output is on, or a restart of the port has been asked for.
pub data IsSafe (g : Servo) : Type 0 where
  untracked : is_tracking g ≡ false → IsSafe g
  covered_by : (output_on g ≡ true) ⊎ (g.do_restart ≡ true) → IsSafe g

output_on-call :
    (c : HardwareCall) (g : Servo) → output_on (call c g) ≡ output_after (output_on g) (c ∷ [])
unfolding call
output_on-call c g = output_after-++ false g.calls (c ∷ [])

turned_on : (g : Servo) → output_on (call (enable_timing_output true) g) ≡ true
unfolding output_after
turned_on g = output_on-call (enable_timing_output true) g

adjusted : (setpoint : ℤ) (g : Servo) → output_on (call (adjust_phase setpoint) g) ≡ output_on g
unfolding output_after
adjusted setpoint g = output_on-call (adjust_phase setpoint) g

-- What keeps the safety of a servo that goes on tracking.
abbrev IsCovered : Servo → Type 0
IsCovered g = (output_on g ≡ true) ⊎ (g.do_restart ≡ true)

adjusted-IsCovered :
    (setpoint : ℤ) (g : Servo) → IsCovered g → IsCovered (call (adjust_phase setpoint) g)
unfolding call
adjusted-IsCovered setpoint g (inl o) = inl (adjusted setpoint g ∙ o)
adjusted-IsCovered setpoint g (inr r) = inr r

covered : (g : Servo) → is_tracking g ≡ true → IsSafe g → IsCovered g
covered g t (untracked f) = absurd (ground (arith, t, f))
covered g t (covered_by c) = c

pub tracks-next : (next : ServoState) → tracks next next ≡ tracks ServoState.wait_sync_idle next
tracks-next ServoState.unset = refl
tracks-next ServoState.sync_nsec = refl
tracks-next ServoState.sync_tai = refl
tracks-next ServoState.sync_phase = refl
tracks-next ServoState.track_phase = refl
tracks-next ServoState.wait_sync_idle = refl
tracks-next ServoState.wait_offset_stable = refl

entered :
    (g : Servo) → g.s.state ≡ ServoState.wait_sync_idle → IsSafe g → IsSafe (enter g.s.next_state g)
entered g e (untracked t) =
    untracked (tracks-next g.s.next_state ∙ sym (ap (λ s. tracks s g.s.next_state) e) ∙ t)
entered g e (covered_by c) = covered_by c

check_lock-IsSafe : (ready : Bool) (g : Servo) → IsSafe g → IsSafe (check_lock ready g)
unfolding check_lock call
check_lock-IsSafe true g h = h
check_lock-IsSafe false g h = covered_by (inr refl)

judge_offset-IsSafe :
    (offset : WrStamp) (g : Servo)
    → g.s.state ≡ ServoState.wait_offset_stable
    → IsSafe (judge_offset offset g)
unfolding judge_offset
judge_offset-IsSafe offset g e =
    if_intro IsSafe (is_off offset) _ _ (λ _. untracked refl)
      (λ _.
        if_intro IsSafe (ltb_ℤ (abs (ts_to_picos offset)) (pos stability_threshold)) _ _
          (λ _. covered_by (inl (turned_on g)))
          (λ _. untracked (ap (λ s. tracks s g.s.next_state) e)))

wait_stable-IsSafe :
    (offset : WrStamp) (g : Servo)
    → g.s.state ≡ ServoState.wait_offset_stable
    → IsSafe (wait_stable offset g)
unfolding wait_stable
wait_stable-IsSafe offset g e =
    if_intro IsSafe (leb 10 (judge_offset offset g).s.missed_iters) _ _ (λ _. untracked refl)
      (λ _. judge_offset-IsSafe offset g e)

track-IsSafe :
    (tics : ℕ) (offset : WrStamp) (g : Servo)
    → IsSafe g
    → g.s.state ≡ ServoState.track_phase
    → IsSafe (track tics offset g)
unfolding track await
track-IsSafe tics offset g h e =
    let setpoint = i32 (g.s.cur_setpoint +ℤ i64 (g.s.delta_ms -ℤ g.s.delta_ms_prev)) in
    let followed : Servo → Servo = λ x. await tics ServoState.track_phase (
      call (adjust_phase setpoint) (record x {
        s = record (x.s) { cur_setpoint = setpoint; delta_ms_prev = g.s.delta_ms };
      })) in
    let c = covered g (ap (λ s. tracks s g.s.next_state) e) h in
    if_intro IsSafe g.tracking_enabled _ _
      (λ _.
        if_intro (λ (x : Servo). IsSafe (followed x)) (is_off offset) _ _
          (λ _. covered_by (adjusted-IsCovered _ _ c)) (λ _. covered_by (adjusted-IsCovered _ _ c)))
      (λ _. if_intro IsSafe (is_off offset) _ _ (λ _. untracked refl) (λ _. covered_by c))

advance_from-IsSafe :
    (state : ServoState) (a : Answers) (offset : WrStamp) (g : Servo)
    → IsSafe g
    → g.s.state ≡ state
    → IsSafe (advance_from state a offset g)
unfolding advance_from await
advance_from-IsSafe ServoState.wait_sync_idle a offset g h e =
    if_intro IsSafe a.adjust_in_progress _ _ (λ _. h) (λ _. entered g e h)
advance_from-IsSafe ServoState.sync_tai a offset g h e =
    if_intro IsSafe (eqb_ℤ offset.sec (pos 0)) _ _ (λ _. untracked refl) (λ _. untracked refl)
advance_from-IsSafe ServoState.sync_nsec a offset g h e =
    if_intro IsSafe (eqb_ℤ offset.nsec (pos 0)) _ _ (λ _. untracked refl) (λ _. untracked refl)
advance_from-IsSafe ServoState.sync_phase a offset g h e = untracked refl
advance_from-IsSafe ServoState.wait_offset_stable a offset g h e = wait_stable-IsSafe offset g e
advance_from-IsSafe ServoState.track_phase a offset g h e = track-IsSafe a.tics offset g h e
advance_from-IsSafe ServoState.unset a offset g h e = h

-- Only the state, the calls and the request for a restart count.
IsSafe-same :
    (g g' : Servo)
    → is_tracking g ≡ is_tracking g'
    → output_on g ≡ output_on g'
    → g.do_restart ≡ g'.do_restart
    → IsSafe g
    → IsSafe g'
IsSafe-same g g' t o r (untracked f) = untracked (sym t ∙ f)
IsSafe-same g g' t o r (covered_by (inl c)) = covered_by (inl (sym o ∙ c))
IsSafe-same g g' t o r (covered_by (inr c)) = covered_by (inr (sym r ∙ c))

pub check_lock-same :
    {A : Type 0} (ready : Bool) (g : Servo) (f : WrServoState → A)
    → f ((check_lock ready g).s) ≡ f (g.s)
unfolding check_lock call
check_lock-same true g f = refl
check_lock-same false g f = refl

update-IsSafe : (a : Answers) (g : Servo) → IsSafe g → IsSafe (wr_servo_update a g)
unfolding wr_servo_update measure
update-IsSafe a g h =
    if_intro IsSafe (g.got_sync && all_correct g.s) _ _
      (λ _.
        advance_from-IsSafe g.s.state a ((measure g).1) (check_lock a.pll_ready ((measure g).0))
          (check_lock-IsSafe a.pll_ready ((measure g).0) (IsSafe-same g _ refl refl refl h))
          (check_lock-same a.pll_ready ((measure g).0) (λ s. s.state)))
      (λ _. h)

perform-IsSafe : (o : Operation) (g : Servo) → IsSafe g → IsSafe (perform o g)
unfolding perform wr_servo_init wr_servo_reset wr_servo_enable_tracking wr_servo_man_adjust_phase
    wr_servo_got_sync wr_servo_got_delay call
perform-IsSafe (init none port) g h = h
perform-IsSafe (init (some (alpha, period)) port) g h = untracked refl
perform-IsSafe reset g h = IsSafe-same g _ refl refl refl h
perform-IsSafe (track_with enable) g h = IsSafe-same g _ refl refl refl h
perform-IsSafe (adjust_by phase) g h = IsSafe-same g _ refl refl refl h
perform-IsSafe (sync t1 t2) g h = IsSafe-same g _ refl refl refl h
perform-IsSafe (delay t3 t4 cf) g h = IsSafe-same g _ refl refl refl h
perform-IsSafe (update a) g h = update-IsSafe a g h

-- If, while the servo tracks the phase or waits for an adjustment to go on tracking, the timing
-- output is on or a restart of the port is asked for, then this still holds after any sequence of
-- the operations of the servo: initialisations, resets, measurements and updates, whatever the
-- hardware answers.
pub perform_all-IsSafe : (os : List Operation) (g : Servo) → IsSafe g → IsSafe (perform_all os g)
unfolding perform_all
perform_all-IsSafe [] g h = h
perform_all-IsSafe (o ∷ os) g h = perform_all-IsSafe os (perform o g) (perform-IsSafe o g h)
