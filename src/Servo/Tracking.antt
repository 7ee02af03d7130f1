-- ===== src/Servo/Tracking.antt =====
-- A servo that tracks the phase, over the updates that follow.
use ptp_noposix.Prelude.{Bool, true, false, ◌≡◌, refl, ap, sym, ◌∙◌, if_intro, ◌&&◌, arith}
use ptp_noposix.Stamp.{WrStamp}
use ptp_noposix.Servo.{ServoState, Servo, call}
use ptp_noposix.Servo.Update.{
  Answers, measure, check_lock, advance_from, track, await, all_correct, wr_servo_update,
}
use ptp_noposix.Servo.Laws.{tracks, is_tracking, tracks-next, check_lock-same}

module _ (a : Answers) (offset : WrStamp) (g : Servo) (t : is_tracking g ≡ true) where
  -- In no other state does the servo track.
  elsewhere :
      {A : Type 0} (state : ServoState)
      → g.s.state ≡ state
      → tracks state g.s.next_state ≡ false
      → A
  elsewhere state e f =
      let both : true ≡ false = sym t ∙ ap (λ s. tracks s g.s.next_state) e ∙ f in
      absurd (ground arith)

  advance_from-tracking :
      (state : ServoState)
      → g.s.state ≡ state
      → g.tracking_enabled ≡ true
      → is_tracking (advance_from state a offset g) ≡ true
  unfolding advance_from track await
  advance_from-tracking ServoState.wait_sync_idle e on =
      if_intro (λ (x : Servo). is_tracking x ≡ true) a.adjust_in_progress _ _ (λ _. t)
        (λ _. tracks-next g.s.next_state ∙ sym (ap (λ s. tracks s g.s.next_state) e) ∙ t)
  advance_from-tracking ServoState.track_phase e on =
      if_intro (λ (x : Servo). is_tracking x ≡ true) g.tracking_enabled _ _ (λ _. refl)
        (λ off. absurd (ground (arith, on, off)))
  advance_from-tracking ServoState.sync_tai e on = elsewhere ServoState.sync_tai e refl
  advance_from-tracking ServoState.sync_nsec e on = elsewhere ServoState.sync_nsec e refl
  advance_from-tracking ServoState.sync_phase e on = elsewhere ServoState.sync_phase e refl
  advance_from-tracking ServoState.wait_offset_stable e on =
      elsewhere ServoState.wait_offset_stable e refl
  advance_from-tracking ServoState.unset e on = elsewhere ServoState.unset e refl

check_lock-enabled :
    (ready : Bool) (g : Servo) → (check_lock ready g).tracking_enabled ≡ g.tracking_enabled
unfolding check_lock call
check_lock-enabled true g = refl
check_lock-enabled false g = refl

-- With tracking enabled, a servo that tracks the phase or waits to go on tracking still does so
-- after an update, whatever offset the update measures and whatever the hardware answers.
pub update-tracking :
    (a : Answers) (g : Servo)
    → g.tracking_enabled ≡ true
    → is_tracking g ≡ true
    → is_tracking (wr_servo_update a g) ≡ true
unfolding wr_servo_update measure
update-tracking a g on t =
    let measured = (measure g).0 in
    let checked = check_lock a.pll_ready measured in
    if_intro (λ (x : Servo). is_tracking x ≡ true) (g.got_sync && all_correct g.s) _ _
      (λ _.
        advance_from-tracking a ((measure g).1) checked
          (check_lock-same a.pll_ready measured (λ s. tracks s.state s.next_state) ∙ t) g.s.state
          (check_lock-same a.pll_ready measured (λ s. s.state))
          (check_lock-enabled a.pll_ready measured ∙ on))
      (λ _. t)
