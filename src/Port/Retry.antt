-- ===== src/Port/Retry.antt =====
-- Repeated timeouts of one state of the link setup.
use ptp_noposix.Prelude.{ℕ, ◌≡◌, refl, ap, Bool, true, false, if_intro, if◌then◌else◌, ◌==◌, arith}
use ptp_noposix.Prelude.Int.{pos, eqb_ℤ}
use ptp_noposix.Constants.{
  WrState, primary_slave, secondary_slave, wr_master, slave_present, lock, locked_id, calibrate,
  wr_mode_on_id,
}
use ptp_noposix.Datatypes.{PtpPortDs, RunTimeOpts}
use ptp_noposix.Wr.{main_state, is_idle}
use ptp_noposix.Msg.Signaling.{msg_pack_wr_signaling}
use ptp_noposix.Port.{
  Answered, Sys, issue_wr_signaling_msg, to_faulty, make_call, enable_phase_tracking,
}
use ptp_noposix.Port.Link.{enter_wr_state, start_locking, start_calibration, mark_parent}

pub main-is_idle : (s : WrState) → is_idle (main_state s) ≡ is_idle s
unfolding main_state
main-is_idle s = ground arith

-- What decides how a state goes on: the numbers of repetitions, the count and the mode.
abbrev pub Course : Type 0
Course = ℕ × ℕ × ℕ × ℕ × ℕ

abbrev pub course : PtpPortDs → Course
course port = (
  port.wr_state_retry, port.cal_retry, port.other_node_cal_retry, port.current_wr_state_cnt,
  port.wr_mode,
)

to_faulty-shut :
    (opts : RunTimeOpts) (port : PtpPortDs)
    → is_idle port.wr_port_state ≡ false
    → to_faulty opts port ≡ port
unfolding to_faulty
to_faulty-shut opts port h =
    if_intro (λ (x : PtpPortDs). x ≡ port) (is_idle port.wr_port_state) _ _
      (λ t. absurd (ground (arith, t, h))) (λ _. refl)

-- While the link setup runs, a message that is sent changes the buffer only.
issue-port :
    (a : Answered) (opts : RunTimeOpts) (id : ℕ) (sys : Sys)
    → is_idle sys.port.wr_port_state ≡ false
    → (issue_wr_signaling_msg a opts id sys).port ≡ record (sys.port) {
      msg_obuf = (msg_pack_wr_signaling sys.clock sys.port id sys.port.msg_obuf).0;
    }
unfolding issue_wr_signaling_msg
issue-port a opts id sys h =
    let packed = record (sys.port) {
      msg_obuf = (msg_pack_wr_signaling sys.clock sys.port id sys.port.msg_obuf).0;
    } in
    if_intro (λ (x : PtpPortDs). x ≡ packed) (eqb_ℤ a.sent (pos 0)) (to_faulty opts packed) packed
      (λ _. to_faulty-shut opts packed h) (λ _. refl)

-- The substates with which a state starts, by the answer of the hardware.
locking :
    (started : Bool)
    → main_state (if started then WrState.s_lock_1 else WrState.s_lock) ≡ WrState.s_lock
unfolding main_state
locking true = refl
locking false = refl

calibrating :
    (started : Bool)
    → main_state (if started then WrState.calibration_2 else WrState.calibration_1)
      ≡ WrState.calibration
unfolding main_state
calibrating true = refl
calibrating false = refl

responding :
    (started : Bool)
    → main_state (if started then WrState.resp_calib_req_1 else WrState.resp_calib_req)
      ≡ WrState.resp_calib_req
unfolding main_state
responding true = refl
responding false = refl

module _ (a : Answered) (opts : RunTimeOpts) (sys : Sys)
    (h : is_idle sys.port.wr_port_state ≡ false) where
  issue-course : (id : ℕ) → course ((issue_wr_signaling_msg a opts id sys).port) ≡ course (sys.port)
  issue-course id = ap course (issue-port a opts id sys h)

  pub enter-course : (w : WrState) → course ((enter_wr_state a opts w sys).port) ≡ course (sys.port)
  unfolding enter_wr_state start_locking start_calibration mark_parent
  enter-course WrState.present = issue-course slave_present
  enter-course WrState.s_lock =
      if_intro (λ (x : Sys). course x.port ≡ course sys.port)
        (sys.port.wr_slave_role == primary_slave) _ _ (λ _. refl)
        (λ _.
          if_intro (λ (x : Sys). course x.port ≡ course sys.port)
            (sys.port.wr_slave_role == secondary_slave) _ _ (λ _. refl) (λ _. refl))
  enter-course WrState.m_lock = issue-course lock
  enter-course WrState.locked = issue-course locked_id
  enter-course WrState.calibration =
      let issued = issue_wr_signaling_msg a opts calibrate sys in
      if_intro (λ (x : Sys). course x.port ≡ course sys.port) issued.port.calibrated _ _
        (λ _. issue-course calibrate)
        (λ _.
          if_intro (λ (x : Sys). course x.port ≡ course sys.port) a.pattern_started _ _
            (λ _. issue-course calibrate) (λ _. issue-course calibrate))
  enter-course WrState.calibrated = refl
  enter-course WrState.resp_calib_req =
      if_intro (λ (x : Sys). course x.port ≡ course sys.port)
        (sys.port.other_node_cal_send_pattern == 1) _ _ (λ _. refl) (λ _. refl)
  enter-course WrState.wr_link_on =
      if_intro (λ (x : Sys). course x.port ≡ course sys.port) (sys.port.wr_mode == wr_master)
        (issue_wr_signaling_msg a opts wr_mode_on_id tracked) tracked
        (λ _. ap course (issue-port a opts wr_mode_on_id tracked h)) (λ _. refl)
    where
      tracked : Sys
      tracked =
          make_call enable_phase_tracking
            (record sys { port = record (sys.port) { wr_mode_on = true } })
  enter-course w = refl

  -- A main state that is entered again, or another than S_LOCK, is the main state then.
  pub enter-main :
      (w : WrState)
      → main_state sys.port.wr_port_state ≡ w
      → main_state ((enter_wr_state a opts w sys).port.wr_port_state) ≡ w
  unfolding enter_wr_state start_locking start_calibration main_state
  enter-main WrState.s_lock e =
      let same : Sys → Type 0 = λ x. main_state x.port.wr_port_state ≡ WrState.s_lock in
      if_intro same (sys.port.wr_slave_role == primary_slave) _ _ (λ _. locking a.locking_started)
        (λ _.
          if_intro same (sys.port.wr_slave_role == secondary_slave) _ _
            (λ _. locking a.locking_started) (λ _. e))
  enter-main WrState.calibration e =
      let same : Sys → Type 0 = λ x. main_state x.port.wr_port_state ≡ WrState.calibration in
      let issued = issue_wr_signaling_msg a opts calibrate sys in
      if_intro same issued.port.calibrated _ _ (λ _. refl)
        (λ _.
          if_intro same a.pattern_started _ _ (λ _. calibrating a.calibrating_started) (λ _. refl))
  enter-main WrState.resp_calib_req e =
      let same : Sys → Type 0 = λ x. main_state x.port.wr_port_state ≡ WrState.resp_calib_req in
      if_intro same (sys.port.other_node_cal_send_pattern == 1) _ _
        (λ _. responding a.pattern_started) (λ _. refl)
  enter-main WrState.present e = refl
  enter-main WrState.m_lock e = refl
  enter-main WrState.locked e = refl
  enter-main WrState.calibrated e = refl
  enter-main WrState.wr_link_on e = refl
  enter-main WrState.idle e = refl
  enter-main w e = e
