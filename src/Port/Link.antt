-- ===== src/Port/Link.antt =====
-- `toWRState` of PTPWRd/wr_protocol.c.
use ptp_noposix.Prelude.{ℕ, ◌==◌, Bool, true, false, if◌then◌else◌, ltb, get_or, set, bit_or}
use ptp_noposix.Prelude.Int.{pos, i32}
use ptp_noposix.Constants.{
  WrState, wrs_index, primary_slave, secondary_slave, wr_master, wr_is_wr_mode, slave_present, lock,
  locked_id, calibrate, wr_mode_on_id,
}
use ptp_noposix.Datatypes.{PtpPortDs, RunTimeOpts}
use ptp_noposix.Datatypes.Empty.{empty_record}
use ptp_noposix.Wr.{return_current_wr_main_state, is_idle, wr_timetout_manage, init_wr_data}
use ptp_noposix.Port.{
  locking_enable, calibration_pattern_enable, calibrating_enable_tx, enable_phase_tracking,
  Answered, Sys, make_call, issue_wr_signaling_msg,
}

-- On leaving the idle state the data of the link setup are initialized again.
unfoldable pub leave_wr_state : Answered → PtpPortDs → PtpPortDs
leave_wr_state a port =
    if is_idle port.wr_port_state then init_wr_data false a.d_tx a.d_rx port else port

abbrev pub wr_state_to : WrState → Sys → Sys
wr_state_to state sys = record sys { port = record (sys.port) { wr_port_state = state } }

-- The timeout of a state: the period if there is one.
abbrev pub set_timeout : WrState → (period : ℕ) → PtpPortDs → PtpPortDs
set_timeout state period port = record port {
  wr_timeouts =
      set port.wr_timeouts (wrs_index state)
        (i32 (pos (if ltb 0 period then period else port.wr_state_timeout)));
}

unfoldable pub start_locking : (locking_started : Bool) → (priority : ℕ) → Sys → Sys
start_locking started priority sys =
    wr_state_to (if started then WrState.s_lock_1 else WrState.s_lock)
      (make_call (locking_enable sys.port.wr_mode priority) sys)

-- The pattern is sent, then the calibration of the sender starts.
unfoldable pub start_calibration : Answered → Sys → Sys
start_calibration a sys =
    let asked = make_call (calibration_pattern_enable 0) sys in
    if a.pattern_started
    then wr_state_to
        (if a.calibrating_started then WrState.calibration_2 else WrState.calibration_1)
        (make_call calibrating_enable_tx asked)
    else wr_state_to WrState.calibration asked

-- The announce data of the best foreign master say from now on that it is in WR mode.
unfoldable pub mark_parent : PtpPortDs → PtpPortDs
mark_parent port =
    let best = get_or port.foreign port.foreign_record_best empty_record in
    record port {
      foreign = set port.foreign port.foreign_record_best (record best {
        announce = record (best.announce) {
          wr_flags = bit_or best.announce.wr_flags wr_is_wr_mode;
        };
      });
      parent_calibrated = true;
    }

-- The second switch, by the state that is entered. The substates are not entered this way.
unfoldable pub enter_wr_state : Answered → RunTimeOpts → WrState → Sys → Sys
enter_wr_state a opts WrState.idle sys = wr_state_to WrState.idle sys
enter_wr_state a opts WrState.present sys =
    wr_state_to WrState.present (issue_wr_signaling_msg a opts slave_present sys)
enter_wr_state a opts WrState.s_lock sys =
    if sys.port.wr_slave_role == primary_slave
    then start_locking a.locking_started 0 sys
    else if sys.port.wr_slave_role == secondary_slave
    then start_locking a.locking_started 1 sys
    else sys
enter_wr_state a opts WrState.locked sys =
    wr_state_to WrState.locked (issue_wr_signaling_msg a opts locked_id sys)
enter_wr_state a opts WrState.m_lock sys =
    wr_state_to WrState.m_lock (issue_wr_signaling_msg a opts lock sys)
enter_wr_state a opts WrState.calibration sys =
    let issued = issue_wr_signaling_msg a opts calibrate sys in
    let timed = record issued {
      port = set_timeout WrState.calibration issued.port.cal_period issued.port;
    } in
    if timed.port.calibrated
    then wr_state_to WrState.calibration_2 timed
    else start_calibration a timed
enter_wr_state a opts WrState.calibrated sys = wr_state_to WrState.calibrated sys
enter_wr_state a opts WrState.resp_calib_req sys =
    let period = sys.port.other_node_cal_period in
    let timed = record sys { port = set_timeout WrState.resp_calib_req period sys.port } in
    if sys.port.other_node_cal_send_pattern == 1
    then wr_state_to
        (if a.pattern_started then WrState.resp_calib_req_1 else WrState.resp_calib_req)
        (make_call (calibration_pattern_enable period) timed)
    else wr_state_to WrState.resp_calib_req_1 sys
enter_wr_state a opts WrState.wr_link_on sys =
    let tracked =
      make_call enable_phase_tracking
        (record sys { port = record (sys.port) { wr_mode_on = true } }) in
    let told =
      if tracked.port.wr_mode == wr_master
      then issue_wr_signaling_msg a opts wr_mode_on_id tracked
      else tracked in
    wr_state_to WrState.wr_link_on
      (record told { port = mark_parent (record (told.port) { parent_wr_mode_on = true }) })
enter_wr_state a opts substate sys = sys

-- The timers are changed by the main state of the state that was left.
unfoldable pub to_wr_state : Answered → RunTimeOpts → WrState → Sys → Sys
to_wr_state a opts entering_state sys =
    let exiting_state = return_current_wr_main_state sys.port in
    let left = record sys { port = leave_wr_state a sys.port } in
    let entered = enter_wr_state a opts entering_state left in
    record entered { port = wr_timetout_manage a.tics entering_state exiting_state entered.port }
