-- ===== src/Run/Link.antt =====
-- `doWRState` of PTPWRd/wr_protocol.c. Its cases WRS_S_LOCK and WRS_CALIBRATION, with their substates,
-- are in Port/Attempt.antt.
use ptp_noposix.Prelude.{◌==◌, ◌&&◌, if◌then◌else◌}
use ptp_noposix.Constants.{
  PtpState, WrState, wr_master, wr_slave, null_wr_tlv, lock, locked_id, calibrate, calibrated_id,
  wr_mode_on_id,
}
use ptp_noposix.Datatypes.{RunTimeOpts}
use ptp_noposix.Wr.{return_current_wr_main_state}
use ptp_noposix.Port.{calibration_pattern_enable, calibration_pattern_disable, Answered, Sys}
use ptp_noposix.Port.Link.{to_wr_state}
use ptp_noposix.Port.Enter.{to_state}
use ptp_noposix.Port.Timeout.{wr_timer_expired}
use ptp_noposix.Port.Attempt.{Calibrates, Locks, attempt, substate, do_calibration, do_lock}
use ptp_noposix.Issue.{on_port}
use ptp_noposix.Handle.{Received, handle}

-- The message, and the answers to the calls of one pass: those of the calibration or of the lock,
-- those on entering a state, those when the setup is complete, and those of the timeout.
pub record LinkTurn : Type 0 where
  pub received : Received
  pub calibrates : Calibrates
  pub locks : Locks
  pub entered : Answered
  pub completed : Answered
  pub timed_out : Answered

abbrev pub use_message : Sys → Sys
use_message sys = on_port (λ port. record port { msg_tmp_wr_message_id = null_wr_tlv }) sys

module _ (t : LinkTurn) (opts : RunTimeOpts) where
  -- The states that wait for a message.
  unfoldable pub do_present : Sys → Sys
  do_present sys =
      let handled = handle t.received opts sys in
      if handled.port.msg_tmp_wr_message_id == lock
      then use_message (to_wr_state t.entered opts WrState.s_lock handled)
      else handled

  unfoldable pub do_m_lock : Sys → Sys
  do_m_lock sys =
      let handled = handle t.received opts sys in
      if handled.port.msg_tmp_wr_message_id == locked_id
      then to_wr_state t.entered opts WrState.calibration handled
      else handled

  unfoldable pub do_locked : Sys → Sys
  do_locked sys =
      let handled = handle t.received opts sys in
      if handled.port.msg_tmp_wr_message_id == calibrate
      then to_wr_state t.entered opts WrState.resp_calib_req handled
      else handled

  unfoldable pub do_calibrated : Sys → Sys
  do_calibrated sys =
      let handled = handle t.received opts sys in
      let asked =
        if handled.port.msg_tmp_wr_message_id == calibrate && handled.port.wr_mode == wr_master
        then to_wr_state t.entered opts WrState.resp_calib_req handled
        else handled in
      if asked.port.msg_tmp_wr_message_id == wr_mode_on_id && asked.port.wr_mode == wr_slave
      then to_wr_state t.completed opts WrState.wr_link_on asked
      else asked

  -- WRS_RESP_CALIB_REQ and its substates, each with what it falls through to.
  unfoldable pub respond_from_3 : Sys → Sys
  respond_from_3 sys =
      if sys.port.wr_mode == wr_master
      then to_wr_state t.entered opts WrState.wr_link_on sys
      else if sys.port.wr_mode == wr_slave
      then to_wr_state t.entered opts WrState.calibration sys
      else to_wr_state t.entered opts WrState.idle sys

  unfoldable pub respond_from_2 : Sys → Sys
  respond_from_2 =
      attempt calibration_pattern_disable t.calibrates.pattern_off
        (substate WrState.resp_calib_req_3) respond_from_3

  -- Substate 2 is next whatever the state is set to.
  unfoldable pub respond_from_1 : Sys → Sys
  respond_from_1 sys =
      let handled = handle t.received opts sys in
      if handled.port.msg_tmp_wr_message_id == calibrated_id
      then respond_from_2 (
          on_port
            (substate (
              if handled.port.other_node_cal_send_pattern == 1
              then WrState.resp_calib_req_2
              else WrState.resp_calib_req_3))
            handled)
      else handled

  unfoldable pub respond_from_0 : Sys → Sys
  respond_from_0 sys =
      attempt (calibration_pattern_enable sys.port.other_node_cal_period) t.calibrates.pattern_on
        (substate WrState.resp_calib_req_1) respond_from_1 sys

  unfoldable pub do_wr_link_on : Sys → Sys
  do_wr_link_on sys =
      let left = to_wr_state t.entered opts WrState.idle sys in
      if left.port.wr_mode == wr_slave
      then to_state t.completed opts PtpState.slave left
      else if left.port.wr_mode == wr_master
      then to_state t.completed opts PtpState.master left
      else left

  -- The switch on the state of the link setup.
  unfoldable pub act_in : WrState → Sys → Sys
  act_in WrState.idle sys = sys
  act_in WrState.present sys = do_present sys
  act_in WrState.s_lock sys = do_lock t.entered opts t.locks WrState.s_lock sys
  act_in WrState.s_lock_1 sys = do_lock t.entered opts t.locks WrState.s_lock_1 sys
  act_in WrState.s_lock_2 sys = do_lock t.entered opts t.locks WrState.s_lock_2 sys
  act_in WrState.m_lock sys = do_m_lock sys
  act_in WrState.locked sys = do_locked sys
  act_in WrState.calibrated sys = do_calibrated sys
  act_in WrState.resp_calib_req sys = respond_from_0 sys
  act_in WrState.resp_calib_req_1 sys = respond_from_1 sys
  act_in WrState.resp_calib_req_2 sys = respond_from_2 sys
  act_in WrState.resp_calib_req_3 sys = respond_from_3 sys
  act_in WrState.wr_link_on sys = do_wr_link_on sys
  act_in calibrating sys = do_calibration t.entered opts t.calibrates calibrating sys

  unfoldable pub do_wr_state : Sys → Sys
  do_wr_state sys =
      let acted = act_in sys.port.wr_port_state sys in
      wr_timer_expired t.timed_out opts acted.port.wr_mode (return_current_wr_main_state acted.port)
        acted
