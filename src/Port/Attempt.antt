-- ===== src/Port/Attempt.antt =====
-- The cases WRS_S_LOCK to WRS_S_LOCK_2 and WRS_CALIBRATION to WRS_CALIBRATION_8 of `doWRState` in
-- PTPWRd/wr_protocol.c: one pass through the substates, in which each call of the hardware that
-- succeeds falls through to the next one, and the first that fails ends the pass.
use ptp_noposix.Prelude.{ℕ, ◌==◌, Bool, true, if◌then◌else◌}
use ptp_noposix.Constants.{WrState, primary_slave, secondary_slave, calibrated_id}
use ptp_noposix.Datatypes.{PtpPortDs, RunTimeOpts}
use ptp_noposix.Wr.{scaled}
use ptp_noposix.Port.{
  LinkCall, calibration_pattern_enable, calibrating_enable_tx, calibrating_poll_tx,
  calibrating_disable_tx, calibration_pattern_disable, calibrating_enable_rx, calibrating_poll_rx,
  calibrating_disable_rx, locking_enable, locking_poll, locking_disable, Answered, Sys, make_call,
  issue_wr_signaling_msg,
}
use ptp_noposix.Port.Link.{to_wr_state}

-- What the hardware answers to the calls of one pass: whether it did what was asked for.
pub record Calibrates : Type 0 where
  pub pattern_on : Bool
  pub tx_on : Bool
  pub tx_ready : Bool
  pub tx_off : Bool
  pub pattern_off : Bool
  pub rx_on : Bool
  pub rx_ready : Bool
  pub rx_off : Bool
  pub measured_tx : ℕ  -- `delta` of the two polls
  pub measured_rx : ℕ

pub record Locks : Type 0 where
  pub enabled : Bool
  pub locked : Bool
  pub disabled : Bool

-- `if (call == OK) { effect; } else break;` and what it falls through to.
unfoldable pub attempt :
    LinkCall → (answer : Bool) → (effect : PtpPortDs → PtpPortDs) → (Sys → Sys) → Sys → Sys
attempt c answer effect next sys =
    let called = make_call c sys in
    if answer then next (record called { port = effect called.port }) else called

abbrev pub substate : WrState → PtpPortDs → PtpPortDs
substate state port = record port { wr_port_state = state }

module _ (a : Answered) (opts : RunTimeOpts) where
  module _ (h : Calibrates) where
    -- Substate 8: the message with the delays, and the next state.
    unfoldable pub finish_calibration : Sys → Sys
    finish_calibration sys =
        let done =
          to_wr_state a opts WrState.calibrated (issue_wr_signaling_msg a opts calibrated_id sys) in
        record done { port = record (done.port) { calibrated = true } }

    -- The receiver: substates 5 to 7.
    unfoldable pub calibrate_from_7 : Sys → Sys
    calibrate_from_7 =
        attempt calibrating_disable_rx h.rx_off (substate WrState.calibration_8) finish_calibration

    unfoldable pub calibrate_from_6 : Sys → Sys
    calibrate_from_6 =
        attempt calibrating_poll_rx h.rx_ready
          (λ port. record port {
            delta_rx = scaled h.measured_rx;
            wr_port_state = WrState.calibration_7;
          })
          calibrate_from_7

    unfoldable pub calibrate_from_5 : Sys → Sys
    calibrate_from_5 =
        attempt calibrating_enable_rx h.rx_on (substate WrState.calibration_6) calibrate_from_6

    -- The sender: substates 0 to 4.
    unfoldable pub calibrate_from_4 : Sys → Sys
    calibrate_from_4 =
        attempt calibration_pattern_disable h.pattern_off (substate WrState.calibration_5)
          calibrate_from_5

    unfoldable pub calibrate_from_3 : Sys → Sys
    calibrate_from_3 =
        attempt calibrating_disable_tx h.tx_off (substate WrState.calibration_4) calibrate_from_4

    unfoldable pub calibrate_from_2 : Sys → Sys
    calibrate_from_2 =
        attempt calibrating_poll_tx h.tx_ready
          (λ port. record port {
            delta_tx = scaled h.measured_tx;
            wr_port_state = WrState.calibration_3;
          })
          calibrate_from_3

    unfoldable pub calibrate_from_1 : Sys → Sys
    calibrate_from_1 =
        attempt calibrating_enable_tx h.tx_on (substate WrState.calibration_2) calibrate_from_2

    unfoldable pub calibrate_from_0 : Sys → Sys
    calibrate_from_0 =
        attempt (calibration_pattern_enable 0) h.pattern_on (substate WrState.calibration_1)
          calibrate_from_1

    -- The pass starts in the substate of the port.
    unfoldable pub do_calibration : WrState → Sys → Sys
    do_calibration WrState.calibration sys = calibrate_from_0 sys
    do_calibration WrState.calibration_1 sys = calibrate_from_1 sys
    do_calibration WrState.calibration_2 sys = calibrate_from_2 sys
    do_calibration WrState.calibration_3 sys = calibrate_from_3 sys
    do_calibration WrState.calibration_4 sys = calibrate_from_4 sys
    do_calibration WrState.calibration_5 sys = calibrate_from_5 sys
    do_calibration WrState.calibration_6 sys = calibrate_from_6 sys
    do_calibration WrState.calibration_7 sys = calibrate_from_7 sys
    do_calibration WrState.calibration_8 sys = finish_calibration sys
    do_calibration state sys = sys

  module _ (h : Locks) (priority : ℕ) where
    unfoldable pub lock_from_2 : Sys → Sys
    lock_from_2 sys =
        attempt (locking_disable sys.port.wr_mode priority) h.disabled (λ port. port)
          (to_wr_state a opts WrState.locked) sys

    unfoldable pub lock_from_1 : Sys → Sys
    lock_from_1 sys =
        attempt (locking_poll sys.port.wr_mode priority) h.locked (substate WrState.s_lock_2)
          lock_from_2 sys

    unfoldable pub lock_from_0 : Sys → Sys
    lock_from_0 sys =
        attempt (locking_enable sys.port.wr_mode priority) h.enabled (substate WrState.s_lock_1)
          lock_from_1 sys

    unfoldable pub lock_with : WrState → Sys → Sys
    lock_with WrState.s_lock sys = lock_from_0 sys
    lock_with WrState.s_lock_1 sys = lock_from_1 sys
    lock_with WrState.s_lock_2 sys = lock_from_2 sys
    lock_with state sys = sys

  -- The role of the port gives the priority; a port that is no slave does nothing.
  unfoldable pub do_lock : Locks → WrState → Sys → Sys
  do_lock h state sys =
      if sys.port.wr_slave_role == primary_slave
      then lock_with h 0 state sys
      else if sys.port.wr_slave_role == secondary_slave
      then lock_with h 1 state sys
      else sys
