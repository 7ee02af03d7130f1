-- ===== src/Tests/Passes.antt =====
-- Runs of one pass of the calibration and of the lock.
use ptp_noposix.Prelude.{refl, inl, [], ◌∷◌, true, false}
use ptp_noposix.Constants.{WrState, wr_slave, primary_slave}
use ptp_noposix.Wr.{main_state}
use ptp_noposix.Port.{
  calibrating_enable_tx, calibrating_poll_tx, locking_poll, locking_disable, Sys,
}
use ptp_noposix.Port.Attempt.{Calibrates, Locks, do_calibration, do_lock}
use ptp_noposix.Port.Progress.{carry_out, IsPass, do_calibration-IsPass}
use ptp_noposix.Port.Lock.{do_lock-IsPass}
use ptp_noposix.Tests.Setup.{at, opts, waiting}

-- The measurement of the sender is not finished yet.
abbrev pub measuring : Calibrates
measuring = record {
  pattern_on = true;
  tx_on = true;
  tx_ready = false;
  tx_off = true;
  pattern_off = true;
  rx_on = true;
  rx_ready = true;
  rx_off = true;
  measured_tx = 0;
  measured_rx = 0;
}

abbrev calibrating : Sys
calibrating = record waiting {
  port = record (waiting.port) { wr_port_state = WrState.calibration_1 };
}

do_calibration-IsPass_example :
    IsPass WrState.calibrated calibrating
      (do_calibration (at 300) opts measuring WrState.calibration_1 calibrating)
      (calibrating_enable_tx ∷ calibrating_poll_tx ∷ [])
      WrState.calibration_2
      false
unfolding carry_out main_state
do_calibration-IsPass_example =
    do_calibration-IsPass (at 300) opts measuring WrState.calibration_1 calibrating refl refl

-- The clock is locked.
abbrev locking : Sys
locking = record waiting {
  port = record (waiting.port) { wr_port_state = WrState.s_lock_1; wr_slave_role = primary_slave };
}

abbrev pub stable : Locks
stable = record { enabled = true; locked = true; disabled = true }

do_lock-IsPass_example :
    IsPass WrState.locked locking
      (do_lock (at 300) opts stable WrState.s_lock_1 locking)
      (locking_poll wr_slave 0 ∷ locking_disable wr_slave 0 ∷ [])
      WrState.s_lock_2
      true
unfolding carry_out main_state
do_lock-IsPass_example =
    do_lock-IsPass (at 300) opts stable 0 WrState.s_lock_1 locking (inl (refl, refl)) refl refl
