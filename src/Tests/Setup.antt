-- ===== src/Tests/Setup.antt =====
-- Runs of the changes of state of a port and of its link setup.
use ptp_noposix.Prelude.{ℕ, refl, [], ◌∷◌, replicate, true, false, some, arith}
use ptp_noposix.Prelude.Int.{pos}
use ptp_noposix.Timer.{timer_start, timer_stop, timer_expired}
use ptp_noposix.Timer.Laws.{armed}
use ptp_noposix.Constants.{PtpState, WrState, wr_slave, wr_m_and_s}
use ptp_noposix.Datatypes.{RunTimeOpts}
use ptp_noposix.Datatypes.Empty.{empty_interval_timer, empty_time_internal}
use ptp_noposix.Wr.{main_state, wr_timetout_manage}
use ptp_noposix.Wr.Laws.{OnlyRuns}
use ptp_noposix.Port.{Answered, Sys, issue_wr_signaling_msg, to_faulty}
use ptp_noposix.Port.Link.{to_wr_state, leave_wr_state, enter_wr_state}
use ptp_noposix.Port.Timeout.{retries, check_timer, wr_timer_expired}
use ptp_noposix.Port.GiveUp.{IsGivenUp, AllExpire, time_out, time_out_all, time_out_all-IsGivenUp}
use ptp_noposix.Port.Running.{to_wr_state-OnlyRuns}
use ptp_noposix.Tests.Links.{present_port-OnlyRuns}
use ptp_noposix.Tests.Samples.{zero_servo, quality_of, sample_clock, port_of_number}

abbrev pub opts : RunTimeOpts
opts = record {
  announce_interval = 1;
  sync_interval = 0;
  clock_quality = quality_of 0xC000;
  priority1 = 128;
  priority2 = 128;
  domain_number = 0;
  inbound_latency = empty_time_internal;
  outbound_latency = empty_time_internal;
  max_foreign_records = 2;
  e2e_mode = true;
  port_number = 2;
  cal_period = 0;
  override_clock_identity = 0;
  wr_config = wr_m_and_s;
  phy_calibration_required = false;
  wr_state_timeout = 300;
  wr_state_retry = 3;
  primary_source = false;
  master_only = false;
  disable_fallback_if_wr_fails = false;
}

abbrev pub at : ℕ → Answered
at tics = record {
  tics = tics;
  sent = pos 60;
  stamp = record { sec = tics; nsec = 8; phase = pos 0; correct = pos 1 };
  locking_started = true;
  pattern_started = true;
  calibrating_started = true;
  d_tx = 0;
  d_rx = 0;
  servo_calibration = some (pos 0, 8000);
}

-- The slave waits in WRS_PRESENT since time 100, and may ask once more.
abbrev pub waiting : Sys
waiting = record {
  clock = sample_clock;
  port = record (port_of_number 1) {
    port_state = PtpState.uncalibrated;
    wr_port_state = WrState.present;
    wr_mode = wr_slave;
    wr_state_retry = 1;
    wr_timers = armed 100 1000 ∷ replicate 7 empty_interval_timer;
    wr_timeouts = pos 1000 ∷ replicate 7 (pos 300);
  };
  servo = zero_servo;
  calls = [];
}

waiting-AllExpire : AllExpire opts (at 1100 ∷ at 2100 ∷ []) waiting
unfolding AllExpire time_out check_timer wr_timer_expired retries to_wr_state leave_wr_state
    enter_wr_state issue_wr_signaling_msg to_faulty wr_timetout_manage main_state timer_start
    timer_stop timer_expired
waiting-AllExpire = (refl, (refl, tt))

time_out_all-IsGivenUp_example :
    IsGivenUp opts wr_slave (time_out_all opts (at 1100 ∷ at 2100 ∷ []) waiting)
unfolding main_state retries
time_out_all-IsGivenUp_example =
    time_out_all-IsGivenUp opts (at 1100 ∷ at 2100 ∷ []) WrState.present waiting refl refl
      (omega arith) waiting-AllExpire refl (omega arith)

-- The message cannot be sent, and the state is left for the lock all the same.
to_wr_state-OnlyRuns_example :
    OnlyRuns WrState.m_lock
      ((to_wr_state (record (at 300) { sent = pos 0 }) opts WrState.m_lock waiting).port.wr_timers)
unfolding main_state
to_wr_state-OnlyRuns_example =
    to_wr_state-OnlyRuns (record (at 300) { sent = pos 0 }) opts WrState.m_lock waiting refl
      present_port-OnlyRuns
