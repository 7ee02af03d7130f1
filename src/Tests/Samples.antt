-- ===== src/Tests/Samples.antt =====
-- The values of the runs: an identity per number, records and ports with a few fields set.
use ptp_noposix.Prelude.{ℕ, [], ◌∷◌, true, false}
use ptp_noposix.Stamp.{WrStamp}
use ptp_noposix.Servo.{ServoState, ServoLabel, Servo}
use ptp_noposix.Prelude.Int.{pos}
use ptp_noposix.Constants.{PtpState, wr_m_and_s}
use ptp_noposix.Datatypes.{
  Buf, ClockIdentity, PortIdentity, ClockQuality, ForeignMasterRecord, PtpClockDs, PtpPortDs,
}
use ptp_noposix.Datatypes.Empty.{
  empty_clock_identity, empty_msg_header, empty_msg_announce, empty_record, empty_clock, empty_port,
}

abbrev pub blank : Buf
blank n = 0

abbrev pub identity_of : ℕ → ClockIdentity
identity_of n = record empty_clock_identity { o7 = n }

abbrev pub source_of : ℕ → PortIdentity
source_of n = record { clock_identity = identity_of n; port_number = 1 }

abbrev pub quality_of : ℕ → ClockQuality
quality_of v = record { clock_class = 187; clock_accuracy = 0x31; offset_scaled_log_variance = v }

-- A master with the given identity, priority1 and variance, heard on a port.
abbrev pub master_of : (id priority variance received_on : ℕ) → ForeignMasterRecord
master_of id priority variance received_on = record {
  foreign_master_port_identity = source_of id;
  foreign_master_announce_messages = 1;
  reception_port_number = received_on;
  announce = record empty_msg_announce {
    grandmaster_priority1 = priority;
    grandmaster_clock_quality = quality_of variance;
    grandmaster_identity = identity_of id;
  };
  header = record empty_msg_header { source_port_identity = source_of id };
}

abbrev pub sample_clock : PtpClockDs
sample_clock = record empty_clock {
  number_ports = 2;
  clock_quality = quality_of 0xC000;
  priority1 = 200;
  steps_removed = 3;
  current_utc_offset = pos 37;
  grandmaster_identity = identity_of 9;
}

abbrev pub port_of_number : ℕ → PtpPortDs
port_of_number n = record empty_port {
  clock_identity = identity_of 8;
  port_identity = record { clock_identity = identity_of 8; port_number = n };
  port_state = PtpState.master;
  wr_config = wr_m_and_s;
  sent_sync_sequence_id = 500;
  sent_announce_sequence_id = 77;
  max_foreign_records = 2;
  foreign = empty_record ∷ empty_record ∷ [];
}

-- A port that has heard two masters; the second one is better.
abbrev pub full_port : ℕ → PtpPortDs
full_port n = record (port_of_number n) {
  foreign = master_of 1 128 0xC000 n ∷ master_of 2 100 0xC001 n ∷ [];
  number_foreign_records = 2;
}

-- The second master is the best of the clock, heard on port 1.
abbrev pub best_master : ForeignMasterRecord
best_master = master_of 2 100 0xC001 1

abbrev pub zero_stamp : WrStamp
zero_stamp = record { sec = pos 0; nsec = pos 0; phase = pos 0; correct = pos 0 }

-- The servo before anything was called.
abbrev pub zero_servo : Servo
zero_servo = record {
  s = record {
    state = ServoState.unset;
    next_state = ServoState.unset;
    mu = zero_stamp;
    delta_tx_m = pos 0;
    delta_rx_m = pos 0;
    delta_tx_s = pos 0;
    delta_rx_s = pos 0;
    cur_setpoint = pos 0;
    delta_ms = pos 0;
    delta_ms_prev = pos 0;
    t1 = zero_stamp;
    t2 = zero_stamp;
    t3 = zero_stamp;
    t4 = zero_stamp;
    last_tics = 0;
    fiber_fix_alpha = pos 0;
    clock_period_ps = 0;
    missed_iters = 0;
  };
  cur_servo_state = record {
    valid = false;
    slave_servo_state = ServoLabel.empty;
    exported_tracking_enabled = false;
    exported_mu = pos 0;
    delay_ms = pos 0;
    exported_delta_tx_m = pos 0;
    exported_delta_rx_m = pos 0;
    exported_delta_tx_s = pos 0;
    exported_delta_rx_s = pos 0;
    fiber_asymmetry = pos 0;
    total_asymmetry = pos 0;
    cur_offset = pos 0;
    exported_cur_setpoint = pos 0;
    cur_skew = pos 0;
    update_count = 0;
  };
  servo_state_valid = false;
  got_sync = false;
  tracking_enabled = true;
  ph_adjust = pos 0;
  do_restart = false;
  calls = [];
}
