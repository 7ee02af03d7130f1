-- ===== src/Datatypes/Empty.antt =====
-- Structures filled with zeros, as `calloc` in PTPWRd/dep/startup.c gives them: what a table has beyond
-- its written entries, and where the runs start. A port is initializing and its WR state idle.
use ptp_noposix.Prelude.{[], false}
use ptp_noposix.Prelude.Int.{pos}
use ptp_noposix.Time.{TimeInternal, Timestamp, Integer64, UInteger48}
use ptp_noposix.Timer.{IntervalTimer}
use ptp_noposix.Constants.{PtpState, WrState}
use ptp_noposix.Datatypes.{
  ClockIdentity, PortIdentity, ClockQuality, MsgHeader, MsgAnnounce, FixedDelta,
  ForeignMasterRecord, WrTimestamp, PtpClockDs, Timers, PdelayTimes, PtpPortDs,
}

abbrev pub empty_clock_identity : ClockIdentity
empty_clock_identity = record { o0 = 0; o1 = 0; o2 = 0; o3 = 0; o4 = 0; o5 = 0; o6 = 0; o7 = 0 }

abbrev pub empty_port_identity : PortIdentity
empty_port_identity = record { clock_identity = empty_clock_identity; port_number = 0 }

abbrev pub empty_u_integer48 : UInteger48
empty_u_integer48 = record { lsb = 0; msb = 0 }

abbrev pub empty_timestamp : Timestamp
empty_timestamp = record { seconds_field = empty_u_integer48; nanoseconds_field = 0 }

abbrev pub empty_clock_quality : ClockQuality
empty_clock_quality = record { clock_class = 0; clock_accuracy = 0; offset_scaled_log_variance = 0 }

abbrev pub empty_msg_announce : MsgAnnounce
empty_msg_announce = record {
  origin_timestamp = empty_timestamp;
  current_utc_offset = pos 0;
  grandmaster_priority1 = 0;
  grandmaster_clock_quality = empty_clock_quality;
  grandmaster_priority2 = 0;
  grandmaster_identity = empty_clock_identity;
  steps_removed = 0;
  time_source = 0;
  wr_flags = 0;
}

abbrev pub empty_integer64 : Integer64
empty_integer64 = record { lsb = 0; msb = pos 0 }

abbrev pub empty_msg_header : MsgHeader
empty_msg_header = record {
  transport_specific = 0;
  message_type = 0;
  version_ptp = 0;
  message_length = 0;
  domain_number = 0;
  flag_field_0 = 0;
  flag_field_1 = 0;
  correctionfield = empty_integer64;
  source_port_identity = empty_port_identity;
  sequence_id = 0;
  control_field = 0;
  log_message_interval = 0;
}

abbrev pub empty_record : ForeignMasterRecord
empty_record = record {
  foreign_master_port_identity = empty_port_identity;
  foreign_master_announce_messages = 0;
  reception_port_number = 0;
  announce = empty_msg_announce;
  header = empty_msg_header;
}

abbrev pub empty_interval_timer : IntervalTimer
empty_interval_timer = record { t_start = 0; interval = pos 0 }

abbrev pub empty_clock : PtpClockDs
empty_clock = record {
  two_step_flag = false;
  number_ports = 0;
  clock_quality = empty_clock_quality;
  priority1 = 0;
  priority2 = 0;
  domain_number = 0;
  steps_removed = 0;
  primary_slave_port_number = 0;
  secondary_slave_port_number = 0;
  parent_port_identity = empty_port_identity;
  grandmaster_identity = empty_clock_identity;
  grandmaster_clock_quality = empty_clock_quality;
  grandmaster_priority1 = 0;
  grandmaster_priority2 = 0;
  current_utc_offset = pos 0;
  current_utc_offset_valid = false;
  leap59 = false;
  leap61 = false;
  time_traceable = false;
  frequency_traceable = false;
  ptp_timescale = false;
  time_source = 0;
  ebest = pos 0;
  global_state_decision_event = false;
  best_foreign = (0, 0);
  second_best_foreign = 0;
  clock_class_validity_timer = empty_interval_timer;
}

abbrev pub empty_timers : Timers
empty_timers = record {
  pdelay_req = empty_interval_timer;
  delay_req = empty_interval_timer;
  sync = empty_interval_timer;
  announce_receipt = empty_interval_timer;
  announce_interval = empty_interval_timer;
}

abbrev pub empty_fixed_delta : FixedDelta
empty_fixed_delta = record { lsb = 0; msb = 0 }

abbrev pub empty_wr_timestamp : WrTimestamp
empty_wr_timestamp = record { sec = 0; nsec = 0; phase = pos 0; correct = pos 0 }

abbrev pub empty_time_internal : TimeInternal
empty_time_internal = record {
  seconds = pos 0;
  nanoseconds = pos 0;
  phase = pos 0;
  correct = pos 0;
}

abbrev pub empty_pdelay_times : PdelayTimes
empty_pdelay_times = record {
  req_send_time = empty_time_internal;
  req_receive_time = empty_time_internal;
  resp_send_time = empty_time_internal;
  resp_receive_time = empty_time_internal;
}

abbrev pub empty_port : PtpPortDs
empty_port = record {
  clock_identity = empty_clock_identity;
  port_identity = empty_port_identity;
  port_state = PtpState.initializing;
  log_min_delay_req_interval = 0;
  log_announce_interval = 0;
  announce_receipt_timeout = 0;
  log_sync_interval = 0;
  log_min_pdelay_req_interval = 0;
  version_number = 0;
  foreign = [];
  number_foreign_records = 0;
  max_foreign_records = 0;
  foreign_record_i = 0;
  foreign_record_best = 0;
  record_update = false;
  msg_tmp_header = empty_msg_header;
  msg_tmp_announce = empty_msg_announce;
  msg_obuf = λ _. 0;
  msg_ibuf = λ _. 0;
  sent_pdelay_req_sequence_id = 0;
  sent_delay_req_sequence_id = 0;
  sent_sync_sequence_id = 0;
  sent_announce_sequence_id = 0;
  waiting_for_follow = false;
  message_activity = false;
  timers = empty_timers;
  wr_config = 0;
  phy_calibration_required = false;
  wr_state_timeout = 0;
  wr_state_retry = 0;
  parent_wr_config = 0;
  cal_period = 0;
  cal_retry = 0;
  wr_port_state = WrState.idle;
  wr_mode = 0;
  wr_mode_on = false;
  calibrated = false;
  delta_tx = empty_fixed_delta;
  delta_rx = empty_fixed_delta;
  other_node_delta_tx = empty_fixed_delta;
  other_node_delta_rx = empty_fixed_delta;
  parent_wr_mode_on = false;
  parent_calibrated = false;
  other_node_cal_send_pattern = 0;
  other_node_cal_period = 0;
  other_node_cal_retry = 0;
  parent_is_wr_node = false;
  msg_tmp_wr_message_id = 0;
  synch_tx_ts = empty_wr_timestamp;
  current_rx_ts = empty_wr_timestamp;
  current_wr_state_cnt = 0;
  wr_timers = [];
  wr_timeouts = [];
  secondary_foreign_master = empty_record;
  wr_slave_role = 0;
  link_up = false;
  pdelay_times = empty_pdelay_times;
  pdelay_req_header = empty_msg_header;
  pdelay_resp_tx_ts = empty_wr_timestamp;
  delay_req_tx_ts = empty_wr_timestamp;
  pdelay_req_tx_ts = empty_wr_timestamp;
  delay_req_header = empty_msg_header;
  recv_sync_sequence_id = 0;
  sync_receive_time = empty_time_internal;
  delay_req_receive_time = empty_time_internal;
  last_sync_correction_field = empty_time_internal;
  last_pdelay_resp_correction_field = empty_time_internal;
  port_uuid_field = [];
}
