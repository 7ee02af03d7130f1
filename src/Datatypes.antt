-- ===== src/Datatypes.antt =====
-- PTPWRd/datatypes.h: the structures of messages, clock and ports, with the fields that the modelled
-- code reads or writes. An array of eight octets is a record of eight; a buffer is a function from
-- offsets to octets; the pointer `bestForeign` into the tables of the ports is a pair of indices.
pub mod Empty
use ptp_noposix.Prelude.{ℕ, List, [], ◌∷◌, Bool, Option}
use ptp_noposix.Prelude.Int.{ℤ}
use ptp_noposix.Time.{TimeInternal, Timestamp, Integer64}
use ptp_noposix.Timer.{IntervalTimer}
use ptp_noposix.Constants.{PtpState, WrState}

pub record ClockIdentity : Type 0 where
  pub o0 : ℕ
  pub o1 : ℕ
  pub o2 : ℕ
  pub o3 : ℕ
  pub o4 : ℕ
  pub o5 : ℕ
  pub o6 : ℕ
  pub o7 : ℕ

abbrev pub octets : ClockIdentity → List ℕ
octets c = c.o0 ∷ c.o1 ∷ c.o2 ∷ c.o3 ∷ c.o4 ∷ c.o5 ∷ c.o6 ∷ c.o7 ∷ []

pub record PortIdentity : Type 0 where
  pub clock_identity : ClockIdentity
  pub port_number : ℕ

pub record ClockQuality : Type 0 where
  pub clock_class : ℕ
  pub clock_accuracy : ℕ
  pub offset_scaled_log_variance : ℕ

pub record MsgHeader : Type 0 where
  pub transport_specific : ℕ
  pub message_type : ℕ
  pub version_ptp : ℕ
  pub message_length : ℕ
  pub domain_number : ℕ
  pub flag_field_0 : ℕ
  pub flag_field_1 : ℕ
  pub correctionfield : Integer64
  pub source_port_identity : PortIdentity
  pub sequence_id : ℕ
  pub control_field : ℕ
  pub log_message_interval : ℕ

pub record MsgAnnounce : Type 0 where
  pub origin_timestamp : Timestamp
  pub current_utc_offset : ℤ
  pub grandmaster_priority1 : ℕ
  pub grandmaster_clock_quality : ClockQuality
  pub grandmaster_priority2 : ℕ
  pub grandmaster_identity : ClockIdentity
  pub steps_removed : ℕ
  pub time_source : ℕ
  pub wr_flags : ℕ

pub record MsgDelayResp : Type 0 where
  pub receive_timestamp : Timestamp
  pub requesting_port_identity : PortIdentity

-- FixedDelta: the two words of scaledPicoseconds.
pub record FixedDelta : Type 0 where
  pub lsb : ℕ
  pub msb : ℕ

pub record ForeignMasterRecord : Type 0 where
  pub foreign_master_port_identity : PortIdentity
  pub foreign_master_announce_messages : ℕ
  pub reception_port_number : ℕ
  pub announce : MsgAnnounce
  pub header : MsgHeader

-- wr_timestamp_t in a port, whose messages carry it; the seconds and nanoseconds as their 64-bit and
-- 32-bit patterns. The servo reads it as the WrStamp of Stamp.antt.
pub record WrTimestamp : Type 0 where
  pub sec : ℕ
  pub nsec : ℕ
  pub phase : ℤ
  pub correct : ℤ

pub record PtpClockDs : Type 0 where
  pub two_step_flag : Bool
  pub number_ports : ℕ
  pub clock_quality : ClockQuality
  pub priority1 : ℕ
  pub priority2 : ℕ
  pub domain_number : ℕ
  pub steps_removed : ℕ
  pub primary_slave_port_number : ℕ
  pub secondary_slave_port_number : ℕ
  pub parent_port_identity : PortIdentity
  pub grandmaster_identity : ClockIdentity
  pub grandmaster_clock_quality : ClockQuality
  pub grandmaster_priority1 : ℕ
  pub grandmaster_priority2 : ℕ
  pub current_utc_offset : ℤ
  pub current_utc_offset_valid : Bool
  pub leap59 : Bool
  pub leap61 : Bool
  pub time_traceable : Bool
  pub frequency_traceable : Bool
  pub ptp_timescale : Bool
  pub time_source : ℕ
  pub ebest : ℤ
  pub global_state_decision_event : Bool
  pub best_foreign : ℕ × ℕ
  pub second_best_foreign : ℕ
  pub clock_class_validity_timer : IntervalTimer

pub record Timers : Type 0 where
  pub pdelay_req : IntervalTimer
  pub delay_req : IntervalTimer
  pub sync : IntervalTimer
  pub announce_receipt : IntervalTimer
  pub announce_interval : IntervalTimer

-- pdelay_req_send_time, pdelay_req_receive_time, pdelay_resp_send_time, pdelay_resp_receive_time.
pub record PdelayTimes : Type 0 where
  pub req_send_time : TimeInternal
  pub req_receive_time : TimeInternal
  pub resp_send_time : TimeInternal
  pub resp_receive_time : TimeInternal

abbrev pub Buf : Type 0
Buf = ℕ → ℕ

pub record PtpPortDs : Type 0 where
  pub clock_identity : ClockIdentity
  pub port_identity : PortIdentity
  pub port_state : PtpState
  pub log_min_delay_req_interval : ℕ
  pub log_announce_interval : ℕ
  pub announce_receipt_timeout : ℕ
  pub log_sync_interval : ℕ
  pub log_min_pdelay_req_interval : ℕ
  pub version_number : ℕ
  pub foreign : List ForeignMasterRecord
  pub number_foreign_records : ℕ
  pub max_foreign_records : ℕ
  pub foreign_record_i : ℕ
  pub foreign_record_best : ℕ
  pub record_update : Bool
  pub msg_tmp_header : MsgHeader
  pub msg_tmp_announce : MsgAnnounce
  pub msg_obuf : Buf
  pub msg_ibuf : Buf
  pub sent_pdelay_req_sequence_id : ℕ
  pub sent_delay_req_sequence_id : ℕ
  pub sent_sync_sequence_id : ℕ
  pub sent_announce_sequence_id : ℕ
  pub waiting_for_follow : Bool
  pub message_activity : Bool
  pub timers : Timers
  pub wr_config : ℕ
  pub phy_calibration_required : Bool
  pub wr_state_timeout : ℕ
  pub wr_state_retry : ℕ
  pub parent_wr_config : ℕ
  pub cal_period : ℕ
  pub cal_retry : ℕ
  pub wr_port_state : WrState
  pub wr_mode : ℕ
  pub wr_mode_on : Bool
  pub calibrated : Bool
  pub delta_tx : FixedDelta
  pub delta_rx : FixedDelta
  pub other_node_delta_tx : FixedDelta
  pub other_node_delta_rx : FixedDelta
  pub parent_wr_mode_on : Bool
  pub parent_calibrated : Bool
  pub other_node_cal_send_pattern : ℕ
  pub other_node_cal_period : ℕ
  pub other_node_cal_retry : ℕ
  pub parent_is_wr_node : Bool
  pub msg_tmp_wr_message_id : ℕ
  pub synch_tx_ts : WrTimestamp
  pub current_rx_ts : WrTimestamp
  pub current_wr_state_cnt : ℕ
  pub wr_timers : List IntervalTimer
  pub wr_timeouts : List ℤ
  pub secondary_foreign_master : ForeignMasterRecord
  pub wr_slave_role : ℕ
  pub link_up : Bool
  pub pdelay_times : PdelayTimes
  pub pdelay_req_header : MsgHeader
  pub pdelay_resp_tx_ts : WrTimestamp
  pub delay_req_tx_ts : WrTimestamp
  pub pdelay_req_tx_ts : WrTimestamp
  pub delay_req_header : MsgHeader
  pub recv_sync_sequence_id : ℕ
  pub sync_receive_time : TimeInternal
  pub delay_req_receive_time : TimeInternal
  pub last_sync_correction_field : TimeInternal
  pub last_pdelay_resp_correction_field : TimeInternal
  pub port_uuid_field : List ℕ

pub record RunTimeOpts : Type 0 where
  pub announce_interval : ℕ
  pub sync_interval : ℕ
  pub clock_quality : ClockQuality
  pub priority1 : ℕ
  pub priority2 : ℕ
  pub domain_number : ℕ
  pub inbound_latency : TimeInternal
  pub outbound_latency : TimeInternal
  pub max_foreign_records : ℕ
  pub e2e_mode : Bool
  pub port_number : ℕ
  pub cal_period : ℕ
  pub override_clock_identity : ℕ
  pub wr_config : ℕ
  pub phy_calibration_required : Bool
  pub wr_state_timeout : ℕ
  pub wr_state_retry : ℕ
  pub primary_source : Bool
  pub master_only : Bool
  pub disable_fallback_if_wr_fails : Bool
