-- ===== src/Tests/Messages.antt =====
-- Runs of the messages, from the buffer of a sender to the receiver.
use ptp_noposix.Prelude.{◌+◌, ◌^◌, ◌≡◌, refl, inl, true, false, arith}
use ptp_noposix.Prelude.Int.{pos, negsuc}
use ptp_noposix.Constants.{wr_m_only, wr_s_only, wr_master, calibrate}
use ptp_noposix.Datatypes.{MsgHeader, PtpPortDs}
use ptp_noposix.Time.{Timestamp}
use ptp_noposix.Datatypes.Empty.{empty_msg_header, empty_msg_announce, empty_wr_timestamp}
use ptp_noposix.Msg.Header.{msg_unpack_header}
use ptp_noposix.Msg.Event.{msg_pack_follow_up, msg_unpack_follow_up}
use ptp_noposix.Msg.Announce.{msg_pack_announce, msg_unpack_announce}
use ptp_noposix.Msg.Signaling.{msg_pack_wr_signaling, msg_unpack_wr_signaling}
use ptp_noposix.Msg.RoundTrip.{wire_time, unpack-pack_pdelay_resp_follow_up, unpack-pack_follow_up}
use ptp_noposix.Msg.RoundTrip.Announce.{
  IsAnnounceable, Decodes, unpack-pack_announce, unpack-pack_announce_flags,
}
use ptp_noposix.Msg.RoundTrip.Signaling.{
  IsSendable, learned, unpack-pack_wr_signaling, msg_pack_wr_signaling-non_wr,
}
use ptp_noposix.Msg.Peer.{msg_pack_pdelay_resp_follow_up, msg_unpack_pdelay_resp_follow_up}
use ptp_noposix.Tests.Samples.{
  blank, identity_of, source_of, quality_of, sample_clock, port_of_number,
}

abbrev noon : Timestamp
noon = record { seconds_field = record { lsb = 43200; msb = 1 }; nanoseconds_field = 999 }

-- The sequence id has just wrapped.
abbrev wrapped : PtpPortDs
wrapped = record (port_of_number 1) {
  sent_sync_sequence_id = 0;
  synch_tx_ts = record empty_wr_timestamp { sec = 2 ^ 32 + 7; nsec = 12 };
}

unpack-pack_follow_up_example :
    let out = msg_pack_follow_up wrapped blank in
    let h = msg_unpack_header out in
    (h.message_type ≡ 8)
    × (h.message_length ≡ 44)
    × (h.sequence_id ≡ 65535)
    × (msg_unpack_follow_up out ≡ wire_time (2 ^ 32 + 7) 12)
unpack-pack_follow_up_example =
    unpack-pack_follow_up wrapped blank 65535 (omega arith) (omega arith) refl (omega arith)

abbrev request : MsgHeader
request = record empty_msg_header {
  sequence_id = 4242;
  domain_number = 3;
  correctionfield = record { lsb = 17; msb = negsuc 4 };
  source_port_identity = source_of 6;
}

sample-IsAnnounceable : IsAnnounceable sample_clock (port_of_number 1)
sample-IsAnnounceable = record {
  id_fits = omega arith;
  variance_fits = omega arith;
  steps_fit = omega arith;
  utc_fits = omega arith;
  utc_fits_below = omega arith;
}

unpack-pack_announce_example :
    let out = msg_pack_announce sample_clock (port_of_number 1) blank in
    let h = msg_unpack_header out in
    let a = msg_unpack_announce empty_msg_announce out in
    (h.message_type ≡ 11)
    × (h.sequence_id ≡ 77)
    × (a.current_utc_offset ≡ pos 37)
    × (a.grandmaster_priority1 ≡ 0)
    × (a.grandmaster_clock_quality ≡ quality_of 0xC000)
    × (a.grandmaster_priority2 ≡ 0)
    × (a.grandmaster_identity ≡ identity_of 9)
    × (a.steps_removed ≡ 3)
    × (a.time_source ≡ 0)
unpack-pack_announce_example =
    unpack-pack_announce sample_clock (port_of_number 1) empty_msg_announce blank (omega arith)
      sample-IsAnnounceable

abbrev white_rabbit : PtpPortDs
white_rabbit = record (port_of_number 1) {
  wr_config = wr_m_only;
  wr_mode = wr_master;
  calibrated = true;
  cal_retry = 3;
  cal_period = 3000;
}

unpack-pack_announce_flags_example :
    let a =
      msg_unpack_announce empty_msg_announce (msg_pack_announce sample_clock white_rabbit blank) in
    Decodes a.wr_flags wr_m_only true false
unpack-pack_announce_flags_example =
    unpack-pack_announce_flags sample_clock white_rabbit empty_msg_announce blank (omega arith)
      (inl refl)

abbrev slave_only : PtpPortDs
slave_only = record (port_of_number 1) { wr_config = wr_s_only }

white_rabbit-IsSendable : IsSendable white_rabbit
white_rabbit-IsSendable = record {
  retry_fits = omega arith;
  period_fits = omega arith;
  tx_fits = (omega arith, omega arith);
  rx_fits = (omega arith, omega arith);
}

unpack-pack_wr_signaling_example :
    let out = (msg_pack_wr_signaling sample_clock white_rabbit calibrate blank).0 in
    let r = msg_unpack_wr_signaling (port_of_number 2) 0 out in
    (r.1 ≡ calibrate) × (r.2 ≡ learned calibrate white_rabbit (port_of_number 2))
unpack-pack_wr_signaling_example =
    unpack-pack_wr_signaling sample_clock white_rabbit (port_of_number 2) 0 calibrate blank
      (inl refl) white_rabbit-IsSendable (λ e. omega (arith, e))

msg_pack_wr_signaling-non_wr_example :
    msg_pack_wr_signaling sample_clock slave_only calibrate blank ≡ (blank, 0)
msg_pack_wr_signaling-non_wr_example =
    msg_pack_wr_signaling-non_wr sample_clock slave_only calibrate blank refl

-- The answer to the request with sequence id 4242, sent at the start of the 2^32nd second.
abbrev answering : PtpPortDs
answering = record wrapped {
  pdelay_req_header = request;
  pdelay_resp_tx_ts = record empty_wr_timestamp { sec = 4294967296; nsec = 7 };
}

unpack-pack_pdelay_resp_follow_up_example :
    let out = msg_pack_pdelay_resp_follow_up request answering blank in
    let h = msg_unpack_header out in
    let resp = msg_unpack_pdelay_resp_follow_up out in
    (h.message_type ≡ 10)
    × (h.message_length ≡ 54)
    × (h.sequence_id ≡ 4242)
    × (h.correctionfield.msb ≡ negsuc 4)
    × (h.correctionfield.lsb ≡ 17)
    × (resp.requesting_port_identity.clock_identity ≡ identity_of 6)
    × (resp.requesting_port_identity.port_number ≡ 1)
    × (resp.receive_timestamp ≡ wire_time 4294967296 7)
unpack-pack_pdelay_resp_follow_up_example =
    unpack-pack_pdelay_resp_follow_up request answering blank (omega arith) (omega arith)
      (omega arith) (omega arith) (omega arith, omega arith) (omega arith)
