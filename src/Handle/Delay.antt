-- ===== src/Handle/Delay.antt =====
-- `handleDelayReq` and `handleDelayResp` of PTPWRd/protocol.c, which only do something with the
-- end-to-end delay mechanism.
use ptp_noposix.Prelude.{◌&&◌, not, Bool, if◌then◌else◌}
use ptp_noposix.Prelude.Int.{
  ℤ, pos, ◌-ℤ◌, scale, quot, i32, i64, ltb_ℤ, eqb_ℤ, pattern32, signed32, signed64,
}
use ptp_noposix.Time.{TimeInternal, to_internal_time}
use ptp_noposix.Stamp.{WrStamp}
use ptp_noposix.Constants.{PtpState, delay_req_length, delay_resp_length}
use ptp_noposix.Datatypes.{WrTimestamp, MsgHeader, MsgDelayResp, PtpPortDs, RunTimeOpts}
use ptp_noposix.Msg.Header.{msg_unpack_header}
use ptp_noposix.Msg.Event.{msg_unpack_delay_resp}
use ptp_noposix.Foreign.{same_source, msg_is_from_current_parent}
use ptp_noposix.Servo.{wr_servo_got_delay}
use ptp_noposix.Servo.Update.{Answers, wr_servo_update}
use ptp_noposix.Port.{Answered, Sys, to_faulty}
use ptp_noposix.Issue.{on_port, issue_delay_resp}

unfoldable pub phase_to_cf_units : ℤ → ℤ
phase_to_cf_units phase = i32 (quot (i64 (scale 65536 phase)) 1000)

-- The header of the request, with the phase of its arrival as the correction.
unfoldable pub keep_delay_req : PtpPortDs → PtpPortDs
keep_delay_req port = record port {
  delay_req_header = record (msg_unpack_header port.msg_ibuf) {
    correctionfield = record {
      msb = pos 0;
      lsb = pattern32 (phase_to_cf_units port.current_rx_ts.phase);
    };
  };
}

unfoldable pub answer_delay_req : Answered → RunTimeOpts → PtpState → Sys → Sys
answer_delay_req a opts PtpState.master sys =
    let kept = on_port keep_delay_req sys in issue_delay_resp a opts kept.port.delay_req_header kept
answer_delay_req a opts _ sys = sys

unfoldable pub handle_delay_req : Answered → RunTimeOpts → (length : ℤ) → Sys → Sys
handle_delay_req a opts length sys =
    if not opts.e2e_mode
    then sys
    else if ltb_ℤ length (pos delay_req_length)
    then on_port (to_faulty opts) sys
    else answer_delay_req a opts sys.port.port_state sys

-- The words of a wr_timestamp_t as the servo reads them.
abbrev pub servo_stamp : WrTimestamp → WrStamp
servo_stamp t = record {
  sec = signed64 t.sec;
  nsec = signed32 t.nsec;
  phase = t.phase;
  correct = t.correct;
}

-- The answer is to the last request of this port, and comes from its master. The subtraction is one of
-- `int`.
unfoldable pub matches_delay_req : MsgHeader → MsgDelayResp → Sys → Bool
matches_delay_req header resp sys =
    same_source sys.port.port_identity resp.requesting_port_identity
    && (eqb_ℤ (pos sys.port.sent_delay_req_sequence_id -ℤ pos 1) (pos header.sequence_id)
        && msg_is_from_current_parent header sys.clock)

unfoldable pub accept_delay_resp :
    Answers → (garbage : TimeInternal) → MsgHeader → MsgDelayResp → Sys → Sys
accept_delay_resp hw garbage header resp sys =
    let t4 = to_internal_time garbage resp.receive_timestamp in
    let fed =
      wr_servo_got_delay (servo_stamp sys.port.delay_req_tx_ts) t4
        (signed32 header.correctionfield.lsb) sys.servo in
    record sys {
      port = record (sys.port) {
        delay_req_receive_time = t4;
        log_min_delay_req_interval = header.log_message_interval;
      };
      servo = wr_servo_update hw fed;
    }

unfoldable pub delay_resp_in : Answers → (garbage : TimeInternal) → MsgHeader → PtpState → Sys → Sys
delay_resp_in hw garbage header PtpState.slave sys =
    let resp = msg_unpack_delay_resp sys.port.msg_ibuf in
    if matches_delay_req header resp sys then accept_delay_resp hw garbage header resp sys else sys
delay_resp_in hw garbage header _ sys = sys

unfoldable pub handle_delay_resp :
    Answers → RunTimeOpts → (garbage : TimeInternal) → MsgHeader → (length : ℤ) → Sys → Sys
handle_delay_resp hw opts garbage header length sys =
    if not opts.e2e_mode
    then sys
    else if ltb_ℤ length (pos delay_resp_length)
    then on_port (to_faulty opts) sys
    else delay_resp_in hw garbage header sys.port.port_state sys
