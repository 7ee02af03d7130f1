-- ===== src/Tests/Exchanges.antt =====
-- Runs of the exchanges between a master and its slave.
use ptp_noposix.Prelude.{◌≡◌, ◌⊎◌, refl, [], true, false, arith}
use ptp_noposix.Prelude.Int.{pos}
use ptp_noposix.Constants.{
  PtpState, sync_length, follow_up_length, delay_req_length, delay_resp_length,
}
use ptp_noposix.Datatypes.{PtpClockDs, PtpPortDs, WrTimestamp}
use ptp_noposix.Datatypes.Empty.{empty_time_internal}
use ptp_noposix.Buf.{put, put_be16, clear, put_identity, get_be16, get_identity}
use ptp_noposix.Msg.Header.{msg_pack_header, msg_unpack_header}
use ptp_noposix.Foreign.{same_source}
use ptp_noposix.Bmc.Compare.{memcmp}
use ptp_noposix.Servo.Update.{Answers, wr_servo_update}
use ptp_noposix.Port.{Sys}
use ptp_noposix.Issue.{issue_sync, issue_followup, issue_delay_req}
use ptp_noposix.Handle.{Received, is_accepted, handle}
use ptp_noposix.Handle.Accepted.{read_in}
use ptp_noposix.Handle.Fed.{Feeds, handle-Feeds}
use ptp_noposix.Exchange.{delivered}
use ptp_noposix.Exchange.Pair.{IsOfParent}
use ptp_noposix.Exchange.Sync.{IsPair, HasMeasured, handle-issue_sync}
use ptp_noposix.Handle.Delay.{servo_stamp}
use ptp_noposix.Exchange.Phase.{IsNearly}
use ptp_noposix.Exchange.Delay.{
  ArePeers, AreSendable, fed, handle-issue_delay_req, handle-issue_delay_req_wrapped,
}
use ptp_noposix.Tests.Samples.{blank, identity_of, zero_servo, sample_clock, port_of_number}
use ptp_noposix.Tests.Setup.{at, opts}

abbrev pub two_step_clock : PtpClockDs
two_step_clock = record sample_clock { two_step_flag = true }

-- A port with the header of its messages in its output buffer.
abbrev pub with_header : PtpPortDs → Sys
with_header port = record {
  clock = two_step_clock;
  port = record port { msg_obuf = msg_pack_header two_step_clock port blank };
  servo = zero_servo;
  calls = [];
}

abbrev master : Sys
master = with_header (record (port_of_number 1) { version_number = 2 })

abbrev slave : Sys
slave =
    record (with_header (record (port_of_number 1) {
      version_number = 2;
      port_state = PtpState.slave;
      port_identity = record { clock_identity = identity_of 5; port_number = 1 };
      sent_delay_req_sequence_id = 41;
    })) { clock = record two_step_clock { parent_port_identity = master.port.port_identity } }

abbrev stamped : WrTimestamp
stamped = record { sec = 1200; nsec = 340; phase = pos 4000; correct = pos 1 }

abbrev locked : Answers
locked = record { tics = 0; pll_ready = true; adjust_in_progress = false }

abbrev pub received : Received
received = record {
  length = pos 0;
  content = blank;
  rx_ts = stamped;
  reply = at 1200;
  hardware = locked;
  garbage = empty_time_internal;
}

master-IsOfParent : IsOfParent (msg_unpack_header master.port.msg_obuf) slave
unfolding msg_pack_header msg_unpack_header put_be16 clear put_identity get_be16 get_identity
    same_source memcmp
master-IsOfParent = ((refl, refl), refl, refl, refl)

handle-issue_sync_example :
    let first = issue_sync (at 1100) opts master in
    let second = issue_followup (at 1101) opts first in
    IsPair master first second
    × HasMeasured
        (handle
          (delivered second.port.msg_obuf follow_up_length received)
          opts
          (handle (delivered first.port.msg_obuf sync_length received) opts slave)).servo
        ((at 1100).stamp)
        stamped
unfolding msg_pack_header msg_unpack_header put_be16 clear put_identity
handle-issue_sync_example =
    handle-issue_sync received received opts opts (at 1100) (at 1101) master slave refl refl
      (omega arith) (omega arith) (omega arith) (omega arith) refl master-IsOfParent

are_peers : ArePeers slave master
unfolding msg_pack_header msg_unpack_header put_be16 clear put_identity get_be16 get_identity
are_peers = ((refl, refl), refl, refl, refl, refl, refl, refl)

are_sendable : AreSendable slave master
unfolding msg_pack_header put_be16 clear put_identity
are_sendable = (omega arith, omega arith, omega arith, omega arith)

handle-issue_delay_req_example :
    let requesting = issue_delay_req (at 1300) opts slave in
    let request = delivered requesting.port.msg_obuf delay_req_length received in
    let answer = (handle request opts master).port.msg_obuf in
    let kept =
      fed received received opts
        (at 1300)
        slave
        master
        refl
        refl
        refl
        are_peers
        are_sendable
        (omega arith) in
    ((handle (delivered answer delay_resp_length received) opts requesting).servo
      ≡ wr_servo_update locked kept)
    × (kept.s.t3 ≡ servo_stamp ((at 1300).stamp))
    × (kept.s.t4.sec ≡ pos 1200)
    × (kept.s.t4.nsec ≡ pos 340)
    × IsNearly kept.s.t4.phase 4000
handle-issue_delay_req_example =
    handle-issue_delay_req received received opts (at 1300) slave master refl refl refl are_peers
      are_sendable (omega arith) 4000 refl (omega arith) (omega arith)

-- A Delay_Resp message behind the last sequence id.
abbrev answer_message : Received
answer_message = record received { length = pos 54; content = put 0 9 blank }

abbrev exhausted : Sys
exhausted = record slave { port = record (slave.port) { sent_delay_req_sequence_id = 65535 } }

handle-issue_delay_req_wrapped_example :
    (handle answer_message opts (issue_delay_req (at 1300) opts exhausted)).servo ≡ zero_servo
unfolding msg_unpack_header
handle-issue_delay_req_wrapped_example =
    handle-issue_delay_req_wrapped answer_message opts opts (at 1300) exhausted refl refl refl

handle-Feeds_example :
    ((handle answer_message opts slave).servo ≡ zero_servo)
    ⊎ ((is_accepted (read_in answer_message slave) ≡ true)
        × Feeds (msg_unpack_header (put 0 9 blank)) (read_in answer_message slave))
handle-Feeds_example = handle-Feeds answer_message opts slave
