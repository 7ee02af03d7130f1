-- ===== src/Handle/Sync.antt =====
-- `handleSync` and `handleFollowUp` of PTPWRd/protocol.c. The functions of PTPWRd/dep/servo.c that they
-- call are empty, and what only these are given is left out.
use ptp_noposix.Prelude.{◌==◌, ◌&&◌, Bool, true, false, if◌then◌else◌, bit_and}
use ptp_noposix.Prelude.Int.{ℤ, pos, i32, ltb_ℤ}
use ptp_noposix.Time.{TimeInternal, integer64_to_internal_time, to_internal_time}
use ptp_noposix.Constants.{PtpState, sync_length, follow_up_length, two_step_flag_bit, non_wr}
use ptp_noposix.Datatypes.{WrTimestamp, MsgHeader, PtpPortDs, RunTimeOpts}
use ptp_noposix.Datatypes.Empty.{empty_time_internal}
use ptp_noposix.Msg.Event.{msg_unpack_follow_up}
use ptp_noposix.Foreign.{msg_is_from_current_parent}
use ptp_noposix.Servo.{wr_servo_got_sync}
use ptp_noposix.Port.{Answered, Sys, to_faulty}
use ptp_noposix.Issue.{on_port, issue_delay_req}

-- A hardware time in a TimeInternal: the seconds are cut to an `int`.
abbrev pub time_of_stamp : WrTimestamp → TimeInternal
time_of_stamp t = record {
  seconds = i32 (pos t.sec);
  nanoseconds = i32 (pos t.nsec);
  phase = t.phase;
  correct = t.correct;
}

-- `r->seconds = x.seconds; r->nanoseconds = x.nanoseconds`: the other fields stay.
abbrev pub copy_time : TimeInternal → TimeInternal → TimeInternal
copy_time r x = record r { seconds = x.seconds; nanoseconds = x.nanoseconds }

abbrev pub is_two_step : MsgHeader → Bool
is_two_step header = bit_and header.flag_field_0 0x02 == two_step_flag_bit

unfoldable pub note_sync : MsgHeader → PtpPortDs → PtpPortDs
note_sync header port =
    let timed = record port { sync_receive_time = time_of_stamp port.current_rx_ts } in
    let correction = integer64_to_internal_time header.correctionfield empty_time_internal in
    if is_two_step header
    then record timed {
      waiting_for_follow = true;
      recv_sync_sequence_id = header.sequence_id;
      last_sync_correction_field = copy_time timed.last_sync_correction_field correction;
    }
    else record timed { waiting_for_follow = false }

-- The states in which a slave listens to its master: an uncalibrated port only outside of WR mode.
unfoldable pub follows_master : PtpPortDs → PtpState → Bool
follows_master port PtpState.uncalibrated = port.wr_mode == non_wr
follows_master port PtpState.slave = true
follows_master port _ = false

unfoldable pub handle_sync :
    RunTimeOpts → MsgHeader → (length : ℤ) → (is_from_self : Bool) → Sys → Sys
handle_sync opts header length is_from_self sys =
    if ltb_ℤ length (pos sync_length)
    then on_port (to_faulty opts) sys
    else if follows_master sys.port sys.port.port_state
    then if is_from_self
      then sys
      else if msg_is_from_current_parent header sys.clock
      then on_port (note_sync header) sys
      else sys
    else sys

-- What is left of the time of the master in an uninitialized variable, when its seconds do not fit, is
-- an argument.
unfoldable pub accept_follow_up : Answered → RunTimeOpts → (garbage : TimeInternal) → Sys → Sys
accept_follow_up a opts garbage sys =
    let origin = msg_unpack_follow_up sys.port.msg_ibuf in
    let t1 = record (to_internal_time garbage origin) { phase = pos 0 } in
    issue_delay_req a opts (record sys {
      port = record (sys.port) { waiting_for_follow = false };
      servo = wr_servo_got_sync t1 sys.port.sync_receive_time sys.servo;
    })

unfoldable pub matches_sync : MsgHeader → Sys → Bool
matches_sync header sys =
    msg_is_from_current_parent header sys.clock
    && (sys.port.waiting_for_follow && sys.port.recv_sync_sequence_id == header.sequence_id)

unfoldable pub handle_follow_up :
    Answered
    → RunTimeOpts
    → (garbage : TimeInternal) → MsgHeader
    → (length : ℤ) → (is_from_self : Bool) → Sys
    → Sys
handle_follow_up a opts garbage header length is_from_self sys =
    if ltb_ℤ length (pos follow_up_length)
    then on_port (to_faulty opts) sys
    else if is_from_self
    then sys
    else if follows_master sys.port sys.port.port_state
    then if matches_sync header sys then accept_follow_up a opts garbage sys else sys
    else sys
