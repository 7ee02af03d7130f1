-- ===== src/Handle.antt =====
-- `handle` of PTPWRd/protocol.c: one received message, from the network to the handler of its type.
-- `handleManagement` has no effect. The message is an argument, with the other answers that its
-- handlers get.
pub mod Announce
pub mod Sync
pub mod Delay
pub mod Peer
pub mod Signaling
pub mod Synced
pub mod Accepted
pub mod Fed
use ptp_noposix.Prelude.{◌==◌, ◌!=◌, ◌&&◌, not, Bool, true, false, if◌then◌else◌}
use ptp_noposix.Prelude.Int.{ℤ, pos, i32, ltb_ℤ, eqb_ℤ}
use ptp_noposix.Time.{TimeInternal, sub_time}
use ptp_noposix.Constants.{header_length}
use ptp_noposix.Datatypes.{Buf, WrTimestamp, MsgHeader, PtpPortDs, RunTimeOpts}
use ptp_noposix.Datatypes.Empty.{empty_time_internal}
use ptp_noposix.Msg.Header.{msg_unpack_header}
use ptp_noposix.Foreign.{same_source}
use ptp_noposix.Servo.Update.{Answers}
use ptp_noposix.Port.{Answered, Sys, to_faulty}
use ptp_noposix.Issue.{on_port}
use ptp_noposix.Handle.Announce.{handle_announce}
use ptp_noposix.Handle.Sync.{copy_time, time_of_stamp, handle_sync, handle_follow_up}
use ptp_noposix.Handle.Delay.{handle_delay_req, handle_delay_resp}
use ptp_noposix.Handle.Peer.{handle_pdelay_req, handle_pdelay_resp, handle_pdelay_resp_follow_up}
use ptp_noposix.Handle.Signaling.{handle_signaling}

-- What `netRecvMsg` gives: its answer, and what it leaves in msgIbuf and current_rx_ts; with it the
-- answers to the one message that a handler may send, those of the hardware to the servo, and what an
-- uninitialized TimeInternal holds.
pub record Received : Type 0 where
  pub length : ℤ
  pub content : Buf
  pub rx_ts : WrTimestamp
  pub reply : Answered
  pub hardware : Answers
  pub garbage : TimeInternal

unfoldable pub store_message : Received → PtpPortDs → PtpPortDs
store_message r port = record port { msg_ibuf = r.content; current_rx_ts = r.rx_ts }

unfoldable pub is_from_self : MsgHeader → PtpPortDs → Bool
is_from_self header port = same_source port.port_identity header.source_port_identity

-- The time of reception, less the inbound latency.
unfoldable pub receive_time : RunTimeOpts → (self : Bool) → WrTimestamp → TimeInternal
receive_time opts self rx_ts =
    let time = copy_time empty_time_internal (time_of_stamp rx_ts) in
    if not self && ltb_ℤ (pos 0) time.seconds then sub_time time time opts.inbound_latency else time

-- The switch on the type of the message.
unfoldable pub dispatch : Received → RunTimeOpts → MsgHeader → Sys → Sys
dispatch r opts header sys =
    let self = is_from_self header sys.port in
    let time = receive_time opts self sys.port.current_rx_ts in
    let type = header.message_type in
    if type == 0xB
    then handle_announce r.reply opts header r.length self sys
    else if type == 0x0
    then handle_sync opts header r.length self sys
    else if type == 0x8
    then handle_follow_up r.reply opts r.garbage header r.length self sys
    else if type == 0x1
    then handle_delay_req r.reply opts r.length sys
    else if type == 0x2
    then handle_pdelay_req r.reply opts time header r.length self sys
    else if type == 0x3
    then handle_pdelay_resp r.reply opts r.garbage time header r.length self sys
    else if type == 0xA
    then handle_pdelay_resp_follow_up opts r.garbage header r.length sys
    else if type == 0x9
    then handle_delay_resp r.hardware opts r.garbage header r.length sys
    else if type == 0xC
    then handle_signaling r.reply opts self sys
    else sys

unfoldable pub read_message : PtpPortDs → PtpPortDs
read_message port = record port {
  msg_tmp_header = msg_unpack_header port.msg_ibuf;
  message_activity = true;
}

-- Only messages of the version and the domain of the clock are handled.
unfoldable pub is_accepted : Sys → Bool
is_accepted sys =
    sys.port.msg_tmp_header.version_ptp == sys.port.version_number
    && sys.port.msg_tmp_header.domain_number == sys.clock.domain_number

unfoldable pub handle : Received → RunTimeOpts → Sys → Sys
handle r opts sys =
    let got = on_port (store_message r) sys in
    let read = on_port read_message got in
    if ltb_ℤ r.length (pos 0)
    then on_port (to_faulty opts) got
    else if eqb_ℤ r.length (pos 0)
    then got
    else if ltb_ℤ r.length (pos header_length)
    then on_port (λ port. to_faulty opts (record port { message_activity = true })) got
    else if is_accepted read
    then dispatch r opts read.port.msg_tmp_header read
    else read
