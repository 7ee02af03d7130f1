-- ===== src/Issue.antt =====
-- The issuers of PTPWRd/protocol.c, from issueAnnounce to issuePDelayRespFollowUp, with the senders of
-- PTPWRd/dep/net.c as calls. `issueWRSignalingMsg` is in Port.antt. Only the answer 0 of a sender
-- counts as a failure, and brings the port to PTP_FAULTY.
pub mod Synced
use ptp_noposix.Prelude.{◌+◌, if◌then◌else◌, u16}
use ptp_noposix.Prelude.Int.{pos, eqb_ℤ}
use ptp_noposix.Constants.{
  announce_length, sync_length, follow_up_length, delay_req_length, pdelay_req_length,
  pdelay_resp_length, pdelay_resp_follow_up_length, wr_announce_length,
}
use ptp_noposix.Datatypes.{Buf, MsgHeader, PtpPortDs, RunTimeOpts}
use ptp_noposix.Datatypes.Empty.{empty_timestamp}
use ptp_noposix.Msg.Event.{
  msg_pack_sync, msg_pack_follow_up, msg_pack_delay_req, msg_pack_delay_resp,
}
use ptp_noposix.Msg.Peer.{msg_pack_pdelay_req, msg_pack_pdelay_resp, msg_pack_pdelay_resp_follow_up}
use ptp_noposix.Msg.Announce.{announces_wr, msg_pack_announce}
use ptp_noposix.Port.{
  LinkCall, send_general, send_event, send_peer_event, send_peer_general, Answered, Sys, make_call,
  to_faulty,
}

abbrev pub on_port : (PtpPortDs → PtpPortDs) → Sys → Sys
on_port f sys = record sys { port = f sys.port }

abbrev pub with_obuf : Buf → PtpPortDs → PtpPortDs
with_obuf buf port = record port { msg_obuf = buf }

-- `if (!send(...)) toState(PTP_FAULTY) else counted`. The time stamp of an event message is stored by
-- the sender itself, whatever it answers.
unfoldable pub transmit :
    Answered → RunTimeOpts → LinkCall → (stored counted : PtpPortDs → PtpPortDs) → Sys → Sys
transmit a opts c stored counted sys =
    let port = stored sys.port in
    make_call c
      (record sys { port = if eqb_ℤ a.sent (pos 0) then to_faulty opts port else counted port })

-- A general message stores no time stamp, and some messages are not counted.
abbrev pub unchanged : PtpPortDs → PtpPortDs
unchanged port = port

module _ (a : Answered) (opts : RunTimeOpts) where
  unfoldable pub issue_announce : Sys → Sys
  issue_announce sys =
      let buf = msg_pack_announce sys.clock sys.port sys.port.msg_obuf in
      let len = if announces_wr sys.port then wr_announce_length else announce_length in
      transmit a opts (send_general buf len) unchanged
        (λ p. record p { sent_announce_sequence_id = u16 (p.sent_announce_sequence_id + 1) })
        (on_port (with_obuf buf) sys)

  unfoldable pub issue_sync : Sys → Sys
  issue_sync sys =
      let buf = msg_pack_sync empty_timestamp sys.port sys.port.msg_obuf in
      transmit a opts (send_event buf sync_length) (λ p. record p { synch_tx_ts = a.stamp })
        (λ p. record p { sent_sync_sequence_id = u16 (p.sent_sync_sequence_id + 1) })
        (on_port (with_obuf buf) sys)

  unfoldable pub issue_followup : Sys → Sys
  issue_followup sys =
      let buf = msg_pack_follow_up sys.port sys.port.msg_obuf in
      transmit a opts (send_general buf follow_up_length) unchanged unchanged
        (on_port (with_obuf buf) sys)

  unfoldable pub issue_delay_req : Sys → Sys
  issue_delay_req sys =
      let buf = msg_pack_delay_req empty_timestamp sys.port sys.port.msg_obuf in
      transmit a opts (send_event buf delay_req_length)
        (λ p. record p { delay_req_tx_ts = a.stamp })
        (λ p. record p { sent_delay_req_sequence_id = u16 (p.sent_delay_req_sequence_id + 1) })
        (on_port (with_obuf buf) sys)

  unfoldable pub issue_pdelay_req : Sys → Sys
  issue_pdelay_req sys =
      let buf = msg_pack_pdelay_req empty_timestamp sys.port sys.port.msg_obuf in
      transmit a opts (send_peer_event buf pdelay_req_length)
        (λ p. record p { pdelay_req_tx_ts = a.stamp })
        (λ p. record p { sent_pdelay_req_sequence_id = u16 (p.sent_pdelay_req_sequence_id + 1) })
        (on_port (with_obuf buf) sys)

  unfoldable pub issue_delay_resp : MsgHeader → Sys → Sys
  issue_delay_resp header sys =
      let buf = msg_pack_delay_resp header sys.port sys.port.msg_obuf in
      transmit a opts (send_general buf pdelay_resp_length) unchanged unchanged
        (on_port (with_obuf buf) sys)

  -- The time that the two last issuers are given is converted to a local variable, which no message
  -- carries: it is left out.
  unfoldable pub issue_pdelay_resp : MsgHeader → Sys → Sys
  issue_pdelay_resp header sys =
      let buf = msg_pack_pdelay_resp header sys.port sys.port.msg_obuf in
      transmit a opts (send_peer_event buf pdelay_resp_length)
        (λ p. record p { pdelay_resp_tx_ts = a.stamp }) unchanged (on_port (with_obuf buf) sys)

  unfoldable pub issue_pdelay_resp_follow_up : MsgHeader → Sys → Sys
  issue_pdelay_resp_follow_up header sys =
      let buf = msg_pack_pdelay_resp_follow_up header sys.port sys.port.msg_obuf in
      transmit a opts (send_peer_general buf pdelay_resp_follow_up_length) unchanged unchanged
        (on_port (with_obuf buf) sys)
