-- ===== src/Exchange/Request.antt =====
-- A Delay_Req and a Delay_Resp, each as its receiver handles it.
use ptp_noposix.Prelude.{
  ℕ, ◌+◌, ◌^◌, ◌<◌, ◌≡◌, refl, ap, ◌∙◌, true, false, if_true, if_false, u16, arith,
}
use ptp_noposix.Prelude.Int.{pos, ◌-ℤ◌, eqb_ℤ}
use ptp_noposix.Time.{Timestamp}
use ptp_noposix.Constants.{PtpState, delay_req_length, delay_resp_length}
use ptp_noposix.Datatypes.{Buf, MsgHeader, MsgDelayResp, PtpPortDs, RunTimeOpts}
use ptp_noposix.Datatypes.Empty.{empty_timestamp}
use ptp_noposix.Buf.{
  set_message_type, put_be16, put_be32, clear, put_identity, get_be16, get_identity,
}
use ptp_noposix.Msg.Header.{msg_unpack_header}
use ptp_noposix.Msg.Event.{msg_pack_delay_req, msg_pack_delay_resp, msg_unpack_delay_resp}
use ptp_noposix.Foreign.{msg_is_from_current_parent}
use ptp_noposix.Foreign.Search.{same_source_refl}
use ptp_noposix.Port.{Answered, Sys}
use ptp_noposix.Issue.{on_port, transmit, issue_delay_req, issue_delay_resp}
use ptp_noposix.Handle.{Received, store_message, read_message, dispatch, handle}
use ptp_noposix.Handle.Delay.{
  keep_delay_req, answer_delay_req, handle_delay_req, matches_delay_req, accept_delay_resp,
  delay_resp_in, handle_delay_resp,
}
use ptp_noposix.Handle.Accepted.{IsAddressed, read_in, handle-dispatch}

module _ (r : Received) (opts : RunTimeOpts) (sys : Sys) (header : MsgHeader) where
  pub handle-delay_req :
      msg_unpack_header r.content ≡ header
      → r.length ≡ pos delay_req_length
      → header.message_type ≡ 1
      → opts.e2e_mode ≡ true
      → IsAddressed header sys
      → sys.port.port_state ≡ PtpState.master
      → handle r opts sys
        ≡ issue_delay_resp r.reply opts
            (keep_delay_req (read_in r sys).port).delay_req_header
            (on_port keep_delay_req (read_in r sys))
  unfolding dispatch handle_delay_req answer_delay_req store_message read_message
  handle-delay_req e len type e2e addressed master =
      handle-dispatch r opts sys delay_req_length len (omega arith) (rw e addressed)
      ∙ rw (e, type, len, e2e, master) refl

  pub handle-delay_resp :
      (resp : MsgDelayResp)
      → msg_unpack_header r.content ≡ header
      → msg_unpack_delay_resp r.content ≡ resp
      → r.length ≡ pos delay_resp_length
      → header.message_type ≡ 9
      → opts.e2e_mode ≡ true
      → IsAddressed header sys
      → sys.port.port_state ≡ PtpState.slave
      → resp.requesting_port_identity ≡ sys.port.port_identity
      → header.source_port_identity ≡ sys.clock.parent_port_identity
      → eqb_ℤ (pos sys.port.sent_delay_req_sequence_id -ℤ pos 1) (pos header.sequence_id) ≡ true
      → handle r opts sys ≡ accept_delay_resp r.hardware r.garbage header resp (read_in r sys)
  unfolding dispatch handle_delay_resp delay_resp_in matches_delay_req msg_is_from_current_parent
      store_message read_message
  handle-delay_resp resp e e' len type e2e addressed slave own source id =
      handle-dispatch r opts sys delay_resp_length len (omega arith) (rw e addressed)
      ∙ rw (e, type, len, e2e, slave, e', own, source, same_source_refl sys.port.port_identity, id)
          (if_true _ _ (same_source_refl sys.clock.parent_port_identity))

-- The header in a buffer that a Delay_Req or a Delay_Resp is packed into.
pub pack_delay_req-header :
    (t : Timestamp) (port : PtpPortDs) (buf : Buf)
    → let h = msg_unpack_header buf in
      let out = msg_unpack_header (msg_pack_delay_req t port buf) in
      (out.version_ptp ≡ h.version_ptp) × (out.domain_number ≡ h.domain_number)
unfolding msg_pack_delay_req msg_unpack_header set_message_type put_be16 clear get_be16 get_identity
    put_be32
pack_delay_req-header t port buf = (refl, refl)

pub pack_delay_resp-header :
    (request : MsgHeader) (port : PtpPortDs) (buf : Buf)
    → let h = msg_unpack_header buf in
      let out = msg_unpack_header (msg_pack_delay_resp request port buf) in
      (out.version_ptp ≡ h.version_ptp) × (out.source_port_identity ≡ h.source_port_identity)
unfolding msg_pack_delay_resp msg_unpack_header set_message_type put_be16 clear get_be16
    get_identity put_be32 put_identity
pack_delay_resp-header request port buf = (refl, refl)

-- The port of the slave after the request, when its sender did not answer 0.
abbrev pub after_delay_req : Answered → PtpPortDs → PtpPortDs
after_delay_req a port = record port {
  msg_obuf = msg_pack_delay_req empty_timestamp port port.msg_obuf;
  delay_req_tx_ts = a.stamp;
  sent_delay_req_sequence_id = u16 (port.sent_delay_req_sequence_id + 1);
}

pub issue_delay_req-port :
    (a : Answered) (opts : RunTimeOpts) (sys : Sys)
    → eqb_ℤ a.sent (pos 0) ≡ false
    → (issue_delay_req a opts sys).port ≡ after_delay_req a sys.port
unfolding issue_delay_req transmit
issue_delay_req-port a opts sys sent = if_false _ _ sent

pub issue_delay_req-rest :
    (a : Answered) (opts : RunTimeOpts) (sys : Sys)
    → ((issue_delay_req a opts sys).clock ≡ sys.clock)
      × ((issue_delay_req a opts sys).servo ≡ sys.servo)
unfolding issue_delay_req transmit
issue_delay_req-rest a opts sys = (refl, refl)

-- The sequence id before the one that is sent next, without a wrap.
pub last_id :
    (n next id : ℕ)
    → n + 1 < 2 ^ 16
    → next ≡ u16 (n + 1)
    → id ≡ n
    → eqb_ℤ (pos next -ℤ pos 1) (pos id) ≡ true
unfolding ◌-ℤ◌
last_id n next id h e e' =
    let same : next ≡ n + 1 = omega (arith, e) in rw (same, e') (ground arith)

pub issue_delay_resp-msg_obuf :
    (a : Answered) (opts : RunTimeOpts) (header : MsgHeader) (sys : Sys)
    → eqb_ℤ a.sent (pos 0) ≡ false
    → (issue_delay_resp a opts header sys).port.msg_obuf
      ≡ msg_pack_delay_resp header sys.port sys.port.msg_obuf
unfolding issue_delay_resp transmit
issue_delay_resp-msg_obuf a opts header sys sent =
    ap (λ (p : PtpPortDs). p.msg_obuf) (if_false _ _ sent)
