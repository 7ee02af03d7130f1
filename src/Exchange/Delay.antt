-- ===== src/Exchange/Delay.antt =====
-- A Delay_Req of a slave, the Delay_Resp of its master, and what the slave makes of it.
use ptp_noposix.Prelude.{
  ℕ, ◌+◌, ◌^◌, ◌<◌, ◌≡◌, refl, sym, ap, ◌∙◌, inl, inr, true, false, u16, u32, arith, ltb,
}
use ptp_noposix.Prelude.Int.{pos, ◌-ℤ◌, eqb_ℤ, i32_fits, pattern32, signed32}
use ptp_noposix.Time.{int_max, to_internal_time}
use ptp_noposix.Stamp.{timeint_to_wr}
use ptp_noposix.Constants.{PtpState, delay_req_length, delay_resp_length}
use ptp_noposix.Datatypes.{MsgHeader, MsgDelayResp, PtpClockDs, PtpPortDs, RunTimeOpts}
use ptp_noposix.Datatypes.Empty.{empty_timestamp}
use ptp_noposix.Msg.Header.{msg_unpack_header}
use ptp_noposix.Msg.Event.{msg_pack_delay_req, msg_pack_delay_resp, msg_unpack_delay_resp}
use ptp_noposix.Msg.RoundTrip.{wire_time, unpack-pack_delay_req, unpack-pack_delay_resp}
use ptp_noposix.Servo.{Servo, wr_servo_got_delay}
use ptp_noposix.Servo.Update.{wr_servo_update}
use ptp_noposix.Port.{Answered, Sys}
use ptp_noposix.Issue.{on_port, issue_delay_req}
use ptp_noposix.Handle.{Received, store_message, read_message, handle}
use ptp_noposix.Handle.Delay.{
  phase_to_cf_units, keep_delay_req, servo_stamp, matches_delay_req, accept_delay_resp,
}
use ptp_noposix.Handle.Accepted.{IsAddressed, read_in}
use ptp_noposix.Exchange.{delivered}
use ptp_noposix.Exchange.Request.{
  handle-delay_req, handle-delay_resp, pack_delay_req-header, pack_delay_resp-header,
  after_delay_req, issue_delay_req-port, issue_delay_req-rest, last_id, issue_delay_resp-msg_obuf,
}
use ptp_noposix.Exchange.Phase.{IsNearly, phase_kept}
use ptp_noposix.Handle.Fed.{by_follow_up, by_delay_resp, handle-Feeds}

-- Both ends of an exchange: the headers in their output buffers are their own, and fit each other.
abbrev pub ArePeers : (slave master : Sys) → Type 0
ArePeers slave master =
    let hs = msg_unpack_header slave.port.msg_obuf in
    let hm = msg_unpack_header master.port.msg_obuf in
    IsAddressed hs master
    × (hs.domain_number ≡ slave.clock.domain_number)
    × (hs.source_port_identity ≡ slave.port.port_identity)
    × (hm.version_ptp ≡ slave.port.version_number)
    × (hm.source_port_identity ≡ slave.clock.parent_port_identity)
    × (slave.port.port_state ≡ PtpState.slave)
    × (master.port.port_state ≡ PtpState.master)

-- The first octets, the sequence id and the port number of the slave fit their fields.
abbrev pub AreSendable : (slave master : Sys) → Type 0
AreSendable slave master =
    (slave.port.msg_obuf 0 < 256)
    × (master.port.msg_obuf 0 < 256)
    × (slave.port.sent_delay_req_sequence_id + 1 < 2 ^ 16)
    × (slave.port.port_identity.port_number < 2 ^ 16)

module _ (rm rs : Received) (opts : RunTimeOpts) (a : Answered) (slave master : Sys)
    (sent : eqb_ℤ a.sent (pos 0) ≡ false) (replied : eqb_ℤ rm.reply.sent (pos 0) ≡ false)
    (e2e : opts.e2e_mode ≡ true) (peers : ArePeers slave master) (fits : AreSendable slave master)
    (hn : rm.rx_ts.nsec < 2 ^ 31) where
  abbrev requesting : Sys
  requesting = issue_delay_req a opts slave

  abbrev request : Received
  request = delivered requesting.port.msg_obuf delay_req_length rm

  abbrev kept : Sys
  kept = on_port keep_delay_req (read_in request master)

  -- The answer of the master.
  answered :
      (handle request opts master).port.msg_obuf
      ≡ msg_pack_delay_resp kept.port.delay_req_header kept.port master.port.msg_obuf
  unfolding store_message read_message keep_delay_req
  answered =
      let (addressed, _, _, _, _, _, is_master) = peers in
      let (v, d) = pack_delay_req-header empty_timestamp slave.port slave.port.msg_obuf in
      let (type, _, _, _, _) =
        unpack-pack_delay_req empty_timestamp slave.port slave.port.msg_obuf fits.0 (ground arith)
          (omega (arith, fits.2)) in
      let e : requesting.port.msg_obuf
          ≡ msg_pack_delay_req empty_timestamp slave.port slave.port.msg_obuf =
        ap (λ (p : PtpPortDs). p.msg_obuf) (issue_delay_req-port a opts slave sent) in
      ap (λ (x : Sys). x.port.msg_obuf)
        (handle-delay_req request opts master (msg_unpack_header requesting.port.msg_obuf) refl refl
          (rw e type) e2e (rw e ((v ∙ addressed.0, d ∙ addressed.1))) is_master)
      ∙ issue_delay_resp-msg_obuf rm.reply opts kept.port.delay_req_header kept replied

  -- The servo of the slave when the answer has arrived.
  abbrev pub fed : Servo
  fed =
      wr_servo_got_delay (servo_stamp a.stamp)
        (to_internal_time rs.garbage (wire_time rm.rx_ts.sec rm.rx_ts.nsec))
        (signed32 (pattern32 (phase_to_cf_units rm.rx_ts.phase))) slave.servo

  answer_received :
      (handle
        (delivered (handle request opts master).port.msg_obuf delay_resp_length rs)
        opts
        requesting).servo
      ≡ wr_servo_update rs.hardware fed
  unfolding store_message read_message keep_delay_req accept_delay_resp
  answer_received =
      let (_, own_domain, own_source, v_m, s_m, is_slave, _) = peers in
      let (v1, d1) = pack_delay_req-header empty_timestamp slave.port slave.port.msg_obuf in
      let (_, _, id1, s1, _) =
        unpack-pack_delay_req empty_timestamp slave.port slave.port.msg_obuf fits.0 (ground arith)
          (omega (arith, fits.2)) in
      let e : requesting.port ≡ after_delay_req a slave.port =
        issue_delay_req-port a opts slave sent in
      let (same_clock, same_servo) = issue_delay_req-rest a opts slave in
      let eb : requesting.port.msg_obuf
          ≡ msg_pack_delay_req empty_timestamp slave.port slave.port.msg_obuf =
        ap (λ (p : PtpPortDs). p.msg_obuf) e in
      let id : (msg_unpack_header requesting.port.msg_obuf).sequence_id
          ≡ slave.port.sent_delay_req_sequence_id =
        ap (λ b. (msg_unpack_header b).sequence_id) eb ∙ id1 in
      let source : (msg_unpack_header requesting.port.msg_obuf).source_port_identity
          ≡ slave.port.port_identity =
        ap (λ b. (msg_unpack_header b).source_port_identity) eb ∙ s1 ∙ own_source in
      let h = kept.port.delay_req_header in
      let answer = msg_pack_delay_resp h kept.port master.port.msg_obuf in
      let (v2, s2) = pack_delay_resp-header h kept.port master.port.msg_obuf in
      let (type, _, id2, d2, _, lsb, c2, p2, time) =
        unpack-pack_delay_resp h kept.port master.port.msg_obuf fits.1 (omega (arith, id, fits.2))
          (rw source fits.3) (omega arith) (ground arith) (omega (arith, hn)) in
      let own : (msg_unpack_delay_resp answer).requesting_port_identity
          ≡ requesting.port.port_identity =
        (λ i. record { clock_identity = c2 i; port_number = p2 i })
        ∙ source
        ∙ sym (ap (λ (p : PtpPortDs). p.port_identity) e) in
      let received : handle (delivered answer delay_resp_length rs) opts requesting
          ≡ accept_delay_resp rs.hardware rs.garbage (msg_unpack_header answer)
              (msg_unpack_delay_resp answer)
              (read_in (delivered answer delay_resp_length rs) requesting) =
        handle-delay_resp (delivered answer delay_resp_length rs) opts requesting
          (msg_unpack_header answer) (msg_unpack_delay_resp answer) refl refl refl type e2e
          (
            v2 ∙ v_m ∙ sym (ap (λ (p : PtpPortDs). p.version_number) e),
            d2
                ∙ ap (λ b. (msg_unpack_header b).domain_number) eb
                ∙ d1
                ∙ own_domain
                ∙ sym (ap (λ (c : PtpClockDs). c.domain_number) same_clock),
          )
          (ap (λ (p : PtpPortDs). p.port_state) e ∙ is_slave) own
          (s2 ∙ s_m ∙ sym (ap (λ (c : PtpClockDs). c.parent_port_identity) same_clock))
          (last_id slave.port.sent_delay_req_sequence_id _ _ fits.2
            (ap (λ (p : PtpPortDs). p.sent_delay_req_sequence_id) e) (id2 ∙ id)) in
      ap (λ b. (handle (delivered b delay_resp_length rs) opts requesting).servo) answered
      ∙ ap (λ (x : Sys). x.servo) received
      ∙ (λ i. wr_servo_update rs.hardware (
          wr_servo_got_delay (servo_stamp (e i).delay_req_tx_ts)
            (to_internal_time rs.garbage (time i)) (signed32 (lsb i)) (same_servo i)))

  -- If a slave issues a Delay_Req and a master handles it, both by the end-to-end mechanism and
  -- with senders that do not answer 0, and the slave then handles the answer in the output buffer
  -- of the master, the servo of the slave is updated from the time at which its hardware sent the
  -- request as t3 and, as t4, the time at which the master received it, whose phase, if below 2^15
  -- picoseconds, comes through the correction field unchanged or one less; provided that the
  -- headers in the output buffers are those of the two ports, which fit each other, the master is
  -- the parent of the slave, the sequence id of the request is below 65535, the port number and the
  -- first octets fit their fields, and the time of reception has seconds below INT_MAX and
  -- nanoseconds below 2^31.
  pub handle-issue_delay_req :
      (p : ℕ)
      → rm.rx_ts.phase ≡ pos p
      → p < 2 ^ 15
      → rm.rx_ts.sec < int_max
      → let answer = (handle request opts master).port.msg_obuf in
        ((handle (delivered answer delay_resp_length rs) opts requesting).servo
          ≡ wr_servo_update rs.hardware fed)
        × (fed.s.t3 ≡ servo_stamp a.stamp)
        × (fed.s.t4.sec ≡ pos rm.rx_ts.sec)
        × (fed.s.t4.nsec ≡ pos rm.rx_ts.nsec)
        × IsNearly fed.s.t4.phase p
  unfolding wr_servo_got_delay timeint_to_wr to_internal_time
  handle-issue_delay_req p ep hp hs =
      let small : u32 rm.rx_ts.sec ≡ rm.rx_ts.sec = omega arith in
      let before : ltb rm.rx_ts.sec int_max ≡ true = ground arith in
      (
        answer_received,
        refl,
        rw (small, before) refl,
        rw (small, before) (i32_fits (pos rm.rx_ts.nsec) (hn, omega arith)),
        rw ep (phase_kept p hp),
      )

-- The last sequence id of a Delay_Req: the next one is 0, and no answer fits it.
matches_delay_req-zero :
    (header : MsgHeader) (resp : MsgDelayResp) (sys : Sys)
    → sys.port.sent_delay_req_sequence_id ≡ 0
    → matches_delay_req header resp sys ≡ false
unfolding matches_delay_req ◌-ℤ◌
matches_delay_req-zero header resp sys e = rw e (ground arith)

-- After a Delay_Req with the sequence id 65535 is issued, by a sender that does not answer 0, no
-- message of type Delay_Resp changes the servo, whatever it holds.
pub handle-issue_delay_req_wrapped :
    (r : Received) (opts opts' : RunTimeOpts) (a : Answered) (slave : Sys)
    → eqb_ℤ a.sent (pos 0) ≡ false
    → slave.port.sent_delay_req_sequence_id ≡ 65535
    → (msg_unpack_header r.content).message_type ≡ 9
    → (handle r opts' (issue_delay_req a opts slave)).servo ≡ slave.servo
unfolding store_message read_message
handle-issue_delay_req_wrapped r opts opts' a slave sent last type =
    let asked = issue_delay_req a opts slave in
    let zero_next : asked.port.sent_delay_req_sequence_id ≡ 0 =
      ap (λ (p : PtpPortDs). p.sent_delay_req_sequence_id) (issue_delay_req-port a opts slave sent)
      ∙ ap (λ n. u16 (n + 1)) last in
    elim (handle-Feeds r opts' asked) [
      | inl q ↦ q ∙ (issue_delay_req-rest a opts slave).1
      | inr (e, by_follow_up t f m) ↦ absurd (omega (arith, t, type))
      | inr (e, by_delay_resp t f m) ↦ absurd (
          ground (
            arith,
            m,
            matches_delay_req-zero (msg_unpack_header r.content) (msg_unpack_delay_resp r.content)
                (read_in r asked) zero_next,
          ))
    ]
