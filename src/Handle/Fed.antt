-- ===== src/Handle/Fed.antt =====
-- Which messages reach the servo.
use ptp_noposix.Prelude.{
  ◌≡◌, ◌⊎◌, inl, inr, refl, Bool, true, if_intro, if◌then◌else◌, ◌==◌, ==_iff, ◌&&◌, not,
}
use ptp_noposix.Prelude.Int.{ℤ, pos, ◌-ℤ◌, eqb_ℤ, ltb_ℤ}
use ptp_noposix.Time.{TimeInternal}
use ptp_noposix.Constants.{
  PtpState, WrState, header_length, announce_length, sync_length, follow_up_length,
  delay_req_length, delay_resp_length, pdelay_req_length, pdelay_resp_length,
  pdelay_resp_follow_up_length, wr_master, primary_slave, secondary_slave, wr_mode_on_id, calibrate,
}
use ptp_noposix.Datatypes.{MsgHeader, RunTimeOpts}
use ptp_noposix.Foreign.{msg_is_from_current_parent}
use ptp_noposix.Msg.Event.{msg_unpack_delay_resp}
use ptp_noposix.Msg.Peer.{msg_unpack_pdelay_resp}
use ptp_noposix.Msg.Header.{msg_unpack_header}
use ptp_noposix.Port.{Answered, Sys, issue_wr_signaling_msg, make_call, enable_phase_tracking}
use ptp_noposix.Port.Link.{
  enter_wr_state, start_locking, start_calibration, mark_parent, leave_wr_state, to_wr_state,
}
use ptp_noposix.Issue.{transmit, issue_delay_resp, issue_pdelay_resp, issue_pdelay_resp_follow_up}
use ptp_noposix.Handle.{
  Received, store_message, read_message, is_accepted, is_from_self, receive_time, dispatch, handle,
}
use ptp_noposix.Handle.Accepted.{read_in}
use ptp_noposix.Handle.Announce.{handle_announce}
use ptp_noposix.Handle.Sync.{follows_master, handle_sync, matches_sync, handle_follow_up}
use ptp_noposix.Handle.Delay.{
  answer_delay_req, handle_delay_req, matches_delay_req, delay_resp_in, handle_delay_resp,
}
use ptp_noposix.Handle.Peer.{
  answers_peer, handle_pdelay_req, matches_pdelay_req, exchanges_peer, handle_pdelay_resp,
  handle_pdelay_resp_follow_up,
}
use ptp_noposix.Handle.Signaling.{read_signaling, meets_slave, handle_signaling}

-- The servo of the left is that of the right.
abbrev SameServo : Sys → Sys → Type 0
SameServo sys x = x.servo ≡ sys.servo

module _ (sys : Sys) where
  either :
      (b : Bool) (x y : Sys)
      → SameServo sys x
      → SameServo sys y
      → SameServo sys (if b then x else y)
  either b x y p q = if_intro (SameServo sys) b x y (λ _. p) (λ _. q)

module _ (a : Answered) (opts : RunTimeOpts) where
  enter-SameServo : (w : WrState) (sys : Sys) → SameServo sys (enter_wr_state a opts w sys)
  unfolding enter_wr_state start_locking start_calibration issue_wr_signaling_msg mark_parent
  enter-SameServo WrState.s_lock sys =
      either sys (sys.port.wr_slave_role == primary_slave) _ _ refl
        (either sys (sys.port.wr_slave_role == secondary_slave) _ _ refl refl)
  enter-SameServo WrState.calibration sys =
      either sys (issue_wr_signaling_msg a opts calibrate sys).port.calibrated _ _ refl
        (either sys a.pattern_started _ _ refl refl)
  enter-SameServo WrState.resp_calib_req sys =
      either sys (sys.port.other_node_cal_send_pattern == 1) _ _ refl refl
  enter-SameServo WrState.wr_link_on sys =
      either sys (sys.port.wr_mode == wr_master)
        (issue_wr_signaling_msg a opts wr_mode_on_id tracked) tracked refl refl
    where
      tracked : Sys
      tracked =
          make_call enable_phase_tracking
            (record sys { port = record (sys.port) { wr_mode_on = true } })
  enter-SameServo w sys = refl

  to_wr_state-SameServo : (w : WrState) (sys : Sys) → SameServo sys (to_wr_state a opts w sys)
  unfolding to_wr_state
  to_wr_state-SameServo w sys = enter-SameServo w (record sys { port = leave_wr_state a sys.port })

module _ (opts : RunTimeOpts) (header : MsgHeader) (length : ℤ) (self : Bool) (sys : Sys) where
  announce-SameServo :
      (a : Answered) → SameServo sys (handle_announce a opts header length self sys)
  unfolding handle_announce
  announce-SameServo a = either sys (ltb_ℤ length (pos announce_length)) _ _ refl refl

  sync-SameServo : SameServo sys (handle_sync opts header length self sys)
  unfolding handle_sync
  sync-SameServo = either sys (ltb_ℤ length (pos sync_length)) _ _ refl (
      either sys (follows_master sys.port sys.port.port_state) _ _
        (either sys self _ _ refl
          (either sys (msg_is_from_current_parent header sys.clock) _ _ refl refl))
        refl)

  answer-SameServo :
      (a : Answered) (state : PtpState) → SameServo sys (answer_delay_req a opts state sys)
  unfolding answer_delay_req issue_delay_resp transmit
  answer-SameServo a PtpState.master = refl
  answer-SameServo a state = refl

  delay_req-SameServo : (a : Answered) → SameServo sys (handle_delay_req a opts length sys)
  unfolding handle_delay_req
  delay_req-SameServo a = either sys (not opts.e2e_mode) _ _ refl (
      either sys (ltb_ℤ length (pos delay_req_length)) _ _ refl
        (answer-SameServo a sys.port.port_state))

  pdelay_req-SameServo :
      (a : Answered) (time : TimeInternal)
      → SameServo sys (handle_pdelay_req a opts time header length self sys)
  unfolding handle_pdelay_req issue_pdelay_resp transmit
  pdelay_req-SameServo a time = either sys opts.e2e_mode _ _ refl (
      either sys (ltb_ℤ length (pos pdelay_req_length)) _ _ refl
        (either sys (answers_peer sys.port.port_state) _ _ (either sys self _ _ refl refl) refl))

  pdelay_resp-SameServo :
      (a : Answered) (garbage time : TimeInternal)
      → SameServo sys (handle_pdelay_resp a opts garbage time header length self sys)
  unfolding handle_pdelay_resp issue_pdelay_resp_follow_up transmit
  pdelay_resp-SameServo a garbage time = either sys opts.e2e_mode _ _ refl (
      either sys (ltb_ℤ length (pos pdelay_resp_length)) _ _ refl (
        either sys (exchanges_peer sys.port.port_state) _ _
          (either sys self _ _ refl (
            either sys
              (not (matches_pdelay_req header (msg_unpack_pdelay_resp sys.port.msg_ibuf) sys.port))
              _ _ refl refl))
          refl))

  pdelay_resp_follow_up-SameServo :
      (garbage : TimeInternal)
      → SameServo sys (handle_pdelay_resp_follow_up opts garbage header length sys)
  unfolding handle_pdelay_resp_follow_up
  pdelay_resp_follow_up-SameServo garbage = either sys opts.e2e_mode _ _ refl (
      either sys (ltb_ℤ length (pos pdelay_resp_follow_up_length)) _ _ refl (
        either sys
          (exchanges_peer sys.port.port_state
            && eqb_ℤ (pos header.sequence_id) (pos sys.port.sent_pdelay_req_sequence_id -ℤ pos 1))
          _ _ refl refl))

  signaling-SameServo : (a : Answered) → SameServo sys (handle_signaling a opts self sys)
  unfolding handle_signaling
  signaling-SameServo a = either sys self _ _ refl (
      either sys (meets_slave (read_signaling sys.port)) _ _
        (to_wr_state-SameServo a opts WrState.m_lock _) refl)

-- A message that may reach the servo: a Follow_up of the parent that the slave waits for, or the answer
-- of the parent to the last Delay_Req of the slave.
pub data Feeds (header : MsgHeader) (sys : Sys) : Type 0 where
  by_follow_up :
      header.message_type ≡ 8
      → follows_master sys.port sys.port.port_state ≡ true
      → matches_sync header sys ≡ true
      → Feeds header sys
  by_delay_resp :
      header.message_type ≡ 9
      → sys.port.port_state ≡ PtpState.slave
      → matches_delay_req header (msg_unpack_delay_resp sys.port.msg_ibuf) sys ≡ true
      → Feeds header sys

module _ (r : Received) (opts : RunTimeOpts) (header : MsgHeader) (sys : Sys) where
  abbrev IsExplained : Sys → Type 0
  IsExplained x = (x.servo ≡ sys.servo) ⊎ Feeds header sys

  follow_up-IsExplained :
      (self : Bool)
      → header.message_type ≡ 8
      → IsExplained (handle_follow_up r.reply opts r.garbage header r.length self sys)
  unfolding handle_follow_up
  follow_up-IsExplained self type =
      if_intro IsExplained (ltb_ℤ r.length (pos follow_up_length)) _ _ (λ _. inl refl)
        (λ _.
          if_intro IsExplained self _ _ (λ _. inl refl)
            (λ _.
              if_intro IsExplained (follows_master sys.port sys.port.port_state) _ _
                (λ f.
                  if_intro IsExplained (matches_sync header sys) _ _
                    (λ m. inr (by_follow_up type f m)) (λ _. inl refl))
                (λ _. inl refl)))

  resp_in-IsExplained :
      (state : PtpState)
      → sys.port.port_state ≡ state
      → header.message_type ≡ 9
      → IsExplained (delay_resp_in r.hardware r.garbage header state sys)
  unfolding delay_resp_in
  resp_in-IsExplained PtpState.slave e type =
      if_intro IsExplained (matches_delay_req header (msg_unpack_delay_resp sys.port.msg_ibuf) sys)
        _ _ (λ m. inr (by_delay_resp type e m)) (λ _. inl refl)
  resp_in-IsExplained state e type = inl refl

  delay_resp-IsExplained :
      header.message_type ≡ 9
      → IsExplained (handle_delay_resp r.hardware opts r.garbage header r.length sys)
  unfolding handle_delay_resp
  delay_resp-IsExplained type =
      if_intro IsExplained (not opts.e2e_mode) _ _ (λ _. inl refl)
        (λ _.
          if_intro IsExplained (ltb_ℤ r.length (pos delay_resp_length)) _ _ (λ _. inl refl)
            (λ _. resp_in-IsExplained sys.port.port_state refl type))

  dispatch-IsExplained : IsExplained (dispatch r opts header sys)
  unfolding dispatch
  dispatch-IsExplained =
      let self = is_from_self header sys.port in
      let n = r.length in
      let time = receive_time opts self sys.port.current_rx_ts in
      let type = header.message_type in
      if_intro IsExplained (type == 0xB) _ _
        (λ _. inl (announce-SameServo opts header n self sys r.reply))
        (λ _.
          if_intro IsExplained (type == 0x0) _ _ (λ _. inl (sync-SameServo opts header n self sys))
            (λ _.
              if_intro IsExplained (type == 0x8) _ _
                (λ e. follow_up-IsExplained self ((==_iff type 8).0 e))
                (λ _.
                  if_intro IsExplained (type == 0x1) _ _
                    (λ _. inl (delay_req-SameServo opts header n self sys r.reply))
                    (λ _.
                      if_intro IsExplained (type == 0x2) _ _
                        (λ _. inl (pdelay_req-SameServo opts header n self sys r.reply time))
                        (λ _.
                          if_intro IsExplained (type == 0x3) _ _
                            (λ _.
                              inl (
                                pdelay_resp-SameServo opts header n self sys r.reply r.garbage
                                  time))
                            (λ _.
                              if_intro IsExplained (type == 0xA) _ _
                                (λ _. inl (
                                  pdelay_resp_follow_up-SameServo opts header n self sys r.garbage))
                                (λ _.
                                  if_intro IsExplained (type == 0x9) _ _
                                    (λ e. delay_resp-IsExplained ((==_iff type 9).0 e))
                                    (λ _.
                                      if_intro IsExplained (type == 0xC) _ _
                                        (λ _.
                                          inl (signaling-SameServo opts header n self sys r.reply))
                                        (λ _. inl refl)))))))))

module _ (r : Received) (opts : RunTimeOpts) (sys : Sys) where
  -- A received message leaves the servo of the port as it was, unless it has the version and the
  -- domain of the receiver and is a Follow_up of the parent, to a port that follows a master and
  -- waits for the Follow_up with this sequence id, or a Delay_Resp of the parent to the last
  -- request of this port, which is a slave.
  pub handle-Feeds :
      ((handle r opts sys).servo ≡ sys.servo)
      ⊎ ((is_accepted (read_in r sys) ≡ true) × Feeds (msg_unpack_header r.content) (read_in r sys))
  unfolding handle store_message read_message
  handle-Feeds =
      let read = read_in r sys in
      let kept : Sys → Type 0 = λ x.
        (x.servo ≡ sys.servo)
        ⊎ ((is_accepted read ≡ true) × Feeds (msg_unpack_header r.content) read) in
      if_intro kept (ltb_ℤ r.length (pos 0)) _ _ (λ _. inl refl)
        (λ _.
          if_intro kept (eqb_ℤ r.length (pos 0)) _ _ (λ _. inl refl)
            (λ _.
              if_intro kept (ltb_ℤ r.length (pos header_length)) _ _ (λ _. inl refl)
                (λ _.
                  if_intro kept (is_accepted read) _ _
                    (λ e. elim (dispatch-IsExplained r opts (msg_unpack_header r.content) read) [
                      | inl q ↦ inl q
                      | inr f ↦ inr (e, f)
                    ])
                    (λ _. inl refl))))
