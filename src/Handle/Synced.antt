-- ===== src/Handle/Synced.antt =====
-- The sync timer and the state of a port over the messages that it handles.
use ptp_noposix.Prelude.{
  refl, Bool, true, Option, none, some, if_intro, if◌then◌else◌, ◌==◌, ◌!=◌, ◌&&◌, ◌||◌, not, ℕ,
}
use ptp_noposix.Prelude.Int.{ℤ, pos, ◌-ℤ◌, eqb_ℤ, ltb_ℤ}
use ptp_noposix.Time.{TimeInternal}
use ptp_noposix.Constants.{
  PtpState, WrState, announce_length, sync_length, follow_up_length, delay_req_length,
  delay_resp_length, pdelay_req_length, pdelay_resp_length, pdelay_resp_follow_up_length, calibrate,
  calibrated_id, tlv_type_org_extension,
}
use ptp_noposix.Datatypes.{Buf, PortIdentity, MsgHeader, PtpPortDs, PtpClockDs, RunTimeOpts}
use ptp_noposix.Foreign.{msg_is_from_current_parent, add_foreign, add_at, known_at}
use ptp_noposix.Msg.Event.{msg_unpack_delay_resp}
use ptp_noposix.Msg.Peer.{msg_unpack_pdelay_resp}
use ptp_noposix.Buf.{get_be16}
use ptp_noposix.Msg.Announce.{is_wr_organization}
use ptp_noposix.Msg.Signaling.{msg_unpack_wr_signaling}
use ptp_noposix.Servo.Update.{Answers}
use ptp_noposix.Port.{Answered, Sys, to_faulty}
use ptp_noposix.Port.Running.{SyncAsMaster}
use ptp_noposix.Port.Synced.{
  SyncAsMaster-same, to_faulty-SyncAsMaster, IsSynced, Syncs, to_wr_state-Syncs,
}
use ptp_noposix.Issue.{on_port}
use ptp_noposix.Issue.Synced.{
  Holds, delay_req-Syncs, delay_resp-Syncs, pdelay_resp-Syncs, pdelay_resp_follow_up-Syncs,
}
use ptp_noposix.Handle.Announce.{
  restart_receipt, refresh_parent, announce_to_slave, announce_to_master, announce_in,
  handle_announce,
}
use ptp_noposix.Handle.Sync.{
  is_two_step, note_sync, follows_master, handle_sync, accept_follow_up, matches_sync,
  handle_follow_up,
}
use ptp_noposix.Handle.Delay.{
  keep_delay_req, answer_delay_req, handle_delay_req, matches_delay_req, accept_delay_resp,
  delay_resp_in, handle_delay_resp,
}
use ptp_noposix.Handle.Peer.{
  note_pdelay_req, answers_peer, handle_pdelay_req, matches_pdelay_req, note_pdelay_resp,
  exchanges_peer, handle_pdelay_resp, note_pdelay_resp_follow_up, handle_pdelay_resp_follow_up,
}
use ptp_noposix.Handle.Signaling.{read_signaling, meets_slave, handle_signaling}

module _ (opts : RunTimeOpts) where
  -- A message that is too short makes the port faulty.
  pub short-Syncs :
      (short : Bool) (sys rest : Sys)
      → IsSynced sys
      → IsSynced rest
      → IsSynced (if short then on_port (to_faulty opts) sys else rest)
  short-Syncs short sys rest h k =
      if_intro IsSynced short _ _ (λ _. to_faulty-SyncAsMaster opts sys.port h) (λ _. k)

  pub branch-Syncs :
      (b : Bool) (x y : Sys) → IsSynced x → IsSynced y → IsSynced (if b then x else y)
  branch-Syncs b x y h k = if_intro IsSynced b x y (λ _. h) (λ _. k)

  add_at-Holds :
      (buf : Buf) (header : MsgHeader) (port : PtpPortDs) (place : Option ℕ)
      → SyncAsMaster port
      → SyncAsMaster (add_at buf header port place)
  add_at-Holds buf header port none h = SyncAsMaster-same refl refl h
  add_at-Holds buf header port (some j) h = SyncAsMaster-same refl refl h

  add_foreign-Holds : (buf : Buf) (header : MsgHeader) → Holds (add_foreign buf header)
  unfolding add_foreign
  add_foreign-Holds buf header port h =
      add_at-Holds buf header port (known_at header.source_port_identity port) h

  to_slave-Holds :
      (a : Answered) (header : MsgHeader) (clock : PtpClockDs)
      → Holds (announce_to_slave a header clock)
  unfolding announce_to_slave restart_receipt refresh_parent
  to_slave-Holds a header clock port h =
      let noted = record port { record_update = true } in
      let kept : SyncAsMaster noted = SyncAsMaster-same refl refl h in
      SyncAsMaster-same refl refl (
        if_intro SyncAsMaster (msg_is_from_current_parent header clock) (refresh_parent noted)
          (add_foreign port.msg_ibuf header noted) (λ _. SyncAsMaster-same refl refl h)
          (λ _. add_foreign-Holds port.msg_ibuf header noted kept))

  to_master-Holds : (header : MsgHeader) → Holds (announce_to_master header)
  unfolding announce_to_master
  to_master-Holds header port h =
      SyncAsMaster-same refl refl (add_foreign-Holds port.msg_ibuf header port h)

  announce_in-Holds :
      (a : Answered) (header : MsgHeader) (self : Bool) (clock : PtpClockDs) (state : PtpState)
      → Holds (announce_in a header self clock state)
  unfolding announce_in
  announce_in-Holds a header self clock PtpState.initializing port h = h
  announce_in-Holds a header self clock PtpState.faulty port h = h
  announce_in-Holds a header self clock PtpState.disabled port h = h
  announce_in-Holds a header self clock PtpState.uncalibrated port h =
      if_intro SyncAsMaster self _ _ (λ _. h) (λ _. to_slave-Holds a header clock port h)
  announce_in-Holds a header self clock PtpState.slave port h =
      if_intro SyncAsMaster self _ _ (λ _. h) (λ _. to_slave-Holds a header clock port h)
  announce_in-Holds a header self clock state port h =
      if_intro SyncAsMaster self _ _ (λ _. h) (λ _. to_master-Holds header port h)

  pub handle_announce-Syncs :
      (a : Answered) (header : MsgHeader) (length : ℤ) (self : Bool)
      → Syncs (handle_announce a opts header length self)
  unfolding handle_announce
  handle_announce-Syncs a header length self sys h =
      short-Syncs (ltb_ℤ length (pos announce_length)) sys _ h
        (announce_in-Holds a header self sys.clock sys.port.port_state sys.port h)

  note_sync-Holds : (header : MsgHeader) → Holds (note_sync header)
  unfolding note_sync
  note_sync-Holds header port h =
      if_intro SyncAsMaster (is_two_step header) _ _ (λ _. SyncAsMaster-same refl refl h)
        (λ _. SyncAsMaster-same refl refl h)

  pub handle_sync-Syncs :
      (header : MsgHeader) (length : ℤ) (self : Bool) → Syncs (handle_sync opts header length self)
  unfolding handle_sync
  handle_sync-Syncs header length self sys h =
      short-Syncs (ltb_ℤ length (pos sync_length)) sys _ h (
        branch-Syncs (follows_master sys.port sys.port.port_state) _ _
          (branch-Syncs self _ _ h (
            branch-Syncs (msg_is_from_current_parent header sys.clock) _ _
              (note_sync-Holds header sys.port h) h))
          h)

  pub handle_follow_up-Syncs :
      (a : Answered) (garbage : TimeInternal) (header : MsgHeader) (length : ℤ) (self : Bool)
      → Syncs (handle_follow_up a opts garbage header length self)
  unfolding handle_follow_up accept_follow_up
  handle_follow_up-Syncs a garbage header length self sys h =
      short-Syncs (ltb_ℤ length (pos follow_up_length)) sys _ h (
        branch-Syncs self _ _ h (
          branch-Syncs (follows_master sys.port sys.port.port_state) _ _
            (branch-Syncs (matches_sync header sys) _ _
              (delay_req-Syncs a opts _ (SyncAsMaster-same refl refl h)) h)
            h))

  answer-Syncs : (a : Answered) (state : PtpState) → Syncs (answer_delay_req a opts state)
  unfolding answer_delay_req keep_delay_req
  answer-Syncs a PtpState.master sys h = delay_resp-Syncs a opts _ _ (SyncAsMaster-same refl refl h)
  answer-Syncs a state sys h = h

  pub handle_delay_req-Syncs : (a : Answered) (length : ℤ) → Syncs (handle_delay_req a opts length)
  unfolding handle_delay_req
  handle_delay_req-Syncs a length sys h = branch-Syncs (not opts.e2e_mode) _ _ h (
      short-Syncs (ltb_ℤ length (pos delay_req_length)) sys _ h
        (answer-Syncs a sys.port.port_state sys h))

  resp_in-Syncs :
      (hw : Answers) (garbage : TimeInternal) (header : MsgHeader) (state : PtpState)
      → Syncs (delay_resp_in hw garbage header state)
  unfolding delay_resp_in accept_delay_resp
  resp_in-Syncs hw garbage header PtpState.slave sys h =
      branch-Syncs (matches_delay_req header (msg_unpack_delay_resp sys.port.msg_ibuf) sys) _ _
        (SyncAsMaster-same refl refl h) h
  resp_in-Syncs hw garbage header state sys h = h

  pub handle_delay_resp-Syncs :
      (hw : Answers) (garbage : TimeInternal) (header : MsgHeader) (length : ℤ)
      → Syncs (handle_delay_resp hw opts garbage header length)
  unfolding handle_delay_resp
  handle_delay_resp-Syncs hw garbage header length sys h = branch-Syncs (not opts.e2e_mode) _ _ h (
      short-Syncs (ltb_ℤ length (pos delay_resp_length)) sys _ h
        (resp_in-Syncs hw garbage header sys.port.port_state sys h))

  pub handle_pdelay_req-Syncs :
      (a : Answered) (time : TimeInternal) (header : MsgHeader) (length : ℤ) (self : Bool)
      → Syncs (handle_pdelay_req a opts time header length self)
  unfolding handle_pdelay_req note_pdelay_req
  handle_pdelay_req-Syncs a time header length self sys h = branch-Syncs opts.e2e_mode _ _ h (
      short-Syncs (ltb_ℤ length (pos pdelay_req_length)) sys _ h (
        branch-Syncs (answers_peer sys.port.port_state) _ _
          (branch-Syncs self _ _ (SyncAsMaster-same refl refl h)
            (pdelay_resp-Syncs a opts header _ (SyncAsMaster-same refl refl h)))
          h))

  note_presp-Holds :
      (garbage time : TimeInternal) (header : MsgHeader) (buf : Buf)
      → Holds (note_pdelay_resp garbage time header (msg_unpack_pdelay_resp buf))
  unfolding note_pdelay_resp
  note_presp-Holds garbage time header buf port h =
      if_intro SyncAsMaster (is_two_step header) _ _ (λ _. SyncAsMaster-same refl refl h)
        (λ _. SyncAsMaster-same refl refl h)

  pub handle_pdelay_resp-Syncs :
      (a : Answered) (garbage time : TimeInternal) (header : MsgHeader) (length : ℤ) (self : Bool)
      → Syncs (handle_pdelay_resp a opts garbage time header length self)
  unfolding handle_pdelay_resp
  handle_pdelay_resp-Syncs a garbage time header length self sys h =
      let presp = msg_unpack_pdelay_resp sys.port.msg_ibuf in
      branch-Syncs opts.e2e_mode _ _ h (
        short-Syncs (ltb_ℤ length (pos pdelay_resp_length)) sys _ h (
          branch-Syncs (exchanges_peer sys.port.port_state) _ _
            (branch-Syncs self _ _ (pdelay_resp_follow_up-Syncs a opts _ sys h) (
              branch-Syncs (not (matches_pdelay_req header presp sys.port)) _ _
                (note_presp-Holds garbage time header sys.port.msg_ibuf sys.port h) h))
            h))

  pub handle_pdelay_resp_follow_up-Syncs :
      (garbage : TimeInternal) (header : MsgHeader) (length : ℤ)
      → Syncs (handle_pdelay_resp_follow_up opts garbage header length)
  unfolding handle_pdelay_resp_follow_up note_pdelay_resp_follow_up
  handle_pdelay_resp_follow_up-Syncs garbage header length sys h =
      branch-Syncs opts.e2e_mode _ _ h (
        short-Syncs (ltb_ℤ length (pos pdelay_resp_follow_up_length)) sys _ h (
          branch-Syncs
            (exchanges_peer sys.port.port_state
              && eqb_ℤ (pos header.sequence_id) (pos sys.port.sent_pdelay_req_sequence_id -ℤ pos 1))
            _ _ (SyncAsMaster-same refl refl h) h))

  read_signaling-Holds : Holds read_signaling
  unfolding read_signaling msg_unpack_wr_signaling is_wr_organization
  read_signaling-Holds port h =
      let buf = port.msg_ibuf in
      let id = get_be16 54 buf in
      let kept : PortIdentity × ℕ × PtpPortDs → Type 0 = λ x. SyncAsMaster x.2 in
      SyncAsMaster-same refl refl (
        if_intro kept (get_be16 44 buf != tlv_type_org_extension || not (is_wr_organization 48 buf))
          _ _ (λ _. h)
          (λ _.
            if_intro SyncAsMaster (id == calibrate) _ _ (λ _. SyncAsMaster-same refl refl h)
              (λ _.
                if_intro SyncAsMaster (id == calibrated_id) _ _ (λ _. SyncAsMaster-same refl refl h)
                  (λ _. h))))

  pub handle_signaling-Syncs : (a : Answered) (self : Bool) → Syncs (handle_signaling a opts self)
  unfolding handle_signaling
  handle_signaling-Syncs a self sys h =
      let told = on_port read_signaling sys in
      let kept : IsSynced told = read_signaling-Holds sys.port h in
      branch-Syncs self _ _ h (
        branch-Syncs (meets_slave told.port) _ _
          (to_wr_state-Syncs a opts WrState.m_lock _ (SyncAsMaster-same refl refl kept)) kept)
